-- ===== src/RingBuff/SizeOne.antt =====
-- A ring of size 1, which init accepts as a power of two.
use sadie.Prelude.{
  ℕ, ◌+◌, ◌<◌, ◌≡◌, ◌≢◌, refl, ap, ◌∙◌, true, Option, some, arith, ◌==◌, if◌then◌else◌,
}
use sadie.Prelude.Bits.{bit_and-zero}
use sadie.Word.{u32, null, ok}
use sadie.Word.Bits.{count_one_bits}
use sadie.RingBuff.{Cell, RingBuff, slot, set_cell, add_mem, rmv_mem}
use sadie.RingBuff.Setup.{returned, init}

-- Between calls: the only cell has the next position's number, be it filled or not.
record IsOne (n r : ℕ) (rb : RingBuff) : Type 0 where
  sized : rb.size ≡ 1
  masked : rb.mask ≡ 0
  add_at : rb.add_idx ≡ n
  rmv_at : rb.rmv_idx ≡ r
  numbered : (rb.cells 0).seq ≡ n

module _ {n r : ℕ} {rb : RingBuff} (v : IsOne n r rb) (small : n < 3) where
  add_mem-IsOne :
      (x : ℕ)
      → x ≢ 0
      → (rb' : RingBuff) × (add_mem rb x ≡ some (true, rb'))
        × IsOne (n + 1) r rb'
        × ((rb'.cells 0).mem ≡ x)
  unfolding add_mem
  add_mem-IsOne x real =
      let at : slot rb rb.add_idx ≡ 0 = rw v.masked (bit_and-zero rb.add_idx) in
      let claimed = record rb { add_idx = u32 (rb.add_idx + 1) } in
      let s = slot rb rb.add_idx in
      let filled = set_cell claimed s (record { mem = x; seq = (rb.cells s).seq }) in
      let done =
        set_cell filled s (record { mem = (filled.cells s).mem; seq = u32 (rb.add_idx + 1) }) in
      (
        done,
        ground (arith, at, v.numbered, v.add_at),
        record {
          sized = v.sized;
          masked = v.masked;
          add_at = omega (arith, v.add_at);
          rmv_at = v.rmv_at;
          numbered = ground (arith, at, v.add_at);
        },
        ground (arith, at),
      )

  rmv_one :
      r < n
      → (rb' : RingBuff) × (rmv_mem rb ≡ some ((rb.cells 0).mem, rb'))
        × (rb'.rmv_idx ≡ r + 1)
        × (rb'.mask ≡ 0)
        × ((rb'.cells 0).seq ≡ r + 1)
  unfolding rmv_mem
  rmv_one lt =
      let at : slot rb rb.rmv_idx ≡ 0 = rw v.masked (bit_and-zero rb.rmv_idx) in
      let s = slot rb rb.rmv_idx in
      let emptied =
        set_cell rb s (record { mem = (rb.cells s).mem; seq = u32 (rb.rmv_idx + rb.size) }) in
      (
        record emptied { rmv_idx = u32 (rb.rmv_idx + 1) },
        ground (arith, at, v.numbered, v.rmv_at),
        omega (arith, v.rmv_at),
        v.masked,
        ground (arith, at, v.rmv_at, v.sized),
      )

rmv_none :
    (r : ℕ) (rb : RingBuff)
    → r < 2
    → rb.mask ≡ 0
    → rb.rmv_idx ≡ r
    → (rb.cells 0).seq ≡ r
    → rmv_mem rb ≡ some (null, rb)
unfolding rmv_mem
rmv_none r rb small masked at seq =
    let here : slot rb rb.rmv_idx ≡ 0 = rw masked (bit_and-zero rb.rmv_idx) in ground (arith, here)

-- Init accepts size 1 when the allocation succeeds. Then two items are accepted, the second
-- overwrites the first, only the second is returned, and the ring is empty.
size_one_loses :
    (malloc : ℕ → Option (ℕ → Cell)) (rb : RingBuff) {contents : ℕ → Cell} (x y : ℕ)
    → malloc 16 ≡ some contents
    → x ≢ 0
    → y ≢ 0
    → (r0 r1 r2 r3 : RingBuff) × (init malloc (some rb) 1 ≡ returned ok (some r0))
      × (add_mem r0 x ≡ some (true, r1))
      × (add_mem r1 y ≡ some (true, r2))
      × (rmv_mem r2 ≡ some (y, r3))
      × (rmv_mem r3 ≡ some (null, r3))
unfolding init count_one_bits
size_one_loses malloc rb {contents} x y given real_x real_y =
    let r0 = record rb {
      add_idx = 0;
      rmv_idx = 0;
      size = 1;
      mask = 0;
      count = 0;
      processed = 0;
      allocated = 1;
      cells = λ j. if j == 0 then record { mem = null; seq = 0 } else contents j;
    } in
    let v0 : IsOne 0 0 r0 = record {
      sized = refl;
      masked = refl;
      add_at = refl;
      rmv_at = refl;
      numbered = refl;
    } in
    let (r1, e1, v1, m1) = add_mem-IsOne v0 (omega arith) x real_x in
    let (r2, e2, v2, m2) = add_mem-IsOne v1 (omega arith) y real_y in
    let (r3, e3, at, masked, seq) = rmv_one v2 (omega arith) (omega arith) in
    (
      r0,
      r1,
      r2,
      r3,
      rw given,
      e1,
      e2,
      e3 ∙ ap (λ m. some (m, r3)) m2,
      rmv_none 1 r3 (omega arith) masked at seq,
    )
