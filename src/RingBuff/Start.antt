-- ===== src/RingBuff/Start.antt =====
-- What `AcMpscRingBuff_init` returns on each of its paths, and what its result holds.
use native.Mathlib.Nat.{zero-add, mod-eq_of_lt}
use sadie.Prelude.{
  ℕ, zero, suc, ◌+◌, ◌*◌, ◌^◌, ◌≤◌, ◌<◌, ◌≡◌, ◌≢◌, refl, ap, ◌∙◌, sym, true, false, Option, none,
  some, [], arith, dec_lt, ◌==◌, ltb, ℕ_discrete,
}
use sadie.Prelude.Bits.{pow_pos, pow_mono}
use sadie.Word.{null, sub32, ok, bad_param}
use sadie.Word.Bits.{count_one_bits, count_one_bits-pow, count_one_bits-eq-one}
use sadie.RingBuff.{Cell, RingBuff, set_cell}
use sadie.RingBuff.Refine.{Holds}
use sadie.RingBuff.Setup.{finish, returned, crashed, fill, init}

-- The cells from `i` on, `n` of them, are numbered; nothing else changes.
record Numbered (i n : ℕ) (rb rb' : RingBuff) : Type 0 where
  cell : (j : ℕ) → i ≤ j → j < i + n → rb'.cells j ≡ record { mem = null; seq = j }
  below : (j : ℕ) → j < i → rb'.cells j ≡ rb.cells j
  size_eq : rb'.size ≡ rb.size
  mask_eq : rb'.mask ≡ rb.mask
  add_eq : rb'.add_idx ≡ rb.add_idx
  rmv_eq : rb'.rmv_idx ≡ rb.rmv_idx
  allocated_eq : rb'.allocated ≡ rb.allocated

fill-Numbered :
    (n i : ℕ) (rb : RingBuff)
    → i + n ≤ rb.allocated
    → (rb' : RingBuff) × (fill n i rb ≡ some rb') × Numbered i n rb rb'
unfolding fill
fill-Numbered zero i rb h = (
  rb,
  refl,
  record {
    cell = λ j lo hi. absurd (omega arith);
    below = λ j lt. refl;
    size_eq = refl;
    mask_eq = refl;
    add_eq = refl;
    rmv_eq = refl;
    allocated_eq = refl;
  },
)
fill-Numbered (suc n) i rb h =
    let next = set_cell rb i (record { mem = null; seq = i }) in
    let (rb', e, f) = fill-Numbered n (i + 1) next (omega arith) in
    let inside : ltb i rb.allocated ≡ true = ground arith in
    (
      rb',
      rw inside e,
      record {
        cell = λ j lo hi. elim (dec_lt i j) [
          | yes after ↦ f.cell j (omega arith) (omega arith)
          | no at ↦ f.below j (omega arith) ∙ ground arith
        ];
        below = λ j lt. f.below j (omega arith) ∙ ground arith;
        size_eq = f.size_eq;
        mask_eq = f.mask_eq;
        add_eq = f.add_eq;
        rmv_eq = f.rmv_eq;
        allocated_eq = f.allocated_eq;
      },
    )

fill-unallocated : (n : ℕ) (rb : RingBuff) → 0 < n → rb.allocated ≡ 0 → fill n 0 rb ≡ none
unfolding fill
fill-unallocated zero rb h e = absurd (omega arith)
fill-unallocated (suc n) rb h e = ground arith

module _ (malloc : ℕ → Option (ℕ → Cell)) (rb : RingBuff) where
  -- For a power of two from 2 to 2 ^ 31 and an allocation that succeeds, init returns OK and the
  -- ring holds the empty queue.
  pub init-Holds :
      (k : ℕ) {contents : ℕ → Cell}
      → 1 ≤ k
      → k ≤ 31
      → malloc (2 ^ k * 16) ≡ some contents
      → (rb' : RingBuff) × (init malloc (some rb) (2 ^ k) ≡ returned ok (some rb')) × Holds k [] rb'
  unfolding init
  init-Holds k {contents} lo hi given =
      let bounds = pow_mono k 31 hi in
      let p = pow_pos k in
      let one : (count_one_bits (2 ^ k) == 1) ≡ true = rw (count_one_bits-pow k (omega arith)) in
      let sized = record rb {
        add_idx = 0;
        rmv_idx = 0;
        size = 2 ^ k;
        mask = sub32 (2 ^ k) 1;
        count = 0;
        processed = 0;
        cells = contents;
        allocated = 2 ^ k;
      } in
      let (rb', e, f) = fill-Numbered (2 ^ k) 0 sized (omega arith) in
      let there : (rb'.allocated == 0) ≡ false = ground (arith, f.allocated_eq) in
      (
        rb',
        rw (one, given, e, there),
        (
          0,
          record {
            least = lo;
            greatest = hi;
            sized = f.size_eq;
            masked = f.mask_eq ∙ omega arith;
            backed = f.allocated_eq;
            rmv_at = f.rmv_eq;
            add_at = f.add_eq;
            fits = omega arith;
            filled = λ i h. absurd (omega arith);
            free = λ i l h.
                rw (zero-add i, mod-eq_of_lt h)
                  (ap Cell.seq (f.cell i (omega arith) (omega arith))
                    ∙ sym (mod-eq_of_lt (omega arith)));
            real = λ i h. absurd (omega arith);
          },
        ),
      )

  -- A size that is no power of two is refused with BAD_PARAM; the two indices have been reset.
  pub init-bad_param :
      (size : ℕ)
      → size < 2 ^ 32
      → ((k : ℕ) → size ≢ 2 ^ k)
      → init malloc (some rb) size
        ≡ returned bad_param (some (record rb { add_idx = 0; rmv_idx = 0 }))
  unfolding init
  init-bad_param size lt none_such = elim (ℕ_discrete (count_one_bits size) 1) [
    | yes e ↦ let (k, p) = count_one_bits-eq-one size (omega arith) e in absurd (none_such k p)
    | no ne ↦ let other : (count_one_bits size == 1) ≡ false = ground arith in rw other
  ]

  -- When the allocation fails, init writes through NULL for every size that it accepts: it never
  -- returns OUT_OF_MEMORY.
  pub init-crashed :
      (k : ℕ) → k < 32 → malloc (2 ^ k * 16) ≡ none → init malloc (some rb) (2 ^ k) ≡ crashed
  unfolding init
  init-crashed k lt refused =
      let one : (count_one_bits (2 ^ k) == 1) ≡ true = rw (count_one_bits-pow k (omega arith)) in
      rw (one, refused) (ap finish (fill-unallocated (2 ^ k) _ (pow_pos k) refl))
