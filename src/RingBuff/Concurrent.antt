-- ===== src/RingBuff/Concurrent.antt =====
-- One ring, any number of producers, one consumer, in any order of their steps.
use native.Mathlib.Nat.{div-add-mod, mul-add-mod_self_left, mod-eq_of_lt, mod-lt, mod-mod, mul-add}
use sadie.Prelude.{
  ℕ, ◌+◌, ◌-◌, ◌*◌, ◌/◌, ◌%◌, ◌^◌, ◌≤◌, ◌<◌, ◌≡◌, ◌≢◌, Bool, some, ◌⊎◌, inl, inr, [], refl, arith,
  ◌∙◌, ap, dec_lt,
}
use sadie.Word.{null}
use sadie.RingBuff.{
  RingBuff, AddPc, load_seq, decide, put_mem, full, add_step, RmvPc, release, returned, rmv_step,
}
use sadie.RingBuff.Inv.{IsRing, size_bounds}
use sadie.RingBuff.System.{
  idle, adding, System, produced, consumed, wins, leaves, Step, call_add, in_add, return_added,
  return_full, call_rmv, in_rmv, return_rmv, Reach, here, next, start,
}
use sadie.RingBuff.Shared.{cell, place, behind, IsShared, window, slot_lem}
use sadie.RingBuff.Produce.{moves-IsShared}
use sadie.RingBuff.Steps.{in_add-IsShared}
use sadie.RingBuff.Consume.{in_rmv-IsShared, call_rmv-IsShared, return_rmv-IsShared}

wins-num_sent : (s : System) (m : ℕ) (p q : AddPc) → s.num_sent ≤ (wins s m p q).num_sent
wins-num_sent s m (decide pos seq) (put_mem won) = omega arith
wins-num_sent s m (decide pos seq) q = ground arith
wins-num_sent s m p q = ground arith

leaves-num_sent : (s : System) (p : RmvPc) → (leaves s p).num_sent ≡ s.num_sent
leaves-num_sent s (release pos mem) = refl
leaves-num_sent s p = ground arith

produced-num_sent :
    (s : System) (spurious : Bool) (i m : ℕ) (p : AddPc)
    → s.num_sent ≤ (produced s spurious i m p).num_sent
unfolding produced
produced-num_sent s spurious i m p = wins-num_sent s m p (add_step spurious m s.rb p).1

consumed-num_sent : (s : System) (p : RmvPc) → (consumed s p).num_sent ≡ s.num_sent
unfolding consumed
consumed-num_sent s p = leaves-num_sent s p

Step-num_sent : {s t : System} → Step s t → s.num_sent ≤ t.num_sent
Step-num_sent (call_add i m e) = omega arith
Step-num_sent {s} (in_add spurious i m p e) = produced-num_sent s spurious i m p
Step-num_sent (return_added i m e) = omega arith
Step-num_sent (return_full i m e) = omega arith
Step-num_sent (call_rmv e) = omega arith
Step-num_sent {s} (in_rmv p e) = omega (arith, consumed-num_sent s p)
Step-num_sent (return_rmv m e) = omega arith

Step-IsShared :
    {k : ℕ} {s t : System} → Step s t → t.num_sent + 2 ^ k < 2 ^ 31 → IsShared k s → IsShared k t
Step-IsShared {s = s} (call_add i m e) bound v =
    moves-IsShared v i m (s.producer i) (adding m AddPc.enter) refl (rw e) refl tt
Step-IsShared (in_add spurious i m p e) bound v = in_add-IsShared v spurious i m p e bound
Step-IsShared {s = s} (return_added i m e) bound v =
    moves-IsShared v i m (s.producer i) idle refl (rw e) refl tt
Step-IsShared {s = s} (return_full i m e) bound v =
    moves-IsShared v i m (s.producer i) idle refl (rw e) refl tt
Step-IsShared (call_rmv e) bound v = call_rmv-IsShared v e
Step-IsShared (in_rmv p e) bound v = in_rmv-IsShared v p e
Step-IsShared (return_rmv m e) bound v = return_rmv-IsShared v m e

Reach-IsShared :
    {k : ℕ} {s t : System} → IsShared k s → Reach s t → t.num_sent + 2 ^ k < 2 ^ 31 → IsShared k t
Reach-IsShared v here bound = v
Reach-IsShared v (next r st) bound =
    Step-IsShared st bound (Reach-IsShared v r (omega (arith, Step-num_sent st)))

start-IsShared : {k : ℕ} {rb : RingBuff} → 2 ^ k < 2 ^ 31 → IsRing k 0 [] rb → IsShared k (start rb)
start-IsShared {k} {rb} small v =
    let (least, most) = size_bounds v in
    let fresh : ((p : ℕ) → p < 2 ^ k → (rb.cells (p % 2 ^ k)).seq ≡ p) = λ p lt.
      let zero : 0 + p ≡ p = omega arith in
      rw zero at (v.free p (omega arith) lt) ∙ mod-eq_of_lt (omega arith) in
    record {
      least = least;
      bound = omega arith;
      sized = v.sized;
      masked = v.masked;
      add_at = v.add_at;
      rmv_at = ground (arith, v.rmv_at);
      order = omega arith;
      fits = omega arith;
      used = λ p lo hi. absurd (omega arith);
      free = λ p lo hi. fresh p (omega arith);
      small = λ j lt.
          let own : j % 2 ^ k ≡ j = mod-eq_of_lt lt in
          let at : (rb.cells j).seq ≡ j = rw own at (fresh j lt) in omega arith;
      same = λ p hi. absurd (omega arith);
      real = λ p hi. absurd (omega arith);
      producers = λ i. tt;
      one_place = λ i j p e. cc;
      consuming = tt;
    }

-- Every cell is that of a position in the window of the ring's size.
in_window : (n r x : ℕ) → 0 < n → (p : ℕ) × (r ≤ p) × (p < r + n) × (p % n ≡ x % n)
in_window n r x pos = elim (dec_lt (x % n) (r % n)) [
  | yes below ↦ (
    n * (r / n + 1) + x % n,
    omega (arith, div-add-mod r n, mod-lt r pos, mul-add n (r / n) 1),
    omega (arith, div-add-mod r n, mul-add n (r / n) 1),
    mul-add-mod_self_left n (r / n + 1) (x % n) ∙ mod-mod x n,
  )
  | no above ↦ (
    n * (r / n) + x % n,
    omega (arith, div-add-mod r n),
    omega (arith, div-add-mod r n, mod-lt x pos, mod-lt r pos),
    mul-add-mod_self_left n (r / n) (x % n) ∙ mod-mod x n,
  )
]

module _ {k : ℕ} {t : System} (v : IsShared k t) where
  -- The cell of a position that has been reached holds no number below it, unless the ring is full.
  cell_below :
      (pos : ℕ) → pos ≤ t.num_sent → (cell k t pos).seq < pos → t.num_sent ≡ t.num_got + 2 ^ k
  cell_below pos hi below =
      let (p, lo, hi', e) = in_window (2 ^ k) t.num_got pos (omega (arith, v.least)) in
      let at_least : p ≤ (cell k t p).seq = elim (dec_lt p t.num_sent) [
        | yes used ↦ elim (v.used p lo used) [ inl f ↦ omega arith | inr q ↦ omega arith ]
        | no free ↦ omega (arith, v.free p (omega arith) hi')
      ] in
      let same : (cell k t p).seq ≡ (cell k t pos).seq = ap (λ (x : ℕ). (t.rb.cells x).seq) e in
      elim (dec_lt pos (t.num_got + 2 ^ k)) [
        | yes before ↦ elim (dec_lt pos t.num_got) [
          | yes gone ↦ absurd (omega arith)
          | no here_yet ↦
              let own : p ≡ pos =
                window (2 ^ k) t.num_got p pos (omega (arith, v.least)) lo hi' (omega arith) before
                  e in
              absurd (omega arith)
        ]
        | no after ↦ omega (arith, v.fits)
      ]

  decides_full :
      (spurious : Bool) (m pos : ℕ) (rb : RingBuff)
      → pos ≤ t.num_sent
      → (add_step spurious m rb (decide pos (cell k t pos).seq)).1 ≡ full
      → t.num_sent ≡ t.num_got + 2 ^ k
  unfolding add_step
  decides_full spurious m pos rb hi e =
      let small = v.small (pos % 2 ^ k) (mod-lt pos (omega (arith, v.least))) in
      let below : (cell k t pos).seq < pos = ground (arith, v.bound, v.order) in
      cell_below pos hi below

  oldest_open :
      t.consumer ≡ some RmvPc.enter
      → (later : RingBuff) → (rmv_step later (rmv_step t.rb RmvPc.enter).1).1 ≡ returned null
      → (t.num_got ≡ t.num_sent) ⊎ ((i : ℕ) × (place (t.producer i) ≡ some t.num_got))
  unfolding rmv_step
  oldest_open stands later e =
      let none_behind : behind t.consumer ≡ 0 = rw stands in
      let at : t.rb.rmv_idx ≡ t.num_got = omega (arith, v.rmv_at) in
      let slot_at = slot_lem k t.rb t.num_got v.masked in
      let e' = rw (at, slot_at) at e in
      elim (dec_lt t.num_got t.num_sent) [
        | yes item ↦ elim (v.used t.num_got (omega arith) item) [
          | inl f ↦ absurd (ground (arith, v.bound, v.order, e'))
          | inr (q, p) ↦ inr p
        ]
        | no nothing ↦ inl (omega (arith, v.order))
      ]

-- A ring that has been initialised, while the positions and the size are below 2 ^ 31.
module _ (k : ℕ) (rb : RingBuff) (ready : IsRing k 0 [] rb) {t : System} (r : Reach (start rb) t)
    (bound : t.num_sent + 2 ^ k < 2 ^ 31) where
  shared : IsShared k t
  shared = Reach-IsShared (start-IsShared (omega arith) ready) r bound

  -- From an empty ring of size 2 ^ k in a good state at position 0, after any steps of any producers
  -- in add_mem and of one consumer in rmv_mem, while the positions and the size are below 2 ^ 31: the
  -- ring has no more items than cells, what has been removed is what the winners of the first
  -- positions add, in the order of the positions, and what rmv_mem returns, if not NULL, is the last
  -- of these.
  pub Reach-removed :
      (t.num_got ≤ t.num_sent)
      × (t.num_sent ≤ t.num_got + 2 ^ k)
      × ((p : ℕ) → p < t.num_got → t.got p ≡ t.sent p)
      × ((mem : ℕ)
          → t.consumer ≡ some (returned mem)
          → mem ≢ null
          → (0 < t.num_got) × (mem ≡ t.sent (t.num_got - 1)))
  Reach-removed =
      let v = shared in
      (
        v.order,
        v.fits,
        v.same,
        λ mem stands given.
            let a = rw stands at v.consuming in ground (arith, a, v.same (t.num_got - 1)),
      )

  -- In a state that such steps reach, add_mem answers AC_FALSE only for a number that it loads when
  -- all positions of the ring are in use.
  pub Reach-full :
      (i m pos : ℕ)
      → t.producer i ≡ adding m (load_seq pos)
      → (spurious spurious' : Bool) (later : RingBuff)
      → (add_step spurious' m later (add_step spurious m t.rb (load_seq pos)).1).1 ≡ full
      → t.num_sent ≡ t.num_got + 2 ^ k
  unfolding add_step
  Reach-full i m pos stands spurious spurious' later e =
      let a = rw stands at (shared.producers i) in
      decides_full shared spurious' m pos later a.0 (rw (slot_lem k t.rb pos shared.masked) at e)

  -- In a state that such steps reach, rmv_mem answers NULL only for a number that it loads when every
  -- item has been removed, or when the producer that won the oldest position has not filled its cell.
  pub Reach-oldest :
      t.consumer ≡ some RmvPc.enter
      → (later : RingBuff) → (rmv_step later (rmv_step t.rb RmvPc.enter).1).1 ≡ returned null
      → (t.num_got ≡ t.num_sent) ⊎ ((i : ℕ) × (place (t.producer i) ≡ some t.num_got))
  unfolding rmv_step
  Reach-oldest stands later e = oldest_open shared stands later e
