-- ===== src/RingBuff/Steps.antt =====
-- Each step of a producer keeps what holds of a shared ring.
use native.Mathlib.Nat.{mod-lt}
use sadie.Prelude.{
  ℕ, ◌+◌, ◌%◌, ◌^◌, ◌≤◌, ◌<◌, ◌≡◌, Bool, none, inl, inr, refl, arith, ◌==◌, Bool-cases,
}
use sadie.Word.{null, u32, sub32, negative32}
use sadie.RingBuff.{slot, AddPc, enter, load_seq, decide, put_mem, put_seq, added, full}
use sadie.RingBuff.System.{adding, System, produced}
use sadie.RingBuff.Shared.{cell, place, IsAdding, IsShared, slot_lem}
use sadie.RingBuff.Produce.{moves-IsShared, written-IsShared}
use sadie.RingBuff.Win.{can_win, winner-IsShared}

module _ {k : ℕ} {s : System} (v : IsShared k s) (spurious : Bool) (i m : ℕ) where
  -- The sequence numbers have not wrapped either.
  seq_small : (pos : ℕ) → (cell k s pos).seq ≤ 2 ^ 31
  seq_small pos =
      omega (arith, v.small (pos % 2 ^ k) (mod-lt pos (omega (arith, v.least))), v.order, v.bound)

  decide-IsShared :
      (pos seq : ℕ)
      → s.producer i ≡ adding m (decide pos seq)
      → (produced s spurious i m (decide pos seq)).num_sent + 2 ^ k < 2 ^ 31
      → IsShared k (produced s spurious i m (decide pos seq))
  unfolding produced
  decide-IsShared pos seq stands bound =
      let (in_range, given, le) = rw stands at (v.producers i) in
      let again : IsAdding k s (adding m (load_seq s.rb.add_idx)) =
        (omega (arith, v.add_at), given) in
      let out : place (s.producer i) ≡ none = rw stands in
      let retry = moves-IsShared v i m _ (adding m (load_seq s.rb.add_idx)) refl out refl again in
      elim (Bool-cases (sub32 seq pos == 0)) [
        | inl zero_dif ↦ elim (Bool-cases spurious) [
          | inl fails ↦ rw (zero_dif, fails) retry
          | inr tries ↦ elim (Bool-cases (s.rb.add_idx == pos)) [
            | inl wins ↦
                let at_end : pos ≡ s.num_sent = ground (arith, v.add_at) in
                let same_seq : seq ≡ s.num_sent = ground (arith, seq_small pos, v.bound) in
                let up : u32 (pos + 1) ≡ s.num_sent + 1 = omega (arith, v.bound) in
                let room = can_win v i m seq same_seq (rw at_end at le) in
                rw (zero_dif, tries, wins, up, at_end)
                  (winner-IsShared v i m room (rw (zero_dif, tries, wins) at bound) given out)
            | inr loses ↦ rw (zero_dif, tries, loses) retry
          ]
        ]
        | inr dif ↦ elim (Bool-cases (negative32 (sub32 seq pos))) [
          | inl less ↦
              rw (dif, less) (moves-IsShared v i m (s.producer i) (adding m full) refl out refl tt)
          | inr more ↦ rw (dif, more) retry
        ]
      ]

  -- Whatever step producer `i` takes in a call of add_mem, up to the position bound.
  pub in_add-IsShared :
      (p : AddPc)
      → s.producer i ≡ adding m p
      → (produced s spurious i m p).num_sent + 2 ^ k < 2 ^ 31
      → IsShared k (produced s spurious i m p)
  unfolding produced
  in_add-IsShared enter stands bound =
      let out : place (s.producer i) ≡ none = rw stands in
      elim (Bool-cases (m == null)) [
        | inl nil ↦ rw nil (moves-IsShared v i m (s.producer i) (adding m added) refl out refl tt)
        | inr given ↦ rw given (
            moves-IsShared v i m (s.producer i) (adding m (load_seq s.rb.add_idx)) refl out refl
              (omega (arith, v.add_at), ground arith))
      ]
  in_add-IsShared (load_seq pos) stands bound =
      let (in_range, given) = rw stands at (v.producers i) in
      let out : place (s.producer i) ≡ none = rw stands in
      let at : slot s.rb pos ≡ pos % 2 ^ k = slot_lem k s.rb pos v.masked in
      rw at (
        moves-IsShared v i m (s.producer i) (adding m (decide pos (cell k s pos).seq)) refl out refl
          (in_range, given, omega arith))
  in_add-IsShared (decide pos seq) stands bound = decide-IsShared pos seq stands bound
  in_add-IsShared (put_mem pos) stands bound =
      let (lo, hi, mine, e) = rw stands at (v.producers i) in
      let at : slot s.rb pos ≡ pos % 2 ^ k = slot_lem k s.rb pos v.masked in
      rw (at, e)
        (written-IsShared v i m pos pos (adding m (put_seq pos)) (omega arith) (omega arith)
          (rw stands) lo hi e (inr refl) (lo, hi, mine, ground arith, ground arith)
          (inr (ground arith, (i, ground arith))))
  in_add-IsShared (put_seq pos) stands bound =
      let (lo, hi, mine, e, filled) = rw stands at (v.producers i) in
      let at : slot s.rb pos ≡ pos % 2 ^ k = slot_lem k s.rb pos v.masked in
      let up : u32 (pos + 1) ≡ pos + 1 = omega (arith, v.bound) in
      rw (at, up, filled)
        (written-IsShared v i m pos (pos + 1) (adding m added) (omega arith) (omega arith)
          (rw stands) lo hi e (inl refl) tt (inl (ground arith, ground arith)))
  in_add-IsShared added stands bound =
      moves-IsShared v i m (s.producer i) (adding m added) refl (rw stands) refl tt
  in_add-IsShared full stands bound =
      moves-IsShared v i m (s.producer i) (adding m full) refl (rw stands) refl tt
