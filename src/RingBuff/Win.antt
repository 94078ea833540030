-- ===== src/RingBuff/Win.antt =====
-- The exchange by which a producer wins the next position of a shared ring.
use native.Mathlib.Nat.{add-mod_right}
use sadie.Prelude.{
  update, ℕ, ◌+◌, ◌%◌, ◌^◌, ◌≤◌, ◌<◌, ◌≡◌, ◌≢◌, Option, none, some, inl, inr, refl, arith, ◌==◌,
  Bool-cases, dec_lt, ap,
}
use sadie.Word.{null}
use sadie.RingBuff.{
  enter, load_seq, decide, put_mem, put_seq, added, full, RmvPc, check, take, release, advance,
  returned,
}
use sadie.RingBuff.System.{Producer, idle, adding, System}
use sadie.RingBuff.Shared.{cell, place, IsAdding, IsRemoving, IsShared}

module _ {k : ℕ} {s : System} (v : IsShared k s) (i m : ℕ) where
  -- In a ring that is full, the cell of the next position is still that of the oldest item.
  oldest : s.num_got < s.num_sent → (cell k s s.num_got).seq ≤ s.num_got + 1
  oldest lt = elim (v.used s.num_got (omega arith) lt) [
    | inl f ↦ ground arith
    | inr (e, p) ↦ ground arith
  ]

  -- So the exchange is only tried, and can succeed, when the next position is free.
  pub can_win :
      (seq : ℕ)
      → seq ≡ s.num_sent
      → seq ≤ (cell k s s.num_sent).seq
      → s.num_sent < s.num_got + 2 ^ k
  can_win seq e le = elim (dec_lt s.num_sent (s.num_got + 2 ^ k)) [
    | yes room ↦ room
    | no none_left ↦
        let end : s.num_sent ≡ s.num_got + 2 ^ k = omega (arith, v.fits) in
        let same : s.num_sent % 2 ^ k ≡ s.num_got % 2 ^ k =
          rw end (add-mod_right s.num_got (2 ^ k)) in
        let old = oldest (omega (arith, v.least)) in
        let seqs : (cell k s s.num_sent).seq ≡ (cell k s s.num_got).seq =
          ap (λ (x : ℕ). (s.rb.cells x).seq) same in
        absurd (omega (arith, v.least))
  ]

  abbrev pub winner : System
  winner = record s {
    rb = record s.rb { add_idx = s.num_sent + 1 };
    producer = update s.producer i (adding m (put_mem s.num_sent));
    sent = update s.sent s.num_sent m;
    num_sent = s.num_sent + 1;
  }

  IsAdding-winner : (r : Producer) → IsAdding k s r → IsAdding k winner r
  IsAdding-winner idle a = a
  IsAdding-winner (adding m' enter) a = a
  IsAdding-winner (adding m' (load_seq x)) a = (omega arith, a.1)
  IsAdding-winner (adding m' (decide x y)) a = (omega arith, a.1, a.2)
  IsAdding-winner (adding m' (put_mem x)) a = ground arith
  IsAdding-winner (adding m' (put_seq x)) a = ground arith
  IsAdding-winner (adding m' added) a = a
  IsAdding-winner (adding m' full) a = a

  IsRemoving-winner : (c : Option RmvPc) → IsRemoving k s c → IsRemoving k winner c
  IsRemoving-winner none a = a
  IsRemoving-winner (some RmvPc.enter) a = a
  IsRemoving-winner (some (check x y)) a = a
  IsRemoving-winner (some (take x)) a = ground arith
  IsRemoving-winner (some (release x mem)) a = ground arith
  IsRemoving-winner (some (advance mem)) a = a
  IsRemoving-winner (some (returned mem)) a = a

  inside : (j x : ℕ) → place (s.producer j) ≡ some x → x < s.num_sent
  inside j x e = place_inside (s.producer j) (v.producers j) e
    where
      place_inside : (r : Producer) → IsAdding k s r → place r ≡ some x → x < s.num_sent
      place_inside idle a e' = cc
      place_inside (adding m' enter) a e' = cc
      place_inside (adding m' (load_seq y)) a e' = cc
      place_inside (adding m' (decide y z)) a e' = cc
      place_inside (adding m' (put_mem y)) a e' = ground arith
      place_inside (adding m' (put_seq y)) a e' = ground arith
      place_inside (adding m' added) a e' = cc
      place_inside (adding m' full) a e' = cc

  pub winner-IsShared :
      s.num_sent < s.num_got + 2 ^ k
      → s.num_sent + 1 + 2 ^ k < 2 ^ 31
      → m ≢ null
      → place (s.producer i) ≡ none
      → IsShared k winner
  winner-IsShared room bound given stands = record {
    least = v.least;
    bound = bound;
    sized = v.sized;
    masked = v.masked;
    add_at = refl;
    rmv_at = v.rmv_at;
    order = omega (arith, v.order);
    fits = omega arith;
    used = λ x lo hi. elim (Bool-cases (x == s.num_sent)) [
      | inl mine ↦
          let same : x ≡ s.num_sent = ground arith in
          inr (ground (arith, v.free x), (i, ground arith))
      | inr other ↦ elim (v.used x lo (ground arith)) [
        | inl f ↦ inl (ground arith)
        | inr (e, (j, f)) ↦ inr (e, (j, ground arith))
      ]
    ];
    free = λ x lo hi. v.free x (omega arith) hi;
    small = v.small;
    same = λ x hi. ground (arith, v.same x, v.order);
    real = λ x hi. ground (arith, v.real x);
    producers = λ j. elim (Bool-cases (j == i)) [
      | inl mine ↦
          rw mine (v.order, omega arith, ground arith, v.free s.num_sent (omega arith) room)
      | inr other ↦ rw other (IsAdding-winner (s.producer j) (v.producers j))
    ];
    one_place = λ j j' x e1 e2.
        ground (arith, v.one_place j j' x, inside j s.num_sent, inside j' s.num_sent);
    consuming = IsRemoving-winner s.consumer v.consuming;
  }
