-- ===== src/RingBuff/Produce.antt =====
-- The steps of a producer keep what holds of a shared ring.
use sadie.Prelude.{
  update, ℕ, ◌+◌, ◌%◌, ◌^◌, ◌≤◌, ◌<◌, ◌≡◌, ◌≢◌, false, Option, none, some, ◌⊎◌, inl, inr, refl,
  arith, ◌==◌, if◌then◌else◌, Bool-cases,
}
use sadie.RingBuff.{
  enter, load_seq, decide, put_mem, put_seq, added, full, RmvPc, check, take, release, advance,
  returned,
}
use sadie.RingBuff.System.{Producer, idle, adding, System}
use sadie.RingBuff.Frame.{IsAdding-moved, IsRemoving-moved}
use sadie.RingBuff.Shared.{cell, place, IsAdding, IsFilled, IsPending, IsRemoving, IsShared, window}

module _ {k : ℕ} {s : System} (v : IsShared k s) (i m : ℕ) where
  abbrev pub moved : Producer → System
  moved q = record s { producer = update s.producer i q }

  -- A producer without a position goes on without one, and the ring stays.
  pub moves-IsShared :
      (p q : Producer)
      → s.producer i ≡ p
      → place p ≡ none
      → place q ≡ none
      → IsAdding k s q
      → IsShared k (moved q)
  moves-IsShared p q stands out out' a = record {
    least = v.least;
    bound = v.bound;
    sized = v.sized;
    masked = v.masked;
    add_at = v.add_at;
    rmv_at = v.rmv_at;
    order = v.order;
    fits = v.fits;
    used = λ x lo hi. elim (v.used x lo hi) [
      | inl f ↦ inl f
      | inr (e, (j, f)) ↦ inr (e, (j, ground arith))
    ];
    free = v.free;
    small = v.small;
    same = v.same;
    real = v.real;
    producers = λ j. elim (Bool-cases (j == i)) [
      | inl mine ↦ rw mine (IsAdding-moved k s s.rb.rmv_idx (update s.producer i q) s.consumer q a)
      | inr other ↦ rw other (
          IsAdding-moved k s s.rb.rmv_idx (update s.producer i q) s.consumer (s.producer j)
            (v.producers j))
    ];
    one_place = λ j j' x e e'. ground (arith, v.one_place j j' x);
    consuming =
        IsRemoving-moved k s s.rb.rmv_idx (update s.producer i q) s.consumer s.consumer v.consuming;
  }

  -- The producer that has won `pos` writes its cell.
  module _ (pos seq : ℕ) (q : Producer) (grows : pos ≤ seq) (low : seq ≤ pos + 1) where
    abbrev pub written : System
    written = record s {
      rb = record s.rb {
        cells = λ j. if j == pos % 2 ^ k then record { mem = m; seq = seq } else s.rb.cells j;
      };
      producer = update s.producer i q;
    }

    -- Another position in use has another cell.
    cell_ne :
        place (s.producer i) ≡ some pos
        → s.num_got ≤ pos
        → pos < s.num_sent
        → (x : ℕ) → s.num_got ≤ x
        → x < s.num_got + 2 ^ k
        → x ≢ pos
        → x % 2 ^ k ≢ pos % 2 ^ k
    cell_ne stands lo hi x lo' hi' ne e = ne (
        window (2 ^ k) s.num_got x pos (omega (arith, v.least)) lo' hi' lo (omega (arith, v.fits))
          e)

    IsAdding-written :
        place (s.producer i) ≡ some pos
        → s.num_got ≤ pos
        → pos < s.num_sent
        → (cell k s pos).seq ≡ pos
        → (j : ℕ) (r : Producer) → (j == i) ≡ false
        → s.producer j ≡ r
        → IsAdding k s r
        → IsAdding k written r
    IsAdding-written stands lo hi e j idle other is a = a
    IsAdding-written stands lo hi e j (adding m' enter) other is a = a
    IsAdding-written stands lo hi e j (adding m' (load_seq x)) other is a = a
    IsAdding-written stands lo hi e j (adding m' (decide x y)) other is a = ground arith
    IsAdding-written stands lo hi e j (adding m' (put_mem x)) other is a =
        ground (arith, cell_ne stands lo hi x, v.one_place i j pos, v.fits)
    IsAdding-written stands lo hi e j (adding m' (put_seq x)) other is a =
        ground (arith, cell_ne stands lo hi x, v.one_place i j pos, v.fits)
    IsAdding-written stands lo hi e j (adding m' added) other is a = a
    IsAdding-written stands lo hi e j (adding m' full) other is a = a

    IsRemoving-written :
        place (s.producer i) ≡ some pos
        → s.num_got ≤ pos
        → pos < s.num_sent
        → (cell k s pos).seq ≡ pos
        → (c : Option RmvPc) → IsRemoving k s c
        → IsRemoving k written c
    IsRemoving-written stands lo hi e none a = a
    IsRemoving-written stands lo hi e (some RmvPc.enter) a = a
    IsRemoving-written stands lo hi e (some (check x y)) a = ground arith
    IsRemoving-written stands lo hi e (some (take x)) a =
        ground (arith, cell_ne stands lo hi x, v.fits)
    IsRemoving-written stands lo hi e (some (release x mem)) a =
        ground (arith, cell_ne stands lo hi x, v.fits)
    IsRemoving-written stands lo hi e (some (advance mem)) a = a
    IsRemoving-written stands lo hi e (some (returned mem)) a = a

    pub written-IsShared :
        place (s.producer i) ≡ some pos
        → s.num_got ≤ pos
        → pos < s.num_sent
        → (cell k s pos).seq ≡ pos
        → (place q ≡ none) ⊎ (place q ≡ some pos)
        → IsAdding k written q
        → IsFilled k written pos ⊎ IsPending k written pos
        → IsShared k written
    written-IsShared stands lo hi e there a own = record {
      least = v.least;
      bound = v.bound;
      sized = v.sized;
      masked = v.masked;
      add_at = v.add_at;
      rmv_at = v.rmv_at;
      order = v.order;
      fits = v.fits;
      used = λ x lo' hi'. elim (Bool-cases (x == pos)) [
        | inl mine ↦ let same : x ≡ pos = ground arith in rw same own
        | inr other ↦ elim (v.used x lo' hi') [
          | inl f ↦ inl (ground (arith, cell_ne stands lo hi x, v.fits))
          | inr (e', (j, f)) ↦
              inr (ground (arith, cell_ne stands lo hi x, v.fits), (j, ground arith))
        ]
      ];
      free = λ x lo' hi'. ground (arith, v.free x, cell_ne stands lo hi x);
      small = λ j lt. ground (arith, v.small j, v.fits);
      same = v.same;
      real = v.real;
      producers = λ j. elim (Bool-cases (j == i)) [
        | inl mine ↦ rw mine a
        | inr other ↦
            rw other (IsAdding-written stands lo hi e j (s.producer j) other refl (v.producers j))
      ];
      one_place = λ j j' x e1 e2. ground (arith, v.one_place j j' x);
      consuming = IsRemoving-written stands lo hi e s.consumer v.consuming;
    }
