-- ===== src/RingBuff/Consume.antt =====
-- Each step of the consumer keeps what holds of a shared ring.
use native.Mathlib.Nat.{mod-lt, add-mod_right}
use sadie.Prelude.{
  update, ℕ, ◌+◌, ◌%◌, ◌^◌, ◌≤◌, ◌<◌, ◌≡◌, ◌≢◌, Option, none, some, inl, inr, refl, arith, ◌==◌,
  if◌then◌else◌, Bool-cases, dec_lt,
}
use sadie.Word.{null, u32, sub32, negative32}
use sadie.RingBuff.{
  slot, enter, load_seq, decide, put_mem, put_seq, added, full, RmvPc, check, take, release,
  advance, returned,
}
use sadie.RingBuff.System.{Producer, idle, adding, System, consumed}
use sadie.RingBuff.Frame.{moved, IsAdding-moved, IsRemoving-moved}
use sadie.RingBuff.Shared.{cell, IsAdding, IsFilled, IsRemoving, behind, IsShared, window, slot_lem}

module _ {k : ℕ} {s : System} (v : IsShared k s) where
  -- A step of the consumer that writes no cell.
  goes :
      (rmv_idx : ℕ) (c : Option RmvPc)
      → rmv_idx + behind c ≡ s.num_got
      → IsRemoving k s c
      → IsShared k (moved k s rmv_idx s.producer c)
  goes rmv_idx c at a = record {
    least = v.least;
    bound = v.bound;
    sized = v.sized;
    masked = v.masked;
    add_at = v.add_at;
    rmv_at = at;
    order = v.order;
    fits = v.fits;
    used = v.used;
    free = v.free;
    small = v.small;
    same = v.same;
    real = v.real;
    producers = λ j. IsAdding-moved k s rmv_idx s.producer c (s.producer j) (v.producers j);
    one_place = v.one_place;
    consuming = IsRemoving-moved k s rmv_idx s.producer c c a;
  }

  stays :
      (c : Option RmvPc)
      → behind c ≡ behind s.consumer
      → IsRemoving k s c
      → IsShared k (record s { consumer = c })
  stays c same a = goes s.rb.rmv_idx c (omega (arith, v.rmv_at)) a

  -- A cell whose number is past its position is that of an item in the ring.
  is_filled :
      s.num_got < (cell k s s.num_got).seq → (s.num_got < s.num_sent) × IsFilled k s s.num_got
  is_filled past = elim (dec_lt s.num_got s.num_sent) [
    | yes some_item ↦ elim (v.used s.num_got (omega arith) some_item) [
      | inl f ↦ (some_item, f)
      | inr (e, p) ↦ absurd (omega arith)
    ]
    | no empty ↦
        absurd (omega (arith, v.free s.num_got (omega arith) (omega (arith, v.least)), v.order))
  ]

  check-IsShared :
      (pos seq : ℕ) → s.consumer ≡ some (check pos seq) → IsShared k (consumed s (check pos seq))
  unfolding consumed
  check-IsShared pos seq stands =
      let (is_pos, le) = rw stands at v.consuming in
      let quiet : 0 ≡ behind s.consumer = rw stands in
      let up : u32 (pos + 1) ≡ pos + 1 = omega (arith, v.bound, v.order) in
      let small = v.small (pos % 2 ^ k) (mod-lt pos (omega (arith, v.least))) in
      elim (Bool-cases (negative32 (sub32 seq (pos + 1)))) [
        | inl empty ↦ rw (up, empty) (stays (some (returned null)) quiet (inl refl))
        | inr item ↦
            let le' : seq ≤ (cell k s s.num_got).seq = rw is_pos at le in
            let past : s.num_got < (cell k s s.num_got).seq = ground (arith, v.bound, v.order) in
            rw (up, item)
              (stays (some (take pos)) quiet
                (let (some_item, f) = is_filled past in (is_pos, rw is_pos some_item, rw is_pos f)))
      ]

  -- The consumer gives the cell of the oldest item back.
  abbrev given_back : ℕ → System
  given_back mem = record s {
    rb = record s.rb {
      cells = λ j.
          if j == s.num_got % 2 ^ k
          then record { mem = (cell k s s.num_got).mem; seq = s.num_got + 2 ^ k }
          else s.rb.cells j;
    };
    consumer = some (advance mem);
    got = update s.got s.num_got mem;
    num_got = s.num_got + 1;
  }

  slot_off : (x : ℕ) → s.num_got < x → x < s.num_got + 2 ^ k → x % 2 ^ k ≢ s.num_got % 2 ^ k
  slot_off x lo hi e = ground (
    arith,
    window (2 ^ k) s.num_got x s.num_got (omega (arith, v.least)) (omega arith) hi (omega arith)
        (omega (arith, v.least)) e,
  )

  IsAdding-given_back :
      (mem : ℕ)
      → IsFilled k s s.num_got
      → (r : Producer) → IsAdding k s r
      → IsAdding k (given_back mem) r
  IsAdding-given_back mem f idle a = a
  IsAdding-given_back mem f (adding m' enter) a = a
  IsAdding-given_back mem f (adding m' (load_seq x)) a = a
  IsAdding-given_back mem f (adding m' (decide x y)) a = ground (arith, v.least)
  IsAdding-given_back mem f (adding m' (put_mem x)) a = ground (arith, slot_off x, v.fits)
  IsAdding-given_back mem f (adding m' (put_seq x)) a = ground (arith, slot_off x, v.fits)
  IsAdding-given_back mem f (adding m' added) a = a
  IsAdding-given_back mem f (adding m' full) a = a

  given_back-IsShared :
      (mem : ℕ)
      → behind s.consumer ≡ 0
      → s.num_got < s.num_sent
      → IsFilled k s s.num_got
      → mem ≡ s.sent s.num_got
      → IsShared k (given_back mem)
  given_back-IsShared mem quiet some_item f is_mem = record {
    least = v.least;
    bound = v.bound;
    sized = v.sized;
    masked = v.masked;
    add_at = v.add_at;
    rmv_at = omega (arith, v.rmv_at);
    order = omega arith;
    fits = omega (arith, v.fits);
    used = λ x lo hi. elim (v.used x (omega arith) hi) [
      | inl g ↦ inl (ground (arith, slot_off x, v.fits))
      | inr (e, p) ↦ inr (ground (arith, slot_off x, v.fits), p)
    ];
    free = λ x lo hi. elim (dec_lt x (s.num_got + 2 ^ k)) [
      | yes old ↦ ground (arith, slot_off x, v.free x)
      | no new ↦
          let last : x ≡ s.num_got + 2 ^ k = omega arith in
          ground (arith, add-mod_right s.num_got (2 ^ k))
    ];
    small = λ j lt. ground (arith, v.small j);
    same = λ x hi. ground (arith, v.same x);
    real = v.real;
    producers = λ j. IsAdding-given_back mem f (s.producer j) (v.producers j);
    one_place = v.one_place;
    consuming = (omega arith, ground arith);
  }

  -- Whatever step the consumer takes in a call of rmv_mem.
  pub in_rmv-IsShared : (p : RmvPc) → s.consumer ≡ some p → IsShared k (consumed s p)
  unfolding consumed
  in_rmv-IsShared enter stands =
      let quiet : 0 ≡ behind s.consumer = rw stands in
      let at : slot s.rb s.rb.rmv_idx ≡ s.rb.rmv_idx % 2 ^ k =
        slot_lem k s.rb s.rb.rmv_idx v.masked in
      rw at (
        stays (some (check s.rb.rmv_idx (cell k s s.rb.rmv_idx).seq)) quiet
          (omega (arith, v.rmv_at), omega arith))
  in_rmv-IsShared (check pos seq) stands = check-IsShared pos seq stands
  in_rmv-IsShared (take pos) stands =
      let (is_pos, some_item, f) = rw stands at v.consuming in
      let quiet : 0 ≡ behind s.consumer = rw stands in
      let at : slot s.rb pos ≡ pos % 2 ^ k = slot_lem k s.rb pos v.masked in
      rw at (stays (some (release pos (cell k s pos).mem)) quiet (is_pos, some_item, f, f.0))
  in_rmv-IsShared (release pos mem) stands =
      let (is_pos, some_item, f, is_mem) = rw stands at v.consuming in
      let at : slot s.rb pos ≡ pos % 2 ^ k = slot_lem k s.rb pos v.masked in
      let up : u32 (pos + s.rb.size) ≡ pos + 2 ^ k = omega (arith, v.bound, v.sized) in
      rw (at, up, is_pos)
        (given_back-IsShared mem (rw stands) (rw is_pos at some_item) (rw is_pos at f)
          (rw is_pos at is_mem))
  in_rmv-IsShared (advance mem) stands =
      let (got_one, is_mem) = rw stands at v.consuming in
      let one : behind s.consumer ≡ 1 = rw stands in
      let up : u32 (s.rb.rmv_idx + 1) ≡ s.num_got = omega (arith, v.rmv_at, v.bound, v.order) in
      rw up (goes s.num_got (some (returned mem)) (omega arith) (inr (got_one, is_mem)))
  in_rmv-IsShared (returned mem) stands =
      stays (some (returned mem)) (rw stands) (rw stands at v.consuming)

  pub call_rmv-IsShared : s.consumer ≡ none → IsShared k (record s { consumer = some RmvPc.enter })
  call_rmv-IsShared stands = stays (some RmvPc.enter) (rw stands) tt

  pub return_rmv-IsShared :
      (mem : ℕ) → s.consumer ≡ some (returned mem) → IsShared k (record s { consumer = none })
  return_rmv-IsShared mem stands = stays none (rw stands) tt
