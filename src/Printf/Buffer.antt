-- ===== src/Printf/Buffer.antt =====
-- What `ac_snprintf` leaves in its buffer.
use Prim.Native.Nat.{min}
use sadie.Prelude.{
  if◌then◌else◌, ltb, ◌%◌, true, false, dec_lt, ℕ_discrete, ℕ, zero, suc, ◌+◌, ◌-◌, ◌^◌, ◌≤◌, ◌<◌,
  ◌≡◌, refl, ◌∙◌, List, [], ◌∷◌, arith, ◌==◌, length, get_or,
}
use sadie.Word.{u8}
use sadie.Printf.{sprintf_write_end, Writer, sprintf_write_param, write_all, snprintf}

-- The characters that fit stand behind those written before; nothing else has changed.
record Written (cs : List ℕ) (w w' : Writer) : Type 0 where
  counted : w'.count ≡ w.count + min (length cs) (w.max_len - 1 - w.count)
  bound : w'.max_len ≡ w.max_len
  stored : (i : ℕ) → w.count + i < w'.count → w'.bytes (w.count + i) ≡ u8 (get_or cs i 0)
  before : (j : ℕ) → j < w.count → w'.bytes j ≡ w.bytes j
  after : (j : ℕ) → w'.count ≤ j → w'.bytes j ≡ w.bytes j

-- The writer after a character that fits.
abbrev advanced : Writer → ℕ → Writer
advanced w c = record w {
  bytes = λ j. if j == w.count then u8 c else w.bytes j;
  count = w.count + 1;
}

sprintf_write_param-fits :
    (w : Writer) (c : ℕ)
    → w.count + 1 < w.max_len
    → w.max_len ≤ 2 ^ 32
    → sprintf_write_param w c ≡ advanced w c
unfolding sprintf_write_param
sprintf_write_param-fits w c room small =
    let same : w.count % 2 ^ 32 ≡ w.count = omega arith in
    let next : (w.count + 1) % 2 ^ 32 ≡ w.count + 1 = omega arith in
    let test : ltb w.count ((w.max_len + 2 ^ 64 - 1) % 2 ^ 64) ≡ true = ground arith in
    rw (test, same, next)

sprintf_write_param-full :
    (w : Writer) (c : ℕ)
    → w.count + 1 ≡ w.max_len
    → w.max_len ≤ 2 ^ 32
    → sprintf_write_param w c ≡ w
unfolding sprintf_write_param
sprintf_write_param-full w c room small =
    let same : w.count % 2 ^ 32 ≡ w.count = omega arith in
    let test : ltb w.count ((w.max_len + 2 ^ 64 - 1) % 2 ^ 64) ≡ false = ground arith in
    rw (test, same)

write_all-Written :
    (cs : List ℕ) (w : Writer)
    → w.count < w.max_len
    → w.max_len ≤ 2 ^ 32
    → Written cs w (write_all w cs)
unfolding write_all
write_all-Written [] w room small = record {
  counted = omega arith;
  bound = refl;
  stored = λ i lt. absurd (omega arith);
  before = λ j lt. refl;
  after = λ j lt. refl;
}
write_all-Written (c ∷ cs) w room small = elim (dec_lt (w.count + 1) w.max_len) [
  | yes fits ↦
      let r = write_all-Written cs (advanced w c) fits small in
      rw (sprintf_write_param-fits w c fits small) (record {
        counted = omega (arith, r.counted);
        bound = r.bound;
        stored = elim [
          | zero ↦ λ lt. ground (arith, r.before w.count (omega arith))
          | suc i ↦ λ lt.
              let at : w.count + suc i ≡ w.count + 1 + i = omega arith in
              rw at (r.stored i (omega arith))
        ];
        before = λ j lt. r.before j (omega arith) ∙ ground arith;
        after = λ j lt. r.after j lt ∙ ground (arith, r.counted);
      })
  | no full ↦
      let r = write_all-Written cs w room small in
      rw (sprintf_write_param-full w c (omega arith) small) (record {
        counted = omega (arith, r.counted);
        bound = r.bound;
        stored = λ i lt. absurd (omega (arith, r.counted));
        before = r.before;
        after = r.after;
      })
]

-- For a buffer of 1 to 2 ^ 32 bytes the result is the number of characters that fit before the NUL;
-- they stand at the start, the NUL follows, and the bytes past the buffer are as they were.
pub snprintf-fits :
    (before : ℕ → ℕ) (len : ℕ) (cs : List ℕ)
    → 0 < len
    → len ≤ 2 ^ 32
    → let r = snprintf before len cs in
      (r.0 ≡ min (length cs) (len - 1))
      × ((i : ℕ) → i < r.0 → r.1 i ≡ u8 (get_or cs i 0))
      × (r.1 r.0 ≡ 0)
      × ((j : ℕ) → len ≤ j → r.1 j ≡ before j)
unfolding snprintf sprintf_write_end
snprintf-fits before len cs some_room small = elim (ℕ_discrete len 1) [
  | yes one ↦ rw one (omega arith, λ i lt. absurd (omega arith), refl, λ j le. ground arith)
  | no more ↦
      let r =
        write_all-Written cs (record { count = 0; max_len = len; bytes = before }) some_room
          small in
      let t0 : (len == 0) ≡ false = ground arith in
      let t1 : (len == 1) ≡ false = ground arith in
      rw (t0, t1)
        (
          omega (arith, r.counted),
          λ i lt. ground (arith, r.stored i),
          ground arith,
          λ j le. ground (arith, r.after j, r.counted),
        )
]
