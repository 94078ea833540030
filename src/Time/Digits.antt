-- ===== src/Time/Digits.antt =====
-- The digits behind the point are those of the long division.
use native.Mathlib.Nat.{
  div-add-mod, mod-lt, mul_comm, div-eq_of_lt, div-lt_iff_lt-mul, add-mul-div_left, pow-suc,
}
use sadie.Prelude.{
  ℕ, zero, suc, ◌+◌, ◌-◌, ◌*◌, ◌/◌, ◌%◌, ◌^◌, ◌<◌, ◌≡◌, ◌∙◌, true, List, [], ◌∷◌, arith, ltb,
  replicate, ℕ_discrete,
}
use sadie.Word.{u8, u64}
use sadie.Time.{sub_sec_digits}

-- The number that decimal characters stand for, behind the number read so far.
unfoldable pub decimal : (read : ℕ) → List ℕ → ℕ
decimal read [] = read
decimal read (c ∷ cs) = decimal (read * 10 + (c - 48)) cs

shifted : (a p : ℕ) → a * (10 * p) ≡ a * 10 * p
shifted a p = grind arith

spread : (f q r p : ℕ) → (f * q + r) * p ≡ r * p + f * (q * p)
spread f q r p = grind arith

gathered : (a q p x : ℕ) → (a * 10 + q) * p + x ≡ a * (10 * p) + (x + q * p)
gathered a q p x = grind arith

ten_pow : (n : ℕ) → 10 ^ suc n ≡ 10 * 10 ^ n
ten_pow n = omega (arith, pow-suc 10 n)

decimal-zeros : (n read : ℕ) → decimal read (replicate n 48) ≡ read * 10 ^ n
unfolding decimal
decimal-zeros zero read = omega arith
decimal-zeros (suc n) read =
    decimal-zeros n (read * 10 + 0) ∙ rw (ten_pow n, shifted read (10 ^ n)) (omega arith)

long_division :
    (t freq n : ℕ)
    → 0 < freq
    → t * 10 ^ suc n / freq ≡ t * 10 % freq * 10 ^ n / freq + t * 10 / freq * 10 ^ n
long_division t freq n some_freq =
    let split = div-add-mod (t * 10) freq in
    let e : t * 10 ^ suc n ≡ t * 10 % freq * 10 ^ n + freq * (t * 10 / freq * 10 ^ n) =
      rw (ten_pow n, shifted t (10 ^ n))
        (rw split at (spread freq (t * 10 / freq) (t * 10 % freq) (10 ^ n))) in
    rw e (add-mul-div_left (t * 10 % freq * 10 ^ n) (t * 10 / freq * 10 ^ n) some_freq)

-- For a frequency of which ten times fits in 64 bits, and less than a second of ticks, the digits
-- are those of the fraction: they stand for the ticks times 10 ^ precision, divided by the
-- frequency and rounded down.
decimal-sub_sec_digits :
    (precision t freq read : ℕ)
    → t < freq
    → freq * 10 < 2 ^ 64
    → decimal read (sub_sec_digits precision t freq)
      ≡ read * 10 ^ precision + t * 10 ^ precision / freq
unfolding decimal sub_sec_digits
decimal-sub_sec_digits zero t freq read lt small =
    let none : t * 10 ^ 0 / freq ≡ 0 = div-eq_of_lt (omega arith) in omega (arith, none)
decimal-sub_sec_digits (suc n) t freq read lt small = elim (ℕ_discrete t 0) [
  | yes over ↦
      let none : 0 * 10 ^ suc n / freq ≡ 0 = div-eq_of_lt (omega arith) in
      rw (over, none) (decimal-zeros (suc n) read ∙ omega arith)
  | no more ↦
      let test : ltb 0 t ≡ true = ground arith in
      let product : u64 (t * 10) ≡ t * 10 = omega arith in
      let below : t * 10 / freq < 10 = (div-lt_iff_lt-mul (omega arith)).1 (omega arith) in
      let digit : u8 (t * 10 / freq) ≡ t * 10 / freq = omega arith in
      let split = div-add-mod (t * 10) freq in
      let turned : t * 10 / freq * freq ≡ freq * (t * 10 / freq) = mul_comm (t * 10 / freq) freq in
      let left : u64 (t * 10 + 2 ^ 64 - u64 (t * 10 / freq * freq)) ≡ t * 10 % freq =
        (let wide : u64 (t * 10 / freq * freq) ≡ t * 10 / freq * freq =
            omega (arith, turned, split) in
          rw wide (omega (arith, turned, split, mod-lt (t * 10) {m = freq} (omega arith)))) in
      let r =
        decimal-sub_sec_digits n (t * 10 % freq) freq (read * 10 + t * 10 / freq)
          (mod-lt (t * 10) (omega arith)) small in
      rw (test, product, digit, left)
        (let shown : (48 + t * 10 / freq) % 2 ^ 8 - 48 ≡ t * 10 / freq = omega arith in
          rw shown (
            r
            ∙ gathered read (t * 10 / freq) (10 ^ n) (t * 10 % freq * 10 ^ n / freq)
            ∙ rw (long_division t freq n (omega arith), ten_pow n)))
]
