-- ===== src/Printf/Digits.antt =====
-- The digits that the printing of a number fills in, and the number that they stand for.
use native.Mathlib.Nat.{div-add-mod, mod-lt, pow-suc, mul-le-mul_right}
use sadie.Prelude.{
  ℕ, zero, suc, ◌+◌, ◌-◌, ◌*◌, ◌/◌, ◌%◌, ◌^◌, ◌≤◌, ◌<◌, ◌≡◌, true, false, List, [], ◌∷◌, arith,
  ◌==◌, ltb, if◌then◌else◌, length, ℕ_discrete,
}
use sadie.Printf.Values.{val_to_char, to_digits}

-- The value of a digit character, and of digit characters with the lowest first.
abbrev pub char_value : ℕ → ℕ
char_value c = if ltb c 58 then c - 48 else c - 87

unfoldable pub from_digits : (radix : ℕ) → List ℕ → ℕ
from_digits radix [] = 0
from_digits radix (c ∷ cs) = char_value c + radix * from_digits radix cs

char_value-val_to_char : (d : ℕ) → d < 16 → char_value (val_to_char d) ≡ d
char_value-val_to_char d h = ground arith

half_bound : (val radix n : ℕ) → 2 ≤ radix → val < 2 ^ suc n → val / radix < 2 ^ n
half_bound val radix n lo small =
    omega (arith, div-add-mod val radix, mul-le-mul_right (val / radix) lo, pow-suc 2 n)

-- With room for the digits of a number of `n` bits in radix 2, the digits written stand for the
-- number; there is at least one.
pub from_digits-to_digits :
    (n room val radix : ℕ)
    → 2 ≤ radix
    → radix ≤ 16
    → val < 2 ^ suc n
    → suc n ≤ room
    → (from_digits radix (to_digits room val radix) ≡ val)
      × (0 < length (to_digits room val radix))
      × (length (to_digits room val radix) ≤ suc n)
unfolding from_digits to_digits
from_digits-to_digits n zero val radix lo hi small fits = absurd (omega arith)
from_digits-to_digits n (suc room) val radix lo hi small fits =
    let low =
      char_value-val_to_char (val % radix) (omega (arith, mod-lt val {m = radix} (omega arith))) in
    let split = div-add-mod val radix in
    elim (ℕ_discrete (val / radix) 0) [
      | yes last ↦
          let t : (val / radix == 0) ≡ true = rw last in
          let t' : radix * (val / radix) ≡ 0 = rw last (omega arith) in
          rw t (omega (arith, low, split, t'))
      | no more ↦
          let t : (val / radix == 0) ≡ false = ground arith in
          let q = half_bound val radix n lo small in
          let fewer : suc (n - 1) ≡ n = elim (ℕ_discrete n 0) [
            | yes none ↦ absurd (more (omega (arith, rw none at q)))
            | no some ↦ omega arith
          ] in
          let r =
            from_digits-to_digits (n - 1) room (val / radix) radix lo hi (rw fewer q)
              (omega arith) in
          rw (t, r.0) (omega (arith, low, split, r))
    ]
