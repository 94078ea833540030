-- ===== src/Prelude/Bits.antt =====
-- `&` with a mask of ones is a remainder.
use Prim.Native.Nat.{
  ℕ, zero, suc, ◌+◌, ◌-◌, ◌*◌, ◌/◌, ◌%◌, ◌^◌, ◌≤◌, ◌<◌, min, max, ◌∣◌, bit_and, bit_or, digits,
  bit_and-bitwise, bit_or-bitwise,
}
use mathlib.Core.Path.{◌≡◌, refl, sym, ap, ◌∙◌}
use native.Mathlib.Omega.{arith}
use native.Mathlib.Nat.{div-div-eq-div-mul, zero-add}
use native.Mathlib.Decide.{dec_le}
use native.Mathlib.Nat.{
  add-zero, mul_assoc, dvd_refl, dvd-mul_right_of_dvd, mod-mod_of_dvd, pow-suc,
  mul-add-mod_self_left, mod-eq_of_lt, mod-lt, div-add-mod,
}

-- Digits to go beyond those of the number `x` change nothing, whatever the operation.
module _ (rest : ℕ → ℕ) (on_digit : ℕ → ℕ → ℕ) where
  ran_out : (n y : ℕ) → digits rest on_digit n 0 y ≡ rest y
  ran_out zero y = refl
  ran_out (suc n) y = refl

  spare :
      (extra n x y : ℕ) → x ≤ n → digits rest on_digit (n + extra) x y ≡ digits rest on_digit n x y
  spare extra n zero y small = ran_out (n + extra) y ∙ sym (ran_out n y)
  spare extra zero (suc x) y small = absurd (omega arith)
  spare extra (suc n) (suc x) y small =
      let more : suc n + extra ≡ suc (n + extra) = omega arith in
      rw (more, spare extra n (suc x / 2) (y / 2) (omega arith))

-- `&` digit by digit, from the lowest.
pub bit_and_step : (x y : ℕ) → bit_and x y ≡ bit_and (x / 2) (y / 2) * 2 + min (x % 2) (y % 2)
bit_and_step zero y = rw (bit_and-bitwise 0 y, bit_and-bitwise 0 (y / 2)) (omega arith)
bit_and_step (suc x) y =
    let half = suc x / 2 in
    let few : half + (x - half) ≡ x = omega arith in
    let same = spare (λ _. 0) min (x - half) half half (y / 2) (omega arith) in
    rw (bit_and-bitwise (suc x) y, bit_and-bitwise half (y / 2)) (omega (arith, rw few at same))

pub bit_and-zero : (x : ℕ) → bit_and x 0 ≡ 0
bit_and-zero x = below (suc x) x (omega arith)
  where
    below : (bound x : ℕ) → x < bound → bit_and x 0 ≡ 0
    below zero x small = absurd (omega arith)
    below (suc bound) zero small = refl
    below (suc bound) (suc x) small =
        rw (bit_and_step (suc x) 0) (omega (arith, below bound (suc x / 2) (omega arith)))

pub pow_pos : (k : ℕ) → 0 < 2 ^ k
pow_pos zero = omega arith
pow_pos (suc k) = omega (arith, pow-suc 2 k, pow_pos k)

half_mod : (a m : ℕ) → 0 < m → a % (2 * m) ≡ a / 2 % m * 2 + a % 2
half_mod a m h = omega (
  arith,
  ap (λ (t : ℕ). t % (2 * m)) split,
  mul-add-mod_self_left (2 * m) (a / 2 / m) (a / 2 % m * 2 + a % 2),
  mod-eq_of_lt {n = a / 2 % m * 2 + a % 2} {m = 2 * m} (omega (arith, mod-lt (a / 2) h)),
)
  where
    split : a ≡ 2 * m * (a / 2 / m) + (a / 2 % m * 2 + a % 2)
    split = omega (arith, div-add-mod (a / 2) m)

pub bit_and-ones : (k a : ℕ) → bit_and a (2 ^ k - 1) ≡ a % 2 ^ k
bit_and-ones zero a = omega (arith, bit_and-zero a)
bit_and-ones (suc k) a =
    let p = pow_pos k in
    let halved : (2 ^ suc k - 1) / 2 ≡ 2 ^ k - 1 = omega (arith, pow-suc 2 k) in
    let odd : (2 ^ suc k - 1) % 2 ≡ 1 = omega (arith, pow-suc 2 k) in
    let double : 2 ^ suc k ≡ 2 * 2 ^ k = omega (arith, pow-suc 2 k) in
    rw (bit_and_step a (2 ^ suc k - 1), halved, odd, double)
      (omega (arith, bit_and-ones k (a / 2), half_mod a (2 ^ k) p))

pow-dvd : (k d : ℕ) → 2 ^ k ∣ 2 ^ (k + d)
pow-dvd k zero = rw add-zero (dvd_refl (2 ^ k))
pow-dvd k (suc d) =
    let e : k + suc d ≡ suc (k + d) = omega arith in
    rw (e, pow-suc) (dvd-mul_right_of_dvd (2 ^ k) (pow-dvd k d) 2)

-- A mask of `k` ones sees the same of a word and of the number that the word stands for.
pub mod-mod_pow : (k w x : ℕ) → k ≤ w → x % 2 ^ w % 2 ^ k ≡ x % 2 ^ k
mod-mod_pow k w x h =
    let e : k + (w - k) ≡ w = omega arith in mod-mod_of_dvd (2 ^ k) x (rw e at (pow-dvd k (w - k)))

pub pow_mono : (a b : ℕ) → a ≤ b → 2 ^ a ≤ 2 ^ b
pow_mono a zero h = let e : a ≡ 0 = omega arith in rw e (omega arith)
pow_mono a (suc b) h = elim (dec_le a b) [
  | yes le ↦ omega (arith, pow_mono a b le, pow-suc 2 b)
  | no gt ↦ let e : a ≡ suc b = omega arith in rw e (omega arith)
]

pub pow_sub : (k w : ℕ) → k ≤ w → 2 ^ k * 2 ^ (w - k) ≡ 2 ^ w
pow_sub k w h = go k (w - k) ∙ ap (λ (t : ℕ). 2 ^ t) (omega arith)
  where
    go : (a b : ℕ) → 2 ^ a * 2 ^ b ≡ 2 ^ (a + b)
    go zero b = rw zero-add (omega arith)
    go (suc a) b =
        let e : suc a + b ≡ suc (a + b) = omega arith in
        rw (e, pow-suc, pow-suc) (omega (arith, ap (λ (t : ℕ). t * 2) (go a b)))

-- A mask of `w - k` ones above `k` zeros rounds a word down to a multiple of `2 ^ k`.
pub bit_and_high : (k w a : ℕ) → k ≤ w → bit_and a (2 ^ w - 2 ^ k) ≡ a % 2 ^ w / 2 ^ k * 2 ^ k
bit_and_high zero w a h = rw (bit_and-ones w a) (omega arith)
bit_and_high (suc k) zero a h = absurd (omega arith)
bit_and_high (suc k) (suc w) a h =
    let le : 2 ^ k ≤ 2 ^ w = pow_mono k w (omega arith) in
    let halved : (2 ^ suc w - 2 ^ suc k) / 2 ≡ 2 ^ w - 2 ^ k =
      omega (arith, pow-suc 2 k, pow-suc 2 w) in
    let even : (2 ^ suc w - 2 ^ suc k) % 2 ≡ 0 = omega (arith, pow-suc 2 k, pow-suc 2 w) in
    let wide : 2 ^ suc w ≡ 2 * 2 ^ w = omega (arith, pow-suc 2 w) in
    let high : 2 ^ suc k ≡ 2 * 2 ^ k = omega (arith, pow-suc 2 k) in
    let down : a % 2 ^ suc w / 2 ^ suc k ≡ a / 2 % 2 ^ w / 2 ^ k =
      rw (wide, high, half_mod a (2 ^ w) (pow_pos w), ← div-div-eq-div-mul)
        (ap (λ (t : ℕ). t / 2 ^ k) (omega arith)) in
    rw
      (
        bit_and_step a (2 ^ suc w - 2 ^ suc k),
        halved,
        even,
        bit_and_high k w (a / 2) (omega arith),
        down,
      )
      (omega (arith, high, ap (λ (t : ℕ). a / 2 % 2 ^ w / 2 ^ k * t) high))

-- `|` digit by digit.
pub bit_or_step : (x y : ℕ) → bit_or x y ≡ bit_or (x / 2) (y / 2) * 2 + max (x % 2) (y % 2)
bit_or_step zero y = rw (bit_or-bitwise 0 y, bit_or-bitwise 0 (y / 2)) (omega arith)
bit_or_step (suc x) y =
    let half = suc x / 2 in
    let few : half + (x - half) ≡ x = omega arith in
    let same = spare (λ b. b) max (x - half) half half (y / 2) (omega arith) in
    rw (bit_or-bitwise (suc x) y, bit_or-bitwise half (y / 2)) (omega (arith, rw few at same))

bit_or-zero : (x : ℕ) → bit_or x 0 ≡ x
bit_or-zero x = below (suc x) x (omega arith)
  where
    below : (bound x : ℕ) → x < bound → bit_or x 0 ≡ x
    below zero x small = absurd (omega arith)
    below (suc bound) zero small = refl
    below (suc bound) (suc x) small =
        rw (bit_or_step (suc x) 0) (omega (arith, below bound (suc x / 2) (omega arith)))

-- A number below 2 ^ k, joined to one shifted left by k.
pub bit_or-shifted : (k hi lo : ℕ) → lo < 2 ^ k → bit_or (hi * 2 ^ k) lo ≡ hi * 2 ^ k + lo
bit_or-shifted zero hi lo small =
    let none_low : lo ≡ 0 = omega arith in
    let whole : hi * 2 ^ 0 ≡ hi = omega arith in rw (none_low, whole, bit_or-zero hi) (omega arith)
bit_or-shifted (suc k) hi lo small =
    let rest = bit_or-shifted k hi (lo / 2) (omega (arith, pow-suc 2 k)) in
    let twice : hi * 2 ^ suc k ≡ 2 * (hi * 2 ^ k) =
      rw (pow-suc 2 k, ← mul_assoc hi (2 ^ k) 2) (omega arith) in
    let half : 2 * (hi * 2 ^ k) / 2 ≡ hi * 2 ^ k = omega arith in
    rw (twice, bit_or_step (2 * (hi * 2 ^ k)) lo, half, rest) (omega arith)
