-- ===== src/Word/Bits.antt =====
-- `AC_COUNT_ONE_BITS` of libs/incs/ac_intmath.h.
use sadie.Prelude.{
  ℕ, zero, suc, ◌+◌, ◌/◌, ◌%◌, ◌^◌, ◌<◌, ◌≡◌, refl, inl, inr, false, arith, ◌==◌, if◌then◌else◌,
  Bool-cases, dec_lt, ◌↔◌,
}
use sadie.Prelude.Bits.{pow_pos, pow_mono}
use native.Mathlib.Nat.{pow-suc}

-- The loop over the bits of `v`, on fuel: `one_bits += v & 1; v >>= 1`.
unfoldable pub count_loop : ℕ → ℕ → ℕ → ℕ
count_loop zero v one_bits = one_bits
count_loop (suc fuel) v one_bits =
    let rest = count_loop fuel (v / 2) (one_bits + v % 2) in if v == 0 then one_bits else rest

-- `AC_COUNT_ONE_BITS(value)` on an `AcUptr` of 64 bits.
unfoldable pub count_one_bits : ℕ → ℕ
unfolding count_loop
count_one_bits value = count_loop 65 value 0

-- The accumulator is only added to.
count_loop-acc : (f v acc : ℕ) → count_loop f v acc ≡ acc + count_loop f v 0
unfolding count_loop
count_loop-acc zero v acc = omega arith
count_loop-acc (suc f) v acc =
    ground (arith, count_loop-acc f (v / 2) (acc + v % 2), count_loop-acc f (v / 2) (v % 2))

count_loop-zero : (f acc : ℕ) → count_loop f 0 acc ≡ acc
unfolding count_loop
count_loop-zero zero acc = refl
count_loop-zero (suc f) acc = refl

count_loop-pow : (k f : ℕ) → k < f → count_loop f (2 ^ k) 0 ≡ 1
unfolding count_loop
count_loop-pow k zero h = absurd (omega arith)
count_loop-pow zero (suc f) h = count_loop-zero f 1
count_loop-pow (suc k) (suc f) h =
    let half : 2 ^ suc k / 2 ≡ 2 ^ k = omega (arith, pow-suc 2 k) in
    let even : 2 ^ suc k % 2 ≡ 0 = omega (arith, pow-suc 2 k) in
    let p : (2 ^ suc k == 0) ≡ false = ground (arith, pow_pos (suc k)) in
    rw (p, half, even) (count_loop-pow k f (omega arith))

count_loop-eq-zero : (f v : ℕ) → v < 2 ^ f → count_loop f v 0 ≡ 0 → v ≡ 0
unfolding count_loop
count_loop-eq-zero zero v h e = omega arith
count_loop-eq-zero (suc f) v h e =
    ground (arith, pow-suc 2 f, count_loop-acc f (v / 2) (v % 2), count_loop-eq-zero f (v / 2))

-- A count of one within the fuel means a power of two.
count_loop-eq-one : (f v : ℕ) → v < 2 ^ f → count_loop f v 0 ≡ 1 → (k : ℕ) × (v ≡ 2 ^ k)
unfolding count_loop
count_loop-eq-one zero v h e = absurd (omega arith)
count_loop-eq-one (suc f) v h e = elim (Bool-cases (v == 0)) [
  | inl z ↦ absurd (ground (arith, z))
  | inr nz ↦ elim (Bool-cases (v % 2 == 0)) [
    | inl even ↦
        let (k, p) =
          count_loop-eq-one f (v / 2) (omega (arith, pow-suc 2 f))
            (ground (arith, count_loop-acc f (v / 2) (v % 2))) in
        (suc k, ground (arith, pow-suc 2 k))
    | inr odd ↦ (
      0,
      ground (arith, count_loop-acc f (v / 2) (v % 2), count_loop-eq-zero f (v / 2), pow-suc 2 f),
    )
  ]
]

pub count_one_bits-pow : (k : ℕ) → k < 64 → count_one_bits (2 ^ k) ≡ 1
unfolding count_one_bits
count_one_bits-pow k h = count_loop-pow k 65 (omega arith)

pub count_one_bits-eq-one : (v : ℕ) → v < 2 ^ 64 → count_one_bits v ≡ 1 → (k : ℕ) × (v ≡ 2 ^ k)
unfolding count_one_bits
count_one_bits-eq-one v h e = count_loop-eq-one 65 v (omega arith) e

-- On an AcUptr of 64 bits the count of one bits is 1 exactly for the powers of two.
pub count_one_bits_iff :
    (v : ℕ) → v < 2 ^ 64 → (count_one_bits v ≡ 1) ↔ ((k : ℕ) × (k < 64) × (v ≡ 2 ^ k))
count_one_bits_iff v h = (
  λ e.
      let (k, p) = count_one_bits-eq-one v h e in
      (
        k,
        elim (dec_lt k 64) [
          | yes lt ↦ lt
          | no ge ↦ absurd (omega (arith, pow_mono 64 k (omega arith), p))
        ],
        p,
      ),
  λ (k, lt, p). rw p (count_one_bits-pow k lt),
)
