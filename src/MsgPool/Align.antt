-- ===== src/MsgPool/Align.antt =====
-- What `ac_calloc_align` gives its caller.
use Prim.Native.Nat.{bit_and}
use native.Mathlib.Nat.{mul_comm, div-add-mod, mod-lt, mul-mod_left}
use sadie.Prelude.{
  ℕ, ◌+◌, ◌-◌, ◌*◌, ◌/◌, ◌%◌, ◌^◌, ◌≤◌, ◌<◌, ◌≡◌, ◌≢◌, refl, ap, true, false, arith, ◌==◌,
}
use sadie.Prelude.Bits.{bit_and_high, pow_pos}
use sadie.Word.{u32, u64, ok}
use sadie.Word.Bits.{count_one_bits, count_one_bits-pow}
use sadie.MsgPool.{calloc_align, align_mask, elem_size_of, allocation_size}

-- `x` rounded up to a multiple of `a`.
abbrev pub round_up : ℕ → ℕ → ℕ
round_up x a = (x + a - 1) / a * a

-- The bytes that `count` elements of `size` need, with the room to align the first.
abbrev pub needed : ℕ → ℕ → ℕ → ℕ
needed count size a = round_up size a * count + a - 1

round_up_bounds : (x a : ℕ) → 0 < a → (x ≤ round_up x a) × (round_up x a ≤ x + a - 1)
round_up_bounds x a p =
    let e = div-add-mod (x + a - 1) a in
    let m = mod-lt (x + a - 1) p in
    let c : a * ((x + a - 1) / a) ≡ (x + a - 1) / a * a = mul_comm a ((x + a - 1) / a) in
    (omega arith, omega arith)

module _ (k : ℕ) (lt : k ≤ 31) where
  mask_eq : align_mask (2 ^ k) ≡ 2 ^ 64 - 2 ^ k
  mask_eq = omega (arith, pow_pos k)

  masked : (x : ℕ) → x < 2 ^ 64 → bit_and x (align_mask (2 ^ k)) ≡ x / 2 ^ k * 2 ^ k
  masked x small =
      rw (mask_eq, bit_and_high k 64 x (omega arith))
        (ap (λ (t : ℕ). t / 2 ^ k * 2 ^ k) (omega arith))

  -- When the sum fits, the element size is the size rounded up.
  pub elem_size-round_up :
      (size : ℕ) → size + 2 ^ k ≤ 2 ^ 32 → elem_size_of size (2 ^ k) ≡ round_up size (2 ^ k)
  elem_size-round_up size fits =
      let p = pow_pos k in
      let sum : u32 (size + 2 ^ k + 2 ^ 32 - 1) ≡ size + 2 ^ k - 1 = omega arith in
      let b = round_up_bounds size (2 ^ k) p in
      rw (sum, masked (size + 2 ^ k - 1) (omega arith)) (omega arith)

  -- For a power of two up to 2 ^ 31 as the alignment, sizes that do not overflow 32 bits and an
  -- address from calloc that is not NULL, the status is OK, the elements are the size rounded up,
  -- the first is aligned, and all of them lie inside the allocation.
  pub calloc_align-fits :
      (calloc : ℕ → ℕ) (count size : ℕ)
      → 0 < count
      → 0 < size
      → size + 2 ^ k ≤ 2 ^ 32
      → round_up size (2 ^ k) * count + 2 ^ k ≤ 2 ^ 32
      → calloc (needed count size (2 ^ k)) ≢ 0
      → calloc (needed count size (2 ^ k)) + 2 ^ k ≤ 2 ^ 64
      → let a = calloc_align calloc count size (2 ^ k) in
        (a.status ≡ ok)
        × (a.raw ≡ calloc (needed count size (2 ^ k)))
        × (a.elem_size ≡ round_up size (2 ^ k))
        × (size ≤ a.elem_size)
        × (a.aligned % 2 ^ k ≡ 0)
        × (a.raw ≤ a.aligned)
        × (a.aligned + a.elem_size * count ≤ a.raw + needed count size (2 ^ k))
        × (a.limit ≡ a.raw + needed count size (2 ^ k))
  unfolding calloc_align
  calloc_align-fits calloc count size some_count some_size fits total given room =
      let p = pow_pos k in
      let e = elem_size-round_up size fits in
      let bytes = round_up size (2 ^ k) * count + 2 ^ k - 1 in
      let b : allocation_size count size (2 ^ k) ≡ bytes = rw e (omega arith) in
      let one : (count_one_bits (2 ^ k) == 1) ≡ true = rw (count_one_bits-pow k (omega arith)) in
      let c0 : (count == 0) ≡ false = ground arith in
      let s0 : (size == 0) ≡ false = ground arith in
      let g0 : (calloc bytes == 0) ≡ false = ground arith in
      let sum : u64 (calloc bytes + 2 ^ k + 2 ^ 64 - 1) ≡ calloc bytes + 2 ^ k - 1 = omega arith in
      let up = round_up_bounds (calloc bytes) (2 ^ k) p in
      let up' = round_up_bounds size (2 ^ k) p in
      rw (one, c0, s0, b, g0, sum, masked (calloc bytes + 2 ^ k - 1) (omega arith), e)
        (
          refl,
          refl,
          refl,
          up'.0,
          mul-mod_left ((calloc bytes + 2 ^ k - 1) / 2 ^ k) (2 ^ k),
          up.0,
          omega arith,
          refl,
        )

  -- The size of the allocation is computed in 32 bits: when the elements need 2 ^ 32 bytes or more,
  -- and calloc gives an address for the wrapped size, the status is OK although the elements run
  -- past the end of the allocation.
  pub calloc_align-overflow :
      (calloc : ℕ → ℕ) (count size : ℕ)
      → 0 < size
      → size + 2 ^ k ≤ 2 ^ 32
      → 2 ^ 32 ≤ round_up size (2 ^ k) * count
      → calloc (allocation_size count size (2 ^ k)) ≢ 0
      → calloc (allocation_size count size (2 ^ k)) + 2 ^ k ≤ 2 ^ 64
      → let a = calloc_align calloc count size (2 ^ k) in
        (a.status ≡ ok)
        × (a.raw ≡ calloc (allocation_size count size (2 ^ k)))
        × (a.raw + allocation_size count size (2 ^ k) < a.aligned + a.elem_size * count)
  unfolding calloc_align
  calloc_align-overflow calloc count size some_size fits over given room =
      let p = pow_pos k in
      let e = elem_size-round_up size fits in
      let bytes = allocation_size count size (2 ^ k) in
      let one : (count_one_bits (2 ^ k) == 1) ≡ true = rw (count_one_bits-pow k (omega arith)) in
      let c0 : (count == 0) ≡ false = ground (arith, ap (λ (t : ℕ). round_up size (2 ^ k) * t)) in
      let s0 : (size == 0) ≡ false = ground arith in
      let g0 : (calloc bytes == 0) ≡ false = ground arith in
      let sum : u64 (calloc bytes + 2 ^ k + 2 ^ 64 - 1) ≡ calloc bytes + 2 ^ k - 1 = omega arith in
      let up = round_up_bounds (calloc bytes) (2 ^ k) p in
      rw (one, c0, s0, g0, sum, masked (calloc bytes + 2 ^ k - 1) (omega arith), e)
        (refl, refl, omega arith)
