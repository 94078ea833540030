-- ===== src/Memory/Blocks.antt =====
-- What the loops over blocks of memory come to.
use sadie.Prelude.{ℕ, zero, suc, ◌+◌, ◌%◌, ◌^◌, ◌≤◌, ◌<◌, ◌≡◌, refl, ◌∙◌, ◌⊎◌, arith}
use sadie.Word.{u8}
use sadie.Memory.{Memory, store, memcpy, memset, check_sum}

-- Copying between blocks that do not overlap, or down in memory: the destination holds what the
-- source held, and the rest is as it was.
pub memcpy-copies :
    (count dest src : ℕ) (mem : Memory)
    → (dest ≤ src) ⊎ (src + count ≤ dest)
    → ((i : ℕ) → i < count → memcpy count dest src mem (dest + i) ≡ mem (src + i))
      × ((a : ℕ) → (a < dest) ⊎ (dest + count ≤ a) → memcpy count dest src mem a ≡ mem a)
unfolding memcpy
memcpy-copies zero dest src mem apart = (λ i lt. absurd (omega arith), λ a out. refl)
memcpy-copies (suc count) dest src mem apart =
    let r = memcpy-copies count (dest + 1) (src + 1) (store mem dest (mem src)) (omega arith) in
    (
      elim [
        | zero ↦ λ lt. ground (arith, r.1 dest)
        | suc i ↦ λ lt.
            let at : dest + suc i ≡ dest + 1 + i = omega arith in
            let at' : src + suc i ≡ src + 1 + i = omega arith in
            rw (at, at') (r.0 i (omega arith) ∙ ground arith)
      ],
      λ a out. r.1 a (omega arith) ∙ ground arith,
    )

-- The block holds the byte, and the rest is as it was.
pub memset-fills :
    (count s val : ℕ) (mem : Memory)
    → ((i : ℕ) → i < count → memset count s val mem (s + i) ≡ u8 val)
      × ((a : ℕ) → (a < s) ⊎ (s + count ≤ a) → memset count s val mem a ≡ mem a)
unfolding memset
memset-fills zero s val mem = (λ i lt. absurd (omega arith), λ a out. refl)
memset-fills (suc count) s val mem =
    let r = memset-fills count (s + 1) val (store mem s (u8 val)) in
    (
      elim [
        | zero ↦ λ lt. ground (arith, r.1 s)
        | suc i ↦ λ lt. let at : s + suc i ≡ s + 1 + i = omega arith in rw at (r.0 i (omega arith))
      ],
      λ a out. r.1 a (omega arith) ∙ ground arith,
    )

-- The sum of a block's bytes.
unfoldable pub sum : (len p : ℕ) → Memory → ℕ
sum zero p mem = 0
sum (suc len) p mem = mem p + sum len (p + 1) mem

-- The check sum is the sum of the bytes modulo 256.
pub check_sum-sum :
    (len p start : ℕ) (mem : Memory)
    → start < 2 ^ 8
    → check_sum len p start mem ≡ (start + sum len p mem) % 2 ^ 8
unfolding check_sum sum
check_sum-sum zero p start mem small = omega arith
check_sum-sum (suc len) p start mem small =
    check_sum-sum len (p + 1) (u8 (start + mem p)) mem (omega arith) ∙ omega arith
