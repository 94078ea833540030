-- ===== src/Descriptors/Fields.antt =====
-- What is read back from a descriptor.
use Prim.Native.Nat.{bit_or}
use sadie.Prelude.{ℕ, ◌+◌, ◌*◌, ◌/◌, ◌%◌, ◌^◌, ◌<◌, ◌≡◌, ◌∙◌, arith}
use native.Mathlib.Nat.{mod-eq_of_lt}
use sadie.Prelude.Bits.{bit_and-ones, bit_or-shifted}
use sadie.Descriptors.{
  get_seg_limit, get_base_addr, set_seg_desc, get_tss_limit, get_tss_base, set_tss_desc,
}

joined :
    (k hi lo : ℕ)
    → lo < 2 ^ k
    → hi * 2 ^ k < 2 ^ 64
    → bit_or (hi * 2 ^ k % 2 ^ 64) lo ≡ hi * 2 ^ k + lo
joined k hi lo low fits = rw (mod-eq_of_lt fits) (bit_or-shifted k hi lo low)

-- A limit of 20 bits is read back from a segment descriptor as it was set. Of a base address, bits
-- 16 to 39 are read back in the place of bits 0 to 23, and bits 24 to 31 in their own place.
pub set_seg_desc-get :
    (seg_limit base_addr type s dpl p avl l d_b g : ℕ)
    → seg_limit < 2 ^ 20
    → (get_seg_limit (set_seg_desc seg_limit base_addr type s dpl p avl l d_b g) ≡ seg_limit)
      × (get_base_addr (set_seg_desc seg_limit base_addr type s dpl p avl l d_b g)
          ≡ base_addr / 2 ^ 24 % 2 ^ 8 * 2 ^ 24 + base_addr / 2 ^ 16 % 2 ^ 24)
unfolding get_seg_limit get_base_addr set_seg_desc
set_seg_desc-get seg_limit base_addr type s dpl p avl l d_b g small = (
  rw (bit_and-ones 16 seg_limit, bit_and-ones 48 (seg_limit / 2 ^ 16))
      (joined 16 (seg_limit / 2 ^ 16 % 2 ^ 48 % 2 ^ 4) (seg_limit % 2 ^ 16 % 2 ^ 16) (omega arith)
          (omega arith)
        ∙ omega arith),
  rw (bit_and-ones 24 (base_addr / 2 ^ 16), bit_and-ones 8 (base_addr / 2 ^ 24))
      (joined 24 (base_addr / 2 ^ 24 % 2 ^ 8 % 2 ^ 8) (base_addr / 2 ^ 16 % 2 ^ 24 % 2 ^ 24)
          (omega arith) (omega arith)
        ∙ omega arith),
)

-- A limit of 20 bits is read back from a TSS descriptor as it was set. Of a base address, bits 16 to
-- 55 are read back 8 bits higher, and bits 16 to 39 also in the place of bits 0 to 23.
set_tss_desc-get :
    (seg_limit base_addr type dpl p avl g : ℕ)
    → seg_limit < 2 ^ 20
    → (get_tss_limit (set_tss_desc seg_limit base_addr type dpl p avl g) ≡ seg_limit)
      × (get_tss_base (set_tss_desc seg_limit base_addr type dpl p avl g)
          ≡ base_addr / 2 ^ 16 % 2 ^ 40 * 2 ^ 24 + base_addr / 2 ^ 16 % 2 ^ 24)
unfolding get_tss_limit get_tss_base set_tss_desc
set_tss_desc-get seg_limit base_addr type dpl p avl g small = (
  rw (bit_and-ones 16 seg_limit, bit_and-ones 4 (seg_limit / 2 ^ 16))
      (joined 16 (seg_limit / 2 ^ 16 % 2 ^ 4 % 2 ^ 4) (seg_limit % 2 ^ 16 % 2 ^ 16) (omega arith)
          (omega arith)
        ∙ omega arith),
  rw (bit_and-ones 24 (base_addr / 2 ^ 16), bit_and-ones 48 (base_addr / 2 ^ 16))
      (joined 24 (base_addr / 2 ^ 16 % 2 ^ 48 % 2 ^ 40) (base_addr / 2 ^ 16 % 2 ^ 24 % 2 ^ 24)
          (omega arith) (omega arith)
        ∙ omega arith),
)
