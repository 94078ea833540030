-- ===== src/Descriptors.antt =====
-- Segment and TSS descriptors of arch/x86/libs/descriptors_x86 on a 64 bit processor. A bit field of
-- `w` bits keeps a value modulo 2 ^ w.
pub mod Fields
mod Tests
use Prim.Native.Nat.{bit_and, bit_or}
use sadie.Prelude.{ℕ, ◌+◌, ◌-◌, ◌*◌, ◌/◌, ◌%◌, ◌^◌}

-- `SegDesc`
pub record SegDesc : Type 0 where
  pub seg_limit_lo : ℕ
  pub base_addr_lo : ℕ
  pub type : ℕ
  pub s : ℕ
  pub dpl : ℕ
  pub p : ℕ
  pub seg_limit_hi : ℕ
  pub avl : ℕ
  pub l : ℕ
  pub d_b : ℕ
  pub g : ℕ
  pub base_addr_hi : ℕ

-- `SEG_DESC_SEG_LIMIT_LO`, `SEG_DESC_SEG_LIMIT_HI`
abbrev pub seg_limit_lo_of : ℕ → ℕ
seg_limit_lo_of i = bit_and i (2 ^ 16 - 1)

abbrev pub seg_limit_hi_of : ℕ → ℕ
seg_limit_hi_of addr = bit_and (addr / 2 ^ 16) (2 ^ 48 - 1)

-- `SEG_DESC_BASE_ADDR_LO`, `SEG_DESC_BASE_ADDR_HI`
abbrev pub base_addr_lo_of : ℕ → ℕ
base_addr_lo_of addr = bit_and (addr / 2 ^ 16) (2 ^ 24 - 1)

abbrev pub base_addr_hi_of : ℕ → ℕ
base_addr_hi_of addr = bit_and (addr / 2 ^ 24) (2 ^ 8 - 1)

-- `GET_SEG_DESC_SEG_LIMIT`, `GET_SEG_DESC_BASE_ADDR`
unfoldable pub get_seg_limit : SegDesc → ℕ
get_seg_limit sd = bit_or (sd.seg_limit_hi * 2 ^ 16 % 2 ^ 64) sd.seg_limit_lo

unfoldable pub get_base_addr : SegDesc → ℕ
get_base_addr sd = bit_or (sd.base_addr_hi * 2 ^ 24 % 2 ^ 64) sd.base_addr_lo

unfoldable pub set_seg_desc : (seg_limit base_addr type s dpl p avl l d_b g : ℕ) → SegDesc
set_seg_desc seg_limit base_addr type s dpl p avl l d_b g = record {
  seg_limit_lo = seg_limit_lo_of seg_limit % 2 ^ 16;
  base_addr_lo = base_addr_lo_of base_addr % 2 ^ 24;
  type = type % 2 ^ 4;
  s = s % 2;
  dpl = dpl % 2 ^ 2;
  p = p % 2;
  seg_limit_hi = seg_limit_hi_of seg_limit % 2 ^ 4;
  avl = avl % 2;
  l = l % 2;
  d_b = d_b % 2;
  g = g % 2;
  base_addr_hi = base_addr_hi_of base_addr % 2 ^ 8;
}

-- The byte of `SegTypeCode` and of `SegTypeData`, whose fields have one bit each.
abbrev pub code_type : (accessed readable conforming : ℕ) → ℕ
code_type a r c = a % 2 + r % 2 * 2 + c % 2 * 4 + 8

abbrev pub data_type : (accessed write_enable expand_dir : ℕ) → ℕ
data_type a w e = a % 2 + w % 2 * 2 + e % 2 * 4

unfoldable pub set_code_seg_desc : (accessed readable conforming dpl p avl l d g : ℕ) → SegDesc
unfolding set_seg_desc
set_code_seg_desc a r c dpl p avl l d g = set_seg_desc 0 0 (code_type a r c) 1 dpl p avl l d g

unfoldable pub set_data_seg_desc : (accessed write_enable expand_dir dpl p avl l d g : ℕ) → SegDesc
unfolding set_seg_desc
set_data_seg_desc a w e dpl p avl l d g = set_seg_desc 0 0 (data_type a w e) 1 dpl p avl l d g

-- `TssDesc`
pub record TssDesc : Type 0 where
  pub seg_limit_lo : ℕ
  pub base_addr_lo : ℕ
  pub type : ℕ
  pub dpl : ℕ
  pub p : ℕ
  pub seg_limit_hi : ℕ
  pub avl : ℕ
  pub g : ℕ
  pub base_addr_hi : ℕ

-- `TSS_DESC_SEG_LIMIT_HI`; that of the low bits is the same as for a segment.
abbrev pub tss_limit_hi_of : ℕ → ℕ
tss_limit_hi_of sl = bit_and (sl / 2 ^ 16) (2 ^ 4 - 1)

-- `TSS_DESC_BASE_ADDR_HI`; that of the low bits is the same as for a segment.
abbrev pub tss_base_hi_of : ℕ → ℕ
tss_base_hi_of addr = bit_and (addr / 2 ^ 16) (2 ^ 48 - 1)

unfoldable pub get_tss_limit : TssDesc → ℕ
get_tss_limit td = bit_or (td.seg_limit_hi * 2 ^ 16 % 2 ^ 64) td.seg_limit_lo

unfoldable pub get_tss_base : TssDesc → ℕ
get_tss_base td = bit_or (td.base_addr_hi * 2 ^ 24 % 2 ^ 64) td.base_addr_lo

unfoldable pub set_tss_desc : (seg_limit base_addr type dpl p avl g : ℕ) → TssDesc
set_tss_desc seg_limit base_addr type dpl p avl g = record {
  seg_limit_lo = seg_limit_lo_of seg_limit % 2 ^ 16;
  base_addr_lo = base_addr_lo_of base_addr % 2 ^ 24;
  type = type % 2 ^ 4;
  dpl = dpl % 2 ^ 2;
  p = p % 2;
  seg_limit_hi = tss_limit_hi_of seg_limit % 2 ^ 4;
  avl = avl % 2;
  g = g % 2;
  base_addr_hi = tss_base_hi_of base_addr % 2 ^ 40;
}
