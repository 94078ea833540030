-- ===== src/Descriptors/Tests.antt =====
-- A TSS at 0x1234_5678 and a code segment.
use sadie.Prelude.{ℕ, ◌+◌, ◌*◌, ◌/◌, ◌%◌, ◌^◌, ◌≡◌, refl, arith}
use sadie.Descriptors.{
  get_seg_limit, get_base_addr, set_seg_desc, set_code_seg_desc, get_tss_base, set_tss_desc,
}
use sadie.Descriptors.Fields.{set_seg_desc-get}

abbrev base : ℕ
base = 0x1234_5678

set_seg_desc-get_example :
    (get_seg_limit (set_seg_desc 0xf_1234 base 10 1 0 1 0 1 0 1) ≡ 0xf_1234)
    × (get_base_addr (set_seg_desc 0xf_1234 base 10 1 0 1 0 1 0 1)
        ≡ base / 2 ^ 24 % 2 ^ 8 * 2 ^ 24 + base / 2 ^ 16 % 2 ^ 24)
set_seg_desc-get_example = set_seg_desc-get 0xf_1234 base 10 1 0 1 0 1 0 1 (omega arith)

-- The base address that is read back is another one.
tss_base_moved : get_tss_base (set_tss_desc 0x67 base 9 0 1 0 0) ≡ 0x12_3400_1234
unfolding get_tss_base set_tss_desc
tss_base_moved = refl

-- Readable, not conforming, present, 64 bit.
set_code_seg_desc_type : (set_code_seg_desc 0 1 0 0 1 0 1 0 0).type ≡ 10
unfolding set_code_seg_desc
set_code_seg_desc_type = refl
