-- ===== src/Word/Tests.antt =====
-- The bit count at concrete words.
use sadie.Prelude.{◌≡◌, refl}
use sadie.Word.Bits.{count_one_bits}

count_one_bits_runs : count_one_bits 0b1011 ≡ 3
unfolding count_one_bits
count_one_bits_runs = refl
