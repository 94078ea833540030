-- ===== src/SwapBytes/Tests.antt =====
-- Swapped numbers.
use sadie.Prelude.{◌^◌, ◌%◌, ◌+◌, ◌*◌, ◌≡◌, refl}
use sadie.SwapBytes.{swap_u16, swap_u32, swap_u64}
use sadie.SwapBytes.Twice.{byte, swap-reverses}

swap_u64_one : swap_u64 0x0102_0304_0506_0708 ≡ 0x0807_0605_0403_0201
unfolding swap_u64
swap_u64_one = refl

swap-reverses_example :
    (swap_u16 0x1234 ≡ byte 0x1234 0 * 2 ^ 8 + byte 0x1234 1)
    × (swap_u32 0x1234
        ≡ byte 0x1234 0 * 2 ^ 24 + byte 0x1234 1 * 2 ^ 16 + byte 0x1234 2 * 2 ^ 8 + byte 0x1234 3)
    × (swap_u64 0x1234
        ≡ byte 0x1234 0 * 2 ^ 56
          + byte 0x1234 1 * 2 ^ 48
          + byte 0x1234 2 * 2 ^ 40
          + byte 0x1234 3 * 2 ^ 32
          + byte 0x1234 4 * 2 ^ 24
          + byte 0x1234 5 * 2 ^ 16
          + byte 0x1234 6 * 2 ^ 8
          + byte 0x1234 7)
    × (swap_u16 (swap_u16 0x1234) ≡ 0x1234 % 2 ^ 16)
    × (swap_u32 (swap_u32 0x1234) ≡ 0x1234 % 2 ^ 32)
    × (swap_u64 (swap_u64 (0x1234 % 2 ^ 64)) ≡ 0x1234 % 2 ^ 64)
swap-reverses_example = swap-reverses 0x1234
