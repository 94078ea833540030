-- ===== src/SwapBytes.antt =====
-- `AC_SWAP_BYTES_U16`, `AC_SWAP_BYTES_U32` and `AC_SWAP_BYTES_U64` of libs/ac_swap_bytes. On a little
-- endian processor they are also AC_HTON_ and AC_NTOH_ of components/ac_inet_link/incs.
pub mod Twice
mod Tests
use Prim.Native.Nat.{bit_and, bit_or}
use sadie.Prelude.{ℕ, ◌*◌, ◌/◌, ◌%◌, ◌^◌}
use sadie.Word.{u16, u32, u64}

unfoldable pub swap_u16 : ℕ → ℕ
swap_u16 val = u16 (bit_or (bit_and (u16 val) 0x00ff * 2 ^ 8) (bit_and (u16 val) 0xff00 / 2 ^ 8))

unfoldable pub swap_u32 : ℕ → ℕ
swap_u32 val =
    let v = u32 val in
    bit_or
      (bit_or (bit_or (u32 (bit_and v 0x0000_00ff * 2 ^ 24)) (u32 (bit_and v 0x0000_ff00 * 2 ^ 8)))
        (bit_and v 0x00ff_0000 / 2 ^ 8))
      (bit_and v 0xff00_0000 / 2 ^ 24)

unfoldable pub swap_u64 : ℕ → ℕ
swap_u64 val =
    let v = u64 val in
    let low_1 = u64 (bit_and v 0x0000_0000_0000_00ff * 2 ^ 56) in
    let low_2 = u64 (bit_and v 0x0000_0000_0000_ff00 * 2 ^ 40) in
    let low_3 = u64 (bit_and v 0x0000_0000_00ff_0000 * 2 ^ 24) in
    let low_4 = u64 (bit_and v 0x0000_0000_ff00_0000 * 2 ^ 8) in
    let high_4 = bit_and v 0x0000_00ff_0000_0000 / 2 ^ 8 in
    let high_3 = bit_and v 0x0000_ff00_0000_0000 / 2 ^ 24 in
    let high_2 = bit_and v 0x00ff_0000_0000_0000 / 2 ^ 40 in
    let high_1 = bit_and v 0xff00_0000_0000_0000 / 2 ^ 56 in
    bit_or
      (bit_or (bit_or (bit_or (bit_or (bit_or (bit_or low_1 low_2) low_3) low_4) high_4) high_3)
        high_2)
      high_1
