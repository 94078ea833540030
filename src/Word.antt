-- ===== src/Word.antt =====
-- The fixed-width integers of arch/generic/incs, as numbers with their wrap-around, and the status
-- codes of libs/incs/ac_status.h.
pub mod Bits
mod Tests
use sadie.Prelude.{ℕ, ◌+◌, ◌-◌, ◌*◌, ◌%◌, ◌^◌, ◌≤◌, Bool, leb}

abbrev pub u8 : ℕ → ℕ
u8 n = n % 2 ^ 8

abbrev pub u16 : ℕ → ℕ
u16 n = n % 2 ^ 16

abbrev pub u32 : ℕ → ℕ
u32 n = n % 2 ^ 32

abbrev pub u64 : ℕ → ℕ
u64 n = n % 2 ^ 64

-- `AcU32` subtraction.
abbrev pub sub32 : ℕ → ℕ → ℕ
sub32 a b = (a + 2 ^ 32 - b) % 2 ^ 32

-- The sign of a bit pattern read as `ac_s32`.
abbrev pub negative32 : ℕ → Bool
negative32 w = leb (2 ^ 31) w

-- `AC_NULL`
abbrev pub null : ℕ
null = 0

-- `AcStatus`, by the major codes that the modelled functions return.
pub data Status : Type 0 where
  ok err bad_param out_of_memory : Status
