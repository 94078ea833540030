-- ===== src/Time.antt =====
-- libs/ac_time: ticks of the time stamp counter as nanoseconds and as text. The frequency is a
-- parameter, never 0. All operations are those of AcU64.
pub mod Digits
pub mod Split
mod Tests
use sadie.Prelude.{
  ℕ, zero, suc, ◌+◌, ◌-◌, ◌*◌, ◌/◌, ◌%◌, ◌^◌, Bool, true, false, ◌&&◌, ◌||◌, ◌==◌, leb, ltb,
  if◌then◌else◌, List, [], ◌∷◌, replicate,
}
use sadie.Word.{u8, u64}

abbrev pub sec_in_ns : ℕ
sec_in_ns = 1000000000

-- `AC_U64_DIV_ROUND_UP`
abbrev pub div_round_up : ℕ → ℕ → ℕ
div_round_up x y = u64 (x + x % y) / y

unfoldable pub nanos_to_ticks : (freq nanos : ℕ) → ℕ
nanos_to_ticks freq nanos =
    u64 (u64 (nanos / sec_in_ns * freq) + div_round_up (u64 (nanos % sec_in_ns * freq)) sec_in_ns)

unfoldable pub ticks_to_nanos : (freq ticks : ℕ) → ℕ
ticks_to_nanos freq ticks =
    u64 (u64 (ticks / freq * sec_in_ns) + div_round_up (u64 (ticks % freq * sec_in_ns)) freq)

-- The loop over `up`.
abbrev pub times_ten : (precision up : ℕ) → ℕ
times_ten zero up = up
times_ten (suc p) up = times_ten p (u64 (up * 10))

unfoldable pub round_ticks : (ticks freq precision : ℕ) → ℕ
round_ticks ticks freq precision =
    let up = times_ten precision 2 in
    u64 (ticks + (if leb up freq then div_round_up freq up else 0))

-- `sub_sec_to_str`: the characters before the NUL, for the rounds left of `precision`.
unfoldable pub sub_sec_digits : (rounds sub_sec_ticks freq : ℕ) → List ℕ
sub_sec_digits zero t freq = []
sub_sec_digits (suc rounds) t freq =
    let t' = u64 (t * 10) in
    let digit = u8 (t' / freq) in
    let rest = sub_sec_digits rounds (u64 (t' + 2 ^ 64 - u64 (digit * freq))) freq in
    if ltb 0 t then u8 (48 + digit) ∷ rest else replicate (suc rounds) 48
