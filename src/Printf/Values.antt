-- ===== src/Printf/Values.antt =====
-- `write_uval` and `write_sval` of libs/ac_printf/srcs/ac_printf.c, as the characters that they write.
use sadie.Prelude.{
  ℕ, zero, suc, ◌+◌, ◌-◌, ◌/◌, ◌%◌, ◌^◌, ◌||◌, ◌==◌, ltb, leb, if◌then◌else◌, Option, none, some,
  List, [], ◌∷◌, ◌++◌, length, replicate,
}
use mathlib.Core.Option
use sadie.Word.{u64}
use sadie.Printf.{Flags}

-- `val_to_char`, an array of 17 characters with the NUL at its end.
abbrev pub val_to_char : ℕ → ℕ
val_to_char d = if ltb d 10 then 48 + d else (if ltb d 16 then 87 + d else 0)

-- The loop that fills `result`, with the room left in it: the lowest digit first.
unfoldable pub to_digits : (room val radix : ℕ) → List ℕ
to_digits zero val radix = []
to_digits (suc room) val radix =
    let rest = to_digits room (val / radix) radix in
    val_to_char (val % radix) ∷ (if val / radix == 0 then [] else rest)

-- `min_width - idx` as an AcS64, 0 where it is negative.
abbrev pub missing : (min_width idx : ℕ) → ℕ
missing min_width idx = let d = u64 (min_width + 2 ^ 64 - idx) in if leb (2 ^ 63) d then 0 else d

abbrev pub sign_chars : ℕ → List ℕ
sign_chars s = if s == 0 then [] else s ∷ []

abbrev pub zeros_of : Flags → ℕ → ℕ
zeros_of fl idx =
    if fl.leading_0 then missing fl.min_width idx - length (sign_chars fl.sign_to_print) else 0

abbrev pub reversed : List ℕ → List ℕ
reversed [] = []
reversed (x ∷ xs) = reversed xs ++ (x ∷ [])

-- The contents of `result` before it is printed: digits, zeros and sign.
abbrev pub body : Flags → List ℕ → List ℕ
body fl ds = ds ++ replicate (zeros_of fl (length ds)) 48 ++ sign_chars fl.sign_to_print

abbrev pub padded : Flags → List ℕ → List ℕ
padded fl b =
    let spaces = replicate (missing fl.min_width (length b)) 32 in
    if fl.left_justified then reversed b ++ spaces else spaces ++ reversed b

-- A value in a valid radix; none is a write past the 65 bytes of `result`.
unfoldable pub number : Flags → (val radix : ℕ) → Option (List ℕ)
unfolding to_digits
number fl val radix =
    let b = body fl (to_digits 65 val radix) in
    if ltb 65 (length b) then none else some (padded fl b)

abbrev bad_radix : List ℕ
bad_radix = 66 ∷ 97 ∷ 100 ∷ 32 ∷ 82 ∷ 97 ∷ 100 ∷ 105 ∷ 120 ∷ 32 ∷ []

-- `write_uval`. The call for a bad radix passes `sz_val_in_bytes` for the value.
unfoldable pub uval : Flags → (val sz_val_in_bytes radix : ℕ) → Option (List ℕ)
unfolding number
uval fl val sz radix =
    if leb radix 1 || ltb 17 radix
    then Option.map (λ cs. bad_radix ++ cs) (number fl sz 10)
    else number fl val radix

-- `write_sval`, for the bits of an AcS64.
unfoldable pub sval : Flags → (val radix : ℕ) → Option (List ℕ)
unfolding uval
sval fl val radix =
    if leb (2 ^ 63) val
    then uval (record fl { sign_to_print = 45 }) (u64 (2 ^ 64 - val)) 8 radix
    else uval fl val 8 radix
