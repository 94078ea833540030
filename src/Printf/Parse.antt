-- ===== src/Printf/Parse.antt =====
-- The flags, width and precision of a conversion in libs/ac_printf/srcs/ac_printf.c. A format is the
-- list of its characters before the NUL; the first character of what is left is `next_ch`.
use sadie.Prelude.{
  ℕ, ◌+◌, ◌-◌, ◌*◌, Bool, true, ◌&&◌, ◌==◌, leb, if◌then◌else◌, Option, none, some, List, [], ◌∷◌,
}
use sadie.Word.{u64}
use sadie.Printf.{Flags}

-- A variable argument: the bits of an integer or a pointer, or the characters of a string.
pub data Arg : Type 0 where
  num : (bits : ℕ) → Arg
  str : (chars : List ℕ) → Arg

abbrev pub is_digit : ℕ → Bool
is_digit c = leb 48 c && leb c 57

-- `get_number`; its `do` loop is entered with a digit only.
unfoldable pub get_number : (val : ℕ) → List ℕ → ℕ × List ℕ
get_number val [] = (val, [])
get_number val (c ∷ f) =
    let rest = get_number (u64 (val * 10 + (c - 48))) f in if is_digit c then rest else (val, c ∷ f)

abbrev pub set_flag : Flags → ℕ → Option Flags
set_flag fl c =
    if c == 43
    then some (record fl { sign_to_print = 43 })
    else (if c == 45
        then some (record fl { left_justified = true })
        else (if c == 35
            then some (record fl { alt_form = true })
            else (if c == 48 then some (record fl { leading_0 = true }) else none)))

unfoldable pub parse_flags : Flags → List ℕ → Flags × List ℕ
parse_flags fl [] = (fl, [])
parse_flags fl (c ∷ f) = elim (set_flag fl c) [ none ↦ (fl, c ∷ f) | some fl' ↦ parse_flags fl' f ]

-- A `*`: the next argument.
abbrev pub star : (ℕ → Flags) → List ℕ → List Arg → Option (Flags × List ℕ × List Arg)
star set f (num n ∷ args) = some (set (u64 n), f, args)
star set f _ = none

unfoldable pub parse_width : Flags → List ℕ → List Arg → Option (Flags × List ℕ × List Arg)
unfolding get_number
parse_width fl [] args = some (fl, [], args)
parse_width fl (c ∷ f) args =
    let n = get_number 0 (c ∷ f) in
    if leb 49 c && leb c 57
    then some (record fl { min_width = n.0 }, n.1, args)
    else (if c == 42
        then star (λ w. record fl { min_width = w }) f args
        else some (fl, c ∷ f, args))

abbrev pub precision_after_dot : Flags → List ℕ → List Arg → Option (Flags × List ℕ × List Arg)
precision_after_dot fl [] args = some (fl, [], args)
precision_after_dot fl (c ∷ f) args =
    let n = get_number 0 (c ∷ f) in
    if is_digit c
    then some (record fl { precision = n.0 }, n.1, args)
    else (if c == 42
        then star (λ p. record fl { precision = p }) f args
        else some (fl, c ∷ f, args))

unfoldable pub parse_precision : Flags → List ℕ → List Arg → Option (Flags × List ℕ × List Arg)
unfolding get_number
parse_precision fl [] args = some (fl, [], args)
parse_precision fl (c ∷ f) args =
    if c == 46 then precision_after_dot fl f args else some (fl, c ∷ f, args)
