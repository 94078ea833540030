-- ===== src/Printf/Format.antt =====
-- `formatter` of libs/ac_printf/srcs/ac_printf.c. A format is the list of its characters before the
-- NUL; where a list stands for what is still to be read, its first character is `next_ch`.
use sadie.Prelude.{
  ℕ, zero, suc, ◌+◌, ◌-◌, ◌/◌, ◌%◌, ◌^◌, Bool, true, false, ◌&&◌, ◌||◌, ◌==◌, ltb, leb,
  if◌then◌else◌, Option, none, some, List, [], ◌∷◌, ◌++◌, length, drop,
}
use sadie.Word.{u8, u64}
use sadie.Printf.{Flags, no_flags}
use sadie.Printf.Values.{uval, sval}
use sadie.Printf.Parse.{Arg, num, str, parse_flags, parse_width, parse_precision}

-- A registered procedure, for a character or a type's name: what it writes, and how many arguments
-- it has consumed.
pub data Proc : Type 0 where
  on_char : (ch : ℕ) → (List Arg → List ℕ × ℕ) → Proc
  on_str : (name : List ℕ) → (List Arg → List ℕ × ℕ) → Proc

-- What a step of the formatter comes to: it has reached `done`, it goes on, or the program has left
-- C (an argument that is missing or of another type, a write past a buffer).
pub data Step : Type 0 where
  stop : (out : List ℕ) → Step
  go : (out rest : List ℕ) → (args : List Arg) → Step
  undefined : Step

-- The cases of the `switch` on the conversion character.
pub data Conversion : Type 0 where
  percent character string pointer long type_name other : Conversion
  signed : (bits : ℕ) → Conversion
  unsigned : (bits radix : ℕ) → Conversion

abbrev pub or_else : Bool → Conversion → Conversion → Conversion
or_else b c rest = if b then c else rest

unfoldable pub conversion : ℕ → Conversion
conversion c = or_else (c == 37) percent (
    or_else (c == 99) character (
      or_else (c == 115) string (
        or_else (c == 105) (signed 64) (
          or_else (c == 118) (unsigned 64 10) (
            or_else (c == 121) (unsigned 64 16) (
              or_else (c == 98) (unsigned 32 2) (
                or_else (c == 100) (signed 32) (
                  or_else (c == 117) (unsigned 32 10) (
                    or_else (c == 120) (unsigned 32 16) (
                      or_else (c == 108) long
                        (or_else (c == 112) pointer (or_else (c == 123) type_name other))))))))))))

abbrev pub emit : Option (List ℕ) → List ℕ → List Arg → Step
emit none f args = undefined
emit (some cs) f args = go cs f args

-- The low `bits` bits as an AcS64.
abbrev pub sign_extended : (bits n : ℕ) → ℕ
sign_extended bits n =
    let low = n % 2 ^ bits in
    if leb (2 ^ (bits - 1)) low then u64 (low + 2 ^ 64 - 2 ^ bits) else low

abbrev pub signed_arg : Flags → (bits : ℕ) → List ℕ → List Arg → Step
signed_arg fl bits f (num n ∷ args) = emit (sval fl (sign_extended bits n) 10) f args
signed_arg fl bits f _ = undefined

abbrev pub unsigned_arg : Flags → (bits radix : ℕ) → List ℕ → List Arg → Step
unsigned_arg fl bits radix f (num n ∷ args) = emit (uval fl (n % 2 ^ bits) (bits / 8) radix) f args
unsigned_arg fl bits radix f _ = undefined

-- `(char)`, then the characters outside 0x20 to 0x7F; `char` is signed on x86.
abbrev pub char_arg : List ℕ → List Arg → Step
char_arg f (num n ∷ args) =
    let ch = u8 n in go ((if ltb ch 32 || ltb 127 ch then 255 else ch) ∷ []) f args
char_arg f _ = undefined

abbrev pub string_arg : List ℕ → List Arg → Step
string_arg f (str s ∷ args) = go s f args
string_arg f _ = undefined

abbrev pub after_l : Flags → (seen : List ℕ) → List ℕ → List Arg → Step
after_l fl seen [] args = go seen [] args
after_l fl seen (c ∷ f) args =
    if c == 98
    then unsigned_arg fl 64 2 f args
    else (if c == 100
        then signed_arg fl 64 f args
        else (if c == 117
            then unsigned_arg fl 64 10 f args
            else (if c == 120 then unsigned_arg fl 64 16 f args else go seen (c ∷ f) args)))

abbrev pub long_arg : Flags → List ℕ → List Arg → Step
long_arg fl [] args = after_l fl (37 ∷ 108 ∷ []) [] args
long_arg fl (c ∷ f) args =
    if c == 108
    then after_l fl (37 ∷ 108 ∷ 108 ∷ []) f args
    else after_l fl (37 ∷ 108 ∷ []) (c ∷ f) args

abbrev pub pointer_arg : Flags → List ℕ → List Arg → Step
pointer_arg fl f args =
    let wide = if fl.min_width == 0 then 16 else fl.min_width in
    unsigned_arg (record fl { leading_0 = true; min_width = wide }) 64 16 f args

-- The characters up to `}` in a buffer of 32 bytes: the end of the format, too many, or a name.
pub data Named : Type 0 where
  missing_brace : (name : List ℕ) → Named
  to_long : (name : List ℕ) → Named
  named : (name rest : List ℕ) → Named

unfoldable pub get_type_name : (room : ℕ) → (name : List ℕ) → List ℕ → Named
get_type_name room name [] = missing_brace name
get_type_name zero name (c ∷ f) = if c == 125 then named name f else to_long name
get_type_name (suc room) name (c ∷ f) =
    let rest = get_type_name room (name ++ (c ∷ [])) f in if c == 125 then named name f else rest

abbrev pub same : List ℕ → List ℕ → Bool
same [] [] = true
same (x ∷ xs) (y ∷ ys) = (x == y) && same xs ys
same _ _ = false

abbrev pub consume : List ℕ × ℕ → List ℕ → List Arg → Step
consume (out, n) f args = if leb n (length args) then go out f (drop n args) else undefined

-- The search of `ac_printf_ts` for a type's name and for a character; `unknown` is written when
-- there is no such procedure.
unfoldable pub by_name : List Proc → (name unknown f : List ℕ) → List Arg → Step
by_name [] name unknown f args = go unknown f args
by_name (on_str s p ∷ procs) name unknown f args =
    let rest = by_name procs name unknown f args in
    if same s name then consume (p args) f args else rest
by_name (on_char _ _ ∷ procs) name unknown f args = by_name procs name unknown f args

unfoldable pub by_char : List Proc → (ch : ℕ) → (unknown f : List ℕ) → List Arg → Step
by_char [] ch unknown f args = go unknown f args
by_char (on_char c p ∷ procs) ch unknown f args =
    let rest = by_char procs ch unknown f args in if c == ch then consume (p args) f args else rest
by_char (on_str _ _ ∷ procs) ch unknown f args = by_char procs ch unknown f args

abbrev pub is_missing : List ℕ
is_missing =
    60 ∷ 60 ∷ 39 ∷ 125 ∷ 39 ∷ 32 ∷ 105 ∷ 115 ∷ 32 ∷ 109 ∷ 105 ∷ 115 ∷ 115 ∷ 105 ∷ 110 ∷ 103 ∷ 62
    ∷ 62 ∷ []

abbrev pub is_to_long : List ℕ
is_to_long = 60 ∷ 60 ∷ 116 ∷ 111 ∷ 32 ∷ 108 ∷ 111 ∷ 110 ∷ 103 ∷ 62 ∷ 62 ∷ []

abbrev pub with_name : List Proc → Named → List Arg → Step
with_name procs (missing_brace name) args = stop (123 ∷ name ++ is_missing)
with_name procs (to_long name) args = stop (123 ∷ name ++ is_to_long)
with_name procs (named name f) args = by_name procs name (123 ∷ name ++ (125 ∷ [])) f args

-- The conversion that follows flags, width and precision.
abbrev pub convert : List Proc → Flags → Conversion → (c : ℕ) → List ℕ → List Arg → Step
convert procs fl percent c f args = go (c ∷ []) f args
convert procs fl character c f args = char_arg f args
convert procs fl string c f args = string_arg f args
convert procs fl pointer c f args = pointer_arg fl f args
convert procs fl long c f args = long_arg fl f args
convert procs fl type_name c f args = with_name procs (get_type_name 31 [] f) args
convert procs fl (signed bits) c f args = signed_arg fl bits f args
convert procs fl (unsigned bits radix) c f args = unsigned_arg fl bits radix f args
convert procs fl other c f args = by_char procs c (37 ∷ c ∷ []) f args

abbrev pub with_precision : List Proc → Option (Flags × List ℕ × List Arg) → Step
with_precision procs none = undefined
with_precision procs (some (fl, [], args)) = stop []
with_precision procs (some (fl, c ∷ f, args)) = convert procs fl (conversion c) c f args

abbrev pub with_width : List Proc → Option (Flags × List ℕ × List Arg) → Step
with_width procs none = undefined
with_width procs (some (fl, f, args)) = with_precision procs (parse_precision fl f args)

-- What follows a `%`.
unfoldable pub directive : List Proc → List ℕ → List Arg → Step
unfolding parse_flags parse_width parse_precision conversion get_type_name by_name by_char
directive procs f args =
    let p = parse_flags no_flags f in with_width procs (parse_width p.0 p.1 args)

-- One round of the formatter's loop.
unfoldable pub step : List Proc → List ℕ → List Arg → Step
unfolding directive
step procs [] args = stop []
step procs (c ∷ f) args =
    let d = directive procs f args in if c == 37 then d else go (c ∷ []) f args

pub data Emitted : Type 0 where
  done : (out : List ℕ) → Emitted
  left_c : Emitted
  starved : Emitted

abbrev pub behind : List ℕ → Emitted → Emitted
behind out (done cs) = done (out ++ cs)
behind out left_c = left_c
behind out starved = starved

unfoldable pub formatter : (fuel : ℕ) → List Proc → List ℕ → List Arg → Emitted
unfolding step
formatter zero procs f args = starved
formatter (suc fuel) procs f args = elim (step procs f args) [
  | stop out ↦ done out
  | go out rest args' ↦ behind out (formatter fuel procs rest args')
  | undefined ↦ left_c
]
