-- ===== src/Printf/Progress.antt =====
-- The formatter comes to an end: every round leaves less of the format.
use sadie.Prelude.{
  ℕ, zero, suc, ◌≤◌, ◌<◌, ◌≢◌, true, none, some, Option, List, [], ◌∷◌, ◌++◌, arith, ◌==◌,
  if◌then◌else◌, length,
}
use sadie.Printf.{Flags, no_flags}
use sadie.Printf.Parse.{Arg, num, str, parse_flags, parse_width, parse_precision}
use sadie.Printf.Format.{
  Proc, Step, stop, go, undefined, char_arg, string_arg, convert, with_name, with_precision,
  with_width, Conversion, percent, character, string, pointer, long, type_name, signed, unsigned,
  other, conversion, Emitted, done, left_c, starved, behind, formatter, step, directive,
  get_type_name, by_name, Named, missing_brace, to_long, named,
}
use sadie.Printf.Leaves.{
  either, LeavesAtMost, LeftAtMost, LeavesAtMost-weaken, parse_flags-length, parse_width-LeftAtMost,
  parse_precision-LeftAtMost, signed_arg-LeavesAtMost, unsigned_arg-LeavesAtMost,
  long_arg-LeavesAtMost, by_name-LeavesAtMost, by_char-LeavesAtMost, NameWithin,
  get_type_name-NameWithin,
}

with_name-LeavesAtMost :
    (procs : List Proc) (x : Named) (n : ℕ) (args : List Arg)
    → NameWithin n x
    → LeavesAtMost n (with_name procs x args)
with_name-LeavesAtMost procs (missing_brace name) n args h = tt
with_name-LeavesAtMost procs (to_long name) n args h = tt
with_name-LeavesAtMost procs (named name f) n args h =
    LeavesAtMost-weaken (by_name procs name (123 ∷ name ++ (125 ∷ [])) f args) h
      (by_name-LeavesAtMost procs name (123 ∷ name ++ (125 ∷ [])) f args)

char_arg-LeavesAtMost : (f : List ℕ) (args : List Arg) → LeavesAtMost (length f) (char_arg f args)
char_arg-LeavesAtMost f [] = tt
char_arg-LeavesAtMost f (num x ∷ args) = omega arith
char_arg-LeavesAtMost f (str x ∷ args) = tt

string_arg-LeavesAtMost :
    (f : List ℕ) (args : List Arg) → LeavesAtMost (length f) (string_arg f args)
string_arg-LeavesAtMost f [] = tt
string_arg-LeavesAtMost f (num x ∷ args) = tt
string_arg-LeavesAtMost f (str x ∷ args) = omega arith

convert-LeavesAtMost :
    (procs : List Proc) (fl : Flags) (k : Conversion) (c : ℕ) (f : List ℕ) (args : List Arg)
    → LeavesAtMost (length f) (convert procs fl k c f args)
convert-LeavesAtMost procs fl percent c f args = omega arith
convert-LeavesAtMost procs fl character c f args = char_arg-LeavesAtMost f args
convert-LeavesAtMost procs fl string c f args = string_arg-LeavesAtMost f args
convert-LeavesAtMost procs fl pointer c f args =
    unsigned_arg-LeavesAtMost
      (record fl { leading_0 = true; min_width = if fl.min_width == 0 then 16 else fl.min_width })
      64 16 (length f) f args (omega arith)
convert-LeavesAtMost procs fl long c f args = long_arg-LeavesAtMost fl f args
convert-LeavesAtMost procs fl type_name c f args =
    with_name-LeavesAtMost procs (get_type_name 31 [] f) (length f) args
      (get_type_name-NameWithin 31 [] f)
convert-LeavesAtMost procs fl (signed bits) c f args =
    signed_arg-LeavesAtMost fl bits (length f) f args (omega arith)
convert-LeavesAtMost procs fl (unsigned bits radix) c f args =
    unsigned_arg-LeavesAtMost fl bits radix (length f) f args (omega arith)
convert-LeavesAtMost procs fl other c f args = by_char-LeavesAtMost procs c (37 ∷ c ∷ []) f args

with_precision-LeavesAtMost :
    (procs : List Proc) (o : Option (Flags × List ℕ × List Arg)) (n : ℕ)
    → LeftAtMost n o
    → LeavesAtMost n (with_precision procs o)
with_precision-LeavesAtMost procs none n h = tt
with_precision-LeavesAtMost procs (some (fl, [], args)) n h = tt
with_precision-LeavesAtMost procs (some (fl, c ∷ f, args)) n h =
    LeavesAtMost-weaken (convert procs fl (conversion c) c f args) (omega arith)
      (convert-LeavesAtMost procs fl (conversion c) c f args)

with_width-LeavesAtMost :
    (procs : List Proc) (o : Option (Flags × List ℕ × List Arg)) (n : ℕ)
    → LeftAtMost n o
    → LeavesAtMost n (with_width procs o)
with_width-LeavesAtMost procs none n h = tt
with_width-LeavesAtMost procs (some (fl, f, args)) n h =
    LeavesAtMost-weaken (with_precision procs (parse_precision fl f args)) h (
      with_precision-LeavesAtMost procs (parse_precision fl f args) (length f)
        (parse_precision-LeftAtMost fl f args))

step-LeavesAtMost :
    (procs : List Proc) (c : ℕ) (f : List ℕ) (args : List Arg)
    → LeavesAtMost (length f) (step procs (c ∷ f) args)
unfolding step directive
step-LeavesAtMost procs c f args =
    let p = parse_flags no_flags f in
    either (LeavesAtMost (length f)) (c == 37)
      (LeavesAtMost-weaken (with_width procs (parse_width p.0 p.1 args))
        (parse_flags-length no_flags f)
        (with_width-LeavesAtMost procs (parse_width p.0 p.1 args) (length p.1)
          (parse_width-LeftAtMost p.0 p.1 args)))
      (omega arith)

-- With fuel for each character of the format and its NUL the formatter comes to its end, whatever
-- the arguments and the registered procedures are.
pub formatter-terminates :
    (fuel : ℕ) (procs : List Proc) (f : List ℕ) (args : List Arg)
    → length f < fuel
    → formatter fuel procs f args ≢ starved
unfolding formatter
formatter-terminates zero procs f args h = absurd (omega arith)
formatter-terminates (suc fuel) procs [] args h = λ e. cc
formatter-terminates (suc fuel) procs (c ∷ f) args h =
    go_on (step procs (c ∷ f) args) (step-LeavesAtMost procs c f args)
      (λ rest args' le. formatter-terminates fuel procs rest args' (omega arith))
  where
    kept : (out : List ℕ) (e : Emitted) → e ≢ starved → behind out e ≢ starved
    kept out (done cs) ne e = cc
    kept out left_c ne e = cc
    kept out starved ne e = ne e

    go_on :
        (s : Step)
        → LeavesAtMost (length f) s
        → ((rest : List ℕ) (args' : List Arg)
            → length rest ≤ length f
            → formatter fuel procs rest args' ≢ starved)
        → elim s as (λ _. Emitted) [
          | stop out ↦ done out
          | go out rest args' ↦ behind out (formatter fuel procs rest args')
          | undefined ↦ left_c
        ]
          ≢ starved
    go_on (stop out) h ih e = cc
    go_on (go out rest args') h ih e =
        kept out (formatter fuel procs rest args') (ih rest args' h) e
    go_on undefined h ih e = cc
