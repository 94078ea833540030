-- ===== src/Printf/Leaves.antt =====
-- No part of a conversion leaves more of the format than it was given.
use sadie.Prelude.{
  Bool, ◌/◌, ◌%◌, ◌^◌, ℕ, zero, suc, ◌+◌, ◌*◌, ◌-◌, ◌≤◌, true, false, none, some, Option, List, [],
  ◌∷◌, ◌++◌, arith, ◌==◌, leb, ◌&&◌, if◌then◌else◌, length,
}
use sadie.Word.{u64}
use sadie.Printf.{Flags}
use sadie.Printf.Values.{uval, sval}
use sadie.Printf.Parse.{
  is_digit, Arg, num, str, get_number, set_flag, parse_flags, star, parse_width,
  precision_after_dot, parse_precision,
}
use sadie.Printf.Format.{
  Proc, Step, stop, go, undefined, emit, signed_arg, unsigned_arg, sign_extended, after_l, long_arg,
  consume, same, on_str, on_char, get_type_name, by_name, by_char, Named, missing_brace, to_long,
  named,
}

pub either {ℓ κ} :
    {A : Type ℓ} (P : A → Type κ) (b : Bool) {x y : A} → P x → P y → P (if b then x else y)
either P true px py = px
either P false px py = py

get_number-length : (val : ℕ) (f : List ℕ) → length (get_number val f).1 ≤ length f
unfolding get_number
get_number-length val [] = omega arith
get_number-length val (c ∷ f) = ground (arith, get_number-length (u64 (val * 10 + (c - 48))) f)

pub parse_flags-length : (fl : Flags) (f : List ℕ) → length (parse_flags fl f).1 ≤ length f
unfolding parse_flags
parse_flags-length fl [] = omega arith
parse_flags-length fl (c ∷ f) =
    elim (set_flag fl c)
      as (λ o.
        length
          (elim o as (λ _. Flags × List ℕ) [ none ↦ (fl, c ∷ f) | some fl' ↦ parse_flags fl' f ]).1
        ≤ suc (length f)) [
          | none ↦ omega arith
          | some fl' ↦ omega (arith, parse_flags-length fl' f)
        ]

-- What is left after a step is no longer than `n`.
abbrev pub LeavesAtMost : ℕ → Step → Type 0
LeavesAtMost n (go out rest args) = length rest ≤ n
LeavesAtMost n _ = Unit

abbrev pub LeftAtMost : ℕ → Option (Flags × List ℕ × List Arg) → Type 0
LeftAtMost n none = Unit
LeftAtMost n (some (fl, f, args)) = length f ≤ n

star-LeftAtMost :
    (set : ℕ → Flags) (n : ℕ) (f : List ℕ) (args : List Arg)
    → length f ≤ n
    → LeftAtMost n (star set f args)
star-LeftAtMost set n f [] h = tt
star-LeftAtMost set n f (num x ∷ args) h = h
star-LeftAtMost set n f (str x ∷ args) h = tt

pub parse_width-LeftAtMost :
    (fl : Flags) (f : List ℕ) (args : List Arg) → LeftAtMost (length f) (parse_width fl f args)
unfolding parse_width
parse_width-LeftAtMost fl [] args = omega arith
parse_width-LeftAtMost fl (c ∷ f) args =
    either (LeftAtMost (suc (length f))) (leb 49 c && leb c 57) (get_number-length 0 (c ∷ f)) (
      either (LeftAtMost (suc (length f))) (c == 42)
        (star-LeftAtMost (λ w. record fl { min_width = w }) (suc (length f)) f args (omega arith))
        (omega arith))

precision_after_dot-LeftAtMost :
    (fl : Flags) (f : List ℕ) (args : List Arg)
    → LeftAtMost (length f) (precision_after_dot fl f args)
precision_after_dot-LeftAtMost fl [] args = omega arith
precision_after_dot-LeftAtMost fl (c ∷ f) args =
    either (LeftAtMost (suc (length f))) (is_digit c) (get_number-length 0 (c ∷ f)) (
      either (LeftAtMost (suc (length f))) (c == 42)
        (star-LeftAtMost (λ p. record fl { precision = p }) (suc (length f)) f args (omega arith))
        (omega arith))

LeftAtMost-weaken :
    (o : Option (Flags × List ℕ × List Arg)) {m n : ℕ} → m ≤ n → LeftAtMost m o → LeftAtMost n o
LeftAtMost-weaken none le h = tt
LeftAtMost-weaken (some x) le h = omega arith

pub parse_precision-LeftAtMost :
    (fl : Flags) (f : List ℕ) (args : List Arg) → LeftAtMost (length f) (parse_precision fl f args)
unfolding parse_precision
parse_precision-LeftAtMost fl [] args = omega arith
parse_precision-LeftAtMost fl (c ∷ f) args =
    either (LeftAtMost (suc (length f))) (c == 46)
      (LeftAtMost-weaken (precision_after_dot fl f args) (omega arith)
        (precision_after_dot-LeftAtMost fl f args))
      (omega arith)

emit-LeavesAtMost :
    (o : Option (List ℕ)) (n : ℕ) (f : List ℕ) (args : List Arg)
    → length f ≤ n
    → LeavesAtMost n (emit o f args)
emit-LeavesAtMost none n f args h = tt
emit-LeavesAtMost (some cs) n f args h = h

pub signed_arg-LeavesAtMost :
    (fl : Flags) (bits n : ℕ) (f : List ℕ) (args : List Arg)
    → length f ≤ n
    → LeavesAtMost n (signed_arg fl bits f args)
signed_arg-LeavesAtMost fl bits n f [] h = tt
signed_arg-LeavesAtMost fl bits n f (num x ∷ args) h =
    emit-LeavesAtMost (sval fl (sign_extended bits x) 10) n f args h
signed_arg-LeavesAtMost fl bits n f (str x ∷ args) h = tt

pub unsigned_arg-LeavesAtMost :
    (fl : Flags) (bits radix n : ℕ) (f : List ℕ) (args : List Arg)
    → length f ≤ n
    → LeavesAtMost n (unsigned_arg fl bits radix f args)
unsigned_arg-LeavesAtMost fl bits radix n f [] h = tt
unsigned_arg-LeavesAtMost fl bits radix n f (num x ∷ args) h =
    emit-LeavesAtMost (uval fl (x % 2 ^ bits) (bits / 8) radix) n f args h
unsigned_arg-LeavesAtMost fl bits radix n f (str x ∷ args) h = tt

after_l-LeavesAtMost :
    (fl : Flags) (seen f : List ℕ) (args : List Arg)
    → LeavesAtMost (length f) (after_l fl seen f args)
after_l-LeavesAtMost fl seen [] args = omega arith
after_l-LeavesAtMost fl seen (c ∷ f) args =
    let P = LeavesAtMost (suc (length f)) in
    let u =
      λ (radix : ℕ). unsigned_arg-LeavesAtMost fl 64 radix (suc (length f)) f args (omega arith) in
    either P (c == 98) (u 2) (
      either P (c == 100) (signed_arg-LeavesAtMost fl 64 (suc (length f)) f args (omega arith))
        (either P (c == 117) (u 10) (either P (c == 120) (u 16) (omega arith))))

pub LeavesAtMost-weaken : (s : Step) {m n : ℕ} → m ≤ n → LeavesAtMost m s → LeavesAtMost n s
LeavesAtMost-weaken (stop out) le h = tt
LeavesAtMost-weaken (go out rest args) le h = omega arith
LeavesAtMost-weaken undefined le h = tt

pub long_arg-LeavesAtMost :
    (fl : Flags) (f : List ℕ) (args : List Arg) → LeavesAtMost (length f) (long_arg fl f args)
long_arg-LeavesAtMost fl [] args = omega arith
long_arg-LeavesAtMost fl (c ∷ f) args =
    either (LeavesAtMost (suc (length f))) (c == 108)
      (LeavesAtMost-weaken (after_l fl (37 ∷ 108 ∷ 108 ∷ []) f args) (omega arith)
        (after_l-LeavesAtMost fl (37 ∷ 108 ∷ 108 ∷ []) f args))
      (after_l-LeavesAtMost fl (37 ∷ 108 ∷ []) (c ∷ f) args)

consume-LeavesAtMost :
    (r : List ℕ × ℕ) (n : ℕ) (f : List ℕ) (args : List Arg)
    → length f ≤ n
    → LeavesAtMost n (consume r f args)
consume-LeavesAtMost r n f args h = either (LeavesAtMost n) (leb r.1 (length args)) h tt

pub by_name-LeavesAtMost :
    (procs : List Proc) (name unknown f : List ℕ) (args : List Arg)
    → LeavesAtMost (length f) (by_name procs name unknown f args)
unfolding by_name
by_name-LeavesAtMost [] name unknown f args = omega arith
by_name-LeavesAtMost (on_str s p ∷ procs) name unknown f args =
    either (LeavesAtMost (length f)) (same s name)
      (consume-LeavesAtMost (p args) (length f) f args (omega arith))
      (by_name-LeavesAtMost procs name unknown f args)
by_name-LeavesAtMost (on_char c p ∷ procs) name unknown f args =
    by_name-LeavesAtMost procs name unknown f args

pub by_char-LeavesAtMost :
    (procs : List Proc) (ch : ℕ) (unknown f : List ℕ) (args : List Arg)
    → LeavesAtMost (length f) (by_char procs ch unknown f args)
unfolding by_char
by_char-LeavesAtMost [] ch unknown f args = omega arith
by_char-LeavesAtMost (on_char c p ∷ procs) ch unknown f args =
    either (LeavesAtMost (length f)) (c == ch)
      (consume-LeavesAtMost (p args) (length f) f args (omega arith))
      (by_char-LeavesAtMost procs ch unknown f args)
by_char-LeavesAtMost (on_str s p ∷ procs) ch unknown f args =
    by_char-LeavesAtMost procs ch unknown f args

abbrev pub NameWithin : ℕ → Named → Type 0
NameWithin n (named name rest) = length rest ≤ n
NameWithin n _ = Unit

NameWithin-weaken : (x : Named) {m n : ℕ} → m ≤ n → NameWithin m x → NameWithin n x
NameWithin-weaken (named name rest) le h = omega arith
NameWithin-weaken (missing_brace name) le h = tt
NameWithin-weaken (to_long name) le h = tt

pub get_type_name-NameWithin :
    (room : ℕ) (name f : List ℕ) → NameWithin (length f) (get_type_name room name f)
unfolding get_type_name
get_type_name-NameWithin zero name [] = tt
get_type_name-NameWithin (suc room) name [] = tt
get_type_name-NameWithin zero name (c ∷ f) =
    either (NameWithin (suc (length f))) (c == 125) (omega arith) tt
get_type_name-NameWithin (suc room) name (c ∷ f) =
    either (NameWithin (suc (length f))) (c == 125) (omega arith) (
      NameWithin-weaken (get_type_name room (name ++ (c ∷ [])) f) (omega arith)
        (get_type_name-NameWithin room (name ++ (c ∷ [])) f))
