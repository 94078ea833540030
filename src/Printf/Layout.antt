-- ===== src/Printf/Layout.antt =====
-- What the printing of a number comes to.
use Prim.Native.Nat.{max}
use sadie.Prelude.{
  lt→ltb, ℕ, zero, suc, ◌+◌, ◌-◌, ◌*◌, ◌/◌, ◌%◌, ◌==◌, Bool-cases, inl, inr, sym, ◌^◌, ◌≤◌, ◌<◌,
  ◌≡◌, refl, ◌∙◌, ap, true, false, Bool, none, some, List, [], ◌∷◌, ◌++◌, arith, ltb, if◌then◌else◌,
  length, length-append, replicate, length-replicate,
}
use sadie.Printf.{Flags}
use sadie.Printf.Values.{to_digits, missing, sign_chars, zeros_of, reversed, body, padded, number}
use sadie.Printf.Digits.{char_value, from_digits, from_digits-to_digits}
use mathlib.Core.List.{append_assoc, append-nil}
use native.Mathlib.Nat.{mul_comm, mod-lt}

length-reversed : (xs : List ℕ) → length (reversed xs) ≡ length xs
length-reversed [] = refl
length-reversed (x ∷ xs) = omega (arith, length-append (reversed xs) (x ∷ []), length-reversed xs)

missing_lem : (w n : ℕ) → w < 2 ^ 63 → n < 2 ^ 63 → missing w n ≡ w - n
missing_lem w n small few = ground arith

sign_chars-length : (s : ℕ) → length (sign_chars s) ≤ 1
sign_chars-length s = ground arith

length-append_twice :
    (xs ys zs : List ℕ) → length (xs ++ ys ++ zs) ≡ length xs + (length ys + length zs)
length-append_twice xs ys zs = omega (arith, length-append (xs ++ ys) zs, length-append xs ys)

length-body :
    (fl : Flags) (ds : List ℕ)
    → length (body fl ds)
      ≡ length ds + (zeros_of fl (length ds) + length (sign_chars fl.sign_to_print))
length-body fl ds =
    length-append_twice ds (replicate (zeros_of fl (length ds)) 48) (sign_chars fl.sign_to_print)
    ∙ ap (λ (n : ℕ). length ds + (n + length (sign_chars fl.sign_to_print)))
        (length-replicate (zeros_of fl (length ds)) 48)

le→ltb : {m n : ℕ} → n ≤ m → ltb m n ≡ false
le→ltb h = ground arith

filled_le : (zeros : Bool) (w p n : ℕ) → w ≤ n → p ≤ n → (if zeros then max w p else p) ≤ n
filled_le true w p n hw hp = omega arith
filled_le false w p n hw hp = hp

max_filled : (zeros : Bool) (w p : ℕ) → max w (if zeros then max w p else p) ≡ max w p
max_filled true w p = omega arith
max_filled false w p = refl

length-padded :
    (fl : Flags) (b : List ℕ)
    → fl.min_width < 2 ^ 63
    → length b < 2 ^ 63
    → length (padded fl b) ≡ max fl.min_width (length b)
length-padded fl b small few = go fl.left_justified
  where
    spaces : List ℕ
    spaces = replicate (missing fl.min_width (length b)) 32

    length-spaces : length spaces ≡ fl.min_width - length b
    length-spaces =
        length-replicate (missing fl.min_width (length b)) 32
        ∙ missing_lem fl.min_width (length b) small few

    go :
        (left : Bool)
        → length (if left then reversed b ++ spaces else spaces ++ reversed b)
          ≡ max fl.min_width (length b)
    go true = rw (length-append (reversed b) spaces, length-reversed b, length-spaces) (omega arith)
    go false =
        rw (length-append spaces (reversed b), length-reversed b, length-spaces) (omega arith)

-- Digits, zeros and sign: the zeros fill up to the width, if they are asked for.
length-body_filled :
    (fl : Flags) (ds : List ℕ)
    → fl.min_width < 2 ^ 63
    → length ds ≤ 64
    → let plain = length ds + length (sign_chars fl.sign_to_print) in
      length (body fl ds) ≡ (if fl.leading_0 then max fl.min_width plain else plain)
length-body_filled fl ds small few = length-body fl ds ∙ go fl.leading_0
  where
    m : missing fl.min_width (length ds) ≡ fl.min_width - length ds
    m = missing_lem fl.min_width (length ds) small (omega arith)

    go :
        (zeros : Bool)
        → let s = length (sign_chars fl.sign_to_print) in
          length ds + ((if zeros then missing fl.min_width (length ds) - s else 0) + s)
          ≡ (if zeros then max fl.min_width (length ds + s) else length ds + s)
    go true = rw m (omega arith)
    go false = omega arith

-- The characters of the digits below `radix`, and the number that they stand for, read from the
-- highest on, behind what has been read.
abbrev pub digit_char : ℕ → ℕ
digit_char d = if ltb d 10 then 48 + d else 87 + d

pub data AreDigits (radix : ℕ) : List ℕ → Type 0 where
  no_digits : AreDigits radix []
  digit :
      {c : ℕ} {cs : List ℕ} (d : ℕ)
      → d < radix
      → c ≡ digit_char d
      → AreDigits radix cs
      → AreDigits radix (c ∷ cs)

abbrev pub read : (radix acc : ℕ) → List ℕ → ℕ
read radix acc [] = acc
read radix acc (c ∷ cs) = read radix (acc * radix + char_value c) cs

-- The sign and the zeros that are asked for before digits, and the spaces around a text.
abbrev pub signed : Flags → List ℕ → List ℕ
signed fl cs =
    let sign = if fl.sign_to_print == 0 then [] else fl.sign_to_print ∷ [] in
    let zeros = if fl.leading_0 then fl.min_width - (length cs + length sign) else 0 in
    sign ++ (replicate zeros 48 ++ cs)

abbrev pub justified : Flags → List ℕ → List ℕ
justified fl text =
    let spaces = replicate (fl.min_width - length text) 32 in
    if fl.left_justified then text ++ spaces else spaces ++ text

read-append : (r a : ℕ) (xs ys : List ℕ) → read r a (xs ++ ys) ≡ read r (read r a xs) ys
read-append r a [] ys = refl
read-append r a (x ∷ xs) ys = read-append r (a * r + char_value x) xs ys

read-reversed : (r : ℕ) (cs : List ℕ) → read r 0 (reversed cs) ≡ from_digits r cs
unfolding from_digits
read-reversed r [] = refl
read-reversed r (c ∷ cs) =
    read-append r 0 (reversed cs) (c ∷ [])
    ∙ omega (arith, ap (λ (x : ℕ). x * r) (read-reversed r cs), mul_comm r (from_digits r cs))

AreDigits-append :
    {r : ℕ} {xs ys : List ℕ} → AreDigits r xs → AreDigits r ys → AreDigits r (xs ++ ys)
AreDigits-append no_digits all = all
AreDigits-append (digit d lt e more) all = digit d lt e (AreDigits-append more all)

reversed-AreDigits : {r : ℕ} {xs : List ℕ} → AreDigits r xs → AreDigits r (reversed xs)
reversed-AreDigits no_digits = no_digits
reversed-AreDigits (digit d lt e more) =
    AreDigits-append (reversed-AreDigits more) (digit d lt e no_digits)

to_digits-AreDigits :
    (room val radix : ℕ) → 0 < radix → radix ≤ 16 → AreDigits radix (to_digits room val radix)
unfolding to_digits
to_digits-AreDigits zero val radix lo hi = no_digits
to_digits-AreDigits (suc room) val radix lo hi =
    let small = mod-lt val {m = radix} lo in
    digit (val % radix) small (ground arith) (elim (Bool-cases (val / radix == 0)) [
      | inl last ↦ rw last no_digits
      | inr more ↦ rw more (to_digits-AreDigits room (val / radix) radix lo hi)
    ])

reversed-append : (xs ys : List ℕ) → reversed (xs ++ ys) ≡ reversed ys ++ reversed xs
reversed-append [] ys = sym (append-nil (reversed ys))
reversed-append (x ∷ xs) ys =
    ap (λ zs. zs ++ (x ∷ [])) (reversed-append xs ys)
    ∙ append_assoc (reversed ys) (reversed xs) (x ∷ [])

replicate-last : (n x : ℕ) → replicate n x ++ (x ∷ []) ≡ x ∷ replicate n x
replicate-last zero x = refl
replicate-last (suc n) x = ap (λ zs. x ∷ zs) (replicate-last n x)

reversed-replicate : (n x : ℕ) → reversed (replicate n x) ≡ replicate n x
reversed-replicate zero x = refl
reversed-replicate (suc n) x =
    ap (λ zs. zs ++ (x ∷ [])) (reversed-replicate n x) ∙ replicate-last n x

reversed-sign_chars : (s : ℕ) → reversed (sign_chars s) ≡ sign_chars s
reversed-sign_chars s = elim (Bool-cases (s == 0)) [ inl e ↦ rw e refl | inr e ↦ rw e refl ]

reversed-body :
    (fl : Flags) (ds : List ℕ)
    → fl.min_width < 2 ^ 63
    → length ds ≤ 64
    → reversed (body fl ds) ≡ signed fl (reversed ds)
reversed-body fl ds small few =
    let zs = zeros_of fl (length ds) in
    let sign = sign_chars fl.sign_to_print in
    let m = missing_lem fl.min_width (length ds) small (omega arith) in
    let same : zs
        ≡ (if fl.leading_0 then fl.min_width - (length (reversed ds) + length sign) else 0) =
      elim (Bool-cases fl.leading_0) [
        | inl e ↦ rw e (omega (arith, m, length-reversed ds))
        | inr e ↦ rw e refl
      ] in
    reversed-append (ds ++ replicate zs 48) sign
    ∙ ap (λ ys. ys ++ reversed (ds ++ replicate zs 48)) (reversed-sign_chars fl.sign_to_print)
    ∙ ap (λ ys. sign ++ ys)
        (reversed-append ds (replicate zs 48)
          ∙ ap (λ ys. ys ++ reversed ds) (reversed-replicate zs 48)
          ∙ ap (λ n. replicate n 48 ++ reversed ds) same)

padded-justified :
    (fl : Flags) (ds : List ℕ)
    → fl.min_width < 2 ^ 63
    → length ds ≤ 64
    → length (body fl ds) ≤ 65
    → padded fl (body fl ds) ≡ justified fl (signed fl (reversed ds))
padded-justified fl ds small few most =
    let text = reversed-body fl ds small few in
    let gap : missing fl.min_width (length (body fl ds))
        ≡ fl.min_width - length (signed fl (reversed ds)) =
      missing_lem fl.min_width (length (body fl ds)) small (omega arith)
      ∙ omega (arith, length-reversed (body fl ds), ap length text) in
    ap
      (λ n.
        if fl.left_justified
        then reversed (body fl ds) ++ replicate n 32
        else replicate n 32 ++ reversed (body fl ds))
      gap
    ∙ ap
        (λ ys.
          let spaces = replicate (fl.min_width - length (signed fl (reversed ds))) 32 in
          if fl.left_justified then ys ++ spaces else spaces ++ ys)
        text

module _ (fl : Flags) (val radix : ℕ) (lo : 2 ≤ radix) (hi : radix ≤ 16)
    (small : val < 2 ^ 64) where
  -- For a radix of 2 to 16, an AcU64 and a width of at most 65, the characters written are the sign,
  -- zeros up to the width if they are asked for, and digits of the radix that, read from the highest
  -- on, are the value; spaces fill up to the width, behind these if the number is left justified, and
  -- before them otherwise.
  pub number-reads :
      fl.min_width ≤ 65
      → (cs : List ℕ) × AreDigits radix cs
        × (read radix 0 cs ≡ val)
        × (0 < length cs)
        × (number fl val radix ≡ some (justified fl (signed fl cs)))
  unfolding number
  number-reads width =
      let digits = to_digits 65 val radix in
      let r = from_digits-to_digits 63 65 val radix lo hi small (omega arith) in
      let s = sign_chars-length fl.sign_to_print in
      let filled = length-body_filled fl digits (omega arith) (omega (arith, r)) in
      let plain = length digits + length (sign_chars fl.sign_to_print) in
      let few : length (body fl digits) ≤ 65 =
        rw filled (filled_le fl.leading_0 fl.min_width plain 65 width (omega (arith, r, s))) in
      let t : ltb 65 (length (body fl digits)) ≡ false = le→ltb few in
      (
        reversed digits,
        reversed-AreDigits (to_digits-AreDigits 65 val radix (omega arith) hi),
        read-reversed radix digits ∙ r.0,
        omega (arith, length-reversed digits, r.1),
        rw t (ap some (padded-justified fl digits (omega arith) (omega (arith, r)) few)),
      )

  -- With leading zeros a width of more than 65 is a write past the buffer for the digits.
  number-overflow :
      fl.leading_0 ≡ true → 65 < fl.min_width → fl.min_width < 2 ^ 63 → number fl val radix ≡ none
  unfolding number
  number-overflow zeros wide bound =
      let digits = to_digits 65 val radix in
      let r = from_digits-to_digits 63 65 val radix lo hi small (omega arith) in
      let filled = length-body_filled fl digits bound (omega (arith, r)) in
      let many : 65 < length (body fl digits) = rw (filled, zeros) (omega arith) in
      let t : ltb 65 (length (body fl digits)) ≡ true = lt→ltb 65 (length (body fl digits)) many in
      rw t
