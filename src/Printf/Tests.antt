-- ===== src/Printf/Tests.antt =====
-- Formats printed, and the theorems on printing at concrete inputs.
use sadie.Prelude.{ℕ, ◌≤◌, ◌<◌, ◌≡◌, ◌≢◌, refl, true, some, List, [], ◌∷◌, arith, length, get_or}
use sadie.Word.{u8}
use sadie.Printf.{Flags, no_flags, snprintf}
use sadie.Printf.Values.{number, uval, sval}
use sadie.Printf.Parse.{num}
use sadie.Printf.Format.{on_str, formatter, done, starved}
use sadie.Printf.Buffer.{snprintf-fits}
use sadie.Printf.Layout.{AreDigits, read, signed, justified, number-reads}
use sadie.Printf.Progress.{formatter-terminates}

-- "a%-4d|" with -17
abbrev minus_format : List ℕ
minus_format = 97 ∷ 37 ∷ 45 ∷ 52 ∷ 100 ∷ 124 ∷ []

formatter_minus :
    formatter 7 [] minus_format (num 4294967279 ∷ []) ≡ done (97 ∷ 45 ∷ 49 ∷ 55 ∷ 32 ∷ 124 ∷ [])
unfolding formatter sval
formatter_minus = refl

-- "%ll" is printed as it stands, "%{t}" by the procedure that is registered for `t`.
formatter_long : formatter 4 [] (37 ∷ 108 ∷ 108 ∷ []) [] ≡ done (37 ∷ 108 ∷ 108 ∷ [])
unfolding formatter
formatter_long = refl

formatter_named :
    formatter 6
      (on_str (116 ∷ []) (λ args. (88 ∷ [], 1)) ∷ [])
      (37 ∷ 123 ∷ 116 ∷ 125 ∷ 37 ∷ 117 ∷ [])
      (num 5 ∷ num 6 ∷ [])
    ≡ done (88 ∷ 54 ∷ [])
unfolding formatter uval
formatter_named = refl

formatter-terminates_example : formatter 7 [] minus_format (num 4294967279 ∷ []) ≢ starved
formatter-terminates_example =
    formatter-terminates 7 [] minus_format (num 4294967279 ∷ []) (omega arith)

snprintf-fits_example :
    let r = snprintf (λ _. 9) 3 (65 ∷ 66 ∷ 67 ∷ 68 ∷ []) in
    (r.0 ≡ 2)
    × ((i : ℕ) → i < r.0 → r.1 i ≡ u8 (get_or (65 ∷ 66 ∷ 67 ∷ 68 ∷ []) i 0))
    × (r.1 r.0 ≡ 0)
    × ((j : ℕ) → 3 ≤ j → r.1 j ≡ 9)
snprintf-fits_example =
    snprintf-fits (λ _. 9) 3 (65 ∷ 66 ∷ 67 ∷ 68 ∷ []) (omega arith) (omega arith)

-- +0042
abbrev wide : Flags
wide = record no_flags { sign_to_print = 43; leading_0 = true; min_width = 5 }

number-reads_example :
    (cs : List ℕ) × AreDigits 10 cs
    × (read 10 0 cs ≡ 42)
    × (0 < length cs)
    × (number wide 42 10 ≡ some (justified wide (signed wide cs)))
number-reads_example =
    number-reads wide 42 10 (omega arith) (omega arith) (omega arith) (omega arith)
