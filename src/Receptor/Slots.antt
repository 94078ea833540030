-- ===== src/Receptor/Slots.antt =====
-- Receptors are taken from the array and come back.
use sadie.Prelude.{
  ℕ, suc, ◌+◌, ◌≡◌, ◌||◌, Bool, true, false, List, [], ◌∷◌, ◌++◌, some, length, refl, arith, ap,
}
use sadie.Receptor.{
  no_one_waiting, Receptor, Use, unused, initializing, active, deinitializing, get_from, ret,
}

abbrev pub is_unused : Receptor → Bool
is_unused r = elim r.state [
  | unused ↦ true
  | initializing ↦ false
  | active ↦ false
  | deinitializing ↦ false
]

abbrev pub any_unused : List Receptor → Bool
any_unused [] = false
any_unused (r ∷ rs) = is_unused r || any_unused rs

get_from-used :
    (fails : ℕ → Bool) (i j : ℕ) (p : Receptor) (ps rest : List Receptor)
    → is_unused p ≡ false
    → get_from fails (i + 1) ps ≡ some (j, rest)
    → get_from fails i (p ∷ ps) ≡ some (j, p ∷ rest)
unfolding get_from
get_from-used fails i j p ps rest used e = by_state p.state refl
  where
    by_state : (u : Use) → p.state ≡ u → get_from fails i (p ∷ ps) ≡ some (j, p ∷ rest)
    by_state unused at = absurd (ground arith)
    by_state initializing at = rw (at, e)
    by_state active at = rw (at, e)
    by_state deinitializing at = rw (at, e)

-- Behind receptors that are in use, the first unused one is taken, and is then active with no one
-- waiting; returning it makes it unused again, and the array is as it was but for that.
pub get-ret :
    (fails : ℕ → Bool) (i : ℕ) (ps : List Receptor) (r : Receptor) (qs : List Receptor)
    → any_unused ps ≡ false
    → r.state ≡ unused
    → fails (i + length ps) ≡ false
    → let fresh : Receptor = record { thdl = no_one_waiting; state = active } in
      (get_from fails i (ps ++ (r ∷ qs)) ≡ some (i + length ps, ps ++ (fresh ∷ qs)))
      × (ret false fresh ≡ some (record { thdl = no_one_waiting; state = unused }))
unfolding get_from ret
get-ret fails i [] r qs taken free works =
    let zero_more : i + 0 ≡ i = omega arith in
    let first : fails i ≡ false = rw zero_more at works in
    (
      rw (free, first)
          (ap (λ n. some (n, record { thdl = no_one_waiting; state = active } ∷ qs)) (omega arith)),
      refl,
    )
get-ret fails i (p ∷ ps) r qs taken free works =
    let more : i + suc (length ps) ≡ i + 1 + length ps = omega arith in
    let used : is_unused p ≡ false = ground arith in
    let rest = get-ret fails (i + 1) ps r qs (ground arith) free (rw more at works) in
    (rw more (get_from-used fails i _ p _ _ used rest.0), refl)
