-- ===== src/Threads/Turn.antt =====
-- Which thread the scheduler picks while nobody waits for a time.
use sadie.Prelude.{
  ℕ, zero, suc, ◌≡◌, ◌≢◌, ◌<◌, ◌⊎◌, inl, inr, List, [], ◌∷◌, ◌++◌, arith, ◌==◌, if◌then◌else◌,
  occurrences, occurrences-append, length, length-append, refl, false, true, Bool, Bool-cases, some,
  ap, ◌∙◌,
}
use sadie.Threads.{Threads, zombie, skip_zombies, next_tcb, follow}
use sadie.Threads.Arc.{Arc, Arc-split}
use sadie.Threads.Ring.{IsRing}
use mathlib.Core.List.{append_assoc}

-- Whether all of them are zombies.
abbrev pub all_zombies : (thread_id : ℕ → ℕ) → List ℕ → Bool
all_zombies id [] = true
all_zombies id (x ∷ xs) = if id x == zombie then all_zombies id xs else false

-- From `a` on, past zombies, the loop finds the first other tcb.
pub skip_zombies-finds :
    (fuel : ℕ) (t : Threads) (a b r : ℕ) (zs ys : List ℕ)
    → Arc t.next t.prev a (zs ++ (r ∷ ys)) b
    → all_zombies t.thread_id zs ≡ true
    → t.thread_id r ≢ zombie
    → length zs < fuel
    → skip_zombies fuel t (t.next a) ≡ some r
unfolding skip_zombies
skip_zombies-finds zero t a b r zs ys h dead live enough = absurd (omega arith)
skip_zombies-finds (suc fuel) t a b r [] ys h dead live enough = rw h.0 (ground arith)
skip_zombies-finds (suc fuel) t a b r (z ∷ zs) ys h dead live enough =
    let rest = skip_zombies-finds fuel t z b r zs ys h.2 (ground arith) live (omega arith) in
    rw h.0 (ground (arith, rest))

-- The same where all the others on the ring are zombies.
pub skip_zombies-alone :
    (fuel : ℕ) (t : Threads) (a b : ℕ) (zs : List ℕ)
    → Arc t.next t.prev a zs b
    → all_zombies t.thread_id zs ≡ true
    → t.thread_id b ≢ zombie
    → length zs < fuel
    → skip_zombies fuel t (t.next a) ≡ some b
unfolding skip_zombies
skip_zombies-alone zero t a b zs h dead live enough = absurd (omega arith)
skip_zombies-alone (suc fuel) t a b [] h dead live enough = rw h.0 (ground arith)
skip_zombies-alone (suc fuel) t a b (z ∷ zs) h dead live enough =
    let rest = skip_zombies-alone fuel t z b zs h.2 (ground arith) live (omega arith) in
    rw h.0 (ground (arith, rest))

-- Whether the scheduler passes over all of them.
abbrev pub all_passed : (thread_id : ℕ → ℕ) → (pidle : ℕ) → List ℕ → Bool
all_passed id idle [] = true
all_passed id idle (x ∷ xs) =
    if id x == zombie
    then all_passed id idle xs
    else (if x == idle then all_passed id idle xs else false)

all_passed-cases :
    (t : Threads) (zs : List ℕ)
    → all_passed t.thread_id t.pidle zs ≡ true
    → (all_zombies t.thread_id zs ≡ true)
      ⊎ ((xs ys : List ℕ) × (zs ≡ xs ++ (t.pidle ∷ ys))
          × (all_zombies t.thread_id xs ≡ true)
          × (all_passed t.thread_id t.pidle ys ≡ true))
all_passed-cases t [] h = inl refl
all_passed-cases t (z ∷ zs) h = elim (Bool-cases (t.thread_id z == zombie)) [
  | inl dead ↦ elim (all_passed-cases t zs (ground arith)) [
    | inl all ↦ inl (ground arith)
    | inr (xs, ys, e, dead', rest) ↦ inr (z ∷ xs, ys, ap (λ l. z ∷ l) e, ground arith, rest)
  ]
  | inr live ↦
      let here : z ≡ t.pidle = ground arith in
      inr ([], zs, ap (λ i. i ∷ zs) here, refl, ground arith)
]

all_passed-all_zombies :
    (t : Threads) (zs : List ℕ)
    → all_passed t.thread_id t.pidle zs ≡ true
    → occurrences t.pidle zs ≡ 0
    → all_zombies t.thread_id zs ≡ true
all_passed-all_zombies t [] h out = refl
all_passed-all_zombies t (z ∷ zs) h out = ground (arith, all_passed-all_zombies t zs)

-- The first tcb that is neither a zombie nor the idle one follows.
pub follow-finds :
    (fuel : ℕ) (t : Threads) (c r : ℕ) (zs ys : List ℕ)
    → IsRing t c (zs ++ (r ∷ ys))
    → all_passed t.thread_id t.pidle zs ≡ true
    → t.thread_id r ≢ zombie
    → r ≢ t.pidle
    → t.thread_id t.pidle ≢ zombie
    → length zs < fuel
    → follow fuel t (next_tcb fuel t c) ≡ some r
unfolding follow
follow-finds fuel t c r zs ys ring passed live real idle_live enough =
    elim (all_passed-cases t zs passed) [
      | inl dead ↦
          rw (skip_zombies-finds fuel t c c r zs ys ring.arc dead live enough) (ground arith)
      | inr (ks, bs, e, dead, rest) ↦
          let shape : zs ++ (r ∷ ys) ≡ ks ++ (t.pidle ∷ (bs ++ (r ∷ ys))) =
            ap (λ l. l ++ (r ∷ ys)) e ∙ append_assoc ks (t.pidle ∷ bs) (r ∷ ys) in
          let ring' : IsRing t c (ks ++ (t.pidle ∷ (bs ++ (r ∷ ys)))) = rw shape at ring in
          let sizes = length-append ks (t.pidle ∷ bs) in
          let size : length zs ≡ length (ks ++ (t.pidle ∷ bs)) = ap length e in
          let parts = Arc-split t.next t.prev c t.pidle c ks (bs ++ (r ∷ ys)) ring'.arc in
          let self : occurrences t.pidle (t.pidle ∷ (bs ++ (r ∷ ys)))
              ≡ suc (occurrences t.pidle (bs ++ (r ∷ ys))) =
            ground arith in
          let out : occurrences t.pidle bs ≡ 0 = omega (
            arith,
            ring'.once t.pidle,
            occurrences-append t.pidle (c ∷ ks) (t.pidle ∷ (bs ++ (r ∷ ys))),
            occurrences-append t.pidle bs (r ∷ ys),
            self,
          ) in
          let first =
            skip_zombies-finds fuel t c c t.pidle ks (bs ++ (r ∷ ys)) ring'.arc dead idle_live
              (omega (arith, sizes, size)) in
          let second =
            skip_zombies-finds fuel t t.pidle c r bs ys parts.1
              (all_passed-all_zombies t bs rest out) live (omega (arith, sizes, size)) in
          rw first (ground (arith, second))
    ]
