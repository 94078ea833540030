-- ===== src/Threads/Ring.antt =====
-- The list of ready tcbs as a ring, and what its three operations do to it.
use sadie.Prelude.{
  ℕ, suc, ◌+◌, ◌^◌, ◌≡◌, ◌≢◌, ◌<◌, List, [], ◌∷◌, ◌++◌, arith, ◌==◌, occurrences,
  occurrences-append, length, length-append, get_or, false,
}
use mathlib.Core.List.{append-nil}
use sadie.Word.{u32, null}
use sadie.Threads.{
  Threads, linked_before, linked_after, cut_out, add_tcb_before, add_tcb_after, remove_tcb,
}
use sadie.Threads.Arc.{
  Arc, Arc-append, Arc-split, first_link, last_link, Arc-insert_before, Arc-insert_after,
  Arc-take_out,
}

-- From `c` the links go round through `xs` and back to `c`; no tcb is met twice, all others have no
-- links, and the length is counted.
pub record IsLinked (next prev : ℕ → ℕ) (len c : ℕ) (xs : List ℕ) : Type 0 where
  pub arc : Arc next prev c xs c
  pub once : (a : ℕ) → occurrences a (c ∷ xs) < 2
  pub real : occurrences null (c ∷ xs) ≡ 0
  pub unlinked : (a : ℕ) → occurrences a (c ∷ xs) ≡ 0 → (next a ≡ null) × (prev a ≡ null)
  pub counted : len ≡ u32 (suc (length xs))

abbrev pub IsRing : Threads → ℕ → List ℕ → Type 0
IsRing t c xs = IsLinked t.next t.prev t.ready_length c xs

-- The ring as another of its tcbs sees it.
pub IsRing-turn :
    (t : Threads) (c b : ℕ) (xs ys : List ℕ)
    → IsRing t c (xs ++ (b ∷ ys))
    → IsRing t b (ys ++ (c ∷ xs))
IsRing-turn t c b xs ys r =
    let parts = Arc-split t.next t.prev c b c xs ys r.arc in
    let same : (a : ℕ)
        → occurrences a (b ∷ (ys ++ (c ∷ xs))) ≡ occurrences a (c ∷ (xs ++ (b ∷ ys))) =
      λ a. ground (arith, occurrences-append a xs (b ∷ ys), occurrences-append a ys (c ∷ xs)) in
    record {
      arc = Arc-append t.next t.prev b c b ys xs parts.1 parts.0;
      once = λ a. omega (arith, same a, r.once a);
      real = omega (arith, same null, r.real);
      unlinked = λ a out. r.unlinked a (omega (arith, same a));
      counted = omega (arith, r.counted, length-append xs (b ∷ ys), length-append ys (c ∷ xs));
    }

-- A tcb that is off the ring comes after `c`.
pub add_tcb_after-IsRing :
    (t : Threads) (c new : ℕ) (xs : List ℕ)
    → IsRing t c xs
    → new ≢ null
    → occurrences new (c ∷ xs) ≡ 0
    → (add_tcb_after new c t ≡ (0, linked_after new c t))
      × IsRing (linked_after new c t) c (new ∷ xs)
unfolding add_tcb_after
add_tcb_after-IsRing t c new xs r real out =
    let free = (r.unlinked new out).0 in
    let first = first_link t.next t.prev c c xs r.arc in
    let apart : (a : ℕ) → occurrences a (c ∷ (new ∷ xs)) ≡ 0 → a ≢ t.next c =
      λ a off e. ground arith in
    (
      rw free,
      record {
        arc = Arc-insert_after t.next t.prev c new xs r.arc r.once out;
        once = λ a. ground (arith, r.once a);
        real = ground (arith, r.real);
        unlinked = λ a off. ground (arith, r.unlinked a, apart a off);
        counted = omega (arith, r.counted);
      },
    )

-- A tcb that is off the ring comes before `c`.
pub add_tcb_before-IsRing :
    (t : Threads) (c new : ℕ) (xs : List ℕ)
    → IsRing t c xs
    → new ≢ null
    → occurrences new (c ∷ xs) ≡ 0
    → (add_tcb_before new c t ≡ (0, linked_before new c t))
      × IsRing (linked_before new c t) c (xs ++ (new ∷ []))
unfolding add_tcb_before
add_tcb_before-IsRing t c new xs r real out =
    let free = (r.unlinked new out).1 in
    let last = last_link t.next t.prev c c xs r.arc in
    let more : (a : ℕ)
        → occurrences a (xs ++ (new ∷ [])) ≡ occurrences a xs + occurrences a (new ∷ []) =
      λ a. occurrences-append a xs (new ∷ []) in
    let apart : (a : ℕ) → occurrences a (c ∷ xs) ≡ 0 → a ≢ t.prev c = λ a off e. ground arith in
    (
      rw free,
      record {
        arc =
            Arc-insert_before t.next t.prev c c new xs r.arc r.once out (ground arith)
              (ground (arith, r.once c));
        once = λ a. ground (arith, r.once a, more a);
        real = ground (arith, r.real, more null);
        unlinked = λ a off. ground (arith, r.unlinked a, more a, apart a);
        counted = omega (arith, r.counted, length-append xs (new ∷ []));
      },
    )

-- The tcb from which the ring is seen is taken out; the next one is returned.
pub remove_first-IsRing :
    (t : Threads) (c x : ℕ) (xs : List ℕ)
    → IsRing t c (x ∷ xs)
    → suc (length xs) < 2 ^ 32
    → (remove_tcb c t ≡ (x, cut_out c t)) × IsRing (cut_out c t) x xs
unfolding remove_tcb
remove_first-IsRing t c x xs r small =
    let e : t.next c ≡ x = r.arc.0 in
    let nonnull : (x == null) ≡ false = ground (arith, r.real) in
    let last = last_link t.next t.prev x c xs r.arc.2 in
    let apart : (a : ℕ) → occurrences a (x ∷ xs) ≡ 0 → a ≢ t.prev c = λ a off e. ground arith in
    (
      rw (e, nonnull),
      record {
        arc = rw e (
            Arc-take_out t.next t.prev x x c xs r.arc.2 (λ a. ground (arith, r.once a))
              (ground (arith, r.once c)) (ground (arith, r.once c)) (ground (arith, r.once x)));
        once = λ a. ground (arith, r.once a);
        real = ground (arith, r.real);
        unlinked = λ a off. ground (arith, r.unlinked a, apart a);
        counted = omega (arith, r.counted);
      },
    )

-- A tcb anywhere on a ring of others is taken out; the tcb that followed is returned.
pub remove_tcb-IsRing :
    (t : Threads) (c h : ℕ) (xs ys : List ℕ)
    → IsRing t c (xs ++ (h ∷ ys))
    → length (xs ++ (h ∷ ys)) < 2 ^ 32
    → (remove_tcb h t ≡ (get_or ys 0 c, cut_out h t)) × IsRing (cut_out h t) c (xs ++ ys)
remove_tcb-IsRing t c h xs [] r small =
    let size = length-append xs (h ∷ []) in
    let (e, out) = remove_first-IsRing t h c xs (IsRing-turn t c h xs [] r) (omega (arith, size)) in
    (e, rw (append-nil xs) out)
remove_tcb-IsRing t c h xs (y ∷ ys) r small =
    let size = length-append xs (h ∷ (y ∷ ys)) in
    let size' = length-append ys (c ∷ xs) in
    let (e, out) =
      remove_first-IsRing t h y (ys ++ (c ∷ xs)) (IsRing-turn t c h xs (y ∷ ys) r)
        (omega (arith, size, size')) in
    (e, IsRing-turn (cut_out h t) y c ys xs out)
