-- ===== src/Threads/Arc.antt =====
-- The links from one tcb to another through a list of tcbs.
use sadie.Prelude.{ℕ, ◌≡◌, ◌≢◌, ◌<◌, List, [], ◌∷◌, ◌++◌, arith, occurrences}
use sadie.Word.{null}
use sadie.WaitHeap.{write}

-- From `a` the links lead through `xs` to `b`, and back.
abbrev pub Arc : (next prev : ℕ → ℕ) → ℕ → List ℕ → ℕ → Type 0
Arc n p a [] b = (n a ≡ b) × (p b ≡ a)
Arc n p a (x ∷ xs) b = (n a ≡ x) × (p x ≡ a) × Arc n p x xs b

pub Arc-append :
    (n p : ℕ → ℕ) (a b c : ℕ) (xs ys : List ℕ)
    → Arc n p a xs b
    → Arc n p b ys c
    → Arc n p a (xs ++ (b ∷ ys)) c
Arc-append n p a b c [] ys l r = (l.0, l.1, r)
Arc-append n p a b c (x ∷ xs) ys l r = (l.0, l.1, Arc-append n p x b c xs ys l.2 r)

pub Arc-split :
    (n p : ℕ → ℕ) (a b c : ℕ) (xs ys : List ℕ)
    → Arc n p a (xs ++ (b ∷ ys)) c
    → Arc n p a xs b × Arc n p b ys c
Arc-split n p a b c [] ys h = ((h.0, h.1), h.2)
Arc-split n p a b c (x ∷ xs) ys h =
    let rest = Arc-split n p x b c xs ys h.2 in ((h.0, h.1, rest.0), rest.1)

-- The tcb before the end is the first or one of the list.
pub last_link :
    (n p : ℕ → ℕ) (a b : ℕ) (xs : List ℕ) → Arc n p a xs b → 0 < occurrences (p b) (a ∷ xs)
last_link n p a b [] h = ground arith
last_link n p a b (x ∷ xs) h = ground (arith, last_link n p x b xs h.2)

pub first_link :
    (n p : ℕ → ℕ) (a b : ℕ) (xs : List ℕ) → Arc n p a xs b → 0 < occurrences (n a) (b ∷ xs)
first_link n p a b [] h = ground arith
first_link n p a b (x ∷ xs) h = ground arith

-- A tcb that is off the list is linked in before the end.
pub Arc-insert_before :
    (n p : ℕ → ℕ) (a c new : ℕ) (xs : List ℕ)
    → Arc n p a xs c
    → ((t : ℕ) → occurrences t (a ∷ xs) < 2)
    → occurrences new (a ∷ xs) ≡ 0
    → new ≢ c
    → occurrences c xs ≡ 0
    → Arc (write (write n new c) (p c) new) (write (write p new (p c)) c new) a (xs ++ (new ∷ [])) c
Arc-insert_before n p a c new [] h once out ne end = ground arith
Arc-insert_before n p a c new (x ∷ xs) h once out ne end =
    let on_rest = last_link n p x c xs h.2 in
    let before : a ≢ p c = λ e. ground (arith, once a) in
    let rest =
      Arc-insert_before n p x c new xs h.2 (λ t. ground (arith, once t)) (ground arith) ne
        (ground arith) in
    (ground arith, ground arith, rest)

-- Only the links between the tcbs of the arc count.
pub Arc-frame :
    (n n' p p' : ℕ → ℕ) (a b : ℕ) (xs : List ℕ)
    → ((t : ℕ) → 0 < occurrences t (a ∷ xs) → n' t ≡ n t)
    → ((t : ℕ) → 0 < occurrences t (b ∷ xs) → p' t ≡ p t)
    → Arc n p a xs b
    → Arc n' p' a xs b
Arc-frame n n' p p' a b [] same_n same_p h = ground (arith, same_n a, same_p b)
Arc-frame n n' p p' a b (x ∷ xs) same_n same_p h = (
  ground (arith, same_n a),
  ground (arith, same_p x),
  Arc-frame n n' p p' x b xs (λ t on. same_n t (ground arith)) (λ t on. same_p t (ground arith))
      h.2,
)

-- A tcb that is off the list is linked in at its start.
pub Arc-insert_after :
    (n p : ℕ → ℕ) (c new : ℕ) (xs : List ℕ)
    → Arc n p c xs c
    → ((t : ℕ) → occurrences t (c ∷ xs) < 2)
    → occurrences new (c ∷ xs) ≡ 0
    → Arc (write (write n new (n c)) c new) (write (write p new c) (n c) new) c (new ∷ xs) c
Arc-insert_after n p c new [] h once out = ground arith
Arc-insert_after n p c new (x ∷ xs) h once out =
    let rest =
      Arc-frame n (write (write n new (n c)) c new) p (write (write p new c) (n c) new) x c xs
        (λ t on. ground (arith, once c)) (λ t on. ground (arith, once x)) h.2 in
    (ground arith, ground (arith, once c), (ground (arith, once c), ground arith, rest))

-- The tcb at the end is taken out: the arc then leads to `b`.
pub Arc-take_out :
    (n p : ℕ → ℕ) (a b c : ℕ) (xs : List ℕ)
    → Arc n p a xs c
    → ((t : ℕ) → occurrences t (a ∷ xs) < 2)
    → occurrences c (a ∷ xs) ≡ 0
    → b ≢ c
    → occurrences b xs ≡ 0
    → Arc (write (write n (p c) b) c null) (write (write p b (p c)) c null) a xs b
Arc-take_out n p a b c [] h once out ne end = ground arith
Arc-take_out n p a b c (x ∷ xs) h once out ne end =
    let on_rest = last_link n p x c xs h.2 in
    let before : a ≢ p c = λ e. ground (arith, once a) in
    let rest =
      Arc-take_out n p x b c xs h.2 (λ t. ground (arith, once t)) (ground arith) ne
        (ground arith) in
    (ground arith, ground arith, rest)
