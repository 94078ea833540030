-- ===== src/Threads/Starting.antt =====
-- A thread that is created joins the ring behind the one that runs.
use sadie.Prelude.{
  ℕ, ◌+◌, ◌≤◌, ◌≡◌, ◌≢◌, ◌<◌, ◌⊎◌, inl, inr, List, [], ◌∷◌, arith, ◌==◌, ltb, if◌then◌else◌,
  occurrences, refl, false, true, Bool, Bool-cases, ◌||◌, none, some,
}
use mathlib.Core.Path.{fun_ext}
use sadie.Word.{null}
use sadie.WaitHeap.{write}
use sadie.Threads.{Threads, empty, starting, linked_after}
use sadie.Threads.Create.{
  tcb_init, find_empty, find_in_groups, get_tcb, stack_wanted, round_stack, init_stack_frame,
  thread_create,
}
use sadie.Threads.Ring.{IsRing, add_tcb_after-IsRing}

-- Whether a tcb can be had from an array, or from one of several.
abbrev pub has_empty : (fails : ℕ → Bool) → (id : ℕ → ℕ) → List ℕ → Bool
has_empty fails id [] = false
has_empty fails id (p ∷ ps) =
    if id p == empty
    then (if fails p then has_empty fails id ps else true)
    else has_empty fails id ps

abbrev pub any_has_empty : (fails : ℕ → Bool) → (id : ℕ → ℕ) → List (List ℕ) → Bool
any_has_empty fails id [] = false
any_has_empty fails id (g ∷ gs) = has_empty fails id g || any_has_empty fails id gs

find_empty-finds :
    (fails : ℕ → Bool) (t : Threads) (i : ℕ) (ps : List ℕ)
    → has_empty fails t.thread_id ps ≡ true
    → (j : ℕ) × (p : ℕ) × (find_empty fails t i ps ≡ some (j, p)) × (t.thread_id p ≡ empty)
unfolding find_empty
find_empty-finds fails t i [] h = absurd (ground arith)
find_empty-finds fails t i (p ∷ ps) h = elim (Bool-cases (t.thread_id p == empty)) [
  | inl here ↦ elim (Bool-cases (fails p)) [
    | inl fail ↦ rw (here, fail) (find_empty-finds fails t (i + 1) ps (ground arith))
    | inr ok ↦ rw (here, ok) (i, p, refl, ground arith)
  ]
  | inr taken ↦ rw taken (find_empty-finds fails t (i + 1) ps (ground arith))
]

find_empty-none :
    (fails : ℕ → Bool) (t : Threads) (i : ℕ) (ps : List ℕ)
    → has_empty fails t.thread_id ps ≡ false
    → find_empty fails t i ps ≡ none
unfolding find_empty
find_empty-none fails t i [] h = refl
find_empty-none fails t i (p ∷ ps) h = ground (arith, find_empty-none fails t (i + 1) ps)

find_in_groups-finds :
    (fails : ℕ → Bool) (t : Threads) (gs : List (List ℕ))
    → any_has_empty fails t.thread_id gs ≡ true
    → (j : ℕ) × (p : ℕ) × (find_in_groups fails t gs ≡ some (j, p)) × (t.thread_id p ≡ empty)
unfolding find_in_groups
find_in_groups-finds fails t [] h = absurd (ground arith)
find_in_groups-finds fails t (g ∷ gs) h = elim (Bool-cases (has_empty fails t.thread_id g)) [
  | inl here ↦ let (j, p, e, free) = find_empty-finds fails t 0 g here in (j, p, rw e, free)
  | inr full ↦
      let (j, p, e, free) = find_in_groups-finds fails t gs (ground arith) in
      (j, p, rw (find_empty-none fails t 0 g full) e, free)
]

find_in_groups-none :
    (fails : ℕ → Bool) (t : Threads) (gs : List (List ℕ))
    → any_has_empty fails t.thread_id gs ≡ false
    → find_in_groups fails t gs ≡ none
unfolding find_in_groups
find_in_groups-none fails t [] h = refl
find_in_groups-none fails t (g ∷ gs) h =
    rw (find_empty-none fails t 0 g (ground arith)) (find_in_groups-none fails t gs (ground arith))

write-same : (f : ℕ → ℕ) (p v : ℕ) → f p ≡ v → write f p v ≡ f
write-same f p v h = fun_ext (λ a. ground arith)

-- With a stack of at least the minimum (or the default), the allocation of it, and a tcb that is
-- empty, off the ring and whose compare-exchange does not fail, thread_create returns a tcb that was
-- empty. It now follows the running thread on the ring and holds the stack, the entry and its
-- argument, and the default slice; no other tcb has another id.
pub thread_create-joins :
    (stack_min trampoline : ℕ) (allocate : ℕ → ℕ) (fails : ℕ → Bool)
    (stack_size flags entry arg : ℕ) (t : Threads) (xs : List ℕ)
    → (stack_size ≡ 0) ⊎ (stack_min ≤ stack_size)
    → allocate (round_stack (stack_wanted stack_min stack_size)) ≢ null
    → any_has_empty fails t.thread_id t.groups ≡ true
    → t.thread_id null ≢ empty
    → ((a : ℕ) → t.thread_id a ≡ empty → occurrences a (t.pready ∷ xs) ≡ 0)
    → IsRing t t.pready xs
    → (p : ℕ) × (t' : Threads) × (thread_create stack_min trampoline allocate fails stack_size flags
          entry arg t
        ≡ (p, t'))
      × (t.thread_id p ≡ empty)
      × (p ≢ null)
      × IsRing t' t.pready (p ∷ xs)
      × (t'.pready ≡ t.pready)
      × (t'.entry p ≡ entry)
      × (t'.entry_arg p ≡ arg)
      × (t'.slice p ≡ t.slice_default)
      × (t'.pstack p ≡ allocate (round_stack (stack_wanted stack_min stack_size)))
      × ((a : ℕ) → a ≢ p → t'.thread_id a ≡ t.thread_id a)
unfolding thread_create get_tcb tcb_init
thread_create-joins stack_min trampoline allocate fails stack_size flags entry arg t xs big given
      free real off ring =
    let wanted = stack_wanted stack_min stack_size in
    let enough : ltb wanted stack_min ≡ false = elim big [
      | inl z ↦ ground arith
      | inr b ↦ ground arith
    ] in
    let allocated : (allocate (round_stack wanted) == null) ≡ false = ground arith in
    let (i, p, e, was) = find_in_groups-finds fails t t.groups free in
    let pstack = allocate (round_stack wanted) in
    let framed = init_stack_frame pstack (round_stack wanted) flags trampoline p in
    let t1 = tcb_init p i entry arg (record t { thread_id = write t.thread_id p starting }) in
    let t2 : Threads = record t1 {
      pstack = write t1.pstack p pstack;
      sp = write t1.sp p framed.1;
      ss = write t1.ss p framed.0.ss;
    } in
    let out = off p was in
    let nonnull : p ≢ null = λ z. real (rw z at was) in
    let links = ring.unlinked p out in
    let ring2 : IsRing t2 t.pready xs =
      rw (write-same t.next p null links.0, write-same t.prev p null links.1) ring in
    let (joined, ring3) = add_tcb_after-IsRing t2 t.pready p xs ring2 nonnull out in
    let some_tcb : (p == null) ≡ false = ground arith in
    (
      p,
      linked_after p t.pready t2,
      rw (enough, allocated, e, some_tcb, joined),
      was,
      nonnull,
      ring3,
      refl,
      ground arith,
      ground arith,
      ground arith,
      ground arith,
      λ a ne. ground arith,
    )

-- A size below the minimum that is not 0, or a failed allocation, gives no thread and changes nothing.
pub thread_create-refuses :
    (stack_min trampoline : ℕ) (allocate : ℕ → ℕ) (fails : ℕ → Bool)
    (stack_size flags entry arg : ℕ) (t : Threads)
    → ((0 < stack_size) × (stack_size < stack_min))
      ⊎ (allocate (round_stack (stack_wanted stack_min stack_size)) ≡ null)
    → thread_create stack_min trampoline allocate fails stack_size flags entry arg t ≡ (null, t)
unfolding thread_create
thread_create-refuses stack_min trampoline allocate fails stack_size flags entry arg t (inl h) =
    ground arith
thread_create-refuses stack_min trampoline allocate fails stack_size flags entry arg t (inr h) =
    ground arith

-- With a stack, but no tcb that can be had, there is no thread; the stack is given back, and nothing
-- else has changed.
pub thread_create-full :
    (stack_min trampoline : ℕ) (allocate : ℕ → ℕ) (fails : ℕ → Bool)
    (stack_size flags entry arg : ℕ) (t : Threads)
    → (stack_size ≡ 0) ⊎ (stack_min ≤ stack_size)
    → allocate (round_stack (stack_wanted stack_min stack_size)) ≢ null
    → any_has_empty fails t.thread_id t.groups ≡ false
    → thread_create stack_min trampoline allocate fails stack_size flags entry arg t ≡ (
      null,
      record t { freed = allocate (round_stack (stack_wanted stack_min stack_size)) ∷ t.freed },
    )
unfolding thread_create get_tcb
thread_create-full stack_min trampoline allocate fails stack_size flags entry arg t big given full =
    rw (find_in_groups-none fails t t.groups full) (ground arith)
