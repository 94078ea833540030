-- ===== src/ArmThreads/Joining.antt =====
-- A thread that is created on armv6 joins the ring behind the one that runs.
use sadie.Prelude.{
  ℕ, ◌+◌, ◌≤◌, ◌≡◌, ◌≢◌, ◌<◌, ◌⊎◌, inl, inr, List, [], ◌∷◌, arith, ◌==◌, ltb, if◌then◌else◌,
  occurrences, refl, false, true, Bool, Bool-cases, some,
}
use sadie.Word.{null}
use sadie.WaitHeap.{write}
use sadie.Threads.{empty, starting}
use sadie.Threads.Starting.{has_empty}
use sadie.ArmThreads.{
  ArmThreads, init_stack_frame, add_after, tcb_init, find_empty, get_tcb, thread_create, early_init,
}
use sadie.ArmThreads.Cleaning.{Links, Links-frame}

Links-add_after :
    (n : ℕ → ℕ) (c new : ℕ) (xs : List ℕ)
    → Links n c xs c
    → ((p : ℕ) → occurrences p (c ∷ xs) < 2)
    → occurrences new (c ∷ xs) ≡ 0
    → Links (write (write n new (n c)) c new) c (new ∷ xs) c
Links-add_after n c new [] h once off = (ground arith, ground arith)
Links-add_after n c new (x ∷ xs) h once off = (
  ground arith,
  (
    ground arith,
    Links-frame n (write (write n new (n c)) c new) x c xs (λ p on. ground (arith, once c)) h.1,
  ),
)

find_empty-had :
    (fails : ℕ → Bool) (t : ArmThreads) (i : ℕ) (ps : List ℕ)
    → has_empty fails t.thread_id ps ≡ true
    → (j : ℕ) × (p : ℕ) × (find_empty fails t i ps ≡ some (j, p)) × (t.thread_id p ≡ empty)
unfolding find_empty
find_empty-had fails t i [] h = absurd (ground arith)
find_empty-had fails t i (p ∷ ps) h = elim (Bool-cases (t.thread_id p == empty)) [
  | inl here ↦ elim (Bool-cases (fails p)) [
    | inl fail ↦ rw (here, fail) (find_empty-had fails t (i + 1) ps (ground arith))
    | inr ok ↦ rw (here, ok) (i, p, refl, ground arith)
  ]
  | inr other ↦ rw other (find_empty-had fails t (i + 1) ps (ground arith))
]

-- With a stack of at least the minimum or the default, its allocation, and a tcb that is empty and
-- whose compare-exchange does not fail, where no empty tcb is on the ring, thread_create returns a tcb
-- that was empty; it follows the running thread on the ring and holds the stack, the entry and its
-- argument, and no other tcb has another id.
pub arm_thread_create-joins :
    (stack_min trampoline : ℕ) (allocate : ℕ → ℕ) (fails : ℕ → Bool) (stack_size psr entry arg : ℕ)
    (t : ArmThreads) (xs : List ℕ)
    → (stack_size ≡ 0) ⊎ (stack_min ≤ stack_size)
    → allocate (if stack_size == 0 then stack_min else stack_size) ≢ null
    → has_empty fails t.thread_id t.tcbs ≡ true
    → t.thread_id null ≢ empty
    → ((a : ℕ) → t.thread_id a ≡ empty → occurrences a (t.pready ∷ xs) ≡ 0)
    → Links t.next t.pready xs t.pready
    → ((p : ℕ) → occurrences p (t.pready ∷ xs) < 2)
    → (p : ℕ) × (t' : ArmThreads) × (thread_create stack_min trampoline allocate fails stack_size
          psr entry arg t
        ≡ (p, t'))
      × (t.thread_id p ≡ empty)
      × (p ≢ null)
      × Links t'.next t'.pready (p ∷ xs) t'.pready
      × (t'.entry p ≡ entry)
      × (t'.entry_arg p ≡ arg)
      × (t'.pstack p ≡ allocate (if stack_size == 0 then stack_min else stack_size))
      × ((a : ℕ) → a ≢ p → t'.thread_id a ≡ t.thread_id a)
unfolding thread_create get_tcb
arm_thread_create-joins stack_min trampoline allocate fails stack_size psr entry arg t xs big given
      free real off ring once =
    let size = if stack_size == 0 then stack_min else stack_size in
    let enough : ltb size stack_min ≡ false = elim big [
      | inl z ↦ ground arith
      | inr b ↦ ground arith
    ] in
    let allocated : (allocate size == null) ≡ false = ground arith in
    let (i, p, e, was) = find_empty-had fails t 0 t.tcbs free in
    let framed = init_stack_frame (allocate size + size) psr trampoline p in
    let t1 = tcb_init p i null entry arg (record t { thread_id = write t.thread_id p starting }) in
    let t2 : ArmThreads = record t1 {
      pstack = write t1.pstack p (allocate size);
      sp = write t1.sp p framed.1;
    } in
    let nonnull : p ≢ null = λ z. real (rw z at was) in
    let some_tcb : (p == null) ≡ false = ground arith in
    (
      p,
      add_after t.pready p t2,
      rw (enough, allocated, e, some_tcb),
      was,
      nonnull,
      Links-add_after t.next t.pready p xs ring once (off p was),
      ground arith,
      ground arith,
      ground arith,
      λ a ne. ground arith,
    )

-- Early initialisation leaves the main thread running on a ring of two with the idle one, whose stack
-- pointer it has not set.
arm_early_init-sp :
    (idle_entry idle_stack : ℕ) (t : ArmThreads)
    → t.idle ≢ t.main
    → let t' = early_init idle_entry idle_stack t in
      Links t'.next t.main (t.idle ∷ []) t.main
      × (t'.pready ≡ t.main)
      × (t'.thread_id t.main ≡ 0)
      × (t'.thread_id t.idle ≡ 1)
      × (t'.sp t.idle ≡ t.sp t.idle)
unfolding early_init
arm_early_init-sp idle_entry idle_stack t ne =
    ((ground arith, ground arith), refl, ground arith, ground arith, refl)
