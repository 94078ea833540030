-- ===== src/Threads/Init.antt =====
-- The arrays of tcbs and the first two threads: ac_thread_init and ac_thread_early_init of
-- thread_x86.c.
use sadie.Prelude.{
  ℕ, zero, suc, ◌+◌, ◌-◌, List, [], ◌∷◌, ◌++◌, Option, none, some, ◌==◌, ltb, if◌then◌else◌,
}
use sadie.Word.{u32, null}
use sadie.WaitHeap.{WaitingTcbs, write, update_max}
use sadie.WaitHeap
use sadie.Threads.{Threads, empty, add_tcb_after}
use sadie.Threads.Create.{tcb_init, init_stack_frame}
use mathlib.Core.Option

-- The addresses of `count` tcbs in an array, from index `i` on.
unfoldable pub tcbs_from : (address : ℕ → ℕ) → (i count : ℕ) → List ℕ
tcbs_from address i zero = []
tcbs_from address i (suc count) = address i ∷ tcbs_from address (i + 1) count

-- The loop that marks the new tcbs as empty.
unfoldable pub init_tcbs : List ℕ → Threads → Threads
init_tcbs [] t = t
init_tcbs (p ∷ ps) t = init_tcbs ps (tcb_init p empty null null t)

-- A new array comes behind the first of the ring of arrays, and is then the first.
abbrev pub link_group : (g : List ℕ) → List (List ℕ) → List (List ℕ)
link_group g [] = g ∷ []
link_group g (h ∷ gs) = g ∷ (gs ++ (h ∷ []))

-- `ac_thread_init`, for the addresses of the tcbs in the new array if it can be allocated, and the
-- address of the array that the heap allocates; none where an assertion fails.
unfoldable pub ac_thread_init :
    (array : Option (ℕ → ℕ)) → (heap_array max_threads : ℕ) → Threads → Option Threads
ac_thread_init array heap_array max_threads t =
    let max = u32 (max_threads + 2) in
    if max_threads == 0
    then none
    else (if ltb t.total max then Option.map (extended max) array else some t)
  where
    extended : (max : ℕ) → (ℕ → ℕ) → Threads
    extended max address =
        let g = tcbs_from address 0 (max - t.total) in
        let t' = init_tcbs g t in
        let total = u32 (t.total + max) in
        record t' {
          groups = link_group g t'.groups;
          total = total;
          waiting = update_max t'.waiting total heap_array;
        }

-- The end of ac_thread_early_init: the tcbs of the idle and of the main thread, and the ring of both.
unfoldable pub first_threads :
    (idle idle_stack stack_min flags : ℕ) → (pidle pmain : ℕ) → Threads → Threads
first_threads idle idle_stack stack_min flags pidle pmain t =
    let t1 = tcb_init pmain 1 null null (tcb_init pidle 0 idle null t) in
    let (frame, sp) = init_stack_frame idle_stack stack_min flags idle pidle in
    let t2 = record t1 {
      pidle = pidle;
      sp = write t1.sp pidle sp;
      ss = write t1.ss pidle frame.ss;
      next = write t1.next pmain pmain;
      prev = write t1.prev pmain pmain;
      pready = pmain;
      ready_length = 1;
    } in
    (add_tcb_after pidle pmain t2).1

-- `ac_thread_early_init`: `slice` is the default slice that init_timer sets, `heap` what the heap's
-- array holds when it can be allocated; none where an assertion fails.
unfoldable pub early_init :
    (slice idle idle_stack stack_min flags : ℕ)
    → (array : Option (ℕ → ℕ)) → (heap_array : ℕ) → (heap : Option (ℕ → ℕ)) → Threads
    → Option Threads
early_init slice idle idle_stack stack_min flags array heap_array heap t =
    Option.bind
      (ac_thread_init array heap_array 2
        (record t { slice_default = slice; isr_counter = 0; total = 0; groups = [] }))
      (λ t1. begun t1 t1.groups)
  where
    begun : Threads → List (List ℕ) → Option Threads
    begun t1 ((pidle ∷ (pmain ∷ rest)) ∷ gs) =
        Option.map {A = WaitingTcbs}
          (λ w. record (first_threads idle idle_stack stack_min flags pidle pmain t1) {
            waiting = w;
          })
          (WaitHeap.init heap 2)
    begun t1 _ = none
