-- ===== src/Threads/Began.antt =====
-- What the initialisation of threads leaves behind.
use sadie.Prelude.{
  ℕ, zero, suc, ◌+◌, ◌-◌, ◌≡◌, ◌≢◌, ◌<◌, ◌≤◌, ◌^◌, true, false, List, [], ◌∷◌, ◌++◌, Option, some,
  ◌==◌, ltb, length, occurrences, refl, arith, ap, ◌∙◌, ◌⊎◌, inl, inr, ℕ_discrete,
}
use sadie.Word.{u32, null}
use sadie.WaitHeap.{WaitingTcbs, write}
use sadie.WaitHeap
use sadie.Threads.{Threads, empty}
use sadie.Threads.Create.{tcb_init, init_stack_frame}
use sadie.Threads.Init.{tcbs_from, init_tcbs, ac_thread_init, first_threads, early_init}
use sadie.Threads.Ring.{IsRing, add_tcb_after-IsRing}
use mathlib.Core.Option

init_tcbs-unlinked :
    (ps : List ℕ) (t : Threads)
    → ((a : ℕ) → (t.next a ≡ null) × (t.prev a ≡ null))
    → (a : ℕ) → ((init_tcbs ps t).next a ≡ null) × ((init_tcbs ps t).prev a ≡ null)
unfolding init_tcbs tcb_init
init_tcbs-unlinked [] t off a = off a
init_tcbs-unlinked (p ∷ ps) t off a =
    init_tcbs-unlinked ps (tcb_init p empty null null t) (λ b. ground (arith, off b)) a

init_tcbs-groups : (ps : List ℕ) (t : Threads) → (init_tcbs ps t).groups ≡ t.groups
unfolding init_tcbs tcb_init
init_tcbs-groups [] t = refl
init_tcbs-groups (p ∷ ps) t = init_tcbs-groups ps (tcb_init p empty null null t)

init_tcbs-empty :
    (ps : List ℕ) (t : Threads) (a : ℕ)
    → (0 < occurrences a ps) ⊎ (t.thread_id a ≡ empty)
    → (init_tcbs ps t).thread_id a ≡ empty
unfolding init_tcbs tcb_init
init_tcbs-empty [] t a h = ground arith
init_tcbs-empty (p ∷ ps) t a h =
    init_tcbs-empty ps (tcb_init p empty null null t) a (elim (ℕ_discrete a p) [
      | yes here ↦ inr (ground arith)
      | no other ↦ elim h [ inl on ↦ inl (ground arith) | inr was ↦ inr (ground arith) ]
    ])

-- The idle and the main thread make a ring, whatever the state was but for links.
first_threads-IsRing :
    (idle idle_stack stack_min flags pidle pmain : ℕ) (t : Threads)
    → pidle ≢ null
    → pmain ≢ null
    → pidle ≢ pmain
    → ((a : ℕ) → (t.next a ≡ null) × (t.prev a ≡ null))
    → let t' = first_threads idle idle_stack stack_min flags pidle pmain t in
      IsRing t' pmain (pidle ∷ [])
      × (t'.pready ≡ pmain)
      × (t'.pidle ≡ pidle)
      × (t'.thread_id ≡ write (write t.thread_id pidle 0) pmain 1)
unfolding first_threads tcb_init init_stack_frame
first_threads-IsRing idle idle_stack stack_min flags pidle pmain t real real' ne off =
    let t1 = tcb_init pmain 1 null null (tcb_init pidle 0 idle null t) in
    let framed = init_stack_frame idle_stack stack_min flags idle pidle in
    let t2 : Threads = record t1 {
      pidle = pidle;
      sp = write t1.sp pidle framed.1;
      ss = write t1.ss pidle framed.0.ss;
      next = write t1.next pmain pmain;
      prev = write t1.prev pmain pmain;
      pready = pmain;
      ready_length = 1;
    } in
    let alone : IsRing t2 pmain [] = record {
      arc = ground arith;
      once = λ a. ground arith;
      real = ground arith;
      unlinked = λ a out. ground (arith, off a);
      counted = omega arith;
    } in
    let (e, ring) = add_tcb_after-IsRing t2 pmain pidle [] alone real (ground arith) in
    rw (e, first_threads) (ring, refl, refl, refl)

-- With different tcbs that are not NULL, and no links before, early initialisation leaves the main
-- thread running on a ring of two with the idle one, two more tcbs that are empty, and an empty heap.
pub early_init-IsRing :
    (slice idle idle_stack stack_min flags heap_array : ℕ) (address heap : ℕ → ℕ) (t : Threads)
    → ((i j : ℕ) → address i ≡ address j → i ≡ j)
    → ((i : ℕ) → address i ≢ null)
    → ((a : ℕ) → t.next a ≡ null)
    → ((a : ℕ) → t.prev a ≡ null)
    → (t' : Threads) × (early_init slice idle idle_stack stack_min flags
          (some address)
          heap_array
          (some heap)
          t
        ≡ some t')
      × (t'.pready ≡ address 1)
      × (t'.pidle ≡ address 0)
      × IsRing t' (address 1) (address 0 ∷ [])
      × (t'.thread_id (address 0) ≡ 0)
      × (t'.thread_id (address 1) ≡ 1)
      × (t'.thread_id (address 2) ≡ empty)
      × (t'.thread_id (address 3) ≡ empty)
      × (t'.waiting.num ≡ 0)
unfolding early_init ac_thread_init tcbs_from WaitHeap.init Option.bind
early_init-IsRing slice idle idle_stack stack_min flags heap_array address heap t inj real no_next
      no_prev =
    let apart : (i j : ℕ) → i ≢ j → address i ≢ address j = λ i j ne e. ne (inj i j e) in
    let t0 : Threads = record t {
      slice_default = slice;
      isr_counter = 0;
      total = 0;
      groups = [];
    } in
    let g = address 0 ∷ (address 1 ∷ (address 2 ∷ (address 3 ∷ []))) in
    let t1 = init_tcbs g t0 in
    let t2 : Threads = record t1 {
      groups = g ∷ [];
      total = 4;
      waiting = WaitHeap.update_max t1.waiting 4 heap_array;
    } in
    let off = init_tcbs-unlinked g t0 (λ a. (no_next a, no_prev a)) in
    let (ring, run, idles, ids) =
      first_threads-IsRing idle idle_stack stack_min flags (address 0) (address 1) t2 (real 0)
        (real 1) (apart 0 1 (omega arith)) off in
    let e : (a : ℕ) → 0 < occurrences a g → t1.thread_id a ≡ empty =
      λ a on. init_tcbs-empty g t0 a (inl on) in
    let marked = λ (a : ℕ). ap {A = ℕ → ℕ} (λ f. f a) ids in
    (
      record (first_threads idle idle_stack stack_min flags (address 0) (address 1) t2) {
        waiting = record { tcbs = heap; allocated = 3; max = 3; num = 0 };
      },
      rw (init_tcbs-groups g t0),
      run,
      idles,
      ring,
      marked (address 0) ∙ ground (arith, apart 0 1),
      marked (address 1) ∙ ground arith,
      marked (address 2) ∙ ground (arith, apart 2 0, apart 2 1, e (address 2)),
      marked (address 3) ∙ ground (arith, apart 3 0, apart 3 1, e (address 3)),
      refl,
    )

length-tcbs_from : (address : ℕ → ℕ) (i count : ℕ) → length (tcbs_from address i count) ≡ count
unfolding tcbs_from
length-tcbs_from address i zero = refl
length-tcbs_from address i (suc count) = ap suc (length-tcbs_from address (i + 1) count)

-- A call of ac_thread_init for more threads than there are counts the new total on top of the old
-- one, though with the new tcbs there are just as many as the new total; therefore a later call for
-- still more threads adds none, up to the number that has been counted twice.
ac_thread_init-counts :
    (address : ℕ → ℕ) (heap_array max_threads : ℕ) (t : Threads) (g : List ℕ) (gs : List (List ℕ))
    (array : Option (ℕ → ℕ)) (later : ℕ)
    → t.groups ≡ g ∷ gs
    → 0 < max_threads
    → max_threads + 2 < 2 ^ 31
    → t.total < max_threads + 2
    → max_threads < later
    → later ≤ t.total + max_threads
    → (t' : Threads) × (new : List ℕ) × (ac_thread_init (some address) heap_array max_threads t
        ≡ some t')
      × (t'.groups ≡ new ∷ (gs ++ (g ∷ [])))
      × (length new + t.total ≡ max_threads + 2)
      × (t'.total ≡ t.total + (max_threads + 2))
      × (ac_thread_init array heap_array later t' ≡ some t')
unfolding ac_thread_init
ac_thread_init-counts address heap_array max_threads t g gs array later had some_threads small more
      grow counted =
    let new = tcbs_from address 0 (max_threads + 2 - t.total) in
    let t1 : Threads = init_tcbs new t in
    let total = t.total + (max_threads + 2) in
    let e0 : (max_threads == 0) ≡ false = ground arith in
    let e1 : u32 (max_threads + 2) ≡ max_threads + 2 = omega arith in
    let e2 : ltb t.total (max_threads + 2) ≡ true = ground arith in
    let e3 : u32 total ≡ total = omega arith in
    let e4 : (later == 0) ≡ false = ground arith in
    let e5 : ltb total (u32 (later + 2)) ≡ false = ground arith in
    (
      record t1 {
        groups = new ∷ (gs ++ (g ∷ []));
        total = total;
        waiting = WaitHeap.update_max t1.waiting total heap_array;
      },
      new,
      rw (e0, e1, e2, e3, init_tcbs-groups new t, had),
      refl,
      omega (arith, length-tcbs_from address 0 (max_threads + 2 - t.total)),
      refl,
      rw (e4, e5),
    )
