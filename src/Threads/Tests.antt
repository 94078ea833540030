-- ===== src/Threads/Tests.antt =====
-- A small system of threads, and the theorems on threads at it.
use sadie.Prelude.{
  ℕ, ◌+◌, ◌*◌, ◌≤◌, ◌≡◌, ◌≢◌, refl, some, arith, ◌==◌, if◌then◌else◌, List, [], ◌∷◌, false, inl,
}
use sadie.Word.{null, u64}
use sadie.WaitHeap.{WaitingTcbs, write, peek}
use sadie.WaitHeap
use sadie.Threads.{Threads, zombie, empty, cut_out, remove_tcb, thread_scheduler, start_slice}
use sadie.Threads.Create.{thread_create, round_stack, stack_wanted, remove_zombies}
use sadie.Threads.Init.{early_init}
use sadie.Threads.Ring.{IsRing, IsRing-turn, remove_tcb-IsRing}
use sadie.Threads.Schedule.{thread_scheduler-picks, start_slice-wakes}
use sadie.Threads.Fair.{yields, yields-reach}
use sadie.Threads.Zombies.{IsCleaned, remove_zombies-IsCleaned}
use sadie.Threads.Starting.{thread_create-joins}
use sadie.Threads.Began.{early_init-IsRing}

-- The main thread 20 runs, then come the idle thread 10, the zombie 30 and the thread 40; the tcb 50
-- is empty, and the thread 60 waits for the time 7 on the heap of `waiters`.
abbrev no_waiters : WaitingTcbs
no_waiters = record { tcbs = λ _. 0; allocated = 3; max = 3; num = 0 }

abbrev waiters : WaitingTcbs
waiters = record { tcbs = λ _. 60; allocated = 3; max = 3; num = 1 }

abbrev at : List (ℕ × ℕ) → ℕ → ℕ
at [] a = 0
at ((k, v) ∷ rest) a = if a == k then v else at rest a

abbrev four : WaitingTcbs → Threads
four w = record {
  next = at ((20, 10) ∷ (10, 30) ∷ (30, 40) ∷ (40, 20) ∷ []);
  prev = at ((10, 20) ∷ (30, 10) ∷ (40, 30) ∷ (20, 40) ∷ []);
  thread_id = at ((20, 1) ∷ (30, zombie) ∷ (40, 3) ∷ (50, empty) ∷ (60, 5) ∷ []);
  entry = λ _. 0;
  entry_arg = λ _. 0;
  pstack = at ((30, 7000) ∷ (40, 8000) ∷ []);
  sp = λ _. 0;
  ss = λ _. 16;
  slice = λ _. 100;
  slice_deadline = λ _. 0;
  waiting_deadline = at ((60, 7) ∷ []);
  pready = 20;
  pidle = 10;
  ready_length = 4;
  slice_default = 100;
  isr_counter = 0;
  waiting = w;
  apic_deadline = 0;
  total = 4;
  groups = (10 ∷ 20 ∷ 30 ∷ 40 ∷ 50 ∷ []) ∷ [];
  freed = [];
}

four-IsRing : (w : WaitingTcbs) → IsRing (four w) 20 (10 ∷ 30 ∷ 40 ∷ [])
four-IsRing w = record {
  arc = (refl, refl, (refl, refl, (refl, refl, (refl, refl))));
  once = λ a. ground arith;
  real = refl;
  unlinked = λ a off. ground arith;
  counted = refl;
}

idle-IsRing : IsRing (four no_waiters) 10 (30 ∷ 40 ∷ 20 ∷ [])
idle-IsRing = record {
  arc = (refl, refl, (refl, refl, (refl, refl, (refl, refl))));
  once = λ a. ground arith;
  real = refl;
  unlinked = λ a off. ground arith;
  counted = refl;
}

remove_tcb-IsRing_example :
    (remove_tcb 30 (four no_waiters) ≡ (40, cut_out 30 (four no_waiters)))
    × IsRing (cut_out 30 (four no_waiters)) 20 (10 ∷ 40 ∷ [])
remove_tcb-IsRing_example =
    remove_tcb-IsRing (four no_waiters) 20 30 (10 ∷ []) (40 ∷ []) (four-IsRing no_waiters)
      (omega arith)

-- The idle thread and the zombie are passed over.
thread_scheduler-picks_example :
    (t' : Threads) × (thread_scheduler 9 false 500 16 1000 (four no_waiters) ≡ some t')
    × (t'.pready ≡ 40)
    × IsRing t' 40 (20 ∷ 10 ∷ 30 ∷ [])
    × (t'.apic_deadline ≡ u64 (1000 + 100))
    × (t'.thread_id ≡ (four no_waiters).thread_id)
    × (t'.pidle ≡ 10)
    × (t'.waiting ≡ no_waiters)
unfolding peek
thread_scheduler-picks_example =
    thread_scheduler-picks 9 500 16 1000 (four no_waiters) 40 (10 ∷ 30 ∷ []) []
      (four-IsRing no_waiters) refl (omega arith) (omega arith) (omega arith) refl (omega arith)

start_slice-wakes_example :
    ((start_slice 40 1000 (four waiters)).pready ≡ peek waiters)
    × IsRing (start_slice 40 1000 (four waiters)) (peek waiters) (40 ∷ 20 ∷ 10 ∷ 30 ∷ [])
    × ((start_slice 40 1000 (four waiters)).waiting
        ≡ WaitHeap.remove (four waiters).waiting_deadline waiters)
    × ((start_slice 40 1000 (four waiters)).apic_deadline ≡ u64 (1000 + 100))
unfolding peek
start_slice-wakes_example =
    start_slice-wakes 40 1000 (four waiters) (20 ∷ 10 ∷ 30 ∷ [])
      (IsRing-turn (four waiters) 20 40 (10 ∷ 30 ∷ []) [] (four-IsRing waiters)) (omega arith) refl
      (omega arith)

yields-reach_example :
    (k : ℕ) × (k ≤ 3)
    × (t' : Threads) × (yields 9 500 16 (λ i. 1000 + i) k (four no_waiters) ≡ some t')
    × (t'.pready ≡ 40)
unfolding peek
yields-reach_example =
    yields-reach 3 9 500 16 (λ i. 1000 + i) (four no_waiters) 40 (10 ∷ 30 ∷ []) []
      (four-IsRing no_waiters) (omega arith) (omega arith) (omega arith) refl (omega arith)
      (omega arith)

remove_zombies-IsCleaned_example :
    (n : ℕ) × (t' : Threads) × (remove_zombies 4 (four no_waiters) ≡ some (n, t'))
    × IsCleaned (four no_waiters) [] (30 ∷ 40 ∷ 20 ∷ []) 0 n t'
remove_zombies-IsCleaned_example =
    remove_zombies-IsCleaned 4 (four no_waiters) (30 ∷ 40 ∷ 20 ∷ []) idle-IsRing (omega arith)
      (omega arith)

thread_create-joins_example :
    (p : ℕ) × (t' : Threads) × (thread_create 4096 600
        (λ n. n)
        (λ _. false)
        0
        518
        900
        901
        (four no_waiters)
      ≡ (p, t'))
    × ((four no_waiters).thread_id p ≡ empty)
    × (p ≢ null)
    × IsRing t' 20 (p ∷ (10 ∷ 30 ∷ 40 ∷ []))
    × (t'.pready ≡ 20)
    × (t'.entry p ≡ 900)
    × (t'.entry_arg p ≡ 901)
    × (t'.slice p ≡ 100)
    × (t'.pstack p ≡ round_stack (stack_wanted 4096 0))
    × ((a : ℕ) → a ≢ p → t'.thread_id a ≡ (four no_waiters).thread_id a)
thread_create-joins_example =
    thread_create-joins 4096 600 (λ n. n) (λ _. false) 0 518 900 901 (four no_waiters)
      (10 ∷ 30 ∷ 40 ∷ []) (inl refl) (omega arith) refl (omega arith) (λ a free. ground arith)
      (four-IsRing no_waiters)

-- The memory before the start, with no links.
abbrev cleared : Threads
cleared = record (four no_waiters) { next = λ _. 0; prev = λ _. 0; total = 0; groups = [] }

early_init-IsRing_example :
    (t' : Threads) × (early_init 100 600 3000 4096 518
        (some (λ i. 8 * i + 8))
        9000
        (some (λ _. 5))
        cleared
      ≡ some t')
    × (t'.pready ≡ 16)
    × (t'.pidle ≡ 8)
    × IsRing t' 16 (8 ∷ [])
    × (t'.thread_id 8 ≡ 0)
    × (t'.thread_id 16 ≡ 1)
    × (t'.thread_id 24 ≡ empty)
    × (t'.thread_id 32 ≡ empty)
    × (t'.waiting.num ≡ 0)
early_init-IsRing_example =
    early_init-IsRing 100 600 3000 4096 518 9000 (λ i. 8 * i + 8) (λ _. 5) cleared
      (λ i j e. omega arith) (λ i e. omega arith) (λ a. refl) (λ a. refl)
