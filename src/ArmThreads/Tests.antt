-- ===== src/ArmThreads/Tests.antt =====
-- A small system of threads on armv6, and the theorems on threads at it.
use sadie.Prelude.{◌+◌, ◌≡◌, refl, ◌==◌, if◌then◌else◌, [], ◌∷◌, false}
use sadie.WaitHeap.{peek}
use sadie.Threads.{Threads, zombie, empty}
use sadie.Threads
use sadie.ArmThreads.{ArmThreads, thread_scheduler}
use sadie.ArmThreads.Agree.{IsSame, thread_scheduler-same}
use mathlib.Core.Option

-- The main thread 20 runs, then come the idle thread 10, the zombie 30 and the thread 40; the tcb 50
-- is empty.
abbrev ring_of_four : ArmThreads
ring_of_four = record {
  next = λ a.
      if a == 20
      then 10
      else (if a == 10 then 30 else (if a == 30 then 40 else (if a == 40 then 20 else 0)));
  thread_id = λ a. if a == 30 then zombie else (if a == 50 then empty else 1);
  entry = λ _. 0;
  entry_arg = λ _. 0;
  pstack = λ a. a + 1000;
  sp = λ _. 0;
  pready = 20;
  idle = 10;
  main = 20;
  tcbs = 30 ∷ 40 ∷ 50 ∷ [];
  freed = [];
}

-- The same threads on x86.
abbrev twin : Threads
twin = record {
  next = ring_of_four.next;
  prev = λ _. 0;
  thread_id = ring_of_four.thread_id;
  entry = λ _. 0;
  entry_arg = λ _. 0;
  pstack = λ _. 0;
  sp = λ _. 0;
  ss = λ _. 16;
  slice = λ _. 100;
  slice_deadline = λ _. 0;
  waiting_deadline = λ _. 0;
  pready = 20;
  pidle = 10;
  ready_length = 4;
  slice_default = 100;
  isr_counter = 0;
  waiting = record { tcbs = λ _. 0; allocated = 3; max = 3; num = 0 };
  apic_deadline = 0;
  total = 4;
  groups = [];
  freed = [];
}

twin-IsSame : IsSame twin ring_of_four
twin-IsSame = record { next = λ p. refl; ids = λ p. refl; idle = refl; run = refl }

thread_scheduler-same_example :
    Option.map (λ r. r.1.pready) (thread_scheduler 9 500 ring_of_four)
    ≡ Option.map (λ t'. t'.pready) (Threads.thread_scheduler 9 false 500 16 1000 twin)
unfolding peek
thread_scheduler-same_example =
    thread_scheduler-same 9 500 16 1000 twin ring_of_four twin-IsSame refl
