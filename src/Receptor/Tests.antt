-- ===== src/Receptor/Tests.antt =====
-- Two threads that share a receptor, and the theorems on receptors at them.
use sadie.Prelude.{◌/◌, ◌≡◌, refl, arith, ◌==◌, if◌then◌else◌, [], ◌∷◌, false}
use sadie.Word.{null}
use sadie.WaitHeap.{peek}
use sadie.Threads.{Threads}
use sadie.Threads.Ring.{IsRing}
use sadie.Receptor.{
  no_one_waiting, Receptor, Moment, active, wait_step, signal_start, start, claimed, asleep,
  returned, done,
}
use sadie.Receptor.Calls.{shared, wait_steps, signal_steps, wait-signal}
use sadie.Receptor.Races.{signal-lost}

-- The thread 20 runs, 40 comes next, and the idle thread is 10.
abbrev three : Threads
three = record {
  next = λ a. if a == 20 then 40 else (if a == 40 then 10 else (if a == 10 then 20 else 0));
  prev = λ a. if a == 20 then 10 else (if a == 40 then 20 else (if a == 10 then 40 else 0));
  thread_id = λ a. a / 20;
  entry = λ _. 0;
  entry_arg = λ _. 0;
  pstack = λ _. 0;
  sp = λ _. 0;
  ss = λ _. 16;
  slice = λ _. 100;
  slice_deadline = λ _. 0;
  waiting_deadline = λ _. 0;
  pready = 20;
  pidle = 10;
  ready_length = 3;
  slice_default = 100;
  isr_counter = 0;
  waiting = record { tcbs = λ _. 0; allocated = 3; max = 3; num = 0 };
  apic_deadline = 0;
  total = 4;
  groups = (10 ∷ 20 ∷ 40 ∷ []) ∷ [];
  freed = [];
}

-- The same ring while 40 runs.
abbrev turned : Threads
turned = record three { pready = 40 }

three-IsRing : IsRing three 20 (40 ∷ 10 ∷ [])
three-IsRing = record {
  arc = (refl, refl, (refl, refl, (refl, refl)));
  once = λ a. ground arith;
  real = refl;
  unlinked = λ a off. ground arith;
  counted = refl;
}

turned-IsRing : IsRing turned 40 (10 ∷ 20 ∷ [])
turned-IsRing = record {
  arc = (refl, refl, (refl, refl, (refl, refl)));
  once = λ a. ground arith;
  real = refl;
  unlinked = λ a off. ground arith;
  counted = refl;
}

abbrev moment : Moment
moment = record { fuel = 9; sp = 500; ss = 16; now = 1000; fails = false }

wait-signal_example :
    (t' : Threads) × (t'' : Threads) × (wait_steps moment 20 2 (shared three no_one_waiting) start
      ≡ (shared t' 20, asleep))
    × IsRing t' 40 (10 ∷ [])
    × (signal_steps moment false 3 (shared t' 20) signal_start ≡ (shared t'' 20, done))
    × IsRing t'' 40 (20 ∷ 10 ∷ [])
    × (wait_step moment 20 (shared t'' 20) asleep ≡ (shared t'' no_one_waiting, returned 0))
unfolding peek
wait-signal_example =
    wait-signal moment moment moment three 40 (10 ∷ []) refl three-IsRing (omega arith)
      (omega arith) refl (omega arith)

-- Thread 20 has claimed the receptor, 40 signals, and 20 falls asleep.
signal-lost_example :
    (t'' : Threads) × (signal_steps moment false 3 (shared turned 20) signal_start
      ≡ (shared turned 20, done))
    × (wait_step moment 20 (shared three 20) claimed ≡ (shared t'' 20, asleep))
    × (t''.next 20 ≡ null)
    × IsRing t'' 40 (10 ∷ [])
unfolding peek
signal-lost_example =
    signal-lost moment moment turned three (10 ∷ []) [] 40 (10 ∷ []) turned-IsRing (omega arith)
      three-IsRing (omega arith) (omega arith) refl

abbrev used : Receptor
used = record { thdl = 20; state = active }
