-- ===== src/Receptor.antt =====
-- `AcReceptor` of arch/x86/libs/ac_receptor_impl: what a thread waits for and another one signals.
-- Each operation is a machine with a step for each access to shared memory, since an interrupt may
-- come between any two; `thread_make_ready` and `thread_make_not_ready` run with interrupts disabled.
pub mod Slots
pub mod Calls
pub mod Races
mod Tests
use sadie.Prelude.{
  ℕ, zero, suc, ◌+◌, Bool, true, false, List, [], ◌∷◌, Option, none, some, ◌&&◌, ◌||◌, ◌==◌,
  if◌then◌else◌,
}
use sadie.Word.{null}
use sadie.Threads.{Threads, thread_make_ready, thread_scheduler, remove_tcb_from_ready}

-- `RECEPTOR_NO_ONE_WAITING` and `RECEPTOR_SIGNALED`; any other `thdl` is the tcb that waits.
abbrev pub no_one_waiting : ℕ
no_one_waiting = 0

abbrev pub signaled : ℕ
signaled = 1

-- The states of a receptor.
pub data Use : Type 0 where
  unused initializing active deinitializing : Use

pub record Receptor : Type 0 where
  pub thdl : ℕ
  pub state : Use

-- The threads and the field `thdl` of the receptor that they use.
pub record Shared : Type 0 where
  pub threads : Threads
  pub thdl : ℕ

-- What a step needs: the fuel, the registers and the time for the scheduler, and whether a weak
-- compare-exchange fails in this step for no reason.
pub record Moment : Type 0 where
  pub fuel : ℕ
  pub sp : ℕ
  pub ss : ℕ
  pub now : ℕ
  pub fails : Bool

-- Where a call of `AcReceptor_wait` stands: `claimed` after the exchange of case 1, `asleep` inside
-- thread_make_not_ready; `asserted` and `no_thread` are the ends that do not return.
pub data WaitPc : Type 0 where
  start claimed asleep second asserted no_thread : WaitPc
  returned : (status : ℕ) → WaitPc

unfoldable pub wait_step : Moment → (me : ℕ) → Shared → WaitPc → Shared × WaitPc
wait_step m me s start =
    if s.thdl == no_one_waiting
    then (if m.fails then (s, second) else (record s { thdl = me }, claimed))
    else (s, second)
wait_step m me s claimed = slept (remove_tcb_from_ready m.fuel m.sp m.ss m.now me s.threads)
  where
    slept : Option Threads → Shared × WaitPc
    slept none = (s, no_thread)
    slept (some t) = (record s { threads = t }, asleep)
wait_step m me s asleep = (record s { thdl = no_one_waiting }, returned 0)
wait_step m me s second =
    let refused : Shared × WaitPc =
      (s, if (s.thdl == no_one_waiting) || (s.thdl == signaled) then returned 1 else asserted) in
    if s.thdl == signaled
    then (if m.fails then refused else (record s { thdl = no_one_waiting }, returned 0))
    else refused
wait_step m me s asserted = (s, asserted)
wait_step m me s no_thread = (s, no_thread)
wait_step m me s (returned r) = (s, returned r)

-- Where a call of `AcReceptor_signal` stands, or with `yields` of
-- `AcReceptor_signal_yield_if_waiting`; a failed exchange leaves what it read in `expected`.
pub data SignalPc : Type 0 where
  try look : (expected : ℕ) → SignalPc
  awake : (hdl : ℕ) → SignalPc
  yielding done : SignalPc

unfoldable pub signal_step : Moment → (yields : Bool) → Shared → SignalPc → Shared × SignalPc
signal_step m yields s (try expected) =
    if s.thdl == expected
    then (if m.fails then (s, look s.thdl) else (record s { thdl = signaled }, done))
    else (s, look s.thdl)
signal_step m yields s (look expected) = (
  s,
  if s.thdl == no_one_waiting
      then try expected
      else (if s.thdl == signaled then done else awake s.thdl),
)
signal_step m yields s (awake hdl) =
    let (rslt, t) = thread_make_ready hdl s.threads in
    (record s { threads = t }, if yields && (rslt == 0) then yielding else done)
signal_step m yields s yielding = yielded (thread_scheduler m.fuel false m.sp m.ss m.now s.threads)
  where
    yielded : Option Threads → Shared × SignalPc
    yielded none = (s, yielding)
    yielded (some t) = (record s { threads = t }, done)
signal_step m yields s done = (s, done)

-- A call of signal starts so.
abbrev pub signal_start : SignalPc
signal_start = try no_one_waiting

-- `AcReceptor_get`, with the index of the receptor; none if there is no free one. `fails` tells at
-- which index the weak compare-exchange fails for no reason.
unfoldable pub get_from : (fails : ℕ → Bool) → (i : ℕ) → List Receptor → Option (ℕ × List Receptor)
get_from fails i [] = none
get_from fails i (r ∷ rs) = take_if r.state (fails i) (get_from fails (i + 1) rs)
  where
    later : Option (ℕ × List Receptor) → Option (ℕ × List Receptor)
    later none = none
    later (some (j, rest)) = some (j, r ∷ rest)

    take_if : Use → Bool → Option (ℕ × List Receptor) → Option (ℕ × List Receptor)
    take_if unused false rest = some (i, record { thdl = no_one_waiting; state = active } ∷ rs)
    take_if unused true rest = later rest
    take_if initializing _ rest = later rest
    take_if active _ rest = later rest
    take_if deinitializing _ rest = later rest

-- `AcReceptor_ret` for a receptor that no other thread initialises; none while one does.
unfoldable pub ret : (fails : Bool) → Receptor → Option Receptor
ret fails r = returned_to r.state fails
  where
    returned_to : Use → Bool → Option Receptor
    returned_to initializing _ = none
    returned_to active false = some (record { thdl = no_one_waiting; state = unused })
    returned_to active true = some r
    returned_to unused _ = some r
    returned_to deinitializing _ = some r

-- `AcReceptor_init`, for what the allocated memory holds; none where an assertion fails.
unfoldable pub init :
    (memory : Option (List Receptor)) → (max_receptors : ℕ) → Option (List Receptor)
init none max = none
init (some rs) max = if max == 0 then none else some (unuse max rs)
  where
    unuse : ℕ → List Receptor → List Receptor
    unuse n [] = []
    unuse zero (r ∷ rs) = r ∷ rs
    unuse (suc n) (r ∷ rs) = record r { state = unused } ∷ unuse n rs
