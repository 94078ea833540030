-- ===== src/Receptor/Calls.antt =====
-- Calls of wait and signal that nothing interrupts, in both orders.
use sadie.Prelude.{
  ℕ, zero, suc, ◌^◌, ◌≡◌, ◌≢◌, ◌<◌, ◌⊎◌, inl, inr, Bool, true, false, List, ◌∷◌, ◌==◌, length,
  occurrences, refl, arith, ap, ◌∙◌,
}
use sadie.Word.{null}
use sadie.WaitHeap.{peek}
use sadie.Threads.{Threads, add_tcb_after, thread_make_ready, remove_tcb_from_ready, linked_after}
use sadie.Threads.Ring.{IsRing, add_tcb_after-IsRing}
use sadie.Threads.Schedule.{thread_scheduler-leaves}
use sadie.Receptor.{
  no_one_waiting, signaled, Shared, Moment, WaitPc, wait_step, SignalPc, signal_step, signal_start,
  start, asleep, returned, done,
}

-- So many steps of a call that nothing interrupts.
abbrev pub wait_steps : Moment → (me k : ℕ) → Shared → WaitPc → Shared × WaitPc
wait_steps m me zero s pc = (s, pc)
wait_steps m me (suc k) s pc = let (s', pc') = wait_step m me s pc in wait_steps m me k s' pc'

abbrev pub signal_steps : Moment → Bool → (k : ℕ) → Shared → SignalPc → Shared × SignalPc
signal_steps m yields zero s pc = (s, pc)
signal_steps m yields (suc k) s pc =
    let (s', pc') = signal_step m yields s pc in signal_steps m yields k s' pc'

abbrev pub shared : Threads → (thdl : ℕ) → Shared
shared t v = record { threads = t; thdl = v }

-- While no thread waits, a signal marks the receptor and wakes no one, and a wait that comes later
-- returns 0 at once and takes the mark away.
pub signal-wait :
    (m : Moment) (yields : Bool) (me : ℕ) (t : Threads) (v : ℕ)
    → m.fails ≡ false
    → (v ≡ no_one_waiting) ⊎ (v ≡ signaled)
    → (signal_steps m yields 2 (shared t v) signal_start ≡ (shared t signaled, done))
      × (wait_steps m me 2 (shared t signaled) start ≡ (shared t no_one_waiting, returned 0))
unfolding signal_step wait_step
signal-wait m yields me t v works (inl free) = (rw (free, works), rw works)
signal-wait m yields me t v works (inr marked) = (rw marked, rw works)

-- While nobody waits for a time, the next thread on the ring is not the idle one and the weak
-- compare-exchange does not fail for no reason, a thread whose handle is not the mark of a signal, and
-- that waits before the signal, leaves the ring; the signal puts it behind the thread that then runs,
-- and when it runs again wait returns 0 and no one waits.
pub wait-signal :
    (m m' m'' : Moment) (t : Threads) (x : ℕ) (xs : List ℕ)
    → m.fails ≡ false
    → IsRing t t.pready (x ∷ xs)
    → length (x ∷ xs) < 2 ^ 32
    → x ≢ t.pidle
    → peek t.waiting ≡ null
    → t.pready ≢ signaled
    → (t' : Threads) × (t'' : Threads) × (wait_steps m t.pready 2 (shared t no_one_waiting) start
        ≡ (shared t' t.pready, asleep))
      × IsRing t' x xs
      × (signal_steps m' false 3 (shared t' t.pready) signal_start ≡ (shared t'' t.pready, done))
      × IsRing t'' x (t.pready ∷ xs)
      × (wait_step m'' t.pready (shared t'' t.pready) asleep
          ≡ (shared t'' no_one_waiting, returned 0))
unfolding signal_step wait_step remove_tcb_from_ready thread_make_ready
wait-signal m m' m'' t x xs works ring small real quiet handle =
    let me = t.pready in
    let (t', e, runs, ring', cut, cut') =
      thread_scheduler-leaves m.fuel m.sp m.ss m.now t x xs ring small real quiet in
    let nonnull : me ≢ null = ground (arith, ring.real) in
    let off : occurrences me (x ∷ xs) ≡ 0 = ground (arith, ring.once me) in
    let (e', ring'') = add_tcb_after-IsRing t' x me xs ring' nonnull off in
    let added = ap (λ p. add_tcb_after me p t') runs ∙ e' in
    let self : (me == me) ≡ true = ground arith in
    let waits : (me == null) ≡ false = ground arith in
    let unmarked : (me == signaled) ≡ false = ground arith in
    (
      t',
      linked_after me x t',
      rw (works, self, e),
      ring',
      rw (waits, waits, unmarked, added),
      ring'',
      refl,
    )
