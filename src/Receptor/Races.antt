-- ===== src/Receptor/Races.antt =====
-- Signals that come between the steps of another call.
use sadie.Prelude.{
  ℕ, ◌^◌, ◌≡◌, ◌≢◌, ◌<◌, Bool, true, false, List, ◌∷◌, ◌++◌, ◌==◌, length, occurrences,
  occurrences-append, refl, arith, ap,
}
use sadie.Word.{null}
use sadie.WaitHeap.{peek}
use sadie.Threads.{Threads, add_tcb_after, thread_make_ready, remove_tcb_from_ready}
use sadie.Threads.Arc.{first_link}
use sadie.Threads.Ring.{IsRing, IsRing-turn}
use sadie.Threads.Schedule.{thread_scheduler-leaves}
use sadie.Receptor.{
  no_one_waiting, signaled, Moment, wait_step, signal_step, signal_start, claimed, asleep, try,
  look, done,
}
use sadie.Receptor.Calls.{shared, signal_steps}

-- A tcb that is on the ring already is not added again.
add_tcb_after-on_ring :
    (t : Threads) (c h : ℕ) (xs ys : List ℕ)
    → IsRing t c (xs ++ (h ∷ ys))
    → (p : ℕ) → add_tcb_after h p t ≡ (1, t)
unfolding add_tcb_after
add_tcb_after-on_ring t c h xs ys ring p =
    let r = IsRing-turn t c h xs ys ring in
    let next_there = first_link t.next t.prev h h (ys ++ (c ∷ xs)) r.arc in
    let linked : t.next h ≢ null = λ z.
      omega (arith, ap {A = ℕ} (λ n. occurrences n (h ∷ (ys ++ (c ∷ xs)))) z, next_there, r.real) in
    ground arith

-- A signal by the running thread that comes after another thread has claimed the receptor, but before
-- that is taken off the ring, comes to its end and changes nothing: when the other thread runs again,
-- while nobody waits for a time and the thread next to it on the ring is not the idle one, it falls
-- asleep on a receptor that is not marked.
pub signal-lost :
    (m m' : Moment) (t t' : Threads) (xs ys : List ℕ) (y : ℕ) (zs : List ℕ)
    → IsRing t t.pready (xs ++ (t'.pready ∷ ys))
    → t'.pready ≢ signaled
    → IsRing t' t'.pready (y ∷ zs)
    → length (y ∷ zs) < 2 ^ 32
    → y ≢ t'.pidle
    → peek t'.waiting ≡ null
    → (t'' : Threads) × (signal_steps m false 3 (shared t t'.pready) signal_start
        ≡ (shared t t'.pready, done))
      × (wait_step m' t'.pready (shared t' t'.pready) claimed ≡ (shared t'' t'.pready, asleep))
      × (t''.next t'.pready ≡ null)
      × IsRing t'' y zs
unfolding signal_step wait_step remove_tcb_from_ready thread_make_ready
signal-lost m m' t t' xs ys y zs ring handle ring' small real quiet =
    let me = t'.pready in
    let kept = add_tcb_after-on_ring t t.pready me xs ys ring t.pready in
    let (t'', e, first, ring'', cut, cut') =
      thread_scheduler-leaves m'.fuel m'.sp m'.ss m'.now t' y zs ring' small real quiet in
    let many = occurrences-append me (t.pready ∷ xs) (me ∷ ys) in
    let once_more : 0 < occurrences me (me ∷ ys) = ground arith in
    let nonnull : me ≢ null =
      λ z. ground (arith, ring.real, occurrences-append null (t.pready ∷ xs) (me ∷ ys)) in
    let waits : (me == null) ≡ false = ground arith in
    let unmarked : (me == signaled) ≡ false = ground arith in
    let self : (me == t'.pready) ≡ true = ground arith in
    (t'', rw (waits, waits, unmarked, kept), rw (self, e), cut, ring'')

-- A signal that has failed on the thread that waits keeps its handle as the expected value. When the
-- receptor is free at its next look, and the same thread waits again before its next exchange, the
-- exchange overwrites the handle: no signal that comes later wakes the thread.
signal-overwrites :
    (m m' : Moment) (yields : Bool) (t t1 t2 t3 : Threads) (me : ℕ)
    → m.fails ≡ false
    → me ≢ no_one_waiting
    → (signal_step m yields (shared t me) signal_start ≡ (shared t me, look me))
      × (signal_step m yields (shared t1 no_one_waiting) (look me)
          ≡ (shared t1 no_one_waiting, try me))
      × (signal_step m yields (shared t2 me) (try me) ≡ (shared t2 signaled, done))
      × (signal_steps m' yields 2 (shared t3 signaled) signal_start ≡ (shared t3 signaled, done))
unfolding signal_step
signal-overwrites m m' yields t t1 t2 t3 me works handle =
    let other : (me == no_one_waiting) ≡ false = ground arith in
    let self : (me == me) ≡ true = ground arith in (rw other, refl, rw (self, works), refl)
