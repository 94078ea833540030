-- ===== src/Threads/Schedule.antt =====
-- What the scheduler does to the ring and to the timer.
use sadie.Prelude.{
  ℕ, ◌+◌, ◌^◌, ◌≤◌, ◌≡◌, ◌≢◌, ◌<◌, List, [], ◌∷◌, ◌++◌, arith, ◌==◌, leb, occurrences, length, refl,
  false, true, some, ap,
}
use sadie.Word.{u64, null}
use sadie.WaitHeap.{write, peek}
use sadie.Threads.{
  Threads, zombie, linked_before, cut_out, set_slice_deadline, timer_scheduler, start_slice, follow,
  thread_scheduler,
}
use sadie.Threads.Ring.{IsRing, IsRing-turn, remove_first-IsRing, add_tcb_before-IsRing}
use sadie.Threads.Turn.{all_passed, follow-finds}
use sadie.WaitHeap
use Prim.Native.Nat.{min}

-- The state in which `q` has got a slice from `now` on.
abbrev pub given_slice : Threads → (q now : ℕ) → Threads
given_slice t q now =
    let d = u64 (now + t.slice q) in
    record t { slice_deadline = write t.slice_deadline q d; pready = q; apic_deadline = d }

pub start_slice-quiet :
    (t : Threads) (q now : ℕ) → peek t.waiting ≡ null → start_slice q now t ≡ given_slice t q now
unfolding start_slice timer_scheduler
start_slice-quiet t q now quiet = rw quiet (ground arith)

-- While nobody waits for a time, a yield runs the first thread on the ring, after the one that
-- yields, that is neither a zombie nor the idle one, sets the timer to the end of its slice, and
-- leaves the ring as it is, seen from that thread.
pub thread_scheduler-picks :
    (fuel sp ss now : ℕ) (t : Threads) (r : ℕ) (zs ys : List ℕ)
    → IsRing t t.pready (zs ++ (r ∷ ys))
    → all_passed t.thread_id t.pidle zs ≡ true
    → t.thread_id r ≢ zombie
    → r ≢ t.pidle
    → t.thread_id t.pidle ≢ zombie
    → peek t.waiting ≡ null
    → length zs < fuel
    → (t' : Threads) × (thread_scheduler fuel false sp ss now t ≡ some t')
      × (t'.pready ≡ r)
      × IsRing t' r (ys ++ (t.pready ∷ zs))
      × (t'.apic_deadline ≡ u64 (now + t.slice r))
      × (t'.thread_id ≡ t.thread_id)
      × (t'.pidle ≡ t.pidle)
      × (t'.waiting ≡ t.waiting)
unfolding thread_scheduler
thread_scheduler-picks fuel sp ss now t r zs ys ring passed live real idle_live quiet enough =
    let saved : Threads = record t { sp = write t.sp t.pready sp; ss = write t.ss t.pready ss } in
    let found = follow-finds fuel saved t.pready r zs ys ring passed live real idle_live enough in
    (
      given_slice saved r now,
      rw found (ap some (start_slice-quiet saved r now quiet)),
      refl,
      IsRing-turn t t.pready r zs ys ring,
      refl,
      refl,
      refl,
      refl,
    )

-- While nobody waits for a time, a thread that leaves is taken off the ring, and the next one runs
-- unless it is the idle one, be it a zombie.
pub thread_scheduler-leaves :
    (fuel sp ss now : ℕ) (t : Threads) (x : ℕ) (xs : List ℕ)
    → IsRing t t.pready (x ∷ xs)
    → length (x ∷ xs) < 2 ^ 32
    → x ≢ t.pidle
    → peek t.waiting ≡ null
    → (t' : Threads) × (thread_scheduler fuel true sp ss now t ≡ some t')
      × (t'.pready ≡ x)
      × IsRing t' x xs
      × (t'.next t.pready ≡ null)
      × (t'.prev t.pready ≡ null)
unfolding thread_scheduler follow
thread_scheduler-leaves fuel sp ss now t x xs ring small real quiet =
    let saved : Threads = record t { sp = write t.sp t.pready sp; ss = write t.ss t.pready ss } in
    let (e, out) = remove_first-IsRing saved t.pready x xs ring small in
    let left = cut_out t.pready saved in
    let other : (x == t.pidle) ≡ false = ground arith in
    (
      given_slice left x now,
      rw (e, other) (ap some (start_slice-quiet left x now quiet)),
      refl,
      out,
      ground arith,
      ground arith,
    )

-- The state in which the root of the heap runs in place of `q`.
abbrev woken : Threads → (q now : ℕ) → Threads
woken t q now =
    let w = peek t.waiting in
    let linked = linked_before w q (set_slice_deadline t q (u64 (now + t.slice q))) in
    let deadlines = write linked.slice_deadline w (u64 (now + t.slice w)) in
    record linked {
      slice_deadline = deadlines;
      waiting = WaitHeap.remove t.waiting_deadline t.waiting;
      pready = w;
      apic_deadline = deadlines w;
    }

start_slice-woken :
    (q now : ℕ) (t : Threads) (xs : List ℕ)
    → IsRing t q xs
    → peek t.waiting ≢ null
    → occurrences (peek t.waiting) (q ∷ xs) ≡ 0
    → t.waiting_deadline (peek t.waiting) ≤ now
    → start_slice q now t ≡ woken t q now
unfolding start_slice timer_scheduler
start_slice-woken q now t xs ring some_wait off due =
    let w = peek t.waiting in
    let sliced = set_slice_deadline t q (u64 (now + t.slice q)) in
    let (e, out) = add_tcb_before-IsRing sliced q w xs ring some_wait off in
    let f : (w == null) ≡ false = ground arith in
    let d : leb (t.waiting_deadline w) now ≡ true = ground arith in rw (e, f, d)

-- When the deadline of the thread that waits first has come, it runs, whatever thread the ring gives
-- to run: it stands on the ring before that thread and is off the heap.
pub start_slice-wakes :
    (q now : ℕ) (t : Threads) (xs : List ℕ)
    → IsRing t q xs
    → peek t.waiting ≢ null
    → occurrences (peek t.waiting) (q ∷ xs) ≡ 0
    → t.waiting_deadline (peek t.waiting) ≤ now
    → ((start_slice q now t).pready ≡ peek t.waiting)
      × IsRing (start_slice q now t) (peek t.waiting) (q ∷ xs)
      × ((start_slice q now t).waiting ≡ WaitHeap.remove t.waiting_deadline t.waiting)
      × ((start_slice q now t).apic_deadline ≡ u64 (now + t.slice (peek t.waiting)))
start_slice-wakes q now t xs ring some_wait off due =
    let w = peek t.waiting in
    let sliced = set_slice_deadline t q (u64 (now + t.slice q)) in
    let (e, out) = add_tcb_before-IsRing sliced q w xs ring some_wait off in
    rw (start_slice-woken q now t xs ring some_wait off due)
      (refl, IsRing-turn (linked_before w q sliced) q w xs [] out, refl, ground arith)

-- When its deadline is to come, the thread that the ring gives runs, at most until that deadline.
pub start_slice-shortens :
    (q now : ℕ) (t : Threads)
    → peek t.waiting ≢ null
    → now < t.waiting_deadline (peek t.waiting)
    → ((start_slice q now t).pready ≡ q)
      × ((start_slice q now t).apic_deadline
          ≡ min (u64 (now + t.slice q)) (t.waiting_deadline (peek t.waiting)))
      × ((start_slice q now t).waiting ≡ t.waiting)
unfolding start_slice timer_scheduler
start_slice-shortens q now t some_wait later =
    let w = peek t.waiting in
    let f : (w == null) ≡ false = ground arith in
    let d : leb (t.waiting_deadline w) now ≡ false = ground arith in
    rw (f, d) (ground arith, ground arith, ground arith)
