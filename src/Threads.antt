-- ===== src/Threads.antt =====
-- The scheduler of threads of arch/x86/libs/thread_x86/srcs/thread_x86.c: a circular list of the tcbs
-- that are ready, a heap of those that wait, and the tcb `pready` that runs. The functions run with
-- interrupts disabled, each to its end.
pub mod Create
pub mod Init
pub mod Began
pub mod Arc
pub mod Ring
pub mod Turn
pub mod Schedule
pub mod Fair
pub mod Zombies
pub mod Starting
mod Tests
use sadie.Prelude.{
  ℕ, zero, suc, ◌+◌, ◌-◌, ◌^◌, Bool, true, false, List, Option, none, some, ◌==◌, ltb, leb,
  if◌then◌else◌,
}
use sadie.Word.{u32, u64, sub32, null}
use sadie.WaitHeap.{WaitingTcbs, Added, added, asserted, out_of_bounds, write, peek}
use sadie.WaitHeap
use mathlib.Core.Option

-- `AC_THREAD_ID_EMPTY`, `AC_THREAD_ID_STARTING` and `AC_THREAD_ID_ZOMBIE`
abbrev pub empty : ℕ
empty = 2 ^ 32 - 1

abbrev pub starting : ℕ
starting = 2 ^ 32 - 2

abbrev pub zombie : ℕ
zombie = 2 ^ 32 - 3

-- The static variables, and the fields of `tcb_x86` by the tcb's address. `groups` are the arrays of
-- tcbs in the order of `pnext` from `pthreads` on, `apic_deadline` is what the timer is set to, and
-- `freed` are the stacks given back, the last one first.
pub record Threads : Type 0 where
  pub next : ℕ → ℕ
  pub prev : ℕ → ℕ
  pub thread_id : ℕ → ℕ
  pub entry : ℕ → ℕ
  pub entry_arg : ℕ → ℕ
  pub pstack : ℕ → ℕ
  pub sp : ℕ → ℕ
  pub ss : ℕ → ℕ
  pub slice : ℕ → ℕ
  pub slice_deadline : ℕ → ℕ
  pub waiting_deadline : ℕ → ℕ
  pub pready : ℕ
  pub pidle : ℕ
  pub ready_length : ℕ
  pub slice_default : ℕ
  pub isr_counter : ℕ
  pub waiting : WaitingTcbs
  pub apic_deadline : ℕ
  pub total : ℕ
  pub groups : List (List ℕ)
  pub freed : List ℕ

-- The links of `add_tcb_before`.
abbrev pub linked_before : (pnew pcur : ℕ) → Threads → Threads
linked_before pnew pcur t =
    let ptmp = t.prev pcur in
    record t {
      ready_length = u32 (t.ready_length + 1);
      next = write (write t.next pnew pcur) ptmp pnew;
      prev = write (write t.prev pnew ptmp) pcur pnew;
    }

-- `add_tcb_before`, with its result
unfoldable pub add_tcb_before : (pnew pcur : ℕ) → Threads → ℕ × Threads
add_tcb_before pnew pcur t = if t.prev pnew == null then (0, linked_before pnew pcur t) else (1, t)

-- The links of `add_tcb_after`.
abbrev pub linked_after : (pnew pcur : ℕ) → Threads → Threads
linked_after pnew pcur t =
    let ptmp = t.next pcur in
    record t {
      ready_length = u32 (t.ready_length + 1);
      next = write (write t.next pnew ptmp) pcur pnew;
      prev = write (write t.prev pnew pcur) ptmp pnew;
    }

-- `add_tcb_after`, with its result
unfoldable pub add_tcb_after : (pnew pcur : ℕ) → Threads → ℕ × Threads
add_tcb_after pnew pcur t = if t.next pnew == null then (0, linked_after pnew pcur t) else (1, t)

-- The links of `remove_tcb_intr_disabled`.
abbrev pub cut_out : (pcur : ℕ) → Threads → Threads
cut_out pcur t =
    let pnext = t.next pcur in
    let pprev = t.prev pcur in
    record t {
      ready_length = sub32 t.ready_length 1;
      next = write (write t.next pprev pnext) pcur null;
      prev = write (write t.prev pnext pprev) pcur null;
    }

-- `remove_tcb_intr_disabled`, with the tcb that followed
unfoldable pub remove_tcb : (pcur : ℕ) → Threads → ℕ × Threads
remove_tcb pcur t = if t.next pcur == null then (t.next pcur, t) else (t.next pcur, cut_out pcur t)

-- The loop of `next_tcb`, on fuel: from `p` on, past the zombies.
unfoldable pub skip_zombies : (fuel : ℕ) → Threads → (p : ℕ) → Option ℕ
skip_zombies zero t p = none
skip_zombies (suc fuel) t p =
    let rest = skip_zombies fuel t (t.next p) in if t.thread_id p == zombie then rest else some p

abbrev pub next_tcb : (fuel : ℕ) → Threads → (pcur : ℕ) → Option ℕ
next_tcb fuel t pcur = skip_zombies fuel t (t.next pcur)

abbrev pub set_slice_deadline : Threads → (ptcb deadline : ℕ) → Threads
set_slice_deadline t ptcb deadline = record t {
  slice_deadline = write t.slice_deadline ptcb deadline;
}

-- `timer_scheduler_intr_disabled`, with the tcb to run
unfoldable pub timer_scheduler : (next now : ℕ) → Threads → ℕ × Threads
timer_scheduler next now t =
    let pwaiting = peek t.waiting in
    let deadline = t.waiting_deadline pwaiting in
    let ready = (add_tcb_before pwaiting next t).1 in
    let run = set_slice_deadline ready pwaiting (u64 (now + ready.slice pwaiting)) in
    if pwaiting == null
    then (next, t)
    else (if leb deadline now
        then (pwaiting, record run { waiting = WaitHeap.remove run.waiting_deadline run.waiting })
        else (if ltb deadline (t.slice_deadline next)
            then (next, set_slice_deadline t next deadline)
            else (next, t)))

-- The end of `thread_scheduler_intr_disabled`, for the tcb that the list gives.
unfoldable pub start_slice : (next now : ℕ) → Threads → Threads
start_slice next now t =
    let (chosen, t') =
      timer_scheduler next now (set_slice_deadline t next (u64 (now + t.slice next))) in
    record t' { pready = chosen; apic_deadline = t'.slice_deadline chosen }

-- The tcb that follows in the list, and past the idle one; none if there is no end of zombies.
unfoldable pub follow : (fuel : ℕ) → Threads → Option ℕ → Option ℕ
follow fuel t none = none
follow fuel t (some p) = if p == t.pidle then next_tcb fuel t p else some p

-- `thread_scheduler_intr_disabled` at the time `now`; `sp` and `ss` are the running thread's.
unfoldable pub thread_scheduler :
    (fuel : ℕ) → (remove_pready : Bool) → (sp ss now : ℕ) → Threads → Option Threads
thread_scheduler fuel remove_pready sp ss now t =
    let saved = record t { sp = write t.sp t.pready sp; ss = write t.ss t.pready ss } in
    let (p, left) = remove_tcb t.pready saved in
    if remove_pready
    then Option.map (λ q. start_slice q now left) (follow fuel left (some p))
    else Option.map (λ q. start_slice q now saved)
        (follow fuel saved (next_tcb fuel saved t.pready))

-- `timer_thread_scheduler_intr_disabled`
unfoldable pub timer_thread_scheduler : (fuel sp ss now : ℕ) → Threads → Option Threads
timer_thread_scheduler fuel sp ss now t =
    Option.map {A = Threads} (λ t'. record t' { isr_counter = u64 (t'.isr_counter + 1) })
      (thread_scheduler fuel false sp ss now t)

-- `remove_tcb_from_ready_intr_disabled`: the thread that runs leaves by a yield, which is an
-- interrupt that calls the scheduler.
unfoldable pub remove_tcb_from_ready : (fuel sp ss now pcur : ℕ) → Threads → Option Threads
remove_tcb_from_ready fuel sp ss now pcur t =
    if pcur == t.pready then thread_scheduler fuel true sp ss now t else some (remove_tcb pcur t).1

-- `pready_timer_wait_until_tsc`; none where the heap has no room, or no thread is left to run.
unfoldable pub wait_until : (fuel sp ss now tsc : ℕ) → Threads → Option Threads
wait_until fuel sp ss now tsc t = waited (WaitHeap.add t.waiting_deadline t.waiting t.pready tsc)
  where
    waited : Added → Option Threads
    waited (added d w) =
        remove_tcb_from_ready fuel sp ss now t.pready
          (record t { waiting_deadline = d; waiting = w })
    waited asserted = none
    waited out_of_bounds = none

-- `thread_make_ready`, with its result
unfoldable pub thread_make_ready : (hdl : ℕ) → Threads → ℕ × Threads
thread_make_ready hdl t = add_tcb_after hdl t.pready t
