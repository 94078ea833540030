-- ===== src/CompMgr/Lifetime.antt =====
-- `AcCompMgr_init` and `AcCompMgr_deinit`, with what a dispatch thread does when it is stopped. The
-- receptors are not modelled: a thread is ready when init goes on, and done when deinit goes on.
use sadie.Prelude.{
  update, ℕ, zero, suc, ◌+◌, ◌-◌, ◌*◌, Bool, true, false, Option, none, some, ◌||◌, ◌==◌,
  if◌then◌else◌,
}
use sadie.Word.{u32, null, Status, ok, err, bad_param, out_of_memory}
use sadie.Dispatcher.{World, Components}
use sadie.Dispatcher.Slots
use sadie.CompMgr.{CompMgr, set_comp, set_d}

abbrev pub and_then : Option CompMgr → (CompMgr → Option CompMgr) → Option CompMgr
and_then none rest = none
and_then (some m) rest = rest m

abbrev pub after_rmv : CompMgr → (k : ℕ) → Option (Status × World) → Option CompMgr
after_rmv m k none = none
after_rmv m k (some (_, w)) = some (set_d m k w)

-- The cleanup of `dispatch_thread`, from slot `j` on: a component is removed from the dispatcher of
-- the thread that it was added to. The weak compare-exchange is taken to succeed.
unfoldable pub cleanup : (fuel : ℕ) → Components → (rounds k j : ℕ) → CompMgr → Option CompMgr
cleanup fuel cs zero k j m = some m
cleanup fuel cs (suc rounds) k j m =
    let comp = m.comps (m.slots k j) in
    let t = (m.info comp).dtp in
    let removed =
      after_rmv (set_comp m (m.slots k j) null) t (Slots.rmv_comp fuel cs (m.d t) comp) in
    and_then (if comp == null then some m else removed) (λ m'. cleanup fuel cs rounds k (j + 1) m')

abbrev pub with_d : CompMgr → (k : ℕ) → Option World → Option CompMgr
with_d m k none = none
with_d m k (some w) = some (set_d m k w)

-- A thread that is told to stop: the cleanup, then `AcDispatcher_ret`.
unfoldable pub stop_thread : (fuel : ℕ) → Components → (k : ℕ) → CompMgr → Option CompMgr
unfolding cleanup
stop_thread fuel cs k m =
    let stopped = record m { thread_started = update m.thread_started k false } in
    and_then (cleanup fuel cs (m.max_comps k) k 0 stopped)
      (λ m'. with_d m' k (Slots.ret fuel cs (m'.d k)))

-- The loop of deinit, from thread `k` on.
unfoldable pub stop_from : (fuel : ℕ) → Components → (rounds k : ℕ) → CompMgr → Option CompMgr
unfolding stop_thread
stop_from fuel cs zero k m = some m
stop_from fuel cs (suc rounds) k m =
    and_then (if m.thread_started k then stop_thread fuel cs k m else some m)
      (λ m'. stop_from fuel cs rounds (k + 1) m')

abbrev pub freed : Option CompMgr → Option CompMgr
freed none = none
freed (some m) = some (record m { has_dtps = false })

-- `AcCompMgr_deinit`; none is a read through a NULL `dtps`, or a run out of fuel.
unfoldable pub deinit : (fuel : ℕ) → Components → CompMgr → Option CompMgr
unfolding stop_from
deinit fuel cs m =
    if m.has_dtps || m.max_dtps == 0 then freed (stop_from fuel cs m.max_dtps 0 m) else none

-- Whether the allocations and the thread creations of init succeed; and the new dispatchers.
pub record Chances : Type 0 where
  pub dtps : Bool
  pub comps : Bool
  pub dtp_comps : ℕ → Bool
  pub thread : ℕ → Bool
  pub dispatcher : ℕ → World

-- One round of init before the thread is created: `comp_idx` is left at the last index.
abbrev pub set_up : (max_comps k : ℕ) → CompMgr → CompMgr
set_up max_comps k m = record m {
  max_comps = update m.max_comps k max_comps;
  slots = update m.slots k (λ j. u32 (u32 (k * max_comps) + j));
  comp_idx = update m.comp_idx k (u32 (u32 (k * max_comps) + (max_comps - 1)));
}

unfoldable pub start_from : Chances → (max_comps rounds k : ℕ) → CompMgr → Status × CompMgr
start_from ch max_comps zero k m = (ok, m)
start_from ch max_comps (suc rounds) k m =
    let ready = set_up max_comps k m in
    let started = record ready {
      thread_started = update m.thread_started k true;
      d = update m.d k (ch.dispatcher k);
    } in
    let rest = start_from ch max_comps rounds (k + 1) started in
    if ch.dtp_comps k then (if ch.thread k then rest else (err, ready)) else (err, m)

abbrev pub or_deinit : (fuel : ℕ) → Components → Status × CompMgr → Option (Status × CompMgr)
or_deinit fuel cs (ok, m) = some (ok, record m { next_dtps = 0 })
or_deinit fuel cs (s, m) = elim (deinit fuel cs m) [ none ↦ none | some m' ↦ some (s, m') ]

-- The manager's fields after `ac_memset` and the assignments that follow it.
abbrev pub blank : (max_dtps : ℕ) → CompMgr → CompMgr
blank max_dtps m = record m {
  has_dtps = false;
  max_dtps = max_dtps;
  next_dtps = 0;
  comps_max_count = 0;
  comps = λ _. null;
  max_comps = λ _. 0;
  thread_started = λ _. false;
}

-- `AcCompMgr_init`
unfoldable pub init :
    (fuel : ℕ)
    → Components
    → Chances
    → (max_threads max_comps : ℕ) → CompMgr
    → Option (Status × CompMgr)
unfolding start_from deinit
init fuel cs ch max_threads max_comps m =
    let m0 = blank max_threads m in
    let m1 = record m0 { has_dtps = true } in
    let m2 = record m1 { comps_max_count = u32 (max_threads * max_comps) } in
    or_deinit fuel cs (
      if max_threads == 0 || max_comps == 0
      then (bad_param, m0)
      else (if ch.dtps
          then (if ch.comps then start_from ch max_comps max_threads 0 m2 else (out_of_memory, m2))
          else (out_of_memory, m0)))
