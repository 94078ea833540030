-- ===== src/ArmThreads/Agree.antt =====
-- The scheduler of armv6 picks the thread that the one of x86 picks.
use sadie.Prelude.{
  ℕ, zero, suc, ◌≡◌, false, Option, none, some, Option-cases, inl, inr, refl, ap, ◌∙◌,
}
use sadie.Word.{null}
use sadie.WaitHeap.{write, peek}
use sadie.Threads.{Threads, zombie}
use sadie.Threads
use sadie.Threads.Schedule.{start_slice-quiet}
use sadie.ArmThreads.{ArmThreads, skip_zombies, follow, thread_scheduler}
use mathlib.Core.Option

-- The two systems have the same threads.
pub record IsSame (t : Threads) (a : ArmThreads) : Type 0 where
  pub next : (p : ℕ) → a.next p ≡ t.next p
  pub ids : (p : ℕ) → a.thread_id p ≡ t.thread_id p
  pub idle : a.idle ≡ t.pidle
  pub run : a.pready ≡ t.pready

skip_zombies-same :
    (fuel : ℕ) (t : Threads) (a : ArmThreads) (p : ℕ)
    → IsSame t a
    → skip_zombies fuel a p ≡ Threads.skip_zombies fuel t p
unfolding skip_zombies Threads.skip_zombies
skip_zombies-same zero t a p s = refl
skip_zombies-same (suc fuel) t a p s =
    rw (s.next p, s.ids p, skip_zombies-same fuel t a (t.next p) s)

follow-same :
    (fuel : ℕ) (t : Threads) (a : ArmThreads) (o : Option ℕ)
    → IsSame t a
    → follow fuel a o ≡ Threads.follow fuel t o
unfolding follow Threads.follow
follow-same fuel t a none s = refl
follow-same fuel t a (some p) s = rw (s.next p, skip_zombies-same fuel t a (t.next p) s, s.idle)

-- On the same threads, while nobody waits for a time on x86, a yield runs the same thread on both.
pub thread_scheduler-same :
    (fuel sp ss now : ℕ) (t : Threads) (a : ArmThreads)
    → IsSame t a
    → peek t.waiting ≡ null
    → Option.map (λ r. r.1.pready) (thread_scheduler fuel sp a)
      ≡ Option.map (λ t'. t'.pready) (Threads.thread_scheduler fuel false sp ss now t)
unfolding thread_scheduler Threads.thread_scheduler
thread_scheduler-same fuel sp ss now t a s quiet =
    let st : Threads = record t { sp = write t.sp t.pready sp; ss = write t.ss t.pready ss } in
    let sa : ArmThreads = record a { sp = write a.sp a.pready sp } in
    let same : IsSame st sa = record { next = s.next; ids = s.ids; idle = s.idle; run = s.run } in
    let first =
      skip_zombies-same fuel st sa (a.next a.pready) same
      ∙ ap (Threads.skip_zombies fuel st) (s.next a.pready ∙ ap t.next s.run) in
    let both = ap (follow fuel sa) first ∙ follow-same fuel st sa _ same in
    elim (Option-cases (Threads.follow fuel st (Threads.next_tcb fuel st t.pready))) [
      | inl lost ↦ rw (both, lost)
      | inr (q, found) ↦ rw (both, found, start_slice-quiet st q now quiet)
    ]
