-- ===== src/Threads/Fair.antt =====
-- Yields run every ready thread in its turn.
use sadie.Prelude.{
  ℕ, zero, suc, ◌+◌, ◌≤◌, ◌≡◌, ◌≢◌, ◌<◌, ◌⊎◌, inl, inr, List, [], ◌∷◌, ◌++◌, arith, ◌==◌,
  if◌then◌else◌, length, length-append, refl, false, true, Bool-cases, Option, some, ap, ◌∙◌,
}
use sadie.Word.{null}
use sadie.WaitHeap.{peek}
use sadie.Threads.{Threads, zombie, thread_scheduler}
use sadie.Threads.Ring.{IsRing}
use sadie.Threads.Turn.{all_passed}
use sadie.Threads.Schedule.{thread_scheduler-picks}
use mathlib.Core.List.{append_assoc}
use mathlib.Core.Option

-- So many yields, each by the thread that then runs, the i-th at the time `now i`.
abbrev pub yields : (fuel sp ss : ℕ) → (now : ℕ → ℕ) → (k : ℕ) → Threads → Option Threads
yields fuel sp ss now zero t = some t
yields fuel sp ss now (suc k) t =
    Option.bind (thread_scheduler fuel false sp ss (now 0) t)
      (yields fuel sp ss (λ i. now (suc i)) k)

all_passed-split :
    (id : ℕ → ℕ) (idle : ℕ) (xs : List ℕ)
    → (all_passed id idle xs ≡ true)
      ⊎ ((ps : List ℕ) × (q : ℕ) × (qs : List ℕ) × (xs ≡ ps ++ (q ∷ qs))
          × (all_passed id idle ps ≡ true)
          × (id q ≢ zombie)
          × (q ≢ idle))
all_passed-split id idle [] = inl refl
all_passed-split id idle (x ∷ xs) = elim (Bool-cases (if id x == zombie then true else x == idle)) [
  | inl passed ↦ elim (all_passed-split id idle xs) [
    | inl all ↦ inl (ground arith)
    | inr (ps, q, qs, e, before, live, real) ↦
        inr (x ∷ ps, q, qs, ap (λ l. x ∷ l) e, ground arith, live, real)
  ]
  | inr here ↦ inr ([], x, xs, refl, refl, ground arith, ground arith)
]

-- While nobody waits for a time, a thread on the ring that is neither a zombie nor the idle one runs
-- after at most as many yields as its place on the ring counts.
pub yields-reach :
    (n fuel sp ss : ℕ) (now : ℕ → ℕ) (t : Threads) (r : ℕ) (ys zs : List ℕ)
    → IsRing t t.pready (ys ++ (r ∷ zs))
    → t.thread_id r ≢ zombie
    → r ≢ t.pidle
    → t.thread_id t.pidle ≢ zombie
    → peek t.waiting ≡ null
    → length ys < n
    → n ≤ fuel
    → (k : ℕ) × (k ≤ n) × (t' : Threads) × (yields fuel sp ss now k t ≡ some t') × (t'.pready ≡ r)
unfolding Option.bind
yields-reach zero fuel sp ss now t r ys zs ring live real idle_live quiet place enough =
    absurd (omega arith)
yields-reach (suc n) fuel sp ss now t r ys zs ring live real idle_live quiet place enough =
    elim (all_passed-split t.thread_id t.pidle ys) [
      | inl passed ↦
          let p =
            thread_scheduler-picks fuel sp ss (now 0) t r ys zs ring passed live real idle_live
              quiet (omega arith) in
          (1, omega arith, p.0, rw p.1, p.2)
      | inr (ps, q, qs, e, passed, q_live, q_real) ↦
          let ring' : IsRing t t.pready (ps ++ (q ∷ (qs ++ (r ∷ zs)))) =
            rw (ap (λ l. l ++ (r ∷ zs)) e ∙ append_assoc ps (q ∷ qs) (r ∷ zs)) at ring in
          let size : length ys ≡ length ps + suc (length qs) =
            ap length e ∙ length-append ps (q ∷ qs) in
          let (t', runs, first, ring_q, timer, ids, idle, heap) =
            thread_scheduler-picks fuel sp ss (now 0) t q ps (qs ++ (r ∷ zs)) ring' passed q_live
              q_real idle_live quiet (omega arith) in
          let (k, few, t'', e'', there) =
            yields-reach n fuel sp ss (λ i. now (suc i)) t' r qs (zs ++ (t.pready ∷ ps))
              (rw first (rw (append_assoc qs (r ∷ zs) (t.pready ∷ ps)) at ring_q)) (rw ids live)
              (rw idle real) (rw (ids, idle) idle_live) (rw heap quiet) (omega arith)
              (omega arith) in
          (suc k, omega arith, t'', rw runs e'', there)
    ]
