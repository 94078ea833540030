-- ===== src/WaitHeap/Add.antt =====
-- Adding a tcb keeps the order and adds just that tcb.
use sadie.Prelude.{
  ℕ, zero, suc, ◌+◌, ◌/◌, ◌≤◌, ◌<◌, ◌≡◌, refl, ◌∙◌, true, arith, ltb, leb, Bool-cases, inl, inr,
}
use sadie.WaitHeap.{WaitingTcbs, write, swap_nodes, rise, added, add}
use sadie.WaitHeap.Count.{one_if, times, times-write_next, times-swap_nodes, times-eq-zero}
use sadie.WaitHeap.Order.{IsHeap, IsRising, swap_nodes-IsRising}

rise-IsHeap :
    (fuel : ℕ) (d tcbs : ℕ → ℕ) (num i : ℕ)
    → i ≤ fuel
    → i ≤ num
    → IsRising d tcbs num i
    → IsHeap d (rise fuel d tcbs i) num
unfolding rise
rise-IsHeap zero d tcbs num i f hi v c lo le = v.edges c lo le (omega arith)
rise-IsHeap (suc fuel) d tcbs num i f hi v c lo le = elim (Bool-cases (ltb 1 i)) [
  | inr root ↦ rw root (v.edges c lo le (ground arith))
  | inl inner ↦ elim (Bool-cases (ltb (d (tcbs i)) (d (tcbs (i / 2))))) [
    | inr settled ↦ rw (inner, settled) (ground (arith, v.edges c))
    | inl below ↦
        rw (inner, below)
          (rise-IsHeap fuel d (swap_nodes tcbs i (i / 2)) num (i / 2) (ground arith) (omega arith)
            (swap_nodes-IsRising d tcbs num i v (ground arith) hi (ground arith)) c lo le)
  ]
]

times-rise :
    (fuel : ℕ) (d tcbs : ℕ → ℕ) (a num i : ℕ)
    → i ≤ num
    → times (rise fuel d tcbs i) a num ≡ times tcbs a num
unfolding rise
times-rise zero d tcbs a num i hi = refl
times-rise (suc fuel) d tcbs a num i hi = ground (
  arith,
  times-rise fuel d (swap_nodes tcbs i (i / 2)) a num (i / 2),
  times-swap_nodes tcbs a num i (i / 2),
)

-- With room for it, a tcb that does not wait yet is added with its deadline: the heap stays in
-- order, and holds what it held and the tcb.
pub add-IsHeap :
    (d : ℕ → ℕ) (w : WaitingTcbs) (ptcb tsc : ℕ)
    → IsHeap d w.tcbs w.num
    → times w.tcbs ptcb w.num ≡ 0
    → w.num < w.max
    → w.num + 1 < w.allocated
    → (w' : WaitingTcbs) × (add d w ptcb tsc ≡ added (write d ptcb tsc) w')
      × IsHeap (write d ptcb tsc) w'.tcbs w'.num
      × (w'.num ≡ w.num + 1)
      × ((a : ℕ) → times w'.tcbs a w'.num ≡ times w.tcbs a w.num + one_if ptcb a)
unfolding add
add-IsHeap d w ptcb tsc order out room space =
    let nni = w.num + 1 in
    let placed = write w.tcbs nni ptcb in
    let d' = write d ptcb tsc in
    let t1 : leb nni w.max ≡ true = ground arith in
    let t2 : ltb nni w.allocated ≡ true = ground arith in
    let v : IsRising d' placed nni nni = record {
      edges = λ c lo hi ne. ground (
        arith,
        order c,
        times-eq-zero w.tcbs ptcb w.num c out,
        times-eq-zero w.tcbs ptcb w.num (c / 2) out,
      );
      across = λ c lo hi e up. absurd (omega arith);
    } in
    (
      record w { num = nni; tcbs = rise nni d' placed nni },
      rw (t1, t2),
      rise-IsHeap nni d' placed nni nni (omega arith) (omega arith) v,
      refl,
      λ a. times-rise nni d' placed a nni nni (omega arith) ∙ times-write_next w.tcbs a w.num ptcb,
    )
