-- ===== src/WaitHeap/Remove.antt =====
-- Removing takes the root away, whose deadline is the earliest, and keeps the order.
use sadie.Prelude.{
  ℕ, zero, suc, ◌+◌, ◌-◌, ◌*◌, ◌/◌, ◌≤◌, ◌<◌, ◌≡◌, refl, ◌∙◌, true, false, arith, ◌==◌, ltb,
  Bool-cases, inl, inr, ℕ_discrete,
}
use sadie.WaitHeap.{WaitingTcbs, write, swap_nodes, smaller_child, sink, peek, remove}
use sadie.WaitHeap.Count.{one_if, times, times-write_root, times-swap_nodes}
use sadie.WaitHeap.Order.{
  IsHeap, IsSinking, smaller_child-IsSmaller, swap_nodes-IsSinking, root_least,
}

sink-IsHeap :
    (fuel : ℕ) (d tcbs : ℕ → ℕ) (num i : ℕ)
    → num < fuel + i
    → 0 < i
    → IsSinking d tcbs num i
    → IsHeap d (sink fuel d tcbs num i) num
unfolding sink
sink-IsHeap zero d tcbs num i f pos v c lo le = v.edges c lo le (omega arith)
sink-IsHeap (suc fuel) d tcbs num i f pos v c lo le = elim (Bool-cases (ltb i num)) [
  | inr leaf ↦ rw leaf (v.edges c lo le (ground arith))
  | inl inner ↦ elim (Bool-cases (ltb num (i * 2))) [
    | inl childless ↦ rw (inner, childless) (v.edges c lo le (ground arith))
    | inr parent ↦
        let m = smaller_child d tcbs num i in
        let s = smaller_child-IsSmaller d tcbs num i (ground arith) in
        elim (Bool-cases (ltb (d (tcbs m)) (d (tcbs i)))) [
          | inr settled ↦
              rw (inner, parent, settled)
                (elim (ℕ_discrete (c / 2) i) [
                  | yes here ↦
                      let kept : d (tcbs i) ≤ d (tcbs m) = ground arith in
                      rw here (omega (arith, kept, s.least c lo le here))
                  | no other ↦ v.edges c lo le other
                ])
          | inl below ↦
              rw (inner, parent, below)
                (sink-IsHeap fuel d (swap_nodes tcbs i m) num m (omega (arith, s))
                  (omega (arith, s)) (swap_nodes-IsSinking d tcbs num i m v pos s (ground arith)) c
                  lo le)
        ]
  ]
]

times-sink :
    (fuel : ℕ) (d tcbs : ℕ → ℕ) (a num i : ℕ)
    → 0 < i
    → times (sink fuel d tcbs num i) a num ≡ times tcbs a num
unfolding sink
times-sink zero d tcbs a num i pos = refl
times-sink (suc fuel) d tcbs a num i pos = elim (Bool-cases (ltb i num)) [
  | inr leaf ↦ rw leaf
  | inl inner ↦ elim (Bool-cases (ltb num (i * 2))) [
    | inl childless ↦ rw (inner, childless)
    | inr parent ↦
        let m = smaller_child d tcbs num i in
        let s = smaller_child-IsSmaller d tcbs num i (ground arith) in
        elim (Bool-cases (ltb (d (tcbs m)) (d (tcbs i)))) [
          | inr settled ↦ rw (inner, parent, settled)
          | inl below ↦
              let same =
                times-swap_nodes tcbs a num i m pos (ground arith) (omega (arith, s)) s.inside in
              rw (inner, parent, below)
                (times-sink fuel d (swap_nodes tcbs i m) a num m (omega (arith, s)) ∙ same)
        ]
  ]
]

-- The root of a heap that is not empty has the earliest deadline of all that wait; peek returns it,
-- and remove leaves a heap of the others.
pub remove-IsHeap :
    (d : ℕ → ℕ) (w : WaitingTcbs)
    → IsHeap d w.tcbs w.num
    → 0 < w.num
    → (peek w ≡ w.tcbs 1)
      × ((i : ℕ) → 0 < i → i ≤ w.num → d (peek w) ≤ d (w.tcbs i))
      × IsHeap d (remove d w).tcbs (remove d w).num
      × ((remove d w).num + 1 ≡ w.num)
      × ((a : ℕ)
          → times (remove d w).tcbs a (remove d w).num + one_if (peek w) a ≡ times w.tcbs a w.num)
unfolding peek remove
remove-IsHeap d w order some_wait =
    let num = w.num - 1 in
    let replaced = write w.tcbs 1 (w.tcbs w.num) in
    let t : ltb 0 w.num ≡ true = ground arith in
    let t' : (w.num == 0) ≡ false = ground arith in
    let e : w.num ≡ suc num = omega arith in
    let v : IsSinking d replaced num 1 = record {
      edges = λ c lo hi ne. ground (arith, order c);
      across = λ c lo hi e up. absurd (omega arith);
    } in
    rw (t, t')
      (
        refl,
        λ i lo hi. root_least (suc i) d w.tcbs w.num i order (omega arith) lo hi,
        sink-IsHeap num d replaced num 1 (omega arith) (omega arith) v,
        omega arith,
        λ a. omega (
          arith,
          times-sink num d replaced a num 1 (omega arith),
          times-write_root w.tcbs a num w.num e,
        ),
      )
