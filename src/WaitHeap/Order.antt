-- ===== src/WaitHeap/Order.antt =====
-- The order of the heap: a parent's deadline is not after its child's.
use sadie.Prelude.{ℕ, zero, suc, ◌+◌, ◌*◌, ◌/◌, ◌≤◌, ◌<◌, ◌≡◌, ◌≢◌, ◌⊎◌, inl, inr, arith}
use sadie.WaitHeap.{swap_nodes, smaller_child}

abbrev pub IsHeap : (deadline tcbs : ℕ → ℕ) → (num : ℕ) → Type 0
IsHeap d tcbs num = (c : ℕ) → 2 ≤ c → c ≤ num → d (tcbs (c / 2)) ≤ d (tcbs c)

-- Only the edge above `i` may be out of order.
pub record IsRising (d tcbs : ℕ → ℕ) (num i : ℕ) : Type 0 where
  pub edges : (c : ℕ) → 2 ≤ c → c ≤ num → c ≢ i → d (tcbs (c / 2)) ≤ d (tcbs c)
  pub across : (c : ℕ) → 2 ≤ c → c ≤ num → c / 2 ≡ i → 2 ≤ i → d (tcbs (i / 2)) ≤ d (tcbs c)

-- Only the edges below `i` may be out of order.
pub record IsSinking (d tcbs : ℕ → ℕ) (num i : ℕ) : Type 0 where
  pub edges : (c : ℕ) → 2 ≤ c → c ≤ num → c / 2 ≢ i → d (tcbs (c / 2)) ≤ d (tcbs c)
  pub across : (c : ℕ) → 2 ≤ c → c ≤ num → c / 2 ≡ i → 2 ≤ i → d (tcbs (i / 2)) ≤ d (tcbs c)

pub swap_nodes-IsRising :
    (d tcbs : ℕ → ℕ) (num i : ℕ)
    → IsRising d tcbs num i
    → 1 < i
    → i ≤ num
    → d (tcbs i) < d (tcbs (i / 2))
    → IsRising d (swap_nodes tcbs i (i / 2)) num (i / 2)
swap_nodes-IsRising d tcbs num i v above inside below = record {
  edges = λ c lo hi ne. ground (arith, v.edges c, v.edges i, v.across c);
  across = λ c lo hi e up. ground (arith, v.edges c, v.edges (i / 2));
}

-- What the loop of remove picks.
pub record IsSmaller (d tcbs : ℕ → ℕ) (num i m : ℕ) : Type 0 where
  pub inside : m ≤ num
  pub child : (m ≡ i * 2) ⊎ (m ≡ i * 2 + 1)
  pub least : (c : ℕ) → 2 ≤ c → c ≤ num → c / 2 ≡ i → d (tcbs m) ≤ d (tcbs c)

pub smaller_child-IsSmaller :
    (d tcbs : ℕ → ℕ) (num i : ℕ) → i * 2 ≤ num → IsSmaller d tcbs num i (smaller_child d tcbs num i)
smaller_child-IsSmaller d tcbs num i h = record {
  inside = ground arith;
  child = ground arith;
  least = λ c lo hi e.
      let which : (c ≡ i * 2) ⊎ (c ≡ i * 2 + 1) = omega arith in
      elim which [ inl l ↦ rw l (ground arith) | inr r ↦ rw r (ground arith) ];
}

pub swap_nodes-IsSinking :
    (d tcbs : ℕ → ℕ) (num i m : ℕ)
    → IsSinking d tcbs num i
    → 0 < i
    → IsSmaller d tcbs num i m
    → d (tcbs m) < d (tcbs i)
    → IsSinking d (swap_nodes tcbs i m) num m
swap_nodes-IsSinking d tcbs num i m v pos s below = record {
  edges = λ c lo hi ne. ground (arith, v.edges c, v.across m, s.least c, s.child);
  across = λ c lo hi e up. ground (arith, v.edges c, s.child);
}

-- The root's deadline is the earliest.
pub root_least :
    (k : ℕ) (d tcbs : ℕ → ℕ) (num i : ℕ)
    → IsHeap d tcbs num
    → i < k
    → 0 < i
    → i ≤ num
    → d (tcbs 1) ≤ d (tcbs i)
root_least zero d tcbs num i h f lo hi = absurd (omega arith)
root_least (suc k) d tcbs num i h f lo hi = ground (arith, h i, root_least k d tcbs num (i / 2) h)
