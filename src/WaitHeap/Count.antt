-- ===== src/WaitHeap/Count.antt =====
-- How often a tcb stands in the heap.
use sadie.Prelude.{ℕ, zero, suc, ◌+◌, ◌≤◌, ◌<◌, ◌≡◌, ◌≢◌, refl, arith, ◌==◌, if◌then◌else◌}
use sadie.WaitHeap.{write, swap_nodes}

abbrev pub one_if : ℕ → ℕ → ℕ
one_if a b = if a == b then 1 else 0

-- Among the entries 1 to `n`.
unfoldable pub times : (tcbs : ℕ → ℕ) → (a n : ℕ) → ℕ
times tcbs a zero = 0
times tcbs a (suc n) = times tcbs a n + one_if (tcbs (suc n)) a

pub times-write_past :
    (tcbs : ℕ → ℕ) (a n i v : ℕ) → n < i → times (write tcbs i v) a n ≡ times tcbs a n
unfolding times
times-write_past tcbs a zero i v lt = refl
times-write_past tcbs a (suc n) i v lt = ground (arith, times-write_past tcbs a n i v)

pub times-write :
    (tcbs : ℕ → ℕ) (a n i v : ℕ)
    → 0 < i
    → i ≤ n
    → times (write tcbs i v) a n + one_if (tcbs i) a ≡ times tcbs a n + one_if v a
unfolding times
times-write tcbs a zero i v lo hi = absurd (omega arith)
times-write tcbs a (suc n) i v lo hi =
    ground (arith, times-write tcbs a n i v, times-write_past tcbs a n i v)

pub times-swap_nodes :
    (tcbs : ℕ → ℕ) (a n i j : ℕ)
    → 0 < i
    → i ≤ n
    → 0 < j
    → j ≤ n
    → times (swap_nodes tcbs i j) a n ≡ times tcbs a n
times-swap_nodes tcbs a n i j lo hi lo' hi' =
    ground
      (arith, times-write tcbs a n j (tcbs i), times-write (write tcbs j (tcbs i)) a n i (tcbs j))

-- A tcb that does not stand in the heap is none of its entries.
pub times-eq-zero : (tcbs : ℕ → ℕ) (a n i : ℕ) → times tcbs a n ≡ 0 → 0 < i → i ≤ n → tcbs i ≢ a
unfolding times
times-eq-zero tcbs a zero i e lo hi = absurd (omega arith)
times-eq-zero tcbs a (suc n) i e lo hi = ground (arith, times-eq-zero tcbs a n i)

pub times-write_next :
    (tcbs : ℕ → ℕ) (a n v : ℕ)
    → times (write tcbs (n + 1) v) a (n + 1) ≡ times tcbs a n + one_if v a
unfolding times
times-write_next tcbs a n v =
    let e : n + 1 ≡ suc n = omega arith in
    rw e (ground (arith, times-write_past tcbs a n (suc n) v))

-- The last entry takes the place of the first.
times-write_first :
    (tcbs : ℕ → ℕ) (a n : ℕ)
    → times (write tcbs 1 (tcbs (suc n))) a n + one_if (tcbs 1) a ≡ times tcbs a (suc n)
unfolding times
times-write_first tcbs a zero = refl
times-write_first tcbs a (suc n) =
    times-write tcbs a (suc n) 1 (tcbs (suc (suc n))) (omega arith) (omega arith)

pub times-write_root :
    (tcbs : ℕ → ℕ) (a n k : ℕ)
    → k ≡ suc n
    → times (write tcbs 1 (tcbs k)) a n + one_if (tcbs 1) a ≡ times tcbs a k
times-write_root tcbs a n k e = rw e (times-write_first tcbs a n)
