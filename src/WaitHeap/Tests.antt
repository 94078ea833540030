-- ===== src/WaitHeap/Tests.antt =====
-- A heap of three threads, and the theorems on heaps at it.
use sadie.Prelude.{ℕ, zero, suc, ◌+◌, ◌≤◌, ◌<◌, ◌≡◌, refl, arith, ◌==◌, if◌then◌else◌}
use sadie.WaitHeap.{WaitingTcbs, write, added, peek, add, sink, remove}
use sadie.WaitHeap.Count.{one_if, times}
use sadie.WaitHeap.Order.{IsHeap}
use sadie.WaitHeap.Add.{add-IsHeap}
use sadie.WaitHeap.Remove.{remove-IsHeap}

-- The tcb's 50, 60 and 70 wait for 5, 9 and 7.
abbrev deadlines : ℕ → ℕ
deadlines t = if t == 50 then 5 else (if t == 60 then 9 else 7)

abbrev three : WaitingTcbs
three = record {
  tcbs = λ i. if i == 1 then 50 else (if i == 2 then 60 else 70);
  allocated = 5;
  max = 5;
  num = 3;
}

three-IsHeap : IsHeap deadlines three.tcbs three.num
three-IsHeap zero lo hi = absurd (omega arith)
three-IsHeap (suc zero) lo hi = absurd (omega arith)
three-IsHeap (suc (suc zero)) lo hi = omega arith
three-IsHeap (suc (suc (suc zero))) lo hi = omega arith
three-IsHeap (suc (suc (suc (suc c)))) lo hi = absurd (omega arith)

-- A thread with an earlier deadline comes to the root.
add-IsHeap_example :
    (w' : WaitingTcbs) × (add deadlines three 80 3 ≡ added (write deadlines 80 3) w')
    × IsHeap (write deadlines 80 3) w'.tcbs w'.num
    × (w'.num ≡ 4)
    × ((a : ℕ) → times w'.tcbs a w'.num ≡ times three.tcbs a three.num + one_if 80 a)
unfolding times
add-IsHeap_example = add-IsHeap deadlines three 80 3 three-IsHeap refl (omega arith) (omega arith)

remove-IsHeap_example :
    (peek three ≡ 50)
    × ((i : ℕ) → 0 < i → i ≤ 3 → deadlines (peek three) ≤ deadlines (three.tcbs i))
    × IsHeap deadlines (remove deadlines three).tcbs (remove deadlines three).num
    × ((remove deadlines three).num + 1 ≡ 3)
    × ((a : ℕ)
        → times (remove deadlines three).tcbs a (remove deadlines three).num + one_if (peek three) a
          ≡ times three.tcbs a 3)
remove-IsHeap_example = remove-IsHeap deadlines three three-IsHeap (omega arith)

peek_after_remove : peek (remove deadlines three) ≡ 70
unfolding peek remove sink
peek_after_remove = refl

-- The array of `init 2`, as it is at the start, after the maximum has been raised to 12.
abbrev full : WaitingTcbs
full = record { tcbs = λ _. 50; allocated = 3; max = 3; num = 2 }
