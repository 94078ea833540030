-- ===== src/Sort/Tests.antt =====
-- Lists of three numbers.
use sadie.Prelude.{ℕ, ◌≤◌, ◌<◌, ◌≡◌, Bool, refl, ◌==◌, ltb, if◌then◌else◌}
use sadie.WaitHeap.{swap_nodes}
use sadie.Sort.{sort_inner, sort_outer, ac_sort_by_idx}
use sadie.Sort.Same.{occurs, ac_sort_by_idx-IsSorted}

abbrev three : ℕ → ℕ
three = λ i. if i == 0 then 8 else (if i == 1 then 5 else 2)

abbrev larger : (ℕ → ℕ) → ℕ → ℕ → Bool
larger l i j = ltb (l j) (l i)

ac_sort_by_idx_first : ac_sort_by_idx larger swap_nodes 3 three 0 ≡ 2
unfolding ac_sort_by_idx sort_outer sort_inner
ac_sort_by_idx_first = refl

ac_sort_by_idx-IsSorted_example :
    ((i j : ℕ)
      → i < j
      → j < 3
      → ac_sort_by_idx larger swap_nodes 3 three i ≤ ac_sort_by_idx larger swap_nodes 3 three j)
    × ((a : ℕ) → occurs (ac_sort_by_idx larger swap_nodes 3 three) a 3 ≡ occurs three a 3)
ac_sort_by_idx-IsSorted_example =
    ac_sort_by_idx-IsSorted larger swap_nodes (λ l. l) (λ l i j. refl) (λ l i j a. refl) 3 three
