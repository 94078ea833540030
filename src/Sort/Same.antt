-- ===== src/Sort/Same.antt =====
-- The sorted list has the keys of the list, each as often as before.
use sadie.Prelude.{
  ℕ, zero, suc, ◌+◌, ◌-◌, ◌≤◌, ◌<◌, ◌≡◌, Bool, arith, ltb, Bool-cases, inl, inr, refl,
}
use sadie.WaitHeap.{write, swap_nodes}
use sadie.WaitHeap.Count.{one_if}
use sadie.Sort.{sort_inner, sort_outer, ac_sort_by_idx}
use sadie.Sort.Order.{ac_sort_by_idx_in_order}

-- How many of the indexes under `n` have the key `a`.
unfoldable pub occurs : (keys : ℕ → ℕ) → (a n : ℕ) → ℕ
occurs keys a zero = 0
occurs keys a (suc n) = occurs keys a n + one_if (keys n) a

occurs_ext : (f g : ℕ → ℕ) (a n : ℕ) → ((i : ℕ) → f i ≡ g i) → occurs f a n ≡ occurs g a n
unfolding occurs
occurs_ext f g a zero same = refl
occurs_ext f g a (suc n) same = rw (occurs_ext f g a n same) (rw (same n) refl)

occurs-write_past :
    (keys : ℕ → ℕ) (a n i v : ℕ) → n ≤ i → occurs (write keys i v) a n ≡ occurs keys a n
unfolding occurs
occurs-write_past keys a zero i v le = refl
occurs-write_past keys a (suc n) i v le = ground (arith, occurs-write_past keys a n i v)

occurs-write :
    (keys : ℕ → ℕ) (a n i v : ℕ)
    → i < n
    → occurs (write keys i v) a n + one_if (keys i) a ≡ occurs keys a n + one_if v a
unfolding occurs
occurs-write keys a zero i v hi = absurd (omega arith)
occurs-write keys a (suc n) i v hi =
    ground (arith, occurs-write keys a n i v, occurs-write_past keys a n i v)

occurs-swap_nodes :
    (keys : ℕ → ℕ) (a n i j : ℕ)
    → i < n
    → j < n
    → occurs (swap_nodes keys i j) a n ≡ occurs keys a n
occurs-swap_nodes keys a n i j hi hi' =
    ground
      (arith, occurs-write keys a n j (keys i), occurs-write (write keys j (keys i)) a n i (keys j))

module _ {ℓ} {A : Type ℓ} (above : A → ℕ → ℕ → Bool) (swap : A → ℕ → ℕ → A) (key : A → ℕ → ℕ)
    (above_keys : (l : A) (i j : ℕ) → above l i j ≡ ltb (key l j) (key l i))
    (swap_keys : (l : A) (i j a : ℕ) → key (swap l i j) a ≡ swap_nodes (key l) i j a) where
  occurs-swap :
      (l : A) (a n i j : ℕ) → i < n → j < n → occurs (key (swap l i j)) a n ≡ occurs (key l) a n
  occurs-swap l a n i j hi hi' =
      rw (occurs_ext (key (swap l i j)) (swap_nodes (key l) i j) a n (swap_keys l i j))
        (occurs-swap_nodes (key l) a n i j hi hi')

  occurs-sort_inner :
      (left o i count a : ℕ) (l : A)
      → i + left ≡ count
      → o < i
      → occurs (key (sort_inner above swap left o i l)) a count ≡ occurs (key l) a count
  unfolding sort_inner
  occurs-sort_inner zero o i count a l ends after = refl
  occurs-sort_inner (suc left) o i count a l ends after = elim (Bool-cases (above l o i)) [
    | inl larger ↦ rw larger (
        rw (occurs-sort_inner left o (i + 1) count a (swap l o i) (omega arith) (omega arith))
          (occurs-swap l a count o i (omega arith) (omega arith)))
    | inr smaller ↦
        rw smaller (occurs-sort_inner left o (i + 1) count a l (omega arith) (omega arith))
  ]

  occurs-sort_outer :
      (left o count a : ℕ) (l : A)
      → o + left ≡ count
      → occurs (key (sort_outer above swap left o count l)) a count ≡ occurs (key l) a count
  unfolding sort_outer
  occurs-sort_outer zero o count a l ends = refl
  occurs-sort_outer (suc left) o count a l ends =
      rw
        (occurs-sort_outer left (o + 1) count a
          (sort_inner above swap (count - (o + 1)) o (o + 1) l) (omega arith))
        (occurs-sort_inner (count - (o + 1)) o (o + 1) count a l (omega arith) (omega arith))

  -- For a comparison and an exchange by index that compare and exchange keys, the keys of the first
  -- `count` elements are in order after the sort, and each of them occurs as often as before.
  pub ac_sort_by_idx-IsSorted :
      (count : ℕ) (l : A)
      → ((i j : ℕ)
          → i < j
          → j < count
          → key (ac_sort_by_idx above swap count l) i ≤ key (ac_sort_by_idx above swap count l) j)
        × ((a : ℕ)
            → occurs (key (ac_sort_by_idx above swap count l)) a count ≡ occurs (key l) a count)
  unfolding ac_sort_by_idx
  ac_sort_by_idx-IsSorted count l = (
    ac_sort_by_idx_in_order above swap key above_keys swap_keys count l,
    λ a. occurs-sort_outer count 0 count a l (omega arith),
  )
