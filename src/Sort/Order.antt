-- ===== src/Sort/Order.antt =====
-- The list is in order after the sort.
use sadie.Prelude.{ℕ, zero, suc, ◌+◌, ◌-◌, ◌≤◌, ◌<◌, ◌≡◌, Bool, arith, ltb, Bool-cases, inl, inr}
use sadie.WaitHeap.{swap_nodes}
use sadie.Sort.{sort_inner, sort_outer, ac_sort_by_idx}

-- A caller's comparison and exchange, over lists whose elements have keys by index: `above` compares
-- keys, and `swap` exchanges the keys of two indexes.
module _ {ℓ} {A : Type ℓ} (above : A → ℕ → ℕ → Bool) (swap : A → ℕ → ℕ → A) (key : A → ℕ → ℕ)
    (above_keys : (l : A) (i j : ℕ) → above l i j ≡ ltb (key l j) (key l i))
    (swap_keys : (l : A) (i j a : ℕ) → key (swap l i j) a ≡ swap_nodes (key l) i j a) where
  -- The keys before `o` are in order, and not above any later one.
  abbrev pub IsSorted : (o count : ℕ) → A → Type 0
  IsSorted o count l = (i j : ℕ) → i < o → i < j → j < count → key l i ≤ key l j

  sort_inner-IsSorted :
      (left o i count : ℕ) (l : A)
      → i + left ≡ count
      → o < i
      → IsSorted o count l
      → ((j : ℕ) → o < j → j < i → key l o ≤ key l j)
      → IsSorted (o + 1) count (sort_inner above swap left o i l)
  unfolding sort_inner
  sort_inner-IsSorted zero o i count l ends after before least a b lo lt hi =
      ground (arith, before a b, least b)
  sort_inner-IsSorted (suc left) o i count l ends after before least a b lo lt hi =
      elim (Bool-cases (above l o i)) [
        | inl larger ↦
            let less : key l i < key l o = ground (arith, above_keys l o i) in
            rw larger (
              sort_inner-IsSorted left o (i + 1) count (swap l o i) (omega arith) (omega arith)
                (λ c d lo' lt' hi'.
                  ground (
                    arith,
                    swap_keys l o i c,
                    swap_keys l o i d,
                    before c d,
                    before c o,
                    before c i,
                  ))
                (λ j lo' hi'. ground (arith, swap_keys l o i o, swap_keys l o i j, least j)) a b lo
                lt hi)
        | inr smaller ↦
            let more : key l o ≤ key l i = ground (arith, above_keys l o i) in
            rw smaller (
              sort_inner-IsSorted left o (i + 1) count l (omega arith) (omega arith) before
                (λ j lo' hi'. ground (arith, least j)) a b lo lt hi)
      ]

  sort_outer-IsSorted :
      (left o count : ℕ) (l : A)
      → o + left ≡ count
      → IsSorted o count l
      → IsSorted count count (sort_outer above swap left o count l)
  unfolding sort_outer
  sort_outer-IsSorted zero o count l ends before a b lo lt hi = before a b (omega arith) lt hi
  sort_outer-IsSorted (suc left) o count l ends before a b lo lt hi =
      sort_outer-IsSorted left (o + 1) count _ (omega arith)
        (sort_inner-IsSorted (count - (o + 1)) o (o + 1) count l (omega arith) (omega arith) before
          (λ j lo' hi'. absurd (omega arith)))
        a b lo lt hi

  pub ac_sort_by_idx_in_order :
      (count : ℕ) (l : A) (i j : ℕ)
      → i < j
      → j < count
      → key (ac_sort_by_idx above swap count l) i ≤ key (ac_sort_by_idx above swap count l) j
  unfolding ac_sort_by_idx
  ac_sort_by_idx_in_order count l i j lt hi =
      sort_outer-IsSorted count 0 count l (omega arith) (λ a b lo' lt' hi'. absurd (omega arith)) i
        j (omega arith) lt hi
