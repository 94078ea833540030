-- ===== src/Sort.antt =====
-- `ac_sort_by_idx` of libs/ac_sort: a list is sorted through a comparison and an exchange by index,
-- which the caller gives.
pub mod Order
pub mod Same
mod Tests
use sadie.Prelude.{ℕ, zero, suc, ◌+◌, ◌-◌, Bool, if◌then◌else◌}

-- The parameters of a call: the type of lists, whether `compare` of two indexes is over 0, and `swap`.
module _ {ℓ} {A : Type ℓ} (above : A → ℕ → ℕ → Bool) (swap : A → ℕ → ℕ → A) where
  -- The inner loop, for `left` indexes from `i_idx` on.
  unfoldable pub sort_inner : (left o_idx i_idx : ℕ) → A → A
  sort_inner zero o i list = list
  sort_inner (suc left) o i list =
      sort_inner left o (i + 1) (if above list o i then swap list o i else list)

  -- The outer loop, for `left` indexes from `o_idx` on, of a list of `count`.
  unfoldable pub sort_outer : (left o_idx count : ℕ) → A → A
  unfolding sort_inner
  sort_outer zero o count list = list
  sort_outer (suc left) o count list =
      sort_outer left (o + 1) count (sort_inner (count - (o + 1)) o (o + 1) list)

  -- `ac_sort_by_idx`
  unfoldable pub ac_sort_by_idx : (count : ℕ) → A → A
  unfolding sort_outer
  ac_sort_by_idx count list = sort_outer count 0 count list
