-- ===== src/PageTable/Tests.antt =====
-- Page tables that begin at 16 MB, and the theorems on page tables at them.
use sadie.Prelude.{ℕ, ◌+◌, ◌*◌, ◌^◌, ◌≡◌, ◌<◌, ◌⊎◌, refl, arith, some}
use sadie.Word.{null}
use sadie.PageTable.{
  cleared, Pages, mapped, reset, map_loop, ended, page_table_map_lin_to_phy, init_phylin_4k_pages,
}
use sadie.PageTable.Covers.{total, map_loop-covers}
use sadie.PageTable.Walk.{walk, map_lin_to_phy-walk}

abbrev none_used : Pages
none_used = record { stack = λ i. 16777216 + i * 4096; top = 0; tables = λ _ _. cleared }

-- One 2 MB page and two pages of 4096 bytes.
map_loop-covers_example :
    (map_loop 515 16777216 2097152 2097152 2105344 1 none_used ≡ reset)
    ⊎ ((a : ℕ) × (b : ℕ) × (c : ℕ) × (s' : Pages) × (map_loop 515 16777216 2097152 2097152 2105344 1
            none_used
          ≡ mapped a b c s')
        × (total a b c ≡ 2105344))
map_loop-covers_example =
    map_loop-covers 515 16777216 2097152 2097152 2105344 1 none_used refl (omega arith)

map_lin_to_phy-walk_example :
    (s' : Pages) × (page_table_map_lin_to_phy 2 null 753664 753664 4096 1
        (init_phylin_4k_pages 16777216 none_used)
      ≡ ended 16777216 (mapped 0 0 1 s'))
    × ((o : ℕ) → o < 2 ^ 12 → walk s'.tables 16777216 (753664 + o) ≡ some (753664 + o))
map_lin_to_phy-walk_example =
    map_lin_to_phy-walk 0 16777216 753664 753664 1 none_used refl (omega arith) (omega arith) refl
      (omega arith) refl (omega arith) (omega arith)
