-- ===== src/PageTable/Flaws.antt =====
-- What page_table_map_lin_to_phy does with the physical address, and free_phylin_4k_page with a page.
use sadie.Prelude.{
  ℕ, zero, suc, ◌+◌, ◌-◌, ◌%◌, ◌^◌, ◌≡◌, ◌≢◌, ◌<◌, ◌⊎◌, inl, inr, refl, arith, true, false, ltb,
  leb, Option-cases,
}
use sadie.Word.{u64}
use sadie.PageTable.{
  Pages, pml1, pml2, offset, bytes, page_size, map_page, map_loop, table_base, refused,
  page_table_map_lin_to_phy, calloc_phylin_4k_page, free_phylin_4k_page,
}

page_size-same :
    (laddr p q size : ℕ) → p % 2 ^ 30 ≡ q % 2 ^ 30 → page_size laddr p size ≡ page_size laddr q size
unfolding page_size
page_size-same laddr p q size h =
    let e1 : pml1 p ≡ pml1 q = omega arith in let e2 : pml2 p ≡ pml2 q = omega arith in rw (e1, e2)

map_loop-same :
    (fuel base laddr p q size caching : ℕ) (s : Pages)
    → p % 2 ^ 30 ≡ q % 2 ^ 30
    → map_loop fuel base laddr p size caching s ≡ map_loop fuel base laddr q size caching s
unfolding map_loop
map_loop-same zero base laddr p q size caching s h = refl
map_loop-same (suc fuel) base laddr p q size caching s h =
    elim (Option-cases (map_page (page_size laddr q size) base laddr caching s)) [
      | inl stop ↦ rw (page_size-same laddr p q size h, stop)
      | inr (s', went) ↦
          let n = bytes (page_size laddr q size) in
          let same = page_size-same laddr p q size h in
          rw (
            same,
            went,
            same,
            map_loop-same fuel base (u64 (laddr + n)) (u64 (p + n)) (u64 (q + n)) (size - n) caching
                s' (omega arith),
          )
    ]

-- Physical addresses that agree in their low 30 bits give the same tables: the entries never hold
-- anything of the physical address.
map_lin_to_phy-same :
    (fuel base laddr p q length caching : ℕ) (s : Pages)
    → p % 2 ^ 30 ≡ q % 2 ^ 30
    → page_table_map_lin_to_phy fuel base laddr p length caching s
      ≡ page_table_map_lin_to_phy fuel base laddr q length caching s
unfolding page_table_map_lin_to_phy
map_lin_to_phy-same fuel base laddr p q length caching s h =
    let e : offset p ≡ offset q = omega arith in
    elim (Option-cases (table_base base s)) [
      | inl stop ↦ rw (e, stop)
      | inr ((b, s'), went) ↦ rw (e, went, map_loop-same fuel b laddr p q length caching s' h)
    ]

-- An address or a length that is not a multiple of 4096 is refused.
pub map_lin_to_phy-refused :
    (fuel base laddr paddr length caching : ℕ) (s : Pages)
    → (offset length ≢ 0) ⊎ ((offset paddr ≢ 0) ⊎ (offset laddr ≢ 0))
    → page_table_map_lin_to_phy fuel base laddr paddr length caching s ≡ refused
unfolding page_table_map_lin_to_phy
map_lin_to_phy-refused fuel base laddr paddr length caching s (inl h) = ground arith
map_lin_to_phy-refused fuel base laddr paddr length caching s (inr (inl h)) = ground arith
map_lin_to_phy-refused fuel base laddr paddr length caching s (inr (inr h)) = ground arith

-- While pages are left, a page that is taken and freed is lost: the next allocation takes another one.
pub free-calloc :
    (s : Pages)
    → s.top + 1 < 256
    → let (page, s') = calloc_phylin_4k_page s in
      (page ≡ s.stack s.top)
      × ((calloc_phylin_4k_page (free_phylin_4k_page page s')).0 ≡ s.stack (s.top + 1))
unfolding calloc_phylin_4k_page free_phylin_4k_page
free-calloc s left =
    let t1 : leb 256 s.top ≡ false = ground arith in
    let t2 : ltb 0 (s.top + 1) ≡ true = ground arith in
    let t3 : leb 256 (s.top + 1) ≡ false = ground arith in rw t1 (refl, rw (t2, t3, t3))
