-- ===== src/PageTable/Covers.antt =====
-- The loop that maps pages ends, and its pages make up the length.
use sadie.Prelude.{
  ℕ, zero, suc, ◌+◌, ◌-◌, ◌*◌, ◌/◌, ◌%◌, ◌^◌, ◌≤◌, ◌≡◌, ◌<◌, ◌⊎◌, inl, inr, refl, arith, leb,
  Bool-cases, Option-cases,
}
use sadie.Word.{u64}
use sadie.PageTable.{
  Pages, PageSize, one_gig, two_meg, four_k, bytes, page_size, map_page, mapped, reset, counted,
  map_loop,
}

-- No page is larger than what is left.
pub bytes-page_size :
    (laddr paddr size : ℕ) → 2 ^ 12 ≤ size → bytes (page_size laddr paddr size) ≤ size
unfolding page_size
bytes-page_size laddr paddr size h = ground arith

pub four_k_of : (n : PageSize) → (k : ℕ) × (bytes n ≡ 4096 * suc k)
four_k_of one_gig = (262143, refl)
four_k_of two_meg = (511, refl)
four_k_of four_k = (0, refl)

-- The bytes of so many pages of each size.
abbrev pub total : (count_1g count_2m count_4k : ℕ) → ℕ
total a b c = a * 2 ^ 30 + b * 2 ^ 21 + c * 2 ^ 12

counted-total :
    (n : PageSize) (a b c : ℕ) (s : Pages)
    → (a' : ℕ) × (b' : ℕ) × (c' : ℕ) × (counted n (mapped a b c s) ≡ mapped a' b' c' s)
      × (total a' b' c' ≡ total a b c + bytes n)
counted-total one_gig a b c s = (suc a, b, c, refl, omega arith)
counted-total two_meg a b c s = (a, suc b, c, refl, omega arith)
counted-total four_k a b c s = (a, b, suc c, refl, omega arith)

-- For a size that is a multiple of 4096, and fuel for each 4096 bytes, the loop ends: in a reset of
-- the processor, or with pages whose sizes add up to the size.
pub map_loop-covers :
    (fuel base laddr paddr size caching : ℕ) (s : Pages)
    → size % 2 ^ 12 ≡ 0
    → size / 2 ^ 12 < fuel
    → (map_loop fuel base laddr paddr size caching s ≡ reset)
      ⊎ ((a : ℕ) × (b : ℕ) × (c : ℕ) × (s' : Pages) × (map_loop fuel base laddr paddr size caching s
            ≡ mapped a b c s')
          × (total a b c ≡ size))
unfolding map_loop
map_loop-covers zero base laddr paddr size caching s whole enough = absurd (omega arith)
map_loop-covers (suc fuel) base laddr paddr size caching s whole enough =
    elim (Bool-cases (leb (2 ^ 12) size)) [
      | inr less ↦ inr (0, 0, 0, s, rw less, ground arith)
      | inl more ↦
          let n = page_size laddr paddr size in
          let fits = bytes-page_size laddr paddr size (ground arith) in
          let (k, e) = four_k_of n in
          elim (Option-cases (map_page n base laddr caching s)) [
            | inl stop ↦ inl (rw (more, stop))
            | inr (s1, went) ↦
                elim (map_loop-covers fuel base (u64 (laddr + bytes n)) (u64 (paddr + bytes n))
                  (size - bytes n) caching s1 (omega (arith, e, fits)) (omega (arith, e, fits))) [
                    | inl stop ↦ inl (rw (more, went, stop) (counted-reset n))
                    | inr (a, b, c, s', rest, sum) ↦
                        let (a', b', c', e', sum') = counted-total n a b c s' in
                        inr
                          (a', b', c', s', rw (more, went, rest) e', omega (arith, sum, sum', fits))
                  ]
          ]
    ]
  where
    counted-reset : (n : PageSize) → counted n reset ≡ reset
    counted-reset one_gig = refl
    counted-reset two_meg = refl
    counted-reset four_k = refl
