-- ===== src/PageTable/Walk.antt =====
-- What the processor makes of the tables for the first page that is mapped.
use sadie.Prelude.{
  ℕ, suc, ◌+◌, ◌-◌, ◌*◌, ◌/◌, ◌%◌, ◌^◌, ◌≡◌, ◌≢◌, ◌<◌, refl, ap, ◌∙◌, arith, true, false, Option,
  none, some, lt→ltb, ◌==◌, ◌||◌, ltb, leb, if◌then◌else◌,
}
use sadie.Word.{null}
use sadie.PageTable.{
  Entry, cleared, Pages, set_entry, calloc_phylin_4k_page, alloc_pde, get_or_alloc_pde,
  get_caching_bits, page_of, pml1, pml2, pml3, pml4, fill_entry, with_directory, map_4k, four_k,
  page_size, map_page, mapped, map_loop, table_base, ended, page_table_map_lin_to_phy,
  init_phylin_4k_pages,
}
use mathlib.Core.Option

-- The translation of a linear address by four levels of tables, of the processor's manual.
abbrev translate : (tables : ℕ → ℕ → Entry) → (base a : ℕ) → Option ℕ
translate tables base a =
    let e4 = tables base (pml4 a) in
    let e3 = tables (page_of e4) (pml3 a) in
    let e2 = tables (page_of e3) (pml2 a) in
    let e1 = tables (page_of e2) (pml1 a) in
    if e4.p
    then (if e3.p
        then (if e3.ps_pte
            then some (e3.phy_addr * 2 ^ 13 + a % 2 ^ 30)
            else (if e2.p
                then (if e2.ps_pte
                    then some (e2.phy_addr * 2 ^ 13 + a % 2 ^ 21)
                    else (if e1.p then some (e1.phy_addr * 2 ^ 12 + a % 2 ^ 12) else none))
                else none))
        else none)
    else none

-- Only canonical addresses of 48 bits are translated.
abbrev pub walk : (tables : ℕ → ℕ → Entry) → (base a : ℕ) → Option ℕ
walk tables base a =
    if ltb a (2 ^ 47) || leb (2 ^ 64 - 2 ^ 47) a then translate tables base a else none

-- The state in which an entry that was cleared points to a new page.
abbrev pub grown : Pages → (base idx : ℕ) → Pages
grown s base idx =
    let page = s.stack s.top in
    set_entry
      (record s { top = s.top + 1; tables = λ q. if q == page then (λ i. cleared) else s.tables q })
      base idx (record cleared { phy_addr = page / 2 ^ 12 % 2 ^ 51; p = true; rw = true })

get_or_alloc_pde-grown :
    (base idx : ℕ) (s : Pages)
    → s.tables base idx ≡ cleared
    → s.top < 256
    → s.stack s.top ≢ null
    → s.stack s.top ≢ base
    → get_or_alloc_pde base idx s ≡ some (grown s base idx)
unfolding get_or_alloc_pde alloc_pde calloc_phylin_4k_page
get_or_alloc_pde-grown base idx s h room real other =
    let t1 : leb 256 s.top ≡ false = ground arith in
    let t2 : (s.stack s.top == null) ≡ false = ground arith in
    let t3 : (base == s.stack s.top) ≡ false = ground arith in
    let hp : (s.tables base idx).p ≡ false = rw h in rw (get_or_alloc_pde, hp, t1, t2, t3, h)

page_of-grown :
    (base idx : ℕ) (s : Pages)
    → s.stack s.top % 2 ^ 12 ≡ 0
    → s.stack s.top < 2 ^ 63
    → page_of ((grown s base idx).tables base idx) ≡ s.stack s.top
page_of-grown base idx s aligned small =
    let t1 : (base == base) ≡ true = ground arith in
    let t2 : (idx == idx) ≡ true = ground arith in rw (t1, t2) (omega arith)

with_directory-grown :
    (base idx : ℕ) (s : Pages) (then_do : ℕ → Pages → Option Pages)
    → s.tables base idx ≡ cleared
    → s.top < 256
    → s.stack s.top ≢ null
    → s.stack s.top ≢ base
    → s.stack s.top % 2 ^ 12 ≡ 0
    → s.stack s.top < 2 ^ 63
    → with_directory base idx s then_do ≡ then_do (s.stack s.top) (grown s base idx)
unfolding Option.bind
with_directory-grown base idx s then_do h room real other aligned small =
    rw (get_or_alloc_pde-grown base idx s h room real other, page_of-grown base idx s aligned small)

-- The entry of a page of 4096 bytes.
abbrev leaf : (laddr caching : ℕ) → Entry
leaf laddr caching =
    let bits = (caching - 1) % 8 in
    record {
      p = true;
      rw = true;
      pwt = bits % 2 == 1;
      pcd = bits / 2 % 2 == 1;
      pat = bits / 4 == 1;
      ps_pte = false;
      phy_addr = laddr / 2 ^ 12 % 2 ^ 47;
    }

fill_entry-leaf :
    (base idx laddr caching : ℕ) (s : Pages)
    → s.tables base idx ≡ cleared
    → 0 < caching
    → caching < 9
    → fill_entry false 12 47 base idx laddr caching s
      ≡ some (set_entry s base idx (leaf laddr caching))
unfolding get_caching_bits
fill_entry-leaf base idx laddr caching s h lo hi =
    let b0 : (caching == 0) ≡ false = ground arith in
    let b8 : ltb 8 caching ≡ false = ground arith in
    let not_present : (s.tables base idx).p ≡ false = rw h in
    rw (fill_entry, not_present, b0, b8, h)

set_entry_other :
    (s : Pages) (base idx q i : ℕ) (e : Entry)
    → q ≢ base
    → (set_entry s base idx e).tables q i ≡ s.tables q i
set_entry_other s base idx q i e ne = ground arith

set_entry_self :
    (s : Pages) (base idx : ℕ) (e : Entry) → (set_entry s base idx e).tables base idx ≡ e
set_entry_self s base idx e = ground arith

grown_other :
    (s : Pages) (base idx q i : ℕ)
    → q ≢ base
    → q ≢ s.stack s.top
    → (grown s base idx).tables q i ≡ s.tables q i
grown_other s base idx q i ne ne' = ground arith

-- A directory's entry, where nothing has written to it since.
kept_directory :
    (s : Pages) (base idx j : ℕ) (tables : ℕ → ℕ → Entry)
    → j ≡ idx
    → tables base idx ≡ (grown s base idx).tables base idx
    → s.stack s.top % 2 ^ 12 ≡ 0
    → s.stack s.top < 2 ^ 63
    → ((tables base j).p ≡ true)
      × ((tables base j).ps_pte ≡ false)
      × (page_of (tables base j) ≡ s.stack s.top)
kept_directory s base idx j tables same kept aligned small =
    let t1 : (base == base) ≡ true = ground arith in
    let t2 : (idx == idx) ≡ true = ground arith in rw (same, kept, t1, t2) (refl, refl, omega arith)

-- What the walk reads, level by level.
translate-small :
    (tables : ℕ → ℕ → Entry) (base a t3 t2 t1 : ℕ)
    → ((tables base (pml4 a)).p ≡ true)
      × ((tables base (pml4 a)).ps_pte ≡ false)
      × (page_of (tables base (pml4 a)) ≡ t3)
    → ((tables t3 (pml3 a)).p ≡ true)
      × ((tables t3 (pml3 a)).ps_pte ≡ false)
      × (page_of (tables t3 (pml3 a)) ≡ t2)
    → ((tables t2 (pml2 a)).p ≡ true)
      × ((tables t2 (pml2 a)).ps_pte ≡ false)
      × (page_of (tables t2 (pml2 a)) ≡ t1)
    → (tables t1 (pml1 a)).p ≡ true
    → translate tables base a ≡ some ((tables t1 (pml1 a)).phy_addr * 2 ^ 12 + a % 2 ^ 12)
translate-small tables base a t3 t2 t1 (p4, n4, a4) (p3, n3, a3) (p2, n2, a2) p1 =
    rw (a4, a3, a2, p4, p3, n3, p2, n2, p1)

-- On pages that begin at `pages`, aligned and below 2 ^ 63, when none has been taken but the base.
map_4k-translate :
    (pages laddr caching : ℕ) (s : Pages)
    → pages % 2 ^ 12 ≡ 0
    → 0 < pages
    → pages + 2 ^ 20 < 2 ^ 63
    → ((i : ℕ) → i < 256 → s.stack i ≡ pages + i * 4096)
    → s.top ≡ 1
    → s.tables pages (pml4 laddr) ≡ cleared
    → laddr % 2 ^ 12 ≡ 0
    → laddr < 2 ^ 59
    → 0 < caching
    → caching < 9
    → (s' : Pages) × (map_4k pages laddr caching s ≡ some s')
      × ((o : ℕ) → o < 2 ^ 12 → translate s'.tables pages (laddr + o) ≡ some (laddr + o))
unfolding map_4k
map_4k-translate pages laddr caching s aligned pos small stacked one h page_start low lo hi =
    let c1 = λ (t1 : ℕ) (s1 : Pages). fill_entry false 12 47 t1 (pml1 laddr) laddr caching s1 in
    let c2 = λ (t2 : ℕ) (s2 : Pages). with_directory t2 (pml2 laddr) s2 c1 in
    let c3 = λ (t3 : ℕ) (s3 : Pages). with_directory t3 (pml3 laddr) s3 c2 in
    let s3 = grown s pages (pml4 laddr) in
    let t3 = s.stack s.top in
    let e3 : t3 ≡ pages + 4096 = rw one (stacked 1 (omega arith) ∙ omega arith) in
    let d3 =
      with_directory-grown pages (pml4 laddr) s c3 h (omega arith) (omega arith) (omega arith)
        (omega arith) (omega arith) in
    let s2 = grown s3 t3 (pml3 laddr) in
    let t2 = s3.stack s3.top in
    let e2 : t2 ≡ pages + 8192 = rw one (stacked 2 (omega arith) ∙ omega arith) in
    let h3 : s3.tables t3 (pml3 laddr) ≡ cleared = ground arith in
    let d2 =
      with_directory-grown t3 (pml3 laddr) s3 c2 h3 (omega arith) (omega arith) (omega arith)
        (omega arith) (omega arith) in
    let s1 = grown s2 t2 (pml2 laddr) in
    let t1 = s2.stack s2.top in
    let e1 : t1 ≡ pages + 12288 = rw one (stacked 3 (omega arith) ∙ omega arith) in
    let h2 : s2.tables t2 (pml2 laddr) ≡ cleared = ground arith in
    let d1 =
      with_directory-grown t2 (pml2 laddr) s2 c1 h2 (omega arith) (omega arith) (omega arith)
        (omega arith) (omega arith) in
    let h1 : s1.tables t1 (pml1 laddr) ≡ cleared = ground arith in
    let s' = set_entry s1 t1 (pml1 laddr) (leaf laddr caching) in
    let filled = fill_entry-leaf t1 (pml1 laddr) laddr caching s1 h1 lo hi in
    let f4 =
      set_entry_other s1 t1 (pml1 laddr) pages (pml4 laddr) (leaf laddr caching) (omega arith)
      ∙ grown_other s2 t2 (pml2 laddr) pages (pml4 laddr) (omega arith) (omega arith)
      ∙ grown_other s3 t3 (pml3 laddr) pages (pml4 laddr) (omega arith) (omega arith) in
    let f3 =
      set_entry_other s1 t1 (pml1 laddr) t3 (pml3 laddr) (leaf laddr caching) (omega arith)
      ∙ grown_other s2 t2 (pml2 laddr) t3 (pml3 laddr) (omega arith) (omega arith) in
    let f2 =
      set_entry_other s1 t1 (pml1 laddr) t2 (pml2 laddr) (leaf laddr caching) (omega arith) in
    let f1 = set_entry_self s1 t1 (pml1 laddr) (leaf laddr caching) in
    (
      s',
      d3 ∙ d2 ∙ d1 ∙ filled,
      λ o inside.
          let same1 : pml1 (laddr + o) ≡ pml1 laddr = omega arith in
          let value : laddr / 2 ^ 12 % 2 ^ 47 * 2 ^ 12 + (laddr + o) % 2 ^ 12 ≡ laddr + o =
            omega arith in
          let found =
            translate-small s'.tables pages (laddr + o) t3 t2 t1
              (kept_directory s pages (pml4 laddr) (pml4 (laddr + o)) s'.tables (omega arith) f4
                (omega arith) (omega arith))
              (kept_directory s3 t3 (pml3 laddr) (pml3 (laddr + o)) s'.tables (omega arith) f3
                (omega arith) (omega arith))
              (kept_directory s2 t2 (pml2 laddr) (pml2 (laddr + o)) s'.tables (omega arith) f2
                (omega arith) (omega arith))
              (rw (same1, f1)) in
          found ∙ rw (same1, f1) (ap some value),
    )

page_size-least : (laddr paddr : ℕ) → page_size laddr paddr (2 ^ 12) ≡ four_k
unfolding page_size
page_size-least laddr paddr = ground arith

-- The pages after the base has been allocated.
abbrev with_base : (pages : ℕ) → Pages → Pages
with_base pages s =
    set_entry
      (record s {
        stack = λ i. if ltb i 256 then pages + i * 4096 else s.stack i;
        top = 1;
        tables = λ q. if q == pages then (λ i. cleared) else s.tables q;
      })
      pages 511 (record cleared { p = true; rw = true; phy_addr = pages / 2 ^ 12 % 2 ^ 51 })

table_base-with_base :
    (pages : ℕ) (s : Pages)
    → 0 < pages
    → table_base null (init_phylin_4k_pages pages s) ≡ some (pages, with_base pages s)
unfolding table_base alloc_pde calloc_phylin_4k_page init_phylin_4k_pages
table_base-with_base pages s pos =
    let first : pages + 0 * 4096 ≡ pages = omega arith in
    let real : (pages == null) ≡ false = ground arith in
    let self : (pages == pages) ≡ true = ground arith in rw (first, real, self)

map_loop-one :
    (fuel base laddr paddr caching : ℕ) (s s' : Pages)
    → map_4k base laddr caching s ≡ some s'
    → map_loop (suc (suc fuel)) base laddr paddr (2 ^ 12) caching s ≡ mapped 0 0 1 s'
unfolding map_loop map_page
map_loop-one fuel base laddr paddr caching s s' e =
    let small = page_size-least laddr paddr in rw (small, e, small)

wider : (x : ℕ) → x < 2 ^ 47 → x < 2 ^ 59
wider x h = omega arith

wider_page : (x : ℕ) → x + 2 ^ 20 < 2 ^ 52 → x + 2 ^ 20 < 2 ^ 63
wider_page x h = omega arith

lower_half :
    (laddr : ℕ)
    → laddr < 2 ^ 47
    → laddr % 2 ^ 12 ≡ 0
    → (o : ℕ) → o < 2 ^ 12
    → ltb (laddr + o) (2 ^ 47) ≡ true
lower_half laddr h page_start o inside = lt→ltb (laddr + o) (2 ^ 47) (omega arith)

-- With new pages, aligned and below 2 ^ 52, and a caching mode, mapping one page at an aligned linear
-- address in the lower canonical half, below 2 ^ 47, succeeds; the processor then translates each
-- address of the page to itself, whatever aligned physical address the caller asks for.
pub map_lin_to_phy-walk :
    (fuel pages laddr paddr caching : ℕ) (s : Pages)
    → pages % 2 ^ 12 ≡ 0
    → 0 < pages
    → pages + 2 ^ 20 < 2 ^ 52
    → laddr % 2 ^ 12 ≡ 0
    → laddr < 2 ^ 47
    → paddr % 2 ^ 12 ≡ 0
    → 0 < caching
    → caching < 9
    → (s' : Pages) × (page_table_map_lin_to_phy
          (suc (suc fuel))
          null
          laddr
          paddr
          (2 ^ 12)
          caching
          (init_phylin_4k_pages pages s)
        ≡ ended pages (mapped 0 0 1 s'))
      × ((o : ℕ) → o < 2 ^ 12 → walk s'.tables pages (laddr + o) ≡ some (laddr + o))
unfolding page_table_map_lin_to_phy
map_lin_to_phy-walk fuel pages laddr paddr caching s aligned pos small page_start low page_start' lo
      hi =
    let begun = with_base pages s in
    let h : begun.tables pages (pml4 laddr) ≡ cleared = ground arith in
    let (s', e, walks) =
      map_4k-translate pages laddr caching begun aligned pos (wider_page pages small)
        (λ i lt. ground arith) refl h page_start (wider laddr low) lo hi in
    (
      s',
      rw (page_start, page_start', table_base-with_base pages s pos)
          (ap (ended pages) (map_loop-one fuel pages laddr paddr caching begun s' e)),
      λ o inside. rw (lower_half laddr low page_start o inside) (walks o inside),
    )
