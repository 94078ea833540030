-- ===== src/PageTable.antt =====
-- The page tables of arch/x86/libs/page_table_x86 on a 64 bit processor, where the tables' pages have
-- the same physical and linear address. An entry is modelled by the fields that the code sets.
pub mod Covers
pub mod Flaws
pub mod Walk
mod Tests
use sadie.Prelude.{
  ℕ, zero, suc, ◌+◌, ◌-◌, ◌*◌, ◌/◌, ◌%◌, ◌^◌, Bool, true, false, ◌&&◌, Option, none, some, ◌==◌,
  ltb, leb, if◌then◌else◌, List, [], ◌∷◌,
}
use sadie.Word.{u64, null}
use sadie.WaitHeap.{write}
use mathlib.Core.Option

-- `pde_fields`, `pte_huge_fields` and `pte_small_fields`
pub record Entry : Type 0 where
  pub p : Bool
  pub rw : Bool
  pub pwt : Bool
  pub pcd : Bool
  pub pat : Bool
  pub ps_pte : Bool
  pub phy_addr : ℕ

abbrev pub cleared : Entry
cleared = record {
  p = false;
  rw = false;
  pwt = false;
  pcd = false;
  pat = false;
  ps_pte = false;
  phy_addr = 0;
}

-- `phylin_4k_stack` and `top`, and the tables: the entry of a page at an index.
pub record Pages : Type 0 where
  pub stack : ℕ → ℕ
  pub top : ℕ
  pub tables : ℕ → ℕ → Entry

abbrev pub set_entry : Pages → (base idx : ℕ) → Entry → Pages
set_entry s base idx e = record s {
  tables = λ q i. if q == base then (if i == idx then e else s.tables q i) else s.tables q i;
}

-- `init_phylin_4k_pages`, for the address of `phylin_4k_pages`
unfoldable pub init_phylin_4k_pages : (pages : ℕ) → Pages → Pages
init_phylin_4k_pages pages s = record s {
  stack = λ i. if ltb i 256 then pages + i * 4096 else s.stack i;
  top = 0;
}

-- `calloc_phylin_4k_page`, with the page or NULL
unfoldable pub calloc_phylin_4k_page : Pages → ℕ × Pages
calloc_phylin_4k_page s =
    let page = s.stack s.top in
    if leb 256 s.top then (null, s) else (
      page,
      record s { top = s.top + 1; tables = λ q. if q == page then (λ i. cleared) else s.tables q },
    )

-- `free_phylin_4k_page`
unfoldable pub free_phylin_4k_page : (page : ℕ) → Pages → Pages
free_phylin_4k_page page s =
    if ltb 0 s.top && leb 256 s.top
    then record s { top = s.top - 1; stack = write s.stack (s.top - 1) page }
    else s

-- `alloc_pde`; none where the processor is reset.
unfoldable pub alloc_pde : Pages → Option (ℕ × Pages)
alloc_pde s =
    let (page, s') = calloc_phylin_4k_page s in if page == null then none else some (page, s')

-- `get_or_alloc_pde`
unfoldable pub get_or_alloc_pde : (base idx : ℕ) → Pages → Option Pages
get_or_alloc_pde base idx s = elim (s.tables base idx).p [
  | true ↦ some s
  | false ↦ Option.map linked (alloc_pde s)
]
  where
    linked : ℕ × Pages → Pages
    linked (page, s') =
        set_entry s' base idx
          (record (s'.tables base idx) { phy_addr = page / 2 ^ 12 % 2 ^ 51; p = true; rw = true })

-- `get_caching_bits`, as pat, pcd and pwt; none where the processor is reset.
unfoldable pub get_caching_bits : (caching : ℕ) → Option (Bool × Bool × Bool)
get_caching_bits caching =
    let idx = (caching - 1) % 8 in
    if caching == 0
    then none
    else (if ltb 8 caching then none else some (idx / 4 == 1, idx / 2 % 2 == 1, idx % 2 == 1))

-- The page that an entry of a directory points to; the address of a huge page begins one bit later,
-- behind its bit `pat`.
abbrev pub page_of : Entry → ℕ
page_of e =
    if e.ps_pte then (e.phy_addr * 2 + (if e.pat then 1 else 0)) * 2 ^ 12 else e.phy_addr * 2 ^ 12

-- The fields of `linear_address_pml_indexes`.
abbrev pub offset : ℕ → ℕ
offset a = a % 2 ^ 12

abbrev pub pml1 : ℕ → ℕ
pml1 a = a / 2 ^ 12 % 2 ^ 9

abbrev pub pml2 : ℕ → ℕ
pml2 a = a / 2 ^ 21 % 2 ^ 9

abbrev pub pml3 : ℕ → ℕ
pml3 a = a / 2 ^ 30 % 2 ^ 9

abbrev pub pml4 : ℕ → ℕ
pml4 a = a / 2 ^ 39 % 2 ^ 9

-- The entry of a page of the given size that is not present yet is filled; `shift` is where the
-- entry's address begins and `width` how many bits it has. The physical address is taken from the linear one.
abbrev pub fill_entry :
    (huge : Bool) → (shift width base idx laddr caching : ℕ) → Pages → Option Pages
fill_entry huge shift width base idx laddr caching s = elim (s.tables base idx).p [
  | true ↦ none
  | false ↦ Option.map filled (get_caching_bits caching)
]
  where
    filled : Bool × Bool × Bool → Pages
    filled (pat, pcd, pwt) = set_entry s base idx (record (s.tables base idx) {
      phy_addr = laddr / 2 ^ shift % 2 ^ width;
      p = true;
      rw = true;
      ps_pte = if huge then true else (s.tables base idx).ps_pte;
      pat = pat;
      pcd = pcd;
      pwt = pwt;
    })

-- The directory that an entry of another leads to, which is allocated if it is not there.
abbrev pub with_directory : (base idx : ℕ) → Pages → (ℕ → Pages → Option Pages) → Option Pages
with_directory base idx s then_do =
    Option.bind (get_or_alloc_pde base idx s) (λ s'. then_do (page_of (s'.tables base idx)) s')

-- The three parts of the loop of page_table_map_lin_to_phy.
unfoldable pub map_1g : (base laddr caching : ℕ) → Pages → Option Pages
map_1g base laddr caching s =
    with_directory base (pml4 laddr) s
      (λ t3 s3. fill_entry true 13 46 t3 (pml3 laddr) laddr caching s3)

unfoldable pub map_2m : (base laddr caching : ℕ) → Pages → Option Pages
map_2m base laddr caching s = with_directory base (pml4 laddr) s (λ t3 s3.
    with_directory t3 (pml3 laddr) s3
      (λ t2 s2. fill_entry true 13 46 t2 (pml2 laddr) laddr caching s2))

unfoldable pub map_4k : (base laddr caching : ℕ) → Pages → Option Pages
map_4k base laddr caching s = with_directory base (pml4 laddr) s (λ t3 s3.
    with_directory t3 (pml3 laddr) s3 (λ t2 s2.
      with_directory t2 (pml2 laddr) s2
        (λ t1 s1. fill_entry false 12 47 t1 (pml1 laddr) laddr caching s1)))

-- The sizes of pages.
pub data PageSize : Type 0 where
  one_gig two_meg four_k : PageSize

abbrev pub bytes : PageSize → ℕ
bytes one_gig = 2 ^ 30
bytes two_meg = 2 ^ 21
bytes four_k = 2 ^ 12

-- The largest page that both addresses and the size allow.
unfoldable pub page_size : (laddr paddr size : ℕ) → PageSize
page_size laddr paddr size =
    let small =
      if ((pml1 paddr == 0) && (pml1 laddr == 0)) && leb (2 ^ 21) size then two_meg else four_k in
    if ((pml2 paddr == 0) && (pml1 paddr == 0)) && ((pml2 laddr == 0) && (pml1 laddr == 0))
    then (if leb (2 ^ 30) size then one_gig else small)
    else small

unfoldable pub map_page : PageSize → (base laddr caching : ℕ) → Pages → Option Pages
map_page one_gig base laddr caching s = map_1g base laddr caching s
map_page two_meg base laddr caching s = map_2m base laddr caching s
map_page four_k base laddr caching s = map_4k base laddr caching s

-- How the loop ends: with the counts of pages of each size, in a reset of the processor, or not on its
-- fuel.
pub data Mapped : Type 0 where
  mapped : (count_1g count_2m count_4k : ℕ) → Pages → Mapped
  reset : Mapped
  unfinished : Mapped

abbrev pub counted : PageSize → Mapped → Mapped
counted one_gig (mapped a b c s) = mapped (suc a) b c s
counted two_meg (mapped a b c s) = mapped a (suc b) c s
counted four_k (mapped a b c s) = mapped a b (suc c) s
counted n reset = reset
counted n unfinished = unfinished

-- The loop of `page_table_map_lin_to_phy`.
unfoldable pub map_loop : (fuel base laddr paddr size caching : ℕ) → Pages → Mapped
map_loop zero base laddr paddr size caching s = unfinished
map_loop (suc fuel) base laddr paddr size caching s =
    let n = page_size laddr paddr size in
    let rest = elim (map_page n base laddr caching s) as (λ _. Mapped) [
      | none ↦ reset
      | some s' ↦ counted n (
          map_loop fuel base (u64 (laddr + bytes n)) (u64 (paddr + bytes n)) (size - bytes n)
            caching s')
    ] in
    if leb (2 ^ 12) size then rest else mapped 0 0 0 s

-- The base of the tables, which is allocated with a recursive entry where there is none.
unfoldable pub table_base : (base : ℕ) → Pages → Option (ℕ × Pages)
table_base base s = if base == null then Option.map recursive (alloc_pde s) else some (base, s)
  where
    recursive : ℕ × Pages → ℕ × Pages
    recursive (page, s') = (
      page,
      set_entry s' page 511
          (record (s'.tables page 511) { p = true; rw = true; phy_addr = page / 2 ^ 12 % 2 ^ 51 }),
    )

-- What `page_table_map_lin_to_phy` does: `refused` returns NULL.
pub data Result : Type 0 where
  refused : Result
  ended : (base : ℕ) → Mapped → Result

-- `page_table_map_lin_to_phy`
unfoldable pub page_table_map_lin_to_phy :
    (fuel base laddr paddr length caching : ℕ) → Pages → Result
page_table_map_lin_to_phy fuel base laddr paddr length caching s =
    if offset length == 0
    then (if offset paddr == 0
        then (if offset laddr == 0 then begun (table_base base s) else refused)
        else refused)
    else refused
  where
    begun : Option (ℕ × Pages) → Result
    begun none = ended null reset
    begun (some (b, s')) = ended b (map_loop fuel b laddr paddr length caching s')

-- `page_mode`
pub data PageMode : Type 0 where
  unknown nrml_32bit pae_32bit nrml_64bit pcide_64bit : PageMode

-- `get_page_mode`, for the bits of the control registers that it reads
unfoldable pub get_page_mode : (pg pae lme pcide : Bool) → PageMode
get_page_mode false pae lme pcide = unknown
get_page_mode true false false pcide = nrml_32bit
get_page_mode true true false pcide = pae_32bit
get_page_mode true true true false = nrml_64bit
get_page_mode true true true true = pcide_64bit
get_page_mode true false true pcide = unknown

-- An entry of the memory map.
pub record Region : Type 0 where
  pub base_addr : ℕ
  pub length : ℕ
  pub type : ℕ

-- The loop of `init_page_tables`, from the base `root` on; none where the processor is reset. Its fuel
-- is that of each mapping.
unfoldable pub map_regions : (fuel root : ℕ) → List Region → Pages → Option (ℕ × Pages)
map_regions fuel root [] s = some (root, s)
map_regions fuel root (r ∷ rs) s =
    if r.type == 1
    then went_on
        (page_table_map_lin_to_phy fuel root r.base_addr r.base_addr (r.length - r.length % 2 ^ 12)
          1 s)
        (λ b s'. map_regions fuel b rs s')
    else map_regions fuel root rs s
  where
    went_on : Result → (ℕ → Pages → Option (ℕ × Pages)) → Option (ℕ × Pages)
    went_on (ended b (mapped a c d s')) rest = rest b s'
    went_on (ended b reset) rest = none
    went_on (ended b unfinished) rest = none
    went_on refused rest = none

-- `init_page_tables`, with the base that register cr3 is set to; `pages` is the address of
-- `phylin_4k_pages`.
unfoldable pub init_page_tables : (fuel pages : ℕ) → List Region → Pages → Option (ℕ × Pages)
init_page_tables fuel pages rs s = map_regions fuel null rs (init_phylin_4k_pages pages s)

-- `init_early_page_tables`
unfoldable pub init_early_page_tables : (fuel pages phylin_base length : ℕ) → Pages → Result
init_early_page_tables fuel pages phylin_base length s =
    page_table_map_lin_to_phy fuel null phylin_base phylin_base length 1
      (init_phylin_4k_pages pages s)
