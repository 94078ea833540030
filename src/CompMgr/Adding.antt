-- ===== src/CompMgr/Adding.antt =====
-- Adding a component to the manager.
use sadie.Prelude.{
  ℕ, zero, suc, ◌+◌, ◌%◌, ◌≡◌, ◌≢◌, refl, true, false, some, [], ◌∷◌, arith, ◌==◌, ℕ_discrete,
}
use sadie.Word.{u32, null, ok}
use sadie.Dispatcher.{World, init_cmd, held, Components}
use sadie.Dispatcher.Slots
use sadie.Dispatcher.Removal.{IsFirst, IsFirst-next, add_comp-placed}
use sadie.CompMgr.{CompMgr, set_comp, set_d, set_info, add_to, add_from, add_comp}

-- The manager after component `c` is put at index `at` and in thread `k`'s dispatcher as `dc`.
abbrev pub managed : CompMgr → (k at dc c : ℕ) → World → CompMgr
managed m k at dc c w =
    set_info (set_d (set_comp m at c) k w) c
      (record { dc = dc; managed = true; comp_idx = m.comp_idx k; dtp = k })

add_to-first :
    (cs : Components) (alloc : ℕ → ℕ → ℕ) (rounds k x i : ℕ) (c : Slots.Comp) (m : CompMgr)
    (w : World)
    → IsFirst (λ j. m.comps (m.slots k j) == null) x rounds i
    → Slots.add_comp cs (λ _. false) (m.d k) (some c) (alloc k i) ≡ some (alloc k i, w)
    → alloc k i ≢ null
    → add_to cs alloc (λ _. false) (λ _. false) rounds k x c m
      ≡ some (true, managed m k (m.slots k i) (alloc k i) c.address w)
unfolding add_to
add_to-first cs alloc zero k x i c m w f e real = absurd (omega (arith, f.from, f.to))
add_to-first cs alloc (suc rounds) k x i c m w f e real = elim (ℕ_discrete x i) [
  | yes here ↦ let t : (alloc k i == null) ≡ false = ground arith in rw (here, f.hit, e, t)
  | no on ↦
      rw (f.misses x (omega arith) (omega (arith, f.from)))
        (add_to-first cs alloc rounds k (x + 1) i c m w (IsFirst-next f on) e real)
]

add_from-found :
    (cs : Components) (alloc : ℕ → ℕ → ℕ) (rounds : ℕ) (c : Slots.Comp) (m : CompMgr) {m' : CompMgr}
    → rounds ≢ 0
    → let k = m.next_dtps % m.max_dtps in
      add_to cs alloc
          (λ _. false)
          (λ _. false)
          (m.max_comps k)
          k
          0
          c
          (record m { next_dtps = u32 (m.next_dtps + 1) })
        ≡ some (true, m')
      → add_from cs alloc (λ _. false) (λ _. false) rounds c m ≡ some (ok, m')
unfolding add_from
add_from-found cs alloc zero c m ne e = absurd (ne refl)
add_from-found cs alloc (suc rounds) c m ne e = rw e

-- The thread whose turn it is has a free slot, and its dispatcher too: with the allocator and the
-- compare-exchanges on its side, a component with a process_msg and a name takes the first of each,
-- is sent AC_INIT_CMD, and the turn passes on. Its `comp_idx` is the thread's.
pub add_comp-managed :
    (cs : Components) (alloc : ℕ → ℕ → ℕ) (c : Slots.Comp) (m : CompMgr) (i j : ℕ)
    → let k = m.next_dtps % m.max_dtps in
      c.has_process_msg ≡ true
      → c.name_length ≢ 0
      → m.max_dtps ≢ 0
      → alloc k i ≢ null
      → IsFirst (λ x. m.comps (m.slots k x) == null) 0 (m.max_comps k) i
      → IsFirst (λ x. Slots.is_empty ((m.d k).slot x)) 0 (m.d k).max_count j
      → (m' : CompMgr) × (add_comp cs alloc (λ _. false) (λ _. false) c m ≡ some (ok, m'))
        × (m'.comps (m.slots k i) ≡ c.address)
        × ((x : ℕ) → x ≢ m.slots k i → m'.comps x ≡ m.comps x)
        × (m'.info c.address
            ≡ record { dc = alloc k i; managed = true; comp_idx = m.comp_idx k; dtp = k })
        × ((m'.d k).slot j ≡ held (alloc k i))
        × ((m'.d k).queue (alloc k i) ≡ init_cmd ∷ [])
        × (m'.next_dtps ≡ u32 (m.next_dtps + 1))
unfolding add_comp
add_comp-managed cs alloc c m i j able named some_thread real free empty_slot =
    let k = m.next_dtps % m.max_dtps in
    let (w, e, at, others, queued, rest, left, log) =
      add_comp-placed cs (m.d k) c (alloc k i) j able named real empty_slot in
    let m1 = record m { next_dtps = u32 (m.next_dtps + 1) } in
    let run = add_to-first cs alloc (m.max_comps k) k 0 i c m1 w free e real in
    let self : (k == k) ≡ true = ground arith in
    let self_c : (c.address == c.address) ≡ true = ground arith in
    (
      managed m1 k (m.slots k i) (alloc k i) c.address w,
      add_from-found cs alloc m.max_dtps c m some_thread run,
      ground arith,
      λ x ne. ground arith,
      rw self_c,
      rw self at,
      rw self queued,
      refl,
    )
