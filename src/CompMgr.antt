-- ===== src/CompMgr.antt =====
-- `AcCompMgr` of libs/ac_comp_mgr: components shared out over dispatch threads, each with its
-- dispatcher. The memory holds the components' names.
pub mod Lifetime
pub mod Adding
pub mod Removing
mod Tests
use sadie.Prelude.{
  update, ℕ, zero, suc, ◌+◌, ◌-◌, ◌*◌, ◌%◌, Bool, true, false, Option, none, some, ◌&&◌, ◌||◌, ◌==◌,
  if◌then◌else◌, List, [], ◌∷◌,
}
use sadie.Prelude.Int.{ℤ, pos, negsuc}
use sadie.Word.{u32, null, Status, ok, err, bad_param}
use sadie.Memory.{Memory, strlen, strncmp}
use sadie.Dispatcher.{Message, World, Components, send_msg}
use sadie.Dispatcher.Slots

-- `AcCompInfo` of a component; `managed` tells that its `mgr` is not NULL.
pub record CompInfo : Type 0 where
  pub dc : ℕ
  pub managed : Bool
  pub comp_idx : ℕ
  pub dtp : ℕ

-- `AcCompMgr` with its `DispatchThreadParams` by number: `slots d j` is the index in `comps` that
-- `dtps[d].comps[j]` points to, `d` the dispatchers. `signals` are the threads that have been woken,
-- last first.
pub record CompMgr : Type 0 where
  pub has_dtps : Bool
  pub max_dtps : ℕ
  pub next_dtps : ℕ
  pub comps_max_count : ℕ
  pub comps : ℕ → ℕ
  pub max_comps : ℕ → ℕ
  pub slots : ℕ → ℕ → ℕ
  pub comp_idx : ℕ → ℕ
  pub thread_started : ℕ → Bool
  pub d : ℕ → World
  pub info : ℕ → CompInfo
  pub signals : List ℕ

abbrev pub set_comp : CompMgr → ℕ → ℕ → CompMgr
set_comp m i c = record m { comps = update m.comps i c }

abbrev pub set_d : CompMgr → ℕ → World → CompMgr
set_d m k w = record m { d = update m.d k w }

abbrev pub set_info : CompMgr → ℕ → CompInfo → CompMgr
set_info m c i = record m { info = update m.info c i }

abbrev pub is_zero : ℤ → Bool
is_zero (pos n) = n == 0
is_zero (negsuc n) = false

abbrev pub found : Option Bool → (comp : ℕ) → Option ℕ → Option ℕ
found none comp rest = none
found (some true) comp rest = some comp
found (some false) comp rest = rest

-- `ac_strncmp(name, comp->name, ac_strlen(comp->name)) == 0`
abbrev pub has_name : (fuel : ℕ) → Memory → (name own : ℕ) → Option Bool
has_name fuel mem name own = elim (strlen fuel own mem) [
  | none ↦ none
  | some n ↦ some (is_zero (strncmp n name own mem))
]

-- `AcCompMgr_find_comp`, where `names` are the addresses of the components' names: NULL or a
-- component; none if the fuel for a name's length has run out.
unfoldable pub find_from :
    (fuel : ℕ) → Memory → (names : ℕ → ℕ) → CompMgr → (name rounds i : ℕ) → Option ℕ
find_from fuel mem names m name zero i = some null
find_from fuel mem names m name (suc rounds) i =
    let rest = find_from fuel mem names m name rounds (i + 1) in
    let comp = m.comps i in
    if comp == null then rest else found (has_name fuel mem name (names comp)) comp rest

unfoldable pub find_comp : (fuel : ℕ) → Memory → (names : ℕ → ℕ) → CompMgr → (name : ℕ) → Option ℕ
unfolding find_from
find_comp fuel mem names m name = find_from fuel mem names m name m.comps_max_count 0

-- After `ci->dc = AcDispatcher_add_comp(...)`: on success the loops end.
abbrev pub after_add :
    CompMgr
    → (k c : ℕ) → Option (ℕ × World)
    → (CompMgr → Option (Bool × CompMgr))
    → Option (Bool × CompMgr)
after_add m k c none rest = none
after_add m k c (some (dc, w)) rest =
    let told = record (m.info c) { dc = dc } in
    let kept = record told { managed = true; comp_idx = m.comp_idx k; dtp = k } in
    let with_d = set_d m k w in
    if dc == null then rest (set_info with_d c told) else some (true, set_info with_d c kept)

-- The search of thread `k`'s slots from `i` on. The allocator's answer for a slot is `alloc`; `weak`
-- tells which compare-exchanges fail for no reason, here and, by `weak_d`, in the dispatcher.
unfoldable pub add_to :
    Components
    → (alloc : ℕ → ℕ → ℕ) (weak weak_d : ℕ → Bool) → (rounds k i : ℕ) → Slots.Comp
    → CompMgr
    → Option (Bool × CompMgr)
add_to cs alloc weak weak_d zero k i c m = some (false, m)
add_to cs alloc weak weak_d (suc rounds) k i c m =
    let rest = add_to cs alloc weak weak_d rounds k (i + 1) c in
    let at = m.slots k i in
    let taken = set_comp m at c.address in
    let added = Slots.add_comp cs weak_d (m.d k) (some c) (alloc k i) in
    if m.comps at == null && (if weak i then false else true)
    then after_add taken k c.address added rest
    else rest m

abbrev pub unless_found :
    Option (Bool × CompMgr) → (CompMgr → Option (Status × CompMgr)) → Option (Status × CompMgr)
unless_found none rest = none
unless_found (some (true, m)) rest = some (ok, m)
unless_found (some (false, m)) rest = rest m

-- The loop over the threads.
unfoldable pub add_from :
    Components
    → (alloc : ℕ → ℕ → ℕ) (weak weak_d : ℕ → Bool) → (rounds : ℕ) → Slots.Comp
    → CompMgr
    → Option (Status × CompMgr)
add_from cs alloc weak weak_d zero c m = some (err, m)
add_from cs alloc weak weak_d (suc rounds) c m =
    let k = m.next_dtps % m.max_dtps in
    let m' = record m { next_dtps = u32 (m.next_dtps + 1) } in
    unless_found (add_to cs alloc weak weak_d (m.max_comps k) k 0 c m')
      (λ m''. add_from cs alloc weak weak_d rounds c m'')

-- `AcCompMgr_add_comp`
unfoldable pub add_comp :
    Components
    → (alloc : ℕ → ℕ → ℕ) (weak weak_d : ℕ → Bool) → Slots.Comp
    → CompMgr
    → Option (Status × CompMgr)
unfolding add_from
add_comp cs alloc weak weak_d c m = add_from cs alloc weak weak_d m.max_dtps c m

abbrev pub forgotten : CompInfo
forgotten = record { dc = null; managed = false; comp_idx = 0; dtp = 0 }

abbrev pub after_rmv : CompMgr → (k comp : ℕ) → Option (Status × World) → Option (Status × CompMgr)
after_rmv m k comp none = none
after_rmv m k comp (some (_, w)) = some (ok, set_info (set_d m k w) comp forgotten)

-- `AcCompMgr_rmv_comp`; none if the component has no manager, whose `comps` are then read through
-- NULL.
unfoldable pub rmv_comp :
    (fuel : ℕ) → Components → (weak : Bool) → CompMgr → (comp : ℕ) → Option (Status × CompMgr)
rmv_comp fuel cs weak m comp =
    let ci = m.info comp in
    let emptied = set_comp m ci.comp_idx null in
    let removed = Slots.rmv_comp fuel cs (m.d ci.dtp) comp in
    if comp == null
    then some (bad_param, m)
    else (if ci.managed
        then (if m.comps ci.comp_idx == comp && (if weak then false else true)
            then after_rmv emptied ci.dtp comp removed
            else some (ok, m))
        else none)

-- `AcCompMgr_send_msg`
unfoldable pub send : CompMgr → (comp : ℕ) → Message → CompMgr
send m comp msg =
    let ci = m.info comp in
    record (set_d m ci.dtp (send_msg (m.d ci.dtp) ci.dc msg)) { signals = ci.dtp ∷ m.signals }
