-- ===== src/WaitHeap.antt =====
-- The threads that wait for a time: waiting_tcbs.c of arch/x86/libs/thread_x86, an array that is a
-- binary heap from index 1 on. A tcb is its address; `deadline` is its field `waiting_deadline`.
pub mod Order
pub mod Count
pub mod Add
pub mod Remove
pub mod Grow
mod Tests
use sadie.Prelude.{
  ℕ, zero, suc, ◌+◌, ◌-◌, ◌*◌, ◌/◌, ◌^◌, Bool, true, false, ◌&&◌, ◌||◌, ◌==◌, ltb, leb,
  if◌then◌else◌, Option, none, some,
}
use sadie.Word.{null}

-- `waiting_tcbs`, `max_waiting_tcbs` and `num_waiting_tcbs`; `allocated` counts the entries that the
-- array was allocated with.
pub record WaitingTcbs : Type 0 where
  pub tcbs : ℕ → ℕ
  pub allocated : ℕ
  pub max : ℕ
  pub num : ℕ

abbrev pub write {ℓ} : {A : Type ℓ} → (ℕ → A) → ℕ → A → ℕ → A
write f i v j = if j == i then v else f j

abbrev pub swap_nodes : (ℕ → ℕ) → (n1 n2 : ℕ) → ℕ → ℕ
swap_nodes tcbs n1 n2 = write (write tcbs n2 (tcbs n1)) n1 (tcbs n2)

unfoldable pub peek : WaitingTcbs → ℕ
peek w = if ltb 0 w.num then w.tcbs 1 else null

-- The loop of add: node `nni` rises, on fuel.
unfoldable pub rise : (fuel : ℕ) → (deadline tcbs : ℕ → ℕ) → (nni : ℕ) → ℕ → ℕ
rise zero d tcbs nni = tcbs
rise (suc fuel) d tcbs nni =
    let parent = nni / 2 in
    let rest = rise fuel d (swap_nodes tcbs nni parent) parent in
    if ltb 1 nni then (if ltb (d (tcbs nni)) (d (tcbs parent)) then rest else tcbs) else tcbs

-- What add does: a failed assertion stops the program, and an index past the allocated entries is a
-- write out of bounds.
pub data Added : Type 0 where
  added : (deadline : ℕ → ℕ) → WaitingTcbs → Added
  asserted : Added
  out_of_bounds : Added

-- `waiting_tcb_add_intr_disabled`
unfoldable pub add : (deadline : ℕ → ℕ) → WaitingTcbs → (ptcb absolute_tsc : ℕ) → Added
add d w ptcb tsc =
    let nni = w.num + 1 in
    let d' = write d ptcb tsc in
    let w' = record w { num = nni; tcbs = rise nni d' (write w.tcbs nni ptcb) nni } in
    if leb nni w.max then (if ltb nni w.allocated then added d' w' else out_of_bounds) else asserted

-- The child of `parent` with the earlier deadline, where there is a left one.
abbrev pub smaller_child : (deadline tcbs : ℕ → ℕ) → (num parent : ℕ) → ℕ
smaller_child d tcbs num parent =
    let left = parent * 2 in
    let right = left + 1 in
    if leb right num then (if ltb (d (tcbs right)) (d (tcbs left)) then right else left) else left

-- The loop of remove: the node at `parent` sinks, on fuel.
unfoldable pub sink : (fuel : ℕ) → (deadline tcbs : ℕ → ℕ) → (num parent : ℕ) → ℕ → ℕ
sink zero d tcbs num parent = tcbs
sink (suc fuel) d tcbs num parent =
    let child = smaller_child d tcbs num parent in
    let rest = sink fuel d (swap_nodes tcbs parent child) num child in
    if ltb parent num
    then (if ltb num (parent * 2)
        then tcbs
        else (if ltb (d (tcbs child)) (d (tcbs parent)) then rest else tcbs))
    else tcbs

-- `waiting_tcb_remove_intr_disabled`
unfoldable pub remove : (deadline : ℕ → ℕ) → WaitingTcbs → WaitingTcbs
remove d w =
    let num = w.num - 1 in
    let tcbs = write w.tcbs 1 (w.tcbs w.num) in
    if w.num == 0 then w else record w { num = num; tcbs = sink num d tcbs num 1 }

-- `waiting_tcbs_update_max`, where `new` is the address of the array that it allocates and fills:
-- the assignment goes to entry 0 of the old array.
unfoldable pub update_max : WaitingTcbs → (new_max new : ℕ) → WaitingTcbs
update_max w new_max new =
    if ltb w.max new_max then record w { max = new_max; tcbs = write w.tcbs 0 new } else w

-- `waiting_tcbs_init`; none if the array cannot be allocated.
unfoldable pub init : (contents : Option (ℕ → ℕ)) → (max : ℕ) → Option WaitingTcbs
init none max = none
init (some tcbs) max = some (record { tcbs = tcbs; allocated = max + 1; max = max + 1; num = 0 })
