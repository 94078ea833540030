-- ===== src/Dispatcher/Slots.antt =====
-- `AcDispatcher_get`, `AcDispatcher_add_comp`, `AcDispatcher_rmv_comp` and `AcDispatcher_ret`.
use sadie.Prelude.{
  update, ltb, ℕ, zero, suc, ◌+◌, Bool, true, false, Option, none, some, ◌||◌, ◌==◌, if◌then◌else◌,
  [], ◌-◌,
}
use sadie.Word.{null, Status, ok, err, bad_param}
use sadie.Dispatcher.{
  init_cmd, Slot, is_processing, empty, held, World, set_slot, send_msg, Components, ret_dc, rmv_dc,
}

-- `get_dispatcher` and the loop that empties the slots. `malloc` is whether the allocation succeeds.
unfoldable pub get : (malloc : Bool) → World → (max_count : ℕ) → Option World
get false w max_count = none
get true w max_count =
    some
      (record w { max_count = max_count; slot = λ i. if ltb i max_count then empty else w.slot i })

-- What `add_comp` looks at in an AcComp.
pub record Comp : Type 0 where
  pub address : ℕ
  pub has_process_msg : Bool
  pub name_length : ℕ  -- 0 for a NULL name too

abbrev pub is_empty : Slot → Bool
is_empty empty = true
is_empty _ = false

-- The search for a slot from `i` on: the weak compare-exchange may fail for no reason. The command
-- AC_INIT_CMD is sent as soon as the slot is taken.
unfoldable pub place : (spurious : ℕ → Bool) → (rounds i dc : ℕ) → World → Option World
place spurious zero i dc w = none
place spurious (suc rounds) i dc w =
    let rest = place spurious rounds (i + 1) dc w in
    let taken = record (set_slot w i (held dc)) { cmds = update w.cmds dc (w.cmds dc - 1) } in
    if is_empty (w.slot i)
    then (if spurious i then rest else some (send_msg taken dc init_cmd))
    else rest

-- `get_dc`: what the allocator, the pool and the list give is the address `dc`, NULL if one fails.
-- Its pool has two messages.
abbrev pub fresh_dc : World → (dc comp : ℕ) → World
fresh_dc w dc comp = record w {
  comp = update w.comp dc comp;
  queue = update w.queue dc [];
  cmds = update w.cmds dc 2;
  freed = update w.freed dc false;
}

abbrev pub and_null : Option World → Option (ℕ × World)
and_null none = none
and_null (some w) = some (null, w)

abbrev pub or_abort : Components → World → (dc : ℕ) → Option World → Option (ℕ × World)
or_abort cs w dc (some w') = some (dc, w')
or_abort cs w dc none = and_null (ret_dc cs w dc true)

-- `AcDispatcher_add_comp`: the address of the AcDispatchableComp or NULL.
unfoldable pub add_comp :
    Components → (spurious : ℕ → Bool) → World → Option Comp → (dc : ℕ) → Option (ℕ × World)
add_comp cs spurious w none dc = some (null, w)
add_comp cs spurious w (some c) dc =
    let w' = fresh_dc w dc c.address in
    let placed = or_abort cs w' dc (place spurious w.max_count 0 dc w') in
    if (if c.has_process_msg then false else true) || (c.name_length == 0) || (dc == null)
    then some (null, w)
    else placed

abbrev pub is_of : World → ℕ → Slot → Bool
is_of w comp (held dc) = comp == w.comp dc
is_of w comp _ = false

abbrev pub removed_ok : Option World → Option (Status × World)
removed_ok none = none
removed_ok (some w) = some (ok, w)

-- The loop of `AcDispatcher_rmv_comp`. It waits at a slot that is being processed until another
-- thread changes that: with this thread alone the call does not return.
unfoldable pub rmv_from : ℕ → Components → (rounds i comp : ℕ) → World → Option (Status × World)
rmv_from fuel cs zero i comp w = some (err, w)
rmv_from fuel cs (suc rounds) i comp w =
    let rest = rmv_from fuel cs rounds (i + 1) comp w in
    if is_processing (w.slot i)
    then none
    else (if is_of w comp (w.slot i) then removed_ok (rmv_dc fuel cs w i) else rest)

unfoldable pub rmv_comp : ℕ → Components → World → (comp : ℕ) → Option (Status × World)
rmv_comp fuel cs w comp =
    if comp == null then some (bad_param, w) else rmv_from fuel cs w.max_count 0 comp w

abbrev pub and_next : Option World → (World → Option World) → Option World
and_next none rest = none
and_next (some w) rest = rest w

-- The loop of `AcDispatcher_ret`, which removes what is in every slot.
unfoldable pub ret_from : ℕ → Components → (rounds i : ℕ) → World → Option World
ret_from fuel cs zero i w = some w
ret_from fuel cs (suc rounds) i w =
    and_next (rmv_dc fuel cs w i) (λ w'. ret_from fuel cs rounds (i + 1) w')

unfoldable pub ret : ℕ → Components → World → Option World
ret fuel cs w = ret_from fuel cs w.max_count 0 w
