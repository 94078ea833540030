-- ===== src/Dispatcher.antt =====
-- The dispatcher of libs/ac_dispatcher: an array of slots for components, each with its queue of
-- messages. A queue is a first-in first-out list, the view of AcMpscLinkList in `LinkList.Fifo`.
pub mod Slots
pub mod Rounds
pub mod Removal
mod Tests
use sadie.Prelude.{
  update, ℕ, zero, suc, ◌+◌, ◌-◌, Bool, true, false, Option, none, some, ◌&&◌, ◌||◌, ◌==◌, ltb,
  if◌then◌else◌, List, [], ◌∷◌, ◌++◌,
}
use sadie.Word.{Status, ok, err, bad_param}

-- The operations of messages: the two commands of libs/incs/ac_msg.h and the components' own.
pub data Message : Type 0 where
  init_cmd : Message
  deinit_cmd : Message
  user : (op : ℕ) → Message

-- An entry of `dcs`: DC_EMPTY, DC_PROCESSING or an AcDispatchableComp.
pub data Slot : Type 0 where
  empty : Slot
  processing : Slot
  held : (dc : ℕ) → Slot

-- The dispatcher, never NULL, and the AcDispatchableComp's by address: their component, queue, and the messages that are left in
-- their pool of two; `freed` tells which have been given back. `log` lists the calls of
-- process_msg, last first.
pub record World : Type 0 where
  pub max_count : ℕ
  pub slot : ℕ → Slot
  pub comp : ℕ → ℕ
  pub queue : ℕ → List Message
  pub cmds : ℕ → ℕ
  pub freed : ℕ → Bool
  pub log : List (ℕ × Message)

abbrev pub set_slot : World → ℕ → Slot → World
set_slot w i s = record w { slot = update w.slot i s }

-- `AcDispatcher_send_msg`
unfoldable pub send_msg : World → (dc : ℕ) → Message → World
send_msg w dc m = record w { queue = update w.queue dc (w.queue dc ++ (m ∷ [])) }

-- The components are a parameter: what a component sends, and to which AcDispatchableComp's, while
-- it processes a message, after the calls made so far.
abbrev pub Components : Type 0
Components = List (ℕ × Message) → (comp : ℕ) → Message → List (ℕ × Message)

abbrev pub send_all : World → List (ℕ × Message) → World
send_all w [] = w
send_all w ((dc, m) ∷ ms) = send_all (send_msg w dc m) ms

-- `dc->comp->process_msg(dc->comp, msg)`
unfoldable pub deliver : Components → World → (dc : ℕ) → Message → World
unfolding send_msg
deliver cs w dc m = let c = w.comp dc in send_all (record w { log = (c, m) ∷ w.log }) (cs w.log c m)

abbrev pub after_rmv : Option (Bool × World) → Option (Bool × World)
after_rmv none = none
after_rmv (some (_, w)) = some (true, w)

-- `process_msgs` on fuel: messages that a component sends to itself are processed too.
unfoldable pub process_msgs : ℕ → Components → World → (dc : ℕ) → Option (Bool × World)
process_msgs zero cs w dc = none
process_msgs (suc fuel) cs w dc = elim (w.queue dc) [
  | [] ↦ some (false, w)
  | m ∷ ms ↦
      after_rmv
        (process_msgs fuel cs (deliver cs (record w { queue = update w.queue dc ms }) dc m) dc)
]

-- `ret_dc`; none is a NULL message where the pool of the AcDispatchableComp has no message left.
unfoldable pub ret_dc : Components → World → (dc : ℕ) → (aborting : Bool) → Option World
ret_dc cs w dc true = some (record w { freed = update w.freed dc true })
ret_dc cs w dc false =
    let taken = record w { cmds = update w.cmds dc (w.cmds dc - 1) } in
    let told = deliver cs taken dc deinit_cmd in
    if w.cmds dc == 0 then none else some (record told { freed = update told.freed dc true })

abbrev pub and_ret_dc : Components → (dc : ℕ) → Option (Bool × World) → Option World
and_ret_dc cs dc none = none
and_ret_dc cs dc (some (_, w)) = ret_dc cs w dc false

abbrev pub removed_slot : ℕ → Components → World → Slot → Option World
removed_slot fuel cs w (held dc) = and_ret_dc cs dc (process_msgs fuel cs w dc)
removed_slot fuel cs w _ = some w

-- `rmv_dc`
unfoldable pub rmv_dc : ℕ → Components → World → (i : ℕ) → Option World
rmv_dc fuel cs w i = removed_slot fuel cs (set_slot w i empty) (w.slot i)

-- What other threads and the processor do while a slot is processed: `removed`, a concurrent rmv_dc
-- exchanges the slot for DC_EMPTY; `spurious`, the weak compare-exchange fails for no reason.
pub record Chance : Type 0 where
  pub removed : Bool
  pub spurious : Bool

abbrev pub chance : Bool → Bool → Chance
chance r s = record { removed = r; spurious = s }

abbrev pub is_processing : Slot → Bool
is_processing processing = true
is_processing _ = false

-- The compare-exchange that puts the AcDispatchableComp back, and the return when it fails.
abbrev pub restore : Components → Chance → World → (i dc : ℕ) → Option World
restore cs ch w i dc =
    if is_processing (w.slot i) && (if ch.spurious then false else true)
    then some (set_slot w i (held dc))
    else ret_dc cs w dc false

abbrev pub with_flag : Bool → Option World → Option (Bool × World)
with_flag p none = none
with_flag p (some w) = some (p, w)

abbrev pub restored :
    Components → Chance → (i dc : ℕ) → Option (Bool × World) → Option (Bool × World)
restored cs ch i dc none = none
restored cs ch i dc (some (p, w)) =
    with_flag p (restore cs ch (if ch.removed then set_slot w i empty else w) i dc)

-- One round of the loop of `AcDispatcher_dispatch`, with the value of `processed_msgs` before it.
abbrev pub visit :
    ℕ → Components → Chance → World → (i : ℕ) → (before : Bool) → Slot → Option (Bool × World)
visit fuel cs ch w i before empty = some (before, set_slot w i empty)
visit fuel cs ch w i before processing = some (before, w)
visit fuel cs ch w i before (held dc) = restored cs ch i dc (process_msgs fuel cs w dc)

unfoldable pub dispatch_slot :
    ℕ → Components → Chance → World → (i : ℕ) → (before : Bool) → Option (Bool × World)
dispatch_slot fuel cs ch w i before = visit fuel cs ch (set_slot w i processing) i before (w.slot i)

abbrev pub next_slot :
    Option (Bool × World) → (Bool → World → Option (Bool × World)) → Option (Bool × World)
next_slot none rest = none
next_slot (some (p, w)) rest = rest p w

-- The loop from slot `i` on, with the rounds left.
unfoldable pub dispatch_from :
    ℕ → Components → (ℕ → Chance) → (rounds i : ℕ) → Bool → World → Option (Bool × World)
dispatch_from fuel cs chance zero i p w = some (p, w)
dispatch_from fuel cs chance (suc rounds) i p w =
    next_slot (dispatch_slot fuel cs (chance i) w i p)
      (λ p' w'. dispatch_from fuel cs chance rounds (i + 1) p' w')

-- `AcDispatcher_dispatch`
unfoldable pub dispatch : ℕ → Components → (ℕ → Chance) → World → Option (Bool × World)
dispatch fuel cs chance w = dispatch_from fuel cs chance w.max_count 0 false w
