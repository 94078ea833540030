-- ===== src/MsgPool/Calls.antt =====
-- `AcMsgPool_get_msg`, `AcMsgPool_ret_msg` and `AcMsgPool_deinit`, over the pools and the messages
-- by address.
use sadie.Prelude.{update, ℕ, Bool, Option, none, some, ◌||◌, List, ◌∷◌, ◌==◌, if◌then◌else◌}
use sadie.Word.{null}
use sadie.RingBuff.{RingBuff, add_mem, rmv_mem}
use sadie.RingBuff.Setup
use sadie.MsgPool.{Pool, Heap}

-- `freed` lists what was given back to the allocator, last first.
pub record World : Type 0 where
  pub pool : ℕ → Pool
  pub heap : Heap
  pub freed : List ℕ

abbrev pub set_ring : World → ℕ → RingBuff → World
set_ring w mp rb = record w { pool = update w.pool mp (record (w.pool mp) { rb = rb }) }

abbrev pub set_len : World → ℕ → ℕ → World
set_len w msg len = record w {
  heap = record (w.heap) { len_extra = update w.heap.len_extra msg len };
}

-- `none` is a call of the ring that does not return.
abbrev pub after_rmv : World → ℕ → Option (ℕ × RingBuff) → Option (ℕ × World)
after_rmv w mp none = none
after_rmv w mp (some (msg, rb)) =
    if msg == null
    then some (null, set_ring w mp rb)
    else some (msg, set_len (set_ring w mp rb) msg (w.pool mp).len_extra)

unfoldable pub get_msg : World → (mp : ℕ) → Option (ℕ × World)
get_msg w mp = if mp == null then some (null, w) else after_rmv w mp (rmv_mem (w.pool mp).rb)

-- The result of add_mem is not looked at.
abbrev pub after_add_mem : World → ℕ → Option (Bool × RingBuff) → Option World
after_add_mem w mp none = none
after_add_mem w mp (some (_, rb)) = some (set_ring w mp rb)

unfoldable pub ret_msg : World → (msg : ℕ) → Option World
ret_msg w msg =
    let mp = w.heap.mp msg in
    if msg == null || mp == null then some w else after_add_mem w mp (add_mem (w.pool mp).rb msg)

-- The nodes are not given back: they may still be in use.
unfoldable pub deinit : World → (mp : ℕ) → World
deinit w mp =
    let p = w.pool mp in
    let emptied = record w {
      pool = update w.pool mp (record p { rb = (Setup.deinit p.rb).1 });
      freed = p.msgs_raw ∷ w.freed;
    } in
    if mp == null then w else emptied
