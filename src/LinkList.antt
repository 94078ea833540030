-- ===== src/LinkList.antt =====
-- `AcMpscLinkList` of libs/ac_mpsc_link_list: a queue of messages as a chain of `AcNextPtr` nodes,
-- after Vyukov. A message brings the node that it is queued with, and leaves with the node that the
-- consumer has finished with. Operations are machines with a step for each shared access.
pub mod Chain
pub mod Fifo
pub mod System
pub mod Shared
pub mod Frame
pub mod Exchange
pub mod Link
pub mod Produce
pub mod Consume
pub mod Concurrent
mod Tests
use sadie.Prelude.{
  ℕ, zero, suc, ◌+◌, Bool, true, false, Option, none, some, ◌&&◌, ◌==◌, if◌then◌else◌,
}
use sadie.Word.{u32, u64, sub32, null, Status, ok}

-- `AcNextPtr`
pub record NextPtr : Type 0 where
  pub next : ℕ
  pub msg : ℕ

-- `AcMpscLinkList`, with `stub` the address of its own node, and the memory that it works on: the
-- nodes by address, and the field `next_ptr` of the messages by address.
pub record LinkList : Type 0 where
  pub head : ℕ
  pub tail : ℕ
  pub stub : ℕ
  pub count : ℕ
  pub msgs_processed : ℕ
  pub node : ℕ → NextPtr
  pub next_ptr : ℕ → ℕ

abbrev pub set_node : LinkList → ℕ → NextPtr → LinkList
set_node l p n = record l { node = λ j. if j == p then n else l.node j }

abbrev pub set_next : LinkList → ℕ → ℕ → LinkList
set_next l p q = set_node l p (record { next = q; msg = (l.node p).msg })

-- `AcMpscLinkList_init`
unfoldable pub init : LinkList → Status × LinkList
init l =
    let stubbed = set_node l l.stub (record { next = null; msg = null }) in
    (ok, record stubbed { head = l.stub; tail = l.stub; count = 0; msgs_processed = 0 })

-- `AcMpscLinkList_deinit`
unfoldable pub deinit : LinkList → ℕ × LinkList
deinit l =
    let cut = set_next l l.head null in
    (l.msgs_processed, record cut { head = null; tail = null; count = 0; msgs_processed = 0 })

-- Where a call of `AcMpscLinkList_add` stands. Before `prepared` it writes only the message's own
-- node; between the exchange and `link` the chain is cut in two. NDEBUG
-- compiles the counter at `counting` out.
pub data AddPc : Type 0 where
  enter : AddPc
  prepared : (np : ℕ) → AddPc
  link : (prev np : ℕ) → AddPc
  counting : AddPc
  added : AddPc

unfoldable pub add_step : (msg : ℕ) → LinkList → AddPc → LinkList × AddPc
add_step msg l enter =
    let np = l.next_ptr msg in (set_node l np (record { next = null; msg = msg }), prepared np)
add_step msg l (prepared np) = (record l { head = np }, link l.head np)
add_step msg l (link prev np) = (set_next l prev np, counting)
add_step msg l counting = (l, added)
add_step msg l added = (l, added)

-- Where a call of `AcMpscLinkList_rmv` stands. `spin` is the loop that waits for a producer between
-- its exchange and its link; `failed` is `ac_fail`. NDEBUG compiles the counters at `counting` and
-- `processed` out.
pub data RmvPc : Type 0 where
  enter : RmvPc
  looked : (tail next : ℕ) → RmvPc
  spin : (tail : ℕ) → RmvPc
  take : (tail next : ℕ) → RmvPc
  counting : (msg : ℕ) → RmvPc
  processed : (msg : ℕ) → RmvPc
  returned : (msg : ℕ) → RmvPc
  failed : RmvPc

-- `msg = next->msg; msg->next_ptr = tail; list->tail = next;` and the test that follows.
abbrev pub taken : LinkList → ℕ → ℕ → LinkList × RmvPc
taken l tail next =
    let m = (l.node next).msg in
    let moved = record l { tail = next; next_ptr = λ j. if j == m then tail else l.next_ptr j } in
    (moved, if m == null then failed else counting m)

unfoldable pub rmv_step : LinkList → RmvPc → LinkList × RmvPc
rmv_step l enter = (l, looked l.tail (l.node l.tail).next)
rmv_step l (looked tail next) =
    if (next == null) && (tail == l.head)
    then (l, returned null)
    else (l, if next == null then spin tail else take tail next)
rmv_step l (spin tail) =
    let next = (l.node tail).next in (l, if next == null then spin tail else take tail next)
rmv_step l (take tail next) = taken l tail next
rmv_step l (counting m) = (l, processed m)
rmv_step l (processed m) = (l, returned m)
rmv_step l (returned m) = (l, returned m)
rmv_step l failed = (l, failed)

-- A call of add that nothing interrupts.
unfoldable pub add : LinkList → ℕ → LinkList
unfolding add_step
add l msg =
    let (l1, p1) = add_step msg l enter in
    let (l2, p2) = add_step msg l1 p1 in let (l3, p3) = add_step msg l2 p2 in (add_step msg l3 p3).0

-- A call of rmv that nothing interrupts, on fuel; none if it spins or fails.
unfoldable pub rmv_loop : ℕ → LinkList → RmvPc → Option (ℕ × LinkList)
unfolding rmv_step
rmv_loop fuel l (returned m) = some (m, l)
rmv_loop zero l pc = none
rmv_loop (suc fuel) l pc = let rest = rmv_loop fuel (rmv_step l pc).0 (rmv_step l pc).1 in rest

-- `AcMpscLinkList_rmv`, which takes five steps when it does not spin.
unfoldable pub rmv : LinkList → Option (ℕ × LinkList)
unfolding rmv_loop
rmv l = rmv_loop 5 l enter
