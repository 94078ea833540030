-- ===== src/MsgPool.antt =====
-- `AcMsgPool` of libs/ac_msg_pool: messages and their nodes in two aligned allocations, kept in a
-- ring buffer. The integers are those of the 64-bit platforms.
pub mod Align
pub mod Fill
pub mod Calls
pub mod Client
mod Tests
use Prim.Native.Nat.{bit_and}
use sadie.Prelude.{
  update, ℕ, zero, suc, ◌+◌, ◌-◌, ◌*◌, ◌^◌, Bool, true, false, Option, none, some, ◌&&◌, ◌||◌, ◌==◌,
  leb, if◌then◌else◌,
}
use sadie.Word.{u32, u64, null, Status, ok, bad_param, out_of_memory}
use sadie.Word.Bits.{count_one_bits}
use sadie.RingBuff.{Cell, RingBuff, add_mem, rmv_mem}
use sadie.RingBuff.Setup
use sadie.LinkList.{NextPtr}

-- What `ac_calloc_align` leaves: its status, and the three values that it stores through its
-- pointers if the status is OK. `limit` is the end of the allocation.
pub record Aligned : Type 0 where
  pub status : Status
  pub raw : ℕ
  pub aligned : ℕ
  pub elem_size : ℕ
  pub limit : ℕ

-- The complement of `alignment - 1` in an AcUptr.
abbrev pub align_mask : ℕ → ℕ
align_mask alignment = 2 ^ 64 - 1 - (alignment - 1)

-- `elem_size = (size + alignment - 1) & mask`, where the sum is an AcU32.
abbrev pub elem_size_of : ℕ → ℕ → ℕ
elem_size_of size alignment =
    u32 (bit_and (u32 (size + alignment + 2 ^ 32 - 1)) (align_mask alignment))

-- `allocation_size = (elem_size * count) + alignment - 1`, computed in an AcU32.
abbrev pub allocation_size : ℕ → ℕ → ℕ → ℕ
allocation_size count size alignment =
    u32 (elem_size_of size alignment * count + alignment + 2 ^ 32 - 1)

-- `ac_calloc_align`, whose three pointers its callers in the pool never leave NULL. `calloc` is a
-- parameter: the address that it returns for a number of bytes, or NULL.
unfoldable pub calloc_align : (calloc : ℕ → ℕ) (count size alignment : ℕ) → Aligned
calloc_align calloc count size alignment =
    let refused : Aligned = record {
      status = bad_param;
      raw = null;
      aligned = null;
      elem_size = 0;
      limit = 0;
    } in
    let raw = calloc (allocation_size count size alignment) in
    let dry : Aligned = record {
      status = out_of_memory;
      raw = null;
      aligned = null;
      elem_size = 0;
      limit = 0;
    } in
    let given : Aligned = record {
      status = ok;
      raw = raw;
      aligned = bit_and (u64 (raw + alignment + 2 ^ 64 - 1)) (align_mask alignment);
      elem_size = elem_size_of size alignment;
      limit = raw + allocation_size count size alignment;
    } in
    if (count == 0) || (size == 0) || (if count_one_bits alignment == 1 then false else true)
    then refused
    else (if raw == null then dry else given)

-- `AcMsgPool`
pub record Pool : Type 0 where
  pub rb : RingBuff
  pub len_extra : ℕ
  pub msgs_raw : ℕ
  pub msgs : ℕ
  pub next_ptrs_raw : ℕ
  pub next_ptrs : ℕ

-- The fields of the messages that the pool writes, and the nodes, by address.
pub record Heap : Type 0 where
  pub node : ℕ → NextPtr
  pub next_ptr : ℕ → ℕ
  pub mp : ℕ → ℕ
  pub len_extra : ℕ → ℕ

-- One round of the loop that adds the messages, before the ring is called.
abbrev pub prepare : Heap → (mp base base_np : ℕ) → Heap
prepare h mp base base_np = record h {
  node = update h.node base_np (record { next = null; msg = null });
  mp = update h.mp base mp;
  next_ptr = update h.next_ptr base base_np;
}

pub data Filled : Type 0 where
  filled : RingBuff → Heap → Filled
  failed : Filled  -- `ac_fail`
  stuck : Filled  -- the call of add_mem does not return
  out_of_bounds : Filled  -- a write past the end of an allocation

abbrev pub after_add : Option (Bool × RingBuff) → (RingBuff → Filled) → Filled
after_add none rest = stuck
after_add (some (true, rb)) rest = rest rb
after_add (some (false, rb)) rest = failed

-- Whether the message of 40 bytes and the node of 16 bytes end inside the two allocations.
abbrev pub inside : (base base_np limit limit_np : ℕ) → Bool
inside base base_np limit limit_np = leb (base + 40) limit && leb (base_np + 16) limit_np

-- `for (i = 0; i < msg_count; i++)`, with the rounds left, in allocations that end at the limits.
unfoldable pub fill :
    (rounds mp base base_np size_entry size_next limit limit_np : ℕ) → RingBuff → Heap → Filled
fill zero mp base base_np size_entry size_next limit limit_np rb h = filled rb h
fill (suc rounds) mp base base_np size_entry size_next limit limit_np rb h =
    let added = after_add (add_mem rb base) (λ rb'.
      fill rounds mp (base + size_entry) (base_np + size_next) size_entry size_next limit limit_np
        rb' (prepare h mp base base_np)) in
    if inside base base_np limit limit_np then added else out_of_bounds

-- What `AcMsgPool_init` leaves. `released` are the allocations that it gives back.
pub data Outcome : Type 0 where
  returned : Status → Pool → Heap → Outcome
  released : Status → Pool → (msgs_raw next_ptrs_raw : ℕ) → Outcome
  no_pool : Outcome  -- BAD_PARAM for a NULL pool
  crashed : Outcome
  failed : Outcome
  stuck : Outcome
  out_of_bounds : Outcome

abbrev pub after_fill : Pool → Filled → Outcome
after_fill p (filled rb h) = returned ok (record p { rb = rb }) h
after_fill p failed = failed
after_fill p stuck = stuck
after_fill p out_of_bounds = out_of_bounds

abbrev pub after_ring : (RingBuff → Outcome) → Pool → Setup.Outcome → Outcome
after_ring go p (Setup.returned ok (some rb)) = go rb
after_ring go p (Setup.returned ok none) = crashed
after_ring go p (Setup.returned s none) = released s p p.msgs_raw p.next_ptrs_raw
after_ring go p (Setup.returned s (some rb)) =
    released s (record p { rb = rb }) p.msgs_raw p.next_ptrs_raw
after_ring go p Setup.crashed = crashed

-- A status that is not OK ends the function with both allocations given back.
abbrev pub unless_ok : Pool → Status → Outcome → Outcome
unless_ok p ok rest = rest
unless_ok p s rest = released s p p.msgs_raw p.next_ptrs_raw

-- `AcMsgPool_init`. sizeof(AcMsg) is 40, sizeof(AcNextPtr) 16, AC_MAX_CACHE_LINE_LEN 64. The two
-- calls of `calloc` and the one of `malloc`, for the ring, are parameters.
unfoldable pub init :
    (calloc calloc' : ℕ → ℕ) (malloc : ℕ → Option (ℕ → Cell))
    → Heap
    → (mp : ℕ) → Pool
    → (msg_count len_extra : ℕ) → Outcome
init calloc calloc' malloc h mp p msg_count len_extra =
    let cleared = record p {
      msgs_raw = null;
      next_ptrs_raw = null;
      msgs = null;
      len_extra = len_extra;
    } in
    let m = calloc_align calloc msg_count (u32 (40 + len_extra)) 8 in
    let with_msgs = record cleared { msgs_raw = m.raw; msgs = m.aligned } in
    let n = calloc_align calloc' msg_count 16 64 in
    let with_nodes = record with_msgs { next_ptrs_raw = n.raw; next_ptrs = n.aligned } in
    let adding = λ (rb : RingBuff).
      after_fill with_nodes
        (fill msg_count mp m.aligned n.aligned m.elem_size n.elem_size m.limit n.limit rb h) in
    let ring = after_ring adding with_nodes (Setup.init malloc (some p.rb) msg_count) in
    if mp == null then no_pool else unless_ok cleared m.status (unless_ok with_msgs n.status ring)
