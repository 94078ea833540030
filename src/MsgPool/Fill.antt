-- ===== src/MsgPool/Fill.antt =====
-- What `AcMsgPool_init` leaves in the ring, the messages and the nodes.
use sadie.Prelude.{
  ℕ, zero, suc, ◌+◌, ◌*◌, ◌^◌, ◌≤◌, ◌<◌, ◌≡◌, ◌≢◌, refl, ◌∙◌, true, false, Option, some, List, [],
  ◌∷◌, ◌++◌, arith, ◌==◌, length, length-append,
}
use mathlib.Core.List.{append_assoc, append-nil}
use sadie.Word.{null, ok, u32}
use sadie.RingBuff.{Cell, RingBuff, add_mem}
use sadie.RingBuff.Spec
use sadie.RingBuff.Refine.{Holds, add_mem_refines}
use sadie.RingBuff.Start.{init-Holds}
use sadie.MsgPool.{Heap, Pool, prepare, inside, filled, fill, returned, init, calloc_align}
use sadie.MsgPool.Align.{round_up, needed, calloc_align-fits}
use sadie.Prelude.Bits.{pow_mono}
use native.Mathlib.Nat.{mul_comm, mul-le-mul_left}

-- The addresses of `n` elements from `base` on.
pub addresses : ℕ → ℕ → ℕ → List ℕ
addresses zero base size = []
addresses (suc n) base size = base ∷ addresses n (base + size) size

-- The messages from `base` on belong to the pool `mp` and own the nodes from `base_np` on.
pub record Prepared (mp base base_np size size_np n : ℕ) (h h' : Heap) : Type 0 where
  pub owner : (i : ℕ) → i < n → h'.mp (base + i * size) ≡ mp
  pub node_of : (i : ℕ) → i < n → h'.next_ptr (base + i * size) ≡ base_np + i * size_np
  pub below_mp : (a : ℕ) → a < base → h'.mp a ≡ h.mp a
  pub below_next : (a : ℕ) → a < base → h'.next_ptr a ≡ h.next_ptr a

pub add_mem-room :
    {k : ℕ} {q : List ℕ} {rb : RingBuff} (x : ℕ)
    → Holds k q rb
    → x ≢ 0
    → length q < 2 ^ k
    → (rb' : RingBuff) × (add_mem rb x ≡ some (true, rb')) × Holds k (q ++ (x ∷ [])) rb'
unfolding Spec.push
add_mem-room {k} {q} x held real room =
    let (rb', e, held') = add_mem_refines x held in
    let r : (x == 0) ≡ false = ground arith in
    let m : (length q == 2 ^ k) ≡ false = ground arith in (rb', rw (r, m) at e, rw (r, m) at held')

-- In a ring and in allocations with room for them the loop adds all messages, in order, and gives
-- each its node.
pub fill-Prepared :
    (n mp base base_np size size_np limit limit_np : ℕ) {k : ℕ} {q : List ℕ} {rb : RingBuff}
    (h : Heap)
    → Holds k q rb
    → length q + n ≤ 2 ^ k
    → 0 < base
    → 40 ≤ size
    → 16 ≤ size_np
    → base + n * size ≤ limit
    → base_np + n * size_np ≤ limit_np
    → (rb' : RingBuff) × (h' : Heap) × (fill n mp base base_np size size_np limit limit_np rb h
        ≡ filled rb' h')
      × Holds k (q ++ addresses n base size) rb'
      × Prepared mp base base_np size size_np n h h'
unfolding fill addresses
fill-Prepared zero mp base base_np size size_np limit limit_np {q} {rb} h held room real big big'
      ends ends' =
    (
      rb,
      h,
      refl,
      rw (append-nil q) held,
      record {
        owner = λ i lt. absurd (omega arith);
        node_of = λ i lt. absurd (omega arith);
        below_mp = λ a lt. refl;
        below_next = λ a lt. refl;
      },
    )
fill-Prepared (suc n) mp base base_np size size_np limit limit_np {k} {q} {rb} h held room real big
      big' ends ends' =
    let fits : inside base base_np limit limit_np ≡ true = ground arith in
    let (rb1, e, held1) = add_mem-room base held (omega arith) (omega arith) in
    let h1 = prepare h mp base base_np in
    let (rb', h', e', held', p) =
      fill-Prepared n mp (base + size) (base_np + size_np) size size_np limit limit_np h1 held1
        (omega (arith, length-append q (base ∷ []))) (omega arith) big big' (omega arith)
        (omega arith) in
    (
      rb',
      h',
      rw (fits, e) e',
      rw (append_assoc q (base ∷ []) (addresses n (base + size) size)) at held',
      record {
        owner = elim [
          | zero ↦ λ lt.
              let at : base + 0 * size ≡ base = omega arith in
              rw at (p.below_mp base (omega arith) ∙ ground arith)
          | suc i ↦ λ lt.
              let at : base + suc i * size ≡ base + size + i * size = omega arith in
              rw at (p.owner i (omega arith))
        ];
        node_of = elim [
          | zero ↦ λ lt.
              let at : base + 0 * size ≡ base = omega arith in
              let at' : base_np + 0 * size_np ≡ base_np = omega arith in
              rw (at, at') (p.below_next base (omega arith) ∙ ground arith)
          | suc i ↦ λ lt.
              let at : base + suc i * size ≡ base + size + i * size = omega arith in
              rw at (p.node_of i (omega arith) ∙ omega arith)
        ];
        below_mp = λ a lt. p.below_mp a (omega arith) ∙ ground arith;
        below_next = λ a lt. p.below_next a (omega arith) ∙ ground arith;
      },
    )

-- For a message count 2 ^ k, 1 <= k <= 25, a real pool, messages that with their extra data need less
-- than 2 ^ 32 bytes, allocations for both that are below the end of the address space, and one for the
-- ring, init returns OK without a write past an allocation; the ring then holds the addresses of all
-- messages in order, and each belongs to the pool and owns the node of its own place in the second
-- allocation.
pub init-Prepared :
    (calloc calloc' : ℕ → ℕ) (malloc : ℕ → Option (ℕ → Cell)) (h : Heap) (p : Pool)
    (mp k len_extra : ℕ) {contents : ℕ → Cell}
    → 1 ≤ k
    → k ≤ 25
    → mp ≢ null
    → round_up (40 + len_extra) 8 * 2 ^ k + 8 ≤ 2 ^ 32
    → calloc (needed (2 ^ k) (40 + len_extra) 8) ≢ null
    → calloc (needed (2 ^ k) (40 + len_extra) 8) + 8 ≤ 2 ^ 64
    → calloc' (needed (2 ^ k) 16 64) ≢ null
    → calloc' (needed (2 ^ k) 16 64) + 64 ≤ 2 ^ 64
    → malloc (2 ^ k * 16) ≡ some contents
    → let m = calloc_align calloc (2 ^ k) (40 + len_extra) 8 in
      let n = calloc_align calloc' (2 ^ k) 16 64 in
      (p' : Pool) × (h' : Heap) × (init calloc calloc' malloc h mp p (2 ^ k) len_extra
        ≡ returned ok p' h')
      × (p'.len_extra ≡ len_extra)
      × Holds k (addresses (2 ^ k) m.aligned m.elem_size) p'.rb
      × Prepared mp m.aligned n.aligned m.elem_size n.elem_size (2 ^ k) h h'
unfolding init
init-Prepared calloc calloc' malloc h p mp k len_extra lo hi real small given_m room_m given_n
      room_n given =
    let size = 40 + len_extra in
    let m = calloc_align calloc (2 ^ k) size 8 in
    let n = calloc_align calloc' (2 ^ k) 16 64 in
    let two : 2 ≤ 2 ^ k = pow_mono 1 k lo in
    let most : 2 ^ k ≤ 2 ^ 25 = pow_mono k 25 hi in
    let size_le : size ≤ round_up size 8 = omega arith in
    let doubled = mul-le-mul_left (round_up size 8) two in
    let fit_m =
      calloc_align-fits 3 (omega arith) calloc (2 ^ k) size (omega arith) (omega arith)
        (omega arith) small given_m room_m in
    let fit_n =
      calloc_align-fits 6 (omega arith) calloc' (2 ^ k) 16 (omega arith) (omega arith) (omega arith)
        (omega arith) given_n room_n in
    let (ok_m, raw_m, elem_m, big_m, on_m, up_m, in_m, end_m) = fit_m in
    let (ok_n, raw_n, elem_n, big_n, on_n, up_n, in_n, end_n) = fit_n in
    let (rb, e, held) = init-Holds malloc p.rb k lo (omega arith) given in
    let first : 0 < m.aligned = omega arith in
    let inside_m : m.aligned + 2 ^ k * m.elem_size ≤ m.limit =
      omega (arith, mul_comm (2 ^ k) m.elem_size) in
    let inside_n : n.aligned + 2 ^ k * n.elem_size ≤ n.limit =
      omega (arith, mul_comm (2 ^ k) n.elem_size) in
    let (rb', h', e', held', prep) =
      fill-Prepared (2 ^ k) mp m.aligned n.aligned m.elem_size n.elem_size m.limit n.limit h held
        (omega arith) first (omega arith) (omega arith) inside_m inside_n in
    let there : (mp == null) ≡ false = ground arith in
    let no_wrap : u32 size ≡ size = omega arith in
    (
      record {
        rb = rb';
        len_extra = len_extra;
        msgs_raw = m.raw;
        msgs = m.aligned;
        next_ptrs_raw = n.raw;
        next_ptrs = n.aligned;
      },
      h',
      rw (there, no_wrap, ok_m, ok_n, e, e'),
      refl,
      held',
      prep,
    )
