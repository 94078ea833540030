-- ===== src/MsgPool/Tests.antt =====
-- The theorems on message pools at concrete inputs.
use sadie.Prelude.{
  ℕ, zero, suc, ◌+◌, ◌*◌, ◌%◌, ◌^◌, ◌≤◌, ◌≡◌, ◌≢◌, refl, some, [], ◌∷◌, arith, ◌==◌, if◌then◌else◌,
  get_or,
}
use sadie.Word.{ok}
use sadie.RingBuff.{Cell, RingBuff}
use sadie.RingBuff.Refine.{Holds}
use sadie.MsgPool.{Pool, Heap, returned, init, calloc_align}
use sadie.MsgPool.Align.{round_up, needed, calloc_align-fits}
use sadie.MsgPool.Fill.{addresses, Prepared, init-Prepared}
use sadie.MsgPool.Calls.{World, get_msg, ret_msg}
use sadie.MsgPool.Client.{ret_msg-get_msg}

-- Five elements of 20 bytes, aligned on 8, from an allocator that returns 1003.
calloc_align-fits_example :
    let a = calloc_align (λ _. 1003) 5 20 (2 ^ 3) in
    (a.status ≡ ok)
    × (a.raw ≡ 1003)
    × (a.elem_size ≡ round_up 20 (2 ^ 3))
    × (20 ≤ a.elem_size)
    × (a.aligned % 2 ^ 3 ≡ 0)
    × (a.raw ≤ a.aligned)
    × (a.aligned + a.elem_size * 5 ≤ a.raw + needed 5 20 (2 ^ 3))
    × (a.limit ≡ a.raw + needed 5 20 (2 ^ 3))
calloc_align-fits_example =
    calloc_align-fits 3 (omega arith) (λ _. 1003) 5 20 (omega arith) (omega arith) (omega arith)
      (omega arith) (omega arith) (omega arith)

abbrev zeros : ℕ → Cell
zeros _ = record { mem = 0; seq = 0 }

abbrev raw_pool : Pool
raw_pool = record {
  rb = record {
    add_idx = 0;
    rmv_idx = 0;
    size = 0;
    mask = 0;
    cells = zeros;
    allocated = 0;
    count = 0;
    processed = 0;
  };
  len_extra = 0;
  msgs_raw = 0;
  msgs = 0;
  next_ptrs_raw = 0;
  next_ptrs = 0;
}

abbrev blank : Heap
blank = record {
  node = λ _. record { next = 0; msg = 0 };
  next_ptr = λ _. 0;
  mp = λ _. 0;
  len_extra = λ _. 0;
}

-- A pool of four messages with 8 bytes of extra data each.
init-Prepared_example :
    let m = calloc_align (λ _. 1000) (2 ^ 2) (40 + 8) 8 in
    let n = calloc_align (λ _. 5000) (2 ^ 2) 16 64 in
    (p' : Pool) × (h' : Heap) × (init
        (λ _. 1000)
        (λ _. 5000)
        (λ _. some zeros)
        blank
        77
        raw_pool
        (2 ^ 2)
        8
      ≡ returned ok p' h')
    × (p'.len_extra ≡ 8)
    × Holds 2 (addresses (2 ^ 2) m.aligned m.elem_size) p'.rb
    × Prepared 77 m.aligned n.aligned m.elem_size n.elem_size (2 ^ 2) blank h'
init-Prepared_example =
    init-Prepared (λ _. 1000) (λ _. 5000) (λ _. some zeros) blank raw_pool 77 2 8 (omega arith)
      (omega arith) (omega arith) (omega arith) (omega arith) (omega arith) (omega arith)
      (omega arith) refl

-- A ring of two cells that holds the message 1000.
abbrev small_ring : RingBuff
small_ring = record {
  add_idx = 1;
  rmv_idx = 0;
  size = 2;
  mask = 1;
  cells = λ i. if i == 0 then record { mem = 1000; seq = 1 } else record { mem = 0; seq = 1 };
  allocated = 2;
  count = 0;
  processed = 0;
}

small_ring-Holds : Holds 1 (1000 ∷ []) small_ring
small_ring-Holds = (
  0,
  record {
    least = omega arith;
    greatest = omega arith;
    sized = refl;
    masked = refl;
    backed = refl;
    rmv_at = refl;
    add_at = refl;
    fits = omega arith;
    filled = filled;
    free = free;
    real = real;
  },
)
  where
    filled :
        (i : ℕ)
        → suc i ≤ 1
        → small_ring.cells ((0 + i) % 2)
          ≡ record { mem = get_or (1000 ∷ []) i 0; seq = (0 + i + 1) % 2 ^ 32 }
    filled zero h = refl
    filled (suc i) h = absurd (omega arith)

    free : (i : ℕ) → 1 ≤ i → suc i ≤ 2 → (small_ring.cells ((0 + i) % 2)).seq ≡ (0 + i) % 2 ^ 32
    free zero l h = absurd (omega arith)
    free (suc zero) l h = refl
    free (suc (suc i)) l h = absurd (omega arith)

    real : (i : ℕ) → suc i ≤ 1 → get_or {A = ℕ} (1000 ∷ []) i 0 ≢ 0
    real zero h e = omega arith
    real (suc i) h e = omega arith

abbrev world : World
world = record {
  pool = λ _. record raw_pool { rb = small_ring; len_extra = 24 };
  heap = record blank { mp = λ _. 77 };
  freed = [];
}

ret_msg-get_msg_example :
    (w1 w2 : World) × (get_msg world 77 ≡ some (1000, w1))
    × (w1.heap.len_extra 1000 ≡ 24)
    × Holds 1 [] (w1.pool 77).rb
    × (ret_msg w1 1000 ≡ some w2)
    × Holds 1 (1000 ∷ []) (w2.pool 77).rb
ret_msg-get_msg_example = ret_msg-get_msg world 77 1000 (omega arith) small_ring-Holds refl
