-- ===== src/RingBuff/Setup.antt =====
-- `AcMpscRingBuff_init` and `AcMpscRingBuff_deinit`.
use sadie.Prelude.{ℕ, zero, suc, ◌+◌, ◌*◌, Option, none, some, ◌==◌, ltb, if◌then◌else◌}
use sadie.Word.{sub32, null, Status, ok, bad_param, out_of_memory}
use sadie.Word.Bits.{count_one_bits}
use sadie.RingBuff.{Cell, RingBuff, set_cell}

-- What a call of init leaves: a status and the ring (none for a NULL argument), or a write through
-- NULL.
pub data Outcome : Type 0 where
  returned : Status → Option RingBuff → Outcome
  crashed : Outcome

-- `for (i = 0; i < rb->size; i++)`, with the rounds left; none is a write behind the allocation.
unfoldable pub fill : ℕ → ℕ → RingBuff → Option RingBuff
fill zero i rb = some rb
fill (suc rounds) i rb =
    let rest = fill rounds (i + 1) (set_cell rb i (record { mem = null; seq = i })) in
    if ltb i rb.allocated then rest else none

-- `rb->ring_buffer` after the allocation, which gives `size` cells with some contents or none.
abbrev pub backed_by : Option (ℕ → Cell) → RingBuff → ℕ → RingBuff
backed_by none rb size = record rb { allocated = 0 }
backed_by (some contents) rb size = record rb { cells = contents; allocated = size }

-- The test of `ring_buffer` comes after the loop that writes through it.
abbrev pub finish : Option RingBuff → Outcome
finish none = crashed
finish (some rb) =
    if rb.allocated == 0 then returned out_of_memory (some rb) else returned ok (some rb)

-- `malloc` is a parameter: it takes a number of bytes. A cell has 16.
unfoldable pub init : (ℕ → Option (ℕ → Cell)) → Option RingBuff → ℕ → Outcome
unfolding fill
init malloc none size = returned bad_param none
init malloc (some rb) size =
    let reset = record rb { add_idx = 0; rmv_idx = 0 } in
    let sized = record reset { size = size; mask = sub32 size 1; count = 0; processed = 0 } in
    let filled = fill size 0 (backed_by (malloc (size * 16)) sized size) in
    if count_one_bits size == 1 then finish filled else returned bad_param (some reset)

unfoldable pub deinit : RingBuff → ℕ × RingBuff
deinit rb = (
  rb.processed,
  record rb {
    allocated = 0;
    add_idx = 0;
    rmv_idx = 0;
    size = 0;
    mask = 0;
    count = 0;
    processed = 0;
  },
)
