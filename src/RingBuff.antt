-- ===== src/RingBuff.antt =====
-- `AcMpscRingBuff` of libs/ac_mpsc_ring_buff, a ring of cells with sequence numbers after Vyukov's
-- bounded queue. Each operation is a machine with one step for each access to shared memory, so
-- that the same steps serve a single caller and threads that interleave.
pub mod Spec
pub mod Setup
pub mod Inv
pub mod Add
pub mod Remove
pub mod Refine
pub mod Start
pub mod System
pub mod Shared
pub mod Frame
pub mod Produce
pub mod Win
pub mod Steps
pub mod Consume
pub mod Concurrent
mod Runs
pub mod SizeOne
mod Tests
use Prim.Native.Nat.{bit_and}
use sadie.Prelude.{
  ℕ, zero, suc, ◌+◌, ◌-◌, ◌%◌, ◌^◌, ◌*◌, ◌≡◌, Bool, true, false, Option, none, some, ◌&&◌, ◌==◌,
  if◌then◌else◌,
}
use sadie.Word.{u32, sub32, negative32, null, Status, ok, bad_param, out_of_memory}
use sadie.Word.Bits.{count_one_bits}

-- `RingBuffCell`
pub record Cell : Type 0 where
  pub mem : ℕ
  pub seq : ℕ

-- `struct AcMpscRingBuff`. `allocated` counts the cells behind `ring_buffer`, 0 for `AC_NULL`. The
-- file is compiled with NDEBUG, so `count` and `processed` are written by init and deinit only.
pub record RingBuff : Type 0 where
  pub add_idx : ℕ
  pub rmv_idx : ℕ
  pub size : ℕ
  pub mask : ℕ
  pub cells : ℕ → Cell
  pub allocated : ℕ
  pub count : ℕ
  pub processed : ℕ

-- `rb->ring_buffer[i] = c`
abbrev pub set_cell : RingBuff → ℕ → Cell → RingBuff
set_cell rb i c = record rb { cells = λ j. if j == i then c else rb.cells j }

-- The index of the cell for position `pos`: `pos & rb->mask`.
abbrev pub slot : RingBuff → ℕ → ℕ
slot rb pos = bit_and pos rb.mask

-- Where a call of `AcMpscRingBuff_add_mem` stands, with its live local variables.
pub data AddPc : Type 0 where
  enter : AddPc
  load_seq : (pos : ℕ) → AddPc  -- top of the `while`
  decide : (pos seq : ℕ) → AddPc  -- `dif` and the branches on it
  put_mem : (pos : ℕ) → AddPc
  put_seq : (pos : ℕ) → AddPc
  added : AddPc  -- returned AC_TRUE
  full : AddPc  -- returned AC_FALSE

-- The compare-exchange on `add_idx`. It is a weak one: it may fail for no reason (`spurious`), and
-- a failure loads the current value into `pos`.
abbrev pub exchange : Bool → RingBuff → ℕ → RingBuff × AddPc
exchange spurious rb pos =
    if spurious
    then (rb, load_seq rb.add_idx)
    else (if rb.add_idx == pos
        then (record rb { add_idx = u32 (pos + 1) }, put_mem pos)
        else (rb, load_seq rb.add_idx))

unfoldable pub add_step : (spurious : Bool) (mem : ℕ) → RingBuff → AddPc → RingBuff × AddPc
add_step spurious mem rb enter = if mem == null then (rb, added) else (rb, load_seq rb.add_idx)
add_step spurious mem rb (load_seq pos) = (rb, decide pos (rb.cells (slot rb pos)).seq)
add_step spurious mem rb (decide pos seq) =
    let dif = sub32 seq pos in
    if dif == 0
    then exchange spurious rb pos
    else (if negative32 dif then (rb, full) else (rb, load_seq rb.add_idx))
add_step spurious mem rb (put_mem pos) = (
  set_cell rb (slot rb pos) (record { mem = mem; seq = (rb.cells (slot rb pos)).seq }),
  put_seq pos,
)
add_step spurious mem rb (put_seq pos) = (
  set_cell rb (slot rb pos) (record { mem = (rb.cells (slot rb pos)).mem; seq = u32 (pos + 1) }),
  added,
)
add_step spurious mem rb added = (rb, added)
add_step spurious mem rb full = (rb, full)

-- A call that nothing interrupts and whose exchange does not fail for no reason, on fuel.
unfoldable pub add_loop : ℕ → ℕ → RingBuff → AddPc → Option (Bool × RingBuff)
unfolding add_step
add_loop fuel mem rb added = some (true, rb)
add_loop fuel mem rb full = some (false, rb)
add_loop zero mem rb pc = none
add_loop (suc fuel) mem rb pc =
    let rest = add_loop fuel mem (add_step false mem rb pc).0 (add_step false mem rb pc).1 in rest

-- `AcMpscRingBuff_add_mem`, with fuel for one round of its loop.
unfoldable pub add_mem : RingBuff → ℕ → Option (Bool × RingBuff)
unfolding add_loop
add_mem rb mem = add_loop 5 mem rb enter

-- Where a call of `AcMpscRingBuff_rmv_mem` stands.
pub data RmvPc : Type 0 where
  enter : RmvPc
  check : (pos seq : ℕ) → RmvPc
  take : (pos : ℕ) → RmvPc
  release : (pos mem : ℕ) → RmvPc
  advance : (mem : ℕ) → RmvPc
  returned : (mem : ℕ) → RmvPc

unfoldable pub rmv_step : RingBuff → RmvPc → RingBuff × RmvPc
rmv_step rb enter = (rb, check rb.rmv_idx (rb.cells (slot rb rb.rmv_idx)).seq)
rmv_step rb (check pos seq) =
    if negative32 (sub32 seq (u32 (pos + 1))) then (rb, returned null) else (rb, take pos)
rmv_step rb (take pos) = (rb, release pos (rb.cells (slot rb pos)).mem)
rmv_step rb (release pos mem) = (
  set_cell rb (slot rb pos)
      (record { mem = (rb.cells (slot rb pos)).mem; seq = u32 (pos + rb.size) }),
  advance mem,
)
rmv_step rb (advance mem) = (record rb { rmv_idx = u32 (rb.rmv_idx + 1) }, returned mem)
rmv_step rb (returned mem) = (rb, returned mem)

unfoldable pub rmv_loop : ℕ → RingBuff → RmvPc → Option (ℕ × RingBuff)
unfolding rmv_step
rmv_loop fuel rb (returned mem) = some (mem, rb)
rmv_loop zero rb pc = none
rmv_loop (suc fuel) rb pc = let rest = rmv_loop fuel (rmv_step rb pc).0 (rmv_step rb pc).1 in rest

-- `AcMpscRingBuff_rmv_mem`: straight-line code of five steps. `null` stands for an empty ring.
unfoldable pub rmv_mem : RingBuff → Option (ℕ × RingBuff)
unfolding rmv_loop
rmv_mem rb = rmv_loop 5 rb enter
