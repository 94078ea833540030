-- ===== src/Keyboard.antt =====
-- The keyboard's controller: arch/x86/libs/ac_keyboard_impl/incs/keyboard_impl.h. The ports, the
-- waiting and the clock are those of a `Device` with a state of its own.
pub mod Port
pub mod Early
pub mod Masks
pub mod Polls
mod Tests
use sadie.Prelude.{
  ℕ, zero, suc, ◌+◌, ◌-◌, ◌*◌, Bool, true, false, ◌&&◌, some, none, ◌==◌, ltb, if◌then◌else◌,
}
use Prim.Native.Nat.{bit_and, bit_or}
use Port.{Device, Action, pure, busy, reads, does, ◌>>=◌, ◌>>◌}

abbrev pub one_ms : ℕ
one_ms = 1000000

abbrev pub ten_ms : ℕ
ten_ms = 10 * one_ms

abbrev pub one_sec : ℕ
one_sec = 1000 * one_ms

-- `POLL_DELAY`
abbrev pub poll_delay : ℕ
poll_delay = ten_ms

-- What a read with a timeout returns: -1, or a byte.
pub data Read : Type 0 where
  timed_out : Read
  got : (val : ℕ) → Read

-- A configuration, with the read-only bits of the current one.
abbrev pub merged : (cur_config config : ℕ) → ℕ
merged cur_config config = bit_or (bit_and cur_config 0x8c) (bit_and config 0x73)

module _ {S : Type 0} (d : Device S) where
  -- The loops that wait for the status have no end of their own: with no fuel left the action is busy.
  unfoldable pub rd_data : (fuel : ℕ) → Action S ℕ
  rd_data zero = busy
  rd_data (suc fuel) =
      let again = rd_data fuel in
      do status ← reads d.rd_status; if bit_and status 1 == 0 then again else reads d.rd_data_now

  -- The loop of `keyboard_rd_data_with_timeout` and what follows it.
  unfoldable pub poll : (fuel : ℕ) → (ready : Bool) → (ns : ℕ) → Action S Read
  poll fuel true ns = do val ← reads d.rd_data_now; pure (got val)
  poll fuel false zero = pure timed_out
  poll zero false (suc ns) = busy
  poll (suc fuel) false (suc ns) =
      let left = if ltb poll_delay (suc ns) then suc ns - poll_delay else 0 in
      do
        does (d.wait_ns poll_delay)
        status ← reads d.rd_status
        poll fuel (bit_and status 1 == 1) left

  unfoldable pub rd_data_with_timeout : (fuel ns : ℕ) → Action S Read
  unfolding poll
  rd_data_with_timeout fuel ns = do status ← reads d.rd_status; poll fuel (bit_and status 1 == 1) ns

  -- The loop before a write, and the write.
  unfoldable pub when_free : (fuel : ℕ) → (S → S) → Action S Unit
  when_free zero write = busy
  when_free (suc fuel) write =
      let again = when_free fuel write in
      do status ← reads d.rd_status; if bit_and status 2 == 2 then again else does write

  abbrev pub wr_data : (fuel val : ℕ) → Action S Unit
  wr_data fuel val = when_free fuel (d.wr_data val)

  abbrev pub wr_cmd : (fuel cmd : ℕ) → Action S Unit
  wr_cmd fuel cmd = when_free fuel (d.wr_cmd cmd)

  unfoldable pub rd_config : (fuel : ℕ) → Action S ℕ
  unfolding rd_data when_free
  rd_config fuel = do wr_cmd fuel 0x20; rd_data fuel

  unfoldable pub wr_config : (fuel config : ℕ) → Action S Unit
  unfolding rd_config when_free
  wr_config fuel config = do
    cur_config ← rd_config fuel
    wr_cmd fuel 0x60
    wr_data fuel (merged cur_config config)

  abbrev pub rd_controller_output : (fuel : ℕ) → Action S ℕ
  rd_controller_output fuel = do wr_cmd fuel 0xd0; rd_data fuel

  abbrev pub wr_controller_output : (fuel val : ℕ) → Action S Unit
  wr_controller_output fuel val = do wr_cmd fuel 0xd1; wr_cmd fuel val

  -- A command whose answer is compared: `keyboard_post` and the tests of the channels.
  abbrev pub test : (fuel cmd passed : ℕ) → Action S Bool
  test fuel cmd passed = do wr_cmd fuel cmd; val ← rd_data fuel; pure (val == passed)

  abbrev pub post : (fuel : ℕ) → Action S Bool
  post fuel = test fuel 0xaa 0x55

  abbrev pub test_channel1 : (fuel : ℕ) → Action S Bool
  test_channel1 fuel = test fuel 0xab 0

  abbrev pub test_channel2 : (fuel : ℕ) → Action S Bool
  test_channel2 fuel = test fuel 0xa9 0

  abbrev pub disable_channel1 : (fuel : ℕ) → Action S Unit
  disable_channel1 fuel = wr_cmd fuel 0xad

  abbrev pub disable_channel2 : (fuel : ℕ) → Action S Unit
  disable_channel2 fuel = wr_cmd fuel 0xa7

  abbrev pub enable_channel1 : (fuel : ℕ) → Action S Bool
  enable_channel1 fuel = do
    wr_cmd fuel 0xae
    config ← rd_config fuel
    pure (bit_and config 0x10 == 0)

  abbrev pub enable_channel2 : (fuel : ℕ) → Action S Bool
  enable_channel2 fuel = do
    wr_cmd fuel 0xa8
    config ← rd_config fuel
    pure (bit_and config 0x20 == 0)

  unfoldable pub has_dual_channels : (fuel : ℕ) → Action S Bool
  unfolding rd_config
  has_dual_channels fuel = do
    result ← enable_channel2 fuel
    if result then disable_channel2 fuel else pure tt
    pure result

  abbrev pub send_device : (fuel channel val : ℕ) → Action S Unit
  send_device fuel channel val =
      if channel == 1 then wr_data fuel val else do wr_cmd fuel 0xd4; wr_data fuel val
