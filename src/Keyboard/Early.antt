-- ===== src/Keyboard/Early.antt =====
-- The devices behind the controller, and its initialisation:
-- arch/x86/libs/ac_keyboard_impl/srcs/ac_keyboard_impl.c. What it prints is left out.
use Prim.Native.Nat.{bit_and, bit_or}
use sadie.Prelude.{
  ℕ, zero, suc, ◌+◌, ◌-◌, ◌*◌, ◌^◌, Bool, true, false, ◌&&◌, ◌||◌, ◌==◌, ltb, if◌then◌else◌,
}
use sadie.Word.{u64}
use sadie.Time.{nanos_to_ticks}
use sadie.Keyboard.Port.{Device, Action, pure, busy, reads, ◌>>=◌, ◌>>◌}
use sadie.Keyboard.{
  Read, timed_out, got, one_ms, ten_ms, one_sec, rd_data, rd_data_with_timeout, rd_config,
  wr_config, has_dual_channels, test_channel1, test_channel2, enable_channel1, enable_channel2,
  disable_channel1, disable_channel2, send_device,
}

-- What an answer means to the loops of `keyboard_send_device_get_response`.
pub data Next : Type 0 where
  wait_again : Next
  resend : Next
  return : Next

abbrev pub next_of : (val : ℕ) → Read → Next
next_of val timed_out = wait_again
next_of val (got response) =
    if response == 0xfa
    then return
    else if response == 0xff || response == 0x00 || response == 0xfe
    then resend
    else if response == 0xaa || response == 0xfc || response == 0xfd
    then (if val == 0xff then return else wait_again)
    else return

-- The difference as `ac_sint` is more than 0.
abbrev pub before : (timeout_ticks now : ℕ) → Bool
before timeout_ticks now =
    let diff = u64 (timeout_ticks + 2 ^ 64 - now) in ltb 0 diff && ltb diff (2 ^ 63)

-- An answer in a byte: -1 is 0xff.
abbrev pub as_u8 : Read → ℕ
as_u8 timed_out = 0xff
as_u8 (got val) = val

abbrev pub is : Read → ℕ → Bool
is timed_out val = false
is (got response) val = response == val

-- The static variables.
pub record Channels : Type 0 where
  pub channel1_enabled : Bool
  pub channel1_device_type : Read
  pub channel2_enabled : Bool
  pub channel2_device_type : Read

module _ {S : Type 0} (d : Device S) (freq : ℕ) where
  -- The two loops, with the test of the clock of the outer one when `sending`.
  unfoldable pub respond :
      (fuel : ℕ) → (sending : Bool) → (channel timeout_ticks val : ℕ) → Action S Read
  respond zero sending channel timeout_ticks val = busy
  respond (suc fuel) true channel timeout_ticks val =
      let inner = respond fuel false channel timeout_ticks val in
      do
        now ← reads d.tscrd
        if before timeout_ticks now
            then (do send_device d fuel channel val; inner)
            else pure timed_out
  respond (suc fuel) false channel timeout_ticks val =
      let inner = respond fuel false channel timeout_ticks val in
      let outer = respond fuel true channel timeout_ticks val in
      do
        now ← reads d.tscrd
        if before timeout_ticks now
            then (do
              response ← rd_data_with_timeout d fuel one_ms
              elim (next_of val response) [
                | wait_again ↦ inner
                | resend ↦ outer
                | return ↦ pure response
              ])
            else outer

  unfoldable pub send_device_get_response : (fuel channel timeout_ns val : ℕ) → Action S Read
  unfolding respond nanos_to_ticks
  send_device_get_response fuel channel timeout_ns val = do
    now ← reads d.tscrd
    respond fuel true channel (u64 (now + nanos_to_ticks freq timeout_ns)) val

  unfoldable pub reset_device : (fuel channel : ℕ) → Action S Bool
  unfolding send_device_get_response
  reset_device fuel channel = do
    response ← send_device_get_response fuel channel (100 * one_ms) 0xff
    if is response 0xaa
        then (do val ← rd_data d fuel; pure (val == 0xfa))
        else pure (is response 0xfa)

  -- The answer to the identity command.
  abbrev pub identity : (fuel : ℕ) → Action S Read
  identity fuel = do
    first ← rd_data_with_timeout d fuel ten_ms
    if as_u8 first == 0xab
        then (do second ← rd_data_with_timeout d fuel ten_ms; pure (got (as_u8 second)))
        else pure timed_out

  unfoldable pub get_device_type : (fuel channel : ℕ) → Action S Read
  unfolding send_device_get_response
  get_device_type fuel channel = do
    result ← send_device_get_response fuel channel one_sec 0xf5
    if is result 0xfa
        then (do
          answer ← send_device_get_response fuel channel one_sec 0xf2
          type ← if is answer 0xfa then identity fuel else pure answer
          enabled ← send_device_get_response fuel channel one_sec 0xf4
          pure type)
        else pure timed_out

  unfoldable pub intr_enable : (fuel : ℕ) → Channels → Action S Unit
  unfolding rd_config wr_config
  intr_enable fuel c = do
    config ← rd_config d fuel
    let config1 = if c.channel1_enabled then bit_or config 0x01 else config
    wr_config d fuel (if c.channel2_enabled then bit_or config1 0x02 else config1)

  unfoldable pub intr_disable : (fuel : ℕ) → Channels → Action S Unit
  unfolding rd_config wr_config
  intr_disable fuel c = do
    config ← rd_config d fuel
    let config1 = if c.channel1_enabled then bit_and config 0xfe else config
    wr_config d fuel (if c.channel2_enabled then bit_and config1 0xfd else config1)

  abbrev pub rd_non_blocking : (fuel : ℕ) → Action S Read
  rd_non_blocking fuel = rd_data_with_timeout d fuel 0

  -- The loop that flushes what the devices have sent, `left` times at most.
  abbrev pub flush : (fuel left : ℕ) → Action S Unit
  flush fuel zero = pure tt
  flush fuel (suc left) =
      let rest = flush fuel left in
      do val ← rd_data_with_timeout d fuel ten_ms; elim val [ timed_out ↦ pure tt | got v ↦ rest ]

  unfoldable pub early_init : (fuel : ℕ) → Action S Channels
  unfolding wr_config has_dual_channels rd_data_with_timeout reset_device get_device_type
  early_init fuel = do
    disable_channel1 d fuel
    disable_channel2 d fuel
    old ← rd_data_with_timeout d fuel one_ms
    wr_config d fuel 0
    has_dual ← has_dual_channels d fuel
    test1 ← test_channel1 d fuel
    test2 ← if has_dual then test_channel2 d fuel else pure false
    enabled1 ← if test1 then enable_channel1 d fuel else pure false
    enabled2 ← if test2 then enable_channel2 d fuel else pure false
    reset1 ← if enabled1 then reset_device fuel 1 else pure false
    reset2 ← if enabled2 then reset_device fuel 2 else pure false
    type1 ← if reset1 then get_device_type fuel 1 else pure timed_out
    type2 ← if reset2 then get_device_type fuel 2 else pure timed_out
    flush fuel 20
    pure (record {
      channel1_enabled = enabled1;
      channel1_device_type = type1;
      channel2_enabled = enabled2;
      channel2_device_type = type2;
    })
