-- ===== src/Keyboard/Masks.antt =====
-- Which bits of a configuration keyboard_wr_config of
-- arch/x86/libs/ac_keyboard_impl/incs/keyboard_impl.h keeps.
use Prim.Native.Nat.{bit_and}
use sadie.Prelude.{Bool, true, false, ◌==◌, if◌then◌else◌, ℕ, zero, suc, ◌<◌, ◌≡◌}
use sadie.Keyboard.Port.{Device}

-- The first read of the status, of fewer than `fuel` from `s` on, that passes the test.
module _ {S : Type 0} (d : Device S) where
  abbrev pub polled : (n : ℕ) → S → S
  polled zero s = s
  polled (suc n) s = polled n ((d.rd_status s).1)

  pub record Answers (test : ℕ → Bool) (fuel : ℕ) (s : S) : Type 0 where
    pub count : ℕ
    pub in_time : count < fuel
    pub waits : (j : ℕ) → j < count → test ((d.rd_status (polled j s)).0) ≡ false
    pub ends : test ((d.rd_status (polled count s)).0) ≡ true

  -- The tests of the loops: the controller has a byte, and it takes one.
  abbrev pub has_byte : ℕ → Bool
  has_byte status = if bit_and status 1 == 0 then false else true

  abbrev pub takes_byte : ℕ → Bool
  takes_byte status = if bit_and status 2 == 2 then false else true
