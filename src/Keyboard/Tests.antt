-- ===== src/Keyboard/Tests.antt =====
-- A controller with a byte after three reads of its status, and one that is always ready.
use sadie.Prelude.{
  ◌+◌, zero, true, false, Bool, ◌==◌, ℕ, suc, ◌*◌, ◌≡◌, refl, arith, ltb, if◌then◌else◌, some,
}
use sadie.Keyboard.{rd_data_with_timeout, wr_config, one_ms, got, timed_out}
use sadie.Keyboard.Port.{Device}
use sadie.Keyboard.Polls.{Polled, rounds, rd_data_with_timeout-Polled}
use sadie.Keyboard.Masks.{Answers, has_byte}

-- Its state counts the reads.
abbrev slow : Device ℕ
slow = record {
  rd_status = λ s. (if ltb s 3 then 0 else 1, suc s);
  rd_data_now = λ s. (0x1c, s);
  wr_data = λ v s. s;
  wr_cmd = λ c s. s;
  wait_ns = λ n s. s;
  tscrd = λ s. (s, suc s);
}

rd_data_with_timeout-Polled_example :
    Polled slow
      (slow.rd_status 0)
      (rounds (50 * one_ms))
      (rd_data_with_timeout slow 5 (50 * one_ms) 0)
rd_data_with_timeout-Polled_example =
    rd_data_with_timeout-Polled slow 5 (50 * one_ms) 0 (omega arith)

slow_finds : rd_data_with_timeout slow 5 (50 * one_ms) 0 ≡ some (got 0x1c, 4)
unfolding rd_data_with_timeout
slow_finds = refl

slow_late : rd_data_with_timeout slow 5 one_ms 0 ≡ some (timed_out, 2)
unfolding rd_data_with_timeout
slow_late = refl

-- It takes a byte from the second read of its status on, and has the configuration from the second
-- read after the command 0x20 on. A byte to the data port becomes the configuration.
data Controller : Type 0 where
  controller : (busy pending full : Bool) → (config : ℕ) → Controller

abbrev controller_status : Controller → ℕ × Controller
controller_status (controller busy pending full config) = (
  4 + ((if full then 1 else 0) + (if busy then 2 else 0)),
  controller false false (if pending then true else full) config,
)

abbrev controller_data : Controller → ℕ × Controller
controller_data (controller busy pending full config) =
    (config, controller busy pending false config)

abbrev controller_write : ℕ → Controller → Controller
controller_write v (controller busy pending full config) = controller true pending full v

abbrev controller_command : ℕ → Controller → Controller
controller_command c (controller busy pending full config) = controller true (c == 0x20) full config

abbrev port : Device Controller
port = record {
  rd_status = controller_status;
  rd_data_now = controller_data;
  wr_data = controller_write;
  wr_cmd = controller_command;
  wait_ns = λ n s. s;
  tscrd = λ s. (0, s);
}

abbrev begun : Controller
begun = controller true false false 0xff

answers : (s : Controller) → Answers port (has_byte port) 2 (port.wr_cmd 0x20 s)
answers (controller busy pending true config) = record {
  count = 0;
  in_time = omega arith;
  waits = λ j lt. absurd (omega arith);
  ends = refl;
}
answers (controller busy pending false config) = record {
  count = 1;
  in_time = omega arith;
  waits = elim [ zero ↦ λ lt. refl | suc j ↦ λ lt. absurd (omega arith) ];
  ends = refl;
}

-- The new configuration keeps bits 2, 3 and 7; both ports are disabled, and neither clock is.
port_written : wr_config port 2 0 begun ≡ some (tt, controller true false false 0x8c)
unfolding wr_config
port_written = refl
