-- ===== src/Keyboard/Polls.antt =====
-- How keyboard_rd_data_with_timeout of arch/x86/libs/ac_keyboard_impl/incs/keyboard_impl.h waits.
use Prim.Native.Nat.{bit_and}
use sadie.Prelude.{
  ℕ, zero, suc, ◌+◌, ◌-◌, ◌/◌, ◌≤◌, ◌<◌, ◌≡◌, refl, arith, Bool, true, false, ◌==◌, ltb,
  if◌then◌else◌, some, Option,
}
use sadie.Keyboard.{Read, timed_out, got, poll, rd_data_with_timeout, poll_delay}
use mathlib.Core.Path.{subst}
use sadie.Keyboard.Port.{Device}

-- The timeout in delays, rounded up.
abbrev pub rounds : (ns : ℕ) → ℕ
rounds ns = (ns + (poll_delay - 1)) / poll_delay

module _ {S : Type 0} (d : Device S) where
  -- The status and the state of the controller after `k` more delays, each followed by a read.
  abbrev pub after : (k : ℕ) → ℕ × S → ℕ × S
  after zero p = p
  after (suc k) p = after k (d.rd_status (d.wait_ns poll_delay (p.1)))

  abbrev pub is_ready : ℕ × S → Bool
  is_ready p = bit_and (p.0) 1 == 1

  -- What the wait that starts with `p` ends with, in at most `most` delays.
  pub data Polled (p : ℕ × S) (most : ℕ) (r : Option (Read × S)) : Type 0 where
    finds :
        (k : ℕ)
        → k ≤ most
        → ((j : ℕ) → j < k → is_ready (after j p) ≡ false)
        → is_ready (after k p) ≡ true
        → (let byte = d.rd_data_now ((after k p).1) in r ≡ some (got (byte.0), byte.1))
        → Polled p most r
    gives_up :
        ((j : ℕ) → j ≤ most → is_ready (after j p) ≡ false)
        → r ≡ some (timed_out, (after most p).1)
        → Polled p most r

  -- One delay before.
  one_more :
      (p : ℕ × S) (most : ℕ) (r : Option (Read × S))
      → is_ready p ≡ false
      → Polled (d.rd_status (d.wait_ns poll_delay (p.1))) most r
      → Polled p (suc most) r
  one_more p most r late (finds k le missed ends e) =
      finds (suc k) (omega arith) (λ j lt. earlier j lt) ends e
    where
      earlier : (j : ℕ) → j < suc k → is_ready (after j p) ≡ false
      earlier zero lt = late
      earlier (suc j) lt = missed j (omega arith)
  one_more p most r late (gives_up missed e) = gives_up (λ j le. earlier j le) e
    where
      earlier : (j : ℕ) → j ≤ suc most → is_ready (after j p) ≡ false
      earlier zero le = late
      earlier (suc j) le = missed j (omega arith)

  poll-Polled :
      (fuel ns : ℕ) (p : ℕ × S) (ready : Bool)
      → is_ready p ≡ ready
      → rounds ns ≤ fuel
      → Polled p (rounds ns) (poll d fuel ready ns (p.1))
  unfolding poll
  poll-Polled fuel ns p true now enough =
      finds 0 (omega arith) (λ j lt. absurd (omega arith)) now refl
  poll-Polled fuel zero p false late enough = gives_up (λ j le. only j le) refl
    where
      only : (j : ℕ) → j ≤ 0 → is_ready (after j p) ≡ false
      only zero le = late
      only (suc j) le = absurd (omega arith)
  poll-Polled zero (suc ns) p false late enough = absurd (omega arith)
  poll-Polled (suc fuel) (suc ns) p false late enough =
      let left = if ltb poll_delay (suc ns) then suc ns - poll_delay else 0 in
      let p' = d.rd_status (d.wait_ns poll_delay (p.1)) in
      let fewer : suc (rounds left) ≡ rounds (suc ns) = ground arith in
      subst (λ most. Polled p most (poll d fuel (is_ready p') left (p'.1))) fewer
        (one_more p (rounds left) (poll d fuel (is_ready p') left (p'.1)) late
          (poll-Polled fuel left p' (is_ready p') refl (omega (arith, fewer))))

  -- With fuel for the timeout in delays of 10 ms, rounded up, keyboard_rd_data_with_timeout comes to
  -- its end: with the byte that is read when the status first says that there is one, at once or after
  -- at most that many delays, or else with -1 after all of them.
  pub rd_data_with_timeout-Polled :
      (fuel ns : ℕ) (s : S)
      → rounds ns ≤ fuel
      → Polled (d.rd_status s) (rounds ns) (rd_data_with_timeout d fuel ns s)
  unfolding rd_data_with_timeout
  rd_data_with_timeout-Polled fuel ns s enough =
      poll-Polled fuel ns (d.rd_status s) (is_ready (d.rd_status s)) refl enough
