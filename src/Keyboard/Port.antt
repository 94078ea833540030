-- ===== src/Keyboard/Port.antt =====
-- The controller as the code sees it, and actions on it.
use sadie.Prelude.{ℕ, Option, none, some}

-- The status port, the data port, `ac_thread_wait_ns` and `ac_tscrd`, over the controller's state.
pub record Device (S : Type 0) : Type 0 where
  pub rd_status : S → ℕ × S
  pub rd_data_now : S → ℕ × S
  pub wr_data : ℕ → S → S
  pub wr_cmd : ℕ → S → S
  pub wait_ns : ℕ → S → S
  pub tscrd : S → ℕ × S

-- `none` where a loop is still waiting.
abbrev pub Action : Type 0 → Type 0 → Type 0
Action S A = S → Option (A × S)

abbrev pub pure : {S A : Type 0} → A → Action S A
pure a s = some (a, s)

abbrev pub busy : {S A : Type 0} → Action S A
busy s = none

abbrev pub reads : {S : Type 0} → (S → ℕ × S) → Action S ℕ
reads port s = some (port s)

abbrev pub does : {S : Type 0} → (S → S) → Action S Unit
does write s = some (tt, write s)

abbrev pub then : {S A B : Type 0} → Option (A × S) → (A → Action S B) → Option (B × S)
then none f = none
then (some (a, s)) f = f a s

infixl 5 ◌>>=◌ ◌>>◌
abbrev pub ◌>>=◌ : {S A B : Type 0} → Action S A → (A → Action S B) → Action S B
◌>>=◌ m f s = then (m s) f

abbrev pub ◌>>◌ : {S B : Type 0} → Action S Unit → Action S B → Action S B
m >> k = m >>= λ _. k
