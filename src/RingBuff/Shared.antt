-- ===== src/RingBuff/Shared.antt =====
-- What holds of a ring that producers and a consumer share, while its positions have not wrapped.
use sadie.Prelude.{ℕ, ◌+◌, ◌-◌, ◌%◌, ◌^◌, ◌≤◌, ◌<◌, ◌≡◌, ◌≢◌, Option, none, some, ◌⊎◌, arith}
use sadie.Prelude.Bits.{bit_and-ones}
use sadie.Word.{null}
use sadie.RingBuff.{
  RingBuff, Cell, slot, load_seq, decide, put_mem, put_seq, RmvPc, check, take, release, advance,
  returned,
}
use sadie.RingBuff.Inv.{slot_ne}
use sadie.RingBuff.System.{Producer, adding, System}

-- The cell of position `p` in a ring of size 2 ^ k.
abbrev pub cell : (k : ℕ) → System → ℕ → Cell
cell k s p = s.rb.cells (p % 2 ^ k)

-- The position that a producer has won and not filled yet.
abbrev pub place : Producer → Option ℕ
place (adding m (put_mem pos)) = some pos
place (adding m (put_seq pos)) = some pos
place _ = none

abbrev pub IsAdding : (k : ℕ) → System → Producer → Type 0
IsAdding k s (adding m (load_seq pos)) = (pos ≤ s.num_sent) × (m ≢ null)
IsAdding k s (adding m (decide pos seq)) =
    (pos ≤ s.num_sent) × (m ≢ null) × (seq ≤ (cell k s pos).seq)
IsAdding k s (adding m (put_mem pos)) =
    (s.num_got ≤ pos) × (pos < s.num_sent) × (m ≡ s.sent pos) × ((cell k s pos).seq ≡ pos)
IsAdding k s (adding m (put_seq pos)) =
    (s.num_got ≤ pos)
    × (pos < s.num_sent)
    × (m ≡ s.sent pos)
    × ((cell k s pos).seq ≡ pos)
    × ((cell k s pos).mem ≡ m)
IsAdding k s _ = Unit

abbrev pub IsFilled : (k : ℕ) → System → ℕ → Type 0
IsFilled k s p = ((cell k s p).mem ≡ s.sent p) × ((cell k s p).seq ≡ p + 1)

-- A producer has won position `p` and not filled it yet.
abbrev pub IsPending : (k : ℕ) → System → ℕ → Type 0
IsPending k s p = ((cell k s p).seq ≡ p) × ((i : ℕ) × (place (s.producer i) ≡ some p))

abbrev pub IsRemoving : (k : ℕ) → System → Option RmvPc → Type 0
IsRemoving k s (some (check pos seq)) = (pos ≡ s.num_got) × (seq ≤ (cell k s pos).seq)
IsRemoving k s (some (take pos)) = (pos ≡ s.num_got) × (pos < s.num_sent) × IsFilled k s pos
IsRemoving k s (some (release pos mem)) =
    (pos ≡ s.num_got) × (pos < s.num_sent) × IsFilled k s pos × (mem ≡ s.sent pos)
IsRemoving k s (some (advance mem)) = (0 < s.num_got) × (mem ≡ s.got (s.num_got - 1))
IsRemoving k s (some (returned mem)) =
    (mem ≡ null) ⊎ ((0 < s.num_got) × (mem ≡ s.got (s.num_got - 1)))
IsRemoving k s _ = Unit

-- Between giving a cell back and advancing `rmv_idx`.
abbrev pub behind : Option RmvPc → ℕ
behind (some (advance mem)) = 1
behind _ = 0

pub record IsShared (k : ℕ) (s : System) : Type 0 where
  pub least : 2 ≤ 2 ^ k
  pub bound : s.num_sent + 2 ^ k < 2 ^ 31
  pub sized : s.rb.size ≡ 2 ^ k
  pub masked : s.rb.mask ≡ 2 ^ k - 1
  pub add_at : s.rb.add_idx ≡ s.num_sent
  pub rmv_at : s.rb.rmv_idx + behind s.consumer ≡ s.num_got
  pub order : s.num_got ≤ s.num_sent
  pub fits : s.num_sent ≤ s.num_got + 2 ^ k
  pub used : (p : ℕ) → s.num_got ≤ p → p < s.num_sent → IsFilled k s p ⊎ IsPending k s p
  pub free : (p : ℕ) → s.num_sent ≤ p → p < s.num_got + 2 ^ k → (cell k s p).seq ≡ p
  pub small : (j : ℕ) → j < 2 ^ k → (s.rb.cells j).seq ≤ s.num_got + 2 ^ k
  pub same : (p : ℕ) → p < s.num_got → s.got p ≡ s.sent p
  pub real : (p : ℕ) → p < s.num_sent → s.sent p ≢ null
  pub producers : (i : ℕ) → IsAdding k s (s.producer i)
  pub one_place :
      (i j p : ℕ) → place (s.producer i) ≡ some p → place (s.producer j) ≡ some p → i ≡ j
  pub consuming : IsRemoving k s s.consumer

-- Positions in one window of the ring's size have cells of their own.
pub window : (n r p q : ℕ) → 0 < n → r ≤ p → p < r + n → r ≤ q → q < r + n → p % n ≡ q % n → p ≡ q
window n r p q pos lo hi lo' hi' e =
    let ep : p ≡ r + (p - r) = omega arith in
    let eq : q ≡ r + (q - r) = omega arith in
    let below = slot_ne n r (p - r) (q - r) pos in
    let above = slot_ne n r (q - r) (p - r) pos in ground (arith, below, above)

pub slot_lem : (k : ℕ) (rb : RingBuff) (pos : ℕ) → rb.mask ≡ 2 ^ k - 1 → slot rb pos ≡ pos % 2 ^ k
slot_lem k rb pos masked = rw masked (bit_and-ones k pos)
