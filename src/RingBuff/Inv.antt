-- ===== src/RingBuff/Inv.antt =====
-- When a ring buffer holds a queue: the sequence numbers say which cells are filled. The positions
-- are words that wrap, so they are tied to an unbounded count of removals.
use native.Mathlib.Nat.{div-add-mod, mod-lt}
use sadie.Prelude.{
  ℕ, ◌+◌, ◌-◌, ◌*◌, ◌/◌, ◌%◌, ◌^◌, ◌≤◌, ◌<◌, ◌≡◌, ◌≢◌, ap, List, arith, dec_lt, length, get_or,
}
use sadie.Prelude.Bits.{bit_and-ones, mod-mod_pow, pow_pos, pow_mono}
use sadie.RingBuff.{RingBuff, slot}

-- The least size is 2, the greatest 2 ^ 31.
pub record IsRing (k removed : ℕ) (q : List ℕ) (rb : RingBuff) : Type 0 where
  pub least : 1 ≤ k
  pub greatest : k ≤ 31
  pub sized : rb.size ≡ 2 ^ k
  pub masked : rb.mask ≡ 2 ^ k - 1
  pub backed : rb.allocated ≡ 2 ^ k
  pub rmv_at : rb.rmv_idx ≡ removed % 2 ^ 32
  pub add_at : rb.add_idx ≡ (removed + length q) % 2 ^ 32
  pub fits : length q ≤ 2 ^ k
  pub filled :
      (i : ℕ)
      → i < length q
      → rb.cells ((removed + i) % 2 ^ k)
        ≡ record { mem = get_or q i 0; seq = (removed + i + 1) % 2 ^ 32 }
  pub free :
      (i : ℕ)
      → length q ≤ i
      → i < 2 ^ k
      → (rb.cells ((removed + i) % 2 ^ k)).seq ≡ (removed + i) % 2 ^ 32
  pub real : (i : ℕ) → i < length q → get_or q i 0 ≢ 0

mul_step : (s a b : ℕ) → a < b → s * a + s ≤ s * b
mul_step s a b h = grind arith

-- Positions less than a size apart have different cells.
pub slot_ne : (s x i j : ℕ) → 0 < s → i < j → j < s → (x + i) % s ≢ (x + j) % s
slot_ne s x i j p lt b e = elim (dec_lt ((x + i) / s) ((x + j) / s)) [
  | yes below ↦ omega (arith, div-add-mod (x + i) s, div-add-mod (x + j) s, mul_step s _ _ below)
  | no above ↦ elim (dec_lt ((x + j) / s) ((x + i) / s)) [
    | yes over ↦ omega (arith, div-add-mod (x + i) s, div-add-mod (x + j) s, mul_step s _ _ over)
    | no under ↦
        let same : (x + i) / s ≡ (x + j) / s = omega arith in
        omega (arith, div-add-mod (x + i) s, div-add-mod (x + j) s, ap (λ (t : ℕ). s * t) same)
  ]
]

module _ {k removed : ℕ} {q : List ℕ} {rb : RingBuff} (v : IsRing k removed q rb) where
  -- The cell of the position `x mod 2 ^ 32`.
  pub slot_at : (x : ℕ) → slot rb (x % 2 ^ 32) ≡ x % 2 ^ k
  slot_at x =
      rw (v.masked, bit_and-ones k (x % 2 ^ 32)) (mod-mod_pow k 32 x (omega (arith, v.greatest)))

  -- Every access lands in the allocation.
  pub slot_backed : (x : ℕ) → slot rb (x % 2 ^ 32) < rb.allocated
  slot_backed x = rw (slot_at x, v.backed) (mod-lt x (pow_pos k))

  pub size_bounds : (2 ≤ 2 ^ k) × (2 ^ k ≤ 2 ^ 31)
  size_bounds = (pow_mono 1 k v.least, pow_mono k 31 v.greatest)
