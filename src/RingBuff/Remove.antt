-- ===== src/RingBuff/Remove.antt =====
-- `AcMpscRingBuff_rmv_mem`, of an empty ring and of one with items.
use native.Mathlib.Nat.{add-mod_right, add-zero}
use sadie.Prelude.{
  ℕ, suc, ◌+◌, ◌%◌, ◌^◌, ◌<◌, ◌≡◌, ◌≢◌, ap, ◌∙◌, some, List, [], ◌∷◌, arith, dec_lt, ◌==◌,
  if◌then◌else◌, get_or,
}
use sadie.Word.{u32, null}
use sadie.RingBuff.{Cell, RingBuff, set_cell, slot, rmv_mem}
use sadie.RingBuff.Inv.{IsRing, slot_ne, slot_at, size_bounds}

-- The ring after its oldest item is taken.
pub released : RingBuff → RingBuff
released rb =
    let s = slot rb rb.rmv_idx in
    let emptied =
      set_cell rb s (record { mem = (rb.cells s).mem; seq = u32 (rb.rmv_idx + rb.size) }) in
    record emptied { rmv_idx = u32 (rb.rmv_idx + 1) }

pub rmv_mem-nil :
    {k removed : ℕ} {rb : RingBuff} → IsRing k removed [] rb → rmv_mem rb ≡ some (null, rb)
unfolding rmv_mem
rmv_mem-nil {k} {removed} {rb} v =
    let at : slot rb rb.rmv_idx ≡ (removed + 0) % 2 ^ k =
      rw (v.rmv_at, slot_at v removed, add-zero) in
    let seq_eq : (rb.cells (slot rb rb.rmv_idx)).seq ≡ removed % 2 ^ 32 =
      rw at (v.free 0 (omega arith) (omega (arith, size_bounds v)) ∙ rw add-zero) in
    ground (arith, seq_eq, v.rmv_at)

module _ {k removed : ℕ} {x : ℕ} {q : List ℕ} {rb : RingBuff}
    (v : IsRing k removed (x ∷ q) rb) where
  rmv_slot : slot rb rb.rmv_idx ≡ removed % 2 ^ k
  rmv_slot = rw (v.rmv_at, slot_at v removed)

  oldest : rb.cells (slot rb rb.rmv_idx) ≡ record { mem = x; seq = (removed + 1) % 2 ^ 32 }
  oldest =
      let at : slot rb rb.rmv_idx ≡ (removed + 0) % 2 ^ k = rw (rmv_slot, add-zero) in
      rw at (v.filled 0 (omega arith) ∙ rw add-zero)

  pub rmv_mem-cons : rmv_mem rb ≡ some (x, released rb)
  unfolding rmv_mem released
  rmv_mem-cons = ground (arith, oldest, v.rmv_at)

  released_cells :
      (j : ℕ)
      → (released rb).cells j ≡ (
          if j == removed % 2 ^ k
          then record { mem = x; seq = (removed + 2 ^ k) % 2 ^ 32 }
          else rb.cells j)
  unfolding released
  released_cells j = rw (oldest, rmv_slot) (ground (arith, v.rmv_at, v.sized))

  shifted : (i : ℕ) → (removed + 1 + i) % 2 ^ k ≡ (removed + suc i) % 2 ^ k
  shifted i = ap (λ (t : ℕ). t % 2 ^ k) (omega arith)

  released_other :
      (i : ℕ)
      → suc i < 2 ^ k
      → (released rb).cells ((removed + 1 + i) % 2 ^ k) ≡ rb.cells ((removed + suc i) % 2 ^ k)
  released_other i h =
      let apart : (removed + 0) % 2 ^ k ≢ (removed + suc i) % 2 ^ k =
        slot_ne (2 ^ k) removed 0 (suc i) (omega arith) (omega arith) h in
      rw (released_cells, shifted i) (ground (arith, add-zero removed, apart))

  released_last :
      (i : ℕ)
      → suc i ≡ 2 ^ k
      → ((released rb).cells ((removed + 1 + i) % 2 ^ k)).seq ≡ (removed + 1 + i) % 2 ^ 32
  released_last i e =
      let round : (removed + 1 + i) % 2 ^ k ≡ removed % 2 ^ k =
        ap (λ (t : ℕ). t % 2 ^ k) (omega arith) ∙ add-mod_right removed (2 ^ k) in
      rw (released_cells, round) (ground arith)

  -- The items behind the oldest one are left, and its cell is free.
  pub released-IsRing : IsRing k (removed + 1) q (released rb)
  unfolding released
  released-IsRing = record {
    least = v.least;
    greatest = v.greatest;
    sized = v.sized;
    masked = v.masked;
    backed = v.backed;
    rmv_at = omega (arith, v.rmv_at);
    add_at = omega (arith, v.add_at);
    fits = omega (arith, v.fits);
    filled = λ i h.
        released_other i (omega (arith, v.fits))
        ∙ (v.filled (suc i) (omega arith)
            ∙ ap (λ (n : ℕ). record { mem = get_or q i 0; seq = n }) (omega arith));
    free = λ i lo hi. elim (dec_lt (suc i) (2 ^ k)) [
      | yes more ↦
          ap Cell.seq (released_other i more) ∙ (v.free (suc i) (omega arith) more ∙ omega arith)
      | no last ↦ released_last i (omega arith)
    ];
    real = λ i h. v.real (suc i) (omega arith);
  }
