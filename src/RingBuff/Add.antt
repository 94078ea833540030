-- ===== src/RingBuff/Add.antt =====
-- `AcMpscRingBuff_add_mem` by a single caller, in a ring with room and in a full one.
use native.Mathlib.Nat.{add-mod_right, add-zero}
use sadie.Prelude.{
  ℕ, ◌+◌, ◌%◌, ◌^◌, ◌<◌, ◌≡◌, ◌≢◌, ap, ◌∙◌, sym, true, false, some, List, [], ◌∷◌, ◌++◌, arith,
  dec_lt, ◌==◌, if◌then◌else◌, length, length-append, get_or-snoc, get_or-snoc_last,
}
use sadie.Word.{u32}
use sadie.RingBuff.{Cell, RingBuff, set_cell, slot, add_mem}
use sadie.RingBuff.Inv.{IsRing, slot_ne, slot_at, size_bounds}

-- The ring after an item is stored at `add_idx`.
pub stored : RingBuff → ℕ → RingBuff
stored rb x =
    let claimed = record rb { add_idx = u32 (rb.add_idx + 1) } in
    let filled =
      set_cell claimed (slot rb rb.add_idx)
        (record { mem = x; seq = (rb.cells (slot rb rb.add_idx)).seq }) in
    set_cell filled (slot rb rb.add_idx)
      (record { mem = (filled.cells (slot rb rb.add_idx)).mem; seq = u32 (rb.add_idx + 1) })

module _ {k removed : ℕ} {q : List ℕ} {rb : RingBuff} (v : IsRing k removed q rb) where
  add_slot : slot rb rb.add_idx ≡ (removed + length q) % 2 ^ k
  add_slot = rw v.add_at (slot_at v (removed + length q))

  pub add_mem-room : (x : ℕ) → length q < 2 ^ k → x ≢ 0 → add_mem rb x ≡ some (true, stored rb x)
  unfolding add_mem stored
  add_mem-room x room ne =
      let seq_eq : (rb.cells (slot rb rb.add_idx)).seq ≡ rb.add_idx =
        rw add_slot (v.free (length q) (omega arith) room ∙ sym v.add_at) in
      ground (arith, seq_eq)

  pub add_mem-full : (x : ℕ) → length q ≡ 2 ^ k → x ≢ 0 → add_mem rb x ≡ some (false, rb)
  unfolding add_mem
  add_mem-full x full ne =
      let at : slot rb rb.add_idx ≡ (removed + 0) % 2 ^ k =
        add_slot ∙ rw (full, add-zero) (add-mod_right removed (2 ^ k)) in
      let seq_eq : (rb.cells (slot rb rb.add_idx)).seq ≡ (removed + 1) % 2 ^ 32 =
        rw at (ap Cell.seq (v.filled 0 (omega (arith, size_bounds v))) ∙ rw add-zero) in
      ground (arith, seq_eq, v.add_at, size_bounds v)

  stored_cells :
      (x j : ℕ)
      → (stored rb x).cells j ≡ (
          if j == slot rb rb.add_idx
          then record { mem = x; seq = u32 (rb.add_idx + 1) }
          else rb.cells j)
  unfolding stored
  stored_cells x j = ground arith

  -- A cell other than the next free one is as it was.
  stored_other :
      (x i : ℕ)
      → length q < 2 ^ k
      → i < 2 ^ k
      → i ≢ length q
      → (stored rb x).cells ((removed + i) % 2 ^ k) ≡ rb.cells ((removed + i) % 2 ^ k)
  stored_other x i room small ne =
      let apart : (removed + i) % 2 ^ k ≢ (removed + length q) % 2 ^ k =
        elim (dec_lt i (length q)) [
          | yes lt ↦ slot_ne (2 ^ k) removed i (length q) (omega arith) lt room
          | no ge ↦
              λ e. slot_ne (2 ^ k) removed (length q) i (omega arith) (omega arith) small (sym e)
        ] in
      rw stored_cells (ground (arith, add_slot))

  stored_next :
      (x i : ℕ)
      → i ≡ length q
      → (stored rb x).cells ((removed + i) % 2 ^ k)
        ≡ record { mem = x; seq = (removed + i + 1) % 2 ^ 32 }
  stored_next x i e = rw stored_cells (ground (arith, add_slot, v.add_at))

  -- The item is stored behind the others, and the rest of the ring is as it was.
  pub stored-IsRing :
      (x : ℕ) → length q < 2 ^ k → x ≢ 0 → IsRing k removed (q ++ (x ∷ [])) (stored rb x)
  unfolding stored
  stored-IsRing x room ne = record {
    least = v.least;
    greatest = v.greatest;
    sized = v.sized;
    masked = v.masked;
    backed = v.backed;
    rmv_at = v.rmv_at;
    add_at = omega (arith, length-append q (x ∷ []), v.add_at);
    fits = omega (arith, length-append q (x ∷ []));
    filled = λ i h. elim (dec_lt i (length q)) [
      | yes old ↦
          stored_other x i room (omega (arith, v.fits)) (omega arith)
          ∙ (v.filled i old ∙ rw (get_or-snoc q x i 0 old))
      | no new ↦
          let e : i ≡ length q = omega (arith, length-append q (x ∷ [])) in
          stored_next x i e ∙ rw (get_or-snoc_last q x i 0 e)
    ];
    free = λ i lo hi.
        ap Cell.seq (stored_other x i room hi (omega (arith, length-append q (x ∷ []))))
        ∙ v.free i (omega (arith, length-append q (x ∷ []))) hi;
    real = λ i h. elim (dec_lt i (length q)) [
      | yes old ↦ rw (get_or-snoc q x i 0 old) (v.real i old)
      | no new ↦ rw (get_or-snoc_last q x i 0 (omega (arith, length-append q (x ∷ [])))) ne
    ];
  }
