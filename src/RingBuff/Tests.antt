-- ===== src/RingBuff/Tests.antt =====
-- Runs of the ring buffer at concrete inputs, and the theorems at inputs that meet their hypotheses.
use native.Mathlib.Nat.{pow-suc}
use sadie.Prelude.{
  ℕ, zero, suc, ◌+◌, ◌%◌, ◌≤◌, ◌^◌, ◌≡◌, ◌≢◌, refl, true, false, some, inl, inr, [], ◌∷◌, arith,
  get_or, if◌then◌else◌, ◌==◌,
}
use sadie.RingBuff.{Cell, RingBuff, add_mem, rmv_mem}
use sadie.RingBuff.Refine.{Holds, add, rmv, run, answers, run_refines}

abbrev zeros : ℕ → Cell
zeros _ = record { mem = 0; seq = 0 }

-- Memory that `init` has not seen.
abbrev raw : RingBuff
raw = record {
  add_idx = 7;
  rmv_idx = 9;
  size = 5;
  mask = 1;
  cells = zeros;
  allocated = 0;
  count = 3;
  processed = 4;
}

-- A ring of four cells with the items 11 and 12, whose positions are about to wrap.
abbrev two_items : RingBuff
two_items = record {
  add_idx = 0;
  rmv_idx = 0xffff_fffe;
  size = 4;
  mask = 3;
  cells = λ i.
      if i == 2
      then record { mem = 11; seq = 0xffff_ffff }
      else (if i == 3 then record { mem = 12; seq = 0 } else record { mem = 0; seq = i });
  allocated = 4;
  count = 0;
  processed = 0;
}

two_items-Holds : Holds 2 (11 ∷ 12 ∷ []) two_items
two_items-Holds = (
  0xffff_fffe,
  record {
    least = omega arith;
    greatest = omega arith;
    sized = refl;
    masked = refl;
    backed = refl;
    rmv_at = refl;
    add_at = refl;
    fits = omega arith;
    filled = filled;
    free = free;
    real = real;
  },
)
  where
    filled :
        (i : ℕ)
        → suc i ≤ 2
        → two_items.cells ((0xffff_fffe + i) % 4)
          ≡ record { mem = get_or (11 ∷ 12 ∷ []) i 0; seq = (0xffff_fffe + i + 1) % 2 ^ 32 }
    filled zero h = refl
    filled (suc zero) h = refl
    filled (suc (suc i)) h = absurd (omega arith)

    free :
        (i : ℕ)
        → 2 ≤ i
        → suc i ≤ 4
        → (two_items.cells ((0xffff_fffe + i) % 4)).seq ≡ (0xffff_fffe + i) % 2 ^ 32
    free zero l h = absurd (omega arith)
    free (suc zero) l h = absurd (omega arith)
    free (suc (suc zero)) l h = refl
    free (suc (suc (suc zero))) l h = refl
    free (suc (suc (suc (suc i)))) l h = absurd (omega arith)

    real : (i : ℕ) → suc i ≤ 2 → get_or {A = ℕ} (11 ∷ 12 ∷ []) i 0 ≢ 0
    real zero h e = omega arith
    real (suc zero) h e = omega arith
    real (suc (suc i)) h e = omega arith

run_refines_example :
    run two_items (add 13 ∷ rmv ∷ rmv ∷ rmv ∷ rmv ∷ [])
    ≡ some (answers 4 (11 ∷ 12 ∷ []) (add 13 ∷ rmv ∷ rmv ∷ rmv ∷ rmv ∷ []))
run_refines_example =
    run_refines {k = 2} (add 13 ∷ rmv ∷ rmv ∷ rmv ∷ rmv ∷ []) (11 ∷ 12 ∷ []) two_items-Holds

run-two_items :
    run two_items (add 13 ∷ add 14 ∷ add 15 ∷ rmv ∷ rmv ∷ rmv ∷ rmv ∷ rmv ∷ [])
    ≡ some (inl true ∷ inl true ∷ inl false ∷ inr 11 ∷ inr 12 ∷ inr 13 ∷ inr 14 ∷ inr 0 ∷ [])
unfolding run add_mem rmv_mem
run-two_items = refl

three_ne_pow : (k : ℕ) → 3 ≢ 2 ^ k
three_ne_pow zero e = omega arith
three_ne_pow (suc k) e = omega (arith, pow-suc 2 k)
