-- ===== src/RingBuff/Runs.antt =====
-- Two producers, a third that finds the ring full, and the consumer on a ring of two cells.
use sadie.Prelude.{
  update, ℕ, zero, suc, ◌+◌, ◌-◌, ◌%◌, ◌^◌, ◌≤◌, ◌<◌, ◌≡◌, ◌≢◌, ◌⊎◌, refl, false, some, [], arith,
}
use sadie.Word.{null}
use sadie.RingBuff.{
  RingBuff, AddPc, load_seq, decide, put_mem, put_seq, add_step, RmvPc, check, take, release,
  advance, returned, rmv_step,
}
use sadie.RingBuff.Inv.{IsRing}
use sadie.RingBuff.System.{
  System, adding, produced, consumed, start, Reach, here, next, call_add, in_add, call_rmv, in_rmv,
}
use sadie.RingBuff.Shared.{place}
use sadie.RingBuff.Concurrent.{Reach-removed, Reach-full, Reach-oldest}

abbrev two_cells : RingBuff
two_cells = record {
  add_idx = 0;
  rmv_idx = 0;
  size = 2;
  mask = 1;
  cells = λ i. record { mem = null; seq = i };
  allocated = 2;
  count = 0;
  processed = 0;
}

two_cells-IsRing : IsRing 1 0 [] two_cells
two_cells-IsRing = record {
  least = omega arith;
  greatest = omega arith;
  sized = refl;
  masked = refl;
  backed = refl;
  rmv_at = refl;
  add_at = refl;
  fits = omega arith;
  filled = λ i lt. absurd (omega arith);
  free = free;
  real = λ i lt. absurd (omega arith);
}
  where
    free : (i : ℕ) → 0 ≤ i → i < 2 → (two_cells.cells ((0 + i) % 2)).seq ≡ (0 + i) % 2 ^ 32
    free zero lo hi = refl
    free (suc zero) lo hi = refl
    free (suc (suc i)) lo hi = absurd (omega arith)

-- Producer `i` calls add_mem for `mem`.
abbrev called : System → (i mem : ℕ) → System
called s i mem = record s { producer = update s.producer i (adding mem AddPc.enter) }

abbrev begun : System
begun = called (start two_cells) 0 21

abbrev loaded : System
loaded = produced begun false 0 21 AddPc.enter

abbrev decided : System
decided = produced loaded false 0 21 (load_seq 0)

abbrev won : System
won = produced decided false 0 21 (decide 0 0)

abbrev asked : System
asked = record won { consumer = some RmvPc.enter }

abbrev written : System
written = produced asked false 0 21 (put_mem 0)

abbrev filled : System
filled = produced written false 0 21 (put_seq 0)

abbrev begun_1 : System
begun_1 = called filled 1 22

abbrev loaded_1 : System
loaded_1 = produced begun_1 false 1 22 AddPc.enter

abbrev decided_1 : System
decided_1 = produced loaded_1 false 1 22 (load_seq 1)

abbrev won_1 : System
won_1 = produced decided_1 false 1 22 (decide 1 1)

abbrev written_1 : System
written_1 = produced won_1 false 1 22 (put_mem 1)

abbrev filled_1 : System
filled_1 = produced written_1 false 1 22 (put_seq 1)

abbrev begun_2 : System
begun_2 = called filled_1 2 23

abbrev loaded_2 : System
loaded_2 = produced begun_2 false 2 23 AddPc.enter

abbrev checked : System
checked = consumed loaded_2 RmvPc.enter

abbrev taken : System
taken = consumed checked (check 0 1)

abbrev released : System
released = consumed taken (take 0)

abbrev advanced : System
advanced = consumed released (release 0 21)

abbrev answered : System
answered = consumed advanced (advance 21)

Reach-asked : Reach (start two_cells) asked
unfolding produced consumed
Reach-asked =
    next
      (next
        (next (next (next here (call_add 0 21 refl)) (in_add false 0 21 AddPc.enter refl))
          (in_add false 0 21 (load_seq 0) refl))
        (in_add false 0 21 (decide 0 0) refl))
      (call_rmv refl)

Reach-loaded_2 : Reach (start two_cells) loaded_2
unfolding produced consumed
Reach-loaded_2 =
    next
      (next
        (next
          (next
            (next
              (next
                (next
                  (next
                    (next (next Reach-asked (in_add false 0 21 (put_mem 0) refl))
                      (in_add false 0 21 (put_seq 0) refl))
                    (call_add 1 22 refl))
                  (in_add false 1 22 AddPc.enter refl))
                (in_add false 1 22 (load_seq 1) refl))
              (in_add false 1 22 (decide 1 1) refl))
            (in_add false 1 22 (put_mem 1) refl))
          (in_add false 1 22 (put_seq 1) refl))
        (call_add 2 23 refl))
      (in_add false 2 23 AddPc.enter refl)

Reach-answered : Reach (start two_cells) answered
unfolding produced consumed
Reach-answered =
    next
      (next
        (next (next (next Reach-loaded_2 (in_rmv RmvPc.enter refl)) (in_rmv (check 0 1) refl))
          (in_rmv (take 0) refl))
        (in_rmv (release 0 21) refl))
      (in_rmv (advance 21) refl)

Reach-removed_example :
    (answered.num_got ≤ answered.num_sent)
    × (answered.num_sent ≤ answered.num_got + 2 ^ 1)
    × ((p : ℕ) → p < answered.num_got → answered.got p ≡ answered.sent p)
    × ((mem : ℕ)
        → answered.consumer ≡ some (returned mem)
        → mem ≢ null
        → (0 < answered.num_got) × (mem ≡ answered.sent (answered.num_got - 1)))
unfolding produced consumed
Reach-removed_example = Reach-removed 1 two_cells two_cells-IsRing Reach-answered (omega arith)

-- The third producer finds the ring full.
Reach-full_example : loaded_2.num_sent ≡ loaded_2.num_got + 2 ^ 1
unfolding produced consumed add_step
Reach-full_example =
    Reach-full 1 two_cells two_cells-IsRing Reach-loaded_2 (omega arith) 2 23 2 refl false false
      two_cells refl

-- Rmv_mem comes between the exchange of the first producer and its writes.
Reach-oldest_example :
    (asked.num_got ≡ asked.num_sent) ⊎ ((i : ℕ) × (place (asked.producer i) ≡ some asked.num_got))
unfolding produced consumed rmv_step
Reach-oldest_example =
    Reach-oldest 1 two_cells two_cells-IsRing Reach-asked (omega arith) refl two_cells refl
