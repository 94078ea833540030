-- ===== src/WaitHeap/Grow.antt =====
-- Raising the number of threads that may wait does not give them room.
use sadie.Prelude.{ℕ, ◌+◌, ◌≤◌, ◌<◌, ◌≡◌, refl, true, false, arith, ltb, leb}
use sadie.WaitHeap.{WaitingTcbs, out_of_bounds, add, update_max}

-- After the maximum has been raised over the entries that the array has, adding a tcb to an array
-- that is full writes past its end: the new array has not been put in its place.
add-update_max :
    (d : ℕ → ℕ) (w : WaitingTcbs) (new_max new ptcb tsc : ℕ)
    → w.max < new_max
    → w.num < new_max
    → w.allocated ≤ w.num + 1
    → ((update_max w new_max new).allocated ≡ w.allocated)
      × (add d (update_max w new_max new) ptcb tsc ≡ out_of_bounds)
unfolding add update_max
add-update_max d w new_max new ptcb tsc more room full =
    let t : ltb w.max new_max ≡ true = ground arith in
    let t1 : leb (w.num + 1) new_max ≡ true = ground arith in
    let t2 : ltb (w.num + 1) w.allocated ≡ false = ground arith in rw t (refl, rw (t1, t2))
