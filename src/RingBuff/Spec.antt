-- ===== src/RingBuff/Spec.antt =====
-- A queue of at most `cap` items, oldest first: what a ring buffer promises.
use sadie.Prelude.{ℕ, Bool, true, false, List, [], ◌∷◌, ◌++◌, ◌==◌, if◌then◌else◌, length}
use sadie.Word.{null}

-- Adding `null` succeeds and does nothing.
unfoldable pub push : ℕ → List ℕ → ℕ → Bool × List ℕ
push cap q x =
    if x == null then (true, q) else (if length q == cap then (false, q) else (true, q ++ (x ∷ [])))

unfoldable pub pop : List ℕ → ℕ × List ℕ
pop [] = (null, [])
pop (x ∷ q) = (x, q)
