-- ===== src/RingBuff/Refine.antt =====
-- Calls one after another: the ring buffer is the bounded queue of its contents.
use mathlib.Core.Option
use sadie.Prelude.{
  ℕ, ◌+◌, ◌^◌, ◌≡◌, refl, Bool, true, false, Option, none, some, ◌⊎◌, inl, inr, List, [], ◌∷◌,
  arith, dec_lt, ℕ_discrete, ◌==◌, length,
}
use sadie.RingBuff.{RingBuff, add_mem, rmv_mem}
use sadie.RingBuff.Spec
use sadie.RingBuff.Inv.{IsRing}
use sadie.RingBuff.Add.{stored, add_mem-room, add_mem-full, stored-IsRing}
use sadie.RingBuff.Remove.{released, rmv_mem-nil, rmv_mem-cons, released-IsRing}

-- The ring of size `2 ^ k` holds the queue `q`, oldest item first.
abbrev pub Holds : ℕ → List ℕ → RingBuff → Type 0
Holds k q rb = (removed : ℕ) × IsRing k removed q rb

-- A call of `add_mem` ends, says what the bounded queue says, and leaves the queue's contents.
pub add_mem_refines :
    {k : ℕ} {q : List ℕ} {rb : RingBuff} (x : ℕ)
    → Holds k q rb
    → (rb' : RingBuff) × (add_mem rb x ≡ some ((Spec.push (2 ^ k) q x).0, rb'))
      × Holds k (Spec.push (2 ^ k) q x).1 rb'
unfolding Spec.push
add_mem_refines {k} {q} {rb} x (removed, v) = elim (ℕ_discrete x 0) [
  | yes none_given ↦ rw none_given (rb, unfold add_mem in ground arith, (removed, v))
  | no given ↦
      let real : (x == 0) ≡ false = ground arith in
      elim (dec_lt (length q) (2 ^ k)) [
        | yes room ↦
            let more : (length q == 2 ^ k) ≡ false = ground arith in
            rw (real, more)
              (stored rb x, add_mem-room v x room given, (removed, stored-IsRing v x room given))
        | no full ↦
            let filled : length q ≡ 2 ^ k = omega (arith, v.fits) in
            let full' : (length q == 2 ^ k) ≡ true = ground arith in
            rw (real, full') (rb, add_mem-full v x filled given, (removed, v))
      ]
]

-- A call of `rmv_mem` ends, returns what the queue returns, and leaves the queue's contents.
pub rmv_mem_refines :
    {k : ℕ} (q : List ℕ) {rb : RingBuff}
    → Holds k q rb
    → (rb' : RingBuff) × (rmv_mem rb ≡ some ((Spec.pop q).0, rb')) × Holds k (Spec.pop q).1 rb'
unfolding Spec.pop
rmv_mem_refines [] {rb} (removed, v) = (rb, rmv_mem-nil v, (removed, v))
rmv_mem_refines (x ∷ q) {rb} (removed, v) =
    (released rb, rmv_mem-cons v, (removed + 1, released-IsRing v))

abbrev pub Returned : Type 0
Returned = Bool ⊎ ℕ

-- A caller's calls in order, with what each returns; none if one does not return.
pub data Op : Type 0 where
  add : (mem : ℕ) → Op
  rmv : Op

abbrev and_then {ℓ} :
    {A : Type ℓ}
    → Option (A × RingBuff)
    → (A → Returned)
    → (RingBuff → Option (List Returned))
    → Option (List Returned)
and_then none tag rest = none
and_then (some (a, rb)) tag rest = Option.map (λ rs. tag a ∷ rs) (rest rb)

unfoldable pub run : RingBuff → List Op → Option (List Returned)
run rb [] = some []
run rb (add x ∷ ops) = and_then (add_mem rb x) inl (λ rb'. run rb' ops)
run rb (rmv ∷ ops) = and_then (rmv_mem rb) inr (λ rb'. run rb' ops)

-- The bounded queue's answers to the same calls.
pub answers : ℕ → List ℕ → List Op → List Returned
answers cap q [] = []
answers cap q (add x ∷ ops) = inl (Spec.push cap q x).0 ∷ answers cap (Spec.push cap q x).1 ops
answers cap q (rmv ∷ ops) = inr (Spec.pop q).0 ∷ answers cap (Spec.pop q).1 ops

-- No sequence of calls tells a ring buffer from the bounded queue of its contents, and every call
-- of the sequence returns.
pub run_refines :
    {k : ℕ} (ops : List Op) (q : List ℕ) {rb : RingBuff}
    → Holds k q rb
    → run rb ops ≡ some (answers (2 ^ k) q ops)
unfolding run answers
run_refines [] q h = refl
run_refines {k} (add x ∷ ops) q h =
    let (rb', e, h') = add_mem_refines x h in rw (e, run_refines ops (Spec.push (2 ^ k) q x).1 h')
run_refines (rmv ∷ ops) q h =
    let (rb', e, h') = rmv_mem_refines q h in rw (e, run_refines ops (Spec.pop q).1 h')
