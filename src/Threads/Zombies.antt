-- ===== src/Threads/Zombies.antt =====
-- The idle thread cleans up every zombie.
use sadie.Prelude.{
  ℕ, zero, suc, ◌+◌, ◌^◌, ◌≡◌, ◌≢◌, ◌<◌, inl, inr, List, [], ◌∷◌, ◌++◌, arith, ◌==◌, if◌then◌else◌,
  occurrences, occurrences-append, length, length-append, get_or, refl, false, Bool-cases, some, ap,
  ◌∙◌, ℕ_discrete,
}
use sadie.Word.{null}
use sadie.WaitHeap.{write}
use sadie.Threads.{Threads, zombie, empty, cut_out}
use sadie.Threads.Create.{free_zombie, clean_up, remove_zombies}
use sadie.Threads.Arc.{Arc-split}
use sadie.Threads.Ring.{IsRing, remove_tcb-IsRing}
use mathlib.Core.List.{append_assoc}

-- Those that have not ended, in their order.
abbrev pub live : (thread_id : ℕ → ℕ) → List ℕ → List ℕ
live id [] = []
live id (x ∷ xs) = if id x == zombie then live id xs else x ∷ live id xs

-- The stacks of those that have ended, the last one first, before `freed`.
abbrev pub stacks : (thread_id pstack : ℕ → ℕ) → List ℕ → (freed : List ℕ) → List ℕ
stacks id stack [] freed = freed
stacks id stack (x ∷ xs) freed =
    if id x == zombie
    then stacks id stack xs (if stack x == null then freed else stack x ∷ freed)
    else stacks id stack xs freed

pub live-write :
    (id : ℕ → ℕ) (p v : ℕ) (xs : List ℕ)
    → occurrences p xs ≡ 0
    → live (write id p v) xs ≡ live id xs
live-write id p v [] out = refl
live-write id p v (x ∷ xs) out = ground (arith, live-write id p v xs)

pub stacks-write :
    (id stack : ℕ → ℕ) (p v : ℕ) (xs freed : List ℕ)
    → occurrences p xs ≡ 0
    → stacks (write id p v) stack xs freed ≡ stacks id stack xs freed
stacks-write id stack p v [] freed out = refl
stacks-write id stack p v (x ∷ xs) freed out =
    let here : write id p v x ≡ id x = ground arith in
    let rest = λ (f : List ℕ). stacks-write id stack p v xs f (ground arith) in
    elim (Bool-cases (id x == zombie)) [
      | inl dead ↦ rw (here, dead) (rest _)
      | inr lives ↦ rw (here, lives) (rest _)
    ]

-- The tcb that follows one on the ring.
next_on_ring :
    (t : Threads) (c h : ℕ) (xs ys : List ℕ)
    → IsRing t c (xs ++ (h ∷ ys))
    → t.next h ≡ get_or ys 0 c
next_on_ring t c h xs [] r = (Arc-split t.next t.prev c h c xs [] r.arc).1.0
next_on_ring t c h xs (y ∷ ys) r = (Arc-split t.next t.prev c h c xs (y ∷ ys) r.arc).1.0

-- What is left when `xs` have been cleaned up behind `ls`.
pub record IsCleaned (t : Threads) (ls xs : List ℕ) (count : ℕ) (n : ℕ) (t' : Threads)
    : Type 0 where
  pub ring : IsRing t' t.pidle (ls ++ live t.thread_id xs)
  pub tally : n + length (live t.thread_id xs) ≡ count + length xs
  pub marked : (a : ℕ) → 0 < occurrences a xs → t.thread_id a ≡ zombie → t'.thread_id a ≡ empty
  pub kept : (a : ℕ) → t.thread_id a ≢ zombie → t'.thread_id a ≡ t.thread_id a
  pub given_back : t'.freed ≡ stacks t.thread_id t.pstack xs t.freed

clean_up-IsCleaned :
    (fuel count : ℕ) (t : Threads) (ls xs : List ℕ)
    → IsRing t t.pidle (ls ++ xs)
    → length (ls ++ xs) < 2 ^ 32
    → length xs < fuel
    → (n : ℕ) × (t' : Threads) × (clean_up fuel (get_or xs 0 t.pidle) count t ≡ some (n, t'))
      × IsCleaned t ls xs count n t'
unfolding clean_up
clean_up-IsCleaned zero count t ls xs ring small enough = absurd (omega arith)
clean_up-IsCleaned (suc fuel) count t ls [] ring small enough = (
  count,
  t,
  ground arith,
  record {
    ring = ring;
    tally = omega arith;
    marked = λ a on z. absurd (omega arith);
    kept = λ a z. refl;
    given_back = refl;
  },
)
clean_up-IsCleaned (suc fuel) count t ls (h ∷ xs) ring small enough =
    let size = length-append ls (h ∷ xs) in
    let size' = length-append ls xs in
    let many = λ (a : ℕ). occurrences-append a ls (h ∷ xs) in
    let other : (h == t.pidle) ≡ false = ground (arith, ring.once h, many h) in
    let out : occurrences h xs ≡ 0 = ground (arith, ring.once h, many h) in
    elim (Bool-cases (t.thread_id h == zombie)) [
      | inl dead ↦
          let (e, ring') = remove_tcb-IsRing t t.pidle h ls xs ring small in
          let t1 = free_zombie h (cut_out h t) in
          let fresh : t1.thread_id h ≡ empty = ground arith in
          let (n, t', e', c) =
            clean_up-IsCleaned fuel (count + 1) t1 ls xs ring' (omega (arith, size, size'))
              (omega arith) in
          let same = live-write t.thread_id h empty xs out in
          (
            n,
            t',
            rw (other, dead, e) e',
            record {
              ring = rw dead (rw same at c.ring);
              tally = rw dead (omega (arith, c.tally, ap length same));
              marked = λ a on z. elim (ℕ_discrete a h) [
                | yes here ↦ rw here (c.kept h (ground (arith, fresh)) ∙ fresh)
                | no other ↦ c.marked a (ground arith) (ground arith)
              ];
              kept = λ a z. ground (arith, c.kept a);
              given_back =
                  rw dead (c.given_back ∙ stacks-write t.thread_id t.pstack h empty xs _ out);
            },
          )
      | inr lives ↦
          let shape = append_assoc ls (h ∷ []) xs in
          let ring' : IsRing t t.pidle ((ls ++ (h ∷ [])) ++ xs) = rw shape ring in
          let (n, t', e', c) =
            clean_up-IsCleaned fuel count t (ls ++ (h ∷ [])) xs ring' (rw shape small)
              (omega arith) in
          (
            n,
            t',
            rw (other, lives, next_on_ring t t.pidle h ls xs ring) e',
            record {
              ring = rw lives (rw (append_assoc ls (h ∷ []) (live t.thread_id xs)) at c.ring);
              tally = rw lives (omega (arith, c.tally));
              marked = λ a on z. c.marked a (ground arith) z;
              kept = c.kept;
              given_back = rw lives c.given_back;
            },
          )
    ]

-- On a ring of fewer than 2 ^ 32 tcbs and with fuel for them, remove_zombies comes to its end: the
-- others stay on the ring in their order, the zombies are counted and their tcbs are empty, and each
-- of their stacks has been given back.
pub remove_zombies-IsCleaned :
    (fuel : ℕ) (t : Threads) (xs : List ℕ)
    → IsRing t t.pidle xs
    → length xs < 2 ^ 32
    → length xs < fuel
    → (n : ℕ) × (t' : Threads) × (remove_zombies fuel t ≡ some (n, t')) × IsCleaned t [] xs 0 n t'
unfolding remove_zombies
remove_zombies-IsCleaned fuel t xs ring small enough =
    rw (next_of_first t xs ring) (clean_up-IsCleaned fuel 0 t [] xs ring small enough)
  where
    next_of_first :
        (t : Threads) (xs : List ℕ) → IsRing t t.pidle xs → t.next t.pidle ≡ get_or xs 0 t.pidle
    next_of_first t [] r = r.arc.0
    next_of_first t (x ∷ xs) r = r.arc.0
