-- ===== src/ArmThreads/Cleaning.antt =====
-- The idle thread of armv6 cleans up every zombie on the ring.
use sadie.Prelude.{
  ℕ, zero, suc, ◌<◌, ◌≡◌, ◌≢◌, List, [], ◌∷◌, arith, ◌==◌, occurrences, length, get_or, refl, false,
  Bool-cases, some, inl, inr, ℕ_discrete, ap, ◌∙◌,
}
use sadie.WaitHeap.{write}
use sadie.Threads.{zombie, empty}
use sadie.Threads.Zombies.{live, stacks, live-write, stacks-write}
use sadie.ArmThreads.{ArmThreads, unlink_zombie, clean_up, remove_zombies}

-- From `a` the links lead through `xs` to `b`.
abbrev pub Links : (next : ℕ → ℕ) → ℕ → List ℕ → ℕ → Type 0
Links n a [] b = n a ≡ b
Links n a (x ∷ xs) b = (n a ≡ x) × Links n x xs b

pub Links-frame :
    (n n' : ℕ → ℕ) (a b : ℕ) (xs : List ℕ)
    → ((t : ℕ) → 0 < occurrences t (a ∷ xs) → n' t ≡ n t)
    → Links n a xs b
    → Links n' a xs b
Links-frame n n' a b [] same h = ground (arith, same a)
Links-frame n n' a b (x ∷ xs) same h =
    (ground (arith, same a), Links-frame n n' x b xs (λ t on. same t (ground arith)) h.1)

Links-first : (n : ℕ → ℕ) (a b : ℕ) (xs : List ℕ) → Links n a xs b → n a ≡ get_or xs 0 b
Links-first n a b [] h = h
Links-first n a b (x ∷ xs) h = h.0

-- The tcb behind `a` is taken out.
Links-skip :
    (n : ℕ → ℕ) (a x b : ℕ) (xs : List ℕ)
    → Links n a (x ∷ xs) b
    → ((t : ℕ) → occurrences t (a ∷ (x ∷ xs)) < 2)
    → Links (write n a (n x)) a xs b
Links-skip n a x b [] h once = ground arith
Links-skip n a x b (y ∷ ys) h once =
    (ground arith, Links-frame n (write n a (n x)) y b ys (λ t on. ground (arith, once a)) h.1.1)

-- What is left when `xs`, which lead from `a` to the idle tcb, have been cleaned up.
pub record IsCleaned (t : ArmThreads) (a : ℕ) (xs : List ℕ) (t' : ArmThreads) : Type 0 where
  pub links : Links t'.next a (live t.thread_id xs) t.idle
  pub others : (p : ℕ) → occurrences p (a ∷ xs) ≡ 0 → t'.next p ≡ t.next p
  pub marked : (p : ℕ) → 0 < occurrences p xs → t.thread_id p ≡ zombie → t'.thread_id p ≡ empty
  pub kept : (p : ℕ) → t.thread_id p ≢ zombie → t'.thread_id p ≡ t.thread_id p
  pub given_back : t'.freed ≡ stacks t.thread_id t.pstack xs t.freed

clean_up-IsCleaned :
    (fuel a : ℕ) (t : ArmThreads) (xs : List ℕ)
    → Links t.next a xs t.idle
    → ((p : ℕ) → occurrences p (a ∷ xs) < 2)
    → occurrences t.idle xs ≡ 0
    → length xs < fuel
    → (t' : ArmThreads) × (clean_up fuel a (get_or xs 0 t.idle) t ≡ some t') × IsCleaned t a xs t'
unfolding clean_up
clean_up-IsCleaned zero a t xs h once out enough = absurd (omega arith)
clean_up-IsCleaned (suc fuel) a t [] h once out enough = (
  t,
  ground arith,
  record {
    links = h;
    others = λ p off. refl;
    marked = λ p on z. absurd (omega arith);
    kept = λ p z. refl;
    given_back = refl;
  },
)
clean_up-IsCleaned (suc fuel) a t (x ∷ xs) h once out enough =
    let other : (x == t.idle) ≡ false = ground arith in
    let off : occurrences x xs ≡ 0 = ground (arith, once x) in
    let following = Links-first t.next x t.idle xs h.1 in
    elim (Bool-cases (t.thread_id x == zombie)) [
      | inl dead ↦
          let t1 = unlink_zombie a x t in
          let fresh : t1.thread_id x ≡ empty = ground arith in
          let (t', e, c) =
            clean_up-IsCleaned fuel a t1 xs (Links-skip t.next a x t.idle xs h once)
              (λ p. ground (arith, once p)) (ground arith) (omega arith) in
          let same = live-write t.thread_id x empty xs off in
          (
            t',
            rw (other, dead) (ap (λ p. clean_up fuel a p t1) following ∙ e),
            record {
              links = rw dead (rw same at c.links);
              others = λ p gone. c.others p (ground arith) ∙ ground arith;
              marked = λ p on z. elim (ℕ_discrete p x) [
                | yes here ↦ rw here (c.kept x (ground (arith, fresh)) ∙ fresh)
                | no apart ↦ c.marked p (ground arith) (ground arith)
              ];
              kept = λ p z. ground (arith, c.kept p);
              given_back =
                  rw dead (c.given_back ∙ stacks-write t.thread_id t.pstack x empty xs _ off);
            },
          )
      | inr lives ↦
          let (t', e, c) =
            clean_up-IsCleaned fuel x t xs h.1 (λ p. ground (arith, once p)) (ground arith)
              (omega arith) in
          (
            t',
            rw (other, lives, following) e,
            record {
              links = rw lives (c.others a (ground (arith, once a)) ∙ h.0, c.links);
              others = λ p gone. c.others p (ground arith);
              marked = λ p on z. c.marked p (ground arith) z;
              kept = c.kept;
              given_back = rw lives c.given_back;
            },
          )
    ]

-- On a ring that the idle tcb is on, where no tcb is met twice, and with fuel for it, remove_zombies
-- comes to its end: the others stay on the ring in their order, the tcbs of the zombies are empty,
-- and each of their stacks has been given back.
arm_remove_zombies-IsCleaned :
    (fuel : ℕ) (t : ArmThreads) (xs : List ℕ)
    → Links t.next t.idle xs t.idle
    → ((p : ℕ) → occurrences p (t.idle ∷ xs) < 2)
    → length xs < fuel
    → (t' : ArmThreads) × (remove_zombies fuel t ≡ some t') × IsCleaned t t.idle xs t'
unfolding remove_zombies
arm_remove_zombies-IsCleaned fuel t xs h once enough =
    rw (Links-first t.next t.idle t.idle xs h)
      (clean_up-IsCleaned fuel t.idle t xs h once (ground (arith, once t.idle)) enough)
