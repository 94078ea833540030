-- ===== src/CompMgr/Removing.antt =====
-- Starting a manager, and removing a component from it.
use sadie.Prelude.{
  update, Bool, Option, ℕ, zero, suc, ◌+◌, ◌-◌, ◌*◌, ◌^◌, ◌≤◌, ◌<◌, ◌≡◌, ◌≢◌, refl, ap, ◌∙◌,
  ℕ_discrete, true, false, none, some, arith, ◌==◌,
}
use sadie.Word.{u32, null, Status, ok, bad_param}
use sadie.Dispatcher.{Components}
use sadie.CompMgr.{CompMgr, rmv_comp}
use sadie.CompMgr.Lifetime.{Chances, set_up, start_from, blank, deinit, init}

-- A component that has a manager, but does not stand at its `comp_idx`, is not removed: the status
-- is OK and nothing has changed.
rmv_comp-missed :
    (fuel : ℕ) (cs : Components) (weak : Bool) (m : CompMgr) (comp : ℕ)
    → comp ≢ null
    → (m.info comp).managed ≡ true
    → m.comps (m.info comp).comp_idx ≢ comp
    → rmv_comp fuel cs weak m comp ≡ some (ok, m)
unfolding rmv_comp
rmv_comp-missed fuel cs weak m comp real managed elsewhere =
    let t : (comp == null) ≡ false = ground arith in
    let e : (m.comps (m.info comp).comp_idx == comp) ≡ false = ground arith in rw (t, managed, e)

-- Thread `k` is set up: its slots lie in a row, and `comp_idx` is the index of the last.
pub record IsSetUp (max_comps k : ℕ) (m : CompMgr) : Type 0 where
  pub slot_at : (j : ℕ) → j < max_comps → m.slots k j ≡ k * max_comps + j
  pub idx_at : m.comp_idx k ≡ k * max_comps + (max_comps - 1)
  pub counted : m.max_comps k ≡ max_comps

abbrev AllSucceed : Chances → Type 0
AllSucceed ch =
    (ch.dtps ≡ true)
    × (ch.comps ≡ true)
    × ((k : ℕ) → ch.dtp_comps k ≡ true)
    × ((k : ℕ) → ch.thread k ≡ true)

set_up-IsSetUp :
    (max_comps k : ℕ) (m m' : CompMgr)
    → 0 < max_comps
    → k * max_comps + max_comps < 2 ^ 32
    → m'.slots k ≡ (set_up max_comps k m).slots k
    → m'.comp_idx k ≡ (set_up max_comps k m).comp_idx k
    → m'.max_comps k ≡ (set_up max_comps k m).max_comps k
    → IsSetUp max_comps k m'
set_up-IsSetUp max_comps k m m' some_comps small slots idx counts =
    let self : (k == k) ≡ true = ground arith in
    record {
      slot_at = λ j lt. ap (λ (f : ℕ → ℕ). f j) slots ∙ rw self (omega arith);
      idx_at = idx ∙ rw self (omega arith);
      counted = counts ∙ rw self;
    }

start_from-IsSetUp :
    (ch : Chances) (max_comps rounds k : ℕ) (m : CompMgr)
    → AllSucceed ch
    → 0 < max_comps
    → k * max_comps + rounds * max_comps < 2 ^ 32
    → (m' : CompMgr) × (start_from ch max_comps rounds k m ≡ (ok, m'))
      × ((t : ℕ) → k ≤ t → t < k + rounds → IsSetUp max_comps t m')
      × ((t : ℕ)
          → t < k
          → (m'.slots t ≡ m.slots t)
            × (m'.comp_idx t ≡ m.comp_idx t)
            × (m'.max_comps t ≡ m.max_comps t))
      × (m'.comps ≡ m.comps)
unfolding start_from
start_from-IsSetUp ch max_comps zero k m good some_comps small =
    (m, refl, λ t lo hi. absurd (omega arith), λ t lt. (refl, refl, refl), refl)
start_from-IsSetUp ch max_comps (suc rounds) k m good some_comps small =
    let started = record (set_up max_comps k m) {
      thread_started = update m.thread_started k true;
      d = update m.d k (ch.dispatcher k);
    } in
    let (m', e, r, before, empty) =
      start_from-IsSetUp ch max_comps rounds (k + 1) started good some_comps (omega arith) in
    let here = before k (omega arith) in
    (
      m',
      rw (good.2 k, good.3 k, e),
      λ t lo hi. elim (ℕ_discrete k t) [
        | yes same ↦
            rw (← same)
              (set_up-IsSetUp max_comps k m m' some_comps (omega arith) here.0 here.1 here.2)
        | no later ↦ r t (omega arith) (omega arith)
      ],
      λ t lt.
          let b = before t (omega arith) in
          let other : (t == k) ≡ false = ground arith in
          (b.0 ∙ rw other, b.1 ∙ rw other, b.2 ∙ rw other),
      empty,
    )

-- When all allocations and threads succeed, there are threads and slots, and their number is below
-- 2 ^ 32, init returns OK; the manager holds no component and every thread's slots lie in a row.
init-IsSetUp :
    (fuel : ℕ) (cs : Components) (ch : Chances) (max_threads max_comps : ℕ) (m : CompMgr)
    → AllSucceed ch
    → 0 < max_threads
    → 0 < max_comps
    → max_threads * max_comps < 2 ^ 32
    → (m' : CompMgr) × (init fuel cs ch max_threads max_comps m ≡ some (ok, m'))
      × ((t : ℕ) → t < max_threads → IsSetUp max_comps t m')
      × ((x : ℕ) → m'.comps x ≡ null)
      × (m'.next_dtps ≡ 0)
unfolding init
init-IsSetUp fuel cs ch max_threads max_comps m good some_threads some_comps small =
    let m2 = record (blank max_threads m) {
      has_dtps = true;
      comps_max_count = u32 (max_threads * max_comps);
    } in
    let (m', e, r, before, empty) =
      start_from-IsSetUp ch max_comps max_threads 0 m2 good some_comps (omega arith) in
    let t0 : (max_threads == 0) ≡ false = ground arith in
    let c0 : (max_comps == 0) ≡ false = ground arith in
    (
      record m' { next_dtps = 0 },
      rw (t0, c0, good.0, good.1, e),
      λ t lt.
          let s = r t (omega arith) (omega arith) in
          record { slot_at = s.slot_at; idx_at = s.idx_at; counted = s.counted },
      λ x. ap (λ (f : ℕ → ℕ). f x) empty,
      refl,
    )

deinit-none :
    (fuel : ℕ) (cs : Components) (max_threads : ℕ) (m : CompMgr)
    → 0 < max_threads
    → deinit fuel cs (blank max_threads m) ≡ none
unfolding deinit
deinit-none fuel cs max_threads m some_threads =
    let t0 : (max_threads == 0) ≡ false = ground arith in rw t0

-- With threads but no slots for components init reads through NULL before it can return BAD_PARAM.
pub init-none :
    (fuel : ℕ) (cs : Components) (ch : Chances) (max_threads : ℕ) (m : CompMgr)
    → 0 < max_threads
    → init fuel cs ch max_threads 0 m ≡ none
unfolding init
init-none fuel cs ch max_threads m some_threads =
    let t0 : (max_threads == 0) ≡ false = ground arith in
    rw t0 (
      ap
        (λ (o : Option CompMgr). elim o as (λ _. Option (Status × CompMgr)) [
          | none ↦ none
          | some m' ↦ some (bad_param, m')
        ])
        (deinit-none fuel cs max_threads m some_threads))
