-- ===== src/Dispatcher/Removal.antt =====
-- Adding components to the dispatcher's slots, and removing them.
use sadie.Prelude.{
  update, ℕ, zero, suc, ◌+◌, ◌-◌, ◌<◌, ◌≤◌, ◌≡◌, ◌≢◌, refl, ap, ◌∙◌, Bool, true, false, some, none,
  [], ◌∷◌, arith, ◌==◌, length, ℕ_discrete,
}
use sadie.Word.{null, ok, err}
use sadie.Dispatcher.{
  init_cmd, deinit_cmd, Slot, is_processing, empty, held, World, set_slot, send_msg, Components,
  ret_dc, rmv_dc,
}
use sadie.Dispatcher.Slots.{Comp, is_empty, place, fresh_dc, add_comp, is_of, rmv_from, rmv_comp}
use sadie.Dispatcher.Rounds.{IsQuiet, logged, process_msgs-Processed, ret_dc-gone}

-- `j` is the first place of the `n` from `i` on that passes the test.
pub record IsFirst (test : ℕ → Bool) (i n j : ℕ) : Type 0 where
  pub from : i ≤ j
  pub to : j < i + n
  pub hit : test j ≡ true
  pub misses : (x : ℕ) → i ≤ x → x < j → test x ≡ false

pub IsFirst-next :
    {test : ℕ → Bool} {i n j : ℕ} → IsFirst test i (suc n) j → i ≢ j → IsFirst test (i + 1) n j
IsFirst-next f ne = record {
  from = omega (arith, f.from);
  to = omega (arith, f.to);
  hit = f.hit;
  misses = λ x lo hi. f.misses x (omega arith) hi;
}

-- The world with the component's slot taken and its command queued.
abbrev placed : World → ℕ → ℕ → World
placed w j dc =
    send_msg (record (set_slot w j (held dc)) { cmds = update w.cmds dc (w.cmds dc - 1) }) dc
      init_cmd

place-first :
    (n i j dc : ℕ) (w : World)
    → IsFirst (λ x. is_empty (w.slot x)) i n j
    → place (λ _. false) n i dc w ≡ some (placed w j dc)
unfolding place
place-first zero i j dc w f = absurd (omega (arith, f.from, f.to))
place-first (suc n) i j dc w f = elim (ℕ_discrete i j) [
  | yes here ↦ rw (here, f.hit)
  | no on ↦
      rw (f.misses i (omega arith) (omega (arith, f.from)))
        (place-first n (i + 1) j dc w (IsFirst-next f on))
]

place-none :
    (n i dc : ℕ) (w : World)
    → ((x : ℕ) → i ≤ x → x < i + n → is_empty (w.slot x) ≡ false)
    → place (λ _. false) n i dc w ≡ none
unfolding place
place-none zero i dc w taken = refl
place-none (suc n) i dc w taken =
    rw (taken i (omega arith) (omega arith))
      (place-none n (i + 1) dc w (λ x lo hi. taken x (omega arith) (omega arith)))

-- A component with a process_msg and a name, for which everything is allocated, takes the first
-- empty slot; its queue holds AC_INIT_CMD, and the other slots are as they were.
pub add_comp-placed :
    (cs : Components) (w : World) (c : Comp) (dc j : ℕ)
    → c.has_process_msg ≡ true
    → c.name_length ≢ 0
    → dc ≢ null
    → IsFirst (λ x. is_empty (w.slot x)) 0 w.max_count j
    → (w' : World) × (add_comp cs (λ _. false) w (some c) dc ≡ some (dc, w'))
      × (w'.slot j ≡ held dc)
      × ((x : ℕ) → x ≢ j → w'.slot x ≡ w.slot x)
      × (w'.queue dc ≡ init_cmd ∷ [])
      × (w'.comp dc ≡ c.address)
      × (w'.cmds dc ≡ 1)
      × (w'.log ≡ w.log)
unfolding add_comp send_msg
add_comp-placed cs w c dc j able named real f =
    let named' : (c.name_length == 0) ≡ false = ground arith in
    let real' : (dc == null) ≡ false = ground arith in
    let at = place-first w.max_count 0 j dc (fresh_dc w dc c.address) f in
    (
      placed (fresh_dc w dc c.address) j dc,
      rw (able, named', real', at),
      ground arith,
      λ x ne. ground arith,
      ground arith,
      ground arith,
      ground arith,
      refl,
    )

-- With no empty slot NULL is returned: what was allocated is given back, no slot has changed, and
-- no message has been processed.
pub add_comp-full :
    (cs : Components) (w : World) (c : Comp) (dc : ℕ)
    → c.has_process_msg ≡ true
    → c.name_length ≢ 0
    → dc ≢ null
    → ((x : ℕ) → x < w.max_count → is_empty (w.slot x) ≡ false)
    → (w' : World) × (add_comp cs (λ _. false) w (some c) dc ≡ some (null, w'))
      × (w'.freed dc ≡ true)
      × (w'.slot ≡ w.slot)
      × (w'.log ≡ w.log)
unfolding add_comp ret_dc
add_comp-full cs w c dc able named real taken =
    let named' : (c.name_length == 0) ≡ false = ground arith in
    let real' : (dc == null) ≡ false = ground arith in
    let w1 = fresh_dc w dc c.address in
    let at = place-none w.max_count 0 dc w1 (λ x lo hi. taken x (omega arith)) in
    (
      record w1 { freed = update w1.freed dc true },
      rw (able, named', real', at),
      ground arith,
      refl,
      refl,
    )

module _ {cs : Components} (quiet : IsQuiet cs) where
  rmv_dc-held :
      (fuel i dc : ℕ) (w : World)
      → w.slot i ≡ held dc
      → length (w.queue dc) < fuel
      → w.cmds dc ≢ 0
      → (w' : World) × (rmv_dc fuel cs w i ≡ some w')
        × (w'.slot i ≡ empty)
        × ((x : ℕ) → x ≢ i → w'.slot x ≡ w.slot x)
        × (w'.freed dc ≡ true)
        × (w'.log ≡ (w.comp dc, deinit_cmd) ∷ logged (w.comp dc) (w.queue dc) w.log)
  unfolding rmv_dc
  rmv_dc-held fuel i dc w at lt left =
      let w1 = set_slot w i empty in
      let (w2, run, p) = process_msgs-Processed quiet fuel dc (w.queue dc) w1 refl lt in
      let same : w2.comp dc ≡ w.comp dc = ap (λ (f : ℕ → ℕ). f dc) p.comps in
      let left' : w2.cmds dc ≢ 0 = ground (arith, ap (λ (f : ℕ → ℕ). f dc) p.pools) in
      (
        record w2 {
          cmds = update w2.cmds dc (w2.cmds dc - 1);
          log = (w2.comp dc, deinit_cmd) ∷ w2.log;
          freed = update w2.freed dc true;
        },
        rw (at, run, ret_dc-gone quiet w2 dc left'),
        ap (λ (f : ℕ → Slot). f i) p.slots ∙ ground arith,
        λ x ne. ap (λ (f : ℕ → Slot). f x) p.slots ∙ ground arith,
        ground arith,
        rw (same, p.calls),
      )

  -- When components send nothing, the first slot of the component, with none before it that is being
  -- processed, is found; with a message left in its pool and fuel for its queue, the queue is delivered
  -- in order, then AC_DEINIT_CMD, the AcDispatchableComp is given back, and only its slot is empty now.
  pub rmv_comp-found :
      (fuel comp i dc : ℕ) (w : World)
      → comp ≢ null
      → IsFirst (λ x. is_of w comp (w.slot x)) 0 w.max_count i
      → ((x : ℕ) → x < i → is_processing (w.slot x) ≡ false)
      → w.slot i ≡ held dc
      → length (w.queue dc) < fuel
      → w.cmds dc ≢ 0
      → (w' : World) × (rmv_comp fuel cs w comp ≡ some (ok, w'))
        × (w'.slot i ≡ empty)
        × ((x : ℕ) → x ≢ i → w'.slot x ≡ w.slot x)
        × (w'.freed dc ≡ true)
        × (w'.log ≡ (w.comp dc, deinit_cmd) ∷ logged (w.comp dc) (w.queue dc) w.log)
  unfolding rmv_comp rmv_from
  rmv_comp-found fuel comp i dc w real f calm at lt left =
      let (w', e, gone_slot, kept, freed, log) = rmv_dc-held fuel i dc w at lt left in
      let real' : (comp == null) ≡ false = ground arith in
      (w', rw real' (go w.max_count 0 f e), gone_slot, kept, freed, log)
    where
      go :
          (n k : ℕ)
          → IsFirst (λ x. is_of w comp (w.slot x)) k n i
          → {w' : World} → rmv_dc fuel cs w i ≡ some w'
          → rmv_from fuel cs n k comp w ≡ some (ok, w')
      go zero k f e = absurd (omega (arith, f.from, f.to))
      go (suc n) k f e = elim (ℕ_discrete k i) [
        | yes here ↦
            let still : is_processing (w.slot i) ≡ false = rw at in rw (here, still, f.hit, e)
        | no on ↦
            rw (calm k (omega (arith, f.from)), f.misses k (omega arith) (omega (arith, f.from)))
              (go n (k + 1) (IsFirst-next f on) e)
      ]

-- A component that no slot holds is not removed, when no slot is being processed: the status is ERR
-- and nothing has changed.
pub rmv_comp-err :
    (cs : Components) (fuel comp : ℕ) (w : World)
    → comp ≢ null
    → ((x : ℕ) → x < w.max_count → is_processing (w.slot x) ≡ false)
    → ((x : ℕ) → x < w.max_count → is_of w comp (w.slot x) ≡ false)
    → rmv_comp fuel cs w comp ≡ some (err, w)
unfolding rmv_comp rmv_from
rmv_comp-err cs fuel comp w real calm absent =
    let real' : (comp == null) ≡ false = ground arith in
    rw real'
      (go w.max_count 0 (λ x lo hi. calm x (omega arith)) (λ x lo hi. absent x (omega arith)))
  where
    go :
        (n k : ℕ)
        → ((x : ℕ) → k ≤ x → x < k + n → is_processing (w.slot x) ≡ false)
        → ((x : ℕ) → k ≤ x → x < k + n → is_of w comp (w.slot x) ≡ false)
        → rmv_from fuel cs n k comp w ≡ some (err, w)
    go zero k c a = refl
    go (suc n) k c a =
        rw (c k (omega arith) (omega arith), a k (omega arith) (omega arith))
          (go n (k + 1) (λ x lo hi. c x (omega arith) (omega arith))
            (λ x lo hi. a x (omega arith) (omega arith)))
