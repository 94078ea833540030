-- ===== src/Dispatcher/Rounds.antt =====
-- What a round of the dispatcher does to a slot, its component and its queue.
use sadie.Prelude.{
  update, ℕ, zero, suc, ◌-◌, ◌<◌, ◌≡◌, ◌≢◌, refl, ap, ◌||◌, ◌∙◌, Bool, true, false, some, List, [],
  ◌∷◌, arith, ◌==◌, if◌then◌else◌, length,
}
use sadie.Dispatcher.{
  Message, deinit_cmd, Slot, empty, processing, held, World, set_slot, Components, deliver,
  process_msgs, ret_dc, chance, restored, dispatch_slot,
}

-- Components that send nothing while they process a message.
abbrev pub IsQuiet : Components → Type 0
IsQuiet cs = (log : List (ℕ × Message)) (c : ℕ) (m : Message) → cs log c m ≡ []

-- The calls of process_msg for the messages of a queue, last first.
abbrev pub logged : ℕ → List Message → List (ℕ × Message) → List (ℕ × Message)
logged c [] log = log
logged c (m ∷ ms) log = logged c ms ((c, m) ∷ log)

abbrev pub any_message : List Message → Bool
any_message [] = false
any_message (m ∷ ms) = true

-- The queue `q` of `dc` has been delivered, and the rest is as it was.
pub record Processed (dc : ℕ) (q : List Message) (w w' : World) : Type 0 where
  pub drained : w'.queue dc ≡ []
  pub calls : w'.log ≡ logged (w.comp dc) q w.log
  pub slots : w'.slot ≡ w.slot
  pub others : (j : ℕ) → j ≢ dc → w'.queue j ≡ w.queue j
  pub comps : w'.comp ≡ w.comp
  pub pools : w'.cmds ≡ w.cmds
  pub frees : w'.freed ≡ w.freed
  pub bound : w'.max_count ≡ w.max_count

deliver-quiet :
    (cs : Components)
    → IsQuiet cs
    → (w : World) (dc : ℕ) (m : Message)
    → deliver cs w dc m ≡ record w { log = (w.comp dc, m) ∷ w.log }
unfolding deliver
deliver-quiet cs quiet w dc m = rw (quiet w.log (w.comp dc) m)

module _ {cs : Components} (quiet : IsQuiet cs) where
  -- With fuel for the messages that are queued, all of them are processed, in order.
  pub process_msgs-Processed :
      (fuel : ℕ) (dc : ℕ) (q : List Message) (w : World)
      → w.queue dc ≡ q
      → length q < fuel
      → (w' : World) × (process_msgs fuel cs w dc ≡ some (any_message q, w')) × Processed dc q w w'
  unfolding process_msgs
  process_msgs-Processed zero dc q w e lt = absurd (omega arith)
  process_msgs-Processed (suc fuel) dc [] w e lt = (
    w,
    rw (e, process_msgs),
    record {
      drained = e;
      calls = refl;
      slots = refl;
      others = λ j ne. refl;
      comps = refl;
      pools = refl;
      frees = refl;
      bound = refl;
    },
  )
  process_msgs-Processed (suc fuel) dc (m ∷ ms) w e lt =
      let w1 = record w { queue = update w.queue dc ms; log = (w.comp dc, m) ∷ w.log } in
      let (w', e', p) = process_msgs-Processed fuel dc ms w1 (ground arith) (omega arith) in
      (
        w',
        rw (e, process_msgs) (rw (deliver-quiet cs quiet) (rw e')),
        record {
          drained = p.drained;
          calls = p.calls;
          slots = p.slots;
          others = λ j ne. p.others j ne ∙ ground arith;
          comps = p.comps;
          pools = p.pools;
          frees = p.frees;
          bound = p.bound;
        },
      )

  -- A round over a slot that holds a component, with nobody else at work: the queue is delivered in
  -- order, the component is put back, the other slots are untouched, and the result tells whether
  -- there was a message, whatever the rounds before it have found.
  pub dispatch_slot-calm :
      (fuel i dc : ℕ) (before : Bool) (w : World)
      → w.slot i ≡ held dc
      → length (w.queue dc) < fuel
      → (w' : World) × (dispatch_slot fuel cs (chance false false) w i before
          ≡ some (any_message (w.queue dc), w'))
        × (w'.slot i ≡ held dc)
        × ((j : ℕ) → j ≢ i → w'.slot j ≡ w.slot j)
        × (w'.queue dc ≡ [])
        × ((j : ℕ) → j ≢ dc → w'.queue j ≡ w.queue j)
        × (w'.log ≡ logged (w.comp dc) (w.queue dc) w.log)
        × (w'.freed ≡ w.freed)
        × (w'.comp ≡ w.comp)
  unfolding dispatch_slot
  dispatch_slot-calm fuel i dc before w e lt =
      let w1 = set_slot w i processing in
      let (w', run, p) = process_msgs-Processed fuel dc (w.queue dc) w1 refl lt in
      let self : (i == i) ≡ true = ground arith in
      let at : w'.slot i ≡ processing = ap (λ (f : ℕ → Slot). f i) p.slots ∙ rw self in
      (
        set_slot w' i (held dc),
        rw (e, run, at),
        rw self,
        λ j ne. ground (arith, ap (λ (f : ℕ → Slot). f j) p.slots),
        p.drained,
        p.others,
        p.calls,
        p.frees,
        p.comps,
      )

  -- The component has been told to deinitialise, and given back.
  abbrev gone : World → ℕ → World
  gone w dc = record w {
    cmds = update w.cmds dc (w.cmds dc - 1);
    log = (w.comp dc, deinit_cmd) ∷ w.log;
    freed = update w.freed dc true;
  }

  pub ret_dc-gone : (w : World) (dc : ℕ) → w.cmds dc ≢ 0 → ret_dc cs w dc false ≡ some (gone w dc)
  unfolding ret_dc
  ret_dc-gone w dc ne =
      let some_left : (w.cmds dc == 0) ≡ false = ground arith in
      rw (some_left, deliver-quiet cs quiet)

  restored-gone :
      (removed spurious : Bool) (i dc : ℕ) (p : Bool) (w : World)
      → w.slot i ≡ processing
      → w.cmds dc ≢ 0
      → (removed || spurious) ≡ true
      → restored cs (chance removed spurious) i dc (some (p, w))
        ≡ some (p, gone (if removed then set_slot w i empty else w) dc)
  restored-gone true s i dc p w at ne fails =
      let self : (i == i) ≡ true = ground arith in rw (self, ret_dc-gone (set_slot w i empty) dc ne)
  restored-gone false true i dc p w at ne fails = rw (at, ret_dc-gone w dc ne)
  restored-gone false false i dc p w at ne fails = cc

  slot_after :
      (removed : Bool) (i : ℕ) (w : World) (dc : ℕ)
      → w.slot i ≡ processing
      → (gone (if removed then set_slot w i empty else w) dc).slot i
        ≡ (if removed then empty else processing)
  slot_after true i w dc at = ground arith
  slot_after false i w dc at = at

  freed_after :
      (removed : Bool) (i : ℕ) (w : World) (dc : ℕ)
      → (gone (if removed then set_slot w i empty else w) dc).freed dc ≡ true
  freed_after true i w dc = ground arith
  freed_after false i w dc = ground arith

  log_after :
      (removed : Bool) (i : ℕ) (w : World) (dc : ℕ)
      → (gone (if removed then set_slot w i empty else w) dc).log ≡ (w.comp dc, deinit_cmd) ∷ w.log
  log_after true i w dc = refl
  log_after false i w dc = refl

  -- When components send nothing, the fuel exceeds the queue, the component's pool has a message, and
  -- the slot was removed meanwhile or the weak compare-exchange fails for no reason, a round delivers
  -- the queue and then AC_DEINIT_CMD and gives the component back; the slot is left empty in the first
  -- case, marked as being processed in the second.
  pub dispatch_slot-fails :
      (fuel i dc : ℕ) (removed spurious before : Bool) (w : World)
      → w.slot i ≡ held dc
      → length (w.queue dc) < fuel
      → w.cmds dc ≢ 0
      → (removed || spurious) ≡ true
      → (w' : World) × (dispatch_slot fuel cs (chance removed spurious) w i before
          ≡ some (any_message (w.queue dc), w'))
        × (w'.slot i ≡ (if removed then empty else processing))
        × (w'.freed dc ≡ true)
        × (w'.log ≡ (w.comp dc, deinit_cmd) ∷ logged (w.comp dc) (w.queue dc) w.log)
  unfolding dispatch_slot
  dispatch_slot-fails fuel i dc removed spurious before w e lt msgs fails =
      let w1 = set_slot w i processing in
      let (w2, run, p) = process_msgs-Processed fuel dc (w.queue dc) w1 refl lt in
      let self : (i == i) ≡ true = ground arith in
      let at : w2.slot i ≡ processing = ap (λ (f : ℕ → Slot). f i) p.slots ∙ rw self in
      let left : w2.cmds dc ≢ 0 = ground (arith, ap (λ (f : ℕ → ℕ). f dc) p.pools) in
      let same : w2.comp dc ≡ w.comp dc = ap (λ (f : ℕ → ℕ). f dc) p.comps in
      (
        gone (if removed then set_slot w2 i empty else w2) dc,
        rw (e, run)
            (restored-gone removed spurious i dc (any_message (w.queue dc)) w2 at left fails),
        slot_after removed i w2 dc at,
        freed_after removed i w2 dc,
        log_after removed i w2 dc ∙ rw (same, p.calls),
      )
