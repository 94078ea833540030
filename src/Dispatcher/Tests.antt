-- ===== src/Dispatcher/Tests.antt =====
-- A dispatcher of three slots, run, and its theorems at that dispatcher.
use sadie.Prelude.{ℕ, ◌≡◌, ◌≢◌, refl, true, false, some, [], ◌∷◌, arith, ◌==◌, if◌then◌else◌}
use mathlib.Core.Option
use sadie.Word.{ok}
use sadie.Dispatcher.{
  init_cmd, deinit_cmd, user, empty, processing, held, World, Components, chance, process_msgs,
  deliver, send_msg, dispatch_slot, dispatch_from, dispatch,
}
use sadie.Dispatcher.Slots.{Comp, add_comp, rmv_comp}
use sadie.Dispatcher.Rounds.{IsQuiet, dispatch_slot-calm, dispatch_slot-fails}
use sadie.Dispatcher.Removal.{add_comp-placed, rmv_comp-found}

-- Slots 0 and 2 hold the AcDispatchableComp's 100 of component 50 and 200 of component 60.
abbrev world : World
world = record {
  max_count = 3;
  slot = λ i. if i == 0 then held 100 else (if i == 2 then held 200 else empty);
  comp = λ dc. if dc == 100 then 50 else 60;
  queue = λ dc. if dc == 100 then user 7 ∷ user 8 ∷ [] else [];
  cmds = λ _. 1;
  freed = λ _. false;
  log = [];
}

abbrev quiet : Components
quiet log c m = []

quiet-IsQuiet : IsQuiet quiet
quiet-IsQuiet log c m = refl

-- Component 50 answers a message by one to component 60.
abbrev answering : Components
answering log c m = if c == 50 then (200, m) ∷ [] else []

abbrev comp70 : Comp
comp70 = record { address = 70; has_process_msg = true; name_length = 4 }

-- The messages go round in slot order.
dispatch_run :
    Option.map (λ r. r.1.log) (dispatch 5 answering (λ _. chance false false) world)
    ≡ some ((60, user 8) ∷ (60, user 7) ∷ (50, user 8) ∷ (50, user 7) ∷ [])
unfolding dispatch dispatch_from dispatch_slot process_msgs deliver send_msg
dispatch_run = refl

-- With messages for the first component only, a dispatch that processes them returns false.
dispatch_flag :
    Option.map (λ r. r.0) (dispatch 5 quiet (λ _. chance false false) world) ≡ some false
unfolding dispatch dispatch_from dispatch_slot process_msgs deliver
dispatch_flag = refl

dispatch_slot-calm_example :
    (w' : World) × (dispatch_slot 5 quiet (chance false false) world 0 false ≡ some (true, w'))
    × (w'.slot 0 ≡ held 100)
    × ((j : ℕ) → j ≢ 0 → w'.slot j ≡ world.slot j)
    × (w'.queue 100 ≡ [])
    × ((j : ℕ) → j ≢ 100 → w'.queue j ≡ world.queue j)
    × (w'.log ≡ (50, user 8) ∷ (50, user 7) ∷ [])
    × (w'.freed ≡ world.freed)
    × (w'.comp ≡ world.comp)
dispatch_slot-calm_example = dispatch_slot-calm quiet-IsQuiet 5 0 100 false world refl (omega arith)

dispatch_slot-fails_example :
    (w' : World) × (dispatch_slot 5 quiet (chance false true) world 0 false ≡ some (true, w'))
    × (w'.slot 0 ≡ processing)
    × (w'.freed 100 ≡ true)
    × (w'.log ≡ (50, deinit_cmd) ∷ (50, user 8) ∷ (50, user 7) ∷ [])
dispatch_slot-fails_example =
    dispatch_slot-fails quiet-IsQuiet 5 0 100 false true false world refl (omega arith)
      (omega arith) refl

add_comp-placed_example :
    (w' : World) × (add_comp quiet (λ _. false) world (some comp70) 300 ≡ some (300, w'))
    × (w'.slot 1 ≡ held 300)
    × ((x : ℕ) → x ≢ 1 → w'.slot x ≡ world.slot x)
    × (w'.queue 300 ≡ init_cmd ∷ [])
    × (w'.comp 300 ≡ 70)
    × (w'.cmds 300 ≡ 1)
    × (w'.log ≡ [])
add_comp-placed_example =
    add_comp-placed quiet world comp70 300 1 refl (omega arith) (omega arith) (record {
      from = omega arith;
      to = omega arith;
      hit = refl;
      misses = λ x lo hi. ground arith;
    })

rmv_comp-found_example :
    (w' : World) × (rmv_comp 5 quiet world 50 ≡ some (ok, w'))
    × (w'.slot 0 ≡ empty)
    × ((x : ℕ) → x ≢ 0 → w'.slot x ≡ world.slot x)
    × (w'.freed 100 ≡ true)
    × (w'.log ≡ (50, deinit_cmd) ∷ (50, user 8) ∷ (50, user 7) ∷ [])
rmv_comp-found_example =
    rmv_comp-found quiet-IsQuiet 5 50 0 100 world (omega arith)
      (record {
        from = omega arith;
        to = omega arith;
        hit = refl;
        misses = λ x lo hi. absurd (omega arith);
      })
      (λ x lt. absurd (omega arith)) refl (omega arith) (omega arith)
