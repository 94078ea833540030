-- ===== src/CompMgr/Tests.antt =====
-- A manager of two threads with three slots each, and its theorems at it.
use sadie.Prelude.{ℕ, ◌+◌, ◌≡◌, ◌≢◌, refl, true, false, some, [], ◌∷◌, arith, ◌==◌, if◌then◌else◌}
use sadie.Word.{null, ok}
use sadie.Dispatcher.{World, Components, init_cmd, empty, held}
use sadie.Dispatcher.Slots.{Comp}
use sadie.CompMgr.{CompMgr, add_comp}
use sadie.CompMgr.Lifetime.{Chances}
use sadie.CompMgr.Adding.{add_comp-managed}

abbrev quiet : Components
quiet log c m = []

abbrev three_slots : World
three_slots = record {
  max_count = 3;
  slot = λ _. empty;
  comp = λ _. null;
  queue = λ _. [];
  cmds = λ _. 0;
  freed = λ _. false;
  log = [];
}

abbrev chances : Chances
chances = record {
  dtps = true;
  comps = true;
  dtp_comps = λ _. true;
  thread = λ _. true;
  dispatcher = λ _. three_slots;
}

-- Component 70 stands at index 0; its thread's `comp_idx` is 2.
abbrev manager : CompMgr
manager = record {
  has_dtps = true;
  max_dtps = 2;
  next_dtps = 1;
  comps_max_count = 6;
  comps = λ x. if x == 0 then 70 else null;
  max_comps = λ _. 3;
  slots = λ k j. k + k + k + j;
  comp_idx = λ k. k + k + k + 2;
  thread_started = λ _. true;
  d = λ _. three_slots;
  info = λ _. record { dc = 300; managed = true; comp_idx = 2; dtp = 0 };
  signals = [];
}

abbrev comp80 : Comp
comp80 = record { address = 80; has_process_msg = true; name_length = 4 }

add_comp-managed_example :
    (m' : CompMgr) × (add_comp quiet (λ _ _. 400) (λ _. false) (λ _. false) comp80 manager
      ≡ some (ok, m'))
    × (m'.comps 3 ≡ 80)
    × ((x : ℕ) → x ≢ 3 → m'.comps x ≡ manager.comps x)
    × (m'.info 80 ≡ record { dc = 400; managed = true; comp_idx = 5; dtp = 1 })
    × ((m'.d 1).slot 0 ≡ held 400)
    × ((m'.d 1).queue 400 ≡ init_cmd ∷ [])
    × (m'.next_dtps ≡ 2)
add_comp-managed_example =
    add_comp-managed quiet (λ _ _. 400) comp80 manager 0 0 refl (omega arith) (omega arith)
      (omega arith)
      (record {
        from = omega arith;
        to = omega arith;
        hit = refl;
        misses = λ x lo hi. absurd (omega arith);
      })
      (record {
        from = omega arith;
        to = omega arith;
        hit = refl;
        misses = λ x lo hi. absurd (omega arith);
      })
