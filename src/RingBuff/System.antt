-- ===== src/RingBuff/System.antt =====
-- Producers that add to one ring while a consumer removes from it, interleaved in any order.
use sadie.Prelude.{update, ℕ, ◌+◌, ◌≡◌, Bool, Option, none, some}
use sadie.Word.{null}
use sadie.RingBuff.{
  RingBuff, AddPc, decide, put_mem, enter, added, full, add_step, RmvPc, release, returned,
  rmv_step,
}

-- A producer outside add_mem, or in a call of it for `mem`.
pub data Producer : Type 0 where
  idle : Producer
  adding : (mem : ℕ) → AddPc → Producer

-- `sent p` is what the producer that won position `p` adds, `got p` what the consumer has taken from
-- position `p`, from 0 on.
pub record System : Type 0 where
  pub rb : RingBuff
  pub producer : ℕ → Producer
  pub consumer : Option RmvPc
  pub sent : ℕ → ℕ
  pub num_sent : ℕ
  pub got : ℕ → ℕ
  pub num_got : ℕ

-- A position is won where the compare-exchange succeeds.
abbrev pub wins : System → (mem : ℕ) → (from to : AddPc) → System
wins s mem (decide pos seq) (put_mem won) = record s {
  sent = update s.sent s.num_sent mem;
  num_sent = s.num_sent + 1;
}
wins s mem from to = s

unfoldable pub produced : System → (spurious : Bool) → (i mem : ℕ) → AddPc → System
unfolding add_step
produced s spurious i mem p = record (wins s mem p (add_step spurious mem s.rb p).1) {
  rb = (add_step spurious mem s.rb p).0;
  producer = update s.producer i (adding mem (add_step spurious mem s.rb p).1);
}

-- An item leaves the ring when its cell is given back.
abbrev pub leaves : System → RmvPc → System
leaves s (release pos mem) = record s { got = update s.got s.num_got mem; num_got = s.num_got + 1 }
leaves s p = s

unfoldable pub consumed : System → RmvPc → System
unfolding rmv_step
consumed s p = record (leaves s p) { rb = (rmv_step s.rb p).0; consumer = some (rmv_step s.rb p).1 }

pub data Step (s : System) : System → Type 0 where
  call_add :
      (i mem : ℕ)
      → s.producer i ≡ idle
      → Step s (record s { producer = update s.producer i (adding mem enter) })
  in_add :
      (spurious : Bool) (i mem : ℕ) (p : AddPc)
      → s.producer i ≡ adding mem p
      → Step s (produced s spurious i mem p)
  return_added :
      (i mem : ℕ)
      → s.producer i ≡ adding mem added
      → Step s (record s { producer = update s.producer i idle })
  return_full :
      (i mem : ℕ)
      → s.producer i ≡ adding mem full
      → Step s (record s { producer = update s.producer i idle })
  call_rmv : s.consumer ≡ none → Step s (record s { consumer = some RmvPc.enter })
  in_rmv : (p : RmvPc) → s.consumer ≡ some p → Step s (consumed s p)
  return_rmv : (mem : ℕ) → s.consumer ≡ some (returned mem) → Step s (record s { consumer = none })

-- A ring that nobody uses yet.
abbrev pub start : RingBuff → System
start rb = record {
  rb = rb;
  producer = λ _. idle;
  consumer = none;
  sent = λ _. null;
  num_sent = 0;
  got = λ _. null;
  num_got = 0;
}

pub data Reach (s : System) : System → Type 0 where
  here : Reach s s
  next : {t u : System} → Reach s t → Step t u → Reach s u
