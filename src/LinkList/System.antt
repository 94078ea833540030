-- ===== src/LinkList/System.antt =====
-- Producers that add to one list while a consumer removes from it, interleaved in any order.
use sadie.Prelude.{update, ℕ, ◌+◌, ◌≡◌, ◌≢◌, Bool, Option, none, some, ◌==◌, if◌then◌else◌}
use sadie.Word.{null}
use sadie.LinkList.{LinkList, init, AddPc, enter, prepared, added, add_step, RmvPc, rmv_step}

-- Who may use a message: a client that may add it, producer `i` in its call of add, the list, the
-- consumer in its call of rmv. Other addresses are no messages.
pub data Owner : Type 0 where
  client : Owner
  adder : (i : ℕ) → Owner
  list : Owner
  remover : Owner
  nobody : Owner

-- A producer outside add, or in a call of it.
pub data Producer : Type 0 where
  idle : Producer
  adding : (msg : ℕ) → AddPc → Producer

-- The k-th message that entered the list is `sent k`, the k-th that left it `got k`, from 1 on.
pub record System : Type 0 where
  pub l : LinkList
  pub producer : ℕ → Producer
  pub consumer : Option RmvPc
  pub owner : ℕ → Owner
  pub sent : ℕ → ℕ
  pub num_sent : ℕ
  pub got : ℕ → ℕ
  pub num_got : ℕ

-- A step of producer `i` in its call for `m`. The message enters the list with the exchange.
abbrev pub enters : System → (i m : ℕ) → AddPc → System
enters s i m (prepared np) = record s {
  owner = update s.owner m list;
  sent = update s.sent (s.num_sent + 1) m;
  num_sent = s.num_sent + 1;
}
enters s i m p = s

unfoldable pub produced : System → (i m : ℕ) → AddPc → System
unfolding add_step
produced s i m p = record (enters s i m p) {
  l = (add_step m s.l p).0;
  producer = update s.producer i (adding m (add_step m s.l p).1);
}

-- A step of the consumer. The message leaves the list when the tail passes its node.
abbrev pub leaves : System → RmvPc → System
leaves s (RmvPc.take tail next) =
    let m = (s.l.node next).msg in
    record s {
      owner = update s.owner m remover;
      got = update s.got (s.num_got + 1) m;
      num_got = s.num_got + 1;
    }
leaves s p = s

unfoldable pub consumed : System → RmvPc → System
unfolding rmv_step
consumed s p = record (leaves s p) { l = (rmv_step s.l p).0; consumer = some (rmv_step s.l p).1 }

-- Rmv has returned `m`, which the client may add again, unless it is NULL.
unfoldable pub handed_out : System → ℕ → System
handed_out s m = record s {
  consumer = none;
  owner = λ j. if j == m then (if m == null then s.owner j else client) else s.owner j;
}

pub data Step (s : System) : System → Type 0 where
  call_add :
      (i m : ℕ)
      → s.producer i ≡ idle
      → s.owner m ≡ client
      → m ≢ null
      → Step s (record s {
        producer = update s.producer i (adding m enter);
        owner = update s.owner m (adder i);
      })
  in_add : (i m : ℕ) (p : AddPc) → s.producer i ≡ adding m p → Step s (produced s i m p)
  return_add :
      (i m : ℕ)
      → s.producer i ≡ adding m added
      → Step s (record s { producer = update s.producer i idle })
  call_rmv : s.consumer ≡ none → Step s (record s { consumer = some RmvPc.enter })
  in_rmv : (p : RmvPc) → s.consumer ≡ some p → Step s (consumed s p)
  return_rmv : (m : ℕ) → s.consumer ≡ some (RmvPc.returned m) → Step s (handed_out s m)

-- After `AcMpscLinkList_init`, with the messages `is_msg` at the client.
unfoldable pub start : LinkList → (is_msg : ℕ → Bool) → System
unfolding init
start l is_msg = record {
  l = (init l).1;
  producer = λ _. idle;
  consumer = none;
  owner = λ m. if is_msg m then client else nobody;
  sent = λ _. null;
  num_sent = 0;
  got = λ _. null;
  num_got = 0;
}

pub data Reach (s : System) : System → Type 0 where
  here : Reach s s
  next : {t u : System} → Reach s t → Step t u → Reach s u
