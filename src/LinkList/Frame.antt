-- ===== src/LinkList/Frame.antt =====
-- Steps of a producer and of the consumer that change no more than the counts and where they stand.
use sadie.Prelude.{
  update, ℕ, ◌≡◌, Bool, true, false, Option, none, some, inl, inr, arith, ◌==◌, Bool-cases,
}
use sadie.LinkList.{enter, prepared, link, counting, added, RmvPc}
use sadie.LinkList.System.{Producer, idle, adding, System}
use sadie.LinkList.Shared.{IsAdding, IsRemoving, IsShared}

-- A producer between the places where it knows something.
abbrev pub is_quiet : Producer → Bool
is_quiet idle = true
is_quiet (adding m counting) = true
is_quiet (adding m added) = true
is_quiet _ = false

module _ {at : ℕ → ℕ} {s : System} (v : IsShared at s) (count msgs_processed : ℕ) where
  abbrev pub moved : (ℕ → Producer) → Option RmvPc → System
  moved producer consumer = record s {
    l = record s.l { count = count; msgs_processed = msgs_processed };
    producer = producer;
    consumer = consumer;
  }

  IsAdding-moved :
      (pr : ℕ → Producer) (co : Option RmvPc) (j : ℕ) (q : Producer)
      → IsAdding at s j q
      → IsAdding at (moved pr co) j q
  IsAdding-moved pr co j idle a = a
  IsAdding-moved pr co j (adding m enter) a = a
  IsAdding-moved pr co j (adding m (prepared np)) a = a
  IsAdding-moved pr co j (adding m (link prev np)) a = a
  IsAdding-moved pr co j (adding m counting) a = a
  IsAdding-moved pr co j (adding m added) a = a

  IsRemoving-moved :
      (pr : ℕ → Producer) (co q : Option RmvPc) → IsRemoving at s q → IsRemoving at (moved pr co) q
  IsRemoving-moved pr co none a = a
  IsRemoving-moved pr co (some RmvPc.enter) a = a
  IsRemoving-moved pr co (some (RmvPc.looked tail next)) a = a
  IsRemoving-moved pr co (some (RmvPc.spin tail)) a = a
  IsRemoving-moved pr co (some (RmvPc.take tail next)) a = a
  IsRemoving-moved pr co (some (RmvPc.counting m)) a = a
  IsRemoving-moved pr co (some (RmvPc.processed m)) a = a
  IsRemoving-moved pr co (some (RmvPc.returned m)) a = a
  IsRemoving-moved pr co (some RmvPc.failed) a = a

  IsAdding-is_quiet : (s' : System) (j : ℕ) (q : Producer) → is_quiet q ≡ true → IsAdding at s' j q
  IsAdding-is_quiet s' j idle e = tt
  IsAdding-is_quiet s' j (adding m counting) e = tt
  IsAdding-is_quiet s' j (adding m added) e = tt
  IsAdding-is_quiet s' j (adding m enter) e = cc
  IsAdding-is_quiet s' j (adding m (prepared np)) e = cc
  IsAdding-is_quiet s' j (adding m (link prev np)) e = cc

  pub quiet_producer :
      (i : ℕ) (p q : Producer)
      → s.producer i ≡ p
      → is_quiet p ≡ true
      → is_quiet q ≡ true
      → IsShared at (moved (update s.producer i q) s.consumer)
  quiet_producer i p q stands e e' = record {
    order = v.order;
    head = v.head;
    tail = v.tail;
    real = v.real;
    apart = v.apart;
    last = v.last;
    linked = λ k lo hi. elim (v.linked k lo hi) [
      | inl f ↦ inl f
      | inr (j, m', f) ↦ inr (j, m', ground arith)
    ];
    msgs = v.msgs;
    queued = v.queued;
    once = v.once;
    same = v.same;
    own_real = v.own_real;
    own_out = v.own_out;
    own_apart = v.own_apart;
    producers = λ j. elim (Bool-cases (j == i)) [
      | inl mine ↦ rw mine (IsAdding-is_quiet (moved (update s.producer i q) s.consumer) j q e')
      | inr other ↦
          rw other
            (IsAdding-moved (update s.producer i q) s.consumer j (s.producer j) (v.producers j))
    ];
    one_link = λ j j' m' m'' a a' np f f'. ground (arith, v.one_link j j' m' m'' a a' np);
    consuming = IsRemoving-moved (update s.producer i q) s.consumer s.consumer v.consuming;
  }

  pub quiet_consumer : (q : Option RmvPc) → IsRemoving at s q → IsShared at (moved s.producer q)
  quiet_consumer q a = record {
    order = v.order;
    head = v.head;
    tail = v.tail;
    real = v.real;
    apart = v.apart;
    last = v.last;
    linked = v.linked;
    msgs = v.msgs;
    queued = v.queued;
    once = v.once;
    same = v.same;
    own_real = v.own_real;
    own_out = v.own_out;
    own_apart = v.own_apart;
    producers = λ j. IsAdding-moved s.producer q j (s.producer j) (v.producers j);
    one_link = v.one_link;
    consuming = IsRemoving-moved s.producer q q a;
  }
