-- ===== src/LinkList/Tests.antt =====
-- A run of the link list with two messages, and its theorems at that list.
use sadie.Prelude.{
  update, ℕ, ◌≤◌, ◌<◌, ◌≡◌, ◌≢◌, refl, Bool, ◌||◌, some, [], ◌∷◌, arith, ◌==◌, if◌then◌else◌,
}
use sadie.Word.{null, ok}
use sadie.LinkList.{LinkList, AddPc, RmvPc, init, add, rmv}
use sadie.LinkList.System.{
  System, adding, adder, produced, consumed, start, Reach, here, next, call_add, in_add, call_rmv,
  in_rmv,
}
use sadie.LinkList.Concurrent.{Reach-received, Reach-spin}
use sadie.LinkList.Fifo.{IsQueue, send, receive, received, run, init-IsQueue, run-received}

-- The stub at 1; message 100 owns node 2, message 101 owns node 3.
abbrev memory : LinkList
memory = record {
  head = 0;
  tail = 0;
  stub = 1;
  count = 9;
  msgs_processed = 9;
  node = λ _. record { next = 7; msg = 7 };
  next_ptr = λ m. if m == 100 then 2 else 3;
}

abbrev held : ℕ → Bool
held m = m == 100 || m == 101

memory-IsQueue : ((init memory).0 ≡ ok) × IsQueue [] held (init memory).1
memory-IsQueue =
    init-IsQueue memory held (omega arith) (λ m f. ground arith) (λ m f. ground arith)
      (λ m m' f g e. ground arith)

run-received_example :
    run
      (init memory).1
      (send 100 ∷ send 101 ∷ receive ∷ send 100 ∷ receive ∷ receive ∷ receive ∷ [])
    ≡ some (100 ∷ 101 ∷ 100 ∷ null ∷ [])
unfolding received
run-received_example =
    run-received (send 100 ∷ send 101 ∷ receive ∷ send 100 ∷ receive ∷ receive ∷ receive ∷ []) []
      memory-IsQueue.1 (refl, omega arith, (refl, omega arith, (refl, omega arith, tt)))

-- A message that is added again while it is queued joins its node to itself: rmv then returns it
-- without end.
run-twice :
    run (init memory).1 (send 100 ∷ send 100 ∷ receive ∷ receive ∷ receive ∷ [])
    ≡ some (100 ∷ 100 ∷ 100 ∷ [])
unfolding run init add rmv
run-twice = refl

-- Producers 0 and 1 add the messages 100 and 101. Producer 1 makes its exchange first.
abbrev called_0 : System
called_0 =
    let s = start memory held in
    record s {
      producer = update s.producer 0 (adding 100 AddPc.enter);
      owner = update s.owner 100 (adder 0);
    }

abbrev called_1 : System
called_1 = record called_0 {
  producer = update called_0.producer 1 (adding 101 AddPc.enter);
  owner = update called_0.owner 101 (adder 1);
}

abbrev entered_0 : System
entered_0 = produced called_1 0 100 AddPc.enter

abbrev entered_1 : System
entered_1 = produced entered_0 1 101 AddPc.enter

abbrev exchanged : System
exchanged = produced entered_1 1 101 (AddPc.prepared 3)

-- The consumer comes before producer 1 has linked its node.
abbrev called_rmv : System
called_rmv = record exchanged { consumer = some RmvPc.enter }

abbrev looked : System
looked = consumed called_rmv RmvPc.enter

abbrev spinning : System
spinning = consumed looked (RmvPc.looked 1 null)

abbrev linked : System
linked = produced spinning 1 101 (AddPc.link 1 3)

abbrev spun : System
spun = consumed linked (RmvPc.spin 1)

abbrev taken : System
taken = consumed spun (RmvPc.take 1 3)

abbrev counted : System
counted = consumed taken (RmvPc.counting 101)

abbrev returned : System
returned = consumed counted (RmvPc.processed 101)

Reach-looked : Reach (start memory held) looked
unfolding start init produced consumed
Reach-looked =
    next
      (next
        (next
          (next
            (next
              (next (next here (call_add 0 100 refl refl (omega arith)))
                (call_add 1 101 refl refl (omega arith)))
              (in_add 0 100 AddPc.enter refl))
            (in_add 1 101 AddPc.enter refl))
          (in_add 1 101 (AddPc.prepared 3) refl))
        (call_rmv refl))
      (in_rmv RmvPc.enter refl)

Reach-spinning : Reach (start memory held) spinning
unfolding start init produced consumed
Reach-spinning = next Reach-looked (in_rmv (RmvPc.looked 1 null) refl)

Reach-returned : Reach (start memory held) returned
unfolding start init produced consumed
Reach-returned =
    next
      (next
        (next
          (next (next Reach-spinning (in_add 1 101 (AddPc.link 1 3) refl))
            (in_rmv (RmvPc.spin 1) refl))
          (in_rmv (RmvPc.take 1 3) refl))
        (in_rmv (RmvPc.counting 101) refl))
      (in_rmv (RmvPc.processed 101) refl)

Reach-received_example :
    (returned.num_got ≤ returned.num_sent)
    × ((k : ℕ) → 0 < k → k ≤ returned.num_got → returned.got k ≡ returned.sent k)
    × ((m : ℕ)
        → returned.consumer ≡ some (RmvPc.returned m)
        → m ≢ null
        → m ≡ returned.sent returned.num_got)
    × (returned.consumer ≢ some RmvPc.failed)
Reach-received_example =
    Reach-received memory held (omega arith) (λ m f. ground arith) (λ m f. ground arith)
      (λ m m' f g e. ground arith) Reach-returned

Reach-spin_example :
    (i : ℕ) × (m : ℕ) × (np : ℕ) × (spinning.producer i ≡ adding m (AddPc.link 1 np))
    × ((consumed (produced spinning i m (AddPc.link 1 np)) (RmvPc.spin 1)).consumer
        ≡ some (RmvPc.take 1 np))
unfolding start init produced consumed
Reach-spin_example =
    Reach-spin memory held (omega arith) (λ m f. ground arith) (λ m f. ground arith)
      (λ m m' f g e. ground arith) Reach-spinning 1 refl refl
