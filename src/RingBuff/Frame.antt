-- ===== src/RingBuff/Frame.antt =====
-- What producers and the consumer know does not depend on `rmv_idx` and on where the others stand.
use sadie.Prelude.{ℕ, Option, none, some}
use sadie.RingBuff.{
  enter, load_seq, decide, put_mem, put_seq, added, full, RmvPc, check, take, release, advance,
  returned,
}
use sadie.RingBuff.System.{Producer, idle, adding, System}
use sadie.RingBuff.Shared.{IsAdding, IsRemoving}

module _ (k : ℕ) (s : System) (rmv_idx : ℕ) (pr : ℕ → Producer) (co : Option RmvPc) where
  abbrev pub moved : System
  moved = record s { rb = record s.rb { rmv_idx = rmv_idx }; producer = pr; consumer = co }

  pub IsAdding-moved : (q : Producer) → IsAdding k s q → IsAdding k moved q
  IsAdding-moved idle a = a
  IsAdding-moved (adding m enter) a = a
  IsAdding-moved (adding m (load_seq pos)) a = a
  IsAdding-moved (adding m (decide pos seq)) a = a
  IsAdding-moved (adding m (put_mem pos)) a = a
  IsAdding-moved (adding m (put_seq pos)) a = a
  IsAdding-moved (adding m added) a = a
  IsAdding-moved (adding m full) a = a

  pub IsRemoving-moved : (c : Option RmvPc) → IsRemoving k s c → IsRemoving k moved c
  IsRemoving-moved none a = a
  IsRemoving-moved (some RmvPc.enter) a = a
  IsRemoving-moved (some (check pos seq)) a = a
  IsRemoving-moved (some (take pos)) a = a
  IsRemoving-moved (some (release pos mem)) a = a
  IsRemoving-moved (some (advance mem)) a = a
  IsRemoving-moved (some (returned mem)) a = a
