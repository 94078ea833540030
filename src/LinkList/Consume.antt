-- ===== src/LinkList/Consume.antt =====
-- The steps of the consumer keep what holds of a shared list.
use sadie.Prelude.{
  ℕ, ◌+◌, ◌<◌, ◌≡◌, ◌≢◌, false, Option, some, inl, inr, refl, ◌∙◌, arith, ◌==◌, Bool-cases, ◌&&◌,
}
use sadie.Word.{null}
use sadie.LinkList.{enter, prepared, link, counting, added, RmvPc}
use sadie.LinkList.System.{Producer, idle, adding, System, consumed, handed_out}
use sadie.LinkList.Shared.{IsAdding, IsRemoving, IsShared}
use sadie.LinkList.Frame.{quiet_consumer}

module _ {at : ℕ → ℕ} {s : System} (v : IsShared at s) where
  -- A step of the consumer that leaves the list alone.
  stays : (q : Option RmvPc) → IsRemoving at s q → IsShared at (record s { consumer = q })
  stays q a = quiet_consumer v s.l.count s.l.msgs_processed q a

  -- Behind a node that has a successor, or is not the head, a message is queued.
  more_sent : s.l.tail ≢ s.l.head → s.num_got < s.num_sent
  more_sent ne = ground (arith, v.head, v.tail, v.order)

  next_sent : (s.l.node (at s.num_got)).next ≢ null → s.num_got < s.num_sent
  next_sent ne = ground (arith, v.last, v.order)

  looked-IsShared :
      (tail next : ℕ)
      → s.consumer ≡ some (RmvPc.looked tail next)
      → IsShared at (consumed s (RmvPc.looked tail next))
  unfolding consumed
  looked-IsShared tail next stands =
      let a = rw stands at v.consuming in
      elim (Bool-cases ((next == null) && (tail == s.l.head))) [
        | inl empty ↦ rw empty (stays (some (RmvPc.returned null)) (inl refl))
        | inr more ↦ elim (Bool-cases (next == null)) [
          | inl nil ↦
              rw (more, nil) (stays (some (RmvPc.spin tail)) (ground (arith, a, v.tail, more_sent)))
          | inr given ↦ rw (more, given) (stays (some (RmvPc.take tail next)) (ground (arith, a)))
        ]
      ]

  spin-IsShared :
      (tail : ℕ) → s.consumer ≡ some (RmvPc.spin tail) → IsShared at (consumed s (RmvPc.spin tail))
  unfolding consumed
  spin-IsShared tail stands =
      let a = rw stands at v.consuming in
      elim (Bool-cases ((s.l.node tail).next == null)) [
        | inl nil ↦ rw nil (stays (some (RmvPc.spin tail)) a)
        | inr given ↦
            rw given (stays (some (RmvPc.take tail (s.l.node tail).next)) (a.0, refl, ground arith))
      ]

  -- The node behind the tail, when the tail has a successor, and its message.
  next_node :
      (next : ℕ)
      → next ≡ (s.l.node (at s.num_got)).next
      → next ≢ null
      → (next ≡ at (s.num_got + 1))
        × ((s.l.node next).msg ≡ s.sent (s.num_got + 1))
        × (s.num_got < s.num_sent)
  next_node next e given =
      let more = next_sent (ground arith) in
      let is_next : next ≡ at (s.num_got + 1) = elim (v.linked s.num_got (omega arith) more) [
        | inl f ↦ e ∙ f
        | inr (i, m, f) ↦
            let (k, lo, hi, e1, e2, e3) = rw f at (v.producers i) in absurd (ground arith)
      ] in
      (is_next, ground (arith, v.msgs (s.num_got + 1)), more)

  take_others :
      (tail next : ℕ)
      → s.consumer ≡ some (RmvPc.take tail next)
      → (j : ℕ) (q : Producer) → IsAdding at s j q
      → IsAdding at (consumed s (RmvPc.take tail next)) j q
  unfolding consumed
  take_others tail next stands j idle a = tt
  take_others tail next stands j (adding m enter) a =
      let (is_tail, is_next, given) = rw stands at v.consuming in
      let (at_next, is_msg, more) = next_node next (ground arith) given in
      ground (arith, v.queued (s.num_got + 1))
  take_others tail next stands j (adding m (prepared np)) a =
      let (is_tail, is_next, given) = rw stands at v.consuming in
      let (at_next, is_msg, more) = next_node next (ground arith) given in
      ground (arith, v.queued (s.num_got + 1), v.own_out m s.num_got)
  take_others tail next stands j (adding m (link prev np)) (k, lo, hi, e1, e2, e3) =
      let (is_tail, is_next, given) = rw stands at v.consuming in (k, ground arith, hi, e1, e2, e3)
  take_others tail next stands j (adding m counting) a = tt
  take_others tail next stands j (adding m added) a = tt

  take-IsShared :
      (tail next : ℕ)
      → s.consumer ≡ some (RmvPc.take tail next)
      → IsShared at (consumed s (RmvPc.take tail next))
  unfolding consumed
  take-IsShared tail next stands =
      let (is_tail, is_next, given) = rw stands at v.consuming in
      let (at_next, is_msg, more) = next_node next (ground arith) given in
      let (in_list, real_msg) = v.queued (s.num_got + 1) (omega arith) (omega arith) in
      record {
        order = omega arith;
        head = v.head;
        tail = at_next;
        real = λ k lo hi. v.real k (omega arith) hi;
        apart = λ j k lo lt hi. v.apart j k (omega arith) lt hi;
        last = v.last;
        linked = λ k lo hi. v.linked k (omega arith) hi;
        msgs = λ k lo hi. v.msgs k (omega arith) hi;
        queued = λ k lo hi. ground (arith, v.queued k, v.once (s.num_got + 1) k);
        once = λ j k lo lt hi. v.once j k (omega arith) lt hi;
        same = λ k lo hi. ground (arith, v.same k);
        own_real = λ m h. ground (arith, v.own_real m, v.real s.num_got);
        own_out = λ m k h lo hi. ground (arith, v.own_out m k, v.apart s.num_got k);
        own_apart = λ m m' h h' e.
            ground (arith, v.own_apart m m', v.own_out m s.num_got, v.own_out m' s.num_got);
        producers = λ j. take_others tail next stands j (s.producer j) (v.producers j);
        one_link = v.one_link;
        consuming =
            let some_msg : ((s.l.node next).msg == null) ≡ false = ground arith in
            rw some_msg (ground arith, ground arith, ground arith, omega arith);
      }

  -- Whatever step the consumer takes in a call of rmv.
  pub in_rmv-IsShared : (p : RmvPc) → s.consumer ≡ some p → IsShared at (consumed s p)
  unfolding consumed
  in_rmv-IsShared RmvPc.enter stands =
      stays (some (RmvPc.looked s.l.tail (s.l.node s.l.tail).next)) (v.tail, inr refl)
  in_rmv-IsShared (RmvPc.looked tail next) stands = looked-IsShared tail next stands
  in_rmv-IsShared (RmvPc.spin tail) stands = spin-IsShared tail stands
  in_rmv-IsShared (RmvPc.take tail next) stands = take-IsShared tail next stands
  in_rmv-IsShared (RmvPc.counting m) stands =
      quiet_consumer v s.l.count s.l.msgs_processed (some (RmvPc.processed m))
        (rw stands at v.consuming)
  in_rmv-IsShared (RmvPc.processed m) stands =
      quiet_consumer v s.l.count s.l.msgs_processed (some (RmvPc.returned m))
        (let a = rw stands at v.consuming in inr (a.0, a.2, a.3))
  in_rmv-IsShared (RmvPc.returned m) stands =
      stays (some (RmvPc.returned m)) (rw stands at v.consuming)
  in_rmv-IsShared RmvPc.failed stands = absurd (rw stands at v.consuming)

  pub call_rmv-IsShared : IsShared at (record s { consumer = some RmvPc.enter })
  call_rmv-IsShared = stays (some RmvPc.enter) tt

  returned_others :
      (m : ℕ)
      → s.consumer ≡ some (RmvPc.returned m)
      → (j : ℕ) (q : Producer) → IsAdding at s j q
      → IsAdding at (handed_out s m) j q
  unfolding handed_out
  returned_others m stands j idle a = tt
  returned_others m stands j (adding m' enter) a =
      let r = rw stands at v.consuming in ground (arith, r)
  returned_others m stands j (adding m' (prepared np)) a =
      let r = rw stands at v.consuming in ground (arith, r)
  returned_others m stands j (adding m' (link prev np)) a = a
  returned_others m stands j (adding m' counting) a = tt
  returned_others m stands j (adding m' added) a = tt

  pub return_rmv-IsShared :
      (m : ℕ) → s.consumer ≡ some (RmvPc.returned m) → IsShared at (handed_out s m)
  unfolding handed_out
  return_rmv-IsShared m stands =
      let r = rw stands at v.consuming in
      record {
        order = v.order;
        head = v.head;
        tail = v.tail;
        real = v.real;
        apart = v.apart;
        last = v.last;
        linked = v.linked;
        msgs = v.msgs;
        queued = λ k lo hi. ground (arith, v.queued k, r);
        once = v.once;
        same = v.same;
        own_real = λ m' h. ground (arith, v.own_real m', r);
        own_out = λ m' k h lo hi. ground (arith, v.own_out m' k, r);
        own_apart = λ m' m'' h h' e. ground (arith, v.own_apart m' m'', r);
        producers = λ j. returned_others m stands j (s.producer j) (v.producers j);
        one_link = v.one_link;
        consuming = tt;
      }
