-- ===== src/LinkList/Concurrent.antt =====
-- One list, any number of producers, one consumer, in any order of their steps.
use sadie.Prelude.{ℕ, ◌+◌, ◌≤◌, ◌<◌, ◌≡◌, ◌≢◌, Bool, true, some, ◌↔◌, inl, inr, arith}
use sadie.Word.{null}
use sadie.LinkList.{LinkList, link, RmvPc}
use sadie.LinkList.System.{
  adding, System, Step, call_add, in_add, return_add, call_rmv, in_rmv, return_rmv, Reach, here,
  next, start, produced, consumed,
}
use sadie.LinkList.Shared.{IsShared, start-IsShared}
use sadie.LinkList.Produce.{call_add-IsShared, in_add-IsShared, return_add-IsShared}
use sadie.LinkList.Consume.{in_rmv-IsShared, call_rmv-IsShared, return_rmv-IsShared}

Step-IsShared :
    {at : ℕ → ℕ} {s t : System} → Step s t → IsShared at s → (at' : ℕ → ℕ) × IsShared at' t
Step-IsShared {at} (call_add i m e owned given) v = (at, call_add-IsShared v i m e owned given)
Step-IsShared {at} (in_add i m p e) v = in_add-IsShared v i m p e
Step-IsShared {at} (return_add i m e) v = (at, return_add-IsShared v i m e)
Step-IsShared {at} (call_rmv e) v = (at, call_rmv-IsShared v)
Step-IsShared {at} (in_rmv p e) v = (at, in_rmv-IsShared v p e)
Step-IsShared {at} (return_rmv m e) v = (at, return_rmv-IsShared v m e)

Reach-IsShared :
    {at : ℕ → ℕ} {s t : System} → IsShared at s → Reach s t → (at' : ℕ → ℕ) × IsShared at' t
Reach-IsShared {at} v here = (at, v)
Reach-IsShared v (next r st) = Step-IsShared st (Reach-IsShared v r).1

module _ {at : ℕ → ℕ} {t : System} (v : IsShared at t) where
  returned_last : (m : ℕ) → t.consumer ≡ some (RmvPc.returned m) → m ≢ null → m ≡ t.sent t.num_got
  returned_last m stands given =
      let a = rw stands at v.consuming in ground (arith, a, v.same t.num_got)

  looked_empty :
      (tail succ : ℕ)
      → t.consumer ≡ some (RmvPc.looked tail succ)
      → ((consumed t (RmvPc.looked tail succ)).consumer ≡ some (RmvPc.returned null))
        ↔ (t.num_got ≡ t.num_sent)
  unfolding consumed
  looked_empty tail succ stands =
      let a = rw stands at v.consuming in
      (
        λ e. ground (arith, a, v.head, v.tail, v.order, v.apart t.num_got t.num_sent),
        λ e. ground (arith, a, v.head, v.tail, v.last),
      )

  spin_pending :
      (tail : ℕ)
      → t.consumer ≡ some (RmvPc.spin tail)
      → (t.l.node tail).next ≡ null
      → (i : ℕ) × (m : ℕ) × (np : ℕ) × (t.producer i ≡ adding m (link tail np))
        × ((consumed (produced t i m (link tail np)) (RmvPc.spin tail)).consumer
            ≡ some (RmvPc.take tail np))
  unfolding consumed produced
  spin_pending tail stands nil =
      let (is_tail, more) = rw stands at v.consuming in
      elim (v.linked t.num_got (omega arith) more) [
        | inl e ↦ absurd (ground (arith, v.real (t.num_got + 1)))
        | inr (i, m, e) ↦
            (i, m, at (t.num_got + 1), rw is_tail e, ground (arith, v.real (t.num_got + 1)))
      ]

-- A list that has been initialised, and messages with nodes of their own.
module _ (l : LinkList) (is_msg : ℕ → Bool) (stub_real : l.stub ≢ null)
    (real : (m : ℕ) → is_msg m ≡ true → l.next_ptr m ≢ null)
    (off : (m : ℕ) → is_msg m ≡ true → l.next_ptr m ≢ l.stub)
    (apart : (m m' : ℕ)
      → is_msg m ≡ true
      → is_msg m' ≡ true
      → l.next_ptr m ≡ l.next_ptr m'
      → m ≡ m')
    {t : System} (r : Reach (start l is_msg) t) where
  shared : (at : ℕ → ℕ) × IsShared at t
  shared = Reach-IsShared (start-IsShared l is_msg stub_real real off apart) r

  -- From a list that init gave, and messages with real nodes of their own other than the list's,
  -- after any steps of any producers in add, each with a message that the client has, and of one
  -- consumer in rmv: the messages that have left the list are the first that entered it, in their
  -- order; a message that rmv returns is the last that left; and rmv has not met a node without a
  -- message.
  pub Reach-received :
      (t.num_got ≤ t.num_sent)
      × ((k : ℕ) → 0 < k → k ≤ t.num_got → t.got k ≡ t.sent k)
      × ((m : ℕ) → t.consumer ≡ some (RmvPc.returned m) → m ≢ null → m ≡ t.sent t.num_got)
      × (t.consumer ≢ some RmvPc.failed)
  Reach-received =
      let (at, v) = shared in (v.order, v.same, returned_last v, λ e. absurd (rw e at v.consuming))

  -- A call of rmv that has read the tail and its successor answers NULL with its next step exactly
  -- when every message that has entered the list has left it.
  Reach-null :
      (tail succ : ℕ)
      → t.consumer ≡ some (RmvPc.looked tail succ)
      → ((consumed t (RmvPc.looked tail succ)).consumer ≡ some (RmvPc.returned null))
        ↔ (t.num_got ≡ t.num_sent)
  Reach-null = looked_empty shared.1

  -- In a state that such steps reach, a call of rmv that waits for a successor which is not linked
  -- yet waits for a producer between its exchange and its link: after the next step of that producer,
  -- the next step of rmv ends the wait with the node that was linked.
  pub Reach-spin :
      (tail : ℕ)
      → t.consumer ≡ some (RmvPc.spin tail)
      → (t.l.node tail).next ≡ null
      → (i : ℕ) × (m : ℕ) × (np : ℕ) × (t.producer i ≡ adding m (link tail np))
        × ((consumed (produced t i m (link tail np)) (RmvPc.spin tail)).consumer
            ≡ some (RmvPc.take tail np))
  Reach-spin = spin_pending shared.1
