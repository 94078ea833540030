-- ===== src/LinkList/Link.antt =====
-- The store by which a producer links its node behind the one before in a shared list.
use sadie.Prelude.{ℕ, ◌+◌, ◌≡◌, false, Option, none, some, inl, inr, refl, arith, ◌==◌, Bool-cases}
use sadie.LinkList.{enter, prepared, link, counting, added, RmvPc}
use sadie.LinkList.System.{Producer, idle, adding, System, produced}
use sadie.LinkList.Shared.{IsAdding, IsRemoving, IsShared}

module _ {at : ℕ → ℕ} {s : System} (v : IsShared at s) (i m : ℕ) where
  -- The node that a link changes, `k`, has its successor afterwards; the others stay.
  link_others :
      (j prev np : ℕ) (q : Producer)
      → (j == i) ≡ false
      → s.producer i ≡ adding m (link prev np)
      → s.producer j ≡ q
      → IsAdding at s j q
      → IsAdding at (produced s i m (link prev np)) j q
  unfolding produced
  link_others j prev np idle other stands is a = tt
  link_others j prev np (adding m' enter) other stands is a = a
  link_others j prev np (adding m' (prepared np')) other stands is a =
      let (k, lo, hi, e1, e2, e3) = rw stands at (v.producers i) in ground (arith, v.own_out m' k)
  link_others j prev np (adding m' (link prev' np')) other stands is (k', lo', hi', e1', e2', e3') =
      let (k, lo, hi, e1, e2, e3) = rw stands at (v.producers i) in
      (
        k',
        lo',
        hi',
        e1',
        e2',
        ground (arith, v.apart k k', v.apart k' k, v.one_link i j m m' prev prev' np),
      )
  link_others j prev np (adding m' counting) other stands is a = tt
  link_others j prev np (adding m' added) other stands is a = tt

  link_consumer :
      (prev np : ℕ) (q : Option RmvPc)
      → s.producer i ≡ adding m (link prev np)
      → IsRemoving at s q
      → IsRemoving at (produced s i m (link prev np)) q
  unfolding produced
  link_consumer prev np none stands a = tt
  link_consumer prev np (some RmvPc.enter) stands a = tt
  link_consumer prev np (some (RmvPc.looked tail next)) stands a =
      let (k, lo, hi, e1, e2, e3) = rw stands at (v.producers i) in ground arith
  link_consumer prev np (some (RmvPc.spin tail)) stands a = a
  link_consumer prev np (some (RmvPc.take tail next)) stands a =
      let (k, lo, hi, e1, e2, e3) = rw stands at (v.producers i) in ground arith
  link_consumer prev np (some (RmvPc.counting m')) stands a = a
  link_consumer prev np (some (RmvPc.processed m')) stands a = a
  link_consumer prev np (some (RmvPc.returned m')) stands a = a
  link_consumer prev np (some RmvPc.failed) stands a = a

  pub link-IsShared :
      (prev np : ℕ)
      → s.producer i ≡ adding m (link prev np)
      → IsShared at (produced s i m (link prev np))
  unfolding produced
  link-IsShared prev np stands =
      let (k, lo, hi, e1, e2, e3) = rw stands at (v.producers i) in
      record {
        order = v.order;
        head = v.head;
        tail = v.tail;
        real = v.real;
        apart = v.apart;
        last = ground (arith, v.last, v.apart k s.num_sent);
        linked = λ k' lo' hi'. elim (Bool-cases (k' == k)) [
          | inl mine ↦ inl (ground arith)
          | inr other ↦ elim (v.linked k' lo' hi') [
            | inl e ↦ inl (ground (arith, v.apart k k', v.apart k' k))
            | inr (j, m', e) ↦
                inr (j, m', ground (arith, v.apart (k + 1) (k' + 1), v.apart (k' + 1) (k + 1)))
          ]
        ];
        msgs = λ k' lo' hi'. ground (arith, v.msgs k');
        queued = v.queued;
        once = v.once;
        same = v.same;
        own_real = v.own_real;
        own_out = v.own_out;
        own_apart = v.own_apart;
        producers = λ j. elim (Bool-cases (j == i)) [
          | inl mine ↦ rw mine tt
          | inr other ↦
              rw other (link_others j prev np (s.producer j) other stands refl (v.producers j))
        ];
        one_link = λ j j' m' m'' p p' np' e e'. ground (arith, v.one_link j j' m' m'' p p' np');
        consuming = link_consumer prev np s.consumer stands v.consuming;
      }
