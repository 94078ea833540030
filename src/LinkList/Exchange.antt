-- ===== src/LinkList/Exchange.antt =====
-- The exchange by which a producer puts its node at the head of a shared list.
use sadie.Prelude.{
  update, ℕ, ◌+◌, ◌≡◌, ◌≢◌, false, Option, none, some, inl, inr, refl, arith, ◌==◌, Bool-cases,
}
use sadie.LinkList.{enter, prepared, link, counting, added, RmvPc}
use sadie.LinkList.System.{Producer, idle, adding, System, produced}
use sadie.LinkList.Shared.{IsAdding, IsRemoving, IsShared}

module _ {at : ℕ → ℕ} {s : System} (v : IsShared at s) (i m : ℕ) where
  abbrev pub appended : ℕ → ℕ → ℕ
  appended np = update at (s.num_sent + 1) np

  prepared_others :
      (j np : ℕ) (q : Producer)
      → (j == i) ≡ false
      → s.producer i ≡ adding m (prepared np)
      → s.producer j ≡ q
      → IsAdding at s j q
      → IsAdding (appended np) (produced s i m (prepared np)) j q
  unfolding produced
  prepared_others j np idle other stands is a = tt
  prepared_others j np (adding m' enter) other stands is a = ground (arith, v.producers i)
  prepared_others j np (adding m' (prepared np')) other stands is a = ground (arith, v.producers i)
  prepared_others j np (adding m' (link prev np')) other stands is (k, lo, hi, e, e', e'') =
      (k, lo, omega arith, ground arith, ground arith, e'')
  prepared_others j np (adding m' counting) other stands is a = tt
  prepared_others j np (adding m' added) other stands is a = tt

  -- A prepared node is not one that a producer is about to link.
  out :
      (j m' p : ℕ) {np : ℕ}
      → s.producer i ≡ adding m (prepared np)
      → s.producer j ≢ adding m' (link p np)
  out j m' p {np} stands e =
      let (k, lo, hi, e1, e2, e3) = rw e at (v.producers j) in
      ground (arith, v.producers i, v.own_out m (k + 1))

  prepared_consumer :
      (np : ℕ) (q : Option RmvPc)
      → s.producer i ≡ adding m (prepared np)
      → IsRemoving at s q
      → IsRemoving (appended np) (produced s i m (prepared np)) q
  unfolding produced
  prepared_consumer np none stands a = tt
  prepared_consumer np (some RmvPc.enter) stands a = tt
  prepared_consumer np (some (RmvPc.looked tail next)) stands a = ground (arith, v.order)
  prepared_consumer np (some (RmvPc.spin tail)) stands a = ground (arith, v.order)
  prepared_consumer np (some (RmvPc.take tail next)) stands a = ground (arith, v.order)
  prepared_consumer np (some (RmvPc.counting m')) stands a = ground (arith, v.producers i)
  prepared_consumer np (some (RmvPc.processed m')) stands a = ground (arith, v.producers i)
  prepared_consumer np (some (RmvPc.returned m')) stands a = ground (arith, v.producers i)
  prepared_consumer np (some RmvPc.failed) stands a = a

  pub prepared-IsShared :
      (np : ℕ)
      → s.producer i ≡ adding m (prepared np)
      → IsShared (appended np) (produced s i m (prepared np))
  unfolding produced
  prepared-IsShared np stands = record {
    order = omega (arith, v.order);
    head = ground arith;
    tail = ground (arith, v.tail, v.order);
    real = λ k lo hi. ground (arith, v.real k, v.producers i, v.own_real m);
    apart = λ j k lo lt hi. ground (arith, v.apart j k, v.producers i, v.own_out m j);
    last = ground (arith, v.producers i);
    linked = λ k lo hi. elim (Bool-cases (k == s.num_sent)) [
      | inl end ↦ inr (i, m, ground (arith, v.head))
      | inr before ↦ elim (v.linked k lo (ground arith)) [
        | inl e ↦ inl (ground arith)
        | inr (j, m', e) ↦ inr (j, m', ground arith)
      ]
    ];
    msgs = λ k lo hi. ground (arith, v.msgs k, v.producers i);
    queued = λ k lo hi. ground (arith, v.queued k, v.producers i);
    once = λ j k lo lt hi. ground (arith, v.once j k, v.queued j, v.producers i);
    same = λ k lo hi. ground (arith, v.same k, v.order);
    own_real = λ m' h. ground (arith, v.own_real m');
    own_out = λ m' k h lo hi. ground (arith, v.own_out m' k, v.own_apart m m', v.producers i);
    own_apart = λ m' m'' h h' e. ground (arith, v.own_apart m' m'');
    producers = λ j. elim (Bool-cases (j == i)) [
      | inl mine ↦ rw mine (
        s.num_sent,
        v.order,
        omega arith,
        ground (arith, v.head),
        ground arith,
        ground (arith, v.head, v.last),
      )
      | inr other ↦ rw other (prepared_others j np (s.producer j) other stands refl (v.producers j))
    ];
    one_link = λ j j' m' m'' p p' np' e e'.
        ground (arith, v.one_link j j' m' m'' p p' np', out j m' p stands, out j' m'' p' stands);
    consuming = prepared_consumer np s.consumer stands v.consuming;
  }
