-- ===== src/LinkList/Produce.antt =====
-- The steps of a producer keep what holds of a shared list.
use sadie.Prelude.{update, ℕ, ◌≡◌, ◌≢◌, false, inl, inr, refl, arith, ◌==◌, Bool-cases}
use sadie.Word.{null}
use sadie.LinkList.{AddPc, enter, prepared, link, counting, added}
use sadie.LinkList.System.{client, adder, Producer, idle, adding, System, produced}
use sadie.LinkList.Shared.{IsAdding, IsShared}
use sadie.LinkList.Frame.{quiet_producer}
use sadie.LinkList.Exchange.{appended, prepared-IsShared}
use sadie.LinkList.Link.{link-IsShared}

module _ {at : ℕ → ℕ} {s : System} (v : IsShared at s) (i m : ℕ) where
  pub call_add-IsShared :
      s.producer i ≡ idle
      → s.owner m ≡ client
      → m ≢ null
      → IsShared at (record s {
        producer = update s.producer i (adding m enter);
        owner = update s.owner m (adder i);
      })
  call_add-IsShared stands owned given = record {
    order = v.order;
    head = v.head;
    tail = v.tail;
    real = v.real;
    apart = v.apart;
    last = v.last;
    linked = λ k lo hi. elim (v.linked k lo hi) [
      | inl e ↦ inl e
      | inr (j, m', e) ↦ inr (j, m', ground arith)
    ];
    msgs = v.msgs;
    queued = λ k lo hi. ground (arith, v.queued k);
    once = v.once;
    same = v.same;
    own_real = λ m' h. ground (arith, v.own_real m');
    own_out = λ m' k h lo hi. ground (arith, v.own_out m' k);
    own_apart = λ m' m'' h h' e. ground (arith, v.own_apart m' m'');
    producers = λ j. ground (arith, v.producers j);
    one_link = λ j j' m' m'' p p' np e e'. ground (arith, v.one_link j j' m' m'' p p' np);
    consuming = ground (arith, v.consuming);
  }

  enter_others :
      (j : ℕ) (q : Producer)
      → (j == i) ≡ false
      → s.producer i ≡ adding m enter
      → s.producer j ≡ q
      → IsAdding at s j q
      → IsAdding at (produced s i m enter) j q
  unfolding produced
  enter_others j idle other stands is a = tt
  enter_others j (adding m' enter) other stands is a = a
  enter_others j (adding m' (prepared np)) other stands is a =
      ground (arith, v.producers i, v.own_apart m m')
  enter_others j (adding m' (link prev np)) other stands is (k, lo, hi, e, e', e'') =
      (k, lo, hi, e, e', ground (arith, v.producers i, v.own_out m k))
  enter_others j (adding m' counting) other stands is a = tt
  enter_others j (adding m' added) other stands is a = tt

  pub enter-IsShared : s.producer i ≡ adding m enter → IsShared at (produced s i m enter)
  unfolding produced
  enter-IsShared stands = record {
    order = v.order;
    head = v.head;
    tail = v.tail;
    real = v.real;
    apart = v.apart;
    last = ground (arith, v.last, v.producers i, v.own_out m s.num_sent, v.order);
    linked = λ k lo hi. elim (v.linked k lo hi) [
      | inl e ↦ inl (ground (arith, v.producers i, v.own_out m k))
      | inr (j, m', e) ↦ inr (j, m', ground arith)
    ];
    msgs = λ k lo hi. ground (arith, v.msgs k, v.producers i, v.own_out m k);
    queued = v.queued;
    once = v.once;
    same = v.same;
    own_real = v.own_real;
    own_out = v.own_out;
    own_apart = v.own_apart;
    producers = λ j. elim (Bool-cases (j == i)) [
      | inl mine ↦ rw mine (ground (arith, v.producers i))
      | inr other ↦ rw other (enter_others j (s.producer j) other stands refl (v.producers j))
    ];
    one_link = λ j j' m' m'' p p' np e e'. ground (arith, v.one_link j j' m' m'' p p' np);
    consuming = ground (arith, v.consuming, v.producers i, v.own_out m s.num_got, v.order);
  }

  -- Whatever step producer `i` takes in a call of add.
  pub in_add-IsShared :
      (p : AddPc) → s.producer i ≡ adding m p → (at' : ℕ → ℕ) × IsShared at' (produced s i m p)
  unfolding produced
  in_add-IsShared enter stands = (at, enter-IsShared stands)
  in_add-IsShared (prepared np) stands = (appended v i m np, prepared-IsShared v i m np stands)
  in_add-IsShared (link prev np) stands = (at, link-IsShared v i m prev np stands)
  in_add-IsShared counting stands = (
    at,
    quiet_producer v s.l.count s.l.msgs_processed i (adding m counting) (adding m added) stands refl
        refl,
  )
  in_add-IsShared added stands = (
    at,
    quiet_producer v s.l.count s.l.msgs_processed i (adding m added) (adding m added) stands refl
        refl,
  )

  pub return_add-IsShared :
      s.producer i ≡ adding m added → IsShared at (record s { producer = update s.producer i idle })
  return_add-IsShared stands =
      quiet_producer v s.l.count s.l.msgs_processed i (adding m added) idle stands refl refl
