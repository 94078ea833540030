-- ===== src/LinkList/Fifo.antt =====
-- Calls one after another: the list is a first-in first-out queue, and every message outside the
-- queue owns a node of its own.
use sadie.Prelude.{
  ℕ, ◌≡◌, ◌≢◌, refl, ◌∙◌, Bool, true, false, ◌||◌, Option, none, some, List, [], ◌∷◌, ◌++◌, arith,
  ◌==◌, if◌then◌else◌, map,
}
use mathlib.Core.Option
use sadie.Word.{null, ok}
use sadie.LinkList.{LinkList, init, add, rmv}
use sadie.LinkList.Chain.{Cells, on_chain, on_chain-snoc, Chain, Chain-linked}

-- `free m` tells that the message `m` is known to be outside the queue.
pub record IsQueue (c : Cells) (free : ℕ → Bool) (l : LinkList) : Type 0 where
  pub chain : Chain l.node l.tail c l.head
  pub tail_real : l.tail ≢ null
  pub own_real : (m : ℕ) → free m ≡ true → l.next_ptr m ≢ null
  pub own_out :
      (m : ℕ) → free m ≡ true → ((l.next_ptr m == l.tail) || on_chain (l.next_ptr m) c) ≡ false
  pub apart : (m m' : ℕ) → free m ≡ true → free m' ≡ true → l.next_ptr m ≡ l.next_ptr m' → m ≡ m'

abbrev pub mark : (ℕ → Bool) → ℕ → Bool → ℕ → Bool
mark free m b j = if j == m then b else free j

-- Init leaves the empty queue, whatever messages own nodes of their own.
pub init-IsQueue :
    (l : LinkList) (free : ℕ → Bool)
    → l.stub ≢ null
    → ((m : ℕ) → free m ≡ true → l.next_ptr m ≢ null)
    → ((m : ℕ) → free m ≡ true → l.next_ptr m ≢ l.stub)
    → ((m m' : ℕ) → free m ≡ true → free m' ≡ true → l.next_ptr m ≡ l.next_ptr m' → m ≡ m')
    → ((init l).0 ≡ ok) × IsQueue [] free (init l).1
unfolding init
init-IsQueue l free real owned off apart = (
  refl,
  record {
    chain = (refl, ground arith);
    tail_real = real;
    own_real = owned;
    own_out = λ m f. ground (arith, off m f);
    apart = apart;
  },
)

module _ {free : ℕ → Bool} {l : LinkList} where
  -- Adding a message that is outside the queue puts it at the end, with its node.
  pub add-IsQueue :
      {c : Cells} (m : ℕ)
      → IsQueue c free l
      → free m ≡ true
      → m ≢ null
      → IsQueue (c ++ ((l.next_ptr m, m) ∷ [])) (mark free m false) (add l m)
  unfolding add
  add-IsQueue {c} m v outside given = record {
    chain =
        Chain-linked l.node (l.next_ptr m) m l.tail l.head c (v.own_real m outside) given
          (v.own_out m outside) v.chain;
    tail_real = v.tail_real;
    own_real = λ j f. ground (arith, v.own_real j);
    own_out = λ j f.
        ground (arith, v.own_out j, v.apart j m, on_chain-snoc (l.next_ptr j) (l.next_ptr m) m c);
    apart = λ j k f g e. ground (arith, v.apart j k);
  }

  -- From an empty queue rmv returns NULL and changes nothing.
  pub rmv-nil : IsQueue [] free l → rmv l ≡ some (null, l)
  unfolding rmv
  rmv-nil v = ground (arith, v.chain)

  -- Rmv returns the oldest message and hands it the node of the message before it.
  pub rmv-cons :
      {n m : ℕ} {c : Cells}
      → IsQueue ((n, m) ∷ c) free l
      → (l' : LinkList) × (rmv l ≡ some (m, l'))
        × IsQueue c (mark free m true) l'
        × (l'.next_ptr m ≡ l.tail)
  unfolding rmv
  rmv-cons {n} {m} {c} v =
      let next = (l.node l.tail).next in
      let msg = (l.node next).msg in
      let l' = record l {
        tail = next;
        next_ptr = λ j. if j == msg then l.tail else l.next_ptr j;
      } in
      let links : (next ≡ n) × (msg ≡ m) = ground (arith, v.chain) in
      (
        l',
        ground (arith, v.chain),
        record {
          chain = rw links.0 v.chain.5;
          tail_real = ground (arith, v.chain);
          own_real = λ j f. ground (arith, v.own_real j, v.tail_real, v.chain);
          own_out = λ j f. ground (arith, v.own_out j, v.chain);
          apart = λ j k f g e. ground (arith, v.apart j k, v.own_out j, v.own_out k, v.chain);
        },
        ground (arith, v.chain),
      )

-- A client's calls: adding a message, or removing one.
pub data Op : Type 0 where
  send : (m : ℕ) → Op
  receive : Op

-- The client adds only messages that it holds: real ones that are outside the queue `q`.
abbrev pub Legal : (ℕ → Bool) → List ℕ → List Op → Type 0
Legal free q [] = Unit
Legal free q (send m ∷ ops) =
    (free m ≡ true) × (m ≢ null) × Legal (mark free m false) (q ++ (m ∷ [])) ops
Legal free [] (receive ∷ ops) = Legal free [] ops
Legal free (m ∷ q) (receive ∷ ops) = Legal (mark free m true) q ops

-- What a first-in first-out queue returns to the removals.
unfoldable pub received : List ℕ → List Op → List ℕ
received q [] = []
received q (send m ∷ ops) = received (q ++ (m ∷ [])) ops
received [] (receive ∷ ops) = null ∷ received [] ops
received (m ∷ q) (receive ∷ ops) = m ∷ received q ops

abbrev and_then : Option (ℕ × LinkList) → (LinkList → Option (List ℕ)) → Option (List ℕ)
and_then none rest = none
and_then (some (m, l)) rest = Option.map (λ ms. m ∷ ms) (rest l)

unfoldable pub run : LinkList → List Op → Option (List ℕ)
run l [] = some []
run l (send m ∷ ops) = run (add l m) ops
run l (receive ∷ ops) = and_then (rmv l) (λ l'. run l' ops)

abbrev pub msgs : Cells → List ℕ
msgs = map (λ p. p.1)

msgs-snoc : (c : Cells) (n m : ℕ) → msgs (c ++ ((n, m) ∷ [])) ≡ msgs c ++ (m ∷ [])
msgs-snoc [] n m = refl
msgs-snoc (x ∷ c) n m = rw (msgs-snoc c n m)

-- Every legal sequence of calls returns, none of them spins, and the removals return the messages
-- in the order in which they were added, NULL when there is none.
pub run-received :
    (ops : List Op) {free : ℕ → Bool} (c : Cells) {l : LinkList}
    → IsQueue c free l
    → Legal free (msgs c) ops
    → run l ops ≡ some (received (msgs c) ops)
unfolding run received
run-received [] c v legal = refl
run-received (send m ∷ ops) {free} c {l} v (outside, given, legal) =
    let snoc = msgs-snoc c (l.next_ptr m) m in
    run-received ops (c ++ ((l.next_ptr m, m) ∷ [])) (add-IsQueue m v outside given) (rw snoc legal)
    ∙ rw snoc
run-received (receive ∷ ops) [] v legal = rw (rmv-nil v, run-received ops [] v legal)
run-received (receive ∷ ops) ((n, m) ∷ c) v legal =
    let (l', e, v', own) = rmv-cons v in rw (e, run-received ops c v' legal)
