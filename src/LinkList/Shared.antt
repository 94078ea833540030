-- ===== src/LinkList/Shared.antt =====
-- What holds of a list that producers and a consumer share, whatever the interleaving.
use sadie.Prelude.{ℕ, ◌+◌, ◌≤◌, ◌<◌, ◌≡◌, ◌≢◌, Bool, true, false, Option, some, ◌⊎◌, refl, arith}
use sadie.Word.{null}
use sadie.LinkList.{LinkList, init, enter, prepared, link, RmvPc}
use sadie.LinkList.System.{Owner, adder, list, remover, nobody, Producer, adding, System, start}

-- A message outside the list brings a node of its own.
abbrev pub holds_node : Owner → Bool
holds_node list = false
holds_node nobody = false
holds_node _ = true

-- What a producer knows of its message and its node. `at` has the nodes in the order in which they
-- entered the list, the first node at 0.
abbrev pub IsAdding : (at : ℕ → ℕ) → System → (i : ℕ) → Producer → Type 0
IsAdding at s i (adding m enter) = (s.owner m ≡ adder i) × (m ≢ null)
IsAdding at s i (adding m (prepared np)) =
    (s.owner m ≡ adder i)
    × (m ≢ null)
    × (np ≡ s.l.next_ptr m)
    × ((s.l.node np).next ≡ null)
    × ((s.l.node np).msg ≡ m)
IsAdding at s i (adding m (link prev np)) =
    (k : ℕ) × (s.num_got ≤ k)
    × (k < s.num_sent)
    × (prev ≡ at k)
    × (np ≡ at (k + 1))
    × ((s.l.node prev).next ≡ null)
IsAdding at s i _ = Unit

-- What the consumer knows in its call of rmv.
abbrev pub IsRemoving : (at : ℕ → ℕ) → System → Option RmvPc → Type 0
IsRemoving at s (some (RmvPc.looked tail next)) =
    (tail ≡ at s.num_got) × ((next ≡ null) ⊎ (next ≡ (s.l.node tail).next))
IsRemoving at s (some (RmvPc.spin tail)) = (tail ≡ at s.num_got) × (s.num_got < s.num_sent)
IsRemoving at s (some (RmvPc.take tail next)) =
    (tail ≡ at s.num_got) × (next ≡ (s.l.node tail).next) × (next ≢ null)
IsRemoving at s (some (RmvPc.counting m)) =
    (s.owner m ≡ remover) × (m ≢ null) × (m ≡ s.got s.num_got) × (0 < s.num_got)
IsRemoving at s (some (RmvPc.processed m)) =
    (s.owner m ≡ remover) × (m ≢ null) × (m ≡ s.got s.num_got) × (0 < s.num_got)
IsRemoving at s (some (RmvPc.returned m)) =
    (m ≡ null) ⊎ ((s.owner m ≡ remover) × (m ≡ s.got s.num_got) × (0 < s.num_got))
IsRemoving at s (some RmvPc.failed) = ⊥
IsRemoving at s _ = Unit

-- Some producer stands between its exchange and its link of node `k + 1` behind node `k`.
abbrev pub IsPending : (at : ℕ → ℕ) → System → ℕ → Type 0
IsPending at s k = (i : ℕ) × (m : ℕ) × (s.producer i ≡ adding m (link (at k) (at (k + 1))))

pub record IsShared (at : ℕ → ℕ) (s : System) : Type 0 where
  pub order : s.num_got ≤ s.num_sent
  pub head : s.l.head ≡ at s.num_sent
  pub tail : s.l.tail ≡ at s.num_got
  pub real : (k : ℕ) → s.num_got ≤ k → k ≤ s.num_sent → at k ≢ null
  pub apart : (j k : ℕ) → s.num_got ≤ j → j < k → k ≤ s.num_sent → at j ≢ at k
  pub last : (s.l.node (at s.num_sent)).next ≡ null
  pub linked :
      (k : ℕ)
      → s.num_got ≤ k
      → k < s.num_sent
      → ((s.l.node (at k)).next ≡ at (k + 1)) ⊎ IsPending at s k
  pub msgs : (k : ℕ) → s.num_got < k → k ≤ s.num_sent → (s.l.node (at k)).msg ≡ s.sent k
  pub queued :
      (k : ℕ) → s.num_got < k → k ≤ s.num_sent → (s.owner (s.sent k) ≡ list) × (s.sent k ≢ null)
  pub once : (j k : ℕ) → s.num_got < j → j < k → k ≤ s.num_sent → s.sent j ≢ s.sent k
  pub same : (k : ℕ) → 0 < k → k ≤ s.num_got → s.got k ≡ s.sent k
  pub own_real : (m : ℕ) → holds_node (s.owner m) ≡ true → s.l.next_ptr m ≢ null
  pub own_out :
      (m k : ℕ)
      → holds_node (s.owner m) ≡ true
      → s.num_got ≤ k
      → k ≤ s.num_sent
      → s.l.next_ptr m ≢ at k
  pub own_apart :
      (m m' : ℕ)
      → holds_node (s.owner m) ≡ true
      → holds_node (s.owner m') ≡ true
      → s.l.next_ptr m ≡ s.l.next_ptr m'
      → m ≡ m'
  pub producers : (i : ℕ) → IsAdding at s i (s.producer i)
  pub one_link :
      (i j m m' prev prev' np : ℕ)
      → s.producer i ≡ adding m (link prev np)
      → s.producer j ≡ adding m' (link prev' np)
      → i ≡ j
  pub consuming : IsRemoving at s s.consumer

-- At the start, when every message owns a node of its own.
pub start-IsShared :
    (l : LinkList) (is_msg : ℕ → Bool)
    → l.stub ≢ null
    → ((m : ℕ) → is_msg m ≡ true → l.next_ptr m ≢ null)
    → ((m : ℕ) → is_msg m ≡ true → l.next_ptr m ≢ l.stub)
    → ((m m' : ℕ) → is_msg m ≡ true → is_msg m' ≡ true → l.next_ptr m ≡ l.next_ptr m' → m ≡ m')
    → IsShared (λ _. l.stub) (start l is_msg)
unfolding start init
start-IsShared l is_msg real owned off distinct = record {
  order = omega arith;
  head = refl;
  tail = refl;
  real = λ k lo hi. real;
  apart = λ j k lo lt hi. absurd (omega arith);
  last = ground arith;
  linked = λ k lo hi. absurd (omega arith);
  msgs = λ k lo hi. absurd (omega arith);
  queued = λ k lo hi. absurd (omega arith);
  once = λ j k lo lt hi. absurd (omega arith);
  same = λ k lo hi. absurd (omega arith);
  own_real = λ m h. ground (arith, owned m);
  own_out = λ m k h lo hi. ground (arith, off m);
  own_apart = λ m m' h h' e. ground (arith, distinct m m');
  producers = λ i. tt;
  one_link = λ i j m m' prev prev' np e e'. ground arith;
  consuming = tt;
}
