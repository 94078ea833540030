-- ===== src/LinkList/Chain.antt =====
-- The chain of nodes from the tail to the head, and what add and rmv do to it.
use sadie.Prelude.{
  ℕ, ◌≡◌, ◌≢◌, Bool, true, false, ◌||◌, List, [], ◌∷◌, ◌++◌, arith, ◌==◌, if◌then◌else◌,
}
use sadie.Word.{null}
use sadie.LinkList.{NextPtr}

-- The queued messages in order, each behind its node.
abbrev pub Cells : Type 0
Cells = List (ℕ × ℕ)

abbrev pub on_chain : ℕ → Cells → Bool
on_chain p [] = false
on_chain p ((n, m) ∷ c) = (p == n) || on_chain p c

-- From node `t` the `next` pointers lead through the nodes of `c`, all different, to `h`.
abbrev pub Chain : (ℕ → NextPtr) → ℕ → Cells → ℕ → Type 0
Chain node t [] h = (h ≡ t) × ((node t).next ≡ null)
Chain node t ((n, m) ∷ c) h =
    ((node t).next ≡ n)
    × (n ≢ null)
    × ((node n).msg ≡ m)
    × (m ≢ null)
    × (((t == n) || on_chain t c) ≡ false)
    × Chain node n c h

head_on_chain :
    (node : ℕ → NextPtr) (t n m h : ℕ) (c : Cells)
    → Chain node t ((n, m) ∷ c) h
    → on_chain h ((n, m) ∷ c) ≡ true
head_on_chain node t n m h [] ch = ground arith
head_on_chain node t n m h ((n', m') ∷ c) ch = ground (arith, head_on_chain node n n' m' h c ch.5)

pub on_chain-snoc :
    (p n m : ℕ) (c : Cells) → on_chain p (c ++ ((n, m) ∷ [])) ≡ (on_chain p c || (p == n))
on_chain-snoc p n m [] = ground arith
on_chain-snoc p n m ((n', m') ∷ c) = ground (arith, on_chain-snoc p n m c)

-- The nodes after a message is added: a new last node, and a link to it.
abbrev pub linked : (ℕ → NextPtr) → ℕ → ℕ → ℕ → ℕ → NextPtr
linked node h np m j =
    if j == h
    then record {
      next = np;
      msg = (if h == np then record { next = null; msg = m } else node h).msg;
    }
    else (if j == np then record { next = null; msg = m } else node j)

pub Chain-linked :
    (node : ℕ → NextPtr) (np m t h : ℕ) (c : Cells)
    → np ≢ null
    → m ≢ null
    → ((np == t) || on_chain np c) ≡ false
    → Chain node t c h
    → Chain (linked node h np m) t (c ++ ((np, m) ∷ [])) np
Chain-linked node np m t h [] real given out ch = ground arith
Chain-linked node np m t h ((n, m') ∷ c) real given out ch = ground (
  arith,
  ne_head,
  on_chain-snoc t np m c,
  Chain-linked node np m n h c real given (ground arith) ch.5,
)
  where
    ne_head : t ≢ h
    ne_head e = ground (arith, head_on_chain node t n m' h c ch)
