-- ===== src/Inet/Init.antt =====
-- Which interface AC_INIT_CMD takes.
use sadie.Prelude.{ℕ, ◌+◌, ◌≡◌, refl, ◌∙◌, ap, arith, none, some, List, [], ◌∷◌, ◌++◌, length, true}
use sadie.Inet.Link.{Host, gives, ask, Places, clear_padding, first_ifindex, init_cmd, ret_msg}
use sadie.Memory.{Memory}

-- Every name of the list has no index.
data HaveNone (h : Host) : List (List ℕ) → Type 0 where
  no_more : HaveNone h []
  has_none :
      {name : List ℕ} {names : List (List ℕ)}
      → ask h h.ifindex name ≡ none
      → HaveNone h names
      → HaveNone h (name ∷ names)

first_ifindex-first :
    (h : Host) (idx x : ℕ) (name : List ℕ) (before after : List (List ℕ))
    → HaveNone h before
    → ask h h.ifindex name ≡ some x
    → first_ifindex h idx (before ++ name ∷ after) ≡ some (idx + length before, name, x)
unfolding first_ifindex
first_ifindex-first h idx x name [] after no_more found =
    rw (first_ifindex, found) (ap (λ i. some (i, name, x)) (omega arith))
first_ifindex-first h idx x name (other ∷ before) after (has_none missing rest) found =
    rw (first_ifindex, missing)
      (first_ifindex-first h (idx + 1) x name before after rest found
        ∙ ap (λ i. some (i, name, x)) (omega arith))

-- AC_INIT_CMD takes the first of the names that has an index, whatever comes behind it: when the host
-- gives a socket, accepts its option, knows the two addresses of that interface and starts the reader
-- thread, the message is returned and the state holds the socket, the place of the name in the list,
-- the index and the addresses; the padding is cleared.
init_cmd-first :
    (h : Host) (fd x : ℕ) (name mac ipv4 : List ℕ) (before after : List (List ℕ)) (v : Places)
    (mem : Memory)
    → h.socket ≡ gives fd
    → h.setsockopt ≡ gives tt
    → HaveNone h before
    → ask h h.ifindex name ≡ some x
    → ask h h.hwaddr name ≡ some mac
    → ask h h.ipv4 name ≡ some ipv4
    → h.starts_thread ≡ true
    → init_cmd h (before ++ name ∷ after) v mem
      ≡ ret_msg
          (record {
            fd = fd;
            ifname_idx = length before;
            ifindex = x;
            ifmac_addr = mac;
            ifipv4_addr = ipv4;
            reading = true;
          })
          (clear_padding v mem)
unfolding init_cmd
init_cmd-first h fd x name mac ipv4 before after v mem sock opt nones found has_mac has_ipv4
      starts =
    let first : first_ifindex h 0 (before ++ name ∷ after) ≡ some (length before, name, x) =
      first_ifindex-first h 0 x name before after nones found
      ∙ ap (λ i. some (i, name, x)) (omega arith) in
    rw (sock, opt, first, has_mac, has_ipv4, starts) refl
