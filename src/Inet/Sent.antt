-- ===== src/Inet/Sent.antt =====
-- The frame that send_arp puts together.
use sadie.Prelude.{
  ℕ, ◌+◌, ◌-◌, ◌/◌, ◌%◌, ◌^◌, ◌≤◌, ◌<◌, ◌≡◌, refl, ◌∙◌, ap, ◌⊎◌, inl, arith, ◌==◌, ◌∷◌, [], true,
}
use sadie.Word.{null}
use sadie.Memory.{Memory, memcpy, memset}
use sadie.Memory.Blocks.{memcpy-copies, memset-fills}
use sadie.SwapBytes.{swap_u16}
use sadie.Inet.{ac_arp_init, ac_ether_init, ether_proto_arp}
use sadie.Inet.Arp.{IsApart, ac_arp_init-IsPacket}
use sadie.Inet.Link.{
  SockaddrLl, put_fields, init_sockaddr_ll, init_ether_broadcast_sockaddr_ll, Places, clear_padding,
  frame, frame_len, frame_byte, Iovec, load16, send_arp,
}

-- Two blocks do not overlap.
abbrev pub Off : (a n b m : ℕ) → Type 0
Off a n b m = (a + n ≤ b) ⊎ (b + m ≤ a)

-- The struct of Linux: the family, the protocol, the index, the length and the address.
pub record IsLinux (l : SockaddrLl) : Type 0 where
  pub size_20 : l.size ≡ 20
  pub family_first : l.family_at ≡ 0
  pub protocol_second : l.protocol_at ≡ 2
  pub ifindex_third : l.ifindex_at ≡ 4
  pub halen_at_11 : l.halen_at ≡ 11
  pub addr_at_12 : l.addr_at ≡ 12
  pub af_packet_17 : l.af_packet ≡ 17

module _ (l : SockaddrLl) (linux : IsLinux l) (s local ifindex : ℕ) (mem : Memory)
    (off : Off local 6 s 20) where
  abbrev inited : Memory
  inited = init_ether_broadcast_sockaddr_ll l s local ifindex ether_proto_arp mem

  -- The struct begins with the family, and the protocol in network order; beside it only the local
  -- array is written.
  inited-start :
      (inited (s + 0) ≡ 17)
      × (inited (s + 1) ≡ 0)
      × (inited (s + 2) ≡ 0x08)
      × (inited (s + 3) ≡ 0x06)
      × ((a : ℕ) → (a < s) ⊎ (s + 20 ≤ a) → (a < local) ⊎ (local + 6 ≤ a) → inited a ≡ mem a)
  unfolding init_ether_broadcast_sockaddr_ll init_sockaddr_ll swap_u16
  inited-start =
      let filled = memset 6 local 0xff mem in
      let fields = put_fields l s 6 ifindex ether_proto_arp filled in
      let c = memcpy-copies 6 (s + l.addr_at) local fields (ground arith) in
      let zeros = memset-fills l.size s 0 filled in
      let ones = memset-fills 6 local 0xff mem in
      (
        c.1 (s + 0) (ground arith) ∙ ground arith,
        c.1 (s + 1) (ground arith) ∙ ground arith,
        c.1 (s + 2) (ground arith) ∙ ground arith,
        c.1 (s + 3) (ground arith) ∙ ground arith,
        λ a out out'. c.1 a (ground arith) ∙ ground (arith, zeros.1 a, ones.1 a),
      )

-- The header holds six bytes from each address and the swapped protocol, and nothing else changes.
ac_ether_init-puts :
    (hdr dst src protocol : ℕ) (mem : Memory)
    → Off hdr 14 dst 6
    → Off hdr 14 src 6
    → let m = ac_ether_init hdr dst src protocol mem in
      ((i : ℕ) → i < 6 → m (hdr + i) ≡ mem (dst + i))
      × (m (hdr + 12) ≡ swap_u16 protocol % 2 ^ 8)
      × (m (hdr + 13) ≡ swap_u16 protocol / 2 ^ 8 % 2 ^ 8)
      × ((a : ℕ) → (a < hdr) ⊎ (hdr + 14 ≤ a) → m a ≡ mem a)
unfolding ac_ether_init
ac_ether_init-puts hdr dst src protocol mem off off' =
    let m1 = memcpy 6 hdr dst mem in
    let c1 = memcpy-copies 6 hdr dst mem (omega arith) in
    let c2 = memcpy-copies 6 (hdr + 6) src m1 (omega arith) in
    (
      λ i lt. ground arith ∙ c2.1 (hdr + i) (omega arith) ∙ c1.0 i lt,
      ground arith,
      ground arith,
      λ a out. ground arith ∙ c2.1 a (omega arith) ∙ c1.1 a (omega arith),
    )

-- Where the variables of send_arp stand: none overlaps another, `arp_req` with the 20 bytes behind it.
pub record ArePlaced (v : Places) (proto_addr : ℕ) : Type 0 where
  pub dst_local : Off v.local 6 v.dst_addr 20
  pub dst_arp : Off v.dst_addr 20 v.arp_req 28
  pub dst_ether : Off v.dst_addr 20 v.ether_hdr 14
  pub arp_ether : Off v.arp_req 28 v.ether_hdr 14
  pub mac_arp : IsApart v.ifmac_addr 6 v.arp_req (v.arp_req + 28)
  pub sin_arp : IsApart v.sin_addr 4 v.arp_req (v.arp_req + 28)
  pub proto_arp : IsApart proto_addr 4 v.arp_req (v.arp_req + 28)
  pub padding_dst : Off v.padding 60 v.dst_addr 20
  pub padding_local : Off v.padding 60 v.local 6
  pub padding_arp : Off v.padding 60 v.arp_req 28
  pub padding_ether : Off v.padding 60 v.ether_hdr 14

-- What AC_INIT_CMD has cleared is zeros.
clear_padding-zeros :
    (v : Places) (mem : Memory) (i : ℕ) → i < 60 → clear_padding v mem (v.padding + i) ≡ 0
clear_padding-zeros v mem i lt = (memset-fills 60 v.padding 0 mem).0 i lt

-- The bytes of the type, loaded from network order and swapped again.
type_bytes-at :
    (a : ℕ) (m : Memory)
    → m a ≡ 0x08
    → m (a + 1) ≡ 0x06
    → (swap_u16 (load16 m a) % 2 ^ 8 ≡ 0x06) × (swap_u16 (load16 m a) / 2 ^ 8 % 2 ^ 8 ≡ 0x08)
unfolding swap_u16
type_bytes-at a m low high = rw (low, high) (refl, refl)

-- A byte of the frame behind the header and the fields of the request is one of the padding.
padding-byte :
    (i hdr req padding : ℕ) (m : Memory)
    → 22 ≤ i
    → i < 60
    → frame_byte ((hdr, 14) ∷ (req, 8) ∷ (padding, 38) ∷ []) m i ≡ m (padding + (i - 22))
padding-byte i hdr req padding m lo hi =
    let e : i - 14 - 8 ≡ i - 22 = omega arith in ground (arith, e)

-- On Linux, for a protocol address of 4 bytes and variables that do not overlap, also not with the 20
-- bytes that are written behind `arp_req`, in a memory whose padding AC_INIT_CMD has cleared, send_arp
-- puts a frame of 60 bytes together. It begins with
-- the family and the protocol of `dst_addr`, not the broadcast address; the bytes of its type are 06
-- 08, not 08 06; and behind the fields of the request it has zeros, not the addresses.
pub send_arp-frame :
    (l : SockaddrLl) (v : Places) (protocol proto_addr : ℕ) (mem : Memory)
    → IsLinux l
    → ArePlaced v proto_addr
    → (parts : Iovec) × (m : Memory) × (send_arp l v protocol 4 proto_addr (clear_padding v mem)
        ≡ frame parts m)
      × (frame_len parts ≡ 60)
      × (frame_byte parts m 0 ≡ 17)
      × (frame_byte parts m 1 ≡ 0)
      × (frame_byte parts m 2 ≡ 0x08)
      × (frame_byte parts m 3 ≡ 0x06)
      × (frame_byte parts m 12 ≡ 0x06)
      × (frame_byte parts m 13 ≡ 0x08)
      × ((i : ℕ) → 22 ≤ i → i < 60 → frame_byte parts m i ≡ 0)
unfolding send_arp
send_arp-frame l v protocol proto_addr mem0 linux p =
    let mem = clear_padding v mem0 in
    let m1 = init_ether_broadcast_sockaddr_ll l v.dst_addr v.local v.ifindex ether_proto_arp mem in
    let i1 = inited-start l linux v.dst_addr v.local v.ifindex mem p.dst_local in
    let r = ac_arp_init v.arp_req 1 1 6 protocol 4 v.ifmac_addr v.sin_addr null proto_addr m1 in
    let (len, packet) =
      ac_arp_init-IsPacket v.arp_req 1 1 6 protocol 4 v.ifmac_addr v.sin_addr null proto_addr m1
        (omega arith) (omega arith) (ground arith) (ground arith) (inl refl) (ground arith) in
    let m2 = r.1 in
    let kept : ((a : ℕ) → (a < v.arp_req) ⊎ (v.arp_req + 28 ≤ a) → m2 a ≡ m1 a) =
      λ a out. packet.outside a (omega arith) in
    let at = v.dst_addr + l.protocol_at in
    let low : m2 at ≡ 0x08 = ground (arith, kept at, i1) in
    let next : at + 1 ≡ v.dst_addr + 3 = omega arith in
    let high : m2 (at + 1) ≡ 0x06 = ap m2 next ∙ kept (v.dst_addr + 3) (ground arith) ∙ i1.3 in
    let e =
      ac_ether_init-puts v.ether_hdr v.dst_addr (v.arp_req + 8) (load16 m2 at) m2 (omega arith)
        (omega arith) in
    let m3 = ac_ether_init v.ether_hdr v.dst_addr (v.arp_req + 8) (load16 m2 at) m2 in
    let passed : (r.0 == 28) ≡ true = ground (arith, len) in
    let parts : Iovec = (v.ether_hdr, 14) ∷ (v.arp_req, 8) ∷ (v.padding, 38) ∷ [] in
    let dst : ((i : ℕ) → i < 6 → m3 (v.ether_hdr + i) ≡ m1 (v.dst_addr + i)) =
      λ i lt. e.0 i lt ∙ kept (v.dst_addr + i) (ground arith) in
    (
      parts,
      m3,
      rw passed refl,
      omega arith,
      dst 0 (omega arith) ∙ i1.0,
      dst 1 (omega arith) ∙ i1.1,
      dst 2 (omega arith) ∙ i1.2,
      dst 3 (omega arith) ∙ i1.3,
      e.1 ∙ (type_bytes-at at m2 low high).0,
      e.2 ∙ (type_bytes-at at m2 low high).1,
      λ i lo hi.
          let base = v.padding + (i - 22) in
          let zero_at : m3 base ≡ 0 =
            e.3 base (omega arith)
            ∙ kept base (omega arith)
            ∙ i1.4 base (omega arith) (omega arith)
            ∙ clear_padding-zeros v mem0 (i - 22) (omega arith) in
          padding-byte i v.ether_hdr v.arp_req v.padding m3 lo hi ∙ zero_at,
    )
