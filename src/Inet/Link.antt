-- ===== src/Inet/Link.antt =====
-- The component of platform/Posix/components/ac_inet_link/srcs/ac_inet_link.c. The calls of the host
-- are parameters. What it prints, and the loop of its reader thread, are left out.
use sadie.Prelude.{
  ℕ, ◌+◌, ◌*◌, ◌-◌, ◌/◌, ◌%◌, ◌^◌, Bool, true, Option, none, some, List, [], ◌∷◌, length, ◌==◌, ltb,
  leb, if◌then◌else◌,
}
use sadie.Word.{null}
use sadie.Memory.{Memory, store, memcpy, memset}
use sadie.SwapBytes.{swap_u16}
use sadie.Inet.{
  ether_addr_len, ether_min_len, ether_hdr_len, ether_proto_arp, ipv4_addr_len, arp_len, store16,
  ac_arp_init, ac_ether_init,
}

-- The fields of the host's `struct sockaddr_ll`, by offset, its size, and AF_PACKET.
pub record SockaddrLl : Type 0 where
  pub size : ℕ
  pub family_at : ℕ
  pub protocol_at : ℕ
  pub ifindex_at : ℕ
  pub halen_at : ℕ
  pub addr_at : ℕ
  pub af_packet : ℕ

-- The fields of the struct at `s` before the address. An index has 32 bits.
abbrev pub put_fields : SockaddrLl → (s addr_len ifindex protocol : ℕ) → Memory → Memory
put_fields l s addr_len ifindex protocol mem =
    let m0 = memset l.size s 0 mem in
    let m1 = store16 m0 (s + l.family_at) l.af_packet in
    let m2 = store16 m1 (s + l.protocol_at) (swap_u16 protocol) in
    let m3 = store16 m2 (s + l.ifindex_at) ifindex in
    let m4 = store16 m3 (s + l.ifindex_at + 2) (ifindex / 2 ^ 16) in
    store m4 (s + l.halen_at) (addr_len % 2 ^ 8)

-- `init_sockaddr_ll`
unfoldable pub init_sockaddr_ll :
    SockaddrLl → (s addr_len addr ifindex protocol : ℕ) → Memory → Memory
init_sockaddr_ll l s addr_len addr ifindex protocol mem =
    memcpy addr_len (s + l.addr_at) addr (put_fields l s addr_len ifindex protocol mem)

-- `init_ether_broadcast_sockaddr_ll`, with its local array at `local`.
unfoldable pub init_ether_broadcast_sockaddr_ll :
    SockaddrLl → (s local ifindex protocol : ℕ) → Memory → Memory
unfolding init_sockaddr_ll
init_ether_broadcast_sockaddr_ll l s local ifindex protocol mem =
    init_sockaddr_ll l s ether_addr_len local ifindex protocol
      (memset ether_addr_len local 0xff mem)

-- A frame as `sendmsg` gathers it: its parts, by address and length.
abbrev pub Iovec : Type 0
Iovec = List (ℕ × ℕ)

abbrev pub frame_len : Iovec → ℕ
frame_len [] = 0
frame_len ((base, len) ∷ v) = len + frame_len v

abbrev pub frame_byte : Iovec → Memory → ℕ → ℕ
frame_byte [] mem i = 0
frame_byte ((base, len) ∷ v) mem i =
    let later = frame_byte v mem (i - len) in if ltb i len then mem (base + i) else later

-- Where `send_arp` keeps its variables, and the fields of the component that it reads.
pub record Places : Type 0 where
  pub dst_addr : ℕ
  pub local : ℕ
  pub arp_req : ℕ
  pub ether_hdr : ℕ
  pub ifmac_addr : ℕ
  pub sin_addr : ℕ
  pub padding : ℕ
  pub ifindex : ℕ

pub data SendArp : Type 0 where
  frame : Iovec → Memory → SendArp
  asserted : SendArp

abbrev pub load16 : Memory → ℕ → ℕ
load16 mem a = mem a + mem (a + 1) * 2 ^ 8

-- `send_arp`, up to the call of `send_packet`.
unfoldable pub send_arp :
    SockaddrLl → Places → (protocol proto_addr_len proto_addr : ℕ) → Memory → SendArp
unfolding init_ether_broadcast_sockaddr_ll ac_arp_init ac_ether_init
send_arp l v protocol proto_addr_len proto_addr mem =
    let m1 = init_ether_broadcast_sockaddr_ll l v.dst_addr v.local v.ifindex ether_proto_arp mem in
    let (arp_req_len, m2) =
      ac_arp_init v.arp_req 1 1 ether_addr_len protocol proto_addr_len v.ifmac_addr v.sin_addr null
        proto_addr m1 in
    let m3 =
      ac_ether_init v.ether_hdr v.dst_addr (v.arp_req + arp_len)
        (load16 m2 (v.dst_addr + l.protocol_at)) m2 in
    let len = ether_hdr_len + arp_len in
    let parts = (v.ether_hdr, ether_hdr_len) ∷ (v.arp_req, arp_len) ∷ [] in
    let padded =
      (v.ether_hdr, ether_hdr_len) ∷ (v.arp_req, arp_len) ∷ (v.padding, ether_min_len - len) ∷ [] in
    if arp_req_len == arp_len + (2 * ether_addr_len + 2 * ipv4_addr_len)
    then frame (if ltb len ether_min_len then padded else parts) m3
    else asserted

-- AC_STATUS_OK, AC_STATUS_BAD_PARAM and AC_STATUS_LINUX_ERR.
pub data LinkStatus : Type 0 where
  ok : LinkStatus
  bad_param : LinkStatus
  linux_err : (errno : ℕ) → LinkStatus

-- What a call of the host gives: a value, or an errno.
pub data Answer {ℓ} (A : Type ℓ) : Type ℓ where
  gives : A → Answer A
  errs : (errno : ℕ) → Answer A

-- The host's calls, and the size of `ifr_name`. An interface is asked for by its name.
pub record Host : Type 0 where
  pub name_size : ℕ
  pub socket : Answer ℕ
  pub setsockopt : Answer (Unit {0})
  pub ifindex : List ℕ → Answer ℕ
  pub hwaddr : List ℕ → Answer (List ℕ)
  pub ipv4 : List ℕ → Answer (List ℕ)
  pub starts_thread : Bool

-- The state of `AcCompIpv4LinkLayer`, of which `ifname` is constant.
pub record Link : Type 0 where
  pub fd : ℕ
  pub ifname_idx : ℕ
  pub ifindex : ℕ
  pub ifmac_addr : List ℕ
  pub ifipv4_addr : List ℕ
  pub reading : Bool

-- `set_ifname`
unfoldable pub set_ifname : Host → List ℕ → LinkStatus
set_ifname h name = if leb (h.name_size - 1) (length name) then bad_param else ok

-- The calls `get_ifindex`, `get_ethernet_mac_addr` and `get_ethernet_ipv4_addr`.
abbrev pub ask {ℓ} : {A : Type ℓ} → Host → (List ℕ → Answer A) → List ℕ → Option A
ask h call name = elim (set_ifname h name) [
  | ok ↦ elim (call name) [ gives a ↦ some a | errs e ↦ none ]
  | bad_param ↦ none
  | linux_err e ↦ none
]

-- The loop over the names, from index `idx` on: the first interface that has an index.
unfoldable pub first_ifindex : Host → (idx : ℕ) → List (List ℕ) → Option (ℕ × List ℕ × ℕ)
unfolding set_ifname
first_ifindex h idx [] = none
first_ifindex h idx (name ∷ names) =
    let rest = first_ifindex h (idx + 1) names in
    elim (ask h h.ifindex name) [ none ↦ rest | some i ↦ some (idx, name, i) ]

-- How a message ends: `ac_fail` and failed assertions stop the program, and otherwise the message is
-- returned to its pool.
pub data Processed : Type 0 where
  failed : Processed
  ret_msg : Link → Memory → Processed

-- `ac_memset` of the padding, an array of AC_ETHER_MIN_LEN bytes.
abbrev pub clear_padding : Places → Memory → Memory
clear_padding v mem = memset ether_min_len v.padding 0 mem

-- `AC_INIT_CMD`
unfoldable pub init_cmd : Host → List (List ℕ) → Places → Memory → Processed
unfolding first_ifindex
init_cmd h ifname v mem = elim h.socket [
  | errs e ↦ failed
  | gives fd ↦ elim h.setsockopt [
    | errs e ↦ failed
    | gives u ↦ elim (first_ifindex h 0 ifname) [
      | none ↦ failed
      | some (idx, name, ifindex) ↦ elim (ask h h.hwaddr name) [
        | none ↦ failed
        | some mac ↦ elim (ask h h.ipv4 name) [
          | none ↦ failed
          | some ipv4 ↦
              if h.starts_thread
              then ret_msg
                  (record {
                    fd = fd;
                    ifname_idx = idx;
                    ifindex = ifindex;
                    ifmac_addr = mac;
                    ifipv4_addr = ipv4;
                    reading = true;
                  })
                  (clear_padding v mem)
              else failed
        ]
      ]
    ]
  ]
]

-- The messages that the component knows, and any other.
pub data Op : Type 0 where
  init_cmd_op : Op
  deinit_cmd_op : Op
  send_arp_op : (proto proto_addr_len proto_addr : ℕ) → Op
  send_packet_op : Op
  other_op : Op

abbrev pub after_send : Link → SendArp → Processed
after_send link (frame v mem) = ret_msg link mem
after_send link asserted = failed

-- `comp_ipv4_ll_process_msg`. What `send_packet` returns is not looked at.
unfoldable pub process_msg :
    Host → List (List ℕ) → SockaddrLl → Places → Memory → Link → Op → Processed
unfolding init_cmd send_arp
process_msg h ifname l v mem link init_cmd_op = init_cmd h ifname v mem
process_msg h ifname l v mem link deinit_cmd_op = ret_msg link mem
process_msg h ifname l v mem link (send_arp_op proto len addr) =
    after_send link (send_arp l v proto len addr mem)
process_msg h ifname l v mem link send_packet_op = ret_msg link mem
process_msg h ifname l v mem link other_op = ret_msg link mem
