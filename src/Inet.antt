-- ===== src/Inet.antt =====
-- The network link component: the packets of components/ac_inet_link/srcs, ac_arp.c and ac_ether.c,
-- over a memory of bytes on a little endian processor, and the component of
-- platform/Posix/components/ac_inet_link in Link.
pub mod Link
pub mod Arp
pub mod Sent
mod Init
mod Tests
use sadie.Prelude.{ℕ, ◌+◌, ◌*◌, ◌-◌, ◌/◌, ◌%◌, ◌^◌, List, [], ◌∷◌, ◌==◌, ltb, if◌then◌else◌}
use sadie.Word.{u8, u16, null}
use sadie.Memory.{Memory, store, memcpy, memset}
use sadie.SwapBytes.{swap_u16}

abbrev pub ether_addr_len : ℕ
ether_addr_len = 6

abbrev pub ether_min_len : ℕ
ether_min_len = 60

abbrev pub ether_hdr_len : ℕ
ether_hdr_len = 14

abbrev pub ether_proto_arp : ℕ
ether_proto_arp = 0x0806

abbrev pub ipv4_addr_len : ℕ
ipv4_addr_len = 4

-- The size of `AcArp` without its array of addresses.
abbrev pub arp_len : ℕ
arp_len = 8

-- A store of 16 bits, the low byte first.
abbrev pub store16 : Memory → (address val : ℕ) → Memory
store16 mem a v = store (store mem a (v % 2 ^ 8)) (a + 1) (v / 2 ^ 8 % 2 ^ 8)

-- One of the four addresses of `ac_arp_init`: zeros, or a copy.
abbrev pub put_addr : (p src len : ℕ) → Memory → Memory
put_addr p src len mem = if src == null then memset len p 0 mem else memcpy len p src mem

-- The fields of `AcArp` at `arp`.
abbrev pub put_arp : (arp op hard_frmt hard_len proto_frmt proto_len : ℕ) → Memory → Memory
put_arp arp op hard_frmt hard_len proto_frmt proto_len mem =
    let m1 = store16 mem arp (swap_u16 hard_frmt) in
    let m2 = store16 m1 (arp + 2) (swap_u16 proto_frmt) in
    let m3 = store m2 (arp + 4) hard_len in
    let m4 = store m3 (arp + 5) proto_len in store16 m4 (arp + 6) (swap_u16 op)

-- `ac_arp_init`, with its result. The lengths are bytes.
unfoldable pub ac_arp_init :
    (arp op hard_frmt hard_len proto_frmt proto_len : ℕ)
    → (src_hard src_proto dst_hard dst_proto : ℕ) → Memory
    → ℕ × Memory
ac_arp_init arp op hard_frmt hard_len proto_frmt proto_len src_hard src_proto dst_hard dst_proto
      mem =
    let hl = u8 hard_len in
    let pl = u8 proto_len in
    let m0 = put_arp arp op hard_frmt hl proto_frmt pl mem in
    let p0 = arp + arp_len in
    let m1 = put_addr p0 src_hard hl m0 in
    let p1 = p0 + hl in
    let m2 = put_addr p1 src_proto pl m1 in
    let p2 = p1 + pl in
    let m3 = put_addr p2 dst_hard hl m2 in
    let p3 = p2 + hl in let m4 = put_addr p3 dst_proto pl m3 in (p3 + pl - arp, m4)

-- `ac_ether_init` of the header at `hdr`.
unfoldable pub ac_ether_init : (hdr dst src protocol : ℕ) → Memory → Memory
ac_ether_init hdr dst src protocol mem =
    let m1 = memcpy ether_addr_len hdr dst mem in
    let m2 = memcpy ether_addr_len (hdr + 6) src m1 in store16 m2 (hdr + 12) (swap_u16 protocol)
