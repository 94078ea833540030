-- ===== src/Inet/Tests.antt =====
-- An ARP request for 10.0.0.1, and a host that has the second interface only.
use sadie.Prelude.{
  ℕ, ◌+◌, ◌*◌, ◌<◌, ◌≤◌, ◌≡◌, refl, arith, ◌==◌, ltb, leb, ◌&&◌, if◌then◌else◌, List, [], ◌∷◌, ◌++◌,
  inl, inr, true, length, ◌%◌,
}
use sadie.Word.{null}
use sadie.Memory.{Memory}
use sadie.Inet.{ac_arp_init}
use sadie.Inet.Arp.{IsPacket, ac_arp_init-IsPacket}
use sadie.Inet.Link.{
  SockaddrLl, Places, frame, clear_padding, frame_len, frame_byte, Iovec, send_arp, Host, gives,
  errs, Answer, init_cmd, ret_msg,
}
use sadie.Inet.Sent.{IsLinux, ArePlaced, send_arp-frame}

abbrev mem : Memory
mem a = if leb 300 a && ltb a 338 then 0 else a % 256

ac_arp_init-IsPacket_example :
    ((ac_arp_init 400 1 1 6 0x0800 4 500 510 null 520 mem).0 ≡ 8 + 2 * (6 + 4))
    × IsPacket 400 1 1 6 0x0800 4 500 510 null 520 mem
        (omega arith)
        (omega arith)
        (ac_arp_init 400 1 1 6 0x0800 4 500 510 null 520 mem).1
ac_arp_init-IsPacket_example =
    ac_arp_init-IsPacket 400 1 1 6 0x0800 4 500 510 null 520 mem (omega arith) (omega arith)
      (inr (inr (omega arith))) (inr (inr (omega arith))) (inl refl) (inr (inr (omega arith)))

abbrev linux : SockaddrLl
linux = record {
  size = 20;
  family_at = 0;
  protocol_at = 2;
  ifindex_at = 4;
  halen_at = 11;
  addr_at = 12;
  af_packet = 17;
}

abbrev linux-IsLinux : IsLinux linux
linux-IsLinux = record {
  size_20 = refl;
  family_first = refl;
  protocol_second = refl;
  ifindex_third = refl;
  halen_at_11 = refl;
  addr_at_12 = refl;
  af_packet_17 = refl;
}

abbrev places : Places
places = record {
  dst_addr = 100;
  local = 130;
  arp_req = 400;
  ether_hdr = 440;
  ifmac_addr = 500;
  sin_addr = 510;
  padding = 300;
  ifindex = 2;
}

abbrev places-ArePlaced : ArePlaced places 520
places-ArePlaced = record {
  dst_local = inr (omega arith);
  dst_arp = inl (omega arith);
  dst_ether = inl (omega arith);
  arp_ether = inl (omega arith);
  mac_arp = inr (inr (omega arith));
  sin_arp = inr (inr (omega arith));
  proto_arp = inr (inr (omega arith));
  padding_dst = inr (omega arith);
  padding_local = inr (omega arith);
  padding_arp = inl (omega arith);
  padding_ether = inl (omega arith);
}

send_arp-frame_example :
    (parts : Iovec) × (m : Memory) × (send_arp linux places 0x0800 4 520 (clear_padding places mem)
      ≡ frame parts m)
    × (frame_len parts ≡ 60)
    × (frame_byte parts m 0 ≡ 17)
    × (frame_byte parts m 1 ≡ 0)
    × (frame_byte parts m 2 ≡ 0x08)
    × (frame_byte parts m 3 ≡ 0x06)
    × (frame_byte parts m 12 ≡ 0x06)
    × (frame_byte parts m 13 ≡ 0x08)
    × ((i : ℕ) → 22 ≤ i → i < 60 → frame_byte parts m i ≡ 0)
send_arp-frame_example = send_arp-frame linux places 0x0800 520 mem linux-IsLinux places-ArePlaced

abbrev index_of : List ℕ → Answer ℕ
index_of [] = errs 19
index_of (first ∷ name) = if first == 119 then gives 3 else errs 19

abbrev host : Host
host = record {
  name_size = 16;
  socket = gives 5;
  setsockopt = gives tt;
  ifindex = index_of;
  hwaddr = λ name. gives (1 ∷ 2 ∷ 3 ∷ 4 ∷ 5 ∷ 6 ∷ []);
  ipv4 = λ name. gives (10 ∷ 0 ∷ 0 ∷ 2 ∷ []);
  starts_thread = true;
}

-- "eth0" and "wlan0".
abbrev eth0 : List ℕ
eth0 = 101 ∷ 116 ∷ 104 ∷ 48 ∷ []

abbrev wlan0 : List ℕ
wlan0 = 119 ∷ 108 ∷ 97 ∷ 110 ∷ 48 ∷ []

init_takes_second :
    init_cmd host ((eth0 ∷ []) ++ wlan0 ∷ []) places mem
    ≡ ret_msg
        (record {
          fd = 5;
          ifname_idx = length (eth0 ∷ []);
          ifindex = 3;
          ifmac_addr = 1 ∷ 2 ∷ 3 ∷ 4 ∷ 5 ∷ 6 ∷ [];
          ifipv4_addr = 10 ∷ 0 ∷ 0 ∷ 2 ∷ [];
          reading = true;
        })
        (clear_padding places mem)
unfolding init_cmd
init_takes_second = refl
