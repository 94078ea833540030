-- ===== src/Inet/Arp.antt =====
-- The packet that ac_arp_init writes.
use sadie.Prelude.{
  ℕ, ◌+◌, ◌*◌, ◌^◌, ◌≤◌, ◌<◌, ◌≡◌, refl, ◌∙◌, ◌⊎◌, inl, inr, arith, ◌==◌, if◌then◌else◌, Bool-cases,
}
use sadie.Word.{u8, null}
use sadie.Memory.{Memory}
use sadie.Memory.Blocks.{memcpy-copies, memset-fills}
use sadie.SwapBytes.Twice.{byte, swap_u16-bytes}
use sadie.Inet.{put_addr, put_arp, ac_arp_init, arp_len}

-- A source that is NULL, or that does not overlap what is written.
abbrev pub IsApart : (src len lo hi : ℕ) → Type 0
IsApart src len lo hi = (src ≡ null) ⊎ ((src + len ≤ lo) ⊎ (hi ≤ src))

-- The byte that belongs at index `i` of an address.
abbrev pub wanted : Memory → (src i : ℕ) → ℕ
wanted mem src i = if src == null then 0 else mem (src + i)

-- An address is written, and the rest is as it was.
put_addr-puts :
    (p src len : ℕ) (mem : Memory)
    → IsApart src len p (p + len)
    → ((i : ℕ) → i < len → put_addr p src len mem (p + i) ≡ wanted mem src i)
      × ((a : ℕ) → (a < p) ⊎ (p + len ≤ a) → put_addr p src len mem a ≡ mem a)
put_addr-puts p src len mem apart = elim (Bool-cases (src == null)) [
  | inl nil ↦ rw nil (memset-fills len p 0 mem)
  | inr given ↦ rw given (memcpy-copies len p src mem (ground arith))
]

put_arp-outside :
    (arp op hf hl pf pl : ℕ) (mem : Memory) (a : ℕ)
    → (a < arp) ⊎ (arp + arp_len ≤ a)
    → put_arp arp op hf hl pf pl mem a ≡ mem a
put_arp-outside arp op hf hl pf pl mem a out = ground arith

-- The fields in network order.
put_arp-fields :
    (arp op hf hl pf pl : ℕ) (mem : Memory)
    → let m = put_arp arp op hf hl pf pl mem in
      (m (arp + 0) ≡ byte hf 1)
      × (m (arp + 1) ≡ byte hf 0)
      × (m (arp + 2) ≡ byte pf 1)
      × (m (arp + 3) ≡ byte pf 0)
      × (m (arp + 4) ≡ hl)
      × (m (arp + 5) ≡ pl)
      × (m (arp + 6) ≡ byte op 1)
      × (m (arp + 7) ≡ byte op 0)
put_arp-fields arp op hf hl pf pl mem = (
  ground (arith, swap_u16-bytes hf),
  ground (arith, swap_u16-bytes hf),
  ground (arith, swap_u16-bytes pf),
  ground (arith, swap_u16-bytes pf),
  ground arith,
  ground arith,
  ground (arith, swap_u16-bytes op),
  ground (arith, swap_u16-bytes op),
)

module _ (arp op hf hl pf pl src_hard src_proto dst_hard dst_proto : ℕ) (mem : Memory)
    (hl_byte : hl < 2 ^ 8) (pl_byte : pl < 2 ^ 8) where
  abbrev end : ℕ
  end = arp + arp_len + hl + pl + hl + pl

  abbrev m0 : Memory
  m0 = put_arp arp op hf hl pf pl mem

  abbrev m1 : Memory
  m1 = put_addr (arp + arp_len) src_hard hl m0

  abbrev m2 : Memory
  m2 = put_addr (arp + arp_len + hl) src_proto pl m1

  abbrev m3 : Memory
  m3 = put_addr (arp + arp_len + hl + pl) dst_hard hl m2

  abbrev m4 : Memory
  m4 = put_addr (arp + arp_len + hl + pl + hl) dst_proto pl m3

  -- What is wanted of a source does not change where it is not written.
  wanted_same :
      (m : Memory) (src len hi i : ℕ)
      → IsApart src len arp end
      → hi ≤ end
      → i < len
      → ((a : ℕ) → (a < arp) ⊎ (hi ≤ a) → m a ≡ mem a)
      → wanted m src i ≡ wanted mem src i
  wanted_same m src len hi i apart le lt same = elim (Bool-cases (src == null)) [
    | inl nil ↦ rw nil refl
    | inr given ↦ rw given (same (src + i) (ground arith))
  ]

  within :
      (src len lo hi : ℕ) → arp ≤ lo → hi ≤ end → IsApart src len arp end → IsApart src len lo hi
  within src len lo hi le le' (inl nil) = inl nil
  within src len lo hi le le' (inr (inl below)) = inr (inl (omega arith))
  within src len lo hi le le' (inr (inr over)) = inr (inr (omega arith))

  -- The packet of RFC 826 at `arp`, in a memory that was `mem` before.
  pub record IsPacket (m : Memory) : Type 0 where
    pub frmt_hard : (m (arp + 0) ≡ byte hf 1) × (m (arp + 1) ≡ byte hf 0)
    pub frmt_proto : (m (arp + 2) ≡ byte pf 1) × (m (arp + 3) ≡ byte pf 0)
    pub lengths : (m (arp + 4) ≡ hl) × (m (arp + 5) ≡ pl)
    pub operation : (m (arp + 6) ≡ byte op 1) × (m (arp + 7) ≡ byte op 0)
    pub src_hard_addr : (i : ℕ) → i < hl → m (arp + 8 + i) ≡ wanted mem src_hard i
    pub src_proto_addr : (i : ℕ) → i < pl → m (arp + 8 + hl + i) ≡ wanted mem src_proto i
    pub dst_hard_addr : (i : ℕ) → i < hl → m (arp + 8 + hl + pl + i) ≡ wanted mem dst_hard i
    pub dst_proto_addr : (i : ℕ) → i < pl → m (arp + 8 + hl + pl + hl + i) ≡ wanted mem dst_proto i
    pub outside : (a : ℕ) → (a < arp) ⊎ (end ≤ a) → m a ≡ mem a

  m4-IsPacket :
      IsApart src_hard hl arp end
      → IsApart src_proto pl arp end
      → IsApart dst_hard hl arp end
      → IsApart dst_proto pl arp end
      → IsPacket m4
  m4-IsPacket sh sp dh dp =
      let a1 = arp + arp_len in
      let a2 = a1 + hl in
      let a3 = a2 + pl in
      let a4 = a3 + hl in
      let r1 =
        put_addr-puts a1 src_hard hl m0 (within src_hard hl a1 a2 (omega arith) (omega arith) sh) in
      let r2 =
        put_addr-puts a2 src_proto pl m1
          (within src_proto pl a2 a3 (omega arith) (omega arith) sp) in
      let r3 =
        put_addr-puts a3 dst_hard hl m2 (within dst_hard hl a3 a4 (omega arith) (omega arith) dh) in
      let r4 =
        put_addr-puts a4 dst_proto pl m3
          (within dst_proto pl a4 end (omega arith) (omega arith) dp) in
      let o0 : ((a : ℕ) → (a < arp) ⊎ (a1 ≤ a) → m0 a ≡ mem a) =
        put_arp-outside arp op hf hl pf pl mem in
      let o1 : ((a : ℕ) → (a < arp) ⊎ (a2 ≤ a) → m1 a ≡ mem a) =
        λ a out. r1.1 a (omega arith) ∙ o0 a (omega arith) in
      let o2 : ((a : ℕ) → (a < arp) ⊎ (a3 ≤ a) → m2 a ≡ mem a) =
        λ a out. r2.1 a (omega arith) ∙ o1 a (omega arith) in
      let o3 : ((a : ℕ) → (a < arp) ⊎ (a4 ≤ a) → m3 a ≡ mem a) =
        λ a out. r3.1 a (omega arith) ∙ o2 a (omega arith) in
      let keep : ((i : ℕ) → i < arp_len → m4 (arp + i) ≡ m0 (arp + i)) = λ i lt.
        r4.1 (arp + i) (omega arith)
        ∙ r3.1 (arp + i) (omega arith)
        ∙ r2.1 (arp + i) (omega arith)
        ∙ r1.1 (arp + i) (omega arith) in
      let f = put_arp-fields arp op hf hl pf pl mem in
      record {
        frmt_hard = (keep 0 (omega arith) ∙ f.0, keep 1 (omega arith) ∙ f.1);
        frmt_proto = (keep 2 (omega arith) ∙ f.2, keep 3 (omega arith) ∙ f.3);
        lengths = (keep 4 (omega arith) ∙ f.4, keep 5 (omega arith) ∙ f.5);
        operation = (keep 6 (omega arith) ∙ f.6, keep 7 (omega arith) ∙ f.7);
        src_hard_addr = λ i lt.
            r4.1 (a1 + i) (omega arith)
            ∙ r3.1 (a1 + i) (omega arith)
            ∙ r2.1 (a1 + i) (omega arith)
            ∙ r1.0 i lt
            ∙ wanted_same m0 src_hard hl a1 i sh (omega arith) lt o0;
        src_proto_addr = λ i lt.
            r4.1 (a2 + i) (omega arith)
            ∙ r3.1 (a2 + i) (omega arith)
            ∙ r2.0 i lt
            ∙ wanted_same m1 src_proto pl a2 i sp (omega arith) lt o1;
        dst_hard_addr = λ i lt.
            r4.1 (a3 + i) (omega arith)
            ∙ r3.0 i lt
            ∙ wanted_same m2 dst_hard hl a3 i dh (omega arith) lt o2;
        dst_proto_addr =
            λ i lt. r4.0 i lt ∙ wanted_same m3 dst_proto pl a4 i dp (omega arith) lt o3;
        outside = λ a out. r4.1 a (omega arith) ∙ o3 a (omega arith);
      }

  -- For lengths that are bytes, and sources that do not overlap the packet, ac_arp_init writes the
  -- packet of RFC 826, its fields in network order and zeros for a source that is NULL, and nothing
  -- else, and returns its length, which is 8 and twice both lengths.
  pub ac_arp_init-IsPacket :
      IsApart src_hard hl arp end
      → IsApart src_proto pl arp end
      → IsApart dst_hard hl arp end
      → IsApart dst_proto pl arp end
      → let r = ac_arp_init arp op hf hl pf pl src_hard src_proto dst_hard dst_proto mem in
        (r.0 ≡ 8 + 2 * (hl + pl)) × IsPacket r.1
  unfolding ac_arp_init
  ac_arp_init-IsPacket sh sp dh dp =
      let h : u8 hl ≡ hl = omega arith in
      let p : u8 pl ≡ pl = omega arith in rw (h, p) (omega arith, m4-IsPacket sh sp dh dp)
