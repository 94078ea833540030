-- ===== src/SwapBytes/Twice.antt =====
-- The bytes of a number in reverse, for libs/ac_swap_bytes/incs/ac_swap_bytes.h.
use Prim.Native.Nat.{bit_and, bit_or}
use sadie.Prelude.{ℕ, ◌+◌, ◌*◌, ◌/◌, ◌%◌, ◌^◌, ◌<◌, ◌≡◌, refl, ◌∙◌, arith, ap}
use sadie.Prelude.Bits.{bit_and-ones, bit_and_high, bit_or-shifted}
use sadie.SwapBytes.{swap_u16, swap_u32, swap_u64}

-- Byte `i` of `v`.
abbrev pub byte : (v i : ℕ) → ℕ
byte v i = v / 2 ^ (8 * i) % 2 ^ 8

-- A number whose low `k` bits are 0, and one below 2 ^ k.
or_add : (k hi x lo : ℕ) → x ≡ hi * 2 ^ k → lo < 2 ^ k → bit_or x lo ≡ x + lo
or_add k hi x lo e low = rw e (bit_or-shifted k hi lo low)

pub swap_u16-bytes : (v : ℕ) → swap_u16 v ≡ byte v 0 * 2 ^ 8 + byte v 1
unfolding swap_u16
swap_u16-bytes v =
    let w = v % 2 ^ 16 in
    let a : bit_and w 0x00ff ≡ byte v 0 = bit_and-ones 8 w ∙ omega arith in
    let b : bit_and w 0xff00 ≡ byte v 1 * 2 ^ 8 = bit_and_high 8 16 w (omega arith) ∙ omega arith in
    rw (a, b)
      (ap (λ (t : ℕ). t % 2 ^ 16)
          (or_add 8 (byte v 0) (byte v 0 * 2 ^ 8) (byte v 1 * 2 ^ 8 / 2 ^ 8) refl (omega arith))
        ∙ omega arith)

pub swap_u32-bytes :
    (v : ℕ) → swap_u32 v ≡ byte v 0 * 2 ^ 24 + byte v 1 * 2 ^ 16 + byte v 2 * 2 ^ 8 + byte v 3
unfolding swap_u32
swap_u32-bytes v =
    let w = v % 2 ^ 32 in
    let m0 : bit_and w 0x0000_00ff ≡ byte v 0 = bit_and-ones 8 w ∙ omega arith in
    let m1 : bit_and w 0x0000_ff00 ≡ byte v 1 * 2 ^ 8 =
      bit_and_high 8 16 w (omega arith) ∙ omega arith in
    let m2 : bit_and w 0x00ff_0000 ≡ byte v 2 * 2 ^ 16 =
      bit_and_high 16 24 w (omega arith) ∙ omega arith in
    let m3 : bit_and w 0xff00_0000 ≡ byte v 3 * 2 ^ 24 =
      bit_and_high 24 32 w (omega arith) ∙ omega arith in
    let t0 : byte v 0 * 2 ^ 24 % 2 ^ 32 ≡ byte v 0 * 2 ^ 24 = omega arith in
    let t1 : (byte v 1 * 2 ^ 8) * 2 ^ 8 % 2 ^ 32 ≡ byte v 1 * 2 ^ 16 = omega arith in
    let t2 : byte v 2 * 2 ^ 16 / 2 ^ 8 ≡ byte v 2 * 2 ^ 8 = omega arith in
    let t3 : byte v 3 * 2 ^ 24 / 2 ^ 24 ≡ byte v 3 = omega arith in
    let f1 =
      or_add 24 (byte v 0) (byte v 0 * 2 ^ 24) (byte v 1 * 2 ^ 16) (omega arith) (omega arith) in
    let f2 =
      or_add 16 (byte v 0 * 2 ^ 8 + byte v 1) (byte v 0 * 2 ^ 24 + byte v 1 * 2 ^ 16)
        (byte v 2 * 2 ^ 8) (omega arith) (omega arith) in
    let f3 =
      or_add 8 (byte v 0 * 2 ^ 16 + byte v 1 * 2 ^ 8 + byte v 2)
        (byte v 0 * 2 ^ 24 + byte v 1 * 2 ^ 16 + byte v 2 * 2 ^ 8) (byte v 3) (omega arith)
        (omega arith) in
    rw (m0, m1, m2, m3, t0, t1, t2, t3, f1, f2, f3) refl

swap_u64-bytes :
    (v : ℕ)
    → swap_u64 v
      ≡ byte v 0 * 2 ^ 56
        + byte v 1 * 2 ^ 48
        + byte v 2 * 2 ^ 40
        + byte v 3 * 2 ^ 32
        + byte v 4 * 2 ^ 24
        + byte v 5 * 2 ^ 16
        + byte v 6 * 2 ^ 8
        + byte v 7
unfolding swap_u64
swap_u64-bytes v =
    let w = v % 2 ^ 64 in
    let m0 : bit_and w 0x0000_0000_0000_00ff ≡ byte v 0 = bit_and-ones 8 w ∙ omega arith in
    let m1 : bit_and w 0x0000_0000_0000_ff00 ≡ byte v 1 * 2 ^ 8 =
      bit_and_high 8 16 w (omega arith) ∙ omega arith in
    let m2 : bit_and w 0x0000_0000_00ff_0000 ≡ byte v 2 * 2 ^ 16 =
      bit_and_high 16 24 w (omega arith) ∙ omega arith in
    let m3 : bit_and w 0x0000_0000_ff00_0000 ≡ byte v 3 * 2 ^ 24 =
      bit_and_high 24 32 w (omega arith) ∙ omega arith in
    let m4 : bit_and w 0x0000_00ff_0000_0000 ≡ byte v 4 * 2 ^ 32 =
      bit_and_high 32 40 w (omega arith) ∙ omega arith in
    let m5 : bit_and w 0x0000_ff00_0000_0000 ≡ byte v 5 * 2 ^ 40 =
      bit_and_high 40 48 w (omega arith) ∙ omega arith in
    let m6 : bit_and w 0x00ff_0000_0000_0000 ≡ byte v 6 * 2 ^ 48 =
      bit_and_high 48 56 w (omega arith) ∙ omega arith in
    let m7 : bit_and w 0xff00_0000_0000_0000 ≡ byte v 7 * 2 ^ 56 =
      bit_and_high 56 64 w (omega arith) ∙ omega arith in
    let t0 : byte v 0 * 2 ^ 56 % 2 ^ 64 ≡ byte v 0 * 2 ^ 56 = omega arith in
    let t1 : (byte v 1 * 2 ^ 8) * 2 ^ 40 % 2 ^ 64 ≡ byte v 1 * 2 ^ 48 = omega arith in
    let t2 : (byte v 2 * 2 ^ 16) * 2 ^ 24 % 2 ^ 64 ≡ byte v 2 * 2 ^ 40 = omega arith in
    let t3 : (byte v 3 * 2 ^ 24) * 2 ^ 8 % 2 ^ 64 ≡ byte v 3 * 2 ^ 32 = omega arith in
    let t4 : byte v 4 * 2 ^ 32 / 2 ^ 8 ≡ byte v 4 * 2 ^ 24 = omega arith in
    let t5 : byte v 5 * 2 ^ 40 / 2 ^ 24 ≡ byte v 5 * 2 ^ 16 = omega arith in
    let t6 : byte v 6 * 2 ^ 48 / 2 ^ 40 ≡ byte v 6 * 2 ^ 8 = omega arith in
    let t7 : byte v 7 * 2 ^ 56 / 2 ^ 56 ≡ byte v 7 = omega arith in
    let f1 =
      or_add 56 (byte v 0) (byte v 0 * 2 ^ 56) (byte v 1 * 2 ^ 48) (omega arith) (omega arith) in
    let f2 =
      or_add 48 (byte v 0 * 2 ^ 8 + byte v 1) (byte v 0 * 2 ^ 56 + byte v 1 * 2 ^ 48)
        (byte v 2 * 2 ^ 40) (omega arith) (omega arith) in
    let f3 =
      or_add 40 (byte v 0 * 2 ^ 16 + byte v 1 * 2 ^ 8 + byte v 2)
        (byte v 0 * 2 ^ 56 + byte v 1 * 2 ^ 48 + byte v 2 * 2 ^ 40) (byte v 3 * 2 ^ 32)
        (omega arith) (omega arith) in
    let f4 =
      or_add 32 (byte v 0 * 2 ^ 24 + byte v 1 * 2 ^ 16 + byte v 2 * 2 ^ 8 + byte v 3)
        (byte v 0 * 2 ^ 56 + byte v 1 * 2 ^ 48 + byte v 2 * 2 ^ 40 + byte v 3 * 2 ^ 32)
        (byte v 4 * 2 ^ 24) (omega arith) (omega arith) in
    let f5 =
      or_add 24
        (byte v 0 * 2 ^ 32 + byte v 1 * 2 ^ 24 + byte v 2 * 2 ^ 16 + byte v 3 * 2 ^ 8 + byte v 4)
        (byte v 0 * 2 ^ 56
          + byte v 1 * 2 ^ 48
          + byte v 2 * 2 ^ 40
          + byte v 3 * 2 ^ 32
          + byte v 4 * 2 ^ 24)
        (byte v 5 * 2 ^ 16) (omega arith) (omega arith) in
    let f6 =
      or_add 16
        (byte v 0 * 2 ^ 40
          + byte v 1 * 2 ^ 32
          + byte v 2 * 2 ^ 24
          + byte v 3 * 2 ^ 16
          + byte v 4 * 2 ^ 8
          + byte v 5)
        (byte v 0 * 2 ^ 56
          + byte v 1 * 2 ^ 48
          + byte v 2 * 2 ^ 40
          + byte v 3 * 2 ^ 32
          + byte v 4 * 2 ^ 24
          + byte v 5 * 2 ^ 16)
        (byte v 6 * 2 ^ 8) (omega arith) (omega arith) in
    let f7 =
      or_add 8
        (byte v 0 * 2 ^ 48
          + byte v 1 * 2 ^ 40
          + byte v 2 * 2 ^ 32
          + byte v 3 * 2 ^ 24
          + byte v 4 * 2 ^ 16
          + byte v 5 * 2 ^ 8
          + byte v 6)
        (byte v 0 * 2 ^ 56
          + byte v 1 * 2 ^ 48
          + byte v 2 * 2 ^ 40
          + byte v 3 * 2 ^ 32
          + byte v 4 * 2 ^ 24
          + byte v 5 * 2 ^ 16
          + byte v 6 * 2 ^ 8)
        (byte v 7) (omega arith) (omega arith) in
    rw (m0, m1, m2, m3, m4, m5, m6, m7, t0, t1, t2, t3, t4, t5, t6, t7, f1, f2, f3, f4, f5, f6, f7)
      refl

-- Eight bytes, read again one by one in reverse.
module _ (a0 a1 a2 a3 a4 a5 a6 a7 : ℕ) where
  abbrev joined : ℕ
  joined =
      a0 * 2 ^ 56
      + a1 * 2 ^ 48
      + a2 * 2 ^ 40
      + a3 * 2 ^ 32
      + a4 * 2 ^ 24
      + a5 * 2 ^ 16
      + a6 * 2 ^ 8
      + a7

  digit_0 : a7 < 2 ^ 8 → byte joined 0 ≡ a7
  digit_0 h7 = omega arith

  digit_1 : a6 < 2 ^ 8 → a7 < 2 ^ 8 → byte joined 1 ≡ a6
  digit_1 h6 h7 = omega arith

  digit_2 : a5 < 2 ^ 8 → a6 < 2 ^ 8 → a7 < 2 ^ 8 → byte joined 2 ≡ a5
  digit_2 h5 h6 h7 = omega arith

  digit_3 : a4 < 2 ^ 8 → a5 < 2 ^ 8 → a6 < 2 ^ 8 → a7 < 2 ^ 8 → byte joined 3 ≡ a4
  digit_3 h4 h5 h6 h7 = omega arith

  digit_4 : a3 < 2 ^ 8 → a4 < 2 ^ 8 → a5 < 2 ^ 8 → a6 < 2 ^ 8 → a7 < 2 ^ 8 → byte joined 4 ≡ a3
  digit_4 h3 h4 h5 h6 h7 = omega arith

  digit_5 :
      a2 < 2 ^ 8
      → a3 < 2 ^ 8
      → a4 < 2 ^ 8
      → a5 < 2 ^ 8
      → a6 < 2 ^ 8
      → a7 < 2 ^ 8
      → byte joined 5 ≡ a2
  digit_5 h2 h3 h4 h5 h6 h7 = omega arith

  digit_6 :
      a1 < 2 ^ 8
      → a2 < 2 ^ 8
      → a3 < 2 ^ 8
      → a4 < 2 ^ 8
      → a5 < 2 ^ 8
      → a6 < 2 ^ 8
      → a7 < 2 ^ 8
      → byte joined 6 ≡ a1
  digit_6 h1 h2 h3 h4 h5 h6 h7 = omega arith

  digit_7 :
      a0 < 2 ^ 8
      → a1 < 2 ^ 8
      → a2 < 2 ^ 8
      → a3 < 2 ^ 8
      → a4 < 2 ^ 8
      → a5 < 2 ^ 8
      → a6 < 2 ^ 8
      → a7 < 2 ^ 8
      → byte joined 7 ≡ a0
  digit_7 h0 h1 h2 h3 h4 h5 h6 h7 = omega arith

whole :
    (v : ℕ)
    → v < 2 ^ 64
    → byte v 7 * 2 ^ 56
        + byte v 6 * 2 ^ 48
        + byte v 5 * 2 ^ 40
        + byte v 4 * 2 ^ 32
        + byte v 3 * 2 ^ 24
        + byte v 2 * 2 ^ 16
        + byte v 1 * 2 ^ 8
        + byte v 0
      ≡ v
whole v small = omega arith

swap_u64-twice : (v : ℕ) → v < 2 ^ 64 → swap_u64 (swap_u64 v) ≡ v
swap_u64-twice v small =
    let e = swap_u64-bytes v in
    let d0 =
      digit_0 (byte v 0) (byte v 1) (byte v 2) (byte v 3) (byte v 4) (byte v 5) (byte v 6)
        (byte v 7) (omega arith) in
    let d1 =
      digit_1 (byte v 0) (byte v 1) (byte v 2) (byte v 3) (byte v 4) (byte v 5) (byte v 6)
        (byte v 7) (omega arith) (omega arith) in
    let d2 =
      digit_2 (byte v 0) (byte v 1) (byte v 2) (byte v 3) (byte v 4) (byte v 5) (byte v 6)
        (byte v 7) (omega arith) (omega arith) (omega arith) in
    let d3 =
      digit_3 (byte v 0) (byte v 1) (byte v 2) (byte v 3) (byte v 4) (byte v 5) (byte v 6)
        (byte v 7) (omega arith) (omega arith) (omega arith) (omega arith) in
    let d4 =
      digit_4 (byte v 0) (byte v 1) (byte v 2) (byte v 3) (byte v 4) (byte v 5) (byte v 6)
        (byte v 7) (omega arith) (omega arith) (omega arith) (omega arith) (omega arith) in
    let d5 =
      digit_5 (byte v 0) (byte v 1) (byte v 2) (byte v 3) (byte v 4) (byte v 5) (byte v 6)
        (byte v 7) (omega arith) (omega arith) (omega arith) (omega arith) (omega arith)
        (omega arith) in
    let d6 =
      digit_6 (byte v 0) (byte v 1) (byte v 2) (byte v 3) (byte v 4) (byte v 5) (byte v 6)
        (byte v 7) (omega arith) (omega arith) (omega arith) (omega arith) (omega arith)
        (omega arith) (omega arith) in
    let d7 =
      digit_7 (byte v 0) (byte v 1) (byte v 2) (byte v 3) (byte v 4) (byte v 5) (byte v 6)
        (byte v 7) (omega arith) (omega arith) (omega arith) (omega arith) (omega arith)
        (omega arith) (omega arith) (omega arith) in
    swap_u64-bytes (swap_u64 v) ∙ rw (e, d0, d1, d2, d3, d4, d5, d6, d7) (whole v small)

-- Swapping reverses the order of the bytes of a number of 16, 32 or 64 bits, the lowest first, and
-- swapping twice gives the number back.
pub swap-reverses :
    (v : ℕ)
    → (swap_u16 v ≡ byte v 0 * 2 ^ 8 + byte v 1)
      × (swap_u32 v ≡ byte v 0 * 2 ^ 24 + byte v 1 * 2 ^ 16 + byte v 2 * 2 ^ 8 + byte v 3)
      × (swap_u64 v
          ≡ byte v 0 * 2 ^ 56
            + byte v 1 * 2 ^ 48
            + byte v 2 * 2 ^ 40
            + byte v 3 * 2 ^ 32
            + byte v 4 * 2 ^ 24
            + byte v 5 * 2 ^ 16
            + byte v 6 * 2 ^ 8
            + byte v 7)
      × (swap_u16 (swap_u16 v) ≡ v % 2 ^ 16)
      × (swap_u32 (swap_u32 v) ≡ v % 2 ^ 32)
      × (swap_u64 (swap_u64 (v % 2 ^ 64)) ≡ v % 2 ^ 64)
swap-reverses v = (
  swap_u16-bytes v,
  swap_u32-bytes v,
  swap_u64-bytes v,
  swap_u16-bytes (swap_u16 v) ∙ omega (arith, swap_u16-bytes v),
  swap_u32-bytes (swap_u32 v) ∙ omega (arith, swap_u32-bytes v),
  swap_u64-twice (v % 2 ^ 64) (omega arith),
)
