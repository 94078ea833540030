-- ===== src/Time/Split.antt =====
-- Years, days, hours, minutes and seconds.
use native.Mathlib.Nat.{div-add-mod, mod-lt}
use sadie.Prelude.{dec_lt, true, false, ℕ, ◌+◌, ◌*◌, ◌/◌, ◌%◌, ◌<◌, ◌≡◌, leb, if◌then◌else◌, arith}

pub record Duration : Type 0 where
  pub years : ℕ
  pub days : ℕ
  pub hrs : ℕ
  pub mins : ℕ
  pub secs : ℕ

-- A unit is split off if there is a whole one: how many, and the seconds left.
abbrev pub split_off : (unit secs : ℕ) → ℕ × ℕ
split_off unit secs = if leb unit secs then (secs / unit, secs % unit) else (0, secs)

-- The middle part of `AcTime_ticks_to_duration_str`.
unfoldable pub split : (secs : ℕ) → Duration
split secs =
    let y = split_off 31536000 secs in
    let d = split_off 86400 y.1 in
    let h = split_off 3600 d.1 in
    let m = split_off 60 h.1 in
    record { years = y.0; days = d.0; hrs = h.0; mins = m.0; secs = m.1 }

abbrev pub total : Duration → ℕ
total d = 31536000 * d.years + 86400 * d.days + 3600 * d.hrs + 60 * d.mins + d.secs

split_off_lem :
    (unit secs : ℕ)
    → 0 < unit
    → let r = split_off unit secs in (unit * r.0 + r.1 ≡ secs) × (r.1 < unit)
split_off_lem unit secs some_unit = elim (dec_lt secs unit) [
  | yes few ↦ let t : leb unit secs ≡ false = ground arith in rw t (omega arith, few)
  | no many ↦
      let t : leb unit secs ≡ true = ground arith in
      rw t (div-add-mod secs unit, mod-lt secs some_unit)
]

parts :
    {secs : ℕ} (y d h m : ℕ × ℕ)
    → (31536000 * y.0 + y.1 ≡ secs) × (y.1 < 31536000)
    → (86400 * d.0 + d.1 ≡ y.1) × (d.1 < 86400)
    → (3600 * h.0 + h.1 ≡ d.1) × (h.1 < 3600)
    → (60 * m.0 + m.1 ≡ h.1) × (m.1 < 60)
    → (31536000 * y.0 + 86400 * d.0 + 3600 * h.0 + 60 * m.0 + m.1 ≡ secs)
      × (d.0 < 365)
      × (h.0 < 24)
      × (m.0 < 60)
      × (m.1 < 60)
parts y d h m ey ed eh em = omega (arith, ey, ed, eh, em)

-- The parts make up the seconds, and each is less than one of the next.
pub total-split :
    (secs : ℕ)
    → let d = split secs in
      (total d ≡ secs) × (d.days < 365) × (d.hrs < 24) × (d.mins < 60) × (d.secs < 60)
unfolding split
total-split secs =
    let y = split_off_lem 31536000 secs (omega arith) in
    let ys = (split_off 31536000 secs).1 in
    let d = split_off_lem 86400 ys (omega arith) in
    let ds = (split_off 86400 ys).1 in
    let h = split_off_lem 3600 ds (omega arith) in
    let hs = (split_off 3600 ds).1 in
    let m = split_off_lem 60 hs (omega arith) in
    parts (split_off 31536000 secs) (split_off 86400 ys) (split_off 3600 ds) (split_off 60 hs) y d h
      m
