-- ===== src/Memory.antt =====
-- The byte loops of libs/ac_memcpy, ac_memset, ac_memcmp, ac_check_sum and ac_string, over a memory
-- of bytes by address. `char` is signed, as on x86.
pub mod Blocks
pub mod Strings
mod Tests
use sadie.Prelude.{ℕ, zero, suc, ◌+◌, ◌-◌, Option, none, some, ◌==◌, leb, if◌then◌else◌}
use sadie.Prelude.Int.{ℤ, pos, negsuc, ◌-ℤ◌}
use sadie.Word.{u8}

abbrev pub Memory : Type 0
Memory = ℕ → ℕ

abbrev pub store : Memory → (address byte : ℕ) → Memory
store mem a b j = if j == a then b else mem j

-- `ac_memcpy`
unfoldable pub memcpy : (count dest src : ℕ) → Memory → Memory
memcpy zero dest src mem = mem
memcpy (suc count) dest src mem = memcpy count (dest + 1) (src + 1) (store mem dest (mem src))

-- `ac_memset`
unfoldable pub memset : (count s val : ℕ) → Memory → Memory
memset zero s val mem = mem
memset (suc count) s val mem = memset count (s + 1) val (store mem s (u8 val))

-- `ac_memcmp`
unfoldable pub memcmp : (count s1 s2 : ℕ) → Memory → ℤ
unfolding ◌-ℤ◌
memcmp zero s1 s2 mem = pos 0
memcmp (suc count) s1 s2 mem =
    let rest = memcmp count (s1 + 1) (s2 + 1) mem in
    if mem s1 == mem s2 then rest else pos (mem s1) -ℤ pos (mem s2)

-- The loop of `ac_check_sum_u8`, with the sum so far.
unfoldable pub check_sum : (len p sum : ℕ) → Memory → ℕ
check_sum zero p sum mem = sum
check_sum (suc len) p sum mem = check_sum len (p + 1) (u8 (sum + mem p)) mem

-- A byte as a `char`.
abbrev pub char : ℕ → ℤ
char b = if leb 128 b then negsuc (255 - b) else pos b

-- `ac_strlen` of a string that is not NULL, on fuel; the result stays below 2 ^ 31.
unfoldable pub strlen : (fuel str : ℕ) → Memory → Option ℕ
strlen zero str mem = none
strlen (suc fuel) str mem =
    let rest = strlen fuel (str + 1) mem in
    if mem str == 0 then some 0 else elim rest [ none ↦ none | some n ↦ some (suc n) ]

-- `ac_strncmp`, for a `num` below 2 ^ 31. Two bytes have the difference 0 only if they are equal.
unfoldable pub strncmp : (num str1 str2 : ℕ) → Memory → ℤ
unfolding ◌-ℤ◌
strncmp zero str1 str2 mem = pos 0
strncmp (suc num) str1 str2 mem =
    let rest = strncmp num (str1 + 1) (str2 + 1) mem in
    if mem str1 == mem str2
    then (if mem str1 == 0 then pos 0 else rest)
    else char (mem str1) -ℤ char (mem str2)

-- `ac_strncpy`: the copying loop, then the loop that pads, from index `i` on.
unfoldable pub pad : (rounds dst i : ℕ) → Memory → Memory
pad zero dst i mem = mem
pad (suc rounds) dst i mem = pad rounds dst (i + 1) (store mem (dst + i) 0)

unfoldable pub strncpy : (rounds dst src i : ℕ) → Memory → Memory
unfolding pad
strncpy zero dst src i mem = mem
strncpy (suc rounds) dst src i mem =
    let copied = store mem (dst + i) (mem (src + i)) in
    let rest = strncpy rounds dst src (i + 1) copied in
    if mem (src + i) == 0 then pad (suc rounds) dst i copied else rest
