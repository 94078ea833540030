-- ===== src/Memory/Tests.antt =====
-- The theorems on the memory functions at a small memory.
use sadie.Prelude.{◌≡◌, refl, ◌||◌, ◌==◌, if◌then◌else◌}
use sadie.Prelude.Int.{pos}
use sadie.Memory.{Memory, strncmp}

-- At 100 the string "ab", at 200 the string "abc", elsewhere 0.
abbrev mem : Memory
mem a =
    if a == 100 || a == 200
    then 97
    else (if a == 101 || a == 201 then 98 else (if a == 202 then 99 else 0))

strncmp_run : strncmp 2 100 200 mem ≡ pos 0
unfolding strncmp
strncmp_run = refl
