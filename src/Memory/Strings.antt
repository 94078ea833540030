-- ===== src/Memory/Strings.antt =====
-- What the string functions and the comparison of blocks come to.
use sadie.Prelude.{
  ℕ, zero, suc, ◌+◌, ◌^◌, ◌≤◌, ◌<◌, ◌≡◌, ◌≢◌, refl, ◌∙◌, ◌⊎◌, ◌↔◌, true, false, some, arith, ◌==◌,
  ℕ_discrete,
}
use sadie.Prelude.Int.{pos, ◌-ℤ◌}
use sadie.Memory.{Memory, store, char, strlen, strncmp, pad, strncpy}

-- A string of `n` characters before its NUL has length `n`, with fuel for them and the NUL.
pub strlen-some :
    (n fuel str : ℕ) (mem : Memory)
    → ((i : ℕ) → i < n → mem (str + i) ≢ 0)
    → mem (str + n) ≡ 0
    → n < fuel
    → strlen fuel str mem ≡ some n
unfolding strlen
strlen-some n zero str mem chars nul lt = absurd (omega arith)
strlen-some zero (suc fuel) str mem chars nul lt =
    let t : (mem str == 0) ≡ true = ground (arith, nul) in rw t
strlen-some (suc n) (suc fuel) str mem chars nul lt =
    let at : str + 0 ≡ str = omega arith in
    let some_char : mem str ≢ 0 = rw at at (chars 0 (omega arith)) in
    let t : (mem str == 0) ≡ false = ground arith in
    let r =
      strlen-some n fuel (str + 1) mem
        (λ i lt.
          let e : str + 1 + i ≡ str + suc i = omega arith in rw e (chars (suc i) (omega arith)))
        (let e : str + 1 + n ≡ str + suc n = omega arith in rw e nul) (omega arith) in
    rw (t, r)

-- Up to `num` characters, or the end of the first string, the strings agree.
abbrev pub Agree : (num str1 str2 : ℕ) → Memory → Type 0
Agree num s t mem =
    (i : ℕ) → i < num → ((j : ℕ) → j < i → mem (s + j) ≢ 0) → mem (s + i) ≡ mem (t + i)

chars_differ : (a b : ℕ) → a < 2 ^ 8 → b < 2 ^ 8 → a ≢ b → char a -ℤ char b ≢ pos 0
unfolding ◌-ℤ◌
chars_differ a b ha hb ne = ground arith

Agree-first : (num s t : ℕ) (mem : Memory) → Agree (suc num) s t mem → mem s ≡ mem t
Agree-first num s t mem agree =
    let e : s + 0 ≡ s = omega arith in
    let e' : t + 0 ≡ t = omega arith in
    rw (e, e') at (agree 0 (omega arith) (λ j lt. absurd (omega arith)))

Agree-rest :
    (num s t : ℕ) (mem : Memory)
    → mem s ≢ 0
    → Agree (suc num) s t mem
    → Agree num (s + 1) (t + 1) mem
Agree-rest num s t mem ne agree i lt before =
    let e : s + 1 + i ≡ s + suc i = omega arith in
    let e' : t + 1 + i ≡ t + suc i = omega arith in
    rw (e, e')
      (agree (suc i) (omega arith) (elim [
        | zero ↦ λ lt'. let at : s + 0 ≡ s = omega arith in rw at ne
        | suc j ↦
            λ lt'. let at : s + suc j ≡ s + 1 + j = omega arith in rw at (before j (omega arith))
      ]))

Agree-extend :
    (num s t : ℕ) (mem : Memory)
    → mem s ≡ mem t
    → (mem s ≢ 0 → Agree num (s + 1) (t + 1) mem)
    → Agree (suc num) s t mem
Agree-extend num s t mem first rest zero lt before =
    let e : s + 0 ≡ s = omega arith in let e' : t + 0 ≡ t = omega arith in rw (e, e') first
Agree-extend num s t mem first rest (suc i) lt before =
    let e : s + suc i ≡ s + 1 + i = omega arith in
    let e' : t + suc i ≡ t + 1 + i = omega arith in
    let e0 : s + 0 ≡ s = omega arith in
    rw (e, e')
      (rest (rw e0 at (before 0 (omega arith))) i (omega arith) (λ j lt'.
        let at : s + 1 + j ≡ s + suc j = omega arith in rw at (before (suc j) (omega arith))))

-- For strings of bytes the result is 0 exactly when the strings agree up to `num` characters.
strncmp_iff :
    (num s t : ℕ) (mem : Memory)
    → ((a : ℕ) → mem a < 2 ^ 8)
    → (strncmp num s t mem ≡ pos 0) ↔ Agree num s t mem
unfolding strncmp
strncmp_iff zero s t mem bytes = (λ e i lt. absurd (omega arith), λ agree. refl)
strncmp_iff (suc num) s t mem bytes = elim (ℕ_discrete (mem s) (mem t)) [
  | no ne ↦
      let differ = chars_differ (mem s) (mem t) (bytes s) (bytes t) ne in
      let test : (mem s == mem t) ≡ false = ground arith in
      rw test (λ e. absurd (differ e), λ agree. absurd (ne (Agree-first num s t mem agree)))
  | yes same ↦
      let test : (mem s == mem t) ≡ true = ground arith in
      let rest = strncmp_iff num (s + 1) (t + 1) mem bytes in
      elim (ℕ_discrete (mem s) 0) [
        | yes nul ↦
            let ended : (mem s == 0) ≡ true = ground arith in
            rw (test, ended)
              (λ e. Agree-extend num s t mem same (λ ne. absurd (ne nul)), λ agree. refl)
        | no some_char ↦
            let going : (mem s == 0) ≡ false = ground arith in
            rw (test, going)
              (
                λ e. Agree-extend num s t mem same (λ ne. rest.0 e),
                λ agree. rest.1 (Agree-rest num s t mem some_char agree),
              )
      ]
]

pad-zeros :
    (rounds dst i : ℕ) (mem : Memory)
    → ((k : ℕ) → k < rounds → pad rounds dst i mem (dst + i + k) ≡ 0)
      × ((a : ℕ) → (a < dst + i) ⊎ (dst + i + rounds ≤ a) → pad rounds dst i mem a ≡ mem a)
unfolding pad
pad-zeros zero dst i mem = (λ k lt. absurd (omega arith), λ a out. refl)
pad-zeros (suc rounds) dst i mem =
    let r = pad-zeros rounds dst (i + 1) (store mem (dst + i) 0) in
    (
      elim [
        | zero ↦ λ lt. ground (arith, r.1 (dst + i))
        | suc k ↦ λ lt.
            let at : dst + i + suc k ≡ dst + (i + 1) + k = omega arith in
            rw at (r.0 k (omega arith))
      ],
      λ a out. r.1 a (omega arith) ∙ ground arith,
    )

-- For a source of `n` characters before its NUL that does not overlap the destination, the `num`
-- bytes of the destination hold the characters that fit, then zeros; the rest is as it was.
strncpy-copies :
    (num dst src i n : ℕ) (mem : Memory)
    → ((k : ℕ) → k < n → mem (src + i + k) ≢ 0)
    → mem (src + i + n) ≡ 0
    → (dst + i + num ≤ src + i) ⊎ (src + i + n < dst + i)
    → ((k : ℕ) → k < num → k < n → strncpy num dst src i mem (dst + i + k) ≡ mem (src + i + k))
      × ((k : ℕ) → k < num → n ≤ k → strncpy num dst src i mem (dst + i + k) ≡ 0)
      × ((a : ℕ) → (a < dst + i) ⊎ (dst + i + num ≤ a) → strncpy num dst src i mem a ≡ mem a)
unfolding strncpy
strncpy-copies zero dst src i n mem chars nul apart =
    (λ k lt in_str. absurd (omega arith), λ k lt past. absurd (omega arith), λ a out. refl)
strncpy-copies (suc num) dst src i zero mem chars nul apart =
    let at : src + i + 0 ≡ src + i = omega arith in
    let ended : mem (src + i) ≡ 0 = rw at at nul in
    let test : (mem (src + i) == 0) ≡ true = rw ended in
    let r = pad-zeros (suc num) dst i (store mem (dst + i) (mem (src + i))) in
    rw test (
      λ k lt in_str. absurd (omega arith),
      λ k lt past. r.0 k lt,
      λ a out. r.1 a out ∙ ground arith,
    )
strncpy-copies (suc num) dst src i (suc n) mem chars nul apart =
    let at0 : src + i + 0 ≡ src + i = omega arith in
    let some_char : mem (src + i) ≢ 0 = rw at0 at (chars 0 (omega arith)) in
    let test : (mem (src + i) == 0) ≡ false = ground arith in
    let copied = store mem (dst + i) (mem (src + i)) in
    let kept : (k : ℕ) → k ≤ n → copied (src + (i + 1) + k) ≡ mem (src + i + suc k) =
      λ k le. let e : src + (i + 1) + k ≡ src + i + suc k = omega arith in rw e (ground arith) in
    let r =
      strncpy-copies num dst src (i + 1) n copied
        (λ k lt. rw (kept k (omega arith)) (chars (suc k) (omega arith)))
        (rw (kept n (omega arith)) nul) (omega arith) in
    rw test (
      elim [
        | zero ↦ λ lt in_str.
            let e : dst + i + 0 ≡ dst + i = omega arith in
            rw (e, at0) (r.2 (dst + i) (omega arith) ∙ ground arith)
        | suc k ↦ λ lt in_str.
            let e : dst + i + suc k ≡ dst + (i + 1) + k = omega arith in
            rw e (r.0 k (omega arith) (omega arith) ∙ kept k (omega arith))
      ],
      elim [
        | zero ↦ λ lt past. absurd (omega arith)
        | suc k ↦ λ lt past.
            let e : dst + i + suc k ≡ dst + (i + 1) + k = omega arith in
            rw e (r.1 k (omega arith) (omega arith))
      ],
      λ a out. r.2 a (omega arith) ∙ ground arith,
    )
