-- ===== src/Interrupts/Table.antt =====
-- What the processor finds in the table.
use native.Mathlib.Nat.{mod-eq_of_lt}
use sadie.Prelude.{
  ℕ, zero, suc, ◌+◌, ◌-◌, ◌*◌, ◌/◌, ◌%◌, ◌^◌, ◌≤◌, ◌<◌, ◌≡◌, refl, ◌∙◌, Bool, true, false, ◌||◌,
  ◌&&◌, arith, ◌==◌, leb, if◌then◌else◌, Bool-cases, inl, inr,
}
use sadie.Prelude.Bits.{bit_and-ones, bit_or-shifted}
use sadie.Word.{u64}
use sadie.Interrupts.{
  IntrGate, Handler, intr_undefined, intr_divide_err, intr_debug, intr_nmi, intr_breakpoint,
  intr_overflow, intr_bound_range, intr_invalid_opcode, intr_device_not_available,
  expt_double_fault, intr_coprocessor_segment_overrun, expt_invalid_tss, expt_segment_not_present,
  expt_stack_fault, expt_general_protection, expt_page_fault, intr_x87_floating_point,
  expt_alignment_check, intr_machine_check, intr_simd_floating_point, intr_virtualization,
  Interrupts, get_intr_gate_offset, set_gate, set_handler, init_idt_to_undefined, cleared, Ending,
  apic_eoi, reset, run, dt_64_intr_gate, initialize_intr_descriptor_table,
}

-- Which handler is for which vector.
abbrev pub handler_of : ℕ → Handler
handler_of n =
    if n == 20
    then intr_virtualization
    else (if n == 19
        then intr_simd_floating_point
        else (if n == 18
            then intr_machine_check
            else (if n == 17
                then expt_alignment_check
                else (if n == 16
                    then intr_x87_floating_point
                    else (if n == 14
                        then expt_page_fault
                        else (if n == 13
                            then expt_general_protection
                            else (if n == 12
                                then expt_stack_fault
                                else (if n == 11
                                    then expt_segment_not_present
                                    else (if n == 10
                                        then expt_invalid_tss
                                        else (if n == 9
                                            then intr_coprocessor_segment_overrun
                                            else (if n == 8
                                                then expt_double_fault
                                                else (if n == 7
                                                    then intr_device_not_available
                                                    else (if n == 6
                                                        then intr_invalid_opcode
                                                        else (if n == 5
                                                            then intr_bound_range
                                                            else (if n == 4
                                                            then intr_overflow
                                                            else (if n == 3
                                                            then intr_breakpoint
                                                            else (if n == 2
                                                            then intr_nmi
                                                            else (if n == 1
                                                            then intr_debug
                                                            else (if n == 0
                                                            then intr_divide_err
                                                            else intr_undefined n)))))))))))))))))))

-- A handler whose second parameter is an error code.
abbrev pub takes_error_code : Handler → Bool
takes_error_code expt_double_fault = true
takes_error_code expt_invalid_tss = true
takes_error_code expt_segment_not_present = true
takes_error_code expt_stack_fault = true
takes_error_code expt_general_protection = true
takes_error_code expt_page_fault = true
takes_error_code expt_alignment_check = true
takes_error_code _ = false

-- The vectors for which the processor pushes an error code, up to the alignment check, from the table
-- of exceptions in its manual.
abbrev pub pushes_error_code : ℕ → Bool
pushes_error_code n = (n == 8) || ((leb 10 n && leb n 14) || (n == 17))

takes_error_code-handler_of : (n : ℕ) → takes_error_code (handler_of n) ≡ pushes_error_code n
takes_error_code-handler_of n = ground arith

module _ (address : Handler → ℕ) where
  init_idt-other :
      (left n : ℕ) (s : Interrupts) (j : ℕ)
      → j < n
      → (init_idt_to_undefined address left n s).idt j ≡ s.idt j
  unfolding init_idt_to_undefined
  init_idt-other zero n s j lt = refl
  init_idt-other (suc left) n s j lt =
      init_idt-other left (n + 1) (set_handler s n (address (intr_undefined n))) j (omega arith)
      ∙ ground arith

  init_idt-undefined :
      (left n : ℕ) (s : Interrupts) (j : ℕ)
      → n ≤ j
      → j < n + left
      → (init_idt_to_undefined address left n s).idt j ≡ set_gate (address (intr_undefined j))
  unfolding init_idt_to_undefined
  init_idt-undefined zero n s j lo hi = absurd (omega arith)
  init_idt-undefined (suc left) n s j lo hi = elim (Bool-cases (j == n)) [
    | inl here ↦
        let at : j ≡ n = ground arith in
        init_idt-other left (n + 1) (set_handler s n (address (intr_undefined n))) j (omega arith)
        ∙ ground arith
    | inr later ↦
        init_idt-undefined left (n + 1) (set_handler s n (address (intr_undefined n))) j
          (ground arith) (omega arith)
  ]

  -- A choice between gates is the gate of the choice between their handlers.
  choose :
      (b : Bool) (x y : Handler) {g : IntrGate}
      → g ≡ set_gate (address y)
      → (if b then set_gate (address x) else g) ≡ set_gate (address (if b then x else y))
  choose true x y e = refl
  choose false x y e = e

  idt-handler_of :
      (idt : ℕ) (s : Interrupts) (n : ℕ)
      → n < 256
      → (initialize_intr_descriptor_table address idt s).idt n ≡ set_gate (address (handler_of n))
  unfolding initialize_intr_descriptor_table
  idt-handler_of idt s n lt =
      let u = init_idt-undefined 256 0 (cleared address s) n (omega arith) lt in
      choose (n == 20) intr_virtualization _ (
        choose (n == 19) intr_simd_floating_point _ (
          choose (n == 18) intr_machine_check _ (
            choose (n == 17) expt_alignment_check _ (
              choose (n == 16) intr_x87_floating_point _ (
                choose (n == 14) expt_page_fault _ (
                  choose (n == 13) expt_general_protection _ (
                    choose (n == 12) expt_stack_fault _ (
                      choose (n == 11) expt_segment_not_present _ (
                        choose (n == 10) expt_invalid_tss _ (
                          choose (n == 9) intr_coprocessor_segment_overrun _ (
                            choose (n == 8) expt_double_fault _ (
                              choose (n == 7) intr_device_not_available _ (
                                choose (n == 6) intr_invalid_opcode _ (
                                  choose (n == 5) intr_bound_range _ (
                                    choose (n == 4) intr_overflow _ (
                                      choose (n == 3) intr_breakpoint _ (
                                        choose (n == 2) intr_nmi _ (
                                          choose (n == 1) intr_debug _
                                            (choose (n == 0) intr_divide_err _ u)))))))))))))))))))

get-set_gate : (h : ℕ) → h < 2 ^ 64 → get_intr_gate_offset (set_gate h) ≡ h
unfolding get_intr_gate_offset set_gate
get-set_gate h small =
    let shifted : h / 2 ^ 16 % 2 ^ 48 % 2 ^ 48 * 2 ^ 16 < 2 ^ 64 = omega arith in
    rw (bit_and-ones 16 h, bit_and-ones 48 (h / 2 ^ 16), mod-eq_of_lt shifted)
      (bit_or-shifted 16 (h / 2 ^ 16 % 2 ^ 48 % 2 ^ 48) (h % 2 ^ 16 % 2 ^ 16) (omega arith)
        ∙ omega arith)

-- The vectors with a handler of their own reset the machine, the others acknowledge the interrupt.
abbrev pub ending_of : ℕ → Ending
ending_of n = if leb n 20 && (if n == 15 then false else true) then reset else apic_eoi

run-handler_of : (n : ℕ) (s : Interrupts) → (run (handler_of n) s).1 ≡ ending_of n
unfolding run
run-handler_of n s = ground arith

gate_fields :
    (h : ℕ)
    → ((set_gate h).p ≡ 1) × ((set_gate h).type ≡ dt_64_intr_gate) × ((set_gate h).segment ≡ 8)
unfolding set_gate
gate_fields h = (refl, refl, refl)

limit :
    (address : Handler → ℕ) (idt : ℕ) (s : Interrupts)
    → (initialize_intr_descriptor_table address idt s).idtr_limit ≡ 256 * 16 - 1
unfolding initialize_intr_descriptor_table
limit address idt s =
    let size : u64 (idt + 256 * 16 + 2 ^ 64 - idt - 1) ≡ 256 * 16 - 1 = omega arith in rw size refl

-- After initialisation, with handlers at 64 bit addresses, the gate of each of the 256 vectors is a
-- present interrupt gate of the kernel's code segment that leads to the vector's handler; that takes
-- an error code exactly when the processor pushes one, and resets the machine for the vectors up to
-- 20, but 15, and acknowledges the interrupt for the others. The limit is that of 256 gates.
pub initialize-gates :
    (address : Handler → ℕ)
    → ((h : Handler) → address h < 2 ^ 64)
    → (idt : ℕ) → (s : Interrupts) (n : ℕ) → n < 256
    → (get_intr_gate_offset ((initialize_intr_descriptor_table address idt s).idt n)
        ≡ address (handler_of n))
      × (((initialize_intr_descriptor_table address idt s).idt n).p ≡ 1)
      × (((initialize_intr_descriptor_table address idt s).idt n).type ≡ dt_64_intr_gate)
      × (((initialize_intr_descriptor_table address idt s).idt n).segment ≡ 8)
      × (takes_error_code (handler_of n) ≡ pushes_error_code n)
      × ((run (handler_of n) s).1 ≡ ending_of n)
      × ((initialize_intr_descriptor_table address idt s).idtr_limit ≡ 256 * 16 - 1)
initialize-gates address bounded idt s n lt =
    let at = idt-handler_of address idt s n lt in
    (
      rw at (get-set_gate (address (handler_of n)) (bounded (handler_of n))),
      rw at (gate_fields (address (handler_of n))).0,
      rw at (gate_fields (address (handler_of n))).1,
      rw at (gate_fields (address (handler_of n))).2,
      takes_error_code-handler_of n,
      run-handler_of n s,
      limit address idt s,
    )
