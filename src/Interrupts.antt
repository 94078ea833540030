-- ===== src/Interrupts.antt =====
-- The interrupt descriptor table and its handlers, interrupts_x86.c of arch/x86/libs/interrupts_x86,
-- on a 64 bit processor. What the handlers print is left out.
pub mod Table
mod Tests
use Prim.Native.Nat.{bit_and, bit_or}
use sadie.Prelude.{
  ℕ, zero, suc, ◌+◌, ◌-◌, ◌*◌, ◌/◌, ◌%◌, ◌^◌, Bool, true, false, ◌==◌, if◌then◌else◌,
}
use sadie.Word.{u32, u64}

-- `IntrGate`
pub record IntrGate : Type 0 where
  pub offset_lo : ℕ
  pub segment : ℕ
  pub ist : ℕ
  pub type : ℕ
  pub dpl : ℕ
  pub p : ℕ
  pub offset_hi : ℕ

-- The handlers. Those named `expt` take an error code from the stack.
pub data Handler : Type 0 where
  intr_undefined : (idx : ℕ) → Handler
  intr_divide_err : Handler
  intr_debug : Handler
  intr_nmi : Handler
  intr_breakpoint : Handler
  intr_overflow : Handler
  intr_bound_range : Handler
  intr_invalid_opcode : Handler
  intr_device_not_available : Handler
  expt_double_fault : Handler
  intr_coprocessor_segment_overrun : Handler
  expt_invalid_tss : Handler
  expt_segment_not_present : Handler
  expt_stack_fault : Handler
  expt_general_protection : Handler
  expt_page_fault : Handler
  intr_x87_floating_point : Handler
  expt_alignment_check : Handler
  intr_machine_check : Handler
  intr_simd_floating_point : Handler
  intr_virtualization : Handler

-- The counters of the handlers: one for each vector that `INTR_UNDEFINED` is used with, and one for
-- each of the other handlers, here by the vector that it is for.
pub record Interrupts : Type 0 where
  pub idt : ℕ → IntrGate
  pub intr_undefined_counter : ℕ → ℕ
  pub counter : ℕ → ℕ
  pub idtr_limit : ℕ
  pub idtr_iig : ℕ

-- How an interrupt ends.
pub data Ending : Type 0 where
  apic_eoi : Ending
  reset : Ending

abbrev pub count_and_reset : Interrupts → ℕ → Interrupts × Ending
count_and_reset s v =
    (record s { counter = λ j. if j == v then u32 (s.counter v + 1) else s.counter j }, reset)

-- The body of `INTR_UNDEFINED(idx)`.
abbrev pub run_undefined : Interrupts → ℕ → Interrupts × Ending
run_undefined s idx = (
  record s {
    intr_undefined_counter = λ j.
        if j == idx then u64 (s.intr_undefined_counter idx + 1) else s.intr_undefined_counter j;
  },
  apic_eoi,
)

-- The faults, traps and aborts up to the invalid opcode.
unfoldable pub run : Handler → Interrupts → Interrupts × Ending
run (intr_undefined idx) s = run_undefined s idx
run intr_divide_err s = count_and_reset s 0
run intr_debug s = count_and_reset s 1
run intr_nmi s = count_and_reset s 2
run intr_breakpoint s = count_and_reset s 3
run intr_overflow s = count_and_reset s 4
run intr_bound_range s = count_and_reset s 5
run intr_invalid_opcode s = count_and_reset s 6
run intr_device_not_available s = count_and_reset s 7
run expt_double_fault s = count_and_reset s 8
run intr_coprocessor_segment_overrun s = count_and_reset s 9
run expt_invalid_tss s = count_and_reset s 10
run expt_segment_not_present s = count_and_reset s 11
run expt_stack_fault s = count_and_reset s 12
run expt_general_protection s = count_and_reset s 13
run expt_page_fault s = count_and_reset s 14
run intr_x87_floating_point s = count_and_reset s 16
run expt_alignment_check s = count_and_reset s 17
run intr_machine_check s = count_and_reset s 18
run intr_simd_floating_point s = count_and_reset s 19
run intr_virtualization s = count_and_reset s 20

-- `INTR_GATE_OFFSET_LO`, `INTR_GATE_OFFSET_HI`, `GET_INTR_GATE_OFFSET`
abbrev pub offset_lo_of : ℕ → ℕ
offset_lo_of addr = bit_and addr (2 ^ 16 - 1)

abbrev pub offset_hi_of : ℕ → ℕ
offset_hi_of addr = bit_and (addr / 2 ^ 16) (2 ^ 48 - 1)

unfoldable pub get_intr_gate_offset : IntrGate → ℕ
get_intr_gate_offset gate = bit_or (gate.offset_hi * 2 ^ 16 % 2 ^ 64) gate.offset_lo

-- `DT_64_INTR_GATE`
abbrev pub dt_64_intr_gate : ℕ
dt_64_intr_gate = 14

-- `set_intr_gate` and `set_expt_gate`, which are the same but for the type of the handler.
unfoldable pub set_gate : (handler : ℕ) → IntrGate
set_gate h = record {
  offset_lo = offset_lo_of h % 2 ^ 16;
  segment = 8;
  ist = 0;
  type = dt_64_intr_gate;
  dpl = 0;
  p = 1;
  offset_hi = offset_hi_of h % 2 ^ 48;
}

-- `set_intr_handler` and `set_expt_handler`
abbrev pub set_handler : Interrupts → (intr_num handler : ℕ) → Interrupts
set_handler s n h = record s { idt = λ j. if j == n then set_gate h else s.idt j }

-- `set_idtr`, with the address of the table.
abbrev pub set_idtr : Interrupts → (idt count : ℕ) → Interrupts
set_idtr s idt count = record s {
  idtr_limit = bit_and (u64 (idt + count * 16 + 2 ^ 64 - idt - 1)) 0xffff;
  idtr_iig = idt;
}

module _ (address : Handler → ℕ) where
  -- `init_idt_to_undefined`, for `left` vectors from `n` on; it has one line for each of 256.
  unfoldable pub init_idt_to_undefined : (left n : ℕ) → Interrupts → Interrupts
  init_idt_to_undefined zero n s = s
  init_idt_to_undefined (suc left) n s =
      init_idt_to_undefined left (n + 1) (set_handler s n (address (intr_undefined n)))

  -- The handlers of `initialize_intr_descriptor_table`, in its order.
  abbrev pub set_faults : Interrupts → Interrupts
  set_faults s0 =
      let s1 = set_handler s0 0 (address intr_divide_err) in
      let s2 = set_handler s1 1 (address intr_debug) in
      let s3 = set_handler s2 2 (address intr_nmi) in
      let s4 = set_handler s3 3 (address intr_breakpoint) in
      let s5 = set_handler s4 4 (address intr_overflow) in
      let s6 = set_handler s5 5 (address intr_bound_range) in
      let s7 = set_handler s6 6 (address intr_invalid_opcode) in
      let s8 = set_handler s7 7 (address intr_device_not_available) in
      let s9 = set_handler s8 8 (address expt_double_fault) in
      let s10 = set_handler s9 9 (address intr_coprocessor_segment_overrun) in
      let s11 = set_handler s10 10 (address expt_invalid_tss) in
      let s12 = set_handler s11 11 (address expt_segment_not_present) in
      let s13 = set_handler s12 12 (address expt_stack_fault) in
      let s14 = set_handler s13 13 (address expt_general_protection) in
      let s15 = set_handler s14 14 (address expt_page_fault) in
      let s16 = set_handler s15 16 (address intr_x87_floating_point) in
      let s17 = set_handler s16 17 (address expt_alignment_check) in
      let s18 = set_handler s17 18 (address intr_machine_check) in
      let s19 = set_handler s18 19 (address intr_simd_floating_point) in
      set_handler s19 20 (address intr_virtualization)

  -- The counters that it sets to 0; those for 7 and 9 are left.
  abbrev pub cleared : Interrupts → Interrupts
  cleared s = record s {
    counter = λ j. if j == 7 then s.counter 7 else (if j == 9 then s.counter 9 else 0);
  }

  -- `initialize_intr_descriptor_table`, with the address of `idt`.
  unfoldable pub initialize_intr_descriptor_table : (idt : ℕ) → Interrupts → Interrupts
  unfolding init_idt_to_undefined set_gate
  initialize_intr_descriptor_table idt s =
      set_idtr (set_faults (init_idt_to_undefined 256 0 (cleared s))) idt 256
