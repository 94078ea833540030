-- ===== src/Interrupts/Tests.antt =====
-- A table whose handlers stand 16 bytes apart, the undefined ones behind the others.
use sadie.Prelude.{ℕ, ◌+◌, ◌-◌, ◌*◌, ◌%◌, ◌^◌, ◌<◌, ◌≡◌, arith}
use sadie.Interrupts.{
  Handler, intr_undefined, expt_page_fault, Interrupts, run, reset, dt_64_intr_gate,
  get_intr_gate_offset, initialize_intr_descriptor_table,
}
use sadie.Interrupts.Table.{takes_error_code, pushes_error_code, initialize-gates}

abbrev address : Handler → ℕ
address expt_page_fault = 0xffff_8000_0010_0000
address (intr_undefined idx) = 0x20_0000 + idx % 2 ^ 8 * 16
address _ = 0x10_0000

abbrev zeros : Interrupts
zeros = record {
  idt =
      λ _. record { offset_lo = 0; segment = 0; ist = 0; type = 0; dpl = 0; p = 0; offset_hi = 0 };
  intr_undefined_counter = λ _. 0;
  counter = λ _. 0;
  idtr_limit = 0;
  idtr_iig = 0;
}

-- The page fault.
initialize-gates_example :
    (get_intr_gate_offset ((initialize_intr_descriptor_table address 0x30_0000 zeros).idt 14)
      ≡ 0xffff_8000_0010_0000)
    × (((initialize_intr_descriptor_table address 0x30_0000 zeros).idt 14).p ≡ 1)
    × (((initialize_intr_descriptor_table address 0x30_0000 zeros).idt 14).type ≡ dt_64_intr_gate)
    × (((initialize_intr_descriptor_table address 0x30_0000 zeros).idt 14).segment ≡ 8)
    × (takes_error_code expt_page_fault ≡ pushes_error_code 14)
    × ((run expt_page_fault zeros).1 ≡ reset)
    × ((initialize_intr_descriptor_table address 0x30_0000 zeros).idtr_limit ≡ 256 * 16 - 1)
initialize-gates_example = initialize-gates address bounded 0x30_0000 zeros 14 (omega arith)
  where
    bounded : (h : Handler) → address h < 2 ^ 64
    bounded (intr_undefined idx) = omega arith
    bounded expt_page_fault = omega arith
    bounded _ = omega arith
