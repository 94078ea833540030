-- ===== src/Printf.antt =====
-- libs/ac_printf: a writer as the program hands it around, and the writer of `ac_snprintf`. The
-- formatter only calls `write_param`, so it is modelled by the characters of these calls, in order.
pub mod Values
pub mod Parse
pub mod Format
pub mod Buffer
pub mod Digits
pub mod Layout
pub mod Leaves
pub mod Progress
mod Tests
use sadie.Prelude.{
  ℕ, ◌+◌, ◌-◌, ◌^◌, Bool, true, false, ◌||◌, ◌==◌, ltb, leb, if◌then◌else◌, List, [], ◌∷◌,
}
use sadie.Word.{u8, u32, u64}

-- The fields of `ac_writer` that say how the next value is printed; 0 for no sign.
pub record Flags : Type 0 where
  pub sign_to_print : ℕ
  pub left_justified : Bool
  pub alt_form : Bool
  pub leading_0 : Bool
  pub min_width : ℕ
  pub precision : ℕ

abbrev pub no_flags : Flags
no_flags = record {
  sign_to_print = 0;
  left_justified = false;
  alt_form = false;
  leading_0 = false;
  min_width = 0;
  precision = 0;
}

-- The fields of `ac_writer` that a buffer writer uses, with the buffer's bytes.
pub record Writer : Type 0 where
  pub count : ℕ
  pub max_len : ℕ
  pub bytes : ℕ → ℕ

abbrev pub put_byte : Writer → ℕ → ℕ → Writer
put_byte w i c = record w { bytes = λ j. if j == i then c else w.bytes j }

-- The local `count` is an AcU32.
unfoldable pub sprintf_write_param : Writer → ℕ → Writer
sprintf_write_param w param =
    let count = u32 w.count in
    if ltb w.count (u64 (w.max_len + 2 ^ 64 - 1))
    then record (put_byte w count (u8 param)) { count = u32 (count + 1) }
    else record w { count = count }

unfoldable pub sprintf_write_end : Writer → Writer
sprintf_write_end w = put_byte w w.count 0

-- The calls of `write_param` that the formatter makes.
unfoldable pub write_all : Writer → List ℕ → Writer
unfolding sprintf_write_param
write_all w [] = w
write_all w (c ∷ cs) = write_all (sprintf_write_param w c) cs

-- `ac_snprintf` on a buffer of `len` bytes, for the characters that its formatter emits: the number
-- of characters and the buffer.
unfoldable pub snprintf : (before : ℕ → ℕ) (len : ℕ) → List ℕ → ℕ × (ℕ → ℕ)
unfolding write_all sprintf_write_end
snprintf before len cs =
    let start : Writer = record { count = 0; max_len = len; bytes = before } in
    let written = sprintf_write_end (write_all start cs) in
    if len == 0
    then (0, before)
    else (if len == 1 then (0, (put_byte start 0 0).bytes) else (written.count, written.bytes))
