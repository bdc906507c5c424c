-- ===== src/Format.antt =====
-- libz/format.c: a number as hexadecimal digits. The buffer is the list of the bytes written, the
-- last of them the 0 at its end.
pub mod Value
mod Tests
use Prim.Native.Nat.{bit_and}
use z_os.Base.{
  ℕ, zero, suc, ◌+◌, ◌/◌, ◌^◌, List, [], ◌∷◌, ◌++◌, Bool, ◌&&◌, true, false, ltb, ◌==◌,
  if◌then◌else◌,
}

-- `"0123456789abcdef"[digit]`
abbrev pub hex_digit : ℕ → ℕ
hex_digit digit = if ltb digit 10 then 48 + digit else 87 + digit

-- `current_pos == 0`
abbrev pub at_start : List ℕ → Bool
at_start [] = true
at_start (c ∷ buffer) = false

-- The rounds of the loop from `i = 16 - count` on.
unfoldable pub format_from : ℕ → ℕ → List ℕ → List ℕ
format_from zero value buffer = buffer
format_from (suc count) value buffer =
    let digit = bit_and (value / 16 ^ count) 0xF in
    let skipped = format_from count value buffer in
    let written = format_from count value (buffer ++ (hex_digit digit ∷ [])) in
    if (digit == 0) && at_start buffer then skipped else written

unfoldable pub format_hex : ℕ → List ℕ
format_hex value = if value == 0 then 48 ∷ 0 ∷ [] else format_from 16 value [] ++ (0 ∷ [])
