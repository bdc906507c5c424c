-- ===== src/Format/Tests.antt =====
-- The number 0x2f0 in hexadecimal.
use z_os.Base.{ℕ, ◌≤◌, ◌≡◌, refl, List, [], ◌∷◌, ◌++◌, length, arith}
use z_os.Format.{format_hex, format_from}
use z_os.Format.Value.{IsHex, value_of, format_hex-value}

program : format_hex 0x2F0 ≡ 50 ∷ 102 ∷ 48 ∷ 0 ∷ []
unfolding format_hex format_from
program = refl

format_hex-value_example :
    (digits : List ℕ) × (format_hex 0x2F0 ≡ digits ++ (0 ∷ []))
    × IsHex digits
    × (value_of 0 digits ≡ 0x2F0)
    × (length digits ≤ 16)
format_hex-value_example = format_hex-value 0x2F0 (omega arith)
