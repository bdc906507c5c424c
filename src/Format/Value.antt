-- ===== src/Format/Value.antt =====
-- The digits that format_hex writes are those of the number.
use Prim.Native.Nat.{bit_and}
use z_os.Base.{
  ◌⊎◌, inl, inr, Bool-cases, sym, subst, ◌==◌, ◌&&◌, ℕ, zero, suc, ◌+◌, ◌-◌, ◌*◌, ◌/◌, ◌%◌, ◌^◌,
  ◌≤◌, ◌<◌, ◌≡◌, refl, ap, ◌∙◌, List, [], ◌∷◌, ◌++◌, ltb, if◌then◌else◌, length, arith,
}
use native.Mathlib.Decide.{ℕ_discrete, dec_lt}
use native.Mathlib.Nat.{div-div-eq-div-mul}
use z_os.Bits.Fields.{bit_and-ones}
use z_os.Format.{at_start, hex_digit, format_from, format_hex}

-- The number that digits denote, read from the left.
abbrev pub unhex : ℕ → ℕ
unhex c = if ltb c 97 then c - 48 else c - 87

abbrev pub value_of : ℕ → List ℕ → ℕ
value_of n [] = n
value_of n (c ∷ cs) = value_of (n * 16 + unhex c) cs

-- '0' to '9' and 'a' to 'f'.
abbrev pub IsHexDigit : ℕ → Type 0
IsHexDigit c = ((48 ≤ c) × (c ≤ 57)) ⊎ ((97 ≤ c) × (c ≤ 102))

abbrev pub IsHex : List ℕ → Type 0
IsHex [] = Unit {0}
IsHex (c ∷ cs) = IsHexDigit c × IsHex cs

hex_digit-IsHexDigit : (d : ℕ) → d < 16 → IsHexDigit (hex_digit d)
hex_digit-IsHexDigit d h = elim (dec_lt d 10) [
  | yes l ↦ inl (ground (arith, l), ground (arith, l))
  | no m ↦ inr (ground (arith, m), ground (arith, m))
]

IsHex-snoc : (cs : List ℕ) (c : ℕ) → IsHex cs → IsHexDigit c → IsHex (cs ++ (c ∷ []))
IsHex-snoc [] c h d = (d, tt)
IsHex-snoc (x ∷ cs) c h d = (h.0, IsHex-snoc cs c h.1 d)

value_of-snoc :
    (n : ℕ) (cs : List ℕ) (c : ℕ) → value_of n (cs ++ (c ∷ [])) ≡ value_of n cs * 16 + unhex c
value_of-snoc n [] c = refl
value_of-snoc n (x ∷ cs) c = value_of-snoc (n * 16 + unhex x) cs c

length-snoc : (cs : List ℕ) (c : ℕ) → length (cs ++ (c ∷ [])) ≡ length cs + 1
length-snoc [] c = omega arith
length-snoc (x ∷ cs) c = omega (arith, length-snoc cs c)

unhex-hex_digit : (d : ℕ) → d < 16 → unhex (hex_digit d) ≡ d
unhex-hex_digit d h = ground arith

format_from-length :
    (count value : ℕ) (buffer : List ℕ)
    → length (format_from count value buffer) ≤ length buffer + count
unfolding format_from
format_from-length zero value buffer = omega arith
format_from-length (suc count) value buffer = ground (
  arith,
  format_from-length count value buffer,
  format_from-length count value (buffer ++ (hex_digit (bit_and (value / 16 ^ count) 0xF) ∷ [])),
  length-snoc buffer (hex_digit (bit_and (value / 16 ^ count) 0xF)),
)

low_digit : (x : ℕ) → bit_and x 0xF ≡ x % 16
low_digit x = bit_and-ones 4 x

format_from-IsHex :
    (count v : ℕ) (buffer : List ℕ) → IsHex buffer → IsHex (format_from count v buffer)
unfolding format_from
format_from-IsHex zero v buffer h = h
format_from-IsHex (suc count) v buffer h =
    let digit : ℕ = bit_and (v / 16 ^ count) 0xF in
    let skipped : IsHex (format_from count v buffer) = format_from-IsHex count v buffer h in
    let written : IsHex (format_from count v (buffer ++ (hex_digit digit ∷ []))) =
      format_from-IsHex count v (buffer ++ (hex_digit digit ∷ [])) (
        IsHex-snoc buffer (hex_digit digit) h
          (hex_digit-IsHexDigit digit (omega (arith, low_digit (v / 16 ^ count))))) in
    elim (Bool-cases ((digit == 0) && at_start buffer)) [
      | inl e ↦ subst IsHex (sym (rw e refl)) skipped
      | inr e ↦ subst IsHex (sym (rw e refl)) written
    ]

next_digit : (v k : ℕ) → v / 16 ^ k ≡ v / 16 ^ suc k * 16 + v / 16 ^ k % 16
next_digit v k = omega (arith, div-div-eq-div-mul v (16 ^ k) 16, ap (λ t. v / t) (pow_split k))
  where
    pow_split : (k : ℕ) → 16 ^ suc k ≡ 16 ^ k * 16
    pow_split k = omega arith

-- A digit is written behind those of the number's higher part.
write_digit :
    (v k : ℕ) (buffer : List ℕ)
    → value_of 0 buffer ≡ v / 16 ^ suc k
    → value_of 0 (buffer ++ (hex_digit (bit_and (v / 16 ^ k) 0xF) ∷ [])) ≡ v / 16 ^ k
write_digit v k buffer h =
    value_of-snoc 0 buffer (hex_digit (bit_and (v / 16 ^ k) 0xF))
    ∙ omega (
      arith,
      h,
      next_digit v k,
      low_digit (v / 16 ^ k),
      unhex-hex_digit (bit_and (v / 16 ^ k) 0xF) (omega (arith, low_digit (v / 16 ^ k))),
    )

format_from-value :
    (count v : ℕ) (buffer : List ℕ)
    → value_of 0 buffer ≡ v / 16 ^ count
    → value_of 0 (format_from count v buffer) ≡ v
unfolding format_from
format_from-value zero v buffer h = h ∙ omega arith
format_from-value (suc k) v [] h = ground (
  arith,
  low_digit (v / 16 ^ k),
  next_digit v k,
  format_from-value k v [],
  format_from-value k v ([] ++ (hex_digit (bit_and (v / 16 ^ k) 0xF) ∷ [])) (write_digit v k [] h),
)
format_from-value (suc k) v (x ∷ buffer) h = ground (
  arith,
  format_from-value k v ((x ∷ buffer) ++ (hex_digit (bit_and (v / 16 ^ k) 0xF) ∷ []))
      (write_digit v k (x ∷ buffer) h),
)

-- The bytes that format_hex writes for a number of 64 bits are at most 16 hexadecimal digits (0 to
-- 9, a to f) that denote it and a 0.
pub format_hex-value :
    (value : ℕ)
    → value < 2 ^ 64
    → (digits : List ℕ) × (format_hex value ≡ digits ++ (0 ∷ []))
      × IsHex digits
      × (value_of 0 digits ≡ value)
      × (length digits ≤ 16)
unfolding format_hex
format_hex-value value h = elim (ℕ_discrete value 0) [
  | yes e ↦ (48 ∷ [], ground arith, (inl (omega arith, omega arith), tt), omega arith, omega arith)
  | no ne ↦ (
    format_from 16 value [],
    ground arith,
    format_from-IsHex 16 value [] tt,
    format_from-value 16 value [] (omega arith),
    format_from-length 16 value [],
  )
]
