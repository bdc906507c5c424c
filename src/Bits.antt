-- ===== src/Bits.antt =====
-- Laws of the bit operations at variables. The native operations compute at numerals alone, so the
-- laws come from the recursion on binary digits that they stand for.
pub mod Fields
use Prim.Native.Nat.{max, digits, bit_and, bit_or, bit_and-bitwise, bit_or-bitwise}
use z_os.Base.{ℕ, zero, suc, ◌+◌, ◌*◌, ◌/◌, ◌%◌, ◌≤◌, ◌≡◌, refl, sym, ap, ◌∙◌, min, arith}

-- An operation on the digits of two numbers: `op` where the first has one, `rest` behind it.
module _ (rest : ℕ → ℕ) (op : ℕ → ℕ → ℕ) where
  -- Any fuel that reaches the last digit gives the same.
  fuel-irrelevant : (x y f g : ℕ) → x ≤ f → x ≤ g → digits rest op f x y ≡ digits rest op g x y
  fuel-irrelevant zero y zero zero p q = refl
  fuel-irrelevant zero y zero (suc g) p q = refl
  fuel-irrelevant zero y (suc f) zero p q = refl
  fuel-irrelevant zero y (suc f) (suc g) p q = refl
  fuel-irrelevant (suc x) y zero g p q = absurd (omega arith)
  fuel-irrelevant (suc x) y (suc f) zero p q = absurd (omega arith)
  fuel-irrelevant (suc x) y (suc f) (suc g) p q =
      rw (fuel-irrelevant (suc x / 2) (y / 2) f g (omega arith) (omega arith)) refl

  -- The lowest digit, and the operation on the others.
  lowest_digit :
      (f : ℕ → ℕ → ℕ)
      → ((x y : ℕ) → f x y ≡ digits rest op x x y)
      → ((y : ℕ) → rest y ≡ rest (y / 2) * 2 + op 0 (y % 2))
      → (x y : ℕ) → f x y ≡ f (x / 2) (y / 2) * 2 + op (x % 2) (y % 2)
  lowest_digit f law behind zero y = rw (law 0 y, law 0 (y / 2)) (behind y)
  lowest_digit f law behind (suc x) y =
      rw
        (
          law (suc x) y,
          law (suc x / 2) (y / 2),
          fuel-irrelevant (suc x / 2) (y / 2) x (suc x / 2) (omega arith) (omega arith),
        )
        (omega arith)

pub bit_and_step : (x y : ℕ) → bit_and x y ≡ bit_and (x / 2) (y / 2) * 2 + min (x % 2) (y % 2)
bit_and_step = lowest_digit (λ y. 0) min bit_and bit_and-bitwise (λ y. omega arith)

pub bit_or_step : (x y : ℕ) → bit_or x y ≡ bit_or (x / 2) (y / 2) * 2 + max (x % 2) (y % 2)
bit_or_step = lowest_digit (λ y. y) max bit_or bit_or-bitwise (λ y. omega arith)

pub zero-bit_and : (y : ℕ) → bit_and 0 y ≡ 0
zero-bit_and y = bit_and-bitwise 0 y

pub zero-bit_or : (y : ℕ) → bit_or 0 y ≡ y
zero-bit_or y = bit_or-bitwise 0 y
