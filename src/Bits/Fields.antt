-- ===== src/Bits/Fields.antt =====
-- Masks and fields: what `&` with a mask keeps, and that `|` works on each field by itself.
use Prim.Native.Nat.{bit_and, bit_or, max}
use native.Mathlib.Nat.{
  div-div-eq-div-mul, add-mul-mod_self_left, mod-eq_of_lt, mod-lt, mod-add-div, pow-succ', mod-one,
  mul-one, mul-div_cancel, div-eq_of_lt, mul-mod_left, div-add-mod',
}
use z_os.Base.{
  ℕ, zero, suc, ◌+◌, ◌-◌, ◌*◌, ◌/◌, ◌%◌, ◌^◌, ◌≤◌, ◌<◌, ◌≡◌, sym, ap, ap₂, ◌∙◌, min, arith,
}
use z_os.Bits.{bit_and_step, bit_or_step, zero-bit_and, zero-bit_or}

pub div-pow-suc : (a k : ℕ) → a / 2 ^ suc k ≡ a / 2 / 2 ^ k
div-pow-suc a k = rw (pow-succ' 2 k) (sym (div-div-eq-div-mul a 2 (2 ^ k)))

pub pow-pos : (k : ℕ) → 0 < 2 ^ k
pow-pos zero = omega arith
pow-pos (suc k) = rw (pow-succ' 2 k) (omega (arith, pow-pos k))

-- The lowest digit of a remainder, and the digits above it.
mod-double : (a p : ℕ) → 0 < p → a % (2 * p) ≡ a / 2 % p * 2 + a % 2
mod-double a p h =
    ap (λ t. t % (2 * p)) parts
    ∙ add-mul-mod_self_left (a / 2 % p * 2 + a % 2) (2 * p) (a / 2 / p)
    ∙ mod-eq_of_lt (omega (arith, mod-lt (a / 2) h))
  where
    parts : a ≡ a / 2 % p * 2 + a % 2 + 2 * p * (a / 2 / p)
    parts = omega (arith, mod-add-div (a / 2) p)

pub mod-pow-suc : (a k : ℕ) → a % 2 ^ suc k ≡ a / 2 % 2 ^ k * 2 + a % 2
mod-pow-suc a k = rw (pow-succ' 2 k) (mod-double a (2 ^ k) (pow-pos k))

div_one : (a : ℕ) → a / 1 ≡ a
div_one a = omega arith

half-bit_or : (a b : ℕ) → bit_or a b / 2 ≡ bit_or (a / 2) (b / 2)
half-bit_or a b = omega (arith, bit_or_step a b)

pub bit_or-div : (k a b : ℕ) → bit_or a b / 2 ^ k ≡ bit_or (a / 2 ^ k) (b / 2 ^ k)
bit_or-div zero a b = simp div_one
bit_or-div (suc k) a b =
    rw (div-pow-suc (bit_or a b) k, div-pow-suc a k, div-pow-suc b k, half-bit_or a b)
      (bit_or-div k (a / 2) (b / 2))

bit_or-double :
    (a b x y : ℕ) → x < 2 → y < 2 → bit_or (a * 2 + x) (b * 2 + y) ≡ bit_or a b * 2 + max x y
bit_or-double a b x y hx hy =
    bit_or_step (a * 2 + x) (b * 2 + y)
    ∙ ap₂ (λ p q. bit_or p q * 2 + max ((a * 2 + x) % 2) ((b * 2 + y) % 2)) (high a x hx)
        (high b y hy)
    ∙ ap₂ (λ p q. bit_or a b * 2 + max p q) (low a x hx) (low b y hy)
  where
    high : (c z : ℕ) → z < 2 → (c * 2 + z) / 2 ≡ c
    high c z hz = omega arith

    low : (c z : ℕ) → z < 2 → (c * 2 + z) % 2 ≡ z
    low c z hz = omega arith

pub bit_or-mod : (k a b : ℕ) → bit_or a b % 2 ^ k ≡ bit_or (a % 2 ^ k) (b % 2 ^ k)
bit_or-mod zero a b = rw (mod-one, mod-one, mod-one) (sym (zero-bit_or 0))
bit_or-mod (suc k) a b =
    rw (mod-pow-suc (bit_or a b) k, mod-pow-suc a k, mod-pow-suc b k, half-bit_or a b)
      (ap (λ t. t * 2 + bit_or a b % 2) (bit_or-mod k (a / 2) (b / 2))
        ∙ ap (λ t. bit_or (a / 2 % 2 ^ k) (b / 2 % 2 ^ k) * 2 + t) lowest
        ∙ sym (
            bit_or-double (a / 2 % 2 ^ k) (b / 2 % 2 ^ k) (a % 2) (b % 2) (omega arith)
              (omega arith)))
  where
    lowest : bit_or a b % 2 ≡ max (a % 2) (b % 2)
    lowest = omega (arith, bit_or_step a b)

-- Two functions that agree at 0, and take the halves of a number to their own in the same way.
halving :
    (f g low : ℕ → ℕ)
    → f 0 ≡ g 0
    → ((a : ℕ) → f a ≡ f (a / 2) * 2 + low a)
    → ((a : ℕ) → g a ≡ g (a / 2) * 2 + low a)
    → (bound a : ℕ) → a ≤ bound
    → f a ≡ g a
halving f g low start p q bound zero h = start
halving f g low start p q zero (suc a) h = absurd (omega arith)
halving f g low start p q (suc bound) (suc a) h =
    p (suc a)
    ∙ ap (λ t. t * 2 + low (suc a)) (halving f g low start p q bound (suc a / 2) (omega arith))
    ∙ sym (q (suc a))

bit_and-zero : (a : ℕ) → bit_and a 0 ≡ 0
bit_and-zero a =
    halving (λ x. bit_and x 0) (λ x. 0) (λ x. 0) (zero-bit_and 0)
      (λ x. omega (arith, bit_and_step x 0)) (λ x. omega arith) a a (omega arith)

pub bit_or-zero : (a : ℕ) → bit_or a 0 ≡ a
bit_or-zero a =
    halving (λ x. bit_or x 0) (λ x. x) (λ x. x % 2) (zero-bit_or 0)
      (λ x. omega (arith, bit_or_step x 0)) (λ x. omega arith) a a (omega arith)

-- A mask of `k` ones keeps the remainder modulo 2 ^ k.
pub bit_and-ones : (k a : ℕ) → bit_and a (2 ^ k - 1) ≡ a % 2 ^ k
bit_and-ones zero a = bit_and-zero a ∙ sym (mod-one a)
bit_and-ones (suc k) a =
    bit_and_step a (2 ^ suc k - 1)
    ∙ ap₂ (λ p q. bit_and (a / 2) p * 2 + min (a % 2) q) high low
    ∙ ap₂ (λ p q. p * 2 + q) (bit_and-ones k (a / 2)) small
    ∙ sym (mod-pow-suc a k)
  where
    high : (2 ^ suc k - 1) / 2 ≡ 2 ^ k - 1
    high = rw (pow-succ' 2 k) (omega (arith, pow-pos k))

    low : (2 ^ suc k - 1) % 2 ≡ 1
    low = rw (pow-succ' 2 k) (omega (arith, pow-pos k))

    small : min (a % 2) 1 ≡ a % 2
    small = omega arith

-- A mask whose lowest `k` digits are 0 works on the digits above them.
pub bit_and-scale : (k a b : ℕ) → bit_and a (b * 2 ^ k) ≡ bit_and (a / 2 ^ k) b * 2 ^ k
bit_and-scale zero a b = simp (div_one, mul-one)
bit_and-scale (suc k) a b =
    bit_and_step a (b * 2 ^ suc k)
    ∙ ap₂ (λ p q. bit_and (a / 2) p * 2 + min (a % 2) q) high low
    ∙ ap₂ (λ p q. p * 2 + q) (bit_and-scale k (a / 2) b) small
    ∙ rw (div-pow-suc a k, pow-succ' 2 k) (omega arith)
  where
    high : b * 2 ^ suc k / 2 ≡ b * 2 ^ k
    high = rw (pow-succ' 2 k) (omega arith)

    low : b * 2 ^ suc k % 2 ≡ 0
    low = rw (pow-succ' 2 k) (omega arith)

    small : min (a % 2) 0 ≡ 0
    small = omega arith

-- Numbers with no digit in common are added.
pub bit_or-add : (k a b : ℕ) → b < 2 ^ k → bit_or (a * 2 ^ k) b ≡ a * 2 ^ k + b
bit_or-add k a b h =
    sym (div-add-mod' (bit_or (a * 2 ^ k) b) (2 ^ k)) ∙ ap₂ (λ p q. p * 2 ^ k + q) high low
  where
    high : bit_or (a * 2 ^ k) b / 2 ^ k ≡ a
    high =
        bit_or-div k (a * 2 ^ k) b
        ∙ ap₂ bit_or (mul-div_cancel a (pow-pos k)) (div-eq_of_lt h)
        ∙ bit_or-zero a

    low : bit_or (a * 2 ^ k) b % 2 ^ k ≡ b
    low =
        bit_or-mod k (a * 2 ^ k) b
        ∙ ap₂ bit_or (mul-mod_left a (2 ^ k)) (mod-eq_of_lt h)
        ∙ zero-bit_or b

-- A mask of `n` ones above `k` zeros keeps that field in place.
pub bit_and-field : (n k a : ℕ) → bit_and a ((2 ^ n - 1) * 2 ^ k) ≡ a / 2 ^ k % 2 ^ n * 2 ^ k
bit_and-field n k a =
    bit_and-scale k a (2 ^ n - 1) ∙ ap (λ t. t * 2 ^ k) (bit_and-ones n (a / 2 ^ k))

-- A field of `a | b` is the `|` of the fields.
pub bit_or-field :
    (n k a b : ℕ) → bit_or a b / 2 ^ k % 2 ^ n ≡ bit_or (a / 2 ^ k % 2 ^ n) (b / 2 ^ k % 2 ^ n)
bit_or-field n k a b = ap (λ t. t % 2 ^ n) (bit_or-div k a b) ∙ bit_or-mod n (a / 2 ^ k) (b / 2 ^ k)
