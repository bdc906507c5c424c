-- ===== src/Memory/Compare.antt =====
-- memory_compare orders two blocks of bytes as lists.
use z_os.Base.{
  ℕ, zero, ◌↔◌, sym, ◌∙◌, suc, ◌+◌, ◌≡◌, refl, arith, ltb, if◌then◌else◌, List, [], ◌∷◌,
}
use native.Mathlib.Nat.{add_assoc, add-zero}
use z_os.Memory.{Mem, Sign, minus, equal, plus, compare_from, memory_compare}
use z_os.Memory.Bytes.{bytes}

-- The lexicographic order.
unfoldable pub order : List ℕ → List ℕ → Sign
order [] [] = equal
order [] (y ∷ ys) = minus
order (x ∷ xs) [] = plus
order (x ∷ xs) (y ∷ ys) =
    let rest = order xs ys in if ltb x y then minus else if ltb y x then plus else rest

compare_from-order :
    (m : Mem) (a b i k : ℕ) → compare_from m a b i k ≡ order (bytes m (a + i) k) (bytes m (b + i) k)
unfolding compare_from order
compare_from-order m a b i zero = refl
compare_from-order m a b i (suc k) =
    rw (add_assoc a i 1, add_assoc b i 1, compare_from-order m a b (i + 1) k)

-- Memory_compare gives the lexicographic order of the two blocks.
pub memory_compare-order :
    (m : Mem) (a b size : ℕ) → memory_compare m a b size ≡ order (bytes m a size) (bytes m b size)
unfolding memory_compare
memory_compare-order m a b n = rw (compare_from-order m a b 0 n, add-zero, add-zero)

order-equal : (xs ys : List ℕ) → order xs ys ≡ equal → xs ≡ ys
unfolding order
order-equal [] [] h = refl
order-equal [] (y ∷ ys) h = cc
order-equal (x ∷ xs) [] h = cc
order-equal (x ∷ xs) (y ∷ ys) h = ground (arith, order-equal xs ys)

order_refl : (xs : List ℕ) → order xs xs ≡ equal
unfolding order
order_refl [] = refl
order_refl (x ∷ xs) = ground (arith, order_refl xs)

-- Memory_compare returns 0 exactly on equal blocks.
pub memory_compare-equal :
    (m : Mem) (a b size : ℕ)
    → (memory_compare m a b size ≡ equal) ↔ (bytes m a size ≡ bytes m b size)
memory_compare-equal m a b n = (
  λ h. order-equal _ _ (sym (memory_compare-order m a b n) ∙ h),
  λ e. memory_compare-order m a b n ∙ rw e (order_refl (bytes m b n)),
)
