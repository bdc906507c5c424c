-- ===== src/Memory/Bytes.antt =====
-- A block of memory as a list.
use z_os.Base.{
  ℕ, zero, suc, ◌+◌, ◌≤◌, ◌<◌, ◌≡◌, refl, ap, ap₂, ◌⊎◌, arith, List, [], ◌∷◌, ◌++◌, length, take,
}
use native.Mathlib.Nat.{add_assoc, add-zero, add_comm}
use z_os.Memory.{Mem, memory_copy}
use z_os.Memory.Copy.{memory_copy_lem}

abbrev pub bytes : Mem → ℕ → ℕ → List ℕ
bytes m a zero = []
bytes m a (suc n) = m a ∷ bytes m (a + 1) n

pub length-bytes : (m : Mem) (a n : ℕ) → length (bytes m a n) ≡ n
length-bytes m a zero = refl
length-bytes m a (suc n) = ap suc (length-bytes m (a + 1) n)

pub bytes-append : (m : Mem) (a k n : ℕ) → bytes m a (k + n) ≡ bytes m a k ++ bytes m (a + k) n
bytes-append m a zero n = ground arith
bytes-append m a (suc k) n = rw (shift, slide) (ap (λ xs. m a ∷ xs) (bytes-append m (a + 1) k n))
  where
    shift : suc k + n ≡ suc (k + n)
    shift = omega arith

    slide : a + suc k ≡ a + 1 + k
    slide = omega arith

-- Two memories that agree shifted by a constant hold the same block.
pub bytes-eq :
    (m m' : Mem) (a b n : ℕ)
    → ((i : ℕ) → i < n → m (a + i) ≡ m' (b + i))
    → bytes m a n ≡ bytes m' b n
bytes-eq m m' a b zero h = refl
bytes-eq m m' a b (suc n) h = ap₂ ◌∷◌ (rw (← add-zero a, ← add-zero b) (h 0 (omega arith))) (
    bytes-eq m m' (a + 1) (b + 1) n
      λ i k. rw (add_assoc, add_assoc) (rw (add_comm 1 i) (h (i + 1) (omega arith))))

-- The `n` addresses from `a` on and the `k` from `b` on have none in common.
abbrev pub Apart : ℕ → ℕ → ℕ → ℕ → Type 0
Apart a n b k = (a + n ≤ b) ⊎ (b + k ≤ a)

pub bytes-copy_target :
    (m : Mem) (d s n : ℕ) → (d ≤ s) ⊎ (s + n ≤ d) → bytes (memory_copy m d s n) d n ≡ bytes m s n
bytes-copy_target m d s n h =
    bytes-eq (memory_copy m d s n) m d s n λ i k. ground (arith, memory_copy_lem m d s n (d + i) h)

pub bytes-copy-Apart :
    (m : Mem) (d s n a k : ℕ)
    → (d ≤ s) ⊎ (s + n ≤ d)
    → Apart a k d n
    → bytes (memory_copy m d s n) a k ≡ bytes m a k
bytes-copy-Apart m d s n a k h apart =
    bytes-eq (memory_copy m d s n) m a a k λ i l. ground (arith, memory_copy_lem m d s n (a + i) h)

pub take-bytes : (m : Mem) (a k n : ℕ) → take k (bytes m a (k + n)) ≡ bytes m a k
take-bytes m a zero n = refl
take-bytes m a (suc k) n = rw shift (ap (λ xs. m a ∷ xs) (take-bytes m (a + 1) k n))
  where
    shift : suc k + n ≡ suc (k + n)
    shift = omega arith
