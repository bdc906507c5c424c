-- ===== src/Vector/Items.antt =====
-- The elements of a vector as a list.
use native.Mathlib.Nat.{add_assoc}
use z_os.Base.{
  ℕ, zero, suc, ◌+◌, ◌*◌, ◌≤◌, ◌<◌, ◌≡◌, ◌⊎◌, inl, inr, refl, ap, ap₂, ◌∙◌, List, [], ◌∷◌, ◌++◌,
  length, get_elem?, set, some, arith,
}
use z_os.Memory.{Mem}
use z_os.Memory.Bytes.{bytes, bytes-eq}

-- `n` elements of `d` bytes from `a` on.
abbrev pub items : Mem → ℕ → ℕ → ℕ → List (List ℕ)
items m a d zero = []
items m a d (suc n) = bytes m a d ∷ items m (a + d) d n

pub length-items : (m : Mem) (a d n : ℕ) → length (items m a d n) ≡ n
length-items m a d zero = refl
length-items m a d (suc n) = ap suc (length-items m (a + d) d n)

pub suc-mul : (n d : ℕ) → suc n * d ≡ d + n * d
suc-mul n d = omega arith

-- Two memories that agree on the whole hold the same elements.
pub items-eq :
    (m m' : Mem) (a b d n : ℕ)
    → ((i : ℕ) → i < n * d → m (a + i) ≡ m' (b + i))
    → items m a d n ≡ items m' b d n
items-eq m m' a b d zero h = refl
items-eq m m' a b d (suc n) h =
    ap₂ ◌∷◌ (bytes-eq m m' a b d λ i l. h i (omega (arith, suc-mul n d))) (
      items-eq m m' (a + d) (b + d) d n
        λ i l. rw (add_assoc, add_assoc) (h (d + i) (omega (arith, suc-mul n d))))

pub items-snoc :
    (m : Mem) (a d n : ℕ) → items m a d (suc n) ≡ items m a d n ++ (bytes m (a + n * d) d ∷ [])
items-snoc m a d zero = ap (λ x. bytes m x d ∷ []) (omega arith)
items-snoc m a d (suc n) =
    ap (λ xs. bytes m a d ∷ xs)
      (items-snoc m (a + d) d n
        ∙ ap (λ x. items m (a + d) d n ++ (bytes m x d ∷ [])) (omega (arith, suc-mul n d)))

pub get_elem?-items :
    (m : Mem) (a d n i : ℕ) → i < n → get_elem? (items m a d n) i ≡ some (bytes m (a + i * d) d)
get_elem?-items m a d zero i h = absurd (omega arith)
get_elem?-items m a d (suc n) zero h = ap (λ x. some (bytes m x d)) (omega arith)
get_elem?-items m a d (suc n) (suc i) h =
    get_elem?-items m (a + d) d n i (omega arith)
    ∙ ap (λ x. some (bytes m x d)) (omega (arith, suc-mul i d))

-- A change of one element.
pub items-set :
    (m m' : Mem) (a d n i : ℕ)
    → i < n
    → ((j : ℕ) → j < n * d → (j < i * d) ⊎ (i * d + d ≤ j) → m' (a + j) ≡ m (a + j))
    → items m' a d n ≡ set (items m a d n) i (bytes m' (a + i * d) d)
items-set m m' a d zero i h others = absurd (omega arith)
items-set m m' a d (suc n) zero h others =
    ap₂ (λ x xs. bytes m' x d ∷ xs) (omega arith)
      (items-eq m' m (a + d) (a + d) d n
        λ j l. rw add_assoc (others (d + j) (omega (arith, suc-mul n d)) (inr (omega arith))))
items-set m m' a d (suc n) (suc i) h others =
    ap₂ ◌∷◌
      (bytes-eq m' m a a d
        λ j l. others j (omega (arith, suc-mul n d)) (inl (omega (arith, suc-mul i d))))
      (items-set m m' (a + d) d n i (omega arith) (λ j l o.
          rw add_assoc
            (others (d + j) (omega (arith, suc-mul n d)) (omega (arith, suc-mul i d, o))))
        ∙ ap (λ x. set (items m (a + d) d n) i (bytes m' x d)) (omega (arith, suc-mul i d)))
