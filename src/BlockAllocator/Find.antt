-- ===== src/BlockAllocator/Find.antt =====
-- The loops along the two lists of blocks, with fuel for every block.
use z_os.Base.{
  In, ℕ, zero, suc, ◌≤◌, ◌≡◌, ◌⊎◌, inl, inr, refl, sym, ap, ◌∙◌, subst, true, Bool-cases, some,
  List, [], ◌∷◌, length, arith, leb, ==-false, ==-true, if◌then◌else◌,
}
use z_os.Links.{head_of, last_of, Linked}
use z_os.BlockAllocator.{Headers, find_free_from, last_from}

-- The first block of a list that is large enough.
abbrev pub first_fit : (size : ℕ → ℕ) → ℕ → List ℕ → ℕ
first_fit size n [] = 0
first_fit size n (x ∷ xs) = let rest = first_fit size n xs in if leb n (size x) then x else rest

leb→le : (a b : ℕ) → leb a b ≡ true → a ≤ b
leb→le a b e = ground arith

pub find_free_from-first_fit :
    (fuel size before : ℕ) (h : Headers) (free : List ℕ)
    → Linked h.free before free
    → length free ≤ fuel
    → find_free_from fuel (head_of free) size h ≡ some (first_fit h.size size free)
unfolding find_free_from
find_free_from-first_fit zero size before h [] l f = refl
find_free_from-first_fit (suc fuel) size before h [] l f = refl
find_free_from-first_fit zero size before h (x ∷ xs) l f = absurd (omega (arith, f))
find_free_from-first_fit (suc fuel) size before h (x ∷ xs) l f =
    let ih : find_free_from fuel (h.free.next x) size h ≡ some (first_fit h.size size xs) =
      ap (λ w. find_free_from fuel w size h) l.2
      ∙ find_free_from-first_fit fuel size x h xs l.3 (omega (arith, f)) in
    elim (Bool-cases (leb size (h.size x))) [
      | inl e ↦ rw (==-false x 0 l.0, e) refl
      | inr e ↦ rw (==-false x 0 l.0, e, ih) refl
    ]

pub last_from-last_of :
    (fuel before : ℕ) (h : Headers) (blocks : List ℕ)
    → Linked h.blocks before blocks
    → length blocks ≤ fuel
    → last_from fuel (head_of blocks) h ≡ some (last_of 0 blocks)
unfolding last_from
last_from-last_of zero before h [] l f = refl
last_from-last_of (suc fuel) before h [] l f = refl
last_from-last_of zero before h (x ∷ xs) l f = absurd (omega (arith, f))
last_from-last_of (suc fuel) before h (x ∷ []) l f =
    rw (==-false x 0 l.0, ==-true (h.blocks.next x) 0 l.2) refl
last_from-last_of (suc fuel) before h (x ∷ y ∷ ys) l f =
    rw (==-false x 0 l.0, ==-false (h.blocks.next x) 0 (λ e. l.3.0 (sym l.2 ∙ e)))
      (ap (λ w. last_from fuel w h) l.2
        ∙ last_from-last_of fuel x h (y ∷ ys) l.3 (omega (arith, f)))

abbrev pub Fits : (size : ℕ → ℕ) → ℕ → List ℕ → ℕ → Type 0
Fits size n free b = (b ≡ 0) ⊎ (In b free × (n ≤ size b))

pub first_fit-Fits :
    (size : ℕ → ℕ) (n : ℕ) (free : List ℕ) → Fits size n free (first_fit size n free)
first_fit-Fits size n [] = inl refl
first_fit-Fits size n (x ∷ xs) = elim (Bool-cases (leb n (size x))) [
  | inl e ↦ subst (Fits size n (x ∷ xs)) (sym (rw e refl)) (inr (inl refl, leb→le n (size x) e))
  | inr e ↦
      subst (Fits size n (x ∷ xs)) (sym (rw e refl))
        (elim (first_fit-Fits size n xs) [ inl z ↦ inl z | inr p ↦ inr (inr p.0, p.1) ])
]
