-- ===== src/Base/Members.antt =====
-- Members of lists of numbers, and lists without repetition.
use Prim.Native.Nat.{ℕ}
use mathlib.Core.List.{◌++◌, ◌∷◌, [], List}
use mathlib.Core.Logic.{◌≢◌, ◌⊎◌, inl, inr}
use mathlib.Core.Path.{◌≡◌, refl, sym, subst}
use native.Mathlib.Decide.{ℕ_discrete}

-- A member of a list of numbers.
abbrev pub In : ℕ → List ℕ → Type 0
In a [] = ⊥
In a (b ∷ bs) = (a ≡ b) ⊎ In a bs

-- No number stands in a list twice.
abbrev pub Once : List ℕ → Type 0
Once [] = Unit {0}
Once (a ∷ bs) = (¬ In a bs) × Once bs

pub In-append : (t u : ℕ) (queue : List ℕ) → In t (queue ++ (u ∷ [])) → In t queue ⊎ (t ≡ u)
In-append t u [] (inl e) = inr e
In-append t u [] (inr i) = elim i [ ]
In-append t u (v ∷ queue) (inl e) = inl (inl e)
In-append t u (v ∷ queue) (inr i) = elim (In-append t u queue i) [
  | inl j ↦ inl (inr j)
  | inr e ↦ inr e
]

pub In-left : (t u : ℕ) (queue : List ℕ) → In t queue → In t (queue ++ (u ∷ []))
In-left t u [] i = elim i [ ]
In-left t u (v ∷ queue) (inl e) = inl e
In-left t u (v ∷ queue) (inr i) = inr (In-left t u queue i)

pub In-last : (u : ℕ) (queue : List ℕ) → In u (queue ++ (u ∷ []))
In-last u [] = inl refl
In-last u (v ∷ queue) = inr (In-last u queue)

pub Once-append : (u : ℕ) (queue : List ℕ) → Once queue → (¬ In u queue) → Once (queue ++ (u ∷ []))
Once-append u [] o n = (λ h. h, tt)
Once-append u (v ∷ queue) (d, o) n = (
  λ h. elim (In-append v u queue h) [ inl i ↦ d i | inr e ↦ n (inl (sym e)) ],
  Once-append u queue o (λ i. n (inr i)),
)

pub In-dec : (a : ℕ) (bs : List ℕ) → Dec (In a bs)
In-dec a [] = no (λ i. i)
In-dec a (b ∷ bs) = elim (ℕ_discrete a b) [
  | yes e ↦ yes (inl e)
  | no n ↦ elim (In-dec a bs) [
    | yes i ↦ yes (inr i)
    | no m ↦ no (λ h. elim h [ inl e ↦ n e | inr i ↦ m i ])
  ]
]

pub ne_of_mem : (a b : ℕ) (bs : List ℕ) → In a bs → (¬ In b bs) → a ≢ b
ne_of_mem a b bs i n = λ e. n (subst (λ c. In c bs) e i)
