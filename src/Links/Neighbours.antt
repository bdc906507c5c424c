-- ===== src/Links/Neighbours.antt =====
-- The neighbours of a node in its list, and writes to their links.
use mathlib.Core.Path.{fun_ext}
use z_os.Base.{
  In, update, ℕ, ◌≡◌, ◌≢◌, ◌⊎◌, inl, inr, sym, ap, ap₂, ◌∙◌, subst, List, [], ◌∷◌, arith,
}
use z_os.Links.Unlink.{prev-In, next-In}
use z_os.Links.{Links, head_of, Linked, unlink}

next_is_head :
    (l : Links) (x : ℕ) (ys : List ℕ)
    → Linked l x ys
    → l.next x ≡ head_of ys
    → l.next x ≢ 0
    → In (l.next x) ys × (l.prev (l.next x) ≡ x)
next_is_head l x [] h e n = absurd (n e)
next_is_head l x (y ∷ ys) h e n = (inl e, ap l.prev e ∙ h.1)

pub next-neighbour :
    (l : Links) (before x : ℕ) (xs : List ℕ)
    → Linked l before xs
    → In x xs
    → l.next x ≢ 0
    → In (l.next x) xs × (l.prev (l.next x) ≡ x)
next-neighbour l before x [] h i n = elim i [ ]
next-neighbour l before x (y ∷ ys) h (inl e) n =
    let (j, p) = next_is_head l y ys h.3 h.2 (λ z. n (ap l.next e ∙ z)) in
    subst (λ w. In (l.next w) (y ∷ ys) × (l.prev (l.next w) ≡ w)) (sym e) (inr j, p)
next-neighbour l before x (y ∷ ys) h (inr i) n =
    let (j, p) = next-neighbour l y x ys h.3 i n in (inr j, p)

pub prev_cases :
    (l : Links) (before x : ℕ) (xs : List ℕ)
    → Linked l before xs
    → In x xs
    → ((x ≡ head_of xs) × (l.prev x ≡ before)) ⊎ (In (l.prev x) xs × (l.next (l.prev x) ≡ x))
prev_cases l before x [] h i = elim i [ ]
prev_cases l before x (y ∷ ys) h (inl e) = inl (e, ap l.prev e ∙ h.1)
prev_cases l before x (y ∷ ys) h (inr i) = elim (prev_cases l y x ys h.3 i) [
  | inl (e, p) ↦ inr (inl p, ap l.next p ∙ h.2 ∙ sym e)
  | inr (j, p) ↦ inr (inr j, p)
]

-- A node of another list is no neighbour.
pub outside_next :
    (l : Links) (before node x : ℕ) (nodes : List ℕ)
    → Linked l before nodes
    → In node nodes
    → x ≢ 0
    → (¬ In x nodes)
    → x ≢ l.next node
outside_next l before node x nodes h i p n = λ e. elim (next-In l before node nodes h i) [
  | inl z ↦ p (e ∙ z)
  | inr j ↦ n (subst (λ w. In w nodes) (sym e) j)
]

pub outside_prev :
    (l : Links) (node x : ℕ) (nodes : List ℕ)
    → Linked l 0 nodes
    → In node nodes
    → x ≢ 0
    → (¬ In x nodes)
    → x ≢ l.prev node
outside_prev l node x nodes h i p n = λ e. elim (prev-In l 0 node nodes h i) [
  | inl z ↦ p (e ∙ z)
  | inr j ↦ n (subst (λ w. In w nodes) (sym e) j)
]

pub prev-neighbour :
    (l : Links) (x : ℕ) (xs : List ℕ)
    → Linked l 0 xs
    → In x xs
    → l.prev x ≢ 0
    → In (l.prev x) xs × (l.next (l.prev x) ≡ x)
prev-neighbour l x xs h i n = elim (prev_cases l 0 x xs h i) [
  | inl (e, p) ↦ absurd (n p)
  | inr r ↦ r
]

-- `x->next = v;`
abbrev pub with_next : (x v : ℕ) → Links → Links
with_next x v l = record l { next = update l.next x v }

absorb_next :
    (x b v y : ℕ) (l : Links)
    → l.prev x ≡ b
    → b ≢ 0
    → b ≢ x
    → (unlink x (with_next b v l)).next y ≡ (unlink x l).next y
absorb_next x b v y l e n m = ground (arith, e)

absorb_prev :
    (x b v y : ℕ) (l : Links) → b ≢ x → (unlink x (with_next b v l)).prev y ≡ (unlink x l).prev y
absorb_prev x b v y l m = ground arith

-- What is written to the node before is overwritten when the node is taken out.
pub unlink-absorbs :
    (x b v : ℕ) (l : Links) → l.prev x ≡ b → b ≢ 0 → b ≢ x → unlink x (with_next b v l) ≡ unlink x l
unlink-absorbs x b v l e n m =
    ap₂ (λ f g. record { next = f; prev = g }) (fun_ext (λ y. absorb_next x b v y l e n m))
      (fun_ext (λ y. absorb_prev x b v y l m))

past_next :
    (x b v y : ℕ) (l : Links)
    → l.prev x ≢ b
    → b ≢ x
    → (unlink x (with_next b v l)).next y ≡ (with_next b v (unlink x l)).next y
past_next x b v y l e m = ground (arith, e)

-- What is written to another node stays.
pub unlink-with_next :
    (x b v : ℕ) (l : Links)
    → l.prev x ≢ b
    → b ≢ x
    → unlink x (with_next b v l) ≡ with_next b v (unlink x l)
unlink-with_next x b v l e m =
    ap₂ (λ f g. record { next = f; prev = g }) (fun_ext (λ y. past_next x b v y l e m))
      (fun_ext (λ y. absorb_prev x b v y l m))
