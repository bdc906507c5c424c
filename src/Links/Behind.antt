-- ===== src/Links/Behind.antt =====
-- A node that comes into a list behind another one.
use native.Mathlib.Decide.{ℕ_discrete}
use z_os.Base.{
  In, Once, ne_of_mem, update, ℕ, ◌≡◌, ◌≢◌, ◌⊎◌, inl, inr, refl, sym, ap, ◌∙◌, subst, List, [], ◌∷◌,
  ◌++◌, arith, ==-false, ==-true, update_self,
}
use z_os.Links.{
  Links, head_of, last_of, last_of-member, Linked, Linked-same, insert_behind, link_behind,
}
use z_os.Links.Unlink.{next-In}

behind-next_node : (x n : ℕ) (l : Links) → n ≢ x → (link_behind x n l).next n ≡ l.next x
behind-next_node x n l m = ground arith

behind-next : (x n y : ℕ) (l : Links) → y ≢ x → y ≢ n → (link_behind x n l).next y ≡ l.next y
behind-next x n y l m o = ground arith

behind-prev_node : (x n : ℕ) (l : Links) → n ≢ l.next x → (link_behind x n l).prev n ≡ x
behind-prev_node x n l m = ground arith

behind-prev_next : (x n y : ℕ) (l : Links) → l.next x ≡ y → y ≢ 0 → (link_behind x n l).prev y ≡ n
behind-prev_next x n y l e m = ground arith

behind-prev : (x n y : ℕ) (l : Links) → y ≢ n → y ≢ l.next x → (link_behind x n l).prev y ≡ l.prev y
behind-prev x n y l m o = ground arith

pub insert_behind_here : (x n : ℕ) (ys : List ℕ) → insert_behind x n (x ∷ ys) ≡ x ∷ n ∷ ys
insert_behind_here x n ys = rw (==-true x x refl) refl

pub insert_behind_later :
    (x n y : ℕ) (ys : List ℕ) → x ≢ y → insert_behind x n (y ∷ ys) ≡ y ∷ insert_behind x n ys
insert_behind_later x n y ys m = rw (==-false y x (λ e. m (sym e))) refl

pub head_of-insert_behind : (x n : ℕ) (xs : List ℕ) → head_of (insert_behind x n xs) ≡ head_of xs
head_of-insert_behind x n [] = refl
head_of-insert_behind x n (y ∷ ys) = elim (ℕ_discrete x y) [
  | yes e ↦
      ap (λ w. head_of (insert_behind w n (y ∷ ys))) e ∙ ap head_of (insert_behind_here y n ys)
  | no m ↦ ap head_of (insert_behind_later x n y ys m)
]

-- The node itself, and the one that it comes before.
pub In-insert_behind : (x n y : ℕ) (xs : List ℕ) → In y xs → In y (insert_behind x n xs)
In-insert_behind x n y [] i = i
In-insert_behind x n y (z ∷ zs) i = elim (ℕ_discrete x z) [
  | yes e ↦
      subst (In y) (sym (ap (λ w. insert_behind w n (z ∷ zs)) e ∙ insert_behind_here z n zs))
        (elim i [ inl f ↦ inl f | inr j ↦ inr (inr j) ])
  | no m ↦
      subst (In y) (sym (insert_behind_later x n z zs m))
        (elim i [ inl f ↦ inl f | inr j ↦ inr (In-insert_behind x n y zs j) ])
]

pub inserted-In : (x n : ℕ) (xs : List ℕ) → In x xs → In n (insert_behind x n xs)
inserted-In x n [] i = i
inserted-In x n (z ∷ zs) i = elim (ℕ_discrete x z) [
  | yes e ↦
      subst (In n) (sym (ap (λ w. insert_behind w n (z ∷ zs)) e ∙ insert_behind_here z n zs))
        (inr (inl refl))
  | no m ↦
      subst (In n) (sym (insert_behind_later x n z zs m))
        (inr (inserted-In x n zs (elim i [ inl f ↦ absurd (m f) | inr j ↦ j ])))
]

pub insert_behind-In : (x n y : ℕ) (xs : List ℕ) → In y (insert_behind x n xs) → (y ≡ n) ⊎ In y xs
insert_behind-In x n y [] i = inr i
insert_behind-In x n y (z ∷ zs) i = elim (ℕ_discrete x z) [
  | yes e ↦
      let j : In y (z ∷ n ∷ zs) =
        subst (In y) (ap (λ w. insert_behind w n (z ∷ zs)) e ∙ insert_behind_here z n zs) i in
      elim j [ inl f ↦ inr (inl f) | inr k ↦ elim k [ inl f ↦ inl f | inr j ↦ inr (inr j) ] ]
  | no m ↦
      let j : In y (z ∷ insert_behind x n zs) = subst (In y) (insert_behind_later x n z zs m) i in
      elim j [
        | inl f ↦ inr (inl f)
        | inr k ↦ elim (insert_behind-In x n y zs k) [ inl f ↦ inl f | inr j ↦ inr (inr j) ]
      ]
]

behind_first :
    (l : Links) (before x n : ℕ) (ys : List ℕ)
    → Linked l before (x ∷ ys)
    → Once (x ∷ ys)
    → (¬ In n (x ∷ ys))
    → n ≢ 0
    → Linked (link_behind x n l) before (x ∷ n ∷ ys)
behind_first l before x n [] h o m p = (
  h.0,
  behind-prev x n x l (λ e. m (inl (sym e))) (λ e. h.0 (e ∙ h.2)) ∙ h.1,
  update_self (update l.next n (l.next x)) x n,
  (p, behind-prev_node x n l (λ e. p (e ∙ h.2)), behind-next_node x n l (λ e. m (inl e)) ∙ h.2, tt),
)
behind_first l before x n (y ∷ ys) h o m p =
    let l' : Links = link_behind x n l in
    (
      h.0,
      behind-prev x n x l (λ e. m (inl (sym e))) (λ e. o.0 (inl (e ∙ h.2))) ∙ h.1,
      update_self (update l.next n (l.next x)) x n,
      (
        p,
        behind-prev_node x n l (λ e. m (inr (inl (e ∙ h.2)))),
        behind-next_node x n l (λ e. m (inl e)) ∙ h.2,
        (
          h.3.0,
          behind-prev_next x n y l h.2 h.3.0,
          behind-next x n y l (λ e. o.0 (inl (sym e))) (λ e. m (inr (inl (sym e)))) ∙ h.3.2,
          Linked-same l l' y ys
              (λ z i. (
                behind-next x n z l (ne_of_mem z x ys i (λ j. o.0 (inr j)))
                    (ne_of_mem z n ys i (λ j. m (inr (inr j)))),
                behind-prev x n z l (ne_of_mem z n ys i (λ j. m (inr (inr j))))
                    (λ e. o.1.0 (subst (λ w. In w ys) (e ∙ h.2) i)),
              ))
              h.3.3,
        ),
      ),
    )

pub link_behind-Linked :
    (l : Links) (before x n : ℕ) (xs : List ℕ)
    → Linked l before xs
    → Once xs
    → In x xs
    → (¬ In n xs)
    → n ≢ 0
    → Linked (link_behind x n l) before (insert_behind x n xs)
link_behind-Linked l before x n [] h o i m p = elim i [ ]
link_behind-Linked l before x n (y ∷ ys) h o i m p = elim (ℕ_discrete x y) [
  | yes e ↦
      subst (λ w. Linked (link_behind w n l) before (insert_behind w n (y ∷ ys))) (sym e)
        (subst (Linked (link_behind y n l) before) (sym (insert_behind_here y n ys))
          (behind_first l before y n ys h o m p))
  | no q ↦
      let j : In x ys = elim i [ inl g ↦ absurd (q g) | inr j ↦ j ] in
      subst (Linked (link_behind x n l) before) (sym (insert_behind_later x n y ys q)) (
        h.0,
        behind-prev x n y l (λ e. m (inl (sym e)))
              (λ e. elim (next-In l y x ys h.3 j) [
                | inl z ↦ h.0 (e ∙ z)
                | inr k ↦ o.0 (subst (λ w. In w ys) (sym e) k)
              ])
            ∙ h.1,
        behind-next x n y l (λ e. q (sym e)) (λ e. m (inl (sym e)))
            ∙ h.2
            ∙ sym (head_of-insert_behind x n ys),
        link_behind-Linked l y x n ys h.3 o.1 j (λ k. m (inr k)) p,
      )
]

-- Behind the last node is at the end.
pub insert_behind_last :
    (n x : ℕ) (xs : List ℕ)
    → Once (x ∷ xs)
    → insert_behind (last_of x xs) n (x ∷ xs) ≡ (x ∷ xs) ++ (n ∷ [])
insert_behind_last n x [] o = insert_behind_here x n []
insert_behind_last n x (y ∷ ys) o =
    insert_behind_later (last_of y ys) n x (y ∷ ys)
      (ne_of_mem (last_of y ys) x (y ∷ ys) (last_of-member y ys) o.0)
    ∙ ap (λ w. x ∷ w) (insert_behind_last n y ys o.1)
