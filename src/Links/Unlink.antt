-- ===== src/Links/Unlink.antt =====
-- A node that is taken out of its list.
use native.Mathlib.Decide.{ℕ_discrete}
use z_os.Base.{
  In, Once, ne_of_mem, ℕ, ◌≡◌, ◌≢◌, ◌⊎◌, inl, inr, refl, sym, ap, ◌∙◌, subst, List, [], ◌∷◌, arith,
  ◌==◌, ==-false, ==-true, if◌then◌else◌,
}
use z_os.Links.{Links, head_of, last_of, Linked, Linked-same, Linked-ne_null, erase, unlink}

pub unlink-next : (x y : ℕ) (l : Links) → y ≢ x → y ≢ l.prev x → (unlink x l).next y ≡ l.next y
unlink-next x y l n m = ground arith

unlink-next_before :
    (x y : ℕ) (l : Links) → y ≢ x → l.prev x ≡ y → y ≢ 0 → (unlink x l).next y ≡ l.next x
unlink-next_before x y l n e p = ground arith

pub unlink-prev : (x y : ℕ) (l : Links) → y ≢ x → y ≢ l.next x → (unlink x l).prev y ≡ l.prev y
unlink-prev x y l n m = ground arith

unlink-prev_behind :
    (x y : ℕ) (l : Links) → y ≢ x → l.next x ≡ y → y ≢ 0 → (unlink x l).prev y ≡ l.prev x
unlink-prev_behind x y l n e p = ground arith

pub prev-In :
    (l : Links) (before x : ℕ) (xs : List ℕ)
    → Linked l before xs
    → In x xs
    → (l.prev x ≡ before) ⊎ In (l.prev x) xs
prev-In l before x [] h i = elim i [ ]
prev-In l before x (y ∷ ys) h (inl e) = inl (ap l.prev e ∙ h.1)
prev-In l before x (y ∷ ys) h (inr i) = elim (prev-In l y x ys h.3 i) [
  | inl e ↦ inr (inl e)
  | inr j ↦ inr (inr j)
]

pub head_of-In : (xs : List ℕ) → (head_of xs ≡ 0) ⊎ In (head_of xs) xs
head_of-In [] = inl refl
head_of-In (x ∷ xs) = inr (inl refl)

pub next-In :
    (l : Links) (before x : ℕ) (xs : List ℕ)
    → Linked l before xs
    → In x xs
    → (l.next x ≡ 0) ⊎ In (l.next x) xs
next-In l before x [] h i = elim i [ ]
next-In l before x (y ∷ ys) h (inl e) = elim (head_of-In ys) [
  | inl z ↦ inl (ap l.next e ∙ h.2 ∙ z)
  | inr j ↦ inr (inr (subst (λ w. In w ys) (sym (ap l.next e ∙ h.2)) j))
]
next-In l before x (y ∷ ys) h (inr i) = elim (next-In l y x ys h.3 i) [
  | inl e ↦ inl e
  | inr j ↦ inr (inr j)
]

erase_first : (x : ℕ) (ys : List ℕ) → erase x (x ∷ ys) ≡ ys
erase_first x ys = rw (==-true x x refl) refl

erase_later : (x y : ℕ) (ys : List ℕ) → x ≢ y → erase x (y ∷ ys) ≡ y ∷ erase x ys
erase_later x y ys n = rw (==-false y x (λ e. n (sym e))) refl

pub In-erase : (x y : ℕ) (ys : List ℕ) → In y (erase x ys) → In y ys
In-erase x y [] i = i
In-erase x y (z ∷ zs) i = elim (ℕ_discrete x z) [
  | yes e ↦ inr (subst (In y) (ap (λ w. erase w (z ∷ zs)) e ∙ erase_first z zs) i)
  | no n ↦
      let j : In y (z ∷ erase x zs) = subst (In y) (erase_later x z zs n) i in
      elim j [ inl e ↦ inl e | inr k ↦ inr (In-erase x y zs k) ]
]

pub erase-In : (x y : ℕ) (ys : List ℕ) → In y ys → y ≢ x → In y (erase x ys)
erase-In x y [] i n = i
erase-In x y (z ∷ zs) i n = elim (ℕ_discrete x z) [
  | yes e ↦
      subst (In y) (sym (ap (λ w. erase w (z ∷ zs)) e ∙ erase_first z zs))
        (elim i [ inl f ↦ absurd (n (f ∙ sym e)) | inr j ↦ j ])
  | no m ↦
      subst (In y) (sym (erase_later x z zs m))
        (elim i [ inl f ↦ inl f | inr j ↦ inr (erase-In x y zs j n) ])
]

pub Once-erase : (x : ℕ) (xs : List ℕ) → Once xs → Once (erase x xs)
Once-erase x [] o = o
Once-erase x (y ∷ ys) o = elim (ℕ_discrete x y) [
  | yes e ↦ subst Once (sym (ap (λ w. erase w (y ∷ ys)) e ∙ erase_first y ys)) o.1
  | no n ↦
      subst Once (sym (erase_later x y ys n)) ((λ i. o.0 (In-erase x y ys i)), Once-erase x ys o.1)
]

pub not-In-erase : (x : ℕ) (xs : List ℕ) → Once xs → ¬ In x (erase x xs)
not-In-erase x [] o i = i
not-In-erase x (y ∷ ys) o i = elim (ℕ_discrete x y) [
  | yes e ↦
      o.0
        (subst (λ w. In w ys) e (subst (In x) (ap (λ w. erase w (y ∷ ys)) e ∙ erase_first y ys) i))
  | no n ↦
      let j : In x (y ∷ erase x ys) = subst (In x) (erase_later x y ys n) i in
      elim j [ inl e ↦ n e | inr k ↦ not-In-erase x ys o.1 k ]
]

-- Behind the node that is taken out, the list is linked to the node before it.
Linked-behind :
    (l : Links) (before x : ℕ) (ys : List ℕ)
    → Linked l before (x ∷ ys)
    → Once (x ∷ ys)
    → (¬ In before (x ∷ ys))
    → Linked (unlink x l) before ys
Linked-behind l before x [] h o n = tt
Linked-behind l before x (y ∷ ys) h o n =
    let other : y ≢ x = λ e. o.0 (inl (sym e)) in
    (
      h.3.0,
      unlink-prev_behind x y l other h.2 h.3.0 ∙ h.1,
      unlink-next x y l other (λ e. n (inr (inl (sym h.1 ∙ sym e)))) ∙ h.3.2,
      Linked-same l (unlink x l) y ys
          (λ z i. (
            unlink-next x z l (ne_of_mem z x ys i (λ j. o.0 (inr j)))
                (λ e. n (inr (inr (subst (λ w. In w ys) (e ∙ h.1) i)))),
            unlink-prev x z l (ne_of_mem z x ys i (λ j. o.0 (inr j)))
                (λ e. o.1.0 (subst (λ w. In w ys) (e ∙ h.2) i)),
          ))
          h.3.3,
    )

-- The node before the one that is taken out, or any other, has the right next node.
next-erase :
    (l : Links) (x y : ℕ) (ys : List ℕ)
    → Linked l y ys
    → l.next y ≡ head_of ys
    → Once (y ∷ ys)
    → y ≢ 0
    → In x ys
    → (unlink x l).next y ≡ head_of (erase x ys)
next-erase l x y [] h e o p i = elim i [ ]
next-erase l x y (z ∷ zs) h e o p i = elim (ℕ_discrete x z) [
  | yes f ↦
      unlink-next_before x y l (λ g. ne_of_mem x y (z ∷ zs) i o.0 (sym g)) (ap l.prev f ∙ h.1) p
      ∙ ap l.next f
      ∙ h.2
      ∙ ap head_of (sym (ap (λ w. erase w (z ∷ zs)) f ∙ erase_first z zs))
  | no n ↦
      let k : In x zs = elim i [ inl g ↦ absurd (n g) | inr j ↦ j ] in
      unlink-next x y l (λ g. ne_of_mem x y (z ∷ zs) i o.0 (sym g))
        (λ g. o.0 (
          subst (λ w. In w (z ∷ zs)) (sym g)
            (elim (prev-In l z x zs h.3 k) [ inl a ↦ inl a | inr b ↦ inr b ])))
      ∙ e
      ∙ ap head_of (sym (erase_later x z zs n))
]

pub unlink-Linked :
    (l : Links) (before x : ℕ) (xs : List ℕ)
    → Linked l before xs
    → Once xs
    → (¬ In before xs)
    → In x xs
    → Linked (unlink x l) before (erase x xs)
unlink-Linked l before x [] h o n i = elim i [ ]
unlink-Linked l before x (y ∷ ys) h o n i = elim (ℕ_discrete x y) [
  | yes e ↦
      subst (λ w. Linked (unlink w l) before (erase w (y ∷ ys))) (sym e)
        (subst (Linked (unlink y l) before) (sym (erase_first y ys))
          (Linked-behind l before y ys h o n))
  | no m ↦
      let j : In x ys = elim i [ inl g ↦ absurd (m g) | inr j ↦ j ] in
      subst (Linked (unlink x l) before) (sym (erase_later x y ys m)) (
        h.0,
        unlink-prev x y l (λ g. m (sym g))
              (λ g. elim (next-In l y x ys h.3 j) [
                | inl z ↦ h.0 (g ∙ z)
                | inr k ↦ o.0 (subst (λ w. In w ys) (sym g) k)
              ])
            ∙ h.1,
        next-erase l x y ys h.3 h.2 o h.0 j,
        unlink-Linked l y x ys h.3 o.1 o.0 j,
      )
]

-- Whether a node is the first or the last shows in its own links.
pub head_of-erase :
    (l : Links) (x : ℕ) (xs : List ℕ)
    → Linked l 0 xs
    → In x xs
    → head_of (erase x xs) ≡ (if l.prev x == 0 then l.next x else head_of xs)
head_of-erase l x [] h i = elim i [ ]
head_of-erase l x (y ∷ ys) h i = elim (ℕ_discrete x y) [
  | yes e ↦
      ap head_of (ap (λ w. erase w (y ∷ ys)) e ∙ erase_first y ys)
      ∙ sym h.2
      ∙ ap l.next (sym e)
      ∙ ap (λ b. if b then l.next x else y) (sym (==-true (l.prev x) 0 (ap l.prev e ∙ h.1)))
  | no n ↦
      let j : In x ys = elim i [ inl g ↦ absurd (n g) | inr j ↦ j ] in
      let p : l.prev x ≢ 0 = elim (prev-In l y x ys h.3 j) [
        | inl a ↦ λ z. h.0 (sym a ∙ z)
        | inr b ↦ Linked-ne_null l y (l.prev x) ys h.3 b
      ] in
      ap head_of (erase_later x y ys n)
      ∙ ap (λ b. if b then l.next x else y) (sym (==-false (l.prev x) 0 p))
]

last_behind :
    (l : Links) (before y : ℕ) (ys : List ℕ)
    → Linked l before (y ∷ ys)
    → last_of before ys ≡ (if l.next y == 0 then l.prev y else last_of y ys)
last_behind l before y [] h = rw (==-true (l.next y) 0 h.2) (sym h.1)
last_behind l before y (z ∷ zs) h = rw (==-false (l.next y) 0 (λ e. h.3.0 (sym h.2 ∙ e))) refl

pub last_of-erase :
    (l : Links) (before x : ℕ) (xs : List ℕ)
    → Linked l before xs
    → In x xs
    → last_of before (erase x xs) ≡ (if l.next x == 0 then l.prev x else last_of before xs)
last_of-erase l before x [] h i = elim i [ ]
last_of-erase l before x (y ∷ ys) h i = elim (ℕ_discrete x y) [
  | yes e ↦
      ap (λ w. last_of before (erase w (y ∷ ys))) e
      ∙ ap (last_of before) (erase_first y ys)
      ∙ last_behind l before y ys h
      ∙ ap (λ w. if l.next w == 0 then l.prev w else last_of before (y ∷ ys)) (sym e)
  | no n ↦
      let j : In x ys = elim i [ inl g ↦ absurd (n g) | inr j ↦ j ] in
      ap (last_of before) (erase_later x y ys n) ∙ last_of-erase l y x ys h.3 j
]
