-- ===== src/BlockAllocator/Tiles.antt =====
-- Blocks with their headers that lie one behind the other, from `start` to `end`.
use native.Mathlib.Decide.{ℕ_discrete}
use z_os.Base.{
  In, Once, ne_of_mem, ℕ, ◌+◌, ◌≤◌, ◌≡◌, ◌≢◌, ◌⊎◌, inl, inr, refl, sym, ap, ◌∙◌, subst, List, [],
  ◌∷◌, ◌++◌, arith, ==-false, ==-true,
}
use z_os.Links.{Links, last_of, Linked, erase, insert_behind}
use z_os.Links.Unlink.{next-In}
use z_os.Links.Behind.{insert_behind_here, insert_behind_later}

abbrev pub Tiles : (size : ℕ → ℕ) → (start : ℕ) → List ℕ → (end : ℕ) → Type 0
Tiles size start [] end = start ≡ end
Tiles size start (x ∷ xs) end = (x ≡ start) × Tiles size (x + 56 + size x) xs end

pub Tiles-le : (size : ℕ → ℕ) (start end : ℕ) (xs : List ℕ) → Tiles size start xs end → start ≤ end
Tiles-le size start end [] t = omega arith
Tiles-le size start end (x ∷ xs) (e, t) = omega (arith, Tiles-le size (x + 56 + size x) end xs t)

pub Tiles-within :
    (size : ℕ → ℕ) (start end x : ℕ) (xs : List ℕ)
    → Tiles size start xs end
    → In x xs
    → (start ≤ x) × (x + 56 + size x ≤ end)
Tiles-within size start end x [] t i = elim i [ ]
Tiles-within size start end x (y ∷ ys) (e, t) (inl z) =
    subst (λ w. (start ≤ w) × (w + 56 + size w ≤ end)) (sym z)
      (omega arith, Tiles-le size (y + 56 + size y) end ys t)
Tiles-within size start end x (y ∷ ys) (e, t) (inr i) =
    let (a, b) = Tiles-within size (y + 56 + size y) end x ys t i in (omega arith, b)

pub Tiles-Once : (size : ℕ → ℕ) (start end : ℕ) (xs : List ℕ) → Tiles size start xs end → Once xs
Tiles-Once size start end [] t = tt
Tiles-Once size start end (x ∷ xs) (e, t) = (
  (λ i. omega (arith, (Tiles-within size (x + 56 + size x) end x xs t i).0)),
  Tiles-Once size (x + 56 + size x) end xs t,
)

-- Two blocks do not overlap.
pub Tiles-apart :
    (size : ℕ → ℕ) (start end x y : ℕ) (xs : List ℕ)
    → Tiles size start xs end
    → In x xs
    → In y xs
    → x ≢ y
    → (x + 56 + size x ≤ y) ⊎ (y + 56 + size y ≤ x)
Tiles-apart size start end x y [] t i j n = elim i [ ]
Tiles-apart size start end x y (z ∷ zs) (e, t) (inl a) (inl b) n = absurd (n (a ∙ sym b))
Tiles-apart size start end x y (z ∷ zs) (e, t) (inl a) (inr j) n =
    inl (
      subst (λ w. w + 56 + size w ≤ y) (sym a) (Tiles-within size (z + 56 + size z) end y zs t j).0)
Tiles-apart size start end x y (z ∷ zs) (e, t) (inr i) (inl b) n =
    inr (
      subst (λ w. w + 56 + size w ≤ x) (sym b) (Tiles-within size (z + 56 + size z) end x zs t i).0)
Tiles-apart size start end x y (z ∷ zs) (e, t) (inr i) (inr j) n =
    Tiles-apart size (z + 56 + size z) end x y zs t i j n

pub Tiles-same :
    (size size' : ℕ → ℕ) (start end : ℕ) (xs : List ℕ)
    → ((x : ℕ) → In x xs → size' x ≡ size x)
    → Tiles size start xs end
    → Tiles size' start xs end
Tiles-same size size' start end [] same t = t
Tiles-same size size' start end (x ∷ xs) same (e, t) = (
  e,
  subst (λ w. Tiles size' (x + 56 + w) xs end) (sym (same x (inl refl)))
      (Tiles-same size size' (x + 56 + size x) end xs (λ y i. same y (inr i)) t),
)

pub Tiles-append :
    (size : ℕ → ℕ) (start end : ℕ) (xs : List ℕ)
    → Tiles size start xs end
    → Tiles size start (xs ++ (end ∷ [])) (end + 56 + size end)
Tiles-append size start end [] t = (sym t, refl)
Tiles-append size start end (x ∷ xs) (e, t) = (e, Tiles-append size (x + 56 + size x) end xs t)

pub erase_here : (x : ℕ) (ys : List ℕ) → erase x (x ∷ ys) ≡ ys
erase_here x ys = rw (==-true x x refl) refl

pub erase_past : (x y : ℕ) (ys : List ℕ) → x ≢ y → erase x (y ∷ ys) ≡ y ∷ erase x ys
erase_past x y ys n = rw (==-false y x (λ e. n (sym e))) refl

-- A block becomes two.
pub Tiles-split :
    (size size' : ℕ → ℕ) (start end b : ℕ) (xs : List ℕ)
    → Tiles size start xs end
    → In b xs
    → size' b + 56 + size' (b + 56 + size' b) ≡ size b
    → ((x : ℕ) → In x xs → x ≢ b → size' x ≡ size x)
    → Tiles size' start (insert_behind b (b + 56 + size' b) xs) end
Tiles-split size size' start end b [] t i s same = elim i [ ]
Tiles-split size size' start end b (x ∷ xs) (e, t) i s same = elim (ℕ_discrete b x) [
  | yes z ↦
      let r : ℕ = b + 56 + size' b in
      let t' : Tiles size (b + 56 + size b) xs end =
        subst (λ w. Tiles size (w + 56 + size w) xs end) (sym z) t in
      subst (λ w. Tiles size' start w end)
        (sym (ap (λ w. insert_behind b r (w ∷ xs)) (sym z) ∙ insert_behind_here b r xs))
        (
          z ∙ e,
          (
            refl,
            subst (λ w. Tiles size' w xs end) (omega (arith, s))
                (Tiles-same size size' (b + 56 + size b) end xs
                  (λ y j. same y (inr j) (λ f.
                    (Tiles-Once size start end (x ∷ xs) (e, t)).0 (subst (λ w. In w xs) (f ∙ z) j)))
                  t'),
          ),
        )
  | no n ↦
      let j : In b xs = elim i [ inl g ↦ absurd (n g) | inr j ↦ j ] in
      subst (λ w. Tiles size' start w end) (sym (insert_behind_later b (b + 56 + size' b) x xs n))
        (
          e,
          subst (λ w. Tiles size' (x + 56 + w) (insert_behind b (b + 56 + size' b) xs) end)
              (sym (same x (inl refl) (λ f. n (sym f))))
              (Tiles-split size size' (x + 56 + size x) end b xs t j s (λ y k. same y (inr k))),
        )
]

-- Two blocks become one.
pub Tiles-merge :
    (size size' : ℕ → ℕ) (start end b n before : ℕ) (l : Links) (xs : List ℕ)
    → Tiles size start xs end
    → Linked l before xs
    → In b xs
    → l.next b ≡ n
    → n ≢ 0
    → size' b ≡ size b + 56 + size n
    → ((x : ℕ) → In x xs → x ≢ b → x ≢ n → size' x ≡ size x)
    → Tiles size' start (erase n xs) end
Tiles-merge size size' start end b n before l [] t k i f p s same = elim i [ ]
Tiles-merge size size' start end b n before l (x ∷ []) (e, t) k (inl z) f p s same =
    absurd (p (sym f ∙ ap l.next z ∙ k.2))
Tiles-merge size size' start end b n before l (x ∷ []) (e, t) k (inr j) f p s same = elim j [ ]
Tiles-merge size size' start end b n before l (x ∷ y ∷ ys) (e, (g, t)) k i f p s same =
    let o : Once (x ∷ y ∷ ys) = Tiles-Once size start end (x ∷ y ∷ ys) (e, (g, t)) in
    elim (ℕ_discrete b x) [
      | yes z ↦
          let h : n ≡ y = sym f ∙ ap l.next z ∙ k.2 in
          let m : n ≢ x = λ w. o.0 (inl (sym w ∙ h)) in
          let r : Tiles size' (x + 56 + size' x) ys end =
            subst (λ w. Tiles size' w ys end)
              (omega (arith, g, ap size' z, ap size z, ap size h, s))
              (Tiles-same size size' (y + 56 + size y) end ys
                (λ w j.
                  same w (inr (inr j)) (λ q. o.0 (inr (subst (λ v. In v ys) (q ∙ z) j)))
                    (λ q. o.1.0 (subst (λ v. In v ys) (q ∙ h) j)))
                t) in
          subst (λ w. Tiles size' start w end)
            (sym (
              erase_past n x (y ∷ ys) m
              ∙ ap (λ w. x ∷ erase w (y ∷ ys)) h
              ∙ ap (λ w. x ∷ w) (erase_here y ys)))
            (e, r)
      | no q ↦
          let j : In b (y ∷ ys) = elim i [ inl w ↦ absurd (q w) | inr j ↦ j ] in
          let c : In n (y ∷ ys) =
            subst (λ w. In w (y ∷ ys)) f
              (elim (next-In l x b (y ∷ ys) k.3 j) [
                | inl w ↦ absurd (p (sym f ∙ w))
                | inr c ↦ c
              ]) in
          let m : n ≢ x = ne_of_mem n x (y ∷ ys) c o.0 in
          subst (λ w. Tiles size' start w end) (sym (erase_past n x (y ∷ ys) m))
            (
              e,
              subst (λ w. Tiles size' (x + 56 + w) (erase n (y ∷ ys)) end)
                  (sym (same x (inl refl) (λ w. q (sym w)) (λ w. m (sym w))))
                  (Tiles-merge size size' (x + 56 + size x) end b n x l (y ∷ ys) (g, t) k.3 j f p s
                    (λ w d. same w (inr d))),
            )
    ]

pub Tiles-last :
    (size : ℕ → ℕ) (start end x : ℕ) (xs : List ℕ)
    → Tiles size start (x ∷ xs) end
    → last_of x xs + 56 + size (last_of x xs) ≡ end
Tiles-last size start end x [] (e, t) = t
Tiles-last size start end x (y ∷ ys) (e, t) = Tiles-last size (x + 56 + size x) end y ys t

-- The next block lies right behind a block.
pub Tiles-next :
    (size : ℕ → ℕ) (start end before x : ℕ) (l : Links) (xs : List ℕ)
    → Tiles size start xs end
    → Linked l before xs
    → In x xs
    → l.next x ≢ 0
    → l.next x ≡ x + 56 + size x
Tiles-next size start end before x l [] t k i n = elim i [ ]
Tiles-next size start end before x l (y ∷ []) (e, t) k (inl f) n = absurd (n (ap l.next f ∙ k.2))
Tiles-next size start end before x l (y ∷ []) (e, t) k (inr i) n = elim i [ ]
Tiles-next size start end before x l (y ∷ z ∷ zs) (e, (g, t)) k (inl f) n =
    subst (λ w. l.next w ≡ w + 56 + size w) (sym f) (k.2 ∙ g)
Tiles-next size start end before x l (y ∷ z ∷ zs) (e, (g, t)) k (inr i) n =
    Tiles-next size (y + 56 + size y) end y x l (z ∷ zs) (g, t) k.3 i n
