-- ===== src/PageAlloc/Blocks.antt =====
-- The free blocks as sets of pages: no two overlap, each is aligned to its size, and the bitmap marks
-- their first pages.
use native.Mathlib.Decide.{ℕ_discrete}
use z_os.Base.{
  update, update_self, update_other, true, In, Once, ℕ, ◌+◌, ◌*◌, ◌^◌, ◌≤◌, ◌<◌, ◌≡◌, ◌⊎◌, inl, inr,
  refl, sym, ap, ◌∙◌, subst, false, ok, List, ◌∷◌, ltb, leb, ==-false, ==-true, if◌then◌else◌,
  arith,
}
use z_os.Bits.Fields.{pow-pos}
use z_os.PageAlloc.{
  max_order, max_total_pages, Pages, set_list, set_bits, free_bits, used_bits, free_list_push,
}

-- A page of a block.
abbrev pub Within : (x order page : ℕ) → Type 0
Within x order page = (page ≤ x) × (x < page + 2 ^ order)

abbrev pub IsFree : ℕ → Pages → Type 0
IsFree x s = (order page : ℕ) × In page (s.free_lists order) × Within x order page

-- A block: aligned, and below the number of pages.
pub record IsBlock (order page : ℕ) : Type 0 where
  pub small : order ≤ 10
  pub index : ℕ
  pub aligned : page ≡ index * 2 ^ order
  pub below : page + 2 ^ order ≤ 0x1000000

pub record IsPages (s : Pages) : Type 0 where
  pub once : (order : ℕ) → Once (s.free_lists order)
  pub blocks : (order page : ℕ) → In page (s.free_lists order) → IsBlock order page
  pub apart :
      (x o p o' p' : ℕ)
      → In p (s.free_lists o)
      → Within x o p
      → In p' (s.free_lists o')
      → Within x o' p'
      → (o ≡ o') × (p ≡ p')
  pub marked :
      (order page : ℕ) → In page (s.free_lists order) → s.page_bitmap page ≡ free_bits order
  pub honest :
      (page : ℕ)
      → (s.page_bitmap page).is_free ≡ true
      → In page (s.free_lists (s.page_bitmap page).order)

-- What a block that is pushed leaves: its list has one more.
abbrev pub pushed : ℕ → ℕ → Pages → Pages
pushed order page s = set_bits page (free_bits order) (set_list order (page ∷ s.free_lists order) s)

In-pushed :
    (order page o p : ℕ) (s : Pages)
    → In p ((pushed order page s).free_lists o)
    → ((o ≡ order) × (p ≡ page)) ⊎ In p (s.free_lists o)
In-pushed order page o p s i = elim (ℕ_discrete o order) [
  | yes e ↦
      let i' : In p (page ∷ s.free_lists order) =
        subst (In p)
          (ap (λ z. if z then page ∷ s.free_lists order else s.free_lists o) (==-true o order e))
          i in
      elim i' [ inl z ↦ inl (e, z) | inr j ↦ inr (subst (λ z. In p (s.free_lists z)) (sym e) j) ]
  | no n ↦ inr (
      subst (In p)
        (ap (λ z. if z then page ∷ s.free_lists order else s.free_lists o) (==-false o order n)) i)
]

pushed-In :
    (order page o p : ℕ) (s : Pages)
    → ((o ≡ order) × (p ≡ page)) ⊎ In p (s.free_lists o)
    → In p ((pushed order page s).free_lists o)
pushed-In order page o p s (inl (e, z)) = rw (==-true o order e) (inl z)
pushed-In order page o p s (inr i) = elim (ℕ_discrete o order) [
  | yes e ↦ rw (==-true o order e) (inr (subst (λ z. In p (s.free_lists z)) e i))
  | no n ↦ rw (==-false o order n) i
]

pub starts : (order page : ℕ) → Within page order page
starts order page = (omega arith, omega (arith, pow-pos order))

pushed-IsPages :
    (order page : ℕ) (s : Pages)
    → IsPages s
    → IsBlock order page
    → ((x : ℕ) → Within x order page → ¬ IsFree x s)
    → IsPages (pushed order page s)
pushed-IsPages order page s v b off = record {
  once = λ o. elim (ℕ_discrete o order) [
    | yes e ↦
        rw (==-true o order e)
          ((λ i. off page (starts order page) (order, page, i, starts order page)), v.once order)
    | no n ↦ rw (==-false o order n) (v.once o)
  ];
  blocks = λ o p i. elim (In-pushed order page o p s i) [
    | inl (e, z) ↦ rw (e, z) b
    | inr j ↦ v.blocks o p j
  ];
  apart = λ x o p o' p' i w i' w'. elim (In-pushed order page o p s i) [
    | inl (e, z) ↦ elim (In-pushed order page o' p' s i') [
      | inl (e', z') ↦ (e ∙ sym e', z ∙ sym z')
      | inr j' ↦ absurd (off x (rw (sym e, sym z) w) (o', p', j', w'))
    ]
    | inr j ↦ elim (In-pushed order page o' p' s i') [
      | inl (e', z') ↦ absurd (off x (rw (sym e', sym z') w') (o, p, j, w))
      | inr j' ↦ v.apart x o p o' p' j w j' w'
    ]
  ];
  marked = λ o p i. elim (In-pushed order page o p s i) [
    | inl (e, z) ↦
        ap (update s.page_bitmap page (free_bits order)) z
        ∙ update_self s.page_bitmap page (free_bits order)
        ∙ ap free_bits (sym e)
    | inr j ↦
        update_other s.page_bitmap page p (free_bits order)
          (λ z. off page (starts order page) (o, p, j, subst (λ q. Within q o p) z (starts o p)))
        ∙ v.marked o p j
  ];
  honest = λ p f. elim (ℕ_discrete p page) [
    | yes z ↦
        let b : update s.page_bitmap page (free_bits order) p ≡ free_bits order =
          ap (update s.page_bitmap page (free_bits order)) z
          ∙ update_self s.page_bitmap page (free_bits order) in
        pushed-In order page _ p s (inl (ap (λ w. w.order) b, z))
    | no n ↦
        let b : update s.page_bitmap page (free_bits order) p ≡ s.page_bitmap p =
          update_other s.page_bitmap page p (free_bits order) n in
        pushed-In order page _ p s (
          inr (
            subst (λ w. In p (s.free_lists w.order)) (sym b)
              (v.honest p (ap (λ w. w.is_free) (sym b) ∙ f))))
  ];
}

-- A block that is pushed: its pages are free, besides those that were.
pub record Pushed (order page : ℕ) (s s' : Pages) : Type 0 where
  pub valid : IsPages s'
  pub from : (x : ℕ) → IsFree x s' → IsFree x s ⊎ Within x order page
  pub to : (x : ℕ) → IsFree x s ⊎ Within x order page → IsFree x s'

push_call :
    (order page : ℕ) (s : Pages)
    → IsBlock order page
    → free_list_push order page s ≡ (ok, pushed order page s)
unfolding free_list_push
push_call order page s b = rw (small, below) refl
  where
    small : ltb max_order order ≡ false
    small = ground (arith, b.small)

    below : leb max_total_pages page ≡ false
    below = ground (arith, b.below, pow-pos order)

pub free_list_push-Pushed :
    (order page : ℕ) (s : Pages)
    → IsPages s
    → IsBlock order page
    → ((x : ℕ) → Within x order page → ¬ IsFree x s)
    → (s' : Pages) × (free_list_push order page s ≡ (ok, s')) × Pushed order page s s'
free_list_push-Pushed order page s v b off = (
  pushed order page s,
  push_call order page s b,
  record {
    valid = pushed-IsPages order page s v b off;
    from = λ x (o, p, i, w). elim (In-pushed order page o p s i) [
      | inl (e, z) ↦ inr (rw (sym e, sym z) w)
      | inr j ↦ inl (o, p, j, w)
    ];
    to = λ x f. elim f [
      | inl (o, p, i, w) ↦ (o, p, pushed-In order page o p s (inr i), w)
      | inr w ↦ (order, page, pushed-In order page order page s (inl (refl, refl)), w)
    ];
  },
)

abbrev pub popped : ℕ → ℕ → List ℕ → Pages → Pages
popped order page rest s = set_bits page (used_bits order) (set_list order rest s)

pub In-popped :
    (order page o p : ℕ) (rest : List ℕ) (s : Pages)
    → s.free_lists order ≡ page ∷ rest
    → In p ((popped order page rest s).free_lists o)
    → In p (s.free_lists o)
In-popped order page o p rest s e i = elim (ℕ_discrete o order) [
  | yes z ↦
      let j : In p rest =
        subst (In p) (ap (λ b. if b then rest else s.free_lists o) (==-true o order z)) i in
      subst (In p) (sym e ∙ ap s.free_lists (sym z)) (inr j)
  | no n ↦ subst (In p) (ap (λ b. if b then rest else s.free_lists o) (==-false o order n)) i
]

pub popped-In :
    (order page o p : ℕ) (rest : List ℕ) (s : Pages)
    → s.free_lists order ≡ page ∷ rest
    → In p (s.free_lists o)
    → ((o ≡ order) × (p ≡ page)) ⊎ In p ((popped order page rest s).free_lists o)
popped-In order page o p rest s e i = elim (ℕ_discrete o order) [
  | yes z ↦
      let j : In p (page ∷ rest) = subst (In p) (ap s.free_lists z ∙ e) i in
      elim j [ inl y ↦ inl (z, y) | inr k ↦ inr (rw (==-true o order z) k) ]
  | no n ↦ inr (rw (==-false o order n) i)
]

-- A block that the caller holds: none of its pages is free, and they and the free ones are those
-- that were free in `s₀`.
pub record Held (s₀ : Pages) (order page : ℕ) (s : Pages) : Type 0 where
  pub valid : IsPages s
  pub block : IsBlock order page
  pub off : (x : ℕ) → Within x order page → ¬ IsFree x s
  pub from : (x : ℕ) → IsFree x s ⊎ Within x order page → IsFree x s₀
  pub to : (x : ℕ) → IsFree x s₀ → IsFree x s ⊎ Within x order page
