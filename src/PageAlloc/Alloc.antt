-- ===== src/PageAlloc/Alloc.antt =====
-- page_alloc_block gives a block of free pages, and takes just these away.
use native.Mathlib.Decide.{ℕ_discrete}
use native.Mathlib.Nat.{pow-succ', mod-eq_of_lt}
use z_os.Base.{
  update, update_self, update_other, not_both, true, In, Once, ℕ, zero, suc, ◌+◌, ◌-◌, ◌*◌, ◌^◌,
  ◌≤◌, ◌<◌, ◌≡◌, ◌⊎◌, inl, inr, refl, sym, ap, ◌∙◌, subst, some, none, ok, List, [], ◌∷◌, ==-false,
  ==-true, if◌then◌else◌, arith,
}
use z_os.Bits.Fields.{pow-pos}
use z_os.PageAlloc.{
  max_order, page_size, Pages, set_bits, used_bits, free_list_pop, find_block, split_block,
  page_alloc_block,
}
use z_os.PageAlloc.Blocks.{
  Within, IsFree, IsBlock, IsPages, Pushed, free_list_push-Pushed, popped, In-popped, popped-In,
  Held, starts,
}

-- The block that is taken off its list is not on it any more.
popped-off :
    (order page x : ℕ) (rest : List ℕ) (s : Pages)
    → IsPages s
    → s.free_lists order ≡ page ∷ rest
    → Within x order page
    → ¬ IsFree x (popped order page rest s)
popped-off order page x rest s v e w (o, p, i, w') =
    let (z, y) =
      v.apart x o p order page (In-popped order page o p rest s e i) w'
        (subst (In page) (sym e) (inl refl)) w in
    (subst Once e (v.once order)).0 (
      subst (λ q. In q rest) y
        (subst (In p) (ap (λ b. if b then rest else s.free_lists o) (==-true o order z)) i))

used_free :
    (order page p : ℕ) (s : Pages)
    → p ≡ page
    → ¬ ((update s.page_bitmap page (used_bits order) p).is_free ≡ true)
used_free order page p s z f = not_both _ f (
    ap (λ w. w.is_free)
      (ap (update s.page_bitmap page (used_bits order)) z
        ∙ update_self s.page_bitmap page (used_bits order)))

popped-IsPages :
    (order page : ℕ) (rest : List ℕ) (s : Pages)
    → IsPages s
    → s.free_lists order ≡ page ∷ rest
    → IsPages (popped order page rest s)
popped-IsPages order page rest s v e = record {
  once = λ o. elim (ℕ_discrete o order) [
    | yes z ↦ rw (==-true o order z) ((subst Once e (v.once order)).1)
    | no n ↦ rw (==-false o order n) (v.once o)
  ];
  blocks = λ o p i. v.blocks o p (In-popped order page o p rest s e i);
  apart = λ x o p o' p' i w i' w'.
      v.apart x o p o' p' (In-popped order page o p rest s e i) w
        (In-popped order page o' p' rest s e i') w';
  marked = λ o p i.
      update_other s.page_bitmap page p (used_bits order) (λ z.
        popped-off order page page rest s v e (starts order page)
          (o, p, i, subst (λ q. Within q o p) z (starts o p)))
      ∙ v.marked o p (In-popped order page o p rest s e i);
  honest = λ p f. elim (ℕ_discrete p page) [
    | yes z ↦ absurd (used_free order page p s z f)
    | no n ↦
        let b : update s.page_bitmap page (used_bits order) p ≡ s.page_bitmap p =
          update_other s.page_bitmap page p (used_bits order) n in
        let i : In p (s.free_lists (update s.page_bitmap page (used_bits order) p).order) =
          subst (λ w. In p (s.free_lists w.order)) (sym b)
            (v.honest p (ap (λ w. w.is_free) (sym b) ∙ f)) in
        elim (popped-In order page _ p rest s e i) [ inl (_, z) ↦ absurd (n z) | inr k ↦ k ]
  ];
}

popped-Held :
    (order page : ℕ) (rest : List ℕ) (s : Pages)
    → IsPages s
    → s.free_lists order ≡ page ∷ rest
    → Held s order page (popped order page rest s)
popped-Held order page rest s v e = record {
  valid = popped-IsPages order page rest s v e;
  block = v.blocks order page (subst (In page) (sym e) (inl refl));
  off = λ x w. popped-off order page x rest s v e w;
  from = λ x f. elim f [
    | inl (o, p, i, w) ↦ (o, p, In-popped order page o p rest s e i, w)
    | inr w ↦ (order, page, subst (In page) (sym e) (inl refl), w)
  ];
  to = λ x (o, p, i, w). elim (popped-In order page o p rest s e i) [
    | inl (z, y) ↦ inr (rw (sym z, sym y) w)
    | inr j ↦ inl (o, p, j, w)
  ];
}

lower-IsBlock : (order page : ℕ) → IsBlock (suc order) page → IsBlock order page
lower-IsBlock order page b = record {
  small = omega (arith, b.small);
  index = 2 * b.index;
  aligned = b.aligned ∙ rw (pow-succ' 2 order) (omega arith);
  below = omega (arith, b.below, pow-succ' 2 order);
}

upper-IsBlock : (order page : ℕ) → IsBlock (suc order) page → IsBlock order (page + 2 ^ order)
upper-IsBlock order page b = record {
  small = omega (arith, b.small);
  index = 2 * b.index + 1;
  aligned = ap (λ x. x + 2 ^ order) b.aligned ∙ rw (pow-succ' 2 order) (omega arith);
  below = omega (arith, b.below, pow-succ' 2 order);
}

halves :
    (x order page : ℕ)
    → Within x (suc order) page
    → Within x order page ⊎ Within x order (page + 2 ^ order)
halves x order page (a, b) = ground (arith, a, b, pow-succ' 2 order)

lower_half : (x order page : ℕ) → Within x order page → Within x (suc order) page
lower_half x order page (a, b) = (a, omega (arith, b, pow-succ' 2 order))

upper_half : (x order page : ℕ) → Within x order (page + 2 ^ order) → Within x (suc order) page
upper_half x order page (a, b) = (omega (arith, a), omega (arith, b, pow-succ' 2 order))

-- The upper half of a block becomes free, the lower half stays.
halved-Held :
    (order page : ℕ) (s₀ s s' : Pages)
    → Held s₀ (suc order) page s
    → Pushed order (page + 2 ^ order) s s'
    → Held s₀ order page s'
halved-Held order page s₀ s s' h p = record {
  valid = p.valid;
  block = lower-IsBlock order page h.block;
  off = λ x w f. elim (p.from x f) [
    | inl g ↦ h.off x (lower_half x order page w) g
    | inr u ↦ omega (arith, w.1, u.0)
  ];
  from = λ x f. elim f [
    | inl g ↦ elim (p.from x g) [
      | inl k ↦ h.from x (inl k)
      | inr u ↦ h.from x (inr (upper_half x order page u))
    ]
    | inr w ↦ h.from x (inr (lower_half x order page w))
  ];
  to = λ x f. elim (h.to x f) [
    | inl g ↦ inl (p.to x (inl g))
    | inr w ↦ elim (halves x order page w) [ inl l ↦ inr l | inr u ↦ inl (p.to x (inr u)) ]
  ];
}

split_block-Held :
    (count order page : ℕ) (s₀ s : Pages)
    → Held s₀ (order + count) page s
    → (s' : Pages) × (split_block count order page s ≡ (ok, s')) × Held s₀ order page s'
unfolding split_block
split_block-Held zero order page s₀ s h = (s, refl, subst (λ o. Held s₀ o page s) (omega arith) h)
split_block-Held (suc count) order page s₀ s h =
    let h₁ : Held s₀ (suc (order + count)) page s = subst (λ o. Held s₀ o page s) (omega arith) h in
    let (s₁, e₁, p) =
      free_list_push-Pushed (order + count) (page + 2 ^ (order + count)) s h₁.valid
        (upper-IsBlock (order + count) page h₁.block)
        (λ x w. h₁.off x (upper_half x (order + count) page w)) in
    let (s₂, e₂, h₂) =
      split_block-Held count order page s₀ s₁ (halved-Held (order + count) page s₀ s s₁ h₁ p) in
    (s₂, rw (e₁, split_block) e₂, h₂)

pop_found :
    (order page : ℕ) (rest : List ℕ) (s : Pages)
    → s.free_lists order ≡ page ∷ rest
    → free_list_pop order s ≡ some (page, popped order page rest s)
unfolding free_list_pop
pop_found order page rest s e = rw (e, free_list_pop) refl

pop_empty : (order : ℕ) (s : Pages) → s.free_lists order ≡ [] → free_list_pop order s ≡ none
unfolding free_list_pop
pop_empty order s e = rw (e, free_list_pop) refl

-- The first order with a free block, or that there is none.
abbrev Search : (count order : ℕ) → Pages → Type 0
Search count order s =
    ((found page : ℕ) × (rest : List ℕ) × (find_block count order s
        ≡ some (found, page, popped found page rest s))
      × (order ≤ found)
      × (s.free_lists found ≡ page ∷ rest))
    ⊎ ((find_block count order s ≡ none)
        × ((o : ℕ) → order ≤ o → o < order + count → s.free_lists o ≡ []))

List-cases : (xs : List ℕ) → (xs ≡ []) ⊎ ((y : ℕ) × (ys : List ℕ) × (xs ≡ y ∷ ys))
List-cases [] = inl refl
List-cases (y ∷ ys) = inr (y, ys, refl)

find_block-Search : (count order : ℕ) (s : Pages) → Search count order s
unfolding find_block
find_block-Search zero order s = inr (refl, λ o a b. absurd (omega arith))
find_block-Search (suc count) order s = elim (List-cases (s.free_lists order)) [
  | inr (page, rest, e) ↦
      inl (order, page, rest, rw (pop_found order page rest s e, find_block) refl, omega arith, e)
  | inl e ↦ elim (find_block-Search count (suc order) s) [
    | inl (found, page, rest, f, l, e') ↦
        inl (found, page, rest, rw (pop_empty order s e, find_block) f, omega arith, e')
    | inr (f, none_left) ↦ inr (
      rw (pop_empty order s e, find_block) f,
      λ o a b. elim (ℕ_discrete o order) [
        | yes z ↦ ap s.free_lists z ∙ e
        | no n ↦ none_left o (omega arith) (omega arith)
      ],
    )
  ]
]

-- The block is marked as in use at its own order.
marked-Held :
    (order page : ℕ) (s₀ s : Pages)
    → Held s₀ order page s
    → Held s₀ order page (set_bits page (used_bits order) s)
marked-Held order page s₀ s h = record {
  valid = record {
    once = h.valid.once;
    blocks = h.valid.blocks;
    apart = h.valid.apart;
    marked = λ o p i.
        update_other s.page_bitmap page p (used_bits order)
          (λ z. h.off page (starts order page) (o, p, i, subst (λ q. Within q o p) z (starts o p)))
        ∙ h.valid.marked o p i;
    honest = λ p f. elim (ℕ_discrete p page) [
      | yes z ↦ absurd (used_free order page p s z f)
      | no n ↦
          let b : update s.page_bitmap page (used_bits order) p ≡ s.page_bitmap p =
            update_other s.page_bitmap page p (used_bits order) n in
          subst (λ w. In p (s.free_lists w.order)) (sym b)
            (h.valid.honest p (ap (λ w. w.is_free) (sym b) ∙ f))
    ];
  };
  block = h.block;
  off = h.off;
  from = h.from;
  to = h.to;
}

alloc_call :
    (order found page : ℕ) (s s₁ s₂ : Pages)
    → find_block (suc max_order - order) order s ≡ some (found, page, s₁)
    → split_block (found - order) order page s₁ ≡ (ok, s₂)
    → IsBlock order page
    → page_alloc_block order s ≡ (some (page * page_size), set_bits page (used_bits order) s₂)
unfolding page_alloc_block
alloc_call order found page s s₁ s₂ f e b =
    rw (f, page_alloc_block) (rw (e, mod-eq_of_lt small) refl)
  where
    small : page * page_size < 2 ^ 64
    small = omega (arith, b.below, pow-pos order)

-- In a state of the allocator in order (the lists' blocks are aligned, apart and below the largest
-- page, and page_bitmap marks a block's first page as free with the block's order exactly if it is
-- on the list of that order), an allocation of a block of an order up to 10 gives an aligned block
-- below the largest page whose pages were all free; they, and no others, are not free any more,
-- page_bitmap marks the block as used, and the state is still in order. It fails only when no list
-- from the order on has a block, and changes nothing then.
pub page_alloc_block-Held :
    (order : ℕ) (s : Pages)
    → order ≤ 10
    → IsPages s
    → ((page : ℕ) × (s' : Pages) × (page_alloc_block order s ≡ (some (page * page_size), s'))
        × Held s order page s'
        × (s'.page_bitmap page ≡ used_bits order))
      ⊎ ((page_alloc_block order s ≡ (none, s))
          × ((o : ℕ) → order ≤ o → o ≤ 10 → s.free_lists o ≡ []))
unfolding page_alloc_block
page_alloc_block-Held order s small v = elim (find_block-Search (suc max_order - order) order s) [
  | inl (found, page, rest, f, l, e) ↦
      let (s₂, e₂, h) = split_block-Held (found - order) order page s (popped found page rest s) (
        subst (λ o. Held s o page (popped found page rest s)) (omega arith)
          (popped-Held found page rest s v e)) in
      inl (
        page,
        set_bits page (used_bits order) s₂,
        alloc_call order found page s _ s₂ f e₂ h.block,
        marked-Held order page s s₂ h,
        update_self s₂.page_bitmap page (used_bits order),
      )
  | inr (f, none_left) ↦ inr (rw (f, page_alloc_block) refl, λ o a b. none_left o a (omega arith))
]
