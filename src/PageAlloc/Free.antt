-- ===== src/PageAlloc/Free.antt =====
-- What page_alloc_free does when the buddy is in use, and when it is the first of its list.
use z_os.Base.{
  ◌≢◌, ==-true, In, Once, ℕ, zero, suc, ◌-◌, ◌*◌, ◌/◌, ◌<◌, ◌≡◌, inl, inr, refl, sym, ap, ◌∙◌,
  subst, Bool, true, false, Bool-cases, ok, List, [], ◌∷◌, leb, ==-false, arith,
}
use z_os.Bits.Fields.{pow-pos}
use z_os.PageAlloc.{
  PageBits, Freeing, assertion_failed, running, returned, max_order, max_total_pages, page_size,
  Pages, free_list_push, calculate_buddy_page_frame_number, remove_buddy, merge_possible, merge,
  page_alloc_free,
}
use z_os.PageAlloc.Blocks.{IsFree, IsPages, free_list_push-Pushed, Held}

abbrev buddy_of : (order page : ℕ) → ℕ
buddy_of order page = calculate_buddy_page_frame_number page order

abbrev can_merge : (order page : ℕ) → Pages → Bool
can_merge order page s = merge_possible (s.page_bitmap (buddy_of order page)) order

-- The bitmap tells whether the buddy is on the list of the order.
can_merge-In :
    (order page : ℕ) (s : Pages)
    → IsPages s
    → can_merge order page s ≡ true
    → In (buddy_of order page) (s.free_lists order)
can_merge-In order page s v e =
    let b : PageBits = s.page_bitmap (buddy_of order page) in
    let f : b.is_free ≡ true = ground (arith, e) in
    let o : b.order ≡ order = ground (arith, e) in
    subst (λ w. In (buddy_of order page) (s.free_lists w)) o (v.honest (buddy_of order page) f)

In-can_merge :
    (order page : ℕ) (s : Pages)
    → IsPages s
    → In (buddy_of order page) (s.free_lists order)
    → can_merge order page s ≡ true
In-can_merge order page s v i =
    ap (λ b. merge_possible b order) (v.marked order (buddy_of order page) i)
    ∙ ==-true order order refl

no_merge :
    (fuel count order page : ℕ) (s s' : Pages)
    → can_merge order page s ≡ false
    → free_list_push order page s ≡ (ok, s')
    → merge fuel count order page s ≡ returned ok s'
unfolding merge
no_merge fuel zero order page s s' e f = rw f refl
no_merge fuel (suc count) order page s s' e f =
    elim (Bool-cases (leb max_total_pages (buddy_of order page))) [
      | inl h ↦ rw (h, f) refl
      | inr h ↦ rw (h, e, f) refl
    ]

page_of : (page : ℕ) → page * page_size / page_size ≡ page
page_of page = omega arith

-- A block that the caller holds, and whose buddy is on no list of its order, is freed without a
-- merge: the call returns 0, the state is in order, the marks of page_bitmap included, and exactly
-- the pages are free that were free before the caller got it.
pub page_alloc_free-Restored :
    (fuel order page : ℕ) (s₀ s : Pages)
    → Held s₀ order page s
    → (¬ In (calculate_buddy_page_frame_number page order) (s.free_lists order))
    → (s' : Pages) × (page_alloc_free fuel (page * page_size) order s ≡ returned ok s')
      × IsPages s'
      × ((x : ℕ) → (IsFree x s' → IsFree x s₀) × (IsFree x s₀ → IsFree x s'))
unfolding page_alloc_free
page_alloc_free-Restored fuel order page s₀ s h n =
    let (s', f, p) = free_list_push-Pushed order page s h.valid h.block h.off in
    let e : can_merge order page s ≡ false = elim (Bool-cases (can_merge order page s)) [
      | inl t ↦ absurd (n (can_merge-In order page s h.valid t))
      | inr u ↦ u
    ] in
    (
      s',
      rw (page_of page) (no_merge fuel (max_order - order) order page s s' e f),
      p.valid,
      λ x. (λ i. h.from x (p.from x i), λ i. p.to x (h.to x i)),
    )

-- How the loop goes on with `rest` behind the buddy at the head of the list.
abbrev pub stuck_with : List ℕ → Freeing
stuck_with [] = assertion_failed
stuck_with (next ∷ rest) = running

spins :
    (fuel buddy current next : ℕ) (rest : List ℕ) (done : List ℕ → Freeing)
    → next ≢ buddy
    → remove_buddy fuel buddy (current ∷ next ∷ rest) done ≡ running
unfolding remove_buddy
spins zero buddy current next rest done n = refl
spins (suc fuel) buddy current next rest done n =
    rw (==-false next buddy n) (spins fuel buddy current next rest done n)

remove_first :
    (fuel buddy : ℕ) (rest : List ℕ) (done : List ℕ → Freeing)
    → (¬ In buddy rest)
    → remove_buddy (suc fuel) buddy (buddy ∷ rest) done ≡ stuck_with rest
unfolding remove_buddy
remove_first fuel buddy [] done n = refl
remove_first fuel buddy (next ∷ rest) done n =
    spins (suc fuel) buddy buddy next rest done (λ e. n (inl (sym e)))

stuck :
    (fuel count order page : ℕ) (rest : List ℕ) (s : Pages)
    → buddy_of order page < max_total_pages
    → can_merge order page s ≡ true
    → s.free_lists order ≡ buddy_of order page ∷ rest
    → (¬ In (buddy_of order page) rest)
    → merge (suc fuel) (suc count) order page s ≡ stuck_with rest
unfolding merge
stuck fuel count order page rest s b e l n =
    rw (below, e, l, merge) (remove_first fuel (buddy_of order page) rest _ n)
  where
    below : leb max_total_pages (buddy_of order page) ≡ false
    below = ground arith

-- In a state of the allocator in order, freeing a block of an order below the largest whose buddy
-- is the first of its list does not return, however many turns the loop that looks for the buddy
-- is given, if another block is on the list, and fails the loop's assertion if there is none: the
-- loop compares only the page behind the first, and does not move on.
pub page_alloc_free-stuck :
    (fuel order page : ℕ) (rest : List ℕ) (s : Pages)
    → IsPages s
    → order < 10
    → s.free_lists order ≡ calculate_buddy_page_frame_number page order ∷ rest
    → page_alloc_free (suc fuel) (page * page_size) order s ≡ stuck_with rest
unfolding page_alloc_free
page_alloc_free-stuck fuel order page rest s v small l =
    let i : In (buddy_of order page) (s.free_lists order) =
      subst (In (buddy_of order page)) (sym l) (inl refl) in
    rw (page_of page) (
      subst (λ count. merge (suc fuel) count order page s ≡ stuck_with rest) (omega arith)
        (stuck fuel (9 - order) order page rest s
          (omega (arith, (v.blocks order (buddy_of order page) i).below, pow-pos order))
          (In-can_merge order page s v i) l (subst Once l (v.once order)).0))
