-- ===== src/PageAlloc/Tests.antt =====
-- Four free pages as one block, and the theorems at them.
use native.Mathlib.Decide.{ℕ_discrete}
use z_os.Base.{
  not_both, ==-false, sym, ap, In, ℕ, ◌*◌, ◌≤◌, ◌≡◌, ◌⊎◌, inl, inr, refl, subst, some, none, ok,
  List, [], ◌∷◌, ◌==◌, if◌then◌else◌, arith,
}
use z_os.Mmap.Boot.{MemoryDescriptor, usable, reserved}
use z_os.PageAlloc.{
  Pages, page_size, free_bits, used_bits, returned, calculate_buddy_page_frame_number,
  page_alloc_block, page_alloc_free,
}
use z_os.PageAlloc.Blocks.{IsFree, IsPages, Within, Held}
use z_os.PageAlloc.Alloc.{page_alloc_block-Held}
use z_os.PageAlloc.Free.{page_alloc_free-Restored, page_alloc_free-stuck, stuck_with}

-- Pages 4 to 7 are one free block.
abbrev pages : Pages
pages = record {
  free_lists = λ o. if o == 2 then 4 ∷ [] else [];
  page_bitmap = λ p. if p == 4 then free_bits 2 else used_bits 2;
}

one_block : (o p : ℕ) → In p (pages.free_lists o) → (o ≡ 2) × (p ≡ 4)
one_block o p i = ground arith

In-Within : (x o p : ℕ) → In p (pages.free_lists o) → Within x o p → Within x 2 4
In-Within x o p i w =
    let (e, z) = one_block o p i in subst (λ q. Within x 2 q) z (subst (λ n. Within x n p) e w)

pages-IsPages : IsPages pages
pages-IsPages = record {
  once = λ o. ground arith;
  blocks = λ o p i.
      let (e, z) = one_block o p i in
      rw (e, z) (record { small = omega arith; index = 1; aligned = refl; below = omega arith });
  apart = λ x o p o' p' i w i' w'. ground (arith, one_block o p i, one_block o' p' i');
  marked = λ o p i.
      let (e, z) = one_block o p i in
      subst (λ w. (if w == 4 then free_bits 2 else used_bits 2) ≡ free_bits o) (sym z)
        (ap free_bits (sym e));
  honest = λ p f. elim (ℕ_discrete p 4) [
    | yes z ↦ subst (λ w. In w (pages.free_lists (pages.page_bitmap w).order)) (sym z) (inl refl)
    | no n ↦
        absurd (
          not_both _ f
            (ap (λ b. (if b then free_bits 2 else used_bits 2).is_free) (==-false p 4 n)))
  ];
}

page_alloc_block-Held_example :
    ((page : ℕ) × (s' : Pages) × (page_alloc_block 0 pages ≡ (some (page * page_size), s'))
      × Held pages 0 page s'
      × (s'.page_bitmap page ≡ used_bits 0))
    ⊎ ((page_alloc_block 0 pages ≡ (none, pages))
        × ((o : ℕ) → 0 ≤ o → o ≤ 10 → pages.free_lists o ≡ []))
page_alloc_block-Held_example = page_alloc_block-Held 0 pages (omega arith) pages-IsPages

-- The caller holds pages 8 to 11, and the pages of both blocks were free before.
abbrev before : Pages
before = record {
  free_lists = λ o. if o == 2 then 4 ∷ 8 ∷ [] else [];
  page_bitmap = λ p. used_bits 2;
}

two_blocks : (o p : ℕ) → In p (before.free_lists o) → (o ≡ 2) × ((p ≡ 4) ⊎ (p ≡ 8))
two_blocks o p i = ground arith

pages-Held : Held before 2 8 pages
pages-Held = record {
  valid = pages-IsPages;
  block = record { small = omega arith; index = 2; aligned = refl; below = omega arith };
  off = λ x w (o, p, i, w'). omega (arith, w.0, (In-Within x o p i w').1);
  from = λ x f. elim f [
    | inl (o, p, i, w) ↦ (2, 4, inl refl, In-Within x o p i w)
    | inr w ↦ (2, 8, inr (inl refl), w)
  ];
  to = λ x (o, p, i, w).
      let (e, place) = two_blocks o p i in
      elim place [
        | inl z ↦ inl (2, 4, inl refl, subst (λ q. Within x 2 q) z (subst (λ n. Within x n p) e w))
        | inr z ↦ inr (subst (λ q. Within x 2 q) z (subst (λ n. Within x n p) e w))
      ];
}

buddy_apart : ¬ (calculate_buddy_page_frame_number 8 2 ≡ 4)
unfolding calculate_buddy_page_frame_number
buddy_apart e = omega (arith, e)

first_is_buddy : pages.free_lists 2 ≡ calculate_buddy_page_frame_number 0 2 ∷ []
unfolding calculate_buddy_page_frame_number
first_is_buddy = refl

page_alloc_free-Restored_example :
    (s' : Pages) × (page_alloc_free 0 (8 * page_size) 2 pages ≡ returned ok s')
    × IsPages s'
    × ((x : ℕ) → (IsFree x s' → IsFree x before) × (IsFree x before → IsFree x s'))
page_alloc_free-Restored_example =
    page_alloc_free-Restored 0 2 8 before pages pages-Held (λ i. buddy_apart (one_block 2 _ i).1)

-- Pages 0 to 3 are freed while their buddy, 4 to 7, is the only block of its list.
page_alloc_free-stuck_example : page_alloc_free 6 (0 * page_size) 2 pages ≡ stuck_with []
page_alloc_free-stuck_example =
    page_alloc_free-stuck 5 2 0 [] pages pages-IsPages (omega arith) first_is_buddy

abbrev descriptors : List MemoryDescriptor
descriptors =
    record { physical_start_address = 0x4000; number_of_pages = 4; type = usable }
    ∷ record { physical_start_address = 0x8000; number_of_pages = 2; type = reserved }
    ∷ []
