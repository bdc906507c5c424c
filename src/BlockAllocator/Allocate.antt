-- ===== src/BlockAllocator/Allocate.antt =====
-- Allocation: from the block that is found to the one in use.
use native.Mathlib.Decide.{dec_le, ℕ_discrete}
use z_os.Base.{
  not_both, In, ne_of_mem, update, update_self, update_other, ℕ, ◌+◌, ◌^◌, ◌≤◌, ◌<◌, ◌≡◌, ◌≢◌, ◌⊎◌,
  inl, inr, refl, sym, ap, ◌∙◌, subst, Bool, true, false, some, List, ◌∷◌, length, arith, sub64,
  leb, Bool-cases, ==-false,
}
use z_os.Links.{insert_behind, erase}
use z_os.Links.Behind.{In-insert_behind, inserted-In, insert_behind-In}
use z_os.BlockAllocator.{
  Backing, Headers, BlockAllocator, add_block_to_free_list, remove_block_from_free_list, set_free,
  split_block, take_block, find_or_create_free_block, block_allocator_allocate,
}
use z_os.BlockAllocator.Tiles.{Tiles-within, Tiles-apart}
use z_os.BlockAllocator.Heap.{IsHeap, Used, add-IsHeap, take-IsHeap}
use z_os.BlockAllocator.Split.{
  add64-no_wrap, cut, outside, cut-IsHeapBut, split_block_small, split_block_large,
}
use z_os.BlockAllocator.Ready.{Ready, find_or_create_free_block-Ready}

added-Ready :
    (size b : ℕ) (a a' : BlockAllocator) (blocks : List ℕ)
    → (r : Ready size a blocks b a') → size + 56 < a'.headers.size b
    → Ready size a blocks b (add_block_to_free_list (b + size + 56) (cut b size a'))
      × ((add_block_to_free_list (b + size + 56) (cut b size a')).headers.size b ≡ size)
unfolding add_block_to_free_list
added-Ready size b a a' blocks r m =
    let rest : ℕ = b + size + 56 in
    let h : Headers = a'.headers in
    let (i, f) = r.valid.listed b r.listed in
    let new : ¬ In rest r.blocks' = outside a' b size r.blocks' r.free' r.end' r.valid i m in
    let size_b : (cut b size a').headers.size b ≡ size =
      update_other (update h.size b size) rest b _ (ne_of_mem b rest r.blocks' i new)
      ∙ update_self h.size b size in
    let not_b : (x : ℕ) → h.is_free x ≡ false → x ≢ b =
      λ x g e. not_both (h.is_free b) f (ap h.is_free (sym e) ∙ g) in
    (
      record {
        blocks' = insert_behind b rest r.blocks';
        free' = rest ∷ r.free';
        end' = r.end';
        valid =
            add-IsHeap rest (cut b size a') (insert_behind b rest r.blocks') r.free' r.end'
              (cut-IsHeapBut a' b size r.blocks' r.free' r.end' r.valid i m)
              (inserted-In b rest r.blocks' i) (update_self h.is_free rest true)
              (λ j. new (r.valid.listed rest j).0);
        listed = inr r.listed;
        large = omega (arith, size_b);
        kept = λ x u.
            let ((j, g), s) = r.kept x u in
            let n : x ≢ rest = ne_of_mem x rest r.blocks' j new in
            (
              (In-insert_behind b rest x r.blocks' j, update_other h.is_free rest x true n ∙ g),
              update_other (update h.size b size) rest x _ n
                  ∙ update_other h.size b x size (not_b x g)
                  ∙ s,
            );
        only = λ x (j, g). elim (insert_behind-In b rest x r.blocks' j) [
          | inl e ↦ absurd (
              not_both (update h.is_free rest true rest) (update_self h.is_free rest true)
                (subst (λ w. update h.is_free rest true w ≡ false) e g))
          | inr k ↦
              r.only x
                (k, sym (update_other h.is_free rest x true (ne_of_mem x rest r.blocks' k new)) ∙ g)
        ];
      },
      size_b,
    )

-- After the split the block is at most a header too large.
split_block-Ready :
    (size b : ℕ) (a a' : BlockAllocator) (blocks : List ℕ)
    → Ready size a blocks b a'
    → Ready size a blocks b (split_block b size a')
      × ((split_block b size a').headers.size b ≤ size + 56)
split_block-Ready size b a a' blocks r =
    let i : In b r.blocks' = (r.valid.listed b r.listed).0 in
    let within : b + 56 + a'.headers.size b ≤ r.end' =
      (Tiles-within a'.headers.size a'.virtual_base r.end' b r.blocks' r.valid.tiles i).1 in
    let small : Dec (a'.headers.size b ≤ size + 56) = dec_le (a'.headers.size b) (size + 56) in
    elim small [
      | yes k ↦
          subst (λ w. Ready size a blocks b w × (w.headers.size b ≤ size + 56))
            (sym (split_block_small b size a' (omega (arith, within, r.valid.bound)) r.large k))
            (r, k)
      | no k ↦
          let (r', e) = added-Ready size b a a' blocks r (omega (arith, k)) in
          subst (λ w. Ready size a blocks b w × (w.headers.size b ≤ size + 56))
            (sym (
              split_block_large b size a' (omega (arith, within, r.valid.bound))
                (omega (arith, r.valid.offset b i)) (omega (arith, k))))
            (r', omega (arith, e))
    ]

-- A new block in use of at least `size` bytes, at most a header larger, apart from the others, which
-- are as they were.
pub record Allocated (size : ℕ) (a : BlockAllocator) (blocks : List ℕ) (b : ℕ) (a' : BlockAllocator)
    : Type 0 where
  pub blocks' : List ℕ
  pub free' : List ℕ
  pub end' : ℕ
  pub valid : IsHeap a' blocks' free' end'
  pub used : Used a' blocks' b
  pub fresh : ¬ Used a blocks b
  pub large : size ≤ a'.headers.size b
  pub tight : a'.headers.size b ≤ size + 56
  pub kept : (x : ℕ) → Used a blocks x → Used a' blocks' x × (a'.headers.size x ≡ a.headers.size x)
  pub only : (x : ℕ) → Used a' blocks' x → (x ≡ b) ⊎ Used a blocks x
  pub apart :
      (x : ℕ) → Used a blocks x → (x + 56 + a.headers.size x ≤ b) ⊎ (b + 56 + a'.headers.size b ≤ x)

taken-Allocated :
    (size b : ℕ) (a a' : BlockAllocator) (blocks : List ℕ)
    → (r : Ready size a blocks b a') → a'.headers.size b ≤ size + 56
    → Allocated size a blocks b (remove_block_from_free_list b (set_free b false a'))
unfolding remove_block_from_free_list
taken-Allocated size b a a' blocks r k =
    let (i, f) = r.valid.listed b r.listed in
    let is_free : ℕ → Bool = a'.headers.is_free in
    record {
      blocks' = r.blocks';
      free' = erase b r.free';
      end' = r.end';
      valid = take-IsHeap b a' r.blocks' r.free' r.end' r.valid r.listed;
      used = (i, update_self is_free b false);
      fresh = λ u. not_both (is_free b) f (r.kept b u).0.1;
      large = r.large;
      tight = k;
      kept = λ x u.
          let ((j, g), s) = r.kept x u in
          (
            (
              j,
              update_other is_free b x false (λ e. not_both (is_free b) f (ap is_free (sym e) ∙ g))
                  ∙ g,
            ),
            s,
          );
      only = λ x (j, g). elim (ℕ_discrete x b) [
        | yes e ↦ inl e
        | no n ↦ inr (r.only x (j, sym (update_other is_free b x false n) ∙ g))
      ];
      apart = λ x u.
          let ((j, g), s) = r.kept x u in
          subst (λ w. (x + 56 + w ≤ b) ⊎ (b + 56 + a'.headers.size b ≤ x)) s
            (Tiles-apart a'.headers.size a'.virtual_base r.end' x b r.blocks' r.valid.tiles j i
              (λ e. not_both (is_free b) f (ap is_free (sym e) ∙ g)));
    }

take_block-address :
    (size b : ℕ) (a' : BlockAllocator)
    → (split_block b size a').virtual_base + (split_block b size a').headers.offset b ≡ b + 56
    → (split_block b size a').virtual_base ≡ a'.virtual_base
    → b + 56 < 2 ^ 64
    → take_block b size a'
      ≡ (b + 56, remove_block_from_free_list b (set_free b false (split_block b size a')))
unfolding take_block
take_block-address size b a' o e h =
    ap (λ w. (w, remove_block_from_free_list b (set_free b false (split_block b size a'))))
      (add64-no_wrap a'.virtual_base ((split_block b size a').headers.offset b)
          (omega (arith, o, e))
        ∙ omega (arith, o, e))

split_block_base :
    (b size : ℕ) (a : BlockAllocator) → (split_block b size a).virtual_base ≡ a.virtual_base
unfolding split_block add_block_to_free_list
split_block_base b size a = elim (Bool-cases (leb (sub64 (a.headers.size b) size) 56)) [
  | inl e ↦ rw e refl
  | inr e ↦ rw e refl
]

module _ {S : Type 0} (backing : Backing S) where
  none_left :
      (fuel size : ℕ) (a a' : BlockAllocator) (s s' : S)
      → find_or_create_free_block backing fuel size a s ≡ some (0, a', s')
      → block_allocator_allocate backing fuel size a s ≡ some (0, a', s')
  unfolding block_allocator_allocate
  none_left fuel size a a' s s' e = rw (block_allocator_allocate, e) refl

  taken :
      (fuel size b : ℕ) (a a' : BlockAllocator) (s s' : S)
      → find_or_create_free_block backing fuel size a s ≡ some (b, a', s')
      → b ≢ 0
      → block_allocator_allocate backing fuel size a s
        ≡ some ((take_block b size a').0, (take_block b size a').1, s')
  unfolding block_allocator_allocate
  taken fuel size b a a' s s' e n = rw (block_allocator_allocate, e, ==-false b 0 n) refl

  -- With fuel for the blocks, and an address space that the request does not leave,
  -- block_allocator_allocate on a heap in order returns. Either it gives NULL and the heap is as
  -- it was, or it gives the address behind the header of a block that was not in use, has the
  -- size, or at most a header more, and lies apart from all blocks in use; these stay in use at
  -- their sizes, no other comes into use, and the heap is in order: its blocks lie one behind the
  -- other, and the free ones are those on the free list.
  pub block_allocator_allocate-Allocated :
      (fuel size : ℕ) (a : BlockAllocator) (blocks free : List ℕ) (end : ℕ) (s : S)
      → IsHeap a blocks free end
      → length blocks ≤ fuel
      → length free ≤ fuel
      → end + size + 4152 ≤ 2 ^ 64
      → (address : ℕ) × (a' : BlockAllocator) × (s' : S) × (block_allocator_allocate backing fuel
            size a s
          ≡ some (address, a', s'))
        × (((address ≡ 0) × (a' ≡ a))
            ⊎ ((b : ℕ) × (address ≡ b + 56) × Allocated size a blocks b a'))
  block_allocator_allocate-Allocated fuel size a blocks free end s v l m r =
      let (b, a', s', e, o) =
        find_or_create_free_block-Ready backing fuel size a blocks free end s v l m r in
      elim o [
        | inl (z, same) ↦ (
          0,
          a',
          s',
          none_left fuel size a a' s s' (e ∙ ap (λ w. some (w, a', s')) z),
          inl (refl, same),
        )
        | inr (n, ready) ↦
            let (split, tight) = split_block-Ready size b a a' blocks ready in
            let i : In b split.blocks' = (split.valid.listed b split.listed).0 in
            let t =
              (Tiles-within (split_block b size a').headers.size
                (split_block b size a').virtual_base split.end' b split.blocks' split.valid.tiles
                i).1 in
            let call : take_block b size a' ≡ (
              b + 56,
              remove_block_from_free_list b (set_free b false (split_block b size a')),
            ) =
              take_block-address size b a' (split.valid.offset b i) (split_block_base b size a')
                (omega (arith, t, split.valid.bound)) in
            (
              b + 56,
              remove_block_from_free_list b (set_free b false (split_block b size a')),
              s',
              taken fuel size b a a' s s' e n ∙ ap (λ w. some (w.0, w.1, s')) call,
              inr (b, refl, taken-Allocated size b a (split_block b size a') blocks split tight),
            )
      ]
