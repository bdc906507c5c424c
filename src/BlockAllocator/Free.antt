-- ===== src/BlockAllocator/Free.antt =====
-- Giving a block back: block_allocator_free and its four cases.
use z_os.Base.{
  ℕ, ◌+◌, ◌*◌, ◌^◌, ◌≤◌, ◌<◌, ◌≡◌, ◌≢◌, ◌⊎◌, inl, inr, refl, sym, subst, true, false, Bool-cases,
  List, arith, add64, sub64, ◌==◌, ==-false, ==-true,
}
use z_os.BlockAllocator.{
  Headers, BlockAllocator, block_magic, header_size, is_free_block, merge_into, set_free,
  add_block_to_free_list, remove_block_from_free_list, remove_block_from_block_list, free_block,
  block_allocator_free,
}
use z_os.BlockAllocator.Tiles.{Tiles-within}
use z_os.BlockAllocator.Heap.{IsHeap, Used}
use z_os.BlockAllocator.Freed.{Freed, alone-Freed, before-Freed, behind-Freed, between-Freed}

free_between :
    (b : ℕ) (a : BlockAllocator)
    → is_free_block (a.headers.blocks.prev b) a.headers ≡ true
    → is_free_block (a.headers.blocks.next b) a.headers ≡ true
    → free_block b a
      ≡ remove_block_from_block_list b (
          remove_block_from_block_list (a.headers.blocks.next b) (
            remove_block_from_free_list (a.headers.blocks.next b) (
              merge_into
                (a.headers.blocks.prev b)
                (a.headers.blocks.next (a.headers.blocks.next b))
                (add64
                  (add64 (2 * header_size) (a.headers.size b))
                  (a.headers.size (a.headers.blocks.next b)))
                a)))
unfolding free_block
free_between b a e f = rw (e, f) refl

free_before :
    (b : ℕ) (a : BlockAllocator)
    → is_free_block (a.headers.blocks.prev b) a.headers ≡ true
    → is_free_block (a.headers.blocks.next b) a.headers ≡ false
    → free_block b a
      ≡ remove_block_from_block_list b (
          merge_into
            (a.headers.blocks.prev b)
            (a.headers.blocks.next b)
            (add64 header_size (a.headers.size b))
            a)
unfolding free_block
free_before b a e f = rw (e, f) refl

free_behind :
    (b : ℕ) (a : BlockAllocator)
    → is_free_block (a.headers.blocks.prev b) a.headers ≡ false
    → is_free_block (a.headers.blocks.next b) a.headers ≡ true
    → free_block b a
      ≡ add_block_to_free_list b (
          set_free b true (
            remove_block_from_free_list (a.headers.blocks.next b) (
              remove_block_from_block_list (a.headers.blocks.next b) (
                merge_into b
                  (a.headers.blocks.next (a.headers.blocks.next b))
                  (add64 header_size (a.headers.size (a.headers.blocks.next b)))
                  a))))
unfolding free_block
free_behind b a e f = rw (e, f) refl

free_alone :
    (b : ℕ) (a : BlockAllocator)
    → is_free_block (a.headers.blocks.prev b) a.headers ≡ false
    → is_free_block (a.headers.blocks.next b) a.headers ≡ false
    → free_block b a ≡ add_block_to_free_list b (set_free b true a)
unfolding free_block
free_alone b a e f = rw (e, f) refl

is_free_block-parts :
    (x : ℕ) (h : Headers) → is_free_block x h ≡ true → (x ≢ 0) × (h.is_free x ≡ true)
is_free_block-parts x h e = (λ z. ground (arith, e, z), ground (arith, e))

free_block-Freed :
    (a : BlockAllocator) (blocks free : List ℕ) (end b : ℕ)
    → IsHeap a blocks free end
    → Used a blocks b
    → Freed a blocks end b (free_block b a)
free_block-Freed a blocks free end b v u =
    let h : Headers = a.headers in
    let p : ℕ = h.blocks.prev b in
    let n : ℕ = h.blocks.next b in
    elim (Bool-cases (is_free_block p h)) [
      | inl e ↦
          let (p0, gp) = is_free_block-parts p h e in
          elim (Bool-cases (is_free_block n h)) [
            | inl f ↦
                let (n0, gn) = is_free_block-parts n h f in
                subst (Freed a blocks end b) (sym (free_between b a e f)) (
                  between-Freed a blocks free end b p n (h.blocks.next n) v u refl p0 gp refl n0 gn)
            | inr f ↦
                subst (Freed a blocks end b) (sym (free_before b a e f))
                  (before-Freed a blocks free end b p n v u refl p0 gp)
          ]
      | inr e ↦ elim (Bool-cases (is_free_block n h)) [
        | inl f ↦
            let (n0, gn) = is_free_block-parts n h f in
            subst (Freed a blocks end b) (sym (free_behind b a e f))
              (behind-Freed a blocks free end b n (h.blocks.next n) v u refl n0 gn)
        | inr f ↦
            subst (Freed a blocks end b) (sym (free_alone b a e f))
              (alone-Freed a blocks free end b v u)
      ]
    ]

free_call :
    (b : ℕ) (a : BlockAllocator)
    → b + 56 < 2 ^ 64
    → a.headers.magic b ≡ block_magic
    → a.headers.is_free b ≡ false
    → block_allocator_free (b + 56) a ≡ free_block b a
unfolding block_allocator_free
free_call b a s m f =
    let at : sub64 (b + 56) header_size ≡ b = omega (arith, s) in
    rw (==-false (b + 56) 0 (omega arith), at, ==-true (a.headers.magic b) block_magic m, f) refl

-- Block_allocator_free of the address of a block in use of a heap in order takes that block, and
-- no other, out of use; the blocks in use keep their sizes, and the heap is in order up to the
-- same end, whether the free blocks before and behind are merged with it or not.
pub block_allocator_free-Freed :
    (a : BlockAllocator) (blocks free : List ℕ) (end b : ℕ)
    → IsHeap a blocks free end
    → Used a blocks b
    → Freed a blocks end b (block_allocator_free (b + 56) a)
block_allocator_free-Freed a blocks free end b v u =
    let within : b + 56 + a.headers.size b ≤ end =
      (Tiles-within a.headers.size a.virtual_base end b blocks v.tiles u.0).1 in
    subst (Freed a blocks end b)
      (sym (free_call b a (omega (arith, within, v.bound)) (v.magic b u.0) u.1))
      (free_block-Freed a blocks free end b v u)

-- Freeing NULL, or a block that is free, or an address without a header behind it changes nothing.
block_allocator_free-ignored :
    (address : ℕ) (a : BlockAllocator)
    → (address ≡ 0)
      ⊎ ((a.headers.is_free (sub64 address 56) ≡ true)
          ⊎ (a.headers.magic (sub64 address 56) ≢ block_magic))
    → block_allocator_free address a ≡ a
unfolding block_allocator_free
block_allocator_free-ignored address a (inl z) = rw (==-true address 0 z) refl
block_allocator_free-ignored address a (inr (inl e)) = elim (Bool-cases (address == 0)) [
  | inl z ↦ rw z refl
  | inr z ↦ elim (Bool-cases (a.headers.magic (sub64 address 56) == block_magic)) [
    | inl m ↦ rw (z, m, e) refl
    | inr m ↦ rw (z, m) refl
  ]
]
block_allocator_free-ignored address a (inr (inr n)) = elim (Bool-cases (address == 0)) [
  | inl z ↦ rw z refl
  | inr z ↦ rw (z, ==-false (a.headers.magic (sub64 address 56)) block_magic n) refl
]
