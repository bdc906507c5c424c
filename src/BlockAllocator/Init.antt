-- ===== src/BlockAllocator/Init.antt =====
-- The heap at its start: one free block.
use z_os.Base.{
  update, update_self, ℕ, ◌+◌, ◌-◌, ◌^◌, ◌<◌, ◌≡◌, ◌≢◌, ◌⊎◌, inl, inr, refl, ap, ◌∙◌, true, [], ◌∷◌,
  ok, fail, arith,
}
use z_os.BlockAllocator.{
  Backing, Headers, BlockAllocator, block_magic, default_size, header_size, write_header,
  clear_links, block_allocator_init,
}
use z_os.BlockAllocator.Heap.{IsHeap}
use z_os.BlockAllocator.Ready.{Status-cases}

abbrev started : ℕ → Headers → BlockAllocator
started base h =
    let written = write_header base (default_size - header_size) header_size h in
    record {
      virtual_base = base;
      block_list_head = base;
      free_list_head = base;
      headers = record written {
        blocks = clear_links base h.blocks;
        free = clear_links base h.free;
      };
    }

started-IsHeap :
    (base : ℕ) (h : Headers)
    → base ≢ 0
    → base + default_size < 2 ^ 64
    → IsHeap (started base h) (base ∷ []) (base ∷ []) (base + default_size)
started-IsHeap base h n s = record {
  block_head = refl;
  free_head = refl;
  blocks_linked = (n, update_self h.blocks.prev base 0, update_self h.blocks.next base 0, tt);
  free_linked = (n, update_self h.free.prev base 0, update_self h.free.next base 0, tt);
  once = ((λ i. i), tt);
  tiles = (refl, omega (arith, update_self h.size base (default_size - header_size)));
  bound = s;
  base = n;
  listed = λ x i. elim i [
    | inl e ↦ (inl e, ap (update h.is_free base true) e ∙ update_self h.is_free base true)
    | inr j ↦ elim j [ ]
  ];
  all_listed = λ x i f m. i;
  magic = λ x i. elim i [
    | inl e ↦ ap (update h.magic base block_magic) e ∙ update_self h.magic base block_magic
    | inr j ↦ elim j [ ]
  ];
  offset = λ x i. elim i [
    | inl e ↦
        omega (
          arith,
          e,
          ap (update h.offset base header_size) e ∙ update_self h.offset base header_size,
        )
    | inr j ↦ elim j [ ]
  ];
}

module _ {S : Type 0} (backing : Backing S) where
  init_ok :
      (base : ℕ) (h : Headers) (s : S)
      → (backing.map_default base s).0 ≡ ok
      → block_allocator_init backing base h s ≡ (ok, started base h, (backing.map_default base s).1)
  unfolding block_allocator_init
  init_ok base h s e = rw (block_allocator_init, e) refl

  init_fail :
      (base : ℕ) (h : Headers) (s : S)
      → (backing.map_default base s).0 ≡ fail
      → (block_allocator_init backing base h s).0 ≡ fail
  unfolding block_allocator_init
  init_fail base h s e = rw (block_allocator_init, e) refl

  -- At a base that is not NULL and has room for the first 4 MiB, block_allocator_init fails if
  -- they cannot become memory, and otherwise succeeds with a heap in order whose one block is free
  -- and fills them.
  pub block_allocator_init-IsHeap :
      (base : ℕ) (h : Headers) (s : S)
      → base ≢ 0
      → base + default_size < 2 ^ 64
      → (((backing.map_default base s).0 ≡ fail)
          × ((block_allocator_init backing base h s).0 ≡ fail))
        ⊎ (a : BlockAllocator) × (block_allocator_init backing base h s
            ≡ (ok, a, (backing.map_default base s).1))
          × IsHeap a (base ∷ []) (base ∷ []) (base + default_size)
  block_allocator_init-IsHeap base h s n r = elim (Status-cases (backing.map_default base s).0) [
    | inl e ↦ inr (started base h, init_ok base h s e, started-IsHeap base h n r)
    | inr e ↦ inl (e, init_fail base h s e)
  ]
