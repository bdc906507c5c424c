-- ===== src/BlockAllocator/Tests.antt =====
-- A heap of three blocks, the middle one in use, over pages that come one after the other, and the
-- theorems at it.
use z_os.Base.{
  In, ℕ, ◌+◌, ◌≡◌, ◌⊎◌, inl, inr, refl, sym, subst, true, false, some, ok, fail, List, [], ◌∷◌,
  arith, ◌==◌, if◌then◌else◌,
}
use z_os.BlockAllocator.{
  Backing, BlockAllocator, block_magic, default_size, block_allocator_init,
  block_allocator_allocate, block_allocator_free,
}
use z_os.BlockAllocator.Heap.{IsHeap}
use z_os.BlockAllocator.Init.{block_allocator_init-IsHeap}
use z_os.BlockAllocator.Allocate.{Allocated, block_allocator_allocate-Allocated}
use z_os.BlockAllocator.Freed.{Freed}
use z_os.BlockAllocator.Free.{block_allocator_free-Freed}

abbrev pages : Backing ℕ
pages = record { map_default = λ a s. (ok, s + 1024); map_new_page = λ a s. (ok, s + 1) }

abbrev between : (first second third : ℕ) → ℕ → ℕ
between first second third x =
    if x == 0x1000 then first else if x == 0x1048 then second else if x == 0x1090 then third else 0

abbrev heap : BlockAllocator
heap = record {
  virtual_base = 0x1000;
  block_list_head = 0x1000;
  free_list_head = 0x1090;
  headers = record {
    magic = λ x. block_magic;
    is_free = λ x. if x == 0x1048 then false else true;
    size = λ x. 16;
    offset = between 0x38 0x80 0xc8;
    blocks = record { next = between 0x1048 0x1090 0; prev = between 0 0x1000 0x1048 };
    free = record { next = between 0 0 0x1000; prev = between 0x1090 0 0 };
  };
}

abbrev blocks : List ℕ
blocks = 0x1000 ∷ 0x1048 ∷ 0x1090 ∷ []

abbrev free : List ℕ
free = 0x1090 ∷ 0x1000 ∷ []

heap-IsHeap : IsHeap heap blocks free 0x10d8
heap-IsHeap = record {
  block_head = refl;
  free_head = refl;
  blocks_linked =
      (omega arith, refl, refl, (omega arith, refl, refl, (omega arith, refl, refl, tt)));
  free_linked = (omega arith, refl, refl, (omega arith, refl, refl, tt));
  once = ((λ i. elim i [ inl e ↦ omega (arith, e) | inr j ↦ j ]), ((λ i. i), tt));
  tiles = (refl, (refl, (refl, refl)));
  bound = omega arith;
  base = omega arith;
  listed = λ x i. elim i [
    | inl e ↦
        subst (λ w. In w blocks × (heap.headers.is_free w ≡ true)) (sym e)
          (inr (inr (inl refl)), refl)
    | inr j ↦ elim j [
      | inl e ↦ subst (λ w. In w blocks × (heap.headers.is_free w ≡ true)) (sym e) (inl refl, refl)
      | inr k ↦ elim k [ ]
    ]
  ];
  all_listed = λ x i f n. elim i [
    | inl e ↦ inr (inl e)
    | inr j ↦ elim j [
      | inl e ↦ ground (arith, f, e)
      | inr k ↦ elim k [ inl e ↦ inl e | inr l ↦ elim l [ ] ]
    ]
  ];
  magic = λ x i. refl;
  offset = λ x i. elim i [
    | inl e ↦ ground (arith, e)
    | inr j ↦ elim j [
      | inl e ↦ ground (arith, e)
      | inr k ↦ elim k [ inl e ↦ ground (arith, e) | inr l ↦ elim l [ ] ]
    ]
  ];
}

block_allocator_init-IsHeap_example :
    (((pages.map_default 0x1000 0).0 ≡ fail)
      × ((block_allocator_init pages 0x1000 heap.headers 0).0 ≡ fail))
    ⊎ (a : BlockAllocator) × (block_allocator_init pages 0x1000 heap.headers 0
        ≡ (ok, a, (pages.map_default 0x1000 0).1))
      × IsHeap a (0x1000 ∷ []) (0x1000 ∷ []) (0x1000 + default_size)
block_allocator_init-IsHeap_example =
    block_allocator_init-IsHeap pages 0x1000 heap.headers 0 (omega arith) (omega arith)

block_allocator_allocate-Allocated_example :
    (address : ℕ) × (a' : BlockAllocator) × (s' : ℕ) × (block_allocator_allocate pages 3 100 heap 0
      ≡ some (address, a', s'))
    × (((address ≡ 0) × (a' ≡ heap))
        ⊎ ((b : ℕ) × (address ≡ b + 56) × Allocated 100 heap blocks b a'))
block_allocator_allocate-Allocated_example =
    block_allocator_allocate-Allocated pages 3 100 heap blocks free 0x10d8 0 heap-IsHeap
      (omega arith) (omega arith) (omega arith)

block_allocator_free-Freed_example :
    Freed heap blocks 0x10d8 0x1048 (block_allocator_free 0x1080 heap)
block_allocator_free-Freed_example =
    block_allocator_free-Freed heap blocks free 0x10d8 0x1048 heap-IsHeap (inr (inl refl), refl)
