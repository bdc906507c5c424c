-- ===== src/Mmap/Pages.antt =====
-- The page tables of mmap.c come from a page source.
use native.Mathlib.Decide.{dec_lt}
use z_os.Base.{
  ℕ, ◌+◌, ◌-◌, ◌*◌, ◌/◌, ◌%◌, ◌≤◌, ◌<◌, ◌≡◌, ◌≢◌, ◌⊎◌, Bool, refl, ap, arith, if◌then◌else◌,
}
use z_os.Bump.{BumpAllocator, bump_allocator_invalid, bump_allocator_allocate}
use z_os.Mmap.{
  mmap_virtual_base_address, mmap_physical_region_size, mmap_physical_to_virtual, clear_page,
  allocated, exhausted, alloc_new_table, alloc_vmap_page, vmap_physical_to_virtual, mmap_fns,
}
use z_os.Vmap.{Words}
use z_os.Vmap.Tree.{PoolView, IsPageSource}

-- The reserved memory is in order, of whole pages, and within the physical region.
pub record IsTableMemory (b : BumpAllocator) : Type 0 where
  pub started : 0 < b.memory_start
  pub ordered : b.memory_start + b.allocated_size + b.remaining_size ≡ b.memory_end
  pub aligned : b.memory_start % 4096 ≡ 0
  pub whole : b.allocated_size % 4096 ≡ 0
  pub within : b.memory_end ≤ mmap_physical_region_size

pub record IsSpare (b : BumpAllocator) (t : ℕ) : Type 0 where
  pub memory : IsTableMemory b
  pub above : b.memory_start + b.allocated_size ≤ t
  pub below : t + 4096 ≤ b.memory_end
  pub page : t % 4096 ≡ 0

abbrev pub table_pages : PoolView BumpAllocator
table_pages = record { Free = IsSpare; Valid = IsTableMemory; room = λ b. b.remaining_size / 4096 }

-- The distance of the tables, before and after the switch to virtual addresses.
abbrev pub distance : Bool → ℕ
distance initialized = if initialized then mmap_virtual_base_address else 0

module _ (initialized : Bool) (w : Words) (b : BumpAllocator) (v : IsTableMemory b) where
  abbrev next : ℕ
  next = b.memory_start + b.allocated_size

  -- alloc_new_table gives no page exactly if there is none left, and never halts.
  alloc_new_table-full : b.remaining_size < 4096 → alloc_new_table initialized w b ≡ exhausted
  unfolding alloc_new_table bump_allocator_invalid bump_allocator_allocate
  alloc_new_table-full lt = ground arith

  alloc_new_table-room :
      4096 ≤ b.remaining_size
      → alloc_new_table initialized w b
        ≡ allocated next (clear_page w (distance initialized + next)) (record b {
          allocated_size = b.allocated_size + 4096;
          remaining_size = b.remaining_size - 4096;
        })
  unfolding alloc_new_table bump_allocator_invalid bump_allocator_allocate mmap_physical_to_virtual
  alloc_new_table-room ge = ground arith

  alloc_full : b.remaining_size < 4096 → alloc_vmap_page initialized w b ≡ (0, w, b)
  unfolding alloc_vmap_page
  alloc_full lt = rw (alloc_new_table-full lt, alloc_vmap_page) refl

  alloc_room :
      4096 ≤ b.remaining_size
      → alloc_vmap_page initialized w b ≡ (
        next,
        clear_page w (distance initialized + next),
        record b {
          allocated_size = b.allocated_size + 4096;
          remaining_size = b.remaining_size - 4096;
        },
      )
  unfolding alloc_vmap_page
  alloc_room ge = rw (alloc_new_table-room ge, alloc_vmap_page) refl

  got_room : (alloc_vmap_page initialized w b).0 ≢ 0 → 4096 ≤ b.remaining_size
  got_room got = elim (dec_lt b.remaining_size 4096) [
    | yes lt ↦ absurd (got (ap (λ (r : ℕ × Words × BumpAllocator). r.0) (alloc_full lt)))
    | no ge ↦ omega arith
  ]

  after_IsTableMemory : IsTableMemory (alloc_vmap_page initialized w b).2
  after_IsTableMemory = elim (dec_lt b.remaining_size 4096) [
    | yes lt ↦ rw (alloc_full lt) v
    | no ge ↦ rw (alloc_room (omega arith)) (omega arith)
  ]

  fresh_IsSpare :
      (alloc_vmap_page initialized w b).0 ≢ 0 → IsSpare b (alloc_vmap_page initialized w b).0
  fresh_IsSpare got = rw (alloc_room (got_room got)) (spare (got_room got))
    where
      spare : 4096 ≤ b.remaining_size → IsSpare b next
      spare ge = record { memory = v; above = omega arith; below = omega arith; page = omega arith }

  spent_lem :
      (t : ℕ)
      → (alloc_vmap_page initialized w b).0 ≢ 0
      → IsSpare (alloc_vmap_page initialized w b).2 t
      → IsSpare b t × (t ≢ (alloc_vmap_page initialized w b).0)
  spent_lem t got free =
      let e = alloc_room (got_room got) in
      let free' = rw e at free in
      rw e (
        record {
          memory = v;
          above = omega (arith, free'.above);
          below = omega (arith, free'.below);
          page = free'.page;
        },
        omega (arith, free'.above),
      )

  cleared :
      (i : ℕ)
      → (alloc_vmap_page initialized w b).0 ≢ 0
      → i < 512
      → (alloc_vmap_page initialized w b).1
          (distance initialized + (alloc_vmap_page initialized w b).0 + 8 * i)
        ≡ 0
  cleared i got hi = rw (alloc_room (got_room got)) (ground arith)

  spared :
      (a : ℕ)
      → (alloc_vmap_page initialized w b).0 ≢ 0
      → (a < distance initialized + (alloc_vmap_page initialized w b).0)
        ⊎ (distance initialized + (alloc_vmap_page initialized w b).0 + 4096 ≤ a)
      → (alloc_vmap_page initialized w b).1 a ≡ w a
  spared a got out =
      let e = alloc_room (got_room got) in let out' = rw e at out in rw e (ground arith)

  shortage : (alloc_vmap_page initialized w b).0 ≡ 0 → b.remaining_size / 4096 ≡ 0
  shortage z = elim (dec_lt b.remaining_size 4096) [
    | yes lt ↦ omega arith
    | no ge ↦ absurd (
        omega (
          arith,
          ap (λ (r : ℕ × Words × BumpAllocator). r.0) (alloc_room (omega arith)),
          v.started,
        ))
  ]

  one_page : b.remaining_size / 4096 ≤ (alloc_vmap_page initialized w b).2.remaining_size / 4096 + 1
  one_page = elim (dec_lt b.remaining_size 4096) [
    | yes lt ↦ rw (alloc_full lt) (omega arith)
    | no ge ↦ rw (alloc_room (omega arith)) (omega arith)
  ]

spare_linear :
    (initialized : Bool) (b : BumpAllocator) (t : ℕ)
    → IsSpare b t
    → vmap_physical_to_virtual initialized t ≡ distance initialized + t
unfolding vmap_physical_to_virtual mmap_physical_to_virtual
spare_linear initialized b t free = ground (arith, free.memory.within)

-- Over reserved memory that is in order (of whole pages, not at 0, and within the physical
-- region), the page tables of mmap.c are zeroed pages that are handed out once, reached at a fixed
-- distance, and denied only when less than a page of the reserved memory is left; a call takes at
-- most one page, and the memory stays in order.
pub mmap_fns-IsPageSource :
    (initialized : Bool) → IsPageSource (mmap_fns initialized) (distance initialized) table_pages
mmap_fns-IsPageSource initialized = record {
  free_page = λ b t free. record {
    aligned = free.page;
    small = omega (arith, free.memory.within, free.below);
  };
  free_linear = spare_linear initialized;
  fresh = fresh_IsSpare initialized;
  valid = after_IsTableMemory initialized;
  spent = λ w b t v got free. spent_lem initialized w b v t got free;
  roomy = shortage initialized;
  room_spent = one_page initialized;
  zeroed = λ w b i v got hi. cleared initialized w b v i got hi;
  others = λ w b a v got out. spared initialized w b v a got out;
}
