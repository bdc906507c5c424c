-- ===== src/Mmap/Layout.antt =====
-- The entries of kernel/mmap.c's memory map for one descriptor, by where the reserved regions lie.
use z_os.Base.{
  ℕ, ◌+◌, ◌-◌, ◌*◌, ◌^◌, ◌≤◌, ◌<◌, ◌≡◌, ◌⊎◌, true, false, some, List, [], ◌∷◌, ◌++◌, arith,
}
use z_os.Bump.{BumpAllocator, bump_allocator_allocate}
use z_os.Memory.Bytes.{Apart}
use z_os.Mmap.Boot.{
  EfiMemoryDescriptor, MemoryDescriptor, MemoryType, usable, reserved, MapState,
  efi_memory_map_is_usable, memory_map_reserved_size, page_table_reserved_size,
  mmap_new_memory_map_entry, reserved_entry, build_from,
}

abbrev pub after : EfiMemoryDescriptor → ℕ
after d = d.physical_start_address + d.number_of_pages * 4096

-- Entries that follow one another from `a` to `b`.
abbrev pub Tiles : ℕ → ℕ → List MemoryDescriptor → Type 0
Tiles a b [] = a ≡ b
Tiles a b (e ∷ es) = (e.physical_start_address ≡ a) × Tiles (a + e.number_of_pages * 4096) b es

-- No usable entry meets the region.
abbrev pub Spares : ℕ → ℕ → List MemoryDescriptor → Type 0
Spares start size [] = Unit {0}
Spares start size (e ∷ es) =
    ((e.type ≡ reserved) ⊎ Apart start size e.physical_start_address (e.number_of_pages * 4096))
    × Spares start size es

-- Where mmap_reserve_memory puts the two regions, as seen from one descriptor: the memory map's at
-- its start, the tables' at its start or behind the memory map's, or neither meets it.
pub data Layout (map_start map_end : ℕ) (tables : BumpAllocator) (d : EfiMemoryDescriptor)
    : Type 0 where
  neither :
      Apart map_start memory_map_reserved_size d.physical_start_address (d.number_of_pages * 4096)
      → Apart tables.memory_start page_table_reserved_size d.physical_start_address
          (d.number_of_pages * 4096)
      → Layout map_start map_end tables d
  only_map :
      map_start ≡ d.physical_start_address
      → map_end ≤ after d
      → Apart tables.memory_start page_table_reserved_size d.physical_start_address
          (d.number_of_pages * 4096)
      → Layout map_start map_end tables d
  only_tables :
      Apart map_start memory_map_reserved_size d.physical_start_address (d.number_of_pages * 4096)
      → tables.memory_start ≡ d.physical_start_address
      → tables.memory_end ≤ after d
      → Layout map_start map_end tables d
  both :
      map_start ≡ d.physical_start_address
      → tables.memory_start ≡ map_end
      → tables.memory_end ≤ after d
      → Layout map_start map_end tables d

abbrev pub entry_added : ℕ → ℕ → MemoryType → MapState → MapState
entry_added start pages type s = record {
  memory_map = record s.memory_map {
    allocated_size = s.memory_map.allocated_size + 24;
    remaining_size = s.memory_map.remaining_size - 24;
  };
  entries =
      s.entries
      ++ (record { physical_start_address = start; number_of_pages = pages; type = type } ∷ []);
}

entry_added_lem :
    (start pages : ℕ) (type : MemoryType) (s : MapState)
    → 24 ≤ s.memory_map.remaining_size
    → s.memory_map.allocated_size + s.memory_map.remaining_size < 2 ^ 64
    → mmap_new_memory_map_entry start pages type s ≡ some (entry_added start pages type s)
unfolding mmap_new_memory_map_entry bump_allocator_allocate
entry_added_lem start pages type s h k = ground arith

module _ (tables : BumpAllocator) (d : EfiMemoryDescriptor) (s : MapState)
    (sized_map : s.memory_map.memory_end ≡ s.memory_map.memory_start + memory_map_reserved_size)
    (sized_tables : tables.memory_end ≡ tables.memory_start + page_table_reserved_size)
    (small : after d < 2 ^ 64) (room : 72 ≤ s.memory_map.remaining_size)
    (whole : s.memory_map.allocated_size + s.memory_map.remaining_size < 2 ^ 64) where
  pub build_neither :
      Apart s.memory_map.memory_start memory_map_reserved_size d.physical_start_address
        (d.number_of_pages * 4096)
      → Apart tables.memory_start page_table_reserved_size d.physical_start_address
          (d.number_of_pages * 4096)
      → (efi_memory_map_is_usable d ≡ true)
      → build_from tables d s
        ≡ some (entry_added d.physical_start_address d.number_of_pages usable s)
  unfolding build_from reserved_entry
  build_neither a b u = ground (
    arith,
    entry_added_lem d.physical_start_address d.number_of_pages usable s (omega arith) whole,
  )

  pub build_both :
      s.memory_map.memory_start ≡ d.physical_start_address
      → tables.memory_start ≡ s.memory_map.memory_end
      → tables.memory_end ≤ after d
      → (efi_memory_map_is_usable d ≡ true)
      → build_from tables d s
        ≡ some (
            entry_added
              (d.physical_start_address + 2 ^ 20 + 2 ^ 23)
              (d.number_of_pages - 256 - 2048)
              usable
              (entry_added tables.memory_start 2048 reserved
                (entry_added s.memory_map.memory_start 256 reserved s)))
  unfolding build_from reserved_entry
  build_both a b c u = ground (
    arith,
    entry_added_lem s.memory_map.memory_start 256 reserved s (omega arith) whole,
    entry_added_lem tables.memory_start 2048 reserved
        (entry_added s.memory_map.memory_start 256 reserved s) (omega arith) (omega arith),
    entry_added_lem (d.physical_start_address + 2 ^ 20 + 2 ^ 23) (d.number_of_pages - 256 - 2048)
        usable
        (entry_added tables.memory_start 2048 reserved
          (entry_added s.memory_map.memory_start 256 reserved s))
        (omega arith) (omega arith),
  )

  pub build_only_map :
      s.memory_map.memory_start ≡ d.physical_start_address
      → s.memory_map.memory_end ≤ after d
      → Apart tables.memory_start page_table_reserved_size d.physical_start_address
          (d.number_of_pages * 4096)
      → (efi_memory_map_is_usable d ≡ true)
      → build_from tables d s
        ≡ some (
            entry_added
              (d.physical_start_address + 2 ^ 20)
              (d.number_of_pages - 256)
              usable
              (entry_added s.memory_map.memory_start 256 reserved s))
  unfolding build_from reserved_entry
  build_only_map a b c u = ground (
    arith,
    entry_added_lem s.memory_map.memory_start 256 reserved s (omega arith) whole,
    entry_added_lem (d.physical_start_address + 2 ^ 20) (d.number_of_pages - 256) usable
        (entry_added s.memory_map.memory_start 256 reserved s) (omega arith) (omega arith),
  )

  pub build_only_tables :
      Apart s.memory_map.memory_start memory_map_reserved_size d.physical_start_address
        (d.number_of_pages * 4096)
      → tables.memory_start ≡ d.physical_start_address
      → tables.memory_end ≤ after d
      → (efi_memory_map_is_usable d ≡ true)
      → build_from tables d s
        ≡ some (
            entry_added
              (d.physical_start_address + 2 ^ 23)
              (d.number_of_pages - 2048)
              usable
              (entry_added tables.memory_start 2048 reserved s))
  unfolding build_from reserved_entry
  build_only_tables a b c u = ground (
    arith,
    entry_added_lem tables.memory_start 2048 reserved s (omega arith) whole,
    entry_added_lem (d.physical_start_address + 2 ^ 23) (d.number_of_pages - 2048) usable
        (entry_added tables.memory_start 2048 reserved s) (omega arith) (omega arith),
  )

  pub build_unusable :
      (efi_memory_map_is_usable d ≡ false)
      → build_from tables d s
        ≡ some (entry_added d.physical_start_address d.number_of_pages reserved s)
  unfolding build_from
  build_unusable u = ground (
    arith,
    entry_added_lem d.physical_start_address d.number_of_pages reserved s (omega arith) whole,
  )
