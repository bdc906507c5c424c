-- ===== src/Mmap.antt =====
-- kernel/mmap.c: page tables from a bump allocator, and the map of physical memory at a fixed
-- distance. `initialized` is g_mmap_initialized, the allocator g_page_table_allocator.
pub mod Pages
pub mod Boot
pub mod Kernel
pub mod Mapped
pub mod Layout
pub mod Tiles
mod Tests
use z_os.Base.{ℕ, ◌+◌, ◌-◌, ◌^◌, Bool, Option, none, some, leb, if◌then◌else◌}
use z_os.Bump.{BumpAllocator, bump_allocator_invalid, bump_allocator_allocate}
use z_os.Memory.Copy.{inside}
use z_os.Vmap.{Words, VmapFns}
use z_os.Vmap.Entry.{mmap_granule_size}

abbrev pub mmap_virtual_base_address : ℕ
mmap_virtual_base_address = 0xFFFF500000000000

abbrev pub mmap_physical_region_size : ℕ
mmap_physical_region_size = 2 ^ 34

unfoldable pub mmap_physical_to_virtual : Bool → ℕ → Option ℕ
mmap_physical_to_virtual initialized physical_address =
    if initialized
    then (if leb mmap_physical_region_size physical_address
        then none
        else some (mmap_virtual_base_address + physical_address))
    else some physical_address

-- memory_set with 0 over a page of words.
abbrev pub clear_page : Words → ℕ → Words
clear_page w address b = if inside b address mmap_granule_size then 0 else w b

-- alloc_new_table returns a table, returns -1, or stops in a failed assertion.
pub data NewTable : Type 0 where
  allocated : ℕ → Words → BumpAllocator → NewTable
  exhausted : NewTable
  halted : NewTable

unfoldable pub alloc_new_table : Bool → Words → BumpAllocator → NewTable
alloc_new_table initialized w b =
    if bump_allocator_invalid b
    then exhausted
    else elim (bump_allocator_allocate b mmap_granule_size) [
      | none ↦ exhausted
      | some (physical, b') ↦ elim (mmap_physical_to_virtual initialized physical) [
        | none ↦ halted
        | some virtual ↦ allocated physical (clear_page w virtual) b'
      ]
    ]

-- The function pointers of a vmap_t over these tables. A call that halts returns nothing; it is
-- given as a failure, and on memory that is in order it does not occur (`Pages.alloc_new_table-room`,
-- `Pages.alloc_new_table-full`).
unfoldable pub alloc_vmap_page : Bool → Words → BumpAllocator → ℕ × Words × BumpAllocator
alloc_vmap_page initialized w b = elim (alloc_new_table initialized w b) [
  | allocated table w' b' ↦ (table, w', b')
  | exhausted ↦ (0, w, b)
  | halted ↦ (0, w, b)
]

unfoldable pub vmap_physical_to_virtual : Bool → ℕ → ℕ
vmap_physical_to_virtual initialized physical_address =
    elim (mmap_physical_to_virtual initialized physical_address) [
      | none ↦ 0
      | some virtual ↦ virtual
    ]

abbrev pub mmap_fns : Bool → VmapFns BumpAllocator
mmap_fns initialized = record {
  alloc_page = alloc_vmap_page initialized;
  physical_to_virtual = vmap_physical_to_virtual initialized;
}
