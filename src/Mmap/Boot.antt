-- ===== src/Mmap/Boot.antt =====
-- kernel/mmap.c at boot: reserving memory from the firmware's map, and the kernel's own map. The
-- firmware's map is the list of its descriptors, the kernel's the list of the entries in the memory
-- that its bump allocator gives them, one behind the other.
use z_os.Base.{
  ◌/◌, ℕ, ◌^◌, Bool, not, ◌&&◌, ◌||◌, Option, none, some, List, [], ◌∷◌, ◌++◌, add64, mul64, sub64,
  leb, ◌==◌, if◌then◌else◌,
}
use z_os.Bump.{
  BumpAllocator, make_invalid, bump_allocator_invalid, bump_allocator_init, bump_allocator_allocate,
}

abbrev pub efi_page_size : ℕ
efi_page_size = 4096

-- MMAP_MEMORY_MAP_RESERVED_SIZE and PAGE_TABLE_RESERVED_SIZE: 1 MiB and 8 MiB.
abbrev pub memory_map_reserved_size : ℕ
memory_map_reserved_size = 2 ^ 20

abbrev pub page_table_reserved_size : ℕ
page_table_reserved_size = 2 ^ 23

pub record EfiMemoryDescriptor : Type 0 where
  pub type : ℕ
  pub physical_start_address : ℕ
  pub virtual_start_address : ℕ
  pub number_of_pages : ℕ
  pub attribute : ℕ

unfoldable pub efi_memory_map_is_usable : EfiMemoryDescriptor → Bool
efi_memory_map_is_usable descriptor =
    (descriptor.type == 0x7)
    || (descriptor.type == 0x1)
    || (descriptor.type == 0x3)
    || (descriptor.type == 0x4)
    || (descriptor.type == 0xe)

pub data MemoryType : Type 0 where
  usable reserved : MemoryType

pub record MemoryDescriptor : Type 0 where
  pub physical_start_address : ℕ
  pub number_of_pages : ℕ
  pub type : MemoryType

-- The two allocators while memory is reserved for them.
pub record Reserved : Type 0 where
  pub memory_map : BumpAllocator
  pub page_table : BumpAllocator

-- One descriptor of mmap_reserve_memory: the memory map's part first, then that of the page tables.
unfoldable pub reserve_from : EfiMemoryDescriptor → Reserved → Reserved
reserve_from descriptor r =
    if not (efi_memory_map_is_usable descriptor)
    then r
    else let memory_start = descriptor.physical_start_address in
      let memory_size = mul64 descriptor.number_of_pages efi_page_size in
      let take_map =
        bump_allocator_invalid r.memory_map && leb memory_map_reserved_size memory_size in
      let memory_map =
        if take_map
        then bump_allocator_init memory_start (add64 memory_start memory_map_reserved_size)
        else r.memory_map in
      let memory_start' =
        if take_map then add64 memory_start memory_map_reserved_size else memory_start in
      let memory_size' =
        if take_map then sub64 memory_size memory_map_reserved_size else memory_size in
      let page_table =
        if bump_allocator_invalid r.page_table && leb page_table_reserved_size memory_size'
        then bump_allocator_init memory_start' (add64 memory_start' page_table_reserved_size)
        else r.page_table in
      record { memory_map = memory_map; page_table = page_table }

-- The loop; it ends early at a usable descriptor when both were reserved before it.
unfoldable pub reserve_loop : List EfiMemoryDescriptor → Reserved → Reserved
reserve_loop [] r = r
reserve_loop (descriptor ∷ rest) r =
    let result = reserve_loop rest (reserve_from descriptor r) in
    if efi_memory_map_is_usable descriptor
      && (not (bump_allocator_invalid r.page_table) && not (bump_allocator_invalid r.memory_map))
    then reserve_from descriptor r
    else result

unfoldable pub mmap_reserve_memory : List EfiMemoryDescriptor → Reserved → Option Reserved
mmap_reserve_memory efi_memory_map r =
    let r' =
      reserve_loop efi_memory_map (record {
        memory_map = make_invalid r.memory_map;
        page_table = make_invalid r.page_table;
      }) in
    if bump_allocator_invalid r'.page_table || bump_allocator_invalid r'.memory_map
    then none
    else some r'

-- The kernel's map while it is built.
pub record MapState : Type 0 where
  pub memory_map : BumpAllocator
  pub entries : List MemoryDescriptor

-- sizeof(mmap_memory_descriptor_t)
abbrev pub descriptor_size : ℕ
descriptor_size = 24

unfoldable pub mmap_new_memory_map_entry : ℕ → ℕ → MemoryType → MapState → Option MapState
mmap_new_memory_map_entry physical_start_address number_of_pages type s =
    elim (bump_allocator_allocate s.memory_map descriptor_size) [
      | none ↦ none
      | some (_, memory_map) ↦ some (record {
        memory_map = memory_map;
        entries =
            s.entries
            ++ (record {
              physical_start_address = physical_start_address;
              number_of_pages = number_of_pages;
              type = type;
            }
                ∷ []);
      })
    ]

-- A reserved entry, where the region is in the descriptor.
unfoldable pub reserved_entry : Bool → ℕ → ℕ → MapState → Option MapState
reserved_entry present start size s =
    if present then mmap_new_memory_map_entry start (size / efi_page_size) reserved s else some s

-- One descriptor of mmap_build_memory_map: the reserved parts, then the rest.
unfoldable pub build_from : BumpAllocator → EfiMemoryDescriptor → MapState → Option MapState
build_from page_table descriptor s =
    let start = descriptor.physical_start_address in
    let pages = descriptor.number_of_pages in
    let end = add64 start (mul64 pages efi_page_size) in
    let has_map = leb start s.memory_map.memory_start && leb s.memory_map.memory_end end in
    let has_table = leb start page_table.memory_start && leb page_table.memory_end end in
    let start' = if has_map then add64 start memory_map_reserved_size else start in
    let pages' =
      if has_map then sub64 pages (memory_map_reserved_size / efi_page_size) else pages in
    let start'' = if has_table then add64 start' page_table_reserved_size else start' in
    let pages'' =
      if has_table then sub64 pages' (page_table_reserved_size / efi_page_size) else pages' in
    if efi_memory_map_is_usable descriptor
    then elim (reserved_entry has_map s.memory_map.memory_start memory_map_reserved_size s) [
      | none ↦ none
      | some s₁ ↦
          elim (reserved_entry has_table page_table.memory_start page_table_reserved_size s₁) [
            | none ↦ none
            | some s₂ ↦ mmap_new_memory_map_entry start'' pages'' usable s₂
          ]
    ]
    else mmap_new_memory_map_entry start pages reserved s

unfoldable pub mmap_build_memory_map :
    BumpAllocator → List EfiMemoryDescriptor → MapState → Option MapState
mmap_build_memory_map page_table [] s = some s
mmap_build_memory_map page_table (descriptor ∷ rest) s = elim (build_from page_table descriptor s) [
  | none ↦ none
  | some s' ↦ mmap_build_memory_map page_table rest s'
]
