-- ===== src/Mmap/Kernel.antt =====
-- kernel/mmap.c: the kernel's two root tables and the mmap_map_* functions, each of which works on a
-- vmap_t made of the root for the address, and stores a root that the call made.
use z_os.Base.{ℕ, ◌==◌, Bool, Option, none, some, Status, ok, fail, null, leb, if◌then◌else◌}
use z_os.Bump.{BumpAllocator}
use z_os.Mmap.{mmap_fns}
use z_os.Vmap.{
  Words, Vmap, Result, done, failed, vmap_init, vmap_map_page, vmap_map_l1_block, vmap_map_l2_block,
  vmap_map_range, vmap_map_range_l1_block, vmap_map_range_l2_block, vmap_virtual_to_physical,
}

-- g_ttbr0_table, g_ttbr1_table, g_mmap_initialized, g_page_table_allocator and the memory.
pub record KernelTables : Type 0 where
  pub ttbr0_table : ℕ
  pub ttbr1_table : ℕ
  pub initialized : Bool
  pub words : Words
  pub page_tables : BumpAllocator

-- get_ttbr_table_ptr gives a pointer to the root table of this side.
unfoldable pub is_kernel_address : ℕ → Bool
is_kernel_address virtual_address = leb 0xFFFF000000000000 virtual_address

unfoldable pub table_of : ℕ → KernelTables → ℕ
table_of virtual_address k =
    if is_kernel_address virtual_address then k.ttbr1_table else k.ttbr0_table

unfoldable pub build_vmap_table : ℕ → KernelTables → Vmap BumpAllocator
build_vmap_table virtual_address k = record (vmap_init k.words k.page_tables) {
  root_page_table = table_of virtual_address k;
}

-- mmap_build_vmap, with -1 as `none`.
unfoldable pub mmap_build_vmap : ℕ → KernelTables → Option (Vmap BumpAllocator)
mmap_build_vmap virtual_address k =
    if table_of virtual_address k == null then none else some (build_vmap_table virtual_address k)

-- What a call leaves in memory, its root apart.
unfoldable pub leave : Vmap BumpAllocator → KernelTables → KernelTables
leave s k = record k { words = s.words; page_tables = s.pool }

-- `if (*ttbr_table_ptr == NULL) *ttbr_table_ptr = vmap.root_page_table;`
unfoldable pub store_root : ℕ → Vmap BumpAllocator → KernelTables → KernelTables
store_root virtual_address s k =
    if table_of virtual_address k == null
    then (if is_kernel_address virtual_address
        then record (leave s k) { ttbr1_table = s.root_page_table }
        else record (leave s k) { ttbr0_table = s.root_page_table })
    else leave s k

unfoldable pub finish : ℕ → KernelTables → Result BumpAllocator (Unit {0}) → Status × KernelTables
finish virtual_address k (done _ s) = (ok, store_root virtual_address s k)
finish virtual_address k (failed s) = (fail, leave s k)

unfoldable pub mmap_map_l1_block : ℕ → ℕ → ℕ → KernelTables → Status × KernelTables
mmap_map_l1_block virtual_address physical_address page_flags k = finish virtual_address k (
    vmap_map_l1_block (mmap_fns k.initialized) virtual_address physical_address page_flags
      (build_vmap_table virtual_address k))

unfoldable pub mmap_map_l2_block : ℕ → ℕ → ℕ → KernelTables → Status × KernelTables
mmap_map_l2_block virtual_address physical_address page_flags k = finish virtual_address k (
    vmap_map_l2_block (mmap_fns k.initialized) virtual_address physical_address page_flags
      (build_vmap_table virtual_address k))

-- A range function, whose loop has fuel.
unfoldable pub finish_range :
    ℕ → KernelTables → Option (Result BumpAllocator (Unit {0})) → Option (Status × KernelTables)
finish_range virtual_start_address k none = none
finish_range virtual_start_address k (some r) = some (finish virtual_start_address k r)

unfoldable pub mmap_map_range_l1_block :
    ℕ → ℕ → ℕ → ℕ → KernelTables → Option (Status × KernelTables)
mmap_map_range_l1_block virtual_start virtual_end physical_start page_flags k =
    finish_range virtual_start k (
      vmap_map_range_l1_block (mmap_fns k.initialized) virtual_start virtual_end physical_start
        page_flags (build_vmap_table virtual_start k))

unfoldable pub mmap_map_range_l2_block :
    ℕ → ℕ → ℕ → ℕ → KernelTables → Option (Status × KernelTables)
mmap_map_range_l2_block virtual_start virtual_end physical_start page_flags k =
    finish_range virtual_start k (
      vmap_map_range_l2_block (mmap_fns k.initialized) virtual_start virtual_end physical_start
        page_flags (build_vmap_table virtual_start k))

unfoldable pub mmap_map_range : ℕ → ℕ → ℕ → ℕ → KernelTables → Option (Status × KernelTables)
mmap_map_range virtual_start virtual_end physical_start page_flags k =
    finish_range virtual_start k (
      vmap_map_range (mmap_fns k.initialized) virtual_start virtual_end physical_start page_flags
        (build_vmap_table virtual_start k))

-- This one returns before it stores a root.
unfoldable pub mmap_map_page : ℕ → ℕ → ℕ → KernelTables → Status × KernelTables
mmap_map_page physical_address virtual_address page_flags k =
    elim (vmap_map_page (mmap_fns k.initialized) physical_address virtual_address page_flags
      (build_vmap_table virtual_address k)) [
        | done _ s ↦ (ok, leave s k)
        | failed s ↦ (fail, leave s k)
      ]

unfoldable pub mmap_virtual_to_physical : ℕ → KernelTables → Option ℕ
mmap_virtual_to_physical virtual_address k =
    vmap_virtual_to_physical (mmap_fns k.initialized) (build_vmap_table virtual_address k)
      virtual_address
