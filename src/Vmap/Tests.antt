-- ===== src/Vmap/Tests.antt =====
-- A fresh root table from the reserved memory, a page mapped below it, and the theorems at it.
use z_os.Base.{ℕ, ◌+◌, ◌<◌, ◌≡◌, refl, true, Option, some, arith, ◌==◌, if◌then◌else◌}
use native.Mathlib.Decide.{ℕ_discrete}
use z_os.Bump.{BumpAllocator, bump_allocator_invalid, bump_allocator_allocate}
use z_os.Mmap.{
  mmap_fns, alloc_vmap_page, alloc_new_table, mmap_physical_to_virtual, vmap_physical_to_virtual,
  mmap_virtual_base_address,
}
use z_os.Mmap.Pages.{table_pages, distance, mmap_fns-IsPageSource}
use z_os.Vmap.{
  Vmap, VmapFns, Words, Result, done, failed, entry_or_new, set_entry, root_table, vmap_map_page,
  vmap_map_l2_block, vmap_map_range, vmap_map_range_l1_block, vmap_map_range_l2_block,
  set_new_entry, vmap_virtual_to_physical,
}
use z_os.Vmap.Entry.{l0_index, l1_index, l2_index, l3_index, table_entry, page_entry, block_entry}
use z_os.Vmap.Tree.{View, IsPageSource, IsTree}
use z_os.Vmap.Steps.{Ensures}
use z_os.Vmap.Tree.{Unblocked}
use z_os.Vmap.Fields.{addr_field}
use z_os.Base.{◌≢◌}
use z_os.Vmap.{vmap_init}
use z_os.Mmap.Kernel.{KernelTables, is_kernel_address, table_of, build_vmap_table, mmap_map_page}
use z_os.Mmap.Mapped.{Outcome, mmap_map_page-Outcome}
use z_os.Vmap.Range.{Returns, range-Returns}
use z_os.Vmap.Map.{PageMapped, vmap_map_page-PageMapped}

abbrev start : Vmap BumpAllocator
start = record {
  root_page_table = 0x100000;
  words = λ a. 0;
  pool = record {
    memory_start = 0x100000;
    memory_end = 0x110000;
    allocated_size = 0x1000;
    remaining_size = 0xF000;
  };
}

program : Unit {0}
unfolding vmap_map_page vmap_map_l2_block entry_or_new set_entry set_new_entry root_table
    vmap_virtual_to_physical l0_index l1_index l2_index l3_index table_entry page_entry block_entry
    alloc_vmap_page alloc_new_table mmap_physical_to_virtual vmap_physical_to_virtual
    bump_allocator_invalid bump_allocator_allocate
program = tt

abbrev fns : VmapFns BumpAllocator
fns = mmap_fns true

-- The translation of `a` after a call.
abbrev translated : Result BumpAllocator (Unit {0}) → ℕ → Option ℕ
translated (done _ s) a = vmap_virtual_to_physical fns s a
translated (failed s) a = vmap_virtual_to_physical fns s a

mapped_page : translated (vmap_map_page fns 0x5000 0x40001000 0x40 start) 0x40001234 ≡ some 0x5234
unfolding program
mapped_page = refl

-- A page mapped into a block of 2 MiB: the call returns 0, and the block's memory is taken for a
-- table.
abbrev page_in_block : Vmap BumpAllocator → Result BumpAllocator (Unit {0})
page_in_block s = elim (vmap_map_l2_block fns 0x40000000 0x400000 0x40 s) [
  | done _ s' ↦ vmap_map_page fns 0x5000 0x40001000 0x40 s'
  | failed s' ↦ failed s'
]

page_in_block_lost : translated (page_in_block start) 0x40001234 ≡ some 0x401234
unfolding program
page_in_block_lost = refl

abbrev root_view : View
root_view = record { height = λ u. if u == 0x100000 then 3 else 4; prefix = λ u. 0 }

root_only : (u : ℕ) → root_view.height u < 4 → u ≡ 0x100000
root_only u h = ground arith

start-IsTree : IsTree fns (distance true) table_pages start root_view
unfolding vmap_physical_to_virtual mmap_physical_to_virtual
start-IsTree = record {
  page = λ u h. rw (root_only u h) (omega arith);
  present = λ u h. rw (root_only u h) (omega arith);
  linear = λ u h. rw (root_only u h) refl;
  pool = omega arith;
  unused = λ u free. elim (ℕ_discrete u 0x100000) [
    | yes e ↦ absurd (omega (arith, free.above))
    | no ne ↦ ground arith
  ];
  root_height = λ _. refl;
  root_prefix = λ _. refl;
  child_height = λ u i a b c d. absurd (omega (arith, d.0));
  child_prefix = λ u i a b c d. absurd (omega (arith, d.0));
}

vmap_map_page-PageMapped_example :
    Ensures
      (λ _.
        PageMapped
          (mmap_fns-IsPageSource true)
          start
          root_view
          start-IsTree
          (omega arith)
          0x5000
          0x40001000)
      (λ s'. table_pages.room start.pool < 3)
      (vmap_map_page fns 0x5000 0x40001000 0x40 start)
vmap_map_page-PageMapped_example =
    vmap_map_page-PageMapped (mmap_fns-IsPageSource true) start root_view start-IsTree (omega arith)
      0x5000 0x40001000 0x40 refl (λ odd. absurd (omega arith))

mmap_fns-IsPageSource_example : IsPageSource fns mmap_virtual_base_address table_pages
mmap_fns-IsPageSource_example = mmap_fns-IsPageSource true

-- A page mapped through four tables, and a block of 1 GiB through two.
abbrev mapped_words : Words
mapped_words a =
    if a == mmap_virtual_base_address + 0x100000
    then 0x101003
    else if a == mmap_virtual_base_address + 0x101000
    then 0x102003
    else if a == mmap_virtual_base_address + 0x101008
    then 0x40000401
    else if a == mmap_virtual_base_address + 0x102000
    then 0x103003
    else if a == mmap_virtual_base_address + 0x103008
    then 0x5403
    else 0

abbrev deep : Vmap BumpAllocator
deep = record {
  root_page_table = 0x100000;
  words = mapped_words;
  pool = record {
    memory_start = 0x100000;
    memory_end = 0x110000;
    allocated_size = 0x4000;
    remaining_size = 0xC000;
  };
}

abbrev deep_view : View
deep_view = record {
  height = λ u.
      if u == 0x100000
      then 3
      else if u == 0x101000
      then 2
      else if u == 0x102000
      then 1
      else if u == 0x103000
      then 0
      else 4;
  prefix = λ u. 0;
}

block_of_1gib : vmap_virtual_to_physical fns deep 0x40001234 ≡ some 0x40001234
unfolding program
block_of_1gib = refl

range-Returns_example :
    Returns (vmap_map_range fns 0x40000000 0x40010000 0x5000 0x40 start)
    × Returns (vmap_map_range_l1_block fns 0x40000000 0x40010000 0x5000 0x40 start)
    × Returns (vmap_map_range_l2_block fns 0x40000000 0x40010000 0x5000 0x40 start)
range-Returns_example = range-Returns fns 0x40000000 0x40010000 0x5000 0x40 start (omega arith)

-- The same root as that of the kernel's lower half.
abbrev kernel : KernelTables
kernel = record {
  ttbr0_table = 0x100000;
  ttbr1_table = 0;
  initialized = true;
  words = start.words;
  page_tables = start.pool;
}

kernel-IsTree :
    IsTree fns (distance true) table_pages (build_vmap_table 0x40001000 kernel) root_view
unfolding build_vmap_table table_of is_kernel_address vmap_init
kernel-IsTree = start-IsTree

kernel_root : (build_vmap_table 0x40001000 kernel).root_page_table ≢ 0
unfolding build_vmap_table table_of is_kernel_address vmap_init
kernel_root = omega arith

kernel-Unblocked :
    Unblocked (distance true) kernel.words 3 (table_of 0x40001000 kernel) (addr_field 0x40001000)
kernel-Unblocked odd = absurd (omega arith)

mmap_map_page-Outcome_example :
    Outcome 0x5000 0x40001000 kernel (mmap_map_page 0x5000 0x40001000 0x40 kernel)
mmap_map_page-Outcome_example =
    mmap_map_page-Outcome kernel root_view 0x5000 0x40001000 0x40 kernel-IsTree kernel_root refl
      kernel-Unblocked
