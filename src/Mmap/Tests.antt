-- ===== src/Mmap/Tests.antt =====
-- A firmware's map of a device and 64 MiB of memory, what is reserved in it, and the map built of it.
use z_os.Base.{◌≡◌, refl, List, [], ◌∷◌, ◌++◌, some, arith, inl, inr}
use mathlib.Core.Option
use z_os.Bump.{
  BumpAllocator, make_invalid, bump_allocator_invalid, bump_allocator_init, bump_allocator_allocate,
}
use z_os.Mmap.Boot.{
  EfiMemoryDescriptor, MemoryDescriptor, usable, reserved, MapState, reserve_from, reserve_loop,
  mmap_reserve_memory, efi_memory_map_is_usable, mmap_new_memory_map_entry, reserved_entry,
  build_from, mmap_build_memory_map,
}
use z_os.Mmap.Layout.{both}
use z_os.Mmap.Tiles.{Laid, Maps, IsBuilding, mmap_build_memory_map-Maps}

abbrev device : EfiMemoryDescriptor
device = record {
  type = 11;
  physical_start_address = 0x9000000;
  virtual_start_address = 0;
  number_of_pages = 1;
  attribute = 0;
}

abbrev ram : EfiMemoryDescriptor
ram = record device { type = 7; physical_start_address = 0x40000000; number_of_pages = 0x4000 }

abbrev efi_map : List EfiMemoryDescriptor
efi_map = device ∷ ram ∷ []

abbrev unused : BumpAllocator
unused = record { memory_start = 1; memory_end = 2; allocated_size = 3; remaining_size = 4 }

abbrev map_memory : BumpAllocator
map_memory = record {
  memory_start = 0x40000000;
  memory_end = 0x40100000;
  allocated_size = 0;
  remaining_size = 0x100000;
}

abbrev table_memory : BumpAllocator
table_memory = record {
  memory_start = 0x40100000;
  memory_end = 0x40900000;
  allocated_size = 0;
  remaining_size = 0x800000;
}

reserved_in_ram :
    mmap_reserve_memory efi_map (record { memory_map = unused; page_table = unused })
    ≡ some (record { memory_map = map_memory; page_table = table_memory })
unfolding mmap_reserve_memory reserve_loop reserve_from efi_memory_map_is_usable make_invalid
    bump_allocator_invalid bump_allocator_init
reserved_in_ram = refl

abbrev start : MapState
start = record { memory_map = map_memory; entries = [] }

built :
    Option.map (λ (s : MapState). s.entries) (mmap_build_memory_map table_memory efi_map start)
    ≡ some (
        record { physical_start_address = 0x9000000; number_of_pages = 1; type = reserved }
        ∷ record { physical_start_address = 0x40000000; number_of_pages = 0x100; type = reserved }
        ∷ record { physical_start_address = 0x40100000; number_of_pages = 0x800; type = reserved }
        ∷ record { physical_start_address = 0x40900000; number_of_pages = 0x3700; type = usable }
        ∷ [])
unfolding mmap_build_memory_map build_from reserved_entry mmap_new_memory_map_entry
    bump_allocator_allocate efi_memory_map_is_usable
built = refl

start-IsBuilding : IsBuilding table_memory start
start-IsBuilding = record { sized_map = refl; sized_tables = refl; whole = omega arith }

start-Laid : Laid 0x40000000 0x40100000 table_memory efi_map
unfolding efi_memory_map_is_usable
start-Laid = (omega arith, inl refl, (omega arith, inr (refl, both refl refl (omega arith)), tt))

mmap_build_memory_map-Maps_example :
    (s' : MapState) × (es : List MemoryDescriptor) × (mmap_build_memory_map table_memory efi_map
        start
      ≡ some s')
    × (s'.entries ≡ [] ++ es)
    × Maps 0x40000000 0x40100000 efi_map es
mmap_build_memory_map-Maps_example =
    mmap_build_memory_map-Maps table_memory efi_map start start-IsBuilding start-Laid (omega arith)
