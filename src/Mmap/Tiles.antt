-- ===== src/Mmap/Tiles.antt =====
-- The kernel's memory map covers each descriptor of the firmware's map, with no gap or overlap, and
-- gives nothing away that is reserved.
use z_os.Base.{
  ℕ, ◌+◌, ◌-◌, ◌*◌, ◌^◌, ◌≤◌, ◌<◌, ◌≡◌, ◌⊎◌, inl, inr, true, false, some, List, [], ◌∷◌, ◌++◌,
  arith, refl, sym, ap, subst, ◌∙◌, length,
}
use z_os.Bump.{BumpAllocator}
use z_os.Mmap.Boot.{
  EfiMemoryDescriptor, MemoryDescriptor, MemoryType, usable, reserved, MapState,
  efi_memory_map_is_usable, memory_map_reserved_size, page_table_reserved_size, build_from,
  mmap_build_memory_map,
}
use z_os.Mmap.Layout.{
  after, Tiles, Spares, Layout, neither, only_map, only_tables, both, entry_added, build_neither,
  build_both, build_only_map, build_only_tables, build_unusable,
}

-- The entries that build_from adds.
pub record Covers (d : EfiMemoryDescriptor) (tables : BumpAllocator) (s s' : MapState)
    : Type 0 where
  pub added : List MemoryDescriptor
  pub appended : s'.entries ≡ s.entries ++ added
  pub tiles : Tiles d.physical_start_address (after d) added
  pub spares_map : Spares s.memory_map.memory_start memory_map_reserved_size added
  pub spares_tables : Spares tables.memory_start page_table_reserved_size added
  pub same_start : s'.memory_map.memory_start ≡ s.memory_map.memory_start
  pub same_end : s'.memory_map.memory_end ≡ s.memory_map.memory_end
  pub left : s.memory_map.remaining_size ≤ s'.memory_map.remaining_size + 72
  pub whole :
      s'.memory_map.allocated_size + s'.memory_map.remaining_size
      ≡ s.memory_map.allocated_size + s.memory_map.remaining_size

append_nil : {A : Type 0} (xs : List A) → xs ++ [] ≡ xs
append_nil [] = refl
append_nil (x ∷ xs) = ap (λ zs. x ∷ zs) (append_nil xs)

append_assoc : {A : Type 0} (xs ys zs : List A) → (xs ++ ys) ++ zs ≡ xs ++ (ys ++ zs)
append_assoc [] ys zs = refl
append_assoc (x ∷ xs) ys zs = ap (λ ws. x ∷ ws) (append_assoc xs ys zs)

snoc-append : {A : Type 0} (xs ys : List A) (x : A) → (xs ++ (x ∷ [])) ++ ys ≡ xs ++ (x ∷ ys)
snoc-append [] ys x = refl
snoc-append (y ∷ xs) ys x = ap (λ zs. y ∷ zs) (snoc-append xs ys x)

abbrev entry : ℕ → ℕ → MemoryType → MemoryDescriptor
entry start pages type = record {
  physical_start_address = start;
  number_of_pages = pages;
  type = type;
}

-- A descriptor in one entry, in two and in three.
Covers-one :
    (tables : BumpAllocator) (d : EfiMemoryDescriptor) (s : MapState) (type : MemoryType)
    → Spares s.memory_map.memory_start memory_map_reserved_size
        (entry d.physical_start_address d.number_of_pages type ∷ [])
    → Spares tables.memory_start page_table_reserved_size
        (entry d.physical_start_address d.number_of_pages type ∷ [])
    → 72 ≤ s.memory_map.remaining_size
    → Covers d tables s (entry_added d.physical_start_address d.number_of_pages type s)
Covers-one tables d s type p q room = record {
  added = entry d.physical_start_address d.number_of_pages type ∷ [];
  appended = refl;
  tiles = (refl, refl);
  spares_map = p;
  spares_tables = q;
  same_start = refl;
  same_end = refl;
  left = omega arith;
  whole = omega arith;
}

-- A region of `n` pages at its start, and the rest.
Covers-two :
    (tables : BumpAllocator) (d : EfiMemoryDescriptor) (s : MapState) (region n : ℕ)
    → region ≡ d.physical_start_address
    → n ≤ d.number_of_pages
    → Spares s.memory_map.memory_start memory_map_reserved_size
        (entry (d.physical_start_address + n * 4096) (d.number_of_pages - n) usable ∷ [])
    → Spares tables.memory_start page_table_reserved_size
        (entry (d.physical_start_address + n * 4096) (d.number_of_pages - n) usable ∷ [])
    → 72 ≤ s.memory_map.remaining_size
    → Covers d tables s (
        entry_added
          (d.physical_start_address + n * 4096)
          (d.number_of_pages - n)
          usable
          (entry_added region n reserved s))
Covers-two tables d s region n e le p q room = record {
  added =
      entry region n reserved
      ∷ entry (d.physical_start_address + n * 4096) (d.number_of_pages - n) usable
      ∷ [];
  appended = snoc-append s.entries _ _;
  tiles = (e, (omega arith, omega arith));
  spares_map = (inl refl, p);
  spares_tables = (inl refl, q);
  same_start = refl;
  same_end = refl;
  left = omega arith;
  whole = omega arith;
}

Covers-three :
    (tables : BumpAllocator) (d : EfiMemoryDescriptor) (s : MapState)
    → s.memory_map.memory_start ≡ d.physical_start_address
    → tables.memory_start ≡ d.physical_start_address + 2 ^ 20
    → 256 + 2048 ≤ d.number_of_pages
    → 72 ≤ s.memory_map.remaining_size
    → Covers d tables s (
        entry_added
          (d.physical_start_address + 2 ^ 20 + 2 ^ 23)
          (d.number_of_pages - 256 - 2048)
          usable
          (entry_added tables.memory_start 2048 reserved
            (entry_added s.memory_map.memory_start 256 reserved s)))
Covers-three tables d s e f le room = record {
  added =
      entry s.memory_map.memory_start 256 reserved
      ∷ entry tables.memory_start 2048 reserved
      ∷ entry (d.physical_start_address + 2 ^ 20 + 2 ^ 23) (d.number_of_pages - 256 - 2048) usable
      ∷ [];
  appended = snoc-append _ _ _ ∙ snoc-append s.entries _ _;
  tiles = (e, (omega arith, (omega arith, omega arith)));
  spares_map = (inl refl, (inl refl, (inr (inl (omega arith)), tt)));
  spares_tables = (inl refl, (inl refl, (inr (inl (omega arith)), tt)));
  same_start = refl;
  same_end = refl;
  left = omega arith;
  whole = omega arith;
}

-- What holds while the map is built: the two regions have their sizes, and the memory of the map is
-- within the address space.
pub record IsBuilding (tables : BumpAllocator) (s : MapState) : Type 0 where
  pub sized_map : s.memory_map.memory_end ≡ s.memory_map.memory_start + memory_map_reserved_size
  pub sized_tables : tables.memory_end ≡ tables.memory_start + page_table_reserved_size
  pub whole : s.memory_map.allocated_size + s.memory_map.remaining_size < 2 ^ 64

build_usable :
    (tables : BumpAllocator) (d : EfiMemoryDescriptor) (s : MapState)
    → IsBuilding tables s
    → after d < 2 ^ 64
    → 72 ≤ s.memory_map.remaining_size
    → efi_memory_map_is_usable d ≡ true
    → Layout s.memory_map.memory_start s.memory_map.memory_end tables d
    → (s' : MapState) × (build_from tables d s ≡ some s') × Covers d tables s s'
build_usable tables d s b small room u (neither p q) = (
  _,
  build_neither tables d s b.sized_map b.sized_tables small room b.whole p q u,
  Covers-one tables d s usable (inr p, tt) (inr q, tt) room,
)
build_usable tables d s b small room u (only_map e le q) = (
  _,
  build_only_map tables d s b.sized_map b.sized_tables small room b.whole e le q u,
  Covers-two tables d s s.memory_map.memory_start 256 e (omega (arith, b.sized_map))
      (inr (inl (omega (arith, b.sized_map))), tt)
      (inr (omega (arith, b.sized_map, b.sized_tables)), tt) room,
)
build_usable tables d s b small room u (only_tables p e le) = (
  _,
  build_only_tables tables d s b.sized_map b.sized_tables small room b.whole p e le u,
  Covers-two tables d s tables.memory_start 2048 e (omega (arith, b.sized_tables))
      (inr (omega (arith, b.sized_map, b.sized_tables)), tt)
      (inr (inl (omega (arith, b.sized_tables))), tt) room,
)
build_usable tables d s b small room u (both e f le) = (
  _,
  build_both tables d s b.sized_map b.sized_tables small room b.whole e f le u,
  Covers-three tables d s e (omega (arith, b.sized_map))
      (omega (arith, b.sized_map, b.sized_tables)) room,
)

-- The entries of a list of descriptors, those of each behind those of the ones before it.
abbrev pub Maps :
    (map_start tables_start : ℕ) → List EfiMemoryDescriptor → List MemoryDescriptor → Type 0
Maps map_start tables_start [] es = es ≡ []
Maps map_start tables_start (d ∷ ds) es =
    (first : List MemoryDescriptor) × (rest : List MemoryDescriptor) × (es ≡ first ++ rest)
    × Tiles d.physical_start_address (after d) first
    × Spares map_start memory_map_reserved_size first
    × Spares tables_start page_table_reserved_size first
    × Maps map_start tables_start ds rest

-- Each descriptor is within the address space, and laid out as Layout says if it is usable.
abbrev pub Laid :
    (map_start map_end : ℕ) (tables : BumpAllocator) → List EfiMemoryDescriptor → Type 0
Laid map_start map_end tables [] = Unit {0}
Laid map_start map_end tables (d ∷ ds) =
    (after d < 2 ^ 64)
    × ((efi_memory_map_is_usable d ≡ false)
        ⊎ ((efi_memory_map_is_usable d ≡ true) × Layout map_start map_end tables d))
    × Laid map_start map_end tables ds

build_one :
    (tables : BumpAllocator) (d : EfiMemoryDescriptor) (s : MapState)
    → IsBuilding tables s
    → after d < 2 ^ 64
    → 72 ≤ s.memory_map.remaining_size
    → (efi_memory_map_is_usable d ≡ false)
      ⊎ ((efi_memory_map_is_usable d ≡ true)
          × Layout s.memory_map.memory_start s.memory_map.memory_end tables d)
    → (s' : MapState) × (build_from tables d s ≡ some s') × Covers d tables s s'
build_one tables d s b small room (inr (u, l)) = build_usable tables d s b small room u l
build_one tables d s b small room (inl u) = (
  _,
  build_unusable tables d s b.sized_map b.sized_tables small room b.whole u,
  Covers-one tables d s reserved (inl refl, tt) (inl refl, tt) room,
)

step_IsBuilding :
    (tables : BumpAllocator) (d : EfiMemoryDescriptor) (s s' : MapState)
    → IsBuilding tables s
    → Covers d tables s s'
    → IsBuilding tables s'
step_IsBuilding tables d s s' b c = record {
  sized_map = omega (arith, b.sized_map, c.same_start, c.same_end);
  sized_tables = b.sized_tables;
  whole = omega (arith, b.whole, c.whole);
}

build_cons :
    (tables : BumpAllocator) (d : EfiMemoryDescriptor) (ds : List EfiMemoryDescriptor)
    (s s' : MapState)
    → build_from tables d s ≡ some s'
    → mmap_build_memory_map tables (d ∷ ds) s ≡ mmap_build_memory_map tables ds s'
unfolding mmap_build_memory_map
build_cons tables d ds s s' e = rw (mmap_build_memory_map, e) refl

-- With room for three entries to each descriptor, descriptors within the address space, and the
-- reserved regions of their sizes at the start of a usable descriptor (the tables' also behind the
-- memory map's) or off it, the kernel's memory map is built, and covers each descriptor of the
-- firmware's map from its start to its end, with no gap or overlap; no usable entry meets a region
-- that the kernel keeps for itself.
pub mmap_build_memory_map-Maps :
    (tables : BumpAllocator) (efi_memory_map : List EfiMemoryDescriptor) (s : MapState)
    → IsBuilding tables s
    → Laid s.memory_map.memory_start s.memory_map.memory_end tables efi_memory_map
    → 72 * length efi_memory_map ≤ s.memory_map.remaining_size
    → (s' : MapState) × (es : List MemoryDescriptor) × (mmap_build_memory_map tables efi_memory_map
          s
        ≡ some s')
      × (s'.entries ≡ s.entries ++ es)
      × Maps s.memory_map.memory_start tables.memory_start efi_memory_map es
unfolding mmap_build_memory_map
mmap_build_memory_map-Maps tables [] s b l room = (s, [], refl, sym (append_nil s.entries), refl)
mmap_build_memory_map-Maps tables (d ∷ ds) s b (small, l, ls) room =
    let (s₁, built, c) = build_one tables d s b small (omega arith) l in
    let laid : Laid s₁.memory_map.memory_start s₁.memory_map.memory_end tables ds =
      rw (c.same_start, c.same_end) ls in
    let (s₂, es, built', at_end, maps) =
      mmap_build_memory_map-Maps tables ds s₁ (step_IsBuilding tables d s s₁ b c) laid
        (omega (arith, c.left)) in
    (
      s₂,
      c.added ++ es,
      build_cons tables d ds s s₁ built ∙ built',
      at_end ∙ ap (λ xs. xs ++ es) c.appended ∙ append_assoc s.entries c.added es,
      (
        c.added,
        es,
        refl,
        c.tiles,
        c.spares_map,
        c.spares_tables,
        subst (λ x. Maps x tables.memory_start ds es) c.same_start maps,
      ),
    )
