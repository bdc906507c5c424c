-- ===== src/PageAlloc/Init.antt =====
-- The free pages at the start are those of the usable descriptors of the memory map.
use z_os.Base.{ℕ, ◌+◌, ◌/◌, ◌≤◌, ◌≡◌, ◌⊎◌, List, [], ◌∷◌}
use z_os.Mmap.Boot.{MemoryDescriptor, usable}
use z_os.PageAlloc.{page_size, Pages}
use z_os.PageAlloc.Blocks.{IsFree, IsPages}
use z_os.PageAlloc.Start.{InRange}

abbrev pub Holds : (x : ℕ) → MemoryDescriptor → Type 0
Holds x d = (d.type ≡ usable) × InRange x (d.physical_start_address / page_size) d.number_of_pages

-- A page of a usable descriptor.
abbrev pub IsUsable : (x : ℕ) → List MemoryDescriptor → Type 0
IsUsable x [] = ⊥
IsUsable x (d ∷ descriptors) = Holds x d ⊎ IsUsable x descriptors

-- The usable descriptors lie below the largest page, and no two share a page.
abbrev pub IsMap : List MemoryDescriptor → Type 0
IsMap [] = Unit {0}
IsMap (d ∷ descriptors) =
    (d.type ≡ usable → d.physical_start_address / page_size + d.number_of_pages ≤ 0x1000000)
    × ((x : ℕ) → Holds x d → ¬ IsUsable x descriptors)
    × IsMap descriptors

record Filled (descriptors : List MemoryDescriptor) (s s' : Pages) : Type 0 where
  valid : IsPages s'
  from : (x : ℕ) → IsFree x s' → IsFree x s ⊎ IsUsable x descriptors
  to : (x : ℕ) → IsFree x s ⊎ IsUsable x descriptors → IsFree x s'
