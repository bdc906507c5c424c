-- ===== src/Bump/Tests.antt =====
-- A memory of two pages, and the theorems at it.
use z_os.Base.{refl, arith}
use z_os.Bump.{BumpAllocator}
use z_os.Bump.Laws.{IsBump}

abbrev two_pages : BumpAllocator
two_pages = record {
  memory_start = 0x1000;
  memory_end = 0x3000;
  allocated_size = 0x1000;
  remaining_size = 0x1000;
}

two_pages-IsBump : IsBump two_pages
two_pages-IsBump = record { started = omega arith; ordered = refl; small = omega arith }
