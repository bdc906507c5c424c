-- ===== src/Bump.antt =====
-- kernel/bump_allocator.c and .h.
pub mod Laws
mod Tests
use z_os.Base.{ℕ, ◌+◌, ◌-◌, Bool, ◌||◌, Option, none, some, add64, sub64, ltb, ◌==◌, if◌then◌else◌}

pub record BumpAllocator : Type 0 where
  pub memory_start : ℕ
  pub memory_end : ℕ
  pub allocated_size : ℕ
  pub remaining_size : ℕ

unfoldable pub make_invalid : BumpAllocator → BumpAllocator
make_invalid b = record { memory_start = 0; memory_end = 0; allocated_size = 0; remaining_size = 0 }

unfoldable pub bump_allocator_invalid : BumpAllocator → Bool
bump_allocator_invalid b = (b.memory_start == 0) || (b.memory_end == 0)

unfoldable pub bump_allocator_init : ℕ → ℕ → BumpAllocator
bump_allocator_init memory_start memory_end = record {
  memory_start = memory_start;
  memory_end = memory_end;
  allocated_size = 0;
  remaining_size = sub64 memory_end memory_start;
}

-- `none` is -1. `remaining_size -= size` runs only at `size` or more.
unfoldable pub bump_allocator_allocate : BumpAllocator → ℕ → Option (ℕ × BumpAllocator)
bump_allocator_allocate b size =
    if ltb b.remaining_size size
    then none
    else some (
      add64 b.memory_start b.allocated_size,
      record b {
        allocated_size = add64 b.allocated_size size;
        remaining_size = b.remaining_size - size;
      },
    )
