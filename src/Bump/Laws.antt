-- ===== src/Bump/Laws.antt =====
-- A bump allocator hands out its memory from the start on, each part once.
use z_os.Base.{ℕ, ◌+◌, ◌-◌, ◌^◌, ◌≤◌, ◌<◌, ◌≡◌, none, some, false, ◌⊎◌, inl, inr, arith}
use native.Mathlib.Decide.{dec_lt}
use z_os.Bump.{BumpAllocator, bump_allocator_invalid, bump_allocator_init, bump_allocator_allocate}

-- What is handed out and what is left make up the memory.
pub record IsBump (b : BumpAllocator) : Type 0 where
  pub started : 0 < b.memory_start
  pub ordered : b.memory_start + b.allocated_size + b.remaining_size ≡ b.memory_end
  pub small : b.memory_end < 2 ^ 64

-- bump_allocator_init makes a valid allocator of a memory that does not start at 0, in use.
bump_allocator_init-IsBump :
    (start stop : ℕ)
    → 0 < start
    → start ≤ stop
    → stop < 2 ^ 64
    → IsBump (bump_allocator_init start stop)
      × (bump_allocator_invalid (bump_allocator_init start stop) ≡ false)
unfolding bump_allocator_init bump_allocator_invalid
bump_allocator_init-IsBump start stop h k l = ground arith

-- On a valid allocator, an allocation fails exactly if too little is left; else it lies behind all
-- earlier ones and within the memory, and the allocator stays valid.
pub bump_allocator_allocate_lem :
    (b : BumpAllocator) (size : ℕ)
    → IsBump b
    → ((b.remaining_size < size) × (bump_allocator_allocate b size ≡ none))
      ⊎ ((address : ℕ) × (b' : BumpAllocator) × (bump_allocator_allocate b size
            ≡ some (address, b'))
          × (address ≡ b.memory_start + b.allocated_size)
          × (address + size ≡ b'.memory_start + b'.allocated_size)
          × (address + size ≤ b.memory_end)
          × (b'.memory_end ≡ b.memory_end)
          × (b'.remaining_size + size ≡ b.remaining_size)
          × IsBump b')
unfolding bump_allocator_allocate
bump_allocator_allocate_lem b size v = elim (dec_lt b.remaining_size size) [
  | yes lt ↦ inl (lt, ground arith)
  | no ge ↦ inr (
    b.memory_start + b.allocated_size,
    record b { allocated_size = b.allocated_size + size; remaining_size = b.remaining_size - size },
    ground arith,
    omega arith,
    omega arith,
    omega arith,
    omega arith,
    omega arith,
    omega arith,
  )
]
