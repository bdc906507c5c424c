-- ===== src/Memory.antt =====
-- kernel/memory.c over a memory of bytes: the loops of memory_set, memory_copy and memory_compare.
-- A `void *` is an address; its arithmetic does not wrap (in C that is undefined behaviour).
pub mod Copy
pub mod Compare
pub mod Bytes
pub mod Word
mod Tests
use z_os.Base.{ℕ, zero, suc, ◌+◌, Bool, ltb, ◌==◌, if◌then◌else◌}

abbrev pub Mem : Type 0
Mem = ℕ → ℕ

-- `*(uint8_t *)a = v`
abbrev pub store : Mem → ℕ → ℕ → Mem
store m a v b = if b == a then v else m b

set_from : Mem → ℕ → ℕ → ℕ → ℕ → Mem
set_from m address value i zero = m
set_from m address value i (suc rounds) =
    set_from (store m (address + i) value) address value (i + 1) rounds

unfoldable pub memory_set : Mem → ℕ → ℕ → ℕ → Mem
unfolding set_from
memory_set m address value size = set_from m address value 0 size

copy_from : Mem → ℕ → ℕ → ℕ → ℕ → Mem
copy_from m destination source i zero = m
copy_from m destination source i (suc rounds) =
    copy_from (store m (destination + i) (m (source + i))) destination source (i + 1) rounds

unfoldable pub memory_copy : Mem → ℕ → ℕ → ℕ → Mem
unfolding copy_from
memory_copy m destination source size = copy_from m destination source 0 size

-- The `int8_t` that memory_compare returns: -1, 0 or 1.
pub data Sign : Type 0 where
  minus equal plus : Sign

compare_from : Mem → ℕ → ℕ → ℕ → ℕ → Sign
compare_from m a b i zero = equal
compare_from m a b i (suc rounds) =
    let rest = compare_from m a b (i + 1) rounds in
    if ltb (m (a + i)) (m (b + i))
    then minus
    else if ltb (m (b + i)) (m (a + i))
    then plus
    else rest

unfoldable pub memory_compare : Mem → ℕ → ℕ → ℕ → Sign
unfolding compare_from
memory_compare m a b size = compare_from m a b 0 size
