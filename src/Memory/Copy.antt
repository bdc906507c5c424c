-- ===== src/Memory/Copy.antt =====
-- What memory_set and memory_copy leave at every address.
use z_os.Base.{ℕ, zero, suc, ◌+◌, ◌-◌, ◌≤◌, ◌≡◌, ◌⊎◌, Bool, ◌&&◌, arith, ltb, leb, if◌then◌else◌}
use z_os.Memory.{Mem, store, set_from, memory_set, copy_from, memory_copy}

-- `a` is one of the `n` addresses from `start` on.
abbrev pub inside : ℕ → ℕ → ℕ → Bool
inside a start n = leb start a && ltb a (start + n)

set_from_lem :
    (m : Mem) (d v i k a : ℕ) → set_from m d v i k a ≡ (if inside a (d + i) k then v else m a)
unfolding set_from
set_from_lem m d v i zero a = ground arith
set_from_lem m d v i (suc k) a = ground (arith, set_from_lem (store m (d + i) v) d v (i + 1) k a)

-- Memory_set writes the value at the given addresses, and nowhere else.
pub memory_set_lem :
    (m : Mem) (address value size a : ℕ)
    → memory_set m address value size a ≡ (if inside a address size then value else m a)
unfolding memory_set
memory_set_lem m d v n a = ground (arith, set_from_lem m d v 0 n a)

-- The loop copies upwards, so the destination may overlap the source from below.
copy_from_lem :
    (m : Mem) (d s i k a : ℕ)
    → (d ≤ s) ⊎ (s + i + k ≤ d)
    → copy_from m d s i k a ≡ (if inside a (d + i) k then m (s + (a - d)) else m a)
unfolding copy_from
copy_from_lem m d s i zero a h = ground arith
copy_from_lem m d s i (suc k) a h =
    ground (arith, copy_from_lem (store m (d + i) (m (s + i))) d s (i + 1) k a)

-- Memory_copy puts the source's old bytes at the destination, and changes nothing else, if the
-- destination starts at or below the source or behind its end.
pub memory_copy_lem :
    (m : Mem) (destination source size a : ℕ)
    → (destination ≤ source) ⊎ (source + size ≤ destination)
    → memory_copy m destination source size a
      ≡ (if inside a destination size then m (source + (a - destination)) else m a)
unfolding memory_copy
memory_copy_lem m d s n a h = ground (arith, copy_from_lem m d s 0 n a)
