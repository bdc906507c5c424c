-- ===== src/Ring/Inv.antt =====
-- The representation invariant of a ring buffer, and that each operation keeps it.
use z_os.Base.{
  ℕ, ◌+◌, ◌-◌, ◌*◌, ◌%◌, ◌^◌, ◌≤◌, ◌<◌, ◌≡◌, add64, some, true, arith, ◌⊎◌, inl, inr, ap,
}
use native.Mathlib.Nat.{mod-eq_of_lt, mod_self, mod-lt, mod-add-mod, add_assoc}
use native.Mathlib.Decide.{dec_lt}
use z_os.Memory.{Mem}
use z_os.Ring.{RingBuffer, advance_ptr, init, enqueue, dequeue}

-- The storage fits into the address space, and both pointers stand at slots: the oldest item in
-- slot `head`, the next free slot `used_count` slots further, going round.
pub record IsValid (r : RingBuffer) (head : ℕ) : Type 0 where
  pub sized : 0 < r.data_size
  pub slots : 0 < r.ring_size
  pub fits : r.base_address + r.ring_size * r.data_size < 2 ^ 64
  pub few : r.ring_size < 2 ^ 64
  pub head_in : head < r.ring_size
  pub used_in : r.used_count ≤ r.ring_size
  pub at_head : r.dequeue_ptr ≡ r.base_address + head * r.data_size
  pub at_tail : r.enqueue_ptr ≡ r.base_address + ((head + r.used_count) % r.ring_size) * r.data_size

-- A slot ends at or before the next one.
pub slot-le : (i n d : ℕ) → i < n → i * d + d ≤ n * d
slot-le i n d h = grind arith

suc-mul : (i d : ℕ) → (i + 1) * d ≡ i * d + d
suc-mul i d = omega arith

next_slot :
    (i n : ℕ) → i < n → ((i + 1 ≡ n) × ((i + 1) % n ≡ 0)) ⊎ ((i + 1 < n) × ((i + 1) % n ≡ i + 1))
next_slot i n h = elim (dec_lt (i + 1) n) [
  | yes p ↦ inr (p, mod-eq_of_lt p)
  | no p ↦ inl (omega arith, last (omega arith))
]
  where
    last : i + 1 ≡ n → (i + 1) % n ≡ 0
    last e = rw e (mod_self n)

-- Stepping the pointer from slot `i` gives slot `i + 1`, round the end.
pub advance_ptr_lem :
    (r : RingBuffer) (i : ℕ)
    → 0 < r.data_size
    → r.base_address + r.ring_size * r.data_size < 2 ^ 64
    → i < r.ring_size
    → advance_ptr r (r.base_address + i * r.data_size)
      ≡ r.base_address + ((i + 1) % r.ring_size) * r.data_size
unfolding advance_ptr
advance_ptr_lem r i hd hf hi = elim (next_slot i r.ring_size hi) [
  | inl (e, wrap) ↦
      rw wrap (ground (arith, suc-mul i r.data_size, ap (λ (t : ℕ). t * r.data_size) e))
  | inr (lt, same) ↦
      rw same (ground (arith, suc-mul i r.data_size, slot-le (i + 1) r.ring_size r.data_size lt))
]

-- What ring_buffer_init accepts is valid and empty, if the storage fits into the address space.
init-IsValid :
    (base n d : ℕ) {r : RingBuffer}
    → base + n * d < 2 ^ 64
    → n < 2 ^ 64
    → init true base n d ≡ some r
    → IsValid r 0 × (r.used_count ≡ 0) × (r.ring_size ≡ n) × (r.data_size ≡ d)
unfolding init
init-IsValid base n d {r} hf hn e = ground (arith, mod-eq_of_lt {n = 0 + 0} {m = n})

-- On a valid ring, ring_buffer_enqueue keeps the invariant when it succeeds, and counts one more
-- item.
pub enqueue-IsValid :
    {r r' : RingBuffer} {m' : Mem} {head : ℕ} (m : Mem) (from size : ℕ)
    → IsValid r head
    → enqueue (some r) m from size ≡ some (r', m')
    → IsValid r' head × (r'.used_count ≡ r.used_count + 1) × (r'.ring_size ≡ r.ring_size)
unfolding enqueue
enqueue-IsValid {r} {head} m from size v e = ground (
  arith,
  advance_ptr_lem r ((head + r.used_count) % r.ring_size) v.sized v.fits (mod-lt _ v.slots),
  mod-add-mod (head + r.used_count) r.ring_size 1,
  add_assoc head r.used_count 1,
  around,
)
  where
    around : (add64 r.used_count 1 ≡ r.used_count + 1) ⊎ (r.used_count ≡ r.ring_size)
    around = omega arith

-- On a valid ring, ring_buffer_dequeue keeps the invariant when it succeeds, and moves the head by
-- one slot.
pub dequeue-IsValid :
    {r r' : RingBuffer} {m' : Mem} {head : ℕ} (m : Mem) (to size : ℕ)
    → IsValid r head
    → dequeue (some r) m to size ≡ some (r', m')
    → IsValid r' ((head + 1) % r.ring_size)
      × (r'.used_count + 1 ≡ r.used_count)
      × (r'.ring_size ≡ r.ring_size)
unfolding dequeue
dequeue-IsValid {r} {head} m to size v e = ground (
  arith,
  advance_ptr_lem r head v.sized v.fits v.head_in,
  mod-lt (head + 1) v.slots,
  mod-add-mod (head + 1) r.ring_size (r.used_count - 1),
  regroup,
)
  where
    regroup : (r.used_count ≡ 0) ⊎ (head + 1 + (r.used_count - 1) ≡ head + r.used_count)
    regroup = omega arith
