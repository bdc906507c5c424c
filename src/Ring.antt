-- ===== src/Ring.antt =====
-- kernel/utils/ring_buffer.c and .h (libraries/libcommon/ring_buffer.c is the same code over libz).
-- A `ring_buffer_t *` that may be null is an Option; a call that returns -1 changes nothing and is
-- `none`. The slots lie in memory at the addresses that the fields hold.
pub mod Inv
pub mod Queue
pub mod Refine
pub mod Window
mod Tests
use z_os.Base.{
  ℕ, ◌-◌, Bool, true, false, ◌&&◌, ◌||◌, Option, none, some, add64, mul64, null, ltb, leb, not,
  ◌==◌, ◌!=◌, if◌then◌else◌,
}
use z_os.Memory.{Mem, memory_copy}

pub record RingBuffer : Type 0 where
  pub base_address : ℕ
  pub enqueue_ptr : ℕ
  pub dequeue_ptr : ℕ
  pub ring_size : ℕ
  pub data_size : ℕ
  pub used_count : ℕ

unfoldable pub advance_ptr : RingBuffer → ℕ → ℕ
advance_ptr r ptr =
    let next = add64 ptr r.data_size in
    if leb (add64 r.base_address (mul64 r.ring_size r.data_size)) next then r.base_address else next

-- The first argument says that the pointer is not null.
unfoldable pub init : Bool → ℕ → ℕ → ℕ → Option RingBuffer
init present base_address ring_size data_size =
    if not present || data_size == 0 || ring_size == 0 then none else some fresh
  where
    fresh : RingBuffer
    fresh = record {
      base_address = base_address;
      enqueue_ptr = base_address;
      dequeue_ptr = base_address;
      ring_size = ring_size;
      data_size = data_size;
      used_count = 0;
    }

abbrev pub is_empty : Option RingBuffer → Bool
is_empty none = true
is_empty (some r) = r.used_count == 0

abbrev pub is_full : Option RingBuffer → Bool
is_full none = false
is_full (some r) = (r.data_size != 0) && (r.used_count == r.ring_size)

unfoldable pub enqueue : Option RingBuffer → Mem → ℕ → ℕ → Option (RingBuffer × Mem)
enqueue none m from data_size = none
enqueue (some r) m from data_size =
    if from == null || ltb r.data_size data_size
    then none
    else if is_full (some r)
    then none
    else some (
      record r { enqueue_ptr = advance_ptr r r.enqueue_ptr; used_count = add64 r.used_count 1 },
      memory_copy m r.enqueue_ptr from data_size,
    )

-- `used_count--` runs only at a count that is not 0.
unfoldable pub dequeue : Option RingBuffer → Mem → ℕ → ℕ → Option (RingBuffer × Mem)
dequeue none m to data_size = none
dequeue (some r) m to data_size =
    if to == null || ltb r.data_size data_size
    then none
    else if is_empty (some r)
    then none
    else some (
      record r { dequeue_ptr = advance_ptr r r.dequeue_ptr; used_count = r.used_count - 1 },
      memory_copy m to r.dequeue_ptr data_size,
    )

unfoldable pub peek : Option RingBuffer → Mem → ℕ → ℕ → Option Mem
peek none m to data_size = none
peek (some r) m to data_size =
    if to == null || ltb r.data_size data_size
    then none
    else if is_empty (some r)
    then none
    else some (memory_copy m to r.dequeue_ptr data_size)
