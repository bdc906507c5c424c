-- ===== src/Ring/Refine.antt =====
-- A valid ring is the queue of the items in its used slots.
use mathlib.Core.Option
use native.Mathlib.Nat.{mod-lt}
use native.Mathlib.Decide.{dec_lt}
use z_os.Base.{
  ℕ, suc, ◌+◌, ◌-◌, ◌*◌, ◌%◌, ◌≤◌, ◌<◌, ◌≡◌, ◌≢◌, refl, sym, ap, ap₂, ◌∙◌, ◌⊎◌, inl, inr, Option,
  none, some, add64, List, ◌∷◌, ◌++◌, [], take, arith,
}
use z_os.Memory.{Mem, memory_copy}
use z_os.Memory.Bytes.{bytes, bytes-append, bytes-copy_target, bytes-copy-Apart, take-bytes, Apart}
use z_os.Ring.{RingBuffer, enqueue, dequeue, peek}
use z_os.Ring.Inv.{IsValid, slot-le, enqueue-IsValid, dequeue-IsValid}
use z_os.Ring.Queue
use z_os.Ring.Window.{window, length-window, window_of_ne_zero, window_congr, window_extend}

-- The bytes of slot `i`.
abbrev pub slot : RingBuffer → Mem → ℕ → List ℕ
slot r m i = bytes m (r.base_address + i * r.data_size) r.data_size

-- The items, oldest first.
abbrev pub contents : RingBuffer → ℕ → Mem → List (List ℕ)
contents r head m = window r.ring_size (slot r m) head r.used_count

-- The bytes at the destination of a read, and the items that are left.
abbrev pub delivered : ℕ → ℕ → ℕ → RingBuffer × Mem → List ℕ × List (List ℕ)
delivered to size head (r, m) = (bytes m to size, contents r head m)

-- The first `size` bytes of an item, and the other items.
abbrev pub front : ℕ → List ℕ → List (List ℕ) → List ℕ × List (List ℕ)
front size x q = (take size x, q)

-- The addresses of all slots.
abbrev pub OffStorage : RingBuffer → ℕ → ℕ → Type 0
OffStorage r a n = Apart a n r.base_address (r.ring_size * r.data_size)

slots_apart : (i j d : ℕ) → i ≢ j → (i * d + d ≤ j * d) ⊎ (j * d + d ≤ i * d)
slots_apart i j d ne = elim (dec_lt i j) [
  | yes p ↦ inl (slot-le i j d p)
  | no p ↦ inr (slot-le j i d (omega arith))
]

module _ {r : RingBuffer} {head : ℕ} (m : Mem) (v : IsValid r head) where
  abbrev tail_slot : ℕ
  tail_slot = (head + r.used_count) % r.ring_size

  tail-lt : tail_slot < r.ring_size
  tail-lt = mod-lt (head + r.used_count) v.slots

  -- The source lies off the storage, so the copy is exact.
  copies_up :
      (from size : ℕ)
      → OffStorage r from size
      → (r.enqueue_ptr ≤ from) ⊎ (from + size ≤ r.enqueue_ptr)
  copies_up from size off =
      omega (arith, v.at_tail, slot-le tail_slot r.ring_size r.data_size tail-lt)

  -- A write into the free slot reaches no other slot.
  slot-copy_ne :
      (from size i : ℕ)
      → size ≤ r.data_size
      → OffStorage r from size
      → i < r.ring_size
      → i ≢ tail_slot
      → slot r (memory_copy m r.enqueue_ptr from size) i ≡ slot r m i
  slot-copy_ne from size i small off hi ne =
      bytes-copy-Apart m r.enqueue_ptr from size (r.base_address + i * r.data_size) r.data_size
        (copies_up from size off) (omega (arith, slots_apart i tail_slot r.data_size ne, v.at_tail))

  slot-copy_self :
      (from size : ℕ)
      → size ≤ r.data_size
      → OffStorage r from size
      → slot r (memory_copy m r.enqueue_ptr from size) tail_slot
        ≡ bytes m from size ++ bytes m (r.enqueue_ptr + size) (r.data_size - size)
  slot-copy_self from size small off =
      let m' : Mem = memory_copy m r.enqueue_ptr from size in
      let up = copies_up from size off in
      let size_parts : r.data_size ≡ size + (r.data_size - size) = omega arith in
      ap₂ (bytes m') (sym v.at_tail) size_parts
      ∙ bytes-append m' r.enqueue_ptr size (r.data_size - size)
      ∙ ap₂ ◌++◌ (bytes-copy_target m r.enqueue_ptr from size up) (
          bytes-copy-Apart m r.enqueue_ptr from size (r.enqueue_ptr + size) (r.data_size - size) up
            (omega arith))

  -- enqueue on a ring that is not full, with a source off the storage.
  pub enqueue_contents :
      (from size : ℕ)
      → size ≤ r.data_size
      → OffStorage r from size
      → r.used_count < r.ring_size
      → window r.ring_size (slot r (memory_copy m r.enqueue_ptr from size)) head (suc r.used_count)
        ≡ contents r head m
          ++ ((bytes m from size ++ bytes m (r.enqueue_ptr + size) (r.data_size - size)) ∷ [])
  enqueue_contents from size small off room =
      window_extend r.ring_size (slot r m) (slot r (memory_copy m r.enqueue_ptr from size)) head
        r.used_count v.head_in room (λ i hi ne. slot-copy_ne from size i small off hi ne)
      ∙ ap (λ x. contents r head m ++ (x ∷ [])) (slot-copy_self from size small off)

  -- The destination lies off the storage: the oldest slot is copied exactly, and no slot changes.
  copies_out :
      (to size : ℕ)
      → OffStorage r to size
      → size ≤ r.data_size
      → (to ≤ r.dequeue_ptr) ⊎ (r.dequeue_ptr + size ≤ to)
  copies_out to size off small =
      omega (arith, v.at_head, slot-le head r.ring_size r.data_size v.head_in)

  pub copy_out-contents :
      (to size h k : ℕ)
      → OffStorage r to size
      → size ≤ r.data_size
      → h < r.ring_size
      → window r.ring_size (slot r (memory_copy m to r.dequeue_ptr size)) h k
        ≡ window r.ring_size (slot r m) h k
  copy_out-contents to size h k off small hh =
      window_congr r.ring_size (slot r m) (slot r (memory_copy m to r.dequeue_ptr size)) h k v.slots
        hh
        λ i hi.
          bytes-copy-Apart m to r.dequeue_ptr size (r.base_address + i * r.data_size) r.data_size
            (copies_out to size off small) (omega (arith, slot-le i r.ring_size r.data_size hi))

  pub copy_out-item :
      (to size : ℕ)
      → OffStorage r to size
      → size ≤ r.data_size
      → bytes (memory_copy m to r.dequeue_ptr size) to size ≡ take size (slot r m head)
  copy_out-item to size off small =
      bytes-copy_target m to r.dequeue_ptr size (copies_out to size off small)
      ∙ sym (take-bytes m r.dequeue_ptr size (r.data_size - size))
      ∙ ap₂ (λ a n. take size (bytes m a n)) v.at_head size_parts
    where
      size_parts : size + (r.data_size - size) ≡ r.data_size
      size_parts = omega arith

enqueue_queue :
    {r : RingBuffer} {head : ℕ} (m : Mem) (from size : ℕ)
    → IsValid r head
    → from ≢ 0
    → size ≤ r.data_size
    → OffStorage r from size
    → Option.map (λ (r', m'). contents r' head m') (enqueue (some r) m from size)
      ≡ Queue.push r.ring_size
          (contents r head m)
          (bytes m from size ++ bytes m (r.enqueue_ptr + size) (r.data_size - size))
unfolding enqueue Queue.push
enqueue_queue {r} {head} m from size v present small off = ground (
  arith,
  length-window r.ring_size (slot r m) head r.used_count,
  enqueue_contents m v from size small off,
  around,
)
  where
    around : (add64 r.used_count 1 ≡ suc r.used_count) ⊎ (r.used_count ≡ r.ring_size)
    around = omega arith

dequeue_queue :
    {r : RingBuffer} {head : ℕ} (m : Mem) (to size : ℕ)
    → IsValid r head
    → to ≢ 0
    → size ≤ r.data_size
    → OffStorage r to size
    → Option.map (delivered to size ((head + 1) % r.ring_size)) (dequeue (some r) m to size)
      ≡ Option.map (λ (x, q). front size x q) (Queue.pop (contents r head m))
unfolding dequeue Queue.pop
dequeue_queue {r} {head} m to size v present small off = ground (
  arith,
  window_of_ne_zero r.ring_size (slot r m) head r.used_count,
  copy_out-item m v to size off small,
  copy_out-contents m v to size ((head + 1) % r.ring_size) (r.used_count - 1) off small
      (mod-lt (head + 1) v.slots),
)

-- What a call leaves: nothing, or a valid ring over the same storage with its oldest item in slot
-- `head`.
abbrev pub Leaves : RingBuffer → ℕ → Option (RingBuffer × Mem) → Type 0
Leaves r head none = Unit
Leaves r head (some (r', m')) =
    IsValid r' head
    × (r'.base_address ≡ r.base_address)
    × (r'.ring_size ≡ r.ring_size)
    × (r'.data_size ≡ r.data_size)

leaves :
    (r : RingBuffer) (head : ℕ) (o : Option (RingBuffer × Mem))
    → ((r' : RingBuffer) (m' : Mem) → o ≡ some (r', m') → Leaves r head (some (r', m')))
    → Leaves r head o
leaves r head none found = tt
leaves r head (some (r', m')) found = found r' m' refl

enqueue_storage :
    (r r' : RingBuffer) {m' : Mem} (m : Mem) (from size : ℕ)
    → enqueue (some r) m from size ≡ some (r', m')
    → (r'.base_address ≡ r.base_address) × (r'.data_size ≡ r.data_size)
unfolding enqueue
enqueue_storage r r' m from size e = ground arith

dequeue_storage :
    (r r' : RingBuffer) {m' : Mem} (m : Mem) (to size : ℕ)
    → dequeue (some r) m to size ≡ some (r', m')
    → (r'.base_address ≡ r.base_address) × (r'.data_size ≡ r.data_size)
unfolding dequeue
dequeue_storage r r' m to size e = ground arith

enqueue-Leaves :
    {r : RingBuffer} {head : ℕ} (m : Mem) (from size : ℕ)
    → IsValid r head
    → Leaves r head (enqueue (some r) m from size)
enqueue-Leaves {r} {head} m from size v = leaves r head (enqueue (some r) m from size) λ r' m' e.
    let (v', _, n) = enqueue-IsValid m from size v e in
    let (base, d) = enqueue_storage r r' m from size e in (v', base, n, d)

dequeue-Leaves :
    {r : RingBuffer} {head : ℕ} (m : Mem) (to size : ℕ)
    → IsValid r head
    → Leaves r ((head + 1) % r.ring_size) (dequeue (some r) m to size)
dequeue-Leaves {r} {head} m to size v =
    leaves r ((head + 1) % r.ring_size) (dequeue (some r) m to size) λ r' m' e.
      let (v', _, n) = dequeue-IsValid m to size v e in
      let (base, d) = dequeue_storage r r' m to size e in (v', base, n, d)

-- On a valid ring, with a source that is not NULL, is no longer than a slot and lies off the
-- storage, ring_buffer_enqueue is Queue.push of the slot's new bytes: those of the source, then
-- what the slot held behind them; the ring that it leaves is valid over the same storage, with the
-- head where it was.
pub enqueue_refines :
    {r : RingBuffer} {head : ℕ} (m : Mem) (from size : ℕ)
    → IsValid r head
    → from ≢ 0
    → size ≤ r.data_size
    → OffStorage r from size
    → (Option.map (λ (r', m'). contents r' head m') (enqueue (some r) m from size)
        ≡ Queue.push r.ring_size
            (contents r head m)
            (bytes m from size ++ bytes m (r.enqueue_ptr + size) (r.data_size - size)))
      × Leaves r head (enqueue (some r) m from size)
enqueue_refines m from size v present small off =
    (enqueue_queue m from size v present small off, enqueue-Leaves m from size v)

-- On a valid ring, with a destination that is not NULL, is no longer than a slot and lies off the
-- storage, ring_buffer_dequeue is Queue.pop: the destination holds the first bytes of the oldest
-- item, and the ring the other items; the ring that it leaves is valid over the same storage, with
-- the head one slot further.
pub dequeue_refines :
    {r : RingBuffer} {head : ℕ} (m : Mem) (to size : ℕ)
    → IsValid r head
    → to ≢ 0
    → size ≤ r.data_size
    → OffStorage r to size
    → (Option.map (delivered to size ((head + 1) % r.ring_size)) (dequeue (some r) m to size)
        ≡ Option.map (λ (x, q). front size x q) (Queue.pop (contents r head m)))
      × Leaves r ((head + 1) % r.ring_size) (dequeue (some r) m to size)
dequeue_refines m to size v present small off =
    (dequeue_queue m to size v present small off, dequeue-Leaves m to size v)

-- Under the conditions of dequeue_refines, ring_buffer_peek shows what ring_buffer_dequeue would
-- take, and leaves every item.
pub peek_refines :
    {r : RingBuffer} {head : ℕ} (m : Mem) (to size : ℕ)
    → IsValid r head
    → to ≢ 0
    → size ≤ r.data_size
    → OffStorage r to size
    → Option.map (λ m'. delivered to size head (r, m')) (peek (some r) m to size)
      ≡ Option.map (λ (x, q). front size x (contents r head m)) (Queue.pop (contents r head m))
unfolding peek Queue.pop
peek_refines {r} {head} m to size v present small off = ground (
  arith,
  window_of_ne_zero r.ring_size (slot r m) head r.used_count,
  copy_out-item m v to size off small,
  copy_out-contents m v to size head r.used_count off small v.head_in,
)
