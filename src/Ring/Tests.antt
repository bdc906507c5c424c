-- ===== src/Ring/Tests.antt =====
-- A ring of two slots of three bytes, filled past its end, and the theorems at it.
use z_os.Base.{◌*◌, ◌%◌, ◌≡◌, some, [], ◌∷◌, arith, inl}
use mathlib.Core.Option
use z_os.Memory.{Mem}
use z_os.Ring.{RingBuffer, enqueue, dequeue}
use z_os.Ring.Inv.{IsValid}
use z_os.Ring.Queue
use z_os.Ring.Refine.{contents, delivered, Leaves, enqueue_refines, dequeue_refines}

abbrev empty : RingBuffer
empty = record {
  base_address = 100;
  enqueue_ptr = 100;
  dequeue_ptr = 100;
  ring_size = 2;
  data_size = 3;
  used_count = 0;
}

-- One item, in the second slot: the next one goes into the first.
abbrev wrapped : RingBuffer
wrapped = record empty { dequeue_ptr = 103; used_count = 1 }

abbrev memory : Mem
memory a = a * 7 % 256

wrapped-IsValid : IsValid wrapped 1
wrapped-IsValid = omega arith

abbrev filled : RingBuffer
filled = record wrapped { enqueue_ptr = 103; used_count = 2 }

enqueue_refines_example :
    (Option.map (λ (r', m'). contents r' 1 m') (enqueue (some wrapped) memory 10 2)
      ≡ some ((209 ∷ 216 ∷ 223 ∷ []) ∷ (70 ∷ 77 ∷ 202 ∷ []) ∷ []))
    × Leaves wrapped 1 (enqueue (some wrapped) memory 10 2)
unfolding Queue.push
enqueue_refines_example =
    enqueue_refines memory 10 2 wrapped-IsValid (omega arith) (omega arith) (inl (omega arith))

dequeue_refines_example :
    (Option.map (delivered 10 2 0) (dequeue (some wrapped) memory 10 2) ≡ some (209 ∷ 216 ∷ [], []))
    × Leaves wrapped 0 (dequeue (some wrapped) memory 10 2)
unfolding Queue.pop
dequeue_refines_example =
    dequeue_refines memory 10 2 wrapped-IsValid (omega arith) (omega arith) (inl (omega arith))
