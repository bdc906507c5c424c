-- ===== src/Memory/Tests.antt =====
-- The loops' theorems at small blocks.
use z_os.Base.{◌*◌, ◌%◌, ◌≡◌}
use z_os.Memory.{Mem, memory_compare, minus}
use z_os.Memory.Compare.{order, memory_compare-order}

abbrev memory : Mem
memory a = a * 7 % 256

memory_compare-order_example : memory_compare memory 0 1 2 ≡ minus
unfolding order
memory_compare-order_example = memory_compare-order memory 0 1 2
