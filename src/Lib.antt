-- ===== src/Lib.antt =====
-- z-os: a model of parts of this repository (an AArch64 kernel in C with the programs for it), and
-- theorems about it.
--
-- The parts and how they interact:
--   Base     what the components share: Boolean tests that compute, lists over the native numbers,
--            64-bit wrap-around (add64, sub64, mul64) and Status for an `int` that is 0 or -1.
--   Bits     the masks and shifts of kernel/vmap.c as sums, products and remainders.
--   Memory   kernel/memory.c: memory_set, memory_copy and memory_compare over a memory of bytes.
--   Ring     kernel/utils/ring_buffer.c: a queue in memory of the caller, moved with memory_copy.
--   Bump     kernel/bump_allocator.c: the memory that the kernel sets aside at boot.
--   Vmap     kernel/vmap.c with the table entries of kernel/mmap.h: building page tables and
--            following them. The page allocator is a parameter, as the two function pointers of a
--            vmap_t are.
--   Mmap     kernel/mmap.c: the page source of the kernel's tables, which fills the interface that
--            Vmap asks of its page allocator (Vmap.Tree.IsPageSource) from a Bump allocator. Mmap.Boot
--            reserves that memory at boot and builds the kernel's map of the physical memory;
--            Mmap.Kernel has the two root tables and the mmap_map_* functions over them.
--   Links    what the doubly linked lists of the kernel share: two link fields for every node, and what
--            the writes to them make of the list that they spell.
--   LinkedList  kernel/utils/linked_list.c, on Links: lists whose nodes stand in one heap.
--   HashTable  kernel/utils/hash_table.c: buckets of chains on Links, with keys that are numbers or bytes of
--            Memory.
--   BlockAllocator  kernel/block_allocator.c, the heap behind kmalloc and kfree: blocks with headers that
--            stand in two lists of Links. The pages behind it come from an interface (Backing).
--   Kmalloc  the interface of kernel/kmalloc.c as its clients use it: memory and a heap, and what an
--            allocation promises (Kmalloc.IsKmalloc), with Kmalloc.Sample as one that keeps it.
--   Vector   kernel/utils/vector.c: elements by their bytes in a storage of Kmalloc.
--   HandleTable  kernel/utils/handle_table.c, and kernel/process/fd_table.c, which wraps it: a Vector of
--            pointers.
--   PageAlloc  kernel/page_alloc.c: the buddy allocator of physical pages, started from the map that
--            Mmap.Boot makes.
--   Scheduler  kernel/scheduler: the run queue, the states of the threads, and histories of calls.
--   Channel  kernel/process/channel.c: messages and descriptors between processes, over Scheduler, whose
--            threads wait in a channel and are woken up by it.
--   Format   libz/format.c: numbers as hexadecimal digits.
--   TextInput  programs/compositor/ui/text_input.c: the text that a user edits at a cursor, and the
--            edits that the keyboard's events make.
--
-- How state and errors are modelled: a C structure is a record, a function that changes it
-- returns the new one, and memory is a function from addresses. A function that returns -1 gives
-- `none`, or `failed` with the state that it leaves behind. A pointer that may be NULL is an
-- Option where the code tests it, and the number 0 where the code computes with it. Where an
-- assertion can fail, `none` stands for that and the status is a value of its own (Scheduler,
-- Channel), or the result has a constructor for it (PageAlloc.Freeing, Mmap.NewTable). A call that blocks ends with the turn given
-- away; its loop goes on as the same call anew. In Channel, Scheduler and PageAlloc a linked
-- list is the list of what its nodes hold, and whether kmalloc has memory for a node is an
-- argument; in LinkedList, HashTable and BlockAllocator the nodes have addresses, and a list is
-- the chain of their links. Numbers are natural numbers; the additions of the source that could
-- pass 2^64 have the wrap-around written out.
--
-- Bounds and fuel: the range functions of Vmap run on Vmap.range_fuel, which is the number of
-- steps of the range and one more; Vmap.Range shows that it is enough. The loop of
-- page_alloc_init over a descriptor runs on its number of pages, of which each step takes at
-- least one; PageAlloc.Start shows that it is enough. A loop along the nodes of a list takes
-- fuel for every node (LinkedList.Destroy, HashTable.Chains, BlockAllocator.Find). The loop of
-- page_alloc_free that looks for the buddy ends in its first turn or not at all: any fuel but 0
-- is enough where it ends, and PageAlloc.Freeing has a value for where it does not.
--
-- Not modelled: the drivers and the loader, which talk to hardware and firmware; the programs
-- but for the text input; drawing; the processor's registers, its TLB, and the switch of page
-- tables and stacks between threads; and interrupts within a function of the kernel: each runs
-- to its end, and histories of the scheduler are sequences of whole calls. The files, the
-- opening of channels, shared memory, processes and the system calls of the kernel have no model
-- yet.
pub mod Base
pub mod Bits
pub mod BlockAllocator
pub mod Bump
pub mod Channel
pub mod Format
pub mod HandleTable
pub mod HashTable
pub mod Kmalloc
pub mod LinkedList
pub mod Links
pub mod Memory
pub mod Mmap
pub mod PageAlloc
pub mod Ring
pub mod Scheduler
pub mod TextInput
pub mod Vector
pub mod Vmap
