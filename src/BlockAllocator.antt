-- ===== src/BlockAllocator.antt =====
-- kernel/block_allocator.c, the heap behind kmalloc and kfree. The headers of the blocks stand in
-- memory of their own, field by field at their addresses, apart from what the blocks hold. The pages
-- behind the heap come from an interface, Backing. The assertions that the address space is active
-- are taken to hold. Loops along a list take fuel, and `none` means that it ran out.
pub mod Tiles
pub mod Heap
pub mod Find
pub mod Split
pub mod Create
pub mod Ready
pub mod Init
pub mod Allocate
pub mod Merge
pub mod Freed
pub mod Free
mod Tests
use z_os.Base.{
  update, ℕ, zero, suc, ◌+◌, ◌-◌, ◌*◌, ◌/◌, ◌%◌, ◌^◌, Bool, true, false, not, ◌||◌, ◌&&◌, Option,
  none, some, Status, ok, fail, null, add64, sub64, ltb, leb, ◌==◌, if◌then◌else◌,
}
use z_os.Links.{Links, link_first, link_behind, unlink}

-- What the address space and the page allocator do: the first 4 MiB, and one more page, become
-- memory at an address.
pub record Backing (S : Type 0) : Type 0 where
  pub map_default : ℕ → S → Status × S
  pub map_new_page : ℕ → S → Status × S

abbrev pub block_magic : ℕ
block_magic = 0x56

abbrev pub default_size : ℕ
default_size = 4 * 1024 * 1024

-- sizeof(block_header_t)
abbrev pub header_size : ℕ
header_size = 56

abbrev pub page_size : ℕ
page_size = 4096

-- The fields of the headers: `blocks` are next_ptr and prev_ptr, `free` those of the free list.
pub record Headers : Type 0 where
  pub magic : ℕ → ℕ
  pub is_free : ℕ → Bool
  pub size : ℕ → ℕ
  pub offset : ℕ → ℕ
  pub blocks : Links
  pub free : Links

pub record BlockAllocator : Type 0 where
  pub virtual_base : ℕ
  pub block_list_head : ℕ
  pub free_list_head : ℕ
  pub headers : Headers

unfoldable pub add_block_to_free_list : ℕ → BlockAllocator → BlockAllocator
add_block_to_free_list b a = record a {
  free_list_head = b;
  headers = record a.headers { free = link_first a.free_list_head b a.headers.free };
}

unfoldable pub remove_block_from_free_list : ℕ → BlockAllocator → BlockAllocator
remove_block_from_free_list b a =
    let free = a.headers.free in
    record a {
      free_list_head = if free.prev b == null then free.next b else a.free_list_head;
      headers = record a.headers { free = unlink b free };
    }

unfoldable pub remove_block_from_block_list : ℕ → BlockAllocator → BlockAllocator
remove_block_from_block_list b a =
    let blocks = a.headers.blocks in
    record a {
      block_list_head = if blocks.prev b == null then blocks.next b else a.block_list_head;
      headers = record a.headers { blocks = unlink b blocks };
    }

-- The first block of the free list, from `b` on, that is large enough, or NULL.
unfoldable pub find_free_from : (fuel b size : ℕ) → Headers → Option ℕ
find_free_from zero b size h = if b == null then some null else none
find_free_from (suc fuel) b size h =
    let rest = find_free_from fuel (h.free.next b) size h in
    if b == null then some null else if leb size (h.size b) then some b else rest

abbrev pub find_free_block : ℕ → ℕ → BlockAllocator → Option ℕ
find_free_block fuel size a = find_free_from fuel a.free_list_head size a.headers

unfoldable pub last_from : (fuel b : ℕ) → Headers → Option ℕ
last_from zero b h = if b == null then some null else none
last_from (suc fuel) b h =
    let rest = last_from fuel (h.blocks.next b) h in
    if b == null then some null else if h.blocks.next b == null then some b else rest

abbrev pub get_last_block_header : ℕ → BlockAllocator → Option ℕ
get_last_block_header fuel a = last_from fuel a.block_list_head a.headers

-- A header with all its fields.
abbrev pub write_header : (b size offset : ℕ) → Headers → Headers
write_header b size offset h = record h {
  magic = update h.magic b block_magic;
  is_free = update h.is_free b true;
  size = update h.size b size;
  offset = update h.offset b offset;
}

abbrev pub set_free : ℕ → Bool → BlockAllocator → BlockAllocator
set_free b free a = record a {
  headers = record a.headers { is_free = update a.headers.is_free b free };
}

abbrev pub clear_links : ℕ → Links → Links
clear_links b l = record { next = update l.next b null; prev = update l.prev b null }

abbrev pub needed_pages : ℕ → ℕ
needed_pages size =
    let bytes = add64 size header_size in
    if bytes % page_size == 0 then bytes / page_size else bytes / page_size + 1

-- The header of the block at an offset.
abbrev pub header_at : (virtual_base offset : ℕ) → ℕ
header_at virtual_base offset = sub64 (add64 virtual_base offset) header_size

-- The new block behind `last`, or the first one if that is NULL, before it is put on the free list.
unfoldable pub append_block : (last pages offset : ℕ) → BlockAllocator → BlockAllocator
append_block last pages offset a =
    let b = header_at a.virtual_base offset in
    let h = write_header b (sub64 (pages * page_size % 2 ^ 64) header_size) offset a.headers in
    if last == null
    then record a { block_list_head = b; headers = record h { blocks = clear_links b h.blocks } }
    else record a {
      headers = record h {
        blocks = record {
          next = update (update h.blocks.next last b) b null;
          prev = update h.blocks.prev b last;
        };
      };
    }

abbrev pub offset_behind : ℕ → Headers → ℕ
offset_behind last h =
    if last == null then header_size else add64 (add64 (h.offset last) (h.size last)) header_size

unfoldable pub split_block : (b size : ℕ) → BlockAllocator → BlockAllocator
split_block b size a =
    let h = a.headers in
    let delta = sub64 (h.size b) size in
    let r = add64 (add64 b size) header_size in
    let shrunk = record h { size = update h.size b size } in
    let written =
      write_header r (sub64 delta header_size) (add64 (add64 (h.offset b) size) header_size)
        shrunk in
    if leb delta header_size
    then a
    else add_block_to_free_list r
        (record a { headers = record written { blocks = link_behind b r h.blocks } })

-- The block is in use from now on, and its address is that behind its header.
unfoldable pub take_block : (b size : ℕ) → BlockAllocator → ℕ × BlockAllocator
take_block b size a =
    let split = split_block b size a in
    (
      add64 a.virtual_base (split.headers.offset b),
      remove_block_from_free_list b (set_free b false split),
    )

module _ {S : Type 0} (backing : Backing S) where
  unfoldable pub map_pages : (count address : ℕ) → S → Status × S
  map_pages zero address s = (ok, s)
  map_pages (suc count) address s =
      let (status, s') = backing.map_new_page address s in
      elim status [ fail ↦ (fail, s') | ok ↦ map_pages count (add64 address page_size) s' ]

  -- The block, NULL if no page is left for it.
  unfoldable pub find_or_create_free_block :
      (fuel size : ℕ) → BlockAllocator → S → Option (ℕ × BlockAllocator × S)
  find_or_create_free_block fuel size a s = elim (find_free_block fuel size a) [
    | none ↦ none
    | some b ↦ if not (b == null) then some (b, a, s) else elim (get_last_block_header fuel a) [
      | none ↦ none
      | some last ↦
          let offset = offset_behind last a.headers in
          let b = header_at a.virtual_base offset in
          let (status, s') = map_pages (needed_pages size) b s in
          elim status [
            | fail ↦ some (null, a, s')
            | ok ↦
                some
                  (b, add_block_to_free_list b (append_block last (needed_pages size) offset a), s')
          ]
    ]
  ]

  -- The address, NULL if there is no memory.
  unfoldable pub block_allocator_allocate :
      (fuel size : ℕ) → BlockAllocator → S → Option (ℕ × BlockAllocator × S)
  block_allocator_allocate fuel size a s = elim (find_or_create_free_block fuel size a s) [
    | none ↦ none
    | some (b, a', s') ↦
        if b == null
        then some (null, a', s')
        else let (address, a'') = take_block b size a' in some (address, a'', s')
  ]

  -- One free block; `h` is what the memory of the headers holds before.
  unfoldable pub block_allocator_init :
      (virtual_base : ℕ) → Headers → S → Status × BlockAllocator × S
  block_allocator_init virtual_base h s =
      let zeroed : BlockAllocator = record {
        virtual_base = virtual_base;
        block_list_head = null;
        free_list_head = null;
        headers = h;
      } in
      let (status, s') = backing.map_default virtual_base s in
      let written = write_header virtual_base (default_size - header_size) header_size h in
      elim status [
        | fail ↦ (fail, zeroed, s')
        | ok ↦ (
          ok,
          record zeroed {
            block_list_head = virtual_base;
            free_list_head = virtual_base;
            headers = record written {
              blocks = clear_links virtual_base h.blocks;
              free = clear_links virtual_base h.free;
            };
          },
          s',
        )
      ]

-- `block->prev_ptr != NULL ? block->prev_ptr->is_free : 0`, and likewise for the next block.
abbrev pub is_free_block : ℕ → Headers → Bool
is_free_block b h = not (b == null) && h.is_free b

-- `before->next_ptr = next; before->size += added;`
abbrev pub merge_into : (before next added : ℕ) → BlockAllocator → BlockAllocator
merge_into before next added a = record a {
  headers = record a.headers {
    blocks = record a.headers.blocks { next = update a.headers.blocks.next before next };
    size = update a.headers.size before (add64 (a.headers.size before) added);
  };
}

unfoldable pub free_block : ℕ → BlockAllocator → BlockAllocator
free_block b a =
    let h = a.headers in
    let prev = h.blocks.prev b in
    let next = h.blocks.next b in
    if is_free_block prev h
    then if is_free_block next h
      then remove_block_from_block_list b (
          remove_block_from_block_list next (
            remove_block_from_free_list next (
              merge_into prev (h.blocks.next next)
                (add64 (add64 (2 * header_size) (h.size b)) (h.size next)) a)))
      else remove_block_from_block_list b (merge_into prev next (add64 header_size (h.size b)) a)
    else if is_free_block next h
    then add_block_to_free_list b (
        set_free b true (
          remove_block_from_free_list next (
            remove_block_from_block_list next
              (merge_into b (h.blocks.next next) (add64 header_size (h.size next)) a))))
    else add_block_to_free_list b (set_free b true a)

unfoldable pub block_allocator_free : ℕ → BlockAllocator → BlockAllocator
block_allocator_free address a =
    let b = sub64 address header_size in
    if address == null
    then a
    else if not (a.headers.magic b == block_magic) || a.headers.is_free b
    then a
    else free_block b a
