-- ===== src/PageAlloc.antt =====
-- kernel/page_alloc.c: the allocator of physical pages, with a list of free blocks of 2^order pages for
-- each order up to 10. A free page on a list is its page frame number: the code keeps its virtual
-- address, which mmap_physical_to_virtual and mmap_virtual_to_physical turn into each other, and the
-- assertions on these two calls are taken to hold.
pub mod Blocks
pub mod Alloc
pub mod Free
pub mod Start
pub mod Init
mod Tests
use z_os.Base.{
  ℕ, zero, suc, ◌+◌, ◌-◌, ◌*◌, ◌/◌, ◌%◌, ◌^◌, Bool, true, false, not, ◌&&◌, ◌||◌, Option, none,
  some, Status, ok, fail, List, [], ◌∷◌, ltb, leb, ◌==◌, if◌then◌else◌,
}
use Prim.Native.Nat.{bit_xor}
use z_os.Mmap.Boot.{MemoryDescriptor, MemoryType, usable, reserved}

abbrev pub max_order : ℕ
max_order = 10

abbrev pub max_total_pages : ℕ
max_total_pages = 0x1000000

abbrev pub page_size : ℕ
page_size = 4096

-- An entry of page_bitmap, whose bits 3 and up are the order.
pub record PageBits : Type 0 where
  pub order : ℕ
  pub is_free : Bool
  pub is_head : Bool
  pub valid : Bool

pub record Pages : Type 0 where
  pub free_lists : ℕ → List ℕ
  pub page_bitmap : ℕ → PageBits

abbrev pub set_list : ℕ → List ℕ → Pages → Pages
set_list order list s = record s { free_lists = λ o. if o == order then list else s.free_lists o }

abbrev pub set_bits : ℕ → PageBits → Pages → Pages
set_bits page bits s = record s { page_bitmap = λ p. if p == page then bits else s.page_bitmap p }

abbrev pub free_bits : ℕ → PageBits
free_bits order = record { order = order; is_free = true; is_head = true; valid = true }

abbrev pub used_bits : ℕ → PageBits
used_bits order = record { order = order; is_free = false; is_head = true; valid = true }

unfoldable pub free_list_push : ℕ → ℕ → Pages → Status × Pages
free_list_push order page s =
    if ltb max_order order || leb max_total_pages page
    then (fail, s)
    else (ok, set_bits page (free_bits order) (set_list order (page ∷ s.free_lists order) s))

unfoldable pub free_list_pop : ℕ → Pages → Option (ℕ × Pages)
free_list_pop order s = elim (s.free_lists order) [
  | [] ↦ none
  | page ∷ rest ↦ some (page, set_bits page (used_bits order) (set_list order rest s))
]

-- What follows a call, unless it fails.
abbrev if_ok : Status × Pages → (Pages → Status × Pages) → Status × Pages
if_ok (ok, s) next = next s
if_ok (fail, s) next = (fail, s)

-- The largest order, up to `order`, of a block that starts here and fits.
unfoldable pub fitting_order : (order : ℕ) → (remaining start : ℕ) → ℕ
fitting_order zero remaining start = zero
fitting_order (suc order) remaining start =
    if leb (2 ^ suc order) remaining && (start % 2 ^ suc order) == 0
    then suc order
    else fitting_order order remaining start

-- `while (remaining_pages > 0)`, which takes at least one page each time.
unfoldable pub push_range : (fuel : ℕ) → (remaining start : ℕ) → Pages → Status × Pages
push_range zero remaining start s = (ok, s)
push_range (suc fuel) remaining start s =
    let order = fitting_order max_order remaining start in
    if remaining == 0
    then (ok, s)
    else if_ok (free_list_push order start s)
        (push_range fuel (remaining - 2 ^ order) (start + 2 ^ order))

unfoldable pub push_descriptors : List MemoryDescriptor → Pages → Status × Pages
push_descriptors [] s = (ok, s)
push_descriptors (d ∷ descriptors) s = elim d.type [
  | reserved ↦ push_descriptors descriptors s
  | usable ↦
      if_ok
        (push_range d.number_of_pages d.number_of_pages (d.physical_start_address / page_size) s)
        (push_descriptors descriptors)
]

unfoldable pub page_alloc_init : List MemoryDescriptor → Status × Pages
page_alloc_init descriptors = push_descriptors descriptors (record {
  free_lists = λ o. [];
  page_bitmap = λ p. record { order = 0; is_free = false; is_head = false; valid = false };
})

abbrev pub page_alloc_block_size : ℕ → ℕ
page_alloc_block_size order = 2 ^ order

-- The first order from `order` on that has a free block; `count` orders are left.
unfoldable pub find_block : (count order : ℕ) → Pages → Option (ℕ × ℕ × Pages)
find_block zero order s = none
find_block (suc count) order s = elim (free_list_pop order s) [
  | none ↦ find_block count (suc order) s
  | some (page, s') ↦ some (order, page, s')
]

-- The block of `order + count` is halved `count` times; each upper half becomes free.
unfoldable pub split_block : (count order page : ℕ) → Pages → Status × Pages
split_block zero order page s = (ok, s)
split_block (suc count) order page s =
    if_ok (free_list_push (order + count) (page + page_alloc_block_size (order + count)) s)
      (split_block count order page)

abbrev allocated : ℕ → ℕ → Status × Pages → Option ℕ × Pages
allocated order page (fail, s) = (none, s)
allocated order page (ok, s) = (some (page * page_size % 2 ^ 64), set_bits page (used_bits order) s)

-- The physical address of the block, if there is one.
unfoldable pub page_alloc_block : ℕ → Pages → Option ℕ × Pages
page_alloc_block order s = elim (find_block (suc max_order - order) order s) [
  | none ↦ (none, s)
  | some (found, page, s₁) ↦ allocated order page (split_block (found - order) order page s₁)
]

unfoldable pub calculate_buddy_page_frame_number : ℕ → ℕ → ℕ
calculate_buddy_page_frame_number page order = bit_xor page (2 ^ order)

-- What a call comes to: the assertion on the physical address of a page fails, as it does for NULL,
-- which is not mapped; or the loop has not ended when the fuel has; or the call returns.
pub data Freeing : Type 0 where
  assertion_failed running : Freeing
  returned : Status → Pages → Freeing

-- `while (current_page != NULL)`, which compares with the page behind the current one, and never goes
-- on to the next one; `done` is what follows with the list that is left.
unfoldable pub remove_buddy : (fuel buddy : ℕ) → List ℕ → (List ℕ → Freeing) → Freeing
remove_buddy zero buddy list done = running
remove_buddy (suc fuel) buddy [] done = done []
remove_buddy (suc fuel) buddy (current ∷ []) done = assertion_failed
remove_buddy (suc fuel) buddy (current ∷ next ∷ rest) done =
    let again = remove_buddy fuel buddy (current ∷ next ∷ rest) done in
    if next == buddy then done (current ∷ rest) else again

abbrev pub merge_possible : PageBits → ℕ → Bool
merge_possible bits order = bits.valid && bits.is_free && bits.is_head && bits.order == order

abbrev returned_with : Status × Pages → Freeing
returned_with (status, s) = returned status s

-- The loop that merges, with `count` orders left below the largest; then the push.
unfoldable pub merge : (fuel count order page : ℕ) → Pages → Freeing
merge fuel zero order page s = returned_with (free_list_push order page s)
merge fuel (suc count) order page s =
    let buddy = calculate_buddy_page_frame_number page order in
    let bits = s.page_bitmap buddy in
    let merged : List ℕ → Freeing = λ list.
      merge fuel count (suc order) (if ltb buddy page then buddy else page)
        (set_bits buddy (record bits { is_free = false }) (set_list order list s)) in
    if leb max_total_pages buddy || not (merge_possible bits order)
    then returned_with (free_list_push order page s)
    else remove_buddy fuel buddy (s.free_lists order) merged

-- `fuel` is for the rounds of each loop along a list.
unfoldable pub page_alloc_free : (fuel physical_start_address order : ℕ) → Pages → Freeing
page_alloc_free fuel physical_start_address order s =
    merge fuel (max_order - order) order (physical_start_address / page_size) s
