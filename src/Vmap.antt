-- ===== src/Vmap.antt =====
-- kernel/vmap.c: the tables that the MMU walks. A `uint64_t *` into a table is an address of a
-- memory of words. The two function pointers of a vmap_t are a record, since no function changes
-- them; `P` is what the page allocator behind `alloc_page` keeps.
-- vmap_apply_table and vmap_is_active talk to system registers and are not modelled.
pub mod Entry
pub mod Fields
pub mod Tree
pub mod Extends
pub mod Frame
pub mod Slots
pub mod Grow
pub mod Translate
pub mod Steps
pub mod Range
pub mod Map
pub mod Mmu
mod Tests
use Prim.Native.Nat.{bit_and, bit_or}
use z_os.Base.{
  ℕ, zero, suc, ◌+◌, ◌-◌, ◌*◌, ◌%◌, ◌/◌, ◌^◌, Bool, Option, none, some, add64, null, ltb, ◌==◌,
  ◌!=◌, if◌then◌else◌,
}
use z_os.Vmap.Entry.{
  tbl_entry_valid, tbl_entry_table, tbl_entry_addr_mask, tbl_entry_l1_block_addr_mask,
  tbl_entry_l2_block_addr_mask, tbl_l1_block_size, tbl_l2_block_size, mmap_granule_size, l0_index,
  l1_index, l2_index, l3_index, table_entry, page_entry, block_entry,
}

-- Word `a` is `*(uint64_t *)a`.
abbrev pub Words : Type 0
Words = ℕ → ℕ

abbrev pub write : Words → ℕ → ℕ → Words
write w a v b = if b == a then v else w b

-- A vmap_t with the memory and the page allocator's state.
pub record Vmap (P : Type 0) : Type 0 where
  pub root_page_table : ℕ
  pub words : Words
  pub pool : P

-- A call returns 0 with a value for what follows, or -1; its writes stay in either case.
pub data Result (P A : Type 0) : Type 0 where
  done : A → Vmap P → Result P A
  failed : Vmap P → Result P A

module _ {P : Type 0} where
  infixl 5 ◌>>=◌ ◌>>◌
  abbrev pub ◌>>=◌ :
      {A B : Type 0} → (Vmap P → Result P A) → (A → Vmap P → Result P B) → Vmap P → Result P B
  ◌>>=◌ m f s = elim (m s) [ done a s' ↦ f a s' | failed s' ↦ failed s' ]

  abbrev pub ◌>>◌ :
      {B : Type 0} → (Vmap P → Result P (Unit {0})) → (Vmap P → Result P B) → Vmap P → Result P B
  ◌>>◌ m k s = elim (m s) [ done a s' ↦ k s' | failed s' ↦ failed s' ]

  -- `if (test) return -1;`
  abbrev pub fail_if : Bool → Vmap P → Result P (Unit {0})
  fail_if test s = if test then failed s else done tt s

  unfoldable pub vmap_init : Words → P → Vmap P
  vmap_init words pool = record { root_page_table = 0; words = words; pool = pool }

-- `table[index]`
abbrev pub word_of : ℕ → ℕ → ℕ
word_of table index = table + 8 * index

-- The function pointers of a vmap_t.
pub record VmapFns (P : Type 0) : Type 0 where
  pub alloc_page : Words → P → ℕ × Words × P
  pub physical_to_virtual : ℕ → ℕ

module _ {P : Type 0} (fns : VmapFns P) where
  open fns use {alloc_page, physical_to_virtual}

  -- The root table, made when there is none.
  unfoldable pub root_table : Vmap P → Result P ℕ
  root_table s =
      if s.root_page_table != 0
      then done (physical_to_virtual s.root_page_table) s
      else let (table, words, pool) = alloc_page s.words s.pool in
        if table == null
        then failed (record s { words = words; pool = pool })
        else done (physical_to_virtual table)
            (record { root_page_table = table; words = words; pool = pool })

  -- The entry of a table, made to point to a new table when it is not valid.
  unfoldable pub entry_or_new : ℕ → ℕ → Vmap P → Result P ℕ
  entry_or_new table index s =
      let entry = s.words (word_of table index) in
      if bit_and entry tbl_entry_valid != 0
      then done entry s
      else let (new_table, words, pool) = alloc_page s.words s.pool in
        if new_table == null
        then failed (record s { words = words; pool = pool })
        else done (table_entry new_table) (record s {
          words = write words (word_of table index) (table_entry new_table);
          pool = pool;
        })

  -- The table that an entry points to.
  abbrev pub table_at : ℕ → ℕ
  table_at entry = physical_to_virtual (bit_and entry tbl_entry_addr_mask)

  unfoldable pub set_entry : ℕ → ℕ → ℕ → Vmap P → Result P (Unit {0})
  set_entry table index entry s =
      done tt (record s { words = write s.words (word_of table index) entry })

  -- A write that is refused where something is mapped.
  unfoldable pub set_new_entry : ℕ → ℕ → ℕ → Vmap P → Result P (Unit {0})
  unfolding set_entry
  set_new_entry table index entry s =
      if bit_and (s.words (word_of table index)) tbl_entry_valid == 0
      then set_entry table index entry s
      else failed s

  unfoldable pub vmap_map_page : ℕ → ℕ → ℕ → Vmap P → Result P (Unit {0})
  vmap_map_page physical_address virtual_address page_flags = do
    ttbr_table ← root_table
    l0_entry ← entry_or_new ttbr_table (l0_index virtual_address)
    l1_entry ← entry_or_new (table_at l0_entry) (l1_index virtual_address)
    l2_entry ← entry_or_new (table_at l1_entry) (l2_index virtual_address)
    set_entry (table_at l2_entry) (l3_index virtual_address)
        (page_entry physical_address page_flags)

  unfoldable pub vmap_map_l1_block : ℕ → ℕ → ℕ → Vmap P → Result P (Unit {0})
  vmap_map_l1_block virtual_address physical_address page_flags = do
    fail_if (virtual_address % tbl_l1_block_size != 0)
    fail_if (physical_address % tbl_l1_block_size != 0)
    ttbr_table ← root_table
    l0_entry ← entry_or_new ttbr_table (l0_index virtual_address)
    fail_if (bit_and l0_entry tbl_entry_table == 0)
    set_new_entry (table_at l0_entry) (l1_index virtual_address)
        (block_entry tbl_entry_l1_block_addr_mask physical_address page_flags)

  unfoldable pub vmap_map_l2_block : ℕ → ℕ → ℕ → Vmap P → Result P (Unit {0})
  vmap_map_l2_block virtual_address physical_address page_flags = do
    fail_if (virtual_address % tbl_l2_block_size != 0)
    fail_if (physical_address % tbl_l2_block_size != 0)
    ttbr_table ← root_table
    l0_entry ← entry_or_new ttbr_table (l0_index virtual_address)
    fail_if (bit_and l0_entry tbl_entry_table == 0)
    l1_entry ← entry_or_new (table_at l0_entry) (l1_index virtual_address)
    fail_if (bit_and l1_entry tbl_entry_table == 0)
    set_new_entry (table_at l1_entry) (l2_index virtual_address)
        (block_entry tbl_entry_l2_block_addr_mask physical_address page_flags)

  -- The loop of the three range functions: one mapping each `step` bytes, on fuel. `none` means
  -- that the fuel ran out.
  unfoldable pub range_loop :
      ℕ
      → (ℕ → ℕ → Vmap P → Result P (Unit {0}))
      → ℕ
      → ℕ
      → ℕ
      → ℕ
      → Vmap P
      → Option (Result P (Unit {0}))
  range_loop zero map_one step virtual_end virtual physical s = none
  range_loop (suc fuel) map_one step virtual_end virtual physical s =
      let round : Option (Result P (Unit {0})) = elim (map_one virtual physical s) [
        | done _ s' ↦
            range_loop fuel map_one step virtual_end (add64 virtual step) (add64 physical step) s'
        | failed s' ↦ some (failed s')
      ] in
      if ltb virtual virtual_end then round else some (done tt s)

  -- The rounds that the loop takes, and one more.
  abbrev pub range_fuel : ℕ → ℕ → ℕ → ℕ
  range_fuel step virtual_start virtual_end = suc ((virtual_end - virtual_start + step - 1) / step)

  unfoldable pub vmap_map_range : ℕ → ℕ → ℕ → ℕ → Vmap P → Option (Result P (Unit {0}))
  vmap_map_range virtual_start virtual_end physical_start page_flags =
      range_loop (range_fuel mmap_granule_size virtual_start virtual_end)
        (λ virtual physical. vmap_map_page physical virtual page_flags) mmap_granule_size
        virtual_end virtual_start physical_start

  unfoldable pub vmap_map_range_l1_block : ℕ → ℕ → ℕ → ℕ → Vmap P → Option (Result P (Unit {0}))
  vmap_map_range_l1_block virtual_start virtual_end physical_start page_flags =
      range_loop (range_fuel tbl_l1_block_size virtual_start virtual_end)
        (λ virtual physical. vmap_map_l1_block virtual physical page_flags) tbl_l1_block_size
        virtual_end virtual_start physical_start

  unfoldable pub vmap_map_range_l2_block : ℕ → ℕ → ℕ → ℕ → Vmap P → Option (Result P (Unit {0}))
  vmap_map_range_l2_block virtual_start virtual_end physical_start page_flags =
      range_loop (range_fuel tbl_l2_block_size virtual_start virtual_end)
        (λ virtual physical. vmap_map_l2_block virtual physical page_flags) tbl_l2_block_size
        virtual_end virtual_start physical_start

  -- An entry and the offset of an address within what it maps.
  abbrev pub mapped : ℕ → ℕ → ℕ → ℕ → Option ℕ
  mapped entry mask size virtual_address =
      some (bit_or (bit_and entry mask) (bit_and virtual_address (size - 1)))

  -- The address translation by software; `none` is -1.
  unfoldable pub vmap_virtual_to_physical : Vmap P → ℕ → Option ℕ
  vmap_virtual_to_physical s virtual_address =
      if s.root_page_table == null
      then none
      else let l0_entry =
          s.words (word_of (physical_to_virtual s.root_page_table) (l0_index virtual_address)) in
        if bit_and l0_entry tbl_entry_valid == 0
        then none
        else let l1_entry = s.words (word_of (table_at l0_entry) (l1_index virtual_address)) in
          if bit_and l1_entry tbl_entry_valid == 0
          then none
          else if bit_and l1_entry tbl_entry_table == 0
          then mapped l1_entry tbl_entry_l1_block_addr_mask tbl_l1_block_size virtual_address
          else let l2_entry = s.words (word_of (table_at l1_entry) (l2_index virtual_address)) in
            if bit_and l2_entry tbl_entry_valid == 0
            then none
            else if bit_and l2_entry tbl_entry_table == 0
            then mapped l2_entry tbl_entry_l2_block_addr_mask tbl_l2_block_size virtual_address
            else let l3_entry = s.words (word_of (table_at l2_entry) (l3_index virtual_address)) in
              if bit_and l3_entry tbl_entry_valid == 0
              then none
              else mapped l3_entry tbl_entry_addr_mask mmap_granule_size virtual_address
