-- ===== src/Vmap/Translate.antt =====
-- vmap_virtual_to_physical as a walk along the digits of the page's number; Vmap.Mmu compares the walk
-- with that of the MMU.
use Prim.Native.Nat.{bit_and, bit_or}
use z_os.Base.{
  ℕ, ◌+◌, ◌-◌, ◌*◌, ◌/◌, ◌%◌, ◌^◌, ◌<◌, ◌≡◌, ◌≢◌, Option, none, some, refl, ap, ap₂, ◌∙◌, arith,
  null, ◌==◌, if◌then◌else◌,
}
use z_os.Bits.Fields.{bit_and-field}
use z_os.Vmap.{Vmap, VmapFns, word_of, mapped, table_at, vmap_virtual_to_physical}
use z_os.Vmap.Entry.{
  tbl_entry_valid, tbl_entry_table, tbl_entry_addr_mask, tbl_entry_l1_block_addr_mask,
  tbl_entry_l2_block_addr_mask, tbl_l1_block_size, tbl_l2_block_size, mmap_granule_size, l0_index,
  l1_index, l2_index, l3_index,
}
use z_os.Vmap.Fields.{
  addr_field, valid-bit, table-bit, addr-bits, mapped_sum, l0_index_lem, l1_index_lem, l2_index_lem,
  l3_index_lem,
}
use z_os.Vmap.Tree.{
  View, PoolView, IsTree, child, drop_digits, digit, walk, walk-invalid, walk-pointer, walk-block,
  entry_kind, invalid, pointer, block, block_address,
}
use z_os.Vmap.Frame.{child-IsTree}

-- The index macros give the digits of the page's number.
pub l0-digit : (va : ℕ) → l0_index va ≡ digit 3 (addr_field va)
l0-digit va = l0_index_lem va ∙ omega arith

pub l1-digit : (va : ℕ) → l1_index va ≡ digit 2 (addr_field va)
l1-digit va = l1_index_lem va ∙ omega arith

pub l2-digit : (va : ℕ) → l2_index va ≡ digit 1 (addr_field va)
l2-digit va = l2_index_lem va ∙ omega arith

pub l3-digit : (va : ℕ) → l3_index va ≡ digit 0 (addr_field va)
l3-digit va = l3_index_lem va ∙ omega arith

module _ {P : Type 0} (fns : VmapFns P) (s : Vmap P) (va : ℕ) where
  -- The parts of the function, from each of its tables on.
  abbrev from_l3 : ℕ → Option ℕ
  from_l3 table =
      let e = s.words (word_of table (l3_index va)) in
      if bit_and e tbl_entry_valid == 0
      then none
      else mapped fns e tbl_entry_addr_mask mmap_granule_size va

  abbrev from_l2 : ℕ → Option ℕ
  from_l2 table =
      let e = s.words (word_of table (l2_index va)) in
      if bit_and e tbl_entry_valid == 0
      then none
      else if bit_and e tbl_entry_table == 0
      then mapped fns e tbl_entry_l2_block_addr_mask tbl_l2_block_size va
      else from_l3 (table_at fns e)

  abbrev from_l1 : ℕ → Option ℕ
  from_l1 table =
      let e = s.words (word_of table (l1_index va)) in
      if bit_and e tbl_entry_valid == 0
      then none
      else if bit_and e tbl_entry_table == 0
      then mapped fns e tbl_entry_l1_block_addr_mask tbl_l1_block_size va
      else from_l2 (table_at fns e)

  abbrev from_l0 : ℕ → Option ℕ
  from_l0 table =
      let e = s.words (word_of table (l0_index va)) in
      if bit_and e tbl_entry_valid == 0 then none else from_l1 (table_at fns e)

  translate_parts : vmap_virtual_to_physical fns s va ≡ (
      if s.root_page_table == null
      then none
      else from_l0 (fns.physical_to_virtual s.root_page_table))
  unfolding vmap_virtual_to_physical
  translate_parts = refl

  module _ {base : ℕ} {pages : PoolView P} {view : View} (tree : IsTree fns base pages s view) where
    abbrev page : ℕ
    page = addr_field va

    entry_at :
        (n t index : ℕ)
        → view.height t < 4
        → index ≡ digit n page
        → s.words (word_of (fns.physical_to_virtual t) index)
          ≡ s.words (base + t + 8 * digit n page)
    entry_at n t index h e = ap₂ (λ x i. s.words (x + 8 * i)) (tree.linear t h) e

    -- A leaf's address and the offset.
    leaf_address :
        (e : ℕ) → mapped fns e tbl_entry_addr_mask mmap_granule_size va ≡ some (child e + va % 4096)
    leaf_address e = ap some (
        ap (λ x. bit_or x (bit_and va (2 ^ 12 - 1))) (addr-bits e)
        ∙ mapped_sum 12 (addr_field e) va)

    l2_address :
        (e : ℕ)
        → mapped fns e tbl_entry_l2_block_addr_mask tbl_l2_block_size va
          ≡ some (block_address 0 e va)
    l2_address e = ap some (
        ap (λ x. bit_or x (bit_and va (2 ^ 21 - 1))) (bit_and-field 27 21 e)
        ∙ mapped_sum 21 (e / 2 ^ 21 % 2 ^ 27) va)

    l1_address :
        (e : ℕ)
        → mapped fns e tbl_entry_l1_block_addr_mask tbl_l1_block_size va
          ≡ some (block_address 1 e va)
    l1_address e = ap some (
        ap (λ x. bit_or x (bit_and va (2 ^ 30 - 1))) (bit_and-field 18 30 e)
        ∙ mapped_sum 30 (e / 2 ^ 30 % 2 ^ 18) va)

    table_child : (e : ℕ) → table_at fns e ≡ fns.physical_to_virtual (child e)
    table_child e = ap fns.physical_to_virtual (addr-bits e)

    from_l3-walk :
        (t : ℕ)
        → view.height t ≡ 0
        → from_l3 (fns.physical_to_virtual t) ≡ walk base s.words 0 t page va
    unfolding walk
    from_l3-walk t h =
        let e = s.words (base + t + 8 * digit 0 page) in
        rw (entry_at 0 t (l3_index va) (omega arith) (l3-digit va))
          (ground (arith, valid-bit e, leaf_address e))

    from_l2-walk :
        (t : ℕ)
        → view.height t ≡ 1
        → view.prefix t ≡ drop_digits 2 page
        → from_l2 (fns.physical_to_virtual t) ≡ walk base s.words 1 t page va
    from_l2-walk t h p =
        let e = s.words (base + t + 8 * digit 1 page) in
        rw (entry_at 1 t (l2_index va) (omega arith) (l2-digit va))
          (elim (entry_kind 0 e (omega arith)) [
            | invalid even ↦ ground (arith, valid-bit e, walk-invalid base s.words 1 t page va even)
            | pointer ptr ↦
                let (h', p') = child-IsTree 0 t page tree (omega arith) h p ptr in
                ground (
                  arith,
                  valid-bit e,
                  table-bit e,
                  table_child e,
                  from_l3-walk (child e) h',
                  walk-pointer base s.words 0 t page va ptr,
                )
            | block odd low le ↦ ground (
              arith,
              valid-bit e,
              table-bit e,
              l2_address e,
              walk-block base s.words 0 t page va odd low le,
            )
          ])

    from_l1-walk :
        (t : ℕ)
        → view.height t ≡ 2
        → view.prefix t ≡ drop_digits 3 page
        → from_l1 (fns.physical_to_virtual t) ≡ walk base s.words 2 t page va
    from_l1-walk t h p =
        let e = s.words (base + t + 8 * digit 2 page) in
        rw (entry_at 2 t (l1_index va) (omega arith) (l1-digit va))
          (elim (entry_kind 1 e (omega arith)) [
            | invalid even ↦ ground (arith, valid-bit e, walk-invalid base s.words 2 t page va even)
            | pointer ptr ↦
                let (h', p') = child-IsTree 1 t page tree (omega arith) h p ptr in
                ground (
                  arith,
                  valid-bit e,
                  table-bit e,
                  table_child e,
                  from_l2-walk (child e) h' p',
                  walk-pointer base s.words 1 t page va ptr,
                )
            | block odd low le ↦ ground (
              arith,
              valid-bit e,
              table-bit e,
              l1_address e,
              walk-block base s.words 1 t page va odd low le,
            )
          ])

    from_l0-walk :
        (t : ℕ)
        → view.height t ≡ 3
        → view.prefix t ≡ 0
        → from_l0 (fns.physical_to_virtual t) ≡ walk base s.words 3 t page va
    from_l0-walk t h p =
        let e = s.words (base + t + 8 * digit 3 page) in
        rw (entry_at 3 t (l0_index va) (omega arith) (l0-digit va))
          (elim (entry_kind 2 e (omega arith)) [
            | invalid even ↦ ground (arith, valid-bit e, walk-invalid base s.words 3 t page va even)
            | pointer ptr ↦
                let (h', p') = child-IsTree 2 t page tree (omega arith) h (omega arith) ptr in
                ground (
                  arith,
                  valid-bit e,
                  table_child e,
                  from_l1-walk (child e) h' p',
                  walk-pointer base s.words 2 t page va ptr,
                )
            | block odd low le ↦ absurd (omega arith)
          ])

    -- On a tree of tables with a root, vmap_virtual_to_physical is the walk from the root.
    pub translate-walk :
        s.root_page_table ≢ 0
        → vmap_virtual_to_physical fns s va ≡ walk base s.words 3 s.root_page_table page va
    translate-walk present =
        translate_parts
        ∙ ground (
          arith,
          from_l0-walk s.root_page_table (tree.root_height present) (tree.root_prefix present),
        )
