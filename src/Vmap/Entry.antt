-- ===== src/Vmap/Entry.antt =====
-- The table entries of kernel/mmap.h and the index macros of kernel/vmap.c.
use Prim.Native.Nat.{bit_and, bit_or}
use z_os.Base.{ℕ, ◌/◌, ◌^◌}

abbrev pub tbl_entry_valid : ℕ
tbl_entry_valid = 0x1

abbrev pub tbl_entry_table : ℕ
tbl_entry_table = 0x2

abbrev pub tbl_entry_block : ℕ
tbl_entry_block = 0x0

abbrev pub tbl_entry_addr_mask : ℕ
tbl_entry_addr_mask = 0x0000FFFFFFFFF000

-- The address mask less the bits inside a block of 1 GiB, and of 2 MiB.
abbrev pub tbl_entry_l1_block_addr_mask : ℕ
tbl_entry_l1_block_addr_mask = 0x0000FFFFC0000000

abbrev pub tbl_entry_l2_block_addr_mask : ℕ
tbl_entry_l2_block_addr_mask = 0x0000FFFFFFE00000

abbrev pub tbl_l1_block_size : ℕ
tbl_l1_block_size = 2 ^ 30

abbrev pub tbl_l2_block_size : ℕ
tbl_l2_block_size = 2 ^ 21

abbrev pub mmap_granule_size : ℕ
mmap_granule_size = 4096

abbrev pub page_flag_access : ℕ
page_flag_access = 2 ^ 10

unfoldable pub l0_index : ℕ → ℕ
l0_index virtual_address = bit_and (virtual_address / 2 ^ 39) 0x1FF

unfoldable pub l1_index : ℕ → ℕ
l1_index virtual_address = bit_and (virtual_address / 2 ^ 30) 0x1FF

unfoldable pub l2_index : ℕ → ℕ
l2_index virtual_address = bit_and (virtual_address / 2 ^ 21) 0x1FF

unfoldable pub l3_index : ℕ → ℕ
l3_index virtual_address = bit_and (virtual_address / 2 ^ 12) 0x1FF

-- `TBL_ENTRY_VALID | TBL_ENTRY_TABLE | (table & TBL_ENTRY_ADDR_MASK)`
unfoldable pub table_entry : ℕ → ℕ
table_entry new_table =
    bit_or (bit_or tbl_entry_valid tbl_entry_table) (bit_and new_table tbl_entry_addr_mask)

-- The entry of a page, and of a block under the mask of its size.
unfoldable pub page_entry : ℕ → ℕ → ℕ
page_entry physical_address page_flags =
    bit_or (bit_or (bit_or (bit_or tbl_entry_valid tbl_entry_table) page_flag_access) page_flags)
      (bit_and physical_address tbl_entry_addr_mask)

unfoldable pub block_entry : ℕ → ℕ → ℕ → ℕ
block_entry mask physical_address page_flags =
    bit_or (bit_or (bit_or (bit_or tbl_entry_valid tbl_entry_block) page_flag_access) page_flags)
      (bit_and physical_address mask)
