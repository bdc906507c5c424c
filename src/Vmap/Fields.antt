-- ===== src/Vmap/Fields.antt =====
-- The fields of table entries as arithmetic.
use Prim.Native.Nat.{bit_and, bit_or}
use z_os.Base.{ℕ, ◌+◌, ◌-◌, ◌*◌, ◌/◌, ◌%◌, ◌^◌, ◌<◌, ◌≡◌, ap, ap₂, ◌∙◌, arith}
use z_os.Bits.{bit_or_step, zero-bit_or}
use z_os.Bits.Fields.{bit_and-ones, bit_and-field, bit_or-field, bit_or-add, pow-pos}
use native.Mathlib.Nat.{mod-lt}
use z_os.Vmap.Entry.{
  tbl_entry_valid, tbl_entry_table, tbl_entry_addr_mask, l0_index, l1_index, l2_index, l3_index,
  table_entry, page_entry,
}

abbrev pub addr_field : ℕ → ℕ
addr_field e = e / 2 ^ 12 % 2 ^ 36

pub valid-bit : (e : ℕ) → bit_and e tbl_entry_valid ≡ e % 2
valid-bit e = bit_and-ones 1 e

pub table-bit : (e : ℕ) → bit_and e tbl_entry_table ≡ e / 2 % 2 * 2
table-bit e = bit_and-field 1 1 e

pub addr-bits : (e : ℕ) → bit_and e tbl_entry_addr_mask ≡ addr_field e * 2 ^ 12
addr-bits e = bit_and-field 36 12 e

pub l0_index_lem : (va : ℕ) → l0_index va ≡ va / 2 ^ 39 % 512
unfolding l0_index
l0_index_lem va = bit_and-ones 9 (va / 2 ^ 39)

pub l1_index_lem : (va : ℕ) → l1_index va ≡ va / 2 ^ 30 % 512
unfolding l1_index
l1_index_lem va = bit_and-ones 9 (va / 2 ^ 30)

pub l2_index_lem : (va : ℕ) → l2_index va ≡ va / 2 ^ 21 % 512
unfolding l2_index
l2_index_lem va = bit_and-ones 9 (va / 2 ^ 21)

pub l3_index_lem : (va : ℕ) → l3_index va ≡ va / 2 ^ 12 % 512
unfolding l3_index
l3_index_lem va = bit_and-ones 9 (va / 2 ^ 12)

-- The address of a page or table: aligned, and of 48 bits.
pub record IsPage (t : ℕ) : Type 0 where
  pub aligned : t % 4096 ≡ 0
  pub small : t < 2 ^ 48

pub addr-page : (t : ℕ) → IsPage t → bit_and t tbl_entry_addr_mask ≡ t
addr-page t p = addr-bits t ∙ omega arith

pub table_entry_fields :
    (t : ℕ)
    → IsPage t
    → (table_entry t % 2 ≡ 1)
      × (table_entry t / 2 % 2 ≡ 1)
      × (bit_and (table_entry t) tbl_entry_addr_mask ≡ t)
unfolding table_entry
table_entry_fields t p = rw (addr-page t p) (
  omega (arith, bit_or_step 3 t),
  omega (arith, bit_or_step 3 t, bit_or_step 1 (t / 2)),
  addr-bits (bit_or 3 t) ∙ ap (λ (x : ℕ). x * 2 ^ 12) kept ∙ omega arith,
)
  where
    kept : addr_field (bit_or 3 t) ≡ addr_field t
    kept = bit_or-field 36 12 3 t ∙ zero-bit_or (addr_field t)

-- Flags that leave the address of an entry alone.
abbrev pub IsFlags : ℕ → Type 0
IsFlags f = addr_field f ≡ 0

pub page_entry_fields :
    (pa flags : ℕ)
    → IsFlags flags
    → (page_entry pa flags % 2 ≡ 1)
      × (bit_and (page_entry pa flags) tbl_entry_addr_mask ≡ addr_field pa * 2 ^ 12)
unfolding page_entry
page_entry_fields pa flags h = (
  omega (arith, bit_or_step low address, bit_or_step 0x403 flags),
  addr-bits (bit_or low address) ∙ ap (λ (x : ℕ). x * 2 ^ 12) kept,
)
  where
    low : ℕ
    low = bit_or 0x403 flags

    address : ℕ
    address = bit_and pa tbl_entry_addr_mask

    low_field : addr_field low ≡ 0
    low_field = bit_or-field 36 12 0x403 flags ∙ zero-bit_or (addr_field flags) ∙ h

    address_field : addr_field address ≡ addr_field pa
    address_field = omega (arith, addr-bits pa)

    kept : addr_field (bit_or low address) ≡ addr_field pa
    kept =
        bit_or-field 36 12 low address
        ∙ ap₂ bit_or low_field address_field
        ∙ zero-bit_or (addr_field pa)

-- An aligned part and an offset are added by `|`.
pub mapped_sum : (k n va : ℕ) → bit_or (n * 2 ^ k) (bit_and va (2 ^ k - 1)) ≡ n * 2 ^ k + va % 2 ^ k
mapped_sum k n va =
    ap (bit_or (n * 2 ^ k)) (bit_and-ones k va)
    ∙ bit_or-add k n (va % 2 ^ k) (mod-lt va (pow-pos k))
