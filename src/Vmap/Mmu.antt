-- ===== src/Vmap/Mmu.antt =====
-- The table walk of an ARMv8 MMU with a granule of 4 KiB and addresses of 48 bits, permissions aside,
-- and vmap_virtual_to_physical (kernel/vmap.c) against it.
use z_os.Base.{
  ℕ, zero, suc, ◌+◌, ◌*◌, ◌/◌, ◌%◌, ◌^◌, ◌<◌, ◌≡◌, ◌⊎◌, Option, none, some, ◌==◌, if◌then◌else◌,
}
use z_os.Vmap.{Vmap, VmapFns, Words}
use z_os.Vmap.Fields.{addr_field}
use z_os.Vmap.Tree.{View, PoolView, IsTree, digit}

-- The nine bits of an address that index a table of height `n`: the root's are bits 39 to 47.
abbrev pub index_bits : ℕ → ℕ → ℕ
index_bits zero va = va / 2 ^ 12 % 512
index_bits (suc zero) va = va / 2 ^ 21 % 512
index_bits (suc (suc zero)) va = va / 2 ^ 30 % 512
index_bits (suc (suc (suc n))) va = va / 2 ^ 39 % 512

-- A block descriptor's memory: 2 MiB from a table of height 1, 1 GiB from one of height 2, a fault
-- from the root.
abbrev pub block_of : ℕ → ℕ → ℕ → Option ℕ
block_of zero e va = some (e / 2 ^ 21 % 2 ^ 27 * 2 ^ 21 + va % 2 ^ 21)
block_of (suc zero) e va = some (e / 2 ^ 30 % 2 ^ 18 * 2 ^ 30 + va % 2 ^ 30)
block_of (suc (suc n)) e va = none

-- The translation from a table of height `n`; `none` is a translation fault. Bit 0 tells a valid
-- descriptor; bit 1 a table from a block, and in the last table a page from a fault.
module _ (base : ℕ) (w : Words) where
  unfoldable pub mmu : ℕ → ℕ → ℕ → Option ℕ
  mmu zero t va =
      let e = w (base + t + 8 * index_bits zero va) in
      if e % 4 == 3 then some (e / 2 ^ 12 % 2 ^ 36 * 2 ^ 12 + va % 2 ^ 12) else none
  mmu (suc n) t va =
      let e = w (base + t + 8 * index_bits (suc n) va) in
      let below = mmu n (e / 2 ^ 12 % 2 ^ 36 * 2 ^ 12) va in
      if e % 4 == 3 then below else if e % 4 == 1 then block_of n e va else none

-- The valid entries of the first and of the last tables have their table bit, as vmap.c writes them.
abbrev pub IsTyped : ℕ → Words → View → Type 0
IsTyped base w view =
    (t i : ℕ)
    → (view.height t ≡ 0) ⊎ (view.height t ≡ 3)
    → i < 512
    → w (base + t + 8 * i) % 2 ≡ 1
    → w (base + t + 8 * i) / 2 % 2 ≡ 1

module _ {P : Type 0} {fns : VmapFns P} {base : ℕ} {pages : PoolView P} (s : Vmap P) {view : View}
    (tree : IsTree fns base pages s view) (typed : IsTyped base s.words view) (va : ℕ) where
  abbrev page : ℕ
  page = addr_field va

  abbrev entry : ℕ → ℕ → ℕ
  entry n t = s.words (base + t + 8 * digit n page)
