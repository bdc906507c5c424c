-- ===== src/Vmap/Tree.antt =====
-- What a page source promises to the functions of vmap.c, and the shape of the tables.
use z_os.Base.{
  ℕ, zero, suc, ◌+◌, ◌*◌, ◌/◌, ◌%◌, ◌^◌, ◌≤◌, ◌<◌, ◌≡◌, ◌≢◌, ◌⊎◌, inl, inr, Option, none, some,
  arith, ◌==◌, ◌&&◌, leb, if◌then◌else◌,
}
use native.Mathlib.Decide.{dec_lt}
use z_os.Vmap.{Vmap, VmapFns, Words}
use z_os.Vmap.Fields.{IsPage, addr_field}

-- Which pages a pool may still hand out, which pools are in order, and how many pages are left.
pub record PoolView (P : Type 0) : Type 1 where
  pub Free : P → ℕ → Type 0
  pub Valid : P → Type 0
  pub room : P → ℕ

-- `alloc_page` hands out zeroed pages, each once, and writes nowhere else; the tables are reached at
-- a fixed distance `base` from their physical addresses. A pool in order stays so.
pub record IsPageSource {P : Type 0} (fns : VmapFns P) (base : ℕ) (pages : PoolView P)
    : Type 0 where
  pub free_page : (p : P) (t : ℕ) → pages.Free p t → IsPage t
  pub free_linear : (p : P) (t : ℕ) → pages.Free p t → fns.physical_to_virtual t ≡ base + t
  pub fresh :
      (w : Words) (p : P)
      → pages.Valid p
      → (fns.alloc_page w p).0 ≢ 0
      → pages.Free p (fns.alloc_page w p).0
  pub valid : (w : Words) (p : P) → pages.Valid p → pages.Valid (fns.alloc_page w p).2
  pub spent :
      (w : Words) (p : P) (t : ℕ)
      → pages.Valid p
      → (fns.alloc_page w p).0 ≢ 0
      → pages.Free (fns.alloc_page w p).2 t
      → pages.Free p t × (t ≢ (fns.alloc_page w p).0)
  -- A call fails only when no page is left, and takes at most one.
  pub roomy : (w : Words) (p : P) → pages.Valid p → (fns.alloc_page w p).0 ≡ 0 → pages.room p ≡ 0
  pub room_spent :
      (w : Words) (p : P) → pages.Valid p → pages.room p ≤ pages.room (fns.alloc_page w p).2 + 1
  pub zeroed :
      (w : Words) (p : P) (i : ℕ)
      → pages.Valid p
      → (fns.alloc_page w p).0 ≢ 0
      → i < 512
      → (fns.alloc_page w p).1 (base + (fns.alloc_page w p).0 + 8 * i) ≡ 0
  pub others :
      (w : Words) (p : P) (a : ℕ)
      → pages.Valid p
      → (fns.alloc_page w p).0 ≢ 0
      → (a < base + (fns.alloc_page w p).0) ⊎ (base + (fns.alloc_page w p).0 + 4096 ≤ a)
      → (fns.alloc_page w p).1 a ≡ w a

-- The table that an entry points to, as arithmetic.
abbrev pub child : ℕ → ℕ
child e = addr_field e * 4096

-- The number of a page without its lowest `n` digits of 9 bits.
abbrev pub drop_digits : ℕ → ℕ → ℕ
drop_digits zero v = v
drop_digits (suc n) v = drop_digits n v / 512

-- The index into a table of height `n` on the way to page `v`.
abbrev pub digit : ℕ → ℕ → ℕ
digit n v = drop_digits n v % 512

-- An entry that is valid; one that leads on from a table of height `n` (the root's height is 3, and
-- the root's entries are never blocks).
abbrev pub IsPointer : ℕ → ℕ → Type 0
IsPointer n e = (e % 2 ≡ 1) × ((e / 2 % 2 ≡ 1) ⊎ (n ≡ 3))

-- A view of the tables: the height of each, 4 or more for what is no table, and the digits that lead to it.
pub record View : Type 0 where
  pub height : ℕ → ℕ
  pub prefix : ℕ → ℕ

module _ {P : Type 0} (fns : VmapFns P) (base : ℕ) (pages : PoolView P) where
  pub record IsTree (s : Vmap P) (view : View) : Type 0 where
    pub page : (t : ℕ) → view.height t < 4 → IsPage t
    pub present : (t : ℕ) → view.height t < 4 → t ≢ 0
    pub linear : (t : ℕ) → view.height t < 4 → fns.physical_to_virtual t ≡ base + t
    pub pool : pages.Valid s.pool
    pub unused : (t : ℕ) → pages.Free s.pool t → 4 ≤ view.height t
    pub root_height : s.root_page_table ≢ 0 → view.height s.root_page_table ≡ 3
    pub root_prefix : s.root_page_table ≢ 0 → view.prefix s.root_page_table ≡ 0
    pub child_height :
        (t i : ℕ)
        → 0 < view.height t
        → view.height t < 4
        → i < 512
        → IsPointer (view.height t) (s.words (base + t + 8 * i))
        → view.height (child (s.words (base + t + 8 * i))) + 1 ≡ view.height t
    pub child_prefix :
        (t i : ℕ)
        → 0 < view.height t
        → view.height t < 4
        → i < 512
        → IsPointer (view.height t) (s.words (base + t + 8 * i))
        → view.prefix (child (s.words (base + t + 8 * i))) ≡ view.prefix t * 512 + i

-- The address in a block that an entry of a table of height 1 or 2 maps.
abbrev pub block_address : ℕ → ℕ → ℕ → ℕ
block_address zero e va = e / 2 ^ 21 % 2 ^ 27 * 2 ^ 21 + va % 2 ^ 21
block_address (suc n) e va = e / 2 ^ 30 % 2 ^ 18 * 2 ^ 30 + va % 2 ^ 30

-- The walk of the code from a table of height `n`, for page `v` and an offset within it: it follows
-- every valid entry of the root and of the last table.
module _ (base : ℕ) (w : Words) where
  unfoldable pub walk : ℕ → ℕ → ℕ → ℕ → Option ℕ
  walk zero t v va =
      let e = w (base + t + 8 * digit zero v) in
      if e % 2 == 0 then none else some (child e + va % 4096)
  walk (suc n) t v va =
      let e = w (base + t + 8 * digit (suc n) v) in
      let rest = walk n (child e) v va in
      if e % 2 == 0
      then none
      else if e / 2 % 2 == 0 && leb n 1
      then some (block_address n e va)
      else rest

  -- No block on the way to page `v`.
  abbrev pub Unblocked : ℕ → ℕ → ℕ → Type 0
  Unblocked zero t v = Unit
  Unblocked (suc n) t v =
      w (base + t + 8 * digit (suc n) v) % 2 ≡ 1
      → IsPointer (suc n) (w (base + t + 8 * digit (suc n) v))
        × Unblocked n (child (w (base + t + 8 * digit (suc n) v))) v

module _ (base : ℕ) (w : Words) where
  pub walk-invalid :
      (n t v va : ℕ) → w (base + t + 8 * digit n v) % 2 ≡ 0 → walk base w n t v va ≡ none
  unfolding walk
  walk-invalid zero t v va h = ground arith
  walk-invalid (suc n) t v va h = ground arith

  pub walk-leaf :
      (t v va : ℕ)
      → w (base + t + 8 * digit 0 v) % 2 ≡ 1
      → walk base w 0 t v va ≡ some (child (w (base + t + 8 * digit 0 v)) + va % 4096)
  unfolding walk
  walk-leaf t v va h = ground arith

  pub walk-pointer :
      (n t v va : ℕ)
      → IsPointer (suc n) (w (base + t + 8 * digit (suc n) v))
      → walk base w (suc n) t v va ≡ walk base w n (child (w (base + t + 8 * digit (suc n) v))) v va
  unfolding walk
  walk-pointer n t v va h = ground arith

  pub walk-block :
      (n t v va : ℕ)
      → w (base + t + 8 * digit (suc n) v) % 2 ≡ 1
      → w (base + t + 8 * digit (suc n) v) / 2 % 2 ≡ 0
      → n ≤ 1
      → walk base w (suc n) t v va ≡ some (block_address n (w (base + t + 8 * digit (suc n) v)) va)
  unfolding walk
  walk-block n t v va h k le = ground arith

-- An entry of a table of height 1, 2 or 3 is not valid, leads on, or maps a block.
pub data EntryKind (n e : ℕ) : Type 0 where
  invalid : e % 2 ≡ 0 → EntryKind n e
  pointer : IsPointer (suc n) e → EntryKind n e
  block : e % 2 ≡ 1 → e / 2 % 2 ≡ 0 → n ≤ 1 → EntryKind n e

pub entry_kind : (n e : ℕ) → n < 3 → EntryKind n e
entry_kind n e h = elim (dec_lt 0 (e % 2)) [
  | no even ↦ invalid (omega arith)
  | yes odd ↦ elim (dec_lt 0 (e / 2 % 2)) [
    | yes table ↦ pointer (omega arith, inl (omega arith))
    | no plain ↦ elim (dec_lt n 2) [
      | yes low ↦ block (omega arith) (omega arith) (omega arith)
      | no top ↦ pointer (omega arith, inr (omega arith))
    ]
  ]
]
