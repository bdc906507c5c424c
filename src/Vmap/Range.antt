-- ===== src/Vmap/Range.antt =====
-- The range functions return: the loops take as many rounds as the range has steps.
use native.Mathlib.Decide.{dec_lt}
use z_os.Base.{
  ℕ, zero, suc, ◌+◌, ◌-◌, ◌*◌, ◌/◌, ◌^◌, ◌≤◌, ◌<◌, ◌≡◌, refl, Option, some, true, add64, arith, ltb,
}
use z_os.Vmap.{
  Vmap, VmapFns, Result, done, failed, range_loop, vmap_map_page, vmap_map_l1_block,
  vmap_map_l2_block, vmap_map_range, vmap_map_range_l1_block, vmap_map_range_l2_block,
}
use z_os.Vmap.Entry.{mmap_granule_size, tbl_l1_block_size, tbl_l2_block_size}

-- A call that has an outcome within its fuel.
abbrev pub Returns : {A : Type 0} → Option A → Type 0
Returns {A} o = (r : A) × (o ≡ some r)

ltb-true : (a b : ℕ) → a < b → ltb a b ≡ true
ltb-true a b h = ground arith

module _ {P : Type 0} (fns : VmapFns P) where
  -- One round, when the rounds after it return.
  round-Returns :
      (fuel : ℕ) (map_one : ℕ → ℕ → Vmap P → Result P (Unit {0})) (step stop virtual physical : ℕ)
      (s : Vmap P) (r : Result P (Unit {0}))
      → map_one virtual physical s ≡ r
      → virtual < stop
      → ((s' : Vmap P)
          → Returns
              (range_loop fns fuel map_one step stop (add64 virtual step) (add64 physical step) s'))
      → Returns (range_loop fns (suc fuel) map_one step stop virtual physical s)
  unfolding range_loop
  round-Returns fuel map_one step stop virtual physical s (done u s') e lt rest =
      ((rest s').0, rw (e, ltb-true virtual stop lt, (rest s').1) refl)
  round-Returns fuel map_one step stop virtual physical s (failed s') e lt rest =
      (failed s', rw (e, ltb-true virtual stop lt) refl)

  loop-Returns :
      (fuel : ℕ) (map_one : ℕ → ℕ → Vmap P → Result P (Unit {0})) (step stop virtual physical : ℕ)
      (s : Vmap P)
      → stop ≤ virtual + step * fuel
      → stop + step ≤ 2 ^ 64
      → Returns (range_loop fns (suc fuel) map_one step stop virtual physical s)
  unfolding range_loop
  loop-Returns zero map_one step stop virtual physical s h k = (done tt s, ground arith)
  loop-Returns (suc fuel) map_one step stop virtual physical s h k = elim (dec_lt virtual stop) [
    | no ge ↦ (done tt s, ground arith)
    | yes lt ↦
        round-Returns (suc fuel) map_one step stop virtual physical s (map_one virtual physical s)
          refl lt
          (λ s'.
            loop-Returns fuel map_one step stop (add64 virtual step) (add64 physical step) s'
              (omega arith) k)
  ]

  -- A range of pages, and of blocks of either size, that ends 1 GiB or more below 2^64 is mapped
  -- or fails: none of the three loops runs on.
  pub range-Returns :
      (virtual_start virtual_end physical_start page_flags : ℕ) (s : Vmap P)
      → virtual_end + 2 ^ 30 ≤ 2 ^ 64
      → Returns (vmap_map_range fns virtual_start virtual_end physical_start page_flags s)
        × Returns
            (vmap_map_range_l1_block fns virtual_start virtual_end physical_start page_flags s)
        × Returns
            (vmap_map_range_l2_block fns virtual_start virtual_end physical_start page_flags s)
  unfolding vmap_map_range vmap_map_range_l1_block vmap_map_range_l2_block
  range-Returns virtual_start virtual_end physical_start page_flags s h = (
    loop-Returns ((virtual_end - virtual_start + mmap_granule_size - 1) / mmap_granule_size)
        (λ virtual physical. vmap_map_page fns physical virtual page_flags) mmap_granule_size
        virtual_end virtual_start physical_start s (omega arith) (omega arith),
    loop-Returns ((virtual_end - virtual_start + tbl_l1_block_size - 1) / tbl_l1_block_size)
        (λ virtual physical. vmap_map_l1_block fns virtual physical page_flags) tbl_l1_block_size
        virtual_end virtual_start physical_start s (omega arith) (omega arith),
    loop-Returns ((virtual_end - virtual_start + tbl_l2_block_size - 1) / tbl_l2_block_size)
        (λ virtual physical. vmap_map_l2_block fns virtual physical page_flags) tbl_l2_block_size
        virtual_end virtual_start physical_start s (omega arith) (omega arith),
  )
