-- ===== src/Mmap/Mapped.antt =====
-- A page that mmap_map_page maps is where mmap_virtual_to_physical finds it.
use native.Mathlib.Decide.{ℕ_discrete}
use z_os.Base.{
  ℕ, ◌+◌, ◌*◌, ◌%◌, ◌<◌, ◌≡◌, ◌≢◌, ◌⊎◌, inl, inr, some, Status, ok, fail, refl, sym, ap, ◌∙◌,
}
use z_os.Bump.{BumpAllocator}
use z_os.Mmap.{mmap_fns}
use z_os.Mmap.Pages.{table_pages, distance, mmap_fns-IsPageSource}
use z_os.Mmap.Kernel.{
  KernelTables, is_kernel_address, table_of, build_vmap_table, leave, mmap_map_page,
  mmap_virtual_to_physical,
}
use z_os.Vmap.{Vmap, Result, done, failed, vmap_init, vmap_map_page, vmap_virtual_to_physical}
use z_os.Vmap.Fields.{addr_field, IsFlags}
use z_os.Vmap.Tree.{View, IsTree, Unblocked}
use z_os.Vmap.Steps.{Ensures}
use z_os.Vmap.Map.{PageMapped, vmap_map_page-PageMapped}

-- The vmap_t of an address depends on its side only.
build_vmap_table-side :
    (k : KernelTables) (a va : ℕ)
    → is_kernel_address a ≡ is_kernel_address va
    → build_vmap_table a k ≡ build_vmap_table va k
unfolding build_vmap_table table_of
build_vmap_table-side k a va e = rw e refl

-- The vmap_t that is built after a call is the one that the call left, if its root was there before.
build_vmap_table-leave :
    (k : KernelTables) (va : ℕ) (s : Vmap BumpAllocator)
    → s.root_page_table ≡ table_of va k
    → build_vmap_table va (leave s k) ≡ s
unfolding build_vmap_table leave vmap_init table_of
build_vmap_table-leave k va s e = ap (λ x. record s { root_page_table = x }) (sym e)

-- What a call of mmap_map_page gives that found a root.
abbrev pub Outcome : (pa va : ℕ) → KernelTables → Status × KernelTables → Type 0
Outcome pa va k (fail, k') = table_pages.room k.page_tables < 3
Outcome pa va k (ok, k') =
    (a : ℕ)
    → is_kernel_address a ≡ is_kernel_address va
    → ((addr_field a ≡ addr_field va)
        × (mmap_virtual_to_physical a k' ≡ some (addr_field pa * 4096 + a % 4096)))
      ⊎ ((addr_field a ≢ addr_field va)
          × (mmap_virtual_to_physical a k' ≡ mmap_virtual_to_physical a k))

module _ (k : KernelTables) (view : View) (pa va flags : ℕ)
    (tree : IsTree
      (mmap_fns k.initialized)
      (distance k.initialized)
      table_pages
      (build_vmap_table va k)
      view)
    (present : (build_vmap_table va k).root_page_table ≢ 0) where
  same_root :
      (s' : Vmap BumpAllocator)
      → s'.root_page_table ≡ (build_vmap_table va k).root_page_table
      → s'.root_page_table ≡ table_of va k
  unfolding build_vmap_table vmap_init
  same_root s' e = e

  found :
      (s' : Vmap BumpAllocator)
      → PageMapped
          (mmap_fns-IsPageSource k.initialized)
          (build_vmap_table va k)
          view
          tree
          present
          pa
          va
          s'
      → Outcome pa va k (ok, leave s' k)
  unfolding mmap_virtual_to_physical leave
  found s' m a side =
      let now : build_vmap_table a (leave s' k) ≡ s' =
        build_vmap_table-side (leave s' k) a va side
        ∙ build_vmap_table-leave k va s' (same_root s' m.root) in
      let before : build_vmap_table a k ≡ build_vmap_table va k =
        build_vmap_table-side k a va side in
      elim (ℕ_discrete (addr_field a) (addr_field va)) [
        | yes e ↦
            inl
              (e, ap (λ v. vmap_virtual_to_physical (mmap_fns k.initialized) v a) now ∙ m.here a e)
        | no ne ↦ inr (
          ne,
          ap (λ v. vmap_virtual_to_physical (mmap_fns k.initialized) v a) now
              ∙ m.elsewhere a ne
              ∙ ap (λ v. vmap_virtual_to_physical (mmap_fns k.initialized) v a) (sym before),
        )
      ]

  outcome :
      (r : Result BumpAllocator (Unit {0}))
      → Ensures
          (λ _.
            PageMapped
              (mmap_fns-IsPageSource k.initialized)
              (build_vmap_table va k)
              view
              tree
              present
              pa
              va)
          (λ _. table_pages.room k.page_tables < 3)
          r
      → Outcome pa va k (elim r [ done _ s ↦ (ok, leave s k) | failed s ↦ (fail, leave s k) ])
  outcome (done _ s) m = found s m
  outcome (failed s) short = short

  -- On a root that is there, with a tree of tables below it that has no block on the way to the
  -- address, and with flags that leave an entry's address alone, mmap_map_page fails only if fewer
  -- than three pages are left for tables; when it returns 0, mmap_virtual_to_physical gives each
  -- address of the page, on the same side of the address space, that of the physical page at the
  -- same offset, and every other address of that side what it gave before.
  pub mmap_map_page-Outcome :
      IsFlags flags
      → Unblocked (distance k.initialized) k.words 3 (table_of va k) (addr_field va)
      → Outcome pa va k (mmap_map_page pa va flags k)
  unfolding mmap_map_page build_vmap_table vmap_init
  mmap_map_page-Outcome flags_off free =
      outcome (vmap_map_page (mmap_fns k.initialized) pa va flags (build_vmap_table va k)) (
        vmap_map_page-PageMapped (mmap_fns-IsPageSource k.initialized) (build_vmap_table va k) view
          tree present pa va flags flags_off free)
