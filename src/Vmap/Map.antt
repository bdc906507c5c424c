-- ===== src/Vmap/Map.antt =====
-- vmap_map_page: the page is translated as asked, every other address as before.
use z_os.Base.{ℕ, suc, ◌+◌, ◌*◌, ◌%◌, ◌<◌, ◌≡◌, ◌≢◌, refl, sym, ap, ap₂, subst, ◌∙◌, arith, some}
use z_os.Vmap.{
  Vmap, VmapFns, Words, Result, done, ◌>>=◌, write, entry_or_new, set_entry, root_table, table_at,
  vmap_map_page, vmap_virtual_to_physical,
}
use z_os.Vmap.Entry.{l0_index, l1_index, l2_index, l3_index, page_entry}
use z_os.Vmap.Fields.{addr-bits, addr_field, page_entry_fields, IsFlags}
use z_os.Vmap.Tree.{
  View, PoolView, IsPageSource, IsTree, IsPointer, child, drop_digits, digit, Unblocked, walk,
  walk-pointer, walk-leaf,
}
use z_os.Vmap.Extends.{Extends, Extends-trans}
use z_os.Vmap.Frame.{walk_same, digit-lt}
use z_os.Vmap.Slots.{write_self}
use z_os.Vmap.Steps.{
  Ensures, Ensures-bind, Ensures-first, Descended, entry_or_new-Descended, below, with_leaf,
  with_leaf-IsTree, with_leaf-Extends,
}
use z_os.Vmap.Translate.{translate-walk, l0-digit, l1-digit, l2-digit, l3-digit}

module _ {P : Type 0} {fns : VmapFns P} {base : ℕ} {pages : PoolView P}
    (src : IsPageSource fns base pages) (s : Vmap P) (view : View)
    (tree : IsTree fns base pages s view) (present : s.root_page_table ≢ 0) (pa va : ℕ) where
  -- What vmap_map_page has done when it returns 0.
  pub record PageMapped (s' : Vmap P) : Type 0 where
    pub view' : View
    pub tree' : IsTree fns base pages s' view'
    pub root : s'.root_page_table ≡ s.root_page_table
    pub here :
        (a : ℕ)
        → addr_field a ≡ addr_field va
        → vmap_virtual_to_physical fns s' a ≡ some (addr_field pa * 4096 + a % 4096)
    pub elsewhere :
        (a : ℕ)
        → addr_field a ≢ addr_field va
        → vmap_virtual_to_physical fns s' a ≡ vmap_virtual_to_physical fns s a

  root_digits : (a : ℕ) → view.prefix s.root_page_table ≡ drop_digits 4 (addr_field a)
  root_digits a = tree.root_prefix present ∙ omega arith

  -- One step of a walk whose entry is known.
  walk_down :
      (w : Words) (n t e a : ℕ)
      → w (base + t + 8 * digit (suc n) (addr_field va)) ≡ e
      → IsPointer (suc n) e
      → walk base w (suc n) t (addr_field va) a ≡ walk base w n (child e) (addr_field va) a
  walk_down w n t e a q p =
      walk-pointer base w n t (addr_field va) a (rw q p)
      ∙ ap (λ x. walk base w n (child x) (addr_field va) a) q

  -- After the three tables are there and the leaf is written.
  module _ (e₀ e₁ e₂ leaf : ℕ) (s₁ s₂ s₃ : Vmap P) (leaf_odd : leaf % 2 ≡ 1)
      (leaf_address : child leaf ≡ addr_field pa * 4096)
      (d₁ : Descended src (addr_field va) 3 s.root_page_table s view e₀ s₁)
      (d₂ : Descended src (addr_field va) 2 (child e₀) s₁ d₁.view' e₁ s₂)
      (d₃ : Descended src (addr_field va) 1 (child e₁) s₂ d₂.view' e₂ s₃)
      (h₁ : d₁.view'.height (child e₀) ≡ 2) (h₂ : d₂.view'.height (child e₁) ≡ 1)
      (h₃ : d₃.view'.height (child e₂) ≡ 0)
      (p₃ : d₃.view'.prefix (child e₂) ≡ drop_digits 1 (addr_field va)) where
    abbrev final : Vmap P
    final = with_leaf src (addr_field va) s₃ d₃.view' d₃.tree (child e₂) leaf h₃ p₃

    final-IsTree : IsTree fns base pages final d₃.view'
    final-IsTree = with_leaf-IsTree src (addr_field va) s₃ d₃.view' d₃.tree (child e₂) leaf h₃ p₃

    from₃ : Extends base (addr_field va) s₃.words final.words d₃.view' d₃.view'
    from₃ = with_leaf-Extends src (addr_field va) s₃ d₃.view' d₃.tree (child e₂) leaf h₃ p₃

    from₂ : Extends base (addr_field va) s₂.words final.words d₂.view' d₃.view'
    from₂ = Extends-trans base (addr_field va) d₃.ext from₃

    from₁ : Extends base (addr_field va) s₁.words final.words d₁.view' d₃.view'
    from₁ = Extends-trans base (addr_field va) d₂.ext from₂

    from₀ : Extends base (addr_field va) s.words final.words view d₃.view'
    from₀ = Extends-trans base (addr_field va) d₁.ext from₁

    final_root : final.root_page_table ≡ s.root_page_table
    final_root = d₃.root ∙ d₂.root ∙ d₁.root

    root_height₁ : d₁.view'.height s.root_page_table ≡ 3
    root_height₁ =
        d₁.ext.old_height _ (omega (arith, tree.root_height present)) ∙ tree.root_height present

    root_word : final.words (base + s.root_page_table + 8 * digit 3 (addr_field va)) ≡ e₀
    root_word =
        from₁.kept s.root_page_table (digit 3 (addr_field va)) (omega (arith, root_height₁))
          (omega (arith, root_height₁)) (digit-lt 3 (addr_field va)) (rw d₁.entry d₁.pointer.0)
        ∙ d₁.entry

    height₁ : d₂.view'.height (child e₀) ≡ 2
    height₁ = d₂.ext.old_height (child e₀) (omega (arith, h₁)) ∙ h₁

    height₂ : d₃.view'.height (child e₁) ≡ 1
    height₂ = d₃.ext.old_height (child e₁) (omega (arith, h₂)) ∙ h₂

    word₁ : final.words (base + child e₀ + 8 * digit 2 (addr_field va)) ≡ e₁
    word₁ =
        from₂.kept (child e₀) (digit 2 (addr_field va)) (omega (arith, height₁))
          (omega (arith, height₁)) (digit-lt 2 (addr_field va)) (rw d₂.entry d₂.pointer.0)
        ∙ d₂.entry

    word₂ : final.words (base + child e₁ + 8 * digit 1 (addr_field va)) ≡ e₂
    word₂ =
        from₃.kept (child e₁) (digit 1 (addr_field va)) (omega (arith, height₂))
          (omega (arith, height₂)) (digit-lt 1 (addr_field va)) (rw d₃.entry d₃.pointer.0)
        ∙ d₃.entry

    final_walk :
        (a : ℕ)
        → walk base final.words 3 s.root_page_table (addr_field va) a
          ≡ some (addr_field pa * 4096 + a % 4096)
    final_walk a =
        walk_down final.words 2 s.root_page_table e₀ a root_word d₁.pointer
        ∙ walk_down final.words 1 (child e₀) e₁ a word₁ d₂.pointer
        ∙ walk_down final.words 0 (child e₁) e₂ a word₂ d₃.pointer
        ∙ walk-leaf base final.words (child e₂) (addr_field va) a (rw leaf_word leaf_odd)
        ∙ ap (λ x. some (child x + a % 4096)) leaf_word
        ∙ ap (λ x. some (x + a % 4096)) leaf_address
      where
        leaf_word : final.words (base + child e₂ + 8 * digit 0 (addr_field va)) ≡ leaf
        leaf_word = write_self s₃.words (base + child e₂ + 8 * digit 0 (addr_field va)) leaf _ refl

    final-PageMapped : PageMapped final
    final-PageMapped = record {
      view' = d₃.view';
      tree' = final-IsTree;
      root = final_root;
      here = λ a e.
          translate-walk fns final a final-IsTree (rw final_root present)
          ∙ ap₂ (λ r n. walk base final.words 3 r n a) final_root e
          ∙ final_walk a;
      elsewhere = λ a ne.
          translate-walk fns final a final-IsTree (rw final_root present)
          ∙ ap (λ r. walk base final.words 3 r (addr_field a) a) final_root
          ∙ walk_same tree final-IsTree from₀ 3 s.root_page_table (addr_field a) a (omega arith)
              (λ e. ne (sym e)) (tree.root_height present) (root_digits a)
          ∙ sym (translate-walk fns s a tree present);
    }

root_table-present :
    {P : Type 0} (fns : VmapFns P) (s : Vmap P)
    → s.root_page_table ≢ 0
    → root_table fns s ≡ done (fns.physical_to_virtual s.root_page_table) s
unfolding root_table
root_table-present fns s present = ground arith

module _ {P : Type 0} {fns : VmapFns P} {base : ℕ} {pages : PoolView P}
    (src : IsPageSource fns base pages) (s : Vmap P) (view : View)
    (tree : IsTree fns base pages s view) (present : s.root_page_table ≢ 0) (pa va flags : ℕ)
    (flags_off : IsFlags flags)
    (free : Unblocked base s.words 3 s.root_page_table (addr_field va)) where
  -- Where an entry of a table of the tree points.
  at_child :
      (t e : ℕ) (s₁ : Vmap P) (x : View)
      → IsTree fns base pages s₁ x
      → x.height (child e) < 4
      → table_at fns e ≡ base + child e
  at_child t e s₁ x tree₁ h = ap fns.physical_to_virtual (addr-bits e) ∙ tree₁.linear (child e) h

  leaf_fields : (page_entry pa flags % 2 ≡ 1) × (child (page_entry pa flags) ≡ addr_field pa * 4096)
  leaf_fields =
      let (odd, address) = page_entry_fields pa flags flags_off in
      (odd, sym (addr-bits (page_entry pa flags)) ∙ address)

  -- The calls of vmap_map_page from each level on.
  below_l2 : ℕ → Vmap P → Result P (Unit {0})
  below_l2 l2_entry = set_entry fns (table_at fns l2_entry) (l3_index va) (page_entry pa flags)

  below_l1 : ℕ → Vmap P → Result P (Unit {0})
  below_l1 l1_entry = entry_or_new fns (table_at fns l1_entry) (l2_index va) >>= below_l2

  below_l0 : ℕ → Vmap P → Result P (Unit {0})
  below_l0 l0_entry = entry_or_new fns (table_at fns l0_entry) (l1_index va) >>= below_l1

  below_root : ℕ → Vmap P → Result P (Unit {0})
  below_root table = entry_or_new fns table (l0_index va) >>= below_l0

  abbrev Post : Unit {0} → Vmap P → Type 0
  Post _ = PageMapped src s view tree present pa va

  abbrev Short : Vmap P → Type 0
  Short _ = pages.room s.pool < 3

  map_parts : vmap_map_page fns pa va flags s ≡ (root_table fns >>= below_root) s
  unfolding vmap_map_page below_root below_l0 below_l1 below_l2
  map_parts = refl

  module _ (e₀ : ℕ) (s₁ : Vmap P)
      (d₁ : Descended src (addr_field va) 3 s.root_page_table s view e₀ s₁) where
    b₁ :
        (d₁.view'.height (child e₀) ≡ 2)
        × (d₁.view'.prefix (child e₀) ≡ drop_digits 3 (addr_field va))
        × Unblocked base s₁.words 2 (child e₀) (addr_field va)
    b₁ =
        below src (addr_field va) 2 s.root_page_table e₀ s s₁ view tree (omega arith)
          (tree.root_height present) (root_digits src s view tree present pa va va) free d₁

    module _ (e₁ : ℕ) (s₂ : Vmap P)
        (d₂ : Descended src (addr_field va) 2 (child e₀) s₁ d₁.view' e₁ s₂) where
      b₂ :
          (d₂.view'.height (child e₁) ≡ 1)
          × (d₂.view'.prefix (child e₁) ≡ drop_digits 2 (addr_field va))
          × Unblocked base s₂.words 1 (child e₁) (addr_field va)
      b₂ =
          below src (addr_field va) 1 (child e₀) e₁ s₁ s₂ d₁.view' d₁.tree (omega arith) b₁.0 b₁.1
            b₁.2 d₂

      module _ (e₂ : ℕ) (s₃ : Vmap P)
          (d₃ : Descended src (addr_field va) 1 (child e₁) s₂ d₂.view' e₂ s₃) where
        below_l2-Ensures : Ensures Post Short (below_l2 e₂ s₃)
        unfolding below_l2 set_entry
        below_l2-Ensures =
            let (h, p, _) =
              below src (addr_field va) 0 (child e₁) e₂ s₂ s₃ d₂.view' d₂.tree (omega arith) b₂.0
                b₂.1 b₂.2 d₃ in
            let place =
              ap₂ (λ x i. x + 8 * i) (at_child (child e₁) e₂ s₃ d₃.view' d₃.tree (omega (arith, h)))
                (l3-digit va) in
            subst (λ x. Post tt (record s₃ { words = write s₃.words x (page_entry pa flags) }))
              (sym place)
              (final-PageMapped src s view tree present pa va e₀ e₁ e₂ (page_entry pa flags) s₁ s₂
                s₃ leaf_fields.0 leaf_fields.1 d₁ d₂ d₃ b₁.0 b₂.0 h p)

      below_l1-Ensures : Ensures Post Short (below_l1 e₁ s₂)
      unfolding below_l1
      below_l1-Ensures =
          Ensures-bind (Descended src (addr_field va) 1 (child e₁) s₂ d₂.view')
            (λ s'. pages.room s₂.pool ≡ 0) Post Short
            (entry_or_new fns (table_at fns e₁) (l2_index va) s₂) below_l2
            (entry_or_new-Descended src (addr_field va) 0 (child e₁) (table_at fns e₁) (l2_index va)
              s₂ d₂.view' d₂.tree (omega arith) b₂.0 b₂.1 b₂.2
              (at_child (child e₀) e₁ s₂ d₂.view' d₂.tree (omega (arith, b₂.0))) (l2-digit va))
            (λ s' z. omega (arith, d₁.room, d₂.room)) below_l2-Ensures

    below_l0-Ensures : Ensures Post Short (below_l0 e₀ s₁)
    unfolding below_l0
    below_l0-Ensures =
        Ensures-bind (Descended src (addr_field va) 2 (child e₀) s₁ d₁.view')
          (λ s'. pages.room s₁.pool ≡ 0) Post Short
          (entry_or_new fns (table_at fns e₀) (l1_index va) s₁) below_l1
          (entry_or_new-Descended src (addr_field va) 1 (child e₀) (table_at fns e₀) (l1_index va)
            s₁ d₁.view' d₁.tree (omega arith) b₁.0 b₁.1 b₁.2
            (at_child s.root_page_table e₀ s₁ d₁.view' d₁.tree (omega (arith, b₁.0))) (l1-digit va))
          (λ s' z. omega (arith, d₁.room)) below_l1-Ensures

  -- On a tree of tables with a root (root_page_table is not 0) and no block on the way to the
  -- address, with pages from a page source, and with flags that leave an entry's address alone,
  -- vmap_map_page fails only if fewer than three pages are left; when it returns 0, each address
  -- of the page is translated to that of the physical page at the same offset, every other address
  -- as before, and the tables are a tree again.
  pub vmap_map_page-PageMapped :
      Ensures
        (λ _. PageMapped src s view tree present pa va)
        (λ s'. pages.room s.pool < 3)
        (vmap_map_page fns pa va flags s)
  unfolding below_root
  vmap_map_page-PageMapped =
      rw (map_parts, Ensures)
        (Ensures-first Post Short (root_table fns s) below_root
          (fns.physical_to_virtual s.root_page_table) s (root_table-present fns s present)
          (Ensures-bind (Descended src (addr_field va) 3 s.root_page_table s view)
            (λ s'. pages.room s.pool ≡ 0) Post Short
            (entry_or_new fns (fns.physical_to_virtual s.root_page_table) (l0_index va) s) below_l0
            (entry_or_new-Descended src (addr_field va) 2 s.root_page_table
              (fns.physical_to_virtual s.root_page_table) (l0_index va) s view tree (omega arith)
              (tree.root_height present) (root_digits src s view tree present pa va va) free
              (tree.linear s.root_page_table (omega (arith, tree.root_height present)))
              (l0-digit va))
            (λ s' z. omega arith) below_l0-Ensures))
