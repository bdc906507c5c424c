-- ===== src/Vmap/Grow.antt =====
-- A new table under an entry: the tables stay a tree, and grow only on the way to page `v`.
use native.Mathlib.Decide.{ℕ_discrete}
use z_os.Base.{
  ℕ, suc, ◌+◌, ◌*◌, ◌/◌, ◌%◌, ◌≤◌, ◌<◌, ◌≡◌, ◌≢◌, inl, inr, sym, ap, ap₂, ◌∙◌, arith, ◌==◌,
  if◌then◌else◌,
}
use z_os.Vmap.{Vmap, VmapFns, Words, write}
use z_os.Vmap.Entry.{table_entry}
use z_os.Vmap.Fields.{table_entry_fields, addr-bits, IsPage}
use z_os.Vmap.Tree.{View, PoolView, IsPageSource, IsTree, IsPointer, child, drop_digits, digit}
use z_os.Vmap.Extends.{Extends}
use z_os.Vmap.Frame.{digits_split, digit-lt}
use z_os.Vmap.Slots.{write_self, write_ne, slots_ne_page, slot_outside, slots_ne_index}

IsPointer-congr : {a b x y : ℕ} → a ≡ b → x ≡ y → IsPointer a x → IsPointer b y
IsPointer-congr p q h = rw (← p, ← q) h

module _ {P : Type 0} {fns : VmapFns P} {base : ℕ} {pages : PoolView P} {s : Vmap P} {view : View}
    (src : IsPageSource fns base pages) (tree : IsTree fns base pages s view) (n t v : ℕ)
    (le : suc n < 4) (ht : view.height t ≡ suc n) (pt : view.prefix t ≡ drop_digits (suc (suc n)) v)
    (invalid : s.words (base + t + 8 * digit (suc n) v) % 2 ≡ 0)
    (got : (fns.alloc_page s.words s.pool).0 ≢ 0) where
  abbrev pub page_a : ℕ
  page_a = (fns.alloc_page s.words s.pool).0

  abbrev pub taken : Words
  taken = (fns.alloc_page s.words s.pool).1

  abbrev pub grown : Vmap P
  grown = record s {
    words = write taken (base + t + 8 * digit (suc n) v) (table_entry page_a);
    pool = (fns.alloc_page s.words s.pool).2;
  }

  abbrev pub grown_view : View
  grown_view = record {
    height = λ u. if u == page_a then n else view.height u;
    prefix = λ u. if u == page_a then view.prefix t * 512 + digit (suc n) v else view.prefix u;
  }

  a_unused : 4 ≤ view.height page_a
  a_unused = tree.unused page_a (src.fresh s.words s.pool tree.pool got)

  a_page : IsPage page_a
  a_page = src.free_page s.pool page_a (src.fresh s.words s.pool tree.pool got)

  old_ne : (u : ℕ) → view.height u < 4 → u ≢ page_a
  old_ne u h e = absurd (omega (arith, a_unused, ap view.height e))

  height_old : (u : ℕ) → u ≢ page_a → grown_view.height u ≡ view.height u
  height_old u ne = ground arith

  prefix_old : (u : ℕ) → u ≢ page_a → grown_view.prefix u ≡ view.prefix u
  prefix_old u ne = ground arith

  height_a : grown_view.height page_a ≡ n
  height_a = ground arith

  prefix_a : grown_view.prefix page_a ≡ view.prefix t * 512 + digit (suc n) v
  prefix_a = ground arith

  -- Where a word of a table lies, and what it holds now.
  data WordCase (u i : ℕ) : Type 0 where
    at_entry :
        u ≡ t
        → i ≡ digit (suc n) v
        → grown.words (base + u + 8 * i) ≡ table_entry page_a
        → WordCase u i
    at_new : u ≡ page_a → grown.words (base + u + 8 * i) ≡ 0 → WordCase u i
    at_old :
        u ≢ page_a
        → view.height u < 4
        → grown.words (base + u + 8 * i) ≡ s.words (base + u + 8 * i)
        → WordCase u i

  t_page : IsPage t
  t_page = tree.page t (omega arith)

  -- Outside the new page only the entry itself is written.
  word_kept :
      (u i : ℕ)
      → u ≢ page_a
      → IsPage u
      → i < 512
      → base + u + 8 * i ≢ base + t + 8 * digit (suc n) v
      → grown.words (base + u + 8 * i) ≡ s.words (base + u + 8 * i)
  word_kept u i ne page hi off =
      write_ne taken _ (table_entry page_a) _ off
      ∙ src.others s.words s.pool _ tree.pool got (slot_outside base a_page page i hi ne)

  word_case : (u i : ℕ) → grown_view.height u < 4 → i < 512 → WordCase u i
  word_case u i h hi = elim (ℕ_discrete u page_a) [
    | yes e ↦ at_new e (
        ap (λ x. grown.words (base + x + 8 * i)) e
        ∙ write_ne taken _ (table_entry page_a) _ (
            slots_ne_page base t_page a_page i _ hi (digit-lt (suc n) v)
              (λ e'. old_ne t (omega arith) (sym e')))
        ∙ src.zeroed s.words s.pool i tree.pool got hi)
    | no ne ↦
        let old : view.height u < 4 = omega (arith, height_old u ne) in
        elim (ℕ_discrete u t) [
          | yes e ↦ elim (ℕ_discrete i (digit (suc n) v)) [
            | yes e' ↦ at_entry e e' (write_self taken _ _ _ (ap₂ (λ x y. base + x + 8 * y) e e'))
            | no ne' ↦ at_old ne old (
                word_kept u i ne (tree.page u old) hi
                  (λ q. slots_ne_index base t i _ ne' (ap (λ x. base + x + 8 * i) (sym e) ∙ q)))
          ]
          | no ne' ↦ at_old ne old (
              word_kept u i ne (tree.page u old) hi
                (slots_ne_page base t_page (tree.page u old) i _ hi (digit-lt (suc n) v) ne'))
        ]
  ]

  -- The new entry leads to the new table.
  pub new_entry :
      (table_entry page_a % 2 ≡ 1)
      × (table_entry page_a / 2 % 2 ≡ 1)
      × (child (table_entry page_a) ≡ page_a)
  new_entry =
      let (odd, table, address) = table_entry_fields page_a a_page in
      (odd, table, sym (addr-bits (table_entry page_a)) ∙ address)

  child_at :
      (u i : ℕ)
      → 0 < grown_view.height u
      → grown_view.height u < 4
      → i < 512
      → IsPointer (grown_view.height u) (grown.words (base + u + 8 * i))
      → (grown_view.height (child (grown.words (base + u + 8 * i))) + 1 ≡ grown_view.height u)
        × (grown_view.prefix (child (grown.words (base + u + 8 * i)))
            ≡ grown_view.prefix u * 512 + i)
  child_at u i pos lt hi ptr = elim (word_case u i lt hi) [
    | at_entry e e' w ↦
        let c : child (grown.words (base + u + 8 * i)) ≡ page_a = ap child w ∙ new_entry.2 in
        let ne = old_ne t (omega arith) in
        (
          omega
              (arith, ap grown_view.height c ∙ height_a, ap grown_view.height e ∙ height_old t ne),
          ap grown_view.prefix c
              ∙ prefix_a
              ∙ sym (ap₂ (λ (x y : ℕ). x * 512 + y) (ap grown_view.prefix e ∙ prefix_old t ne) e'),
        )
    | at_new e w ↦ absurd (omega (arith, ap (λ (x : ℕ). x % 2) w))
    | at_old ne old w ↦
        let c : child (grown.words (base + u + 8 * i)) ≡ child (s.words (base + u + 8 * i)) =
          ap child w in
        let ptr' = IsPointer-congr (height_old u ne) w ptr in
        let up = tree.child_height u i (omega (arith, height_old u ne)) old hi ptr' in
        let ne' = old_ne (child (s.words (base + u + 8 * i))) (omega (arith, up)) in
        (
          omega (arith, up, ap grown_view.height c ∙ height_old _ ne', height_old u ne),
          ap grown_view.prefix c
              ∙ prefix_old _ ne'
              ∙ tree.child_prefix u i (omega (arith, height_old u ne)) old hi ptr'
              ∙ ap (λ (x : ℕ). x * 512 + i) (sym (prefix_old u ne)),
        )
  ]

  pub grown-IsTree : IsTree fns base pages grown grown_view
  grown-IsTree = record {
    page = λ u h. elim (ℕ_discrete u page_a) [
      | yes e ↦ rw e a_page
      | no ne ↦ tree.page u (omega (arith, height_old u ne))
    ];
    present = λ u h. elim (ℕ_discrete u page_a) [
      | yes e ↦ rw e got
      | no ne ↦ tree.present u (omega (arith, height_old u ne))
    ];
    linear = λ u h. elim (ℕ_discrete u page_a) [
      | yes e ↦ rw e (src.free_linear s.pool page_a (src.fresh s.words s.pool tree.pool got))
      | no ne ↦ tree.linear u (omega (arith, height_old u ne))
    ];
    pool = src.valid s.words s.pool tree.pool;
    unused = λ u free.
        let (free', ne) = src.spent s.words s.pool u tree.pool got free in
        omega (arith, tree.unused u free', height_old u ne);
    root_height = λ r. height_old s.root_page_table (root_ne r) ∙ tree.root_height r;
    root_prefix = λ r. prefix_old s.root_page_table (root_ne r) ∙ tree.root_prefix r;
    child_height = λ u i a b c d. (child_at u i a b c d).0;
    child_prefix = λ u i a b c d. (child_at u i a b c d).1;
  }
    where
      root_ne : s.root_page_table ≢ 0 → s.root_page_table ≢ page_a
      root_ne r = old_ne s.root_page_table (omega (arith, tree.root_height r))

  pub grown-Extends : Extends base v s.words grown.words view grown_view
  grown-Extends = record {
    old_height = λ u h. height_old u (old_ne u h);
    old_prefix = λ u h. prefix_old u (old_ne u h);
    kept = λ u j pos h hj odd. elim (word_case u j (table u h) hj) [
      | at_entry e e' w ↦
          absurd (omega (arith, ap₂ (λ (x y : ℕ). s.words (base + x + 8 * y) % 2) e e'))
      | at_new e w ↦ absurd (old_ne u h e)
      | at_old ne old w ↦ w
    ];
    off_way = λ u j h hj off. elim (word_case u j (table u h) hj) [
      | at_entry e e' w ↦ absurd (off (way u j e e'))
      | at_new e w ↦ absurd (old_ne u h e)
      | at_old ne old w ↦ w
    ];
    empty = λ u j new h hj off. elim (word_case u j h hj) [
      | at_entry e e' w ↦ absurd (omega (arith, ap view.height e))
      | at_new e w ↦ w
      | at_old ne old w ↦ absurd (omega arith)
    ];
    changed = λ u j pos h hj odd. elim (word_case u j h hj) [
      | at_entry e e' w ↦ inr (
        ap (λ (x : ℕ). x / 2 % 2) w ∙ new_entry.1,
        omega (arith, a_unused, ap view.height (ap child w ∙ new_entry.2)),
      )
      | at_new e w ↦ absurd (omega (arith, ap (λ (x : ℕ). x % 2) w))
      | at_old ne old w ↦ inl (old, w)
    ];
  }
    where
      table : (u : ℕ) → view.height u < 4 → grown_view.height u < 4
      table u h = omega (arith, height_old u (old_ne u h))

      way :
          (u j : ℕ)
          → u ≡ t
          → j ≡ digit (suc n) v
          → view.prefix u * 512 + j ≡ drop_digits (view.height u) v
      way u j e e' =
          ap₂ (λ (x y : ℕ). view.prefix x * 512 + y) e e'
          ∙ digits_split (suc n) v (view.prefix t) pt
          ∙ ap (λ k. drop_digits k v) (sym (ap view.height e ∙ ht))
