-- ===== src/Vmap/Frame.antt =====
-- Walks before and after the tables are extended on the way to page `v`.
use native.Mathlib.Decide.{dec_lt}
use z_os.Base.{
  ℕ, zero, suc, ◌+◌, ◌*◌, ◌/◌, ◌%◌, ◌≤◌, ◌<◌, ◌≡◌, ◌≢◌, ◌⊎◌, inl, inr, sym, ap, ◌∙◌, none, some,
  arith,
}
use z_os.Vmap.{Vmap, VmapFns}
use z_os.Vmap.Tree.{
  View, PoolView, IsTree, IsPointer, child, drop_digits, digit, walk, walk-invalid, walk-pointer,
  walk-block, entry_kind, invalid, pointer, block, block_address, Unblocked,
}
use z_os.Vmap.Extends.{Extends}

pub digit-lt : (n v : ℕ) → digit n v < 512
digit-lt n v = omega arith

-- The way to `v` passes through the entry that the walk to `v` reads.
pub digits_split : (n v p : ℕ) → p ≡ drop_digits (suc n) v → p * 512 + digit n v ≡ drop_digits n v
digits_split n v p e = omega arith

-- One step of a walk to page `v`, in any tree.
pub child-IsTree :
    {P : Type 0} {fns : VmapFns P} {base : ℕ} {pages : PoolView P} {s : Vmap P} {view : View}
    (n t v : ℕ)
    → IsTree fns base pages s view
    → suc n < 4
    → view.height t ≡ suc n
    → view.prefix t ≡ drop_digits (suc (suc n)) v
    → IsPointer (suc n) (s.words (base + t + 8 * digit (suc n) v))
    → (view.height (child (s.words (base + t + 8 * digit (suc n) v))) ≡ n)
      × (view.prefix (child (s.words (base + t + 8 * digit (suc n) v))) ≡ drop_digits (suc n) v)
child-IsTree {view} n t v tree le h p ptr = (
  omega (arith, tree.child_height t d (omega arith) (omega arith) (digit-lt (suc n) v) (rw h ptr)),
  tree.child_prefix t d (omega arith) (omega arith) (digit-lt (suc n) v) (rw h ptr)
      ∙ digits_split (suc n) v (view.prefix t) p,
)
  where
    d : ℕ
    d = digit (suc n) v

module _ {P : Type 0} {fns : VmapFns P} {base : ℕ} {pages : PoolView P} {s s' : Vmap P}
    {view view' : View} {v : ℕ} (tree : IsTree fns base pages s view)
    (tree' : IsTree fns base pages s' view')
    (ext : Extends base v s.words s'.words view view') where
  abbrev entry : ℕ → ℕ → ℕ → ℕ
  entry n t v' = s.words (base + t + 8 * digit n v')

  abbrev entry' : ℕ → ℕ → ℕ → ℕ
  entry' n t v' = s'.words (base + t + 8 * digit n v')

  change_at :
      (n t v' : ℕ)
      → 0 < n
      → n < 4
      → view'.height t ≡ n
      → entry' n t v' % 2 ≡ 1
      → ((view.height t < 4) × (entry' n t v' ≡ entry n t v'))
        ⊎ ((entry' n t v' / 2 % 2 ≡ 1) × (4 ≤ view.height (child (entry' n t v'))))
  change_at n t v' pos le h odd =
      ext.changed t (digit n v') (omega arith) (omega arith) (digit-lt n v') odd

  keep :
      (n t v' : ℕ)
      → suc n < 4
      → view.height t ≡ suc n
      → entry (suc n) t v' % 2 ≡ 1
      → entry' (suc n) t v' ≡ entry (suc n) t v'
  keep n t v' le h odd =
      ext.kept t (digit (suc n) v') (omega arith) (omega arith) (digit-lt (suc n) v') odd

  -- A new table leads nowhere but to `v`.
  walk_new :
      (n t v' va : ℕ)
      → n < 4
      → v ≢ v'
      → 4 ≤ view.height t
      → view'.height t ≡ n
      → view'.prefix t ≡ drop_digits (suc n) v'
      → walk base s'.words n t v' va ≡ none
  walk_new zero t v' va le ne new h p =
      walk-invalid base s'.words 0 t v' va
        (ap (λ x. x % 2) (ext.empty t (digit 0 v') new (omega arith) (digit-lt 0 v') off))
    where
      off : view'.prefix t * 512 + digit 0 v' ≢ drop_digits (view'.height t) v
      off e =
          ne (sym (sym (digits_split 0 v' (view'.prefix t) p) ∙ e ∙ ap (λ k. drop_digits k v) h))
  walk_new (suc n) t v' va le ne new h p = elim (entry_kind n (entry' (suc n) t v') (omega arith)) [
    | invalid even ↦ walk-invalid base s'.words (suc n) t v' va even
    | pointer ptr ↦ elim (change_at (suc n) t v' (omega arith) le h ptr.0) [
      | inl (lt, same) ↦ absurd (omega arith)
      | inr (table, new') ↦
          let (h', p') = child-IsTree n t v' tree' le h p ptr in
          walk-pointer base s'.words n t v' va ptr
          ∙ walk_new n (child (entry' (suc n) t v')) v' va (omega arith) ne new' h' p'
    ]
    | block odd low le' ↦ elim (change_at (suc n) t v' (omega arith) le h odd) [
      | inl (lt, same) ↦ absurd (omega arith)
      | inr (table, new') ↦ absurd (omega arith)
    ]
  ]

  -- Where the old entry is not valid, the new one leads nowhere but to `v`.
  walk_filled :
      (n t v' va : ℕ)
      → suc n < 4
      → v ≢ v'
      → view.height t ≡ suc n
      → view.prefix t ≡ drop_digits (suc (suc n)) v'
      → entry (suc n) t v' % 2 ≡ 0
      → walk base s'.words (suc n) t v' va ≡ none
  walk_filled n t v' va le ne h p even = elim (dec_lt 0 (entry' (suc n) t v' % 2)) [
    | no even' ↦ walk-invalid base s'.words (suc n) t v' va (omega arith)
    | yes odd ↦
        let h' : view'.height t ≡ suc n = omega (arith, ext.old_height t (omega arith)) in
        let p' : view'.prefix t ≡ drop_digits (suc (suc n)) v' =
          ext.old_prefix t (omega arith) ∙ p in
        elim (change_at (suc n) t v' (omega arith) le h' (omega arith)) [
          | inl (lt, same) ↦ absurd (omega (arith, ap (λ (x : ℕ). x % 2) same))
          | inr (table, new') ↦
              let ptr : IsPointer (suc n) (entry' (suc n) t v') = (omega arith, inl table) in
              let (h'', p'') = child-IsTree n t v' tree' le h' p' ptr in
              walk-pointer base s'.words n t v' va ptr
              ∙ walk_new n (child (entry' (suc n) t v')) v' va (omega arith) ne new' h'' p''
        ]
  ]

  -- Every other page is found as before.
  pub walk_same :
      (n t v' va : ℕ)
      → n < 4
      → v ≢ v'
      → view.height t ≡ n
      → view.prefix t ≡ drop_digits (suc n) v'
      → walk base s'.words n t v' va ≡ walk base s.words n t v' va
  unfolding walk
  walk_same zero t v' va le ne h p =
      rw (ext.off_way t (digit 0 v') (omega arith) (digit-lt 0 v') off)
    where
      off : view.prefix t * 512 + digit 0 v' ≢ drop_digits (view.height t) v
      off e = ne (sym (sym (digits_split 0 v' (view.prefix t) p) ∙ e ∙ ap (λ k. drop_digits k v) h))
  walk_same (suc n) t v' va le ne h p = elim (entry_kind n (entry (suc n) t v') (omega arith)) [
    | invalid even ↦
        walk_filled n t v' va le ne h p even ∙ sym (walk-invalid base s.words (suc n) t v' va even)
    | pointer ptr ↦
        let (h', p') = child-IsTree n t v' tree le h p ptr in
        let same : entry' (suc n) t v' ≡ entry (suc n) t v' = keep n t v' le h ptr.0 in
        walk-pointer base s'.words n t v' va (rw same ptr)
        ∙ ap (λ e. walk base s'.words n (child e) v' va) same
        ∙ walk_same n (child (entry (suc n) t v')) v' va (omega arith) ne h' p'
        ∙ sym (walk-pointer base s.words n t v' va ptr)
    | block odd low le' ↦
        let same : entry' (suc n) t v' ≡ entry (suc n) t v' = keep n t v' le h odd in
        walk-block base s'.words n t v' va (rw same odd) (rw same low) le'
        ∙ ap (λ e. some (block_address n e va)) same
        ∙ sym (walk-block base s.words n t v' va odd low le')
  ]

  -- New tables hold no block.
  Unblocked-new :
      (n t v' : ℕ)
      → n < 4
      → 4 ≤ view.height t
      → view'.height t ≡ n
      → view'.prefix t ≡ drop_digits (suc n) v'
      → Unblocked base s'.words n t v'
  Unblocked-new zero t v' le new h p = tt
  Unblocked-new (suc n) t v' le new h p = λ odd.
      elim (change_at (suc n) t v' (omega arith) le h odd) [
        | inl (lt, same) ↦ absurd (omega arith)
        | inr (table, new') ↦
            let (h', p') = child-IsTree n t v' tree' le h p (odd, inl table) in
            (
              (odd, inl table),
              Unblocked-new n (child (entry' (suc n) t v')) v' (omega arith) new' h' p',
            )
      ]

  -- A way that meets no block still meets none.
  pub Unblocked-same :
      (n t v' : ℕ)
      → n < 4
      → view.height t ≡ n
      → view.prefix t ≡ drop_digits (suc n) v'
      → Unblocked base s.words n t v'
      → Unblocked base s'.words n t v'
  Unblocked-same zero t v' le h p free = tt
  Unblocked-same (suc n) t v' le h p free = λ odd.
      let h₁ : view'.height t ≡ suc n = omega (arith, ext.old_height t (omega arith)) in
      let p₁ : view'.prefix t ≡ drop_digits (suc (suc n)) v' = ext.old_prefix t (omega arith) ∙ p in
      elim (change_at (suc n) t v' (omega arith) le h₁ odd) [
        | inl (lt, same) ↦
            let (ptr, rest) = free (rw (← same) odd) in
            let (h', p') = child-IsTree n t v' tree le h p ptr in
            (
              rw same ptr,
              rw same (Unblocked-same n (child (entry (suc n) t v')) v' (omega arith) h' p' rest),
            )
        | inr (table, new') ↦
            let (h', p') = child-IsTree n t v' tree' le h₁ p₁ (odd, inl table) in
            (
              (odd, inl table),
              Unblocked-new n (child (entry' (suc n) t v')) v' (omega arith) new' h' p',
            )
      ]
