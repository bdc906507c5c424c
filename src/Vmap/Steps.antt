-- ===== src/Vmap/Steps.antt =====
-- The steps of the mapping functions: finding or making the table below an entry, and the last write.
use z_os.Base.{
  ℕ, suc, ◌+◌, ◌*◌, ◌%◌, ◌≤◌, ◌<◌, ◌≡◌, ◌≢◌, ◌⊎◌, inl, inr, refl, sym, ap, ap₂, ◌∙◌, arith,
}
use native.Mathlib.Decide.{ℕ_discrete, dec_lt}
use z_os.Vmap.{Vmap, VmapFns, Result, done, failed, write, entry_or_new}
use z_os.Vmap.Entry.{table_entry}
use z_os.Vmap.Fields.{valid-bit}
use z_os.Vmap.Tree.{
  View, PoolView, IsPageSource, IsTree, IsPointer, child, drop_digits, digit, Unblocked,
}
use z_os.Vmap.Extends.{Extends, Extends-refl}
use z_os.Vmap.Frame.{child-IsTree, Unblocked-same, digit-lt, digits_split}
use z_os.Vmap.Grow.{grown_view, grown-IsTree, grown-Extends, new_entry}
use z_os.Vmap.Slots.{write_self, write_ne, slots_ne_page, slots_ne_index}

-- What holds of a call that goes on, and of one that fails.
abbrev pub Ensures :
    {P A : Type 0} → (A → Vmap P → Type 0) → (Vmap P → Type 0) → Result P A → Type 0
Ensures Q F (done a s) = Q a s
Ensures Q F (failed s) = F s

pub Ensures-bind :
    {P A B : Type 0} (Q : A → Vmap P → Type 0) (F : Vmap P → Type 0) (R : B → Vmap P → Type 0)
    (G : Vmap P → Type 0) (r : Result P A) (f : A → Vmap P → Result P B)
    → Ensures Q F r
    → ((s : Vmap P) → F s → G s)
    → ((a : A) (s : Vmap P) → Q a s → Ensures R G (f a s))
    → Ensures R G (elim r [ done a s ↦ f a s | failed s ↦ failed s ])
Ensures-bind Q F R G (done a s) f h lost next = next a s h
Ensures-bind Q F R G (failed s) f h lost next = lost s h

pub Ensures-first :
    {P A B : Type 0} (R : B → Vmap P → Type 0) (G : Vmap P → Type 0) (r : Result P A)
    (f : A → Vmap P → Result P B) (a : A) (s : Vmap P)
    → r ≡ done a s
    → Ensures R G (f a s)
    → Ensures R G (elim r [ done a s ↦ f a s | failed s ↦ failed s ])
Ensures-first R G r f a s e h = rw e h

module _ {P : Type 0} {fns : VmapFns P} {base : ℕ} {pages : PoolView P}
    (src : IsPageSource fns base pages) (v : ℕ) where
  -- The state below an entry of a table of height `n` on the way to page `v`.
  pub record Descended (n t : ℕ) (s : Vmap P) (view : View) (e : ℕ) (s' : Vmap P) : Type 0 where
    pub view' : View
    pub tree : IsTree fns base pages s' view'
    pub ext : Extends base v s.words s'.words view view'
    pub entry : s'.words (base + t + 8 * digit n v) ≡ e
    pub pointer : IsPointer n e
    pub root : s'.root_page_table ≡ s.root_page_table
    pub room : pages.room s.pool ≤ pages.room s'.pool + 1

  module _ (t d : ℕ) (s : Vmap P) where
    entry_or_new-valid :
        s.words (base + t + 8 * d) % 2 ≡ 1
        → entry_or_new fns (base + t) d s ≡ done (s.words (base + t + 8 * d)) s
    unfolding entry_or_new
    entry_or_new-valid odd = ground (arith, valid-bit (s.words (base + t + 8 * d)))

    entry_or_new-none :
        s.words (base + t + 8 * d) % 2 ≡ 0
        → (fns.alloc_page s.words s.pool).0 ≡ 0
        → entry_or_new fns (base + t) d s
          ≡ failed (record s {
            words = (fns.alloc_page s.words s.pool).1;
            pool = (fns.alloc_page s.words s.pool).2;
          })
    unfolding entry_or_new
    entry_or_new-none even z = ground (arith, valid-bit (s.words (base + t + 8 * d)))

    entry_or_new-new :
        s.words (base + t + 8 * d) % 2 ≡ 0
        → (fns.alloc_page s.words s.pool).0 ≢ 0
        → entry_or_new fns (base + t) d s
          ≡ done (table_entry (fns.alloc_page s.words s.pool).0) (record s {
            words =
                write
                  (fns.alloc_page s.words s.pool).1
                  (base + t + 8 * d)
                  (table_entry (fns.alloc_page s.words s.pool).0);
            pool = (fns.alloc_page s.words s.pool).2;
          })
    unfolding entry_or_new
    entry_or_new-new even got = ground (arith, valid-bit (s.words (base + t + 8 * d)))

  -- Going down fails only when the pages have run out.
  pub entry_or_new-Descended :
      (n t table d : ℕ) (s : Vmap P) (view : View)
      → IsTree fns base pages s view
      → suc n < 4
      → view.height t ≡ suc n
      → view.prefix t ≡ drop_digits (suc (suc n)) v
      → Unblocked base s.words (suc n) t v
      → table ≡ base + t
      → d ≡ digit (suc n) v
      → Ensures
          (Descended (suc n) t s view)
          (λ s'. pages.room s.pool ≡ 0)
          (entry_or_new fns table d s)
  entry_or_new-Descended n t table d s view tree le h p free et ed =
      rw (et, ed)
        (elim (dec_lt 0 (s.words (base + t + 8 * digit (suc n) v) % 2)) [
          | yes odd ↦
              let odd' : s.words (base + t + 8 * digit (suc n) v) % 2 ≡ 1 = omega arith in
              rw (entry_or_new-valid t (digit (suc n) v) s odd') (record {
                view' = view;
                tree = tree;
                ext = Extends-refl base v s.words view;
                entry = refl;
                pointer = (free odd').0;
                root = refl;
                room = omega arith;
              })
          | no even ↦
              let even' : s.words (base + t + 8 * digit (suc n) v) % 2 ≡ 0 = omega arith in
              elim (ℕ_discrete (fns.alloc_page s.words s.pool).0 0) [
                | yes z ↦
                    rw (entry_or_new-none t (digit (suc n) v) s even' z)
                      (src.roomy s.words s.pool tree.pool z)
                | no got ↦ rw (entry_or_new-new t (digit (suc n) v) s even' got) (record {
                  view' = grown_view src tree n t v le h p even' got;
                  tree = grown-IsTree src tree n t v le h p even' got;
                  ext = grown-Extends src tree n t v le h p even' got;
                  entry =
                      write_self (fns.alloc_page s.words s.pool).1 (base + t + 8 * digit (suc n) v)
                        _ _ refl;
                  pointer = (
                    (new_entry src tree n t v le h p even' got).0,
                    inl (new_entry src tree n t v le h p even' got).1,
                  );
                  root = refl;
                  room = src.room_spent s.words s.pool tree.pool;
                })
              ]
        ])

  -- What holds of the table that the entry leads to.
  pub below :
      (n t e : ℕ) (s s' : Vmap P) (view : View)
      → IsTree fns base pages s view
      → suc n < 4
      → view.height t ≡ suc n
      → view.prefix t ≡ drop_digits (suc (suc n)) v
      → Unblocked base s.words (suc n) t v
      → (d : Descended (suc n) t s view e s')
      → (d.view'.height (child e) ≡ n)
        × (d.view'.prefix (child e) ≡ drop_digits (suc n) v)
        × Unblocked base s'.words n (child e) v
  below n t e s s' view tree le h p free d =
      let h₁ : d.view'.height t ≡ suc n = d.ext.old_height t (omega arith) ∙ h in
      let p₁ : d.view'.prefix t ≡ drop_digits (suc (suc n)) v =
        d.ext.old_prefix t (omega arith) ∙ p in
      let ptr : IsPointer (suc n) (s'.words (base + t + 8 * digit (suc n) v)) =
        rw d.entry d.pointer in
      let (h', p') = child-IsTree n t v d.tree le h₁ p₁ ptr in
      let free' = Unblocked-same tree d.tree d.ext (suc n) t v le h p free in
      (rw d.entry at h', rw d.entry at p', rw d.entry at ((free' ptr.0).1))

  -- Writing an entry of a lowest table on the way to `v`.
  module _ (s : Vmap P) (view : View) (tree : IsTree fns base pages s view) (t leaf : ℕ)
      (h : view.height t ≡ 0) (p : view.prefix t ≡ drop_digits 1 v) where
    abbrev pub with_leaf : Vmap P
    with_leaf = record s { words = write s.words (base + t + 8 * digit 0 v) leaf }

    off_leaf :
        (u i : ℕ)
        → view.height u < 4
        → i < 512
        → (u ≢ t) ⊎ (i ≢ digit 0 v)
        → with_leaf.words (base + u + 8 * i) ≡ s.words (base + u + 8 * i)
    off_leaf u i hu hi ne = write_ne s.words _ leaf _ (elim ne [
      | inl ne' ↦
          slots_ne_page base (tree.page t (omega arith)) (tree.page u hu) i _ hi (digit-lt 0 v) ne'
      | inr ne' ↦ elim (ℕ_discrete u t) [
        | yes e ↦ λ q. slots_ne_index base t i _ ne' (ap (λ x. base + x + 8 * i) (sym e) ∙ q)
        | no ne'' ↦
            slots_ne_page base (tree.page t (omega arith)) (tree.page u hu) i _ hi (digit-lt 0 v)
              ne''
      ]
    ])

    above : (u : ℕ) → 0 < view.height u → u ≢ t
    above u pos e = absurd (omega (arith, ap view.height e))

    upper :
        (u i : ℕ)
        → 0 < view.height u
        → view.height u < 4
        → i < 512
        → with_leaf.words (base + u + 8 * i) ≡ s.words (base + u + 8 * i)
    upper u i pos hu hi = off_leaf u i hu hi (inl (above u pos))

    pub with_leaf-IsTree : IsTree fns base pages with_leaf view
    with_leaf-IsTree = record {
      page = tree.page;
      present = tree.present;
      linear = tree.linear;
      pool = tree.pool;
      unused = tree.unused;
      root_height = tree.root_height;
      root_prefix = tree.root_prefix;
      child_height =
          λ u i a b c d. let e = upper u i a b c in rw e (tree.child_height u i a b c (rw (← e) d));
      child_prefix =
          λ u i a b c d. let e = upper u i a b c in rw e (tree.child_prefix u i a b c (rw (← e) d));
    }

    pub with_leaf-Extends : Extends base v s.words with_leaf.words view view
    with_leaf-Extends = record {
      old_height = λ u a. refl;
      old_prefix = λ u a. refl;
      kept = λ u j a b c d. upper u j a b c;
      off_way = λ u j a b ne. elim (ℕ_discrete u t) [
        | no ne' ↦ off_leaf u j a b (inl ne')
        | yes e ↦ off_leaf u j a b (inr (λ e'. ne (way u j e e')))
      ];
      empty = λ u j a b c d. absurd (omega arith);
      changed = λ u j a b c d. inl (b, upper u j a b c);
    }
      where
        way :
            (u j : ℕ)
            → u ≡ t
            → j ≡ digit 0 v
            → view.prefix u * 512 + j ≡ drop_digits (view.height u) v
        way u j e e' =
            ap₂ (λ (x y : ℕ). view.prefix x * 512 + y) e e'
            ∙ digits_split 0 v (view.prefix t) p
            ∙ ap (λ k. drop_digits k v) (sym (ap view.height e ∙ h))
