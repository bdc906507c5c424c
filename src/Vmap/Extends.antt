-- ===== src/Vmap/Extends.antt =====
-- How vmap_map_page may change the tables, and what that does to the walks.
use z_os.Base.{ℕ, ◌+◌, ◌*◌, ◌/◌, ◌%◌, ◌≤◌, ◌<◌, ◌≡◌, ◌≢◌, ◌⊎◌, inl, inr, refl, sym, ap, ◌∙◌, arith}
use native.Mathlib.Decide.{dec_lt}
use z_os.Vmap.{Words}
use z_os.Vmap.Tree.{View, child, drop_digits}

module _ (base v : ℕ) where
  -- From `w` to `w'` entries change only on the way to page `v`; what was valid above the lowest
  -- tables stays; what is new there points to new tables, which are empty off the way.
  pub record Extends (w w' : Words) (view view' : View) : Type 0 where
    pub old_height : (u : ℕ) → view.height u < 4 → view'.height u ≡ view.height u
    pub old_prefix : (u : ℕ) → view.height u < 4 → view'.prefix u ≡ view.prefix u
    pub kept :
        (u j : ℕ)
        → 0 < view.height u
        → view.height u < 4
        → j < 512
        → w (base + u + 8 * j) % 2 ≡ 1
        → w' (base + u + 8 * j) ≡ w (base + u + 8 * j)
    pub off_way :
        (u j : ℕ)
        → view.height u < 4
        → j < 512
        → view.prefix u * 512 + j ≢ drop_digits (view.height u) v
        → w' (base + u + 8 * j) ≡ w (base + u + 8 * j)
    pub empty :
        (u j : ℕ)
        → 4 ≤ view.height u
        → view'.height u < 4
        → j < 512
        → view'.prefix u * 512 + j ≢ drop_digits (view'.height u) v
        → w' (base + u + 8 * j) ≡ 0
    pub changed :
        (u j : ℕ)
        → 0 < view'.height u
        → view'.height u < 4
        → j < 512
        → w' (base + u + 8 * j) % 2 ≡ 1
        → ((view.height u < 4) × (w' (base + u + 8 * j) ≡ w (base + u + 8 * j)))
          ⊎ ((w' (base + u + 8 * j) / 2 % 2 ≡ 1)
              × (4 ≤ view.height (child (w' (base + u + 8 * j)))))

  pub Extends-refl : (w : Words) (view : View) → Extends w w view view
  Extends-refl w view = record {
    old_height = λ u h. refl;
    old_prefix = λ u h. refl;
    kept = λ u j a b c d. refl;
    off_way = λ u j a b c. refl;
    empty = λ u j a b c d. absurd (omega arith);
    changed = λ u j a b c d. inl (b, refl);
  }

  pub Extends-trans :
      {w₁ w₂ w₃ : Words} {x y z : View} → Extends w₁ w₂ x y → Extends w₂ w₃ y z → Extends w₁ w₃ x z
  Extends-trans {w₁} {w₂} {w₃} {x} {y} {z} p q = record {
    old_height = λ u h. q.old_height u (same u h) ∙ p.old_height u h;
    old_prefix = λ u h. q.old_prefix u (same u h) ∙ p.old_prefix u h;
    kept = λ u j a b c d.
        q.kept u j (omega (arith, p.old_height u b)) (same u b) c (odd (p.kept u j a b c d) d)
        ∙ p.kept u j a b c d;
    off_way = λ u j a b ne.
        q.off_way u j (same u a) b (λ e. ne (cc (p.old_height u a, p.old_prefix u a, e)))
        ∙ p.off_way u j a b ne;
    empty = λ u j a b c ne. elim (dec_lt (y.height u) 4) [
      | yes lt ↦
          q.off_way u j lt c (λ e. ne (cc (q.old_height u lt, q.old_prefix u lt, e)))
          ∙ p.empty u j a lt c (λ e. ne (cc (q.old_height u lt, q.old_prefix u lt, e)))
      | no ge ↦ q.empty u j (omega arith) b c ne
    ];
    changed = λ u j a b c d. elim (q.changed u j a b c d) [
      | inl (lt, e) ↦ elim (p.changed u j (omega (arith, q.old_height u lt)) lt c (odd (sym e) d)) [
        | inl (lt', e') ↦ inl (lt', e ∙ e')
        | inr (table, new) ↦ inr (rw e (table, new))
      ]
      | inr (table, new) ↦ inr (table, older _ new)
    ];
  }
    where
      same : (u : ℕ) → x.height u < 4 → y.height u < 4
      same u h = omega (arith, p.old_height u h)

      older : (u : ℕ) → 4 ≤ y.height u → 4 ≤ x.height u
      older u h = elim (dec_lt (x.height u) 4) [
        | yes lt ↦ absurd (omega (arith, same u lt))
        | no ge ↦ omega arith
      ]

      odd : {a b : ℕ} → a ≡ b → b % 2 ≡ 1 → a % 2 ≡ 1
      odd e h = ap (λ t. t % 2) e ∙ h
