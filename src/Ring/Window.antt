-- ===== src/Ring/Window.antt =====
-- The items of a ring of `n` slots, from slot `h` on, going round at the end.
use native.Mathlib.Nat.{mod-eq_of_lt, mod-eq-sub-mod, mod-add-mod, mod-lt, add-zero}
use native.Mathlib.Decide.{dec_lt}
use z_os.Base.{
  ℕ, zero, suc, ◌+◌, ◌-◌, ◌%◌, ◌<◌, ◌≤◌, ◌⊎◌, inl, inr, ◌≡◌, ◌≢◌, refl, sym, ap, ap₂, ◌∙◌, List, [],
  ◌∷◌, ◌++◌, arith, length,
}

abbrev pub window {ℓ} : {A : Type ℓ} → ℕ → (ℕ → A) → ℕ → ℕ → List A
window n slot h zero = []
window n slot h (suc k) = slot h ∷ window n slot ((h + 1) % n) k

-- Where fewer than `n` steps from `h` lead: on, or once round the end.
once_round : (n h k : ℕ) → h < n → k < n → ((h + k) % n ≡ h + k) ⊎ ((h + k) % n + n ≡ h + k)
once_round n h k hh hk =
    let past : n ≤ h + k → (h + k) % n ≡ h + k - n = λ q.
      mod-eq-sub-mod {n = h + k} {m = n} q ∙ mod-eq_of_lt {n = h + k - n} {m = n} (omega arith) in
    elim (dec_lt (h + k) n) [
      | yes p ↦ inl (mod-eq_of_lt p)
      | no q ↦ inr (omega (arith, past (omega arith)))
    ]

-- Fewer than `n` steps round the ring do not come back to the start.
pub add-mod-ne : (n h k : ℕ) → h < n → suc k < n → (h + suc k) % n ≢ h
add-mod-ne n h k hh hk = omega (arith, once_round n h (suc k) hh hk)

module _ {ℓ} {A : Type ℓ} (n : ℕ) where
  -- The code tests the count against 0.
  pub window_of_ne_zero :
      (slot : ℕ → A) (h k : ℕ)
      → k ≢ 0
      → window n slot h k ≡ slot h ∷ window n slot ((h + 1) % n) (k - 1)
  window_of_ne_zero slot h zero ne = absurd (ne refl)
  window_of_ne_zero slot h (suc k) ne =
      ap (λ j. slot h ∷ window n slot ((h + 1) % n) j) (omega arith)

  pub length-window : (slot : ℕ → A) (h k : ℕ) → length (window n slot h k) ≡ k
  length-window slot h zero = refl
  length-window slot h (suc k) = ap suc (length-window slot ((h + 1) % n) k)

  pub window_congr :
      (old new : ℕ → A) (h k : ℕ)
      → 0 < n
      → h < n
      → ((i : ℕ) → i < n → new i ≡ old i)
      → window n new h k ≡ window n old h k
  window_congr old new h zero hn hh same = refl
  window_congr old new h (suc k) hn hh same =
      ap₂ ◌∷◌ (same h hh) (window_congr old new ((h + 1) % n) k hn (mod-lt (h + 1) hn) same)

  -- Filling the slot behind a window appends it.
  pub window_extend :
      (old new : ℕ → A) (h k : ℕ)
      → h < n
      → k < n
      → ((i : ℕ) → i < n → i ≢ (h + k) % n → new i ≡ old i)
      → window n new h (suc k) ≡ window n old h k ++ (new ((h + k) % n) ∷ [])
  window_extend old new h zero hh hk same = ap (λ i. new i ∷ []) start
    where
      start : h ≡ (h + 0) % n
      start = rw add-zero (sym (mod-eq_of_lt hh))
  window_extend old new h (suc k) hh hk same =
      ap₂ ◌∷◌ (same h hh (λ e. add-mod-ne n h k hh hk (sym e))) (
        window_extend old new ((h + 1) % n) k (mod-lt (h + 1) (omega arith)) (omega arith)
          (λ i hi ne. same i hi (λ e. ne (e ∙ sym shift)))
        ∙ ap (λ i. window n old ((h + 1) % n) k ++ (new i ∷ [])) shift)
    where
      shift : ((h + 1) % n + k) % n ≡ (h + suc k) % n
      shift = mod-add-mod (h + 1) n k ∙ ap (λ t. t % n) (omega arith)
