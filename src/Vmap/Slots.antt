-- ===== src/Vmap/Slots.antt =====
-- Words of tables at different places.
use z_os.Base.{ℕ, ◌+◌, ◌*◌, ◌≤◌, ◌<◌, ◌≡◌, ◌≢◌, ◌⊎◌, arith}
use z_os.Vmap.{Words, write}
use z_os.Vmap.Fields.{IsPage}

pub write_self : (w : Words) (a x b : ℕ) → b ≡ a → write w a x b ≡ x
write_self w a x b e = ground arith

pub write_ne : (w : Words) (a x b : ℕ) → b ≢ a → write w a x b ≡ w b
write_ne w a x b ne = ground arith

module _ (base : ℕ) {t u : ℕ} (p : IsPage t) (q : IsPage u) where
  pub slots_ne_page : (i j : ℕ) → i < 512 → j < 512 → u ≢ t → base + u + 8 * i ≢ base + t + 8 * j
  slots_ne_page i j hi hj ne = omega arith

  pub slot_outside :
      (i : ℕ)
      → i < 512
      → u ≢ t
      → (base + u + 8 * i < base + t) ⊎ (base + t + 4096 ≤ base + u + 8 * i)
  slot_outside i hi ne = omega arith

pub slots_ne_index : (base t i j : ℕ) → i ≢ j → base + t + 8 * i ≢ base + t + 8 * j
slots_ne_index base t i j ne = omega arith
