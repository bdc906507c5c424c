-- ===== src/Base/Update.antt =====
-- A function from addresses, changed at one.
use Prim.Native.Nat.{ℕ}
use mathlib.Core.Logic.{◌≢◌}
use mathlib.Core.Path.{◌≡◌, refl}
use z_os.Base.Tests.{◌==◌, ==-false, ==-true, if◌then◌else◌}

abbrev pub update {ℓ} : {A : Type ℓ} → (ℕ → A) → ℕ → A → ℕ → A
update f p a q = if q == p then a else f q

pub update_self {ℓ} : {A : Type ℓ} (f : ℕ → A) (o : ℕ) (v : A) → update f o v o ≡ v
update_self f o v = rw (==-true o o refl) refl

pub update_other {ℓ} : {A : Type ℓ} (f : ℕ → A) (p q : ℕ) (v : A) → q ≢ p → update f p v q ≡ f q
update_other f p q v n = rw (==-false q p n) refl
