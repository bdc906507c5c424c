-- ===== src/Ring/Queue.antt =====
-- The contract of a ring buffer: a first-in first-out queue of at most `capacity` items.
use z_os.Base.{ℕ, Option, none, some, List, [], ◌∷◌, ◌++◌, length, ◌==◌, if◌then◌else◌}

unfoldable pub push {ℓ} : {A : Type ℓ} → ℕ → List A → A → Option (List A)
push capacity q x = if length q == capacity then none else some (q ++ (x ∷ []))

unfoldable pub pop {ℓ} : {A : Type ℓ} → List A → Option (A × List A)
pop [] = none
pop (x ∷ q) = some (x, q)
