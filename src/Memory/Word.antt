-- ===== src/Memory/Word.antt =====
-- A uint64_t in memory, its lowest byte first.
use z_os.Base.{
  ℕ, zero, suc, ◌+◌, ◌*◌, ◌/◌, ◌%◌, ◌^◌, ◌<◌, ◌≤◌, ◌≡◌, ◌⊎◌, refl, ap, ap₂, ◌∙◌, List, [], ◌∷◌,
  arith,
}
use z_os.Memory.{Mem, store}
use z_os.Memory.Bytes.{bytes, bytes-eq, Apart}

abbrev pub word : List ℕ → ℕ
word [] = 0
word (b ∷ bs) = b + 256 * word bs

-- The lowest `n` bytes of `v` at `p`.
unfoldable pub put : Mem → ℕ → ℕ → ℕ → Mem
put m p v zero = m
put m p v (suc n) = store (put m (p + 1) (v / 256) n) p (v % 256)

-- `*(uint64_t *)p`, read and written.
abbrev pub read_word : Mem → ℕ → ℕ
read_word m p = word (bytes m p 8)

abbrev pub write_word : Mem → ℕ → ℕ → Mem
write_word m p v = put m p v 8

put-bytes : (m : Mem) (p v n : ℕ) → v < 256 ^ n → word (bytes (put m p v n) p n) ≡ v
unfolding put
put-bytes m p v zero h = omega arith
put-bytes m p v (suc n) h =
    ap₂ (λ x y. x + 256 * y) {y = v % 256} (ground arith)
      (ap word (
          bytes-eq (put m p v (suc n)) (put m (p + 1) (v / 256) n) (p + 1) (p + 1) n
            (λ i l. ground arith))
        ∙ put-bytes m (p + 1) (v / 256) n (omega (arith, split n)))
    ∙ omega arith
  where
    split : (n : ℕ) → 256 ^ suc n ≡ 256 ^ n * 256
    split n = omega arith

put_off : (m : Mem) (p v n a : ℕ) → (a < p) ⊎ (p + n ≤ a) → put m p v n a ≡ m a
unfolding put
put_off m p v zero a h = refl
put_off m p v (suc n) a h = ground (arith, put_off m (p + 1) (v / 256) n a)

pub read-write_word : (m : Mem) (p v : ℕ) → v < 2 ^ 64 → read_word (write_word m p v) p ≡ v
read-write_word m p v h = put-bytes m p v 8 (omega arith)

pub write_word-Apart :
    (m : Mem) (p v q l i : ℕ) → Apart p 8 q l → i < l → write_word m p v (q + i) ≡ m (q + i)
write_word-Apart m p v q l i a h = put_off m p v 8 (q + i) (omega arith)
