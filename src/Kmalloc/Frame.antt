-- ===== src/Kmalloc/Frame.antt =====
-- What an operation leaves alone.
use z_os.Base.{ℕ, ◌+◌, ◌≤◌, ◌⊎◌, ◌∙◌, refl, arith}
use z_os.Memory.{memory_copy}
use z_os.Memory.Bytes.{Apart}
use z_os.Memory.Copy.{memory_copy_lem}
use z_os.Kmalloc.{World, Kmalloc, IsKmalloc, Same}

module _ {H : Type 0} (Owned Block : H → ℕ → ℕ → Type 0) where
  -- Everything apart from the `n` addresses from `p` on is as before.
  pub record Frame (p n : ℕ) (w w' : World H) : Type 0 where
    pub owned : (q l : ℕ) → Apart p n q l → Owned w.heap q l → Owned w'.heap q l
    pub block : (q l : ℕ) → Apart p n q l → Block w.heap q l → Block w'.heap q l
    pub same : (q l : ℕ) → Apart p n q l → Owned w.heap q l → Same w w' q l

  pub Frame-trans : {p n : ℕ} {u v w : World H} → Frame p n u v → Frame p n v w → Frame p n u w
  Frame-trans f g = record {
    owned = λ q l a o. g.owned q l a (f.owned q l a o);
    block = λ q l a o. g.block q l a (f.block q l a o);
    same = λ q l a o i h. g.same q l a (f.owned q l a o) i h ∙ f.same q l a o i h;
  }

  -- A frame round less is one round more.
  pub Frame-widen :
      {p n : ℕ} {q l : ℕ} {w w' : World H}
      → ((r k : ℕ) → Apart q l r k → Apart p n r k)
      → Frame p n w w'
      → Frame q l w w'
  Frame-widen wide f = record {
    owned = λ r k a. f.owned r k (wide r k a);
    block = λ r k a. f.block r k (wide r k a);
    same = λ r k a. f.same r k (wide r k a);
  }

  pub Frame-refl : (p n : ℕ) (w : World H) → Frame p n w w
  Frame-refl p n w = record {
    owned = λ q l a o. o;
    block = λ q l a o. o;
    same = λ q l a o i h. refl;
  }

  -- A copy changes its target only.
  pub Frame-copy :
      (d s n : ℕ) (w : World H)
      → (d ≤ s) ⊎ (s + n ≤ d)
      → Frame d n w (record w { mem = memory_copy w.mem d s n })
  Frame-copy d s n w dir = record {
    owned = λ q l a o. o;
    block = λ q l a o. o;
    same = λ q l a o i h. ground (arith, memory_copy_lem w.mem d s n (q + i) dir);
  }

module _ {H : Type 0} {k : Kmalloc H} {Owned Block : H → ℕ → ℕ → Type 0}
    (law : IsKmalloc k Owned Block) where
  open k use {kmalloc, kfree}

  pub Frame-kmalloc : (p n size : ℕ) (w : World H) → Frame Owned Block p n w (kmalloc size w).1
  Frame-kmalloc p n size w = record {
    owned = λ q l a o. law.kept size w q l o;
    block = λ q l a o. law.kept_block size w q l o;
    same = λ q l a o. law.same size w q l o;
  }

  pub Frame-kfree : (p n : ℕ) (w : World H) → Block w.heap p n → Frame Owned Block p n w (kfree p w)
  Frame-kfree p n w b = record {
    owned = λ q l a o. law.freed w p n q l b o a;
    block = λ q l a o. law.freed_block w p n q l b o a;
    same = λ q l a o. law.freed_same w p n q l b o a;
  }

  -- A second operation that stays off what was owned before the first.
  pub Frame-then :
      {p n : ℕ} {q l : ℕ} {u v w : World H}
      → Frame Owned Block p n u v
      → ((r j : ℕ) → Apart p n r j → Owned u.heap r j → Apart q l r j)
      → Frame Owned Block q l v w
      → Frame Owned Block p n u w
  Frame-then f off g = record {
    owned = λ r j a o. g.owned r j (off r j a o) (f.owned r j a o);
    block = λ r j a b. g.block r j (off r j a (law.owns _ _ _ b)) (f.block r j a b);
    same = λ r j a o i h. g.same r j (off r j a o) (f.owned r j a o) i h ∙ f.same r j a o i h;
  }
