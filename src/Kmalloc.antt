-- ===== src/Kmalloc.antt =====
-- What the containers ask of kmalloc and kfree (kernel/kmalloc.c): an interface, with the allocator
-- behind it as a parameter. `H` is what the allocator keeps besides memory.
pub mod Frame
pub mod Sample
use z_os.Base.{ℕ, ◌+◌, ◌^◌, ◌≤◌, ◌<◌, ◌≡◌, ◌≢◌}
use z_os.Memory.{Mem}
use z_os.Memory.Bytes.{Apart}

-- The memory and the allocator.
pub record World (H : Type 0) : Type 0 where
  pub mem : Mem
  pub heap : H

-- `kmalloc` gives an address, 0 for NULL.
pub record Kmalloc (H : Type 0) : Type 0 where
  pub kmalloc : ℕ → World H → ℕ × World H
  pub kfree : ℕ → World H → World H

-- The `n` addresses from `p` on hold the same bytes.
abbrev pub Same : {H : Type 0} → World H → World H → ℕ → ℕ → Type 0
Same w w' p n = (i : ℕ) → i < n → w'.mem (p + i) ≡ w.mem (p + i)

-- `Owned h p n` says that the allocator leaves the `n` bytes from `p` on alone: they are a block
-- that it gave and that was not freed, or memory that is not the allocator's, such as a stack.
-- `Block h p n` says the first of these.
pub record IsKmalloc {H : Type 0} (k : Kmalloc H) (Owned Block : H → ℕ → ℕ → Type 0) : Type 0 where
  pub owns : (h : H) (p n : ℕ) → Block h p n → Owned h p n
  pub not_null : (h : H) (p n : ℕ) → Block h p n → p ≢ 0
  pub kept : (n : ℕ) (w : World H) (q l : ℕ) → Owned w.heap q l → Owned (k.kmalloc n w).1.heap q l
  pub kept_block :
      (n : ℕ) (w : World H) (q l : ℕ) → Block w.heap q l → Block (k.kmalloc n w).1.heap q l
  pub same : (n : ℕ) (w : World H) (q l : ℕ) → Owned w.heap q l → Same w (k.kmalloc n w).1 q l
  pub fresh :
      (n : ℕ) (w : World H)
      → (k.kmalloc n w).0 ≢ 0
      → Block (k.kmalloc n w).1.heap (k.kmalloc n w).0 n
  pub apart :
      (n : ℕ) (w : World H) (q l : ℕ)
      → (k.kmalloc n w).0 ≢ 0
      → Owned w.heap q l
      → Apart (k.kmalloc n w).0 n q l
  pub freed :
      (w : World H) (p n q l : ℕ)
      → Block w.heap p n
      → Owned w.heap q l
      → Apart p n q l
      → Owned (k.kfree p w).heap q l
  pub freed_block :
      (w : World H) (p n q l : ℕ)
      → Block w.heap p n
      → Block w.heap q l
      → Apart p n q l
      → Block (k.kfree p w).heap q l
  pub freed_same :
      (w : World H) (p n q l : ℕ)
      → Block w.heap p n
      → Owned w.heap q l
      → Apart p n q l
      → Same w (k.kfree p w) q l
