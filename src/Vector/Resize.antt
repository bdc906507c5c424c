-- ===== src/Vector/Resize.antt =====
-- Moving a vector to new storage keeps its elements.
use native.Mathlib.Nat.{mod-eq_of_lt}
use z_os.Base.{
  ℕ, ◌+◌, ◌*◌, ◌^◌, ◌≤◌, ◌<◌, ◌≡◌, ◌≢◌, ◌⊎◌, inl, inr, refl, ◌∙◌, ok, fail, mul64, arith,
}
use native.Mathlib.Decide.{ℕ_discrete}
use z_os.Memory.{memory_copy}
use z_os.Memory.Bytes.{Apart}
use z_os.Memory.Copy.{memory_copy_lem}
use z_os.Kmalloc.{World, Kmalloc, IsKmalloc}
use z_os.Kmalloc.Frame.{Frame, Frame-trans, Frame-kmalloc, Frame-kfree}
use z_os.Vector.{Vector, move_storage}
use z_os.Vector.Items.{items, items-eq}

pub mul64_lem : (a b : ℕ) → a * b < 2 ^ 64 → mul64 a b ≡ a * b
mul64_lem a b h = mod-eq_of_lt h

pub mul_mono : (a b c : ℕ) → a ≤ b → a * c ≤ b * c
mul_mono a b c h = grind arith

module _ {H : Type 0} {k : Kmalloc H} {Owned Block : H → ℕ → ℕ → Type 0}
    (law : IsKmalloc k Owned Block) where
  open k use {kmalloc, kfree}

  -- The `old` bytes of the vector's storage were given up for new storage.
  pub record Moved (old : ℕ) (v : Vector) (w : World H) (v' : Vector) (w' : World H) : Type 0 where
    pub frame : Frame Owned Block v.storage old w w'
    pub block : Block w'.heap v'.storage (v.capacity * v.element_size)
    pub fields : v' ≡ record v { storage = v'.storage }
    pub off : (q l : ℕ) → Owned w.heap q l → Apart v'.storage (v.capacity * v.element_size) q l
    pub elements :
        items w'.mem v'.storage v.element_size v.size ≡ items w.mem v.storage v.element_size v.size

  module _ (old : ℕ) (v : Vector) (w : World H) (block : Block w.heap v.storage old)
      (held : v.size * v.element_size ≤ old) (within : v.size ≤ v.capacity)
      (fits : v.capacity * v.element_size < 2 ^ 64) where
    total : ℕ
    total = v.capacity * v.element_size

    used_fits : v.size * v.element_size ≤ v.capacity * v.element_size
    used_fits = mul_mono v.size v.capacity v.element_size within

    abbrev given : ℕ × World H
    given = kmalloc (v.capacity * v.element_size) w

    abbrev copied : World H
    copied = record given.1 {
      mem = memory_copy given.1.mem given.0 v.storage (v.size * v.element_size);
    }

    module _ (got : given.0 ≢ 0) where
      apart : Apart given.0 (v.capacity * v.element_size) v.storage old
      apart = law.apart (v.capacity * v.element_size) w v.storage old got (law.owns _ _ _ block)

      direction : (given.0 ≤ v.storage) ⊎ (v.storage + v.size * v.element_size ≤ given.0)
      direction = omega (arith, apart, used_fits)

      -- The copy writes into the new block only, which is apart from all that was owned.
      copied-Frame : Frame Owned Block v.storage old w copied
      copied-Frame = record {
        owned = λ q l a o. law.kept (v.capacity * v.element_size) w q l o;
        block = λ q l a o. law.kept_block (v.capacity * v.element_size) w q l o;
        same = λ q l a o i h.
            ground (
              arith,
              used_fits,
              law.apart (v.capacity * v.element_size) w q l got o,
              memory_copy_lem given.1.mem given.0 v.storage (v.size * v.element_size) (q + i)
                  direction,
            )
            ∙ law.same (v.capacity * v.element_size) w q l o i h;
      }

      copied_items :
          items copied.mem given.0 v.element_size v.size
          ≡ items w.mem v.storage v.element_size v.size
      copied_items = items-eq copied.mem w.mem given.0 v.storage v.element_size v.size λ i h.
          ground (
            arith,
            memory_copy_lem given.1.mem given.0 v.storage (v.size * v.element_size) (given.0 + i)
                direction,
          )
          ∙ law.same (v.capacity * v.element_size) w v.storage old (law.owns _ _ _ block) i
              (omega (arith, held))

      after : World H
      after = kfree v.storage copied

      block_kept : Block copied.heap v.storage old
      block_kept = law.kept_block (v.capacity * v.element_size) w v.storage old block

      new_block : Block copied.heap given.0 (v.capacity * v.element_size)
      new_block = law.fresh (v.capacity * v.element_size) w got

      new_apart : Apart v.storage old given.0 (v.capacity * v.element_size)
      new_apart = omega (arith, apart)

      moved : Moved old v w (record v { storage = given.0 }) after
      unfolding after
      moved = record {
        frame =
            Frame-trans Owned Block copied-Frame (Frame-kfree law v.storage old copied block_kept);
        block =
            law.freed_block copied v.storage old given.0 (v.capacity * v.element_size) block_kept
              new_block new_apart;
        fields = refl;
        off = λ q l o. law.apart (v.capacity * v.element_size) w q l got o;
        elements =
            items-eq after.mem copied.mem given.0 given.0 v.element_size v.size (λ i h.
              law.freed_same copied v.storage old given.0 (v.capacity * v.element_size) block_kept
                (law.owns _ _ _ new_block) new_apart i (omega (arith, used_fits)))
            ∙ copied_items;
      }

    -- New storage is found, or there is none and nothing changes.
    pub move_storage-Moved :
        ((v' : Vector) × (w' : World H) × (move_storage k v w ≡ (ok, v', w')) × Moved old v w v' w')
        ⊎ ((w' : World H) × ((kmalloc (v.capacity * v.element_size) w).0 ≡ 0)
            × (move_storage k v w ≡ (fail, v, w'))
            × ((p n : ℕ) → Frame Owned Block p n w w'))
    unfolding move_storage after
    move_storage-Moved = elim (ℕ_discrete given.0 0) [
      | yes z ↦ inr (
        given.1,
        z,
        rw
            (
              mul64_lem v.capacity v.element_size fits,
              mul64_lem v.size v.element_size (omega (arith, used_fits)),
            )
            (ground arith),
        λ p n. Frame-kmalloc law p n (v.capacity * v.element_size) w,
      )
      | no got ↦ inl (
        record v { storage = given.0 },
        after got,
        rw
            (
              mul64_lem v.capacity v.element_size fits,
              mul64_lem v.size v.element_size (omega (arith, used_fits)),
            )
            (ground arith),
        moved got,
      )
    ]
