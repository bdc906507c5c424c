-- ===== src/Vector/Push.antt =====
-- vector_push_back appends an element, growing the storage where it is full.
use native.Mathlib.Decide.{dec_lt}
use native.Mathlib.Nat.{mod-eq_of_lt}
use z_os.Base.{
  leb-true, ==-false, ℕ, suc, ◌+◌, ◌*◌, ◌^◌, ◌≤◌, ◌<◌, ◌≡◌, ◌≢◌, ◌⊎◌, inl, inr, refl, ap, ap₂, ◌∙◌,
  List, [], ◌∷◌, ◌++◌, Option, some, Status, ok, fail, arith,
}
use z_os.Memory.{memory_copy}
use z_os.Memory.Copy.{memory_copy_lem}
use z_os.Memory.Bytes.{bytes, bytes-eq, bytes-copy_target, Apart}
use z_os.Kmalloc.{World, Kmalloc, IsKmalloc}
use z_os.Kmalloc.Frame.{Frame, Frame-then, Frame-copy, Frame-widen}
use z_os.Vector.{Vector, element, append, expand_capacity, vector_push_back}
use z_os.Vector.Items.{items, items-eq, items-snoc, suc-mul}
use z_os.Vector.Resize.{mul64_lem, mul_mono, Moved, move_storage-Moved}
use z_os.Vector.{move_storage}

-- The elements.
abbrev pub contents : {H : Type 0} → Vector → World H → List (List ℕ)
contents v w = items w.mem v.storage v.element_size v.size

module _ {H : Type 0} (Block : H → ℕ → ℕ → Type 0) where
  pub record IsVector (v : Vector) (w : World H) : Type 0 where
    pub block : Block w.heap v.storage (v.capacity * v.element_size)
    pub within : v.size ≤ v.capacity
    pub room : 0 < v.capacity
    pub fits : v.capacity * v.element_size < 2 ^ 64

-- Element `i` of `n` ends within the whole.
pub element-le : (i n d : ℕ) → i < n → i * d + d ≤ n * d
element-le i n d h = omega (arith, suc-mul i d, mul_mono (suc i) n d (omega arith))

module _ {H : Type 0} (k : Kmalloc H) (Owned Block : H → ℕ → ℕ → Type 0) (v : Vector) (w : World H)
    (valid : IsVector Block v w) (source : ℕ)
    (off : Apart v.storage (v.capacity * v.element_size) source v.element_size) where
  -- Writing the element at `index` of the storage.
  module _ (index : ℕ) (inside : index < v.capacity) where
    pub element_lem : element v index ≡ v.storage + index * v.element_size
    element_lem =
        ap (λ x. v.storage + x)
          (mul64_lem index v.element_size
            (omega (arith, valid.fits, element-le index v.capacity v.element_size inside)))

    abbrev pub written : World H
    written = record w {
      mem = memory_copy w.mem (v.storage + index * v.element_size) source v.element_size;
    }

    pub direction :
        (v.storage + index * v.element_size ≤ source)
        ⊎ (source + v.element_size ≤ v.storage + index * v.element_size)
    direction = omega (arith, off, element-le index v.capacity v.element_size inside)

    pub written-Frame : Frame Owned Block v.storage (v.capacity * v.element_size) w written
    written-Frame =
        Frame-widen Owned Block
          (λ r j a. omega (arith, a, element-le index v.capacity v.element_size inside))
          (Frame-copy Owned Block (v.storage + index * v.element_size) source v.element_size w
            direction)

    pub written_here :
        bytes written.mem (v.storage + index * v.element_size) v.element_size
        ≡ bytes w.mem source v.element_size
    written_here =
        bytes-copy_target w.mem (v.storage + index * v.element_size) source v.element_size direction

module _ {H : Type 0} {k : Kmalloc H} {Owned Block : H → ℕ → ℕ → Type 0}
    (law : IsKmalloc k Owned Block) where
  -- The element at `source` stands behind the others, and nothing but the storage has changed.
  pub record Pushed (v : Vector) (w : World H) (source : ℕ) (v' : Vector) (w' : World H)
      : Type 0 where
    pub valid : IsVector Block v' w'
    pub size : v'.size ≡ suc v.size
    pub same_element_size : v'.element_size ≡ v.element_size
    pub frame : Frame Owned Block v.storage (v.capacity * v.element_size) w w'
    pub elements : contents v' w' ≡ contents v w ++ (bytes w.mem source v.element_size ∷ [])

  module _ (v : Vector) (w : World H) (valid : IsVector Block v w) (source : ℕ)
      (off : Apart v.storage (v.capacity * v.element_size) source v.element_size) where
    module _ (less : v.size < v.capacity) where
      -- There is room for one more.
      abbrev grown : World H
      grown = written k Owned Block v w valid source off v.size less

      grown-Frame : Frame Owned Block v.storage (v.capacity * v.element_size) w grown
      grown-Frame = written-Frame k Owned Block v w valid source off v.size less

      others : items grown.mem v.storage v.element_size v.size ≡ contents v w
      others = items-eq grown.mem w.mem v.storage v.storage v.element_size v.size λ i h. ground (
        arith,
        memory_copy_lem w.mem (v.storage + v.size * v.element_size) source v.element_size
            (v.storage + i) (direction k Owned Block v w valid source off v.size less),
      )

      appended : append k source (ok, v, w) ≡ (ok, record v { size = v.size + 1 }, grown)
      unfolding append
      appended = rw (element_lem k Owned Block v w valid source off v.size less) refl

      appended-Pushed : Pushed v w source (record v { size = v.size + 1 }) grown
      appended-Pushed = record {
        valid = record {
          block = valid.block;
          within = omega arith;
          room = valid.room;
          fits = valid.fits;
        };
        size = omega arith;
        same_element_size = refl;
        frame = grown-Frame;
        elements =
            ap (items grown.mem v.storage v.element_size) {y = suc v.size} (omega arith)
            ∙ items-snoc grown.mem v.storage v.element_size v.size
            ∙ ap₂ (λ xs x. xs ++ (x ∷ [])) others
                (written_here k Owned Block v w valid source off v.size less);
      }

  -- After a move to storage of twice the capacity.
  module _ (v : Vector) (w : World H) (valid : IsVector Block v w) (source : ℕ)
      (off : Apart v.storage (v.capacity * v.element_size) source v.element_size)
      (owned : Owned w.heap source v.element_size)
      (small : v.capacity * 2 * v.element_size < 2 ^ 64) (v₁ : Vector) (w₁ : World H)
      (m : Moved law
        (v.capacity * v.element_size)
        (record v { capacity = v.capacity * 2 })
        w
        v₁
        w₁) where
    abbrev moved_storage : Vector
    moved_storage = record v { capacity = v.capacity * 2; storage = v₁.storage }

    moved-IsVector : IsVector Block moved_storage w₁
    moved-IsVector = record {
      block = m.block;
      within = omega (arith, valid.within);
      room = omega (arith, valid.room);
      fits = small;
    }

    moved_off : Apart v₁.storage (v.capacity * 2 * v.element_size) source v.element_size
    moved_off = m.off source v.element_size owned

    moved_less : v.size < v.capacity * 2
    moved_less = omega (arith, valid.within, valid.room)

    abbrev pushed_on : World H
    pushed_on =
        written k Owned Block moved_storage w₁ moved-IsVector source moved_off v.size moved_less

    moved-Pushed : Pushed v w source (record moved_storage { size = v.size + 1 }) pushed_on
    moved-Pushed =
        let p = appended-Pushed moved_storage w₁ moved-IsVector source moved_off moved_less in
        record {
          valid = p.valid;
          size = p.size;
          same_element_size = refl;
          frame = Frame-then law m.frame (λ r j _ o. m.off r j o) p.frame;
          elements =
              p.elements
              ∙ ap₂ (λ xs x. xs ++ (x ∷ [])) m.elements
                  (bytes-eq w₁.mem w.mem source source v.element_size
                    (λ i h. m.frame.same source v.element_size off owned i h));
        }

  abbrev with_vector : Status × Vector × World H → Status × Option Vector × World H
  with_vector (status, v, w) = (status, some v, w)

  -- On a full vector the storage is grown first.
  push_full :
      (v : Vector) (w : World H) (source : ℕ)
      → source ≢ 0
      → v.capacity ≤ v.size
      → v.capacity * 2 < 2 ^ 64
      → vector_push_back k (some v) source w
        ≡ with_vector (append k source (move_storage k (record v { capacity = v.capacity * 2 }) w))
  unfolding vector_push_back expand_capacity
  push_full v w source present full few =
      rw (mod-eq_of_lt few, leb-true v.capacity v.size full, ==-false source 0 present) refl

  -- On a valid vector whose doubled storage would fit into 64 bits, with an owned element off its
  -- storage, and with an allocator that keeps its contract, vector_push_back puts the element
  -- behind the others and changes nothing but the storage; or the vector is full, kmalloc gives
  -- NULL for the doubled storage, and the call reports -1 and leaves the vector with twice the
  -- capacity over the same storage.
  pub vector_push_back-Pushed :
      (v : Vector) (w : World H) (source : ℕ)
      → IsVector Block v w
      → source ≢ 0
      → Owned w.heap source v.element_size
      → Apart v.storage (v.capacity * v.element_size) source v.element_size
      → v.capacity * 2 * v.element_size < 2 ^ 64
      → v.capacity * 2 < 2 ^ 64
      → ((v' : Vector) × (w' : World H) × (vector_push_back k (some v) source w ≡ (ok, some v', w'))
          × Pushed v w source v' w')
        ⊎ ((w' : World H) × (v.size ≡ v.capacity)
            × ((k.kmalloc (v.capacity * 2 * v.element_size) w).0 ≡ 0)
            × (vector_push_back k (some v) source w
                ≡ (fail, some (record v { capacity = v.capacity * 2 }), w'))
            × ((p n : ℕ) → Frame Owned Block p n w w'))
  unfolding vector_push_back append
  vector_push_back-Pushed v w source valid present owned off small few =
      elim (dec_lt v.size v.capacity) [
        | yes less ↦ inl (
          record v { size = v.size + 1 },
          grown v w valid source off less,
          ground (arith, appended v w valid source off less),
          appended-Pushed v w valid source off less,
        )
        | no full ↦
            elim (move_storage-Moved law (v.capacity * v.element_size)
              (record v { capacity = v.capacity * 2 }) w valid.block
              (mul_mono v.size v.capacity v.element_size valid.within) (omega (arith, valid.within))
              small) [
                | inl (v₁, w₁, moved, m) ↦ inl (
                  record (moved_storage v w valid source off owned small v₁ w₁ m) {
                    size = v.size + 1;
                  },
                  pushed_on v w valid source off owned small v₁ w₁ m,
                  push_full v w source present (omega arith) few
                      ∙ ap (λ r. with_vector (append k source r)) moved
                      ∙ ap (λ x. with_vector (append k source (ok, x, w₁))) m.fields
                      ∙ ap with_vector (
                          appended (moved_storage v w valid source off owned small v₁ w₁ m) w₁
                            (moved-IsVector v w valid source off owned small v₁ w₁ m) source
                            (moved_off v w valid source off owned small v₁ w₁ m)
                            (moved_less v w valid source off owned small v₁ w₁ m)),
                  moved-Pushed v w valid source off owned small v₁ w₁ m,
                )
                | inr (w₁, no_memory, none_left, frame) ↦ inr (
                  w₁,
                  omega (arith, valid.within),
                  no_memory,
                  push_full v w source present (omega arith) few
                      ∙ ap (λ r. with_vector (append k source r)) none_left,
                  frame,
                )
              ]
      ]
