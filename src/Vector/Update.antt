-- ===== src/Vector/Update.antt =====
-- vector_set replaces an element, vector_get finds one, vector_pop_back takes the last.
use native.Mathlib.Decide.{dec_lt}
use z_os.Base.{
  ℕ, ◌+◌, ◌*◌, ◌≤◌, ◌<◌, ◌≡◌, ◌≢◌, ◌⊎◌, inl, inr, ap, ◌∙◌, none, some, ok, fail, true, set,
  get_elem?, arith,
}
use z_os.Memory.Bytes.{bytes, Apart}
use z_os.Memory.Copy.{memory_copy_lem}
use z_os.Kmalloc.{World, Kmalloc}
use z_os.Kmalloc.Frame.{Frame}
use z_os.Vector.{Vector, element, vector_set, vector_get}
use z_os.Vector.Items.{items-set, get_elem?-items}
use z_os.Vector.Resize.{mul64_lem}
use z_os.Vector.Push.{
  contents, IsVector, element-le, element_lem, written, written-Frame, written_here, direction,
}

module _ {H : Type 0} (k : Kmalloc H) (Owned Block : H → ℕ → ℕ → Type 0) (v : Vector) (w : World H)
    (valid : IsVector Block v w) (source : ℕ)
    (off : Apart v.storage (v.capacity * v.element_size) source v.element_size) where
  -- The element at `index` is replaced, and nothing but the storage has changed.
  pub record Replaced (index : ℕ) (w' : World H) : Type 0 where
    pub valid' : IsVector Block v w'
    pub frame : Frame Owned Block v.storage (v.capacity * v.element_size) w w'
    pub elements : contents v w' ≡ set (contents v w) index (bytes w.mem source v.element_size)

  written-Replaced :
      (index : ℕ) (inside : index < v.capacity)
      → index < v.size
      → Replaced index (written k Owned Block v w valid source off index inside)
  written-Replaced index inside h = record {
    valid' = record {
      block = valid.block;
      within = valid.within;
      room = valid.room;
      fits = valid.fits;
    };
    frame = written-Frame k Owned Block v w valid source off index inside;
    elements =
        items-set w.mem (written k Owned Block v w valid source off index inside).mem v.storage
          v.element_size v.size index h
          (λ j l o. ground (
            arith,
            memory_copy_lem w.mem (v.storage + index * v.element_size) source v.element_size
                (v.storage + j) (direction k Owned Block v w valid source off index inside),
          ))
        ∙ ap (set (contents v w) index)
            (written_here k Owned Block v w valid source off index inside);
  }

  pub vector_set-Replaced :
      (index : ℕ)
      → source ≢ 0
      → ((index < v.size)
          × ((w' : World H) × (vector_set k (some v) index source w ≡ (ok, w'))
              × Replaced index w'))
        ⊎ ((v.size ≤ index) × (vector_set k (some v) index source w ≡ (fail, w)))
  unfolding vector_set
  vector_set-Replaced index present = elim (dec_lt index v.size) [
    | yes h ↦
        let inside : index < v.capacity = omega (arith, valid.within) in
        inl (
          h,
          (
            written k Owned Block v w valid source off index inside,
            ground (arith, element_lem k Owned Block v w valid source off index inside),
            written-Replaced index inside h,
          ),
        )
    | no ge ↦ inr (omega arith, ground arith)
  ]

-- The address that vector_get gives holds the element at the index, and there is one exactly within
-- the size.
pub vector_get-contents :
    {H : Type 0} {Block : H → ℕ → ℕ → Type 0} (v : Vector) (w : World H) (index : ℕ)
    → IsVector Block v w
    → ((index < v.size)
        × ((p : ℕ) × (vector_get (some v) index true ≡ some p)
            × (get_elem? (contents v w) index ≡ some (bytes w.mem p v.element_size))))
      ⊎ ((v.size ≤ index) × (vector_get (some v) index true ≡ none))
unfolding vector_get
vector_get-contents v w index valid = elim (dec_lt index v.size) [
  | yes h ↦
      let address : element v index ≡ v.storage + index * v.element_size =
        ap (λ x. v.storage + x)
          (mul64_lem index v.element_size (
            omega (
              arith,
              valid.fits,
              element-le index v.capacity v.element_size (omega (arith, valid.within)),
            ))) in
      inl (
        h,
        (
          v.storage + index * v.element_size,
          ground (arith, address),
          get_elem?-items w.mem v.storage v.element_size v.size index h,
        ),
      )
  | no ge ↦ inr (omega arith, ground arith)
]
