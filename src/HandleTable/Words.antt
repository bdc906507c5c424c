-- ===== src/HandleTable/Words.antt =====
-- A handle table is a list of words that grows at its end: a handle is an index into it, and an entry
-- that was removed is 0.
use z_os.Base.{
  get_elem?-map, get_elem?-ge, length-map, ℕ, ◌*◌, ◌^◌, ◌<◌, ◌≡◌, ◌≢◌, inl, inr, ap, ◌∙◌, List, map,
  length, get_elem?, none, some, true, pos, negsuc, arith,
}
use z_os.Memory.Bytes.{bytes, Apart}
use z_os.Memory.Word.{word, write_word, write_word-Apart}
use z_os.Kmalloc.{World}
use z_os.Vector.Items.{items-eq, length-items}
use z_os.Vector.Resize.{mul_mono}
use z_os.Vector.Push.{contents, IsVector}
use z_os.Vector.Update.{vector_get-contents}
use z_os.HandleTable.{HandleTable, out_of_table, handle_table_get}

-- The entries.
abbrev pub words : {H : Type 0} → HandleTable → World H → List ℕ
words t w = map word (contents t.handles w)

-- A table of 8-byte entries, few enough for the casts to int32_t.
module _ {H : Type 0} (Owned Block : H → ℕ → ℕ → Type 0) where
  pub record IsTable (t : HandleTable) (w : World H) : Type 0 where
    pub vector : IsVector Block t.handles w
    pub wide : t.handles.element_size ≡ 8
    pub few : t.handles.size < 2 ^ 31

  -- The local variable is the caller's, off the table's storage.
  pub record IsLocal (t : HandleTable) (local : ℕ) (w : World H) : Type 0 where
    pub owned : Owned w.heap local 8
    pub present : local ≢ 0
    pub off : Apart t.handles.storage (t.handles.capacity * t.handles.element_size) local 8

  module _ (t : HandleTable) (local value : ℕ) (w : World H) (l : IsLocal t local w)
      (valid : IsTable t w) where
    -- Writing the local variable changes no entry.
    pub put_words :
        contents t.handles (record w { mem = write_word w.mem local value }) ≡ contents t.handles w
    put_words =
        items-eq (write_word w.mem local value) w.mem t.handles.storage t.handles.storage
          t.handles.element_size t.handles.size
          λ i h.
            write_word-Apart w.mem local value t.handles.storage
              (t.handles.capacity * t.handles.element_size) i (omega (arith, l.off))
              (omega (
                arith,
                h,
                mul_mono t.handles.size t.handles.capacity t.handles.element_size
                    valid.vector.within,
              ))

    pub put-IsVector : IsVector Block t.handles (record w { mem = write_word w.mem local value })
    put-IsVector = record {
      block = valid.vector.block;
      within = valid.vector.within;
      room = valid.vector.room;
      fits = valid.vector.fits;
    }

pub length-words :
    {H : Type 0} (t : HandleTable) (w : World H) → length (words t w) ≡ t.handles.size
length-words t w =
    length-map word (contents t.handles w)
    ∙ length-items w.mem t.handles.storage t.handles.element_size t.handles.size

-- A lookup reads the list of entries; a negative handle finds nothing.
pub handle_table_get-words :
    {H : Type 0} {Owned Block : H → ℕ → ℕ → Type 0} (t : HandleTable) (w : World H) (i : ℕ)
    → IsTable Owned Block t w
    → (handle_table_get (some t) (pos i) true w ≡ get_elem? (words t w) i)
      × (handle_table_get (some t) (negsuc i) true w ≡ none)
unfolding handle_table_get out_of_table
handle_table_get-words t w i valid = (
  elim (vector_get-contents t.handles w i valid.vector) [
    | inl (h, (p, found, here)) ↦ ground (
      arith,
      get_elem?-map word (contents t.handles w) i here,
      found,
      ap (λ d. word (bytes w.mem p d)) valid.wide,
    )
    | inr (ge, found) ↦ ground (arith, found, get_elem?-ge (words t w) i, length-words t w)
  ],
  ground arith,
)
