-- ===== src/HandleTable/Insert.antt =====
-- Inserting gives the next handle; removing and setting change one entry.
use mathlib.Core.List.{map-append}
use z_os.Base.{
  ℤ, Option, map-set, get_elem?-append_right, get_elem?-append_left, get_elem?-set_self,
  get_elem?-set_ne, ℕ, suc, ◌+◌, ◌*◌, ◌^◌, ◌≤◌, ◌<◌, ◌≡◌, ◌≢◌, ◌⊎◌, inl, inr, refl, subst, sym, ap,
  ap₂, ◌∙◌, [], ◌∷◌, ◌++◌, map, set, get_elem?, none, some, Status, ok, fail, true, pos, ==-false,
  arith,
}
use z_os.Memory.Bytes.{bytes, Apart}
use z_os.Memory.Word.{word, write_word, read-write_word}
use z_os.Kmalloc.{World, Kmalloc, IsKmalloc}
use z_os.Vector.{Vector, vector_push_back, vector_set}
use z_os.Vector.Push.{contents, Pushed, vector_push_back-Pushed}
use z_os.Vector.Update.{Replaced, vector_set-Replaced}
use z_os.HandleTable.{
  HandleTable, inserted, out_of_table, handle_table_insert, handle_table_set, handle_table_remove,
  handle_table_get,
}
use z_os.HandleTable.Words.{
  words, length-words, IsTable, IsLocal, put_words, put-IsVector, handle_table_get-words,
}

none-some : (handle : ℤ) → ¬ (none ≡ some handle)
none-some handle e = cc

module _ {H : Type 0} {k : Kmalloc H} {Owned Block : H → ℕ → ℕ → Type 0}
    (law : IsKmalloc k Owned Block) where
  module _ (t : HandleTable) (local value : ℕ) (w : World H) (valid : IsTable Owned Block t w)
      (l : IsLocal Owned Block t local w) where
    abbrev before : World H
    before = record w { mem = write_word w.mem local value }

    local_word : value < 2 ^ 64 → word (bytes before.mem local t.handles.element_size) ≡ value
    local_word h =
        ap (λ d. word (bytes before.mem local d)) valid.wide ∙ read-write_word w.mem local value h

    local_owned : Owned before.heap local t.handles.element_size
    local_owned = rw valid.wide l.owned

    local_off :
        Apart t.handles.storage
          (t.handles.capacity * t.handles.element_size)
          local
          t.handles.element_size
    local_off = omega (arith, l.off, valid.wide)

    -- What an insertion leaves.
    pub record Inserted (t' : HandleTable) (w' : World H) : Type 0 where
      pub valid' : IsTable Owned Block t' w'
      pub entries : words t' w' ≡ words t w ++ (value ∷ [])

    Pushed-Inserted :
        value < 2 ^ 64
        → t.handles.size + 1 < 2 ^ 31
        → (v' : Vector) (w' : World H) → Pushed law t.handles before local v' w'
        → Inserted (record { handles = v' }) w'
    Pushed-Inserted h few v' w' p = record {
      valid' = record {
        vector = p.valid;
        wide = p.same_element_size ∙ valid.wide;
        few = omega (arith, p.size);
      };
      entries =
          ap (map word) p.elements
          ∙ map-append word (contents t.handles before)
              (bytes before.mem local t.handles.element_size ∷ [])
          ∙ ap₂ (λ xs x. map word xs ++ (x ∷ [])) (put_words Owned Block t local value w l valid)
              (local_word h);
    }

    insert_call :
        value ≢ 0
        → handle_table_insert k (some t) value true local w
          ≡ inserted k (vector_push_back k (some t.handles) local before)
    unfolding handle_table_insert
    insert_call h = rw (==-false value 0 h) refl

    last_handle :
        (v' : Vector) (w' : World H)
        → t.handles.size + 1 < 2 ^ 31
        → v'.size ≡ suc t.handles.size
        → inserted k (ok, some v', w')
          ≡ (some (pos t.handles.size), some (record { handles = v' }), w')
    last_handle v' w' few e = ground arith

    -- On a valid table with fewer than 2^31 - 1 entries whose doubled storage would fit into 64
    -- bits, with a local variable off its storage, and with an allocator that keeps its contract,
    -- inserting a pointer of 64 bits that is not NULL gives the number of entries as its handle
    -- and puts the pointer behind them; or the table is full, kmalloc gives NULL for the doubled
    -- storage, and the call fails.
    pub handle_table_insert-Inserted :
        value ≢ 0
        → value < 2 ^ 64
        → t.handles.size + 1 < 2 ^ 31
        → t.handles.capacity * 2 * 8 < 2 ^ 64
        → ((t' : HandleTable) × (w' : World H) × (handle_table_insert k (some t) value true local w
              ≡ (some (pos t.handles.size), some t', w'))
            × Inserted t' w')
          ⊎ ((t' : HandleTable) × (w' : World H) × (t.handles.size ≡ t.handles.capacity)
              × ((k.kmalloc (t.handles.capacity * 2 * t.handles.element_size) before).0 ≡ 0)
              × (handle_table_insert k (some t) value true local w ≡ (none, some t', w')))
    handle_table_insert-Inserted nonnull small few room =
        elim (vector_push_back-Pushed law t.handles before local
          (put-IsVector Owned Block t local value w l valid) l.present local_owned local_off
          (subst (λ d. t.handles.capacity * 2 * d < 2 ^ 64) (sym valid.wide) room) (omega arith)) [
            | inl (v', w', call, p) ↦ inl (
              record { handles = v' },
              w',
              insert_call nonnull ∙ ap (inserted k) call ∙ last_handle v' w' few p.size,
              Pushed-Inserted small few v' w' p,
            )
            | inr (w', full, no_memory, call, frame) ↦ inr (
              record { handles = record t.handles { capacity = t.handles.capacity * 2 } },
              w',
              full,
              no_memory,
              insert_call nonnull ∙ ap (inserted k) call,
            )
          ]

    -- What a change of one entry leaves.
    pub record Changed (i : ℕ) (w' : World H) : Type 0 where
      pub still : IsTable Owned Block t w'
      pub changed : words t w' ≡ set (words t w) i value

    Replaced-Changed :
        value < 2 ^ 64
        → (i : ℕ) (w' : World H)
        → Replaced k Owned Block t.handles before
            (put-IsVector Owned Block t local value w l valid)
            local
            local_off
            i
            w'
        → Changed i w'
    Replaced-Changed h i w' r = record {
      still = record { vector = r.valid'; wide = valid.wide; few = valid.few };
      changed =
          ap (map word) r.elements
          ∙ map-set word (contents t.handles before) i
              (bytes before.mem local t.handles.element_size)
          ∙ ap₂ (λ xs x. set (map word xs) i x) (put_words Owned Block t local value w l valid)
              (local_word h);
    }

    set_entry :
        (i : ℕ)
        → value < 2 ^ 64
        → ((i < t.handles.size)
            × ((w' : World H) × (vector_set k (some t.handles) i local before ≡ (ok, w'))
                × Changed i w'))
          ⊎ ((t.handles.size ≤ i) × (vector_set k (some t.handles) i local before ≡ (fail, before)))
    set_entry i h =
        elim (vector_set-Replaced k Owned Block t.handles before
          (put-IsVector Owned Block t local value w l valid) local local_off i l.present) [
            | inl (lt, (w', call, r)) ↦ inl (lt, (w', call, Replaced-Changed h i w' r))
            | inr out ↦ inr out
          ]

    -- Setting a handle's entry to a pointer changes that entry alone, and fails exactly on a handle
    -- that was not given.
    pub handle_table_set-Changed :
        (i : ℕ)
        → value ≢ 0
        → value < 2 ^ 64
        → ((i < t.handles.size)
            × ((w' : World H) × (handle_table_set k (some t) (pos i) value local w ≡ (ok, w'))
                × Changed i w'))
          ⊎ ((t.handles.size ≤ i) × ((handle_table_set k (some t) (pos i) value local w).0 ≡ fail))
    unfolding handle_table_set out_of_table
    handle_table_set-Changed i nonnull h = elim (set_entry i h) [
      | inl (lt, (w', call, r)) ↦ inl (lt, (w', ground (arith, call, valid.few), r))
      | inr (ge, call) ↦ inr (ge, ground (arith, ap (λ (r : Status × World H). r.0) call))
    ]

  -- The inserted value is found under the handle of a call, and what was found before still is.
  abbrev Found :
      HandleTable → World H → (value : ℕ) → Option ℤ × Option HandleTable × World H → Type 0
  Found t w value (none, t', w') = Unit {0}
  Found t w value (some handle, none, w') = Unit {0}
  Found t w value (some handle, some t', w') =
      (handle_table_get (some t') handle true w' ≡ some value)
      × ((i : ℕ)
          → i < t.handles.size
          → handle_table_get (some t') (pos i) true w' ≡ handle_table_get (some t) (pos i) true w)

  Found-entries :
      (t t' : HandleTable) (local value : ℕ) (w w' : World H) (valid : IsTable Owned Block t w)
      (l : IsLocal Owned Block t local w)
      → Inserted t local value w valid l t' w'
      → Found t w value (some (pos t.handles.size), some t', w')
  Found-entries t t' local value w w' valid l done = (
    (handle_table_get-words t' w' t.handles.size done.valid').0
        ∙ ap (λ xs. get_elem? xs t.handles.size) done.entries
        ∙ ap (get_elem? (words t w ++ (value ∷ []))) (omega (arith, length-words t w))
        ∙ get_elem?-append_right (words t w) (value ∷ []) 0,
    λ i h.
        (handle_table_get-words t' w' i done.valid').0
        ∙ ap (λ xs. get_elem? xs i) done.entries
        ∙ get_elem?-append_left (words t w) (value ∷ []) i (omega (arith, length-words t w, h))
        ∙ sym (handle_table_get-words t w i valid).0,
  )

  -- On a valid table with fewer than 2^31 - 1 entries whose doubled storage would fit into 64
  -- bits, with a local variable off its storage, and with an allocator that keeps its contract:
  -- when handle_table_insert gives a handle for a pointer of 64 bits that is not NULL,
  -- handle_table_get finds the pointer under it, and under each handle that was given before what
  -- it found before.
  pub handle_table_get-insert :
      (t t' : HandleTable) (local value : ℕ) (handle : ℤ) (w w' : World H)
      → IsTable Owned Block t w
      → IsLocal Owned Block t local w
      → value ≢ 0
      → value < 2 ^ 64
      → t.handles.size + 1 < 2 ^ 31
      → t.handles.capacity * 2 * 8 < 2 ^ 64
      → handle_table_insert k (some t) value true local w ≡ (some handle, some t', w')
      → (handle_table_get (some t') handle true w' ≡ some value)
        × ((i : ℕ)
            → i < t.handles.size
            → handle_table_get (some t') (pos i) true w' ≡ handle_table_get (some t) (pos i) true w)
  handle_table_get-insert t t' local value handle w w' valid l nonnull small few room call =
      elim (handle_table_insert-Inserted t local value w valid l nonnull small few room) [
        | inl (t₁, w₁, e, done) ↦
            subst (Found t w value) (sym e ∙ call)
              (Found-entries t t₁ local value w w₁ valid l done)
        | inr (t₁, w₁, _, _, e) ↦ absurd (
            none-some handle
              (ap (λ (r : Option ℤ × Option HandleTable × World H). r.0) (sym e ∙ call)))
      ]

  -- On a valid table, with a local variable off its storage, removing a handle that was given
  -- leaves 0 for it, which a lookup still finds, and every other handle as it was; it fails
  -- exactly on a handle that was not given.
  pub handle_table_get-remove :
      (t : HandleTable) (local : ℕ) (w : World H) (i : ℕ)
      → IsTable Owned Block t w
      → IsLocal Owned Block t local w
      → ((i < t.handles.size)
          × ((w' : World H) × (handle_table_remove k (some t) (pos i) local w ≡ (ok, w'))
              × (handle_table_get (some t) (pos i) true w' ≡ some 0)
              × ((j : ℕ)
                  → i ≢ j
                  → handle_table_get (some t) (pos j) true w'
                    ≡ handle_table_get (some t) (pos j) true w)))
        ⊎ ((t.handles.size ≤ i) × ((handle_table_remove k (some t) (pos i) local w).0 ≡ fail))
  unfolding handle_table_remove out_of_table
  handle_table_get-remove t local w i valid l =
      elim (set_entry t local 0 w valid l i (omega arith)) [
        | inr (ge, call) ↦ inr (ge, ground (arith, ap (λ (r : Status × World H). r.0) call))
        | inl (lt, (w', call, r)) ↦ inl (
          lt,
          (
            w',
            ground (arith, call, valid.few),
            (handle_table_get-words t w' i r.still).0
                ∙ ap (λ xs. get_elem? xs i) r.changed
                ∙ get_elem?-set_self (words t w) i 0 (omega (arith, length-words t w, lt)),
            λ j ne.
                (handle_table_get-words t w' j r.still).0
                ∙ ap (λ xs. get_elem? xs j) r.changed
                ∙ get_elem?-set_ne (words t w) 0 ne
                ∙ sym (handle_table_get-words t w j valid).0,
          ),
        )
      ]
