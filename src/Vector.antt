-- ===== src/Vector.antt =====
-- kernel/utils/vector.c: a growing array. A vector_t that is passed by pointer is an Option, `none`
-- for NULL; a `void *` is an address, 0 for NULL.
pub mod Items
pub mod Resize
pub mod Push
pub mod Update
use z_os.Base.{
  ℕ, ◌+◌, ◌-◌, ◌*◌, ◌/◌, Bool, not, ◌||◌, Option, none, some, Status, ok, fail, null, mul64, ltb,
  leb, ◌==◌, if◌then◌else◌,
}
use z_os.Memory.{Mem, memory_copy}
use z_os.Kmalloc.{World, Kmalloc}

pub record Vector : Type 0 where
  pub storage : ℕ
  pub size : ℕ
  pub capacity : ℕ
  pub element_size : ℕ

-- The address of element `index`.
abbrev pub element : Vector → ℕ → ℕ
element v index = v.storage + mul64 index v.element_size

module _ {H : Type 0} (k : Kmalloc H) where
  open k use {kmalloc, kfree}

  abbrev pub copy : ℕ → ℕ → ℕ → World H → World H
  copy destination source size w = record w { mem = memory_copy w.mem destination source size }

  -- The first argument says that the pointer is not NULL; a failure leaves the structure as it is.
  unfoldable pub vector_init : Bool → ℕ → ℕ → World H → Option Vector × World H
  vector_init present capacity element_size w =
      if not present || capacity == 0
      then (none, w)
      else let (storage, w') = kmalloc (mul64 capacity element_size) w in
        if storage == null then (none, w') else (
          some (record {
            storage = storage;
            size = 0;
            capacity = capacity;
            element_size = element_size;
          }),
          w',
        )

  unfoldable pub vector_destroy : Option Vector → World H → Status × Option Vector × World H
  vector_destroy none w = (fail, none, w)
  vector_destroy (some v) w = (
    ok,
    some (record { storage = null; size = 0; capacity = 0; element_size = 0 }),
    kfree v.storage w,
  )

  -- The new storage for a vector whose capacity is set already.
  unfoldable pub move_storage : Vector → World H → Status × Vector × World H
  move_storage v w =
      let (storage, w') = kmalloc (mul64 v.capacity v.element_size) w in
      if storage == null then (fail, v, w') else (
        ok,
        record v { storage = storage },
        kfree v.storage (copy storage v.storage (mul64 v.size v.element_size) w'),
      )

  unfoldable pub expand_capacity : Vector → World H → Status × Vector × World H
  expand_capacity v w = move_storage (record v { capacity = mul64 v.capacity 2 }) w

  unfoldable pub shrink_capacity : Vector → World H → Status × Vector × World H
  shrink_capacity v w =
      if leb (v.capacity / 2) v.size
      then (ok, v, w)
      else move_storage (record v { capacity = v.capacity / 2 }) w

  -- The write behind the last element.
  unfoldable pub append : ℕ → Status × Vector × World H → Status × Vector × World H
  append source (fail, v, w) = (fail, v, w)
  append source (ok, v, w) =
      (ok, record v { size = v.size + 1 }, copy (element v v.size) source v.element_size w)

  unfoldable pub vector_push_back : Option Vector → ℕ → World H → Status × Option Vector × World H
  vector_push_back none source w = (fail, none, w)
  vector_push_back (some v) source w =
      if source == null
      then (fail, some v, w)
      else let (status, v', w') =
          append source (if leb v.capacity v.size then expand_capacity v w else (ok, v, w)) in
        (status, some v', w')

  unfoldable pub vector_pop_back : Option Vector → ℕ → World H → Status × Option Vector × World H
  vector_pop_back none target w = (fail, none, w)
  vector_pop_back (some v) target w =
      if target == null || v.size == 0
      then (fail, some v, w)
      else let w' = copy target (element v (v.size - 1)) v.element_size w in
        let v' = record v { size = v.size - 1 } in
        if ltb v'.size (v'.capacity / 2)
        then (let (status, v'', w'') = shrink_capacity v' w' in (status, some v'', w''))
        else (ok, some v', w')

  unfoldable pub vector_set : Option Vector → ℕ → ℕ → World H → Status × World H
  vector_set none index source w = (fail, w)
  vector_set (some v) index source w =
      if source == null || leb v.size index
      then (fail, w)
      else (ok, copy (element v index) source v.element_size w)

-- The address that vector_get stores through a pointer, which `present` says is not NULL.
unfoldable pub vector_get : Option Vector → ℕ → Bool → Option ℕ
vector_get none index present = none
vector_get (some v) index present =
    if not present || leb v.size index then none else some (element v index)
