-- ===== src/HandleTable.antt =====
-- kernel/utils/handle_table.c, and kernel/process/fd_table.c, which is a handle table of files. A
-- table that is passed by pointer is an Option, `none` for NULL, a handle an int64_t. `local` is the
-- address of the local variable whose address a function passes to the vector.
pub mod Words
pub mod Insert
mod Tests
use z_os.Base.{
  ℕ, ◌+◌, ◌-◌, ◌^◌, ◌%◌, Bool, true, not, ◌||◌, Option, none, some, Status, ok, fail, null, ℤ, pos,
  negsuc, is_negative, at_least, to_int32, to_int64, ◌==◌, if◌then◌else◌,
}
use z_os.Kmalloc.{World, Kmalloc}
use z_os.Memory.Word.{read_word, write_word}
use z_os.Vector.{Vector, vector_init, vector_destroy, vector_push_back, vector_get, vector_set}

pub record HandleTable : Type 0 where
  pub handles : Vector

-- `handle < 0`, or `(int32_t)handle >= (int32_t)handle_table->handles.size`.
unfoldable pub out_of_table : HandleTable → ℤ → Bool
out_of_table t (negsuc n) = is_negative (negsuc n)
out_of_table t (pos n) = at_least (to_int32 n) (to_int32 t.handles.size)

-- A handle as an index.
abbrev pub index_of : ℤ → ℕ
index_of (pos n) = n
index_of (negsuc n) = 2 ^ 64 - 1 - n

abbrev pub as_table : Option Vector → Option HandleTable
as_table none = none
as_table (some v) = some (record { handles = v })

module _ {H : Type 0} (k : Kmalloc H) where
  unfoldable pub handle_table_init : Bool → ℕ → World H → Option HandleTable × World H
  handle_table_init present capacity w =
      if not present || capacity == 0
      then (none, w)
      else let (handles, w') = vector_init k true capacity 8 w in (as_table handles, w')

  unfoldable pub handle_table_destroy :
      Option HandleTable → World H → Status × Option HandleTable × World H
  handle_table_destroy none w = (fail, none, w)
  handle_table_destroy (some t) w =
      let (status, handles, w') = vector_destroy k (some t.handles) w in
      (status, as_table handles, w')

  abbrev pub put_local : ℕ → ℕ → World H → World H
  put_local local value w = record w { mem = write_word w.mem local value }

  -- What insertion makes of the vector's answer: the last index is the handle.
  abbrev pub inserted : Status × Option Vector × World H → Option ℤ × Option HandleTable × World H
  inserted (ok, some v, w) =
      (some (to_int64 ((v.size + 2 ^ 64 - 1) % 2 ^ 64)), some (record { handles = v }), w)
  inserted (ok, none, w) = (none, none, w)
  inserted (fail, v, w) = (none, as_table v, w)

  -- The new handle, if there is one; `present` says that the pointer for it is not NULL.
  unfoldable pub handle_table_insert :
      Option HandleTable → ℕ → Bool → ℕ → World H → Option ℤ × Option HandleTable × World H
  handle_table_insert none value present local w = (none, none, w)
  handle_table_insert (some t) value present local w =
      if value == null || not present
      then (none, some t, w)
      else inserted (vector_push_back k (some t.handles) local (put_local local value w))

  unfoldable pub handle_table_set : Option HandleTable → ℤ → ℕ → ℕ → World H → Status × World H
  handle_table_set none handle value local w = (fail, w)
  handle_table_set (some t) handle value local w =
      if (value == null || is_negative handle) || out_of_table t handle
      then (fail, w)
      else vector_set k (some t.handles) (index_of handle) local (put_local local value w)

  -- The entry becomes 0 and keeps its place.
  unfoldable pub handle_table_remove : Option HandleTable → ℤ → ℕ → World H → Status × World H
  handle_table_remove none handle local w = (fail, w)
  handle_table_remove (some t) handle local w =
      if is_negative handle || out_of_table t handle
      then (fail, w)
      else vector_set k (some t.handles) (index_of handle) local (put_local local 0 w)

unfoldable pub handle_table_get : {H : Type 0} → Option HandleTable → ℤ → Bool → World H → Option ℕ
handle_table_get none handle present w = none
handle_table_get (some t) handle present w =
    if (not present || is_negative handle) || out_of_table t handle
    then none
    else elim (vector_get (some t.handles) (index_of handle) true) [
      | none ↦ none
      | some item_ptr ↦ some (read_word w.mem item_ptr)
    ]

abbrev pub default_fd_table_capacity : ℕ
default_fd_table_capacity = 64

-- An fd_table_t holds one handle table; each function tests its arguments and calls that of the
-- table.
module _ {H : Type 0} (k : Kmalloc H) where
  unfoldable pub fd_table_init : Bool → World H → Option HandleTable × World H
  fd_table_init present w =
      if not present then (none, w) else handle_table_init k true default_fd_table_capacity w

  unfoldable pub fd_table_destroy :
      Option HandleTable → World H → Status × Option HandleTable × World H
  fd_table_destroy none w = (fail, none, w)
  fd_table_destroy (some t) w = handle_table_destroy k (some t) w

  unfoldable pub fd_table_open :
      Option HandleTable → ℕ → Bool → ℕ → World H → Option ℤ × Option HandleTable × World H
  fd_table_open none file present local w = (none, none, w)
  fd_table_open (some t) file present local w =
      if file == null || not present
      then (none, some t, w)
      else handle_table_insert k (some t) file true local w

  unfoldable pub fd_table_close : Option HandleTable → ℤ → ℕ → World H → Status × World H
  fd_table_close none fd local w = (fail, w)
  fd_table_close (some t) fd local w =
      if is_negative fd then (fail, w) else handle_table_remove k (some t) fd local w

unfoldable pub fd_table_get : {H : Type 0} → Option HandleTable → ℤ → Bool → World H → Option ℕ
fd_table_get none fd present w = none
fd_table_get (some t) fd present w =
    if not present || is_negative fd then none else handle_table_get (some t) fd true w
