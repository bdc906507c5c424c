-- ===== src/TextInput.antt =====
-- programs/compositor/ui/text_input.c: the text that a user edits at a cursor. The text is its
-- bytes by index, so that a write behind the buffer of `capacity` bytes is seen. The fields for
-- drawing and the keyboard's file are left out, as are the functions that use only these.
pub mod Edit
pub mod Keys
mod Tests
use z_os.Base.{
  ℤ, pos, negsuc, ℕ, zero, suc, ◌+◌, ◌-◌, ◌*◌, ◌%◌, ◌^◌, Bool, ◌||◌, Option, none, some, ltb, ◌==◌,
  if◌then◌else◌,
}
use z_os.Memory.{Mem, store, memory_copy}

abbrev pub u32_mod : ℕ
u32_mod = 2 ^ 32

abbrev pub text_input_initial_capacity : ℕ
text_input_initial_capacity = 128

pub record TextInput : Type 0 where
  pub text : Mem
  pub length : ℕ
  pub capacity : ℕ
  pub cursor_index : ℕ

-- malloc(size) gives the bytes of the new block, which hold anything, or NULL.
abbrev pub Malloc : Type 0
Malloc = ℕ → Option Mem

unfoldable pub text_input_alloc : Malloc → Option TextInput
text_input_alloc malloc = elim (malloc text_input_initial_capacity) [
  | none ↦ none
  | some block ↦ some (record {
    text = λ i. if ltb i text_input_initial_capacity then 0 else block i;
    length = 0;
    capacity = text_input_initial_capacity;
    cursor_index = 0;
  })
]

-- The copy of `length` bytes into a new block.
unfoldable pub copied : Mem → Mem → ℕ → Mem
copied block text length i = if ltb i length then text i else block i

-- A full text moves to a block of twice the capacity.
unfoldable pub room_for_one : Malloc → TextInput → Option TextInput
room_for_one malloc t =
    if ltb t.capacity ((t.length + 1) % u32_mod)
    then (elim (malloc (t.capacity * 2 % u32_mod)) [
      | none ↦ none
      | some block ↦
          some
            (record t { text = copied block t.text t.length; capacity = t.capacity * 2 % u32_mod })
    ])
    else some t

-- `for (i = cursor + count; i > cursor; i--) text[i] = text[i - 1];`
unfoldable pub shift_right : Mem → ℕ → ℕ → Mem
shift_right text cursor zero = text
shift_right text cursor (suc count) =
    shift_right (store text (cursor + suc count) (text (cursor + count))) cursor count

-- `for (i = first; i < first + count; i++) text[i - 1] = text[i];`
unfoldable pub shift_left : Mem → ℕ → ℕ → Mem
shift_left text first zero = text
shift_left text first (suc count) =
    shift_left (store text (first - 1) (text first)) (first + 1) count

-- The text with a character at the cursor, in a buffer with room for it.
unfoldable pub insert : TextInput → ℕ → TextInput
insert t c =
    let behind = ltb t.cursor_index t.length in
    let text =
      if behind then shift_right t.text t.cursor_index (t.length - t.cursor_index) else t.text in
    let length = if behind then t.length + 1 else t.length in
    let cursor_index = t.cursor_index + 1 in
    let length = if ltb length cursor_index then cursor_index else length in
    record t {
      text = store (store text t.cursor_index c) length 0;
      length = length;
      cursor_index = cursor_index;
    }

unfoldable pub text_input_add_char : Malloc → TextInput → ℕ → Option TextInput
text_input_add_char malloc t c = elim (room_for_one malloc t) [
  | none ↦ none
  | some t' ↦ some (insert t' c)
]

unfoldable pub text_input_remove_char : TextInput → TextInput
text_input_remove_char t =
    if t.cursor_index == 0
    then t
    else if t.cursor_index == t.length
    then record t {
      text = store t.text (t.cursor_index - 1) 0;
      length = t.length - 1;
      cursor_index = t.cursor_index - 1;
    }
    else record t {
      text = store (shift_left t.text t.cursor_index (t.length - t.cursor_index)) (t.length - 1) 0;
      length = t.length - 1;
      cursor_index = t.cursor_index - 1;
    }

-- `dx` is an int32_t.
unfoldable pub text_input_move_cursor : TextInput → ℤ → TextInput
text_input_move_cursor t (pos n) =
    if n == 0 || ltb t.length (t.cursor_index + n)
    then t
    else record t { cursor_index = t.cursor_index + n }
text_input_move_cursor t (negsuc n) =
    if ltb t.cursor_index (suc n) || ltb t.length (t.cursor_index - suc n)
    then t
    else record t { cursor_index = t.cursor_index - suc n }
