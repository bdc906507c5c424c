-- ===== src/TextInput/Keys.antt =====
-- text_input_update of programs/compositor/ui/text_input.c, with the codes of libraries/libinput/
-- keycodes.h: the events of the keyboard as edits. The events are those that input_read delivers.
use z_os.Base.{
  ℤ, pos, negsuc, ℕ, ◌+◌, ◌-◌, ◌*◌, ◌%◌, ◌^◌, ◌≤◌, ◌<◌, ◌≡◌, inl, inr, refl, sym, subst, Bool, true,
  false, not, ◌&&◌, ◌||◌, none, some, Option-cases, List, [], ◌∷◌, leb, ◌==◌, if◌then◌else◌, arith,
}
use native.Mathlib.Decide.{dec_lt}
use z_os.TextInput.{
  TextInput, Malloc, u32_mod, room_for_one, insert, text_input_add_char, text_input_remove_char,
  text_input_move_cursor,
}
use z_os.TextInput.Edit.{
  IsText, text_input_add_char-Edited, text_input_remove_char-Edited, text_input_move_cursor_lem,
}

pub data Event : Type 0 where
  key_down key_up : ℕ → Event
  other_event : Event

-- The fields `shift_down` and those of the text.
pub record Keyed : Type 0 where
  pub input : TextInput
  pub shift_down : Bool

abbrev key_a : ℕ
key_a = 0x04

abbrev key_z : ℕ
key_z = 0x1d

abbrev key_1 : ℕ
key_1 = 0x1e

abbrev key_0 : ℕ
key_0 = 0x27

abbrev is_shift : ℕ → Bool
is_shift scancode = (scancode == 0xe1) || (scancode == 0xe5)

-- A character that is added, whether or not there is memory for it.
unfoldable pub type_char : Malloc → ℕ → TextInput → TextInput
type_char malloc c t = elim (text_input_add_char malloc t c) [ none ↦ t | some t' ↦ t' ]

-- `if (condition) text_input_add_char(text_input, c);`, one after the other.
unfoldable pub type_where : Malloc → List (Bool × ℕ) → TextInput → TextInput
type_where malloc [] t = t
type_where malloc ((condition, c) ∷ rest) t =
    type_where malloc rest (if condition then type_char malloc c t else t)

-- Letters, digits, the signs above the digits, minus, equal and space.
abbrev keys_before : Bool → ℕ → List (Bool × ℕ)
keys_before shift k =
    (leb key_a k && leb k key_z, if shift then k - key_a + 65 else k - key_a + 97)
    ∷ (leb key_1 k && leb k key_0 && not shift, k - key_1 + 49)
    ∷ ((k == 0x1e) && shift, 33)
    ∷ ((k == 0x1f) && shift, 64)
    ∷ ((k == 0x20) && shift, 35)
    ∷ ((k == 0x21) && shift, 36)
    ∷ ((k == 0x22) && shift, 37)
    ∷ ((k == 0x23) && shift, 94)
    ∷ ((k == 0x24) && shift, 38)
    ∷ ((k == 0x25) && shift, 42)
    ∷ ((k == 0x26) && shift, 40)
    ∷ ((k == 0x27) && shift, 41)
    ∷ (k == 0x2d, if shift then 95 else 45)
    ∷ (k == 0x2e, if shift then 43 else 61)
    ∷ (k == 0x2c, 32)
    ∷ []

-- Slash, dot, comma, semicolon, apostrophe, braces, backslash and grave.
abbrev keys_behind : Bool → ℕ → List (Bool × ℕ)
keys_behind shift k =
    (k == 0x38, if shift then 63 else 47)
    ∷ (k == 0x37, if shift then 62 else 46)
    ∷ (k == 0x36, if shift then 60 else 44)
    ∷ (k == 0x33, if shift then 58 else 59)
    ∷ (k == 0x34, if shift then 34 else 39)
    ∷ (k == 0x2f, if shift then 123 else 91)
    ∷ (k == 0x30, if shift then 125 else 93)
    ∷ (k == 0x31, if shift then 124 else 92)
    ∷ (k == 0x35, if shift then 126 else 96)
    ∷ []

unfoldable pub press : Malloc → Bool → ℕ → TextInput → TextInput
press malloc shift k t =
    let t = type_where malloc (keys_before shift k) t in
    let t = if k == 0x2a then text_input_remove_char t else t in
    let t = type_where malloc (keys_behind shift k) t in
    let t = if k == 0x50 then text_input_move_cursor t (negsuc 0) else t in
    let t = if k == 0x4f then text_input_move_cursor t (pos 1) else t in
    type_where malloc ((k == 0x28, 10) ∷ []) t

unfoldable pub handle_event : Malloc → Event → Keyed → Keyed
handle_event malloc (key_down k) s = record {
  input = press malloc s.shift_down k s.input;
  shift_down = if is_shift k then true else s.shift_down;
}
handle_event malloc (key_up k) s = record s {
  shift_down = if is_shift k then false else s.shift_down;
}
handle_event malloc other_event s = s

unfoldable pub text_input_update : Malloc → List Event → Keyed → Keyed
text_input_update malloc [] s = s
text_input_update malloc (event ∷ events) s =
    text_input_update malloc events (handle_event malloc event s)

-- A text whose buffer is smaller than 2^31 bytes.
pub record IsSmall (t : TextInput) : Type 0 where
  pub valid : IsText t
  pub small : t.capacity < 2 ^ 31

-- malloc gives no block of 2^31 bytes or more.
abbrev pub Limited : Malloc → Type 0
Limited malloc = (size : ℕ) → 2 ^ 31 ≤ size → malloc size ≡ none

room_small :
    (malloc : Malloc) (t t' : TextInput)
    → Limited malloc
    → t.capacity < 2 ^ 31
    → room_for_one malloc t ≡ some t'
    → t'.capacity < 2 ^ 31
unfolding room_for_one
room_small malloc t t' l s e = elim (Option-cases (malloc (t.capacity * 2 % u32_mod))) [
  | inl n ↦ ground (arith, e, n)
  | inr (block, m) ↦
      let bound : t.capacity * 2 % u32_mod < 2 ^ 31 =
        elim (dec_lt (t.capacity * 2 % u32_mod) (2 ^ 31)) [
          | yes h ↦ h
          | no h ↦ absurd (cc (m, l (t.capacity * 2 % u32_mod) (omega arith)))
        ] in
      ground (arith, e, m, bound)
]

insert_same : (t : TextInput) (c : ℕ) → (insert t c).capacity ≡ t.capacity
unfolding insert
insert_same t c = refl

add_small :
    (malloc : Malloc) (t t' : TextInput) (c : ℕ)
    → Limited malloc
    → t.capacity < 2 ^ 31
    → text_input_add_char malloc t c ≡ some t'
    → t'.capacity < 2 ^ 31
unfolding text_input_add_char
add_small malloc t t' c l s e = elim (Option-cases (room_for_one malloc t)) [
  | inl n ↦ absurd (cc)
  | inr (t₁, r) ↦ ground (arith, room_small malloc t t₁ l s r, insert_same t₁ c, e, r)
]

typed_none :
    (malloc : Malloc) (c : ℕ) (t : TextInput)
    → text_input_add_char malloc t c ≡ none
    → type_char malloc c t ≡ t
unfolding type_char
typed_none malloc c t e = rw (e, type_char) refl

typed_some :
    (malloc : Malloc) (c : ℕ) (t t' : TextInput)
    → text_input_add_char malloc t c ≡ some t'
    → type_char malloc c t ≡ t'
unfolding type_char
typed_some malloc c t t' e = rw (e, type_char) refl

type_char-IsSmall :
    (malloc : Malloc) (c : ℕ) (t : TextInput)
    → Limited malloc
    → IsSmall t
    → IsSmall (type_char malloc c t)
type_char-IsSmall malloc c t l v = elim (text_input_add_char-Edited malloc t c v.valid v.small) [
  | inl (_, _, e) ↦ subst IsSmall (sym (typed_none malloc c t e)) v
  | inr (t', e, edited) ↦
      subst IsSmall (sym (typed_some malloc c t t' e))
        (record { valid = edited.valid; small = add_small malloc t t' c l v.small e })
]

type_where-IsSmall :
    (malloc : Malloc) (keys : List (Bool × ℕ)) (t : TextInput)
    → Limited malloc
    → IsSmall t
    → IsSmall (type_where malloc keys t)
unfolding type_where
type_where-IsSmall malloc [] t l v = v
type_where-IsSmall malloc ((true, c) ∷ rest) t l v =
    type_where-IsSmall malloc rest (type_char malloc c t) l (type_char-IsSmall malloc c t l v)
type_where-IsSmall malloc ((false, c) ∷ rest) t l v = type_where-IsSmall malloc rest t l v

when-IsSmall :
    (condition : Bool) (t t' : TextInput)
    → IsSmall t
    → IsSmall t'
    → IsSmall (if condition then t' else t)
when-IsSmall true t t' v v' = v'
when-IsSmall false t t' v v' = v

remove_same : (t : TextInput) → (text_input_remove_char t).capacity ≡ t.capacity
unfolding text_input_remove_char
remove_same t = ground arith

move_same : (t : TextInput) (dx : ℤ) → (text_input_move_cursor t dx).capacity ≡ t.capacity
unfolding text_input_move_cursor
move_same t (pos n) = ground arith
move_same t (negsuc n) = ground arith

removed-IsSmall : (t : TextInput) → IsSmall t → IsSmall (text_input_remove_char t)
removed-IsSmall t v = record {
  valid = elim (text_input_remove_char-Edited t v.valid) [
    | inl (_, e) ↦ rw e v.valid
    | inr (xs, x, e, edited) ↦ edited.valid
  ];
  small = ground (arith, v.small, remove_same t);
}

moved-IsSmall : (t : TextInput) (dx : ℤ) → IsSmall t → IsSmall (text_input_move_cursor t dx)
moved-IsSmall t dx v = record {
  valid = (text_input_move_cursor_lem t dx v.valid).0;
  small = ground (arith, v.small, move_same t dx);
}

press-IsSmall :
    (malloc : Malloc) (shift : Bool) (k : ℕ) (t : TextInput)
    → Limited malloc
    → IsSmall t
    → IsSmall (press malloc shift k t)
unfolding press
press-IsSmall malloc shift k t l v =
    let t₁ = type_where malloc (keys_before shift k) t in
    let v₁ : IsSmall t₁ = type_where-IsSmall malloc (keys_before shift k) t l v in
    let t₂ = if k == 0x2a then text_input_remove_char t₁ else t₁ in
    let v₂ : IsSmall t₂ =
      when-IsSmall (k == 0x2a) t₁ (text_input_remove_char t₁) v₁ (removed-IsSmall t₁ v₁) in
    let t₃ = type_where malloc (keys_behind shift k) t₂ in
    let v₃ : IsSmall t₃ = type_where-IsSmall malloc (keys_behind shift k) t₂ l v₂ in
    let t₄ = if k == 0x50 then text_input_move_cursor t₃ (negsuc 0) else t₃ in
    let v₄ : IsSmall t₄ = when-IsSmall (k == 0x50) t₃ _ v₃ (moved-IsSmall t₃ (negsuc 0) v₃) in
    type_where-IsSmall malloc ((k == 0x28, 10) ∷ []) _ l (
      when-IsSmall (k == 0x4f) t₄ (text_input_move_cursor t₄ (pos 1)) v₄
        (moved-IsSmall t₄ (pos 1) v₄))

-- When malloc gives no block of 2^31 bytes or more, then whatever events the keyboard sends, the
-- cursor stays within the text, the text within its buffer, and the buffer smaller than 2^31
-- bytes.
pub text_input_update-IsSmall :
    (malloc : Malloc) (events : List Event) (s : Keyed)
    → Limited malloc
    → IsSmall s.input
    → IsSmall (text_input_update malloc events s).input
unfolding text_input_update handle_event
text_input_update-IsSmall malloc [] s l v = v
text_input_update-IsSmall malloc (key_down k ∷ events) s l v =
    text_input_update-IsSmall malloc events _ l (press-IsSmall malloc s.shift_down k s.input l v)
text_input_update-IsSmall malloc (key_up k ∷ events) s l v =
    text_input_update-IsSmall malloc events _ l v
text_input_update-IsSmall malloc (other_event ∷ events) s l v =
    text_input_update-IsSmall malloc events s l v
