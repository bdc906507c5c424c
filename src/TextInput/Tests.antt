-- ===== src/TextInput/Tests.antt =====
-- The text "abc" in a buffer of 4 bytes, the cursor behind the "a".
use z_os.Base.{
  ℕ, ◌*◌, ◌≡◌, refl, List, [], ◌∷◌, ◌++◌, Option, none, some, if◌then◌else◌, ◌==◌, arith, ◌⊎◌,
}
use z_os.Base.{false}
use z_os.TextInput.{
  TextInput, Malloc, text_input_add_char, text_input_remove_char, room_for_one, insert,
}
use z_os.TextInput.Keys.{
  Event, key_down, key_up, IsSmall, Limited, text_input_update, text_input_update-IsSmall,
}
use z_os.TextInput.Edit.{IsText, Edited, text_input_add_char-Edited, text_input_remove_char-Edited}

abbrev abc : TextInput
abc = record {
  text = λ i. if i == 0 then 97 else if i == 1 then 98 else if i == 2 then 99 else 0;
  length = 3;
  capacity = 4;
  cursor_index = 1;
}

abbrev no_memory : Malloc
no_memory size = none

abc-IsText : IsText abc
abc-IsText = record { cursor = omega arith; fits = omega arith; some_room = omega arith }

-- The buffer of 4 bytes is full after one more character, and the 0 goes to index 4, behind it.
abbrev typed : Option TextInput
typed = text_input_add_char no_memory abc 120

abbrev last_write : Option TextInput → Option (ℕ × ℕ)
last_write none = none
last_write (some t) = some (t.length, t.capacity)

terminator_behind_buffer : last_write typed ≡ some (4, 4)
unfolding text_input_add_char room_for_one insert
terminator_behind_buffer = refl

text_input_add_char-Edited_example :
    ((abc.length ≡ abc.capacity)
      × (no_memory (abc.capacity * 2) ≡ none)
      × (text_input_add_char no_memory abc 120 ≡ none))
    ⊎ ((t' : TextInput) × (text_input_add_char no_memory abc 120 ≡ some t')
        × Edited (97 ∷ 120 ∷ []) (98 ∷ 99 ∷ []) 4 t')
text_input_add_char-Edited_example =
    text_input_add_char-Edited no_memory abc 120 abc-IsText (omega arith)

text_input_remove_char-Edited_example :
    ((abc.cursor_index ≡ 0) × (text_input_remove_char abc ≡ abc))
    ⊎ ((xs : List ℕ) × (x : ℕ) × (97 ∷ [] ≡ xs ++ (x ∷ []))
        × Edited xs (98 ∷ 99 ∷ []) 2 (text_input_remove_char abc))
text_input_remove_char-Edited_example = text_input_remove_char-Edited abc abc-IsText

no_memory-Limited : Limited no_memory
no_memory-Limited size h = refl

abc-IsSmall : IsSmall abc
abc-IsSmall = record { valid = abc-IsText; small = omega arith }

-- Shift and the key A, then backspace twice.
abbrev events : List Event
events = key_down 0xe1 ∷ key_down 0x04 ∷ key_up 0xe1 ∷ key_down 0x2a ∷ key_down 0x2a ∷ []

text_input_update-IsSmall_example :
    IsSmall (text_input_update no_memory events (record { input = abc; shift_down = false })).input
text_input_update-IsSmall_example =
    text_input_update-IsSmall no_memory events (record { input = abc; shift_down = false })
      no_memory-Limited abc-IsSmall
