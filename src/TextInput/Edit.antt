-- ===== src/TextInput/Edit.antt =====
-- A text input is what stands before and behind its cursor: typing, deleting and moving change the
-- two as in any editor.
use native.Mathlib.Decide.{ℕ_discrete}
use z_os.Base.{
  ℕ, zero, suc, ◌+◌, ◌-◌, ◌*◌, ◌^◌, ◌≤◌, ◌<◌, ◌≡◌, subst, ap, ap₂, ◌∙◌, sym, List, [], ◌∷◌, ◌++◌,
  Option, Option-cases, none, some, ◌&&◌, ltb, leb, ◌==◌, if◌then◌else◌, arith, ◌⊎◌, inl, inr,
}
use z_os.Memory.{Mem, store}
use z_os.Memory.Bytes.{bytes, bytes-eq, bytes-append}
use z_os.Base.{ℤ, pos, negsuc}
use z_os.TextInput.{
  TextInput, Malloc, copied, room_for_one, shift_right, shift_left, insert, text_input_add_char,
  text_input_remove_char, text_input_move_cursor,
}

abbrev pub before : TextInput → List ℕ
before t = bytes t.text 0 t.cursor_index

abbrev pub behind : TextInput → List ℕ
behind t = bytes t.text t.cursor_index (t.length - t.cursor_index)

-- The cursor is within the text, and the text within its buffer.
pub record IsText (t : TextInput) : Type 0 where
  pub cursor : t.cursor_index ≤ t.length
  pub fits : t.length ≤ t.capacity
  pub some_room : 0 < t.capacity

shift_right_lem :
    (m : Mem) (c n j : ℕ)
    → shift_right m c n j ≡ (if ltb c j && leb j (c + n) then m (j - 1) else m j)
unfolding shift_right
shift_right_lem m c zero j = ground arith
shift_right_lem m c (suc n) j =
    ground (arith, shift_right_lem (store m (c + suc n) (m (c + n))) c n j)

shift_left_lem :
    (m : Mem) (c n j : ℕ)
    → 0 < c
    → shift_left m c n j ≡ (if leb c (j + 1) && ltb (j + 1) (c + n) then m (j + 1) else m j)
unfolding shift_left
shift_left_lem m c zero j h = ground arith
shift_left_lem m c (suc n) j h =
    ground (arith, shift_left_lem (store m (c - 1) (m c)) (c + 1) n j (omega arith))

-- The character stands behind those before the cursor, and the others move on.
insert_at :
    (t : TextInput) (c j : ℕ)
    → t.cursor_index ≤ t.length
    → (insert t c).text j ≡ (
        if j == t.length + 1
        then 0
        else if j == t.cursor_index
        then c
        else if ltb t.cursor_index j && leb j t.length
        then t.text (j - 1)
        else t.text j)
unfolding insert
insert_at t c j h =
    ground (arith, shift_right_lem t.text t.cursor_index (t.length - t.cursor_index) j)

insert_sizes :
    (t : TextInput) (c : ℕ)
    → t.cursor_index ≤ t.length
    → ((insert t c).length ≡ t.length + 1)
      × ((insert t c).cursor_index ≡ t.cursor_index + 1)
      × ((insert t c).capacity ≡ t.capacity)
unfolding insert
insert_sizes t c h = ground arith

-- Equal bytes from equal places on, for a number of them.
bytes_same :
    (m m' : Mem) (a b n k : ℕ)
    → n ≡ k
    → ((i : ℕ) → i < n → m (a + i) ≡ m' (b + i))
    → bytes m a n ≡ bytes m' b k
bytes_same m m' a b n k e h = bytes-eq m m' a b n h ∙ ap (bytes m' b) e

insert-before :
    (t : TextInput) (c : ℕ) → t.cursor_index ≤ t.length → before (insert t c) ≡ before t ++ (c ∷ [])
insert-before t c h =
    ap (bytes (insert t c).text 0) (insert_sizes t c h).1
    ∙ bytes-append (insert t c).text 0 t.cursor_index 1
    ∙ ap₂ (λ xs x. xs ++ (x ∷ []))
        (bytes-eq (insert t c).text t.text 0 0 t.cursor_index
          (λ i l. ground (arith, insert_at t c (0 + i) h)))
        (ground (arith, insert_at t c (0 + t.cursor_index) h))

insert-behind : (t : TextInput) (c : ℕ) → t.cursor_index ≤ t.length → behind (insert t c) ≡ behind t
insert-behind t c h =
    let (length, cursor, _) = insert_sizes t c h in
    bytes_same (insert t c).text t.text (insert t c).cursor_index t.cursor_index _ _
      (omega (arith, length, cursor))
      (λ i l. ground (arith, length, cursor, insert_at t c ((insert t c).cursor_index + i) h))

-- A text input after an edit is one of length `n` with these bytes before and behind the cursor, a
-- 0 behind its end, and valid.
pub record Edited (xs ys : List ℕ) (n : ℕ) (t : TextInput) : Type 0 where
  pub first : before t ≡ xs
  pub last : behind t ≡ ys
  pub size : t.length ≡ n
  pub terminated : t.text t.length ≡ 0
  pub valid : IsText t

insert-Edited :
    (t : TextInput) (c : ℕ)
    → t.cursor_index ≤ t.length
    → t.length + 1 ≤ t.capacity
    → Edited (before t ++ (c ∷ [])) (behind t) (t.length + 1) (insert t c)
insert-Edited t c h k =
    let (length, cursor, capacity) = insert_sizes t c h in
    record {
      first = insert-before t c h;
      last = insert-behind t c h;
      size = length;
      terminated = ground (arith, length, insert_at t c (insert t c).length h);
      valid = record {
        cursor = omega (arith, length, cursor);
        fits = omega (arith, length, capacity);
        some_room = omega (arith, capacity);
      };
    }

-- Moving to a larger buffer changes no byte of the text.
grown-Edited :
    (t : TextInput) (block : Mem) (c k : ℕ)
    → IsText t
    → t.length + 1 ≤ k
    → Edited
        (before t ++ (c ∷ []))
        (behind t)
        (t.length + 1)
        (insert (record t { text = copied block t.text t.length; capacity = k }) c)
unfolding copied
grown-Edited t block c k v h =
    let moved : TextInput = record t { text = copied block t.text t.length; capacity = k } in
    let first : before moved ≡ before t =
      bytes-eq moved.text t.text 0 0 t.cursor_index (λ i l. ground (arith, v.cursor)) in
    let last : behind moved ≡ behind t =
      bytes-eq moved.text t.text t.cursor_index t.cursor_index (t.length - t.cursor_index)
        (λ i l. ground (arith, v.cursor)) in
    subst (λ xs. Edited (xs ++ (c ∷ [])) (behind t) (t.length + 1) (insert moved c)) first
      (subst (λ ys. Edited (before moved ++ (c ∷ [])) ys (t.length + 1) (insert moved c)) last
        (insert-Edited moved c v.cursor h))

-- With the cursor within the text, the text within its buffer and a capacity below 2^31, typing a
-- character puts it behind those before the cursor and moves the cursor past it; it fails only if
-- the buffer is full and no larger one can be allocated.
pub text_input_add_char-Edited :
    (malloc : Malloc) (t : TextInput) (c : ℕ)
    → IsText t
    → t.capacity < 2 ^ 31
    → ((t.length ≡ t.capacity)
        × (malloc (t.capacity * 2) ≡ none)
        × (text_input_add_char malloc t c ≡ none))
      ⊎ ((t' : TextInput) × (text_input_add_char malloc t c ≡ some t')
          × Edited (before t ++ (c ∷ [])) (behind t) (t.length + 1) t')
unfolding text_input_add_char room_for_one
text_input_add_char-Edited malloc t c v k = elim (ℕ_discrete t.length t.capacity) [
  | no ne ↦
      inr (insert t c, ground (arith, v.fits), insert-Edited t c v.cursor (omega (arith, v.fits)))
  | yes e ↦ elim (Option-cases (malloc (t.capacity * 2))) [
    | inl z ↦ inl (e, z, ground arith)
    | inr (block, z) ↦ inr (
      insert (record t { text = copied block t.text t.length; capacity = t.capacity * 2 }) c,
      ground arith,
      grown-Edited t block c (t.capacity * 2) v (omega (arith, v.some_room)),
    )
  ]
]

removed_sizes :
    (t : TextInput)
    → 0 < t.cursor_index
    → ((text_input_remove_char t).length ≡ t.length - 1)
      × ((text_input_remove_char t).cursor_index ≡ t.cursor_index - 1)
      × ((text_input_remove_char t).capacity ≡ t.capacity)
unfolding text_input_remove_char
removed_sizes t h = ground arith

-- The characters from the cursor on move up by one.
removed_at :
    (t : TextInput) (j : ℕ)
    → 0 < t.cursor_index
    → t.cursor_index ≤ t.length
    → (text_input_remove_char t).text j ≡ (
        if j == t.length - 1
        then 0
        else if leb t.cursor_index (j + 1) && ltb (j + 1) t.length
        then t.text (j + 1)
        else t.text j)
unfolding text_input_remove_char
removed_at t j h k =
    ground (arith, shift_left_lem t.text t.cursor_index (t.length - t.cursor_index) j h)

last_before :
    (t : TextInput)
    → 0 < t.cursor_index
    → before t ≡ bytes t.text 0 (t.cursor_index - 1) ++ (t.text (t.cursor_index - 1) ∷ [])
last_before t h =
    ap (bytes t.text 0) (omega arith)
    ∙ bytes-append t.text 0 (t.cursor_index - 1) 1
    ∙ ap (λ j. bytes t.text 0 (t.cursor_index - 1) ++ (t.text j ∷ [])) (omega arith)

removed-Edited :
    (t : TextInput)
    → IsText t
    → 0 < t.cursor_index
    → Edited
        (bytes t.text 0 (t.cursor_index - 1))
        (behind t)
        (t.length - 1)
        (text_input_remove_char t)
removed-Edited t v h =
    let (length, cursor, capacity) = removed_sizes t h in
    record {
      first =
          bytes_same (text_input_remove_char t).text t.text 0 0 _ (t.cursor_index - 1) cursor
            (λ i l. ground (arith, cursor, v.cursor, removed_at t (0 + i) h v.cursor));
      last =
          bytes_same (text_input_remove_char t).text t.text (text_input_remove_char t).cursor_index
            t.cursor_index _ _ (omega (arith, length, cursor, v.cursor))
            (λ i l. ground (
              arith,
              length,
              cursor,
              v.cursor,
              removed_at t ((text_input_remove_char t).cursor_index + i) h v.cursor,
            ));
      size = length;
      terminated =
          ground (arith, length, removed_at t (text_input_remove_char t).length h v.cursor);
      valid = record {
        cursor = omega (arith, length, cursor, v.cursor);
        fits = omega (arith, length, capacity, v.fits);
        some_room = omega (arith, capacity, v.some_room);
      };
    }

-- With the cursor within the text, deleting takes the last character before the cursor away, and
-- does nothing when there is none.
pub text_input_remove_char-Edited :
    (t : TextInput)
    → IsText t
    → ((t.cursor_index ≡ 0) × (text_input_remove_char t ≡ t))
      ⊎ ((xs : List ℕ) × (x : ℕ) × (before t ≡ xs ++ (x ∷ []))
          × Edited xs (behind t) (t.length - 1) (text_input_remove_char t))
unfolding text_input_remove_char
text_input_remove_char-Edited t v = elim (ℕ_discrete t.cursor_index 0) [
  | yes e ↦ inl (e, ground arith)
  | no ne ↦ inr (
    bytes t.text 0 (t.cursor_index - 1),
    t.text (t.cursor_index - 1),
    last_before t (omega arith),
    removed-Edited t v (omega arith),
  )
]

whole : (t : TextInput) → t.cursor_index ≤ t.length → before t ++ behind t ≡ bytes t.text 0 t.length
whole t h =
    ap (λ j. before t ++ bytes t.text j (t.length - t.cursor_index)) (omega arith)
    ∙ sym (bytes-append t.text 0 t.cursor_index (t.length - t.cursor_index))
    ∙ ap (bytes t.text 0) (omega arith)

move_keeps :
    (t : TextInput) (dx : ℤ)
    → t.cursor_index ≤ t.length
    → ((text_input_move_cursor t dx).text ≡ t.text)
      × ((text_input_move_cursor t dx).length ≡ t.length)
      × ((text_input_move_cursor t dx).capacity ≡ t.capacity)
      × ((text_input_move_cursor t dx).cursor_index ≤ t.length)
unfolding text_input_move_cursor
move_keeps t (pos n) h = ground arith
move_keeps t (negsuc n) h = ground arith

-- Where the cursor is asked to go.
abbrev pub target : TextInput → ℤ → Option ℕ
target t (pos n) = if leb (t.cursor_index + n) t.length then some (t.cursor_index + n) else none
target t (negsuc n) = if ltb n t.cursor_index then some (t.cursor_index - suc n) else none

-- Moving puts the cursor where it is asked to go if that is within the text, else leaves it; the
-- text stays, and the cursor stays within it.
pub text_input_move_cursor_lem :
    (t : TextInput) (dx : ℤ)
    → IsText t
    → IsText (text_input_move_cursor t dx)
      × (before (text_input_move_cursor t dx) ++ behind (text_input_move_cursor t dx)
          ≡ before t ++ behind t)
      × ((target t dx ≡ some (text_input_move_cursor t dx).cursor_index)
          ⊎ ((target t dx ≡ none) × (text_input_move_cursor t dx ≡ t)))
unfolding text_input_move_cursor
text_input_move_cursor_lem t dx v =
    let (text, length, capacity, cursor) = move_keeps t dx v.cursor in
    (
      record {
        cursor = omega (arith, length, cursor);
        fits = omega (arith, length, capacity, v.fits);
        some_room = omega (arith, capacity, v.some_room);
      },
      whole (text_input_move_cursor t dx) (omega (arith, length, cursor))
          ∙ ap₂ (λ m n. bytes m 0 n) text length
          ∙ sym (whole t v.cursor),
      elim dx [ pos n ↦ ground arith | negsuc n ↦ ground arith ],
    )
