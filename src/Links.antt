-- ===== src/Links.antt =====
-- Doubly linked lists by the two link fields of their nodes, as kernel/utils/linked_list.c,
-- kernel/utils/hash_table.c and, twice, kernel/block_allocator.c have them. A node is its address, 0 for
-- NULL.
pub mod Unlink
pub mod Behind
pub mod Neighbours
use z_os.Base.{
  In, Once, ne_of_mem, In-append, update, ℕ, ◌≡◌, ◌≢◌, ◌⊎◌, inl, inr, refl, sym, ap, ◌∙◌, subst,
  Bool, true, false, List, [], ◌∷◌, ◌++◌, null, arith, ◌==◌, ==-false, ==-true, update_self,
  update_other, if◌then◌else◌,
}
use native.Mathlib.Decide.{ℕ_discrete}

pub record Links : Type 0 where
  pub next : ℕ → ℕ
  pub prev : ℕ → ℕ

abbrev pub head_of : List ℕ → ℕ
head_of [] = 0
head_of (x ∷ xs) = x

-- The last node, or `before` if there is none.
abbrev pub last_of : (before : ℕ) → List ℕ → ℕ
last_of before [] = before
last_of before (x ∷ xs) = last_of x xs

-- The nodes follow one another, the first behind `before`, and the last has no next one.
abbrev pub Linked : Links → (before : ℕ) → List ℕ → Type 0
Linked l before [] = Unit {0}
Linked l before (x ∷ xs) = (x ≢ 0) × (l.prev x ≡ before) × (l.next x ≡ head_of xs) × Linked l x xs

abbrev pub erase : ℕ → List ℕ → List ℕ
erase x [] = []
erase x (y ∷ ys) = let rest = erase x ys in if y == x then ys else y ∷ rest

abbrev pub insert_behind : (x n : ℕ) → List ℕ → List ℕ
insert_behind x n [] = []
insert_behind x n (y ∷ ys) =
    let rest = insert_behind x n ys in if y == x then y ∷ n ∷ ys else y ∷ rest

-- `tail->next = node; node->prev = tail;`
abbrev pub link_last : (tail node : ℕ) → Links → Links
link_last tail node l = record l { next = update l.next tail node; prev = update l.prev node tail }

-- `node->prev = NULL; node->next = head; if (node->next != NULL) node->next->prev = node;`
abbrev pub link_first : (head node : ℕ) → Links → Links
link_first head node l =
    let prev = update l.prev node null in
    record {
      next = update l.next node head;
      prev = if head == null then prev else update prev head node;
    }

-- A new node behind another one.
abbrev pub link_behind : (x node : ℕ) → Links → Links
link_behind x node l =
    let prev = update l.prev node x in
    record {
      next = update (update l.next node (l.next x)) x node;
      prev = if l.next x == null then prev else update prev (l.next x) node;
    }

-- The neighbours of a node become neighbours, and its own links are cleared.
abbrev pub unlink : ℕ → Links → Links
unlink x l =
    let next = if l.prev x == null then l.next else update l.next (l.prev x) (l.next x) in
    let prev = if l.next x == null then l.prev else update l.prev (l.next x) (l.prev x) in
    record { next = update next x null; prev = update prev x null }

pub Linked-same :
    (l l' : Links) (before : ℕ) (xs : List ℕ)
    → ((x : ℕ) → In x xs → (l'.next x ≡ l.next x) × (l'.prev x ≡ l.prev x))
    → Linked l before xs
    → Linked l' before xs
Linked-same l l' before [] same h = tt
Linked-same l l' before (x ∷ xs) same (a, b, c, d) = (
  a,
  (same x (inl refl)).1 ∙ b,
  (same x (inl refl)).0 ∙ c,
  Linked-same l l' x xs (λ y i. same y (inr i)) d,
)

pub Linked-ne_null : (l : Links) (before x : ℕ) (xs : List ℕ) → Linked l before xs → In x xs → x ≢ 0
Linked-ne_null l before x [] h i = elim i [ ]
Linked-ne_null l before x (y ∷ ys) h (inl e) = λ z. h.0 (sym e ∙ z)
Linked-ne_null l before x (y ∷ ys) h (inr i) = Linked-ne_null l y x ys h.3 i

pub last_of-In :
    (before : ℕ) (xs : List ℕ) → (last_of before xs ≡ before) ⊎ In (last_of before xs) xs
last_of-In before [] = inl refl
last_of-In before (x ∷ xs) = elim (last_of-In x xs) [ inl e ↦ inr (inl e) | inr i ↦ inr (inr i) ]

pub last_of-member : (x : ℕ) (xs : List ℕ) → In (last_of x xs) (x ∷ xs)
last_of-member x xs = elim (last_of-In x xs) [ inl e ↦ inl e | inr i ↦ inr i ]

pub link_last-Linked :
    (l : Links) (before x node : ℕ) (xs : List ℕ)
    → Linked l before (x ∷ xs)
    → Once (x ∷ xs)
    → (¬ In node (x ∷ xs))
    → node ≢ 0
    → l.next node ≡ 0
    → Linked (link_last (last_of x xs) node l) before ((x ∷ xs) ++ (node ∷ []))
link_last-Linked l before x node [] h o n p e = (
  h.0,
  update_other l.prev node x x (λ z. n (inl (sym z))) ∙ h.1,
  update_self l.next x node,
  (p, update_self l.prev node x, update_other l.next x node node (λ z. n (inl z)) ∙ e, tt),
)
link_last-Linked l before x node (y ∷ ys) h o n p e = (
  h.0,
  update_other l.prev node x _ (λ z. n (inl (sym z))) ∙ h.1,
  update_other l.next (last_of y ys) x node
        (λ z. ne_of_mem _ x (y ∷ ys) (last_of-member y ys) o.0 (sym z))
      ∙ h.2,
  link_last-Linked l x y node ys h.3 o.1 (λ i. n (inr i)) p e,
)

link_first_present :
    (x node : ℕ) (l : Links)
    → x ≢ 0
    → link_first x node l
      ≡ record { next = update l.next node x; prev = update (update l.prev node 0) x node }
link_first_present x node l n = rw (==-false x 0 n) refl

pub link_first-Linked :
    (l : Links) (node : ℕ) (xs : List ℕ)
    → Linked l 0 xs
    → Once xs
    → (¬ In node xs)
    → node ≢ 0
    → Linked (link_first (head_of xs) node l) 0 (node ∷ xs)
link_first-Linked l node [] h o n p = (p, update_self l.prev node 0, update_self l.next node 0, tt)
link_first-Linked l node (x ∷ xs) h o n p =
    let other : node ≢ x = λ z. n (inl z) in
    let l' : Links = record {
      next = update l.next node x;
      prev = update (update l.prev node 0) x node;
    } in
    subst (λ k. Linked k 0 (node ∷ x ∷ xs)) (sym (link_first_present x node l h.0))
      (
        p,
        update_other (update l.prev node 0) x node node other ∙ update_self l.prev node 0,
        update_self l.next node x,
        (
          h.0,
          update_self (update l.prev node 0) x node,
          update_other l.next node x x (λ z. other (sym z)) ∙ h.2,
          Linked-same l l' x xs
              (λ y i. (
                update_other l.next node y x (ne_of_mem y node xs i (λ j. n (inr j))),
                update_other (update l.prev node 0) x y node (ne_of_mem y x xs i o.0)
                    ∙ update_other l.prev node y 0 (ne_of_mem y node xs i (λ j. n (inr j))),
              ))
              h.3,
        ),
      )

pub last_of-append : (before n : ℕ) (xs : List ℕ) → last_of before (xs ++ (n ∷ [])) ≡ n
last_of-append before n [] = refl
last_of-append before n (x ∷ xs) = last_of-append x n xs
