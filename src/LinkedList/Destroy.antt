-- ===== src/LinkedList/Destroy.antt =====
-- linked_list_destroy and its loop over the nodes.
use z_os.Base.{
  In, Once, update, update_other, ℕ, zero, suc, ◌≤◌, ◌≡◌, ◌≢◌, inl, inr, refl, sym, ap, ◌∙◌, subst,
  false, Bool-cases, some, ok, List, [], ◌∷◌, length, arith, ==-false, if◌then◌else◌,
}
use z_os.Links.{head_of, Linked}
use z_os.LinkedList.{Heap, LinkedList, empty, free_nodes, linked_list_destroy}
use z_os.LinkedList.Laws.{IsList}

-- Only the allocation of the nodes that the list owns has changed.
pub record GivenBack (nodes : List ℕ) (h h' : Heap) : Type 0 where
  pub value : h'.value ≡ h.value
  pub links : h'.links ≡ h.links
  pub list_is_owner : h'.list_is_owner ≡ h.list_is_owner
  pub owned :
      (x : ℕ) → In x nodes → h'.allocated x ≡ (if h.list_is_owner x then false else h.allocated x)
  pub others : (x : ℕ) → (¬ In x nodes) → h'.allocated x ≡ h.allocated x

abbrev given_back : ℕ → Heap → Heap
given_back x h =
    if h.list_is_owner x then record h { allocated = update h.allocated x false } else h

one-GivenBack : (x : ℕ) (h : Heap) → GivenBack (x ∷ []) h (given_back x h)
one-GivenBack x h = elim (Bool-cases (h.list_is_owner x)) [
  | inl e ↦ rw e (record {
    value = refl;
    links = refl;
    list_is_owner = refl;
    owned = λ y i. elim i [ inl z ↦ ground arith | inr j ↦ elim j [ ] ];
    others = λ y n. update_other h.allocated x y false (λ z. n (inl z));
  })
  | inr e ↦ rw e (record {
    value = refl;
    links = refl;
    list_is_owner = refl;
    owned = λ y i. elim i [ inl z ↦ ground arith | inr j ↦ elim j [ ] ];
    others = λ y n. refl;
  })
]

then-GivenBack :
    (x : ℕ) (xs : List ℕ) (h h₁ h₂ : Heap)
    → (¬ In x xs)
    → GivenBack (x ∷ []) h h₁
    → GivenBack xs h₁ h₂
    → GivenBack (x ∷ xs) h h₂
then-GivenBack x xs h h₁ h₂ n a b = record {
  value = b.value ∙ a.value;
  links = b.links ∙ a.links;
  list_is_owner = b.list_is_owner ∙ a.list_is_owner;
  owned = λ y i. elim i [
    | inl e ↦ b.others y (λ j. n (subst (λ w. In w xs) e j)) ∙ a.owned y (inl e)
    | inr j ↦
        b.owned y j
        ∙ ap (λ f. if f y then false else h₁.allocated y) a.list_is_owner
        ∙ ap (λ w. if h.list_is_owner y then false else w)
            (a.others y (λ k. elim k [ inl e ↦ n (subst (λ w. In w xs) e j) | inr z ↦ z ]))
  ];
  others = λ y m.
      b.others y (λ j. m (inr j))
      ∙ a.others y (λ k. elim k [ inl e ↦ m (inl e) | inr z ↦ elim z [ ] ]);
}

free_step :
    (fuel x : ℕ) (h h' : Heap)
    → x ≢ 0
    → free_nodes fuel (h.links.next x) (given_back x h) ≡ some h'
    → free_nodes (suc fuel) x h ≡ some h'
unfolding free_nodes
free_step fuel x h h' p e = rw (==-false x 0 p, free_nodes) e

free_end : (fuel : ℕ) (h : Heap) → free_nodes fuel 0 h ≡ some h
unfolding free_nodes
free_end zero h = refl
free_end (suc fuel) h = refl

free_nodes-GivenBack :
    (fuel before : ℕ) (nodes : List ℕ) (h : Heap)
    → Linked h.links before nodes
    → Once nodes
    → length nodes ≤ fuel
    → (h' : Heap) × (free_nodes fuel (head_of nodes) h ≡ some h') × GivenBack nodes h h'
free_nodes-GivenBack fuel before [] h l o n = (
  h,
  free_end fuel h,
  record {
    value = refl;
    links = refl;
    list_is_owner = refl;
    owned = λ x i. elim i [ ];
    others = λ x m. refl;
  },
)
free_nodes-GivenBack zero before (x ∷ xs) h l o n = absurd (omega arith)
free_nodes-GivenBack (suc fuel) before (x ∷ xs) h l o n =
    let a : GivenBack (x ∷ []) h (given_back x h) = one-GivenBack x h in
    let (h', e, b) =
      free_nodes-GivenBack fuel x xs (given_back x h) (subst (λ k. Linked k x xs) (sym a.links) l.3)
        o.1 (omega arith) in
    (
      h',
      free_step fuel x h h' l.0 (ap (λ w. free_nodes fuel w (given_back x h)) l.2 ∙ e),
      then-GivenBack x xs h (given_back x h) h' o.0 a b,
    )

-- With fuel for the nodes of a list of the heap, linked_list_destroy returns an empty list; it
-- gives back exactly the nodes of which the list is the owner, and the values and links of the
-- heap are as before.
pub linked_list_destroy-GivenBack :
    (fuel : ℕ) (list : LinkedList) (nodes : List ℕ) (h : Heap)
    → IsList list nodes h
    → length nodes ≤ fuel
    → (h' : Heap) × (linked_list_destroy fuel (some list) h ≡ some (ok, some empty, h'))
      × GivenBack nodes h h'
unfolding linked_list_destroy
linked_list_destroy-GivenBack fuel list nodes h v n =
    let (h', e, b) = free_nodes-GivenBack fuel 0 nodes h v.linked v.once n in
    (h', rw (v.head, e, linked_list_destroy) refl, b)
