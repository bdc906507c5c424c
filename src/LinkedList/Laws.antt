-- ===== src/LinkedList/Laws.antt =====
-- A list in the heap as the list of its nodes, and what insertion and removal make of it.
use mathlib.Core.List.{map-append}
use z_os.Base.{
  In, In-append, Once, Once-append, ne_of_mem, update, update_self, update_other, ℕ, ◌≡◌, ◌≢◌, inl,
  inr, refl, sym, ap, ap₂, ◌∙◌, subst, Bool, true, false, Bool-cases, some, ok, List, [], ◌∷◌, ◌++◌,
  map, arith, ◌==◌, ==-false, ==-true, if◌then◌else◌,
}
use z_os.Links.{
  Links, head_of, last_of, last_of-member, last_of-append, Linked, Linked-same, Linked-ne_null,
  erase, link_last, link_last-Linked, unlink,
}
use z_os.Links.Unlink.{
  unlink-Linked, Once-erase, In-erase, not-In-erase, head_of-erase, last_of-erase, unlink-next,
  unlink-prev,
}
use z_os.Links.Neighbours.{outside_next, outside_prev}
use z_os.LinkedList.{
  Heap, LinkedList, linked_list_insert_node, filled, linked_list_insert, linked_list_remove,
}

pub record IsList (list : LinkedList) (nodes : List ℕ) (h : Heap) : Type 0 where
  pub head : list.head ≡ head_of nodes
  pub tail : list.tail ≡ last_of 0 nodes
  pub linked : Linked h.links 0 nodes
  pub once : Once nodes
  pub live : (x : ℕ) → In x nodes → h.allocated x ≡ true

-- A node is as it was.
pub record SameNode (x : ℕ) (h h' : Heap) : Type 0 where
  pub value : h'.value x ≡ h.value x
  pub next : h'.links.next x ≡ h.links.next x
  pub prev : h'.links.prev x ≡ h.links.prev x
  pub list_is_owner : h'.list_is_owner x ≡ h.list_is_owner x
  pub allocated : h'.allocated x ≡ h.allocated x

-- So a list none of whose nodes changes is still a list.
pub IsList-same :
    (list : LinkedList) (nodes : List ℕ) (h h' : Heap)
    → IsList list nodes h
    → ((x : ℕ) → In x nodes → SameNode x h h')
    → IsList list nodes h'
IsList-same list nodes h h' v same = record {
  head = v.head;
  tail = v.tail;
  linked =
      Linked-same h.links h'.links 0 nodes (λ x i. ((same x i).next, (same x i).prev)) v.linked;
  once = v.once;
  live = λ x i. (same x i).allocated ∙ v.live x i;
}

filled_same : (value node x : ℕ) (h : Heap) → x ≢ node → SameNode x h (filled value node h)
filled_same value node x h n = record {
  value = update_other h.value node x value n;
  next = update_other h.links.next node x 0 n;
  prev = update_other h.links.prev node x 0 n;
  list_is_owner = update_other h.list_is_owner node x true n;
  allocated = update_other h.allocated node x true n;
}

map_same : (f g : ℕ → ℕ) (xs : List ℕ) → ((x : ℕ) → In x xs → g x ≡ f x) → map g xs ≡ map f xs
map_same f g [] e = refl
map_same f g (x ∷ xs) e = ap₂ (λ a b. a ∷ b) (e x (inl refl)) (map_same f g xs (λ y i. e y (inr i)))

-- A list with one node more at its end.
pub record Grown (value node : ℕ) (nodes : List ℕ) (list' : LinkedList) (h h' : Heap) : Type 0 where
  pub valid : IsList list' (nodes ++ (node ∷ [])) h'
  pub values : map h'.value (nodes ++ (node ∷ [])) ≡ map h.value nodes ++ (value ∷ [])
  pub others : (x : ℕ) → (¬ In x (node ∷ nodes)) → SameNode x h h'

filled_values :
    (value node : ℕ) (nodes : List ℕ) (h : Heap)
    → (¬ In node nodes)
    → map (filled value node h).value (nodes ++ (node ∷ [])) ≡ map h.value nodes ++ (value ∷ [])
filled_values value node nodes h n =
    map-append (filled value node h).value nodes (node ∷ [])
    ∙ ap₂ (λ a b. a ++ b)
        (map_same h.value (filled value node h).value nodes
          (λ x i. update_other h.value node x value (ne_of_mem x node nodes i n)))
        (ap (λ a. a ∷ []) (update_self h.value node value))

insert_first :
    (list : LinkedList) (value node : ℕ) (h : Heap)
    → IsList list [] h
    → node ≢ 0
    → linked_list_insert (some list) value true node h
      ≡ (some node, some (record { head = node; tail = node }), filled value node h)
unfolding linked_list_insert linked_list_insert_node
insert_first list value node h v p = rw (==-false node 0 p, ==-true list.head 0 v.head) refl

insert_last :
    (list : LinkedList) (x value node : ℕ) (xs : List ℕ) (h : Heap)
    → IsList list (x ∷ xs) h
    → node ≢ 0
    → linked_list_insert (some list) value true node h ≡ (
      some node,
      some (record list { tail = node }),
      record (filled value node h) { links = link_last list.tail node (filled value node h).links },
    )
unfolding linked_list_insert linked_list_insert_node
insert_last list x value node xs h v p =
    rw (==-false node 0 p, ==-false list.head 0 (λ e. v.linked.0 (sym v.head ∙ e))) refl

live_grown :
    (value node : ℕ) (nodes : List ℕ) (h : Heap)
    → ((x : ℕ) → In x nodes → h.allocated x ≡ true)
    → (x : ℕ) → In x (nodes ++ (node ∷ []))
    → (filled value node h).allocated x ≡ true
live_grown value node nodes h l x i = elim (In-append x node nodes i) [
  | inl j ↦ ground (arith, l x j)
  | inr e ↦ ground arith
]

first-Grown :
    (list : LinkedList) (value node : ℕ) (h : Heap)
    → IsList list [] h
    → node ≢ 0
    → Grown value node [] (record { head = node; tail = node }) h (filled value node h)
first-Grown list value node h v p = record {
  valid = record {
    head = refl;
    tail = refl;
    linked = (p, update_self h.links.prev node 0, update_self h.links.next node 0, tt);
    once = ((λ i. i), tt);
    live = live_grown value node [] h v.live;
  };
  values = filled_values value node [] h (λ i. i);
  others = λ x n. filled_same value node x h (λ e. n (inl e));
}

last-Grown :
    (list : LinkedList) (x value node : ℕ) (xs : List ℕ) (h : Heap)
    → IsList list (x ∷ xs) h
    → node ≢ 0
    → (¬ In node (x ∷ xs))
    → Grown value node
        (x ∷ xs)
        (record list { tail = node })
        h
        (record (filled value node h) {
          links = link_last list.tail node (filled value node h).links;
        })
last-Grown list x value node xs h v p n =
    let links : Links = (filled value node h).links in
    let grown : Linked (link_last (last_of x xs) node links) 0 ((x ∷ xs) ++ (node ∷ [])) =
      link_last-Linked links 0 x node xs
        (Linked-same h.links links 0 (x ∷ xs)
          (λ y i. (
            update_other h.links.next node y 0 (ne_of_mem y node (x ∷ xs) i n),
            update_other h.links.prev node y 0 (ne_of_mem y node (x ∷ xs) i n),
          ))
          v.linked)
        v.once n p (update_self h.links.next node 0) in
    record {
      valid = record {
        head = v.head;
        tail = sym (last_of-append x node xs);
        linked =
            subst (λ t. Linked (link_last t node links) 0 ((x ∷ xs) ++ (node ∷ []))) (sym v.tail)
              grown;
        once = Once-append node (x ∷ xs) v.once n;
        live = live_grown value node (x ∷ xs) h v.live;
      };
      values = filled_values value node (x ∷ xs) h n;
      others = λ y m.
          let s = filled_same value node y h (λ e. m (inl e)) in
          let other : y ≢ list.tail =
            λ e. m (inr (subst (λ w. In w (x ∷ xs)) (sym (e ∙ v.tail)) (last_of-member x xs))) in
          record {
            value = s.value;
            next = update_other links.next list.tail y node other ∙ s.next;
            prev = update_other links.prev node y list.tail (λ e. m (inl e)) ∙ s.prev;
            list_is_owner = s.list_is_owner;
            allocated = s.allocated;
          };
    }

-- On a list of the heap and a node that kmalloc gives, linked_list_insert puts the value at the
-- end of the list: the links then spell the old nodes and the new one, the values are the old ones
-- and the new one, and no node outside the list changes.
pub linked_list_insert-Grown :
    (list : LinkedList) (value node : ℕ) (nodes : List ℕ) (h : Heap)
    → IsList list nodes h
    → node ≢ 0
    → h.allocated node ≡ false
    → (list' : LinkedList) × (h' : Heap) × (linked_list_insert (some list) value true node h
        ≡ (some node, some list', h'))
      × Grown value node nodes list' h h'
linked_list_insert-Grown list value node [] h v p fresh = (
  record { head = node; tail = node },
  filled value node h,
  insert_first list value node h v p,
  first-Grown list value node h v p,
)
linked_list_insert-Grown list value node (x ∷ xs) h v p fresh = (
  record list { tail = node },
  record (filled value node h) { links = link_last list.tail node (filled value node h).links },
  insert_last list x value node xs h v p,
  last-Grown list x value node xs h v p (λ i. cc (fresh, v.live node i)),
)

-- A list without one of its nodes, which is given back if the list is its owner.
pub record Removed (node : ℕ) (nodes : List ℕ) (list' : LinkedList) (h h' : Heap) : Type 0 where
  pub valid : IsList list' (erase node nodes) h'
  pub values : h'.value ≡ h.value
  pub given_back : h'.allocated node ≡ (if h.list_is_owner node then false else true)
  pub others : (x : ℕ) → x ≢ 0 → (¬ In x nodes) → SameNode x h h'

abbrev removed : ℕ → LinkedList → Heap → LinkedList
removed node list h = record {
  head = if h.links.prev node == 0 then h.links.next node else list.head;
  tail = if h.links.next node == 0 then h.links.prev node else list.tail;
}

abbrev unlinked : (node : ℕ) → Bool → Heap → Heap
unlinked node owner h = record h {
  links = unlink node h.links;
  allocated = if owner then update h.allocated node false else h.allocated;
}

remove_call :
    (list : LinkedList) (node : ℕ) (h : Heap)
    → node ≢ 0
    → linked_list_remove (some list) node h
      ≡ (ok, some (removed node list h), unlinked node (h.list_is_owner node) h)
unfolding linked_list_remove
remove_call list node h n = elim (Bool-cases (h.list_is_owner node)) [
  | inl e ↦ rw (==-false node 0 n, e) refl
  | inr e ↦ rw (==-false node 0 n, e) refl
]

unlinked_allocated :
    (node x : ℕ) (owner : Bool) (h : Heap)
    → x ≢ node
    → (unlinked node owner h).allocated x ≡ h.allocated x
unlinked_allocated node x true h n = update_other h.allocated node x false n
unlinked_allocated node x false h n = refl

unlinked_given_back :
    (node : ℕ) (owner : Bool) (h : Heap)
    → h.allocated node ≡ true
    → (unlinked node owner h).allocated node ≡ (if owner then false else true)
unlinked_given_back node true h l = update_self h.allocated node false
unlinked_given_back node false h l = l

removed-IsList :
    (list : LinkedList) (node : ℕ) (nodes : List ℕ) (h : Heap)
    → IsList list nodes h
    → In node nodes
    → IsList (removed node list h) (erase node nodes) (unlinked node (h.list_is_owner node) h)
removed-IsList list node nodes h v i = record {
  head =
      ap (λ w. if h.links.prev node == 0 then h.links.next node else w) v.head
      ∙ sym (head_of-erase h.links node nodes v.linked i);
  tail =
      ap (λ w. if h.links.next node == 0 then h.links.prev node else w) v.tail
      ∙ sym (last_of-erase h.links 0 node nodes v.linked i);
  linked =
      unlink-Linked h.links 0 node nodes v.linked v.once
        (λ j. Linked-ne_null h.links 0 0 nodes v.linked j refl) i;
  once = Once-erase node nodes v.once;
  live = λ x j.
      unlinked_allocated node x (h.list_is_owner node) h
        (λ e. not-In-erase node nodes v.once (subst (λ w. In w (erase node nodes)) e j))
      ∙ v.live x (In-erase node x nodes j);
}

-- Linked_list_remove of a node of a list of the heap takes exactly that node out: the links then
-- spell the other nodes in their order, the values are as before, the node is given back exactly
-- if the list is its owner, and no node outside the list changes.
pub linked_list_remove-Removed :
    (list : LinkedList) (node : ℕ) (nodes : List ℕ) (h : Heap)
    → IsList list nodes h
    → In node nodes
    → (list' : LinkedList) × (h' : Heap) × (linked_list_remove (some list) node h
        ≡ (ok, some list', h'))
      × Removed node nodes list' h h'
linked_list_remove-Removed list node nodes h v i = (
  removed node list h,
  unlinked node (h.list_is_owner node) h,
  remove_call list node h (Linked-ne_null h.links 0 node nodes v.linked i),
  record {
    valid = removed-IsList list node nodes h v i;
    values = refl;
    given_back = unlinked_given_back node (h.list_is_owner node) h (v.live node i);
    others = λ x p n.
        let other : x ≢ node = λ e. n (subst (λ w. In w nodes) (sym e) i) in
        record {
          value = refl;
          next =
              unlink-next node x h.links other (outside_prev h.links node x nodes v.linked i p n);
          prev =
              unlink-prev node x h.links other (outside_next h.links 0 node x nodes v.linked i p n);
          list_is_owner = refl;
          allocated = unlinked_allocated node x (h.list_is_owner node) h other;
        };
  },
)
