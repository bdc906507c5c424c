-- ===== src/LinkedList/Tests.antt =====
-- A list of two nodes, of which the list owns the first, and the theorems at it.
use z_os.Base.{◌≡◌, inl, inr, refl, true, some, ok, [], ◌∷◌, arith, ◌==◌, if◌then◌else◌}
use z_os.LinkedList.{
  Heap, LinkedList, empty, linked_list_insert, linked_list_remove, linked_list_destroy,
}
use z_os.LinkedList.Laws.{
  IsList, Grown, Removed, linked_list_insert-Grown, linked_list_remove-Removed,
}
use z_os.LinkedList.Destroy.{GivenBack, linked_list_destroy-GivenBack}

abbrev heap : Heap
heap = record {
  value = λ x. if x == 0x10 then 7 else 8;
  links = record {
    next = λ x. if x == 0x10 then 0x20 else 0;
    prev = λ x. if x == 0x20 then 0x10 else 0;
  };
  list_is_owner = λ x. x == 0x10;
  allocated = λ x. if x == 0x10 then true else x == 0x20;
}

abbrev list : LinkedList
list = record { head = 0x10; tail = 0x20 }

list-IsList : IsList list (0x10 ∷ 0x20 ∷ []) heap
list-IsList = record {
  head = refl;
  tail = refl;
  linked = (omega arith, refl, refl, (omega arith, refl, refl, tt));
  once = ((λ i. elim i [ inl e ↦ omega arith | inr j ↦ j ]), ((λ i. i), tt));
  live = λ x i. elim i [
    | inl e ↦ ground arith
    | inr j ↦ elim j [ inl e ↦ ground arith | inr k ↦ elim k [ ] ]
  ];
}

linked_list_insert-Grown_example :
    (list' : LinkedList) × (h' : Heap) × (linked_list_insert (some list) 9 true 0x30 heap
      ≡ (some 0x30, some list', h'))
    × Grown 9 0x30 (0x10 ∷ 0x20 ∷ []) list' heap h'
linked_list_insert-Grown_example =
    linked_list_insert-Grown list 9 0x30 (0x10 ∷ 0x20 ∷ []) heap list-IsList (omega arith) refl

linked_list_remove-Removed_example :
    (list' : LinkedList) × (h' : Heap) × (linked_list_remove (some list) 0x20 heap
      ≡ (ok, some list', h'))
    × Removed 0x20 (0x10 ∷ 0x20 ∷ []) list' heap h'
linked_list_remove-Removed_example =
    linked_list_remove-Removed list 0x20 (0x10 ∷ 0x20 ∷ []) heap list-IsList (inr (inl refl))

linked_list_destroy-GivenBack_example :
    (h' : Heap) × (linked_list_destroy 2 (some list) heap ≡ some (ok, some empty, h'))
    × GivenBack (0x10 ∷ 0x20 ∷ []) heap h'
linked_list_destroy-GivenBack_example =
    linked_list_destroy-GivenBack 2 list (0x10 ∷ 0x20 ∷ []) heap list-IsList (omega arith)
