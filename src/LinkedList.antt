-- ===== src/LinkedList.antt =====
-- kernel/utils/linked_list.c, and libraries/libcommon/linked_list.c, which is the same code: doubly
-- linked lists whose nodes stand in a heap that all lists share. A node is its address, 0 for NULL; a
-- list that is passed by pointer is an Option. `new_node` is what kmalloc gives for a node.
pub mod Laws
pub mod Destroy
mod Tests
use z_os.Base.{
  ℕ, Bool, true, false, not, ◌&&◌, ◌||◌, Option, none, some, Status, ok, fail, null, ◌==◌, update,
  if◌then◌else◌, zero, suc,
}
use z_os.Links.{Links, link_last, unlink}

-- The fields of the nodes, and which nodes kmalloc has given out.
pub record Heap : Type 0 where
  pub value : ℕ → ℕ
  pub links : Links
  pub list_is_owner : ℕ → Bool
  pub allocated : ℕ → Bool

pub record LinkedList : Type 0 where
  pub head : ℕ
  pub tail : ℕ

abbrev pub empty : LinkedList
empty = record { head = null; tail = null }

unfoldable pub linked_list_init : LinkedList → Status × LinkedList
linked_list_init list = (ok, empty)

unfoldable pub linked_list_insert_node :
    Option LinkedList → ℕ → Heap → Status × Option LinkedList × Heap
linked_list_insert_node none node h = (fail, none, h)
linked_list_insert_node (some list) node h =
    if node == null
    then (fail, some list, h)
    else if list.head == null
    then (ok, some (record { head = node; tail = node }), h)
    else (
      ok,
      some (record list { tail = node }),
      record h { links = link_last list.tail node h.links },
    )

-- A node as linked_list_insert fills it.
abbrev pub filled : (value new_node : ℕ) → Heap → Heap
filled value new_node h = record {
  value = update h.value new_node value;
  links = record {
    next = update h.links.next new_node null;
    prev = update h.links.prev new_node null;
  };
  list_is_owner = update h.list_is_owner new_node true;
  allocated = update h.allocated new_node true;
}

abbrev freed : ℕ → Heap → Heap
freed node h = record h { allocated = update h.allocated node false }

abbrev node_or_freed : ℕ → Status × Option LinkedList × Heap → Option ℕ × Option LinkedList × Heap
node_or_freed new_node (ok, list, h) = (some new_node, list, h)
node_or_freed new_node (fail, list, h) = (none, list, freed new_node h)

-- The new node, if the call succeeds; `present` says that the pointer for it is not NULL.
unfoldable pub linked_list_insert :
    Option LinkedList
    → (value : ℕ) → (present : Bool) → (new_node : ℕ) → Heap
    → Option ℕ × Option LinkedList × Heap
linked_list_insert none value present new_node h = (none, none, h)
linked_list_insert (some list) value present new_node h =
    if not present || new_node == null
    then (none, some list, h)
    else node_or_freed new_node
        (linked_list_insert_node (some list) new_node (filled value new_node h))

unfoldable pub linked_list_remove : Option LinkedList → ℕ → Heap → Status × Option LinkedList × Heap
linked_list_remove none node h = (fail, none, h)
linked_list_remove (some list) node h =
    if node == null
    then (fail, some list, h)
    else let list' : LinkedList = record {
      head = if h.links.prev node == null then h.links.next node else list.head;
      tail = if h.links.next node == null then h.links.prev node else list.tail;
    } in
      let h' = record h { links = unlink node h.links } in
      (ok, some list', if h.list_is_owner node then freed node h' else h')

-- `while (node != NULL)`; `none` when the fuel runs out.
unfoldable pub free_nodes : (fuel : ℕ) → (node : ℕ) → Heap → Option Heap
free_nodes zero node h = if node == null then some h else none
free_nodes (suc fuel) node h =
    let next = h.links.next node in
    let rest = free_nodes fuel next (if h.list_is_owner node then freed node h else h) in
    if node == null then some h else rest

unfoldable pub linked_list_destroy :
    (fuel : ℕ) → Option LinkedList → Heap → Option (Status × Option LinkedList × Heap)
linked_list_destroy fuel none h = some (fail, none, h)
linked_list_destroy fuel (some list) h = elim (free_nodes fuel list.head h) [
  | none ↦ none
  | some h' ↦ some (ok, some empty, h')
]
