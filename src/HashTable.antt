-- ===== src/HashTable.antt =====
-- kernel/utils/hash_table.c, and libraries/libcommon/hash_table.c, which is the same code: a table of
-- buckets, each of them a chain of nodes in the heap. A pointer that may be NULL is an Option, a node
-- is its address, and `new_node` and `storage` are what kmalloc gives. Loops along a chain take fuel,
-- and `none` means that it ran out.
pub mod Chains
pub mod Grown
pub mod Set
pub mod Removed
pub mod Remove
mod Tests
use Prim.Native.Nat.{bit_and, bit_xor}
use z_os.Base.{
  ℕ, zero, suc, ◌+◌, ◌*◌, ◌/◌, ◌%◌, ◌^◌, Bool, true, false, not, ◌&&◌, ◌||◌, Option, none, some,
  Status, ok, fail, null, add64, sub64, mul64, ◌==◌, update, if◌then◌else◌,
}
use z_os.Memory.{Mem, Sign, minus, equal, plus, memory_compare}
use z_os.Links.{Links, link_first}

-- `word` is the union: the number, if the size is 0, or the address of the bytes.
pub record HashKey : Type 0 where
  pub word : ℕ
  pub size : ℕ

-- The fields of the nodes, and what kmalloc has given out.
pub record Nodes : Type 0 where
  pub key : ℕ → HashKey
  pub value : ℕ → ℕ
  pub links : Links
  pub allocated : ℕ → Bool

-- `storage` is the pointer to the buckets, and `buckets` what stands there.
pub record HashTable : Type 0 where
  pub storage : ℕ
  pub buckets : ℕ → ℕ
  pub bucket_count : ℕ
  pub node_count : ℕ

abbrev offset_basis : ℕ
offset_basis = 14695981039346656037

abbrev prime : ℕ
prime = 1099511628211

abbrev is_power_of_2 : ℕ → Bool
is_power_of_2 value = bit_and value (sub64 value 1) == 0

abbrev pub hash_key_create_data : (value size : ℕ) → HashKey
hash_key_create_data value size = record { word = value; size = size }

abbrev pub hash_key_create_u64 : ℕ → HashKey
hash_key_create_u64 value = record { word = value; size = 0 }

unfoldable pub hash_table_init :
    Option HashTable → (bucket_count storage : ℕ) → Status × Option HashTable
hash_table_init none bucket_count storage = (fail, none)
hash_table_init (some t) bucket_count storage =
    if bucket_count == 0 || not (is_power_of_2 bucket_count)
    then (fail, some t)
    else if storage == null
    then (fail, some (record t { storage = null }))
    else (
      ok,
      some (record {
        storage = storage;
        buckets = λ i. null;
        bucket_count = bucket_count;
        node_count = 0;
      }),
    )

-- FNV-1a over the bytes from index `i` on.
unfoldable pub hash_from : (byte : ℕ → ℕ) → (i rounds hash : ℕ) → ℕ
hash_from byte i zero hash = hash
hash_from byte i (suc rounds) hash =
    hash_from byte (i + 1) rounds (mul64 (bit_xor hash (byte i)) prime)

abbrev hash_function : (byte : ℕ → ℕ) → (size : ℕ) → ℕ
hash_function byte size = hash_from byte 0 size offset_basis

-- A number is hashed by its eight bytes, the lowest first.
unfoldable pub hash_key_to_index : Mem → (bucket_count : ℕ) → HashKey → ℕ
hash_key_to_index m bucket_count key =
    bit_and
      (if key.size == 0
        then hash_function (λ i. key.word / 2 ^ (8 * i) % 256) 8
        else hash_function (λ i. m (key.word + i)) key.size)
      (sub64 bucket_count 1)

abbrev is_equal : Sign → Bool
is_equal equal = true
is_equal minus = false
is_equal plus = false

unfoldable pub key_matches : Mem → (node_key key : HashKey) → Bool
key_matches m node_key key =
    if node_key.size == 0
    then node_key.word == key.word
    else node_key.size == key.size
      && is_equal (memory_compare m node_key.word key.word node_key.size)

-- The first node from `node` on whose key matches, or NULL.
unfoldable pub find_node_from : (fuel : ℕ) → Mem → (node : ℕ) → HashKey → Nodes → Option ℕ
find_node_from zero m node key h = if node == null then some null else none
find_node_from (suc fuel) m node key h =
    let rest = find_node_from fuel m (h.links.next node) key h in
    if node == null then some null else if key_matches m (h.key node) key then some node else rest

abbrev pub find_node_by_bucket :
    (fuel : ℕ) → Mem → HashTable → (bucket : ℕ) → HashKey → Nodes → Option ℕ
find_node_by_bucket fuel m t bucket key h = find_node_from fuel m (t.buckets bucket) key h

abbrev pub find_node : (fuel : ℕ) → Mem → Option HashTable → Option HashKey → Nodes → Option ℕ
find_node fuel m none key h = some null
find_node fuel m (some t) none h = some null
find_node fuel m (some t) (some key) h =
    find_node_by_bucket fuel m t (hash_key_to_index m t.bucket_count key) key h

-- The data, or `none` inside if the call fails; `present` says that the pointer for it is not NULL.
unfoldable pub hash_table_get :
    (fuel : ℕ)
    → Mem
    → Option HashTable
    → Option HashKey
    → (present : Bool) → Nodes
    → Option (Option ℕ)
hash_table_get fuel m none key present h = some none
hash_table_get fuel m (some t) none present h = some none
hash_table_get fuel m (some t) (some key) present h =
    if not present then some none else elim (find_node fuel m (some t) (some key) h) [
      | none ↦ none
      | some node ↦ if node == null then some none else some (some (h.value node))
    ]

unfoldable pub hash_table_contains :
    (fuel : ℕ) → Mem → Option HashTable → Option HashKey → Nodes → Option Bool
hash_table_contains fuel m t key h = elim (find_node fuel m t key h) [
  | none ↦ none
  | some node ↦ some (not (node == null))
]

abbrev pub with_data : (node value : ℕ) → Nodes → Nodes
with_data node value h = record h { value = update h.value node value }

-- A new node before the first one of a chain.
abbrev pub with_node : (node head : ℕ) → HashKey → Nodes → Nodes
with_node node head key h = record h {
  key = update h.key node key;
  links = link_first head node h.links;
  allocated = update h.allocated node true;
}

abbrev pub with_bucket : (bucket node : ℕ) → HashTable → HashTable
with_bucket bucket node t = record t {
  buckets = update t.buckets bucket node;
  node_count = add64 t.node_count 1;
}

unfoldable pub hash_table_set :
    (fuel : ℕ)
    → Mem
    → Option HashTable
    → Option HashKey
    → (value new_node : ℕ) → Nodes
    → Option (Status × Option HashTable × Nodes)
hash_table_set fuel m none key value new_node h = some (fail, none, h)
hash_table_set fuel m (some t) none value new_node h = some (fail, some t, h)
hash_table_set fuel m (some t) (some key) value new_node h =
    if value == null
    then some (fail, some t, h)
    else let bucket = hash_key_to_index m t.bucket_count key in
      elim (find_node_by_bucket fuel m t bucket key h) [
        | none ↦ none
        | some node ↦
            if not (node == null)
            then some (ok, some t, with_data node value h)
            else if new_node == null
            then some (fail, some t, h)
            else some (
              ok,
              some (with_bucket bucket new_node t),
              with_data new_node value (with_node new_node (t.buckets bucket) key h),
            )
      ]

-- `node->next->prev = NULL` with a NULL next node is a fault.
pub data Removal : Type 0 where
  fault : Removal
  returns : Status → Option HashTable → Nodes → Removal

abbrev pub freed_node : ℕ → Nodes → Nodes
freed_node node h = record h { allocated = update h.allocated node false }

-- The neighbours of a node become neighbours.
abbrev pub bypass : ℕ → Links → Links
bypass x l = record {
  next = if l.prev x == null then l.next else update l.next (l.prev x) (l.next x);
  prev = if l.next x == null then l.prev else update l.prev (l.next x) (l.prev x);
}

unfoldable pub remove_node : (bucket node : ℕ) → HashTable → Nodes → Removal
remove_node bucket node t h =
    if t.buckets bucket == node
    then if h.links.next node == null
      then fault
      else returns ok (some (record t { buckets = update t.buckets bucket (h.links.next node) })) (
          freed_node node (record h {
            links = record h.links { prev = update h.links.prev (h.links.next node) null };
          }))
    else returns ok (some t) (freed_node node (record h { links = bypass node h.links }))

unfoldable pub hash_table_remove :
    (fuel : ℕ) → Mem → Option HashTable → Option HashKey → Nodes → Option Removal
hash_table_remove fuel m none key h = some (returns fail none h)
hash_table_remove fuel m (some t) none h = some (returns fail (some t) h)
hash_table_remove fuel m (some t) (some key) h =
    let bucket = hash_key_to_index m t.bucket_count key in
    elim (find_node_by_bucket fuel m t bucket key h) [
      | none ↦ none
      | some node ↦
          if node == null
          then some (returns fail (some t) h)
          else some (remove_node bucket node t h)
    ]

unfoldable pub free_chain : (fuel node : ℕ) → Nodes → Option Nodes
free_chain zero node h = if node == null then some h else none
free_chain (suc fuel) node h =
    let rest = free_chain fuel (h.links.next node) (freed_node node h) in
    if node == null then some h else rest

-- The buckets from `i` on.
unfoldable pub free_buckets : (fuel i count : ℕ) → HashTable → Nodes → Option (HashTable × Nodes)
free_buckets fuel i zero t h = some (t, h)
free_buckets fuel i (suc count) t h = elim (free_chain fuel (t.buckets i) h) [
  | none ↦ none
  | some h' ↦ free_buckets fuel (i + 1) count (record t { buckets = update t.buckets i null }) h'
]

unfoldable pub hash_table_destroy :
    (fuel : ℕ) → Option HashTable → Nodes → Option (Status × Option HashTable × Nodes)
hash_table_destroy fuel none h = some (fail, none, h)
hash_table_destroy fuel (some t) h = elim (free_buckets fuel 0 t.bucket_count t h) [
  | none ↦ none
  | some (t', h') ↦ some (
    ok,
    some (record t' { storage = null; bucket_count = 0; node_count = 0 }),
    freed_node t'.storage h',
  )
]
