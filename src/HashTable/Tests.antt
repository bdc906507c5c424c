-- ===== src/HashTable/Tests.antt =====
-- A table of one bucket with two nodes, and the theorems at it.
use z_os.Base.{
  ℕ, ◌+◌, ◌≡◌, ◌⊎◌, inl, inr, refl, true, some, ok, fail, List, [], ◌∷◌, arith, ◌==◌, if◌then◌else◌,
}
use z_os.Memory.{Mem}
use z_os.HashTable.{
  Nodes, HashTable, Removal, returns, hash_key_create_u64, hash_key_to_index, hash_table_get,
  hash_table_set, hash_table_remove,
}
use z_os.HashTable.Chains.{IsTable, node_of}
use z_os.HashTable.Set.{Stored, hash_table_set-Stored, hash_table_get-set}
use z_os.HashTable.Remove.{Outcome, hash_table_remove-Outcome}

abbrev memory : Mem
memory a = 0

abbrev nodes : Nodes
nodes = record {
  key = λ x. hash_key_create_u64 (if x == 0x10 then 7 else 5);
  value = λ x. x + 1;
  links = record {
    next = λ x. if x == 0x20 then 0x10 else 0;
    prev = λ x. if x == 0x10 then 0x20 else 0;
  };
  allocated = λ x. if x == 0x10 then true else x == 0x20;
}

abbrev table : HashTable
table = record { storage = 0x100; buckets = λ i. 0x20; bucket_count = 1; node_count = 2 }

abbrev chains : ℕ → List ℕ
chains i = 0x20 ∷ 0x10 ∷ []

table-IsTable : IsTable chains table nodes
table-IsTable = record {
  head = λ i p. refl;
  linked = λ i p. (omega arith, refl, refl, (omega arith, refl, refl, tt));
  once = λ i p. ((λ k. elim k [ inl e ↦ omega (arith, e) | inr j ↦ j ]), ((λ k. k), tt));
  live = λ i x p k. elim k [
    | inl e ↦ ground arith
    | inr j ↦ elim j [ inl e ↦ ground arith | inr l ↦ elim l [ ] ]
  ];
  apart = λ i j x p q k l. omega (arith, p, q);
  count = omega arith;
  small = omega arith;
}

hash_table_set-Stored_example :
    (t' : HashTable) × (h' : Nodes) × (hash_table_set 2 memory
        (some table)
        (some (hash_key_create_u64 9))
        44
        0x30
        nodes
      ≡ some (ok, some t', h'))
    × Stored memory (hash_key_create_u64 9) 44 chains table nodes t' h'
hash_table_set-Stored_example =
    hash_table_set-Stored 2 memory chains table (hash_key_create_u64 9) 44 0x30 nodes table-IsTable
      (omega arith) (omega arith) (omega arith) refl

hash_table_get-set_example :
    (t' : HashTable) × (h' : Nodes) × (hash_table_set 2 memory
        (some table)
        (some (hash_key_create_u64 7))
        44
        0x30
        nodes
      ≡ some (ok, some t', h'))
    × (hash_table_get 3 memory (some t') (some (hash_key_create_u64 7)) true h' ≡ some (some 44))
hash_table_get-set_example =
    hash_table_get-set 2 memory chains table (hash_key_create_u64 7) 44 0x30 nodes table-IsTable
      (λ i. omega arith) (omega arith) (omega arith) refl

hash_table_remove-Outcome_example :
    ((node_of memory chains table (hash_key_create_u64 7) nodes ≡ 0)
      × (hash_table_remove 2 memory (some table) (some (hash_key_create_u64 7)) nodes
          ≡ some (returns fail (some table) nodes)))
    ⊎ ((r : Removal) × (hash_table_remove 2 memory (some table) (some (hash_key_create_u64 7)) nodes
          ≡ some r)
        × Outcome
            (hash_key_to_index memory 1 (hash_key_create_u64 7))
            (node_of memory chains table (hash_key_create_u64 7) nodes)
            chains
            table
            nodes
            r)
hash_table_remove-Outcome_example =
    hash_table_remove-Outcome 2 memory chains table (hash_key_create_u64 7) nodes table-IsTable
      (omega arith)
