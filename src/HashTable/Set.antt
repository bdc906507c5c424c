-- ===== src/HashTable/Set.antt =====
-- hash_table_set: a new value for a node, or a new node.
use native.Mathlib.Decide.{ℕ_discrete}
use z_os.Base.{
  not_both, In, ne_of_mem, update, update_self, update_other, ℕ, suc, ◌≤◌, ◌<◌, ◌≡◌, ◌≢◌, inl, inr,
  refl, sym, ap, ◌∙◌, true, false, none, some, ok, List, ◌∷◌, length, arith, ◌==◌, ==-false,
  ==-true, if◌then◌else◌,
}
use z_os.Memory.{Mem}
use z_os.HashTable.{
  HashKey, Nodes, HashTable, hash_key_to_index, key_matches, find_node_by_bucket, with_data,
  with_bucket, hash_table_set, hash_table_get,
}
use z_os.HashTable.Chains.{
  IsTable, hash_key_to_index-bound, key_matches_self, first_match, first_match-Matched, node_of,
  find_node_by_bucket-node_of, data_at, hash_table_get-data_at,
}
use z_os.HashTable.Grown.{
  grown, placed, grown-IsTable, grown-first_match, grown-length, first_match-here,
}

-- The key has the value, and what the table has for a key that the node of the first one does not
-- match is as it was.
pub record Stored (m : Mem) (key : HashKey) (value : ℕ) (chains : ℕ → List ℕ) (t : HashTable)
    (h : Nodes) (t' : HashTable) (h' : Nodes) : Type 0 where
  pub chains' : ℕ → List ℕ
  pub valid : IsTable chains' t' h'
  pub longer : (i : ℕ) → length (chains' i) ≤ suc (length (chains i))
  pub stored : data_at (node_of m chains' t' key h') h' ≡ some value
  pub others :
      (other : HashKey)
      → key_matches m (h'.key (node_of m chains' t' key h')) other ≡ false
      → data_at (node_of m chains' t' other h') h' ≡ data_at (node_of m chains t other h) h

replaced-Stored :
    (m : Mem) (key : HashKey) (value : ℕ) (chains : ℕ → List ℕ) (t : HashTable) (h : Nodes)
    → IsTable chains t h
    → node_of m chains t key h ≢ 0
    → Stored m key value chains t h t (with_data (node_of m chains t key h) value h)
replaced-Stored m key value chains t h v n =
    let node : ℕ = node_of m chains t key h in
    let h' : Nodes = with_data node value h in
    record {
      chains' = chains;
      valid = record {
        head = v.head;
        linked = v.linked;
        once = v.once;
        live = v.live;
        apart = v.apart;
        count = v.count;
        small = v.small;
      };
      longer = λ i. omega arith;
      stored = rw (==-false node 0 n) (ap some (update_self h.value node value));
      others = λ other e.
          let found : ℕ = node_of m chains t other h in
          elim (first_match-Matched m other h.key
            (chains (hash_key_to_index m t.bucket_count other))) [
              | inl z ↦ rw (==-true found 0 z) refl
              | inr (i, g) ↦
                  let d : found ≢ node =
                    λ q. not_both _ (ap (λ w. key_matches m (h.key w) other) (sym q) ∙ g) e in
                  ap (λ w. if found == 0 then none else some w)
                    (update_other h.value node found value d)
            ];
    }

placed-Stored :
    (m : Mem) (key : HashKey) (value node : ℕ) (chains : ℕ → List ℕ) (t : HashTable) (h : Nodes)
    → IsTable chains t h
    → node ≢ 0
    → h.allocated node ≡ false
    → Stored m key value chains t h
        (with_bucket (hash_key_to_index m t.bucket_count key) node t)
        (placed (hash_key_to_index m t.bucket_count key) node value key t h)
placed-Stored m key value node chains t h v n fresh =
    let bucket : ℕ = hash_key_to_index m t.bucket_count key in
    let b : bucket < t.bucket_count =
      hash_key_to_index-bound m t.bucket_count key v.count v.small in
    let keys' : ℕ → HashKey = update h.key node key in
    let values' : ℕ → ℕ = update h.value node value in
    let h' : Nodes = placed bucket node value key t h in
    let t' : HashTable = with_bucket bucket node t in
    let at : node_of m (grown bucket node chains) t' key h' ≡ node =
      ap (first_match m key keys') (update_self chains bucket (node ∷ chains bucket))
      ∙ first_match-here m key keys' node (chains bucket)
          (ap (λ w. key_matches m w key) (update_self h.key node key) ∙ key_matches_self m key) in
    record {
      chains' = grown bucket node chains;
      valid = grown-IsTable chains t h bucket node value key v b n fresh;
      longer = λ i. grown-length bucket node i chains;
      stored =
          ap (λ w. data_at w h') at
          ∙ ap (λ w. if w then none else some (values' node)) (==-false node 0 n)
          ∙ ap some (update_self h.value node value);
      others = λ other e.
          let j : ℕ = hash_key_to_index m t.bucket_count other in
          let new : ¬ In node (chains j) = λ c.
            not_both (h.allocated node)
              (v.live j node (hash_key_to_index-bound m t.bucket_count other v.count v.small) c)
              fresh in
          let e' : key_matches m key other ≡ false =
            ap (λ w. key_matches m w other) (sym (ap keys' at ∙ update_self h.key node key)) ∙ e in
          let found : ℕ = node_of m chains t other h in
          let same : node_of m (grown bucket node chains) t' other h' ≡ found =
            grown-first_match m other key h.key chains bucket node j new e' in
          ap (λ w. data_at w h') same ∙ elim (first_match-Matched m other h.key (chains j)) [
            | inl z ↦ rw (==-true found 0 z) refl
            | inr (i, g) ↦
                ap (λ w. if found == 0 then none else some w)
                  (update_other h.value node found value (ne_of_mem found node (chains j) i new))
          ];
    }

replaced_call :
    (fuel : ℕ) (m : Mem) (t : HashTable) (key : HashKey) (value new_node node : ℕ) (h : Nodes)
    → find_node_by_bucket fuel m t (hash_key_to_index m t.bucket_count key) key h ≡ some node
    → value ≢ 0
    → node ≢ 0
    → hash_table_set fuel m (some t) (some key) value new_node h
      ≡ some (ok, some t, with_data node value h)
unfolding hash_table_set
replaced_call fuel m t key value new_node node h e v n =
    rw (==-false value 0 v, e, ==-false node 0 n) refl

placed_call :
    (fuel : ℕ) (m : Mem) (t : HashTable) (key : HashKey) (value new_node node : ℕ) (h : Nodes)
    → find_node_by_bucket fuel m t (hash_key_to_index m t.bucket_count key) key h ≡ some node
    → value ≢ 0
    → node ≡ 0
    → new_node ≢ 0
    → hash_table_set fuel m (some t) (some key) value new_node h
      ≡ some (
        ok,
        some (with_bucket (hash_key_to_index m t.bucket_count key) new_node t),
        placed (hash_key_to_index m t.bucket_count key) new_node value key t h,
      )
unfolding hash_table_set
placed_call fuel m t key value new_node node h e v z n =
    rw (==-false value 0 v, e, ==-true node 0 z, ==-false new_node 0 n) refl

-- On a table whose buckets are chains of the heap, with fuel for the chain of the key, a value
-- that is not NULL and a node from kmalloc, hash_table_set succeeds: the key has the value, every
-- other key that the node of this one does not match has what it had, and the buckets are chains
-- again.
pub hash_table_set-Stored :
    (fuel : ℕ) (m : Mem) (chains : ℕ → List ℕ) (t : HashTable) (key : HashKey) (value new_node : ℕ)
    (h : Nodes)
    → IsTable chains t h
    → length (chains (hash_key_to_index m t.bucket_count key)) ≤ fuel
    → value ≢ 0
    → new_node ≢ 0
    → h.allocated new_node ≡ false
    → (t' : HashTable) × (h' : Nodes) × (hash_table_set fuel m (some t) (some key) value new_node h
        ≡ some (ok, some t', h'))
      × Stored m key value chains t h t' h'
hash_table_set-Stored fuel m chains t key value new_node h v f p q fresh =
    let bucket : ℕ = hash_key_to_index m t.bucket_count key in
    let node : ℕ = node_of m chains t key h in
    let e = find_node_by_bucket-node_of fuel m chains t key h v f in
    elim (ℕ_discrete node 0) [
      | no n ↦ (
        t,
        with_data node value h,
        replaced_call fuel m t key value new_node node h e p n,
        replaced-Stored m key value chains t h v n,
      )
      | yes z ↦ (
        with_bucket bucket new_node t,
        placed bucket new_node value key t h,
        placed_call fuel m t key value new_node node h e p z q,
        placed-Stored m key value new_node chains t h v q fresh,
      )
    ]

-- On such a table, with fuel for every chain, hash_table_set succeeds, and hash_table_get of the
-- same key, with fuel for one node more, gives the value that was set.
pub hash_table_get-set :
    (fuel : ℕ) (m : Mem) (chains : ℕ → List ℕ) (t : HashTable) (key : HashKey) (value new_node : ℕ)
    (h : Nodes)
    → IsTable chains t h
    → ((i : ℕ) → length (chains i) ≤ fuel)
    → value ≢ 0
    → new_node ≢ 0
    → h.allocated new_node ≡ false
    → (t' : HashTable) × (h' : Nodes) × (hash_table_set fuel m (some t) (some key) value new_node h
        ≡ some (ok, some t', h'))
      × (hash_table_get (suc fuel) m (some t') (some key) true h' ≡ some (some value))
hash_table_get-set fuel m chains t key value new_node h v f p q fresh =
    let bucket : ℕ = hash_key_to_index m t.bucket_count key in
    let (t', h', e, s) =
      hash_table_set-Stored fuel m chains t key value new_node h v (f bucket) p q fresh in
    let i : ℕ = hash_key_to_index m t'.bucket_count key in
    (
      t',
      h',
      e,
      hash_table_get-data_at (suc fuel) m s.chains' t' key h' s.valid
            (omega (arith, s.longer i, f i))
          ∙ ap some s.stored,
    )
