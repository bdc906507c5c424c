-- ===== src/HashTable/Remove.antt =====
-- hash_table_remove and its three outcomes.
use native.Mathlib.Decide.{ℕ_discrete}
use z_os.Base.{
  In, update, update_self, update_other, ℕ, ◌≤◌, ◌<◌, ◌≡◌, ◌≢◌, ◌⊎◌, inl, inr, refl, sym, ap, ◌∙◌,
  fun_ext, some, ok, fail, List, [], ◌∷◌, length, null, ◌==◌, ==-false, ==-true, if◌then◌else◌,
}
use z_os.Memory.{Mem}
use z_os.Links.{Links, head_of, Linked, Linked-ne_null, erase}
use z_os.Links.Unlink.{head_of-erase}
use z_os.Links.Neighbours.{prev_cases}
use z_os.HashTable.{
  HashKey, Nodes, HashTable, Removal, fault, returns, hash_key_to_index, find_node_by_bucket,
  freed_node, bypass, remove_node, hash_table_remove,
}
use z_os.HashTable.Chains.{
  IsTable, hash_key_to_index-bound, first_match-Matched, node_of, find_node_by_bucket-node_of,
}
use z_os.HashTable.Removed.{Removed, bypassed-Removed}

update_id : (f : ℕ → ℕ) (p : ℕ) → update f p (f p) ≡ f
update_id f p = fun_ext (λ q. elim (ℕ_discrete q p) [
  | yes e ↦ ap (update f p (f p)) e ∙ update_self f p (f p) ∙ ap f (sym e)
  | no n ↦ update_other f p q (f p) n
])

head_fault :
    (bucket node : ℕ) (t : HashTable) (h : Nodes)
    → t.buckets bucket ≡ node
    → h.links.next node ≡ 0
    → remove_node bucket node t h ≡ fault
unfolding remove_node
head_fault bucket node t h e z =
    rw (==-true (t.buckets bucket) node e, ==-true (h.links.next node) 0 z) refl

head_links :
    (x : ℕ) (l : Links)
    → l.prev x ≡ 0
    → l.next x ≢ 0
    → record l { prev = update l.prev (l.next x) null } ≡ bypass x l
head_links x l e n =
    rw (==-true (l.prev x) 0 e, ==-false (l.next x) 0 n)
      (ap (λ w. record l { prev = update l.prev (l.next x) w }) (sym e))

head_call :
    (bucket node : ℕ) (t : HashTable) (h : Nodes)
    → t.buckets bucket ≡ node
    → h.links.next node ≢ 0
    → remove_node bucket node t h
      ≡ returns ok (some (record t { buckets = update t.buckets bucket (h.links.next node) })) (
          freed_node node (record h {
            links = record h.links { prev = update h.links.prev (h.links.next node) null };
          }))
unfolding remove_node
head_call bucket node t h e n =
    rw (==-true (t.buckets bucket) node e, ==-false (h.links.next node) 0 n) refl

head_returns :
    (bucket node : ℕ) (t : HashTable) (h : Nodes)
    → t.buckets bucket ≡ node
    → h.links.prev node ≡ 0
    → h.links.next node ≢ 0
    → remove_node bucket node t h
      ≡ returns ok
          (some (record t { buckets = update t.buckets bucket (h.links.next node) }))
          (freed_node node (record h { links = bypass node h.links }))
head_returns bucket node t h e p n =
    head_call bucket node t h e n
    ∙ ap
        (λ l.
          returns ok (some (record t { buckets = update t.buckets bucket (h.links.next node) }))
            (freed_node node (record h { links = l })))
        (head_links node h.links p n)

other_returns :
    (bucket node : ℕ) (t : HashTable) (h : Nodes)
    → t.buckets bucket ≢ node
    → remove_node bucket node t h
      ≡ returns ok
          (some (record t { buckets = update t.buckets bucket (t.buckets bucket) }))
          (freed_node node (record h { links = bypass node h.links }))
unfolding remove_node
other_returns bucket node t h n = rw (==-false (t.buckets bucket) node n) (
    ap
      (λ f.
        returns ok (some (record t { buckets = f }))
          (freed_node node (record h { links = bypass node h.links })))
      (sym (update_id t.buckets bucket)))

-- What becomes of a node that the table has.
abbrev pub Outcome : (bucket node : ℕ) → (ℕ → List ℕ) → HashTable → Nodes → Removal → Type 0
Outcome bucket node chains t h r =
    ((chains bucket ≡ node ∷ []) × (r ≡ fault))
    ⊎ ((t' : HashTable) × (h' : Nodes) × (r ≡ returns ok (some t') h')
        × Removed node bucket chains h t' h')

head_prev :
    (l : Links) (x : ℕ) (xs : List ℕ) → Linked l 0 xs → In x xs → head_of xs ≡ x → l.prev x ≡ 0
head_prev l x [] h i e = elim i [ ]
head_prev l x (y ∷ ys) h i e = ap l.prev (sym e) ∙ h.1

alone :
    (l : Links) (x : ℕ) (xs : List ℕ)
    → Linked l 0 xs
    → x ≡ head_of xs
    → l.next x ≡ 0
    → In x xs
    → xs ≡ x ∷ []
alone l x [] h e z i = elim i [ ]
alone l x (y ∷ []) h e z i = ap (λ w. w ∷ []) (sym e)
alone l x (y ∷ w ∷ ws) h e z i = absurd (h.3.0 (sym h.2 ∙ ap l.next (sym e) ∙ z))

first_node :
    (l : Links) (x : ℕ) (xs : List ℕ)
    → Linked l 0 xs
    → In x xs
    → ((head_of xs ≡ x) × (l.prev x ≡ 0) × (l.next x ≡ 0) × (xs ≡ x ∷ []))
      ⊎ (((head_of xs ≡ x) × (l.prev x ≡ 0) × (l.next x ≢ 0)) ⊎ ((head_of xs ≢ x) × (l.prev x ≢ 0)))
first_node l x xs h i = elim (prev_cases l 0 x xs h i) [
  | inl (e, p) ↦ elim (ℕ_discrete (l.next x) 0) [
    | yes z ↦ inl (sym e, p, z, alone l x xs h e z i)
    | no n ↦ inr (inl (sym e, p, n))
  ]
  | inr (j, p) ↦
      let n : l.prev x ≢ 0 = Linked-ne_null l 0 (l.prev x) xs h j in
      inr (inr ((λ e. n (head_prev l x xs h i e)), n))
]

remove_node-Outcome :
    (node bucket : ℕ) (chains : ℕ → List ℕ) (t : HashTable) (h : Nodes)
    → IsTable chains t h
    → bucket < t.bucket_count
    → In node (chains bucket)
    → Outcome bucket node chains t h (remove_node bucket node t h)
remove_node-Outcome node bucket chains t h v b k =
    let chain : List ℕ = chains bucket in
    let first : head_of (erase node chain)
        ≡ (if h.links.prev node == 0 then h.links.next node else head_of chain) =
      head_of-erase h.links node chain (v.linked bucket b) k in
    let h' : Nodes = freed_node node (record h { links = bypass node h.links }) in
    elim (first_node h.links node chain (v.linked bucket b) k) [
      | inl (e, p, z, one) ↦ inl (one, head_fault bucket node t h (v.head bucket b ∙ e) z)
      | inr (inl (e, p, n)) ↦
          let next : ℕ = h.links.next node in
          inr (
            record t { buckets = update t.buckets bucket next },
            h',
            head_returns bucket node t h (v.head bucket b ∙ e) p n,
            bypassed-Removed node bucket chains t h next v b k (
                sym (
                  first
                  ∙ ap (λ w. if w then next else head_of chain) (==-true (h.links.prev node) 0 p))),
          )
      | inr (inr (m, n)) ↦
          let same : ℕ = t.buckets bucket in
          inr (
            record t { buckets = update t.buckets bucket same },
            h',
            other_returns bucket node t h (λ e. m (sym (v.head bucket b) ∙ e)),
            bypassed-Removed node bucket chains t h same v b k (
                v.head bucket b
                ∙ sym (
                    first
                    ∙ ap (λ w. if w then h.links.next node else head_of chain)
                        (==-false (h.links.prev node) 0 n))),
          )
    ]

absent_call :
    (fuel : ℕ) (m : Mem) (t : HashTable) (key : HashKey) (node : ℕ) (h : Nodes)
    → find_node_by_bucket fuel m t (hash_key_to_index m t.bucket_count key) key h ≡ some node
    → node ≡ 0
    → hash_table_remove fuel m (some t) (some key) h ≡ some (returns fail (some t) h)
unfolding hash_table_remove
absent_call fuel m t key node h e z = rw (hash_table_remove, e, ==-true node 0 z) refl

present_call :
    (fuel : ℕ) (m : Mem) (t : HashTable) (key : HashKey) (node : ℕ) (h : Nodes)
    → find_node_by_bucket fuel m t (hash_key_to_index m t.bucket_count key) key h ≡ some node
    → node ≢ 0
    → hash_table_remove fuel m (some t) (some key) h
      ≡ some (remove_node (hash_key_to_index m t.bucket_count key) node t h)
unfolding hash_table_remove
present_call fuel m t key node h e n = rw (hash_table_remove, e, ==-false node 0 n) refl

-- On a table whose buckets are chains of the heap, with fuel for the chain of the key,
-- hash_table_remove fails and changes nothing if the table has no node for the key; it faults if
-- the node is the only one of its bucket; otherwise it takes exactly that node out of its chain,
-- gives it back, and leaves the keys and values of all nodes.
pub hash_table_remove-Outcome :
    (fuel : ℕ) (m : Mem) (chains : ℕ → List ℕ) (t : HashTable) (key : HashKey) (h : Nodes)
    → IsTable chains t h
    → length (chains (hash_key_to_index m t.bucket_count key)) ≤ fuel
    → ((node_of m chains t key h ≡ 0)
        × (hash_table_remove fuel m (some t) (some key) h ≡ some (returns fail (some t) h)))
      ⊎ ((r : Removal) × (hash_table_remove fuel m (some t) (some key) h ≡ some r)
          × Outcome
              (hash_key_to_index m t.bucket_count key)
              (node_of m chains t key h)
              chains
              t
              h
              r)
hash_table_remove-Outcome fuel m chains t key h v f =
    let bucket : ℕ = hash_key_to_index m t.bucket_count key in
    let node : ℕ = node_of m chains t key h in
    let e = find_node_by_bucket-node_of fuel m chains t key h v f in
    let b : bucket < t.bucket_count =
      hash_key_to_index-bound m t.bucket_count key v.count v.small in
    elim (first_match-Matched m key h.key (chains bucket)) [
      | inl z ↦ inl (z, absent_call fuel m t key node h e z)
      | inr (k, g) ↦
          let n : node ≢ 0 = Linked-ne_null h.links 0 node (chains bucket) (v.linked bucket b) k in
          inr (
            remove_node bucket node t h,
            present_call fuel m t key node h e n,
            remove_node-Outcome node bucket chains t h v b k,
          )
    ]
