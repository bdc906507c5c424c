-- ===== src/HashTable/Chains.antt =====
-- The table as the chains of its buckets.
use Prim.Native.Nat.{bit_and}
use z_os.Base.{
  In, Once, ℕ, zero, suc, ◌/◌, ◌^◌, ◌≤◌, ◌<◌, ◌≡◌, ◌⊎◌, inl, inr, refl, sym, ap, ◌∙◌, subst, true,
  Bool-cases, Option, none, some, List, [], ◌∷◌, length, arith, sub64, ◌==◌, ==-false, ==-true,
  if◌then◌else◌,
}
use z_os.Bits.{bit_and_step, zero-bit_and}
use z_os.Memory.{Mem}
use z_os.Memory.Compare.{memory_compare-equal}
use z_os.Links.{head_of, Linked}
use z_os.HashTable.{
  HashKey, Nodes, HashTable, hash_key_to_index, key_matches, find_node_from, find_node_by_bucket,
  hash_table_get,
}

-- Every bucket heads a chain of nodes from kmalloc, and no node stands in two chains.
pub record IsTable (chains : ℕ → List ℕ) (t : HashTable) (h : Nodes) : Type 0 where
  pub head : (i : ℕ) → i < t.bucket_count → t.buckets i ≡ head_of (chains i)
  pub linked : (i : ℕ) → i < t.bucket_count → Linked h.links 0 (chains i)
  pub once : (i : ℕ) → i < t.bucket_count → Once (chains i)
  pub live : (i x : ℕ) → i < t.bucket_count → In x (chains i) → h.allocated x ≡ true
  pub apart :
      (i j x : ℕ)
      → i < t.bucket_count
      → j < t.bucket_count
      → In x (chains i)
      → In x (chains j)
      → i ≡ j
  pub count : 0 < t.bucket_count
  pub small : t.bucket_count < 2 ^ 64

bit_and-le_from : (fuel x y : ℕ) → x ≤ fuel → bit_and x y ≤ y
bit_and-le_from zero x y f =
    let e : x ≡ 0 = omega arith in omega (arith, ap (λ w. bit_and w y) e ∙ zero-bit_and y)
bit_and-le_from (suc fuel) x y f =
    omega (arith, bit_and_step x y, bit_and-le_from fuel (x / 2) (y / 2) (omega arith))

bit_and-le : (x y : ℕ) → bit_and x y ≤ y
bit_and-le x y = bit_and-le_from x x y (omega arith)

below : (n a : ℕ) → 0 < n → n < 2 ^ 64 → a ≤ sub64 n 1 → a < n
below n a p s h = omega (arith, h)

pub hash_key_to_index-bound :
    (m : Mem) (n : ℕ) (key : HashKey) → 0 < n → n < 2 ^ 64 → hash_key_to_index m n key < n
unfolding hash_key_to_index
hash_key_to_index-bound m n key p s = below n _ p s (bit_and-le _ (sub64 n 1))

pub key_matches_self : (m : Mem) (key : HashKey) → key_matches m key key ≡ true
unfolding key_matches
key_matches_self m key = elim (Bool-cases (key.size == 0)) [
  | inl e ↦ rw e (==-true key.word key.word refl)
  | inr e ↦
      rw
        (
          e,
          ==-true key.size key.size refl,
          (memory_compare-equal m key.word key.word key.size).1 refl,
        )
        refl
]

-- The first node of a chain whose key matches.
abbrev pub first_match : Mem → HashKey → (ℕ → HashKey) → List ℕ → ℕ
first_match m key keys [] = 0
first_match m key keys (x ∷ xs) =
    let rest = first_match m key keys xs in if key_matches m (keys x) key then x else rest

find_node_from-first_match :
    (fuel : ℕ) (m : Mem) (key : HashKey) (before : ℕ) (h : Nodes) (chain : List ℕ)
    → Linked h.links before chain
    → length chain ≤ fuel
    → find_node_from fuel m (head_of chain) key h ≡ some (first_match m key h.key chain)
unfolding find_node_from
find_node_from-first_match zero m key before h [] l f = refl
find_node_from-first_match (suc fuel) m key before h [] l f = refl
find_node_from-first_match zero m key before h (x ∷ xs) l f = absurd (omega (arith, f))
find_node_from-first_match (suc fuel) m key before h (x ∷ xs) l f =
    let ih : find_node_from fuel m (h.links.next x) key h ≡ some (first_match m key h.key xs) =
      ap (λ w. find_node_from fuel m w key h) l.2
      ∙ find_node_from-first_match fuel m key x h xs l.3 (omega (arith, f)) in
    elim (Bool-cases (key_matches m (h.key x) key)) [
      | inl e ↦ rw (==-false x 0 l.0, e) refl
      | inr e ↦ rw (==-false x 0 l.0, e, ih) refl
    ]

abbrev pub Matched : Mem → HashKey → (ℕ → HashKey) → List ℕ → ℕ → Type 0
Matched m key keys chain x = (x ≡ 0) ⊎ (In x chain × (key_matches m (keys x) key ≡ true))

pub first_match-Matched :
    (m : Mem) (key : HashKey) (keys : ℕ → HashKey) (chain : List ℕ)
    → Matched m key keys chain (first_match m key keys chain)
first_match-Matched m key keys [] = inl refl
first_match-Matched m key keys (x ∷ xs) = elim (Bool-cases (key_matches m (keys x) key)) [
  | inl e ↦ subst (Matched m key keys (x ∷ xs)) (sym (rw e refl)) (inr (inl refl, e))
  | inr e ↦
      subst (Matched m key keys (x ∷ xs)) (sym (rw e refl))
        (elim (first_match-Matched m key keys xs) [ inl z ↦ inl z | inr p ↦ inr (inr p.0, p.1) ])
]

-- The node that the table has for a key.
abbrev pub node_of : Mem → (chains : ℕ → List ℕ) → HashTable → HashKey → Nodes → ℕ
node_of m chains t key h = first_match m key h.key (chains (hash_key_to_index m t.bucket_count key))

pub find_node_by_bucket-node_of :
    (fuel : ℕ) (m : Mem) (chains : ℕ → List ℕ) (t : HashTable) (key : HashKey) (h : Nodes)
    → IsTable chains t h
    → length (chains (hash_key_to_index m t.bucket_count key)) ≤ fuel
    → find_node_by_bucket fuel m t (hash_key_to_index m t.bucket_count key) key h
      ≡ some (node_of m chains t key h)
find_node_by_bucket-node_of fuel m chains t key h v f =
    let i : ℕ = hash_key_to_index m t.bucket_count key in
    let b : i < t.bucket_count = hash_key_to_index-bound m t.bucket_count key v.count v.small in
    ap (λ w. find_node_from fuel m w key h) (v.head i b)
    ∙ find_node_from-first_match fuel m key 0 h (chains i) (v.linked i b) f

-- What `hash_table_get` gives for a node.
abbrev pub data_at : ℕ → Nodes → Option ℕ
data_at node h = if node == 0 then none else some (h.value node)

pub hash_table_get-data_at :
    (fuel : ℕ) (m : Mem) (chains : ℕ → List ℕ) (t : HashTable) (key : HashKey) (h : Nodes)
    → IsTable chains t h
    → length (chains (hash_key_to_index m t.bucket_count key)) ≤ fuel
    → hash_table_get fuel m (some t) (some key) true h ≡ some (data_at (node_of m chains t key h) h)
unfolding hash_table_get
hash_table_get-data_at fuel m chains t key h v f =
    let e = find_node_by_bucket-node_of fuel m chains t key h v f in
    elim (Bool-cases (node_of m chains t key h == 0)) [
      | inl z ↦ rw (e, z) refl
      | inr z ↦ rw (e, z) refl
    ]
