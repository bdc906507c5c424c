-- ===== src/HashTable/Grown.antt =====
-- A table with a new node at the head of a chain.
use native.Mathlib.Decide.{ℕ_discrete}
use z_os.Base.{
  not_both, In, Once, ne_of_mem, update, update_self, update_other, ℕ, suc, ◌≤◌, ◌<◌, ◌≡◌, ◌≢◌, ◌⊎◌,
  inl, inr, refl, sym, ap, ap₂, ◌∙◌, subst, true, false, List, [], ◌∷◌, length, arith,
  if◌then◌else◌,
}
use z_os.Memory.{Mem}
use z_os.Links.Unlink.{head_of-In}
use z_os.Links.{Links, head_of, Linked, Linked-ne_null, Linked-same, link_first, link_first-Linked}
use z_os.HashTable.{HashKey, Nodes, HashTable, key_matches, with_data, with_node, with_bucket}
use z_os.HashTable.Chains.{IsTable, first_match}

-- The chains with a new node at the head of one.
abbrev pub grown : (bucket node : ℕ) → (ℕ → List ℕ) → ℕ → List ℕ
grown bucket node chains = update chains bucket (node ∷ chains bucket)

In-grown :
    (bucket node i x : ℕ) (chains : ℕ → List ℕ)
    → In x (grown bucket node chains i)
    → ((x ≡ node) × (i ≡ bucket)) ⊎ In x (chains i)
In-grown bucket node i x chains k = elim (ℕ_discrete i bucket) [
  | yes e ↦
      let k' : In x (node ∷ chains bucket) =
        subst (In x)
          (ap (grown bucket node chains) e ∙ update_self chains bucket (node ∷ chains bucket)) k in
      elim k' [ inl f ↦ inl (f, e) | inr j ↦ inr (subst (λ w. In x (chains w)) (sym e) j) ]
  | no n ↦ inr (subst (In x) (update_other chains bucket i (node ∷ chains bucket) n) k)
]

link_first-next :
    (head node y : ℕ) (l : Links) → y ≢ node → (link_first head node l).next y ≡ l.next y
link_first-next head node y l n = ground arith

link_first-prev :
    (head node y : ℕ) (l : Links) → y ≢ node → y ≢ head → (link_first head node l).prev y ≡ l.prev y
link_first-prev head node y l n m = ground arith

head_of-apart :
    (chains : ℕ → List ℕ) (t : HashTable) (h : Nodes) (i j y : ℕ)
    → IsTable chains t h
    → i < t.bucket_count
    → j < t.bucket_count
    → i ≢ j
    → In y (chains i)
    → y ≢ t.buckets j
head_of-apart chains t h i j y v p q n k e = elim (head_of-In (chains j)) [
  | inl z ↦ Linked-ne_null h.links 0 y (chains i) (v.linked i p) k (e ∙ v.head j q ∙ z)
  | inr c ↦ n (v.apart i j y p q k (subst (λ w. In w (chains j)) (sym (e ∙ v.head j q)) c))
]

grown-Linked :
    (chains : ℕ → List ℕ) (t : HashTable) (h : Nodes) (bucket node i : ℕ)
    → IsTable chains t h
    → bucket < t.bucket_count
    → node ≢ 0
    → h.allocated node ≡ false
    → i < t.bucket_count
    → Linked (link_first (t.buckets bucket) node h.links) 0 (grown bucket node chains i)
grown-Linked chains t h bucket node i v b n fresh p =
    let new : (j : ℕ) → j < t.bucket_count → ¬ In node (chains j) =
      λ j q c. not_both (h.allocated node) (v.live j node q c) fresh in
    let l' : Links = link_first (t.buckets bucket) node h.links in
    elim (ℕ_discrete i bucket) [
      | yes e ↦
          subst (Linked l' 0)
            (sym
              (ap (grown bucket node chains) e ∙ update_self chains bucket (node ∷ chains bucket)))
            (subst (λ w. Linked (link_first w node h.links) 0 (node ∷ chains bucket))
              (sym (v.head bucket b))
              (link_first-Linked h.links node (chains bucket) (v.linked bucket b) (v.once bucket b)
                (new bucket b) n))
      | no m ↦ subst (Linked l' 0) (sym (update_other chains bucket i (node ∷ chains bucket) m)) (
          Linked-same h.links l' 0 (chains i)
            (λ y k.
              let q : y ≢ node = ne_of_mem y node (chains i) k (new i p) in
              (
                link_first-next (t.buckets bucket) node y h.links q,
                link_first-prev (t.buckets bucket) node y h.links q
                    (head_of-apart chains t h i bucket y v p b m k),
              ))
            (v.linked i p))
    ]

-- The state after a new node.
abbrev pub placed : (bucket node value : ℕ) → HashKey → HashTable → Nodes → Nodes
placed bucket node value key t h = with_data node value (with_node node (t.buckets bucket) key h)

pub grown-IsTable :
    (chains : ℕ → List ℕ) (t : HashTable) (h : Nodes) (bucket node value : ℕ) (key : HashKey)
    → IsTable chains t h
    → bucket < t.bucket_count
    → node ≢ 0
    → h.allocated node ≡ false
    → IsTable
        (grown bucket node chains)
        (with_bucket bucket node t)
        (placed bucket node value key t h)
grown-IsTable chains t h bucket node value key v b n fresh =
    let new : (j : ℕ) → j < t.bucket_count → ¬ In node (chains j) =
      λ j q c. not_both (h.allocated node) (v.live j node q c) fresh in
    record {
      head = λ i p. elim (ℕ_discrete i bucket) [
        | yes e ↦
            ap (update t.buckets bucket node) e
            ∙ update_self t.buckets bucket node
            ∙ ap head_of (
                sym (
                  ap (grown bucket node chains) e
                  ∙ update_self chains bucket (node ∷ chains bucket)))
        | no m ↦
            update_other t.buckets bucket i node m
            ∙ v.head i p
            ∙ ap head_of (sym (update_other chains bucket i (node ∷ chains bucket) m))
      ];
      linked = λ i p. grown-Linked chains t h bucket node i v b n fresh p;
      once = λ i p. elim (ℕ_discrete i bucket) [
        | yes e ↦
            subst Once
              (sym (
                ap (grown bucket node chains) e ∙ update_self chains bucket (node ∷ chains bucket)))
              (new bucket b, v.once bucket b)
        | no m ↦
            subst Once (sym (update_other chains bucket i (node ∷ chains bucket) m)) (v.once i p)
      ];
      live = λ i x p k. elim (In-grown bucket node i x chains k) [
        | inl (e, _) ↦ ap (update h.allocated node true) e ∙ update_self h.allocated node true
        | inr j ↦
            update_other h.allocated node x true (ne_of_mem x node (chains i) j (new i p))
            ∙ v.live i x p j
      ];
      apart = λ i j x p q k l. elim (In-grown bucket node i x chains k) [
        | inl (e, f) ↦ elim (In-grown bucket node j x chains l) [
          | inl (_, g) ↦ f ∙ sym g
          | inr c ↦ absurd (new j q (subst (λ w. In w (chains j)) e c))
        ]
        | inr c ↦ elim (In-grown bucket node j x chains l) [
          | inl (e, g) ↦ absurd (new i p (subst (λ w. In w (chains i)) e c))
          | inr d ↦ v.apart i j x p q c d
        ]
      ];
      count = v.count;
      small = v.small;
    }

first_match-same :
    (m : Mem) (key : HashKey) (keys keys' : ℕ → HashKey) (chain : List ℕ)
    → ((x : ℕ) → In x chain → keys' x ≡ keys x)
    → first_match m key keys' chain ≡ first_match m key keys chain
first_match-same m key keys keys' [] same = refl
first_match-same m key keys keys' (x ∷ xs) same =
    ap₂ (λ k r. if key_matches m k key then x else r) (same x (inl refl))
      (first_match-same m key keys keys' xs (λ y i. same y (inr i)))

pub first_match-here :
    (m : Mem) (key : HashKey) (keys : ℕ → HashKey) (x : ℕ) (chain : List ℕ)
    → key_matches m (keys x) key ≡ true
    → first_match m key keys (x ∷ chain) ≡ x
first_match-here m key keys x chain e = rw e refl

first_match-past :
    (m : Mem) (key : HashKey) (keys : ℕ → HashKey) (x : ℕ) (chain : List ℕ)
    → key_matches m (keys x) key ≡ false
    → first_match m key keys (x ∷ chain) ≡ first_match m key keys chain
first_match-past m key keys x chain e = rw e refl

-- A key that the new node does not match is found where it was.
pub grown-first_match :
    (m : Mem) (other key : HashKey) (keys : ℕ → HashKey) (chains : ℕ → List ℕ) (bucket node j : ℕ)
    → (¬ In node (chains j))
    → key_matches m key other ≡ false
    → first_match m other (update keys node key) (grown bucket node chains j)
      ≡ first_match m other keys (chains j)
grown-first_match m other key keys chains bucket node j new e =
    let keys' : ℕ → HashKey = update keys node key in
    let same : first_match m other keys' (chains j) ≡ first_match m other keys (chains j) =
      first_match-same m other keys keys' (chains j)
        (λ x i. update_other keys node x key (ne_of_mem x node (chains j) i new)) in
    elim (ℕ_discrete j bucket) [
      | yes f ↦
          ap (first_match m other keys')
            (ap (grown bucket node chains) f ∙ update_self chains bucket (node ∷ chains bucket))
          ∙ first_match-past m other keys' node (chains bucket)
              (ap (λ w. key_matches m w other) (update_self keys node key) ∙ e)
          ∙ ap (λ w. first_match m other keys' (chains w)) (sym f)
          ∙ same
      | no n ↦
          ap (first_match m other keys') (update_other chains bucket j (node ∷ chains bucket) n)
          ∙ same
    ]

pub grown-length :
    (bucket node i : ℕ) (chains : ℕ → List ℕ)
    → length (grown bucket node chains i) ≤ suc (length (chains i))
grown-length bucket node i chains = elim (ℕ_discrete i bucket) [
  | yes e ↦
      let f : grown bucket node chains i ≡ node ∷ chains bucket =
        ap (grown bucket node chains) e ∙ update_self chains bucket (node ∷ chains bucket) in
      omega (arith, ap length f, ap (λ w. length (chains w)) e)
  | no n ↦ omega (arith, ap length (update_other chains bucket i (node ∷ chains bucket) n))
]
