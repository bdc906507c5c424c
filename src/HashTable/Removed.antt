-- ===== src/HashTable/Removed.antt =====
-- A table without one of its nodes.
use native.Mathlib.Decide.{ℕ_discrete}
use z_os.Base.{
  In, Once, ne_of_mem, update, update_self, update_other, ℕ, ◌<◌, ◌≡◌, ◌≢◌, refl, sym, ap, ◌∙◌,
  subst, false, List, null, arith,
}
use z_os.Links.{Links, head_of, Linked, Linked-ne_null, Linked-same, erase, unlink}
use z_os.Links.Unlink.{unlink-Linked, In-erase, not-In-erase, Once-erase}
use z_os.Links.Neighbours.{outside_next, outside_prev}
use z_os.HashTable.{Nodes, HashTable, freed_node, bypass}
use z_os.HashTable.Chains.{IsTable}

bypass-next : (x y : ℕ) (l : Links) → y ≢ l.prev x → (bypass x l).next y ≡ l.next y
bypass-next x y l n = ground arith

bypass-prev : (x y : ℕ) (l : Links) → y ≢ l.next x → (bypass x l).prev y ≡ l.prev y
bypass-prev x y l n = ground arith

bypass-Linked :
    (l : Links) (x : ℕ) (xs : List ℕ)
    → Linked l 0 xs
    → Once xs
    → In x xs
    → Linked (bypass x l) 0 (erase x xs)
bypass-Linked l x xs h o i =
    Linked-same (unlink x l) (bypass x l) 0 (erase x xs)
      (λ y j.
        let n : y ≢ x = ne_of_mem y x (erase x xs) j (not-In-erase x xs o) in
        (
          sym (update_other (bypass x l).next x y null n),
          sym (update_other (bypass x l).prev x y null n),
        ))
      (unlink-Linked l 0 x xs h o (λ j. Linked-ne_null l 0 0 xs h j refl) i)

abbrev pub shrunk : (bucket node : ℕ) → (ℕ → List ℕ) → ℕ → List ℕ
shrunk bucket node chains = update chains bucket (erase node (chains bucket))

In-shrunk :
    (bucket node i x : ℕ) (chains : ℕ → List ℕ)
    → Once (chains bucket)
    → In x (shrunk bucket node chains i)
    → In x (chains i) × ((i ≡ bucket) → x ≢ node)
In-shrunk bucket node i x chains o k = elim (ℕ_discrete i bucket) [
  | yes e ↦
      let j : In x (erase node (chains bucket)) =
        subst (In x)
          (ap (shrunk bucket node chains) e
            ∙ update_self chains bucket (erase node (chains bucket)))
          k in
      (
        subst (λ w. In x (chains w)) (sym e) (In-erase node x (chains bucket) j),
        λ _. ne_of_mem x node (erase node (chains bucket)) j (not-In-erase node (chains bucket) o),
      )
  | no n ↦ (
    subst (In x) (update_other chains bucket i (erase node (chains bucket)) n) k,
    λ e. absurd (n e),
  )
]

-- The table without a node: the node is given back, and the others have their keys and values.
pub record Removed (node bucket : ℕ) (chains : ℕ → List ℕ) (h : Nodes) (t' : HashTable) (h' : Nodes)
    : Type 0 where
  pub valid : IsTable (shrunk bucket node chains) t' h'
  pub given_back : h'.allocated node ≡ false
  pub keys : h'.key ≡ h.key
  pub values : h'.value ≡ h.value

pub bypassed-Removed :
    (node bucket : ℕ) (chains : ℕ → List ℕ) (t : HashTable) (h : Nodes) (first : ℕ)
    → IsTable chains t h
    → bucket < t.bucket_count
    → In node (chains bucket)
    → first ≡ head_of (erase node (chains bucket))
    → Removed node bucket chains h
        (record t { buckets = update t.buckets bucket first })
        (freed_node node (record h { links = bypass node h.links }))
bypassed-Removed node bucket chains t h first v b k e =
    let o : Once (chains bucket) = v.once bucket b in
    let rest : List ℕ = erase node (chains bucket) in
    let chains' : ℕ → List ℕ = shrunk bucket node chains in
    let l' : Links = bypass node h.links in
    record {
      valid = record {
        head = λ i p. elim (ℕ_discrete i bucket) [
          | yes f ↦
              ap (update t.buckets bucket first) f
              ∙ update_self t.buckets bucket first
              ∙ e
              ∙ ap head_of (sym (ap chains' f ∙ update_self chains bucket rest))
          | no n ↦
              update_other t.buckets bucket i first n
              ∙ v.head i p
              ∙ ap head_of (sym (update_other chains bucket i rest n))
        ];
        linked = λ i p. elim (ℕ_discrete i bucket) [
          | yes f ↦
              subst (Linked l' 0) (sym (ap chains' f ∙ update_self chains bucket rest))
                (bypass-Linked h.links node (chains bucket) (v.linked bucket b) o k)
          | no n ↦ subst (Linked l' 0) (sym (update_other chains bucket i rest n)) (
              Linked-same h.links l' 0 (chains i)
                (λ y j.
                  let z : y ≢ 0 = Linked-ne_null h.links 0 y (chains i) (v.linked i p) j in
                  let out : ¬ In y (chains bucket) = λ c. n (v.apart i bucket y p b j c) in
                  (
                    bypass-next node y h.links
                        (outside_prev h.links node y (chains bucket) (v.linked bucket b) k z out),
                    bypass-prev node y h.links
                        (outside_next h.links 0 node y (chains bucket) (v.linked bucket b) k z out),
                  ))
                (v.linked i p))
        ];
        once = λ i p. elim (ℕ_discrete i bucket) [
          | yes f ↦
              subst Once (sym (ap chains' f ∙ update_self chains bucket rest))
                (Once-erase node (chains bucket) o)
          | no n ↦ subst Once (sym (update_other chains bucket i rest n)) (v.once i p)
        ];
        live = λ i x p j.
            let (c, d) = In-shrunk bucket node i x chains o j in
            update_other h.allocated node x false
              (λ f. d (v.apart i bucket x p b c (subst (λ w. In w (chains bucket)) (sym f) k)) f)
            ∙ v.live i x p c;
        apart = λ i j x p q c d.
            v.apart i j x p q (In-shrunk bucket node i x chains o c).0
              (In-shrunk bucket node j x chains o d).0;
        count = v.count;
        small = v.small;
      };
      given_back = update_self h.allocated node false;
      keys = refl;
      values = refl;
    }
