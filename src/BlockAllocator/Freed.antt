-- ===== src/BlockAllocator/Freed.antt =====
-- What giving a block back makes of the heap, in each of the four cases of the blocks beside it.
use z_os.Base.{
  not_both, In, Once, update, update_self, update_other, ℕ, ◌+◌, ◌*◌, ◌≡◌, ◌≢◌, refl, sym, ap, ◌∙◌,
  subst, Bool, true, false, List, ◌∷◌, arith, add64,
}
use z_os.Links.{Links, Linked-ne_null, erase}
use z_os.Links.Unlink.{In-erase, erase-In, not-In-erase, unlink-next}
use z_os.Links.Neighbours.{prev-neighbour}
use z_os.BlockAllocator.{
  BlockAllocator, header_size, merge_into, set_free, add_block_to_free_list,
  remove_block_from_free_list, remove_block_from_block_list,
}
use z_os.BlockAllocator.Tiles.{Tiles-Once}
use z_os.BlockAllocator.Heap.{IsHeap, Used, IsHeap-excepted, remove-IsHeapBut, put-IsHeap}
use z_os.BlockAllocator.Merge.{joined, neighbours, joined-IsHeap, remove-merge, remove-remove-merge}

-- The block is not in use, and the others are as they were.
pub record Freed (a : BlockAllocator) (blocks : List ℕ) (end : ℕ) (b : ℕ) (a' : BlockAllocator)
    : Type 0 where
  pub blocks' : List ℕ
  pub free' : List ℕ
  pub valid : IsHeap a' blocks' free' end
  pub freed : ¬ Used a' blocks' b
  pub kept :
      (x : ℕ) → x ≢ b → Used a blocks x → Used a' blocks' x × (a'.headers.size x ≡ a.headers.size x)
  pub only : (x : ℕ) → Used a' blocks' x → Used a blocks x

unused :
    (a : BlockAllocator) (blocks free : List ℕ) (end b : ℕ)
    → IsHeap a blocks free end
    → a.headers.is_free b ≡ false
    → ¬ In b free
unused a blocks free end b v f i = not_both (a.headers.is_free b) (v.listed b i).1 f

other_of :
    (a : BlockAllocator) (x y : ℕ)
    → a.headers.is_free x ≡ false
    → a.headers.is_free y ≡ true
    → x ≢ y
other_of a x y f g e = not_both (a.headers.is_free x) (ap a.headers.is_free e ∙ g) f

pub alone-Freed :
    (a : BlockAllocator) (blocks free : List ℕ) (end b : ℕ)
    → IsHeap a blocks free end
    → Used a blocks b
    → Freed a blocks end b (add_block_to_free_list b (set_free b true a))
unfolding add_block_to_free_list
alone-Freed a blocks free end b v (i, f) =
    let is_free : ℕ → Bool = a.headers.is_free in
    record {
      blocks' = blocks;
      free' = b ∷ free;
      valid =
          put-IsHeap b a blocks free end (IsHeap-excepted b a blocks free end v) i
            (unused a blocks free end b v f);
      freed = λ (j, g). not_both (update is_free b true b) (update_self is_free b true) g;
      kept = λ x n (j, g). ((j, update_other is_free b x true n ∙ g), refl);
      only = λ x (j, g). (
        j,
        sym (
              update_other is_free b x true (λ e.
                not_both (update is_free b true x)
                  (ap (update is_free b true) e ∙ update_self is_free b true) g))
            ∙ g,
      );
    }

pub before-Freed :
    (a : BlockAllocator) (blocks free : List ℕ) (end b p v : ℕ)
    → IsHeap a blocks free end
    → Used a blocks b
    → a.headers.blocks.prev b ≡ p
    → p ≢ 0
    → a.headers.is_free p ≡ true
    → Freed a blocks end b
        (remove_block_from_block_list b (merge_into p v (add64 header_size (a.headers.size b)) a))
before-Freed a blocks free end b p w v (i, f) e n g =
    let l : Links = a.headers.blocks in
    let size : ℕ → ℕ = a.headers.size in
    let (ip, ep) = prev-neighbour l b blocks v.blocks_linked i (λ z. n (sym e ∙ z)) in
    let j : In p blocks = subst (λ w. In w blocks) e ip in
    let k : l.next p ≡ b = ap l.next (sym e) ∙ ep in
    let b0 : b ≢ 0 = Linked-ne_null l 0 b blocks v.blocks_linked i in
    let (at, within, _, _, _) = neighbours p b 0 a blocks free end v j k b0 in
    let size' : ℕ → ℕ = update size p (add64 (size p) (add64 header_size (size b))) in
    let big : size' p ≡ size p + 56 + size b =
      update_self size p _ ∙ omega (arith, at, within, v.bound) in
    let once : Once blocks = Tiles-Once size a.virtual_base end blocks v.tiles in
    subst (Freed a blocks end b)
      (sym (remove-merge p b w (add64 header_size (size b)) a e n (λ z. omega (arith, z, at))))
      (record {
        blocks' = erase b blocks;
        free' = free;
        valid =
            joined-IsHeap p b size' a blocks free end (IsHeap-excepted b a blocks free end v)
              (unused a blocks free end b v f) j k b0 big (λ x c q r. update_other size p x _ q);
        freed = λ (c, h). not-In-erase b blocks once c;
        kept = λ x q (c, h).
            ((erase-In b x blocks c q, h), update_other size p x _ (other_of a x p h g));
        only = λ x (c, h). (In-erase b x blocks c, h);
      })

pub behind-Freed :
    (a : BlockAllocator) (blocks free : List ℕ) (end b n v : ℕ)
    → IsHeap a blocks free end
    → Used a blocks b
    → a.headers.blocks.next b ≡ n
    → n ≢ 0
    → a.headers.is_free n ≡ true
    → Freed a blocks end b (
        add_block_to_free_list b (
          set_free b true (
            remove_block_from_free_list n (
              remove_block_from_block_list n
                (merge_into b v (add64 header_size (a.headers.size n)) a)))))
unfolding remove_block_from_free_list add_block_to_free_list
behind-Freed a blocks free end b n w v (i, f) e z g =
    let l : Links = a.headers.blocks in
    let size : ℕ → ℕ = a.headers.size in
    let is_free : ℕ → Bool = a.headers.is_free in
    let (at, within, b0, m, k) = neighbours b n 0 a blocks free end v i e z in
    let size' : ℕ → ℕ = update size b (add64 (size b) (add64 header_size (size n))) in
    let big : size' b ≡ size b + 56 + size n =
      update_self size b _ ∙ omega (arith, at, within, v.bound) in
    let bn : b ≢ n = λ q. omega (arith, q, at) in
    let j : In n free = v.all_listed n m g z in
    let out : ¬ In b (erase n free) = λ c. unused a blocks free end b v f (In-erase n b free c) in
    let a1 : BlockAllocator = remove_block_from_free_list n a in
    let joined_ok : IsHeap (joined n size' a1) (erase n blocks) (erase n free) end =
      joined-IsHeap b n size' a1 blocks (erase n free) end
        (remove-IsHeapBut n a blocks free end v j) (not-In-erase n free v.once) i e z big
        (λ x c q r. update_other size b x _ q) in
    subst
      (λ w.
        Freed a blocks end b
          (add_block_to_free_list b (set_free b true (remove_block_from_free_list n w))))
      (sym (remove-merge b n w (add64 header_size (size n)) a k b0 bn))
      (record {
        blocks' = erase n blocks;
        free' = b ∷ erase n free;
        valid =
            put-IsHeap b (joined n size' a1) (erase n blocks) (erase n free) end
              (IsHeap-excepted b (joined n size' a1) (erase n blocks) (erase n free) end joined_ok)
              (erase-In n b blocks i bn) out;
        freed = λ (c, h). not_both (update is_free b true b) (update_self is_free b true) h;
        kept = λ x q (c, h). (
          (erase-In n x blocks c (other_of a x n h g), update_other is_free b x true q ∙ h),
          update_other size b x _ q,
        );
        only = λ x (c, h). (
          In-erase n x blocks c,
          sym (
                update_other is_free b x true (λ q.
                  not_both (update is_free b true x)
                    (ap (update is_free b true) q ∙ update_self is_free b true) h))
              ∙ h,
        );
      })

pub between-Freed :
    (a : BlockAllocator) (blocks free : List ℕ) (end b p n v : ℕ)
    → IsHeap a blocks free end
    → Used a blocks b
    → a.headers.blocks.prev b ≡ p
    → p ≢ 0
    → a.headers.is_free p ≡ true
    → a.headers.blocks.next b ≡ n
    → n ≢ 0
    → a.headers.is_free n ≡ true
    → Freed a blocks end b (
        remove_block_from_block_list b (
          remove_block_from_block_list n (
            remove_block_from_free_list n (
              merge_into p v
                (add64 (add64 (2 * header_size) (a.headers.size b)) (a.headers.size n))
                a))))
unfolding remove_block_from_free_list
between-Freed a blocks free end b p n w v (i, f) ep p0 gp en n0 gn =
    let l : Links = a.headers.blocks in
    let size : ℕ → ℕ = a.headers.size in
    let (ip, kp) = prev-neighbour l b blocks v.blocks_linked i (λ z. p0 (sym ep ∙ z)) in
    let jp : In p blocks = subst (λ w. In w blocks) ep ip in
    let next_p : l.next p ≡ b = ap l.next (sym ep) ∙ kp in
    let (at_n, within_n, b0, m, prev_n) = neighbours b n 0 a blocks free end v i en n0 in
    let (at_b, within_b, _, _, _) = neighbours p b 0 a blocks free end v jp next_p b0 in
    let added : ℕ = add64 (add64 (2 * header_size) (size b)) (size n) in
    let size1 : ℕ → ℕ = update size b (size b + 56 + size n) in
    let size2 : ℕ → ℕ = update size p (add64 (size p) added) in
    let pb : p ≢ b = λ z. omega (arith, z, at_b) in
    let bn : b ≢ n = λ z. omega (arith, z, at_n) in
    let pn : p ≢ n = λ z. omega (arith, z, at_n, at_b) in
    let j : In n free = v.all_listed n m gn n0 in
    let out : ¬ In b (erase n free) = λ c. unused a blocks free end b v f (In-erase n b free c) in
    let a1 : BlockAllocator = remove_block_from_free_list n a in
    let inner : IsHeap (joined n size1 a1) (erase n blocks) (erase n free) end =
      joined-IsHeap b n size1 a1 blocks (erase n free) end
        (remove-IsHeapBut n a blocks free end v j) (not-In-erase n free v.once) i en n0
        (update_self size b (size b + 56 + size n)) (λ x c q r. update_other size b x _ q) in
    let big : size2 p ≡ size1 p + 56 + size1 b =
      update_self size p _
      ∙ omega (
        arith,
        at_n,
        at_b,
        within_n,
        v.bound,
        update_other size b p (size b + 56 + size n) pb,
        update_self size b (size b + 56 + size n),
      ) in
    let once1 : Once (erase n blocks) =
      Tiles-Once size1 a.virtual_base end (erase n blocks) inner.tiles in
    let next_n : b ≢ l.next n = λ z. omega (
      arith,
      z,
      at_n,
      (neighbours n (l.next n) 0 a blocks free end v m refl (λ q. b0 (z ∙ q))).0,
    ) in
    subst (Freed a blocks end b)
      (sym (remove-remove-merge p b n w added a1 prev_n ep p0 b0 pb pn bn next_n))
      (record {
        blocks' = erase b (erase n blocks);
        free' = erase n free;
        valid =
            joined-IsHeap p b size2 (joined n size1 a1) (erase n blocks) (erase n free) end
              (IsHeap-excepted b (joined n size1 a1) (erase n blocks) (erase n free) end inner) out
              (erase-In n p blocks jp pn) (unlink-next n p l pn (λ z. pb (z ∙ prev_n)) ∙ next_p) b0
              big (λ x c q r. update_other size p x _ q ∙ sym (update_other size b x _ r));
        freed = λ (c, h). not-In-erase b (erase n blocks) once1 c;
        kept = λ x q (c, h). (
          (erase-In b x (erase n blocks) (erase-In n x blocks c (other_of a x n h gn)) q, h),
          update_other size p x _ (other_of a x p h gp),
        );
        only = λ x (c, h). (In-erase n x blocks (In-erase b x (erase n blocks) c), h);
      })
