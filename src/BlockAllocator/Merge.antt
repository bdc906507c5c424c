-- ===== src/BlockAllocator/Merge.antt =====
-- Two neighbouring blocks that become one: the second one leaves the list of blocks.
use z_os.Base.{
  In, Once, ne_of_mem, update, ℕ, ◌+◌, ◌≤◌, ◌≡◌, ◌≢◌, refl, sym, ap, ◌∙◌, subst, List, add64,
  ==-false, if◌then◌else◌,
}
use z_os.Links.{Links, head_of, Linked-ne_null, erase, unlink}
use z_os.Links.Unlink.{unlink-Linked, In-erase, erase-In, not-In-erase, head_of-erase, unlink-prev}
use z_os.Links.Neighbours.{with_next, unlink-absorbs, unlink-with_next, next-neighbour}
use z_os.BlockAllocator.{BlockAllocator, remove_block_from_block_list, merge_into}
use z_os.BlockAllocator.Tiles.{Tiles-Once, Tiles-next, Tiles-within, Tiles-merge}
use z_os.BlockAllocator.Heap.{IsHeapBut, IsHeap}

-- The heap without the header of one block, whose room has gone to another.
abbrev pub joined : (x : ℕ) → (size : ℕ → ℕ) → BlockAllocator → BlockAllocator
joined x size a = record a {
  headers = record a.headers { blocks = unlink x a.headers.blocks; size = size };
}

-- The addresses and sizes of two neighbours.
pub neighbours :
    (b n : ℕ) (but : ℕ) (a : BlockAllocator) (blocks free : List ℕ) (end : ℕ)
    → IsHeapBut but a blocks free end
    → In b blocks
    → a.headers.blocks.next b ≡ n
    → n ≢ 0
    → (n ≡ b + 56 + a.headers.size b)
      × (n + 56 + a.headers.size n ≤ end)
      × (b ≢ 0)
      × In n blocks
      × (a.headers.blocks.prev n ≡ b)
neighbours b n but a blocks free end v i e p =
    let l : Links = a.headers.blocks in
    let q : l.next b ≢ 0 = λ z. p (sym e ∙ z) in
    let (j, k) = next-neighbour l 0 b blocks v.blocks_linked i q in
    let m : In n blocks = subst (λ w. In w blocks) e j in
    (
      sym e ∙ Tiles-next a.headers.size a.virtual_base end 0 b l blocks v.tiles v.blocks_linked i q,
      (Tiles-within a.headers.size a.virtual_base end n blocks v.tiles m).1,
      Linked-ne_null l 0 b blocks v.blocks_linked i,
      m,
      ap l.prev (sym e) ∙ k,
    )

pub joined-IsHeap :
    (b n : ℕ) (size : ℕ → ℕ) (a : BlockAllocator) (blocks free : List ℕ) (end : ℕ)
    → IsHeapBut n a blocks free end
    → (¬ In n free)
    → In b blocks
    → a.headers.blocks.next b ≡ n
    → n ≢ 0
    → size b ≡ a.headers.size b + 56 + a.headers.size n
    → ((x : ℕ) → In x blocks → x ≢ b → x ≢ n → size x ≡ a.headers.size x)
    → IsHeap (joined n size a) (erase n blocks) free end
joined-IsHeap b n size a blocks free end v out i e p s same =
    let l : Links = a.headers.blocks in
    let (_, _, z, m, k) = neighbours b n n a blocks free end v i e p in
    let once : Once blocks = Tiles-Once a.headers.size a.virtual_base end blocks v.tiles in
    let other : (x : ℕ) → In x (erase n blocks) → x ≢ n =
      λ x j f. not-In-erase n blocks once (subst (λ w. In w (erase n blocks)) f j) in
    record {
      block_head =
          v.block_head
          ∙ sym (
              head_of-erase l n blocks v.blocks_linked m
              ∙ ap (λ w. if w then l.next n else head_of blocks)
                  (==-false (l.prev n) 0 (λ f. z (sym k ∙ f))));
      free_head = v.free_head;
      blocks_linked =
          unlink-Linked l 0 n blocks v.blocks_linked once
            (λ j. Linked-ne_null l 0 0 blocks v.blocks_linked j refl) m;
      free_linked = v.free_linked;
      once = v.once;
      tiles =
          Tiles-merge a.headers.size size a.virtual_base end b n 0 l blocks v.tiles v.blocks_linked
            i e p s same;
      bound = v.bound;
      base = v.base;
      listed =
          λ x j. let (c, f) = v.listed x j in (erase-In n x blocks c (ne_of_mem x n free j out), f);
      all_listed = λ x j f q. v.all_listed x (In-erase n x blocks j) f (other x j);
      magic = λ x j. v.magic x (In-erase n x blocks j);
      offset = λ x j. v.offset x (In-erase n x blocks j);
    }

remove_block_call :
    (b : ℕ) (a : BlockAllocator)
    → a.headers.blocks.prev b ≢ 0
    → remove_block_from_block_list b a ≡ joined b a.headers.size a
unfolding remove_block_from_block_list
remove_block_call b a n = rw (==-false (a.headers.blocks.prev b) 0 n) refl

-- What `free_block` does to a block and its neighbour.
pub remove-merge :
    (b n v added : ℕ) (a : BlockAllocator)
    → a.headers.blocks.prev n ≡ b
    → b ≢ 0
    → b ≢ n
    → remove_block_from_block_list n (merge_into b v added a)
      ≡ joined n (update a.headers.size b (add64 (a.headers.size b) added)) a
remove-merge b n v added a e p q =
    remove_block_call n (merge_into b v added a) (λ z. p (sym e ∙ z))
    ∙ ap
        (λ l. record a {
          headers = record a.headers {
            blocks = l;
            size = update a.headers.size b (add64 (a.headers.size b) added);
          };
        })
        (unlink-absorbs n b v a.headers.blocks e p q)

-- And to a block with both its neighbours.
pub remove-remove-merge :
    (p b n v added : ℕ) (a : BlockAllocator)
    → a.headers.blocks.prev n ≡ b
    → a.headers.blocks.prev b ≡ p
    → p ≢ 0
    → b ≢ 0
    → p ≢ b
    → p ≢ n
    → b ≢ n
    → b ≢ a.headers.blocks.next n
    → remove_block_from_block_list b (remove_block_from_block_list n (merge_into p v added a))
      ≡ joined b
          (update a.headers.size p (add64 (a.headers.size p) added))
          (joined n a.headers.size a)
remove-remove-merge p b n v added a e f y z pb pn bn bq =
    let l : Links = a.headers.blocks in
    let size : ℕ → ℕ = update a.headers.size p (add64 (a.headers.size p) added) in
    let g : (unlink n l).prev b ≡ p = unlink-prev n b l bn bq ∙ f in
    let h : unlink n (with_next p v l) ≡ with_next p v (unlink n l) =
      unlink-with_next n p v l (λ w. pb (sym w ∙ e)) pn in
    ap (remove_block_from_block_list b)
      (remove_block_call n (merge_into p v added a) (λ w. z (sym e ∙ w)))
    ∙ ap
        (λ k.
          remove_block_from_block_list b
            (record a { headers = record a.headers { blocks = k; size = size } }))
        h
    ∙ remove_block_call b
        (record a {
          headers = record a.headers { blocks = with_next p v (unlink n l); size = size };
        })
        (λ w. y (sym g ∙ w))
    ∙ ap (λ k. record a { headers = record a.headers { blocks = k; size = size } })
        (unlink-absorbs b p v (unlink n l) g y pb)
