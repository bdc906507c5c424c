-- ===== src/BlockAllocator/Heap.antt =====
-- The heap as its blocks in the order of their addresses, and its free list.
use native.Mathlib.Decide.{ℕ_discrete}
use z_os.Base.{
  In, Once, ne_of_mem, update, update_self, update_other, ℕ, ◌+◌, ◌^◌, ◌<◌, ◌≡◌, ◌≢◌, inl, inr,
  refl, sym, ap, ◌∙◌, subst, Bool, true, false, List, ◌∷◌, arith, ◌==◌, if◌then◌else◌,
}
use z_os.Links.{head_of, Linked, Linked-ne_null, link_first, link_first-Linked, erase}
use z_os.Links.Unlink.{unlink-Linked, Once-erase, In-erase, erase-In, not-In-erase, head_of-erase}
use z_os.BlockAllocator.{
  BlockAllocator, block_magic, add_block_to_free_list, remove_block_from_free_list, set_free,
}
use z_os.BlockAllocator.Tiles.{Tiles}

-- The blocks lie one behind the other, and all free blocks but perhaps one are on the free list.
pub record IsHeapBut (but : ℕ) (a : BlockAllocator) (blocks free : List ℕ) (end : ℕ) : Type 0 where
  pub block_head : a.block_list_head ≡ head_of blocks
  pub free_head : a.free_list_head ≡ head_of free
  pub blocks_linked : Linked a.headers.blocks 0 blocks
  pub free_linked : Linked a.headers.free 0 free
  pub once : Once free
  pub tiles : Tiles a.headers.size a.virtual_base blocks end
  pub bound : end < 2 ^ 64
  pub base : a.virtual_base ≢ 0
  pub listed : (x : ℕ) → In x free → In x blocks × (a.headers.is_free x ≡ true)
  pub all_listed : (x : ℕ) → In x blocks → a.headers.is_free x ≡ true → x ≢ but → In x free
  pub magic : (x : ℕ) → In x blocks → a.headers.magic x ≡ block_magic
  pub offset : (x : ℕ) → In x blocks → a.virtual_base + a.headers.offset x ≡ x + 56

abbrev pub IsHeap : BlockAllocator → (blocks free : List ℕ) → (end : ℕ) → Type 0
IsHeap a blocks free end = IsHeapBut 0 a blocks free end

-- A block that is in use.
abbrev pub Used : BlockAllocator → List ℕ → ℕ → Type 0
Used a blocks x = In x blocks × (a.headers.is_free x ≡ false)

-- An exception that is no block, or no free one, is none.
pub drop_exception :
    (but but' : ℕ) (a : BlockAllocator) (blocks free : List ℕ) (end : ℕ)
    → IsHeapBut but a blocks free end
    → ((x : ℕ) → In x blocks → a.headers.is_free x ≡ true → x ≢ but' → x ≢ but)
    → IsHeapBut but' a blocks free end
drop_exception but but' a blocks free end v n = record {
  block_head = v.block_head;
  free_head = v.free_head;
  blocks_linked = v.blocks_linked;
  free_linked = v.free_linked;
  once = v.once;
  tiles = v.tiles;
  bound = v.bound;
  base = v.base;
  listed = v.listed;
  all_listed = λ x i f m. v.all_listed x i f (n x i f m);
  magic = v.magic;
  offset = v.offset;
}

pub IsHeap-excepted :
    (but : ℕ) (a : BlockAllocator) (blocks free : List ℕ) (end : ℕ)
    → IsHeap a blocks free end
    → IsHeapBut but a blocks free end
IsHeap-excepted but a blocks free end v =
    drop_exception 0 but a blocks free end v
      (λ x i f m. Linked-ne_null a.headers.blocks 0 x blocks v.blocks_linked i)

pub add-IsHeap :
    (b : ℕ) (a : BlockAllocator) (blocks free : List ℕ) (end : ℕ)
    → IsHeapBut b a blocks free end
    → In b blocks
    → a.headers.is_free b ≡ true
    → (¬ In b free)
    → IsHeap (add_block_to_free_list b a) blocks (b ∷ free) end
unfolding add_block_to_free_list
add-IsHeap b a blocks free end v i f n = record {
  block_head = v.block_head;
  free_head = refl;
  blocks_linked = v.blocks_linked;
  free_linked =
      subst (λ w. Linked (link_first w b a.headers.free) 0 (b ∷ free)) (sym v.free_head)
        (link_first-Linked a.headers.free b free v.free_linked v.once n
          (Linked-ne_null a.headers.blocks 0 b blocks v.blocks_linked i));
  once = (n, v.once);
  tiles = v.tiles;
  bound = v.bound;
  base = v.base;
  listed = λ x j. elim j [
    | inl e ↦ subst (λ w. In w blocks × (a.headers.is_free w ≡ true)) (sym e) (i, f)
    | inr k ↦ v.listed x k
  ];
  all_listed =
      λ x j g m. elim (ℕ_discrete x b) [ yes e ↦ inl e | no o ↦ inr (v.all_listed x j g o) ];
  magic = v.magic;
  offset = v.offset;
}

pub remove-IsHeapBut :
    (b : ℕ) (a : BlockAllocator) (blocks free : List ℕ) (end : ℕ)
    → IsHeap a blocks free end
    → In b free
    → IsHeapBut b (remove_block_from_free_list b a) blocks (erase b free) end
unfolding remove_block_from_free_list
remove-IsHeapBut b a blocks free end v i = record {
  block_head = v.block_head;
  free_head =
      ap (λ w. if a.headers.free.prev b == 0 then a.headers.free.next b else w) v.free_head
      ∙ sym (head_of-erase a.headers.free b free v.free_linked i);
  blocks_linked = v.blocks_linked;
  free_linked =
      unlink-Linked a.headers.free 0 b free v.free_linked v.once
        (λ j. Linked-ne_null a.headers.free 0 0 free v.free_linked j refl) i;
  once = Once-erase b free v.once;
  tiles = v.tiles;
  bound = v.bound;
  base = v.base;
  listed = λ x j. v.listed x (In-erase b x free j);
  all_listed = λ x j f m.
      erase-In b x free
        (v.all_listed x j f (Linked-ne_null a.headers.blocks 0 x blocks v.blocks_linked j)) m;
  magic = v.magic;
  offset = v.offset;
}

-- The free bit of a block that is not on the free list may change.
set_free-IsHeapBut :
    (b : ℕ) (to : Bool) (a : BlockAllocator) (blocks free : List ℕ) (end : ℕ)
    → IsHeapBut b a blocks free end
    → (¬ In b free)
    → IsHeapBut b (set_free b to a) blocks free end
set_free-IsHeapBut b to a blocks free end v n = record {
  block_head = v.block_head;
  free_head = v.free_head;
  blocks_linked = v.blocks_linked;
  free_linked = v.free_linked;
  once = v.once;
  tiles = v.tiles;
  bound = v.bound;
  base = v.base;
  listed = λ x i. (
    (v.listed x i).0,
    update_other a.headers.is_free b x to (ne_of_mem x b free i n) ∙ (v.listed x i).1,
  );
  all_listed = λ x i f m. v.all_listed x i (sym (update_other a.headers.is_free b x to m) ∙ f) m;
  magic = v.magic;
  offset = v.offset;
}

-- A free block comes into use.
pub take-IsHeap :
    (b : ℕ) (a : BlockAllocator) (blocks free : List ℕ) (end : ℕ)
    → IsHeap a blocks free end
    → In b free
    → IsHeap (remove_block_from_free_list b (set_free b false a)) blocks (erase b free) end
unfolding remove_block_from_free_list
take-IsHeap b a blocks free end v i =
    let w : IsHeapBut b (set_free b false (remove_block_from_free_list b a)) blocks (erase b free)
        end =
      set_free-IsHeapBut b false (remove_block_from_free_list b a) blocks (erase b free) end
        (remove-IsHeapBut b a blocks free end v i) (not-In-erase b free v.once) in
    drop_exception b 0 (set_free b false (remove_block_from_free_list b a)) blocks (erase b free)
      end w
      (λ x j f m e.
        ground (
          arith,
          f,
          update_self a.headers.is_free b false,
          ap (update a.headers.is_free b false) e,
        ))

-- A block that is on no list of free ones becomes free.
pub put-IsHeap :
    (b : ℕ) (a : BlockAllocator) (blocks free : List ℕ) (end : ℕ)
    → IsHeapBut b a blocks free end
    → In b blocks
    → (¬ In b free)
    → IsHeap (add_block_to_free_list b (set_free b true a)) blocks (b ∷ free) end
put-IsHeap b a blocks free end v i n =
    add-IsHeap b (set_free b true a) blocks free end
      (set_free-IsHeapBut b true a blocks free end v n) i (update_self a.headers.is_free b true) n
