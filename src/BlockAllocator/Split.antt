-- ===== src/BlockAllocator/Split.antt =====
-- A block that is cut in two.
use z_os.Base.{
  In, ne_of_mem, update, update_self, update_other, ℕ, ◌+◌, ◌-◌, ◌^◌, ◌≤◌, ◌<◌, ◌≡◌, ◌≢◌, inl, inr,
  refl, sym, ap, ◌∙◌, subst, true, false, List, arith, add64, sub64, leb, leb-true,
}
use z_os.Links.{Linked-ne_null, link_behind, insert_behind}
use z_os.Links.Behind.{
  link_behind-Linked, In-insert_behind, insert_behind-In, head_of-insert_behind,
}
use z_os.BlockAllocator.{
  Headers, BlockAllocator, block_magic, write_header, add_block_to_free_list, split_block,
}
use z_os.BlockAllocator.Tiles.{Tiles, Tiles-Once, Tiles-apart, Tiles-split}
use z_os.BlockAllocator.Heap.{IsHeapBut, IsHeap}

leb-false : (a b : ℕ) → b < a → leb a b ≡ false
leb-false a b h = ground arith

pub add64-no_wrap : (a b : ℕ) → a + b < 2 ^ 64 → add64 a b ≡ a + b
add64-no_wrap a b h = omega arith

pub sub64-no_wrap : (a b : ℕ) → a < 2 ^ 64 → b ≤ a → sub64 a b ≡ a - b
sub64-no_wrap a b h k = omega arith

add64_twice : (a b c : ℕ) → a + b + c < 2 ^ 64 → add64 (add64 a b) c ≡ a + b + c
add64_twice a b c h = omega arith

sub64_twice : (a b c : ℕ) → a < 2 ^ 64 → b + c ≤ a → sub64 (sub64 a b) c ≡ a - b - c
sub64_twice a b c h k = omega arith

-- The two blocks before the second one is put on the free list.
abbrev pub cut : (b size : ℕ) → BlockAllocator → BlockAllocator
cut b size a =
    let h = a.headers in
    let r = b + size + 56 in
    let shrunk = record h { size = update h.size b size } in
    let written = write_header r (h.size b - size - 56) (h.offset b + size + 56) shrunk in
    record a { headers = record written { blocks = link_behind b r h.blocks } }

pub split_block_small :
    (b size : ℕ) (a : BlockAllocator)
    → a.headers.size b < 2 ^ 64
    → size ≤ a.headers.size b
    → a.headers.size b ≤ size + 56
    → split_block b size a ≡ a
unfolding split_block
split_block_small b size a s k m =
    rw (leb-true (sub64 (a.headers.size b) size) 56 (omega arith)) refl

pub split_block_large :
    (b size : ℕ) (a : BlockAllocator)
    → b + 56 + a.headers.size b < 2 ^ 64
    → a.headers.offset b ≤ b + 56
    → size + 56 < a.headers.size b
    → split_block b size a ≡ add_block_to_free_list (b + size + 56) (cut b size a)
unfolding split_block
split_block_large b size a s o m =
    let h : Headers = a.headers in
    rw
      (
        leb-false (sub64 (h.size b) size) 56 (omega arith),
        add64_twice b size 56 (omega arith),
        sub64_twice (h.size b) size 56 (omega arith) (omega arith),
        add64_twice (h.offset b) size 56 (omega arith),
      )
      refl

pub outside :
    (a : BlockAllocator) (b size : ℕ) (blocks free : List ℕ) (end : ℕ)
    → IsHeap a blocks free end
    → In b blocks
    → size + 56 < a.headers.size b
    → ¬ In (b + size + 56) blocks
outside a b size blocks free end v i m j =
    let t = v.tiles in
    elim (Tiles-apart a.headers.size a.virtual_base end b (b + size + 56) blocks t i j
      (λ e. omega (arith, e))) [ inl k ↦ omega (arith, k, m) | inr k ↦ omega (arith, k) ]

pub cut-IsHeapBut :
    (a : BlockAllocator) (b size : ℕ) (blocks free : List ℕ) (end : ℕ)
    → IsHeap a blocks free end
    → In b blocks
    → size + 56 < a.headers.size b
    → IsHeapBut (b + size + 56) (cut b size a) (insert_behind b (b + size + 56) blocks) free end
cut-IsHeapBut a b size blocks free end v i m =
    let h : Headers = a.headers in
    let r : ℕ = b + size + 56 in
    let new : ¬ In r blocks = outside a b size blocks free end v i m in
    let other : (x : ℕ) → In x blocks → x ≢ r = λ x j. ne_of_mem x r blocks j new in
    let b_other : b ≢ r = other b i in
    let size' : ℕ → ℕ = (cut b size a).headers.size in
    let size_b : size' b ≡ size = ground arith in
    let size_r : size' r ≡ h.size b - size - 56 = update_self (update h.size b size) r _ in
    let size_x : (x : ℕ) → In x blocks → x ≢ b → size' x ≡ h.size x = λ x j n.
      update_other (update h.size b size) r x _ (other x j) ∙ update_other h.size b x size n in
    let place : b + 56 + size' b ≡ r = omega (arith, size_b) in
    record {
      block_head = v.block_head ∙ sym (head_of-insert_behind b r blocks);
      free_head = v.free_head;
      blocks_linked =
          link_behind-Linked h.blocks 0 b r blocks v.blocks_linked
            (Tiles-Once h.size a.virtual_base end blocks v.tiles) i new (λ e. omega (arith, e));
      free_linked = v.free_linked;
      once = v.once;
      tiles =
          subst (λ w. Tiles size' a.virtual_base (insert_behind b w blocks) end) place
            (Tiles-split h.size size' a.virtual_base end b blocks v.tiles i
              (omega (arith, size_b, size_r, ap size' place)) size_x);
      bound = v.bound;
      base = v.base;
      listed = λ x j.
          let (k, f) = v.listed x j in
          (In-insert_behind b r x blocks k, update_other h.is_free r x true (other x k) ∙ f);
      all_listed = λ x j f n. elim (insert_behind-In b r x blocks j) [
        | inl e ↦ absurd (n e)
        | inr k ↦
            v.all_listed x k (sym (update_other h.is_free r x true n) ∙ f)
              (Linked-ne_null h.blocks 0 x blocks v.blocks_linked k)
      ];
      magic = λ x j. elim (insert_behind-In b r x blocks j) [
        | inl e ↦ ground (arith, e)
        | inr k ↦ update_other h.magic r x block_magic (other x k) ∙ v.magic x k
      ];
      offset = λ x j. elim (insert_behind-In b r x blocks j) [
        | inl e ↦
            ap (λ w. a.virtual_base + (cut b size a).headers.offset w) e
            ∙ ap (λ w. a.virtual_base + w) (update_self h.offset r _)
            ∙ omega (arith, v.offset b i, e)
        | inr k ↦
            ap (λ w. a.virtual_base + w) (update_other h.offset r x _ (other x k)) ∙ v.offset x k
      ];
    }
