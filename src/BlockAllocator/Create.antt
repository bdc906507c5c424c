-- ===== src/BlockAllocator/Create.antt =====
-- A new block at the end of the heap.
use z_os.Base.{
  In, In-append, In-left, Once, ne_of_mem, update, update_self, update_other, ℕ, ◌+◌, ◌*◌, ◌%◌, ◌^◌,
  ◌≤◌, ◌<◌, ◌≡◌, ◌≢◌, inl, inr, refl, sym, ap, ◌∙◌, subst, true, false, Bool-cases, List, [], ◌∷◌,
  ◌++◌, null, arith, add64, sub64, ◌==◌, ==-false, if◌then◌else◌,
}
use z_os.Links.{
  Links, head_of, last_of, last_of-member, Linked, Linked-ne_null, Linked-same, link_behind,
  insert_behind,
}
use z_os.Links.Behind.{link_behind-Linked, insert_behind_last}
use z_os.BlockAllocator.{
  Headers, BlockAllocator, block_magic, write_header, clear_links, append_block, offset_behind,
  header_at, needed_pages, page_size,
}
use z_os.BlockAllocator.Tiles.{
  Tiles, Tiles-le, Tiles-within, Tiles-Once, Tiles-same, Tiles-append, Tiles-last,
}
use z_os.BlockAllocator.Heap.{IsHeapBut, IsHeap}

==-zero : (a : ℕ) → (a == 0) ≡ true → a ≡ 0
==-zero a e = ground arith

==-nonzero : (a : ℕ) → (a == 0) ≡ false → a ≢ 0
==-nonzero a e = ground (arith, e)

-- The pages hold the header and the size, and not a page more.
pub needed_pages_lem :
    (size : ℕ)
    → size + 56 < 2 ^ 64
    → (size + 56 ≤ needed_pages size * page_size)
      × (needed_pages size * page_size < size + 56 + 4096)
needed_pages_lem size h =
    let w : add64 size 56 ≡ size + 56 = omega (arith, h) in
    elim (Bool-cases ((size + 56) % 4096 == 0)) [
      | inl e ↦
          rw (w, e) (let k = ==-zero ((size + 56) % 4096) e in (omega (arith, k), omega (arith, k)))
      | inr e ↦
          rw (w, e)
            (let k = ==-nonzero ((size + 56) % 4096) e in (omega (arith, k), omega (arith, k)))
    ]

at_end_next :
    (l : Links) (x b y : ℕ)
    → x ≢ b
    → l.next x ≡ 0
    → update (update l.next x b) b 0 y ≡ (link_behind x b l).next y
at_end_next l x b y n z = ground (arith, z)

at_end_prev :
    (l : Links) (x b y : ℕ) → l.next x ≡ 0 → update l.prev b x y ≡ (link_behind x b l).prev y
at_end_prev l x b y z = ground (arith, z)

-- The blocks with a new one at their end.
abbrev at_end : (last b : ℕ) → Links → Links
at_end last b l = record {
  next = update (update l.next last b) b null;
  prev = update l.prev b last;
}

last_of-next :
    (l : Links) (before x : ℕ) (xs : List ℕ) → Linked l before (x ∷ xs) → l.next (last_of x xs) ≡ 0
last_of-next l before x [] h = h.2
last_of-next l before x (y ∷ ys) h = last_of-next l x y ys h.3

at_end-Linked :
    (l : Links) (b x : ℕ) (xs : List ℕ)
    → Linked l 0 (x ∷ xs)
    → Once (x ∷ xs)
    → (¬ In b (x ∷ xs))
    → b ≢ 0
    → Linked (at_end (last_of x xs) b l) 0 ((x ∷ xs) ++ (b ∷ []))
at_end-Linked l b x xs h o n p =
    let last : ℕ = last_of x xs in
    let i : In last (x ∷ xs) = last_of-member x xs in
    let other : last ≢ b = ne_of_mem last b (x ∷ xs) i n in
    let z : l.next last ≡ 0 = last_of-next l 0 x xs h in
    subst (Linked (at_end last b l) 0) (insert_behind_last b x xs o) (
      Linked-same (link_behind last b l) (at_end last b l) 0 (insert_behind last b (x ∷ xs))
        (λ y j. (at_end_next l last b y other z, at_end_prev l last b y z))
        (link_behind-Linked l 0 last b (x ∷ xs) h o i n p))

-- The state after `append_block` at the end of the heap.
abbrev pub appended : (last b size offset : ℕ) → BlockAllocator → BlockAllocator
appended last b size offset a =
    let h = write_header b size offset a.headers in
    if last == null
    then record a { block_list_head = b; headers = record h { blocks = clear_links b h.blocks } }
    else record a { headers = record h { blocks = at_end last b h.blocks } }

pub place_behind :
    (a : BlockAllocator) (blocks free : List ℕ) (end : ℕ)
    → IsHeap a blocks free end
    → end + 56 < 2 ^ 64
    → a.virtual_base + offset_behind (last_of 0 blocks) a.headers ≡ end + 56
place_behind a [] free end v s = ap (λ w. w + 56) v.tiles
place_behind a (x ∷ xs) free end v s =
    let last : ℕ = last_of x xs in
    let i : In last (x ∷ xs) = last_of-member x xs in
    let t : last + 56 + a.headers.size last ≡ end =
      Tiles-last a.headers.size a.virtual_base end x xs v.tiles in
    let o : a.virtual_base + a.headers.offset last ≡ last + 56 = v.offset last i in
    let r : offset_behind last a.headers ≡ a.headers.offset last + a.headers.size last + 56 =
      rw (==-false last 0 (Linked-ne_null a.headers.blocks 0 last (x ∷ xs) v.blocks_linked i))
        (omega (arith, t, o)) in
    omega (arith, r, t, o)

pub append_block_call :
    (last pages offset b size : ℕ) (a : BlockAllocator)
    → header_at a.virtual_base offset ≡ b
    → sub64 (pages * page_size % 2 ^ 64) 56 ≡ size
    → append_block last pages offset a ≡ appended last b size offset a
unfolding append_block
append_block_call last pages offset b size a e f = rw (e, f) refl

-- Behind the end of the heap there is no block.
pub end_new :
    (a : BlockAllocator) (blocks free : List ℕ) (end : ℕ)
    → IsHeap a blocks free end
    → ¬ In end blocks
end_new a blocks free end v i =
    omega (arith, (Tiles-within a.headers.size a.virtual_base end end blocks v.tiles i).1)

grown-IsHeapBut :
    (a : BlockAllocator) (blocks free : List ℕ) (end size offset head : ℕ) (links : Links)
    → IsHeap a blocks free end
    → a.virtual_base + offset ≡ end + 56
    → end + 56 + size < 2 ^ 64
    → head ≡ head_of (blocks ++ (end ∷ []))
    → Linked links 0 (blocks ++ (end ∷ []))
    → IsHeapBut end
        (record a {
          block_list_head = head;
          headers = record (write_header end size offset a.headers) { blocks = links };
        })
        (blocks ++ (end ∷ []))
        free
        (end + 56 + size)
grown-IsHeapBut a blocks free end size offset head links v o s e l =
    let h : Headers = a.headers in
    let other : (x : ℕ) → In x blocks → x ≢ end =
      λ x i. ne_of_mem x end blocks i (end_new a blocks free end v) in
    let size' : ℕ → ℕ = update h.size end size in
    record {
      block_head = e;
      free_head = v.free_head;
      blocks_linked = l;
      free_linked = v.free_linked;
      once = v.once;
      tiles =
          subst (λ w. Tiles size' a.virtual_base (blocks ++ (end ∷ [])) (end + 56 + w))
            (update_self h.size end size)
            (Tiles-append size' a.virtual_base end blocks (
              Tiles-same h.size size' a.virtual_base end blocks
                (λ x i. update_other h.size end x size (other x i)) v.tiles));
      bound = s;
      base = v.base;
      listed = λ x j.
          let (k, f) = v.listed x j in
          (In-left x end blocks k, update_other h.is_free end x true (other x k) ∙ f);
      all_listed = λ x j f n. elim (In-append x end blocks j) [
        | inl k ↦
            v.all_listed x k (sym (update_other h.is_free end x true n) ∙ f)
              (Linked-ne_null h.blocks 0 x blocks v.blocks_linked k)
        | inr z ↦ absurd (n z)
      ];
      magic = λ x j. elim (In-append x end blocks j) [
        | inl k ↦ update_other h.magic end x block_magic (other x k) ∙ v.magic x k
        | inr z ↦ ap (update h.magic end block_magic) z ∙ update_self h.magic end block_magic
      ];
      offset = λ x j. elim (In-append x end blocks j) [
        | inl k ↦
            ap (λ w. a.virtual_base + w) (update_other h.offset end x offset (other x k))
            ∙ v.offset x k
        | inr z ↦
            ap (λ w. a.virtual_base + update h.offset end offset w) z
            ∙ ap (λ w. a.virtual_base + w) (update_self h.offset end offset)
            ∙ omega (arith, o, z)
      ];
    }

pub appended-IsHeapBut :
    (a : BlockAllocator) (blocks free : List ℕ) (end size offset : ℕ)
    → IsHeap a blocks free end
    → a.virtual_base + offset ≡ end + 56
    → end + 56 + size < 2 ^ 64
    → IsHeapBut end
        (appended (last_of 0 blocks) end size offset a)
        (blocks ++ (end ∷ []))
        free
        (end + 56 + size)
appended-IsHeapBut a [] free end size offset v o s =
    grown-IsHeapBut a [] free end size offset end (clear_links end a.headers.blocks) v o s refl (
      λ z. v.base (v.tiles ∙ z),
      update_self a.headers.blocks.prev end null,
      update_self a.headers.blocks.next end null,
      tt,
    )
appended-IsHeapBut a (x ∷ xs) free end size offset v o s =
    let last : ℕ = last_of x xs in
    let n : last ≢ 0 =
      Linked-ne_null a.headers.blocks 0 last (x ∷ xs) v.blocks_linked (last_of-member x xs) in
    let t : a.virtual_base ≤ end = Tiles-le a.headers.size a.virtual_base end (x ∷ xs) v.tiles in
    subst (λ w. IsHeapBut end w ((x ∷ xs) ++ (end ∷ [])) free (end + 56 + size))
      (rw (==-false last 0 n) refl)
      (grown-IsHeapBut a (x ∷ xs) free end size offset a.block_list_head
        (at_end last end a.headers.blocks) v o s v.block_head
        (at_end-Linked a.headers.blocks end x xs v.blocks_linked
          (Tiles-Once a.headers.size a.virtual_base end (x ∷ xs) v.tiles)
          (end_new a (x ∷ xs) free end v) (λ z. v.base (omega (arith, t, z)))))
