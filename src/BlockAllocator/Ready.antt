-- ===== src/BlockAllocator/Ready.antt =====
-- A free block for a request: the first one that is large enough, or a new one.
use z_os.Base.{
  not_both, In, In-append, In-left, In-last, ne_of_mem, update, update_self, update_other, ℕ, ◌+◌,
  ◌-◌, ◌*◌, ◌^◌, ◌≤◌, ◌<◌, ◌≡◌, ◌≢◌, ◌⊎◌, inl, inr, refl, sym, ap, ap₂, ◌∙◌, subst, true, false,
  Bool-cases, some, Status, ok, fail, List, [], ◌∷◌, ◌++◌, length, arith, ◌==◌, ==-false,
}
use z_os.Links.{last_of, Linked-ne_null}
use z_os.BlockAllocator.{
  Backing, BlockAllocator, add_block_to_free_list, find_free_from, last_from, find_free_block,
  get_last_block_header, append_block, offset_behind, header_at, needed_pages, page_size, map_pages,
  find_or_create_free_block,
}
use z_os.BlockAllocator.Tiles.{Tiles-le}
use z_os.BlockAllocator.Heap.{IsHeap, Used, add-IsHeap}
use z_os.BlockAllocator.Find.{
  first_fit, first_fit-Fits, find_free_from-first_fit, last_from-last_of,
}
use z_os.BlockAllocator.Create.{
  needed_pages_lem, place_behind, append_block_call, appended, appended-IsHeapBut, end_new,
}

-- A free block that is large enough, and the blocks in use as they were.
pub record Ready (size : ℕ) (a : BlockAllocator) (blocks : List ℕ) (b : ℕ) (a' : BlockAllocator)
    : Type 0 where
  pub blocks' : List ℕ
  pub free' : List ℕ
  pub end' : ℕ
  pub valid : IsHeap a' blocks' free' end'
  pub listed : In b free'
  pub large : size ≤ a'.headers.size b
  pub kept : (x : ℕ) → Used a blocks x → Used a' blocks' x × (a'.headers.size x ≡ a.headers.size x)
  pub only : (x : ℕ) → Used a' blocks' x → Used a blocks x

appended_is_free :
    (last b size offset x : ℕ) (a : BlockAllocator)
    → (appended last b size offset a).headers.is_free x ≡ update a.headers.is_free b true x
appended_is_free last b size offset x a = elim (Bool-cases (last == 0)) [
  | inl e ↦ rw e refl
  | inr e ↦ rw e refl
]

appended_size :
    (last b size offset x : ℕ) (a : BlockAllocator)
    → (appended last b size offset a).headers.size x ≡ update a.headers.size b size x
appended_size last b size offset x a = elim (Bool-cases (last == 0)) [
  | inl e ↦ rw e refl
  | inr e ↦ rw e refl
]

add_is_free :
    (b x : ℕ) (a : BlockAllocator)
    → (add_block_to_free_list b a).headers.is_free x ≡ a.headers.is_free x
unfolding add_block_to_free_list
add_is_free b x a = refl

add_size :
    (b x : ℕ) (a : BlockAllocator) → (add_block_to_free_list b a).headers.size x ≡ a.headers.size x
unfolding add_block_to_free_list
add_size b x a = refl

appended-Ready :
    (a : BlockAllocator) (blocks free : List ℕ) (end size room offset : ℕ)
    → IsHeap a blocks free end
    → a.virtual_base + offset ≡ end + 56
    → size ≤ room
    → end + 56 + room < 2 ^ 64
    → Ready size a blocks end
        (add_block_to_free_list end (appended (last_of 0 blocks) end room offset a))
appended-Ready a blocks free end size room offset v o r s =
    let last : ℕ = last_of 0 blocks in
    let a' : BlockAllocator = appended last end room offset a in
    let new : ¬ In end blocks = end_new a blocks free end v in
    let is_free : (x : ℕ)
        → (add_block_to_free_list end a').headers.is_free x ≡ update a.headers.is_free end true x =
      λ x. add_is_free end x a' ∙ appended_is_free last end room offset x a in
    let size_of : (x : ℕ)
        → (add_block_to_free_list end a').headers.size x ≡ update a.headers.size end room x =
      λ x. add_size end x a' ∙ appended_size last end room offset x a in
    record {
      blocks' = blocks ++ (end ∷ []);
      free' = end ∷ free;
      end' = end + 56 + room;
      valid =
          add-IsHeap end a' (blocks ++ (end ∷ [])) free (end + 56 + room)
            (appended-IsHeapBut a blocks free end room offset v o s) (In-last end blocks)
            (appended_is_free last end room offset end a ∙ update_self a.headers.is_free end true)
            (λ i. new (v.listed end i).0);
      listed = inl refl;
      large = omega (arith, r, size_of end ∙ update_self a.headers.size end room);
      kept = λ x (i, f).
          let n = ne_of_mem x end blocks i new in
          (
            (In-left x end blocks i, is_free x ∙ update_other a.headers.is_free end x true n ∙ f),
            size_of x ∙ update_other a.headers.size end x room n,
          );
      only = λ x (i, f). elim (In-append x end blocks i) [
        | inl j ↦ (
          j,
          sym (update_other a.headers.is_free end x true (ne_of_mem x end blocks j new))
              ∙ sym (is_free x)
              ∙ f,
        )
        | inr e ↦ absurd (
            not_both _ (is_free end ∙ update_self a.headers.is_free end true)
              (subst (λ w. (add_block_to_free_list end a').headers.is_free w ≡ false) e f))
      ];
    }

found-Ready :
    (a : BlockAllocator) (blocks free : List ℕ) (end size b : ℕ)
    → IsHeap a blocks free end
    → In b free
    → size ≤ a.headers.size b
    → Ready size a blocks b a
found-Ready a blocks free end size b v i s = record {
  blocks' = blocks;
  free' = free;
  end' = end;
  valid = v;
  listed = i;
  large = s;
  kept = λ x u. (u, refl);
  only = λ x u. u;
}

pub Status-cases : (s : Status) → (s ≡ ok) ⊎ (s ≡ fail)
Status-cases ok = inl refl
Status-cases fail = inr refl

module _ {S : Type 0} (backing : Backing S) where
  found_call :
      (fuel size b : ℕ) (a : BlockAllocator) (s : S)
      → find_free_block fuel size a ≡ some b
      → b ≢ 0
      → find_or_create_free_block backing fuel size a s ≡ some (b, a, s)
  unfolding find_or_create_free_block
  found_call fuel size b a s e n = rw (find_or_create_free_block, e, ==-false b 0 n) refl

  abbrev pages_mapped : (size last : ℕ) → BlockAllocator → S → Status × S
  pages_mapped size last a s =
      map_pages backing (needed_pages size)
        (header_at a.virtual_base (offset_behind last a.headers)) s

  failed_call :
      (fuel size last : ℕ) (a : BlockAllocator) (s : S)
      → find_free_block fuel size a ≡ some 0
      → get_last_block_header fuel a ≡ some last
      → (pages_mapped size last a s).0 ≡ fail
      → find_or_create_free_block backing fuel size a s
        ≡ some (0, a, (pages_mapped size last a s).1)
  unfolding find_or_create_free_block
  failed_call fuel size last a s e f g = rw (find_or_create_free_block, e, f, g) refl

  created_call :
      (fuel size last : ℕ) (a : BlockAllocator) (s : S)
      → find_free_block fuel size a ≡ some 0
      → get_last_block_header fuel a ≡ some last
      → (pages_mapped size last a s).0 ≡ ok
      → find_or_create_free_block backing fuel size a s
        ≡ some (
          header_at a.virtual_base (offset_behind last a.headers),
          add_block_to_free_list
              (header_at a.virtual_base (offset_behind last a.headers))
              (append_block last (needed_pages size) (offset_behind last a.headers) a),
          (pages_mapped size last a s).1,
        )
  unfolding find_or_create_free_block
  created_call fuel size last a s e f g = rw (find_or_create_free_block, e, f, g) refl

  -- What a request finds: a block, or nothing because the pages have run out.
  abbrev pub Outcome : (fuel size : ℕ) → BlockAllocator → (blocks : List ℕ) → S → Type 0
  Outcome fuel size a blocks s =
      (b : ℕ) × (a' : BlockAllocator) × (s' : S) × (find_or_create_free_block backing fuel size a s
        ≡ some (b, a', s'))
      × (((b ≡ 0) × (a' ≡ a)) ⊎ ((b ≢ 0) × Ready size a blocks b a'))

  created :
      (fuel size : ℕ) (a : BlockAllocator) (blocks free : List ℕ) (end : ℕ) (s : S)
      → IsHeap a blocks free end
      → end + size + 4152 ≤ 2 ^ 64
      → find_free_block fuel size a ≡ some 0
      → get_last_block_header fuel a ≡ some (last_of 0 blocks)
      → (pages_mapped size (last_of 0 blocks) a s).0 ≡ ok
      → Outcome fuel size a blocks s
  created fuel size a blocks free end s v r e f g =
      let last : ℕ = last_of 0 blocks in
      let offset : ℕ = offset_behind last a.headers in
      let pages : (size + 56 ≤ needed_pages size * page_size)
          × (needed_pages size * page_size < size + 56 + 4096) =
        needed_pages_lem size (omega arith) in
      let o : a.virtual_base + offset ≡ end + 56 = place_behind a blocks free end v (omega arith) in
      let t : a.virtual_base ≤ end = Tiles-le a.headers.size a.virtual_base end blocks v.tiles in
      let at : header_at a.virtual_base offset ≡ end = omega (arith, o) in
      let room : ℕ = needed_pages size * page_size - 56 in
      let call : append_block last (needed_pages size) offset a ≡ appended last end room offset a =
        append_block_call last (needed_pages size) offset end room a at (omega (arith, pages)) in
      (
        end,
        add_block_to_free_list end (appended last end room offset a),
        (pages_mapped size last a s).1,
        created_call fuel size last a s e f g
            ∙ ap₂ (λ b w. some (b, add_block_to_free_list b w, (pages_mapped size last a s).1)) at
                call,
        inr (
          λ z. v.base (omega (arith, t, z)),
          appended-Ready a blocks free end size room offset v o (omega (arith, pages))
              (omega (arith, pages)),
        ),
      )

  pub find_or_create_free_block-Ready :
      (fuel size : ℕ) (a : BlockAllocator) (blocks free : List ℕ) (end : ℕ) (s : S)
      → IsHeap a blocks free end
      → length blocks ≤ fuel
      → length free ≤ fuel
      → end + size + 4152 ≤ 2 ^ 64
      → Outcome fuel size a blocks s
  find_or_create_free_block-Ready fuel size a blocks free end s v l m r =
      let find : find_free_block fuel size a ≡ some (first_fit a.headers.size size free) =
        ap (λ w. find_free_from fuel w size a.headers) v.free_head
        ∙ find_free_from-first_fit fuel size 0 a.headers free v.free_linked m in
      let last : get_last_block_header fuel a ≡ some (last_of 0 blocks) =
        ap (λ w. last_from fuel w a.headers) v.block_head
        ∙ last_from-last_of fuel 0 a.headers blocks v.blocks_linked l in
      elim (first_fit-Fits a.headers.size size free) [
        | inr (i, k) ↦
            let b : ℕ = first_fit a.headers.size size free in
            let n : b ≢ 0 = Linked-ne_null a.headers.free 0 b free v.free_linked i in
            (
              b,
              a,
              s,
              found_call fuel size b a s find n,
              inr (n, found-Ready a blocks free end size b v i k),
            )
        | inl z ↦ elim (Status-cases (pages_mapped size (last_of 0 blocks) a s).0) [
          | inl g ↦ created fuel size a blocks free end s v r (find ∙ ap some z) last g
          | inr g ↦ (
            0,
            a,
            (pages_mapped size (last_of 0 blocks) a s).1,
            failed_call fuel size (last_of 0 blocks) a s (find ∙ ap some z) last g,
            inl (refl, refl),
          )
        ]
      ]
