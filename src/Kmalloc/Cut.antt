-- ===== src/Kmalloc/Cut.antt =====
-- The steps of split_block of kmalloc.c: the rest of a block, merged with the next one, and the two
-- last writes to the block itself.
use csc.Base.{
  ℕ, ◌+◌, ◌-◌, ◌^◌, ◌≤◌, ◌<◌, ◌≡◌, ◌≢◌, refl, sym, ap, ◌∙◌, inl, inr, List, [], ◌∷◌, ◌++◌, true,
  ◌&&◌, arith, null, update, ltb, if◌then◌else◌, Bool-cases, ==→eq,
}
use csc.Kmalloc.{Heap, merge_blocks, join_blocks, set_size, set_next}
use csc.Kmalloc.Chain.{
  Block, header_of, first, last, Linked, Ordered, Linked-append, append-Linked, Ordered-append,
  append-Ordered, IsHeap, Ordered-le, Ordered-down, Linked-same, block_header, block_place,
  first-append,
}
use csc.Kmalloc.Merge.{
  join_next, joined, adjacent, join_hdr_x, join_hdr_other, join_tail, join_rest, can_merge-eq,
  can_merge-null, first-ne,
}

-- A heap with the same break and head, and the same headers below an address.
pub record SameBelow (low : ℕ) (h h' : Heap) : Type 0 where
  pub hdr : (a : ℕ) → 0 < a → a < low → h'.hdr a ≡ h.hdr a
  pub head : h'.kernel_heap_head ≡ h.kernel_heap_head
  pub brk : h'.brk ≡ h.brk

-- merge_blocks at the front of a part of the heap, whatever stands before that part.
module _ (h : Heap) (p : ℕ) (x : Block) (low high : ℕ) (pos : 0 < low)
    (near : high < low + 2 ^ 32 - 2 ^ 17) (range : low < 2 ^ 49) where
  abbrev pub Merged : List Block → Type 0
  Merged ys =
      let h' = merge_blocks x.addr (first ys null) h in
      Linked h'.hdr p (join_next x ys) null × Ordered low (join_next x ys) high × SameBelow low h h'

  merge_joined :
      (y : Block) (ys : List Block)
      → Linked h.hdr p (x ∷ y ∷ ys) null
      → Ordered low (x ∷ y ∷ ys) high
      → adjacent x y ≡ true
      → Linked (join_blocks x.addr y.addr h).hdr p (joined x y ∷ ys) null
        × Ordered low (joined x y ∷ ys) high
        × SameBelow low h (join_blocks x.addr y.addr h)
  merge_joined y ys l o touch =
      let at_x = l.0 in
      let at_y = l.1.0 in
      let high_le = Ordered-le ys (y.addr + y.size) high o.2.2 in
      let touching = ==→eq _ _ touch in
      let ne : x.addr ≢ y.addr = omega (arith, o.1, o.2.0) in
      let small : x.size + y.size + 32 < 2 ^ 32 = omega (arith, o.0) in
      let apart =
        first-ne ys x.addr _ high o.2.2 (omega (arith, o.1, o.2.0, o.2.1)) (omega (arith, o.0)) in
      let (same_head, same_brk, _) = join_rest h x y p (first ys null) at_x at_y ne small in
      (
        (
          join_hdr_x h x y p (first ys null) at_x at_y ne small apart,
          join_tail h x y p ys high at_x at_y (omega (arith, o.1, o.2.0)) small o.2.2 l.1.1,
        ),
        (o.0, omega (arith, o.1), Ordered-down ys _ _ high (omega arith) o.2.2),
        record {
          hdr = λ a there below.
              join_hdr_other h x y p (first ys null) at_x at_y ne small a (omega (arith, o.0))
                (first-ne ys a _ high o.2.2 (omega (arith, o.0, o.1, o.2.0, o.2.1)) there);
          head = same_head;
          brk = same_brk;
        },
      )

  pub merge_local :
      (ys : List Block) → Linked h.hdr p (x ∷ ys) null → Ordered low (x ∷ ys) high → Merged ys
  unfolding merge_blocks
  merge_local [] l o =
      rw (can_merge-null x.addr h)
        (l, o, record { hdr = λ a there below. refl; head = refl; brk = refl })
  merge_local (y ∷ ys) l o =
      let same =
        can_merge-eq h x y p (first ys null) l.0 l.1.0 (omega (arith, o.0))
          (omega (arith, o.0, o.1, o.2.0))
          (omega (arith, o.0, o.1, o.2.0, Ordered-le ys (y.addr + y.size) high o.2.2)) in
      elim (Bool-cases (x.free && y.free && adjacent x y)) [
        | inl merges ↦ rw (same, merges) (merge_joined y ys l o (ground arith))
        | inr stays ↦
            rw (same, stays) (l, o, record { hdr = λ a there below. refl; head = refl; brk = refl })
      ]

-- The two parts of a block of more than `size` bytes.
abbrev pub cut_block : Block → ℕ → Block
cut_block x size = record x { size = size }

abbrev pub rest_block : Block → ℕ → Block
rest_block x size = record { addr = x.addr + 32 + size; size = x.size - size - 32; free = true }

-- The blocks after the first of them is cut to `size` bytes: the rest is a free block, which is
-- merged with the next one if that is free; a block with less than 48 bytes to spare stays whole.
abbrev pub split : Block → ℕ → List Block → List Block
split x size ys =
    if ltb x.size (size + 48) then x ∷ ys else cut_block x size ∷ join_next (rest_block x size) ys

-- The last two writes of split_block, at a block whose rest has its place in the list.
module _ (base : ℕ) (h h2 : Heap) (xs : List Block) (x : Block) (ys zs : List Block) (size : ℕ)
    (is : IsHeap base h (xs ++ x ∷ ys)) (pos : 0 < size) (fits : size + 48 ≤ x.size)
    (rest : Linked h2.hdr x.addr zs null) (starts : first zs null ≡ x.addr + 32 + size)
    (ordered : Ordered (x.addr + 32 + size) zs h.brk)
    (same : SameBelow (x.addr + 32 + size) h h2) where
  abbrev pub cut_heap : Heap
  cut_heap = set_next x.addr (x.addr + 32 + size) (set_size x.addr size h2)

  cut_hdr_self :
      cut_heap.hdr x.addr ≡ header_of (cut_block x size) (last null xs) (x.addr + 32 + size)
  unfolding set_next set_size update
  cut_hdr_self =
      let (_, _, high, there) = block_place base h xs x ys is in
      ground (
        arith,
        block_place base h xs x ys is,
        is.near,
        same.hdr x.addr (omega arith) (omega arith),
        block_header base h xs x ys is,
      )

  cut_hdr_other : (a : ℕ) → a ≢ x.addr → cut_heap.hdr a ≡ h2.hdr a
  unfolding set_next set_size update
  cut_hdr_other a ne = ground arith

  cut_rest : cut_heap.kernel_heap_head ≡ h.kernel_heap_head × (cut_heap.brk ≡ h.brk)
  unfolding set_next set_size
  cut_rest = (same.head, same.brk)

  pub cut-IsHeap : IsHeap base cut_heap (xs ++ cut_block x size ∷ zs)
  cut-IsHeap =
      let (mid, before, behind) = Ordered-append xs (x ∷ ys) base h.brk is.ordered in
      let (front, back) = Linked-append h.hdr null xs (x ∷ ys) null is.linked in
      let low = Ordered-le xs base mid before in
      record {
        head = cut_rest.0 ∙ is.head ∙ first-append xs (x ∷ ys) (cut_block x size ∷ zs) null refl;
        linked =
            append-Linked cut_heap.hdr null xs (cut_block x size ∷ zs) null
              (Linked-same h.hdr cut_heap.hdr null xs x.addr base mid before
                (λ a from below.
                  cut_hdr_other a (omega (arith, behind.0))
                  ∙ same.hdr a (omega (arith, is.above_null)) (omega (arith, behind.0)))
                front)
              (
                cut_hdr_self ∙ ap (λ t. header_of (cut_block x size) (last null xs) t) (sym starts),
                Linked-same h2.hdr cut_heap.hdr x.addr zs null (x.addr + 32 + size) h.brk ordered
                    (λ a from below. cut_hdr_other a (omega arith)) rest,
              );
        ordered = rw cut_rest.1 (
            append-Ordered xs (cut_block x size ∷ zs) base mid h.brk before
              (behind.0, pos, Ordered-down zs _ _ h.brk (omega arith) ordered));
        above_null = is.above_null;
        near = rw cut_rest.1 is.near;
        in_range = is.in_range;
      }
