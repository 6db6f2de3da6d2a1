-- ===== src/Kmalloc/Split.antt =====
-- split_block of kmalloc.c.
use csc.Base.{
  ℕ, ◌+◌, ◌^◌, ◌≤◌, ◌<◌, ◌≡◌, ◌≢◌, refl, ap, ◌∙◌, inl, inr, List, [], ◌∷◌, ◌++◌, true, false, arith,
  null, update, update_self, update_ne, ◌==◌, ltb, leb, if◌then◌else◌, Bool-cases, if_both, ne→==,
  ltb→ge,
}
use csc.Base.Outcome.{Returns}
use csc.Kmalloc.{
  Header, Heap, write, set_size, set_next, set_prev, in_front, cut_or_keep, can_merge, merge_blocks,
  join_blocks, split_block, carve, link_next, new_header, add64,
}
use csc.Kmalloc.Chain.{
  Block, header_of, first, Linked, Ordered, Linked-append, Ordered-append, IsHeap, Ordered-down,
  Linked-same, block_header, block_place,
}
use csc.Kmalloc.Cut.{SameBelow, merge_local, rest_block, split, cut-IsHeap}
use csc.Kmalloc.Merge.{join_next, join_next-head}

-- The heap once the rest of the block has its header and its place in the list.
module _ (base : ℕ) (h : Heap) (xs : List Block) (x : Block) (ys : List Block) (size : ℕ)
    (is : IsHeap base h (xs ++ x ∷ ys)) (pos : 0 < size) (fits : size + 48 ≤ x.size) where
  abbrev rest_at : ℕ
  rest_at = x.addr + 32 + size

  abbrev with_rest : Heap
  with_rest = write rest_at (header_of (rest_block x size) x.addr null) h

  abbrev placed : Heap
  placed = if first ys null == null then with_rest else link_next rest_at (first ys null) with_rest

  rest_at-eq : add64 (h.hdr x.addr).ptr size ≡ rest_at
  rest_at-eq =
      ground
        (arith, block_header base h xs x ys is, block_place base h xs x ys is, is.near, is.in_range)

  new_header-eq : new_header x.addr size h ≡ header_of (rest_block x size) x.addr null
  unfolding new_header
  new_header-eq =
      ground
        (arith, block_header base h xs x ys is, block_place base h xs x ys is, is.near, is.in_range)

  next-eq : (with_rest.hdr x.addr).next ≡ first ys null
  next-eq =
      ap (λ (c : Header). c.next)
        (update_ne h.hdr rest_at _ x.addr (omega arith) ∙ block_header base h xs x ys is)

  carve-eq : carve x.addr size h ≡ set_next x.addr rest_at (set_size x.addr size placed)
  unfolding carve
  carve-eq = rw (rest_at-eq, new_header-eq) (rw next-eq refl)

  rest-Ordered : Ordered rest_at (rest_block x size ∷ ys) h.brk
  rest-Ordered =
      let (mid, before, behind) = Ordered-append xs (x ∷ ys) base h.brk is.ordered in
      (omega arith, omega arith, Ordered-down ys _ _ h.brk (omega arith) behind.2)

  behind-Ordered : Ordered (x.addr + x.size) ys h.brk
  behind-Ordered = let (_, _, behind) = Ordered-append xs (x ∷ ys) base h.brk is.ordered in behind.2

  behind-Linked : Linked h.hdr x.addr ys null
  behind-Linked = (Linked-append h.hdr null xs (x ∷ ys) null is.linked).1.1

  -- The part of the heap from the rest of the block on.
  abbrev Rest : Type 0
  Rest =
      let zs = join_next (rest_block x size) ys in
      Linked placed.hdr x.addr zs null × Ordered rest_at zs h.brk × SameBelow rest_at h placed

-- The rest of a block that has no next one.
placed_last :
    (base : ℕ) (h : Heap) (xs : List Block) (x : Block) (size : ℕ)
    (is : IsHeap base h (xs ++ x ∷ [])) (pos : 0 < size) (fits : size + 48 ≤ x.size)
    → Rest base h xs x [] size is pos fits
placed_last base h xs x size is pos fits =
    let n = rest_block x size in
    (
      (update_self h.hdr n.addr (header_of n x.addr null), tt),
      rest-Ordered base h xs x [] size is pos fits,
      record {
        hdr = λ a there below. update_ne h.hdr n.addr (header_of n x.addr null) a (omega arith);
        head = refl;
        brk = refl;
      },
    )

module _ (base : ℕ) (h : Heap) (xs : List Block) (x y : Block) (ys : List Block) (size : ℕ)
    (is : IsHeap base h (xs ++ x ∷ y ∷ ys)) (pos : 0 < size) (fits : size + 48 ≤ x.size) where
  abbrev linked_in : Heap
  linked_in =
      set_prev y.addr (x.addr + 32 + size)
        (set_next (x.addr + 32 + size) y.addr (with_rest base h xs x (y ∷ ys) size is pos fits))

  apart : (x.addr + x.size ≤ y.addr) × (0 < y.size)
  apart = let o = behind-Ordered base h xs x (y ∷ ys) size is pos fits in (o.0, o.1)

  linked_in_rest : linked_in.hdr (x.addr + 32 + size) ≡ header_of (rest_block x size) x.addr y.addr
  unfolding set_prev set_next update
  linked_in_rest = ground (arith, apart)

  linked_in_next : linked_in.hdr y.addr ≡ header_of y (x.addr + 32 + size) (first ys null)
  unfolding set_prev set_next update
  linked_in_next = ground (arith, apart, (behind-Linked base h xs x (y ∷ ys) size is pos fits).0)

  linked_in_other : (a : ℕ) → a ≢ x.addr + 32 + size → a ≢ y.addr → linked_in.hdr a ≡ h.hdr a
  unfolding set_prev set_next update
  linked_in_other a ne other = ground arith

  between-Linked : Linked linked_in.hdr x.addr (rest_block x size ∷ y ∷ ys) null
  between-Linked =
      let l = behind-Linked base h xs x (y ∷ ys) size is pos fits in
      let o = behind-Ordered base h xs x (y ∷ ys) size is pos fits in
      (
        linked_in_rest,
        (
          linked_in_next,
          Linked-same h.hdr linked_in.hdr y.addr ys null (y.addr + y.size) h.brk o.2
              (λ a from below. linked_in_other a (omega (arith, apart)) (omega (arith, apart))) l.1,
        ),
      )

  placed_between : Rest base h xs x (y ∷ ys) size is pos fits
  unfolding link_next set_prev set_next
  placed_between =
      let (low, size_pos, high, there) = block_place base h xs x (y ∷ ys) is in
      let (linked, ordered, same) =
        merge_local linked_in x.addr (rest_block x size) (x.addr + 32 + size) h.brk (omega arith)
          (omega (arith, is.near)) (omega (arith, is.near, is.in_range)) (y ∷ ys) between-Linked
          (rest-Ordered base h xs x (y ∷ ys) size is pos fits) in
      let live : (y.addr == null) ≡ false = ne→== y.addr null (omega (arith, apart)) in
      rw live (
        linked,
        ordered,
        record {
          hdr = λ a positive below.
              same.hdr a positive below ∙ linked_in_other a (omega arith) (omega (arith, apart));
          head = same.head;
          brk = same.brk;
        },
      )

placed_any :
    (base : ℕ) (h : Heap) (xs : List Block) (x : Block) (ys : List Block) (size : ℕ)
    (is : IsHeap base h (xs ++ x ∷ ys)) (pos : 0 < size) (fits : size + 48 ≤ x.size)
    → Rest base h xs x ys size is pos fits
placed_any base h xs x [] size is pos fits = placed_last base h xs x size is pos fits
placed_any base h xs x (y ∷ ys) size is pos fits = placed_between base h xs x y ys size is pos fits

cut_or_keep-split :
    (base : ℕ) (h : Heap) (xs : List Block) (x : Block) (ys : List Block) (size : ℕ)
    → IsHeap base h (xs ++ x ∷ ys)
    → 0 < size
    → size < 2 ^ 33
    → IsHeap base (cut_or_keep x.addr size h) (xs ++ split x size ys)
unfolding cut_or_keep
cut_or_keep-split base h xs x ys size is pos small = elim (Bool-cases (ltb x.size (size + 48))) [
  | inl short ↦
      let stays : ltb (h.hdr x.addr).size (add64 size 48) ≡ true =
        ground (arith, block_header base h xs x ys is) in
      rw (stays, short) is
  | inr long ↦
      let fits : size + 48 ≤ x.size = ltb→ge _ _ long in
      let cuts : ltb (h.hdr x.addr).size (add64 size 48) ≡ false =
        ground (arith, block_header base h xs x ys is) in
      let (linked, ordered, same) = placed_any base h xs x ys size is pos fits in
      let (w, ws, shape, at) = join_next-head (rest_block x size) ys in
      rw (cuts, long, carve-eq base h xs x ys size is pos fits)
        (cut-IsHeap base h (placed base h xs x ys size is pos fits) xs x ys
          (join_next (rest_block x size) ys) size is pos fits linked (rw shape at) ordered same)
]

-- What follows a block: the next header, or the break.
abbrev pub limit : Heap → List Block → ℕ
limit h ys = first ys h.brk

-- If 48 bytes are to spare behind `size` bytes, the header of the rest lies in front of what follows.
abbrev pub HasRoom : Heap → Block → ℕ → List Block → Type 0
HasRoom h x size ys = size + 48 ≤ x.size → x.addr + 64 + size ≤ limit h ys

next_limit :
    (base : ℕ) (h : Heap) (xs : List Block) (x : Block) (ys : List Block)
    → IsHeap base h (xs ++ x ∷ ys)
    → (if first ys null == null then h.brk else first ys null) ≡ limit h ys
next_limit base h xs x [] is = refl
next_limit base h xs x (y ∷ ys) is =
    let (mid, before, behind) = Ordered-append xs (x ∷ y ∷ ys) base h.brk is.ordered in
    rw
      (ne→== y.addr null (λ e. omega (
        arith,
        e,
        behind.0,
        behind.1,
        behind.2.0,
        Ordered-append xs (x ∷ y ∷ ys) base h.brk is.ordered,
      )))
      refl

-- Bytes of the memory of a block, in front of what follows it.
pub in_front-limit :
    (base : ℕ) (h : Heap) (xs : List Block) (x : Block) (ys : List Block) (p n : ℕ)
    → IsHeap base h (xs ++ x ∷ ys)
    → p + n ≤ limit h ys
    → in_front x.addr p n h ≡ true
unfolding in_front
in_front-limit base h xs x ys p n is inside =
    ap (λ (c : Header). leb (p + n) (if c.next == null then h.brk else c.next))
      (block_header base h xs x ys is)
    ∙ ap (leb (p + n)) (next_limit base h xs x ys is)
    ∙ ground arith

pub merge_blocks-brk : (b1 b2 : ℕ) (h : Heap) → (merge_blocks b1 b2 h).brk ≡ h.brk
unfolding merge_blocks join_blocks set_size set_next set_prev
merge_blocks-brk b1 b2 h =
    let P = λ (h' : Heap). h'.brk ≡ h.brk in
    if_both P (can_merge b1 b2 h) (if_both P _ refl refl) refl

cut_or_keep-brk : (b size : ℕ) (h : Heap) → (cut_or_keep b size h).brk ≡ h.brk
unfolding cut_or_keep carve link_next set_next set_prev set_size
cut_or_keep-brk b size h =
    let P = λ (h' : Heap). h'.brk ≡ h.brk in
    if_both P (ltb (h.hdr b).size (add64 size 48)) refl (if_both P _ refl (merge_blocks-brk _ _ _))

-- split_block at a block of the heap, for a positive size below 2^33, where the header of the
-- rest, if there is one, lies in front of the next header, or of the break: it returns, and cuts
-- that block if 48 bytes are to spare: the rest is a free block, merged with the next one if that
-- is free. No other block changes, and the break does not move.
pub split_block-split :
    (base : ℕ) (h : Heap) (xs : List Block) (x : Block) (ys : List Block) (size : ℕ)
    → IsHeap base h (xs ++ x ∷ ys)
    → 0 < size
    → size < 2 ^ 33
    → HasRoom h x size ys
    → Returns
        (split_block x.addr size h)
        λ h'. IsHeap base h' (xs ++ split x size ys) × (h'.brk ≡ h.brk)
unfolding split_block
split_block-split base h xs x ys size is pos small room =
    let header = block_header base h xs x ys is in
    let place = block_place base h xs x ys is in
    elim (Bool-cases (ltb x.size (size + 48))) [
      | inl short ↦
          let stays : ltb (h.hdr x.addr).size (add64 size 48) ≡ true = ground (arith, header) in
          rw stays (
            _,
            refl,
            (cut_or_keep-split base h xs x ys size is pos small, cut_or_keep-brk x.addr size h),
          )
      | inr long ↦
          let fits : size + 48 ≤ x.size = ltb→ge _ _ long in
          let cuts : ltb (h.hdr x.addr).size (add64 size 48) ≡ false = ground (arith, header) in
          let at = rest_at-eq base h xs x ys size is pos fits in
          let inside =
            in_front-limit base h xs x ys (x.addr + 32 + size) 32 is (omega (arith, room fits)) in
          rw (cuts, at, inside)
            (
              _,
              refl,
              (cut_or_keep-split base h xs x ys size is pos small, cut_or_keep-brk x.addr size h),
            )
    ]
