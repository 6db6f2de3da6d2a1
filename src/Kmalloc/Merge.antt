-- ===== src/Kmalloc/Merge.antt =====
-- merge_blocks of kmalloc.c.
use csc.Base.{
  ℕ, ◌+◌, ◌^◌, ◌≤◌, ◌<◌, ◌≡◌, ◌≢◌, refl, sym, ap, ◌∙◌, inl, inr, List, [], ◌∷◌, ◌++◌, Bool, true,
  false, ◌&&◌, arith, null, update, ◌==◌, if◌then◌else◌, Bool-cases, ==→eq,
}
use csc.Kmalloc.{Header, Heap, merge_blocks, join_blocks, can_merge, set_size, set_next, set_prev}
use csc.Kmalloc.Chain.{
  Block, header_of, first, last, Linked, Ordered, Linked-append, append-Linked, Linked-same,
  Ordered-append, append-Ordered, IsHeap, Ordered-down, Ordered-le,
}

-- Two blocks as one: the header of the second becomes memory.
abbrev pub joined : Block → Block → Block
joined x y = record { addr = x.addr; size = x.size + y.size + 32; free = x.free }

-- The second block starts where the first one ends.
abbrev pub adjacent : Block → Block → Bool
adjacent x y = x.addr + 32 + x.size == y.addr

-- A block in front of others, merged with the next one if it can be.
abbrev pub join_next : Block → List Block → List Block
join_next x [] = x ∷ []
join_next x (y ∷ ys) = if x.free && y.free && adjacent x y then joined x y ∷ ys else x ∷ y ∷ ys

-- The headers after the writes of merge_blocks.
module _ (h : Heap) (x y : Block) (p n : ℕ) (at_x : h.hdr x.addr ≡ header_of x p y.addr)
    (at_y : h.hdr y.addr ≡ header_of y x.addr n) (ne : x.addr ≢ y.addr)
    (small : x.size + y.size + 32 < 2 ^ 32) where
  pub join_hdr_x :
      x.addr ≢ n → (join_blocks x.addr y.addr h).hdr x.addr ≡ header_of (joined x y) p n
  unfolding join_blocks set_size set_next set_prev update
  join_hdr_x other = ground (arith, at_x, at_y)

  join_hdr_n :
      n ≢ null
      → x.addr ≢ n
      → (join_blocks x.addr y.addr h).hdr n ≡ record (h.hdr n) { prev = x.addr }
  unfolding join_blocks set_size set_next set_prev update
  join_hdr_n there other = ground (arith, at_x, at_y)

  pub join_hdr_other : (a : ℕ) → a ≢ x.addr → a ≢ n → (join_blocks x.addr y.addr h).hdr a ≡ h.hdr a
  unfolding join_blocks set_size set_next set_prev update
  join_hdr_other a out other = ground (arith, at_y)

  pub join_rest :
      ((join_blocks x.addr y.addr h).kernel_heap_head ≡ h.kernel_heap_head)
      × ((join_blocks x.addr y.addr h).brk ≡ h.brk)
      × ((join_blocks x.addr y.addr h).errno ≡ h.errno)
  unfolding join_blocks set_size set_next set_prev
  join_rest = ground (arith, at_y)

pub first-ne :
    (ys : List Block) (a low high : ℕ) → Ordered low ys high → a < low → 0 < a → a ≢ first ys null
first-ne [] a low high o lt pos = omega arith
first-ne (z ∷ zs) a low high o lt pos = omega arith

-- The blocks behind the two: the first of them has a new block before it.
pub join_tail :
    (h : Heap) (x y : Block) (p : ℕ) (ys : List Block) (high : ℕ)
    → h.hdr x.addr ≡ header_of x p y.addr
    → h.hdr y.addr ≡ header_of y x.addr (first ys null)
    → x.addr < y.addr
    → x.size + y.size + 32 < 2 ^ 32
    → Ordered (y.addr + y.size) ys high
    → Linked h.hdr y.addr ys null
    → Linked (join_blocks x.addr y.addr h).hdr x.addr ys null
join_tail h x y p [] high at_x at_y lt small o l = tt
join_tail h x y p (z ∷ zs) high at_x at_y lt small o l = (
  join_hdr_n h x y p z.addr at_x at_y (omega arith) small (omega arith) (omega arith)
      ∙ ap (λ (c : Header). record c { prev = x.addr }) l.0,
  Linked-same h.hdr _ z.addr zs null (z.addr + z.size) high o.2
      (λ a from below.
        join_hdr_other h x y p z.addr at_x at_y (omega arith) small a (omega arith) (omega arith))
      l.1,
)

-- The guards of merge_blocks at two neighbours of the list.
module _ (h : Heap) (x y : Block) (p n : ℕ) (at_x : h.hdr x.addr ≡ header_of x p y.addr)
    (at_y : h.hdr y.addr ≡ header_of y x.addr n) (x_there : x.addr ≢ null) (y_there : y.addr ≢ null)
    (near : x.addr + 32 + x.size < 2 ^ 64) where
  pub can_merge-eq : can_merge x.addr y.addr h ≡ (x.free && y.free && adjacent x y)
  unfolding can_merge
  can_merge-eq = ground (arith, at_x, at_y)

-- Below the first of the blocks nothing stands, and above it nothing before its memory.
module _ (base : ℕ) (h : Heap) (xs : List Block) (x y : Block) (ys : List Block)
    (is : IsHeap base h (xs ++ x ∷ y ∷ ys)) where
  -- What the heap says of the two blocks and of those around them.
  record Around : Type 0 where
    mid : ℕ
    before : Ordered base xs mid
    behind : Ordered mid (x ∷ y ∷ ys) h.brk
    front : Linked h.hdr null xs x.addr
    at_x : h.hdr x.addr ≡ header_of x (last null xs) y.addr
    at_y : h.hdr y.addr ≡ header_of y x.addr (first ys null)
    rest : Linked h.hdr y.addr ys null
    base_le : base ≤ mid
    brk_le : y.addr + y.size ≤ h.brk

  around : Around
  around =
      let (mid, before, behind) = Ordered-append xs (x ∷ y ∷ ys) base h.brk is.ordered in
      let (front, back) = Linked-append h.hdr null xs (x ∷ y ∷ ys) null is.linked in
      record {
        mid = mid;
        before = before;
        behind = behind;
        front = front;
        at_x = back.0;
        at_y = back.1.0;
        rest = back.1.1;
        base_le = Ordered-le xs base mid before;
        brk_le = Ordered-le ys (y.addr + y.size) h.brk behind.2.2;
      }

  module _ (n : Around) (touch : adjacent x y ≡ true) where
    joined-Ordered : Ordered base (xs ++ joined x y ∷ ys) h.brk
    joined-Ordered = append-Ordered xs (joined x y ∷ ys) base n.mid h.brk n.before (
      n.behind.0,
      omega (arith, n.behind.1),
      Ordered-down ys _ _ h.brk (omega (arith, ==→eq _ _ touch)) n.behind.2.2,
    )

    ne : x.addr ≢ y.addr
    ne = omega (arith, n.behind.1, n.behind.2.0)

    small : x.size + y.size + 32 < 2 ^ 32
    small = omega (arith, ==→eq _ _ touch, is.near, n.brk_le, n.base_le, n.behind.0)

    joined-Linked : Linked (join_blocks x.addr y.addr h).hdr null (xs ++ joined x y ∷ ys) null
    joined-Linked =
        append-Linked _ null xs (joined x y ∷ ys) null
          (Linked-same h.hdr _ null xs x.addr base n.mid n.before
            (λ a from below.
              join_hdr_other h x y (last null xs) (first ys null) n.at_x n.at_y ne small a
                (omega (arith, n.behind.0))
                (first-ne ys a _ h.brk n.behind.2.2
                  (omega (arith, n.behind.0, n.behind.1, n.behind.2.0))
                  (omega (arith, is.above_null))))
            n.front)
          (
            join_hdr_x h x y (last null xs) (first ys null) n.at_x n.at_y ne small (
                first-ne ys x.addr _ h.brk n.behind.2.2
                  (omega (arith, n.behind.1, n.behind.2.0, n.behind.2.1))
                  (omega (arith, is.above_null, n.base_le, n.behind.0))),
            join_tail h x y (last null xs) ys h.brk n.at_x n.at_y
                (omega (arith, n.behind.1, n.behind.2.0)) small n.behind.2.2 n.rest,
          )

    first-joined :
        (xs : List Block) → first (xs ++ joined x y ∷ ys) null ≡ first (xs ++ x ∷ y ∷ ys) null
    first-joined [] = refl
    first-joined (w ∷ ws) = refl

    joined-IsHeap : IsHeap base (join_blocks x.addr y.addr h) (xs ++ joined x y ∷ ys)
    joined-IsHeap =
        let (same_head, same_brk, _) =
          join_rest h x y (last null xs) (first ys null) n.at_x n.at_y ne small in
        record {
          head = same_head ∙ is.head ∙ sym (first-joined xs);
          linked = joined-Linked;
          ordered = rw same_brk joined-Ordered;
          above_null = is.above_null;
          near = rw same_brk is.near;
          in_range = is.in_range;
        }

pub can_merge-null : (b : ℕ) (h : Heap) → can_merge b null h ≡ false
unfolding can_merge
can_merge-null b h = ground arith

module _ (base : ℕ) (h : Heap) (xs : List Block) (x y : Block) (ys : List Block)
    (is : IsHeap base h (xs ++ x ∷ y ∷ ys)) (n : Around base h xs x y ys is) where
  can_merge-around : can_merge x.addr y.addr h ≡ (x.free && y.free && adjacent x y)
  unfolding can_merge
  can_merge-around = ground (
    arith, n.at_x, n.at_y, n.behind.0, n.behind.1, n.behind.2.0, n.base_le, n.brk_le, is.near,
    is.above_null, is.in_range,
  )

-- merge_blocks of a block of the heap and the one behind it makes one block of the two exactly if
-- both are free and the second starts where the first ends; otherwise the heap stands for the same
-- blocks.
pub merge_blocks-join_next :
    (base : ℕ) (h : Heap) (xs : List Block) (x : Block) (ys : List Block)
    → IsHeap base h (xs ++ x ∷ ys)
    → IsHeap base (merge_blocks x.addr (h.hdr x.addr).next h) (xs ++ join_next x ys)
unfolding merge_blocks
merge_blocks-join_next base h xs x [] is =
    let (_, back) = Linked-append h.hdr null xs (x ∷ []) null is.linked in
    let no_next : (h.hdr x.addr).next ≡ null = rw back.0 refl in
    rw (no_next, can_merge-null x.addr h) is
merge_blocks-join_next base h xs x (y ∷ ys) is =
    let n = around base h xs x y ys is in
    let next_is : (h.hdr x.addr).next ≡ y.addr = rw n.at_x refl in
    let same = can_merge-around base h xs x y ys is n in
    elim (Bool-cases (x.free && y.free && adjacent x y)) [
      | inl merges ↦ rw (next_is, same, merges) (joined-IsHeap base h xs x y ys is n (ground arith))
      | inr stays ↦ rw (next_is, same, stays) is
    ]

-- A merged block keeps its address.
pub join_next-head :
    (x : Block) (ys : List Block)
    → (w : Block) × (ws : List Block) × (join_next x ys ≡ w ∷ ws) × (w.addr ≡ x.addr)
join_next-head x [] = (x, [], refl, refl)
join_next-head x (y ∷ ys) = elim (Bool-cases (x.free && y.free && adjacent x y)) [
  | inl merges ↦ (joined x y, ys, rw merges, refl)
  | inr stays ↦ (x, y ∷ ys, rw stays, refl)
]
