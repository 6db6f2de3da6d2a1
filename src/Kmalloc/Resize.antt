-- ===== src/Kmalloc/Resize.antt =====
-- krealloc of kmalloc.c, where the block can stay where it is.
use mathlib.Core.Path.{subst}
use csc.Base.{
  ℕ, ◌+◌, ◌-◌, ◌^◌, ◌≤◌, ◌<◌, ◌≡◌, ◌⊎◌, refl, ap, ◌∙◌, List, [], ◌∷◌, ◌++◌, true, false, ◌||◌, ◌&&◌,
  not, ◌==◌, ltb, if◌then◌else◌, arith, null, ne→==, inl, inr,
}
use csc.Base.Outcome.{Outcome, ok, fault, Returns, ◌>>=◌}
use csc.Strings.{Memory, memcpy}
use csc.Kmalloc.{
  Header, Heap, enomem, kmalloc, kfree, get_header, uint32_max, round_up, align_size, set_free,
  merge_blocks, split_block, in_front,
}
use csc.Kmalloc.Chain.{Block, first, IsHeap, block_header, block_place}
use csc.Kmalloc.Cut.{split}
use csc.Kmalloc.Merge.{join_next, join_next-head, merge_blocks-join_next}
use csc.Kmalloc.Split.{HasRoom, merge_blocks-brk, split_block-split}
use csc.Kmalloc.Free.{freed_block, set_free-IsHeap}
use csc.Kmalloc.Round.{round_up_bounds}
use csc.Kmalloc.Search.{used}

-- The block moves: its bytes are copied to a new block, and it is given back. A copy to NULL is
-- undefined, and a copy of bytes that reach over the next header or the break is a fault.
unfoldable pub move_block : ℕ → ℕ → ℕ → ℕ → Heap → Memory → Outcome (ℕ × Heap × Memory)
unfolding kmalloc memcpy kfree split_block in_front
move_block fuel ptr size total_size h mem = do
  (p, h1) ← kmalloc fuel total_size h
  let b = get_header ptr
  let n = (h1.hdr b).size
  let copied = in_front b ptr n h1 && in_front (get_header p) p n h1
  h2 ← (if (p == null) || not copied then fault else kfree fuel ptr h1)
  h3 ← split_block (get_header p) size h2
  ok (p, h3, memcpy p ptr n mem)

-- The block is merged with its neighbours; where that is enough it stays.
unfoldable pub grow_block : ℕ → ℕ → ℕ → ℕ → Heap → Memory → Outcome (ℕ × Heap × Memory)
unfolding move_block
grow_block fuel ptr size total_size h mem =
    let b = get_header ptr in
    let h1 = set_free b true h in
    let h2 = merge_blocks b (h1.hdr b).next h1 in
    let short = ltb (h2.hdr b).size total_size in
    let new_ptr = if short then null else (h2.hdr b).ptr in
    let h3 = if short then merge_blocks (h2.hdr b).prev b h2 else h2 in
    let h4 = set_free b false h3 in
    let moved = move_block fuel ptr size total_size h4 mem in
    if ltb (h4.hdr b).size total_size
    then moved
    else (do h5 ← split_block (get_header new_ptr) size h4; ok (new_ptr, h5, mem))

unfoldable pub krealloc : ℕ → ℕ → ℕ → Heap → Memory → Outcome (ℕ × Heap × Memory)
krealloc fuel ptr size h mem =
    let total_size = round_up size align_size in
    let fresh = kmalloc fuel size h >>= λ (p, h). ok (p, h, mem) in
    let given_back = kfree fuel ptr h >>= λ h. ok (null, h, mem) in
    if ptr == null
    then fresh
    else if size == 0
    then given_back
    else if ltb uint32_max size || ltb uint32_max total_size
    then ok (null, record h { errno = enomem }, mem)
    else if ltb total_size (h.hdr (get_header ptr)).size
    then (do h1 ← split_block (get_header ptr) total_size h; ok (ptr, h1, mem))
    else grow_block fuel ptr size total_size h mem

-- The first block, which is free, is taken into use for `n` bytes; what is more is split off.
abbrev pub keep_first : ℕ → List Block → List Block
keep_first n [] = []
keep_first n (w ∷ ws) = split (used w) n ws

abbrev pub first_size : List Block → ℕ
first_size [] = 0
first_size (w ∷ ws) = w.size

-- The blocks after the first of them is resized where it stands: a block that shrinks is cut to the
-- aligned size, and one that grows is merged with the next and cut to the size itself.
abbrev pub resized : Block → ℕ → ℕ → List Block → List Block
resized x size total_size ys =
    if ltb total_size x.size
    then split x total_size ys
    else keep_first size (join_next (freed_block x) ys)

header_at :
    (base : ℕ) (h : Heap) (xs : List Block) (x : Block) (ys : List Block)
    → IsHeap base h (xs ++ x ∷ ys)
    → get_header (x.addr + 32) ≡ x.addr
header_at base h xs x ys is =
    let (low, size_pos, high, there) = block_place base h xs x ys is in
    omega (arith, is.near, is.in_range)

-- Where the merge with the next block is enough.
grow_block-enough :
    (fuel ptr b size total : ℕ) (h h2 h3 : Heap) (mem : Memory)
    → get_header ptr ≡ b
    → merge_blocks b ((set_free b true h).hdr b).next (set_free b true h) ≡ h2
    → ltb (h2.hdr b).size total ≡ false
    → ltb ((set_free b false h2).hdr b).size total ≡ false
    → (h2.hdr b).ptr ≡ ptr
    → split_block b size (set_free b false h2) ≡ ok h3
    → grow_block fuel ptr size total h mem ≡ ok (ptr, h3, mem)
unfolding grow_block
grow_block-enough fuel ptr b size total h h2 h3 mem header merged first_fits still_fits stays
      splits =
    rw (header, merged, first_fits)
      (rw (still_fits, stays, header) (ap (λ m. m >>= λ h. ok (ptr, h, mem)) splits))

-- The header of what is split off the first block lies in front of what follows that block.
abbrev pub FirstHasRoom : Heap → ℕ → List Block → Type 0
FirstHasRoom h n [] = Unit
FirstHasRoom h n (w ∷ ws) = HasRoom h w n ws

merged_brk :
    (a b c d : ℕ) (h : Heap) → (set_free d false (merge_blocks a b (set_free c true h))).brk ≡ h.brk
unfolding set_free
merged_brk a b c d h = merge_blocks-brk a b (set_free c true h)

grow_block-stays :
    (base fuel size total : ℕ) (h : Heap) (mem : Memory) (xs : List Block) (x : Block)
    (ys : List Block)
    → IsHeap base h (xs ++ x ∷ ys)
    → 0 < size
    → size < 2 ^ 32
    → total ≤ first_size (join_next (freed_block x) ys)
    → FirstHasRoom h size (join_next (freed_block x) ys)
    → Returns (grow_block fuel (x.addr + 32) size total h mem) λ (p, h', mem').
      (p ≡ x.addr + 32)
      × (mem' ≡ mem)
      × IsHeap base h' (xs ++ keep_first size (join_next (freed_block x) ys))
grow_block-stays base fuel size total h mem xs x ys is pos small enough room =
    let h1 = set_free x.addr true h in
    let h2 = merge_blocks x.addr (h1.hdr x.addr).next h1 in
    let is1 = set_free-IsHeap base h xs x ys true is in
    let is2 = merge_blocks-join_next base h1 xs (freed_block x) ys is1 in
    let (w, ws, shape, at) = join_next-head (freed_block x) ys in
    let is3 : IsHeap base h2 (xs ++ w ∷ ws) = rw shape at is2 in
    let header = block_header base h2 xs w ws is3 in
    let is4 = set_free-IsHeap base h2 xs w ws false is3 in
    let header4 = block_header base (set_free w.addr false h2) xs (used w) ws is4 in
    let same = merged_brk x.addr (h1.hdr x.addr).next x.addr w.addr h in
    let room_w : HasRoom h w size ws = subst (FirstHasRoom h size) shape room in
    let (h5, splits, (is5, kept)) =
      split_block-split base (set_free w.addr false h2) xs (used w) ws size is4 pos (omega arith)
        (λ long. omega (arith, room_w long, ap (first ws) same)) in
    let long : total ≤ w.size = omega (arith, ap first_size shape) in
    let fits : ltb w.size total ≡ false = ground arith in
    let at_x = λ (P : ℕ → Type 0) (h : P w.addr). subst P at h in
    (
      (x.addr + 32, h5, mem),
      grow_block-enough fuel (x.addr + 32) x.addr size total h h2 h5 mem
          (header_at base h xs x ys is) refl
          (at_x (λ a. ltb (h2.hdr a).size total ≡ false)
            (ap (λ (c : Header). ltb c.size total) header ∙ fits))
          (at_x (λ a. ltb ((set_free a false h2).hdr a).size total ≡ false)
            (ap (λ (c : Header). ltb c.size total) header4 ∙ fits))
          (at_x (λ a. (h2.hdr a).ptr ≡ a + 32) (ap (λ (c : Header). c.ptr) header))
          (at_x (λ a. split_block a size (set_free a false h2) ≡ ok h5) splits),
      (refl, refl, rw shape is5),
    )

-- krealloc of the memory of a block, to 1 to 2^32 - 16 bytes, where the block is larger than the
-- aligned size, or at least that large once it is free and merged with the next one: it returns
-- the same pointer, no byte but those of headers changes, and the heap stands for the same blocks
-- with that one cut to the aligned size if it shrinks, or otherwise merged, in use and cut to the
-- size as it was asked for. If 48 bytes or more are to spare, the header of what is cut off lies
-- in front of the next header, or of the break.
pub krealloc-resized :
    (base fuel size : ℕ) (h : Heap) (mem : Memory) (xs : List Block) (x : Block) (ys : List Block)
    → IsHeap base h (xs ++ x ∷ ys)
    → 0 < size
    → size ≤ 2 ^ 32 - 16
    → ((round_up size align_size < x.size) × HasRoom h x (round_up size align_size) ys)
      ⊎ ((x.size ≤ round_up size align_size)
          × (round_up size align_size ≤ first_size (join_next (freed_block x) ys))
          × FirstHasRoom h size (join_next (freed_block x) ys))
    → Returns (krealloc fuel (x.addr + 32) size h mem) λ (p, h', mem').
      (p ≡ x.addr + 32)
      × (mem' ≡ mem)
      × IsHeap base h' (xs ++ resized x size (round_up size align_size) ys)
unfolding krealloc
krealloc-resized base fuel size h mem xs x ys is pos small enough =
    let n = round_up size align_size in
    let (multiple, at_least, near, _, _, _) = round_up_bounds size pos (omega arith) in
    let place = block_place base h xs x ys is in
    let there : (x.addr + 32 == null) ≡ false = ne→== _ _ (λ e. omega arith) in
    let some : (size == 0) ≡ false = ne→== size 0 (λ e. omega arith) in
    let in_32 : (ltb uint32_max size || ltb uint32_max n) ≡ false =
      ground (arith, multiple, near) in
    let header : (h.hdr (get_header (x.addr + 32))).size ≡ x.size =
      ap (λ a. (h.hdr a).size) (header_at base h xs x ys is)
      ∙ ap (λ (c : Header). c.size) (block_header base h xs x ys is) in
    elim enough [
      | inl (shrinks, room) ↦
          let less : ltb n x.size ≡ true = ground (arith, shrinks) in
          let (h1, splits, (is1, kept)) =
            split_block-split base h xs x ys n is (omega arith) (omega arith) room in
          rw (there, some, in_32, header, less)
            (rw (header_at base h xs x ys is) (rw splits (_, refl, (refl, refl, is1))))
      | inr (longer, grows, room) ↦
          let more : ltb n x.size ≡ false = ground (arith, longer) in
          rw (there, some, in_32, header, more)
            (grow_block-stays base fuel size n h mem xs x ys is pos (omega arith) grows room)
    ]
