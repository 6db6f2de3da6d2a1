-- ===== src/Kmalloc/Search.antt =====
-- get_empty_mem and kmalloc, where a block in the list can be used.
use csc.Base.{
  ℕ, zero, suc, ◌+◌, ◌-◌, ◌^◌, ◌≤◌, ◌<◌, ◌≡◌, ◌≢◌, refl, ap, ◌∙◌, inl, inr, ◌⊎◌, List, [], ◌∷◌,
  ◌++◌, true, false, ◌&&◌, ◌||◌, arith, null, ◌==◌, ltb, if◌then◌else◌, Bool-cases, length, ne→==,
}
use csc.Base.Outcome.{ok, Returns}
use csc.Kmalloc.{
  Header, Heap, split_block, set_free, next_block, walk, ensure_head, get_empty_mem, kmalloc,
  round_up, align_size, uint32_max, enomem,
}
use csc.Kmalloc.Chain.{Block, header_of, first, Linked, Ordered, IsHeap, block_header, block_place}
use csc.Kmalloc.Cut.{cut_block, rest_block}
use csc.Kmalloc.Merge.{join_next}
use csc.Kmalloc.Split.{HasRoom, split_block-split}
use csc.Kmalloc.Free.{set_free-IsHeap}
use csc.Kmalloc.Round.{round_up_bounds, round_up_align}

-- A block is right for `n` bytes if it is free and has that size, or is larger and the last one.
abbrev pub Fits : ℕ → Block → List Block → Type 0
Fits n x ys = (x.free ≡ true) × ((x.size ≡ n) ⊎ ((n < x.size) × (ys ≡ [])))

-- None of the blocks is free and has that size.
abbrev pub PassedOver : ℕ → List Block → Type 0
PassedOver n [] = Unit
PassedOver n (w ∷ ws) = ((w.free && (w.size == n)) ≡ false) × PassedOver n ws

abbrev pub used : Block → Block
used x = record x { free = false }

-- The blocks after the first of them is taken into use for `n` bytes.
abbrev pub allocated : Block → ℕ → List Block → List Block
allocated x n ys =
    if ltb x.size (n + 48)
    then used x ∷ ys
    else used (cut_block x n) ∷ join_next (rest_block x n) ys

take_block-IsHeap :
    (base : ℕ) (h : Heap) (xs : List Block) (x : Block) (ys : List Block) (n : ℕ)
    → IsHeap base h (xs ++ x ∷ ys)
    → 0 < n
    → n < 2 ^ 33
    → HasRoom h x n ys
    → Returns (split_block x.addr n h) λ h1.
      let h' = set_free x.addr false h1 in
      IsHeap base h' (xs ++ allocated x n ys)
      × ((h'.hdr x.addr).ptr ≡ x.addr + 32)
      × (h'.brk ≡ h.brk)
unfolding set_free
take_block-IsHeap base h xs x ys n is pos small room =
    let (h1, splits, (is1, same)) = split_block-split base h xs x ys n is pos small room in
    (
      h1,
      splits,
      elim (Bool-cases (ltb x.size (n + 48))) [
        | inl e ↦
            let is2 = set_free-IsHeap base h1 xs x ys false (rw e at is1) in
            rw e (is2, ap (λ (c : Header). c.ptr) (block_header base _ xs (used x) ys is2), same)
        | inr e ↦
            let zs = join_next (rest_block x n) ys in
            let is2 = set_free-IsHeap base h1 xs (cut_block x n) zs false (rw e at is1) in
            rw e (
              is2,
              ap (λ (c : Header). c.ptr) (block_header base _ xs (used (cut_block x n)) zs is2),
              same,
            )
      ],
    )

first-pos :
    (xs : List Block) (x : Block) (ys : List Block) (low high : ℕ)
    → Ordered low (xs ++ x ∷ ys) high
    → 0 < low
    → 0 < first (xs ++ x ∷ ys) null
first-pos [] x ys low high o pos = omega (arith, o.0)
first-pos (w ∷ xs) x ys low high o pos = omega (arith, o.0)

next_block-linked : (n b : ℕ) (h : Heap) → (h.hdr b).next ≢ null → next_block n b h ≡ ok h
unfolding next_block
next_block-linked n b h there = rw (ne→== (h.hdr b).next null there) refl

-- The walk goes on past a block.
walk-past :
    (k n b alt : ℕ) (h : Heap)
    → b ≢ null
    → ((h.hdr b).free && ((h.hdr b).size == n)) ≡ false
    → (h.hdr b).next ≢ null
    → walk (suc k) n b alt h
      ≡ walk k n (h.hdr b).next (if (h.hdr b).free && ltb n (h.hdr b).size then b else alt) h
unfolding walk
walk-past k n b alt h live passed linked =
    let not_last : ((h.hdr b).free && ltb n (h.hdr b).size && ((h.hdr b).next == null)) ≡ false =
      ground (arith, linked) in
    rw (ne→== b null live, passed, next_block-linked n b h linked) (rw not_last refl)

walk-stops :
    (k n b alt : ℕ) (h : Heap) (x : Block) (p : ℕ) (ys : List Block)
    → b ≢ null
    → h.hdr b ≡ header_of x p (first ys null)
    → Fits n x ys
    → (alt' : ℕ) × (walk (suc k) n b alt h ≡ ok (b, alt', h))
unfolding walk
walk-stops k n b alt h x p ys live header (free, inl exact) =
    (alt, rw (ne→== b null live, header, free) (rw exact (ground arith)))
walk-stops k n b alt h x p ys live header (free, inr (larger, none_behind)) =
    let other : (x.size == n) ≡ false = ground arith in
    let more : ltb n x.size ≡ true = ground arith in
    (b, rw (ne→== b null live, header, free, none_behind) (rw (other, more) refl))

-- The walk passes over the blocks in front and stops at the first one that is right.
walk-hit :
    (k n alt p : ℕ) (h : Heap) (xs : List Block) (x : Block) (ys : List Block) (low high : ℕ)
    → Linked h.hdr p (xs ++ x ∷ ys) null
    → Ordered low (xs ++ x ∷ ys) high
    → 0 < low
    → PassedOver n xs
    → Fits n x ys
    → length xs < k
    → (alt' : ℕ) × (walk k n (first (xs ++ x ∷ ys) null) alt h ≡ ok (x.addr, alt', h))
walk-hit zero n alt p h xs x ys low high l o pos passed fits fuel = absurd (omega arith)
walk-hit (suc k) n alt p h [] x ys low high l o pos passed fits fuel =
    walk-stops k n x.addr alt h x p ys (omega (arith, o.0)) l.0 fits
walk-hit (suc k) n alt p h (w ∷ xs) x ys low high l o pos passed fits fuel =
    let b = w.addr in
    let alt1 = if (h.hdr b).free && ltb n (h.hdr b).size then b else alt in
    let linked : (h.hdr b).next ≡ first (xs ++ x ∷ ys) null = ap (λ (c : Header). c.next) l.0 in
    let later : 0 < first (xs ++ x ∷ ys) null =
      first-pos xs x ys (w.addr + w.size) high o.2 (omega (arith, o.1)) in
    let skipped : ((h.hdr b).free && ((h.hdr b).size == n)) ≡ false = rw l.0 passed.0 in
    let (alt', rest) =
      walk-hit k n alt1 w.addr h xs x ys (w.addr + w.size) high l.1 o.2 (omega (arith, o.1))
        passed.1 fits (omega arith) in
    (
      alt',
      walk-past k n b alt h (omega (arith, o.0)) skipped (omega (arith, linked, later))
          ∙ ap (λ t. walk k n t alt1 h) linked
          ∙ rest,
    )

ensure_head-there : (h : Heap) → h.kernel_heap_head ≢ null → ensure_head h ≡ ok h
unfolding ensure_head
ensure_head-there h there = rw (ne→== h.kernel_heap_head null there) refl

get_empty_mem-found :
    (fuel n b alt : ℕ) (h h1 : Heap)
    → h.kernel_heap_head ≢ null
    → b ≢ null
    → walk fuel n h.kernel_heap_head null h ≡ ok (b, alt, h)
    → split_block b n h ≡ ok h1
    → get_empty_mem fuel n h ≡ ok (b, set_free b false h1)
unfolding get_empty_mem
get_empty_mem-found fuel n b alt h h1 there live stops splits =
    rw (ensure_head-there h there)
      (rw (stops, ne→== b null live) (rw (ne→== b null live) (rw splits refl)))

-- kmalloc of 1 to 2^32 - 16 bytes, where a free block has exactly the rounded size or the last
-- block is free and larger, and no block in front of it has the size, returns the memory of the
-- first such block; the heap then stands for the same blocks with that one in use and cut to size.
-- If 48 bytes or more are to spare, the header of the rest lies in front of the next header, or of
-- the break; the break does not move. The fuel exceeds the number of blocks in front.
pub kmalloc-allocated :
    (base fuel size : ℕ) (h : Heap) (xs : List Block) (x : Block) (ys : List Block)
    → IsHeap base h (xs ++ x ∷ ys)
    → 0 < size
    → size ≤ 2 ^ 32 - 16
    → PassedOver (round_up size align_size) xs
    → Fits (round_up size align_size) x ys
    → HasRoom h x (round_up size align_size) ys
    → length xs < fuel
    → Returns (kmalloc fuel size h) (λ (p, h').
      (p ≡ x.addr + 32)
      × IsHeap base h' (xs ++ allocated x (round_up size align_size) ys)
      × (h'.brk ≡ h.brk))
unfolding kmalloc set_free
kmalloc-allocated base fuel size h xs x ys is pos small passed fits room enough =
    let n = round_up size align_size in
    let (multiple, at_least, near, _, _, _) = round_up_bounds size pos (omega arith) in
    let (alt', stops) =
      walk-hit fuel n null null h xs x ys base h.brk is.linked is.ordered is.above_null passed fits
        enough in
    let (h1, splits, (is', ptr, same)) =
      take_block-IsHeap base h xs x ys n is (omega arith) (omega arith) room in
    let there : h.kernel_heap_head ≢ null =
      omega (arith, is.head, first-pos xs x ys base h.brk is.ordered is.above_null) in
    let live : x.addr ≢ null = (block_place base h xs x ys is).3 in
    let got =
      get_empty_mem-found fuel n x.addr alt' h h1 there live
        (ap (λ t. walk fuel n t null h) is.head ∙ stops) splits in
    let one : ltb size 1 ≡ false = ground arith in
    let in_32 : (ltb uint32_max size || ltb uint32_max n) ≡ false =
      ground (arith, multiple, near) in
    (
      (x.addr + 32, set_free x.addr false h1),
      rw one (rw (in_32, got, ne→== x.addr null live) (rw ptr refl)),
      (refl, is', same),
    )

-- kmalloc of more than 2^32 - 16 bytes, and no more than 2^64 - 16, returns NULL and sets errno to
-- ENOMEM; nothing else changes.
pub kmalloc-too_large :
    (fuel size : ℕ) (h : Heap)
    → 2 ^ 32 - 16 < size
    → size ≤ 2 ^ 64 - 16
    → kmalloc fuel size h ≡ ok (null, record h { errno = enomem })
unfolding kmalloc
kmalloc-too_large fuel size h large word =
    let one : ltb size 1 ≡ false = ground arith in
    let rounded = round_up_align size (omega arith) word in
    let refused : (ltb uint32_max size || ltb uint32_max (round_up size align_size)) ≡ true =
      ground (arith, rounded) in
    rw one (rw refused refl)
