-- ===== src/Kmalloc/Free.antt =====
-- kfree of kmalloc.c.
use mathlib.Core.List.{append_assoc}
use mathlib.Core.Path.{subst}
use csc.Base.{
  ℕ, zero, suc, ◌+◌, ◌-◌, ◌^◌, ◌≤◌, ◌<◌, ◌≡◌, refl, ap, ◌∙◌, inl, inr, ◌⊎◌, List, [], ◌∷◌, ◌++◌,
  Bool, true, false, arith, null, ◌==◌, length, ne→==,
}
use csc.Base.Outcome.{ok, Returns}
use csc.Kmalloc.{Header, Heap, merge_blocks, can_merge, set_free, find_block, release, kfree}
use csc.Kmalloc.Chain.{
  Block, first, last, Linked, Ordered, Ordered-append, IsHeap, Ordered-le, write-IsHeap,
  block_header, block_place,
}
use csc.Kmalloc.Merge.{join_next, merge_blocks-join_next, join_next-head}

-- The last block of a list, merged with the first of those behind it if it can be.
abbrev pub join_last : List Block → List Block → List Block
join_last [] zs = zs
join_last (v ∷ []) zs = join_next v zs
join_last (v ∷ w ∷ vs) zs = v ∷ join_last (w ∷ vs) zs

abbrev pub freed_block : Block → Block
freed_block x = record x { free = true }

-- The blocks after the one between `xs` and `ys` is given back.
abbrev pub freed : List Block → Block → List Block → List Block
freed xs x ys = join_last xs (join_next (freed_block x) ys)

snoc-cases : (xs : List Block) → (xs ≡ []) ⊎ ((vs : List Block) × (v : Block) × (xs ≡ vs ++ v ∷ []))
snoc-cases [] = inl refl
snoc-cases (x ∷ xs) = elim (snoc-cases xs) [
  | inl none_more ↦ inr ([], x, ap (λ t. x ∷ t) none_more)
  | inr (vs, v, e) ↦ inr (x ∷ vs, v, ap (λ t. x ∷ t) e)
]

join_last-snoc :
    (vs : List Block) (v : Block) (zs : List Block)
    → join_last (vs ++ v ∷ []) zs ≡ vs ++ join_next v zs
join_last-snoc [] v zs = refl
join_last-snoc (w ∷ []) v zs = refl
join_last-snoc (w ∷ u ∷ vs) v zs = ap (λ t. w ∷ t) (join_last-snoc (u ∷ vs) v zs)

last-snoc : (p : ℕ) (vs : List Block) (v : Block) → last p (vs ++ v ∷ []) ≡ v.addr
last-snoc p [] v = refl
last-snoc p (w ∷ vs) v = last-snoc w.addr vs v

pub set_free-IsHeap :
    (base : ℕ) (h : Heap) (xs : List Block) (x : Block) (ys : List Block) (f : Bool)
    → IsHeap base h (xs ++ x ∷ ys)
    → IsHeap base (set_free x.addr f h) (xs ++ record x { free = f } ∷ ys)
unfolding set_free
set_free-IsHeap base h xs x ys f is =
    rw (block_header base h xs x ys is)
      (write-IsHeap base h xs x (record x { free = f }) ys is refl refl)

merge_null : (b : ℕ) (h : Heap) → merge_blocks null b h ≡ h
unfolding merge_blocks can_merge
merge_null b h = ground arith

-- Merging a block with the one in front of it.
merge_back_snoc :
    (base : ℕ) (h : Heap) (vs : List Block) (v w : Block) (ws : List Block)
    → IsHeap base h ((vs ++ v ∷ []) ++ w ∷ ws)
    → IsHeap base (merge_blocks (h.hdr w.addr).prev w.addr h) (join_last (vs ++ v ∷ []) (w ∷ ws))
merge_back_snoc base h vs v w ws is =
    let is' : IsHeap base h (vs ++ v ∷ w ∷ ws) = rw (append_assoc vs (v ∷ []) (w ∷ ws)) at is in
    let before : (h.hdr w.addr).prev ≡ v.addr =
      ap (λ (c : Header). c.prev) (block_header base h (vs ++ v ∷ []) w ws is)
      ∙ last-snoc null vs v in
    let behind : (h.hdr v.addr).next ≡ w.addr =
      ap (λ (c : Header). c.next) (block_header base h vs v (w ∷ ws) is') in
    rw (before, join_last-snoc vs v (w ∷ ws))
      (subst (λ t. IsHeap base (merge_blocks v.addr t h) (vs ++ join_next v (w ∷ ws))) behind
        (merge_blocks-join_next base h vs v (w ∷ ws) is'))

merge_back :
    (base : ℕ) (h : Heap) (xs : List Block) (w : Block) (ws : List Block)
    → IsHeap base h (xs ++ w ∷ ws)
    → IsHeap base (merge_blocks (h.hdr w.addr).prev w.addr h) (join_last xs (w ∷ ws))
merge_back base h xs w ws is = elim (snoc-cases xs) [
  | inl none_before ↦
      let is' : IsHeap base h (w ∷ ws) = rw none_before at is in
      rw (none_before, ap (λ (c : Header). c.prev) (block_header base h [] w ws is'), merge_null)
        is'
  | inr (vs, v, e) ↦ rw e (merge_back_snoc base h vs v w ws (rw e at is))
]

-- Giving a block back: its header is marked, and it is merged with the block behind it and then with
-- the one in front of it.
release-freed :
    (base : ℕ) (h : Heap) (xs : List Block) (x : Block) (ys : List Block)
    → IsHeap base h (xs ++ x ∷ ys)
    → IsHeap base (release x.addr h) (freed xs x ys)
unfolding release
release-freed base h xs x ys is =
    let h1 = set_free x.addr true h in
    let is1 : IsHeap base h1 (xs ++ freed_block x ∷ ys) = set_free-IsHeap base h xs x ys true is in
    let is2 = merge_blocks-join_next base h1 xs (freed_block x) ys is1 in
    let (w, ws, shape, at) = join_next-head (freed_block x) ys in
    (rw shape (
      subst
        (λ t.
          IsHeap base
            (merge_blocks ((merge_blocks x.addr (h1.hdr x.addr).next h1).hdr t).prev t
              (merge_blocks x.addr (h1.hdr x.addr).next h1))
            (join_last xs (w ∷ ws)))
        at
        (merge_back base (merge_blocks x.addr (h1.hdr x.addr).next h1) xs w ws (rw shape at is2))))

pub before-le :
    (xs : List Block) (x : Block) (ys : List Block) (low high : ℕ)
    → Ordered low (xs ++ x ∷ ys) high
    → low ≤ x.addr
before-le xs x ys low high o =
    let (mid, before, behind) = Ordered-append xs (x ∷ ys) low high o in
    omega (arith, Ordered-le xs low mid before, behind.0)

first-le :
    (xs : List Block) (x : Block) (ys : List Block) (low high : ℕ)
    → Ordered low (xs ++ x ∷ ys) high
    → first (xs ++ x ∷ ys) null ≤ x.addr
first-le [] x ys low high o = omega arith
first-le (w ∷ xs) x ys low high o = omega (arith, before-le xs x ys (w.addr + w.size) high o.2)

-- The walk passes the blocks in front: their memory ends where the header of this one ends, at most.
find_block-hit :
    (k : ℕ) (h : Heap) (p q : ℕ) (xs : List Block) (x : Block) (ys : List Block) (low high : ℕ)
    → Linked h.hdr p (xs ++ x ∷ ys) null
    → Ordered low (xs ++ x ∷ ys) high
    → 0 < low
    → high < 2 ^ 64 - 32
    → x.addr + 32 ≤ q
    → q < x.addr + 32 + x.size
    → length xs < k
    → find_block k q (first (xs ++ x ∷ ys) null) h ≡ ok x.addr
unfolding find_block
find_block-hit zero h p q xs x ys low high l o pos small from below fuel = absurd (omega arith)
find_block-hit (suc k) h p q [] x ys low high l o pos small from below fuel =
    ground (arith, l.0, o.0, o.1, Ordered-le ys (x.addr + x.size) high o.2)
find_block-hit (suc k) h p q (w ∷ xs) x ys low high l o pos small from below fuel =
    let rest =
      find_block-hit k h w.addr q xs x ys (w.addr + w.size) high l.1 o.2 (omega arith) small from
        below (omega arith) in
    let later = before-le xs x ys (w.addr + w.size) high o.2 in
    let live : (w.addr == null) ≡ false = ne→== w.addr null (omega (arith, o.0)) in
    rw l.0
      (ground (arith, rest, later, live, o.0, Ordered-le (xs ++ x ∷ ys) (w.addr + w.size) high o.2))

-- kfree of a pointer into the memory of a block, at least 48 bytes below the break, returns, marks
-- that block as free and merges it with the free blocks that touch it; the heap stands for the
-- same blocks otherwise. The fuel exceeds the number of blocks in front.
pub kfree-freed :
    (base fuel : ℕ) (h : Heap) (xs : List Block) (x : Block) (ys : List Block) (p : ℕ)
    → IsHeap base h (xs ++ x ∷ ys)
    → x.addr + 32 ≤ p
    → p < x.addr + 32 + x.size
    → p + 48 ≤ h.brk
    → length xs < fuel
    → Returns (kfree fuel p h) (λ h'. IsHeap base h' (freed xs x ys))
unfolding kfree
kfree-freed base fuel h xs x ys p is from below room enough =
    (release x.addr h, frees, release-freed base h xs x ys is)
  where
    found : find_block fuel p h.kernel_heap_head h ≡ ok x.addr
    found =
        ap (λ t. find_block fuel p t h) is.head
        ∙ find_block-hit fuel h null p xs x ys base h.brk is.linked is.ordered is.above_null
            (omega (arith, is.near, is.in_range)) from below enough

    frees : kfree fuel p h ≡ ok (release x.addr h)
    frees = ground (
      arith,
      found,
      is.head,
      block_place base h xs x ys is,
      is.above_null,
      is.near,
      is.in_range,
      first-le xs x ys base h.brk is.ordered,
    )
