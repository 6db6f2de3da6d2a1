-- ===== src/Kmalloc/Zeroed.antt =====
-- kcalloc of kmalloc.c. The bytes that clients write are a memory beside the headers; to clear bytes
-- that reach over the next header or the break is a fault.
use mathlib.Core.Path.{subst}
use csc.Base.{
  ℕ, ◌+◌, ◌-◌, ◌*◌, ◌%◌, ◌^◌, ◌≤◌, ◌<◌, ◌≡◌, ◌≢◌, refl, sym, ap, ◌∙◌, true, ltb→lt, List, ◌∷◌, ◌++◌,
  false, ◌&&◌, ◌||◌, ◌==◌, ltb, leb, if◌then◌else◌, arith, null, length, ne→==, Bool-cases, inl,
  inr,
}
use csc.Base.Outcome.{Outcome, ok, fault, Returns, ◌>>=◌}
use csc.Strings.{Memory, memset}
use csc.Strings.Blocks.{memset_lem}
use csc.Kmalloc.{
  Header, Heap, enomem, kmalloc, get_header, uint32_max, round_up, align_size, in_front,
}
use csc.Kmalloc.Chain.{Block, first, IsHeap, block_header, block_place}
use csc.Kmalloc.Cut.{cut_block, rest_block}
use csc.Kmalloc.Merge.{join_next, join_next-head}
use csc.Kmalloc.Split.{limit, HasRoom, in_front-limit}
use csc.Kmalloc.Round.{round_up_bounds, round_up_align}
use csc.Kmalloc.Search.{Fits, PassedOver, allocated, used, kmalloc-allocated}

-- The product is a `size_t`.
unfoldable pub kcalloc : ℕ → ℕ → ℕ → Heap → Memory → Outcome (ℕ × Heap × Memory)
kcalloc fuel nmemb size h mem =
    let total_size = round_up (nmemb * size % 2 ^ 64) align_size in
    if ltb uint32_max nmemb || ltb uint32_max size || ltb uint32_max total_size
    then ok (null, record h { errno = enomem }, mem)
    else do
      (p, h) ← kmalloc fuel total_size h
      let b = get_header p
      if p == null
          then ok (null, h, mem)
          else if in_front b p (h.hdr b).size h
          then ok (p, h, memset p 0 (h.hdr b).size mem)
          else fault

-- The size of the first block of them, once it is in use for `n` bytes.
abbrev pub given : Block → ℕ → ℕ
given x n = if ltb x.size (n + 48) then x.size else n

given-header :
    (base : ℕ) (h : Heap) (xs : List Block) (x : Block) (ys : List Block) (n : ℕ)
    → IsHeap base h (xs ++ allocated x n ys)
    → (h.hdr x.addr).size ≡ given x n
given-header base h xs x ys n is = elim (Bool-cases (ltb x.size (n + 48))) [
  | inl e ↦ rw e (ap (λ (c : Header). c.size) (block_header base h xs (used x) ys (rw e at is)))
  | inr e ↦ rw e (
      ap (λ (c : Header). c.size)
        (block_header base h xs (used (cut_block x n)) (join_next (rest_block x n) ys)
          (rw e at is)))
]

given-ge : (n : ℕ) (x : Block) (ys : List Block) → Fits n x ys → n ≤ given x n
given-ge n x ys (free, inl exact) = ground (arith, exact)
given-ge n x ys (free, inr (larger, last_one)) = ground (arith, larger)

-- A block that stays whole ends in front of the next header, or of the break.
abbrev pub EndsInFront : Heap → Block → ℕ → List Block → Type 0
EndsInFront h x n ys = x.size < n + 48 → x.addr + 32 + x.size ≤ limit h ys

given-in_front :
    (base : ℕ) (h h' : Heap) (xs : List Block) (x : Block) (ys : List Block) (n : ℕ)
    → IsHeap base h' (xs ++ allocated x n ys)
    → h'.brk ≡ h.brk
    → EndsInFront h x n ys
    → in_front x.addr (x.addr + 32) (given x n) h' ≡ true
given-in_front base h h' xs x ys n is same ends = elim (Bool-cases (ltb x.size (n + 48))) [
  | inl e ↦
      let short : x.size < n + 48 = ltb→lt _ _ e in
      rw e (
        in_front-limit base h' xs (used x) ys (x.addr + 32) x.size (rw e at is)
          (omega (arith, ends short, ap (first ys) same)))
  | inr e ↦
      let (w, ws, shape, at) = join_next-head (rest_block x n) ys in
      rw e (
        in_front-limit base h' xs (used (cut_block x n)) (join_next (rest_block x n) ys)
          (x.addr + 32) n (rw e at is) (omega (arith, ap (λ zs. first zs h'.brk) shape, at)))
]

kcalloc-cleared :
    (fuel nmemb size total p : ℕ) (h h' : Heap) (mem : Memory)
    → nmemb * size % 2 ^ 64 ≡ total
    → (ltb uint32_max nmemb || ltb uint32_max size || ltb uint32_max (round_up total align_size))
      ≡ false
    → kmalloc fuel (round_up total align_size) h ≡ ok (p, h')
    → p ≢ null
    → in_front (get_header p) p (h'.hdr (get_header p)).size h' ≡ true
    → kcalloc fuel nmemb size h mem ≡ ok (p, h', memset p 0 (h'.hdr (get_header p)).size mem)
unfolding kcalloc
kcalloc-cleared fuel nmemb size total p h h' mem word accepted got live inside =
    rw (word, accepted) (rw (got, ne→== p null live) (rw inside refl))

-- kcalloc of two numbers below 2^32 with a product of 1 to 2^32 - 16, where kmalloc finds a block
-- for the product without extending the heap: it returns the memory of that block, at least as
-- large as the product; all of that memory is zero, every other byte is as before, and the heap
-- stands for the same blocks with that one in use and cut to size. The memory that is returned,
-- and the header of the rest if 48 bytes or more are to spare, lie in front of the next header, or
-- of the break. The fuel exceeds the number of blocks in front.
pub kcalloc-zeroed :
    (base fuel nmemb size : ℕ) (h : Heap) (mem : Memory) (xs : List Block) (x : Block)
    (ys : List Block) (a : ℕ)
    → IsHeap base h (xs ++ x ∷ ys)
    → nmemb < 2 ^ 32
    → size < 2 ^ 32
    → 0 < nmemb * size
    → nmemb * size ≤ 2 ^ 32 - 16
    → PassedOver (round_up (nmemb * size) align_size) xs
    → Fits (round_up (nmemb * size) align_size) x ys
    → HasRoom h x (round_up (nmemb * size) align_size) ys
    → EndsInFront h x (round_up (nmemb * size) align_size) ys
    → length xs < fuel
    → let n = round_up (nmemb * size) align_size in
      Returns (kcalloc fuel nmemb size h mem) (λ (p, h', mem').
        (p ≡ x.addr + 32)
        × IsHeap base h' (xs ++ allocated x n ys)
        × (mem' a ≡ (if leb p a && ltb a (p + given x n) then 0 else mem a))
        × (nmemb * size ≤ given x n))
kcalloc-zeroed base fuel nmemb size h mem xs x ys a is few small pos fits_word passed fits room ends
      enough =
    let n = round_up (nmemb * size) align_size in
    let (multiple, at_least, near, _, _, _) = round_up_bounds (nmemb * size) pos (omega arith) in
    let again : round_up n align_size ≡ n =
      round_up_align n (omega arith) (omega arith) ∙ omega arith in
    let word : nmemb * size % 2 ^ 64 ≡ nmemb * size = omega arith in
    let ((p, h'), got, (at, is', same)) =
      kmalloc-allocated base fuel n h xs x ys is (omega arith) (omega arith) (rw again passed)
        (rw again fits) (rw again room) enough in
    let accepted : (ltb uint32_max nmemb || ltb uint32_max size || ltb uint32_max n) ≡ false =
      ground (arith, multiple, near) in
    let is2 : IsHeap base h' (xs ++ allocated x n ys) =
      subst (λ m. IsHeap base h' (xs ++ allocated x m ys)) again is' in
    let place = block_place base h xs x ys is in
    let header_at : get_header p ≡ x.addr = omega (arith, at, place, is.near, is.in_range) in
    let live : p ≢ null = omega (arith, at) in
    let cleared = (h'.hdr (get_header p)).size in
    let all_of_it : cleared ≡ given x n =
      ap (λ b. (h'.hdr b).size) header_at ∙ given-header base h' xs x ys n is2 in
    (
      (p, h', memset p 0 cleared mem),
      kcalloc-cleared fuel nmemb size (nmemb * size) p h h' mem word accepted got live (
          rw (header_at, at, ap (λ b. (h'.hdr b).size) (sym header_at) ∙ all_of_it)
            (given-in_front base h h' xs x ys n is2 same ends)),
      (
        at,
        is2,
        memset_lem p 0 cleared mem a
            ∙ ap (λ k. if leb p a && ltb a (p + k) then 0 else mem a) all_of_it,
        omega (arith, given-ge n x ys fits, at_least),
      ),
    )
