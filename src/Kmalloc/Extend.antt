-- ===== src/Kmalloc/Extend.antt =====
-- extend_mem and kbrk.
use csc.Base.{
  ℕ, ◌+◌, ◌-◌, ◌*◌, ◌/◌, ◌%◌, ◌^◌, ◌≤◌, ◌<◌, ◌≡◌, refl, ap, ◌∙◌, true, false, ◌==◌, ltb, arith,
  null, update, update_self,
}
use csc.Base.Outcome.{ok, Returns, ◌>>=◌}
use csc.Kmalloc.{
  Header, Heap, write, extend_mem, align_brk, kbrk, split_block, cut_or_keep, round_up, align_size,
  bin_size, header_size, page_size, add64, u32,
}
use csc.Kmalloc.Round.{round_up_bounds}

align_brk-aligned : (h : Heap) → h.brk % align_size ≡ 0 → align_brk h ≡ h
unfolding align_brk
align_brk-aligned h aligned = ground arith

-- kbrk moves the break by whole pages: the header that is asked for is lost.
kbrk-pages :
    (total : ℕ) (h : Heap)
    → total % bin_size ≡ 0
    → 0 < total
    → total < 2 ^ 33
    → h.brk < 2 ^ 62
    → kbrk (add64 total header_size) h ≡ (h.brk, record h { brk = h.brk + total })
unfolding kbrk
kbrk-pages total h whole pos small low =
    let asked : add64 total header_size ≡ total + 32 = omega arith in
    let some : (total + 32 == 0) ≡ false = ground arith in
    let moved : add64 h.brk ((total + 32) / page_size * page_size) ≡ h.brk + total = omega arith in
    rw asked (rw some (rw moved refl))

abbrev fresh : ℕ → ℕ → ℕ → Heap → Header
fresh total prev next h = record {
  ptr = h.brk + 32;
  size = total;
  free = true;
  next = next;
  prev = prev;
}

-- The heap with one more header at the old break.
abbrev extended : ℕ → ℕ → ℕ → Heap → Heap
extended total prev next h =
    write h.brk (fresh total prev next h) (record h { brk = h.brk + total })

whole_block :
    (b size : ℕ) (c : Header) (h : Heap)
    → c.size < size + 48
    → size < 2 ^ 33
    → split_block b size (write b c h) ≡ ok (write b c h)
unfolding split_block cut_or_keep
whole_block b size c h short small =
    let kept : ltb ((update h.hdr b c) b).size (add64 size 48) ≡ true =
      ground (arith, ap (λ (d : Header). d.size) (update_self h.hdr b c)) in
    rw kept refl

extend_mem-extended :
    (size prev next : ℕ) (h : Heap)
    → 0 < size
    → size < 2 ^ 32 - 65536
    → h.brk % align_size ≡ 0
    → h.brk < 2 ^ 62
    → round_up size bin_size < size + 48
    → extend_mem size prev next h ≡ ok (h.brk, extended (round_up size bin_size) prev next h)
unfolding extend_mem
extend_mem-extended size prev next h pos small aligned low near =
    let total = round_up size bin_size in
    let (_, _, _, whole, at_least, close) = round_up_bounds size pos (omega arith) in
    let ptr : add64 h.brk 32 ≡ h.brk + 32 = omega arith in
    let word : u32 total ≡ total = omega (arith, close) in
    rw
      (
        align_brk-aligned h aligned,
        kbrk-pages total h whole (omega (arith, at_least)) (omega (arith, close)) low,
      )
      (rw (ptr, word)
        (ap (λ m. m >>= λ t. ok (h.brk, t))
          (whole_block h.brk size (fresh total prev next h) (record h { brk = h.brk + total }) near
            (omega arith))))

-- Where extend_mem does not split its block, at an aligned break, the block starts at the old
-- break and its memory ends 32 bytes behind the new one; the header of the next extension lies
-- inside that memory.
pub extend_mem-overrun :
    (size prev next : ℕ) (h : Heap)
    → 0 < size
    → size < 2 ^ 32 - 65536
    → h.brk % align_size ≡ 0
    → h.brk < 2 ^ 61
    → round_up size bin_size < size + 48
    → Returns (extend_mem size prev next h) λ (b, h').
      (b ≡ h.brk)
      × ((h'.hdr b).ptr + (h'.hdr b).size ≡ h'.brk + 32)
      × Returns (extend_mem size b null h') (λ (c, h2). c ≡ h'.brk)
      × ((h'.hdr b).ptr ≤ h'.brk)
extend_mem-overrun size prev next h pos small aligned low near =
    let total = round_up size bin_size in
    let (_, _, _, whole, at_least, close) = round_up_bounds size pos (omega arith) in
    let h' = extended total prev next h in
    let new_header = update_self h.hdr h.brk (fresh total prev next h) in
    (
      (h.brk, h'),
      extend_mem-extended size prev next h pos small aligned (omega arith) near,
      (
        refl,
        (ap (λ (c : Header). c.ptr + c.size) new_header ∙ omega arith),
        (
          _,
          extend_mem-extended size h.brk null h' pos small (omega (arith, whole))
              (omega (arith, close)) near,
          refl,
        ),
        omega (arith, ap (λ (c : Header). c.ptr) new_header, at_least, whole),
      ),
    )
