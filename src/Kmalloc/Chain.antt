-- ===== src/Kmalloc/Chain.antt =====
-- What the headers stand for: a list of blocks in the order of their addresses.
use csc.Base.{
  ℕ, ◌+◌, ◌-◌, ◌^◌, ◌≤◌, ◌<◌, ◌≡◌, ◌≢◌, refl, sym, ap, ◌∙◌, List, [], ◌∷◌, ◌++◌, Bool, arith, null,
  update, update_self, update_ne,
}
use mathlib.Core.Path.{subst}
use csc.Kmalloc.{Header, Heap, write}

pub record Block : Type 0 where
  pub addr : ℕ
  pub size : ℕ
  pub free : Bool

-- The header of a block between two neighbours.
abbrev pub header_of : Block → ℕ → ℕ → Header
header_of x prev next = record {
  ptr = x.addr + 32;
  size = x.size;
  free = x.free;
  next = next;
  prev = prev;
}

-- The address of the first block, and of the last.
abbrev pub first : List Block → ℕ → ℕ
first [] e = e
first (x ∷ xs) e = x.addr

abbrev pub last : ℕ → List Block → ℕ
last p [] = p
last p (x ∷ xs) = last x.addr xs

-- The headers of the blocks, linked both ways; `p` stands before them and `e` behind.
abbrev pub Linked : (ℕ → Header) → ℕ → List Block → ℕ → Type 0
Linked h p [] e = Unit
Linked h p (x ∷ xs) e = (h x.addr ≡ header_of x p (first xs e)) × Linked h x.addr xs e

-- Each block has a positive size, and the next one starts no earlier than `size` bytes behind its
-- header: its memory may reach at most 32 bytes into the header of the next block.
abbrev pub Ordered : ℕ → List Block → ℕ → Type 0
Ordered low [] high = low ≤ high
Ordered low (x ∷ xs) high = (low ≤ x.addr) × (0 < x.size) × Ordered (x.addr + x.size) xs high

pub Linked-append :
    (h : ℕ → Header) (p : ℕ) (xs ys : List Block) (e : ℕ)
    → Linked h p (xs ++ ys) e
    → Linked h p xs (first ys e) × Linked h (last p xs) ys e
Linked-append h p [] ys e l = (tt, l)
Linked-append h p (x ∷ []) ys e l = ((l.0, tt), l.1)
Linked-append h p (x ∷ y ∷ xs) ys e l =
    let (front, back) = Linked-append h x.addr (y ∷ xs) ys e l.1 in ((l.0, front), back)

pub append-Linked :
    (h : ℕ → Header) (p : ℕ) (xs ys : List Block) (e : ℕ)
    → Linked h p xs (first ys e)
    → Linked h (last p xs) ys e
    → Linked h p (xs ++ ys) e
append-Linked h p [] ys e l k = k
append-Linked h p (x ∷ []) ys e l k = (l.0, k)
append-Linked h p (x ∷ y ∷ xs) ys e l k = (l.0, append-Linked h x.addr (y ∷ xs) ys e l.1 k)

pub Ordered-le : (xs : List Block) (low high : ℕ) → Ordered low xs high → low ≤ high
Ordered-le [] low high o = o
Ordered-le (x ∷ xs) low high o = omega (arith, Ordered-le xs (x.addr + x.size) high o.2)

pub Ordered-down :
    (xs : List Block) (low low' high : ℕ) → low' ≤ low → Ordered low xs high → Ordered low' xs high
Ordered-down [] low low' high h o = omega arith
Ordered-down (x ∷ xs) low low' high h o = (omega arith, o.1, o.2)

-- The blocks keep their place and their links if the headers from `low` up to `high` are the same.
pub Linked-same :
    (h h' : ℕ → Header) (p : ℕ) (xs : List Block) (e low high : ℕ)
    → Ordered low xs high
    → ((a : ℕ) → low ≤ a → a < high → h' a ≡ h a)
    → Linked h p xs e
    → Linked h' p xs e
Linked-same h h' p [] e low high o same l = tt
Linked-same h h' p (x ∷ xs) e low high o same l = (
  same x.addr o.0 (omega (arith, Ordered-le xs (x.addr + x.size) high o.2)) ∙ l.0,
  Linked-same h h' x.addr xs e (x.addr + x.size) high o.2
      (λ a from below. same a (omega arith) below) l.1,
)

pub Ordered-append :
    (xs ys : List Block) (low high : ℕ)
    → Ordered low (xs ++ ys) high
    → (mid : ℕ) × Ordered low xs mid × Ordered mid ys high
Ordered-append [] ys low high o = (low, omega arith, o)
Ordered-append (x ∷ xs) ys low high o =
    let (mid, front, back) = Ordered-append xs ys (x.addr + x.size) high o.2 in
    (mid, (o.0, o.1, front), back)

pub append-Ordered :
    (xs ys : List Block) (low mid high : ℕ)
    → Ordered low xs mid
    → Ordered mid ys high
    → Ordered low (xs ++ ys) high
append-Ordered [] ys low mid high o k = Ordered-down ys mid low high o k
append-Ordered (x ∷ xs) ys low mid high o k =
    (o.0, o.1, append-Ordered xs ys (x.addr + x.size) mid high o.2 k)

-- The heap stands for the blocks. All of it lies at or above `base`, and below the 4 GiB behind it.
pub record IsHeap (base : ℕ) (h : Heap) (bs : List Block) : Type 0 where
  pub head : h.kernel_heap_head ≡ first bs null
  pub linked : Linked h.hdr null bs null
  pub ordered : Ordered base bs h.brk
  pub above_null : 0 < base
  pub near : h.brk < base + 2 ^ 32 - 2 ^ 17
  pub in_range : base < 2 ^ 48

pub first-append :
    (xs ys zs : List Block) (e : ℕ)
    → first ys e ≡ first zs e
    → first (xs ++ ys) e ≡ first (xs ++ zs) e
first-append [] ys zs e same = same
first-append (x ∷ xs) ys zs e same = refl

-- A new header for one block: the list has another block in its place.
pub write-IsHeap :
    (base : ℕ) (h : Heap) (xs : List Block) (x x' : Block) (ys : List Block)
    → IsHeap base h (xs ++ x ∷ ys)
    → x'.addr ≡ x.addr
    → x'.size ≡ x.size
    → IsHeap base (write x.addr (header_of x' (last null xs) (first ys null)) h) (xs ++ x' ∷ ys)
write-IsHeap base h xs x x' ys is at_same same =
    let c : Header = header_of x' (last null xs) (first ys null) in
    let after : ℕ → Header = update h.hdr x.addr c in
    let (mid, before, behind) = Ordered-append xs (x ∷ ys) base h.brk is.ordered in
    let (front, back) = Linked-append h.hdr null xs (x ∷ ys) null is.linked in
    let rest : Linked h.hdr x'.addr ys null = rw at_same back.1 in
    record {
      head = is.head ∙ first-append xs (x ∷ ys) (x' ∷ ys) null (sym at_same);
      linked =
          append-Linked after null xs (x' ∷ ys) null
            (subst (λ t. Linked after null xs t) (sym at_same)
              (Linked-same h.hdr after null xs x.addr base mid before
                (λ a from below. update_ne h.hdr x.addr c a (omega (arith, behind.0))) front))
            (
              ap after at_same ∙ update_self h.hdr x.addr c,
              Linked-same h.hdr after x'.addr ys null (x.addr + x.size) h.brk behind.2
                  (λ a from below. update_ne h.hdr x.addr c a (omega (arith, behind.1))) rest,
            );
      ordered = append-Ordered xs (x' ∷ ys) base mid h.brk before (
        omega (arith, behind.0),
        omega (arith, behind.1),
        Ordered-down ys (x.addr + x.size) _ h.brk (omega arith) behind.2,
      );
      above_null = is.above_null;
      near = is.near;
      in_range = is.in_range;
    }

-- The header of a block, by its neighbours.
pub block_header :
    (base : ℕ) (h : Heap) (xs : List Block) (x : Block) (ys : List Block)
    → IsHeap base h (xs ++ x ∷ ys)
    → h.hdr x.addr ≡ header_of x (last null xs) (first ys null)
block_header base h xs x ys is = (Linked-append h.hdr null xs (x ∷ ys) null is.linked).1.0

-- A block lies at or above `base`, below the break, and is not NULL.
pub block_place :
    (base : ℕ) (h : Heap) (xs : List Block) (x : Block) (ys : List Block)
    → IsHeap base h (xs ++ x ∷ ys)
    → (base ≤ x.addr) × (0 < x.size) × (x.addr + x.size ≤ h.brk) × (x.addr ≢ null)
block_place base h xs x ys is =
    let (mid, before, behind) = Ordered-append xs (x ∷ ys) base h.brk is.ordered in
    let low = Ordered-le xs base mid before in
    let high = Ordered-le ys (x.addr + x.size) h.brk behind.2 in
    (omega (arith, behind.0), behind.1, high, omega (arith, behind.0, is.above_null))
