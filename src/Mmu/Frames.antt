-- ===== src/Mmu/Frames.antt =====
-- The page frame allocator, MMU_pf_alloc and MMU_pf_free of mmu_driver.c, against its abstract view:
-- a list of frames, of which allocation takes the first.
use csc.Base.{
  ℕ, zero, suc, ◌+◌, ◌-◌, ◌%◌, ◌^◌, ◌<◌, ◌≡◌, ◌≢◌, refl, ap, ◌∙◌, List, [], ◌∷◌, ◌++◌, arith, null,
  has, ◌⊎◌, inl, inr, update_self, update_ne, true, false, ◌==◌, ne→==, if◌then◌else◌,
}
use csc.Base.Outcome.{ok, halted, Returns}
use csc.Mmu.{Range, Mmu, write, take_frame, alloc_new_pf, mmu_pf_alloc, mmu_pf_free}
use csc.Mmu.Stock.{
  Span, frames_from, fresh, advance, Chain, Stock, take_frame-halted, alloc_new_pf-at,
  alloc_new_pf-within, alloc_new_pf-next,
}

-- The frames that the allocator will hand out, in this order.
pub record Stands (s : Mmu) (frames : List ℕ) : Type 0 where
  pub free : List ℕ
  pub spans : List Span
  pub stock : Stock s free spans
  pub frames_are : frames ≡ free ++ fresh spans

-- The call gives the first frame, and only the allocator's own state changes; with no frame left it
-- halts.
abbrev pub Takes : Mmu → List ℕ → Type 0
Takes s [] = mmu_pf_alloc s ≡ halted
Takes s (f ∷ fs) = Returns (mmu_pf_alloc s) λ (r : ℕ × Mmu).
    (r.0 ≡ f)
    × (r.1.word ≡ s.word)
    × (r.1.pml4 ≡ s.pml4)
    × (r.1.virt_addr_bank ≡ s.virt_addr_bank)
    × Stands r.1 fs

take_frame-null : (r : Range) (s : Mmu) → take_frame null r s ≡ halted
unfolding take_frame
take_frame-null r s = refl

pred-cases : (n : ℕ) → (n ≡ 0) ⊎ (n ≡ suc (n - 1))
pred-cases zero = inl refl
pred-cases (suc n) = inr (omega arith)

-- With no free frame it is the ranges that give.
from_ranges : (s : Mmu) → s.pf_free_list_head ≡ null → mmu_pf_alloc s ≡ alloc_new_pf s
unfolding mmu_pf_alloc
from_ranges s none_free =
    ap
      (λ f. if f == null then alloc_new_pf s else ok (f, record s { pf_free_list_head = s.word f }))
      none_free

-- A call that takes a frame from a range, whose other frames are left.
give :
    (s s' : Mmu) (f : ℕ) (frames : List ℕ) (spans : List Span)
    → s.pf_free_list_head ≡ null
    → alloc_new_pf s ≡ ok (f, s')
    → (s'.word ≡ s.word) × (s'.pml4 ≡ s.pml4) × (s'.virt_addr_bank ≡ s.virt_addr_bank)
    → Stock s' [] spans
    → frames ≡ fresh spans
    → Takes s (f ∷ frames)
give s s' f frames spans none_free e same k is = (
  (f, s'),
  from_ranges s none_free ∙ e,
  (refl, same.0, same.1, same.2, record { free = []; spans = spans; stock = k; frames_are = is }),
)

alloc_new_pf-Takes :
    (s : Mmu) (spans : List Span)
    → Stock s [] spans
    → s.pf_free_list_head ≡ null
    → Takes s (fresh spans)
alloc_new_pf-Takes s [] k empty =
    from_ranges s empty ∙ alloc_new_pf-at s k.curr refl ∙ take_frame-null (s.range null) s
alloc_new_pf-Takes s (x ∷ []) k empty = elim (pred-cases x.more) [
  | inl e ↦
      let halts : alloc_new_pf s ≡ halted =
        alloc_new_pf-at s k.curr k.ranges.0 ∙ take_frame-halted s x k.ranges.1 e in
      rw e (from_ranges s empty ∙ halts)
  | inr e ↦
      let (does, k') = alloc_new_pf-within s x [] k (omega arith) in
      rw e (
        give s _ x.base (frames_from (x.base + 4096) (x.more - 1)) (advance x ∷ []) empty does
          (refl, refl, refl) k' refl)
]
alloc_new_pf-Takes s (x ∷ y ∷ xs) k empty = elim (pred-cases x.more) [
  | inl e ↦
      let (does, k') = alloc_new_pf-next s x y xs k e in
      rw e (give s _ x.base (fresh (y ∷ xs)) (y ∷ xs) empty does (refl, refl, refl) k' refl)
  | inr e ↦
      let (does, k') = alloc_new_pf-within s x (y ∷ xs) k (omega arith) in
      rw e (
        give s _ x.base (frames_from (x.base + 4096) (suc (x.more - 1)) ++ fresh (y ∷ xs))
          (advance x ∷ y ∷ xs) empty does (refl, refl, refl) k' refl)
]

free_first :
    (s : Mmu) (f : ℕ)
    → s.pf_free_list_head ≡ f
    → f ≢ null
    → mmu_pf_alloc s ≡ ok (f, record s { pf_free_list_head = s.word f })
unfolding mmu_pf_alloc
free_first s f is there =
    ap
      (λ (g : ℕ).
        if g == null then alloc_new_pf s else ok (g, record s { pf_free_list_head = s.word g }))
      is
    ∙ rw (ne→== f null there) refl

Stock-Takes :
    (s : Mmu) (free : List ℕ) (spans : List Span)
    → Stock s free spans
    → Takes s (free ++ fresh spans)
Stock-Takes s [] spans k = alloc_new_pf-Takes s spans k k.chain
Stock-Takes s (f ∷ free) spans k = (
  (f, record s { pf_free_list_head = s.word f }),
  free_first s f k.chain.0 k.chain.1,
  (
    refl,
    refl,
    refl,
    refl,
    record {
      free = free;
      spans = spans;
      stock = record { chain = k.chain.2; curr = k.curr; ranges = k.ranges; distinct = k.distinct };
      frames_are = refl;
    },
  ),
)

pub mmu_pf_alloc-take : (s : Mmu) (frames : List ℕ) → Stands s frames → Takes s frames
mmu_pf_alloc-take s frames k = rw k.frames_are (Stock-Takes s k.free k.spans k.stock)

-- The list of free frames is the same if the memory of its frames is.
pub Chain-same :
    (word word' : ℕ → ℕ) (f : ℕ) (xs ys : List ℕ)
    → ((a : ℕ) → has a (xs ++ ys) ≡ true → word' a ≡ word a)
    → Chain word f xs
    → Chain word' f xs
Chain-same word word' f [] ys same h = h
Chain-same word word' f (x ∷ xs) ys same h = (
  h.0,
  h.1,
  rw (same x (ground arith))
      (Chain-same word word' (word x) xs ys (λ a k. same a (ground arith)) h.2),
)

-- Memory that is in no frame of the allocator may change.
pub Stands-same :
    (s : Mmu) (word' : ℕ → ℕ) (frames : List ℕ)
    → ((a : ℕ) → has a frames ≡ true → word' a ≡ s.word a)
    → Stands s frames
    → Stands (record s { word = word' }) frames
Stands-same s word' frames same k = record {
  free = k.free;
  spans = k.spans;
  stock = record {
    chain =
        Chain-same s.word word' _ k.free (fresh k.spans) (λ a h. same a (rw k.frames_are h))
          k.stock.chain;
    curr = k.stock.curr;
    ranges = k.stock.ranges;
    distinct = k.stock.distinct;
  };
  frames_are = k.frames_are;
}

-- MMU_pf_free puts the frame in front of the list.
abbrev pub put : ℕ → Mmu → Mmu
put pf s = record (write pf s.pf_free_list_head s) { pf_free_list_head = pf }

pub mmu_pf_free-put :
    (s : Mmu) (pf : ℕ) → pf % 4096 ≡ 0 → 0 < pf → pf < 2 ^ 40 → mmu_pf_free pf s ≡ ok (put pf s)
unfolding mmu_pf_free
mmu_pf_free-put s pf whole pos below = ground arith

pub put-Stands :
    (s : Mmu) (frames : List ℕ) (pf : ℕ)
    → Stands s frames
    → 0 < pf
    → has pf frames ≡ false
    → Stands (put pf s) (pf ∷ frames)
put-Stands s frames pf k pos out = record {
  free = pf ∷ rest.free;
  spans = rest.spans;
  stock = record {
    chain =
        (refl, (λ e. omega arith), rw (update_self s.word pf s.pf_free_list_head) rest.stock.chain);
    curr = rest.stock.curr;
    ranges = rest.stock.ranges;
    distinct = rest.stock.distinct;
  };
  frames_are = ap (λ (fs : List ℕ). pf ∷ fs) rest.frames_are;
}
  where
    rest : Stands (write pf s.pf_free_list_head s) frames
    rest = Stands-same s _ frames (λ a h. update_ne s.word pf _ a (λ e. ground (arith, h, out))) k

-- The page frame allocator is a list of frames: MMU_pf_alloc takes the first, and halts if there
-- is none, which is so while the last range has one frame left; MMU_pf_free of an aligned frame
-- between 0 and 2^40 that is not in the list puts it in front, and the next MMU_pf_alloc takes it
-- again.
pub mmu_pf_alloc-stack :
    (s : Mmu) (frames : List ℕ) (pf : ℕ)
    → Stands s frames
    → pf % 4096 ≡ 0
    → 0 < pf
    → pf < 2 ^ 40
    → has pf frames ≡ false
    → Takes s frames
      × (Returns (mmu_pf_free pf s) λ (s' : Mmu). Stands s' (pf ∷ frames) × Takes s' (pf ∷ frames))
mmu_pf_alloc-stack s frames pf k whole pos below out =
    let k' = put-Stands s frames pf k pos out in
    (
      mmu_pf_alloc-take s frames k,
      (
        put pf s,
        mmu_pf_free-put s pf whole pos below,
        (k', mmu_pf_alloc-take (put pf s) (pf ∷ frames) k'),
      ),
    )
