-- ===== src/Mmu/Stock.antt =====
-- The ranges of page frames of mmu_driver.c, and one step of alloc_new_pf on them.
use csc.Base.{
  ℕ, zero, suc, ◌+◌, ◌-◌, ◌*◌, ◌%◌, ◌^◌, ◌≤◌, ◌<◌, ◌≡◌, ◌≢◌, refl, ap, ◌∙◌, List, [], ◌∷◌, ◌++◌,
  map, arith, null, has, Distinct, update, update_self, update_ne, false,
}
use csc.Base.Outcome.{ok, halted}
use csc.Mmu.{Range, Mmu, take_frame, alloc_new_pf}

-- What is left of a range: its entry, its bounds, its next frame, and how many frames come behind
-- that one.
pub record Span : Type 0 where
  pub entry : ℕ
  pub start : ℕ
  pub base : ℕ
  pub more : ℕ
  pub end : ℕ

-- The first `n` frames from `base` on.
abbrev pub frames_from : ℕ → ℕ → List ℕ
frames_from base zero = []
frames_from base (suc n) = base ∷ frames_from (base + 4096) n

-- The frames that the ranges will give: all but the last one of the last range.
abbrev pub fresh : List Span → List ℕ
fresh [] = []
fresh (x ∷ []) = frames_from x.base x.more
fresh (x ∷ y ∷ xs) = frames_from x.base (suc x.more) ++ fresh (y ∷ xs)

abbrev pub first_entry : List Span → ℕ
first_entry [] = null
first_entry (x ∷ xs) = x.entry

-- The entry of a range in front of others.
abbrev pub range_of : Span → List Span → Range
range_of x xs = record {
  start = x.start;
  curr_frame = x.base;
  end = x.end;
  next_entry = first_entry xs;
}

-- The last frame starts below the end of the range, and is the last to do so.
pub record InSpan (x : Span) : Type 0 where
  pub there : x.entry ≢ null
  pub above_null : 0 < x.base
  pub below_end : x.base + x.more * 4096 < x.end
  pub reaches_end : x.end ≤ x.base + x.more * 4096 + 4096
  pub in_memory : x.base + x.more * 4096 + 4096 ≤ 2 ^ 40

abbrev pub entries : List Span → List ℕ
entries xs = map (λ (y : Span). y.entry) xs

-- The entries of the list of ranges.
abbrev pub Ranges : (ℕ → Range) → List Span → Type 0
Ranges range [] = Unit
Ranges range (x ∷ xs) = (range x.entry ≡ range_of x xs) × InSpan x × Ranges range xs

-- The list of free frames from `f` on.
abbrev pub Chain : (ℕ → ℕ) → ℕ → List ℕ → Type 0
Chain word f [] = f ≡ null
Chain word f (x ∷ xs) = (f ≡ x) × (x ≢ null) × Chain word (word x) xs

-- The allocator stands for the free frames `free`, the latest first, and the ranges `spans`.
pub record Stock (s : Mmu) (free : List ℕ) (spans : List Span) : Type 0 where
  pub chain : Chain s.word s.pf_free_list_head free
  pub curr : s.addr_range_curr ≡ first_entry spans
  pub ranges : Ranges s.range spans
  pub distinct : Distinct (entries spans)

-- Ranges other than the one that changes keep their place.
pub Ranges-other :
    (range : ℕ → Range) (a : ℕ) (r : Range) (xs : List Span)
    → has a (entries xs) ≡ false
    → Ranges range xs
    → Ranges (update range a r) xs
Ranges-other range a r [] out h = tt
Ranges-other range a r (x ∷ xs) out h = (
  update_ne range a r x.entry (ground arith) ∙ h.0,
  h.1,
  Ranges-other range a r xs (ground arith) h.2,
)

abbrev pub advance : Span → Span
advance x = record x { base = x.base + 4096; more = x.more - 1 }

advance-InSpan : (x : Span) → 0 < x.more → InSpan x → InSpan (advance x)
advance-InSpan x more h = record {
  there = h.there;
  above_null = omega arith;
  below_end = omega (arith, h.below_end);
  reaches_end = omega (arith, h.reaches_end);
  in_memory = omega (arith, h.in_memory);
}

abbrev pub marked : Mmu → Span → List Span → ℕ → Mmu
marked s x xs f = record s {
  range = update s.range x.entry (record (range_of x xs) { curr_frame = f });
}

take_frame-within :
    (s : Mmu) (x : Span) (xs : List Span)
    → InSpan x
    → 0 < x.more
    → take_frame x.entry (range_of x xs) s ≡ ok (x.base, marked s x xs (x.base + 4096))
unfolding take_frame
take_frame-within s x xs h more =
    let wrap : (x.base + 4096) % 2 ^ 64 ≡ x.base + 4096 = omega arith in rw wrap (ground arith)

take_frame-last :
    (s : Mmu) (x y : Span) (xs : List Span)
    → InSpan x
    → x.more ≡ 0
    → InSpan y
    → take_frame x.entry (range_of x (y ∷ xs)) s
      ≡ ok (x.base, record (marked s x (y ∷ xs) (x.base + 4096)) { addr_range_curr = y.entry })
unfolding take_frame
take_frame-last s x y xs h none_more k =
    let wrap : (x.base + 4096) % 2 ^ 64 ≡ x.base + 4096 = omega arith in rw wrap (ground arith)

pub take_frame-halted :
    (s : Mmu) (x : Span) → InSpan x → x.more ≡ 0 → take_frame x.entry (range_of x []) s ≡ halted
unfolding take_frame
take_frame-halted s x h none_more = ground arith

pub alloc_new_pf-at :
    (s : Mmu) {c : ℕ} {r : Range}
    → s.addr_range_curr ≡ c
    → s.range c ≡ r
    → alloc_new_pf s ≡ take_frame c r s
unfolding alloc_new_pf
alloc_new_pf-at s {c = c} is_c is_r =
    ap (λ a. take_frame a (s.range a) s) is_c ∙ ap (λ (r : Range). take_frame c r s) is_r

pub alloc_new_pf-within :
    (s : Mmu) (x : Span) (xs : List Span)
    → Stock s [] (x ∷ xs)
    → 0 < x.more
    → (alloc_new_pf s ≡ ok (x.base, marked s x xs (x.base + 4096)))
      × Stock (marked s x xs (x.base + 4096)) [] (advance x ∷ xs)
alloc_new_pf-within s x xs k more = (
  alloc_new_pf-at s k.curr k.ranges.0 ∙ take_frame-within s x xs k.ranges.1 more,
  record {
    chain = k.chain;
    curr = k.curr;
    ranges = (
      update_self s.range x.entry _,
      advance-InSpan x more k.ranges.1,
      Ranges-other s.range x.entry _ xs k.distinct.0 k.ranges.2,
    );
    distinct = k.distinct;
  },
)

pub alloc_new_pf-next :
    (s : Mmu) (x y : Span) (xs : List Span)
    → Stock s [] (x ∷ y ∷ xs)
    → x.more ≡ 0
    → let s' = record (marked s x (y ∷ xs) (x.base + 4096)) { addr_range_curr = y.entry } in
      (alloc_new_pf s ≡ ok (x.base, s')) × Stock s' [] (y ∷ xs)
alloc_new_pf-next s x y xs k none_more = (
  alloc_new_pf-at s k.curr k.ranges.0 ∙ take_frame-last s x y xs k.ranges.1 none_more k.ranges.2.1,
  record {
    chain = k.chain;
    curr = refl;
    ranges = Ranges-other s.range x.entry _ (y ∷ xs) k.distinct.0 k.ranges.2;
    distinct = k.distinct.1;
  },
)
