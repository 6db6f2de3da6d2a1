-- ===== src/Mmu/Start.antt =====
-- The start of the tables in MMU_init of mmu_driver.c, from what the frame allocator holds.
use csc.Base.{
  ℕ, ◌+◌, ◌*◌, ◌%◌, ◌^◌, ◌≤◌, ◌<◌, ◌≡◌, refl, ap, inl, inr, ◌∙◌, List, [], ◌∷◌, arith, length, has,
  true, false, ◌==◌, if◌then◌else◌, Bool-cases, ==→eq, ==_refl,
}
use csc.Base.Outcome.{Returns}
use csc.Mmu.{Mmu, present, entry_at, clear_page}
use csc.Mmu.Frames.{Stands, Stands-same, mmu_pf_alloc-take}
use csc.Mmu.Walk.{index-below, walk, walk_absent, Owner, page, idle, table, Idle}
use csc.Mmu.Grow.{clear_page-Outside, clear_page-inside}
use csc.Mmu.Tables.{Space}
use csc.Mmu.Down.{has_behind, page-Outside, Gives-frame}
use csc.Mmu.Taken.{has_first}
use csc.Mmu.Init.{start_tables}
use csc.Mmu.Identity.{Started, Unmapped, map_identity-check}

-- Frames that the tables can be made of.
abbrev pub Usable : List ℕ → Type 0
Usable [] = Unit
Usable (f ∷ fs) = (f % 4096 ≡ 0) × (0 < f) × (f < 2 ^ 52) × (has f fs ≡ false) × Usable fs

Usable-Idle :
    (own : ℕ → Owner) (fs : List ℕ)
    → Usable fs
    → ((a : ℕ) → has a fs ≡ true → own a ≡ idle)
    → Idle own fs
Usable-Idle own [] u all_idle = tt
Usable-Idle own (f ∷ fs) u all_idle = (
  all_idle f (has_first f fs),
  u.0,
  u.1,
  u.2,
  u.3,
  Usable-Idle own fs u.4 (λ a h. all_idle a (has_behind f fs a h)),
)

-- The first table, before anything hangs behind it.
first_own : ℕ → List ℕ → ℕ → Owner
first_own top fs a = if a == top then table 0 0 else if has a fs then idle else page

first_own-table : (top : ℕ) (fs : List ℕ) (f k q : ℕ) → first_own top fs f ≡ table k q → f ≡ top
unfolding first_own
first_own-table top fs f k q is = ground arith

first_own-top : (top : ℕ) (fs : List ℕ) → first_own top fs top ≡ table 0 0
unfolding first_own
first_own-top top fs = rw (==_refl top) refl

first_own-idle :
    (top : ℕ) (fs : List ℕ) (a : ℕ)
    → has top fs ≡ false
    → has a fs ≡ true
    → first_own top fs a ≡ idle
unfolding first_own
first_own-idle top fs a out h = elim (Bool-cases (a == top)) [
  | inl e ↦ ground (arith, h, out, ap (λ x. has x fs) (==→eq a top e))
  | inr e ↦ rw (e, h) refl
]

Usable-whole : (fs : List ℕ) (a : ℕ) → Usable fs → has a fs ≡ true → a % 4096 ≡ 0
Usable-whole [] a u h = absurd (ground arith)
Usable-whole (f ∷ fs) a u h = elim (Bool-cases (a == f)) [
  | inl e ↦ rw (==→eq a f e) u.0
  | inr e ↦ Usable-whole fs a u.4 (ground arith)
]

abbrev cleared : ℕ → Mmu → Mmu
cleared top s = clear_page top (record s { pml4 = top })

cleared-rest :
    (top : ℕ) (s : Mmu) → cleared top s ≡ record s { word = (cleared top s).word; pml4 = top }
unfolding clear_page
cleared-rest top s = refl

cleared-Stands :
    (top : ℕ) (s : Mmu) (fs : List ℕ)
    → ((a : ℕ) → has a fs ≡ true → (cleared top s).word a ≡ s.word a)
    → Stands s fs
    → Stands (cleared top s) fs
unfolding clear_page
cleared-Stands top s fs same k =
    let k' = Stands-same s (cleared top s).word fs same k in
    record {
      free = k'.free;
      spans = k'.spans;
      stock = record {
        chain = k'.stock.chain;
        curr = k'.stock.curr;
        ranges = k'.stock.ranges;
        distinct = k'.stock.distinct;
      };
      frames_are = k'.frames_are;
    }

-- The entries of the cleared table.
no_entry :
    (top : ℕ) (s : Mmu) (i : ℕ) → i < 512 → present ((cleared top s).word (entry_at top i)) ≡ 0
no_entry top s i small =
    ap present (clear_page-inside top _ (entry_at top i) (omega arith) (omega arith))

cleared-pml4 : (top : ℕ) (s : Mmu) → (cleared top s).pml4 ≡ top
unfolding clear_page
cleared-pml4 top s = refl

cleared-Space :
    (top : ℕ) (s : Mmu) (fs : List ℕ)
    → Stands s fs
    → Usable (top ∷ fs)
    → Space (first_own top fs) (cleared top s) fs
cleared-Space top s fs k u = record {
  tree = record {
    root = ap (first_own top fs) (cleared-pml4 top s) ∙ first_own-top top fs;
    child = λ f q0 q i is upper small there.
        let is_top = first_own-table top fs f q0 q is in
        absurd (
          there (
            ap (λ a. present ((cleared top s).word (entry_at a i))) is_top
            ∙ no_entry top s i small));
    whole = λ f q0 q is. rw (first_own-table top fs f q0 q is) u.0;
  };
  idle_frames = Usable-Idle (first_own top fs) fs u.4 (λ a h. first_own-idle top fs a u.3 h);
  stands =
      cleared-Stands top s fs
        (λ a h. clear_page-Outside top _ a (
          page-Outside top a u.0 (Usable-whole fs a u.4 h)
            (λ e. ground (arith, h, u.3, ap (λ x. has x fs) e))))
        k;
}

cleared-Unmapped : (n top : ℕ) (s : Mmu) → Unmapped n 0 (cleared top s)
cleared-Unmapped n top s j inside =
    ap (λ a. walk (cleared top s).word 4 0 a (0 + j * 4096)) (cleared-pml4 top s)
    ∙ walk_absent (cleared top s).word 3 0 top (0 + j * 4096)
        (no_entry top s _ (index-below 0 (0 + j * 4096)))

-- MMU_init gets the tables started from what the frame allocator holds: where that is a list of
-- 3079 frames or more, aligned, between 0 and 2^52, each once, the top table is made, every page
-- from 0 to 2 MiB, the latter included, is mapped to the frame of the same address, the check of
-- the pages returns, and behind it these translations hold, the tables form a tree and the
-- allocator holds idle frames.
pub start_tables-Started :
    (s : Mmu) (frames : List ℕ)
    → Stands s frames
    → Usable frames
    → 3079 ≤ length frames
    → Returns (start_tables s) (Started 513)
unfolding start_tables
start_tables-Started s [] k u enough = absurd (omega arith)
start_tables-Started s (top ∷ fs) k u enough =
    let (s1, gives) = Gives-frame s top fs (mmu_pf_alloc-take s (top ∷ fs) k) in
    rw (gives.call) (
      map_identity-check 512 (first_own top fs) (cleared top s1) fs
        (cleared-Space top s1 fs gives.stands u) (omega arith) (omega arith)
        (cleared-Unmapped 513 top s1))
