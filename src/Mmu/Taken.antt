-- ===== src/Mmu/Taken.antt =====
-- What page_fault_irq of mmu_driver.c starts with: the entry of the page, and a frame for it.
use csc.Base.{
  ℕ, ◌%◌, ◌^◌, ◌<◌, ◌≡◌, ◌≢◌, sym, ap, inl, inr, ◌∙◌, List, [], ◌∷◌, arith, has, length, update,
  update_self, update_ne, ◌==◌, true, Bool-cases, ==→eq, ==→ne,
}
use csc.Base.Outcome.{Returns}
use mathlib.Core.Path.{ap₂, subst₂}
use csc.Mmu.{Mmu, present, alloc, entry_at, mmu_pf_alloc}
use csc.Mmu.Frames.{mmu_pf_alloc-take}
use csc.Mmu.Walk.{
  index, index-below, walk, translate, Owner, page, idle, table, Tree, table_not_idle, Idle-other,
}
use csc.Mmu.Tables.{Space}
use csc.Mmu.Down.{Gives-frame, has_behind}
use csc.Mmu.Find.{Found}
use csc.Mmu.Path.{OnDemand, Found-Lowest, Extends-Lowest, some-inj}
use csc.Mmu.Map.{Changed}

-- The entry that is found for a page on demand asks for a frame.
pub Found-demanded :
    (own : ℕ → Owner) (s : Mmu) (fs : List ℕ) (v : ℕ) (r : ℕ × Mmu)
    → Space own s fs
    → OnDemand own s v
    → Found own s fs v r
    → (present (r.1.word r.0) ≡ 0) × (alloc (r.1.word r.0) ≢ 0)
Found-demanded own s fs v r space d found = rw same_word (d.absent, d.demanded)
  where
    same_table : d.lowest ≡ found.lowest
    same_table = some-inj (
        sym
          (Extends-Lowest own found.new_own s r.1 fs v d.lowest space found.grown.extends d.reached)
        ∙ Found-Lowest own s fs v r found)

    same_word : r.1.word r.0 ≡ s.word (entry_at d.lowest (index 3 v))
    same_word =
        ap r.1.word (found.is_entry ∙ ap (λ t. entry_at t (index 3 v)) (sym same_table))
        ∙ found.grown.extends.pages d.lowest _ (index 3 v) d.is_table (index-below 3 v)

pub has_first : (g : ℕ) (fs : List ℕ) → has g (g ∷ fs) ≡ true
has_first g fs = ground arith

-- A frame is taken for a page.
abbrev pub Taken : (ℕ → Owner) → Mmu → List ℕ → ℕ → ℕ × Mmu → Type 0
Taken own s fs v (g, s') =
    (own' : ℕ → Owner) × (fs' : List ℕ) × Changed 1 own own' s s' fs fs' v
    × ((has g fs ≡ true)
        × (g % 4096 ≡ 0)
        × (g < 2 ^ 52)
        × ((u : ℕ) → translate s' u ≡ translate s u))

-- Tables stay tables when an idle frame becomes a page.
module _ (own : ℕ → Owner) (g : ℕ) (idle_g : own g ≡ idle) where
  keep_table : (f k q : ℕ) → own f ≡ table k q → update own g page f ≡ table k q
  keep_table f k q h = update_ne own g page f (table_not_idle own f k q g h idle_g) ∙ h

  was_table : (f k q : ℕ) → update own g page f ≡ table k q → own f ≡ table k q
  was_table f k q h = elim (Bool-cases (f == g)) [
    | inl e ↦ absurd (
        page_not_table
          (sym (update_self own g page) ∙ ap (update own g page) (sym (==→eq f g e)) ∙ h))
    | inr e ↦ sym (update_ne own g page f (==→ne f g e)) ∙ h
  ]
    where
      page_not_table : page ≢ table k q
      page_not_table e = ground arith

  pub page-Tree :
      (word : ℕ → ℕ) (pml4 : ℕ) → Tree own word pml4 → Tree (update own g page) word pml4
  page-Tree word pml4 tree = record {
    root = keep_table pml4 0 0 tree.root;
    child = λ f k q i h upper small there.
        keep_table _ _ _ (tree.child f k q i (was_table f k q h) upper small there);
    whole = λ f k q h. tree.whole f k q (was_table f k q h);
  }

-- A walk reads memory and the top table only.
same_walk :
    (s s' : Mmu) (n u : ℕ)
    → s'.word ≡ s.word
    → s'.pml4 ≡ s.pml4
    → walk s'.word n 0 s'.pml4 u ≡ walk s.word n 0 s.pml4 u
same_walk s s' n u same_word same_pml4 =
    ap₂ (λ (w : ℕ → ℕ) (a : ℕ). walk w n 0 a u) same_word same_pml4

same_OnDemand :
    (own own' : ℕ → Owner) (s s' : Mmu) (u : ℕ)
    → s'.word ≡ s.word
    → s'.pml4 ≡ s.pml4
    → ((f k q : ℕ) → own f ≡ table k q → own' f ≡ table k q)
    → OnDemand own s u
    → OnDemand own' s' u
same_OnDemand own own' s s' u same_word same_pml4 keep d = record {
  lowest = d.lowest;
  is_table = keep d.lowest 3 _ d.is_table;
  reached = same_walk s s' 3 u same_word same_pml4 ∙ d.reached;
  absent = ap (λ (w : ℕ → ℕ). present (w (entry_at d.lowest (index 3 u)))) same_word ∙ d.absent;
  demanded = λ e.
      d.demanded
        (sym (ap (λ (w : ℕ → ℕ). alloc (w (entry_at d.lowest (index 3 u)))) same_word) ∙ e);
}

pub mmu_pf_alloc-Taken :
    (own : ℕ → Owner) (s : Mmu) (fs : List ℕ) (v : ℕ)
    → Space own s fs
    → 0 < length fs
    → Returns (mmu_pf_alloc s) (Taken own s fs v)
mmu_pf_alloc-Taken own s [] v space some_left = absurd (omega arith)
mmu_pf_alloc-Taken own s (g ∷ fs) v space some_left =
    let (s1, gives) = Gives-frame s g fs (mmu_pf_alloc-take s (g ∷ fs) space.stands) in
    (
      (g, s1),
      gives.call,
      (
        update own g page,
        fs,
        record {
          space = record {
            tree =
                subst₂ (λ (w : ℕ → ℕ) (a : ℕ). Tree (update own g page) w a) (sym gives.same_word)
                  (sym gives.same_pml4)
                  (page-Tree own g space.idle_frames.0 s.word s.pml4 space.tree);
            idle_frames = Idle-other own g page fs space.idle_frames.4 space.idle_frames.5;
            stands = gives.stands;
          };
          uses = (omega arith, λ a h. has_behind g fs a h);
          keeps = keep_table own g space.idle_frames.0;
          lowest = λ u t h. same_walk s s1 3 u gives.same_word gives.same_pml4 ∙ h;
          elsewhere = λ u other. same_walk s s1 4 u gives.same_word gives.same_pml4;
          waiting = λ u other d.
              same_OnDemand own _ s s1 u gives.same_word gives.same_pml4
                (keep_table own g space.idle_frames.0) d;
        },
        (
          has_first g fs,
          space.idle_frames.1,
          space.idle_frames.3,
          λ u. same_walk s s1 4 u gives.same_word gives.same_pml4,
        ),
      ),
    )
