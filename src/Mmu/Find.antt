-- ===== src/Mmu/Find.antt =====
-- get_pt_entry of mmu_driver.c: it returns the entry of the page, and makes the tables on the way.
use csc.Base.{ℕ, suc, ◌+◌, ◌%◌, ◌≤◌, ◌<◌, ◌≡◌, ◌≢◌, refl, sym, ap, ◌∙◌, List, arith, length}
use csc.Base.Outcome.{Returns, Returns-bind}
use csc.Mmu.{Mmu, present, entry_at, next_table, get_pt_entry}
use csc.Mmu.Walk.{index, index-below, prefix, walk, walk-present, Owner, table}
use csc.Mmu.Tables.{Space, Extends, Extends-refl, Extends-trans}
use csc.Mmu.Down.{Leads, Grown, Down, down}

Leads-walk :
    (word : ℕ → ℕ) (n k f v t : ℕ)
    → Leads word k f v t
    → walk word (suc n) k f v ≡ walk word n (suc k) t v
Leads-walk word n k f v t leads =
    walk-present word n k f v leads.0 ∙ ap (λ a. walk word n (suc k) a v) leads.1

add_one : (k : ℕ) → k + 1 ≡ suc k
add_one k = omega arith

Grown-trans :
    (m n : ℕ) (own own1 own2 : ℕ → Owner) (s s1 s2 : Mmu) (fs fs1 fs2 : List ℕ)
    → Grown m own own1 s s1 fs fs1
    → Grown n own1 own2 s1 s2 fs1 fs2
    → Grown (m + n) own own2 s s2 fs fs2
Grown-trans m n own own1 own2 s s1 s2 fs fs1 fs2 x y = record {
  space = y.space;
  extends = Extends-trans own own1 own2 s s1 s2 x.extends y.extends;
  uses = (omega (arith, x.uses.0, y.uses.0), λ a h. x.uses.1 a (y.uses.1 a h));
}

walk_to : (word : ℕ → ℕ) (n m f v : ℕ) → n ≡ m → walk word n 0 f v ≡ walk word m 0 f v
walk_to word n m f v e = ap (λ j. walk word j 0 f v) e

-- What is present above the lowest tables is the same in the two memories.
abbrev pub SameAbove : (ℕ → Owner) → (ℕ → ℕ) → (ℕ → ℕ) → Type 0
SameAbove own word word' =
    (f k q i : ℕ)
    → own f ≡ table k q
    → k < 3
    → i < 512
    → present (word (entry_at f i)) ≢ 0
    → word' (entry_at f i) ≡ word (entry_at f i)

-- What get_pt_entry comes to: the entry of the page in the lowest table on its way.
pub record Found (own : ℕ → Owner) (s : Mmu) (fs : List ℕ) (v : ℕ) (r : ℕ × Mmu) : Type 0 where
  pub new_own : ℕ → Owner
  pub left : List ℕ
  pub lowest : ℕ
  pub grown : Grown 3 own new_own s r.1 fs left
  pub is_entry : r.0 ≡ entry_at lowest (index 3 v)
  pub is_table : new_own lowest ≡ table 3 (prefix 3 v)
  pub reached :
      (word' : ℕ → ℕ)
      → SameAbove new_own r.1.word word'
      → (m n : ℕ) → n ≡ 3 + m
      → walk word' n 0 r.1.pml4 v ≡ walk word' m 3 lowest v

-- The way from the top table has come to the table `t` at depth `k`.
Reach : (ℕ → Owner) → Mmu → List ℕ → ℕ → ℕ → ℕ × Mmu → Type 0
Reach own s fs v k (t, s') =
    (own' : ℕ → Owner) × (fs' : List ℕ) × Grown k own own' s s' fs fs'
    × (own' t ≡ table k (prefix k v))
    × ((word' : ℕ → ℕ)
        → SameAbove own' s'.word word'
        → (m n : ℕ) → n ≡ k + m
        → walk word' n 0 s'.pml4 v ≡ walk word' m k t v)

SameAbove-before :
    (own own' : ℕ → Owner) (s s' : Mmu) (word' : ℕ → ℕ)
    → Extends own own' s s'
    → SameAbove own' s'.word word'
    → SameAbove own s.word word'
SameAbove-before own own' s s' word' x same f k q i is upper small there =
    let e = x.entries f k q i is small there in
    same f k q i (x.keeps f k q is) upper small (λ z. there (ap present (sym e) ∙ z)) ∙ e

Leads-kept :
    (own : ℕ → Owner) (word word' : ℕ → ℕ) (k f v t : ℕ)
    → SameAbove own word word'
    → own f ≡ table k (prefix k v)
    → k < 3
    → Leads word k f v t
    → Leads word' k f v t
Leads-kept own word word' k f v t same is upper leads =
    rw (same f k _ (index k v) is upper (index-below k v) leads.0) leads

Reach-next :
    (own : ℕ → Owner) (s : Mmu) (fs : List ℕ) (v k t : ℕ) (s1 : Mmu)
    → 3 ≤ length fs
    → k < 3
    → Reach own s fs v k (t, s1)
    → Returns (next_table (entry_at t (index k v)) s1) (Reach own s fs v (suc k))
unfolding Reach Down
Reach-next own s fs v k t s1 enough depth (own1, fs1, x, is, way) =
    let ((t2, s2), call, (own2, fs2, y, is2, leads)) =
      down own1 s1 fs1 k t v x.space is depth (omega (arith, x.uses.0)) in
    (
      (t2, s2),
      call,
      (
        own2,
        fs2,
        rw (← add_one k) (Grown-trans k 1 own own1 own2 s s1 s2 fs fs1 fs2 x y),
        is2,
        λ word' same m n e.
            ap (λ a. walk word' n 0 a v) y.extends.same_pml4
            ∙ way word' (SameAbove-before own1 own2 s1 s2 word' y.extends same) (suc m) n
                (omega arith)
            ∙ Leads-walk word' m k t v t2 (
                Leads-kept own2 s2.word word' k t v t2 same (y.extends.keeps t k _ is) depth leads),
      ),
    )

pub get_pt_entry-Found :
    (own : ℕ → Owner) (s : Mmu) (fs : List ℕ) (v : ℕ)
    → Space own s fs
    → v % 4096 ≡ 0
    → 3 ≤ length fs
    → Returns (get_pt_entry v s) (Found own s fs v)
unfolding get_pt_entry Reach
get_pt_entry-Found own s fs v space whole enough = rw whole (
    Returns-bind (Reach-next own s fs v 0 s.pml4 s enough (omega arith) start) λ (t1, s1) r1.
      Returns-bind (Reach-next own s fs v 1 t1 s1 enough (omega arith) r1) λ (t2, s2) r2.
        Returns-bind (Reach-next own s fs v 2 t2 s2 enough (omega arith) r2)
          λ (t3, s3) (own', fs', grown, is, way). (
            (entry_at t3 (index 3 v), s3),
            refl,
            record {
              new_own = own';
              left = fs';
              lowest = t3;
              grown = grown;
              is_entry = refl;
              is_table = is;
              reached = way;
            },
          ))
  where
    start : Reach own s fs v 0 (s.pml4, s)
    start = (
      own,
      fs,
      record { space = space; extends = Extends-refl own s; uses = (omega arith, λ a h. h) },
      space.tree.root,
      λ word' same m n e. walk_to word' n m s.pml4 v (omega arith),
    )
