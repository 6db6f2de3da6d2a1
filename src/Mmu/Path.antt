-- ===== src/Mmu/Path.antt =====
-- The lowest table on the way of an address, and the pages that wait for their first access.
use csc.Base.{
  ℕ, zero, suc, ◌+◌, ◌≡◌, ◌≢◌, refl, sym, ap, ◌∙◌, inl, inr, List, none, some, arith, ◌==◌,
  Bool-cases, ==→eq, ==→ne,
}
use mathlib.Core.Path.{ap₂}
use csc.Mmu.{Mmu, present, alloc, read_frame_addr, entry_at}
use csc.Mmu.Walk.{
  index, index-below, prefix, prefix_step, walk, walk-present, walk_absent, walk-zero, walk_here,
  Owner, table, Tree,
}
use csc.Mmu.Tables.{Space, Extends}
use csc.Mmu.Find.{SameAbove, Found}

-- The walk for `v` comes to the lowest table `t`.
abbrev pub Lowest : Mmu → ℕ → ℕ → Type 0
Lowest s v t = walk s.word 3 0 s.pml4 v ≡ some t

pub none_not_some {ℓ} : {A : Type ℓ} {a : A} → none ≢ some a
none_not_some e = ground arith

pub some-inj {ℓ} : {A : Type ℓ} {a b : A} → some a ≡ some b → a ≡ b
some-inj e = ground arith

-- A walk that arrives goes the same way where what is present stays.
pub walk-kept :
    (own : ℕ → Owner) (word word' : ℕ → ℕ) (pml4 : ℕ)
    → Tree own word pml4
    → SameAbove own word word'
    → (n k f v t : ℕ) → own f ≡ table k (prefix k v)
    → k + n ≡ 3
    → walk word n k f v ≡ some t
    → walk word' n k f v ≡ some t
walk-kept own word word' pml4 tree same zero k f v t is depth h = walk-zero word' word k f v ∙ h
walk-kept own word word' pml4 tree same (suc n) k f v t is depth h =
    elim (Bool-cases (present (word (entry_at f (index k v))) == 0)) [
      | inl e ↦ absurd (none_not_some (sym (walk_absent word n k f v (==→eq _ _ e)) ∙ h))
      | inr e ↦
          let there = ==→ne _ _ e in
          let same_entry = same f k _ (index k v) is (omega arith) (index-below k v) there in
          let on =
            walk-kept own word word' pml4 tree same n (suc k)
              (read_frame_addr (word (entry_at f (index k v)))) v t
              (tree.child f k _ (index k v) is (omega arith) (index-below k v) there
                ∙ ap (table (suc k)) (sym (prefix_step k v (omega arith))))
              (omega arith) (sym (walk-present word n k f v there) ∙ h) in
          walk-present word' n k f v (λ z. there (sym (ap present same_entry) ∙ z))
          ∙ ap (λ w. walk word' n (suc k) (read_frame_addr w) v) same_entry
          ∙ on
    ]

-- One more level.
pub walk_split :
    (word : ℕ → ℕ) (n k d f v t : ℕ)
    → k + n ≡ d
    → walk word n k f v ≡ some t
    → walk word (suc n) k f v ≡ walk word 1 d t v
walk_split word zero k d f v t depth h =
    let same_f : f ≡ t = some-inj (sym (walk_here word k f v) ∙ h) in
    let same_k : k ≡ d = omega arith in ap₂ (λ a b. walk word 1 a b v) same_k same_f
walk_split word (suc n) k d f v t depth h =
    elim (Bool-cases (present (word (entry_at f (index k v))) == 0)) [
      | inl e ↦ absurd (none_not_some (sym (walk_absent word n k f v (==→eq _ _ e)) ∙ h))
      | inr e ↦
          walk-present word (suc n) k f v (==→ne _ _ e)
          ∙ walk_split word n (suc k) d _ v t (omega arith)
              (sym (walk-present word n k f v (==→ne _ _ e)) ∙ h)
    ]

-- The page of `v` is not present, and is to be made on the first access.
pub record OnDemand (own : ℕ → Owner) (s : Mmu) (v : ℕ) : Type 0 where
  pub lowest : ℕ
  pub is_table : own lowest ≡ table 3 (prefix 3 v)
  pub reached : Lowest s v lowest
  pub absent : present (s.word (entry_at lowest (index 3 v))) ≡ 0
  pub demanded : alloc (s.word (entry_at lowest (index 3 v))) ≢ 0

pub Extends-above :
    (own own' : ℕ → Owner) (s s' : Mmu) → Extends own own' s s' → SameAbove own s.word s'.word
Extends-above own own' s s' x f k q i is upper small there = x.entries f k q i is small there

pub Extends-Lowest :
    (own own' : ℕ → Owner) (s s' : Mmu) (fs : List ℕ) (v t : ℕ)
    → Space own s fs
    → Extends own own' s s'
    → Lowest s v t
    → Lowest s' v t
Extends-Lowest own own' s s' fs v t space x low =
    ap (λ a. walk s'.word 3 0 a v) x.same_pml4
    ∙ walk-kept own s.word s'.word s.pml4 space.tree (Extends-above own own' s s' x) 3 0 s.pml4 v t
        space.tree.root refl low

pub Extends-OnDemand :
    (own own' : ℕ → Owner) (s s' : Mmu) (fs : List ℕ) (v : ℕ)
    → Space own s fs
    → Extends own own' s s'
    → OnDemand own s v
    → OnDemand own' s' v
Extends-OnDemand own own' s s' fs v space x d = record {
  lowest = d.lowest;
  is_table = x.keeps d.lowest 3 _ d.is_table;
  reached = Extends-Lowest own own' s s' fs v d.lowest space x d.reached;
  absent = ap present same ∙ d.absent;
  demanded = λ e. d.demanded (sym (ap alloc same) ∙ e);
}
  where
    same : s'.word (entry_at d.lowest (index 3 v)) ≡ s.word (entry_at d.lowest (index 3 v))
    same = x.pages d.lowest _ (index 3 v) d.is_table (index-below 3 v)

-- The table that get_pt_entry finds is the lowest one.
pub Found-Lowest :
    (own : ℕ → Owner) (s : Mmu) (fs : List ℕ) (v : ℕ) (r : ℕ × Mmu)
    → (found : Found own s fs v r) → Lowest r.1 v found.lowest
Found-Lowest own s fs v r found =
    found.reached r.1.word (λ f k q i is upper small there. refl) 0 3 refl
    ∙ walk_here r.1.word 3 found.lowest v
