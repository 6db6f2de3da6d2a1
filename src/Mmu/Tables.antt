-- ===== src/Mmu/Tables.antt =====
-- A new table keeps the tables a tree, and leaves every translation as it was.
use csc.Base.{
  ℕ, zero, suc, ◌+◌, ◌*◌, ◌%◌, ◌<◌, ◌≡◌, ◌≢◌, refl, sym, ap, ◌∙◌, inl, inr, ◌⊎◌, List, ◌∷◌, none,
  arith, update, update_self, update_ne, ◌==◌, Bool-cases, ==→eq, ==→ne,
}
use csc.Mmu.{Mmu, present, read_frame_addr, entry_at}
use csc.Mmu.Frames.{Stands}
use csc.Mmu.Walk.{
  index, index-below, walk, walk_absent, walk-present, walk-level, walk-zero, Owner, table,
  table-inj, Tree, Idle, Idle-other, table_not_idle,
}
use csc.Mmu.Grow.{Outside, Made, table_entry-present, table_entry-frame}

-- The tables form a tree, and the allocator holds the idle frames `fs`.
pub record Space (own : ℕ → Owner) (s : Mmu) (fs : List ℕ) : Type 0 where
  pub tree : Tree own s.word s.pml4
  pub idle_frames : Idle own fs
  pub stands : Stands s fs

-- Tables may be added; what is present, the entries of the lowest tables and all translations stay.
pub record Extends (own own' : ℕ → Owner) (s s' : Mmu) : Type 0 where
  pub keeps : (f k q : ℕ) → own f ≡ table k q → own' f ≡ table k q
  pub entries :
      (f k q i : ℕ)
      → own f ≡ table k q
      → i < 512
      → present (s.word (entry_at f i)) ≢ 0
      → s'.word (entry_at f i) ≡ s.word (entry_at f i)
  pub pages :
      (f q i : ℕ) → own f ≡ table 3 q → i < 512 → s'.word (entry_at f i) ≡ s.word (entry_at f i)
  pub walks :
      (n k f q v : ℕ) → own f ≡ table k q → k + n ≡ 4 → walk s'.word n k f v ≡ walk s.word n k f v
  pub same_pml4 : s'.pml4 ≡ s.pml4
  pub same_bank : s'.virt_addr_bank ≡ s.virt_addr_bank

pub Extends-refl : (own : ℕ → Owner) (s : Mmu) → Extends own own s s
Extends-refl own s = record {
  keeps = λ f k q h. h;
  entries = λ f k q i h j p. refl;
  pages = λ f q i h j. refl;
  walks = λ n k f q v h e. refl;
  same_pml4 = refl;
  same_bank = refl;
}

pub Extends-trans :
    (own own1 own2 : ℕ → Owner) (s s1 s2 : Mmu)
    → Extends own own1 s s1
    → Extends own1 own2 s1 s2
    → Extends own own2 s s2
Extends-trans own own1 own2 s s1 s2 x y = record {
  keeps = λ f k q h. y.keeps f k q (x.keeps f k q h);
  entries = λ f k q i h j p.
      y.entries f k q i (x.keeps f k q h) j
        (λ z. p (ap present (sym (x.entries f k q i h j p)) ∙ z))
      ∙ x.entries f k q i h j p;
  pages = λ f q i h j. y.pages f q i (x.keeps f 3 q h) j ∙ x.pages f q i h j;
  walks = λ n k f q v h e. y.walks n k f q v (x.keeps f k q h) e ∙ x.walks n k f q v h e;
  same_pml4 = y.same_pml4 ∙ x.same_pml4;
  same_bank = y.same_bank ∙ x.same_bank;
}

-- Entries of pages that are aligned are the same only if the pages are.
pub entry_apart :
    (f f' i i' : ℕ)
    → f % 4096 ≡ 0
    → f' % 4096 ≡ 0
    → i < 512
    → i' < 512
    → entry_at f i ≡ entry_at f' i'
    → (f ≡ f') × (i ≡ i')
entry_apart f f' i i' whole whole' small small' e = (omega arith, omega arith)

pub entry-Outside :
    (f g i : ℕ) → f % 4096 ≡ 0 → g % 4096 ≡ 0 → f ≢ g → i < 512 → Outside g (entry_at f i)
entry-Outside f g i whole whole' other small = ground arith

-- The frame `g` becomes the table behind an entry.
abbrev pub with_table : (ℕ → Owner) → ℕ → ℕ → ℕ → ℕ → ℕ → Owner
with_table own g k q i = update own g (table (suc k) (q * 512 + i))

-- A table `g` was made for entry `i` of the table `f`, at depth `k` below the prefix `q`.
module _ (own : ℕ → Owner) (s s' : Mmu) (g : ℕ) (fs : List ℕ) (space : Space own s (g ∷ fs))
    (f k q i : ℕ) (is : own f ≡ table k q) (upper : k < 3) (small : i < 512)
    (absent : present (s.word (entry_at f i)) ≡ 0) (made : Made s s' (entry_at f i) g fs) where
  -- An entry of a table is the one that was made, or keeps its word.
  entry-cases :
      (f' k' q' i' : ℕ)
      → own f' ≡ table k' q'
      → i' < 512
      → ((f' ≡ f) × (i' ≡ i) × (k' ≡ k) × (q' ≡ q))
        ⊎ (s'.word (entry_at f' i') ≡ s.word (entry_at f' i'))
  entry-cases f' k' q' i' is' small' = elim (Bool-cases (entry_at f' i' == entry_at f i)) [
    | inl e ↦
        let (same_f, same_i) =
          entry_apart f' f i' i (whole f' k' q' is') (whole f k q is) small' small (==→eq _ _ e) in
        let (same_k, same_q) = table-inj k' q' k q (sym is' ∙ ap own same_f ∙ is) in
        inl (same_f, same_i, same_k, same_q)
    | inr e ↦ inr (
        made.same (entry_at f' i') (==→ne _ _ e) (
          entry-Outside f' g i' (whole f' k' q' is') space.idle_frames.1
            (table_not_idle own f' k' q' g is' space.idle_frames.0) small'))
  ]
    where
      whole : (f k q : ℕ) → own f ≡ table k q → f % 4096 ≡ 0
      whole = space.tree.whole

  new_absent : (i' : ℕ) → i' < 512 → present (s'.word (entry_at g i')) ≡ 0
  new_absent i' small' = ap present (made.cleared (entry_at g i') (omega arith) (omega arith))

  pub new_entry :
      (present (s'.word (entry_at f i)) ≢ 0) × (read_frame_addr (s'.word (entry_at f i)) ≡ g)
  new_entry = (
    λ z. omega (arith, z, ap present made.entry, table_entry-present g (s.word (entry_at f i))),
    ap read_frame_addr made.entry ∙ table_entry-frame g _ space.idle_frames.1 space.idle_frames.3,
  )

  -- Where the new table hangs there was no walk before, and there is none now.
  new_walk : (n v : ℕ) → index k v ≡ i → walk s'.word (suc (suc n)) k f v ≡ none
  new_walk n v at =
      walk-present s'.word (suc n) k f v (rw at new_entry.0)
      ∙ ap (λ (t : ℕ). walk s'.word (suc n) (suc k) t v) (rw at new_entry.1)
      ∙ walk_absent s'.word n (suc k) g v (new_absent (index (suc k) v) (index-below (suc k) v))

  old_walk : (n v : ℕ) → index k v ≡ i → walk s.word (suc n) k f v ≡ none
  old_walk n v at = walk_absent s.word n k f v (rw at absent)

  walk_same :
      (n k' f' q' v : ℕ)
      → own f' ≡ table k' q'
      → k' + n ≡ 4
      → walk s'.word n k' f' v ≡ walk s.word n k' f' v
  walk_same zero k' f' q' v is' depth = walk-zero s'.word s.word k' f' v
  walk_same (suc zero) k' f' q' v is' depth =
      elim (entry-cases f' k' q' (index k' v) is' (index-below k' v)) [
        | inl (same_f, same_i, same_k, same_q) ↦ absurd (omega arith)
        | inr e ↦
            walk-level s.word s'.word zero k' f' v e
              (λ there. walk-zero s'.word s.word (suc k') (read_frame_addr _) v)
      ]
  walk_same (suc (suc n)) k' f' q' v is' depth =
      elim (entry-cases f' k' q' (index k' v) is' (index-below k' v)) [
        | inl (same_f, same_i, same_k, same_q) ↦
            let at : index k v ≡ i = ap (λ j. index j v) (sym same_k) ∙ same_i in
            rw (same_f, same_k) (new_walk n v at ∙ sym (old_walk (suc n) v at))
        | inr e ↦ walk-level s.word s'.word (suc n) k' f' v e (λ there.
            walk_same (suc n) (suc k') _ _ v
              (space.tree.child f' k' q' (index k' v) is' (omega arith) (index-below k' v) there)
              (omega arith))
      ]

  keep : (f' k' q' : ℕ) → own f' ≡ table k' q' → with_table own g k q i f' ≡ table k' q'
  keep f' k' q' h = update_ne own g _ f' (table_not_idle own f' k' q' g h space.idle_frames.0) ∙ h

  pub made-Extends : Extends own (with_table own g k q i) s s'
  made-Extends = record {
    keeps = keep;
    entries = λ f' k' q' i' is' small' there. elim (entry-cases f' k' q' i' is' small') [
      | inl (same_f, same_i, same_k, same_q) ↦ absurd (there (rw (same_f, same_i) absent))
      | inr e ↦ e
    ];
    pages = λ f' q' i' is' small'. elim (entry-cases f' 3 q' i' is' small') [
      | inl (same_f, same_i, same_k, same_q) ↦ absurd (omega arith)
      | inr e ↦ e
    ];
    walks = walk_same;
    same_pml4 = made.same_pml4;
    same_bank = made.same_bank;
  }

  -- An entry of an old table that is present now leads one level down.
  old_child :
      (f' k' q' i' : ℕ)
      → own f' ≡ table k' q'
      → k' < 3
      → i' < 512
      → present (s'.word (entry_at f' i')) ≢ 0
      → with_table own g k q i (read_frame_addr (s'.word (entry_at f' i')))
        ≡ table (suc k') (q' * 512 + i')
  old_child f' k' q' i' is' upper' small' there = elim (entry-cases f' k' q' i' is' small') [
    | inl (same_f, same_i, same_k, same_q) ↦
        rw (same_f, same_i, same_k, same_q, new_entry.1) (update_self own g _)
    | inr e ↦ rw e (keep _ _ _ (space.tree.child f' k' q' i' is' upper' small' (rw e at there)))
  ]

  made-Tree : Tree (with_table own g k q i) s'.word s'.pml4
  made-Tree = record {
    root = ap (with_table own g k q i) made.same_pml4 ∙ keep s.pml4 0 0 space.tree.root;
    child = λ f' k' q' i' is' upper' small' there. elim (Bool-cases (f' == g)) [
      | inl e ↦ absurd (there (rw (==→eq f' g e) (new_absent i' small')))
      | inr e ↦
          old_child f' k' q' i' (sym (update_ne own g _ f' (==→ne f' g e)) ∙ is') upper' small'
            there
    ];
    whole = λ f' k' q' is'. elim (Bool-cases (f' == g)) [
      | inl e ↦ rw (==→eq f' g e) space.idle_frames.1
      | inr e ↦ space.tree.whole f' k' q' (sym (update_ne own g _ f' (==→ne f' g e)) ∙ is')
    ];
  }

  pub made-Space : Space (with_table own g k q i) s' fs
  made-Space = record {
    tree = made-Tree;
    idle_frames = Idle-other own g _ fs space.idle_frames.4 space.idle_frames.5;
    stands = made.stands;
  }
