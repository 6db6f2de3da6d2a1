-- ===== src/Mmu/Leaf.antt =====
-- A write to the entry of one page in the lowest table on its way.
use csc.Base.{
  ℕ, zero, suc, ◌+◌, ◌*◌, ◌<◌, ◌≡◌, ◌≢◌, refl, sym, ap, ◌∙◌, inl, inr, ◌⊎◌, List, some, arith, has,
  update_self, update_ne, ◌==◌, true, Bool-cases, ==→eq, ==→ne,
}
use mathlib.Core.Path.{ap₂}
use csc.Mmu.{Mmu, present, alloc, read_frame_addr, entry_at, write}
use csc.Mmu.Frames.{Stands-same}
use csc.Mmu.Walk.{
  index, index-below, prefix, prefix_step, walk, walk_last, walk-zero, walk-level, translate,
  page_of, Owner, table, table-inj, Idle-own, Idle-whole, table_not_idle,
}
use csc.Mmu.Tables.{Space, entry_apart}
use csc.Mmu.Find.{SameAbove}
use csc.Mmu.Path.{Lowest, OnDemand, walk-kept, walk_split}

-- `t` is the lowest table on the way of `v`, and `w` is written to the entry there.
module _ (own : ℕ → Owner) (s : Mmu) (fs : List ℕ) (space : Space own s fs) (v t w : ℕ)
    (is : own t ≡ table 3 (prefix 3 v)) where
  abbrev after : Mmu
  after = write (entry_at t (index 3 v)) w s

  -- Entries other than that one.
  other_entry :
      (f k q i : ℕ)
      → own f ≡ table k q
      → i < 512
      → ((k ≡ 3) × (q ≡ prefix 3 v) × (i ≡ index 3 v))
        ⊎ (after.word (entry_at f i) ≡ s.word (entry_at f i))
  other_entry f k q i is' small = elim (Bool-cases (entry_at f i == entry_at t (index 3 v))) [
    | inl e ↦
        let (same_f, same_i) =
          entry_apart f t i (index 3 v) (space.tree.whole f k q is') (space.tree.whole t 3 _ is)
            small (index-below 3 v) (==→eq _ _ e) in
        let (same_k, same_q) = table-inj k q 3 _ (sym is' ∙ ap own same_f ∙ is) in
        inl (same_k, same_q, same_i)
    | inr e ↦ inr (update_ne s.word _ w _ (==→ne _ _ e))
  ]

  above :
      (f k q i : ℕ)
      → own f ≡ table k q
      → k < 3
      → i < 512
      → after.word (entry_at f i) ≡ s.word (entry_at f i)
  above f k q i is' upper small = elim (other_entry f k q i is' small) [
    | inl (same_k, same_q, same_i) ↦ absurd (omega arith)
    | inr e ↦ e
  ]

  pub leaf-above : SameAbove own s.word after.word
  leaf-above f k q i is' upper small there = above f k q i is' upper small

  idle_apart : (a : ℕ) → has a fs ≡ true → a ≢ entry_at t (index 3 v)
  idle_apart a h e =
      let whole_a = Idle-whole own fs a space.idle_frames h in
      let same_a =
        entry_apart a t 0 (index 3 v) whole_a (space.tree.whole t 3 _ is) (omega arith)
          (index-below 3 v) (omega arith) in
      table_not_idle own t 3 _ a is (Idle-own own fs a space.idle_frames h) (sym same_a.0)

  pub leaf-Space : Space own after fs
  leaf-Space = record {
    tree = record {
      root = space.tree.root;
      child = λ f k q i is' upper small there.
          let e = above f k q i is' upper small in
          rw e (space.tree.child f k q i is' upper small (rw e at there));
      whole = space.tree.whole;
    };
    idle_frames = space.idle_frames;
    stands =
        Stands-same s after.word fs (λ a h. update_ne s.word _ w a (idle_apart a h)) space.stands;
  }

  -- The pages of other numbers keep their walk.
  leaf-other :
      (u n k f : ℕ)
      → prefix 4 u ≢ prefix 4 v
      → own f ≡ table k (prefix k u)
      → k + n ≡ 4
      → walk after.word n k f u ≡ walk s.word n k f u
  leaf-other u zero k f other is' depth = walk-zero after.word s.word k f u
  leaf-other u (suc zero) k f other is' depth =
      elim (other_entry f k _ (index k u) is' (index-below k u)) [
        | inl (same_k, same_q, same_i) ↦ absurd (
            other (
              prefix_step 3 u (omega arith)
              ∙ ap₂ (λ a b. a * 512 + b) (rw same_k at same_q) (rw same_k at same_i)
              ∙ sym (prefix_step 3 v (omega arith))))
        | inr e ↦
            walk-level s.word after.word zero k f u e
              (λ there. walk-zero after.word s.word (suc k) (read_frame_addr _) u)
      ]
  leaf-other u (suc (suc n)) k f other is' depth =
      walk-level s.word after.word (suc n) k f u
        (above f k _ (index k u) is' (omega arith) (index-below k u))
        (λ there.
          leaf-other u (suc n) (suc k) _ other
            (space.tree.child f k _ (index k u) is' (omega arith) (index-below k u) there
              ∙ ap (table (suc k)) (sym (prefix_step k u (omega arith))))
            (omega arith))

  pub leaf-translate : (u : ℕ) → prefix 4 u ≢ prefix 4 v → translate after u ≡ translate s u
  leaf-translate u other = leaf-other u 4 0 s.pml4 other space.tree.root refl

  pub leaf-Lowest : (u f : ℕ) → Lowest s u f → Lowest after u f
  leaf-Lowest u f low =
      walk-kept own s.word after.word s.pml4 space.tree leaf-above 3 0 s.pml4 u f space.tree.root
        refl low

  -- What the entry is now decides the translation of the page.
  pub leaf_here : Lowest s v t → present w ≢ 0 → translate after v ≡ some (read_frame_addr w)
  leaf_here low there =
      walk_split after.word 3 0 3 s.pml4 v t refl (leaf-Lowest v t low)
      ∙ walk_last after.word t v w (update_self s.word _ w) there

  -- Pages of other numbers stay on demand.
  pub leaf-OnDemand : (u : ℕ) → page_of u ≢ page_of v → OnDemand own s u → OnDemand own after u
  leaf-OnDemand u other d = record {
    lowest = d.lowest;
    is_table = d.is_table;
    reached = leaf-Lowest u d.lowest d.reached;
    absent = ap present same ∙ d.absent;
    demanded = λ e. d.demanded (sym (ap alloc same) ∙ e);
  }
    where
      same : after.word (entry_at d.lowest (index 3 u)) ≡ s.word (entry_at d.lowest (index 3 u))
      same = elim (other_entry d.lowest 3 _ (index 3 u) d.is_table (index-below 3 u)) [
        | inl (same_k, same_q, same_i) ↦ absurd (
            other (
              prefix_step 3 u (omega arith)
              ∙ ap₂ (λ a b. a * 512 + b) same_q same_i
              ∙ sym (prefix_step 3 v (omega arith))))
        | inr e ↦ e
      ]
