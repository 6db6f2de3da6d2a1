-- ===== src/Mmu/Freed.antt =====
-- MMU_free_page of mmu_driver.c: the frame of a page goes back to the allocator.
use csc.Base.{
  ℕ, zero, suc, ◌+◌, ◌%◌, ◌^◌, ◌<◌, ◌≤◌, ◌≡◌, ◌≢◌, refl, sym, ap, ◌∙◌, inl, inr, List, ◌∷◌, none,
  some, arith, has, update, update_self, update_ne, ◌==◌, false, Bool-cases, ==→eq, ==→ne, ne→==,
}
use csc.Base.Outcome.{ok, Returns}
use csc.Mmu.{
  Mmu, present, alloc, read_frame_addr, entry_at, write, next_table, get_pt_entry, mmu_pf_free,
  mmu_free_page,
}
use csc.Mmu.Frames.{put, put-Stands, mmu_pf_free-put}
use csc.Mmu.Walk.{
  index, index-below, prefix, prefix_step, walk, walk_absent, walk-present, walk-level, walk-zero,
  translate, page_of, Owner, page, idle, table, Tree, Idle-own, Idle-other, walk_here,
}
use csc.Mmu.Tables.{Space, entry_apart}
use csc.Mmu.Path.{Lowest, OnDemand, walk_split, none_not_some, some-inj}
use csc.Mmu.Leaf.{leaf-Lowest, leaf-OnDemand, leaf-Space, leaf-translate}

-- A walk that arrives goes over an entry that is present.
walk_on :
    (own : ℕ → Owner) (word : ℕ → ℕ) (pml4 : ℕ)
    → Tree own word pml4
    → (n k f v g : ℕ) → own f ≡ table k (prefix k v)
    → walk word (suc n) k f v ≡ some g
    → (present (word (entry_at f (index k v))) ≢ 0)
      × (walk word n (suc k) (read_frame_addr (word (entry_at f (index k v)))) v ≡ some g)
      × (k < 3
          → own (read_frame_addr (word (entry_at f (index k v))))
            ≡ table (suc k) (prefix (suc k) v))
walk_on own word pml4 tree n k f v g is arrives =
    elim (Bool-cases (present (word (entry_at f (index k v))) == 0)) [
      | inl e ↦ absurd (none_not_some (sym (walk_absent word n k f v (==→eq _ _ e)) ∙ arrives))
      | inr e ↦
          let there = ==→ne _ _ e in
          (
            there,
            sym (walk-present word n k f v there) ∙ arrives,
            λ upper.
                tree.child f k _ (index k v) is upper (index-below k v) there
                ∙ ap (table (suc k)) (sym (prefix_step k v (omega arith))),
          )
    ]

next_table-there :
    (e : ℕ) (s : Mmu) → present (s.word e) ≢ 0 → next_table e s ≡ ok (read_frame_addr (s.word e), s)
unfolding next_table
next_table-there e s there = rw (ne→== _ 0 there) refl

-- The entry of a page that is mapped, and the table that it is in.
abbrev InTable : (ℕ → Owner) → Mmu → ℕ → ℕ → ℕ → Type 0
InTable own s v g t =
    (own t ≡ table 3 (prefix 3 v))
    × Lowest s v t
    × (read_frame_addr (s.word (entry_at t (index 3 v))) ≡ g)
    × (get_pt_entry v s ≡ ok (entry_at t (index 3 v), s))

-- get_pt_entry of a page that is mapped makes no table.
get_pt_entry-there :
    (own : ℕ → Owner) (s : Mmu) (v g : ℕ)
    → Tree own s.word s.pml4
    → v % 4096 ≡ 0
    → translate s v ≡ some g
    → (t : ℕ) × InTable own s v g t
unfolding get_pt_entry
get_pt_entry-there own s v g tree whole mapped =
    let (p0, w1, is1) = walk_on own s.word s.pml4 tree 3 0 s.pml4 v g tree.root mapped in
    let (p1, w2, is2) = walk_on own s.word s.pml4 tree 2 1 _ v g (is1 (omega arith)) w1 in
    let (p2, w3, is3) = walk_on own s.word s.pml4 tree 1 2 _ v g (is2 (omega arith)) w2 in
    let (p3, w4, is4) = walk_on own s.word s.pml4 tree 0 3 _ v g (is3 (omega arith)) w3 in
    (
      _,
      (
        is3 (omega arith),
        walk-present s.word 2 0 s.pml4 v p0
            ∙ walk-present s.word 1 1 _ v p1
            ∙ walk-present s.word 0 2 _ v p2
            ∙ walk_here s.word 3 _ v,
        some-inj (sym (walk_here s.word 4 _ v) ∙ w4),
        rw (whole, next_table-there _ s p0, next_table-there _ s p1, next_table-there _ s p2) refl,
      ),
    )

-- A walk reads the entries of tables only.
same_tables-walk :
    (own : ℕ → Owner) (word word' : ℕ → ℕ) (pml4 : ℕ)
    → Tree own word pml4
    → ((f k q i : ℕ) → own f ≡ table k q → i < 512 → word' (entry_at f i) ≡ word (entry_at f i))
    → (n k f v : ℕ) → own f ≡ table k (prefix k v)
    → k + n ≤ 4
    → walk word' n k f v ≡ walk word n k f v
same_tables-walk own word word' pml4 tree same zero k f v is depth = walk-zero word' word k f v
same_tables-walk own word word' pml4 tree same (suc zero) k f v is depth =
    walk-level word word' zero k f v (same f k _ (index k v) is (index-below k v))
      (λ there. walk-zero word' word (suc k) (read_frame_addr _) v)
same_tables-walk own word word' pml4 tree same (suc (suc n)) k f v is depth =
    walk-level word word' (suc n) k f v (same f k _ (index k v) is (index-below k v)) (λ there.
      same_tables-walk own word word' pml4 tree same (suc n) (suc k) _ v
        (tree.child f k _ (index k v) is (omega arith) (index-below k v) there
          ∙ ap (table (suc k)) (sym (prefix_step k v (omega arith))))
        (omega arith))

-- The frame `g` of a page is put back.
module _ (own : ℕ → Owner) (s : Mmu) (fs : List ℕ) (space : Space own s fs) (g : ℕ)
    (is_page : own g ≡ page) (whole : g % 4096 ≡ 0) (pos : 0 < g) (below : g < 2 ^ 40) where
  abbrev freed : ℕ → Owner
  freed = update own g idle

  not_table : (f k q : ℕ) → own f ≡ table k q → f ≢ g
  not_table f k q h e = ground (arith, h, is_page, ap own e)

  keep : (f k q : ℕ) → own f ≡ table k q → freed f ≡ table k q
  keep f k q h = update_ne own g idle f (not_table f k q h) ∙ h

  was : (f k q : ℕ) → freed f ≡ table k q → own f ≡ table k q
  was f k q h = elim (Bool-cases (f == g)) [
    | inl e ↦
        absurd (idle_not_table (sym (update_self own g idle) ∙ ap freed (sym (==→eq f g e)) ∙ h))
    | inr e ↦ sym (update_ne own g idle f (==→ne f g e)) ∙ h
  ]
    where
      idle_not_table : idle ≢ table k q
      idle_not_table e = ground arith

  same_tables :
      (f k q i : ℕ)
      → own f ≡ table k q
      → i < 512
      → (put g s).word (entry_at f i) ≡ s.word (entry_at f i)
  same_tables f k q i is small = update_ne s.word g _ _ λ e.
      not_table f k q is
        (entry_apart f g i 0 (space.tree.whole f k q is) whole small (omega arith)
          (omega (arith, e))).0

  not_held : has g fs ≡ false
  not_held = elim (Bool-cases (has g fs)) [
    | inl e ↦ absurd (page_not_idle (sym is_page ∙ Idle-own own fs g space.idle_frames e))
    | inr e ↦ e
  ]
    where
      page_not_idle : page ≢ idle
      page_not_idle e = ground arith

  put-Space : Space freed (put g s) (g ∷ fs)
  put-Space = record {
    tree = record {
      root = keep s.pml4 0 0 space.tree.root;
      child = λ f k q i is upper small there.
          let h = was f k q is in
          let e = same_tables f k q i h small in
          rw e (keep _ _ _ (space.tree.child f k q i h upper small (rw e at there)));
      whole = λ f k q h. space.tree.whole f k q (was f k q h);
    };
    idle_frames = (
      update_self own g idle,
      whole,
      pos,
      omega arith,
      not_held,
      Idle-other own g idle fs not_held space.idle_frames,
    );
    stands = put-Stands s fs g space.stands pos not_held;
  }

  put-walk : (n u : ℕ) → n ≤ 4 → walk (put g s).word n 0 s.pml4 u ≡ walk s.word n 0 s.pml4 u
  put-walk n u few =
      same_tables-walk own s.word (put g s).word s.pml4 space.tree same_tables n 0 s.pml4 u
        space.tree.root (omega arith)

  put-OnDemand : (u : ℕ) → OnDemand own s u → OnDemand freed (put g s) u
  put-OnDemand u d = record {
    lowest = d.lowest;
    is_table = keep d.lowest 3 _ d.is_table;
    reached = put-walk 3 u (omega arith) ∙ d.reached;
    absent = ap present same ∙ d.absent;
    demanded = λ e. d.demanded (sym (ap alloc same) ∙ e);
  }
    where
      same : (put g s).word (entry_at d.lowest (index 3 u)) ≡ s.word (entry_at d.lowest (index 3 u))
      same = same_tables d.lowest 3 _ (index 3 u) d.is_table (index-below 3 u)

-- The page of `v` is gone, and its frame `g` is the first that the allocator holds.
abbrev pub Unmaps : (ℕ → Owner) → Mmu → List ℕ → ℕ → ℕ → Mmu → Type 0
Unmaps own s fs v g s' =
    let own' = update own g idle in
    Space own' s' (g ∷ fs)
    × (translate s' v ≡ none)
    × ((u : ℕ) → page_of u ≢ page_of v → translate s' u ≡ translate s u)
    × ((u : ℕ) → page_of u ≢ page_of v → OnDemand own s u → OnDemand own' s' u)

mmu_free_page-at :
    (s : Mmu) (v e g : ℕ)
    → v % 4096 ≡ 0
    → get_pt_entry v s ≡ ok (e, s)
    → read_frame_addr (s.word e) ≡ g
    → mmu_pf_free g s ≡ ok (put g s)
    → mmu_free_page v s ≡ ok (write e 0 (put g s))
unfolding mmu_free_page
mmu_free_page-at s v e g whole call frame frees = rw (whole, call, frame, frees) refl

-- MMU_free_page of a page that is translated to a frame of its own, aligned and between 0 and
-- 2^40, returns: the page is then not translated, and the frame is the first that the allocator
-- holds; every other page is translated as before, and those that wait for their first access
-- still do. The tables form a tree before and after, and the allocator holds idle frames, each
-- once.
pub mmu_free_page-Unmaps :
    (own : ℕ → Owner) (s : Mmu) (fs : List ℕ) (v g : ℕ)
    → Space own s fs
    → v % 4096 ≡ 0
    → translate s v ≡ some g
    → own g ≡ page
    → g % 4096 ≡ 0
    → 0 < g
    → g < 2 ^ 40
    → Returns (mmu_free_page v s) (Unmaps own s fs v g)
mmu_free_page-Unmaps own s fs v g space whole_v mapped is_page whole pos below =
    let (t, (is, low, frame, call)) = get_pt_entry-there own s v g space.tree whole_v mapped in
    let e = entry_at t (index 3 v) in
    let space1 = put-Space own s fs space g is_page whole pos below in
    let is1 = keep own s fs space g is_page whole pos below t 3 _ is in
    let walks = put-walk own s fs space g is_page whole pos below in
    let low1 =
      leaf-Lowest (update own g idle) (put g s) (g ∷ fs) space1 v t 0 is1 v t
        (walks 3 v (omega arith) ∙ low) in
    let s' = write e 0 (put g s) in
    (
      s',
      mmu_free_page-at s v e g whole_v call frame (mmu_pf_free-put s g whole pos below),
      (
        leaf-Space (update own g idle) (put g s) (g ∷ fs) space1 v t 0 is1,
        walk_split s'.word 3 0 3 s.pml4 v t refl low1
            ∙ walk_absent s'.word 0 3 t v (ap present (update_self (put g s).word e 0)),
        λ u other.
            leaf-translate (update own g idle) (put g s) (g ∷ fs) space1 v t 0 is1 u other
            ∙ walks 4 u (omega arith),
        λ u other d.
            leaf-OnDemand (update own g idle) (put g s) (g ∷ fs) space1 v t 0 is1 u other
              (put-OnDemand own s fs space g is_page whole pos below u d),
      ),
    )
