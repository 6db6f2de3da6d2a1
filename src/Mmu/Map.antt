-- ===== src/Mmu/Map.antt =====
-- map_page and virt_to_phys of mmu_driver.c.
use csc.Base.{
  ℕ, ◌+◌, ◌%◌, ◌^◌, ◌≤◌, ◌<◌, ◌≡◌, ◌≢◌, refl, sym, ap, ◌∙◌, inl, inr, List, Option, none, some,
  arith, length, null, ◌==◌, Bool-cases, ==→eq, ==→ne,
}
use csc.Base.Outcome.{Returns, Returns-bind}
use csc.Mmu.{Mmu, present, read_frame_addr, entry_at, write, page_entry, map_page, virt_to_phys}
use csc.Mmu.Walk.{
  index, prefix, walk, walk_last, walk-none, walk_absent, translate, page_of, Owner, table,
}
use csc.Mmu.Tables.{Space}
use csc.Mmu.Down.{Uses}
use csc.Mmu.Find.{Found, get_pt_entry-Found}
use csc.Mmu.Path.{Lowest, OnDemand, Found-Lowest, Extends-Lowest, Extends-OnDemand}
use csc.Mmu.Leaf.{leaf-Lowest, leaf-OnDemand, leaf-Space, leaf-translate, leaf_here}

-- A call that works on the page of `v`, and uses at most `n` frames, leaves the tables well formed and
-- every other page with the translation of before, on demand if it was so.
pub record Changed (n : ℕ) (own own' : ℕ → Owner) (s s' : Mmu) (fs fs' : List ℕ) (v : ℕ)
    : Type 0 where
  pub space : Space own' s' fs'
  pub uses : Uses n fs fs'
  pub keeps : (f k q : ℕ) → own f ≡ table k q → own' f ≡ table k q
  pub lowest : (u t : ℕ) → Lowest s u t → Lowest s' u t
  pub elsewhere : (u : ℕ) → page_of u ≢ page_of v → translate s' u ≡ translate s u
  pub waiting : (u : ℕ) → page_of u ≢ page_of v → OnDemand own s u → OnDemand own' s' u

pub Changed-trans :
    (m n : ℕ) (own own1 own2 : ℕ → Owner) (s s1 s2 : Mmu) (fs fs1 fs2 : List ℕ) (v : ℕ)
    → Changed m own own1 s s1 fs fs1 v
    → Changed n own1 own2 s1 s2 fs1 fs2 v
    → Changed (m + n) own own2 s s2 fs fs2 v
Changed-trans m n own own1 own2 s s1 s2 fs fs1 fs2 v x y = record {
  space = y.space;
  uses = (omega (arith, x.uses.0, y.uses.0), λ a h. x.uses.1 a (y.uses.1 a h));
  keeps = λ f k q h. y.keeps f k q (x.keeps f k q h);
  lowest = λ u t h. y.lowest u t (x.lowest u t h);
  elsewhere = λ u other. y.elsewhere u other ∙ x.elsewhere u other;
  waiting = λ u other h. y.waiting u other (x.waiting u other h);
}

-- A write to the entry of the page in its lowest table.
pub write-Changed :
    (own : ℕ → Owner) (s : Mmu) (fs : List ℕ) (v t w : ℕ)
    → Space own s fs
    → own t ≡ table 3 (prefix 3 v)
    → Changed 0 own own s (write (entry_at t (index 3 v)) w s) fs fs v
write-Changed own s fs v t w space is = record {
  space = leaf-Space own s fs space v t w is;
  uses = (omega arith, λ a h. h);
  keeps = λ f k q h. h;
  lowest = leaf-Lowest own s fs space v t w is;
  elsewhere = leaf-translate own s fs space v t w is;
  waiting = leaf-OnDemand own s fs space v t w is;
}

-- get_pt_entry changes no translation.
pub Found-translate :
    (own : ℕ → Owner) (s : Mmu) (fs : List ℕ) (v : ℕ) (r : ℕ × Mmu)
    → Space own s fs
    → Found own s fs v r
    → (u : ℕ) → translate r.1 u ≡ translate s u
Found-translate own s fs v r space found u =
    ap (λ a. walk r.1.word 4 0 a u) found.grown.extends.same_pml4
    ∙ found.grown.extends.walks 4 0 s.pml4 0 u space.tree.root refl

pub Found-Changed :
    (own : ℕ → Owner) (s : Mmu) (fs : List ℕ) (v : ℕ) (r : ℕ × Mmu)
    → Space own s fs
    → (found : Found own s fs v r) → Changed 3 own found.new_own s r.1 fs found.left v
Found-Changed own s fs v r space found = record {
  space = found.grown.space;
  uses = found.grown.uses;
  keeps = found.grown.extends.keeps;
  lowest = λ u t h. Extends-Lowest own found.new_own s r.1 fs u t space found.grown.extends h;
  elsewhere = λ u other. Found-translate own s fs v r space found u;
  waiting = λ u other h. Extends-OnDemand own found.new_own s r.1 fs u space found.grown.extends h;
}

-- A write to the entry that was found.
pub Found-write :
    (own : ℕ → Owner) (s : Mmu) (fs : List ℕ) (v w : ℕ) (r : ℕ × Mmu)
    → Space own s fs
    → (found : Found own s fs v r) → Changed 3 own found.new_own s (write r.0 w r.1) fs found.left v
Found-write own s fs v w r space found = rw found.is_entry (
    Changed-trans 3 0 own found.new_own found.new_own s r.1 _ fs found.left found.left v
      (Found-Changed own s fs v r space found)
      (write-Changed found.new_own r.1 found.left v found.lowest w found.grown.space
        found.is_table))

pub Found-here :
    (own : ℕ → Owner) (s : Mmu) (fs : List ℕ) (v w : ℕ) (r : ℕ × Mmu)
    → Found own s fs v r
    → present w ≢ 0
    → translate (write r.0 w r.1) v ≡ some (read_frame_addr w)
Found-here own s fs v w r found there = rw found.is_entry (
    leaf_here found.new_own r.1 found.left found.grown.space v found.lowest w found.is_table
      (Found-Lowest own s fs v r found) there)

-- The entry that was found tells the translation.
pub Found-entry :
    (own : ℕ → Owner) (s : Mmu) (fs : List ℕ) (v : ℕ) (r : ℕ × Mmu)
    → Space own s fs
    → (found : Found own s fs v r) → walk r.1.word 1 3 found.lowest v ≡ translate s v
Found-entry own s fs v r space found =
    sym (found.reached r.1.word (λ f k q i is upper small there. refl) 1 4 refl)
    ∙ Found-translate own s fs v r space found v

-- The page of `v` is not there, so neither is its entry.
pub Found-absent :
    (own : ℕ → Owner) (s : Mmu) (fs : List ℕ) (v : ℕ) (r : ℕ × Mmu)
    → Space own s fs
    → Found own s fs v r
    → translate s v ≡ none
    → present (r.1.word r.0) ≡ 0
Found-absent own s fs v r space found unmapped =
    rw found.is_entry
      (walk-none r.1.word found.lowest v (Found-entry own s fs v r space found ∙ unmapped))

page_entry-present : (p : ℕ) → present (page_entry p) ≢ 0
page_entry-present p e = omega arith

page_entry-frame : (p : ℕ) → p % 4096 ≡ 0 → p < 2 ^ 52 → read_frame_addr (page_entry p) ≡ p
page_entry-frame p whole below = omega arith

-- A call on the page of `v` that maps it to the frame `p`.
abbrev pub Maps : ℕ → (ℕ → Owner) → Mmu → List ℕ → ℕ → ℕ → Mmu → Type 0
Maps n own s fs v p s' =
    (own' : ℕ → Owner) × (fs' : List ℕ) × Changed n own own' s s' fs fs' v
    × (translate s' v ≡ some p)

-- map_page of a page that is not mapped, to an aligned frame below 2^52, returns: the page is then
-- translated to that frame, every other page as before, the tables form a tree again, and pages
-- that wait for their first access still do. The tables form a tree, and the allocator holds idle
-- frames, each once, three at least.
pub map_page-translate :
    (own : ℕ → Owner) (s : Mmu) (fs : List ℕ) (p v : ℕ)
    → Space own s fs
    → 3 ≤ length fs
    → p % 4096 ≡ 0
    → p < 2 ^ 52
    → v % 4096 ≡ 0
    → translate s v ≡ none
    → Returns (map_page p v s) (Maps 3 own s fs v p)
unfolding map_page
map_page-translate own s fs p v space enough whole_p below whole_v unmapped = rw whole_p (
    Returns-bind (get_pt_entry-Found own s fs v space whole_v enough) λ r found.
      let absent = Found-absent own s fs v r space found unmapped in
      rw absent (
        write r.0 (page_entry p) r.1,
        refl,
        (
          found.new_own,
          found.left,
          Found-write own s fs v (page_entry p) r space found,
          Found-here own s fs v (page_entry p) r found (page_entry-present p)
              ∙ ap some (page_entry-frame p whole_p below),
        ),
      ))

abbrev pub or_null : Option ℕ → ℕ
or_null none = null
or_null (some p) = p

pub Found-none :
    (own : ℕ → Owner) (s : Mmu) (fs : List ℕ) (v : ℕ) (r : ℕ × Mmu)
    → Space own s fs
    → Found own s fs v r
    → present (r.1.word r.0) ≡ 0
    → translate s v ≡ none
Found-none own s fs v r space found absent =
    sym (Found-entry own s fs v r space found)
    ∙ walk_absent r.1.word 0 3 found.lowest v (rw (← found.is_entry) absent)

pub Found-some :
    (own : ℕ → Owner) (s : Mmu) (fs : List ℕ) (v : ℕ) (r : ℕ × Mmu)
    → Space own s fs
    → Found own s fs v r
    → present (r.1.word r.0) ≢ 0
    → translate s v ≡ some (read_frame_addr (r.1.word r.0))
Found-some own s fs v r space found there =
    sym (Found-entry own s fs v r space found)
    ∙ walk_last r.1.word found.lowest v (r.1.word r.0) (ap r.1.word (sym found.is_entry)) there

-- virt_to_phys of the start of a page returns, with the frame that the processor's walk of the
-- tables comes to, or NULL if it comes to none; no translation changes, although tables may be
-- made on the way. The tables form a tree, and the allocator holds idle frames, each once, three
-- at least.
pub virt_to_phys-translate :
    (own : ℕ → Owner) (s : Mmu) (fs : List ℕ) (v : ℕ)
    → Space own s fs
    → 3 ≤ length fs
    → v % 4096 ≡ 0
    → Returns (virt_to_phys v s) λ (r : ℕ × Mmu).
      (r.0 ≡ or_null (translate s v))
      × ((u : ℕ) → translate r.1 u ≡ translate s u)
      × ((own' : ℕ → Owner) × (fs' : List ℕ) × Space own' r.1 fs' × (length fs ≤ 3 + length fs'))
unfolding virt_to_phys
virt_to_phys-translate own s fs v space enough whole =
    Returns-bind (get_pt_entry-Found own s fs v space whole enough) λ r found.
      let same = Found-translate own s fs v r space found in
      elim (Bool-cases (present (r.1.word r.0) == 0)) [
        | inl e ↦
            rw (e, Found-none own s fs v r space found (==→eq _ _ e))
              (
                (null, r.1),
                refl,
                (refl, same, (found.new_own, found.left, found.grown.space, found.grown.uses.0)),
              )
        | inr e ↦
            rw (e, whole, Found-some own s fs v r space found (==→ne _ _ e))
              (
                (read_frame_addr (r.1.word r.0) + 0, r.1),
                refl,
                (
                  omega arith,
                  same,
                  (found.new_own, found.left, found.grown.space, found.grown.uses.0),
                ),
              )
      ]
