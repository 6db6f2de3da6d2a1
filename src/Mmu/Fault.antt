-- ===== src/Mmu/Fault.antt =====
-- page_fault_irq of mmu_driver.c on a page that waits for its first access.
use csc.Base.{
  ℕ, ◌*◌, ◌/◌, ◌%◌, ◌≤◌, ◌≡◌, ◌≢◌, refl, sym, ap, inl, inr, ◌∙◌, List, some, arith, has, length,
  ◌==◌, true, Bool-cases, ==→eq, ==→ne, ne→==,
}
use csc.Base.Outcome.{ok, Returns}
use csc.Mmu.{
  Mmu, present, alloc, set_alloc, set_writable, read_frame_addr, entry_at, write, get_pt_entry,
  map_page, mmu_pf_alloc, page_fault_irq,
}
use csc.Mmu.Walk.{index, prefix, walk_last, walk_absent, translate, Owner, table}
use csc.Mmu.Tables.{Space}
use csc.Mmu.Find.{get_pt_entry-Found}
use csc.Mmu.Path.{Lowest, OnDemand, Found-Lowest, walk_split, none_not_some}
use csc.Mmu.Leaf.{leaf_here}
use csc.Mmu.Map.{
  Changed, Changed-trans, write-Changed, Found-Changed, Found-translate, Found-none, Maps,
  map_page-translate,
}
use csc.Mmu.Pages.{store_twice}
use csc.Mmu.Taken.{Found-demanded, mmu_pf_alloc-Taken}

abbrev finish : ℕ → ℕ
finish w = set_writable 1 (set_alloc 0 w)

page_fault-found :
    (s : Mmu) (cr2 v e : ℕ) (r : ℕ × Mmu) (g : ℕ) (s1 s2 : Mmu)
    → cr2 / 4096 * 4096 ≡ v
    → r.0 ≡ e
    → get_pt_entry v s ≡ ok r
    → present (r.1.word r.0) ≡ 0
    → alloc (r.1.word r.0) ≢ 0
    → mmu_pf_alloc r.1 ≡ ok (g, s1)
    → map_page g v s1 ≡ ok s2
    → page_fault_irq cr2 s ≡ ok (write e (finish (s2.word e)) s2)
unfolding page_fault_irq
page_fault-found s cr2 v e r g s1 s2 is_v is_e found absent demanded takes maps =
    rw (is_v, found, absent, ne→== _ 0 demanded, takes, maps)
      (ap (λ (f : ℕ → ℕ). ok (record s2 { word = f }))
        (store_twice s2.word r.0 (set_alloc 0 (s2.word r.0)) (set_writable 1)))
    ∙ ap (λ a. ok (write a (finish (s2.word a)) s2)) is_e

finish-present : (w : ℕ) → present w ≢ 0 → present (finish w) ≢ 0
finish-present w there e = there (omega arith)

finish-frame : (w : ℕ) → read_frame_addr (finish w) ≡ read_frame_addr w
finish-frame w = omega arith

-- What is stored behind the mapping keeps the frame of the page.
finish-Changed :
    (own : ℕ → Owner) (s : Mmu) (fs : List ℕ) (v t g : ℕ)
    → Space own s fs
    → own t ≡ table 3 (prefix 3 v)
    → Lowest s v t
    → translate s v ≡ some g
    → let e = entry_at t (index 3 v) in
      Changed 0 own own s (write e (finish (s.word e)) s) fs fs v
      × (translate (write e (finish (s.word e)) s) v ≡ some g)
finish-Changed own s fs v t g space is low maps =
    let at = sym (walk_split s.word 3 0 3 s.pml4 v t refl low) ∙ maps in
    let w = s.word (entry_at t (index 3 v)) in
    elim (Bool-cases (present w == 0)) [
      | inl e ↦ absurd (none_not_some (sym (walk_absent s.word 0 3 t v (==→eq _ _ e)) ∙ at))
      | inr e ↦
          let there = ==→ne _ _ e in
          (
            write-Changed own s fs v t (finish w) space is,
            leaf_here own s fs space v t (finish w) is low (finish-present w there)
                ∙ ap some (finish-frame w)
                ∙ sym (walk_last s.word t v w refl there)
                ∙ at,
          )
    ]

page_fault-at :
    (own : ℕ → Owner) (s : Mmu) (fs : List ℕ) (cr2 v : ℕ)
    → cr2 / 4096 * 4096 ≡ v
    → Space own s fs
    → 7 ≤ length fs
    → v % 4096 ≡ 0
    → OnDemand own s v
    → Returns
        (page_fault_irq cr2 s)
        λ (s' : Mmu). (g : ℕ) × (has g fs ≡ true) × Maps 7 own s fs v g s'
page_fault-at own s fs cr2 v is_v space enough whole_v waits =
    let (r, call, found) = get_pt_entry-Found own s fs v space whole_v (omega arith) in
    let (absent, demanded) = Found-demanded own s fs v r space waits found in
    let x1 = Found-Changed own s fs v r space found in
    let ((g, s1), takes, (own2, fs2, x2, (in_left, whole, below, same))) =
      mmu_pf_alloc-Taken found.new_own r.1 found.left v x1.space (omega (arith, x1.uses.0)) in
    let unmapped =
      same v
      ∙ Found-translate own s fs v r space found v
      ∙ Found-none own s fs v r space found absent in
    let (s2, maps, (own3, fs3, x3, is_g)) =
      map_page-translate own2 s1 fs2 g v x2.space (omega (arith, x1.uses.0, x2.uses.0)) whole below
        whole_v unmapped in
    let is_table = x3.keeps _ 3 _ (x2.keeps _ 3 _ found.is_table) in
    let low = x3.lowest v _ (x2.lowest v _ (Found-Lowest own s fs v r found)) in
    let (x4, still_g) = finish-Changed own3 s2 fs3 v found.lowest g x3.space is_table low is_g in
    let x = Changed-trans 3 4 own found.new_own own3 s r.1 _ fs found.left fs3 v x1 (
      Changed-trans 1 3 found.new_own own2 own3 r.1 s1 _ found.left fs2 fs3 v x2
        (Changed-trans 3 0 own2 own3 own3 s1 s2 _ fs2 fs3 fs3 v x3 x4)) in
    (
      _,
      page_fault-found s cr2 v _ r g s1 s2 is_v found.is_entry call absent demanded takes maps,
      (g, x1.uses.1 g in_left, (own3, fs3, x, still_g)),
    )

-- A fault at an address of a page that waits for its first access is handled: page_fault_irq
-- returns, and the page is translated to a frame that the allocator held; every other page is
-- translated as before. The tables form a tree, and the allocator holds idle frames, each once,
-- seven at least.
pub page_fault_irq-Maps :
    (own : ℕ → Owner) (s : Mmu) (fs : List ℕ) (cr2 : ℕ)
    → Space own s fs
    → 7 ≤ length fs
    → OnDemand own s (cr2 / 4096 * 4096)
    → Returns
        (page_fault_irq cr2 s)
        λ (s' : Mmu). (g : ℕ) × (has g fs ≡ true) × Maps 7 own s fs (cr2 / 4096 * 4096) g s'
page_fault_irq-Maps own s fs cr2 space enough waits =
    page_fault-at own s fs cr2 (cr2 / 4096 * 4096) refl space enough (omega arith) waits
