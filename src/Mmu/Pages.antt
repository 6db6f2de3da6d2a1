-- ===== src/Mmu/Pages.antt =====
-- MMU_alloc_page and page_fault_irq of mmu_driver.c: pages that get a frame on their first access.
use csc.Base.{
  ℕ, ◌%◌, ◌≤◌, ◌≡◌, ◌≢◌, refl, sym, ap, fun_ext, ◌∙◌, inl, inr, List, arith, length, update,
  update_self, update_ne, ◌==◌, Bool-cases, ==→eq, ==→ne,
}
use csc.Base.Words.{add64}
use csc.Base.Outcome.{ok, Returns}
use csc.Mmu.{
  Mmu, present, alloc, set_present, set_alloc, entry_at, write, get_pt_entry, mmu_alloc_page,
}
use csc.Mmu.Frames.{Stands}
use csc.Mmu.Walk.{index, prefix, Owner, table}
use csc.Mmu.Tables.{Space}
use csc.Mmu.Find.{Found, get_pt_entry-Found}
use csc.Mmu.Path.{Lowest, OnDemand, Found-Lowest}
use csc.Mmu.Leaf.{leaf-Lowest}
use csc.Mmu.Map.{Changed, Found-write}

-- The two writes of MMU_alloc_page to an entry.
abbrev pub demand : ℕ → ℕ
demand w = set_present 0 (set_alloc 1 w)

demand-absent : (w : ℕ) → present (demand w) ≡ 0
demand-absent w = omega arith

demand-alloc : (w : ℕ) → alloc (demand w) ≢ 0
demand-alloc w e = omega arith

update_twice : (f : ℕ → ℕ) (a x y : ℕ) → update (update f a x) a y ≡ update f a y
update_twice f a x y = fun_ext λ b. elim (Bool-cases (b == a)) [
  | inl e ↦ rw (==→eq b a e) (update_self _ a y ∙ sym (update_self f a y))
  | inr e ↦
      let other = ==→ne b a e in
      update_ne _ a y b other ∙ update_ne f a x b other ∙ sym (update_ne f a y b other)
]

-- Two stores to one entry, the second of what it reads there, are one.
pub store_twice :
    (f : ℕ → ℕ) (a x : ℕ) (g : ℕ → ℕ)
    → update (update f a x) a (g (update f a x a)) ≡ update f a (g x)
store_twice f a x g = update_twice f a x _ ∙ ap (λ y. update f a (g y)) (update_self f a x)

-- The bank is no part of the tables.
bank_Stands :
    (s : Mmu) (fs : List ℕ) (bank : ℕ → ℕ)
    → Stands s fs
    → Stands (record s { virt_addr_bank = bank }) fs
bank_Stands s fs bank k = record {
  free = k.free;
  spans = k.spans;
  stock = record {
    chain = k.stock.chain;
    curr = k.stock.curr;
    ranges = k.stock.ranges;
    distinct = k.stock.distinct;
  };
  frames_are = k.frames_are;
}

bank_OnDemand :
    (own : ℕ → Owner) (s : Mmu) (v : ℕ) (bank : ℕ → ℕ)
    → OnDemand own s v
    → OnDemand own (record s { virt_addr_bank = bank }) v
bank_OnDemand own s v bank d = record {
  lowest = d.lowest;
  is_table = d.is_table;
  reached = d.reached;
  absent = d.absent;
  demanded = d.demanded;
}

bank_Changed :
    (n : ℕ) (own own' : ℕ → Owner) (s s' : Mmu) (fs fs' : List ℕ) (v : ℕ) (bank : ℕ → ℕ)
    → Changed n own own' s s' fs fs' v
    → Changed n own own' s (record s' { virt_addr_bank = bank }) fs fs' v
bank_Changed n own own' s s' fs fs' v bank x = record {
  space = record {
    tree = x.space.tree;
    idle_frames = x.space.idle_frames;
    stands = bank_Stands s' fs' bank x.space.stands;
  };
  uses = x.uses;
  keeps = x.keeps;
  lowest = x.lowest;
  elsewhere = x.elsewhere;
  waiting = λ u other d. bank_OnDemand own' s' u bank (x.waiting u other d);
}

-- The page of `v` was put on demand.
pub record Demands (own : ℕ → Owner) (s : Mmu) (fs : List ℕ) (v : ℕ) (s' : Mmu) : Type 0 where
  pub new_own : ℕ → Owner
  pub left : List ℕ
  pub changed : Changed 3 own new_own s s' fs left v
  pub on_demand : OnDemand new_own s' v

write-OnDemand :
    (own : ℕ → Owner) (s : Mmu) (fs : List ℕ) (v t w : ℕ)
    → Space own s fs
    → own t ≡ table 3 (prefix 3 v)
    → Lowest s v t
    → present w ≡ 0
    → alloc w ≢ 0
    → OnDemand own (write (entry_at t (index 3 v)) w s) v
write-OnDemand own s fs v t w space is low absent demanded = record {
  lowest = t;
  is_table = is;
  reached = leaf-Lowest own s fs space v t w is v t low;
  absent = ap present (update_self s.word _ w) ∙ absent;
  demanded = λ e. demanded (sym (ap alloc (update_self s.word _ w)) ∙ e);
}

Found-OnDemand :
    (own : ℕ → Owner) (s : Mmu) (fs : List ℕ) (v w : ℕ) (r : ℕ × Mmu)
    → (found : Found own s fs v r) → present w ≡ 0
    → alloc w ≢ 0
    → OnDemand found.new_own (write r.0 w r.1) v
Found-OnDemand own s fs v w r found absent demanded = rw found.is_entry (
    write-OnDemand found.new_own r.1 found.left v found.lowest w found.grown.space found.is_table
      (Found-Lowest own s fs v r found) absent demanded)

mmu_alloc_page-found :
    (s : Mmu) (region v : ℕ) (r : ℕ × Mmu)
    → s.virt_addr_bank region ≡ v
    → get_pt_entry v s ≡ ok r
    → mmu_alloc_page region s
      ≡ ok (
        v,
        record (write r.0 (demand (r.1.word r.0)) r.1) {
          virt_addr_bank =
              update r.1.virt_addr_bank region (add64 (r.1.virt_addr_bank region) 4096);
        },
      )
unfolding mmu_alloc_page
mmu_alloc_page-found s region v r is found =
    rw (is, found)
      (ap
        (λ (f : ℕ → ℕ). ok (
          v,
          record r.1 {
            word = f;
            virt_addr_bank =
                update r.1.virt_addr_bank region (add64 (r.1.virt_addr_bank region) 4096);
          },
        ))
        (store_twice r.1.word r.0 (set_alloc 1 (r.1.word r.0)) (set_present 0)))

-- MMU_alloc_page puts the next page of the region on demand, and moves on by one page.
pub mmu_alloc_page-Demands :
    (own : ℕ → Owner) (s : Mmu) (fs : List ℕ) (region v : ℕ)
    → Space own s fs
    → 3 ≤ length fs
    → v % 4096 ≡ 0
    → s.virt_addr_bank region ≡ v
    → Returns (mmu_alloc_page region s) λ (r : ℕ × Mmu).
      (r.0 ≡ v)
      × (r.1.virt_addr_bank ≡ update s.virt_addr_bank region (add64 v 4096))
      × Demands own s fs v r.1
mmu_alloc_page-Demands own s fs region v space enough whole is =
    let (r, call, found) = get_pt_entry-Found own s fs v space whole enough in
    let same_bank = found.grown.extends.same_bank in
    let w = demand (r.1.word r.0) in
    (
      _,
      mmu_alloc_page-found s region v r is call,
      (
        refl,
        rw (same_bank, is) refl,
        record {
          new_own = found.new_own;
          left = found.left;
          changed =
              bank_Changed 3 own found.new_own s (write r.0 w r.1) fs found.left v _
                (Found-write own s fs v w r space found);
          on_demand =
              bank_OnDemand found.new_own (write r.0 w r.1) v _
                (Found-OnDemand own s fs v w r found (demand-absent _) (demand-alloc _));
        },
      ),
    )
