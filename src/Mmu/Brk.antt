-- ===== src/Mmu/Brk.antt =====
-- MMU_alloc_pages, kbrk and sbrk of mmu_driver.c, and the program break that the kernel heap sees.
use csc.Base.{
  ℕ, zero, suc, ◌+◌, ◌*◌, ◌/◌, ◌%◌, ◌^◌, ◌≤◌, ◌<◌, ◌≡◌, ◌≢◌, refl, ap, inl, inr, ◌∙◌, List, arith,
  length, update, update_self, update_ne, ◌==◌, Bool-cases, ==→eq,
}
use mathlib.Core.Path.{subst}
use csc.Base.Words.{add64}
use csc.Base.Outcome.{Returns, Returns-bind}
use csc.Mmu.{Mmu, alloc_pages, mmu_alloc_pages, grow_region}
use csc.Mmu.Walk.{translate, page_of, Owner}
use csc.Mmu.Tables.{Space}
use csc.Mmu.Path.{OnDemand}
use csc.Mmu.Pages.{Demands, mmu_alloc_page-Demands}

-- The address is on none of the `n` pages from `v` on.
abbrev pub Beside : ℕ → ℕ → ℕ → Type 0
Beside v n u = (i : ℕ) → i < n → page_of u ≢ page_of (v + i * 4096)

-- The `n` pages from `v` on were put on demand in their region; no other page has changed.
pub record Grows (own : ℕ → Owner) (s : Mmu) (fs : List ℕ) (region v n : ℕ) (s' : Mmu)
    : Type 0 where
  pub new_own : ℕ → Owner
  pub left : List ℕ
  pub space : Space new_own s' left
  pub uses : length fs ≤ 3 * n + length left
  pub bank : s'.virt_addr_bank region ≡ v + n * 4096
  pub other_banks : (a : ℕ) → a ≢ region → s'.virt_addr_bank a ≡ s.virt_addr_bank a
  pub on_demand : (i : ℕ) → i < n → OnDemand new_own s' (v + i * 4096)
  pub elsewhere : (u : ℕ) → Beside v n u → translate s' u ≡ translate s u
  pub waiting : (u : ℕ) → Beside v n u → OnDemand own s u → OnDemand new_own s' u

no_pages :
    (own : ℕ → Owner) (s : Mmu) (fs : List ℕ) (region v : ℕ)
    → Space own s fs
    → s.virt_addr_bank region ≡ v
    → Grows own s fs region v 0 s
no_pages own s fs region v space is = record {
  new_own = own;
  left = fs;
  space = space;
  uses = omega arith;
  bank = omega arith;
  other_banks = λ a h. refl;
  on_demand = λ i h. absurd (omega arith);
  elsewhere = λ u h. refl;
  waiting = λ u h d. d;
}

pages_apart :
    (v i n : ℕ)
    → i < n
    → v % 4096 ≡ 0
    → v + suc n * 4096 ≤ 2 ^ 48
    → page_of v ≢ page_of (v + 4096 + i * 4096)
pages_apart v i n inside whole below e = omega arith

-- One page, and then the pages behind it.
one_more :
    (own : ℕ → Owner) (s : Mmu) (fs : List ℕ) (region v n : ℕ) (s1 s2 : Mmu)
    → v % 4096 ≡ 0
    → v + suc n * 4096 ≤ 2 ^ 48
    → s1.virt_addr_bank ≡ update s.virt_addr_bank region (add64 v 4096)
    → (x : Demands own s fs v s1) → Grows x.new_own s1 x.left region (v + 4096) n s2
    → Grows own s fs region v (suc n) s2
one_more own s fs region v n s1 s2 whole below bank x y = record {
  new_own = y.new_own;
  left = y.left;
  space = y.space;
  uses = omega (arith, x.changed.uses.0, y.uses);
  bank = omega (arith, y.bank);
  other_banks = λ a h.
      y.other_banks a h ∙ ap (λ (b : ℕ → ℕ). b a) bank ∙ update_ne s.virt_addr_bank region _ a h;
  on_demand = on_demand;
  elsewhere = λ u h. y.elsewhere u (behind u h) ∙ x.changed.elsewhere u (not_first u h);
  waiting = λ u h d. y.waiting u (behind u h) (x.changed.waiting u (not_first u h) d);
}
  where
    not_first : (u : ℕ) → Beside v (suc n) u → page_of u ≢ page_of v
    not_first u h e = h 0 (omega arith) (e ∙ ap page_of (omega arith))

    behind : (u : ℕ) → Beside v (suc n) u → Beside (v + 4096) n u
    behind u h i inside e = h (suc i) (omega arith) (e ∙ ap page_of (omega arith))

    on_demand : (i : ℕ) → i < suc n → OnDemand y.new_own s2 (v + i * 4096)
    on_demand zero inside =
        subst (OnDemand y.new_own s2) (omega arith)
          (y.waiting v (λ i h. pages_apart v i n h whole below) x.on_demand)
    on_demand (suc i) inside =
        subst (OnDemand y.new_own s2) (omega arith) (y.on_demand i (omega arith))

pub alloc_pages-Grows :
    (n : ℕ) (own : ℕ → Owner) (s : Mmu) (fs : List ℕ) (region v : ℕ)
    → Space own s fs
    → 3 * n ≤ length fs
    → v % 4096 ≡ 0
    → v + n * 4096 ≤ 2 ^ 48
    → s.virt_addr_bank region ≡ v
    → Returns (alloc_pages n region s) (Grows own s fs region v n)
unfolding alloc_pages
alloc_pages-Grows zero own s fs region v space enough whole below is =
    (s, refl, no_pages own s fs region v space is)
alloc_pages-Grows (suc n) own s fs region v space enough whole below is =
    Returns-bind (mmu_alloc_page-Demands own s fs region v space (omega arith) whole is)
      λ r (same, bank, x).
        let next : r.1.virt_addr_bank region ≡ v + 4096 =
          ap (λ (b : ℕ → ℕ). b region) bank ∙ update_self s.virt_addr_bank region _ ∙ omega arith in
        let (s2, call, y) =
          alloc_pages-Grows n x.new_own r.1 x.left region (v + 4096) x.changed.space
            (omega (arith, x.changed.uses.0)) (omega arith) (omega arith) next in
        (s2, call, one_more own s fs region v n r.1 s2 whole below bank x y)

pub grow_region-Grows :
    (increment : ℕ) (own : ℕ → Owner) (s : Mmu) (fs : List ℕ) (region v : ℕ)
    → Space own s fs
    → 3 * (increment / 4096) ≤ length fs
    → v % 4096 ≡ 0
    → v + increment ≤ 2 ^ 48
    → s.virt_addr_bank region ≡ v
    → Returns
        (grow_region region increment s)
        λ (r : ℕ × Mmu). (r.0 ≡ v) × Grows own s fs region v (increment / 4096) r.1
unfolding grow_region mmu_alloc_pages
grow_region-Grows increment own s fs region v space enough whole below is =
    elim (Bool-cases (increment == 0)) [
      | inl e ↦
          let none_made : 0 ≡ increment / 4096 = omega (arith, ==→eq _ _ e) in
          rw (e, is)
            (
              (v, s),
              refl,
              (
                refl,
                subst (λ n. Grows own s fs region v n s) none_made
                    (no_pages own s fs region v space is),
              ),
            )
      | inr e ↦
          let (s', call, x) =
            alloc_pages-Grows (increment / 4096) own s fs region v space enough whole (omega arith)
              is in
          rw (e, is, call) ((v, s'), refl, (refl, x))
    ]
