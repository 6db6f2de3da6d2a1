-- ===== src/Mmu/Identity.antt =====
-- The first pages, which MMU_init of mmu_driver.c maps to the frames of the same addresses, and checks.
use csc.Base.{
  ℕ, zero, suc, ◌+◌, ◌-◌, ◌*◌, ◌%◌, ◌^◌, ◌≤◌, ◌<◌, ◌≡◌, ◌≢◌, refl, sym, ap, ◌∙◌, List, none, some,
  arith, length, ==_refl,
}
use mathlib.Core.Path.{subst}
use csc.Base.Outcome.{◌>>=◌, Returns, Returns-bind}
use csc.Mmu.{Mmu}
use csc.Mmu.Walk.{translate, page_of, Owner}
use csc.Mmu.Tables.{Space}
use csc.Mmu.Map.{map_page-translate, virt_to_phys-translate, or_null}
use csc.Mmu.Init.{map_identity, check_identity}

-- Each of the `n` pages from `a` on is mapped to itself.
abbrev pub Identity : ℕ → ℕ → Mmu → Type 0
Identity n a s = (j : ℕ) → j < n → translate s (a + j * 4096) ≡ some (a + j * 4096)

abbrev pub Unmapped : ℕ → ℕ → Mmu → Type 0
Unmapped n a s = (j : ℕ) → j < n → translate s (a + j * 4096) ≡ none

-- The pages behind `a` are other pages.
pages_apart :
    (a n j : ℕ)
    → a % 4096 ≡ 0
    → a + suc n * 4096 ≤ 2 ^ 48
    → j < n
    → page_of (a + 4096 + j * 4096) ≢ page_of a
pages_apart a n j whole below inside e = omega arith

one_more :
    (n a : ℕ) (s : Mmu) → translate s a ≡ some a → Identity n (a + 4096) s → Identity (suc n) a s
one_more n a s first rest zero inside = subst (λ b. translate s b ≡ some b) (omega arith) first
one_more n a s first rest (suc j) inside =
    subst (λ b. translate s b ≡ some b) (omega arith) (rest j (omega arith))

abbrev Mapped : ℕ → ℕ → List ℕ → Mmu → Mmu → Type 0
Mapped n a fs s s' =
    (own' : ℕ → Owner) × (fs' : List ℕ) × Space own' s' fs'
    × (length fs ≤ 3 * n + length fs')
    × Identity n a s'
    × ((u : ℕ)
        → ((j : ℕ) → j < n → page_of u ≢ page_of (a + j * 4096))
        → translate s' u ≡ translate s u)

map_identity-Mapped :
    (n : ℕ) (own : ℕ → Owner) (s : Mmu) (fs : List ℕ) (a : ℕ)
    → Space own s fs
    → 3 * n ≤ length fs
    → a % 4096 ≡ 0
    → a + n * 4096 ≤ 2 ^ 48
    → Unmapped n a s
    → Returns (map_identity n a s) (Mapped n a fs s)
unfolding map_identity
map_identity-Mapped zero own s fs a space enough whole below free =
    (s, refl, (own, fs, space, omega arith, λ j h. absurd (omega arith), λ u h. refl))
map_identity-Mapped (suc n) own s fs a space enough whole below free =
    Returns-bind
      (map_page-translate own s fs a a space (omega arith) whole (omega arith) whole
        (ap (translate s) (omega arith) ∙ free 0 (omega arith)))
      λ s1 (own1, fs1, x, is).
        let next : Unmapped n (a + 4096) s1 = λ j h.
          x.elsewhere _ (pages_apart a n j whole below h)
          ∙ ap (translate s) (omega arith)
          ∙ free (suc j) (omega arith) in
        let (s2, call, (own2, fs2, space2, uses, here, same)) =
          map_identity-Mapped n own1 s1 fs1 (a + 4096) x.space (omega (arith, x.uses.0))
            (omega arith) (omega arith) next in
        (
          s2,
          call,
          (
            own2,
            fs2,
            space2,
            omega (arith, x.uses.0, uses),
            one_more n a s2 (same a (λ j h e. pages_apart a n j whole below h (sym e)) ∙ is) here,
            λ u h.
                same u (λ j k e. h (suc j) (omega arith) (e ∙ ap page_of (omega arith)))
                ∙ x.elsewhere u (λ e. h 0 (omega arith) (e ∙ ap page_of (omega arith))),
          ),
        )

-- Tables in which the first `n` pages are mapped to themselves.
pub record Started (n : ℕ) (s : Mmu) : Type 0 where
  pub own : ℕ → Owner
  pub left : List ℕ
  pub space : Space own s left
  pub identity : Identity n 0 s

check_identity-Returns :
    (m n : ℕ) (own : ℕ → Owner) (s : Mmu) (fs : List ℕ) (a : ℕ)
    → Space own s fs
    → 3 * n ≤ length fs
    → a % 4096 ≡ 0
    → 0 < a
    → Identity n a s
    → Identity m 0 s
    → Returns (check_identity n a s) (Started m)
unfolding check_identity
check_identity-Returns m zero own s fs a space enough whole pos id first =
    (s, refl, record { own = own; left = fs; space = space; identity = first })
check_identity-Returns m (suc n) own s fs a space enough whole pos id first =
    Returns-bind (virt_to_phys-translate own s fs a space (omega arith) whole)
      λ r (is, same, (own1, fs1, space1, uses)).
        let found : r.0 ≡ a =
          is ∙ ap or_null (ap (translate s) (omega arith) ∙ id 0 (omega arith)) ∙ omega arith in
        let next : Identity n (a + 4096) r.1 = λ j h.
          same _
          ∙ ap (translate s) (omega arith)
          ∙ id (suc j) (omega arith)
          ∙ ap some (omega arith) in
        rw (found, ==_refl a)
          (check_identity-Returns m n own1 r.1 fs1 (a + 4096) space1 (omega arith) (omega arith)
            (omega arith) next (λ j h. same _ ∙ first j h))

-- Both loops of MMU_init; the second compares all pages but the first and the last.
pub map_identity-check :
    (n : ℕ) (own : ℕ → Owner) (s : Mmu) (fs : List ℕ)
    → Space own s fs
    → 6 * suc n ≤ length fs
    → suc n * 4096 ≤ 2 ^ 48
    → Unmapped (suc n) 0 s
    → Returns (map_identity (suc n) 0 s >>= λ s1. check_identity (n - 1) 4096 s1) (Started (suc n))
map_identity-check n own s fs space enough below free =
    Returns-bind
      (map_identity-Mapped (suc n) own s fs 0 space (omega arith) refl (omega arith) free)
      λ s1 (own1, fs1, space1, uses, id, same).
        check_identity-Returns (suc n) (n - 1) own1 s1 fs1 4096 space1 (omega arith) refl
          (omega arith)
          (λ j h.
            ap (translate s1) (omega arith) ∙ id (suc j) (omega arith) ∙ ap some (omega arith))
          id
