-- ===== src/Mmu/Down.antt =====
-- One level of get_pt_entry of mmu_driver.c on tables that form a tree.
use csc.Base.{
  ℕ, suc, ◌+◌, ◌%◌, ◌≤◌, ◌<◌, ◌≡◌, ◌≢◌, refl, sym, ap, ◌∙◌, inl, inr, List, [], ◌∷◌, arith, has,
  length, update_self, ◌==◌, true, Bool-cases, ==→eq, ==→ne,
}
use csc.Base.Outcome.{ok, Returns}
use csc.Mmu.{Mmu, present, read_frame_addr, entry_at, next_table}
use csc.Mmu.Frames.{Takes, mmu_pf_alloc-take}
use csc.Mmu.Walk.{
  index, index-below, prefix, prefix_step, Owner, idle, table, Idle-own, Idle-whole, table_not_idle,
}
use csc.Mmu.Grow.{Outside, Gives, next_table-there, next_table-Made}
use csc.Mmu.Tables.{
  Space, Extends, Extends-refl, with_table, entry_apart, entry-Outside, new_entry, made-Extends,
  made-Space,
}

-- The table `t` hangs behind the entry of `v` in the table `f`.
abbrev pub Leads : (ℕ → ℕ) → ℕ → ℕ → ℕ → ℕ → Type 0
Leads word k f v t =
    (present (word (entry_at f (index k v))) ≢ 0)
    × (read_frame_addr (word (entry_at f (index k v))) ≡ t)

-- At most `n` frames of the allocator were used.
abbrev pub Uses : ℕ → List ℕ → List ℕ → Type 0
Uses n fs fs' = (length fs ≤ n + length fs') × ((a : ℕ) → has a fs' ≡ true → has a fs ≡ true)

-- The state `s'` has more tables than `s`.
pub record Grown (n : ℕ) (own own' : ℕ → Owner) (s s' : Mmu) (fs fs' : List ℕ) : Type 0 where
  pub space : Space own' s' fs'
  pub extends : Extends own own' s s'
  pub uses : Uses n fs fs'

unfoldable pub Down : (ℕ → Owner) → Mmu → List ℕ → ℕ → ℕ → ℕ → ℕ × Mmu → Type 0
Down own s fs k f v (t, s') =
    (own' : ℕ → Owner) × (fs' : List ℕ) × Grown 1 own own' s s' fs fs'
    × (own' t ≡ table (suc k) (prefix (suc k) v))
    × Leads s'.word k f v t

down_there :
    (own : ℕ → Owner) (s : Mmu) (fs : List ℕ) (k f v : ℕ)
    → Space own s fs
    → own f ≡ table k (prefix k v)
    → k < 3
    → present (s.word (entry_at f (index k v))) ≢ 0
    → Returns (next_table (entry_at f (index k v)) s) (Down own s fs k f v)
unfolding Down
down_there own s fs k f v space is upper there = (
  _,
  next_table-there s _ there,
  (
    own,
    fs,
    record { space = space; extends = Extends-refl own s; uses = (omega arith, λ a h. h) },
    space.tree.child f k _ (index k v) is upper (index-below k v) there
        ∙ ap (table (suc k)) (sym (prefix_step k v (omega arith))),
    (there, refl),
  ),
)

-- The frame that a call takes.
pub Gives-frame : (s : Mmu) (g : ℕ) (fs : List ℕ) → Takes s (g ∷ fs) → (s1 : Mmu) × Gives s s1 g fs
Gives-frame s g fs ((g', s1), call, (same, same_word, same_pml4, same_bank, stands)) = (
  s1,
  record {
    call = call ∙ ap (λ (a : ℕ). ok (a, s1)) same;
    same_word = same_word;
    same_pml4 = same_pml4;
    same_bank = same_bank;
    stands = stands;
  },
)

pub has_behind : (g : ℕ) (fs : List ℕ) (a : ℕ) → has a fs ≡ true → has a (g ∷ fs) ≡ true
has_behind g fs a h = ground (arith, h)

pub page-Outside : (g a : ℕ) → g % 4096 ≡ 0 → a % 4096 ≡ 0 → a ≢ g → Outside g a
page-Outside g a whole whole' other = ground arith

down_made :
    (own : ℕ → Owner) (s : Mmu) (g : ℕ) (fs : List ℕ) (k f v : ℕ)
    → Space own s (g ∷ fs)
    → own f ≡ table k (prefix k v)
    → k < 3
    → present (s.word (entry_at f (index k v))) ≡ 0
    → Returns (next_table (entry_at f (index k v)) s) (Down own s (g ∷ fs) k f v)
unfolding Down
down_made own s g fs k f v space is upper absent =
    let (s1, gives) = Gives-frame s g fs (mmu_pf_alloc-take s (g ∷ fs) space.stands) in
    let ((t, s'), call, (same_t, made)) =
      next_table-Made s s1 (entry_at f i) g fs gives absent
        (entry-Outside f g i whole_f whole_g (apart g space.idle_frames.0) (index-below k v))
        (λ a h. (
          λ e. apart a (idle_a a h) (
              sym
                (entry_apart a f 0 i (whole_a a h) whole_f (omega arith) (index-below k v)
                  (omega arith)).0),
          page-Outside g a whole_g (whole_a a h) (λ e. ground (arith, h, e, space.idle_frames.4)),
        ))
        whole_g space.idle_frames.3 in
    (
      (t, s'),
      call,
      (
        with_table own g k (prefix k v) i,
        fs,
        record {
          space = made-Space own s s' g fs space f k _ i is upper (index-below k v) absent made;
          extends = made-Extends own s s' g fs space f k _ i is upper (index-below k v) absent made;
          uses = (omega arith, λ a h. has_behind g fs a h);
        },
        rw same_t (update_self own g _ ∙ ap (table (suc k)) (sym (prefix_step k v (omega arith)))),
        rw same_t (new_entry own s s' g fs space f k _ i is upper (index-below k v) absent made),
      ),
    )
  where
    i : ℕ
    i = index k v

    whole_f : f % 4096 ≡ 0
    whole_f = space.tree.whole f k _ is

    whole_g : g % 4096 ≡ 0
    whole_g = space.idle_frames.1

    apart : (a : ℕ) → own a ≡ idle → f ≢ a
    apart a h = table_not_idle own f k _ a is h

    idle_a : (a : ℕ) → has a fs ≡ true → own a ≡ idle
    idle_a a h = Idle-own own fs a space.idle_frames.5 h

    whole_a : (a : ℕ) → has a fs ≡ true → a % 4096 ≡ 0
    whole_a a h = Idle-whole own fs a space.idle_frames.5 h

pub down :
    (own : ℕ → Owner) (s : Mmu) (fs : List ℕ) (k f v : ℕ)
    → Space own s fs
    → own f ≡ table k (prefix k v)
    → k < 3
    → 0 < length fs
    → Returns (next_table (entry_at f (index k v)) s) (Down own s fs k f v)
down own s [] k f v space is upper some_left = absurd (omega arith)
down own s (g ∷ fs) k f v space is upper some_left =
    elim (Bool-cases (present (s.word (entry_at f (index k v))) == 0)) [
      | inl e ↦ down_made own s g fs k f v space is upper (==→eq _ _ e)
      | inr e ↦ down_there own s (g ∷ fs) k f v space is upper (==→ne _ _ e)
    ]
