-- ===== src/Mmu/Grow.antt =====
-- next_table of mmu_driver.c, one level of get_pt_entry, and what a new table leaves as it was.
use csc.Base.{
  ℕ, ◌+◌, ◌%◌, ◌^◌, ◌≤◌, ◌<◌, ◌≡◌, ◌≢◌, refl, ap, ◌∙◌, List, arith, has, update_self, update_ne,
  true, false, ◌&&◌, leb, ltb, ne→==,
}
use csc.Base.Outcome.{ok, Returns}
use csc.Mmu.{
  Mmu, present, read_frame_addr, write_frame_addr, set_present, set_writable, write, next_table,
  alloc_table_entry, clear_page, mmu_pf_alloc,
}
use csc.Mmu.Frames.{Stands, Stands-same}

-- An address outside the page at `g`.
abbrev pub Outside : ℕ → ℕ → Type 0
Outside g a = (leb g a && ltb a (g + 4096)) ≡ false

-- The entry that next_table makes for the table `g`.
abbrev pub table_entry : ℕ → ℕ → ℕ
table_entry g w = set_writable 1 (set_present 1 (write_frame_addr g w))

-- A table `g` was made for the entry `e`.
pub record Made (s s' : Mmu) (e g : ℕ) (fs : List ℕ) : Type 0 where
  pub entry : s'.word e ≡ table_entry g (s.word e)
  pub cleared : (a : ℕ) → g ≤ a → a < g + 4096 → s'.word a ≡ 0
  pub same : (a : ℕ) → a ≢ e → Outside g a → s'.word a ≡ s.word a
  pub same_pml4 : s'.pml4 ≡ s.pml4
  pub same_bank : s'.virt_addr_bank ≡ s.virt_addr_bank
  pub stands : Stands s' fs

pub table_entry-present : (g w : ℕ) → present (table_entry g w) ≡ 1
table_entry-present g w = omega arith

pub table_entry-frame :
    (g w : ℕ) → g % 4096 ≡ 0 → g < 2 ^ 52 → read_frame_addr (table_entry g w) ≡ g
table_entry-frame g w whole below = omega arith

-- What the four writes of next_table leave in memory.
unfoldable new_state : Mmu → ℕ → ℕ → Mmu
new_state s e g =
    let s1 = clear_page g s in
    let s2 = write e (write_frame_addr g (s1.word e)) s1 in
    let s3 = write e (set_present 1 (s2.word e)) s2 in write e (set_writable 1 (s3.word e)) s3

next_table-absent :
    (s s1 : Mmu) (e g : ℕ)
    → present (s.word e) ≡ 0
    → mmu_pf_alloc s ≡ ok (g, s1)
    → next_table e s ≡ ok (read_frame_addr ((new_state s1 e g).word e), new_state s1 e g)
unfolding next_table alloc_table_entry new_state
next_table-absent s s1 e g absent takes = rw (absent, takes) refl

pub next_table-there :
    (s : Mmu) (e : ℕ) → present (s.word e) ≢ 0 → next_table e s ≡ ok (read_frame_addr (s.word e), s)
unfolding next_table
next_table-there s e there = rw (ne→== _ 0 there) refl

-- The allocator gives `g` and changes nothing else that is read here.
pub record Gives (s s1 : Mmu) (g : ℕ) (fs : List ℕ) : Type 0 where
  pub call : mmu_pf_alloc s ≡ ok (g, s1)
  pub same_word : s1.word ≡ s.word
  pub same_pml4 : s1.pml4 ≡ s.pml4
  pub same_bank : s1.virt_addr_bank ≡ s.virt_addr_bank
  pub stands : Stands s1 fs

pub clear_page-Outside :
    (g : ℕ) (s : Mmu) (a : ℕ) → Outside g a → (clear_page g s).word a ≡ s.word a
unfolding clear_page
clear_page-Outside g s a out = rw out refl

pub clear_page-inside :
    (g : ℕ) (s : Mmu) (a : ℕ) → g ≤ a → a < g + 4096 → (clear_page g s).word a ≡ 0
unfolding clear_page
clear_page-inside g s a low high = ground arith

-- The three writes touch no other word.
new_state-other : (s : Mmu) (e g a : ℕ) → a ≢ e → (new_state s e g).word a ≡ (clear_page g s).word a
unfolding new_state
new_state-other s e g a other =
    update_ne _ e _ a other ∙ update_ne _ e _ a other ∙ update_ne _ e _ a other

new_state-entry :
    (s : Mmu) (e g : ℕ) → Outside g e → (new_state s e g).word e ≡ table_entry g (s.word e)
unfolding new_state clear_page
new_state-entry s e g out =
    update_self _ e _
    ∙ ap (set_writable 1) (
        update_self _ e _
        ∙ ap (set_present 1)
            (update_self _ e _ ∙ ap (write_frame_addr g) (clear_page-Outside g s e out)))

new_state-Stands :
    (s : Mmu) (e g : ℕ) (fs : List ℕ)
    → ((a : ℕ) → has a fs ≡ true → (new_state s e g).word a ≡ s.word a)
    → Stands s fs
    → Stands (new_state s e g) fs
unfolding new_state clear_page
new_state-Stands s e g fs same k = Stands-same s _ fs same k

new_state-rest :
    (s : Mmu) (e g : ℕ)
    → ((new_state s e g).pml4 ≡ s.pml4) × ((new_state s e g).virt_addr_bank ≡ s.virt_addr_bank)
unfolding new_state clear_page
new_state-rest s e g = (refl, refl)

pub next_table-Made :
    (s s1 : Mmu) (e g : ℕ) (fs : List ℕ)
    → Gives s s1 g fs
    → present (s.word e) ≡ 0
    → Outside g e
    → ((a : ℕ) → has a fs ≡ true → (a ≢ e) × Outside g a)
    → g % 4096 ≡ 0
    → g < 2 ^ 52
    → Returns (next_table e s) λ (r : ℕ × Mmu). (r.0 ≡ g) × Made s r.1 e g fs
next_table-Made s s1 e g fs gives absent out others whole below = (
  _,
  next_table-absent s s1 e g absent gives.call,
  (
    frame,
    record {
      entry = entry;
      cleared = λ a low high.
          new_state-other s1 e g a (λ same_as. ground (arith, out, same_as))
          ∙ clear_page-inside g s1 a low high;
      same = same;
      same_pml4 = (new_state-rest s1 e g).0 ∙ gives.same_pml4;
      same_bank = (new_state-rest s1 e g).1 ∙ gives.same_bank;
      stands =
          new_state-Stands s1 e g fs
            (λ a h.
              new_state-other s1 e g a (others a h).0 ∙ clear_page-Outside g s1 a (others a h).1)
            gives.stands;
    },
  ),
)
  where
    entry : (new_state s1 e g).word e ≡ table_entry g (s.word e)
    entry = new_state-entry s1 e g out ∙ ap (λ (w : ℕ → ℕ). table_entry g (w e)) gives.same_word

    frame : read_frame_addr ((new_state s1 e g).word e) ≡ g
    frame = ap read_frame_addr entry ∙ table_entry-frame g (s.word e) whole below

    same : (a : ℕ) → a ≢ e → Outside g a → (new_state s1 e g).word a ≡ s.word a
    same a other out_a =
        new_state-other s1 e g a other
        ∙ clear_page-Outside g s1 a out_a
        ∙ ap (λ (w : ℕ → ℕ). w a) gives.same_word
