-- ===== src/Mmu/Walk.antt =====
-- The page tables as the processor reads them, and the ghost state that says what each frame is for.
use csc.Base.{
  ℕ, zero, suc, ◌+◌, ◌*◌, ◌/◌, ◌%◌, ◌^◌, ◌<◌, ◌≡◌, ◌≢◌, refl, sym, ap, ◌∙◌, inl, inr, List, [], ◌∷◌,
  Option, none, some, arith, has, update, update_ne, ◌==◌, true, false, if◌then◌else◌, Bool-cases,
  ==→eq, ==→ne, ne→==,
}
use csc.Mmu.{
  Mmu, present, read_frame_addr, entry_at, page_map_index, page_dir_ptr_index, page_dir_index,
  page_tbl_index,
}

-- The four indices of an address, from the top table to the lowest.
abbrev pub index : ℕ → ℕ → ℕ
index zero v = page_map_index v
index (suc zero) v = page_dir_ptr_index v
index (suc (suc zero)) v = page_dir_index v
index (suc (suc (suc k))) v = page_tbl_index v

-- The indices above a depth, as one number; at depth 4 the number of the page.
abbrev pub prefix : ℕ → ℕ → ℕ
prefix zero v = 0
prefix (suc zero) v = v / 2 ^ 39 % 2 ^ 9
prefix (suc (suc zero)) v = v / 2 ^ 30 % 2 ^ 18
prefix (suc (suc (suc zero))) v = v / 2 ^ 21 % 2 ^ 27
prefix (suc (suc (suc (suc k)))) v = v / 2 ^ 12 % 2 ^ 36

pub index-below : (k v : ℕ) → index k v < 512
index-below zero v = omega arith
index-below (suc zero) v = omega arith
index-below (suc (suc zero)) v = omega arith
index-below (suc (suc (suc k))) v = omega arith

pub prefix_step : (k v : ℕ) → k < 4 → prefix (suc k) v ≡ prefix k v * 512 + index k v
prefix_step zero v h = omega arith
prefix_step (suc zero) v h = omega arith
prefix_step (suc (suc zero)) v h = omega arith
prefix_step (suc (suc (suc zero))) v h = omega arith
prefix_step (suc (suc (suc (suc k)))) v h = absurd (omega arith)

-- `n` levels of the walk from the table `f` at depth `k`; none where an entry is not present.
unfoldable pub walk : (ℕ → ℕ) → ℕ → ℕ → ℕ → ℕ → Option ℕ
walk word zero k f v = some f
walk word (suc n) k f v =
    let w = word (entry_at f (index k v)) in
    let on = walk word n (suc k) (read_frame_addr w) v in if present w == 0 then none else on

-- The frame behind the page of an address.
abbrev pub translate : Mmu → ℕ → Option ℕ
translate s v = walk s.word 4 0 s.pml4 v

-- What a frame is for.
pub data Owner : Type 0 where
  -- a page, or not managed here
  page : Owner
  -- the allocator has it
  idle : Owner
  -- a table at a depth below a prefix
  table : ℕ → ℕ → Owner

-- The tables form a tree: each has one place, and a present entry leads one level down.
pub record Tree (own : ℕ → Owner) (word : ℕ → ℕ) (pml4 : ℕ) : Type 0 where
  pub root : own pml4 ≡ table 0 0
  pub child :
      (f k q i : ℕ)
      → own f ≡ table k q
      → k < 3
      → i < 512
      → present (word (entry_at f i)) ≢ 0
      → own (read_frame_addr (word (entry_at f i))) ≡ table (suc k) (q * 512 + i)
  pub whole : (f k q : ℕ) → own f ≡ table k q → f % 4096 ≡ 0

-- The frames of the allocator are idle frames, each of them once.
abbrev pub Idle : (ℕ → Owner) → List ℕ → Type 0
Idle own [] = Unit
Idle own (f ∷ fs) =
    (own f ≡ idle) × (f % 4096 ≡ 0) × (0 < f) × (f < 2 ^ 52) × (has f fs ≡ false) × Idle own fs

pub Idle-own :
    (own : ℕ → Owner) (fs : List ℕ) (a : ℕ) → Idle own fs → has a fs ≡ true → own a ≡ idle
Idle-own own [] a h k = absurd (ground arith)
Idle-own own (f ∷ fs) a h k = elim (Bool-cases (a == f)) [
  | inl e ↦ rw (==→eq a f e) h.0
  | inr e ↦ Idle-own own fs a h.5 (ground arith)
]

pub Idle-whole :
    (own : ℕ → Owner) (fs : List ℕ) (a : ℕ) → Idle own fs → has a fs ≡ true → a % 4096 ≡ 0
Idle-whole own [] a h k = absurd (ground arith)
Idle-whole own (f ∷ fs) a h k = elim (Bool-cases (a == f)) [
  | inl e ↦ rw (==→eq a f e) h.1
  | inr e ↦ Idle-whole own fs a h.5 (ground arith)
]

-- The owner of a frame that is not in the list may change.
pub Idle-other :
    (own : ℕ → Owner) (g : ℕ) (o : Owner) (fs : List ℕ)
    → has g fs ≡ false
    → Idle own fs
    → Idle (update own g o) fs
Idle-other own g o [] out h = tt
Idle-other own g o (f ∷ fs) out h = (
  update_ne own g o f (ground arith) ∙ h.0,
  h.1,
  h.2,
  h.3,
  h.4,
  Idle-other own g o fs (ground arith) h.5,
)

pub table_not_idle : (own : ℕ → Owner) (f k q a : ℕ) → own f ≡ table k q → own a ≡ idle → f ≢ a
table_not_idle own f k q a h j e = ground (arith, h, j, ap own e)

pub walk_absent :
    (word : ℕ → ℕ) (n k f v : ℕ)
    → present (word (entry_at f (index k v))) ≡ 0
    → walk word (suc n) k f v ≡ none
unfolding walk
walk_absent word n k f v absent = rw absent refl

pub walk-present :
    (word : ℕ → ℕ) (n k f v : ℕ)
    → present (word (entry_at f (index k v))) ≢ 0
    → walk word (suc n) k f v
      ≡ walk word n (suc k) (read_frame_addr (word (entry_at f (index k v)))) v
unfolding walk
walk-present word n k f v there = rw (ne→== _ 0 there) refl

pub table-inj : (k q k' q' : ℕ) → table k q ≡ table k' q' → (k ≡ k') × (q ≡ q')
table-inj k q k' q' e = ground arith

-- Two memories that agree on an entry, and on the walk behind it where there is one.
pub walk-level :
    (word word' : ℕ → ℕ) (n k f v : ℕ)
    → word' (entry_at f (index k v)) ≡ word (entry_at f (index k v))
    → (present (word (entry_at f (index k v))) ≢ 0
        → walk word' n (suc k) (read_frame_addr (word (entry_at f (index k v)))) v
          ≡ walk word n (suc k) (read_frame_addr (word (entry_at f (index k v)))) v)
    → walk word' (suc n) k f v ≡ walk word (suc n) k f v
walk-level word word' n k f v e on =
    elim (Bool-cases (present (word (entry_at f (index k v))) == 0)) [
      | inl none_there ↦
          let absent = ==→eq _ _ none_there in
          walk_absent word' n k f v (ap present e ∙ absent) ∙ sym (walk_absent word n k f v absent)
      | inr there ↦
          let is_there = ==→ne _ _ there in
          walk-present word' n k f v (λ z. is_there (ap present (sym e) ∙ z))
          ∙ ap (λ w. walk word' n (suc k) (read_frame_addr w) v) e
          ∙ on is_there
          ∙ sym (walk-present word n k f v is_there)
    ]

pub walk-zero : (word word' : ℕ → ℕ) (k f v : ℕ) → walk word zero k f v ≡ walk word' zero k f v
unfolding walk
walk-zero word word' k f v = refl

-- The last level.
pub walk_last :
    (word : ℕ → ℕ) (f v w : ℕ)
    → word (entry_at f (index 3 v)) ≡ w
    → present w ≢ 0
    → walk word 1 3 f v ≡ some (read_frame_addr w)
unfolding walk
walk_last word f v w is there = rw (is, ne→== _ 0 there) refl

pub walk-none :
    (word : ℕ → ℕ) (f v : ℕ)
    → walk word 1 3 f v ≡ none
    → present (word (entry_at f (index 3 v))) ≡ 0
unfolding walk
walk-none word f v h = elim (Bool-cases (present (word (entry_at f (index 3 v))) == 0)) [
  | inl e ↦ ==→eq _ _ e
  | inr e ↦ absurd (some_not_none (sym (walk_last word f v _ refl (==→ne _ _ e)) ∙ h))
]
  where
    some_not_none : {a : ℕ} → some a ≢ none
    some_not_none e = ground arith

-- The number of the page of an address, of which the tables read 36 bits.
abbrev pub page_of : ℕ → ℕ
page_of v = v / 4096 % 2 ^ 36

pub walk_here : (word : ℕ → ℕ) (k f v : ℕ) → walk word zero k f v ≡ some f
unfolding walk
walk_here word k f v = refl
