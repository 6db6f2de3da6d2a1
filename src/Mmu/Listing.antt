-- ===== src/Mmu/Listing.antt =====
-- The list of ranges that addr_map_init of mmu_driver.c builds from the memory map.
use csc.Base.{
  ℕ, zero, suc, ◌+◌, ◌*◌, ◌^◌, ◌≤◌, ◌<◌, ◌≡◌, refl, sym, ap, ◌∙◌, inl, inr, ◌⊎◌, List, [], ◌∷◌,
  ◌++◌, false, ◌&&◌, ◌==◌, leb, ltb, if◌then◌else◌, null, arith, length, length-append, update,
  update_self, update_ne, Bool-cases, ne→==,
}
use mathlib.Core.Path.{subst}
use mathlib.Core.List.{append_assoc, append-nil}
use csc.Base.Words.{add64}
use csc.Base.Outcome.{Returns}
use csc.Mmu.{Range, Mmu}
use csc.Mmu.Init.{
  start_list, link_range, fill_range, fill_last, around_kernel, page_align, map_entry, map_entries,
  mmap_addr, mmap_len, mmap_type,
}

pub record Bounds : Type 0 where
  pub start : ℕ
  pub end : ℕ

abbrev pub range_at : Bounds → ℕ → Range
range_at r next = record { start = r.start; curr_frame = r.start; end = r.end; next_entry = next }

-- The entries stand one behind the other, each linked to the place behind it.
abbrev pub Open : (ℕ → Range) → ℕ → List Bounds → Type 0
Open range a [] = Unit
Open range a (r ∷ rs) = (range a ≡ range_at r (a + 32)) × Open range (a + 32) rs

Open-other :
    (range : ℕ → Range) (c : ℕ) (x : Range) (a : ℕ) (rs : List Bounds)
    → a + 32 * length rs ≤ c
    → Open range a rs
    → Open (update range c x) a rs
Open-other range c x a [] behind h = tt
Open-other range c x a (r ∷ rs) behind h = (
  update_ne range c x a (λ e. omega arith) ∙ h.0,
  Open-other range c x (a + 32) rs (omega arith) h.1,
)

Open-append :
    (range : ℕ → Range) (a : ℕ) (rs : List Bounds) (r : Bounds) (c : ℕ)
    → c ≡ a + 32 * length rs
    → Open range a rs
    → range c ≡ range_at r (c + 32)
    → Open range a (rs ++ r ∷ [])
Open-append range a [] r c is h e =
    let same : c ≡ a = omega arith in (subst (λ x. range x ≡ range_at r (x + 32)) same e, tt)
Open-append range a (q ∷ rs) r c is h e =
    (h.0, Open-append range (a + 32) rs r c (omega arith) h.1 e)

-- The entries `rs` are done, and the current entry is the one behind them.
pub record Opening (h : ℕ) (s : Mmu) (rs : List Bounds) : Type 0 where
  pub entries : Open s.range h rs
  pub curr : s.addr_range_curr ≡ h + 32 * length rs
  pub heap : s.local_heap_ptr ≡ h + 32 * length rs + 32
  pub head : s.addr_range_head ≡ h

-- The list holds `rs`, and then the current entry as its last one.
pub record Closed (h : ℕ) (s : Mmu) (rs : List Bounds) (last : Bounds) : Type 0 where
  pub opening : Opening h s rs
  pub tail : s.range s.addr_range_curr ≡ range_at last null

link_range-word :
    (s : Mmu) (c : ℕ) (x : Range)
    → s.addr_range_curr ≡ c
    → s.range c ≡ x
    → (link_range s).range ≡ update s.range c (record x { next_entry = s.local_heap_ptr })
unfolding link_range
link_range-word s c x is_c is_x =
    ap (λ a. update s.range a (record (s.range a) { next_entry = s.local_heap_ptr })) is_c
    ∙ ap (λ (r : Range). update s.range c (record r { next_entry = s.local_heap_ptr })) is_x

link_range-rest :
    (s : Mmu)
    → ((link_range s).addr_range_curr ≡ s.local_heap_ptr)
      × ((link_range s).local_heap_ptr ≡ add64 s.local_heap_ptr 32)
      × ((link_range s).addr_range_head ≡ s.addr_range_head)
unfolding link_range
link_range-rest s = (refl, refl, refl)

link_range-Opening :
    (h : ℕ) (s : Mmu) (rs : List Bounds) (last : Bounds)
    → h + 32 * length rs < 2 ^ 40
    → Closed h s rs last
    → Opening h (link_range s) (rs ++ last ∷ [])
link_range-Opening h s rs last below k =
    let o = k.opening in
    let c = s.addr_range_curr in
    let word = link_range-word s c (range_at last null) refl k.tail in
    let (curr, heap, head) = link_range-rest s in
    let more = length-append rs (last ∷ []) in
    record {
      entries =
          subst (λ (f : ℕ → Range). Open f h (rs ++ last ∷ [])) (sym word)
            (Open-append _ h rs last c o.curr
              (Open-other s.range c _ h rs (omega (arith, o.curr)) o.entries)
              (update_self s.range c _ ∙ ap (range_at last) (omega (arith, o.heap, o.curr))));
      curr = omega (arith, curr, o.heap, more);
      heap = omega (arith, heap, o.heap, more);
      head = head ∙ o.head;
    }

-- The current entry is filled in, and nothing else changes.
fill_last-Closed :
    (h : ℕ) (s : Mmu) (rs : List Bounds) (start end : ℕ)
    → Opening h s rs
    → Closed h (fill_last start end s) rs (record { start = start; end = end })
unfolding fill_last fill_range
fill_last-Closed h s rs start end o =
    let c = s.addr_range_curr in
    record {
      opening = record {
        entries =
            Open-other _ c _ h rs (omega (arith, o.curr))
              (Open-other s.range c _ h rs (omega (arith, o.curr)) o.entries);
        curr = o.curr;
        heap = o.heap;
        head = o.head;
      };
      tail =
          update_self _ c _
          ∙ ap (λ (r : Range). record r { next_entry = null }) (update_self s.range c _);
    }

-- An entry that is filled in and linked to the next.
fill_range-Opening :
    (h : ℕ) (s : Mmu) (rs : List Bounds) (start end : ℕ)
    → h + 32 * length rs < 2 ^ 40
    → Opening h s rs
    → Opening h
        (link_range (fill_range start end s))
        (rs ++ record { start = start; end = end } ∷ [])
unfolding link_range fill_range
fill_range-Opening h s rs start end below o =
    let c = s.addr_range_curr in
    let more = length-append rs (record { start = start; end = end } ∷ []) in
    record {
      entries =
          Open-append _ h rs (record { start = start; end = end }) c o.curr
            (Open-other _ c _ h rs (omega (arith, o.curr))
              (Open-other s.range c _ h rs (omega (arith, o.curr)) o.entries))
            (update_self _ c _
              ∙ ap (λ (r : Range). record r { next_entry = s.local_heap_ptr })
                  (update_self s.range c _)
              ∙ ap (range_at (record { start = start; end = end }))
                  (omega (arith, o.heap, o.curr)));
      curr = omega (arith, o.heap, more);
      heap = omega (arith, o.heap, more);
      head = o.head;
    }

-- The state stands for the ranges `rs`: at the start the current entry is the first place.
abbrev pub Built : ℕ → Mmu → List Bounds → Type 0
Built h s all =
    ((all ≡ []) × (s.addr_range_curr ≡ h) × (s.local_heap_ptr ≡ h) × (s.addr_range_head ≡ h))
    ⊎ ((rs : List Bounds) × (last : Bounds) × (all ≡ rs ++ last ∷ []) × Closed h s rs last)

-- The ranges of one entry of the memory map.
abbrev pub ranges_of : ℕ → ℕ → ℕ → ℕ → List Bounds
ranges_of kernel_start kernel_end start end =
    if leb start kernel_start && leb kernel_end end
    then if kernel_start == start
      then record { start = page_align kernel_end; end = end } ∷ []
      else record { start = start; end = kernel_start }
        ∷ record { start = page_align kernel_end; end = end }
        ∷ []
    else record { start = start; end = end } ∷ []

Built-Opening :
    (h : ℕ) (s : Mmu) (all : List Bounds)
    → h + 32 * length all < 2 ^ 40
    → Built h s all
    → Opening h (link_range s) all
Built-Opening h s all below (inl (none_yet, curr, heap, head)) =
    let (curr', heap', head') = link_range-rest s in
    subst (Opening h (link_range s)) (sym none_yet) record {
      entries = tt;
      curr = omega (arith, curr', heap);
      heap = omega (arith, heap', heap, ap length none_yet);
      head = head' ∙ head;
    }
Built-Opening h s all below (inr (rs, last, is, k)) =
    subst (Opening h (link_range s)) (sym is)
      (link_range-Opening h s rs last (omega (arith, ap length is, length-append rs (last ∷ []))) k)

around-Built :
    (h : ℕ) (s : Mmu) (all : List Bounds) (kernel_start kernel_end start end : ℕ)
    → h + 32 * length all < 2 ^ 40
    → Opening h s all
    → let s' =
        if leb start kernel_start && leb kernel_end end
        then around_kernel kernel_start kernel_end start end s
        else fill_last start end s in
      Built h s' (all ++ ranges_of kernel_start kernel_end start end)
unfolding around_kernel
around-Built h s all kernel_start kernel_end start end below o =
    elim (Bool-cases (leb start kernel_start && leb kernel_end end)) [
      | inr e ↦ rw e (
          inr
            (all, record { start = start; end = end }, refl, fill_last-Closed h s all start end o))
      | inl e ↦ elim (Bool-cases (kernel_start == start)) [
        | inl at ↦
            rw (e, at) (inr (all, _, refl, fill_last-Closed h s all (page_align kernel_end) end o))
        | inr after ↦
            let first : Bounds = record { start = start; end = kernel_start } in
            rw (e, after)
              (inr (
                all ++ first ∷ [],
                _,
                sym (append_assoc all (first ∷ []) _),
                fill_last-Closed h _ (all ++ first ∷ []) (page_align kernel_end) end
                    (fill_range-Opening h s all start kernel_start below o),
              ))
      ]
    ]

Built-heap :
    (h : ℕ) (s : Mmu) (all : List Bounds) → Built h s all → s.local_heap_ptr ≡ h + 32 * length all
Built-heap h s all (inl (none_yet, curr, heap, head)) = omega (arith, heap, ap length none_yet)
Built-heap h s all (inr (rs, last, is, k)) =
    omega (arith, k.opening.heap, ap length is, length-append rs (last ∷ []))

Built-curr : (h : ℕ) (s : Mmu) (all : List Bounds) → Built h s all → h ≤ s.addr_range_curr
Built-curr h s all (inl (none_yet, curr, heap, head)) = omega (arith, curr)
Built-curr h s all (inr (rs, last, is, k)) = omega (arith, k.opening.curr)

-- What an entry of the memory map adds, and what `n` of them add.
abbrev pub ranges_at : (ℕ → ℕ) → ℕ → ℕ → ℕ → List Bounds
ranges_at mem kernel_start kernel_end entry =
    if mmap_type mem entry == 1
    then ranges_of kernel_start kernel_end (mmap_addr mem entry)
        (add64 (mmap_addr mem entry) (mmap_len mem entry))
    else []

abbrev pub all_ranges : ℕ → (ℕ → ℕ) → ℕ → ℕ → ℕ → List Bounds
all_ranges zero mem kernel_start kernel_end entry = []
all_ranges (suc n) mem kernel_start kernel_end entry =
    ranges_at mem kernel_start kernel_end entry
    ++ all_ranges n mem kernel_start kernel_end (entry + 24)

map_entry-Built :
    (h : ℕ) (s : Mmu) (all : List Bounds) (mem : ℕ → ℕ) (kernel_start kernel_end entry : ℕ)
    → 0 < h
    → h + 32 * length all ≤ 8192
    → Built h s all
    → Returns
        (map_entry mem kernel_start kernel_end entry s)
        λ (s' : Mmu). Built h s' (all ++ ranges_at mem kernel_start kernel_end entry)
unfolding map_entry
map_entry-Built h s all mem kernel_start kernel_end entry pos room built =
    elim (Bool-cases (mmap_type mem entry == 1)) [
      | inr e ↦ rw e (s, refl, subst (Built h s) (sym (append-nil all)) built)
      | inl e ↦
          let start = mmap_addr mem entry in
          let end = add64 start (mmap_len mem entry) in
          let heap = Built-heap h s all built in
          let built' =
            around-Built h (link_range s) all kernel_start kernel_end start end (omega arith)
              (Built-Opening h s all (omega arith) built) in
          let s2 : Mmu =
            if leb start kernel_start && leb kernel_end end
            then around_kernel kernel_start kernel_end start end (link_range s)
            else fill_last start end (link_range s) in
          let there = Built-curr h s2 _ built' in
          rw
            (
              e,
              ne→== s.local_heap_ptr 0 (λ z. omega arith),
              not_above s.local_heap_ptr (omega arith),
              ne→== s2.addr_range_curr 0 (λ z. omega (arith, there)),
            )
            (s2, refl, built')
    ]
  where
    not_above : (x : ℕ) → x ≤ 8192 → ltb 8192 x ≡ false
    not_above x small = ground arith

map_entries-Built :
    (n h : ℕ) (s : Mmu) (all : List Bounds) (mem : ℕ → ℕ) (kernel_start kernel_end entry : ℕ)
    → 0 < h
    → h + 32 * (length all + length (all_ranges n mem kernel_start kernel_end entry)) ≤ 8192
    → Built h s all
    → Returns
        (map_entries n mem kernel_start kernel_end entry s)
        λ (s' : Mmu). Built h s' (all ++ all_ranges n mem kernel_start kernel_end entry)
unfolding map_entries
map_entries-Built zero h s all mem kernel_start kernel_end entry pos room built =
    (s, refl, subst (Built h s) (sym (append-nil all)) built)
map_entries-Built (suc n) h s all mem kernel_start kernel_end entry pos room built =
    let here = ranges_at mem kernel_start kernel_end entry in
    let rest = all_ranges n mem kernel_start kernel_end (entry + 24) in
    let split = length-append here rest in
    let (s1, call, built1) =
      map_entry-Built h s all mem kernel_start kernel_end entry pos (omega (arith, split)) built in
    let (s2, call2, built2) =
      map_entries-Built n h s1 (all ++ here) mem kernel_start kernel_end (entry + 24) pos
        (omega (arith, split, length-append all here)) built1 in
    (s2, rw call call2, subst (Built h s2) (append_assoc all here rest) built2)

-- The loop of addr_map_init over the memory map returns, with a linked list of exactly the ranges
-- of the available entries in their order, each from its start, one place of 32 bytes behind the
-- other from the local heap on, the last with no next entry: an entry around the kernel gives what
-- is below the kernel, if anything is, and what follows the page-aligned end of the kernel. The
-- local heap is not at 0, and the list ends by 8192.
pub map_entries-start_list :
    (n : ℕ) (s : Mmu) (mem : ℕ → ℕ) (kernel_start kernel_end entry : ℕ)
    → 0 < s.local_heap_ptr
    → s.local_heap_ptr + 32 * length (all_ranges n mem kernel_start kernel_end entry) ≤ 8192
    → Returns
        (map_entries n mem kernel_start kernel_end entry (start_list s))
        λ (s' : Mmu). Built s.local_heap_ptr s' (all_ranges n mem kernel_start kernel_end entry)
unfolding start_list
map_entries-start_list n s mem kernel_start kernel_end entry pos room =
    map_entries-Built n s.local_heap_ptr (start_list s) [] mem kernel_start kernel_end entry pos
      (omega (arith, room)) (inl (refl, refl, refl, refl))
