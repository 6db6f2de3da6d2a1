-- ===== src/Sched/Remove.antt =====
-- rr_remove of ksched.c.
use csc.Base.{
  ℕ, ◌-◌, ◌≡◌, refl, sym, ◌≢◌, inl, inr, List, [], ◌∷◌, ◌∙◌, update_self, update_ne, ==_refl, ne→==,
  true, false, arith, ◌==◌, if◌then◌else◌, null, update, length, has, Distinct, Bool-cases, ==→eq,
  ==→ne,
}
use mathlib.Core.Path.{subst}
use csc.Base.Outcome.{Returns}
use csc.Sched.{Sched, rr_remove}
use csc.Sched.Queue.{IsQueue, IsQueue-valid, Links, last_or, has-last_or, ne_of_has}
use csc.Sched.Admit.{Links-update_next, Links-update_prev}
use csc.Sched.Next.{Links-update_head}

abbrev pub erase : ℕ → List ℕ → List ℕ
erase v [] = []
erase v (x ∷ q) = if v == x then q else x ∷ erase v q

has-erase : (a v : ℕ) (q : List ℕ) → has a q ≡ false → has a (erase v q) ≡ false
has-erase a v [] h = refl
has-erase a v (x ∷ q) h = ground (arith, has-erase a v q)

has-erase_self : (v : ℕ) (q : List ℕ) → Distinct q → has v (erase v q) ≡ false
has-erase_self v [] d = refl
has-erase_self v (x ∷ q) d = ground (arith, has-erase_self v q d.1, d.0)

Distinct-erase : (v : ℕ) (q : List ℕ) → Distinct q → Distinct (erase v q)
Distinct-erase v [] d = tt
Distinct-erase v (x ∷ q) d = elim (Bool-cases (v == x)) [
  | inl e ↦ rw e d.1
  | inr e ↦ rw e (has-erase x v q d.0, Distinct-erase v q d.1)
]

length-erase : (v : ℕ) (q : List ℕ) → has v q ≡ true → length (erase v q) ≡ length q - 1
length-erase v [] h = refl
length-erase v (x ∷ []) h = ground arith
length-erase v (x ∷ y ∷ q) h = ground (arith, length-erase v (y ∷ q))

last_or-erase : (v a : ℕ) (q : List ℕ) → v ≢ last_or a q → last_or a (erase v q) ≡ last_or a q
last_or-erase v a [] h = refl
last_or-erase v a (b ∷ []) h = ground arith
last_or-erase v a (b ∷ c ∷ q) h = ground (arith, last_or-erase v b (c ∷ q) h)

-- The neighbours of a thread of the queue are threads of the queue.
prev-mem :
    (n p : ℕ → ℕ) (v a : ℕ) (q : List ℕ)
    → Links n p (a ∷ q)
    → has v q ≡ true
    → has (p v) (a ∷ q) ≡ true
prev-mem n p v a [] l h = cc
prev-mem n p v a (b ∷ q) l h = ground (arith, l.1, prev-mem n p v b q l.2)

next-mem :
    (n p : ℕ → ℕ) (v a : ℕ) (q : List ℕ)
    → Links n p (a ∷ q)
    → has v (a ∷ q) ≡ true
    → v ≢ last_or a q
    → has (n v) q ≡ true
next-mem n p v a [] l h ne = ground arith
next-mem n p v a (b ∷ q) l h ne = ground (arith, l.0, next-mem n p v b q l.2)

ne_of_has_flip : (a b : ℕ) (q : List ℕ) → has a q ≡ false → has b q ≡ true → a ≢ b
ne_of_has_flip a b q h k e = ne_of_has b a q k h (sym e)

-- A thread in the middle is cut out by joining its neighbours.
Links-cut :
    (n p : ℕ → ℕ) (v a : ℕ) (q : List ℕ)
    → Links n p (a ∷ q)
    → Distinct (a ∷ q)
    → has v q ≡ true
    → v ≢ last_or a q
    → Links (update n (p v) (n v)) (update p (n v) (p v)) (a ∷ erase v q)
Links-cut n p v a [] l d h ne = tt
Links-cut n p v a (b ∷ []) l d h ne = absurd (ne (ground arith))
Links-cut n p v a (b ∷ c ∷ r) l d h ne = elim (Bool-cases (v == b)) [
  | inl e ↦
      let here : v ≡ b = ==→eq v b e in
      let next_is : n v ≡ c = ground (arith, l.2.0) in
      let prev_is : p v ≡ a = ground (arith, l.1) in
      rw e (
        rw prev_is (update_self n a (n v) ∙ next_is),
        rw next_is (update_self p c (p v) ∙ prev_is),
        subst (λ t. Links (update n (p v) (n v)) (update p t (p v)) (c ∷ r)) (sym next_is)
            (Links-update_next n (update p c (p v)) (p v) (n v) (c ∷ r) (ground (arith, d.0, l.1))
              (Links-update_head n p c (p v) r d.1.1.0 l.2.2)),
      )
  | inr e ↦
      let behind : has v (c ∷ r) ≡ true = ground arith in
      let before : has (p v) (b ∷ c ∷ r) ≡ true = prev-mem n p v b (c ∷ r) l.2 behind in
      let after : has (n v) (c ∷ r) ≡ true = next-mem n p v b (c ∷ r) l.2 (ground arith) ne in
      rw e (
        update_ne n (p v) (n v) a (ne_of_has_flip a (p v) (b ∷ c ∷ r) d.0 before) ∙ l.0,
        update_ne p (n v) (p v) b (ne_of_has_flip b (n v) (c ∷ r) d.1.0 after) ∙ l.1,
        Links-cut n p v b (c ∷ r) l.2 d.1 behind ne,
      )
]

-- The last thread is dropped by ending the list at the one before it.
Links-init :
    (n p : ℕ → ℕ) (v a b : ℕ) (q : List ℕ)
    → Links n p (a ∷ b ∷ q)
    → Distinct (a ∷ b ∷ q)
    → v ≡ last_or b q
    → Links (update n (p v) null) p (a ∷ erase v (b ∷ q)) × (last_or a (erase v (b ∷ q)) ≡ p v)
unfolding update
Links-init n p v a b [] l d e = rw e (rw (==_refl b) (tt, sym l.1))
Links-init n p v a b (c ∷ q) l d e =
    let last : has v (c ∷ q) ≡ true = subst (λ t. has t (c ∷ q) ≡ true) (sym e) (has-last_or c q) in
    let before : has (p v) (b ∷ c ∷ q) ≡ true = prev-mem n p v b (c ∷ q) l.2 last in
    let rest = Links-init n p v b c q l.2 d.1 e in
    let miss : (v == b) ≡ false = ne→== v b (ne_of_has v b (c ∷ q) last d.1.0) in
    rw miss (
      (
        (
          update_ne n (p v) null a (ne_of_has_flip a (p v) (b ∷ c ∷ q) d.0 before) ∙ l.0,
          l.1,
          rest.0,
        ),
        rest.1,
      ))

prev-ne :
    (n p : ℕ → ℕ) (v a : ℕ) (q : List ℕ)
    → Links n p (a ∷ q)
    → Distinct (a ∷ q)
    → has v q ≡ true
    → v ≢ p v
prev-ne n p v a [] l d h = cc
prev-ne n p v a (b ∷ q) l d h = elim (Bool-cases (v == b)) [
  | inl e ↦ ground (arith, l.1, d.0)
  | inr e ↦ prev-ne n p v b q l.2 d.1 (ground arith)
]

-- The pool after the victim's own two pointers are cleared.
clear-Links :
    (n p : ℕ → ℕ) (v : ℕ) (q : List ℕ)
    → has v q ≡ false
    → Links n p q
    → Links (update n v null) (update p v null) q
clear-Links n p v q h l =
    Links-update_next n (update p v null) v null q h (Links-update_prev n p v null q h l)

module _ (s : Sched) (v a b : ℕ) (r : List ℕ) (is : IsQueue s (a ∷ b ∷ r)) where
  abbrev Removes : Type 0
  Removes = Returns (rr_remove v s) (λ s'. IsQueue s' (erase v (a ∷ b ∷ r)))

  remove_head : (v == a) ≡ true → Removes
  unfolding rr_remove
  remove_head e = (
    record {
      next = update s.next v null;
      prev = update (update s.prev b null) v null;
      ll_head = b;
      ll_tail = s.ll_tail;
      ll_len = s.ll_len - 1;
    },
    rw (IsQueue-valid s (a ∷ b ∷ r) is) (ground (arith, is.head, is.size, is.links.0, is.no_null)),
    rw e (record {
      head = refl;
      tail = is.tail;
      size = omega (arith, is.size);
      links =
          clear-Links _ _ v (b ∷ r) (ground (arith, is.distinct.0))
            (Links-update_head s.next s.prev b null r is.distinct.1.0 is.links.2);
      no_null = ground (arith, is.no_null);
      distinct = is.distinct.1;
    }),
  )

  module _ (member : has v (b ∷ r) ≡ true) (inner : (v == a) ≡ false) where
    -- What is left to show of a pool that has lost a thread behind the head.
    removed-IsQueue :
        (n p : ℕ → ℕ) (t : ℕ)
        → Links n p (a ∷ erase v (b ∷ r))
        → t ≡ last_or a (erase v (b ∷ r))
        → IsQueue
            (record {
              next = update n v null;
              prev = update p v null;
              ll_head = s.ll_head;
              ll_tail = t;
              ll_len = s.ll_len - 1;
            })
            (erase v (a ∷ b ∷ r))
    removed-IsQueue n p t chain end = rw inner (record {
      head = is.head;
      tail = end;
      size = omega (arith, is.size, length-erase v (b ∷ r) member);
      links = clear-Links n p v (a ∷ erase v (b ∷ r)) out chain;
      no_null = ground (arith, is.no_null, has-erase null v (b ∷ r));
      distinct = (has-erase a v (b ∷ r) is.distinct.0, Distinct-erase v (b ∷ r) is.distinct.1);
    })
      where
        out : has v (a ∷ erase v (b ∷ r)) ≡ false
        out = ground (arith, has-erase_self v (b ∷ r) is.distinct.1)

    remove_tail : v ≡ last_or b r → Removes
    unfolding rr_remove
    remove_tail e =
        let (chain, end) = Links-init s.next s.prev v a b r is.links is.distinct e in
        (
          record {
            next = update (update s.next (s.prev v) null) v null;
            prev = update s.prev v null;
            ll_head = s.ll_head;
            ll_tail = s.prev v;
            ll_len = s.ll_len - 1;
          },
          rw (IsQueue-valid s (a ∷ b ∷ r) is) (
              ground (
                arith,
                is.head,
                is.tail,
                is.size,
                is.no_null,
                e,
                ne_of_has (s.prev v) null (a ∷ b ∷ r)
                    (prev-mem s.next s.prev v a (b ∷ r) is.links member) is.no_null,
              )),
          removed-IsQueue _ s.prev (s.prev v) chain (sym end),
        )

    remove_middle : v ≢ last_or b r → Removes
    unfolding rr_remove
    remove_middle ne = (
      record {
        next = update (update s.next (s.prev v) (s.next v)) v null;
        prev = update (update s.prev (s.next v) (s.prev v)) v null;
        ll_head = s.ll_head;
        ll_tail = s.ll_tail;
        ll_len = s.ll_len - 1;
      },
      rw (IsQueue-valid s (a ∷ b ∷ r) is) (
          ground (
            arith,
            is.head,
            is.tail,
            is.size,
            is.no_null,
            ne_of_has v null (b ∷ r) member,
            update_ne s.next (s.prev v) (s.next v) v
                (prev-ne s.next s.prev v a (b ∷ r) is.links is.distinct member),
            ne_of_has (s.prev v) null (a ∷ b ∷ r)
                (prev-mem s.next s.prev v a (b ∷ r) is.links member) is.no_null,
            ne_of_has (s.next v) null (b ∷ r)
                (next-mem s.next s.prev v a (b ∷ r) is.links (ground arith) ne),
          )),
      removed-IsQueue _ _ s.ll_tail
          (Links-cut s.next s.prev v a (b ∷ r) is.links is.distinct member ne)
          (is.tail ∙ sym (last_or-erase v a (b ∷ r) ne)),
    )

-- On a pool that stands for a queue, rr_remove of a thread of the queue returns, and the new pool
-- stands for the queue without it.
pub rr_remove-erase :
    (s : Sched) (q : List ℕ) (v : ℕ)
    → IsQueue s q
    → has v q ≡ true
    → Returns (rr_remove v s) (λ s'. IsQueue s' (erase v q))
unfolding rr_remove
rr_remove-erase s [] v is member = cc
rr_remove-erase s (a ∷ []) v is member = (
  record {
    next = update s.next v null;
    prev = update s.prev v null;
    ll_head = null;
    ll_tail = null;
    ll_len = 0;
  },
  rw (IsQueue-valid s (a ∷ []) is) (ground (arith, is.size, is.no_null)),
  rw only
      (record { head = refl; tail = refl; size = refl; links = tt; no_null = refl; distinct = tt }),
)
  where
    only : (v == a) ≡ true
    only = ground arith
rr_remove-erase s (a ∷ b ∷ r) v is member = elim (Bool-cases (v == a)) [
  | inl first ↦ remove_head s v a b r is first
  | inr inner ↦
      let behind : has v (b ∷ r) ≡ true = ground arith in
      elim (Bool-cases (v == last_or b r)) [
        | inl last ↦ remove_tail s v a b r is behind inner (==→eq _ _ last)
        | inr middle ↦ remove_middle s v a b r is behind inner (==→ne _ _ middle)
      ]
]
