-- ===== src/Sched/Admit.antt =====
-- rr_admit of ksched.c.
use csc.Base.{
  ℕ, ◌+◌, ◌-◌, ◌<◌, ◌^◌, ◌≡◌, refl, sym, ◌≢◌, List, [], ◌∷◌, ◌++◌, false, arith, null, update,
  length, has, has-append, Distinct, length-append,
}
use mathlib.Core.Path.{subst}
use csc.Base.Outcome.{Returns}
use csc.Sched.{Sched, rr_admit}
use csc.Sched.Queue.{IsQueue, IsQueue-valid, Links, last_or, has-last_or, ne_of_has}

-- A write at a thread outside the queue leaves the queue's links alone.
pub Links-update_next :
    (n p : ℕ → ℕ) (a v : ℕ) (q : List ℕ) → has a q ≡ false → Links n p q → Links (update n a v) p q
unfolding update
Links-update_next n p a v [] h l = tt
Links-update_next n p a v (b ∷ []) h l = tt
Links-update_next n p a v (b ∷ c ∷ r) h l =
    (ground (arith, l.0), l.1, Links-update_next n p a v (c ∷ r) (ground arith) l.2)

pub Links-update_prev :
    (n p : ℕ → ℕ) (a v : ℕ) (q : List ℕ) → has a q ≡ false → Links n p q → Links n (update p a v) q
unfolding update
Links-update_prev n p a v [] h l = tt
Links-update_prev n p a v (b ∷ []) h l = tt
Links-update_prev n p a v (b ∷ c ∷ r) h l =
    (l.0, ground (arith, l.1), Links-update_prev n p a v (c ∷ r) (ground arith) l.2)

-- Linking `t` behind the last thread, in both directions.
pub Links-snoc :
    (n p : ℕ → ℕ) (t a : ℕ) (q : List ℕ)
    → has t (a ∷ q) ≡ false
    → Distinct (a ∷ q)
    → Links n p (a ∷ q)
    → Links (update n (last_or a q) t) (update p t (last_or a q)) ((a ∷ q) ++ t ∷ [])
unfolding update
Links-snoc n p t a [] h d l = (ground arith, ground arith, tt)
Links-snoc n p t a (b ∷ q) h d l = (
  ground (arith, l.0, has-last_or b q, ne_of_has (last_or b q) a (b ∷ q)),
  ground (arith, l.1),
  Links-snoc n p t b q (ground arith) d.1 l.2,
)

pub last_or-snoc : (d t : ℕ) (q : List ℕ) → last_or d (q ++ t ∷ []) ≡ t
last_or-snoc d t [] = refl
last_or-snoc d t (b ∷ q) = last_or-snoc b t q

pub Distinct-snoc : (t : ℕ) (q : List ℕ) → has t q ≡ false → Distinct q → Distinct (q ++ t ∷ [])
Distinct-snoc t [] h d = (refl, tt)
Distinct-snoc t (b ∷ q) h d =
    (ground (arith, has-append b q (t ∷ []), d.0), Distinct-snoc t q (ground arith) d.1)

module _ (s : Sched) (t : ℕ) (ne : t ≢ null) where
  -- The only thread of a pool that was empty.
  admit_empty : IsQueue s [] → Returns (rr_admit t s) (λ s'. IsQueue s' (t ∷ []))
  unfolding rr_admit
  admit_empty is = (
    record {
      next = update s.next t null;
      prev = update s.prev t null;
      ll_head = t;
      ll_tail = t;
      ll_len = 1;
    },
    rw (IsQueue-valid s [] is) (ground (arith, is.size)),
    record {
      head = refl;
      tail = refl;
      size = refl;
      links = tt;
      no_null = ground arith;
      distinct = (refl, tt);
    },
  )

  admit_behind :
      (a : ℕ) (q : List ℕ)
      → IsQueue s (a ∷ q)
      → has t (a ∷ q) ≡ false
      → length (a ∷ q) < 2 ^ 64 - 1
      → Returns (rr_admit t s) (λ s'. IsQueue s' ((a ∷ q) ++ t ∷ []))
  unfolding rr_admit
  admit_behind a q is out small = (
    record {
      next = update s.next s.ll_tail t;
      prev = update s.prev t s.ll_tail;
      ll_head = s.ll_head;
      ll_tail = t;
      ll_len = s.ll_len + 1;
    },
    rw (IsQueue-valid s (a ∷ q) is)
        (ground (arith, is.size, is.tail, has-last_or a q, ne_of_has (last_or a q) null (a ∷ q))),
    record {
      head = is.head;
      tail = sym (last_or-snoc a t q);
      size = omega (arith, is.size, length-append (a ∷ q) (t ∷ []));
      links =
          subst (λ l. Links (update s.next l t) (update s.prev t l) ((a ∷ q) ++ t ∷ []))
            (sym is.tail) (Links-snoc s.next s.prev t a q out is.distinct is.links);
      no_null = ground (arith, has-append null (a ∷ q) (t ∷ []), is.no_null);
      distinct = Distinct-snoc t (a ∷ q) out is.distinct;
    },
  )

-- On a pool that stands for a queue shorter than the greatest size_t, rr_admit of a thread that is
-- neither NULL nor in it returns, and the new pool stands for the queue with the thread at its
-- end.
pub rr_admit-append :
    (s : Sched) (q : List ℕ) (t : ℕ)
    → IsQueue s q
    → t ≢ null
    → has t q ≡ false
    → length q < 2 ^ 64 - 1
    → Returns (rr_admit t s) (λ s'. IsQueue s' (q ++ t ∷ []))
rr_admit-append s [] t is ne out small = admit_empty s t ne is
rr_admit-append s (a ∷ q) t is ne out small = admit_behind s t ne a q is out small
