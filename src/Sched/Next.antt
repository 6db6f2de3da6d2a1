-- ===== src/Sched/Next.antt =====
-- rr_next of ksched.c, and the order in which repeated calls serve the threads.
use mathlib.Core.Path.{subst}
use mathlib.Core.List.{append-nil, append_assoc}
use csc.Base.{
  ℕ, zero, suc, ◌≡◌, refl, sym, List, [], ◌∷◌, ◌++◌, false, arith, null, update, length, has,
  has-append, length-append,
}
use csc.Base.Outcome.{Outcome, ok, Returns, ◌>>=◌}
use csc.Sched.{Sched, rr_next}
use csc.Sched.Queue.{IsQueue, IsQueue-valid, Links, head_or, last_or, has-last_or, ne_of_has}
use csc.Sched.Admit.{Links-update_prev, Links-snoc, last_or-snoc, Distinct-snoc}

abbrev pub rotate : List ℕ → List ℕ
rotate [] = []
rotate (a ∷ q) = q ++ a ∷ []

-- The pointer back from the first thread is never followed.
pub Links-update_head :
    (n p : ℕ → ℕ) (a v : ℕ) (q : List ℕ)
    → has a q ≡ false
    → Links n p (a ∷ q)
    → Links n (update p a v) (a ∷ q)
unfolding update
Links-update_head n p a v [] h l = tt
Links-update_head n p a v (b ∷ r) h l =
    (l.0, ground (arith, l.1), Links-update_prev n p a v (b ∷ r) h l.2)

-- Nor is the pointer on from the last.
pub Links-update_last :
    (n p : ℕ → ℕ) (t v : ℕ) (q : List ℕ)
    → has t q ≡ false
    → Links n p (q ++ t ∷ [])
    → Links (update n t v) p (q ++ t ∷ [])
unfolding update
Links-update_last n p t v [] h l = tt
Links-update_last n p t v (b ∷ []) h l = (ground (arith, l.0), l.1, tt)
Links-update_last n p t v (b ∷ c ∷ r) h l =
    (ground (arith, l.0), l.1, Links-update_last n p t v (c ∷ r) (ground arith) l.2)

rr_next_many :
    (s : Sched) (a b : ℕ) (r : List ℕ)
    → IsQueue s (a ∷ b ∷ r)
    → Returns (rr_next s) (λ (t, s'). (t ≡ a) × IsQueue s' ((b ∷ r) ++ a ∷ []))
unfolding rr_next
rr_next_many s a b r is = (
  (
    a,
    record {
      next = update (update s.next s.ll_tail a) a null;
      prev = update (update s.prev b null) a s.ll_tail;
      ll_head = b;
      ll_tail = a;
      ll_len = s.ll_len;
    },
  ),
  rw (IsQueue-valid s (a ∷ b ∷ r) is) (
      ground (
        arith,
        is.size,
        is.head,
        is.links.0,
        is.no_null,
        is.tail,
        has-last_or b r,
        ne_of_has (last_or b r) null (b ∷ r),
      )),
  (
    refl,
    record {
      head = refl;
      tail = sym (last_or-snoc b a r);
      size = omega (arith, is.size, length-append (b ∷ r) (a ∷ []));
      links = Links-update_last _ _ a null (b ∷ r) is.distinct.0 (
          subst
            (λ l. Links (update s.next l a) (update (update s.prev b null) a l) ((b ∷ r) ++ a ∷ []))
            (sym is.tail)
            (Links-snoc s.next (update s.prev b null) a b r is.distinct.0 is.distinct.1
              (Links-update_head s.next s.prev b null r is.distinct.1.0 is.links.2)));
      no_null = ground (arith, has-append null (b ∷ r) (a ∷ []), is.no_null);
      distinct = Distinct-snoc a (b ∷ r) is.distinct.0 is.distinct.1;
    },
  ),
)

-- On a pool that stands for a queue, rr_next returns the thread at its head, NULL if it is empty,
-- and leaves a pool that stands for the queue with that thread moved to its end.
pub rr_next-rotate :
    (s : Sched) (q : List ℕ)
    → IsQueue s q
    → Returns (rr_next s) (λ (t, s'). (t ≡ head_or null q) × IsQueue s' (rotate q))
unfolding rr_next
rr_next-rotate s [] is =
    ((null, s), rw (IsQueue-valid s [] is) (ground (arith, is.size)), (refl, is))
rr_next-rotate s (a ∷ []) is =
    ((s.ll_head, s), rw (IsQueue-valid s (a ∷ []) is) (ground (arith, is.size)), (is.head, is))
rr_next-rotate s (a ∷ b ∷ r) is = rr_next_many s a b r is

-- `k` calls in a row: the threads that they return, and the last state.
pub serve : ℕ → Sched → Outcome (List ℕ × Sched)
serve zero s = ok ([], s)
serve (suc k) s = do (t, s) ← rr_next s; (ts, s) ← serve k s; ok (t ∷ ts, s)

serve_prefix :
    (s : Sched) (q r : List ℕ)
    → IsQueue s (q ++ r)
    → Returns (serve (length q) s) (λ (ts, s'). (ts ≡ q) × IsQueue s' (r ++ q))
unfolding serve
serve_prefix s [] r is = (([], s), refl, (refl, rw (append-nil r) is))
serve_prefix s (a ∷ q) r is =
    let ((t, s1), run1, (got, is1)) = rr_next-rotate s (a ∷ q ++ r) is in
    let ((ts, s2), run2, (all, is2)) =
      serve_prefix s1 q (r ++ a ∷ []) (rw (append_assoc q r (a ∷ [])) at is1) in
    ((t ∷ ts, s2), rw (run1) (rw run2), (cc, rw (append_assoc r (a ∷ []) q) at is2))

-- Round robin is fair: on a pool that stands for a queue, as many calls of rr_next as it has
-- threads return every thread once, in order, and leave the pool standing for the same queue.
pub serve_all :
    (s : Sched) (q : List ℕ)
    → IsQueue s q
    → Returns (serve (length q) s) (λ (ts, s'). (ts ≡ q) × IsQueue s' q)
serve_all s q is = serve_prefix s q [] (rw (append-nil q) is)
