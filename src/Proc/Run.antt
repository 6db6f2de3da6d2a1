-- ===== src/Proc/Run.antt =====
-- PROC_run, PROC_reschedule and kexit of kproc.c over the round robin scheduler.
use csc.Base.{
  ℕ, ◌≡◌, refl, ◌∙◌, List, [], ◌∷◌, true, false, ◌==◌, null, update, has, has-append, arith, ne→==,
  ◌≢◌,
}
use csc.Base.Outcome.{ok, halted, Returns, ◌>>=◌}
use csc.Sched.{Sched, rr_admit, rr_next}
use csc.Sched.Queue.{IsQueue, IsQueue-valid, head_or}
use csc.Sched.Next.{rr_next-rotate, rotate}
use csc.Proc.Interface.{rr}
use csc.Proc.{Proc, using, reschedule, init, run, kexit, next_of, live}

-- The kernel runs round robin, on a pool that stands for the queue.
abbrev pub OnQueue : Proc → List ℕ → Type 1
OnQueue s q = (p : Sched) × (s.active ≡ using rr p) × IsQueue p q

-- PROC_reschedule under round robin, on a pool that stands for a queue, makes the head of the
-- queue the running thread, NULL if it is empty, moves it to the end, and frees nothing.
pub reschedule-head :
    (s : Proc) (q : List ℕ)
    → OnQueue s q
    → Returns
        (reschedule s)
        (λ s'. (s'.curr_kthread ≡ head_or null q) × OnQueue s' (rotate q) × (s'.freed ≡ s.freed))
unfolding reschedule
reschedule-head s q (p, active, is) =
    let ((t, p'), chosen, (first, is')) = rr_next-rotate p q is in
    (
      record s { active = using rr p'; curr_kthread = t },
      rw (active, next_of) (rw chosen refl),
      (first, (p', refl, is'), refl),
    )

has-rotate : (t : ℕ) (q : List ℕ) → has t (rotate q) ≡ has t q
has-rotate t [] = refl
has-rotate t (a ∷ q) = ground (arith, has-append t q (a ∷ []))

-- Under round robin, on a pool that stands for a queue with the running thread in it, not NULL, a
-- thread that calls kexit is handed to kfree with its stack, the head of the queue runs next, and
-- the pool stands for the queue of before with its head at the end, the freed thread in it.
pub kexit-still_queued :
    (s : Proc) (q : List ℕ)
    → OnQueue s q
    → s.curr_kthread ≢ null
    → has s.curr_kthread q ≡ true
    → Returns (kexit s) (λ s'.
      (s'.freed ≡ s.curr_kthread ∷ s.stack s.curr_kthread ∷ s.freed)
      × (s'.curr_kthread ≡ head_or null q)
      × OnQueue s' (rotate q)
      × (has s.curr_kthread (rotate q) ≡ true))
unfolding kexit
kexit-still_queued s q on ne member =
    let (s', run, (first, on', same)) =
      reschedule-head (record s { freed = s.curr_kthread ∷ s.stack s.curr_kthread ∷ s.freed }) q
        on in
    (s', rw (ne→== _ _ ne) run, (same, first, on', has-rotate s.curr_kthread q ∙ member))

module _ (s : Proc) (thread : ℕ) (rr_pool : Sched) (ready : s.setup ≡ true) where
  -- One round of PROC_run, once the kernel is set up: choose, then admit again.
  run-eq :
      (p p' p'' : Sched) (t : ℕ)
      → s.active ≡ using rr p
      → rr_next p ≡ ok (t, p')
      → (t == null) ≡ false
      → rr_admit t p' ≡ ok p''
      → run thread rr_pool s
        ≡ ok (record s { active = using rr p''; curr_kthread = t; status = update s.status t live })
  unfolding run init reschedule
  run-eq p p' p'' t active chosen live_one admitted =
      rw ready (rw (active, next_of) (rw chosen (rw live_one (rw admitted refl))))

  run-halted :
      (p : Sched) → s.active ≡ using rr p → rr_next p ≡ halted → run thread rr_pool s ≡ halted
  unfolding run init reschedule
  run-halted p active stops = rw ready (rw (active, next_of) (rw stops refl))

-- The pool of one thread, after that thread is admitted again.
twice : Sched → Sched
twice p = record {
  next = update p.next p.ll_tail p.ll_head;
  prev = update p.prev p.ll_head p.ll_tail;
  ll_head = p.ll_head;
  ll_tail = p.ll_head;
  ll_len = 2;
}

module _ (p : Sched) (a : ℕ) (is : IsQueue p (a ∷ [])) where
  next_single : rr_next p ≡ ok (p.ll_head, p)
  unfolding rr_next
  next_single = rw (IsQueue-valid p (a ∷ []) is) (ground (arith, is.size))

  admit_single : rr_admit p.ll_head p ≡ ok (twice p)
  unfolding rr_admit twice
  admit_single =
      rw (IsQueue-valid p (a ∷ []) is) (ground (arith, is.size, is.head, is.tail, is.no_null))

  next_twice : rr_next (twice p) ≡ halted
  unfolding rr_next twice
  next_twice = ground (arith, is.head, is.no_null)

-- Once the kernel is set up, and under round robin, a pool with one thread does not survive
-- PROC_run: the thread is admitted a second time, and the next PROC_run halts the machine.
pub run_twice-halted :
    (s : Proc) (a thread : ℕ) (rr_pool : Sched)
    → s.setup ≡ true
    → OnQueue s (a ∷ [])
    → (run thread rr_pool s >>= run thread rr_pool) ≡ halted
run_twice-halted s a thread rr_pool ready (p, active, is) =
    rw
      (run-eq s thread rr_pool ready p p (twice p) p.ll_head active (next_single p a is)
        (ground (arith, is.head, is.no_null)) (admit_single p a is))
      (run-halted _ thread rr_pool ready (twice p) refl (next_twice p a is))
