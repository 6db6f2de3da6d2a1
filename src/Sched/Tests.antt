-- ===== src/Sched/Tests.antt =====
-- The scheduler's theorems at a pool of three threads, and runs of it.
use csc.Base.{◌≡◌, refl, [], ◌∷◌, arith, null, update, ◌==◌, if◌then◌else◌}
use csc.Base.Outcome.{ok, halted, Returns, ◌>>=◌}
use csc.Sched.{Sched, rr_admit, rr_remove, rr_next}
use csc.Sched.Queue.{IsQueue}
use csc.Sched.Admit.{rr_admit-append}
use csc.Sched.Next.{rr_next-rotate, serve, serve_all}
use csc.Sched.Remove.{rr_remove-erase}

abbrev empty : Sched
empty = record { next = λ _. 7; prev = λ _. 7; ll_head = null; ll_tail = null; ll_len = 0 }

-- 16, 32, 48: the last one's `sched_next` is whatever was there.
abbrev pool : Sched
pool = record {
  next = λ t. if t == 16 then 32 else if t == 32 then 48 else 7;
  prev = λ t. if t == 48 then 32 else if t == 32 then 16 else null;
  ll_head = 16;
  ll_tail = 48;
  ll_len = 3;
}

pool-IsQueue : IsQueue pool (16 ∷ 32 ∷ 48 ∷ [])
pool-IsQueue = record {
  head = refl;
  tail = refl;
  size = refl;
  links = (refl, refl, (refl, refl, tt));
  no_null = refl;
  distinct = (refl, (refl, (refl, tt)));
}

rr_admit-append_example : Returns (rr_admit 64 pool) (λ s. IsQueue s (16 ∷ 32 ∷ 48 ∷ 64 ∷ []))
rr_admit-append_example =
    rr_admit-append pool (16 ∷ 32 ∷ 48 ∷ []) 64 pool-IsQueue (omega arith) refl (omega arith)

rr_next-rotate_example : Returns (rr_next pool) (λ (t, s). (t ≡ 16) × IsQueue s (32 ∷ 48 ∷ 16 ∷ []))
rr_next-rotate_example = rr_next-rotate pool (16 ∷ 32 ∷ 48 ∷ []) pool-IsQueue

serve_all_example :
    Returns (serve 3 pool) (λ (ts, s). (ts ≡ 16 ∷ 32 ∷ 48 ∷ []) × IsQueue s (16 ∷ 32 ∷ 48 ∷ []))
serve_all_example = serve_all pool (16 ∷ 32 ∷ 48 ∷ []) pool-IsQueue

rr_remove-erase_example : Returns (rr_remove 32 pool) (λ s. IsQueue s (16 ∷ 48 ∷ []))
rr_remove-erase_example = rr_remove-erase pool (16 ∷ 32 ∷ 48 ∷ []) 32 pool-IsQueue refl

-- Two threads enter an empty pool, and the first leaves it: the second is served.
second_served :
    (do s ← rr_admit 16 empty; s ← rr_admit 32 s; s ← rr_remove 16 s; (t, _) ← rr_next s; ok t)
    ≡ ok 32
unfolding rr_admit rr_remove rr_next update
second_served = refl

-- A thread that is in no pool empties a pool of one.
stranger_empties :
    (do s ← rr_admit 16 empty; s ← rr_remove 32 s; (t, _) ← rr_next s; ok t) ≡ ok null
unfolding rr_admit rr_remove rr_next update
stranger_empties = refl

-- A thread that is admitted twice stops the machine.
admitted_twice : (rr_admit 16 empty >>= rr_admit 16 >>= rr_next) ≡ halted
unfolding rr_admit rr_next update
admitted_twice = refl
