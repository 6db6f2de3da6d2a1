-- ===== src/Proc/Tests.antt =====
-- The theorems on threads at a kernel that runs three, and at one that runs one.
use csc.Base.{ℕ, ◌*◌, ◌/◌, ◌≡◌, refl, [], ◌∷◌, true, arith, null, ◌==◌, if◌then◌else◌, has}
use csc.Base.Outcome.{halted, Returns, ◌>>=◌}
use csc.Sched.{Sched}
use csc.Sched.Queue.{IsQueue}
use csc.Proc.Interface.{rr}
use csc.Proc.{Proc, using, run, kexit}
use csc.Proc.Run.{OnQueue, kexit-still_queued, run_twice-halted}

abbrev pool : Sched
pool = record {
  next = λ t. if t == 16 then 32 else 48;
  prev = λ t. if t == 48 then 32 else 16;
  ll_head = 16;
  ll_tail = 48;
  ll_len = 3;
}

abbrev one : Sched
one = record { next = λ _. null; prev = λ _. null; ll_head = 64; ll_tail = 64; ll_len = 1 }

pool-IsQueue : IsQueue pool (16 ∷ 32 ∷ 48 ∷ [])
pool-IsQueue = record {
  head = refl;
  tail = refl;
  size = refl;
  links = (refl, refl, (refl, refl, tt));
  no_null = refl;
  distinct = (refl, (refl, (refl, tt)));
}

one-IsQueue : IsQueue one (64 ∷ [])
one-IsQueue = record {
  head = refl;
  tail = refl;
  size = refl;
  links = tt;
  no_null = refl;
  distinct = (refl, tt);
}

abbrev kernel : Sched → ℕ → Proc
kernel p curr = record {
  active = using rr p;
  main_kthread = 8;
  curr_kthread = curr;
  pid_cnt = 3;
  setup = true;
  pid = λ t. t / 16;
  status = λ _. 0;
  stack = λ t. t * 4096;
  stacksize = λ _. 4096;
  rsp = λ t. t * 4096;
  rbp = λ t. t * 4096;
  rdi = λ _. 0;
  word = λ _. 0;
  freed = [];
}

kexit-still_queued_example : Returns (kexit (kernel pool 48)) (λ s.
    (s.freed ≡ 48 ∷ 48 * 4096 ∷ [])
    × (s.curr_kthread ≡ 16)
    × OnQueue s (32 ∷ 48 ∷ 16 ∷ [])
    × (has 48 (32 ∷ 48 ∷ 16 ∷ []) ≡ true))
kexit-still_queued_example =
    kexit-still_queued (kernel pool 48) (16 ∷ 32 ∷ 48 ∷ []) (pool, refl, pool-IsQueue) (omega arith)
      refl

run_twice-halted_example : (run 8 one (kernel one 64) >>= run 8 one) ≡ halted
run_twice-halted_example = run_twice-halted (kernel one 64) 64 8 one refl (one, refl, one-IsQueue)
