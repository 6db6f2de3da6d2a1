-- ===== src/Proc/Interface.antt =====
-- `struct scheduler` of kproc.h: five functions, the first two of which may be NULL, over globals of
-- its own. The links of the threads are part of the pool: one scheduler has threads at a time.
use csc.Base.{ℕ, Option, none}
use csc.Base.Outcome.{Outcome}
use csc.Sched.{Sched, rr_admit, rr_remove, rr_next}

pub record Scheduler : Type 1 where
  pub Pool : Type 0
  pub init : Option (Pool → Outcome Pool)
  pub shutdown : Option (Pool → Outcome Pool)
  pub admit : ℕ → Pool → Outcome Pool
  pub remove : ℕ → Pool → Outcome Pool
  pub next : Pool → Outcome (ℕ × Pool)

-- `rr_sched_struct`.
abbrev pub rr : Scheduler
rr = record {
  Pool = Sched;
  init = none;
  shutdown = none;
  admit = rr_admit;
  remove = rr_remove;
  next = rr_next;
}
