-- ===== src/Proc.antt =====
-- Kernel threads, Bric_OS/lib/kproc.c and kproc.h: the scheduler in use, the thread that runs, and
-- the fields of each `struct threadinfo_st` but the scheduler's own.
-- The allocator's answers are arguments, and the blocks that it is given back are listed.
-- yield and kexit do not switch contexts in the source either.
pub mod Interface
pub mod Run
mod Tests
use csc.Base.{
  ℕ, zero, suc, ◌+◌, ◌*◌, ◌%◌, ◌^◌, Bool, true, false, ◌||◌, Option, none, some, List, [], ◌∷◌,
  ◌++◌, ◌==◌, if◌then◌else◌, null, update,
}
use csc.Base.Outcome.{Outcome, ok, fault, out_of_fuel, ◌>>=◌, ◌>>◌}
use csc.Sched.{Sched}
use Interface.{Scheduler, rr}

-- `active_sched`: NULL, or a scheduler and its own globals.
pub data Active : Type 1 where
  unset : Active
  using : (c : Scheduler) → c.Pool → Active

pub record Proc : Type 1 where
  pub active : Active
  pub main_kthread : ℕ
  pub curr_kthread : ℕ
  pub pid_cnt : ℕ
  pub setup : Bool
  -- the fields of every thread
  pub pid : ℕ → ℕ
  pub status : ℕ → ℕ
  pub stack : ℕ → ℕ
  pub stacksize : ℕ → ℕ
  pub rsp : ℕ → ℕ
  pub rbp : ℕ → ℕ
  pub rdi : ℕ → ℕ
  -- the 64-bit words of the stacks
  pub word : ℕ → ℕ
  -- what kfree was called with, the latest first
  pub freed : List ℕ

abbrev pub proc_stack_size : ℕ
proc_stack_size = 0x1000

-- SET_TERM_STAT( 0, PROC_LIVE ).
abbrev pub live : ℕ
live = 0

-- A function pointer that may be NULL.
abbrev pub call_hook : {S : Type 0} → Option (S → Outcome S) → S → Outcome S
call_hook none s = ok s
call_hook (some f) s = f s

-- PROC_set_scheduler where no scheduler is in use, or for `NULL`, which asks for round robin. From one
-- scheduler to another it admits each thread to the new one before it removes it from the old one,
-- which reads links that the first call has written: these stand in the thread, while each pool here
-- has links of its own, so that part is left out.
unfoldable pub start_scheduler : (c : Scheduler) → c.Pool → Outcome Active
start_scheduler c p = do p ← call_hook c.init p; ok (using c p)

-- `active_sched->next()`, into `curr_kthread`.
abbrev pub next_of : Active → Outcome (ℕ × Active)
next_of unset = fault
next_of (using c p) = do (t, p) ← c.next p; ok (t, using c p)

abbrev pub admit_to : ℕ → Active → Outcome Active
admit_to t unset = fault
admit_to t (using c p) = do p ← c.admit t p; ok (using c p)

unfoldable pub reschedule : Proc → Outcome Proc
reschedule s = do (t, a) ← next_of s.active; ok (record s { active = a; curr_kthread = t })

-- PROC_init, where `thread` is what kmalloc returns and `rr_pool` the initial globals of ksched.c.
unfoldable pub init : ℕ → Sched → Proc → Outcome Proc
unfolding start_scheduler
init thread rr_pool s = if s.setup then ok s else if thread == null then fault else do
  a ← elim s.active [ unset ↦ start_scheduler rr rr_pool | using c p ↦ ok (using c p) ]
  ok (record s {
    active = a;
    main_kthread = thread;
    curr_kthread = thread;
    setup = true;
    pid = update s.pid thread 0;
    status = update s.status thread live;
    stack = update s.stack thread null;
    stacksize = update s.stacksize thread 0;
  })

unfoldable pub run : ℕ → Sched → Proc → Outcome Proc
run thread rr_pool s = do
  s ← init thread rr_pool s
  s ← reschedule s
  if s.curr_kthread == null then ok s else do
    a ← admit_to s.curr_kthread s.active
    ok (record s { active = a; status = update s.status s.curr_kthread live })

-- PROC_create_kthread, where `thread` and `stack` are what its two kmalloc calls return.
-- `pid_t` is signed; pids stay below 2 ^ 31 here.
unfoldable pub create_kthread : ℕ → ℕ → ℕ → ℕ → Proc → Outcome (ℕ × Proc)
create_kthread thread stack entry_point arg s =
    if (thread == null) || (stack == null)
    then fault
    else ok (
      thread,
      record s {
        pid_cnt = s.pid_cnt + 1;
        pid = update s.pid thread (s.pid_cnt + 1);
        status = update s.status thread live;
        stack = update s.stack thread stack;
        stacksize = update s.stacksize thread proc_stack_size;
        rsp = update s.rsp thread stack;
        rbp = update s.rbp thread stack;
        rdi = update s.rdi thread arg;
        word = update s.word (stack + 8) entry_point;
      },
    )

unfoldable pub kexit : Proc → Outcome Proc
kexit s =
    if s.curr_kthread == null
    then fault
    else reschedule (record s { freed = s.curr_kthread ∷ s.stack s.curr_kthread ∷ s.freed })
