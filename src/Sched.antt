-- ===== src/Sched.antt =====
-- The round robin scheduler, Bric_OS/lib/ksched.c: a doubly linked list of threads through the two
-- scheduler pointers of each `struct threadinfo_st`, with a head, a tail and a length.
-- A thread is its address. A pointer field of all threads is one function from addresses, so that a
-- thread that two places name is one thread.
pub mod Queue
pub mod Admit
pub mod Next
pub mod Remove
mod Tests
use csc.Base.{
  ℕ, ◌+◌, ◌-◌, ◌%◌, ◌^◌, Bool, true, false, ◌&&◌, ◌||◌, not, ◌==◌, if◌then◌else◌, null, update,
}
use csc.Base.Outcome.{Outcome, ok, halted, fault, ◌>>=◌, ◌>>◌}

-- `sched_next` and `sched_prev` of every thread, and the globals of ksched.c.
pub record Sched : Type 0 where
  pub next : ℕ → ℕ
  pub prev : ℕ → ℕ
  pub ll_head : ℕ
  pub ll_tail : ℕ
  pub ll_len : ℕ

-- `size_t` addition.
abbrev pub add_size : ℕ → ℕ → ℕ
add_size a b = (a + b) % 2 ^ 64

-- The conditions of the five assertions, in order: one that holds halts the machine.
unfoldable pub validate_ll : Sched → Outcome (Unit {0})
validate_ll s =
    if (s.ll_head == null) && not (s.ll_tail == null)
    then halted
    else if not (s.ll_head == null) && (s.ll_tail == null)
    then halted
    else if (s.ll_head == null) && (s.ll_tail == null) && not (s.ll_len == 0)
    then halted
    else if not (s.ll_head == null) && not (s.ll_tail == null) && (s.ll_len == 0)
    then halted
    else if (s.ll_head == s.ll_tail) && not (s.ll_head == null) && not (s.ll_len == 1)
    then halted
    else ok tt

-- `p->sched_next = q` and `p->sched_prev = q`.
unfoldable pub set_next : ℕ → ℕ → Sched → Outcome Sched
set_next p q s = if p == null then fault else ok (record s { next = update s.next p q })

unfoldable pub set_prev : ℕ → ℕ → Sched → Outcome Sched
set_prev p q s = if p == null then fault else ok (record s { prev = update s.prev p q })

-- `p->sched_next` and `p->sched_prev`, read.
unfoldable pub get_next : ℕ → Sched → Outcome ℕ
get_next p s = if p == null then fault else ok (s.next p)

unfoldable pub get_prev : ℕ → Sched → Outcome ℕ
get_prev p s = if p == null then fault else ok (s.prev p)

-- The first thread of an empty pool.
admit_first : ℕ → Sched → Outcome Sched
admit_first t s = do s ← set_next t null (record s { ll_head = t; ll_tail = t }); set_prev t null s

-- A thread behind the tail.
admit_last : ℕ → Sched → Outcome Sched
admit_last t s = do
  s ← set_next s.ll_tail t s
  s ← set_prev t s.ll_tail s
  ok (record s { ll_tail = t })

unfoldable pub rr_admit : ℕ → Sched → Outcome Sched
unfolding admit_first admit_last set_next set_prev get_next get_prev validate_ll
rr_admit new_thread s = do
  validate_ll s
  s ← if s.ll_len == 0 then admit_first new_thread s else admit_last new_thread s
  ok (record s { ll_len = add_size s.ll_len 1 })

-- The four ways to unlink a thread, in the order of the tests.
unlink : ℕ → Sched → Outcome Sched
unlink victim s =
    if s.ll_len == 1
    then ok (record s { ll_head = null; ll_tail = null })
    else if victim == s.ll_head
    then (do h ← get_next victim s; set_prev h null (record s { ll_head = h }))
    else if victim == s.ll_tail
    then (do t ← get_prev s.ll_tail s; set_next t null (record s { ll_tail = t }))
    else (do
      p ← get_prev victim s
      n ← get_next victim s
      s ← set_next p n s
      n ← get_next victim s
      p ← get_prev victim s
      set_prev n p s)

-- `ll_len--` runs only where `ll_len` is not 0.
unfoldable pub rr_remove : ℕ → Sched → Outcome Sched
unfolding unlink set_next set_prev get_next get_prev validate_ll
rr_remove victim s = do
  validate_ll s
  if s.ll_len == 0 then ok s else do
    s ← unlink victim s
    s ← set_next victim null s
    s ← set_prev victim null s
    ok (record s { ll_len = s.ll_len - 1 })

-- The head moves behind the tail.
rotate_head : Sched → Outcome (ℕ × Sched)
rotate_head s = do
  let now_serving = s.ll_head
  h ← get_next s.ll_head s
  s ← set_prev h null (record s { ll_head = h })
  s ← set_next s.ll_tail now_serving s
  s ← set_prev now_serving s.ll_tail s
  s ← set_next now_serving null s
  ok (now_serving, record s { ll_tail = now_serving })

-- The thread to run, NULL if there is none, and the new state.
unfoldable pub rr_next : Sched → Outcome (ℕ × Sched)
unfolding rotate_head set_next set_prev get_next get_prev validate_ll
rr_next s = do
  validate_ll s
  if s.ll_len == 0 then ok (null, s) else if s.ll_len == 1 then ok (s.ll_head, s) else rotate_head s
