-- ===== src/Proc/Steps.antt =====
-- The process table under every operation that changes it, in any order.
use mathlib.Core.Path.{subst}
use course_work_sem.Base.{ℕ, ◌+◌, ◌^◌, ◌<◌, ◌≡◌, ◌≢◌, false, none, some, arith}
use course_work_sem.Proc.{
  Table, at, running, Chan, process, chan_eq, embryo, take_entry, give_stack, fork_copy, publish,
  wakeup, kill, sleep, wake_up, yield, schedule, exit, wait,
}
use course_work_sem.Proc.Family.{IsSoundTable}
use course_work_sem.Proc.Newborn.{
  take_entry-IsSound, give_stack-IsSound, fork_copy-IsSound, publish-IsSound,
}
use course_work_sem.Proc.Kill.{
  kill-IsSound, sleep-IsSound, wake_up-IsSound, yield-IsSound, schedule-IsSound, wakeup-IsSound,
}
use course_work_sem.Proc.Wait.{wait-IsSound}
use course_work_sem.Proc.Exit.{exit_lem}

-- A call by the running process `cur`, a wakeup by any code, a choice of the scheduler, or one of the parts
-- of `allocproc` and `fork`: each takes effect on its own, on an entry that is an EMBRYO and, until `fork_copy`
-- has given it one, has no parent. An entry is only taken while the pids do not reach the largest `int`.
pub data Step (t : Table) : Table → Type 0 where
  take_step : t.nextpid + 1 < 2 ^ 31 → Step t (take_entry t).1
  stack_step :
      (i kstack : ℕ)
      → (at t.procs i).state ≡ embryo
      → (at t.procs i).parent ≡ none
      → Step t (give_stack kstack i t).1
  copy_step :
      (cur i pgdir : ℕ)
      → (at t.procs cur).state ≡ running
      → (at t.procs i).state ≡ embryo
      → (at t.procs i).parent ≡ none
      → Step t (fork_copy cur i pgdir t).1
  publish_step : (i : ℕ) → (at t.procs i).state ≡ embryo → Step t (publish i t).1
  exit_step :
      (cur : ℕ) {u : Table} → (at t.procs cur).state ≡ running → exit cur t ≡ some u → Step t u
  wait_step : (cur : ℕ) → (at t.procs cur).state ≡ running → Step t (wait cur t).1
  sleep_step :
      (cur : ℕ) (c : Chan)
      → (at t.procs cur).state ≡ running
      → chan_eq c (process cur) ≡ false
      → Step t (sleep cur c t)
  wake_up_step : (cur : ℕ) → (at t.procs cur).state ≡ running → Step t (wake_up cur t)
  yield_step : (cur : ℕ) → (at t.procs cur).state ≡ running → Step t (yield cur t)
  wakeup_step : (c : Chan) → Step t (wakeup c t)
  kill_step : (pid : ℕ) → Step t (kill pid t).1
  schedule_step : (i : ℕ) {u : Table} → schedule i t ≡ some u → Step t u

pub data Reach (s : Table) : Table → Type 0 where
  start : Reach s s
  next : {t u : Table} → Reach s t → Step t u → Reach s u

exit-ne-init : (cur : ℕ) (t : Table) {u : Table} → exit cur t ≡ some u → cur ≢ t.initproc
unfolding exit
exit-ne-init cur t e same = ground arith

exit-IsSound :
    (cur : ℕ) {t u : Table}
    → IsSoundTable t
    → (at t.procs cur).state ≡ running
    → exit cur t ≡ some u
    → IsSoundTable u
exit-IsSound cur {t} {u} s run e =
    let (v, eq, done) = exit_lem cur t s run (exit-ne-init cur t e) in
    let same : v ≡ u = cc in subst IsSoundTable same done.sound

pub Step-IsSound : {t u : Table} → Step t u → IsSoundTable t → IsSoundTable u
Step-IsSound (take_step few) s = take_entry-IsSound few s
Step-IsSound (stack_step i kstack born par) s = give_stack-IsSound i born s kstack par
Step-IsSound (copy_step cur i pgdir run born par) s = fork_copy-IsSound i born s cur pgdir run par
Step-IsSound (publish_step i born) s = publish-IsSound i born s
Step-IsSound (exit_step cur run e) s = exit-IsSound cur s run e
Step-IsSound (wait_step cur run) s = wait-IsSound cur run s
Step-IsSound (sleep_step cur c run other) s = sleep-IsSound cur s c run (λ k e z. other)
Step-IsSound (wake_up_step cur run) s = wake_up-IsSound cur s run
Step-IsSound (yield_step cur run) s = yield-IsSound cur s run
Step-IsSound (wakeup_step c) s = wakeup-IsSound c s
Step-IsSound (kill_step pid) s = kill-IsSound pid s
Step-IsSound (schedule_step i e) s = schedule-IsSound i s e

-- Whatever the processes and the scheduler do, with the parts of `fork` of several processes in any order,
-- while the pids do not reach the largest `int`, the table stays sound: pids of entries in use are distinct
-- and below `nextpid`, a parent is neither UNUSED nor an EMBRYO nor a ZOMBIE, and no process sleeps in
-- `wait` while it has a zombie child.
pub Reach-IsSound : {s t : Table} → IsSoundTable s → Reach s t → IsSoundTable t
Reach-IsSound h start = h
Reach-IsSound h (next r st) = Step-IsSound st (Reach-IsSound h r)
