-- ===== src/Proc/Tests.antt =====
-- A table with init, which sleeps in `wait`, and its one running child: runs, and the theorems at it.
use course_work_sem.Base.{
  ℕ, zero, suc, ◌<◌, ◌≡◌, ◌≢◌, refl, true, false, none, some, [], ◌∷◌, arith, replicate, get_or,
  pos,
}
use course_work_sem.Proc.{
  Proc, Table, zeroed, at, sleeping, running, process, object, is_unused, is_zombie, fork,
  take_entry, fork_copy, find_unused, wait, exit, wakeup, wait_sleeps,
}
use course_work_sem.Proc.Lookup.{waiting}
use course_work_sem.Proc.Family.{IsSoundTable, is_alive}
use course_work_sem.Proc.Wait.{Waited, wait-Waited}
use course_work_sem.Proc.Exit.{Exited, exit_lem}
use course_work_sem.Proc.Steps.{start, next, wakeup_step, take_step, copy_step, Reach-IsSound}

abbrev initp : Proc
initp = record zeroed { state = sleeping; pid = 1; chan = some (process 0) }

abbrev child : Proc
child = record zeroed { state = running; pid = 2; parent = some 0 }

abbrev two : Table
two = record { procs = initp ∷ child ∷ replicate 62 zeroed; nextpid = 3; initproc = 0 }

forked_pid : (fork 1 4096 8192 two).0 ≡ pos 3
unfolding fork
forked_pid = refl

init_sleeps_on :
    (wait 0 (record two { procs = record initp { state = running } ∷ child ∷ [] })).0 ≡ wait_sleeps
unfolding wait
init_sleeps_on = refl

get_or-replicate : (n i : ℕ) → get_or (replicate n zeroed) i zeroed ≡ zeroed
get_or-replicate zero i = refl
get_or-replicate (suc n) zero = refl
get_or-replicate (suc n) (suc i) = get_or-replicate n i

free_ : (i : ℕ) → at two.procs (suc (suc i)) ≡ zeroed
free_ i = get_or-replicate 62 i

two-IsSound : IsSoundTable two
two-IsSound = record {
  size = refl;
  init_alive = refl;
  init_first = refl;
  fresh = fresh;
  pids = pids;
  orphan = orphan;
  not_self = not_self;
  parents = parents;
  no_lost = no_lost;
}
  where
    fresh : (i : ℕ) → is_unused (at two.procs i).state ≡ false → (at two.procs i).pid < 3
    fresh zero u = omega arith
    fresh (suc zero) u = omega arith
    fresh (suc (suc i)) u = rw (free_ i) (omega arith)

    pids :
        (i j : ℕ)
        → is_unused (at two.procs i).state ≡ false
        → is_unused (at two.procs j).state ≡ false
        → (at two.procs i).pid ≡ (at two.procs j).pid
        → i ≡ j
    pids zero zero u v e = refl
    pids zero (suc zero) u v e = ground arith
    pids zero (suc (suc j)) u v e = absurd (ground (arith, free_ j))
    pids (suc zero) zero u v e = ground arith
    pids (suc zero) (suc zero) u v e = refl
    pids (suc zero) (suc (suc j)) u v e = absurd (ground (arith, free_ j))
    pids (suc (suc i)) j u v e = absurd (ground (arith, free_ i))

    orphan : (i : ℕ) → is_unused (at two.procs i).state ≡ true → (at two.procs i).parent ≡ none
    orphan zero u = refl
    orphan (suc zero) u = cc
    orphan (suc (suc i)) u = rw (free_ i)

    not_self : (i : ℕ) → (at two.procs i).parent ≢ some i
    not_self zero e = cc
    not_self (suc zero) e = ground arith
    not_self (suc (suc i)) e = ground (arith, free_ i)

    parents : (i j : ℕ) → (at two.procs i).parent ≡ some j → is_alive (at two.procs j).state ≡ true
    parents zero j e = cc
    parents (suc zero) zero e = refl
    parents (suc zero) (suc j) e = absurd (ground arith)
    parents (suc (suc i)) j e = absurd (ground (arith, free_ i))

    no_lost :
        (i j : ℕ)
        → (at two.procs i).parent ≡ some j
        → is_zombie (at two.procs i).state ≡ true
        → waiting j (at two.procs j) ≡ false
    no_lost zero j e z = cc
    no_lost (suc zero) j e z = cc
    no_lost (suc (suc i)) j e z = absurd (ground (arith, free_ i))

wait-Waited_example : Waited 1 two (wait 1 two)
wait-Waited_example = wait-Waited 1 two

exit_lem_example : (u : Table) × (exit 1 two ≡ some u) × Exited 1 two u
exit_lem_example = exit_lem 1 two two-IsSound refl (omega arith)

abbrev born : Table
born = (take_entry two).1

abbrev copied : Table
copied = (fork_copy 1 2 8192 born).1

Reach-IsSound_example : IsSoundTable (wakeup (object 9) copied)
unfolding take_entry fork_copy find_unused
Reach-IsSound_example = Reach-IsSound two-IsSound (
    next (next (next start (take_step (omega arith))) (copy_step 1 2 8192 refl refl refl))
      (wakeup_step (object 9)))
