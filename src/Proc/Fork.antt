-- ===== src/Proc/Fork.antt =====
-- `fork` of proc.c as a whole: which entry it takes and what it leaves there.
use course_work_sem.Base.{ℕ, ◌+◌, ◌%◌, ◌^◌, ◌≡◌, ◌≢◌, none, some, set, ℤ, minus_one}
use course_work_sem.Proc.{Proc, Table, unused, embryo, runnable, at, find_unused, to_int}
use course_work_sem.Proc.Newborn.{FirstUnused}

-- What `fork` does to the table `t`: it takes the first UNUSED entry for a child of `cur` with the
-- next pid, or it fails, and every other entry stays as it was.
pub data Forked (cur kstack pgdir : ℕ) (t : Table) : ℤ × Table → Type 0 where
  no_slot : find_unused t.procs 0 ≡ none → Forked cur kstack pgdir t (minus_one, t)
  no_stack :
      (i : ℕ)
      → FirstUnused t.procs i
      → kstack ≡ 0
      → Forked cur kstack pgdir t (
        minus_one,
        record t {
          procs =
              set t.procs i (record (at t.procs i) { state = unused; pid = t.nextpid; kstack = 0 });
          nextpid = (t.nextpid + 1) % 2 ^ 32;
        },
      )
  no_pgdir :
      (i : ℕ)
      → FirstUnused t.procs i
      → kstack ≢ 0
      → pgdir ≡ 0
      → Forked cur kstack pgdir t (
        minus_one,
        record t {
          procs =
              set t.procs i
                (record (at t.procs i) { state = unused; pid = t.nextpid; kstack = 0; pgdir = 0 });
          nextpid = (t.nextpid + 1) % 2 ^ 32;
        },
      )
  child :
      (i : ℕ)
      → FirstUnused t.procs i
      → kstack ≢ 0
      → pgdir ≢ 0
      → Forked cur kstack pgdir t (
        to_int t.nextpid,
        record t {
          procs = set t.procs i (record (at t.procs i) {
            state = runnable;
            pid = t.nextpid;
            kstack = kstack;
            pgdir = pgdir;
            sz = (at t.procs cur).sz;
            parent = some cur;
          });
          nextpid = (t.nextpid + 1) % 2 ^ 32;
        },
      )

module _ (cur kstack pgdir : ℕ) (t : Table) where
  -- the entry `i` with the value `p`, and the next pid counted
  with_entry : ℕ → Proc → Table
  with_entry i p = record t { procs = set t.procs i p; nextpid = (t.nextpid + 1) % 2 ^ 32 }

  module _ (i : ℕ) (e : find_unused t.procs 0 ≡ some i) where
    born : Proc
    born = record (at t.procs i) { state = embryo; pid = t.nextpid }

    filled : Proc
    filled = record born {
      kstack = kstack;
      pgdir = pgdir;
      sz = (at t.procs cur).sz;
      parent = some cur;
    }
