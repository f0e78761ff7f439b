-- ===== src/Log/Tests.antt =====
-- A log with one logged block: runs of commit and recovery, and the theorems at it.
use course_work_sem.Base.{
  ℕ, zero, suc, ◌+◌, ◌<◌, ◌≡◌, refl, ◌⊎◌, true, false, Option, none, some, List, [], ◌∷◌, arith,
  replicate, get_or, ◌==◌, if◌then◌else◌,
}
use course_work_sem.Log.{Block, Log, begin_op, commit, log_write, initlog}
use course_work_sem.Log.Crash.{Disk, in_log, Clean}
use course_work_sem.Log.Recover.{boot, boots}
use course_work_sem.Log.Commit.{Ready, current}
use course_work_sem.Log.Atomic.{commit_atomic, commit_durable}
use course_work_sem.Log.Ops.{
  written, log_write-Ready, Shared, Reserved, begin, Step-Reserved, log_write-succeeds, log_writes,
  is_fresh, log_writes-panic,
}

abbrev blank : Disk
blank b = replicate 128 0

abbrev dirty : ℕ → Option Block
dirty b = if 40 == b then some (7 ∷ []) else none

-- block 40 is logged, and power fails at the second write
abbrev busy : Log
busy = record {
  start = 2;
  size = 30;
  outstanding = 0;
  committing = true;
  lh = 40 ∷ [];
  store = record { disk = blank; dirty = dirty; power = 2 };
  woken = 0;
}

abbrev powered : Log
powered = record busy { store = record { disk = blank; dirty = dirty; power = 9 } }

committed_then_recovered : boot 2 30 40 (commit busy).store.disk 40 ≡ 7 ∷ []
unfolding boot commit initlog
committed_then_recovered = refl

lost_before_header :
    boot 2 30 40
      (commit
        (record busy { store = record { disk = blank; dirty = dirty; power = 1 } })).store.disk
      40
    ≡ replicate 128 0
unfolding boot commit initlog
lost_before_header = refl

busy-Ready :
    (n : ℕ)
    → Ready (record busy { store = record { disk = blank; dirty = dirty; power = n } }) blank
busy-Ready n = record {
  clean = record { empty = refl; home = λ b o. refl };
  logged = record { fits = omega arith; below = omega arith; outside = outside };
  no_dirty = λ b h. ground arith;
  pinned = λ b o h. ground arith;
  room = omega arith;
}
  where
    outside : (i : ℕ) → i < 1 → in_log 2 30 (get_or (40 ∷ []) i 0) ≡ false
    outside zero lt = refl
    outside (suc i) lt = absurd (omega arith)

commit_atomic_example :
    let d = boot 2 30 2 (boots 2 30 (1 ∷ 0 ∷ []) (commit busy).store.disk) in
    ((b : ℕ) → in_log 2 30 b ≡ false → d b ≡ blank b)
    ⊎ ((b : ℕ) → in_log 2 30 b ≡ false → d b ≡ current busy b)
commit_atomic_example = commit_atomic busy (1 ∷ 0 ∷ []) 2 (busy-Ready 2) (omega arith)

commit_durable_example : Clean 2 30 (current powered) (commit powered).store.disk
commit_durable_example = commit_durable powered (busy-Ready 9) (omega arith)

abbrev open_ : Log
open_ = record powered { outstanding = 1; committing = false }

open-Ready : Ready open_ blank
open-Ready = record {
  clean = r.clean;
  logged = r.logged;
  no_dirty = r.no_dirty;
  pinned = r.pinned;
  room = r.room;
}
  where
    r : Ready powered blank
    r = busy-Ready 9

log_write-Ready_example :
    Ready (written 50 (8 ∷ []) open_) blank
    × ((c : ℕ)
        → current (written 50 (8 ∷ []) open_) c ≡ (if 50 == c then 8 ∷ [] else current open_ c))
unfolding log_write
log_write-Ready_example = log_write-Ready 50 (8 ∷ []) open-Ready refl refl

abbrev shared : Shared
shared = record { log = record open_ { size = 31 }; allowance = 9 }

shared-Reserved : Reserved shared
shared-Reserved = record { space = omega arith; each = omega arith }

log_write-succeeds_example :
    log_write 50 (8 ∷ []) shared.log ≡ some (written 50 (8 ∷ []) shared.log)
log_write-succeeds_example =
    log_write-succeeds shared 50 (8 ∷ []) shared-Reserved (omega arith) (omega arith)

-- 30 different blocks, from block 60 on
abbrev many : List (ℕ × Block)
many = go 30 60
  where
    go : ℕ → ℕ → List (ℕ × Block)
    go zero b = []
    go (suc n) b = (b, []) ∷ go n (b + 1)

abbrev three : Log
three = record open_ { outstanding = 3; lh = [] }

log_writes-panic_example : log_writes many three ≡ none
unfolding is_fresh
log_writes-panic_example =
    log_writes-panic many three refl (omega arith) (omega arith) (omega arith) refl

abbrev idle : Shared
idle = record { log = record open_ { outstanding = 0 }; allowance = 0 }

Step-Reserved_example : Reserved (record { log = open_; allowance = 10 })
unfolding begin_op
Step-Reserved_example =
    Step-Reserved {s = idle} (begin refl) (record { space = omega arith; each = omega arith })
