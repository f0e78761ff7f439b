-- ===== src/Spinlock.antt =====
-- COL331/HW1/xv6/spinlock.c: spin locks between processors, and the matched pushcli and popcli.
-- `acquire` and `release` are cut where another processor can see the difference: at each `xchg` and
-- at each assignment to `lk->cpu`.
pub mod Cli
pub mod Exclusion
mod Tests
use course_work_sem.Base.{
  ℕ, zero, suc, ◌+◌, ◌-◌, Bool, true, false, not, ◌&&◌, Option, none, some, ◌==◌, if◌then◌else◌,
  update,
}

-- `ncli` and `intena` of `struct cpu`; `enabled` is FL_IF of eflags.
pub record Cpu : Type 0 where
  pub ncli : ℕ
  pub intena : Bool
  pub enabled : Bool

pub pushcli : Cpu → Cpu
pushcli c = record {
  ncli = c.ncli + 1;
  intena = if c.ncli == 0 then c.enabled else c.intena;
  enabled = false;
}

-- `none` is either panic.
pub popcli : Cpu → Option Cpu
popcli c =
    if c.enabled
    then none
    else if c.ncli == 0
    then none
    else some (record c { ncli = c.ncli - 1; enabled = (c.ncli - 1 == 0) && c.intena })

-- `struct spinlock`; `cpu` none is the null pointer.
pub record Spinlock : Type 0 where
  pub locked : Bool
  pub cpu : Option ℕ

pub initlock : Spinlock
initlock = record { locked = false; cpu = none }

abbrev pub is_cpu : Option ℕ → ℕ → Bool
is_cpu none i = false
is_cpu (some j) i = j == i

pub holding : Spinlock → ℕ → Bool
holding lk i = lk.locked && is_cpu lk.cpu i

-- Where a processor is in the code of the lock.
pub data Pc : Type 0 where
  outside : Pc
  spinning : Pc  -- in the loop of `acquire`
  won : Pc  -- the `xchg` returned 0
  critical : Pc  -- `acquire` returned
  cleared : Pc  -- `release` has set `lk->cpu` to null

pub record World : Type 0 where
  pub lk : Spinlock
  pub pc : ℕ → Pc
  pub cpus : ℕ → Cpu

-- `acquire` up to its loop; `none` is the panic.
pub acquire_enter : ℕ → World → Option World
unfolding pushcli holding
acquire_enter i w =
    if holding w.lk i
    then none
    else some
        (record w { pc = update w.pc i spinning; cpus = update w.cpus i (pushcli (w.cpus i)) })

-- one `xchg(&lk->locked, 1)` of the loop
pub acquire_xchg : ℕ → World → World
acquire_xchg i w = record w {
  lk = record w.lk { locked = true };
  pc = update w.pc i (if w.lk.locked then spinning else won);
}

-- `lk->cpu = cpu`
pub acquire_record : ℕ → World → World
acquire_record i w = record w { lk = record w.lk { cpu = some i }; pc = update w.pc i critical }

-- `release` up to its `xchg`; `none` is the panic.
pub release_clear : ℕ → World → Option World
unfolding holding
release_clear i w =
    if not (holding w.lk i)
    then none
    else some (record w { lk = record w.lk { cpu = none }; pc = update w.pc i cleared })

-- `xchg(&lk->locked, 0)` and `popcli`; `none` is a panic of `popcli`.
pub release_xchg : ℕ → World → Option World
unfolding popcli
release_xchg i w = elim (popcli (w.cpus i)) [
  | none ↦ none
  | some c ↦ some (record w {
    lk = record w.lk { locked = false };
    pc = update w.pc i outside;
    cpus = update w.cpus i c;
  })
]
