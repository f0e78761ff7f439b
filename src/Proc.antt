-- ===== src/Proc.antt =====
-- COL331/HW1/xv6/proc.c: the process table. `exit`, `wait`, `kill`, `sleep`, `wakeup`, `yield` and `schedule`
-- are the part that runs under ptable.lock; a call that sleeps returns the table at the moment of the
-- switch. `allocproc` and `fork` give up the lock between `take_entry`, `give_stack`, `fork_copy` and `publish`,
-- of which they are made. A process is named by its index
-- in `ptable.proc`.
pub mod Lookup
pub mod Newborn
pub mod Fork
pub mod Exit
pub mod Kill
pub mod Family
pub mod Wait
pub mod Steps
mod Tests
use course_work_sem.Base.{
  ℕ, zero, suc, ◌+◌, ◌-◌, ◌%◌, ◌^◌, Bool, true, false, not, ◌&&◌, ◌||◌, Option, none, some, List,
  [], ◌∷◌, map, get_or, set, ltb, ◌==◌, if◌then◌else◌, ℤ, pos, negsuc, minus_one,
}

abbrev pub nproc : ℕ
nproc = 64

pub data ProcState : Type 0 where
  unused embryo sleeping runnable running zombie : ProcState

abbrev pub is_unused : ProcState → Bool
is_unused unused = true
is_unused _ = false

abbrev pub is_sleeping : ProcState → Bool
is_sleeping sleeping = true
is_sleeping _ = false

abbrev pub is_embryo : ProcState → Bool
is_embryo embryo = true
is_embryo _ = false

abbrev pub is_zombie : ProcState → Bool
is_zombie zombie = true
is_zombie _ = false

abbrev pub is_runnable : ProcState → Bool
is_runnable runnable = true
is_runnable _ = false

-- The `void *chan` of a sleeping process: the address of an entry of the process table, on which
-- `wait` sleeps, or of any other object.
pub data Chan : Type 0 where
  process : ℕ → Chan
  object : ℕ → Chan

abbrev pub chan_eq : Chan → Chan → Bool
chan_eq (process i) (process j) = i == j
chan_eq (object a) (object b) = a == b
chan_eq _ _ = false

abbrev pub is_some_of : Option ℕ → ℕ → Bool
is_some_of none i = false
is_some_of (some j) i = j == i

-- `chan` none is the null pointer, and so is `parent` none.
pub record Proc : Type 0 where
  pub sz : ℕ
  pub pgdir : ℕ
  pub kstack : ℕ
  pub state : ProcState
  pub pid : ℕ
  pub parent : Option ℕ
  pub chan : Option Chan
  pub killed : Bool

abbrev pub zeroed : Proc
zeroed = record {
  sz = 0;
  pgdir = 0;
  kstack = 0;
  state = unused;
  pid = 0;
  parent = none;
  chan = none;
  killed = false;
}

-- the `int` that has these 32 bits
abbrev pub to_int : ℕ → ℤ
to_int n = if ltb n (2 ^ 31) then pos n else negsuc (2 ^ 32 - n - 1)

pub record Table : Type 0 where
  pub procs : List Proc
  pub nextpid : ℕ
  pub initproc : ℕ

abbrev pub at : List Proc → ℕ → Proc
at ps i = get_or ps i zeroed

-- the first entry that is UNUSED
pub find_unused : List Proc → ℕ → Option ℕ
find_unused [] i = none
find_unused (p ∷ ps) i = if is_unused p.state then some i else find_unused ps (i + 1)

-- The part of `allocproc` under ptable.lock: it takes an entry. `nextpid` is kept by its 32 bits.
pub take_entry : Table → Option ℕ × Table
unfolding find_unused
take_entry t = elim (find_unused t.procs 0) [
  | none ↦ (none, t)
  | some i ↦ (
    some i,
    record t {
      procs = set t.procs i (record (at t.procs i) { state = embryo; pid = t.nextpid });
      nextpid = (t.nextpid + 1) % 2 ^ 32;
    },
  )
]

-- The rest of `allocproc`, without the lock, and whether it got a stack; `kstack` is what `kalloc` returns.
pub give_stack : ℕ → ℕ → Table → Bool × Table
give_stack kstack i t =
    let p = record (at t.procs i) { kstack = kstack } in
    if kstack == 0
    then (false, record t { procs = set t.procs i (record p { state = unused }) })
    else (true, record t { procs = set t.procs i p })

pub allocproc : ℕ → Table → Option ℕ × Table
unfolding take_entry give_stack
allocproc kstack t =
    let (found, t') = take_entry t in
    elim found [
      | none ↦ (none, t')
      | some i ↦ let (ok, t'') = give_stack kstack i t' in if ok then (some i, t'') else (none, t'')
    ]

-- The part of `fork` between `allocproc` and its `acquire`, and whether it got memory; `pgdir` is what
-- `copyuvm` returns.
pub fork_copy : ℕ → ℕ → ℕ → Table → Bool × Table
fork_copy cur i pgdir t =
    let np = at t.procs i in
    if pgdir == 0
    then (
      false,
      record t { procs = set t.procs i (record np { pgdir = 0; kstack = 0; state = unused }) },
    )
    else (
      true,
      record t {
        procs =
            set t.procs i
              (record np { pgdir = pgdir; sz = (at t.procs cur).sz; parent = some cur });
      },
    )

-- The end of `fork`, under ptable.lock.
pub publish : ℕ → Table → ℤ × Table
publish i t = (
  to_int (at t.procs i).pid,
  record t { procs = set t.procs i (record (at t.procs i) { state = runnable }) },
)

pub fork : ℕ → ℕ → ℕ → Table → ℤ × Table
unfolding allocproc fork_copy publish
fork cur kstack pgdir t =
    let (found, t') = allocproc kstack t in
    elim found [
      | none ↦ (minus_one, t')
      | some i ↦
          let (ok, t'') = fork_copy cur i pgdir t' in if ok then publish i t'' else (minus_one, t'')
    ]

abbrev pub wakes : Option Chan → Chan → Bool
wakes none c = false
wakes (some d) c = chan_eq d c

abbrev pub wake : Chan → Proc → Proc
wake c p = if is_sleeping p.state && wakes p.chan c then record p { state = runnable } else p

pub wakeup1 : Chan → List Proc → List Proc
wakeup1 c ps = map (wake c) ps

pub wakeup : Chan → Table → Table
unfolding wakeup1
wakeup c t = record t { procs = wakeup1 c t.procs }

abbrev pub kill_proc : Proc → Proc
kill_proc p =
    if is_sleeping p.state
    then record p { killed = true; state = runnable }
    else record p { killed = true }

-- `none`: no entry has the pid
pub kill_first : ℕ → List Proc → Option (List Proc)
kill_first pid [] = none
kill_first pid (p ∷ ps) =
    let rest = kill_first pid ps in
    if p.pid == pid
    then some (kill_proc p ∷ ps)
    else elim rest [ none ↦ none | some qs ↦ some (p ∷ qs) ]

pub kill : ℕ → Table → ℤ × Table
unfolding kill_first
kill pid t = elim (kill_first pid t.procs) [
  | none ↦ (minus_one, t)
  | some ps ↦ (pos 0, record t { procs = ps })
]

-- `sleep` up to the switch, and what it does when it is scheduled again
pub sleep : ℕ → Chan → Table → Table
sleep cur c t = record t {
  procs = set t.procs cur (record (at t.procs cur) { chan = some c; state = sleeping });
}

pub wake_up : ℕ → Table → Table
wake_up cur t = record t { procs = set t.procs cur (record (at t.procs cur) { chan = none }) }

pub yield : ℕ → Table → Table
yield cur t = record t { procs = set t.procs cur (record (at t.procs cur) { state = runnable }) }

-- The body of the scheduler's loop at entry `i`: `none` if it passes over the entry.
pub schedule : ℕ → Table → Option Table
schedule i t =
    if is_runnable (at t.procs i).state
    then some (record t { procs = set t.procs i (record (at t.procs i) { state = running }) })
    else none

-- The loop of `exit` that passes abandoned children to init; `n` entries are left, from `i` on.
pub reparent : ℕ → ℕ → ℕ → ℕ → List Proc → List Proc
unfolding wakeup1
reparent zero cur init i ps = ps
reparent (suc n) cur init i ps =
    let p = at ps i in
    let moved = set ps i (record p { parent = some init }) in
    let ps' =
      if is_some_of p.parent cur
      then (if is_zombie p.state then wakeup1 (process init) moved else moved)
      else ps in
    reparent n cur init (i + 1) ps'

-- `wakeup1(proc->parent)`; no process sleeps on the null pointer.
abbrev pub wake_parent : Option ℕ → List Proc → List Proc
wake_parent none ps = ps
wake_parent (some j) ps = wakeup1 (process j) ps

-- `exit` from its `acquire` on, up to the switch; `none` is `panic("init exiting")`.
pub exit : ℕ → Table → Option Table
unfolding reparent wakeup1
exit cur t =
    if cur == t.initproc
    then none
    else (let ps = reparent nproc cur t.initproc 0 (wake_parent (at t.procs cur).parent t.procs) in
        some (record t { procs = set ps cur (record (at ps cur) { state = zombie }) }))

pub data WaitResult : Type 0 where
  reaped : (pid : ℕ) → WaitResult
  no_children : WaitResult  -- returns -1
  wait_sleeps : WaitResult

abbrev pub reap : Proc → Proc
reap p = record p { kstack = 0; state = unused; pid = 0; parent = none; killed = false }

-- One pass over the table: the first zombie child, and whether a child was met before it.
pub scan : ℕ → List Proc → ℕ → Option ℕ × Bool
scan cur [] i = (none, false)
scan cur (p ∷ ps) i =
    let (found, kids) = scan cur ps (i + 1) in
    if is_some_of p.parent cur
    then (if is_zombie p.state then (some i, true) else (found, true))
    else (found, kids)

pub wait : ℕ → Table → WaitResult × Table
unfolding scan sleep
wait cur t =
    let (found, kids) = scan cur t.procs 0 in
    elim found [
      | some i ↦
          (reaped (at t.procs i).pid, record t { procs = set t.procs i (reap (at t.procs i)) })
      | none ↦
          if not kids || (at t.procs cur).killed
          then (no_children, t)
          else (wait_sleeps, sleep cur (process cur) t)
    ]
