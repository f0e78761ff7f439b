-- ===== src/Proc/Family.antt =====
-- The invariant of the process table: pids are unique, a parent is alive, and no process sleeps in
-- `wait` while it has a zombie child.
use course_work_sem.Base.{
  ℕ, ◌<◌, ◌≤◌, ◌≡◌, ◌≢◌, ◌⊎◌, sym, ◌∙◌, Bool, true, false, not, ◌&&◌, List, none, some, arith,
  length, set, length-set, ◌==◌, if◌then◌else◌,
}
use course_work_sem.Proc.{
  Proc, Table, ProcState, Chan, at, nproc, wakeup1, is_unused, is_embryo, is_zombie,
}
use course_work_sem.Proc.Lookup.{at-set, at-wakeup1, length-wakeup1, waiting}

abbrev pub is_alive : ProcState → Bool
is_alive s = not (is_unused s) && not (is_embryo s) && not (is_zombie s)

-- Over the table's entries, `nextpid` and the index of init.
pub record IsSound (ps : List Proc) (n init : ℕ) : Type 0 where
  pub size : length ps ≡ nproc
  pub init_alive : is_alive (at ps init).state ≡ true
  pub init_first : (at ps init).parent ≡ none
  pub fresh : (i : ℕ) → is_unused (at ps i).state ≡ false → (at ps i).pid < n
  pub pids :
      (i j : ℕ)
      → is_unused (at ps i).state ≡ false
      → is_unused (at ps j).state ≡ false
      → (at ps i).pid ≡ (at ps j).pid
      → i ≡ j
  pub orphan : (i : ℕ) → is_unused (at ps i).state ≡ true → (at ps i).parent ≡ none
  pub not_self : (i : ℕ) → (at ps i).parent ≢ some i
  pub parents : (i j : ℕ) → (at ps i).parent ≡ some j → is_alive (at ps j).state ≡ true
  pub no_lost :
      (i j : ℕ)
      → (at ps i).parent ≡ some j
      → is_zombie (at ps i).state ≡ true
      → waiting j (at ps j) ≡ false

-- What a new value `p` of entry `i` must meet.
pub record Fits (ps : List Proc) (n init n' i : ℕ) (p : Proc) : Type 0 where
  pub below : i < nproc
  pub grows : n ≤ n'
  pub init_alive : i ≡ init → is_alive p.state ≡ true
  pub init_first : i ≡ init → p.parent ≡ none
  pub pid :
      is_unused p.state ≡ false
      → (p.pid < n')
        × (((is_unused (at ps i).state ≡ false) × (p.pid ≡ (at ps i).pid)) ⊎ (n ≤ p.pid))
  pub orphan : is_unused p.state ≡ true → p.parent ≡ none
  pub not_self : p.parent ≢ some i
  pub parent : (j : ℕ) → p.parent ≡ some j → is_alive (at ps j).state ≡ true
  pub childless : (k : ℕ) → (at ps k).parent ≡ some i → is_alive p.state ≡ true
  pub reported :
      (j : ℕ) → p.parent ≡ some j → is_zombie p.state ≡ true → waiting j (at ps j) ≡ false
  pub may_wait :
      (k : ℕ) → (at ps k).parent ≡ some i → is_zombie (at ps k).state ≡ true → waiting i p ≡ false

module _ {ps : List Proc} {n init n' i : ℕ} {p : Proc} (s : IsSound ps n init)
    (f : Fits ps n init n' i p) where
  look : (j : ℕ) → at (set ps i p) j ≡ (if i == j then p else at ps j)
  look j = at-set ps i j p (omega (arith, s.size, f.below))

  still_alive :
      (j k : ℕ) → (at (set ps i p) j).parent ≡ some k → is_alive (at (set ps i p) k).state ≡ true
  still_alive j k e =
      ground (arith, look j, look k, s.parents j k, f.parent k, f.not_self, f.childless j)

  not_lost :
      (j k : ℕ)
      → (at (set ps i p) j).parent ≡ some k
      → is_zombie (at (set ps i p) j).state ≡ true
      → waiting k (at (set ps i p) k) ≡ false
  not_lost j k e z =
      ground (arith, look j, look k, s.no_lost j k, f.reported k, f.not_self, f.may_wait j)

  pub IsSound-set : IsSound (set ps i p) n' init
  IsSound-set = record {
    size = length-set ps i p ∙ s.size;
    init_alive = ground (arith, look init, s.init_alive, f.init_alive);
    init_first = ground (arith, look init, s.init_first, f.init_first);
    fresh = λ j u. ground (arith, look j, s.fresh j, f.pid, f.grows);
    pids = λ j k u v e. ground (
      arith,
      look j,
      look k,
      s.pids j k,
      s.pids i k,
      s.pids j i,
      s.fresh j,
      s.fresh k,
      f.pid,
      f.grows,
    );
    orphan = λ j u. ground (arith, look j, s.orphan j, f.orphan);
    not_self = λ j e. ground (arith, look j, s.not_self j, f.not_self);
    parents = still_alive;
    no_lost = not_lost;
  }

pub IsSound-wakeup1 :
    {ps : List Proc} {n init : ℕ} (c : Chan) → IsSound ps n init → IsSound (wakeup1 c ps) n init
IsSound-wakeup1 {ps} {n} {init} c s = record {
  size = length-wakeup1 c ps ∙ s.size;
  init_alive = ground (arith, at-wakeup1 c ps init, s.init_alive);
  init_first = ground (arith, at-wakeup1 c ps init, s.init_first);
  fresh = λ j u. ground (arith, at-wakeup1 c ps j, s.fresh j);
  pids = λ j k u v e. ground (arith, at-wakeup1 c ps j, at-wakeup1 c ps k, s.pids j k);
  orphan = λ j u. ground (arith, at-wakeup1 c ps j, s.orphan j);
  not_self = λ j e. ground (arith, at-wakeup1 c ps j, s.not_self j);
  parents = λ j k e. ground (arith, at-wakeup1 c ps j, at-wakeup1 c ps k, s.parents j k);
  no_lost = λ j k e z. ground (arith, at-wakeup1 c ps j, at-wakeup1 c ps k, s.no_lost j k);
}

abbrev pub IsSoundTable : Table → Type 0
IsSoundTable t = IsSound t.procs t.nextpid t.initproc

-- A new value that keeps pid and parent, and stays UNUSED, EMBRYO, ZOMBIE or none of them.
pub same_Fits :
    {ps : List Proc} {n init : ℕ} (i : ℕ) (q : Proc)
    → IsSound ps n init
    → i < length ps
    → q.pid ≡ (at ps i).pid
    → q.parent ≡ (at ps i).parent
    → is_unused q.state ≡ is_unused (at ps i).state
    → is_alive q.state ≡ is_alive (at ps i).state
    → is_zombie q.state ≡ is_zombie (at ps i).state
    → ((k : ℕ) → (at ps k).parent ≡ some i → is_zombie (at ps k).state ≡ true → waiting i q ≡ false)
    → Fits ps n init n i q
same_Fits {ps} {n} {init} i q s lt pid par un al zo quiet = record {
  below = omega (arith, s.size);
  grows = omega arith;
  init_alive = λ e. ground (arith, s.init_alive);
  init_first = λ e. ground (arith, s.init_first);
  pid = λ u. ground (arith, s.fresh i);
  orphan = λ u. ground (arith, s.orphan i);
  not_self = λ e. s.not_self i (sym par ∙ e);
  parent = λ j e. s.parents i j (sym par ∙ e);
  childless = λ k e. ground (arith, s.parents k i e);
  reported = λ j e z. s.no_lost i j (sym par ∙ e) (sym zo ∙ z);
  may_wait = quiet;
}
