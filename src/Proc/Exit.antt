-- ===== src/Proc/Exit.antt =====
-- exit: the process becomes a zombie without children, and no sleeper in `wait` misses it.
use course_work_sem.Base.{
  ℕ, zero, suc, ◌+◌, ◌<◌, ◌≡◌, ◌≢◌, refl, ap, sym, ◌∙◌, true, false, ◌&&◌, List, Option, none, some,
  arith, length, set, ◌==◌, if◌then◌else◌, ltb, Bool-cases, inl, inr,
}
use course_work_sem.Proc.{
  Proc, Table, running, at, is_zombie, process, is_some_of, zombie, nproc, wakeup1, reparent,
  wake_parent, exit,
}
use course_work_sem.Proc.Lookup.{
  at-set, at-wakeup1, wakeup1-set, waiting, inside_of_used, is_some_of_iff,
}
use course_work_sem.Proc.Family.{IsSound, IsSoundTable, Fits, IsSound-set, IsSound-wakeup1}

-- the body of the loop at entry `i`
abbrev pass_on : ℕ → ℕ → ℕ → List Proc → List Proc
pass_on cur init i ps =
    let p = at ps i in
    let moved = set ps i (record p { parent = some init }) in
    if is_some_of p.parent cur
    then (if is_zombie p.state then wakeup1 (process init) moved else moved)
    else ps

-- What the body leaves: nothing, or the child handed to init after a wakeup of init if need be.
abbrev handed : ℕ → ℕ → List Proc → List Proc
handed init i ps = set ps i (record (at ps i) { parent = some init })

pass_on-wake :
    (init i : ℕ) (ps : List Proc)
    → is_zombie (at ps i).state ≡ true
    → wakeup1 (process init) (handed init i ps) ≡ handed init i (wakeup1 (process init) ps)
pass_on-wake init i ps z =
    wakeup1-set (process init) ps i _
    ∙ ap (set (wakeup1 (process init) ps) i) (ground (arith, at-wakeup1 (process init) ps i))

-- What the loop keeps of the table, for the exiting process `cur` and its parent `par`.
record Passing (cur : ℕ) (par : Option ℕ) (ps : List Proc) (n init : ℕ) : Type 0 where
  sound : IsSound ps n init
  other : cur ≢ init
  alive : (at ps cur).state ≡ running
  parent : (at ps cur).parent ≡ par
  told : (j : ℕ) → par ≡ some j → waiting j (at ps j) ≡ false

handed-Passing :
    {cur : ℕ} {par : Option ℕ} {ps : List Proc} {n init : ℕ} (i : ℕ)
    → Passing cur par ps n init
    → (at ps i).parent ≡ some cur
    → (is_zombie (at ps i).state ≡ true → waiting init (at ps init) ≡ false)
    → Passing cur par (handed init i ps) n init
handed-Passing {cur} {par} {ps} {n} {init} i w child ok = record {
  sound = IsSound-set w.sound (record {
    below = omega (arith, w.sound.size, inside);
    grows = omega arith;
    init_alive = λ e. ground (arith, w.sound.init_alive);
    init_first = λ e. absurd (ground (arith, w.sound.init_first));
    pid = λ u. ground (arith, w.sound.fresh i);
    orphan = λ u. absurd (ground (arith, w.sound.orphan i u));
    not_self = λ e. ground (arith, w.sound.init_first);
    parent = λ j e. ground (arith, w.sound.init_alive);
    childless = λ k e. w.sound.parents k i e;
    reported = λ j e d. ground (arith, ok d);
    may_wait = λ k e d. w.sound.no_lost k i e d;
  });
  other = w.other;
  alive = ground (arith, look cur, w.alive);
  parent = ground (arith, look cur, w.parent, w.sound.not_self cur);
  told = λ j e. ground (arith, look j, w.told j);
}
  where
    inside : i < length ps
    inside = inside_of_used ps i (ground (arith, w.sound.orphan i))

    look :
        (j : ℕ)
        → at (handed init i ps) j
          ≡ (if i == j then record (at ps i) { parent = some init } else at ps j)
    look j = at-set ps i j _ inside

Passing-wakeup1 :
    {cur : ℕ} {par : Option ℕ} {ps : List Proc} {n init : ℕ} (j : ℕ)
    → Passing cur par ps n init
    → Passing cur par (wakeup1 (process j) ps) n init
      × (waiting j (at (wakeup1 (process j) ps) j) ≡ false)
Passing-wakeup1 {cur} {ps} j w = (
  record {
    sound = IsSound-wakeup1 (process j) w.sound;
    other = w.other;
    alive = ground (arith, at-wakeup1 (process j) ps cur, w.alive);
    parent = ground (arith, at-wakeup1 (process j) ps cur, w.parent);
    told = λ k e. ground (arith, at-wakeup1 (process j) ps k, w.told k e);
  },
  ground (arith, at-wakeup1 (process j) ps j),
)

pass_on-Passing :
    {cur : ℕ} {par : Option ℕ} {ps : List Proc} {n init : ℕ} (i : ℕ)
    → Passing cur par ps n init
    → Passing cur par (pass_on cur init i ps) n init
pass_on-Passing {cur} {par} {ps} {n} {init} i w =
    elim (Bool-cases (is_some_of (at ps i).parent cur)) [
      | inr other ↦ rw other w
      | inl child ↦
          let c = (is_some_of_iff (at ps i).parent cur).0 child in
          rw child (elim (Bool-cases (is_zombie (at ps i).state)) [
            | inr living ↦ rw living (handed-Passing i w c (λ z. cc))
            | inl dead ↦
                let (w', quiet) = Passing-wakeup1 init w in
                rw dead (
                  rw (pass_on-wake init i ps dead) (
                    handed-Passing i w' (ground (arith, at-wakeup1 (process init) ps i))
                      (λ z. quiet)))
          ])
    ]

-- The parents after the loop has passed the entries before `i`, from the table `ps` on.
abbrev pub Reparented : ℕ → ℕ → List Proc → ℕ → List Proc → Type 0
Reparented cur init ps i qs =
    (k : ℕ)
    → (at qs k).parent
      ≡ (if ltb k i && is_some_of (at ps k).parent cur then some init else (at ps k).parent)

module _ (cur init : ℕ) where
  handed_parent :
      (i : ℕ) (qs : List Proc) (k : ℕ)
      → i < length qs
      → (at (handed init i qs) k).parent ≡ (if i == k then some init else (at qs k).parent)
  handed_parent i qs k lt =
      ground (arith, at-set qs i k (record (at qs i) { parent = some init }) lt)

  pass_on-Reparented :
      (ps : List Proc) (i : ℕ) (qs : List Proc)
      → (is_some_of (at qs i).parent cur ≡ true → i < length qs)
      → Reparented cur init ps i qs
      → Reparented cur init ps (i + 1) (pass_on cur init i qs)
  pass_on-Reparented ps i qs inside r k = elim (Bool-cases (is_some_of (at qs i).parent cur)) [
    | inr other ↦ rw other (ground (arith, r k, r i))
    | inl child ↦ rw child (elim (Bool-cases (is_zombie (at qs i).state)) [
      | inr living ↦ rw living (ground (arith, r k, r i, handed_parent i qs k (inside child)))
      | inl dead ↦ rw dead (
          ground (
            arith,
            r k,
            r i,
            handed_parent i qs k (inside child),
            at-wakeup1 (process init) (handed init i qs) k,
          ))
    ])
  ]

reparent_lem :
    (ps : List Proc) {cur : ℕ} {par : Option ℕ} {m init : ℕ} (n i : ℕ) (qs : List Proc)
    → Passing cur par qs m init
    → Reparented cur init ps i qs
    → Passing cur par (reparent n cur init i qs) m init
      × Reparented cur init ps (i + n) (reparent n cur init i qs)
unfolding reparent
reparent_lem ps zero i qs w r = (w, λ k. ground (arith, r k))
reparent_lem ps {cur} {init = init} (suc n) i qs w r =
    let inside : is_some_of (at qs i).parent cur ≡ true → i < length qs =
      λ c. inside_of_used qs i (ground (arith, w.sound.orphan i)) in
    let (w', r') =
      reparent_lem ps n (i + 1) (pass_on cur init i qs) (pass_on-Passing i w)
        (pass_on-Reparented cur init ps i qs inside r) in
    (w', λ k. ground (arith, r' k))

wake_parent-Passing :
    (cur : ℕ) (par : Option ℕ) {ps : List Proc} {n init : ℕ}
    → IsSound ps n init
    → cur ≢ init
    → (at ps cur).state ≡ running
    → (at ps cur).parent ≡ par
    → Passing cur par (wake_parent par ps) n init
      × ((k : ℕ) → (at (wake_parent par ps) k).parent ≡ (at ps k).parent)
wake_parent-Passing cur none s ne run e =
    (record { sound = s; other = ne; alive = run; parent = e; told = λ j q. cc }, λ k. refl)
wake_parent-Passing cur (some j) {ps} s ne run e = (
  record {
    sound = IsSound-wakeup1 (process j) s;
    other = ne;
    alive = ground (arith, at-wakeup1 (process j) ps cur);
    parent = ground (arith, at-wakeup1 (process j) ps cur);
    told = λ k q. ground (arith, at-wakeup1 (process j) ps k);
  },
  λ k. ground (arith, at-wakeup1 (process j) ps k),
)

-- What `exit` leaves for the process `cur` of the table `t`.
pub record Exited (cur : ℕ) (t u : Table) : Type 0 where
  pub dead : (at u.procs cur).state ≡ zombie
  pub moved :
      (k : ℕ)
      → (at u.procs k).parent
        ≡ (if is_some_of (at t.procs k).parent cur then some t.initproc else (at t.procs k).parent)
  pub sound : IsSoundTable u

module _ (cur : ℕ) (t : Table) (s : IsSoundTable t) (run : (at t.procs cur).state ≡ running)
    (ne : cur ≢ t.initproc) where
  -- the table before the final assignment
  last : List Proc
  last = reparent nproc cur t.initproc 0 (wake_parent (at t.procs cur).parent t.procs)

  exit_eq :
      exit cur t
      ≡ some (record t { procs = set last cur (record (at last cur) { state = zombie }) })
  unfolding exit last
  exit_eq = ground arith

  last_lem :
      Passing cur (at t.procs cur).parent last t.nextpid t.initproc
      × Reparented cur t.initproc t.procs nproc last
  unfolding last
  last_lem =
      let (w, same) = wake_parent-Passing cur (at t.procs cur).parent s ne run refl in
      let ps0 = wake_parent (at t.procs cur).parent t.procs in
      reparent_lem t.procs nproc 0 ps0 w (λ k. ground (arith, same k))

  last_parent :
      (k : ℕ)
      → (at last k).parent
        ≡ (if is_some_of (at t.procs k).parent cur then some t.initproc else (at t.procs k).parent)
  last_parent k = ground (arith, last_lem.1 k, s.size, s.orphan k, inside_of_used t.procs k)

  zombie_Fits :
      Fits last t.nextpid t.initproc t.nextpid cur (record (at last cur) { state = zombie })
  zombie_Fits =
      let w = last_lem.0 in
      let inside = inside_of_used last cur (ground (arith, w.alive)) in
      record {
        below = omega (arith, w.sound.size);
        grows = omega arith;
        init_alive = λ e. absurd (ne e);
        init_first = λ e. absurd (ne e);
        pid = λ u. ground (arith, w.sound.fresh cur, w.alive);
        orphan = λ u. cc;
        not_self = w.sound.not_self cur;
        parent = w.sound.parents cur;
        childless = λ k e. absurd (ground (arith, last_parent k, ne));
        reported = λ j e z. w.told j (sym w.parent ∙ e);
        may_wait = λ k e z. refl;
      }

  final : Table
  final = record t { procs = set last cur (record (at last cur) { state = zombie }) }

  final-Exited : Exited cur t final
  unfolding final
  final-Exited =
      let w = last_lem.0 in
      let inside = inside_of_used last cur (ground (arith, w.alive)) in
      let look = λ (k : ℕ). at-set last cur k (record (at last cur) { state = zombie }) inside in
      record {
        dead = ground (arith, look cur);
        moved = λ k. ground (arith, look k, last_parent k);
        sound = IsSound-set w.sound zombie_Fits;
      }

-- A running process other than init that exits becomes a zombie whose children, all of them, have
-- become children of init; no other process changes its parent, and the table stays sound: in
-- particular no process that sleeps in `wait` misses its new zombie child.
pub exit_lem :
    (cur : ℕ) (t : Table)
    → IsSoundTable t
    → (at t.procs cur).state ≡ running
    → cur ≢ t.initproc
    → (u : Table) × (exit cur t ≡ some u) × Exited cur t u
unfolding final
exit_lem cur t s run ne =
    (final cur t s run ne, exit_eq cur t s run ne, final-Exited cur t s run ne)
