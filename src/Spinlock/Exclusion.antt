-- ===== src/Spinlock/Exclusion.antt =====
-- The steps that any number of processors take through `acquire` and `release` of spinlock.c.
use course_work_sem.Base.{
  ℕ, ◌-◌, ◌≡◌, refl, ap, subst, sym, ◌∙◌, Bool, true, false, ◌&&◌, Option, none, some, ◌==◌, update,
  arith, inl, inr, Bool-cases,
}
use course_work_sem.Spinlock.{
  Cpu, pushcli, holding, initlock, is_cpu, Pc, outside, spinning, won, critical, cleared, World,
  acquire_enter, acquire_xchg, acquire_record, release_clear, release_xchg,
}
use course_work_sem.Spinlock.Cli.{pushcli_lem, popcli_lem}

abbrev pub initial : World
initial = record {
  lk = initlock;
  pc = λ i. outside;
  cpus = λ i. record { ncli = 0; intena = true; enabled = true };
}

-- The steps of the processors, in any order. A processor enters `acquire` only from outside of the
-- lock's code and `release` only from the critical section.
pub data Reach : World → Type 0 where
  start : Reach initial
  enter_step :
      {w w' : World} (i : ℕ) → Reach w → w.pc i ≡ outside → acquire_enter i w ≡ some w' → Reach w'
  xchg_step : {w : World} (i : ℕ) → Reach w → w.pc i ≡ spinning → Reach (acquire_xchg i w)
  record_step : {w : World} (i : ℕ) → Reach w → w.pc i ≡ won → Reach (acquire_record i w)
  clear_step :
      {w w' : World} (i : ℕ) → Reach w → w.pc i ≡ critical → release_clear i w ≡ some w' → Reach w'
  unlock_step :
      {w w' : World} (i : ℕ) → Reach w → w.pc i ≡ cleared → release_xchg i w ≡ some w' → Reach w'

-- between the `xchg` that took the lock and the one that gives it back
abbrev pub is_inside : Pc → Bool
is_inside outside = false
is_inside spinning = false
is_inside won = true
is_inside critical = true
is_inside cleared = true

abbrev pub is_critical : Pc → Bool
is_critical critical = true
is_critical _ = false

abbrev pub is_outside : Pc → Bool
is_outside outside = true
is_outside _ = false

-- The lock is locked while a processor is inside, that one alone; `lk->cpu` names the processor in
-- the critical section; a processor in the lock's code has interrupts off and one pushcli to undo.
pub record IsExclusive (w : World) : Type 0 where
  pub held : (i : ℕ) → is_inside (w.pc i) ≡ true → w.lk.locked ≡ true
  pub alone : (i j : ℕ) → is_inside (w.pc i) ≡ true → is_inside (w.pc j) ≡ true → i ≡ j
  pub owner : (i : ℕ) → is_cpu w.lk.cpu i ≡ is_critical (w.pc i)
  pub off :
      (i : ℕ) → is_outside (w.pc i) ≡ false → ((w.cpus i).enabled ≡ false) × ((w.cpus i).ncli ≡ 1)
  pub idle : (i : ℕ) → is_outside (w.pc i) ≡ true → (w.cpus i).ncli ≡ 0

-- A processor that does not hold the lock passes the test of `acquire`.
enter_eq :
    (i : ℕ) (w : World)
    → IsExclusive w
    → w.pc i ≡ outside
    → acquire_enter i w
      ≡ some (record w { pc = update w.pc i spinning; cpus = update w.cpus i (pushcli (w.cpus i)) })
unfolding acquire_enter holding
enter_eq i w ok here = let own = ok.owner i in ground (arith, own)

clear_eq :
    (i : ℕ) (w : World)
    → IsExclusive w
    → w.pc i ≡ critical
    → release_clear i w
      ≡ some (record w { lk = record w.lk { cpu = none }; pc = update w.pc i cleared })
unfolding release_clear holding
clear_eq i w ok here =
    let own = ok.owner i in let locked = ok.held i (rw here refl) in ground (arith, own, locked)

unlock_eq :
    (i : ℕ) (w : World)
    → IsExclusive w
    → w.pc i ≡ cleared
    → (c : Cpu) × (c.ncli ≡ 0)
      × (release_xchg i w
          ≡ some (record w {
            lk = record w.lk { locked = false };
            pc = update w.pc i outside;
            cpus = update w.cpus i c;
          }))
unfolding release_xchg
unlock_eq i w ok here =
    let (off, one) = ok.off i (rw here refl) in
    let popped = popcli_lem (w.cpus i) (omega arith) off in
    let c' : Cpu = record (w.cpus i) {
      ncli = (w.cpus i).ncli - 1;
      enabled = ((w.cpus i).ncli - 1 == 0) && (w.cpus i).intena;
    } in
    (c', omega arith, rw (popped, release_xchg) refl)

enter-IsExclusive :
    (i : ℕ) (w : World)
    → IsExclusive w
    → w.pc i ≡ outside
    → IsExclusive
        (record w { pc = update w.pc i spinning; cpus = update w.cpus i (pushcli (w.cpus i)) })
enter-IsExclusive i w ok here =
    let (count, off1, saved) = pushcli_lem (w.cpus i) in
    record {
      held = λ j h. ground (arith, h, ok.held j);
      alone = λ j k h g. ground (arith, h, g, ok.alone j k);
      owner = λ j. ground (arith, ok.owner j, ok.owner i);
      off = λ j h. elim (Bool-cases (j == i)) [
        | inl same ↦ (ground (arith, off1), ground (arith, count, ok.idle i))
        | inr other ↦ (ground (arith, h, ok.off j), ground (arith, h, ok.off j))
      ];
      idle = λ j h. ground (arith, h, ok.idle j);
    }

xchg_fail-IsExclusive :
    (i : ℕ) (w : World)
    → IsExclusive w
    → w.pc i ≡ spinning
    → w.lk.locked ≡ true
    → IsExclusive (acquire_xchg i w)
unfolding acquire_xchg
xchg_fail-IsExclusive i w ok here taken = record {
  held = λ j h. refl;
  alone = λ j k h g. ground (arith, h, g, ok.alone j k);
  owner = λ j. ground (arith, ok.owner j, ok.owner i);
  off = λ j h. elim (Bool-cases (j == i)) [
    | inl same ↦ (ground (arith, ok.off i), ground (arith, ok.off i))
    | inr other ↦ (ground (arith, h, ok.off j), ground (arith, h, ok.off j))
  ];
  idle = λ j h. ground (arith, h, ok.idle j);
}

xchg_win-IsExclusive :
    (i : ℕ) (w : World)
    → IsExclusive w
    → w.pc i ≡ spinning
    → w.lk.locked ≡ false
    → IsExclusive (acquire_xchg i w)
unfolding acquire_xchg
xchg_win-IsExclusive i w ok here open_ = record {
  held = λ j h. refl;
  alone = λ j k h g. ground (arith, h, g, ok.held j, ok.held k);
  owner = λ j. ground (arith, ok.owner j, ok.owner i);
  off = λ j h. elim (Bool-cases (j == i)) [
    | inl same ↦ (ground (arith, ok.off i), ground (arith, ok.off i))
    | inr other ↦ (ground (arith, h, ok.off j), ground (arith, h, ok.off j))
  ];
  idle = λ j h. ground (arith, h, ok.idle j);
}

record-IsExclusive :
    (i : ℕ) (w : World) → IsExclusive w → w.pc i ≡ won → IsExclusive (acquire_record i w)
unfolding acquire_record
record-IsExclusive i w ok here = record {
  held = λ j h. ground (arith, h, ok.held j, ok.held i);
  alone = λ j k h g. ground (arith, h, g, ok.alone j k, ok.alone i k, ok.alone j i);
  owner = λ j. ground (arith, ok.owner j, ok.alone i j);
  off = λ j h. elim (Bool-cases (j == i)) [
    | inl same ↦ (ground (arith, ok.off i), ground (arith, ok.off i))
    | inr other ↦ (ground (arith, h, ok.off j), ground (arith, h, ok.off j))
  ];
  idle = λ j h. ground (arith, h, ok.idle j);
}

clear-IsExclusive :
    (i : ℕ) (w : World)
    → IsExclusive w
    → w.pc i ≡ critical
    → IsExclusive (record w { lk = record w.lk { cpu = none }; pc = update w.pc i cleared })
clear-IsExclusive i w ok here = record {
  held = λ j h. ground (arith, h, ok.held j, ok.held i);
  alone = λ j k h g. ground (arith, h, g, ok.alone j k, ok.alone i k, ok.alone j i);
  owner = λ j. ground (arith, ok.owner j, ok.alone i j);
  off = λ j h. elim (Bool-cases (j == i)) [
    | inl same ↦ (ground (arith, ok.off i), ground (arith, ok.off i))
    | inr other ↦ (ground (arith, h, ok.off j), ground (arith, h, ok.off j))
  ];
  idle = λ j h. ground (arith, h, ok.idle j);
}

unlock-IsExclusive :
    (i : ℕ) (w : World) (c : Cpu)
    → IsExclusive w
    → w.pc i ≡ cleared
    → c.ncli ≡ 0
    → IsExclusive (record w {
      lk = record w.lk { locked = false };
      pc = update w.pc i outside;
      cpus = update w.cpus i c;
    })
unlock-IsExclusive i w c ok here count = record {
  held = λ j h. ground (arith, h, ok.alone i j);
  alone = λ j k h g. ground (arith, h, g, ok.alone j k);
  owner = λ j. ground (arith, ok.owner j, ok.owner i);
  off = λ j h. (ground (arith, h, ok.off j), ground (arith, h, ok.off j));
  idle = λ j h. ground (arith, h, ok.idle j, count);
}

abbrev or_initial : Option World → World
or_initial none = initial
or_initial (some w) = w

-- a step whose result is known
from_eq :
    {w w' : World} {o : Option World} → o ≡ some w → o ≡ some w' → IsExclusive w → IsExclusive w'
from_eq e f ok = subst IsExclusive (ap or_initial (sym e ∙ f)) ok

pub Reach-IsExclusive : {w : World} → Reach w → IsExclusive w
unfolding initlock
Reach-IsExclusive start = record {
  held = λ i h. cc;
  alone = λ i j h g. cc;
  owner = λ i. refl;
  off = λ i h. cc;
  idle = λ i h. refl;
}
Reach-IsExclusive (enter_step {w} {w'} i r here e) =
    let ok = Reach-IsExclusive r in from_eq (enter_eq i w ok here) e (enter-IsExclusive i w ok here)
Reach-IsExclusive (xchg_step {w} i r here) =
    let ok = Reach-IsExclusive r in
    elim (Bool-cases w.lk.locked) [
      | inl taken ↦ xchg_fail-IsExclusive i w ok here taken
      | inr open_ ↦ xchg_win-IsExclusive i w ok here open_
    ]
Reach-IsExclusive (record_step {w} i r here) = record-IsExclusive i w (Reach-IsExclusive r) here
Reach-IsExclusive (clear_step {w} {w'} i r here e) =
    let ok = Reach-IsExclusive r in from_eq (clear_eq i w ok here) e (clear-IsExclusive i w ok here)
Reach-IsExclusive (unlock_step {w} {w'} i r here e) =
    let ok = Reach-IsExclusive r in
    let (c, count, f) = unlock_eq i w ok here in
    from_eq f e (unlock-IsExclusive i w c ok here count)

-- In every state that the processors reach from the unlocked lock: two processors in the critical
-- section are the same one; `acquire` from outside and `release` from the critical section do not
-- panic, and neither does the popcli of `release`; and a processor in the lock's code or in the
-- critical section has interrupts off.
pub Reach-Exclusive :
    {w : World}
    → Reach w
    → ((i j : ℕ) → w.pc i ≡ critical → w.pc j ≡ critical → i ≡ j)
      × ((i : ℕ) → w.pc i ≡ outside → (w' : World) × (acquire_enter i w ≡ some w'))
      × ((i : ℕ) → w.pc i ≡ critical → (w' : World) × (release_clear i w ≡ some w'))
      × ((i : ℕ) → w.pc i ≡ cleared → (w' : World) × (release_xchg i w ≡ some w'))
      × ((i : ℕ) → is_outside (w.pc i) ≡ false → (w.cpus i).enabled ≡ false)
Reach-Exclusive {w} r =
    let ok = Reach-IsExclusive r in
    (
      λ i j h g. ok.alone i j (rw h refl) (rw g refl),
      λ i h. (_, enter_eq i w ok h),
      λ i h. (_, clear_eq i w ok h),
      λ i h. (let (c, count, e) = unlock_eq i w ok h in (_, e)),
      λ i h. (ok.off i h).0,
    )
