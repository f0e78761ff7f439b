-- ===== src/Proc/Wait.antt =====
-- `wait` of proc.c: each way in which one pass over the table ends.
use course_work_sem.Base.{
  ℕ, zero, suc, ◌+◌, ◌<◌, ◌≡◌, ◌≢◌, ◌⊎◌, refl, Bool, true, false, not, ◌&&◌, ◌||◌, List, [], ◌∷◌,
  none, some, arith, length, set, Bool-cases, Option-cases, inl, inr,
}
use course_work_sem.Proc.{
  Proc, Table, unused, sleeping, running, at, is_zombie, process, is_some_of, scan, wait,
  WaitResult, reaped, no_children, wait_sleeps, reap, sleep,
}
use course_work_sem.Proc.Lookup.{is_some_of_iff}
use course_work_sem.Proc.Family.{IsSound, IsSoundTable, Fits, IsSound-set}
use course_work_sem.Proc.Kill.{sleep-IsSound}

-- entry `i` is a zombie child of `cur`
pub record ZombieChild (cur : ℕ) (ps : List Proc) (i : ℕ) : Type 0 where
  pub inside : i < length ps
  pub child : (at ps i).parent ≡ some cur
  pub dead : is_zombie (at ps i).state ≡ true

-- `ps` has no zombie child of `cur`, and `kids` says whether it has a child
pub record NoZombie (cur : ℕ) (ps : List Proc) (kids : Bool) : Type 0 where
  pub none_dead : (j : ℕ) → (at ps j).parent ≡ some cur → is_zombie (at ps j).state ≡ false
  pub no_kids : kids ≡ false → (j : ℕ) → (at ps j).parent ≢ some cur
  pub a_kid : kids ≡ true → (j : ℕ) × ((at ps j).parent ≡ some cur)

scan-some :
    (cur : ℕ) (ps : List Proc) (i k : ℕ)
    → (scan cur ps i).0 ≡ some k
    → (j : ℕ) × (k ≡ i + j) × ZombieChild cur ps j
unfolding scan
scan-some cur [] i k e = cc
scan-some cur (p ∷ ps) i k e = elim (Bool-cases (is_some_of p.parent cur && is_zombie p.state)) [
  | inl hit ↦ (
    0,
    ground arith,
    record {
      inside = omega arith;
      child = (is_some_of_iff p.parent cur).0 (ground arith);
      dead = ground arith;
    },
  )
  | inr miss ↦
      let (j, at_, z) = scan-some cur ps (i + 1) k (ground arith) in
      (
        suc j,
        omega arith,
        record { inside = omega (arith, z.inside); child = z.child; dead = z.dead },
      )
]

scan-none :
    (cur : ℕ) (ps : List Proc) (i : ℕ)
    → (scan cur ps i).0 ≡ none
    → NoZombie cur ps (scan cur ps i).1
unfolding scan
scan-none cur [] i e = record { none_dead = λ j c. cc; no_kids = λ k j c. cc; a_kid = λ k. cc }
scan-none cur (p ∷ ps) i e = extend (scan-none cur ps (i + 1) (ground arith))
  where
    Rest : Type 0
    Rest = NoZombie cur ps (scan cur ps (i + 1)).1

    dead_later :
        Rest → (j : ℕ) → (at (p ∷ ps) j).parent ≡ some cur → is_zombie (at (p ∷ ps) j).state ≡ false
    dead_later rest zero c = ground (arith, (is_some_of_iff p.parent cur).1 c)
    dead_later rest (suc j) c = rest.none_dead j c

    kids_later :
        Rest → (scan cur (p ∷ ps) i).1 ≡ false → (j : ℕ) → (at (p ∷ ps) j).parent ≢ some cur
    kids_later rest k zero c = ground (arith, (is_some_of_iff p.parent cur).1 c)
    kids_later rest k (suc j) c = rest.no_kids (ground arith) j c

    kid_later :
        Rest → (scan cur (p ∷ ps) i).1 ≡ true → (j : ℕ) × ((at (p ∷ ps) j).parent ≡ some cur)
    kid_later rest k = elim (Bool-cases (is_some_of p.parent cur)) [
      | inl here ↦ (0, (is_some_of_iff p.parent cur).0 here)
      | inr other ↦ let (j, c) = rest.a_kid (ground arith) in (suc j, c)
    ]

    extend : Rest → NoZombie cur (p ∷ ps) (scan cur (p ∷ ps) i).1
    extend rest = record {
      none_dead = dead_later rest;
      no_kids = kids_later rest;
      a_kid = kid_later rest;
    }

-- What one pass of `wait` does for the process `cur`.
pub data Waited (cur : ℕ) (t : Table) : WaitResult × Table → Type 0 where
  reap_child :
      (i : ℕ)
      → ZombieChild cur t.procs i
      → Waited cur t (
        reaped (at t.procs i).pid,
        record t {
          procs = set t.procs i (record (at t.procs i) {
            kstack = 0;
            state = unused;
            pid = 0;
            parent = none;
            killed = false;
          });
        },
      )
  give_up :
      ((j : ℕ) → (at t.procs j).parent ≡ some cur → is_zombie (at t.procs j).state ≡ false)
      → ((j : ℕ) → (at t.procs j).parent ≢ some cur) ⊎ ((at t.procs cur).killed ≡ true)
      → Waited cur t (no_children, t)
  go_to_sleep :
      (j : ℕ)
      → (at t.procs j).parent ≡ some cur
      → ((j : ℕ) → (at t.procs j).parent ≡ some cur → is_zombie (at t.procs j).state ≡ false)
      → (at t.procs cur).killed ≡ false
      → Waited cur t (
        wait_sleeps,
        record t {
          procs =
              set t.procs cur
                (record (at t.procs cur) { chan = some (process cur); state = sleeping });
        },
      )

module _ (cur : ℕ) (t : Table) where
  wait_found :
      (i : ℕ)
      → (scan cur t.procs 0).0 ≡ some i
      → wait cur t
        ≡ (reaped (at t.procs i).pid, record t { procs = set t.procs i (reap (at t.procs i)) })
  unfolding wait
  wait_found i e = ground arith

  module _ (e : (scan cur t.procs 0).0 ≡ none) where
    wait_ends :
        (not (scan cur t.procs 0).1 || (at t.procs cur).killed) ≡ true
        → wait cur t ≡ (no_children, t)
    unfolding wait
    wait_ends h = ground arith

    wait_waits :
        (not (scan cur t.procs 0).1 || (at t.procs cur).killed) ≡ false
        → wait cur t ≡ (wait_sleeps, sleep cur (process cur) t)
    unfolding wait
    wait_waits h = ground arith

-- `wait` frees the entry of a zombie child and returns its pid if there is one: the entry is UNUSED, without
-- a stack, a pid and a parent, and not killed. It returns -1 and changes nothing only without a zombie
-- child, if there is no child at all or the caller was killed; and it sleeps, on its own entry, only while
-- it has a child, none of its children is a zombie, and it was not killed.
pub wait-Waited : (cur : ℕ) (t : Table) → Waited cur t (wait cur t)
unfolding sleep
wait-Waited cur t = elim (Option-cases (scan cur t.procs 0).0) [
  | inr (k, e) ↦
      let (j, at_, z) = scan-some cur t.procs 0 k e in
      let same : k ≡ j = omega arith in rw (wait_found cur t k e) (rw same (reap_child j z))
  | inl e ↦
      let z = scan-none cur t.procs 0 e in
      elim (Bool-cases (not (scan cur t.procs 0).1)) [
        | inl alone ↦
            rw (wait_ends cur t e (ground arith))
              (give_up z.none_dead (inl (z.no_kids (ground arith))))
        | inr kids ↦ elim (Bool-cases (at t.procs cur).killed) [
          | inl dying ↦ rw (wait_ends cur t e (ground arith)) (give_up z.none_dead (inr dying))
          | inr living ↦
              let (j, c) = z.a_kid (ground arith) in
              rw (wait_waits cur t e (ground arith)) (go_to_sleep j c z.none_dead living)
        ]
      ]
]

reap-Fits :
    {ps : List Proc} {n init cur : ℕ} (i : ℕ)
    → IsSound ps n init
    → ZombieChild cur ps i
    → Fits ps n init n i (reap (at ps i))
reap-Fits {ps} {n} {init} {cur} i s z = record {
  below = omega (arith, s.size, z.inside);
  grows = omega arith;
  init_alive = λ e. absurd (ground (arith, s.init_alive, z.dead));
  init_first = λ e. refl;
  pid = λ u. cc;
  orphan = λ u. refl;
  not_self = λ e. cc;
  parent = λ j e. cc;
  childless = λ k e. absurd (ground (arith, s.parents k i e, z.dead));
  reported = λ j e d. cc;
  may_wait = λ k e d. refl;
}

pub wait-IsSound :
    (cur : ℕ) {t : Table}
    → (at t.procs cur).state ≡ running
    → IsSoundTable t
    → IsSoundTable (wait cur t).1
unfolding sleep
wait-IsSound cur {t} run s = go (wait cur t) (wait-Waited cur t)
  where
    go : (out : WaitResult × Table) → Waited cur t out → IsSoundTable out.1
    go _ (reap_child i z) = IsSound-set s (reap-Fits i s z)
    go _ (give_up h why) = s
    go _ (go_to_sleep j c h live) =
        sleep-IsSound cur s (process cur) run (λ k e d. absurd (ground (arith, h k e)))
