-- ===== src/Proc/Kill.antt =====
-- kill, sleep, yield and the scheduler's choice: one entry changes, and the table stays sound.
use mathlib.Core.Path.{subst}
use course_work_sem.Base.{
  ℕ, zero, suc, ◌<◌, ◌≡◌, ◌≢◌, refl, true, false, List, [], ◌∷◌, none, some, arith, length, set,
  ◌==◌, Bool-cases, Option-cases, inl, inr, ℤ, pos, minus_one,
}
use course_work_sem.Proc.{
  Proc, Table, running, at, is_unused, is_zombie, Chan, process, chan_eq, kill_proc, kill_first,
  kill, sleep, wake_up, yield, schedule, wakeup, is_runnable,
}
use course_work_sem.Proc.Lookup.{waiting, inside_of_used}
use course_work_sem.Proc.Family.{IsSoundTable, IsSound-set, IsSound-wakeup1, same_Fits, is_alive}

-- entry `i` is the first whose pid is `pid`
pub record FirstPid (pid : ℕ) (ps : List Proc) (i : ℕ) : Type 0 where
  pub inside : i < length ps
  pub hit : (at ps i).pid ≡ pid
  pub before : (j : ℕ) → j < i → (at ps j).pid ≢ pid

-- what `kill` leaves: one process killed, or a table without the pid
pub data Killed (pid : ℕ) (t : Table) : ℤ × Table → Type 0 where
  killed :
      (i : ℕ)
      → FirstPid pid t.procs i
      → Killed pid t (pos 0, record t { procs = set t.procs i (kill_proc (at t.procs i)) })
  missing : ((j : ℕ) → j < length t.procs → (at t.procs j).pid ≢ pid) → Killed pid t (minus_one, t)

kill_first-none :
    (pid : ℕ) (ps : List Proc)
    → kill_first pid ps ≡ none
    → (j : ℕ) → j < length ps
    → (at ps j).pid ≢ pid
unfolding kill_first
kill_first-none pid [] e j lt = absurd (omega arith)
kill_first-none pid (p ∷ ps) e zero lt = ground arith
kill_first-none pid (p ∷ ps) e (suc j) lt = kill_first-none pid ps (ground arith) j (omega arith)

kill_first-some :
    (pid : ℕ) (ps qs : List Proc)
    → kill_first pid ps ≡ some qs
    → (i : ℕ) × FirstPid pid ps i × (qs ≡ set ps i (kill_proc (at ps i)))
unfolding kill_first
kill_first-some pid [] qs e = cc
kill_first-some pid (p ∷ ps) qs e = elim (Bool-cases (p.pid == pid)) [
  | inl hit ↦ (
    0,
    record { inside = omega arith; hit = ground arith; before = λ j lt. absurd (omega arith) },
    ground arith,
  )
  | inr miss ↦ elim (Option-cases (kill_first pid ps)) [
    | inl out ↦ absurd (ground arith)
    | inr (rs, er) ↦
        let (i, f, eq) = kill_first-some pid ps rs er in (suc i, cons_first miss f, ground arith)
  ]
]
  where
    cons_first :
        (p.pid == pid) ≡ false → {i : ℕ} → FirstPid pid ps i → FirstPid pid (p ∷ ps) (suc i)
    cons_first miss f = record {
      inside = omega (arith, f.inside);
      hit = f.hit;
      before = elim [ zero ↦ λ lt. ground arith | suc m ↦ λ lt. f.before m (omega arith) ];
    }

-- `kill` returns 0 exactly if some entry has the pid; then the first such entry is marked killed
-- and made RUNNABLE if it slept, and nothing else changes. Otherwise it returns -1 and changes
-- nothing.
pub kill-Killed : (pid : ℕ) (t : Table) → Killed pid t (kill pid t)
unfolding kill
kill-Killed pid t = elim (Option-cases (kill_first pid t.procs)) [
  | inl out ↦ rw (out, kill) (missing (kill_first-none pid t.procs out))
  | inr (qs, e) ↦
      let (i, f, eq) = kill_first-some pid t.procs qs e in rw (e, kill) (rw eq (killed i f))
]

kill_proc_lem :
    (p : Proc) (i : ℕ)
    → ((kill_proc p).pid ≡ p.pid)
      × ((kill_proc p).parent ≡ p.parent)
      × (is_unused (kill_proc p).state ≡ is_unused p.state)
      × (is_alive (kill_proc p).state ≡ is_alive p.state)
      × (is_zombie (kill_proc p).state ≡ is_zombie p.state)
      × (waiting i (kill_proc p) ≡ false)
kill_proc_lem p i =
    (ground arith, ground arith, ground arith, ground arith, ground arith, ground arith)

pub kill-IsSound : (pid : ℕ) {t : Table} → IsSoundTable t → IsSoundTable (kill pid t).1
kill-IsSound pid {t} s = go (kill pid t) (kill-Killed pid t)
  where
    go : (out : ℤ × Table) → Killed pid t out → IsSoundTable out.1
    go _ (missing h) = s
    go _ (killed i f) =
        let same = kill_proc_lem (at t.procs i) i in
        IsSound-set s
          (same_Fits i _ s f.inside same.0 same.1 same.2 same.3 same.4 (λ k e z. same.5))

module _ (cur : ℕ) {t : Table} (s : IsSoundTable t) where
  live : is_alive (at t.procs cur).state ≡ true → cur < length t.procs
  live a = inside_of_used t.procs cur (ground arith)

  -- A running process may sleep on anything but its own entry, on which only `wait` sleeps.
  pub sleep-IsSound :
      (c : Chan)
      → (at t.procs cur).state ≡ running
      → ((k : ℕ)
          → (at t.procs k).parent ≡ some cur
          → is_zombie (at t.procs k).state ≡ true
          → chan_eq c (process cur) ≡ false)
      → IsSoundTable (sleep cur c t)
  unfolding sleep
  sleep-IsSound c run other = IsSound-set s (
      same_Fits cur _ s (live (ground arith)) refl refl (ground arith) (ground arith) (ground arith)
        other)

  pub wake_up-IsSound : (at t.procs cur).state ≡ running → IsSoundTable (wake_up cur t)
  unfolding wake_up
  wake_up-IsSound run = IsSound-set s (
      same_Fits cur _ s (live (ground arith)) refl refl (ground arith) (ground arith) (ground arith)
        (λ k e z. ground arith))

  pub yield-IsSound : (at t.procs cur).state ≡ running → IsSoundTable (yield cur t)
  unfolding yield
  yield-IsSound run = IsSound-set s (
      same_Fits cur _ s (live (ground arith)) refl refl (ground arith) (ground arith) (ground arith)
        (λ k e z. refl))

  pub schedule-IsSound : {u : Table} → schedule cur t ≡ some u → IsSoundTable u
  unfolding schedule
  schedule-IsSound {u} e = elim (Bool-cases (is_runnable (at t.procs cur).state)) [
    | inl ready ↦
        let eq : record t { procs = set t.procs cur (record (at t.procs cur) { state = running }) }
            ≡ u =
          ground arith in
        subst IsSoundTable eq (
          IsSound-set s (
            same_Fits cur _ s (live (ground arith)) refl refl (ground arith) (ground arith)
              (ground arith) (λ k e z. refl)))
    | inr not_ ↦ absurd (ground arith)
  ]

pub wakeup-IsSound : (c : Chan) {t : Table} → IsSoundTable t → IsSoundTable (wakeup c t)
unfolding wakeup
wakeup-IsSound c s = IsSound-wakeup1 c s
