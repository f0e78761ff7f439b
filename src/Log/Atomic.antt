-- ===== src/Log/Atomic.antt =====
-- The two promises of the log: a crash leaves all or nothing, and a commit that ends has happened.
use course_work_sem.Base.{
  ℕ, ◌+◌, ◌*◌, ◌<◌, ◌≡◌, ◌≢◌, ◌⊎◌, refl, ap, false, List, [], ◌∷◌, arith, length, ◌==◌, Bool-cases,
  inl, inr,
}
use course_work_sem.Log.{Store, Log, commit, install_from, bread}
use course_work_sem.Log.Crash.{Disk, has, in_log, Clean, Committed}
use course_work_sem.Log.Recover.{
  erase, finish-Committed, finish-Clean, boots, boots-Committed, boots-old, boot, boot-Clean,
  boot-old,
}
use course_work_sem.Log.Commit.{
  Ready, current, headed, copied, copied-Clean, headed-off, headed-NoDirty, headed-Committed,
  commit_eq, commit_nil, headed-power, copied-power,
}

-- What the disk holds when power fails at some write of `commit`, or after it.
data Left (l : Log) (old : Disk) (d : Disk) : Type 0 where
  none_of_it : Clean l.start l.size old d → Left l old d
  to_recover : Committed l.start l.size l.lh (current l) d → Left l old d
  all_of_it : Clean l.start l.size (current l) d → Left l old d

no_member : (lh : List ℕ) → length lh ≡ 0 → (b : ℕ) → has b lh ≡ false
no_member [] e b = refl
no_member (c ∷ cs) e b = absurd (omega arith)

module _ (l : Log) {old : Disk} (r : Ready l old) where
  committed-Left : Left l old (erase l.start (install_from l.start 0 l.lh (headed l r))).disk
  committed-Left = elim (Bool-cases ((copied l r).power == 0)) [
    | inl off ↦ none_of_it (rw (headed-off l r (ground arith)) (copied-Clean l r))
    | inr on ↦
        let c = headed-Committed l r (ground arith) in
        elim (finish-Committed r.logged (headed l r) (headed-NoDirty l r) c) [
          | inl still ↦ to_recover still
          | inr done ↦ all_of_it done
        ]
  ]

  commit-Left : Left l old (commit l).store.disk
  commit-Left = elim (Bool-cases (length l.lh == 0)) [
    | inl empty ↦ rw (commit_nil l r empty) (none_of_it r.clean)
    | inr more ↦ rw (ap (λ (s : Store). s.disk) (commit_eq l r more)) committed-Left
  ]

  unchanged :
      length l.lh ≡ 0 → (b : ℕ) → in_log l.start l.size b ≡ false → l.store.disk b ≡ current l b
  unfolding bread
  unchanged e b o = ground (arith, r.pinned b o (no_member l.lh e b))

-- Crash atomicity. Let power fail at any write of `commit`, and then at any write of any number of
-- boots; after one more boot that has power for the recovery (one write more than there are logged blocks), either every block outside the log
-- is as it was before the transaction, or every one is as the transaction's operations left it.
pub commit_atomic :
    (l : Log) {old : Disk} (powers : List ℕ) (power : ℕ)
    → Ready l old
    → length l.lh < power
    → let d = boot l.start l.size power (boots l.start l.size powers (commit l).store.disk) in
      ((b : ℕ) → in_log l.start l.size b ≡ false → d b ≡ old b)
      ⊎ ((b : ℕ) → in_log l.start l.size b ≡ false → d b ≡ current l b)
commit_atomic l {old} powers power r enough = after (commit-Left l r)
  where
    any : 0 < l.size
    any = omega (arith, r.logged.below)

    finish :
        {d : Disk}
        → Committed l.start l.size l.lh (current l) d ⊎ Clean l.start l.size (current l) d
        → Clean l.start l.size (current l) (boot l.start l.size power d)
    finish (inl c) = boot-Clean r.logged power c enough
    finish (inr c) = boot-old l.size power any c

    after :
        Left l old (commit l).store.disk
        → let d = boot l.start l.size power (boots l.start l.size powers (commit l).store.disk) in
          ((b : ℕ) → in_log l.start l.size b ≡ false → d b ≡ old b)
          ⊎ ((b : ℕ) → in_log l.start l.size b ≡ false → d b ≡ current l b)
    after (none_of_it c) = inl (boot-old l.size power any (boots-old l.size powers any c)).home
    after (to_recover c) = inr (finish (boots-Committed l.size powers r.logged (inl c))).home
    after (all_of_it c) = inr (finish (boots-Committed l.size powers r.logged (inr c))).home

-- Durability. A `commit` with power for all of its writes leaves on the disk, outside the log, what
-- the transaction's operations left, and an empty log.
pub commit_durable :
    (l : Log) {old : Disk}
    → Ready l old
    → 2 * length l.lh + 1 < l.store.power
    → Clean l.start l.size (current l) (commit l).store.disk
commit_durable l {old} r enough = elim (Bool-cases (length l.lh == 0)) [
  | inl empty ↦
      rw (commit_nil l r empty)
        (record { empty = r.clean.empty; home = unchanged l r (ground arith) })
  | inr more ↦
      let on : (copied l r).power ≢ 0 = omega (arith, copied-power l r) in
      rw (ap (λ (s : Store). s.disk) (commit_eq l r more)) (
        finish-Clean r.logged (headed l r) (headed-NoDirty l r) (headed-Committed l r on)
          (omega (arith, headed-power l r, copied-power l r)))
]
