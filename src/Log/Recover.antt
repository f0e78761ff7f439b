-- ===== src/Log/Recover.antt =====
-- initlog after a crash, which may itself be cut short by another crash.
use course_work_sem.Base.{
  ℕ, ◌<◌, ◌≡◌, ◌≢◌, ◌⊎◌, refl, ap, true, false, none, List, [], ◌∷◌, arith, length, get_or, ◌==◌,
  Bool-cases, inl, inr,
}
use course_work_sem.Log.{Store, bread, bwrite, install_from, read_words, head_block, initlog}
use course_work_sem.Log.Header.{head_count, head_count-nil}
use course_work_sem.Log.Crash.{
  Disk, has, in_log, Clean, Logged, Committed, NoDirtyLog, install_from-power,
  install_from-Committed,
}

-- the machine after a crash: the disk is what is left, and `power` writes will reach it
abbrev pub rebooted : Disk → ℕ → Store
rebooted d power = record { disk = d; dirty = λ b. none; power = power }

-- the disk after a boot from `d`
unfoldable pub boot : ℕ → ℕ → ℕ → Disk → Disk
boot start size power d = (initlog start size (rebooted d power)).store.disk

-- the disk after boots that last for so many writes each
pub boots : ℕ → ℕ → List ℕ → Disk → Disk
boots start size [] d = d
boots start size (power ∷ powers) d = boots start size powers (boot start size power d)

-- writing an empty header
unfoldable pub erase : ℕ → Store → Store
erase start s = bwrite start (head_block (bread s start) []) s

pub erase_off : (start : ℕ) (s : Store) → (s.power == 0) ≡ true → (erase start s).disk ≡ s.disk
unfolding erase bwrite
erase_off start s off = ground arith

boot_eq :
    (start size power : ℕ) (d : Disk) (lh : List ℕ)
    → read_words (d start) 1 (head_count (d start)) ≡ lh
    → boot start size power d ≡ (erase start (install_from start 0 lh (rebooted d power))).disk
unfolding boot initlog erase
boot_eq start size power d lh e = rw (← e)

module _ {start size : ℕ} {lh : List ℕ} {new : Disk} (l : Logged start size lh) (s : Store)
    (clean : NoDirtyLog start size s) (c : Committed start size lh new s.disk) where
  installed_lem :
      Committed start size lh new (install_from start 0 lh s).disk
      × NoDirtyLog start size (install_from start 0 lh s)
      × ((install_from start 0 lh s).power ≢ 0
          → (b : ℕ) → (s.disk b ≡ new b) ⊎ (has b lh ≡ true)
          → (install_from start 0 lh s).disk b ≡ new b)
  installed_lem =
      install_from-Committed l lh 0 s (λ j lj. ap (λ k. get_or lh k 0) (omega arith)) (omega arith)
        clean c

  installed-home :
      (install_from start 0 lh s).power ≢ 0
      → (b : ℕ) → in_log start size b ≡ false
      → (install_from start 0 lh s).disk b ≡ new b
  installed-home on b out = elim (Bool-cases (has b lh)) [
    | inl logged ↦ installed_lem.2 on b (inr logged)
    | inr other ↦ installed_lem.2 on b (inl (c.home b out other))
  ]

  erased-Clean :
      (install_from start 0 lh s).power ≢ 0
      → Clean start size new (erase start (install_from start 0 lh s)).disk
  unfolding erase bwrite
  erased-Clean on = record {
    empty = ground (arith, head_count-nil (bread (install_from start 0 lh s) start));
    home = λ b out. ground (arith, installed-home on b out, l.below);
  }

  -- installing and erasing a committed transaction, with power for some of the writes
  pub finish-Committed :
      Committed start size lh new (erase start (install_from start 0 lh s)).disk
      ⊎ Clean start size new (erase start (install_from start 0 lh s)).disk
  finish-Committed = elim (Bool-cases ((install_from start 0 lh s).power == 0)) [
    | inl off ↦ inl (rw (erase_off start (install_from start 0 lh s) off) installed_lem.0)
    | inr on ↦ inr (erased-Clean (ground arith))
  ]

  pub finish-Clean :
      length lh < s.power → Clean start size new (erase start (install_from start 0 lh s)).disk
  finish-Clean h = erased-Clean (omega (arith, install_from-power start 0 lh s))

module _ {start size : ℕ} {lh : List ℕ} {new : Disk} (l : Logged start size lh) (power : ℕ)
    {d : Disk} (c : Committed start size lh new d) where
  boot-installed :
      boot start size power d ≡ (erase start (install_from start 0 lh (rebooted d power))).disk
  boot-installed = boot_eq start size power d lh (rw (c.count) c.listed)

  -- A boot either leaves the transaction to be recovered, or has installed all of it.
  pub boot-Committed :
      Committed start size lh new (boot start size power d)
      ⊎ Clean start size new (boot start size power d)
  boot-Committed = rw boot-installed (finish-Committed l (rebooted d power) (λ b h. refl) c)

  -- With power for one write more than there are blocks the recovery completes.
  pub boot-Clean : length lh < power → Clean start size new (boot start size power d)
  boot-Clean h = rw boot-installed (finish-Clean l (rebooted d power) (λ b h. refl) c h)

-- A boot from a disk without a transaction changes no block outside the log.
pub boot-old :
    {start : ℕ} {old : Disk} (size power : ℕ) {d : Disk}
    → 0 < size
    → Clean start size old d
    → Clean start size old (boot start size power d)
unfolding erase install_from bwrite read_words bread
boot-old {start} {old} size power {d} any c =
    rw (boot_eq start size power d [] (no_words c.empty)) (record {
      empty = ground (arith, c.empty, head_count-nil (d start));
      home = λ b out. ground (arith, c.home b out);
    })
  where
    no_words : head_count (d start) ≡ 0 → read_words (d start) 1 (head_count (d start)) ≡ []
    no_words e = rw e

-- After any number of boots, each cut short at any of its writes, the disk still holds the
-- transaction or has all of it installed.
pub boots-Committed :
    {start : ℕ} {lh : List ℕ} {new : Disk} (size : ℕ) (powers : List ℕ) {d : Disk}
    → Logged start size lh
    → Committed start size lh new d ⊎ Clean start size new d
    → Committed start size lh new (boots start size powers d)
      ⊎ Clean start size new (boots start size powers d)
unfolding boots
boots-Committed size [] l c = c
boots-Committed size (p ∷ ps) l (inl c) = boots-Committed size ps l (boot-Committed l p c)
boots-Committed size (p ∷ ps) l (inr c) =
    boots-Committed size ps l (inr (boot-old size p (omega (arith, l.below)) c))

pub boots-old :
    {start : ℕ} {old : Disk} (size : ℕ) (powers : List ℕ) {d : Disk}
    → 0 < size
    → Clean start size old d
    → Clean start size old (boots start size powers d)
unfolding boots
boots-old size [] any c = c
boots-old size (p ∷ ps) any c = boots-old size ps any (boot-old size p any c)
