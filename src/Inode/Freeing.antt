-- ===== src/Inode/Freeing.antt =====
-- `itrunc` of fs.c: freeing one block after another.
use course_work_sem.Base.{
  ℕ, zero, suc, ◌<◌, ◌≤◌, ◌≡◌, inl, inr, refl, subst, ◌∙◌, Bool, true, false, not, ◌&&◌, ◌||◌, some,
  ◌==◌, arith, Option-cases,
}
use course_work_sem.Disk.{Fs, bfree}
use course_work_sem.Disk.Search.{used}
use course_work_sem.Disk.Alloc.{IsVolume, data_start, Freed, FreeOutcome, bfree_lem}
use course_work_sem.Inode.Slots.{IsBlock}

-- the blocks `h 0` to `h (i - 1)`, without the zeros
abbrev pub among : (ℕ → ℕ) → ℕ → ℕ → Bool
among h zero c = false
among h (suc i) c = (not (h i == 0) && h i == c) || among h i c

-- From `fs` to `fs'` exactly the blocks in `gone` were freed.
pub record Dropped (fs fs' : Fs) (gone : ℕ → Bool) : Type 0 where
  pub volume : IsVolume fs'
  pub same_sb : fs'.sb ≡ fs.sb
  pub low_same : (c : ℕ) → c < fs.sb.bmapstart → fs'.disk c ≡ fs.disk c
  pub map : (c : ℕ) → c < fs.sb.size → used fs' c ≡ (not (gone c) && used fs c)
  pub same_data : (c : ℕ) → data_start fs.sb ≤ c → fs'.disk c ≡ fs.disk c

pub Dropped-refl : (fs : Fs) → IsVolume fs → Dropped fs fs (λ c. false)
Dropped-refl fs ok = record {
  volume = ok;
  same_sb = refl;
  low_same = λ c h. refl;
  map = λ c h. refl;
  same_data = λ c h. refl;
}

pub Dropped-next :
    (fs fs' : Fs) (gone gone' : ℕ → Bool) (b : ℕ)
    → Dropped fs fs' gone
    → IsBlock fs b
    → gone b ≡ false
    → ((c : ℕ) → gone' c ≡ ((b == c) || gone c))
    → (fs'' : Fs) × (bfree b fs' ≡ some fs'') × Dropped fs fs'' gone'
Dropped-next fs fs' gone gone' b d block fresh add =
    let s = d.same_sb in
    let in_use : used fs' b ≡ true = ground (arith, d.map b block.fits, block.taken, fresh) in
    let out = bfree_lem b fs' d.volume (rw s block.fits) (rw s block.high) in
    elim (Option-cases (bfree b fs')) [
      | inl e ↦ (let free : used fs' b ≡ false = subst (FreeOutcome fs' b) e out in absurd cc)
      | inr (fs'', e) ↦
          let f : Freed fs' b fs'' = subst (FreeOutcome fs' b) e out in
          (
            fs'',
            e,
            record {
              volume = f.volume;
              same_sb = f.step.same_sb ∙ s;
              low_same = λ c h. f.step.low_same c (rw s h) ∙ d.low_same c h;
              map = λ c h. ground (arith, f.step.map c (rw s h), d.map c h, add c);
              same_data = λ c h. f.others c (rw s h) ∙ d.same_data c h;
            },
          )
    ]
