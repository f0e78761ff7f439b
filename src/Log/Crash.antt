-- ===== src/Log/Crash.antt =====
-- What a disk holds between operations, what it holds once a transaction has committed, and what
-- recovery makes of either.
use course_work_sem.Base.{
  ℕ, zero, suc, ◌+◌, ◌-◌, ◌<◌, ◌≤◌, ◌≡◌, ◌≢◌, ◌⊎◌, Bool, true, false, ◌&&◌, ◌||◌, none, List, [],
  ◌∷◌, arith, length, get_or, leb, ltb, ◌==◌, Bool-cases, inl, inr, ==_of_ne,
}
use course_work_sem.Log.{Block, Store, logsize, bread, bwrite, install_from, read_words}
use course_work_sem.Log.Header.{head_count}

abbrev pub Disk : Type 0
Disk = ℕ → Block

abbrev pub has : ℕ → List ℕ → Bool
has b [] = false
has b (c ∷ cs) = (c == b) || has b cs

-- the log area: `size` blocks, of which the first is the header
abbrev pub in_log : ℕ → ℕ → ℕ → Bool
in_log start size b = leb start b && ltb b (start + size)

-- No transaction is on the disk, and every block outside the log is as `old` has it.
pub record Clean (start size : ℕ) (old : Disk) (d : Disk) : Type 0 where
  pub empty : head_count (d start) ≡ 0
  pub home : (b : ℕ) → in_log start size b ≡ false → d b ≡ old b

-- The blocks `lh` lie outside the log and fit into it, behind its header, and into the header.
pub record Logged (start size : ℕ) (lh : List ℕ) : Type 0 where
  pub fits : length lh ≤ logsize
  pub below : length lh < size
  pub outside : (i : ℕ) → i < length lh → in_log start size (get_or lh i 0) ≡ false

-- The header lists `lh`, the log holds what `new` has for these blocks, and every other block
-- outside the log is as `new` has it.
pub record Committed (start size : ℕ) (lh : List ℕ) (new : Disk) (d : Disk) : Type 0 where
  pub count : head_count (d start) ≡ length lh
  pub listed : read_words (d start) 1 (length lh) ≡ lh
  pub copied : (i : ℕ) → i < length lh → d (start + i + 1) ≡ new (get_or lh i 0)
  pub home : (b : ℕ) → in_log start size b ≡ false → has b lh ≡ false → d b ≡ new b

-- no buffer of the log area is dirty
abbrev pub NoDirtyLog : ℕ → ℕ → Store → Type 0
NoDirtyLog start size s = (b : ℕ) → in_log start size b ≡ true → s.dirty b ≡ none

pub has-get_or : (lh : List ℕ) (i : ℕ) → i < length lh → has (get_or lh i 0) lh ≡ true
has-get_or [] i h = absurd (omega arith)
has-get_or (c ∷ cs) zero h = ground arith
has-get_or (c ∷ cs) (suc i) h = ground (arith, has-get_or cs i (omega arith))

pub install_from-power :
    (start tail : ℕ) (bs : List ℕ) (s : Store)
    → (install_from start tail bs s).power ≡ s.power - length bs
unfolding install_from bwrite
install_from-power start tail [] s = omega arith
install_from-power start tail (b ∷ bs) s =
    omega (arith, install_from-power start (tail + 1) bs (bwrite b (bread s (start + tail + 1)) s))

pub bwrite-NoDirty :
    (start size c : ℕ) (d : Block) (s : Store)
    → NoDirtyLog start size s
    → NoDirtyLog start size (bwrite c d s)
unfolding bwrite
bwrite-NoDirty start size c d s clean b inside = ground (arith, clean b inside)

module _ {start size : ℕ} {lh : List ℕ} {new : Disk} (l : Logged start size lh) where
  -- the write of one logged block to its home
  home_write-Committed :
      (i : ℕ) (s : Store)
      → i < length lh
      → NoDirtyLog start size s
      → Committed start size lh new s.disk
      → Committed start size lh new (bwrite (get_or lh i 0) (bread s (start + i + 1)) s).disk
  unfolding bwrite bread
  home_write-Committed i s lt clean c = record {
    count = ground (arith, c.count, l.outside i lt);
    listed = ground (arith, c.listed, l.outside i lt);
    copied = λ j lj. ground (arith, c.copied j lj, l.outside i lt, l.fits, l.below);
    home = λ b out non. ground (arith, c.home b out non, has-get_or lh i lt);
  }

  home_write-done :
      (i : ℕ) (s : Store)
      → i < length lh
      → NoDirtyLog start size s
      → Committed start size lh new s.disk
      → s.power ≢ 0
      → (b : ℕ) → (s.disk b ≡ new b) ⊎ (get_or lh i 0 ≡ b)
      → (bwrite (get_or lh i 0) (bread s (start + i + 1)) s).disk b ≡ new b
  unfolding bwrite bread
  home_write-done i s lt clean c on b why = ground (
    arith,
    c.copied i lt,
    clean (start + i + 1) (ground (arith, l.fits, l.below)),
    ==_of_ne s.power 0 on,
    why,
  )

  -- `bs` is what of `lh` is left from index `tail` on
  pub install_from-Committed :
      (bs : List ℕ) (tail : ℕ) (s : Store)
      → ((j : ℕ) → j < length bs → get_or bs j 0 ≡ get_or lh (tail + j) 0)
      → tail + length bs ≤ length lh
      → NoDirtyLog start size s
      → Committed start size lh new s.disk
      → Committed start size lh new (install_from start tail bs s).disk
        × NoDirtyLog start size (install_from start tail bs s)
        × ((install_from start tail bs s).power ≢ 0
            → (b : ℕ) → (s.disk b ≡ new b) ⊎ (has b bs ≡ true)
            → (install_from start tail bs s).disk b ≡ new b)
  unfolding install_from
  install_from-Committed [] tail s part fits clean c =
      (c, clean, λ on b. elim [ inl e ↦ e | inr h ↦ cc ])
  install_from-Committed (x ∷ xs) tail s part fits clean c =
      let lt : tail < length lh = omega arith in
      let head : x ≡ get_or lh tail 0 = ground (arith, part 0 (omega arith)) in
      let s' = bwrite x (bread s (start + tail + 1)) s in
      let c' : Committed start size lh new s'.disk =
        rw head (home_write-Committed tail s lt clean c) in
      let clean' : NoDirtyLog start size s' =
        bwrite-NoDirty start size x (bread s (start + tail + 1)) s clean in
      let (cf, nf, done) =
        install_from-Committed xs (tail + 1) s' (λ j lj. ground (arith, part (suc j) (omega arith)))
          (omega arith) clean' c' in
      (cf, nf, λ on b why. done on b (step head lt on b why))
    where
      step :
          x ≡ get_or lh tail 0
          → tail < length lh
          → (install_from start tail (x ∷ xs) s).power ≢ 0
          → (b : ℕ) → (s.disk b ≡ new b) ⊎ (has b (x ∷ xs) ≡ true)
          → ((bwrite x (bread s (start + tail + 1)) s).disk b ≡ new b) ⊎ (has b xs ≡ true)
      step head lt on b why = elim (Bool-cases (has b xs)) [
        | inl later ↦ inr later
        | inr now ↦
            let live : s.power ≢ 0 = omega (arith, install_from-power start tail (x ∷ xs) s) in
            inl (rw head (home_write-done tail s lt clean c live b (case_of head why now)))
      ]
        where
          case_of :
              x ≡ get_or lh tail 0
              → (s.disk b ≡ new b) ⊎ (has b (x ∷ xs) ≡ true)
              → has b xs ≡ false
              → (s.disk b ≡ new b) ⊎ (get_or lh tail 0 ≡ b)
          case_of head (inl e) now = inl e
          case_of head (inr h) now = inr (ground arith)
