-- ===== src/File/Count.antt =====
-- The reference counts of file.c against the references that were handed out.
use course_work_sem.Base.{
  ℕ, zero, suc, ◌+◌, ◌-◌, ◌%◌, ◌^◌, ◌<◌, ◌≡◌, ◌⊎◌, not, refl, ap, sym, subst, Option, none, some,
  List, [], ◌∷◌, ◌==◌, if◌then◌else◌, length, replicate, set, length-set, get_or-set_self,
  get_or-set_ne, update, arith, inl, inr, Bool-cases, Option-cases, ==_iff,
}
use course_work_sem.File.{
  File, FdType, fd_none, fd_pipe, fd_inode, closed, at, nfile, find_free, filealloc, filedup,
  fileclose, Close, still_open, close_pipe, put_inode, nothing, close_of, less_than_1,
}

file_at-set :
    (fs : List File) (i j : ℕ) (f : File)
    → i < length fs
    → at (set fs i f) j ≡ (if i == j then f else at fs j)
file_at-set fs i j f h = elim (Bool-cases (i == j)) [
  | inl e ↦ rw (e, ← (==_iff i j).0 e) (get_or-set_self fs i f closed h)
  | inr ne ↦ rw ne (get_or-set_ne fs i j f closed (ground arith))
]

referenced_inside : (fs : List File) (i : ℕ) → 0 < (at fs i).ref → i < length fs
referenced_inside [] i h = absurd (omega arith)
referenced_inside (f ∷ fs) zero h = omega arith
referenced_inside (f ∷ fs) (suc i) h = omega (arith, referenced_inside fs i h)

find_free-some :
    (fs : List File) (j : ℕ) {i : ℕ}
    → find_free fs j ≡ some i
    → (k : ℕ) × (i ≡ j + k) × (k < length fs) × ((at fs k).ref ≡ 0)
unfolding find_free
find_free-some [] j e = cc
find_free-some (f ∷ fs) j {i} e = elim (Bool-cases (f.ref == 0)) [
  | inl free ↦ (0, ground arith, omega arith, ground arith)
  | inr used ↦
      let (k, eq, small, zero_) = find_free-some fs (j + 1) {i = i} (rw used at e) in
      (suc k, omega arith, omega arith, zero_)
]

find_free-none :
    (fs : List File) (j i : ℕ) → find_free fs j ≡ none → i < length fs → 0 < (at fs i).ref
unfolding find_free
find_free-none [] j i e small = absurd (omega arith)
find_free-none (f ∷ fs) j zero e small = ground (arith, e)
find_free-none (f ∷ fs) j (suc i) e small =
    find_free-none fs (j + 1) i (ground (arith, e)) (omega arith)

alloc_eq :
    (fs : List File)
    → ((i : ℕ)
        → find_free fs 0 ≡ some i
        → filealloc fs ≡ some (i, set fs i (record (at fs i) { ref = 1 })))
      × (find_free fs 0 ≡ none → filealloc fs ≡ none)
unfolding filealloc
alloc_eq fs = (λ i e. rw (e, filealloc) refl, λ e. rw (e, filealloc) refl)

-- `held i` references to file structure `i` were handed out and not given back, fewer than an `int` can count.
abbrev pub IsCounted : List File → (ℕ → ℕ) → Type 0
IsCounted fs held = (i : ℕ) → ((at fs i).ref ≡ held i) × (held i < 2 ^ 31)

abbrev pub AllocOutcome : List File → (ℕ → ℕ) → Option (ℕ × List File) → Type 0
AllocOutcome fs held none = (i : ℕ) → i < length fs → 0 < held i
AllocOutcome fs held (some (i, fs')) =
    (held i ≡ 0) × (i < length fs) × IsCounted fs' (update held i 1) × (length fs' ≡ length fs)

pub filealloc_lem :
    (fs : List File) (held : ℕ → ℕ) → IsCounted fs held → AllocOutcome fs held (filealloc fs)
filealloc_lem fs held counted = elim (Option-cases (find_free fs 0)) [
  | inl e ↦
      rw ((alloc_eq fs).1 e)
        (λ i small. omega (arith, (counted i).0, find_free-none fs 0 i e small))
  | inr (i, e) ↦
      let (k, eq, small, free) = find_free-some fs 0 {i = i} e in
      let here : k ≡ i = omega arith in
      rw ((alloc_eq fs).0 i e) (
        ground (arith, counted i, free, here),
        omega arith,
        λ j. (
          ground
              (arith, file_at-set fs i j (record (at fs i) { ref = 1 }) (omega arith), counted j),
          ground (arith, counted j),
        ),
        length-set fs i _,
      )
]

abbrev pub DupOutcome : List File → (ℕ → ℕ) → ℕ → Option (List File) → Type 0
DupOutcome fs held i none = held i ≡ 0
DupOutcome fs held i (some fs') =
    (0 < held i) × IsCounted fs' (update held i (held i + 1)) × (length fs' ≡ length fs)

pub filedup_lem :
    (fs : List File) (held : ℕ → ℕ) (i : ℕ)
    → IsCounted fs held
    → held i + 1 < 2 ^ 31
    → DupOutcome fs held i (filedup i fs)
unfolding filedup
filedup_lem fs held i counted few = elim (Bool-cases (less_than_1 (at fs i).ref)) [
  | inl none_left ↦ rw none_left (ground (arith, counted i))
  | inr some_left ↦
      let small = referenced_inside fs i (ground arith) in
      rw some_left (
        ground (arith, counted i),
        λ j. (
          ground (
            arith,
            file_at-set fs i j (record (at fs i) { ref = ((at fs i).ref + 1) % 2 ^ 32 }) small,
            counted j,
            counted i,
            few,
          ),
          ground (arith, counted j, counted i, few),
        ),
        length-set fs i _,
      )
]

-- What is to be done for a file that nobody refers to any more.
pub data Closes (f : File) : Close → Type 0 where
  closes_pipe : f.kind ≡ fd_pipe → Closes f (close_pipe f.pipe f.writable)
  puts_inode : f.kind ≡ fd_inode → Closes f (put_inode f.ip)
  closes_none : f.kind ≡ fd_none → Closes f nothing

abbrev by_kind : File → FdType → Close
by_kind f k = elim k [
  | fd_pipe ↦ close_pipe f.pipe f.writable
  | fd_inode ↦ put_inode f.ip
  | fd_none ↦ nothing
]

closes : (f : File) (k : FdType) → f.kind ≡ k → Closes f (close_of f)
closes f fd_pipe e = subst (Closes f) (sym (ap (by_kind f) e)) (closes_pipe e)
closes f fd_inode e = subst (Closes f) (sym (ap (by_kind f) e)) (puts_inode e)
closes f fd_none e = subst (Closes f) (sym (ap (by_kind f) e)) (closes_none e)

-- The last reference closes what the file stands for.
abbrev pub CloseOutcome : List File → (ℕ → ℕ) → ℕ → Option (List File × Close) → Type 0
CloseOutcome fs held i none = held i ≡ 0
CloseOutcome fs held i (some (fs', c)) =
    (0 < held i)
    × IsCounted fs' (update held i (held i - 1))
    × (length fs' ≡ length fs)
    × (((1 < held i) × (c ≡ still_open)) ⊎ ((held i ≡ 1) × Closes (at fs i) c))

pub fileclose_lem :
    (fs : List File) (held : ℕ → ℕ) (i : ℕ)
    → IsCounted fs held
    → CloseOutcome fs held i (fileclose i fs)
unfolding fileclose
fileclose_lem fs held i counted = elim (Bool-cases (less_than_1 (at fs i).ref)) [
  | inl none_left ↦ rw none_left (ground (arith, counted i))
  | inr some_left ↦
      let small = referenced_inside fs i (ground arith) in
      elim (Bool-cases (not (less_than_1 ((at fs i).ref - 1)))) [
        | inl more ↦
            rw (some_left, more)
              (
                ground (arith, counted i),
                λ j. (
                  ground (
                    arith,
                    file_at-set fs i j (record (at fs i) { ref = (at fs i).ref - 1 }) small,
                    counted j,
                    counted i,
                  ),
                  ground (arith, counted j, counted i),
                ),
                length-set fs i _,
                inl (ground (arith, counted i), refl),
              )
        | inr last ↦
            rw (some_left, last)
              (
                ground (arith, counted i),
                λ j. (
                  ground (
                    arith,
                    file_at-set fs i j (record (at fs i) { ref = 0; kind = fd_none }) small,
                    counted j,
                    counted i,
                  ),
                  ground (arith, counted j, counted i),
                ),
                length-set fs i _,
                inr (ground (arith, counted i), closes (at fs i) (at fs i).kind refl),
              )
      ]
]

-- Calls of `filealloc`, and of `filedup` and `fileclose` by somebody who has a reference, while the references
-- to a file structure are fewer than the largest `int`.
pub data Reach : List File → (ℕ → ℕ) → Type 0 where
  start : Reach (replicate nfile closed) (λ i. 0)
  alloc_step :
      {fs fs' : List File} {held : ℕ → ℕ} (i : ℕ)
      → Reach fs held
      → filealloc fs ≡ some (i, fs')
      → Reach fs' (update held i 1)
  dup_step :
      {fs fs' : List File} {held : ℕ → ℕ} (i : ℕ)
      → Reach fs held
      → 0 < held i
      → held i + 1 < 2 ^ 31
      → filedup i fs ≡ some fs'
      → Reach fs' (update held i (held i + 1))
  close_step :
      {fs fs' : List File} {held : ℕ → ℕ} (i : ℕ) (c : Close)
      → Reach fs held
      → 0 < held i
      → fileclose i fs ≡ some (fs', c)
      → Reach fs' (update held i (held i - 1))

unused_ref : (n i : ℕ) → (at (replicate n closed) i).ref ≡ 0
unused_ref zero i = refl
unused_ref (suc n) zero = refl
unused_ref (suc n) (suc i) = unused_ref n i

pub Reach-IsCounted : {fs : List File} {held : ℕ → ℕ} → Reach fs held → IsCounted fs held
Reach-IsCounted start = λ i. (unused_ref nfile i, omega arith)
Reach-IsCounted (alloc_step {fs} {fs'} {held} i r e) =
    (subst (AllocOutcome fs held) e (filealloc_lem fs held (Reach-IsCounted r))).2
Reach-IsCounted (dup_step {fs} {fs'} {held} i r mine few e) =
    (subst (DupOutcome fs held i) e (filedup_lem fs held i (Reach-IsCounted r) few)).1
Reach-IsCounted (close_step {fs} {fs'} {held} i c r mine e) =
    (subst (CloseOutcome fs held i) e (fileclose_lem fs held i (Reach-IsCounted r))).1
