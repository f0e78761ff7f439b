-- ===== src/Inode/Fetch.antt =====
-- `readi` of fs.c: each of its results, and reading what was written.
use course_work_sem.Base.{
  ℕ, suc, ◌+◌, ◌-◌, ◌/◌, ◌%◌, ◌^◌, ◌<◌, ◌≤◌, ◌≡◌, ◌≢◌, ◌⊎◌, inl, inr, refl, ap, sym, subst, ◌∙◌,
  Bool, true, false, none, some, ltb, ◌==◌, if◌then◌else◌, arith, Bool-cases, Option-cases, List,
  [], ◌∷◌, length, get_or, min, store_at, store_at_inside,
}
use course_work_sem.Disk.{Fs, bsize}
use course_work_sem.Inode.{
  Inode, read_blocks, readi, writei, ReadOut, bytes_at, bad_range, t_dev, read, read_fails,
  read_device, read_panics, written,
}
use course_work_sem.Inode.Slots.{IsFile, file_byte, Frame, IsFull}
use course_work_sem.Inode.Write.{HasBytes}
use course_work_sem.Inode.Store.{Written, WriteOutcome, writei_lem}
use course_work_sem.Inode.Read.{BlocksOutcome, read_blocks_lem}
use course_work_sem.Inode.Store.{has_driver}

abbrev pub ReadOutcome : (ℕ → Bool) → Inode → ℕ → ℕ → Fs → ReadOut → Type 0
ReadOutcome has ip off n fs (read bytes ip' fs') =
    (ip.itype ≢ t_dev)
    × (off ≤ ip.size)
    × (bytes ≡ bytes_at (file_byte ip fs) off (min n (ip.size - off)))
    × IsFile ip' fs'
    × Frame (off / bsize) ((off + min n (ip.size - off) - 1) / bsize) ip fs ip' fs'
    × HasBytes ip' fs' (file_byte ip fs)
ReadOutcome has ip off n fs read_fails =
    ((ip.itype ≡ t_dev) × (has_driver has ip.major ≡ false))
    ⊎ ((ip.itype ≢ t_dev) × (ip.size < off))
ReadOutcome has ip off n fs (read_device major) =
    (ip.itype ≡ t_dev) × (major ≡ ip.major) × (has_driver has major ≡ true)
ReadOutcome has ip off n fs read_panics =
    (ip.itype ≢ t_dev) × IsFull (off / bsize) ((off + min n (ip.size - off) - 1) / bsize) ip fs

abbrev count : ℕ → ℕ → ℕ → ℕ
count size off n = if ltb size ((off + n) % 2 ^ 32) then size - off else n

count_eq :
    (size off n : ℕ)
    → size < 2 ^ 31
    → n < 2 ^ 31
    → off ≤ size
    → count size off n ≡ min n (size - off)
count_eq size off n small few start = ground arith

readi-some :
    (has : ℕ → Bool) (ip : Inode) (off n : ℕ) (fs : Fs) (bytes : List ℕ) (ip' : Inode) (fs' : Fs)
    → (ip.itype == t_dev) ≡ false
    → bad_range ip.size off n ≡ false
    → read_blocks (count ip.size off n) (count ip.size off n) off ip fs ≡ some (bytes, ip', fs')
    → readi has ip off n fs ≡ read bytes ip' fs'
unfolding readi
readi-some has ip off n fs bytes ip' fs' file range e = rw (file, range, e) refl

readi-none :
    (has : ℕ → Bool) (ip : Inode) (off n : ℕ) (fs : Fs)
    → (ip.itype == t_dev) ≡ false
    → bad_range ip.size off n ≡ false
    → read_blocks (count ip.size off n) (count ip.size off n) off ip fs ≡ none
    → readi has ip off n fs ≡ read_panics
unfolding readi
readi-none has ip off n fs file range e = rw (file, range, e) refl

readi_bad :
    (has : ℕ → Bool) (ip : Inode) (off n : ℕ) (fs : Fs)
    → (ip.itype == t_dev) ≡ false
    → bad_range ip.size off n ≡ true
    → readi has ip off n fs ≡ read_fails
unfolding readi
readi_bad has ip off n fs file range = rw (file, range) refl

readi_device :
    (has : ℕ → Bool) (ip : Inode) (off n : ℕ) (fs : Fs)
    → (ip.itype == t_dev) ≡ true
    → readi has ip off n fs ≡ (if has_driver has ip.major then read_device ip.major else read_fails)
unfolding readi
readi_device has ip off n fs dev = rw dev (ground arith)

pub readi_lem :
    (has : ℕ → Bool) (ip : Inode) (off n : ℕ) (fs : Fs)
    → IsFile ip fs
    → ip.size ≤ 71680
    → n < 2 ^ 31
    → ReadOutcome has ip off n fs (readi has ip off n fs)
readi_lem has ip off n fs ok small few = elim (Bool-cases (ip.itype == t_dev)) [
  | inl dev ↦ rw (readi_device has ip off n fs dev) (elim (Bool-cases (has_driver has ip.major)) [
    | inl driven ↦ rw driven (ground (arith, dev), refl, driven)
    | inr missing ↦ rw missing (inl (ground (arith, dev), missing))
  ])
  | inr file ↦ elim (Bool-cases (bad_range ip.size off n)) [
    | inl bad ↦
        rw (readi_bad has ip off n fs file bad)
          (inr (λ e. ground (arith, e, file), ground (arith, bad, small, few)))
    | inr good ↦
        let start : off ≤ ip.size = ground (arith, good) in
        let c : count ip.size off n ≡ min n (ip.size - off) =
          count_eq ip.size off n (omega arith) few start in
        let got =
          read_blocks_lem (off / bsize) ((off + min n (ip.size - off) - 1) / bsize)
            (count ip.size off n) (count ip.size off n) off ip fs (omega arith)
            (ground (arith, c, start, small)) (omega arith) (ground (arith, c, start)) ok in
        elim (Option-cases (read_blocks (count ip.size off n) (count ip.size off n) off ip fs)) [
          | inl e ↦ rw (readi-none has ip off n fs file good e) (
            λ d. ground (arith, d, file),
            subst
                (BlocksOutcome (off / bsize) ((off + min n (ip.size - off) - 1) / bsize) ip fs off
                  (count ip.size off n))
                e got,
          )
          | inr ((bytes, ip', fs'), e) ↦
              let (content, file', frame, kept) =
                subst
                  (BlocksOutcome (off / bsize) ((off + min n (ip.size - off) - 1) / bsize) ip fs off
                    (count ip.size off n))
                  e got in
              rw (readi-some has ip off n fs bytes ip' fs' file good e) (
                λ d. ground (arith, d, file),
                start,
                content ∙ ap (bytes_at (file_byte ip fs) off) c,
                file',
                frame,
                kept,
              )
        ]
  ]
]

pub bytes_at_list :
    (p : ℕ → ℕ) (o : ℕ) (xs : List ℕ)
    → ((k : ℕ) → k < length xs → p (o + k) ≡ get_or xs k 0)
    → bytes_at p o (length xs) ≡ xs
bytes_at_list p o [] same = refl
bytes_at_list p o (x ∷ xs) same =
    let first : p o ≡ x = ground (arith, same 0) in
    let rest : bytes_at p (o + 1) (length xs) ≡ xs =
      bytes_at_list p (o + 1) xs (λ k h.
        (let e : o + 1 + k ≡ o + suc k = omega arith in rw e (same (suc k) (omega arith)))) in
    rw (first, rest) refl

-- What a read of the range that was written gives.
abbrev pub ReadBack : List ℕ → ℕ → Inode → Fs → ReadOut → Type 0
ReadBack xs off ip fs (read bytes ip' fs') = (bytes ≡ xs) × IsFile ip' fs'
ReadBack xs off ip fs read_fails = ⊥
ReadBack xs off ip fs (read_device major) = ⊥
ReadBack xs off ip fs read_panics = IsFull (off / bsize) ((off + length xs - 1) / bsize) ip fs

back_equal :
    (ip : Inode) (xs : List ℕ) (off size : ℕ) (fs : Fs) (ip' : Inode) (fs' : Fs)
    → off + length xs ≤ 71680
    → off + length xs ≤ size
    → HasBytes ip' fs' (store_at off xs (file_byte ip fs))
    → bytes_at (file_byte ip' fs') off (min (length xs) (size - off)) ≡ xs
back_equal ip xs off size fs ip' fs' fits inside stored =
    let all : min (length xs) (size - off) ≡ length xs = ground arith in
    ap (bytes_at (file_byte ip' fs') off) all
    ∙ bytes_at_list (file_byte ip' fs') off xs
        (λ k h. stored (off + k) (omega arith) ∙ store_at_inside off xs (file_byte ip fs) k h)

module _ (has : ℕ → Bool) (ip : Inode) (xs : List ℕ) (off : ℕ) (fs : Fs) (ip' : Inode) (fs' : Fs)
    (file : ip.itype ≢ t_dev) (start : off ≤ ip.size) (fits : off + length xs ≤ 71680)
    (w : Written ip xs off fs ip' fs') where
  same_type : ip'.itype ≡ ip.itype
  same_type = ap (λ (q : Inode). q.itype) w.kept.meta

  inside : off + length xs ≤ ip'.size
  inside = ground (arith, w.grown, start)

  read_back :
      (out : ReadOut) → ReadOutcome has ip' off (length xs) fs' out → ReadBack xs off ip' fs' out
  read_back (read bytes ip'' fs'') (file', start', content, whole, frame, kept) =
      (content ∙ back_equal ip xs off ip'.size fs ip' fs' fits inside w.bytes, whole)
  read_back read_fails (inl (dev, missing)) = absurd (file (sym same_type ∙ dev))
  read_back read_fails (inr (file', high)) = absurd (ground (arith, inside, high))
  read_back (read_device major) (dev, m, d) = absurd (file (sym same_type ∙ dev))
  read_back read_panics (file', full) =
      let all : min (length xs) (ip'.size - off) ≡ length xs = ground (arith, inside) in
      subst (λ n. IsFull (off / bsize) ((off + n - 1) / bsize) ip' fs') all full

-- After a `writei` that returns, `readi` of as many bytes at the same offset returns the bytes that
-- were written: it does not fail, and panics only if a block of the range is missing and every block of
-- the disk is in use, once nothing but other missing blocks of the range was allocated.
pub readi-writei :
    (has_read has_write : ℕ → Bool) (ip : Inode) (xs : List ℕ) (off : ℕ) (fs : Fs) (n : ℕ)
    (ip' : Inode) (fs' : Fs)
    → IsFile ip fs
    → ip.inum < fs.sb.ninodes
    → ip.size ≤ 71680
    → length xs < 2 ^ 31
    → writei has_write ip xs off fs ≡ written n ip' fs'
    → ReadBack xs off ip' fs' (readi has_read ip' off (length xs) fs')
readi-writei has_read has_write ip xs off fs n ip' fs' ok known small few done =
    let (all, file, start, fits, w) =
      subst (WriteOutcome has_write ip xs off fs) done
        (writei_lem has_write ip xs off fs ok known (omega arith) few) in
    let fits' : off + length xs ≤ 71680 = ground (arith, all, fits) in
    read_back has_read ip xs off fs ip' fs' file start fits' w
      (readi has_read ip' off (length xs) fs')
      (readi_lem has_read ip' off (length xs) fs' w.file (ground (arith, w.grown, small, fits'))
        few)
