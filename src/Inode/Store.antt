-- ===== src/Inode/Store.antt =====
-- `writei` of fs.c: each of its results.
use course_work_sem.Base.{
  ℕ, ◌+◌, ◌-◌, ◌*◌, ◌/◌, ◌%◌, ◌^◌, ◌<◌, ◌≤◌, ◌≡◌, ◌≢◌, ◌⊎◌, inl, inr, refl, ap, sym, subst, ◌∙◌,
  Bool, true, false, not, ◌&&◌, ◌||◌, none, some, ltb, leb, ◌==◌, if◌then◌else◌, arith, Bool-cases,
  Option-cases, List, length, store_at,
}
use course_work_sem.Disk.{Fs, bsize}
use course_work_sem.Disk.Alloc.{IsVolume}
use course_work_sem.Inode.{
  Inode, write_blocks, writei, WriteOut, iupdate, iblock, bad_range, grow_size, t_dev, ndev,
  maxfile, written, write_fails, write_device, write_panics,
}
use course_work_sem.Inode.Slots.{IsFile, file_byte, Foreign, Frame, IsFull}
use course_work_sem.Inode.Write.{HasBytes, StoreOutcome, write_blocks_lem}
use course_work_sem.Inode.Update.{
  resized-IsFile, resized_bytes, iblock_low, iupdate-IsFile, iupdate_bytes, iupdate_disk,
}

-- What `writei` leaves alone: the super block, the inodes but this one's block, the blocks of others,
-- and all of the inode but its pointers and its size.
pub record Kept (ip : Inode) (fs : Fs) (ip' : Inode) (fs' : Fs) : Type 0 where
  pub same_sb : fs'.sb ≡ fs.sb
  pub inodes : (c : ℕ) → c < fs.sb.bmapstart → c ≢ iblock ip.inum fs.sb → fs'.disk c ≡ fs.disk c
  pub others : (c : ℕ) → Foreign ip fs c → fs'.disk c ≡ fs.disk c
  pub meta : ip' ≡ record ip { addrs = ip'.addrs; size = ip'.size }

pub record Written (ip : Inode) (xs : List ℕ) (off : ℕ) (fs : Fs) (ip' : Inode) (fs' : Fs)
    : Type 0 where
  pub file : IsFile ip' fs'
  pub kept : Kept ip fs ip' fs'
  pub bytes : HasBytes ip' fs' (store_at off xs (file_byte ip fs))
  pub grown :
      ip'.size
      ≡ (if ltb 0 (length xs) && ltb ip.size (off + length xs) then off + length xs else ip.size)

-- a device that has the function
abbrev pub has_driver : (ℕ → Bool) → ℕ → Bool
has_driver has major = not (leb (2 ^ 15) major || leb ndev major || not (has major))

abbrev pub WriteOutcome : (ℕ → Bool) → Inode → List ℕ → ℕ → Fs → WriteOut → Type 0
WriteOutcome has ip xs off fs (written n ip' fs') =
    (n ≡ length xs)
    × (ip.itype ≢ t_dev)
    × (off ≤ ip.size)
    × (off + n ≤ 71680)
    × Written ip xs off fs ip' fs'
WriteOutcome has ip xs off fs write_fails =
    ((ip.itype ≡ t_dev) × (has_driver has ip.major ≡ false))
    ⊎ ((ip.itype ≢ t_dev) × ((ip.size < off) ⊎ (71680 < off + length xs)))
WriteOutcome has ip xs off fs (write_device major) =
    (ip.itype ≡ t_dev) × (major ≡ ip.major) × (has_driver has major ≡ true)
WriteOutcome has ip xs off fs write_panics =
    (ip.itype ≢ t_dev) × IsFull (off / bsize) ((off + length xs - 1) / bsize) ip fs

same_block :
    {lo hi : ℕ} {ip ip' : Inode} {fs fs' : Fs}
    → Frame lo hi ip fs ip' fs'
    → iblock ip'.inum fs'.sb ≡ iblock ip.inum fs.sb
same_block {lo} {hi} {ip} {ip'} {fs} {fs'} f =
    rw (f.same_sb) (ap (λ (q : Inode). iblock q.inum fs.sb) f.meta)

Kept-Frame :
    {lo hi : ℕ} {ip ip' : Inode} {fs fs' : Fs} → Frame lo hi ip fs ip' fs' → Kept ip fs ip' fs'
Kept-Frame {lo} {hi} {ip} {ip'} {fs} {fs'} f = record {
  same_sb = f.same_sb;
  inodes = λ c h other. f.low_same c h;
  others = λ c h. (f.others c h).1;
  meta = f.meta ∙ ap (λ (q : Inode). record ip { addrs = ip'.addrs; size = q.size }) (sym f.meta);
}

Kept-step :
    {lo hi : ℕ} (k : ℕ) {ip ip' : Inode} {fs fs' : Fs}
    → IsVolume fs
    → ip.inum < fs.sb.ninodes
    → Frame lo hi ip fs ip' fs'
    → Kept ip fs (record ip' { size = k }) (iupdate (record ip' { size = k }) fs')
unfolding iupdate
Kept-step {lo} {hi} k {ip} {ip'} {fs} {fs'} ok known f =
    let e = same_block f in
    let (above, below) = iblock_low ip.inum fs ok known in
    record {
      same_sb = f.same_sb;
      inodes = λ c h other.
          iupdate_disk (record ip' { size = k }) fs' c (λ z. other (z ∙ e)) ∙ f.low_same c h;
      others = λ c h.
          iupdate_disk (record ip' { size = k }) fs' c
            (λ z. omega (arith, z, e, below, h.block.high))
          ∙ (f.others c h).1;
      meta = ap (λ (q : Inode). record q { size = k }) f.meta;
    }

-- The end of `writei`.
grow_lem :
    (lo hi : ℕ) (has : ℕ → Bool) (ip : Inode) (xs : List ℕ) (off : ℕ) (fs : Fs) (ip' : Inode)
    (fs' : Fs)
    → IsVolume fs
    → ip.inum < fs.sb.ninodes
    → StoreOutcome lo hi ip fs off xs (some (ip', fs'))
    → (let (ip'', fs'') = grow_size (length xs) (off + length xs) ip' fs' in
        Written ip xs off fs ip'' fs'')
unfolding grow_size
grow_lem lo hi has ip xs off fs ip' fs' ok known (file, frame, bytes) =
    let same_size : ip'.size ≡ ip.size = ap (λ (q : Inode). q.size) frame.meta in
    let same_inum : ip'.inum ≡ ip.inum = ap (λ (q : Inode). q.inum) frame.meta in
    let end = off + length xs in
    let known' : ip'.inum < fs'.sb.ninodes = rw (frame.same_sb, same_inum) known in
    let file' = resized-IsFile end ip' fs' file in
    elim (Bool-cases (ltb 0 (length xs) && ltb ip'.size (off + length xs))) [
      | inl grows ↦ rw grows (record {
        file = iupdate-IsFile (record ip' { size = end }) fs' known' file';
        kept = Kept-step end ok known frame;
        bytes = λ i h.
            iupdate_bytes (record ip' { size = end }) fs' known' file' i h
            ∙ resized_bytes end ip' fs' i
            ∙ bytes i h;
        grown = ground (arith, grows, same_size);
      })
      | inr fits ↦ rw fits (record {
        file = file;
        kept = Kept-Frame frame;
        bytes = bytes;
        grown = ground (arith, fits, same_size);
      })
    ]

bad_cases :
    (size off n : ℕ)
    → size < 2 ^ 31
    → n < 2 ^ 31
    → (bad_range size off n || ltb (maxfile * bsize) ((off + n) % 2 ^ 32)) ≡ true
    → (size < off) ⊎ (71680 < off + n)
bad_cases size off n small few bad = elim (Bool-cases (ltb size off)) [
  | inl low ↦ inl (ground (arith, low))
  | inr high ↦ inr (ground (arith, high, bad))
]

writei-some :
    (has : ℕ → Bool) (ip : Inode) (xs : List ℕ) (off : ℕ) (fs : Fs) (ip' : Inode) (fs' : Fs)
    → (ip.itype == t_dev) ≡ false
    → (bad_range ip.size off (length xs) || ltb (maxfile * bsize) ((off + length xs) % 2 ^ 32))
      ≡ false
    → write_blocks (length xs) xs off ip fs ≡ some (ip', fs')
    → writei has ip xs off fs ≡ (
        let (ip'', fs'') = grow_size (length xs) (off + length xs) ip' fs' in
        written (length xs) ip'' fs'')
unfolding writei
writei-some has ip xs off fs ip' fs' file range e = rw (file, range, e) refl

writei-none :
    (has : ℕ → Bool) (ip : Inode) (xs : List ℕ) (off : ℕ) (fs : Fs)
    → (ip.itype == t_dev) ≡ false
    → (bad_range ip.size off (length xs) || ltb (maxfile * bsize) ((off + length xs) % 2 ^ 32))
      ≡ false
    → write_blocks (length xs) xs off ip fs ≡ none
    → writei has ip xs off fs ≡ write_panics
unfolding writei
writei-none has ip xs off fs file range e = rw (file, range, e) refl

writei_bad :
    (has : ℕ → Bool) (ip : Inode) (xs : List ℕ) (off : ℕ) (fs : Fs)
    → (ip.itype == t_dev) ≡ false
    → (bad_range ip.size off (length xs) || ltb (maxfile * bsize) ((off + length xs) % 2 ^ 32))
      ≡ true
    → writei has ip xs off fs ≡ write_fails
unfolding writei
writei_bad has ip xs off fs file range = rw (file, range) refl

writei_device :
    (has : ℕ → Bool) (ip : Inode) (xs : List ℕ) (off : ℕ) (fs : Fs)
    → (ip.itype == t_dev) ≡ true
    → writei has ip xs off fs
      ≡ (if has_driver has ip.major then write_device ip.major else write_fails)
unfolding writei
writei_device has ip xs off fs dev = rw dev (ground arith)

pub writei_lem :
    (has : ℕ → Bool) (ip : Inode) (xs : List ℕ) (off : ℕ) (fs : Fs)
    → IsFile ip fs
    → ip.inum < fs.sb.ninodes
    → ip.size < 2 ^ 31
    → length xs < 2 ^ 31
    → WriteOutcome has ip xs off fs (writei has ip xs off fs)
writei_lem has ip xs off fs ok known small few = elim (Bool-cases (ip.itype == t_dev)) [
  | inl dev ↦ rw (writei_device has ip xs off fs dev) (elim (Bool-cases (has_driver has ip.major)) [
    | inl driven ↦ rw driven (ground (arith, dev), refl, driven)
    | inr missing ↦ rw missing (inl (ground (arith, dev), missing))
  ])
  | inr file ↦
      elim (Bool-cases
        (bad_range ip.size off (length xs) || ltb (maxfile * bsize) ((off + length xs) % 2 ^ 32))) [
          | inl bad ↦
              rw (writei_bad has ip xs off fs file bad) (
                inr (λ e. ground (arith, e, file), bad_cases ip.size off (length xs) small few bad))
          | inr good ↦
              let start : off ≤ ip.size = ground (arith, good) in
              let fits : off + length xs ≤ 71680 = ground (arith, good) in
              let stored =
                write_blocks_lem (off / bsize) ((off + length xs - 1) / bsize) (length xs) xs off ip
                  fs (omega arith) fits (omega arith) (omega arith) ok in
              elim (Option-cases (write_blocks (length xs) xs off ip fs)) [
                | inl e ↦ rw (writei-none has ip xs off fs file good e) (
                  λ d. ground (arith, d, file),
                  subst (StoreOutcome (off / bsize) ((off + length xs - 1) / bsize) ip fs off xs) e
                      stored,
                )
                | inr ((ip', fs'), e) ↦ rw (writei-some has ip xs off fs ip' fs' file good e) (
                  refl,
                  λ d. ground (arith, d, file),
                  start,
                  fits,
                  grow_lem (off / bsize) ((off + length xs - 1) / bsize) has ip xs off fs ip' fs'
                      ok.volume known
                      (subst
                        (StoreOutcome (off / bsize) ((off + length xs - 1) / bsize) ip fs off xs) e
                        stored),
                )
              ]
        ]
]
