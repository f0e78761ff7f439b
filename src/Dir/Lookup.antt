-- ===== src/Dir/Lookup.antt =====
-- The loop of `dirlookup` of fs.c over the bytes of the directory.
use course_work_sem.Base.{
  ℕ, zero, suc, ◌+◌, ◌-◌, ◌*◌, ◌/◌, ◌%◌, ◌<◌, ◌≤◌, ◌≡◌, ◌≢◌, ◌⊎◌, inl, inr, refl, ap, sym, subst,
  ◌∙◌, Bool, true, false, Option, none, some, ltb, ◌==◌, if◌then◌else◌, arith, Bool-cases, List,
  length, min, update_same, update_other,
}
use course_work_sem.Disk.{Fs, bsize}
use course_work_sem.Inode.{
  Inode, readi, ReadOut, read, read_fails, read_device, read_panics, bytes_at, t_dir,
}
use course_work_sem.Inode.Slots.{
  IsFile, file_byte, Frame, Frame-refl, Frame-trans, Frame-wide, IsFull, IsFull-trans, IsFull-wide,
}
use course_work_sem.Inode.Write.{HasBytes}
use course_work_sem.Inode.Read.{length-bytes_at, bytes_at_same}
use course_work_sem.Inode.Fetch.{ReadOutcome, readi_lem}
use course_work_sem.Icache.{Cache, Run, ret, sleeps, panics, set_inode}
use course_work_sem.Dir.{de_inum, is_match, read_dirent, find_name}

-- The inode is a directory of `size` bytes, which are `m`.
pub record IsDir (m : ℕ → ℕ) (size : ℕ) (ip : Inode) (fs : Fs) : Type 0 where
  pub file : IsFile ip fs
  pub bytes : HasBytes ip fs m
  pub size_is : ip.size ≡ size
  pub typed : ip.itype ≡ t_dir

-- the number of the last block of a file of `size` bytes
abbrev pub last : ℕ → ℕ
last size = (size - 1) / bsize

-- The file of slot `k` may have got blocks up to the one with number `hi`; all else is the same.
pub record Kept (hi k : ℕ) (c c' : Cache) : Type 0 where
  pub frame : Frame 0 hi (c.inode k) c.fs (c'.inode k) c'.fs
  pub slots : (i : ℕ) → i ≢ k → c'.inode i ≡ c.inode i

pub Kept-refl : (hi k : ℕ) (c : Cache) → Kept hi k c c
Kept-refl hi k c = record { frame = Frame-refl 0 hi (c.inode k) c.fs; slots = λ i h. refl }

pub Kept-trans : (hi k : ℕ) (c c' c'' : Cache) → Kept hi k c c' → Kept hi k c' c'' → Kept hi k c c''
Kept-trans hi k c c' c'' f g = record {
  frame = Frame-trans f.frame g.frame;
  slots = λ i h. g.slots i h ∙ f.slots i h;
}

-- A block of slot `k`'s file with a number up to `hi`, or its indirect block, is missing, and every block
-- of the disk is in use, once nothing but other such blocks was allocated.
abbrev pub IsFullDisk : ℕ → ℕ → Cache → Type 0
IsFullDisk hi k c = IsFull 0 hi (c.inode k) c.fs

-- the entry at an offset
abbrev pub entry : (ℕ → ℕ) → ℕ → List ℕ
entry m off = bytes_at m off 16

-- No entry from `off` to before `end` has the name.
abbrev pub NoMatch : (ℕ → ℕ) → List ℕ → ℕ → ℕ → Type 0
NoMatch m name off end =
    (e : ℕ) → off ≤ e → e < end → e % 16 ≡ 0 → is_match name (entry m e) ≡ false

abbrev pub DirentOutcome : (ℕ → ℕ) → ℕ → ℕ → ℕ → Cache → Run (List ℕ × Cache) → Type 0
DirentOutcome m size k off c (ret (de, c')) =
    (de ≡ entry m off) × IsDir m size (c'.inode k) c'.fs × Kept (last size) k c c'
DirentOutcome m size k off c sleeps = ⊥
DirentOutcome m size k off c panics = IsFullDisk (last size) k c

pub Run-cases :
    {A : Type 0} (r : Run (A × Cache))
    → (r ≡ panics) ⊎ ((r ≡ sleeps) ⊎ ((a : A) × (c : Cache) × (r ≡ ret (a, c))))
Run-cases panics = inl refl
Run-cases sleeps = inr (inl refl)
Run-cases (ret (a, c)) = inr (inr (a, c, refl))

abbrev stored : ℕ → Inode → Fs → Cache → Cache
stored k ip fs c = record (set_inode k ip c) { fs = fs }

module _ (is_device : ℕ → Bool) (m : ℕ → ℕ) (size k : ℕ) (small : size ≤ 71680) where
  read_dirent_read :
      (off : ℕ) (c : Cache) (de : List ℕ) (ip : Inode) (fs : Fs)
      → readi is_device (c.inode k) off 16 c.fs ≡ read de ip fs
      → length de ≡ 16
      → read_dirent is_device k off c ≡ ret (de, stored k ip fs c)
  unfolding read_dirent
  read_dirent_read off c de ip fs e l = rw (read_dirent, e, l) refl

  read_dirent_panics :
      (off : ℕ) (c : Cache)
      → readi is_device (c.inode k) off 16 c.fs ≡ read_panics
      → read_dirent is_device k off c ≡ panics
  unfolding read_dirent
  read_dirent_panics off c e = rw (read_dirent, e) refl

  full_entry :
      (off : ℕ) (c : Cache) (de : List ℕ)
      → IsDir m size (c.inode k) c.fs
      → off + 16 ≤ size
      → de ≡ bytes_at (file_byte (c.inode k) c.fs) off (min 16 ((c.inode k).size - off))
      → de ≡ entry m off
  full_entry off c de ok inside e =
      let all : min 16 ((c.inode k).size - off) ≡ 16 = ground (arith, ok.size_is) in
      e
      ∙ ap (bytes_at (file_byte (c.inode k) c.fs) off) all
      ∙ bytes_at_same (file_byte (c.inode k) c.fs) m off off 16
          (λ j h. ok.bytes (off + j) (omega arith))

  stored-IsDir :
      (c : Cache) (ip : Inode) (fs : Fs)
      → IsDir m size (c.inode k) c.fs
      → IsFile ip fs
      → Frame 0 (last size) (c.inode k) c.fs ip fs
      → HasBytes ip fs (file_byte (c.inode k) c.fs)
      → IsDir m size ip fs
  stored-IsDir c ip fs ok file frame bytes = record {
    file = file;
    bytes = λ i h. bytes i h ∙ ok.bytes i h;
    size_is = ap (λ (q : Inode). q.size) frame.meta ∙ ok.size_is;
    typed = ap (λ (q : Inode). q.itype) frame.meta ∙ ok.typed;
  }

  stored-Kept :
      (c : Cache) (ip : Inode) (fs : Fs)
      → Frame 0 (last size) (c.inode k) c.fs ip fs
      → Kept (last size) k c (stored k ip fs c)
  stored-Kept c ip fs frame = record {
    frame =
        subst (λ (q : Inode). Frame 0 (last size) (c.inode k) c.fs q fs)
          (sym (update_same c.inode k ip)) frame;
    slots = λ i h. update_other c.inode k ip i (λ e. h (sym e));
  }

  -- the blocks of one entry are among those of the directory
  range_end :
      (off : ℕ) (c : Cache)
      → off + 16 ≤ size
      → (c.inode k).size ≡ size
      → (off + min 16 ((c.inode k).size - off) - 1) / bsize ≤ last size
  range_end off c inside e =
      let all : min 16 ((c.inode k).size - off) ≡ 16 = ground (arith, e) in rw all (omega arith)

  dirent_of :
      (off : ℕ) (c : Cache) (out : ReadOut)
      → IsDir m size (c.inode k) c.fs
      → off + 16 ≤ size
      → readi is_device (c.inode k) off 16 c.fs ≡ out
      → ReadOutcome is_device (c.inode k) off 16 c.fs out
      → DirentOutcome m size k off c (read_dirent is_device k off c)
  dirent_of off c (read de ip fs) ok inside e (typed, start, content, file, frame, bytes) =
      let whole = full_entry off c de ok inside content in
      let frame' =
        Frame-wide 0 (last size) (omega arith) (range_end off c inside ok.size_is) frame in
      let l : length de ≡ 16 = ap (λ (xs : List ℕ). length xs) whole ∙ length-bytes_at m off 16 in
      rw (read_dirent_read off c de ip fs e l) (
        whole,
        subst (λ (q : Inode). IsDir m size q fs) (sym (update_same c.inode k ip))
            (stored-IsDir c ip fs ok file frame' bytes),
        stored-Kept c ip fs frame',
      )
  dirent_of off c read_fails ok inside e (inl (dev, missing)) =
      absurd (omega (arith, dev, ok.typed))
  dirent_of off c read_fails ok inside e (inr (typed, past)) =
      absurd (omega (arith, past, ok.size_is))
  dirent_of off c (read_device major) ok inside e (dev, same, driven) =
      absurd (omega (arith, dev, ok.typed))
  dirent_of off c read_panics ok inside e (typed, full) =
      rw (read_dirent_panics off c e)
        (IsFull-wide 0 (last size) (omega arith) (range_end off c inside ok.size_is) full)

  pub read_dirent_lem :
      (off : ℕ) (c : Cache)
      → IsDir m size (c.inode k) c.fs
      → off + 16 ≤ size
      → DirentOutcome m size k off c (read_dirent is_device k off c)
  read_dirent_lem off c ok inside =
      dirent_of off c (readi is_device (c.inode k) off 16 c.fs) ok inside refl (
        readi_lem is_device (c.inode k) off 16 c.fs ok.file (omega (arith, ok.size_is))
          (omega arith))

  abbrev pub NameOutcome : List ℕ → ℕ → Cache → Run (Option (ℕ × ℕ) × Cache) → Type 0
  NameOutcome name off c (ret (none, c')) =
      NoMatch m name off size × IsDir m size (c'.inode k) c'.fs × Kept (last size) k c c'
  NameOutcome name off c (ret (some (o, inum), c')) =
      NoMatch m name off o
      × (o < size)
      × (o % 16 ≡ 0)
      × (is_match name (entry m o) ≡ true)
      × (inum ≡ de_inum (entry m o))
      × IsDir m size (c'.inode k) c'.fs
      × Kept (last size) k c c'
  NameOutcome name off c sleeps = ⊥
  NameOutcome name off c panics = IsFullDisk (last size) k c

  find_name_end :
      (f off : ℕ) (name : List ℕ) (c : Cache)
      → (c.inode k).size ≤ off
      → find_name is_device f k name off c ≡ ret (none, c)
  unfolding find_name
  find_name_end zero off name c past = refl
  find_name_end (suc f) off name c past =
      let over : ltb off (c.inode k).size ≡ false = ground arith in rw over refl

  find_name_step :
      (f off : ℕ) (name de : List ℕ) (c c' : Cache)
      → off < (c.inode k).size
      → read_dirent is_device k off c ≡ ret (de, c')
      → find_name is_device (suc f) k name off c ≡ (
          if is_match name de
          then ret (some (off, de_inum de), c')
          else find_name is_device f k name (off + 16) c')
  unfolding find_name
  find_name_step f off name de c c' inside e =
      let before : ltb off (c.inode k).size ≡ true = ground arith in rw (before, e) refl

  find_name_panics :
      (f off : ℕ) (name : List ℕ) (c : Cache)
      → off < (c.inode k).size
      → read_dirent is_device k off c ≡ panics
      → find_name is_device (suc f) k name off c ≡ panics
  unfolding find_name
  find_name_panics f off name c inside e =
      let before : ltb off (c.inode k).size ≡ true = ground arith in rw (before, e) refl

  NoMatch-next :
      (name : List ℕ) (off end : ℕ)
      → off % 16 ≡ 0
      → is_match name (entry m off) ≡ false
      → NoMatch m name (off + 16) end
      → NoMatch m name off end
  NoMatch-next name off end aligned here later e low high at = elim (Bool-cases (e == off)) [
    | inl same ↦
        let s : e ≡ off = ground arith in
        subst (λ x. is_match name (entry m x) ≡ false) (sym s) here
    | inr other ↦ later e (ground (arith, aligned, at)) high at
  ]

  next_outcome :
      (name : List ℕ) (off : ℕ) (c c' : Cache) (out : Run (Option (ℕ × ℕ) × Cache))
      → off % 16 ≡ 0
      → is_match name (entry m off) ≡ false
      → Kept (last size) k c c'
      → NameOutcome name (off + 16) c' out
      → NameOutcome name off c out
  next_outcome name off c c' (ret (none, c'')) aligned here kept (later, ok, kept') = (
    NoMatch-next name off size aligned here later,
    ok,
    Kept-trans (last size) k c c' c'' kept kept',
  )
  next_outcome name off c c' (ret (some (o, inum), c'')) aligned here kept
        (later, fits, at, found, num, ok, kept') =
      (
        NoMatch-next name off o aligned here later,
        fits,
        at,
        found,
        num,
        ok,
        Kept-trans (last size) k c c' c'' kept kept',
      )
  next_outcome name off c c' sleeps aligned here kept full = elim full [ ]
  next_outcome name off c c' panics aligned here kept full = IsFull-trans kept.frame full

  pub find_name_lem :
      (f off : ℕ) (name : List ℕ) (c : Cache)
      → size ≤ off + 16 * f
      → off % 16 ≡ 0
      → size % 16 ≡ 0
      → IsDir m size (c.inode k) c.fs
      → NameOutcome name off c (find_name is_device f k name off c)
  find_name_lem zero off name c fuel aligned whole ok =
      rw (find_name_end zero off name c (omega (arith, ok.size_is)))
        (λ e low high at. absurd (omega arith), ok, Kept-refl (last size) k c)
  find_name_lem (suc f) off name c fuel aligned whole ok =
      elim (Bool-cases (ltb off (c.inode k).size)) [
        | inr past ↦ rw (find_name_end (suc f) off name c (ground (arith, past))) (
          λ e low high at. absurd (ground (arith, past, ok.size_is)),
          ok,
          Kept-refl (last size) k c,
        )
        | inl before ↦
            let inside : off < (c.inode k).size = ground (arith, before) in
            let got =
              read_dirent_lem off c ok (omega (arith, inside, aligned, whole, ok.size_is)) in
            elim (Run-cases (read_dirent is_device k off c)) [
              | inl e ↦
                  rw (find_name_panics f off name c inside e)
                    (subst (DirentOutcome m size k off c) e got)
              | inr (inl e) ↦ absurd (subst (DirentOutcome m size k off c) e got)
              | inr (inr (de, c', e)) ↦
                  let (content, ok', kept) = subst (DirentOutcome m size k off c) e got in
                  rw (find_name_step f off name de c c' inside e)
                    (elim (Bool-cases (is_match name de)) [
                      | inl found ↦ rw found (
                        λ e low high at. absurd (omega arith),
                        omega (arith, inside, ok.size_is),
                        aligned,
                        ap (is_match name) (sym content) ∙ found,
                        ap de_inum content,
                        ok',
                        kept,
                      )
                      | inr missing ↦ rw missing (
                          next_outcome name off c c' (find_name is_device f k name (off + 16) c')
                            aligned (ap (is_match name) (sym content) ∙ missing) kept
                            (find_name_lem f (off + 16) name c' (omega arith)
                              (omega (arith, aligned)) whole ok'))
                    ])
            ]
      ]
