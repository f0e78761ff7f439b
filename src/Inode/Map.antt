-- ===== src/Inode/Map.antt =====
-- `bmap` of fs.c: the block that it returns, and that a block which it allocates reads as zeros.
use course_work_sem.Base.{
  ℕ, ◌+◌, ◌-◌, ◌*◌, ◌<◌, ◌≤◌, ◌≡◌, ◌≢◌, inl, inr, refl, sym, subst, ◌∙◌, true, Option, none, some,
  ltb, ◌==◌, update, arith, Bool-cases, Option-cases,
}
use course_work_sem.Disk.{Fs, word_at, put_word, log_write, balloc}
use course_work_sem.Disk.Search.{used}
use course_work_sem.Disk.Alloc.{AllocOutcome, balloc_lem}
use course_work_sem.Inode.{Inode, ndirect, nindirect, addr_or_alloc, entry_or_alloc, bmap}
use course_work_sem.Inode.Slots.{
  nslot, slot, slot_direct, slot_entry, slot_of, IsFile, file_byte, Needed, Frame, Frame-refl,
  Frame-trans, IsFull, IsFull-trans,
}
use course_work_sem.Inode.Grow.{Filled, Filled-IsFile, Filled-Frame, Filled_bytes}
use course_work_sem.Inode.Fill.{fill_direct, fill_entry}

-- The block for a slot is there, and the file's bytes are the same.
pub record Mapped (lo hi : ℕ) (ip : Inode) (fs : Fs) (n a : ℕ) (ip' : Inode) (fs' : Fs)
    : Type 0 where
  pub file : IsFile ip' fs'
  pub frame : Frame lo hi ip fs ip' fs'
  pub here : slot ip' fs' n ≡ a
  pub there : a ≢ 0
  pub bytes : (i : ℕ) → i < 71680 → file_byte ip' fs' i ≡ file_byte ip fs i

Mapped-old :
    (lo hi : ℕ) (ip : Inode) (fs : Fs) (n : ℕ)
    → IsFile ip fs
    → slot ip fs n ≢ 0
    → Mapped lo hi ip fs n (slot ip fs n) ip fs
Mapped-old lo hi ip fs n ok full = record {
  file = ok;
  frame = Frame-refl lo hi ip fs;
  here = refl;
  there = full;
  bytes = λ i h. refl;
}

Mapped-new :
    {lo hi : ℕ} {ip ip' : Inode} {fs fs' : Fs} {n a : ℕ}
    → IsFile ip fs
    → n < nslot
    → Needed lo hi n
    → Filled ip fs n a ip' fs'
    → Mapped lo hi ip fs n a ip' fs'
Mapped-new {lo} {hi} ok h need f = record {
  file = Filled-IsFile f h ok;
  frame = Filled-Frame f h lo hi need ok;
  here = f.here;
  there = λ e. omega (arith, f.high);
  bytes = Filled_bytes f h ok;
}

no_space :
    (lo hi : ℕ) (ip : Inode) (fs : Fs) (n : ℕ)
    → n < nslot
    → Needed lo hi n
    → slot ip fs n ≡ 0
    → ((c : ℕ) → c < fs.sb.size → used fs c ≡ true)
    → IsFull lo hi ip fs
no_space lo hi ip fs n h need e all = record {
  inode = ip;
  volume = fs;
  frame = Frame-refl lo hi ip fs;
  missing = n;
  fits = h;
  needed = need;
  empty = e;
  full = all;
}

alloc_eq :
    (i : ℕ) (ip : Inode) (fs : Fs)
    → (ip.addrs i ≢ 0 → addr_or_alloc i ip fs ≡ some (ip.addrs i, ip, fs))
      × (ip.addrs i ≡ 0 → balloc fs ≡ none → addr_or_alloc i ip fs ≡ none)
      × ((a : ℕ) (fs' : Fs)
          → ip.addrs i ≡ 0
          → balloc fs ≡ some (a, fs')
          → addr_or_alloc i ip fs ≡ some (a, record ip { addrs = update ip.addrs i a }, fs'))
unfolding addr_or_alloc
alloc_eq i ip fs =
    (λ h. ground (arith, h), λ e h. ground (arith, e, h), λ a fs' e h. ground (arith, e, h))

entry_eq :
    (j ind : ℕ) (fs : Fs)
    → (word_at (fs.disk ind) (4 * j) ≢ 0
        → entry_or_alloc j ind fs ≡ some (word_at (fs.disk ind) (4 * j), fs))
      × (word_at (fs.disk ind) (4 * j) ≡ 0 → balloc fs ≡ none → entry_or_alloc j ind fs ≡ none)
      × ((a : ℕ) (fs' : Fs)
          → word_at (fs.disk ind) (4 * j) ≡ 0
          → balloc fs ≡ some (a, fs')
          → entry_or_alloc j ind fs
            ≡ some (a, log_write ind (put_word (fs'.disk ind) (4 * j) a) fs'))
unfolding entry_or_alloc
entry_eq j ind fs =
    (λ h. ground (arith, h), λ e h. ground (arith, e, h), λ a fs' e h. ground (arith, e, h))

abbrev pub MapOutcome : ℕ → ℕ → Inode → Fs → ℕ → Option (ℕ × Inode × Fs) → Type 0
MapOutcome lo hi ip fs n none = IsFull lo hi ip fs
MapOutcome lo hi ip fs n (some (a, ip', fs')) = Mapped lo hi ip fs n a ip' fs'

addr_or_alloc_lem :
    (lo hi i : ℕ) (ip : Inode) (fs : Fs)
    → IsFile ip fs
    → i < 13
    → Needed lo hi i
    → MapOutcome lo hi ip fs i (addr_or_alloc i ip fs)
addr_or_alloc_lem lo hi i ip fs ok h need =
    let (old, full, new) = alloc_eq i ip fs in
    elim (Bool-cases (ip.addrs i == 0)) [
      | inr some_ ↦
          let there : ip.addrs i ≢ 0 = λ z. ground (arith, some_, z) in
          let e = slot_direct ip fs i h in
          rw (old there) (
            subst (λ a. Mapped lo hi ip fs i a ip fs) e
              (Mapped-old lo hi ip fs i ok (λ z. there (sym e ∙ z))))
      | inl none_ ↦
          let empty : ip.addrs i ≡ 0 = ground (arith, none_) in
          elim (Option-cases (balloc fs)) [
            | inl e ↦ rw (full empty e) (
                no_space lo hi ip fs i (omega arith) need (slot_direct ip fs i h ∙ empty)
                  (subst (AllocOutcome fs) e (balloc_lem fs ok.volume)))
            | inr ((a, fs'), e) ↦
                let al = subst (AllocOutcome fs) e (balloc_lem fs ok.volume) in
                rw (new a fs' empty e)
                  (Mapped-new ok (omega arith) need (fill_direct i ip fs a fs' ok h empty al))
          ]
    ]

abbrev pub EntryOutcome : ℕ → ℕ → Inode → Fs → ℕ → Option (ℕ × Fs) → Type 0
EntryOutcome lo hi ip fs n none = IsFull lo hi ip fs
EntryOutcome lo hi ip fs n (some (a, fs')) = Mapped lo hi ip fs n a ip fs'

entry_or_alloc_lem :
    (lo hi j : ℕ) (ip : Inode) (fs : Fs)
    → IsFile ip fs
    → j < nindirect
    → ip.addrs ndirect ≢ 0
    → Needed lo hi (13 + j)
    → EntryOutcome lo hi ip fs (13 + j) (entry_or_alloc j (ip.addrs ndirect) fs)
entry_or_alloc_lem lo hi j ip fs ok h full need =
    let (old, stuck, new) = entry_eq j (ip.addrs ndirect) fs in
    let e = slot_entry ip fs j full in
    elim (Bool-cases (word_at (fs.disk (ip.addrs ndirect)) (4 * j) == 0)) [
      | inr some_ ↦
          let there : word_at (fs.disk (ip.addrs ndirect)) (4 * j) ≢ 0 =
            λ z. ground (arith, some_, z) in
          rw (old there) (
            subst (λ a. Mapped lo hi ip fs (13 + j) a ip fs) e
              (Mapped-old lo hi ip fs (13 + j) ok (λ z. there (sym e ∙ z))))
      | inl none_ ↦
          let empty : word_at (fs.disk (ip.addrs ndirect)) (4 * j) ≡ 0 = ground (arith, none_) in
          elim (Option-cases (balloc fs)) [
            | inl b ↦ rw (stuck empty b) (
                no_space lo hi ip fs (13 + j) (omega arith) need (e ∙ empty)
                  (subst (AllocOutcome fs) b (balloc_lem fs ok.volume)))
            | inr ((a, fs'), b) ↦
                let al = subst (AllocOutcome fs) b (balloc_lem fs ok.volume) in
                rw (new a fs' empty b) (
                  Mapped-new ok (omega arith) need
                    (fill_entry j ip fs a fs' ok h full (e ∙ empty) al))
          ]
    ]

bmap_direct :
    (bn : ℕ) (ip : Inode) (fs : Fs) → bn < ndirect → bmap ip bn fs ≡ addr_or_alloc bn ip fs
unfolding bmap
bmap_direct bn ip fs h = ground (arith, h)

bmap_indirect :
    (bn : ℕ) (ip : Inode) (fs : Fs)
    → ndirect ≤ bn
    → bn < 140
    → (addr_or_alloc ndirect ip fs ≡ none → bmap ip bn fs ≡ none)
      × ((ind : ℕ) (ip' : Inode) (fs' : Fs)
          → addr_or_alloc ndirect ip fs ≡ some (ind, ip', fs')
          → (entry_or_alloc (bn - ndirect) ind fs' ≡ none → bmap ip bn fs ≡ none)
            × ((a : ℕ) (fs'' : Fs)
                → entry_or_alloc (bn - ndirect) ind fs' ≡ some (a, fs'')
                → bmap ip bn fs ≡ some (a, ip', fs'')))
unfolding bmap
bmap_indirect bn ip fs low high = (
  λ e. ground (arith, e),
  λ ind ip' fs' e. (λ g. ground (arith, e, g), λ a fs'' g. ground (arith, e, g)),
)

pub Mapped-trans :
    {lo hi : ℕ} {ip ip' ip'' : Inode} {fs fs' fs'' : Fs} {n m a c : ℕ}
    → Mapped lo hi ip fs n a ip' fs'
    → Mapped lo hi ip' fs' m c ip'' fs''
    → Mapped lo hi ip fs m c ip'' fs''
Mapped-trans p q = record {
  file = q.file;
  frame = Frame-trans p.frame q.frame;
  here = q.here;
  there = q.there;
  bytes = λ i h. q.bytes i h ∙ p.bytes i h;
}

bmap_indirect_lem :
    (lo hi bn : ℕ) (ip : Inode) (fs : Fs)
    → IsFile ip fs
    → ndirect ≤ bn
    → bn < 140
    → lo ≤ bn
    → bn ≤ hi
    → MapOutcome lo hi ip fs (13 + (bn - ndirect)) (bmap ip bn fs)
bmap_indirect_lem lo hi bn ip fs ok low high from to =
    let (no_block, with_block) = bmap_indirect bn ip fs low high in
    elim (Option-cases (addr_or_alloc ndirect ip fs)) [
      | inl e ↦ rw (no_block e) (
          subst (MapOutcome lo hi ip fs ndirect) e
            (addr_or_alloc_lem lo hi ndirect ip fs ok (omega arith) (inl (refl, omega arith))))
      | inr ((ind, ip', fs'), e) ↦
          let got =
            subst (MapOutcome lo hi ip fs ndirect) e
              (addr_or_alloc_lem lo hi ndirect ip fs ok (omega arith) (inl (refl, omega arith))) in
          let at : ip'.addrs ndirect ≡ ind =
            sym (slot_direct ip' fs' ndirect (omega arith)) ∙ got.here in
          let out =
            subst
              (λ b.
                EntryOutcome lo hi ip' fs' (13 + (bn - ndirect))
                  (entry_or_alloc (bn - ndirect) b fs'))
              at
              (entry_or_alloc_lem lo hi (bn - ndirect) ip' fs' got.file (omega arith)
                (λ z. got.there (sym at ∙ z)) (inr (bn, from, to, ground (arith, low)))) in
          elim (Option-cases (entry_or_alloc (bn - ndirect) ind fs')) [
            | inl g ↦ rw ((with_block ind ip' fs' e).0 g) (
                IsFull-trans got.frame
                  (subst (EntryOutcome lo hi ip' fs' (13 + (bn - ndirect))) g out))
            | inr ((a, fs''), g) ↦
                rw ((with_block ind ip' fs' e).1 a fs'' g) (
                  Mapped-trans got (subst (EntryOutcome lo hi ip' fs' (13 + (bn - ndirect))) g out))
          ]
    ]

pub bmap_range :
    (lo hi bn : ℕ) (ip : Inode) (fs : Fs)
    → IsFile ip fs
    → bn < 140
    → lo ≤ bn
    → bn ≤ hi
    → MapOutcome lo hi ip fs (slot_of bn) (bmap ip bn fs)
bmap_range lo hi bn ip fs ok h from to = elim (Bool-cases (ltb bn ndirect)) [
  | inl low ↦ rw low (
      rw (bmap_direct bn ip fs (ground (arith, low))) (
        addr_or_alloc_lem lo hi bn ip fs ok (ground (arith, low))
          (inr (bn, from, to, ground (arith, low)))))
  | inr high ↦
      let at : bn + 1 ≡ 13 + (bn - ndirect) = ground (arith, high) in
      rw high (rw at (bmap_indirect_lem lo hi bn ip fs ok (ground (arith, high)) h from to))
]

-- `bmap` of a block number below MAXFILE, for an inode whose blocks are its own: it returns the
-- block that the inode then names at this number, no byte of the file changes (a block that was not
-- there reads as zeros), no pointer to a block and no block of another owner changes, and only this
-- block and the indirect block are allocated, if they were missing. It panics only if one of these two
-- is missing and every block of the disk is in use, or is once the other one was allocated.
pub bmap_lem :
    (bn : ℕ) (ip : Inode) (fs : Fs)
    → IsFile ip fs
    → bn < 140
    → MapOutcome bn bn ip fs (slot_of bn) (bmap ip bn fs)
bmap_lem bn ip fs ok h = bmap_range bn bn bn ip fs ok h (omega arith) (omega arith)
