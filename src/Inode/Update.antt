-- ===== src/Inode/Update.antt =====
-- Writing a block of the inode area, and `iupdate` of fs.c.
use course_work_sem.Base.{
  ℕ, ◌+◌, ◌/◌, ◌<◌, ◌≤◌, ◌≡◌, ◌≢◌, inl, inr, refl, sym, subst, ◌∙◌, ◌==◌, Bytes, update_other,
  arith, Bool-cases,
}
use course_work_sem.Disk.{Fs, bsize, log_write}
use course_work_sem.Disk.Search.{used}
use course_work_sem.Disk.Alloc.{IsVolume}
use course_work_sem.Inode.{Inode, ndirect, iupdate, put_dinode, iblock, dinode_at}
use course_work_sem.Inode.Slots.{slot, slot_of, IsBlock, IsFile, file_byte}
use course_work_sem.Disk.{readsb}
use course_work_sem.Inode.Fill.{ind-IsBlock}

-- A block of the inode area holds no file's bytes.
module _ (ip : Inode) (fs : Fs) (b : ℕ) (p : Bytes) (ok : IsFile ip fs) (above : 2 ≤ b)
    (below : b < fs.sb.bmapstart) where
  after : Fs
  after = log_write b p fs

  same_at : (c : ℕ) → c ≢ b → after.disk c ≡ fs.disk c
  unfolding after
  same_at c other = update_other fs.disk b p c (λ e. other (sym e))

  same_used : (c : ℕ) → used after c ≡ used fs c
  unfolding after
  same_used c = rw (update_other fs.disk b p (c / 4096 + fs.sb.bmapstart) (λ e. omega arith)) refl

  same_super : readsb after ≡ readsb fs
  unfolding readsb after
  same_super = rw (update_other fs.disk b p 1 (λ e. omega arith)) refl

  same_slot : (n : ℕ) → slot ip after n ≡ slot ip fs n
  unfolding slot
  same_slot n = elim (Bool-cases (ip.addrs ndirect == 0)) [
    | inl none_ ↦ rw none_ refl
    | inr some_ ↦
        let i = ind-IsBlock ip fs ok (λ z. ground (arith, some_, z)) in
        rw (same_at (ip.addrs ndirect) (λ e. omega (arith, i.high))) refl
  ]

  pub low_used : (c : ℕ) → used (log_write b p fs) c ≡ used fs c
  unfolding after
  low_used c = same_used c

  pub low-IsFile : IsFile ip (log_write b p fs)
  unfolding after
  low-IsFile = record {
    volume = record {
      read = same_super ∙ ok.volume.read;
      super_first = ok.volume.super_first;
      inodes_fit = ok.volume.inodes_fit;
      data_fits = ok.volume.data_fits;
      small = ok.volume.small;
      meta_used = λ c h. same_used c ∙ ok.volume.meta_used c h;
    };
    owned = λ n h full.
        (let e = same_slot n in
          let k = ok.owned n h (λ z. full (e ∙ z)) in
          subst (IsBlock after) (sym e)
            (record { high = k.high; fits = k.fits; taken = same_used (slot ip fs n) ∙ k.taken }));
    distinct = λ n m h l full same.
        ok.distinct n m h l (λ z. full (same_slot n ∙ z)) (sym (same_slot n) ∙ same ∙ same_slot m);
  }

  pub low_bytes : (i : ℕ) → i < 71680 → file_byte ip (log_write b p fs) i ≡ file_byte ip fs i
  unfolding file_byte after
  low_bytes i h = elim (Bool-cases (slot ip fs (slot_of (i / bsize)) == 0)) [
    | inl none_ ↦ rw (same_slot (slot_of (i / bsize)), none_) refl
    | inr some_ ↦
        let k =
          ok.owned (slot_of (i / bsize)) (ground (arith, h)) (λ z. ground (arith, some_, z)) in
        rw (same_slot (slot_of (i / bsize)), some_)
          (rw (same_at (slot ip fs (slot_of (i / bsize))) (λ e. omega (arith, k.high))) refl)
  ]

-- A field of the inode that is not a pointer.
pub resized-IsFile :
    (k : ℕ) (ip : Inode) (fs : Fs) → IsFile ip fs → IsFile (record ip { size = k }) fs
unfolding slot
resized-IsFile k ip fs ok = record { volume = ok.volume; owned = ok.owned; distinct = ok.distinct }

pub resized_bytes :
    (k : ℕ) (ip : Inode) (fs : Fs) (i : ℕ)
    → file_byte (record ip { size = k }) fs i ≡ file_byte ip fs i
unfolding slot file_byte
resized_bytes k ip fs i = refl

pub iblock_low :
    (i : ℕ) (fs : Fs)
    → IsVolume fs
    → i < fs.sb.ninodes
    → (2 ≤ iblock i fs.sb) × (iblock i fs.sb < fs.sb.bmapstart)
iblock_low i fs ok h = (omega (arith, ok.super_first), omega (arith, ok.inodes_fit))

pub iupdate-IsFile :
    (ip : Inode) (fs : Fs) → ip.inum < fs.sb.ninodes → IsFile ip fs → IsFile ip (iupdate ip fs)
unfolding iupdate
iupdate-IsFile ip fs known ok =
    let (above, below) = iblock_low ip.inum fs ok.volume known in
    low-IsFile ip fs (iblock ip.inum fs.sb)
      (put_dinode ip (dinode_at ip.inum) (fs.disk (iblock ip.inum fs.sb))) ok above below

pub iupdate_bytes :
    (ip : Inode) (fs : Fs)
    → ip.inum < fs.sb.ninodes
    → IsFile ip fs
    → (i : ℕ) → i < 71680
    → file_byte ip (iupdate ip fs) i ≡ file_byte ip fs i
unfolding iupdate
iupdate_bytes ip fs known ok i h =
    let (above, below) = iblock_low ip.inum fs ok.volume known in
    low_bytes ip fs (iblock ip.inum fs.sb)
      (put_dinode ip (dinode_at ip.inum) (fs.disk (iblock ip.inum fs.sb))) ok above below i h

pub iupdate_disk :
    (ip : Inode) (fs : Fs) (c : ℕ) → c ≢ iblock ip.inum fs.sb → (iupdate ip fs).disk c ≡ fs.disk c
unfolding iupdate
iupdate_disk ip fs c other =
    update_other fs.disk (iblock ip.inum fs.sb)
      (put_dinode ip (dinode_at ip.inum) (fs.disk (iblock ip.inum fs.sb))) c (λ e. other (sym e))

pub used-iupdate :
    (ip : Inode) (fs : Fs) (c : ℕ)
    → ip.inum < fs.sb.ninodes
    → IsFile ip fs
    → used (iupdate ip fs) c ≡ used fs c
unfolding iupdate
used-iupdate ip fs c known ok =
    let (above, below) = iblock_low ip.inum fs ok.volume known in
    low_used ip fs (iblock ip.inum fs.sb)
      (put_dinode ip (dinode_at ip.inum) (fs.disk (iblock ip.inum fs.sb))) ok above below c

pub iupdate_sb : (ip : Inode) (fs : Fs) → (iupdate ip fs).sb ≡ fs.sb
unfolding iupdate
iupdate_sb ip fs = refl
