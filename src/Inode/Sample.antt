-- ===== src/Inode/Sample.antt =====
-- A file or directory of one block on the disk of Disk/Sample.antt.
use course_work_sem.Base.{
  ℕ, zero, suc, ◌<◌, ◌≡◌, ◌≢◌, refl, true, arith, ◌==◌, ltb, if◌then◌else◌, subst, sym, Bool-cases,
  inl, inr, ◌∙◌,
}
use course_work_sem.Disk.{bit}
use course_work_sem.Disk.Sample.{sample, sample-IsVolume}
use course_work_sem.Inode.{Inode}
use course_work_sem.Inode.Slots.{slot, IsBlock, IsFile}

-- block 5 is the first block of the file
abbrev pub file : ℕ → ℕ → Inode
file itype size = record {
  dev = 1;
  inum = 3;
  ref = 1;
  busy = true;
  valid = true;
  itype = itype;
  major = 0;
  minor = 0;
  nlink = 1;
  size = size;
  addrs = λ i. if i == 0 then 5 else 0;
}

other_slots : (itype size n : ℕ) → 0 < n → slot (file itype size) (sample 63) n ≡ 0
unfolding slot
other_slots itype size n h = elim (Bool-cases (ltb n 13)) [
  | inl low ↦ ground (arith, low)
  | inr high ↦ rw high refl
]

only_slot : (itype size n : ℕ) → slot (file itype size) (sample 63) n ≢ 0 → n ≡ 0
only_slot itype size zero full = refl
only_slot itype size (suc n) full = absurd (full (other_slots itype size (suc n) (omega arith)))

IsBlock-5 : IsBlock (sample 63) 5
unfolding bit
IsBlock-5 = record { high = omega arith; fits = omega arith; taken = refl }

pub file-IsFile : (itype size : ℕ) → IsFile (file itype size) (sample 63)
unfolding slot
file-IsFile itype size = record {
  volume = sample-IsVolume;
  owned = λ n h full.
      subst (λ k. IsBlock (sample 63) (slot (file itype size) (sample 63) k))
        (sym (only_slot itype size n full)) IsBlock-5;
  distinct = λ n m h l full same.
      only_slot itype size n full ∙ sym (only_slot itype size m (λ z. full (same ∙ z)));
}
