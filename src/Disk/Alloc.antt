-- ===== src/Disk/Alloc.antt =====
-- `balloc` and `bfree` of fs.c against the set of the blocks in use.
use course_work_sem.Base.{
  ℕ, suc, ◌+◌, ◌/◌, ◌%◌, ◌^◌, ◌<◌, ◌≤◌, ◌≡◌, ◌≢◌, inl, inr, refl, ap, sym, subst, ◌∙◌, Bool, true,
  false, not, ◌&&◌, ◌||◌, Option, none, some, ltb, ◌==◌, Bytes, update, update_other, arith,
  Bool-cases, Option-cases,
}
use course_work_sem.Disk.{
  bsize, bpb, Superblock, Fs, readsb, bblock, log_write, bzero, find_block, mark_used, balloc,
  bfree, bfree_bit, clear_bit,
}
use course_work_sem.Disk.Bits.{bit-set_bit, bit-clear_bit}
use course_work_sem.Disk.Search.{used, find_block-some, find_block-none}

-- the first block behind the free map
abbrev pub data_start : Superblock → ℕ
data_start sb = sb.bmapstart + sb.size / bpb + 1

-- The areas of the disk follow one another, and those before the data are marked as used.
pub record IsVolume (fs : Fs) : Type 0 where
  pub read : readsb fs ≡ fs.sb
  pub super_first : 2 ≤ fs.sb.inodestart
  pub inodes_fit : fs.sb.inodestart + fs.sb.ninodes / 8 + 1 ≤ fs.sb.bmapstart
  pub data_fits : data_start fs.sb ≤ fs.sb.size
  pub small : fs.sb.size < 2 ^ 32
  pub meta_used : (b : ℕ) → b < data_start fs.sb → used fs b ≡ true

used-mark_used : (b c : ℕ) (fs : Fs) → used (mark_used b fs) c ≡ ((b == c) || used fs c)
unfolding mark_used
used-mark_used b c fs =
    ground (arith, bit-set_bit (fs.disk (bblock b fs.sb) (b % bpb / 8)) (b % bpb % 8) (c % bpb % 8))

used-mark_free :
    (b c : ℕ) (fs : Fs)
    → used
        (log_write
          (bblock b fs.sb)
          (update
            (fs.disk (bblock b fs.sb))
            (b % bpb / 8)
            (clear_bit (fs.disk (bblock b fs.sb) (b % bpb / 8)) (b % bpb % 8)))
          fs)
        c
      ≡ (not (b == c) && used fs c)
used-mark_free b c fs =
    ground
      (arith, bit-clear_bit (fs.disk (bblock b fs.sb) (b % bpb / 8)) (b % bpb % 8) (c % bpb % 8))

-- The blocks of the free map lie before the data.
bblock_meta :
    (b : ℕ) (sb : Superblock)
    → b < sb.size
    → (sb.bmapstart ≤ bblock b sb) × (bblock b sb < data_start sb)
bblock_meta b sb h = omega arith

mark_used_disk : (b c : ℕ) (fs : Fs) → bblock b fs.sb ≢ c → (mark_used b fs).disk c ≡ fs.disk c
unfolding mark_used
mark_used_disk b c fs other = ground (arith, other)

bzero_disk : (b c : ℕ) (fs : Fs) → b ≢ c → (bzero b fs).disk c ≡ fs.disk c
unfolding bzero
bzero_disk b c fs other = ground (arith, other)

bzero_zero : (b i : ℕ) (fs : Fs) → i < bsize → (bzero b fs).disk b i ≡ 0
unfolding bzero
bzero_zero b i fs small = ground arith

used_agree :
    (fs fs' : Fs) (c : ℕ)
    → fs'.sb ≡ fs.sb
    → fs'.disk (bblock c fs.sb) ≡ fs.disk (bblock c fs.sb)
    → used fs' c ≡ used fs c
used_agree fs fs' c s d = rw (s, d) refl

readsb_agree : (fs fs' : Fs) → fs'.disk 1 ≡ fs.disk 1 → readsb fs' ≡ readsb fs
unfolding readsb
readsb_agree fs fs' d = rw d refl

-- A step keeps the super block and the inodes, and changes the free map as `after` says.
pub record Remapped (fs fs' : Fs) (after : ℕ → Bool) : Type 0 where
  pub same_sb : fs'.sb ≡ fs.sb
  pub low_same : (c : ℕ) → c < fs.sb.bmapstart → fs'.disk c ≡ fs.disk c
  pub map : (c : ℕ) → c < fs.sb.size → used fs' c ≡ after c

pub Remapped-IsVolume :
    (fs fs' : Fs) (after : ℕ → Bool)
    → IsVolume fs
    → Remapped fs fs' after
    → ((c : ℕ) → c < data_start fs.sb → after c ≡ true)
    → IsVolume fs'
Remapped-IsVolume fs fs' after ok step meta =
    let s = step.same_sb in
    record {
      read =
          readsb_agree fs fs' (step.low_same 1 (omega (arith, ok.inodes_fit, ok.super_first)))
          ∙ ok.read
          ∙ sym s;
      super_first = rw s ok.super_first;
      inodes_fit = rw s ok.inodes_fit;
      data_fits = rw s ok.data_fits;
      small = rw s ok.small;
      meta_used = λ b h.
          (let h' : b < data_start fs.sb = subst (λ t. b < data_start t) s h in
            step.map b (omega (arith, h', ok.data_fits)) ∙ meta b h');
    }

pub record Allocated (fs : Fs) (b : ℕ) (fs' : Fs) : Type 0 where
  pub volume : IsVolume fs'
  pub step : Remapped fs fs' (λ c. (b == c) || used fs c)
  pub is_data : data_start fs.sb ≤ b
  pub in_disk : b < fs.sb.size
  pub was_free : used fs b ≡ false
  pub zeroed : (i : ℕ) → i < bsize → fs'.disk b i ≡ 0
  pub others : (c : ℕ) → data_start fs.sb ≤ c → c ≢ b → fs'.disk c ≡ fs.disk c

abbrev pub AllocOutcome : Fs → Option (ℕ × Fs) → Type 0
AllocOutcome fs none = (c : ℕ) → c < fs.sb.size → used fs c ≡ true
AllocOutcome fs (some (b, fs')) = Allocated fs b fs'

balloc-none : (fs : Fs) → find_block (suc fs.sb.size) 0 fs ≡ none → balloc fs ≡ none
unfolding balloc
balloc-none fs e = rw (e, balloc) refl

balloc-some :
    (fs : Fs) (b : ℕ)
    → find_block (suc fs.sb.size) 0 fs ≡ some b
    → balloc fs ≡ some (b, bzero b (mark_used b fs))
unfolding balloc
balloc-some fs b e = rw (e, balloc) refl

free_is_data : (b : ℕ) (fs : Fs) → IsVolume fs → used fs b ≡ false → data_start fs.sb ≤ b
free_is_data b fs ok free = elim (Bool-cases (ltb b (data_start fs.sb))) [
  | inl low ↦ (let contra = ok.meta_used b (ground (arith, low)) in absurd (cc))
  | inr high ↦ ground (arith, high)
]

taken_step :
    (b : ℕ) (fs : Fs)
    → b < fs.sb.size
    → data_start fs.sb ≤ b
    → Remapped fs (bzero b (mark_used b fs)) (λ c. (b == c) || used fs c)
unfolding bzero mark_used
taken_step b fs fits high =
    let group = bblock_meta b fs.sb fits in
    record {
      same_sb = refl;
      low_same = λ c h.
          bzero_disk b c (mark_used b fs) (λ e. omega arith)
          ∙ mark_used_disk b c fs (λ e. omega (arith, group.0));
      map = λ c h.
          (let there = bblock_meta c fs.sb h in
            used_agree (mark_used b fs) (bzero b (mark_used b fs)) c refl
              (bzero_disk b (bblock c fs.sb) (mark_used b fs) (λ e. omega (arith, there.1)))
            ∙ used-mark_used b c fs);
    }

allocated :
    (b : ℕ) (fs : Fs)
    → IsVolume fs
    → b < fs.sb.size
    → used fs b ≡ false
    → Allocated fs b (bzero b (mark_used b fs))
allocated b fs ok fits free =
    let high = free_is_data b fs ok free in
    let step = taken_step b fs fits high in
    let group = bblock_meta b fs.sb fits in
    record {
      volume =
          Remapped-IsVolume fs (bzero b (mark_used b fs)) (λ c. (b == c) || used fs c) ok step
            (λ c h. ground (arith, ok.meta_used c h));
      step = step;
      is_data = high;
      in_disk = fits;
      was_free = free;
      zeroed = λ i h. bzero_zero b i (mark_used b fs) h;
      others = λ c h other.
          bzero_disk b c (mark_used b fs) (λ e. other (sym e))
          ∙ mark_used_disk b c fs (λ e. omega (arith, group.1));
    }

-- `balloc` returns a block of the data area that was free: it is marked as used, and no other mark
-- changes; its bytes are 0, and no other block of the data area, no inode block and no block before
-- them changes. It panics only if every block is used.
pub balloc_lem : (fs : Fs) → IsVolume fs → AllocOutcome fs (balloc fs)
balloc_lem fs ok = elim (Option-cases (find_block (suc fs.sb.size) 0 fs)) [
  | inl e ↦
      rw (balloc-none fs e)
        (λ c h. find_block-none (suc fs.sb.size) 0 fs c e refl (omega arith) (omega arith) h)
  | inr (b, e) ↦
      let (fits, free) = find_block-some (suc fs.sb.size) 0 fs {r = b} e refl in
      rw (balloc-some fs b e) (allocated b fs ok fits free)
]

pub record Freed (fs : Fs) (b : ℕ) (fs' : Fs) : Type 0 where
  pub volume : IsVolume fs'
  pub step : Remapped fs fs' (λ c. not (b == c) && used fs c)
  pub was_used : used fs b ≡ true
  pub others : (c : ℕ) → data_start fs.sb ≤ c → fs'.disk c ≡ fs.disk c

abbrev pub FreeOutcome : Fs → ℕ → Option Fs → Type 0
FreeOutcome fs b none = used fs b ≡ false
FreeOutcome fs b (some fs') = Freed fs b fs'

-- what `bfree` makes of a block in use
freed_fs : ℕ → Fs → Fs
freed_fs b fs =
    log_write (bblock b fs.sb)
      (update (fs.disk (bblock b fs.sb)) (b % bpb / 8)
        (clear_bit (fs.disk (bblock b fs.sb) (b % bpb / 8)) (b % bpb % 8)))
      fs

bfree_none : (b : ℕ) (fs : Fs) → used fs b ≡ false → bfree_bit b fs ≡ none
unfolding bfree_bit
bfree_none b fs free = rw free refl

bfree_some : (b : ℕ) (fs : Fs) → used fs b ≡ true → bfree_bit b fs ≡ some (freed_fs b fs)
unfolding bfree_bit freed_fs
bfree_some b fs taken = rw taken refl

bfree_eq : (b : ℕ) (fs : Fs) → readsb fs ≡ fs.sb → bfree b fs ≡ bfree_bit b fs
unfolding bfree
bfree_eq b fs r = ap (λ s. bfree_bit b (record fs { sb = s })) r

freed_step :
    (b : ℕ) (fs : Fs)
    → b < fs.sb.size
    → Remapped fs (freed_fs b fs) (λ c. not (b == c) && used fs c)
unfolding freed_fs
freed_step b fs fits =
    let group = bblock_meta b fs.sb fits in
    record {
      same_sb = refl;
      low_same = λ c h. ground (arith, group.0);
      map = λ c h. used-mark_free b c fs;
    }

freed :
    (b : ℕ) (fs : Fs)
    → IsVolume fs
    → b < fs.sb.size
    → data_start fs.sb ≤ b
    → used fs b ≡ true
    → Freed fs b (freed_fs b fs)
unfolding freed_fs
freed b fs ok fits high taken =
    let step = freed_step b fs fits in
    let group = bblock_meta b fs.sb fits in
    record {
      volume =
          Remapped-IsVolume fs (freed_fs b fs) (λ c. not (b == c) && used fs c) ok step
            (λ c h. ground (arith, ok.meta_used c h));
      step = step;
      was_used = taken;
      others = λ c h. ground (arith, group.1);
    }

-- `bfree` of a block of the data area: it is marked as free, no other mark changes, and no block of
-- the data area, no inode block and no block before them changes. It panics exactly if the block is
-- free already.
pub bfree_lem :
    (b : ℕ) (fs : Fs)
    → IsVolume fs
    → b < fs.sb.size
    → data_start fs.sb ≤ b
    → FreeOutcome fs b (bfree b fs)
bfree_lem b fs ok fits high = elim (Bool-cases (used fs b)) [
  | inl taken ↦ rw (bfree_eq b fs ok.read ∙ bfree_some b fs taken) (freed b fs ok fits high taken)
  | inr free ↦ rw (bfree_eq b fs ok.read ∙ bfree_none b fs free) free
]

-- Writing a block of the data area.
pub write_step :
    (b : ℕ) (p : Bytes) (fs : Fs)
    → b < fs.sb.size
    → data_start fs.sb ≤ b
    → Remapped fs (log_write b p fs) (used fs)
write_step b p fs fits high = record {
  same_sb = refl;
  low_same = λ c h. update_other fs.disk b p c (λ e. omega arith);
  map = λ c h.
      (let there = bblock_meta c fs.sb h in
        used_agree fs (log_write b p fs) c refl
          (update_other fs.disk b p (bblock c fs.sb) (λ e. omega (arith, there.1))));
}

pub write-IsVolume :
    (b : ℕ) (p : Bytes) (fs : Fs)
    → IsVolume fs
    → b < fs.sb.size
    → data_start fs.sb ≤ b
    → IsVolume (log_write b p fs)
write-IsVolume b p fs ok fits high =
    Remapped-IsVolume fs (log_write b p fs) (used fs) ok (write_step b p fs fits high) ok.meta_used
