-- ===== src/Disk/Sample.antt =====
-- A disk of eight blocks: the super block is 1, the inodes are in 2 and 3, the free map is 4, and of
-- the blocks 5 to 7 for data the first is in use.
use course_work_sem.Base.{
  ℕ, zero, suc, ◌+◌, ◌/◌, ◌%◌, ◌<◌, ◌≡◌, refl, true, ◌==◌, if◌then◌else◌, Bytes, arith,
}
use course_work_sem.Disk.{Superblock, Fs, readsb, word_at, bit}
use course_work_sem.Disk.Alloc.{IsVolume}

abbrev pub sample_sb : Superblock
sample_sb = record {
  size = 8;
  nblocks = 3;
  ninodes = 8;
  nlog = 0;
  logstart = 2;
  inodestart = 2;
  bmapstart = 4;
}

abbrev pub super_bytes : Bytes
super_bytes i =
    if i == 0
    then 8
    else if i == 4
    then 3
    else if i == 8
    then 8
    else if i == 16
    then 2
    else if i == 20
    then 2
    else if i == 24
    then 4
    else 0

-- `map` is the first byte of the free map
abbrev pub sample_disk : ℕ → ℕ → Bytes
sample_disk map b i =
    if b == 1
    then super_bytes i
    else if b == 4
    then (if i == 0 then map else 255)
    else if b == 5
    then i
    else 0

abbrev pub sample : ℕ → Fs
sample map = record { disk = sample_disk map; sb = sample_sb }

meta_bits :
    (c : ℕ) → c < 5 → bit (sample_disk 63 (c / 4096 + 4) (c % 4096 / 8)) (c % 4096 % 8) ≡ true
unfolding bit
meta_bits zero h = refl
meta_bits (suc zero) h = refl
meta_bits (suc (suc zero)) h = refl
meta_bits (suc (suc (suc zero))) h = refl
meta_bits (suc (suc (suc (suc zero)))) h = refl
meta_bits (suc (suc (suc (suc (suc c))))) h = absurd (omega arith)

-- blocks 0 to 5 are in use
pub sample-IsVolume : IsVolume (sample 63)
unfolding readsb word_at
sample-IsVolume = record {
  read = refl;
  super_first = omega arith;
  inodes_fit = omega arith;
  data_fits = omega arith;
  small = omega arith;
  meta_used = λ c h. meta_bits c (omega arith);
}
