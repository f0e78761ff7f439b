-- ===== src/Disk.antt =====
-- COL331/HW1/xv6/fs.c, the layer of blocks: the super block and the allocator of blocks. A block is
-- a function from offsets to bytes. Inside a transaction, `bread` has the latest contents of a block
-- and `log_write` sets them, so both work on one map from block numbers to blocks.
pub mod Words
pub mod Bits
pub mod Search
pub mod Alloc
pub mod Sample
mod Tests
use course_work_sem.Base.{
  ℕ, zero, suc, ◌+◌, ◌-◌, ◌*◌, ◌/◌, ◌%◌, ◌^◌, Bool, true, false, not, ◌&&◌, Option, none, some, ltb,
  leb, ◌==◌, if◌then◌else◌, Bytes, update,
}

abbrev pub bsize : ℕ
bsize = 512

-- BPB, the bits of a block of the free map
abbrev pub bpb : ℕ
bpb = 4096

-- `*(uint*)(p + o)` and the assignment to it; x86 is little-endian.
unfoldable pub word_at : Bytes → ℕ → ℕ
word_at p o = p o + 256 * p (o + 1) + 65536 * p (o + 2) + 16777216 * p (o + 3)

unfoldable pub put_word : Bytes → ℕ → ℕ → Bytes
put_word p o v =
    update
      (update (update (update p o (v % 256)) (o + 1) (v / 256 % 256)) (o + 2) (v / 65536 % 256))
      (o + 3) (v / 16777216 % 256)

-- the same for a `short` or `ushort`
unfoldable pub half_at : Bytes → ℕ → ℕ
half_at p o = p o + 256 * p (o + 1)

unfoldable pub put_half : Bytes → ℕ → ℕ → Bytes
put_half p o v = update (update p o (v % 256)) (o + 1) (v / 256 % 256)

-- `x & (1 << k)` is not 0; `x | (1 << k)`; `x & ~(1 << k)`: by the digits of `x`.
unfoldable pub bit : ℕ → ℕ → Bool
bit x zero = x % 2 == 1
bit x (suc k) = bit (x / 2) k

unfoldable pub set_bit : ℕ → ℕ → ℕ
set_bit x zero = x / 2 * 2 + 1
set_bit x (suc k) = set_bit (x / 2) k * 2 + x % 2

unfoldable pub clear_bit : ℕ → ℕ → ℕ
clear_bit x zero = x / 2 * 2
clear_bit x (suc k) = clear_bit (x / 2) k * 2 + x % 2

pub record Superblock : Type 0 where
  pub size : ℕ
  pub nblocks : ℕ
  pub ninodes : ℕ
  pub nlog : ℕ
  pub logstart : ℕ
  pub inodestart : ℕ
  pub bmapstart : ℕ

-- the blocks of the one disk, and the global `sb`
pub record Fs : Type 0 where
  pub disk : ℕ → Bytes
  pub sb : Superblock

unfoldable pub readsb : Fs → Superblock
unfolding word_at
readsb fs =
    let p = fs.disk 1 in
    record {
      size = word_at p 0;
      nblocks = word_at p 4;
      ninodes = word_at p 8;
      nlog = word_at p 12;
      logstart = word_at p 16;
      inodestart = word_at p 20;
      bmapstart = word_at p 24;
    }

-- BBLOCK
abbrev pub bblock : ℕ → Superblock → ℕ
bblock b sb = b / bpb + sb.bmapstart

-- `log_write` of block `b` with the bytes `p`
abbrev pub log_write : ℕ → Bytes → Fs → Fs
log_write b p fs = record fs { disk = update fs.disk b p }

unfoldable pub bzero : ℕ → Fs → Fs
bzero bno fs = log_write bno (λ i. if ltb i bsize then 0 else fs.disk bno i) fs

-- The inner loop of `balloc`, with `n` rounds left from bit `bi` on: the first free block.
unfoldable pub find_bit : ℕ → ℕ → ℕ → ℕ → Bytes → Option ℕ
unfolding bit
find_bit zero bi b size p = none
find_bit (suc n) bi b size p =
    let rest = find_bit n (bi + 1) b size p in
    if not (ltb (b + bi) size)
    then none
    else if not (bit (p (bi / 8)) (bi % 8))
    then some bi
    else rest

-- the inner loop over all the bits of the block for the group of `b`
unfoldable pub block_bits : ℕ → Fs → Option ℕ
unfolding find_bit
block_bits b fs = find_bit bpb 0 b fs.sb.size (fs.disk (bblock b fs.sb))

-- The outer loop, on fuel: the block of bits that has a free one.
unfoldable pub find_block : ℕ → ℕ → Fs → Option ℕ
find_block zero b fs = none
find_block (suc n) b fs =
    let rest = find_block n (b + bpb) fs in
    if not (ltb b fs.sb.size)
    then none
    else elim (block_bits b fs) [ some bi ↦ some (b + bi) | none ↦ rest ]

-- `bp->data[bi/8] |= m`
unfoldable pub mark_used : ℕ → Fs → Fs
unfolding set_bit
mark_used b fs =
    let p = fs.disk (bblock b fs.sb) in
    let o = b % bpb / 8 in log_write (bblock b fs.sb) (update p o (set_bit (p o) (b % bpb % 8))) fs

-- `none` is the panic.
unfoldable pub balloc : Fs → Option (ℕ × Fs)
unfolding find_block mark_used bzero
balloc fs = elim (find_block (suc fs.sb.size) 0 fs) [
  | none ↦ none
  | some b ↦ some (b, bzero b (mark_used b fs))
]

-- `bfree` after its call of `readsb`; `none` is the panic.
unfoldable pub bfree_bit : ℕ → Fs → Option Fs
unfolding bit clear_bit
bfree_bit b fs =
    let p = fs.disk (bblock b fs.sb) in
    let o = b % bpb / 8 in
    if not (bit (p o) (b % bpb % 8))
    then none
    else some (log_write (bblock b fs.sb) (update p o (clear_bit (p o) (b % bpb % 8))) fs)

unfoldable pub bfree : ℕ → Fs → Option Fs
unfolding readsb bfree_bit
bfree b fs = bfree_bit b (record fs { sb = readsb fs })
