-- ===== src/Inode.antt =====
-- COL331/HW1/xv6/fs.c, the layer of files: the blocks of an inode, and reading and writing them. A
-- function on an inode has the in-memory inode as an argument and returns it changed; `none` is a
-- panic, of `balloc`, `bfree` or the function itself.
pub mod Slots
pub mod Grow
pub mod Fill
pub mod Map
pub mod Content
pub mod Dinode
pub mod Update
pub mod Read
pub mod Write
pub mod Store
pub mod Fetch
pub mod Freeing
pub mod Trunc
pub mod Empty
pub mod Sample
mod Tests
use course_work_sem.Base.{
  ℕ, zero, suc, ◌+◌, ◌-◌, ◌*◌, ◌/◌, ◌%◌, ◌^◌, Bool, true, false, not, ◌&&◌, ◌||◌, Option, none,
  some, ltb, leb, ◌==◌, if◌then◌else◌, Bytes, update, store_at, List, [], ◌∷◌, ◌++◌, length, take,
  drop, min,
}
use course_work_sem.Disk.{
  Fs, Superblock, bsize, word_at, put_word, half_at, put_half, log_write, balloc, bfree,
}

abbrev pub ndirect : ℕ
ndirect = 12

abbrev pub nindirect : ℕ
nindirect = 128

abbrev pub maxfile : ℕ
maxfile = 140

-- `struct inode`. The pointers to blocks are the function `addrs`, below NDIRECT + 1. `itype`, `major`,
-- `minor` and `nlink` are the bits of a `short`.
pub record Inode : Type 0 where
  pub dev : ℕ
  pub inum : ℕ
  pub ref : ℕ
  pub busy : Bool
  pub valid : Bool
  pub itype : ℕ
  pub major : ℕ
  pub minor : ℕ
  pub nlink : ℕ
  pub size : ℕ
  pub addrs : ℕ → ℕ

-- IPB and IBLOCK
abbrev pub ipb : ℕ
ipb = 8

abbrev pub iblock : ℕ → Superblock → ℕ
iblock i sb = i / ipb + sb.inodestart

-- the offset of the `struct dinode` in its block
abbrev pub dinode_at : ℕ → ℕ
dinode_at inum = inum % ipb * 64

-- `memmove(dip->addrs, ip->addrs, sizeof(ip->addrs))`: `n` words are left, from word `i` on
unfoldable pub put_addrs : ℕ → ℕ → ℕ → (ℕ → ℕ) → Bytes → Bytes
put_addrs zero i o addrs p = p
put_addrs (suc n) i o addrs p = put_addrs n (i + 1) o addrs (put_word p (o + 4 * i) (addrs i))

-- the bytes of the block after the assignments to `*dip`
unfoldable pub put_dinode : Inode → ℕ → Bytes → Bytes
unfolding put_addrs
put_dinode ip d p = put_addrs 13 0 (d + 12) ip.addrs (
    put_word
      (put_half (put_half (put_half (put_half p d ip.itype) (d + 2) ip.major) (d + 4) ip.minor)
        (d + 6) ip.nlink)
      (d + 8) ip.size)

unfoldable pub iupdate : Inode → Fs → Fs
unfolding put_dinode
iupdate ip fs =
    let b = iblock ip.inum fs.sb in log_write b (put_dinode ip (dinode_at ip.inum) (fs.disk b)) fs

-- `ip->addrs[i]`, allocated if it is 0
unfoldable pub addr_or_alloc : ℕ → Inode → Fs → Option (ℕ × Inode × Fs)
addr_or_alloc i ip fs =
    if not (ip.addrs i == 0) then some (ip.addrs i, ip, fs) else elim (balloc fs) [
      | some (a, fs') ↦ some (a, record ip { addrs = update ip.addrs i a }, fs')
      | none ↦ none
    ]

-- entry `j` of the indirect block `ind`, allocated if it is 0
unfoldable pub entry_or_alloc : ℕ → ℕ → Fs → Option (ℕ × Fs)
entry_or_alloc j ind fs =
    let addr = word_at (fs.disk ind) (4 * j) in
    if not (addr == 0) then some (addr, fs) else elim (balloc fs) [
      | some (a, fs') ↦ some (a, log_write ind (put_word (fs'.disk ind) (4 * j) a) fs')
      | none ↦ none
    ]

unfoldable pub bmap : Inode → ℕ → Fs → Option (ℕ × Inode × Fs)
bmap ip bn fs =
    if ltb bn ndirect
    then addr_or_alloc bn ip fs
    else if not (ltb (bn - ndirect) nindirect)
    then none
    else elim (addr_or_alloc ndirect ip fs) [
      | none ↦ none
      | some (ind, ip', fs') ↦ elim (entry_or_alloc (bn - ndirect) ind fs') [
        | none ↦ none
        | some (a, fs'') ↦ some (a, ip', fs'')
      ]
    ]

-- the first loop of `itrunc`, with `n` rounds left
unfoldable pub free_direct : ℕ → ℕ → Inode → Fs → Option (Inode × Fs)
free_direct zero i ip fs = some (ip, fs)
free_direct (suc n) i ip fs =
    if ip.addrs i == 0 then free_direct n (i + 1) ip fs else elim (bfree (ip.addrs i) fs) [
      | none ↦ none
      | some fs' ↦ free_direct n (i + 1) (record ip { addrs = update ip.addrs i 0 }) fs'
    ]

-- the loop over the entries `a` of the indirect block, whose buffer is held
unfoldable pub free_entries : ℕ → ℕ → Bytes → Fs → Option Fs
free_entries zero j a fs = some fs
free_entries (suc n) j a fs =
    if word_at a (4 * j) == 0
    then free_entries n (j + 1) a fs
    else elim (bfree (word_at a (4 * j)) fs) [
      | none ↦ none
      | some fs' ↦ free_entries n (j + 1) a fs'
    ]

-- what `itrunc` does about the indirect block
unfoldable pub free_indirect : Inode → Fs → Option (Inode × Fs)
free_indirect ip fs =
    if ip.addrs ndirect == 0
    then some (ip, fs)
    else elim (free_entries nindirect 0 (fs.disk (ip.addrs ndirect)) fs) [
      | none ↦ none
      | some fs' ↦ elim (bfree (ip.addrs ndirect) fs') [
        | none ↦ none
        | some fs'' ↦ some (record ip { addrs = update ip.addrs ndirect 0 }, fs'')
      ]
    ]

unfoldable pub itrunc : Inode → Fs → Option (Inode × Fs)
itrunc ip fs = elim (free_direct ndirect 0 ip fs) [
  | none ↦ none
  | some (ip', fs') ↦ elim (free_indirect ip' fs') [
    | none ↦ none
    | some (ip'', fs'') ↦
        let emptied = record ip'' { size = 0 } in some (emptied, iupdate emptied fs'')
  ]
]

-- the bytes `p[o..o + n)`
abbrev pub bytes_at : Bytes → ℕ → ℕ → List ℕ
bytes_at p o zero = []
bytes_at p o (suc n) = p o ∷ bytes_at p (o + 1) n

-- The loop of `readi`, on fuel, with `n` bytes left from `off` on.
unfoldable pub read_blocks : ℕ → ℕ → ℕ → Inode → Fs → Option (List ℕ × Inode × Fs)
read_blocks zero n off ip fs = some ([], ip, fs)
read_blocks (suc f) n off ip fs =
    if n == 0 then some ([], ip, fs) else elim (bmap ip (off / bsize) fs) [
      | none ↦ none
      | some (a, ip', fs') ↦
          let m = min n (bsize - off % bsize) in
          elim (read_blocks f (n - m) (off + m) ip' fs') [
            | none ↦ none
            | some (rest, ip'', fs'') ↦
                some (bytes_at (fs'.disk a) (off % bsize) m ++ rest, ip'', fs'')
          ]
    ]

-- The loop of `writei`, on fuel, with the bytes that are left.
unfoldable pub write_blocks : ℕ → List ℕ → ℕ → Inode → Fs → Option (Inode × Fs)
write_blocks zero xs off ip fs = some (ip, fs)
write_blocks (suc f) [] off ip fs = some (ip, fs)
write_blocks (suc f) (x ∷ xs) off ip fs = elim (bmap ip (off / bsize) fs) [
  | none ↦ none
  | some (a, ip', fs') ↦
      let m = min (length (x ∷ xs)) (bsize - off % bsize) in
      write_blocks f (drop m (x ∷ xs)) (off + m) ip'
        (log_write a (store_at (off % bsize) (take m (x ∷ xs)) (fs'.disk a)) fs')
]

-- T_DIR and T_DEV
abbrev pub t_dir : ℕ
t_dir = 1

abbrev pub t_dev : ℕ
t_dev = 3

abbrev pub ndev : ℕ
ndev = 10

-- `off > ip->size || off + n < off`, on `uint`
abbrev pub bad_range : ℕ → ℕ → ℕ → Bool
bad_range size off n = ltb size off || ltb ((off + n) % 2 ^ 32) off

pub data ReadOut : Type 0 where
  read : (bytes : List ℕ) → Inode → Fs → ReadOut  -- returns their number
  read_fails : ReadOut  -- returns -1
  read_device : (major : ℕ) → ReadOut  -- returns what `devsw[major].read` does
  read_panics : ReadOut

-- `has_read` says for which devices `devsw` has a read function.
unfoldable pub readi : (ℕ → Bool) → Inode → ℕ → ℕ → Fs → ReadOut
readi has_read ip off n fs =
    if ip.itype == t_dev
    then (if leb (2 ^ 15) ip.major || leb ndev ip.major || not (has_read ip.major)
        then read_fails
        else read_device ip.major)
    else if bad_range ip.size off n
    then read_fails
    else (let n' = if ltb ip.size ((off + n) % 2 ^ 32) then ip.size - off else n in
        elim (read_blocks n' n' off ip fs) [
          | none ↦ read_panics
          | some (bytes, ip', fs') ↦ read bytes ip' fs'
        ])

pub data WriteOut : Type 0 where
  written : (n : ℕ) → Inode → Fs → WriteOut  -- returns n
  write_fails : WriteOut  -- returns -1
  write_device : (major : ℕ) → WriteOut
  write_panics : WriteOut

-- the end of `writei`, with the offset after the loop
unfoldable pub grow_size : ℕ → ℕ → Inode → Fs → Inode × Fs
grow_size n off ip fs =
    if ltb 0 n && ltb ip.size off
    then (let ip' = record ip { size = off } in (ip', iupdate ip' fs))
    else (ip, fs)

unfoldable pub writei : (ℕ → Bool) → Inode → List ℕ → ℕ → Fs → WriteOut
unfolding grow_size
writei has_write ip xs off fs =
    if ip.itype == t_dev
    then (if leb (2 ^ 15) ip.major || leb ndev ip.major || not (has_write ip.major)
        then write_fails
        else write_device ip.major)
    else if bad_range ip.size off (length xs) || ltb (maxfile * bsize) ((off + length xs) % 2 ^ 32)
    then write_fails
    else elim (write_blocks (length xs) xs off ip fs) [
      | none ↦ write_panics
      | some (ip', fs') ↦
          let (ip'', fs'') = grow_size (length xs) (off + length xs) ip' fs' in
          written (length xs) ip'' fs''
    ]

-- `struct stat`
pub record Stat : Type 0 where
  pub itype : ℕ
  pub dev : ℕ
  pub ino : ℕ
  pub nlink : ℕ
  pub size : ℕ

unfoldable pub stati : Inode → Stat
stati ip = record {
  itype = ip.itype;
  dev = ip.dev;
  ino = ip.inum;
  nlink = ip.nlink;
  size = ip.size;
}
