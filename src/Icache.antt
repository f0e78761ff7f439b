-- ===== src/Icache.antt =====
-- COL331/HW1/xv6/fs.c, the inode cache: references to inodes, locking and reading them, and allocating
-- and freeing them on disk. A pointer into `icache.inode` is the number of its slot. `icache.lock` is
-- held over every change of the cache, so each is one step; `sleeps` is where a process waits, and it
-- then tries again. The `int` in `ref` is kept by its bits.
pub mod Scan
pub mod Get
pub mod Load
pub mod Alloc
pub mod Put
mod Tests
use course_work_sem.Base.{
  ℕ, zero, suc, ◌+◌, ◌-◌, ◌*◌, ◌/◌, ◌%◌, ◌^◌, Bool, true, false, not, ◌&&◌, ◌||◌, Option, none,
  some, ltb, leb, ◌==◌, if◌then◌else◌, Bytes, update,
}
use course_work_sem.Disk.{Fs, Superblock, word_at, half_at, put_half, log_write, readsb}
use course_work_sem.Inode.{Inode, iblock, dinode_at, itrunc, iupdate}

-- a result, a wait, or a panic
pub data Run (A : Type 0) : Type 0 where
  ret : A → Run A
  sleeps : Run A
  panics : Run A

-- `icache.inode`, and the file system under it
pub record Cache : Type 0 where
  pub inode : ℕ → Inode
  pub fs : Fs

abbrev pub Action : Type 0 → Type 0
Action A = Cache → Run (A × Cache)

module _ {A : Type 0} where
  abbrev pub pure : A → Action A
  pure a c = ret (a, c)

  abbrev pub panic : Action A
  panic c = panics

infixl 5 ◌>>=◌ ◌>>◌
abbrev pub ◌>>=◌ : {A B : Type 0} → Action A → (A → Action B) → Action B
◌>>=◌ m f c = elim (m c) [ ret (a, c') ↦ f a c' | sleeps ↦ sleeps | panics ↦ panics ]

abbrev pub ◌>>◌ : {A B : Type 0} → Action A → Action B → Action B
m >> k = m >>= λ _. k

abbrev pub ninode : ℕ
ninode = 50

abbrev pub set_inode : ℕ → Inode → Cache → Cache
set_inode k ip c = record c { inode = update c.inode k ip }

abbrev pub iinit : Cache → Cache
iinit c = record c { fs = record c.fs { sb = readsb c.fs } }

-- `ref > 0` and the changes by one, on the bits of an `int`
abbrev pub is_pos : ℕ → Bool
is_pos ref = ltb 0 ref && ltb ref (2 ^ 31)

abbrev pub one_more : ℕ → ℕ
one_more ref = (ref + 1) % 2 ^ 32

abbrev pub one_less : ℕ → ℕ
one_less ref = (ref + (2 ^ 32 - 1)) % 2 ^ 32

pub data Found : Type 0 where
  cached : (k : ℕ) → Found
  vacant : (k : ℕ) → Found
  full : Found

abbrev pub is_entry : ℕ → ℕ → Inode → Bool
is_entry dev inum ip = is_pos ip.ref && ip.dev == dev && ip.inum == inum

abbrev pub remember : Option ℕ → ℕ → Inode → Option ℕ
remember (some e) k ip = some e
remember none k ip = if ip.ref == 0 then some k else none

-- The loop of `iget`, with `n` slots left from `k` on.
unfoldable pub scan : ℕ → ℕ → Option ℕ → ℕ → ℕ → (ℕ → Inode) → Found
scan zero k none dev inum t = full
scan zero k (some e) dev inum t = vacant e
scan (suc n) k empty dev inum t =
    let rest = scan n (k + 1) (remember empty k (t k)) dev inum t in
    if is_entry dev inum (t k) then cached k else rest

unfoldable pub iget : ℕ → ℕ → Action ℕ
iget dev inum c = elim (scan ninode 0 none dev inum c.inode) [
  | cached k ↦ let ip = c.inode k in ret (k, set_inode k (record ip { ref = one_more ip.ref }) c)
  | vacant k ↦
      let ip = c.inode k in
      ret (
        k,
        set_inode k (record ip { dev = dev; inum = inum; ref = 1; busy = false; valid = false }) c,
      )
  | full ↦ panics
]

unfoldable pub idup : ℕ → Action ℕ
idup k c = let ip = c.inode k in ret (k, set_inode k (record ip { ref = one_more ip.ref }) c)

-- The loop of `ialloc`, with `n` inodes left from `inum` on: the first that is free.
unfoldable pub find_free : ℕ → ℕ → Fs → Option ℕ
find_free zero inum fs = none
find_free (suc n) inum fs =
    let rest = find_free n (inum + 1) fs in
    if half_at (fs.disk (iblock inum fs.sb)) (dinode_at inum) == 0 then some inum else rest

-- `memset(dip, 0, sizeof(*dip))` and the type
abbrev pub fresh_dinode : ℕ → ℕ → Bytes → Bytes
fresh_dinode type d p = put_half (λ i. if leb d i && ltb i (d + 64) then 0 else p i) d type

unfoldable pub ialloc : ℕ → ℕ → Action ℕ
unfolding find_free
ialloc dev type c = elim (find_free (c.fs.sb.ninodes - 1) 1 c.fs) [
  | none ↦ panics
  | some inum ↦
      let b = iblock inum c.fs.sb in
      let fs = log_write b (fresh_dinode type (dinode_at inum) (c.fs.disk b)) c.fs in
      iget dev inum (record c { fs = fs })
]

-- the assignments from `*dip`, in the block `p` at `d`
unfoldable pub get_dinode : Bytes → ℕ → Inode → Inode
unfolding half_at word_at
get_dinode p d ip = record ip {
  itype = half_at p d;
  major = half_at p (d + 2);
  minor = half_at p (d + 4);
  nlink = half_at p (d + 6);
  size = word_at p (d + 8);
  addrs = λ i. if ltb i 13 then word_at p (d + 12 + 4 * i) else ip.addrs i;
}

unfoldable pub loaded : Cache → Inode → Inode
unfolding get_dinode
loaded c ip = record (get_dinode (c.fs.disk (iblock ip.inum c.fs.sb)) (dinode_at ip.inum) ip) {
  valid = true;
}

-- the part of `ilock` after the lock is taken
unfoldable pub load : ℕ → Action Unit
load k c =
    let ip = c.inode k in
    if ip.valid
    then ret (tt, c)
    else (let ip' = loaded c ip in if ip'.itype == 0 then panics else ret (tt, set_inode k ip' c))

unfoldable pub ilock : ℕ → Action Unit
ilock k c =
    let ip = c.inode k in
    if not (is_pos ip.ref)
    then panics
    else if ip.busy
    then sleeps
    else load k (set_inode k (record ip { busy = true }) c)

unfoldable pub iunlock : ℕ → Action Unit
iunlock k c =
    let ip = c.inode k in
    if not ip.busy || not (is_pos ip.ref)
    then panics
    else ret (tt, set_inode k (record ip { busy = false }) c)

-- the case of `iput` where the inode is freed, before `ref--`
unfoldable pub free_inode : ℕ → Action Unit
free_inode k c =
    let ip = c.inode k in
    if ip.busy then panics else elim (itrunc (record ip { busy = true }) c.fs) [
      | none ↦ panics
      | some (ip', fs') ↦
          let gone = record ip' { itype = 0 } in
          ret (
            tt,
            record {
              inode = update c.inode k (record gone { busy = false; valid = false });
              fs = iupdate gone fs';
            },
          )
    ]

abbrev pub drop_ref : ℕ → Action Unit
drop_ref k c = let ip = c.inode k in ret (tt, set_inode k (record ip { ref = one_less ip.ref }) c)

unfoldable pub iput : ℕ → Action Unit
unfolding free_inode
iput k c =
    let ip = c.inode k in
    if ip.ref == 1 && ip.valid && ip.nlink == 0
    then (free_inode k >>= λ _. drop_ref k) c
    else drop_ref k c

unfoldable pub iunlockput : ℕ → Action Unit
iunlockput k = iunlock k >>= λ _. iput k
