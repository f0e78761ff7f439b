-- ===== src/Bio.antt =====
-- COL331/HW1/xv6/bio.c over the disk driver of COL331/HW1/xv6/memide.c. The list of buffers, most
-- recently used first, is a list; a buffer keeps its identity, its index in `bcache.buf`, in `id`.
pub mod View
pub mod Recycle
pub mod Assign
pub mod Contract
pub mod Read
pub mod Write
pub mod Release
pub mod Steps
mod Tests
use course_work_sem.Base.{
  ℕ, zero, suc, ◌+◌, ◌-◌, ◌^◌, Bool, true, false, not, ◌&&◌, ◌||◌, Option, none, some, List, [],
  ◌∷◌, leb, ◌==◌, if◌then◌else◌, update,
}

abbrev pub nbuf : ℕ
nbuf = 30

-- `b->dev = -1`, on `uint`
abbrev pub no_dev : ℕ
no_dev = 2 ^ 32 - 1

abbrev pub Contents : Type 0
Contents = List ℕ

-- `struct buf`; the flags are B_BUSY, B_VALID and B_DIRTY.
pub record Buf : Type 0 where
  pub id : ℕ
  pub busy : Bool
  pub valid : Bool
  pub dirty : Bool
  pub dev : ℕ
  pub blockno : ℕ
  pub bytes : Contents

abbrev pub holds : Buf → ℕ → ℕ → Bool
holds b dev blockno = (b.dev == dev) && (b.blockno == blockno)

-- the loop of `binit`: buffer `i` and its successors are put in front, one after the other
pub binit_from : ℕ → ℕ → List Buf → List Buf
binit_from zero i bs = bs
binit_from (suc n) i bs = binit_from n (i + 1) (
    record {
      id = i;
      busy = false;
      valid = false;
      dirty = false;
      dev = no_dev;
      blockno = 0;
      bytes = [];
    }
    ∷ bs)

pub binit : List Buf
unfolding binit_from
binit = binit_from nbuf 0 []

pub data Get : Type 0 where
  got : (b : Buf) → List Buf → Get
  get_sleeps : (id : ℕ) → Get  -- on the buffer, to look again when woken
  no_buffers : Get  -- the panic

-- the first buffer for the block
pub cached : ℕ → ℕ → List Buf → Option Buf
cached dev blockno [] = none
cached dev blockno (b ∷ bs) = if holds b dev blockno then some b else cached dev blockno bs

-- the assignment `b->flags |= B_BUSY` to that buffer
pub mark_busy : ℕ → ℕ → List Buf → List Buf
mark_busy dev blockno [] = []
mark_busy dev blockno (b ∷ bs) =
    if holds b dev blockno then record b { busy = true } ∷ bs else b ∷ mark_busy dev blockno bs

-- a recycled buffer: `b->flags = B_BUSY`
abbrev pub renew : ℕ → ℕ → Buf → Buf
renew dev blockno b = record b {
  dev = dev;
  blockno = blockno;
  busy = true;
  valid = false;
  dirty = false;
}

abbrev pub is_free : Buf → Bool
is_free b = not b.busy && not b.dirty

-- The search from the tail for a buffer that is neither busy nor dirty.
pub recycle : ℕ → ℕ → List Buf → Option (Buf × List Buf)
recycle dev blockno [] = none
recycle dev blockno (b ∷ bs) = elim (recycle dev blockno bs) [
  | some (c, cs) ↦ some (c, b ∷ cs)
  | none ↦ if is_free b then some (renew dev blockno b, renew dev blockno b ∷ bs) else none
]

pub bget : ℕ → ℕ → List Buf → Get
unfolding cached mark_busy recycle
bget dev blockno bs = elim (cached dev blockno bs) [
  | some b ↦
      if not b.busy
      then got (record b { busy = true }) (mark_busy dev blockno bs)
      else get_sleeps b.id
  | none ↦ elim (recycle dev blockno bs) [ some (b, cs) ↦ got b cs | none ↦ no_buffers ]
]

abbrev pub Disk : Type 0
Disk = ℕ → Contents

-- `iderw` of memide.c for a disk of `disksize` blocks; `none` is a panic.
pub iderw : ℕ → Buf → Disk → Option (Buf × Disk)
iderw disksize b disk =
    if not b.busy || (b.valid && not b.dirty) || not (b.dev == 1) || leb disksize b.blockno
    then none
    else (if b.dirty
        then some (record b { dirty = false; valid = true }, update disk b.blockno b.bytes)
        else some (record b { bytes = disk b.blockno; valid = true }, disk))

-- the assignments through the pointer to buffer `b`
pub assign : Buf → List Buf → List Buf
assign b [] = []
assign b (c ∷ cs) = if c.id == b.id then b ∷ cs else c ∷ assign b cs

pub record Cache : Type 0 where
  pub bufs : List Buf
  pub disk : Disk
  pub woken : List ℕ

pub data Out : Type 0 where
  done : (b : Buf) → Cache → Out
  sleeps : (id : ℕ) → Out
  panic : Out

-- `bread` after its call of `bget`
pub bread_after : ℕ → Cache → Get → Out
unfolding iderw assign
bread_after disksize c (got b bs) =
    if not b.valid
    then elim (iderw disksize b c.disk) [
      | some (b', disk) ↦ done b' (record c { bufs = assign b' bs; disk = disk })
      | none ↦ panic
    ]
    else done b (record c { bufs = bs })
bread_after disksize c (get_sleeps id) = sleeps id
bread_after disksize c no_buffers = panic

pub bread : ℕ → ℕ → ℕ → Cache → Out
unfolding bget bread_after
bread disksize dev blockno c = bread_after disksize c (bget dev blockno c.bufs)

pub bwrite : ℕ → Buf → Cache → Out
unfolding iderw assign
bwrite disksize b c =
    if not b.busy then panic else elim (iderw disksize (record b { dirty = true }) c.disk) [
      | some (b', disk) ↦ done b' (record c { bufs = assign b' c.bufs; disk = disk })
      | none ↦ panic
    ]

-- unlinking a buffer from the list
pub unlink : ℕ → List Buf → List Buf
unlink id [] = []
unlink id (c ∷ cs) = if c.id == id then cs else c ∷ unlink id cs

pub brelse : Buf → Cache → Out
unfolding unlink
brelse b c =
    if not b.busy
    then panic
    else (let b' = record b { busy = false } in
        done b' (record c { bufs = b' ∷ unlink b.id c.bufs; woken = b.id ∷ c.woken }))
