-- ===== src/Log.antt =====
-- COL331/HW1/xv6/log.c: the redo log. The buffer cache (bio.c, ide.c) appears by what its interface
-- promises: `bread` gives the latest contents of a block, `bwrite` puts them on the disk, and a
-- buffer with B_DIRTY keeps contents that the disk does not have. Power may fail: only the next
-- `power` writes reach the disk.
pub mod Header
pub mod Crash
pub mod Recover
pub mod Commit
pub mod Atomic
pub mod Ops
mod Tests
use course_work_sem.Base.{
  ℕ, zero, suc, ◌+◌, ◌-◌, ◌*◌, Bool, true, false, not, ◌&&◌, ◌||◌, Option, none, some, List, [],
  ◌∷◌, get_or, set, length, ltb, leb, ◌==◌, if◌then◌else◌, update,
}

-- the words of a disk block
abbrev pub Block : Type 0
Block = List ℕ

abbrev pub maxopblocks : ℕ
maxopblocks = 10

abbrev pub logsize : ℕ
logsize = maxopblocks * 3

pub record Store : Type 0 where
  pub disk : ℕ → Block
  pub dirty : ℕ → Option Block
  pub power : ℕ

abbrev pub or_else : Option Block → Block → Block
or_else none d = d
or_else (some b) d = b

unfoldable pub bread : Store → ℕ → Block
bread s b = or_else (s.dirty b) (s.disk b)

-- `iderw` clears B_DIRTY.
unfoldable pub bwrite : ℕ → Block → Store → Store
bwrite b d s = record {
  disk = if s.power == 0 then s.disk else update s.disk b d;
  dirty = update s.dirty b none;
  power = s.power - 1;
}

-- `log.lh.block[0..n)` is the list `lh`, and `log.lh.n` its length. `woken` counts `wakeup(&log)`.
pub record Log : Type 0 where
  pub start : ℕ
  pub size : ℕ
  pub outstanding : ℕ
  pub committing : Bool
  pub lh : List ℕ
  pub store : Store
  pub woken : ℕ

-- Copy logged blocks from the log to their home locations; `tail` is the index of the first.
pub install_from : ℕ → ℕ → List ℕ → Store → Store
unfolding bread bwrite
install_from start tail [] s = s
install_from start tail (b ∷ bs) s =
    install_from start (tail + 1) bs (bwrite b (bread s (start + tail + 1)) s)

pub install_trans : Log → Log
unfolding install_from
install_trans l = record l { store = install_from l.start 0 l.lh l.store }

-- `for (i = 0; i < n; i++) log.lh.block[i] = lh->block[i]`
pub read_words : Block → ℕ → ℕ → List ℕ
read_words d i zero = []
read_words d i (suc n) = get_or d i 0 ∷ read_words d (i + 1) n

pub read_head : Log → Log
unfolding read_words bread
read_head l = let d = bread l.store l.start in record l { lh = read_words d 1 (get_or d 0 0) }

-- `for (i = 0; i < n; i++) hb->block[i] = log.lh.block[i]`
pub put_words : Block → ℕ → List ℕ → Block
put_words d i [] = d
put_words d i (b ∷ bs) = put_words (set d i b) (i + 1) bs

-- the header block for the logged blocks `lh`, written over `d`
pub head_block : Block → List ℕ → Block
unfolding put_words
head_block d lh = put_words (set d 0 (length lh)) 1 lh

pub write_head : Log → Log
unfolding head_block bread bwrite
write_head l = record l { store = bwrite l.start (head_block (bread l.store l.start) l.lh) l.store }

pub recover_from_log : Log → Log
unfolding read_head install_trans write_head
recover_from_log l = write_head (record (install_trans (read_head l)) { lh = [] })

-- `initlog` with what `readsb` reads from the super block.
pub initlog : ℕ → ℕ → Store → Log
unfolding recover_from_log
initlog logstart nlog s = recover_from_log (record {
  start = logstart;
  size = nlog;
  outstanding = 0;
  committing = false;
  lh = [];
  store = s;
  woken = 0;
})

pub write_log_from : ℕ → ℕ → List ℕ → Store → Store
unfolding bread bwrite
write_log_from start tail [] s = s
write_log_from start tail (b ∷ bs) s =
    write_log_from start (tail + 1) bs (bwrite (start + tail + 1) (bread s b) s)

pub write_log : Log → Log
unfolding write_log_from
write_log l = record l { store = write_log_from l.start 0 l.lh l.store }

pub commit : Log → Log
unfolding write_log write_head install_trans
commit l =
    if ltb 0 (length l.lh)
    then write_head (record (install_trans (write_head (write_log l))) { lh = [] })
    else l

pub data Begin : Type 0 where
  started : Log → Begin
  begin_sleeps : Begin  -- sleeps on the log, to test again

pub begin_op : Log → Begin
begin_op l =
    if l.committing
    then begin_sleeps
    else if ltb logsize (length l.lh + (l.outstanding + 1) * maxopblocks)
    then begin_sleeps
    else started (record l { outstanding = l.outstanding + 1 })

-- The first critical section of `end_op`: `none` is the panic, and the Boolean is `do_commit`. A call
-- outside of an operation, at `outstanding` 0, would go to -1 in the code and stays at 0 here.
pub end_op_enter : Log → Option (Log × Bool)
end_op_enter l =
    if l.committing
    then none
    else if l.outstanding == 1
    then some (record l { outstanding = l.outstanding - 1; committing = true }, true)
    else some (record l { outstanding = l.outstanding - 1; woken = l.woken + 1 }, false)

pub end_op : Log → Option Log
unfolding end_op_enter commit
end_op l = elim (end_op_enter l) [
  | none ↦ none
  | some (l', do_commit) ↦
      let after = commit l' in
      if do_commit
      then some (record after { committing = false; woken = after.woken + 1 })
      else some l'
]

-- the loop of `log_write`, with log absorption
pub absorb : List ℕ → ℕ → List ℕ
absorb [] b = b ∷ []
absorb (c ∷ cs) b = if c == b then b ∷ cs else c ∷ absorb cs b

-- For a buffer of block `b` with contents `d`; `none` is either panic.
pub log_write : ℕ → Block → Log → Option Log
unfolding absorb
log_write b d l =
    if leb logsize (length l.lh) || leb l.size (length l.lh + 1)
    then none
    else if ltb l.outstanding 1
    then none
    else some (record l {
      lh = absorb l.lh b;
      store = record l.store { dirty = update l.store.dirty b (some d) };
    })
