-- ===== src/File.antt =====
-- COL331/HW1/xv6/file.c: the table of open files with its reference counts, which are kept by
-- their 32 bits. Every call holds ftable.lock where it reads and changes the table.
pub mod Count
mod Tests
use course_work_sem.Base.{
  ℕ, zero, suc, ◌+◌, ◌-◌, ◌*◌, ◌/◌, ◌%◌, ◌^◌, Bool, true, false, not, ◌&&◌, ◌||◌, Option, none,
  some, List, [], ◌∷◌, ltb, leb, ◌==◌, if◌then◌else◌, length, get_or, set, take, drop, ℤ, pos,
  negsuc, minus_one,
}

abbrev pub nfile : ℕ
nfile = 100

pub data FdType : Type 0 where
  fd_none fd_pipe fd_inode : FdType

-- `struct file`; `pipe` and `ip` stand for the pointers.
pub record File : Type 0 where
  pub kind : FdType
  pub ref : ℕ
  pub readable : Bool
  pub writable : Bool
  pub pipe : ℕ
  pub ip : ℕ
  pub off : ℕ

abbrev pub closed : File
closed = record {
  kind = fd_none;
  ref = 0;
  readable = false;
  writable = false;
  pipe = 0;
  ip = 0;
  off = 0;
}

-- a file structure of the table; beyond the table there is none
abbrev pub at : List File → ℕ → File
at fs i = get_or fs i closed

-- the first file structure from `i` on that has no reference
pub find_free : List File → ℕ → Option ℕ
find_free [] i = none
find_free (f ∷ fs) i = if f.ref == 0 then some i else find_free fs (i + 1)

pub filealloc : List File → Option (ℕ × List File)
unfolding find_free
filealloc fs = elim (find_free fs 0) [
  | none ↦ none
  | some i ↦ some (i, set fs i (record (at fs i) { ref = 1 }))
]

-- The tests `ref < 1` and `ref > 0` of the `int` that has these 32 bits.
abbrev pub less_than_1 : ℕ → Bool
less_than_1 ref = ref == 0 || leb (2 ^ 31) ref

-- `none` is the panic.
pub filedup : ℕ → List File → Option (List File)
filedup i fs =
    if less_than_1 (at fs i).ref
    then none
    else some (set fs i (record (at fs i) { ref = ((at fs i).ref + 1) % 2 ^ 32 }))

-- what `fileclose` does after it gives up ftable.lock
pub data Close : Type 0 where
  still_open : Close
  close_pipe : (pipe : ℕ) (writable : Bool) → Close  -- pipeclose
  put_inode : (ip : ℕ) → Close  -- iput, in a file system operation
  nothing : Close

abbrev pub close_of : File → Close
close_of f = elim f.kind [
  | fd_pipe ↦ close_pipe f.pipe f.writable
  | fd_inode ↦ put_inode f.ip
  | fd_none ↦ nothing
]

-- `none` is the panic.
pub fileclose : ℕ → List File → Option (List File × Close)
fileclose i fs =
    let f = at fs i in
    if less_than_1 f.ref
    then none
    else if not (less_than_1 (f.ref - 1))
    then some (set fs i (record f { ref = f.ref - 1 }), still_open)
    else some (set fs i (record f { ref = 0; kind = fd_none }), close_of f)
