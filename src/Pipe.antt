-- ===== src/Pipe.antt =====
-- COL331/HW1/xv6/pipe.c: pipeclose, pipewrite and piperead. The pipe's lock is held from the start
-- of each call to its end or to a `sleep`, so what runs in between is one step. A call that sleeps
-- returns the state it sleeps in and what it has left to do: it is called again with that when it
-- is woken.
pub mod Inv
pub mod Window
pub mod Write
pub mod Read
pub mod Stream
mod Tests
use course_work_sem.Base.{
  ℕ, zero, suc, ◌+◌, ◌%◌, ◌^◌, Bool, true, false, not, ◌&&◌, ◌||◌, List, [], ◌∷◌, get_or, set, ◌==◌,
  if◌then◌else◌,
}

abbrev pub pipesize : ℕ
pipesize = 512

-- the addresses on which a process sleeps: `&p->nread` and `&p->nwrite`
pub data Chan : Type 0 where
  nread_chan nwrite_chan : Chan

-- `struct pipe`; `woken` lists the calls of `wakeup`, newest first.
pub record Pipe : Type 0 where
  pub buf : List ℕ
  pub nread : ℕ
  pub nwrite : ℕ
  pub readopen : Bool
  pub writeopen : Bool
  pub woken : List Chan

abbrev pub wakeup : Chan → Pipe → Pipe
wakeup c p = record p { woken = c ∷ p.woken }

-- `p->nwrite == p->nread + PIPESIZE`, on `uint`
abbrev pub is_full : Pipe → Bool
is_full p = p.nwrite == (p.nread + pipesize) % 2 ^ 32

-- `p->nread == p->nwrite`
abbrev pub is_empty : Pipe → Bool
is_empty p = p.nread == p.nwrite

-- what `pipealloc` puts into the page that it gets
abbrev pub fresh : List ℕ → Pipe
fresh page = record {
  buf = page;
  nread = 0;
  nwrite = 0;
  readopen = true;
  writeopen = true;
  woken = [];
}

-- The Boolean says that the pipe's page goes back to `kfree`.
pub pipeclose : Pipe → Bool → Pipe × Bool
pipeclose p writable =
    let p' =
      if writable
      then wakeup nread_chan (record p { writeopen = false })
      else wakeup nwrite_chan (record p { readopen = false }) in
    (p', not p'.readopen && not p'.writeopen)

pub data WriteResult : Type 0 where
  wrote : WriteResult  -- returns n
  write_failed : WriteResult  -- returns -1
  write_sleeps : (rest : List ℕ) → WriteResult  -- sleeps on nwrite with `rest` still to write

-- `p->data[p->nwrite++ % PIPESIZE] = x`
pub put : Pipe → ℕ → Pipe
put p x = record p { buf = set p.buf (p.nwrite % pipesize) x; nwrite = (p.nwrite + 1) % 2 ^ 32 }

-- The list is `addr[i..n)`, and `killed` is `proc->killed`. Called anew after a sleep, the loop
-- goes on with the bytes that are left.
pub pipewrite : Bool → Pipe → List ℕ → WriteResult × Pipe
unfolding put
pipewrite killed p [] = (wrote, wakeup nread_chan p)
pipewrite killed p (x ∷ xs) =
    let rest = pipewrite killed (put p x) xs in
    if is_full p
    then (if not p.readopen || killed
        then (write_failed, p)
        else (write_sleeps (x ∷ xs), wakeup nread_chan p))
    else rest

pub data ReadResult : Type 0 where
  read : (bytes : List ℕ) → ReadResult  -- returns their number
  read_failed : ReadResult  -- returns -1
  read_sleeps : ReadResult  -- sleeps on nread

-- `p->nread++`
pub advance : Pipe → Pipe
advance p = record p { nread = (p.nread + 1) % 2 ^ 32 }

pub read_loop : ℕ → Pipe → List ℕ × Pipe
unfolding advance
read_loop zero p = ([], p)
read_loop (suc n) p =
    let (bytes, p') = read_loop n (advance p) in
    if is_empty p then ([], p) else (get_or p.buf (p.nread % pipesize) 0 ∷ bytes, p')

pub piperead : Bool → Pipe → ℕ → ReadResult × Pipe
unfolding read_loop
piperead killed p n =
    if is_empty p && p.writeopen
    then (if killed then (read_failed, p) else (read_sleeps, p))
    else let (bytes, p') = read_loop n p in (read bytes, wakeup nwrite_chan p')
