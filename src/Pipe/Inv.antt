-- ===== src/Pipe/Inv.antt =====
-- The invariant of `struct pipe`: at most PIPESIZE bytes lie between the wrapping counters.
use course_work_sem.Base.{
  ℕ, zero, suc, ◌+◌, ◌-◌, ◌%◌, ◌^◌, ◌<◌, ◌≤◌, ◌≡◌, ◌≢◌, Bool, List, [], ◌∷◌, arith, length,
  length-set, ◌==◌, Bool-cases, inl, inr,
}
use course_work_sem.Pipe.{
  Pipe, pipesize, is_full, is_empty, put, advance, pipewrite, read_loop, piperead, fresh,
}

-- `p->nwrite - p->nread`, on `uint`
abbrev pub count : Pipe → ℕ
count p = (p.nwrite + 2 ^ 32 - p.nread) % 2 ^ 32

pub record IsValid (p : Pipe) : Type 0 where
  pub storage : length p.buf ≡ pipesize
  pub nread_word : p.nread < 2 ^ 32
  pub nwrite_word : p.nwrite < 2 ^ 32
  pub bounded : count p ≤ pipesize

-- The test of `pipewrite` says that the pipe holds PIPESIZE bytes, also where a counter has wrapped.
pub is_full_iff : {p : Pipe} → IsValid p → (is_full p ≡ (count p == pipesize))
is_full_iff v = ground arith

pub is_empty_iff : {p : Pipe} → IsValid p → (is_empty p ≡ (count p == 0))
is_empty_iff v = ground arith

pub fresh-IsValid : (page : List ℕ) → length page ≡ pipesize → IsValid (fresh page)
fresh-IsValid page h = ground arith

pub put-IsValid : {p : Pipe} (x : ℕ) → IsValid p → count p ≢ pipesize → IsValid (put p x)
unfolding put
put-IsValid {p} x v h = ground (arith, length-set p.buf (p.nwrite % pipesize) x)

pub advance-IsValid : {p : Pipe} → IsValid p → count p ≢ 0 → IsValid (advance p)
unfolding advance
advance-IsValid {p} v h = ground arith

-- After `put` and `advance` the count is one more, or one less.
pub count-put : {p : Pipe} (x : ℕ) → IsValid p → count p ≢ pipesize → count (put p x) ≡ count p + 1
unfolding put
count-put x v h = ground arith

pub count-advance : {p : Pipe} → IsValid p → count p ≢ 0 → count (advance p) + 1 ≡ count p
unfolding advance
count-advance v h = ground arith

pub pipewrite-IsValid :
    (killed : Bool) (src : List ℕ) {p : Pipe} → IsValid p → IsValid (pipewrite killed p src).1
unfolding pipewrite
pipewrite-IsValid killed [] v = ground arith
pipewrite-IsValid killed (x ∷ xs) {p} v = elim (Bool-cases (is_full p)) [
  | inl full ↦ ground arith
  | inr room ↦
      rw room (pipewrite-IsValid killed xs (put-IsValid x v (ground (arith, is_full_iff v))))
]

read_loop-IsValid : (n : ℕ) {p : Pipe} → IsValid p → IsValid (read_loop n p).1
unfolding read_loop
read_loop-IsValid zero v = v
read_loop-IsValid (suc n) {p} v = elim (Bool-cases (is_empty p)) [
  | inl none_left ↦ rw none_left v
  | inr some_left ↦
      rw some_left (read_loop-IsValid n (advance-IsValid v (ground (arith, is_empty_iff v))))
]

pub piperead-IsValid :
    (killed : Bool) (n : ℕ) {p : Pipe} → IsValid p → IsValid (piperead killed p n).1
unfolding piperead
piperead-IsValid killed n {p} v = ground (arith, read_loop-IsValid n v)
