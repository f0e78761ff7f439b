-- ===== src/Pipe/Read.antt =====
-- piperead: which bytes it takes, what is returned, and whom it wakes.
use course_work_sem.Base.{
  ℕ, zero, suc, ◌≡◌, ◌≢◌, refl, ap, Bool, true, false, ◌&&◌, List, [], ◌∷◌, arith, take, drop, ◌==◌,
  if◌then◌else◌, Bool-cases, inl, inr,
}
use course_work_sem.Pipe.{
  Pipe, is_empty, advance, read_loop, piperead, ReadResult, read, read_failed, read_sleeps,
  nwrite_chan,
}
use course_work_sem.Pipe.Inv.{count, IsValid, is_empty_iff, advance-IsValid}
use course_work_sem.Pipe.Window.{contents, contents-advance, window}

record Looped (n : ℕ) (p : Pipe) (out : List ℕ × Pipe) : Type 0 where
  bytes : out.0 ≡ take n (contents p)
  left : contents out.1 ≡ drop n (contents p)
  ends : (out.1.readopen ≡ p.readopen) × (out.1.writeopen ≡ p.writeopen)
  wakes : out.1.woken ≡ p.woken

contents-nil : (p : Pipe) → count p ≡ 0 → contents p ≡ []
contents-nil p e = ap (window p.buf p.nread) e

read_loop-Looped : (n : ℕ) {p : Pipe} → IsValid p → Looped n p (read_loop n p)
unfolding read_loop advance
read_loop-Looped zero v = record { bytes = refl; left = refl; ends = (refl, refl); wakes = refl }
read_loop-Looped (suc n) {p} v = elim (Bool-cases (is_empty p)) [
  | inl end_ ↦
      let e : contents p ≡ [] = contents-nil p (ground (arith, is_empty_iff v)) in
      rw end_ (record { bytes = rw e; left = rw e; ends = (refl, refl); wakes = refl })
  | inr more ↦
      let some_ : count p ≢ 0 = ground (arith, is_empty_iff v) in
      let ih = read_loop-Looped n (advance-IsValid v some_) in
      rw more (record {
        bytes = rw (contents-advance v some_, ih.bytes);
        left = rw (contents-advance v some_, ih.left);
        ends = ih.ends;
        wakes = ih.wakes;
      })
]

-- The outcome of `piperead` for `n` bytes.
pub record WasRead (killed : Bool) (p : Pipe) (n : ℕ) (out : ReadResult × Pipe) : Type 0 where
  pub result : out.0 ≡ (
      if (count p == 0) && p.writeopen
      then (if killed then read_failed else read_sleeps)
      else read (take n (contents p)))
  pub left :
      contents out.1 ≡ (if (count p == 0) && p.writeopen then contents p else drop n (contents p))
  pub ends : (out.1.readopen ≡ p.readopen) × (out.1.writeopen ≡ p.writeopen)
  pub wakes :
      out.1.woken ≡ (if (count p == 0) && p.writeopen then p.woken else nwrite_chan ∷ p.woken)

-- On an empty pipe whose write end is open `piperead` changes nothing: it returns -1 if the process
-- was killed and sleeps if not. In every other case it returns the oldest bytes, `n` of them or all
-- there are (so none only at end of file or for n = 0), leaves the rest in order, and wakes the
-- writers.
pub piperead_lem :
    (killed : Bool) (n : ℕ) {p : Pipe} → IsValid p → WasRead killed p n (piperead killed p n)
unfolding piperead
piperead_lem killed n {p} v = elim (Bool-cases (is_empty p && p.writeopen)) [
  | inl wait ↦
      let e : ((count p == 0) && p.writeopen) ≡ true = ground (arith, is_empty_iff v) in
      rw wait (elim (Bool-cases killed) [
        | inl die ↦
            rw die (record { result = rw e; left = rw e; ends = (refl, refl); wakes = rw e })
        | inr live ↦
            rw live (record { result = rw e; left = rw e; ends = (refl, refl); wakes = rw e })
      ])
  | inr go ↦
      let e : ((count p == 0) && p.writeopen) ≡ false = ground (arith, is_empty_iff v) in
      let done = read_loop-Looped n v in
      rw go (record {
        result = rw (e, done.bytes);
        left = rw e done.left;
        ends = done.ends;
        wakes = rw (e, done.wakes);
      })
]
