-- ===== src/Pipe/Write.antt =====
-- pipewrite: which bytes go into the pipe, what is returned, and whom it wakes.
use course_work_sem.Base.{
  ℕ, zero, suc, ◌+◌, ◌-◌, ◌≡◌, ◌≢◌, refl, ◌∙◌, Bool, true, false, not, ◌||◌, ◌&&◌, List, [], ◌∷◌,
  ◌++◌, arith, length, take, drop, take-nil, leb, ltb, if◌then◌else◌, append-nil, append_assoc,
  Bool-cases, inl, inr,
}
use course_work_sem.Pipe.{
  Pipe, pipesize, is_full, put, pipewrite, WriteResult, wrote, write_failed, write_sleeps,
  nread_chan,
}
use course_work_sem.Pipe.Inv.{count, IsValid, is_full_iff, put-IsValid, count-put}
use course_work_sem.Pipe.Window.{contents, contents-put}

-- The outcome of a call that may still put `room` bytes into the pipe.
pub record Written (killed : Bool) (p : Pipe) (src : List ℕ) (room : ℕ) (out : WriteResult × Pipe)
    : Type 0 where
  pub result : out.0 ≡ (
      if leb (length src) room
      then wrote
      else (if not p.readopen || killed then write_failed else write_sleeps (drop room src)))
  pub holds : contents out.1 ≡ contents p ++ take room src
  pub ends : (out.1.readopen ≡ p.readopen) × (out.1.writeopen ≡ p.writeopen)
  pub wakes : out.1.woken ≡ (
      if ltb room (length src) && (not p.readopen || killed) then p.woken else nread_chan ∷ p.woken)

pipewrite-Written :
    (src : List ℕ) (killed : Bool) (room : ℕ) {p : Pipe}
    → IsValid p
    → count p + room ≡ pipesize
    → Written killed p src room (pipewrite killed p src)
unfolding pipewrite put
pipewrite-Written [] killed room {p} v e = record {
  result = ground arith;
  holds = rw (take-nil, append-nil);
  ends = (refl, refl);
  wakes = ground arith;
}
pipewrite-Written (x ∷ xs) killed zero {p} v e =
    let full : is_full p ≡ true = ground (arith, is_full_iff v) in
    rw full (elim (Bool-cases (not p.readopen || killed)) [
      | inl stop ↦ rw stop (record {
        result = ground arith;
        holds = rw append-nil;
        ends = (refl, refl);
        wakes = ground arith;
      })
      | inr wait ↦ rw wait (record {
        result = ground arith;
        holds = rw append-nil;
        ends = (refl, refl);
        wakes = ground arith;
      })
    ])
pipewrite-Written (x ∷ xs) killed (suc room) {p} v e =
    let free : count p ≢ pipesize = omega arith in
    let open_ : is_full p ≡ false = ground (arith, is_full_iff v) in
    let ih =
      pipewrite-Written xs killed room (put-IsValid x v free) (omega (arith, count-put x v free)) in
    rw open_ (record {
      result = ground (arith, ih.result);
      holds = ih.holds ∙ rw (contents-put x v free, append_assoc);
      ends = ih.ends;
      wakes = ground (arith, ih.wakes);
    })

-- `pipewrite` puts into the pipe as many of the bytes as there is room for, in order and behind
-- those that are there. It returns n if that is all of them. Otherwise, if the read end is closed
-- or the process was killed, it returns -1, and if neither it sleeps with exactly the other bytes
-- left to write. It wakes the readers unless it returns -1.
pub pipewrite_lem :
    (src : List ℕ) (killed : Bool) {p : Pipe}
    → IsValid p
    → Written killed p src (pipesize - count p) (pipewrite killed p src)
pipewrite_lem src killed {p} v =
    pipewrite-Written src killed (pipesize - count p) v (omega (arith, v.bounded))
