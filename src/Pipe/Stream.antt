-- ===== src/Pipe/Stream.antt =====
-- One writer and one reader of a pipe, in any order of calls and sleeps: the bytes come out as they
-- went in.
use course_work_sem.Base.{
  ℕ, zero, suc, ◌-◌, ◌≤◌, ◌≡◌, ◌≢◌, refl, ap, ◌∙◌, Bool, true, false, ◌&&◌, List, [], ◌∷◌, ◌++◌,
  arith, length, take, drop, ◌==◌, append-nil, append_assoc, Bool-cases, inl, inr,
}
use course_work_sem.Pipe.{
  Pipe, pipesize, fresh, pipewrite, WriteResult, wrote, write_failed, write_sleeps, piperead,
  ReadResult, read, read_failed, read_sleeps, pipeclose,
}
use course_work_sem.Pipe.Inv.{count, IsValid, fresh-IsValid, pipewrite-IsValid, piperead-IsValid}
use course_work_sem.Pipe.Window.{contents}
use course_work_sem.Pipe.Write.{Written, pipewrite_lem}
use course_work_sem.Pipe.Read.{WasRead, piperead_lem}

-- `pending` is what the call of `write` that is under way has left, `sent` all that was handed to
-- such calls, `received` all that calls of `read` returned. After a -1 the writer has stopped.
pub record System : Type 0 where
  pub pipe : Pipe
  pub pending : List ℕ
  pub stopped : Bool
  pub sent : List ℕ
  pub received : List ℕ

abbrev pub init : List ℕ → System
init page = record { pipe = fresh page; pending = []; stopped = false; sent = []; received = [] }

abbrev pub after_write : System → WriteResult × Pipe → System
after_write s (wrote, p) = record s { pipe = p; pending = [] }
after_write s (write_failed, p) = record s { pipe = p; pending = []; stopped = true }
after_write s (write_sleeps rest, p) = record s { pipe = p; pending = rest }

abbrev pub after_read : System → ReadResult × Pipe → System
after_read s (read bytes, p) = record s { pipe = p; received = s.received ++ bytes }
after_read s (read_failed, p) = record s { pipe = p }
after_read s (read_sleeps, p) = record s { pipe = p }

-- A call begins, or goes on after a sleep, whenever the scheduler lets it; `killed` may change at
-- any time, and either end may be closed.
pub data Step (s : System) : System → Type 0 where
  hand_over :
      (src : List ℕ)
      → s.stopped ≡ false
      → s.pending ≡ []
      → Step s (record s { pending = src; sent = s.sent ++ src })
  write :
      (killed : Bool)
      → s.stopped ≡ false
      → Step s (after_write s (pipewrite killed s.pipe s.pending))
  receive : (killed : Bool) (n : ℕ) → Step s (after_read s (piperead killed s.pipe n))
  close : (writable : Bool) → Step s (record s { pipe = (pipeclose s.pipe writable).0 })

pub data Reach (page : List ℕ) : System → Type 0 where
  start : Reach page (init page)
  next : {s t : System} → Reach page s → Step s t → Reach page t

-- `rest` is what of `sent` is neither in the pipe nor received
pub record InOrder (s : System) : Type 0 where
  pub valid : IsValid s.pipe
  pub rest : List ℕ
  pub split : s.sent ≡ s.received ++ (contents s.pipe ++ rest)
  pub rest_pending : s.stopped ≡ false → rest ≡ s.pending

take-append-drop : (n : ℕ) (xs : List ℕ) → take n xs ++ drop n xs ≡ xs
take-append-drop zero xs = refl
take-append-drop (suc n) [] = refl
take-append-drop (suc n) (x ∷ xs) = ap (◌∷◌ x) (take-append-drop n xs)

take-all : (n : ℕ) (xs : List ℕ) → length xs ≤ n → take n xs ≡ xs
take-all zero [] h = refl
take-all zero (x ∷ xs) h = absurd (omega arith)
take-all (suc n) [] h = refl
take-all (suc n) (x ∷ xs) h = ap (◌∷◌ x) (take-all n xs (omega arith))

pipeclose-same :
    (p : Pipe) (w : Bool)
    → (contents (pipeclose p w).0 ≡ contents p) × (IsValid p → IsValid (pipeclose p w).0)
unfolding pipeclose
pipeclose-same p true = (refl, λ v. ground arith)
pipeclose-same p false = (refl, λ v. ground arith)

drop-all : (n : ℕ) (xs : List ℕ) → length xs ≤ n → drop n xs ≡ []
drop-all zero [] h = refl
drop-all zero (x ∷ xs) h = absurd (omega arith)
drop-all (suc n) [] h = refl
drop-all (suc n) (x ∷ xs) h = drop-all n xs (omega arith)

-- the bytes of `pending` that a call of `pipewrite` leaves
abbrev left_over : System → List ℕ
left_over s = drop (pipesize - count s.pipe) s.pending

left_over-split :
    (killed : Bool) {s : System} {out : WriteResult × Pipe}
    → s.stopped ≡ false
    → InOrder s
    → Written killed s.pipe s.pending (pipesize - count s.pipe) out
    → s.sent ≡ s.received ++ (contents out.1 ++ left_over s)
left_over-split killed {s} go o w =
    o.split
    ∙ rw (
      o.rest_pending go,
      w.holds,
      append_assoc,
      take-append-drop (pipesize - count s.pipe) s.pending,
    )

wrote-left_over :
    (killed : Bool) (s : System) {p : Pipe}
    → Written killed s.pipe s.pending (pipesize - count s.pipe) (wrote, p)
    → left_over s ≡ []
wrote-left_over killed s w = drop-all (pipesize - count s.pipe) s.pending (ground (arith, w.result))

sleeps-left_over :
    (killed : Bool) (s : System) {p : Pipe} {rest : List ℕ}
    → Written killed s.pipe s.pending (pipesize - count s.pipe) (write_sleeps rest, p)
    → rest ≡ left_over s
sleeps-left_over killed s w = ground (arith, w.result)

write-InOrder :
    (killed : Bool) {s : System}
    → s.stopped ≡ false
    → InOrder s
    → (out : WriteResult × Pipe) → IsValid out.1
    → Written killed s.pipe s.pending (pipesize - count s.pipe) out
    → InOrder (after_write s out)
write-InOrder killed {s} go o (wrote, p) v w = record {
  valid = v;
  rest = [];
  split = rw (← wrote-left_over killed s w) (left_over-split killed go o w);
  rest_pending = λ e. refl;
}
write-InOrder killed {s} go o (write_failed, p) v w = record {
  valid = v;
  rest = left_over s;
  split = left_over-split killed go o w;
  rest_pending = λ e. cc;
}
write-InOrder killed {s} go o (write_sleeps rest, p) v w = record {
  valid = v;
  rest = rest;
  split = rw (sleeps-left_over killed s w) (left_over-split killed go o w);
  rest_pending = λ e. refl;
}

received-split :
    (killed : Bool) (n : ℕ) {s : System} {p : Pipe} {bytes : List ℕ}
    → (o : InOrder s) → WasRead killed s.pipe n (read bytes, p)
    → s.sent ≡ (s.received ++ bytes) ++ (contents p ++ o.rest)
received-split killed n {s} {p} {bytes} o w =
    elim (Bool-cases ((count s.pipe == 0) && s.pipe.writeopen)) [
      | inl wait ↦ absurd (ground (arith, w.result))
      | inr go ↦
          let got : bytes ≡ take n (contents s.pipe) = ground (arith, w.result) in
          let left : contents p ≡ drop n (contents s.pipe) = rw go at w.left in
          o.split
          ∙ rw (
            got,
            left,
            append_assoc s.received (take n (contents s.pipe)),
            ← append_assoc (take n (contents s.pipe)) (drop n (contents s.pipe)) o.rest,
            take-append-drop n (contents s.pipe),
          )
    ]

-- a call that does not return leaves the contents alone
not_read :
    (killed : Bool) (n : ℕ) (s : System) {p : Pipe} {r : ReadResult}
    → WasRead killed s.pipe n (r, p)
    → ((bytes : List ℕ) → r ≢ read bytes)
    → contents p ≡ contents s.pipe
not_read killed n s w h = elim (Bool-cases ((count s.pipe == 0) && s.pipe.writeopen)) [
  | inl wait ↦ rw wait at w.left
  | inr go ↦ absurd (h (take n (contents s.pipe)) (rw go at w.result))
]

receive-InOrder :
    (killed : Bool) (n : ℕ) {s : System}
    → InOrder s
    → (out : ReadResult × Pipe) → IsValid out.1
    → WasRead killed s.pipe n out
    → InOrder (after_read s out)
receive-InOrder killed n {s} o (read bytes, p) v w = record {
  valid = v;
  rest = o.rest;
  split = received-split killed n o w;
  rest_pending = o.rest_pending;
}
receive-InOrder killed n {s} o (read_failed, p) v w = record {
  valid = v;
  rest = o.rest;
  split = rw (not_read killed n s w (λ b e. cc)) o.split;
  rest_pending = o.rest_pending;
}
receive-InOrder killed n {s} o (read_sleeps, p) v w = record {
  valid = v;
  rest = o.rest;
  split = rw (not_read killed n s w (λ b e. cc)) o.split;
  rest_pending = o.rest_pending;
}

Step-InOrder : {s t : System} → Step s t → InOrder s → InOrder t
Step-InOrder {s} (hand_over src go idle) o = record {
  valid = o.valid;
  rest = src;
  split = rw (o.split, o.rest_pending go, idle, append-nil, append_assoc);
  rest_pending = λ e. refl;
}
Step-InOrder {s} (write killed go) o =
    write-InOrder killed go o (pipewrite killed s.pipe s.pending)
      (pipewrite-IsValid killed s.pending o.valid) (pipewrite_lem s.pending killed o.valid)
Step-InOrder {s} (receive killed n) o =
    receive-InOrder killed n o (piperead killed s.pipe n) (piperead-IsValid killed n o.valid)
      (piperead_lem killed n o.valid)
Step-InOrder {s} (close w) o = record {
  valid = (pipeclose-same s.pipe w).1 o.valid;
  rest = o.rest;
  split = rw ((pipeclose-same s.pipe w).0) o.split;
  rest_pending = o.rest_pending;
}

-- In every state that a writer and a reader can reach, by any order of calls, sleeps and closes,
-- what was handed to `write` is what `read` has returned, then what the pipe holds, then a rest;
-- unless a call of `write` has returned -1, that rest is what the call under way has left.
pub Reach-InOrder : {page : List ℕ} {s : System} → length page ≡ pipesize → Reach page s → InOrder s
Reach-InOrder {page} h start = record {
  valid = fresh-IsValid page h;
  rest = [];
  split = refl;
  rest_pending = λ e. refl;
}
Reach-InOrder h (next r st) = Step-InOrder st (Reach-InOrder h r)
