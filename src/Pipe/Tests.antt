-- ===== src/Pipe/Tests.antt =====
-- Runs of a pipe, and the theorems about it at pipes near the wrap of their counters.
use course_work_sem.Base.{ℕ, ◌-◌, ◌^◌, ◌≡◌, refl, true, false, arith, List, [], ◌∷◌, replicate}
use course_work_sem.Pipe.{
  Pipe, fresh, pipewrite, write_sleeps, piperead, read, read_sleeps, pipeclose, is_full,
}
use course_work_sem.Pipe.Inv.{IsValid, is_full_iff}
use course_work_sem.Pipe.Write.{Written, pipewrite_lem}
use course_work_sem.Pipe.Read.{WasRead, piperead_lem}
use course_work_sem.Pipe.Stream.{
  System, init, after_write, after_read, start, next, hand_over, write, receive, InOrder,
  Reach-InOrder,
}

abbrev page : List ℕ
page = replicate 512 0

-- 510 bytes, with the write counter past its wrap
abbrev wrapped : Pipe
wrapped = record (fresh page) { nread = 2 ^ 32 - 500; nwrite = 10 }

wrapped-IsValid : IsValid wrapped
wrapped-IsValid = record {
  storage = refl;
  nread_word = omega arith;
  nwrite_word = omega arith;
  bounded = omega arith;
}

-- two bytes fit, the third waits
writer_sleeps : (pipewrite false wrapped (1 ∷ 2 ∷ 3 ∷ [])).0 ≡ write_sleeps (3 ∷ [])
unfolding pipewrite
writer_sleeps = refl

reader_takes :
    (piperead false (pipewrite false (fresh page) (7 ∷ 8 ∷ [])).1 5).0 ≡ read (7 ∷ 8 ∷ [])
unfolding pipewrite piperead
reader_takes = refl

reader_sleeps : (piperead false (fresh page) 5).0 ≡ read_sleeps
unfolding piperead
reader_sleeps = refl

end_of_file : (piperead false (pipeclose (fresh page) true).0 5).0 ≡ read []
unfolding piperead pipeclose
end_of_file = refl

is_full_iff_example : is_full wrapped ≡ false
is_full_iff_example = is_full_iff wrapped-IsValid

pipewrite_lem_example :
    Written false wrapped (1 ∷ 2 ∷ 3 ∷ []) 2 (pipewrite false wrapped (1 ∷ 2 ∷ 3 ∷ []))
pipewrite_lem_example = pipewrite_lem (1 ∷ 2 ∷ 3 ∷ []) false wrapped-IsValid

piperead_lem_example : WasRead false wrapped 4 (piperead false wrapped 4)
piperead_lem_example = piperead_lem false 4 wrapped-IsValid

abbrev handed : System
handed = record (init page) { pending = 1 ∷ 2 ∷ []; sent = 1 ∷ 2 ∷ [] }

abbrev written : System
written = after_write handed (pipewrite false handed.pipe handed.pending)

abbrev got_one : System
got_one = after_read written (piperead false written.pipe 1)

Reach-InOrder_example : InOrder got_one
Reach-InOrder_example = Reach-InOrder refl (
    next (next (next start (hand_over (1 ∷ 2 ∷ []) refl refl)) (write false refl))
      (receive false 1))
