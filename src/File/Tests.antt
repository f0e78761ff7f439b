-- ===== src/File/Tests.antt =====
-- A file structure that is allocated, duplicated and closed.
use course_work_sem.Base.{◌≡◌, refl, some, List, replicate, set}
use course_work_sem.File.{File, closed, nfile, fileclose, still_open}

abbrev one_open : List File
one_open = set (replicate nfile closed) 0 (record closed { ref = 1 })

abbrev two_refs : List File
two_refs = set one_open 0 (record closed { ref = 2 })

stays_open : fileclose 0 two_refs ≡ some (one_open, still_open)
unfolding fileclose
stays_open = refl
