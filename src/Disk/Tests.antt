-- ===== src/Disk/Tests.antt =====
-- The allocator on the disk of Disk/Sample.antt.
use course_work_sem.Base.{◌≡◌, refl, none}
use course_work_sem.Disk.{balloc, bfree, bfree_bit, readsb, word_at, bit}
use course_work_sem.Disk.Alloc.{AllocOutcome, balloc_lem}
use course_work_sem.Disk.Sample.{sample, sample-IsVolume}

balloc_lem_example : AllocOutcome (sample 63) (balloc (sample 63))
balloc_lem_example = balloc_lem (sample 63) sample-IsVolume

free_twice : bfree 6 (sample 63) ≡ none
unfolding bfree bfree_bit readsb word_at bit
free_twice = refl
