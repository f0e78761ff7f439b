-- ===== src/Dir/Tests.antt =====
-- A directory of one entry, for the inode 256, in block 5 of the disk of Disk/Sample.antt.
use course_work_sem.Base.{
  ℕ, zero, suc, ◌≡◌, refl, List, [], ◌∷◌, Bool, true, false, arith, ◌==◌, if◌then◌else◌,
}
use course_work_sem.Disk.Sample.{sample}
use course_work_sem.Inode.Slots.{file_byte, slot}
use course_work_sem.Inode.Sample.{file, file-IsFile}
use course_work_sem.Icache.{Cache, Run, ret, sleeps, panics}
use course_work_sem.Dir.{
  dirlookup, dirlink, find_name, find_empty, read_dirent, write_dirent, is_match, de_inum, strncmp,
  dirent,
}
use course_work_sem.Dir.{walk}
use course_work_sem.Dir.Walk.{walk_ends}
use course_work_sem.Dir.Link.{IsPlace}
use course_work_sem.Dir.Insert.{end_of, Linked, LinkOutcome, dirlink_lem}
use course_work_sem.Dir.Agree.{FoundLink, dirlookup-dirlink}
use course_work_sem.Inode.{readi, read_blocks, bmap, addr_or_alloc, writei, write_blocks, grow_size}
use course_work_sem.Dir.Lookup.{last, IsDir, NoMatch}

-- slot 2 is the directory, and no other is in use
abbrev cache : Cache
cache = record {
  inode = λ k. if k == 2 then file 1 16 else record (file 0 0) { ref = 0 };
  fs = sample 63;
}

no_device : ℕ → Bool
no_device major = false

abbrev name : List ℕ
name = 2 ∷ 3 ∷ 4 ∷ 5 ∷ 6 ∷ 7 ∷ 8 ∷ 9 ∷ 10 ∷ 11 ∷ 12 ∷ 13 ∷ 14 ∷ 15 ∷ []

sample-IsDir : IsDir (file_byte (file 1 16) (sample 63)) 16 (file 1 16) (sample 63)
sample-IsDir = record { file = file-IsFile 1 16; bytes = λ i h. refl; size_is = refl; typed = refl }

abbrev new_name : List ℕ
new_name = 97 ∷ 98 ∷ []

no_new_name : NoMatch (file_byte (file 1 16) (sample 63)) new_name 0 16
unfolding is_match de_inum strncmp slot file_byte
no_new_name zero low high at = refl
no_new_name (suc e) low high at = absurd (omega arith)

dirlink_lem_example :
    LinkOutcome no_device
      (file_byte (file 1 16) (sample 63))
      16
      2
      (omega arith)
      new_name
      6
      cache
      (dirlink no_device 2 new_name 6 cache)
dirlink_lem_example =
    dirlink_lem no_device (file_byte (file 1 16) (sample 63)) 16 2 (omega arith) new_name 6 refl
      cache sample-IsDir (omega arith) no_new_name

abbrev after : Run (Bool × Cache) → Cache
after (ret (b, c)) = c
after sleeps = cache
after panics = cache

abbrev left : Cache
left = after (dirlink no_device 2 new_name 6 cache)

link_done : dirlink no_device 2 new_name 6 cache ≡ ret (true, left)
unfolding dirlink dirlookup find_name find_empty read_dirent write_dirent is_match de_inum strncmp
    readi read_blocks bmap addr_or_alloc writei write_blocks grow_size
link_done = refl

dirlookup-dirlink_example :
    (o : ℕ) × IsPlace no_device (file_byte (file 1 16) (sample 63)) 16 2 (omega arith) o
    × Linked no_device
        (file_byte (file 1 16) (sample 63))
        16
        2
        (omega arith)
        (dirent new_name 6)
        o
        cache
        left
    × FoundLink
        (last (end_of no_device (file_byte (file 1 16) (sample 63)) 16 2 (omega arith) o))
        2
        6
        o
        left
        (dirlookup no_device 2 new_name left)
dirlookup-dirlink_example =
    dirlookup-dirlink no_device (file_byte (file 1 16) (sample 63)) 16 2 (omega arith) new_name 6
      cache left refl sample-IsDir (omega arith) no_new_name
      (λ e. omega arith, (λ e. omega arith, tt)) (omega arith) (omega arith) link_done

-- the path "a/b"
walk_ends_example :
    walk no_device 4 true (97 ∷ 47 ∷ 98 ∷ []) ≡ walk no_device 9 true (97 ∷ 47 ∷ 98 ∷ [])
walk_ends_example = walk_ends no_device 4 9 true (97 ∷ 47 ∷ 98 ∷ []) (omega arith) (omega arith)
