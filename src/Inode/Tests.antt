-- ===== src/Inode/Tests.antt =====
-- A file of one block.
use course_work_sem.Base.{ℕ, ◌≡◌, refl, Bool, false, List, [], ◌∷◌, arith}
use course_work_sem.Base.{some}
use course_work_sem.Disk.{Fs}
use course_work_sem.Disk.Sample.{sample}
use course_work_sem.Inode.{
  Inode, bmap, readi, writei, grow_size, ReadOut, WriteOut, write_blocks, written, write_fails,
  write_device, write_panics, read, read_fails, read_device, read_panics, read_blocks,
  addr_or_alloc,
}
use course_work_sem.Inode.Slots.{slot_of}
use course_work_sem.Inode.{itrunc}
use course_work_sem.Inode.Empty.{Emptied, itrunc_lem}
use course_work_sem.Inode.Map.{MapOutcome, bmap_lem}
use course_work_sem.Inode.Fetch.{ReadBack, readi-writei}
use course_work_sem.Inode.Sample.{file, file-IsFile}

abbrev data_file : Inode
data_file = file 2 20

-- block 12 of the file is behind the indirect block, which is not there either
bmap_lem_example :
    MapOutcome 12 12 data_file (sample 63) (slot_of 12) (bmap data_file 12 (sample 63))
bmap_lem_example = bmap_lem 12 data_file (sample 63) (file-IsFile 2 20) (omega arith)

no_device : ℕ → Bool
no_device major = false

end_of_file : ReadOut → List ℕ
end_of_file (read bytes ip fs) = bytes
end_of_file read_fails = []
end_of_file (read_device major) = []
end_of_file read_panics = []

short_read : end_of_file (readi no_device data_file 15 9 (sample 63)) ≡ 15 ∷ 16 ∷ 17 ∷ 18 ∷ 19 ∷ []
unfolding readi end_of_file read_blocks bmap addr_or_alloc
short_read = refl

-- what a `writei` of these bytes leaves
abbrev after : WriteOut → Inode × Fs
after (written n ip fs) = (ip, fs)
after write_fails = (data_file, sample 63)
after (write_device major) = (data_file, sample 63)
after write_panics = (data_file, sample 63)

abbrev left : Inode × Fs
left = after (writei no_device data_file (7 ∷ 8 ∷ 9 ∷ []) 18 (sample 63))

write_done :
    writei no_device data_file (7 ∷ 8 ∷ 9 ∷ []) 18 (sample 63)
    ≡ (let (ip, fs) = left in written 3 ip fs)
unfolding writei write_blocks bmap addr_or_alloc grow_size
write_done = refl

readi-writei_example :
    (let (ip, fs) = left in ReadBack (7 ∷ 8 ∷ 9 ∷ []) 18 ip fs (readi no_device ip 18 3 fs))
readi-writei_example =
    readi-writei no_device no_device data_file (7 ∷ 8 ∷ 9 ∷ []) 18 (sample 63) 3 left.0 left.1
      (file-IsFile 2 20) (omega arith) (omega arith) (omega arith) write_done

itrunc_lem_example :
    (ip : Inode) × (fs : Fs) × (itrunc data_file (sample 63) ≡ some (ip, fs))
    × Emptied data_file (sample 63) ip fs
itrunc_lem_example = itrunc_lem data_file (sample 63) (file-IsFile 2 20) (omega arith)
