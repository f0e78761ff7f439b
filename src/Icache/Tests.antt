-- ===== src/Icache/Tests.antt =====
-- A cache with one inode in use, on the disk of Disk/Sample.antt.
use course_work_sem.Base.{
  ℕ, ◌+◌, ◌^◌, ◌<◌, ◌≡◌, refl, sym, false, arith, ◌==◌, ltb, if◌then◌else◌, Bool-cases, inl, inr,
  ◌∙◌,
}
use course_work_sem.Disk.Sample.{sample}
use course_work_sem.Inode.{Inode, iupdate}
use course_work_sem.Inode.Dinode.{IsDinode}
use course_work_sem.Icache.{Cache, ret, iget, ilock, scan, set_inode}
use course_work_sem.Inode.Slots.{slot, IsFile}
use course_work_sem.Inode.Sample.{file, file-IsFile}
use course_work_sem.Icache.{iput}
use course_work_sem.Icache.{ialloc}
use course_work_sem.Icache.Alloc.{NewOutcome, ialloc_lem}
use course_work_sem.Icache.Put.{PutOutcome, iput_lem}
use course_work_sem.Icache.Get.{IsCache, GetOutcome, iget_lem}
use course_work_sem.Icache.Load.{refreshed, ilock-iupdate}

abbrev entry : ℕ → ℕ → Inode
entry inum ref = record {
  dev = 1;
  inum = inum;
  ref = ref;
  busy = false;
  valid = false;
  itype = 0;
  major = 0;
  minor = 0;
  nlink = 0;
  size = 0;
  addrs = λ i. 0;
}

-- slot 2 has two references to inode 5
abbrev cache : Cache
cache = record { inode = λ k. if k == 2 then entry 5 2 else entry 0 0; fs = sample 63 }

in_use : (k : ℕ) → 0 < (cache.inode k).ref → k ≡ 2
in_use k used = elim (Bool-cases (k == 2)) [ inl here ↦ ground arith | inr other ↦ ground arith ]

few_refs : (k : ℕ) → k < 50 → (cache.inode k).ref + 2 < 2 ^ 31
few_refs k h = elim (Bool-cases (k == 2)) [ inl here ↦ ground arith | inr other ↦ ground arith ]

cache-IsCache : IsCache cache
cache-IsCache = record {
  unique = λ i j h l used_i used_j dev inum. in_use i used_i ∙ sym (in_use j used_j);
  counts = λ i h. omega (arith, few_refs i h);
}

iget_lem_example : GetOutcome 1 7 cache (iget 1 7 cache)
iget_lem_example = iget_lem 1 7 cache cache-IsCache (λ i h. omega (arith, few_refs i h))

abbrev shared : Cache
shared = set_inode 2 (entry 5 3) cache

get_shared : iget 1 5 cache ≡ ret (2, shared)
unfolding iget scan
get_shared = refl

abbrev stored : Inode
stored = record (entry 5 1) {
  itype = 2;
  nlink = 1;
  size = 700;
  addrs = λ i. if ltb i 2 then 6 else 0;
}

stored-IsDinode : IsDinode stored
stored-IsDinode = record {
  itype_fits = omega arith;
  major_fits = omega arith;
  minor_fits = omega arith;
  nlink_fits = omega arith;
  size_fits = omega arith;
  addrs_fit = λ i. elim (Bool-cases (ltb i 2)) [ inl low ↦ ground arith | inr high ↦ ground arith ];
}

ilock-iupdate_example :
    ilock 2 (record cache { fs = iupdate stored (sample 63) })
    ≡ ret (
      tt,
      set_inode 2 (refreshed stored (entry 5 2)) (record cache { fs = iupdate stored (sample 63) }),
    )
ilock-iupdate_example =
    ilock-iupdate stored 2 cache stored-IsDinode (λ e. omega arith) refl refl refl refl

-- slot 2 has the last reference to a file without links
abbrev orphan : Inode
orphan = record (file 2 20) { nlink = 0; busy = false }

abbrev orphans : Cache
orphans = record { inode = λ k. if k == 2 then orphan else entry 0 0; fs = sample 63 }

orphan-IsFile : IsFile orphan (sample 63)
unfolding slot
orphan-IsFile =
    let ok = file-IsFile 2 20 in
    record { volume = ok.volume; owned = ok.owned; distinct = ok.distinct }

iput_lem_example : PutOutcome 2 orphans (iput 2 orphans)
iput_lem_example = iput_lem 2 orphans orphan-IsFile (omega arith) (omega arith) (omega arith)

ialloc_lem_example : NewOutcome 1 2 cache (ialloc 1 2 cache)
ialloc_lem_example =
    ialloc_lem 1 2 cache cache-IsCache (λ i h. omega (arith, few_refs i h)) (omega arith)
