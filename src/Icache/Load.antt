-- ===== src/Icache/Load.antt =====
-- `ilock` after `iupdate` of fs.c: the inode that was stored is read back.
use course_work_sem.Base.{
  ℕ, ◌+◌, ◌*◌, ◌≡◌, ◌≢◌, inl, inr, refl, ap, ◌∙◌, true, false, ltb, ◌==◌, if◌then◌else◌, arith,
  Bool-cases, update, update_same, fun_ext, Bytes,
}
use course_work_sem.Disk.{Fs, word_at}
use course_work_sem.Inode.{Inode, iupdate, put_dinode, dinode_at, iblock}
use course_work_sem.Inode.Dinode.{
  IsDinode, itype_back, major_back, minor_back, nlink_back, size_back, addrs_back,
}
use course_work_sem.Icache.{Cache, ret, is_pos, set_inode, get_dinode, loaded, load, ilock}

-- The fields that are on disk, from `ip`, and the others from the slot's inode.
abbrev pub refreshed : Inode → Inode → Inode
refreshed ip old = record old {
  busy = true;
  valid = true;
  itype = ip.itype;
  major = ip.major;
  minor = ip.minor;
  nlink = ip.nlink;
  size = ip.size;
  addrs = λ i. if ltb i 13 then ip.addrs i else old.addrs i;
}

abbrev set_valid : Inode → Inode
set_valid ip = record ip { valid = true }

abbrev set_busy : Inode → Inode
set_busy ip = record ip { busy = true }

addrs_read :
    (ip old : Inode) (d : ℕ) (p : Bytes)
    → IsDinode ip
    → (i : ℕ)
    → (if ltb i 13 then word_at (put_dinode ip d p) (d + 12 + 4 * i) else old.addrs i)
      ≡ (if ltb i 13 then ip.addrs i else old.addrs i)
addrs_read ip old d p ok i = elim (Bool-cases (ltb i 13)) [
  | inl low ↦ rw (low, addrs_back ip d p ok i (ground (arith, low))) refl
  | inr high ↦ rw high refl
]

read_back :
    (ip old : Inode) (d : ℕ) (p : Bytes)
    → IsDinode ip
    → set_valid (get_dinode (put_dinode ip d p) d (set_busy old)) ≡ refreshed ip old
unfolding get_dinode
read_back ip old d p ok =
    let words : (λ (i : ℕ).
      if ltb i 13 then word_at (put_dinode ip d p) (d + 12 + 4 * i) else old.addrs i)
        ≡ (λ (i : ℕ). if ltb i 13 then ip.addrs i else old.addrs i) =
      fun_ext (λ i. addrs_read ip old d p ok i) in
    rw
      (
        words,
        itype_back ip d p ok,
        major_back ip d p ok,
        minor_back ip d p ok,
        nlink_back ip d p ok,
        size_back ip d p ok,
      )
      refl

iupdate_block :
    (ip : Inode) (fs : Fs) (i : ℕ)
    → i ≡ ip.inum
    → (iupdate ip fs).disk (iblock i (iupdate ip fs).sb)
      ≡ put_dinode ip (dinode_at i) (fs.disk (iblock i fs.sb))
unfolding iupdate
iupdate_block ip fs i e = rw e (
    update_same fs.disk (iblock ip.inum fs.sb)
      (put_dinode ip (dinode_at ip.inum) (fs.disk (iblock ip.inum fs.sb))))

-- what `ilock` makes of the inode that `iupdate` stored
loaded_stored :
    (ip old : Inode) (k : ℕ) (c : Cache)
    → IsDinode ip
    → old.inum ≡ ip.inum
    → loaded
        (record c { inode = update c.inode k (set_busy old); fs = iupdate ip c.fs })
        (set_busy old)
      ≡ refreshed ip old
unfolding loaded
loaded_stored ip old k c ok same =
    ap (λ (p : Bytes). set_valid (get_dinode p (dinode_at old.inum) (set_busy old)))
      (iupdate_block ip c.fs old.inum same)
    ∙ read_back ip old (dinode_at old.inum) (c.fs.disk (iblock old.inum c.fs.sb)) ok

load_eq :
    (k : ℕ) (c : Cache) (ip ip' : Inode)
    → c.inode k ≡ ip
    → ip.valid ≡ false
    → loaded c ip ≡ ip'
    → ip'.itype ≢ 0
    → load k c ≡ ret (tt, set_inode k ip' c)
unfolding load
load_eq k c ip ip' at invalid e typed =
    let found : (ip'.itype == 0) ≡ false = ground (arith, typed) in rw (at, e, invalid, found) refl

ilock_free :
    (k : ℕ) (c : Cache)
    → is_pos (c.inode k).ref ≡ true
    → (c.inode k).busy ≡ false
    → ilock k c ≡ load k (set_inode k (set_busy (c.inode k)) c)
unfolding ilock
ilock_free k c used unlocked = rw (used, unlocked) refl

set_twice :
    (k : ℕ) (ip ip' : Inode) (c : Cache) → set_inode k ip' (set_inode k ip c) ≡ set_inode k ip' c
set_twice k ip ip' c = ap (λ (t : ℕ → Inode). record c { inode = t }) (fun_ext (λ i. ground arith))

-- `ilock` of a slot in use that is not locked and not valid, after `iupdate` of the same inode, stored
-- from wherever it was: it locks the slot and sets it to the type, the device numbers, the count of links,
-- the size and the pointers that were stored.
pub ilock-iupdate :
    (ip : Inode) (k : ℕ) (c : Cache)
    → IsDinode ip
    → ip.itype ≢ 0
    → (c.inode k).inum ≡ ip.inum
    → is_pos (c.inode k).ref ≡ true
    → (c.inode k).busy ≡ false
    → (c.inode k).valid ≡ false
    → ilock k (record c { fs = iupdate ip c.fs })
      ≡ ret (tt, set_inode k (refreshed ip (c.inode k)) (record c { fs = iupdate ip c.fs }))
ilock-iupdate ip k c ok typed same used unlocked invalid =
    let c' : Cache = record c { fs = iupdate ip c.fs } in
    let old = set_busy (c.inode k) in
    let e : loaded (set_inode k old c') old ≡ refreshed ip (c.inode k) =
      loaded_stored ip (c.inode k) k c ok same in
    ilock_free k c' used unlocked
    ∙ load_eq k (set_inode k old c') old (refreshed ip (c.inode k)) (update_same c.inode k old)
        invalid e typed
    ∙ ap (λ (x : Cache). ret (tt, x)) (set_twice k old (refreshed ip (c.inode k)) c')
