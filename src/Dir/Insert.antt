-- ===== src/Dir/Insert.antt =====
-- `dirlink` of fs.c: the entry that it writes, and the other bytes of the directory.
use course_work_sem.Base.{
  ℕ, ◌+◌, ◌-◌, ◌/◌, ◌%◌, ◌<◌, ◌≤◌, ◌≡◌, ◌≢◌, ◌⊎◌, inl, inr, refl, ap, sym, subst, ◌∙◌, Bool, true,
  false, Option, none, some, ltb, if◌then◌else◌, arith, List, length, update_same, update_other,
  store_at, store_at_agree,
}
use course_work_sem.Disk.{Fs, bsize}
use course_work_sem.Inode.{
  Inode, writei, WriteOut, written, write_fails, write_device, write_panics,
}
use course_work_sem.Inode.Slots.{file_byte, Foreign, Frame-wide, IsFull, IsFull-trans, IsFull-wide}
use course_work_sem.Inode.Store.{WriteOutcome, Written, writei_lem}
use course_work_sem.Icache.{◌>>=◌, Cache, Run, ret, sleeps, panics, set_inode}
use course_work_sem.Dir.{dirent, dirlookup, find_empty, write_dirent, dirlink}
use course_work_sem.Dir.Lookup.{IsDir, last, Kept, Kept-trans, IsFullDisk, NoMatch, Run-cases}
use course_work_sem.Dir.Found.{LookupOutcome, dirlookup_lem}
use course_work_sem.Dir.Link.{length-dirent, IsPlace, EmptyOutcome, find_empty_lem}

module _ (is_device : ℕ → Bool) (m : ℕ → ℕ) (size k : ℕ) (small : size ≤ 71680) where
  abbrev pub end_of : ℕ → ℕ
  end_of o = if ltb size (o + 16) then o + 16 else size

  -- the directory with the bytes `de` at `o`
  pub record Linked (de : List ℕ) (o : ℕ) (c c' : Cache) : Type 0 where
    pub fits : o + 16 ≤ 71680
    pub dir : IsDir (store_at o de m) (end_of o) (c'.inode k) c'.fs
    pub slots : (i : ℕ) → i ≢ k → c'.inode i ≡ c.inode i
    pub others : (b : ℕ) → Foreign (c.inode k) c.fs b → c'.fs.disk b ≡ c.fs.disk b

  abbrev WriteDirentOutcome : List ℕ → ℕ → Cache → Run (Unit × Cache) → Type 0
  WriteDirentOutcome de o c (ret (u, c')) = Linked de o c c'
  WriteDirentOutcome de o c sleeps = ⊥
  WriteDirentOutcome de o c panics =
      IsFull (o / bsize) ((o + length de - 1) / bsize) (c.inode k) c.fs ⊎ (71680 < o + 16)

  abbrev stored : Inode → Fs → Cache → Cache
  stored ip fs c = record (set_inode k ip c) { fs = fs }

  write_dirent-written :
      (de : List ℕ) (o : ℕ) (c : Cache) (ip : Inode) (fs : Fs) (n : ℕ)
      → writei is_device (c.inode k) de o c.fs ≡ written n ip fs
      → n ≡ 16
      → write_dirent is_device k de o c ≡ ret (tt, stored ip fs c)
  unfolding write_dirent
  write_dirent-written de o c ip fs n e l = rw (write_dirent, e, l) refl

  write_dirent_fails :
      (de : List ℕ) (o : ℕ) (c : Cache)
      → writei is_device (c.inode k) de o c.fs ≡ write_fails
      → write_dirent is_device k de o c ≡ panics
  unfolding write_dirent
  write_dirent_fails de o c e = rw (write_dirent, e) refl

  write_dirent_panics :
      (de : List ℕ) (o : ℕ) (c : Cache)
      → writei is_device (c.inode k) de o c.fs ≡ write_panics
      → write_dirent is_device k de o c ≡ panics
  unfolding write_dirent
  write_dirent_panics de o c e = rw (write_dirent, e) refl

  linked :
      (de : List ℕ) (o : ℕ) (c : Cache) (ip : Inode) (fs : Fs)
      → length de ≡ 16
      → o + 16 ≤ 71680
      → o ≤ size
      → IsDir m size (c.inode k) c.fs
      → Written (c.inode k) de o c.fs ip fs
      → Linked de o c (stored ip fs c)
  linked de o c ip fs l fits low ok w =
      let dir : IsDir (store_at o de m) (end_of o) ip fs = record {
        file = w.file;
        bytes = λ i h.
            w.bytes i h ∙ store_at_agree o de (file_byte (c.inode k) c.fs) m 71680 ok.bytes i h;
        size_is = w.grown ∙ ground (arith, l, ok.size_is);
        typed = ap (λ (q : Inode). q.itype) w.kept.meta ∙ ok.typed;
      } in
      record {
        fits = fits;
        dir =
            subst (λ (q : Inode). IsDir (store_at o de m) (end_of o) q fs)
              (sym (update_same c.inode k ip)) dir;
        slots = λ i h. update_other c.inode k ip i (λ e. h (sym e));
        others = w.kept.others;
      }

  write_of :
      (de : List ℕ) (o : ℕ) (c : Cache) (out : WriteOut)
      → length de ≡ 16
      → o ≤ size
      → IsDir m size (c.inode k) c.fs
      → writei is_device (c.inode k) de o c.fs ≡ out
      → WriteOutcome is_device (c.inode k) de o c.fs out
      → WriteDirentOutcome de o c (write_dirent is_device k de o c)
  write_of de o c (written n ip fs) l low ok e (all, typed, start, fits, w) =
      rw (write_dirent-written de o c ip fs n e (all ∙ l))
        (linked de o c ip fs l (omega (arith, all, l, fits)) low ok w)
  write_of de o c write_fails l low ok e (inl (dev, missing)) =
      absurd (omega (arith, dev, ok.typed))
  write_of de o c write_fails l low ok e (inr (typed, inl past)) =
      absurd (omega (arith, past, ok.size_is))
  write_of de o c write_fails l low ok e (inr (typed, inr over)) =
      rw (write_dirent_fails de o c e) (inr (omega (arith, over, l)))
  write_of de o c (write_device major) l low ok e (dev, same, driven) =
      absurd (omega (arith, dev, ok.typed))
  write_of de o c write_panics l low ok e (typed, full) =
      rw (write_dirent_panics de o c e) (inl full)

  write_dirent_lem :
      (de : List ℕ) (o : ℕ) (c : Cache)
      → length de ≡ 16
      → o ≤ size
      → (c.inode k).inum < c.fs.sb.ninodes
      → IsDir m size (c.inode k) c.fs
      → WriteDirentOutcome de o c (write_dirent is_device k de o c)
  write_dirent_lem de o c l low known ok =
      write_of de o c (writei is_device (c.inode k) de o c.fs) l low ok refl (
        writei_lem is_device (c.inode k) de o c.fs ok.file known (omega (arith, ok.size_is))
          (omega (arith, l)))

  Linked-after :
      (de : List ℕ) (o : ℕ) (c c' c'' : Cache)
      → Kept (last size) k c c'
      → Linked de o c' c''
      → Linked de o c c''
  Linked-after de o c c' c'' kept l = record {
    fits = l.fits;
    dir = l.dir;
    slots = λ i h. l.slots i h ∙ kept.slots i h;
    others = λ b f. (let (f', same) = kept.frame.others b f in l.others b f' ∙ same);
  }

  abbrev pub LinkOutcome : List ℕ → ℕ → Cache → Run (Bool × Cache) → Type 0
  LinkOutcome name inum c (ret (true, c')) =
      (o : ℕ) × IsPlace is_device m size k small o × Linked (dirent name inum) o c c'
  LinkOutcome name inum c (ret (false, c')) = ⊥
  LinkOutcome name inum c sleeps = ⊥
  LinkOutcome name inum c panics =
      IsFullDisk (size / bsize) k c
      ⊎ (((i : ℕ) → i < 50 → (c.inode i).ref ≢ 0) ⊎ (71680 < size + 16))

  link_panics :
      (name : List ℕ) (inum : ℕ) (c : Cache)
      → dirlookup is_device k name c ≡ panics
      → dirlink is_device k name inum c ≡ panics
  unfolding dirlink
  link_panics name inum c e = rw (dirlink, e) refl

  link_search :
      (name : List ℕ) (inum : ℕ) (c c' : Cache)
      → dirlookup is_device k name c ≡ ret (none, c')
      → find_empty is_device (c'.inode k).size k 0 c' ≡ panics
      → dirlink is_device k name inum c ≡ panics
  unfolding dirlink
  link_search name inum c c' e f = rw (dirlink, e, ◌>>=◌, f) refl

  link_write :
      (name : List ℕ) (inum o : ℕ) (c c' c'' : Cache)
      → dirlookup is_device k name c ≡ ret (none, c')
      → find_empty is_device (c'.inode k).size k 0 c' ≡ ret (o, c'')
      → dirlink is_device k name inum c
        ≡ (elim (write_dirent is_device k (dirent name inum) o c'') [
          | ret (u, d) ↦ ret (true, d)
          | sleeps ↦ sleeps
          | panics ↦ panics
        ])
  unfolding dirlink
  link_write name inum o c c' c'' e f = rw (dirlink, e, ◌>>=◌, f) refl

  place_full : (o : ℕ) → IsPlace is_device m size k small o → 71680 < o + 16 → 71680 < size + 16
  place_full o (aligned, low, rest) over = omega arith

  module _ (name : List ℕ) (inum : ℕ) (whole : size % 16 ≡ 0) where
    write_full :
        (o : ℕ) (c c'' : Cache)
        → IsPlace is_device m size k small o
        → Kept (last size) k c c''
        → IsFull (o / bsize) ((o + length (dirent name inum) - 1) / bsize) (c''.inode k) c''.fs
        → IsFullDisk (size / bsize) k c
    write_full o c c'' place kept full =
        let l = length-dirent name inum in
        IsFull-trans (Frame-wide 0 (size / bsize) (omega arith) (omega arith) kept.frame) (
          IsFull-wide 0 (size / bsize) (omega arith) (omega (arith, l, place.0, place.1, whole))
            full)

    known_after :
        (c c' : Cache)
        → Kept (last size) k c c'
        → (c.inode k).inum < c.fs.sb.ninodes
        → (c'.inode k).inum < c'.fs.sb.ninodes
    known_after c c' kept known =
        let same : (c'.inode k).inum ≡ (c.inode k).inum =
          ap (λ (q : Inode). q.inum) kept.frame.meta in
        rw (kept.frame.same_sb, same) known

    write_step :
        (o : ℕ) (c c' c'' : Cache)
        → dirlookup is_device k name c ≡ ret (none, c')
        → find_empty is_device (c'.inode k).size k 0 c' ≡ ret (o, c'')
        → (c.inode k).inum < c.fs.sb.ninodes
        → Kept (last size) k c c''
        → IsDir m size (c''.inode k) c''.fs
        → IsPlace is_device m size k small o
        → LinkOutcome name inum c (dirlink is_device k name inum c)
    write_step o c c' c'' e f known kept ok place =
        let done =
          write_dirent_lem (dirent name inum) o c'' (length-dirent name inum) place.1
            (known_after c c'' kept known) ok in
        rw (link_write name inum o c c' c'' e f)
          (elim (Run-cases (write_dirent is_device k (dirent name inum) o c'')) [
            | inl w ↦ rw w (elim (subst (WriteDirentOutcome (dirent name inum) o c'') w done) [
              | inl full ↦ inl (write_full o c c'' place kept full)
              | inr over ↦ inr (inr (place_full o place over))
            ])
            | inr (inl w) ↦ absurd (subst (WriteDirentOutcome (dirent name inum) o c'') w done)
            | inr (inr (u, d, w)) ↦ rw w (
              o,
              place,
              Linked-after (dirent name inum) o c c'' d kept
                  (subst (WriteDirentOutcome (dirent name inum) o c'') w done),
            )
          ])

    search_step :
        (c c' : Cache)
        → dirlookup is_device k name c ≡ ret (none, c')
        → (c.inode k).inum < c.fs.sb.ninodes
        → Kept (last size) k c c'
        → IsDir m size (c'.inode k) c'.fs
        → LinkOutcome name inum c (dirlink is_device k name inum c)
    search_step c c' e known kept ok =
        let found =
          find_empty_lem is_device m size k small (c'.inode k).size 0 c' (omega (arith, ok.size_is))
            (omega arith) whole (omega arith) ok in
        elim (Run-cases (find_empty is_device (c'.inode k).size k 0 c')) [
          | inl f ↦ rw (link_search name inum c c' e f) (
              inl (
                IsFull-wide 0 (size / bsize) (omega arith) (omega arith) (
                  IsFull-trans kept.frame
                    (subst (EmptyOutcome is_device m size k small c') f found))))
          | inr (inl f) ↦ absurd (subst (EmptyOutcome is_device m size k small c') f found)
          | inr (inr (o, c'', f)) ↦
              let (place, ok', kept') = subst (EmptyOutcome is_device m size k small c') f found in
              write_step o c c' c'' e f known (Kept-trans (last size) k c c' c'' kept kept') ok'
                place
        ]

    none_found :
        (c : Cache) (r : Option (ℕ × ℕ)) (c' : Cache)
        → NoMatch m name 0 size
        → dirlookup is_device k name c ≡ ret (r, c')
        → LookupOutcome is_device m size k small name c (ret (r, c'))
        → (c.inode k).inum < c.fs.sb.ninodes
        → LinkOutcome name inum c (dirlink is_device k name inum c)
    none_found c none c' absent e (no_match, ok, kept) known = search_step c c' e known kept ok
    none_found c (some (o, j)) c' absent e (earlier, fits, at, here, got) known =
        let missing = absent o (omega arith) fits at in absurd cc

    -- `dirlink` of a directory whose bytes are `m`, a whole number of entries, in which no entry in use has
    -- the name. It returns 0, and the directory's bytes are then `m` with the new entry in the place of one
    -- that is not in use or at the end, which is then the new size; no other slot of the inode cache and no
    -- block of another owner changes. It never sleeps and never returns -1; it panics only if a block
    -- of the directory up to the one behind its end (or the indirect block) is missing and every block of the
    -- disk is in use, once nothing but other such blocks was allocated, if every slot of the inode cache is
    -- in use, or if the directory has no room.
    pub dirlink_lem :
        (c : Cache)
        → IsDir m size (c.inode k) c.fs
        → (c.inode k).inum < c.fs.sb.ninodes
        → NoMatch m name 0 size
        → LinkOutcome name inum c (dirlink is_device k name inum c)
    dirlink_lem c ok known absent =
        let looked = dirlookup_lem is_device m size k small name c whole ok in
        elim (Run-cases (dirlookup is_device k name c)) [
          | inl e ↦
              rw (link_panics name inum c e)
                (elim (subst (LookupOutcome is_device m size k small name c) e looked) [
                  | inl full ↦ inl (IsFull-wide 0 (size / bsize) (omega arith) (omega arith) full)
                  | inr all ↦ inr (inl all)
                ])
          | inr (inl e) ↦ absurd (subst (LookupOutcome is_device m size k small name c) e looked)
          | inr (inr (r, c', e)) ↦
              none_found c r c' absent e
                (subst (LookupOutcome is_device m size k small name c) e looked) known
        ]
