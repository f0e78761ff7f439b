-- ===== src/Inode/Empty.antt =====
-- `itrunc` of fs.c: exactly the blocks of the file are freed.
use course_work_sem.Base.{
  ℕ, zero, suc, ◌+◌, ◌-◌, ◌*◌, ◌<◌, ◌≤◌, ◌≡◌, ◌≢◌, inl, inr, refl, ap, sym, subst, ◌∙◌, true, false,
  some, ltb, ◌==◌, if◌then◌else◌, Bytes, update, update_same, update_other, arith, Bool-cases,
}
use course_work_sem.Disk.{Fs, word_at, bfree}
use course_work_sem.Disk.Search.{used}
use course_work_sem.Disk.Alloc.{IsVolume, data_start}
use course_work_sem.Inode.{
  Inode, ndirect, nindirect, free_direct, free_entries, free_indirect, itrunc, iupdate, iblock,
  dinode_at, put_dinode,
}
use course_work_sem.Inode.Slots.{nslot, slot, slot_direct, slot_entry, slot_none, IsBlock, IsFile}
use course_work_sem.Inode.Fill.{ind-IsBlock}
use course_work_sem.Inode.Freeing.{among, Dropped, Dropped-refl}
use course_work_sem.Inode.Trunc.{Cleared, free_direct_lem, free_entries_lem, drop_one, drop_zeros}
use course_work_sem.Inode.Update.{
  iblock_low, iupdate-IsFile, iupdate_disk, used-iupdate, iupdate_sb,
}

-- the slot that `itrunc` frees in step `i`: the pointers, the entries, and the indirect block
abbrev place : ℕ → ℕ
place i = if ltb i 12 then i else if ltb i 140 then i + 1 else 12

place_fits : (i : ℕ) → i < 141 → place i < 141
place_fits i h = ground arith

place_apart : (i j : ℕ) → i < 141 → j < 141 → place i ≡ place j → i ≡ j
place_apart i j h l e = ground (arith, e)

-- the step at which a slot is freed
abbrev step_of : ℕ → ℕ
step_of n = if ltb n 12 then n else if n == 12 then 140 else n - 1

place-step_of : (n : ℕ) → n < 141 → (step_of n < 141) × (place (step_of n) ≡ n)
place-step_of n h = ground arith

-- What `itrunc` makes of an inode and the file system.
pub record Emptied (ip : Inode) (fs : Fs) (ip' : Inode) (fs' : Fs) : Type 0 where
  pub file : IsFile ip' fs'
  pub meta : ip' ≡ record ip { addrs = ip'.addrs; size = 0 }
  pub cleared : (j : ℕ) → j < 13 → ip'.addrs j ≡ 0
  pub freed : (n : ℕ) → n < nslot → slot ip fs n ≢ 0 → used fs' (slot ip fs n) ≡ false
  pub kept :
      (c : ℕ) → c < fs.sb.size → ((n : ℕ) → n < nslot → slot ip fs n ≢ c) → used fs' c ≡ used fs c
  pub same_sb : fs'.sb ≡ fs.sb
  pub same_data : (c : ℕ) → data_start fs.sb ≤ c → fs'.disk c ≡ fs.disk c
  pub stored :
      fs'.disk (iblock ip.inum fs.sb)
      ≡ put_dinode ip' (dinode_at ip.inum) (fs.disk (iblock ip.inum fs.sb))
  pub inodes : (c : ℕ) → c < fs.sb.bmapstart → c ≢ iblock ip.inum fs.sb → fs'.disk c ≡ fs.disk c

-- An inode without blocks.
no_slots : (ip : Inode) (fs : Fs) → ((j : ℕ) → j < 13 → ip.addrs j ≡ 0) → (n : ℕ) → slot ip fs n ≡ 0
no_slots ip fs clear n = elim (Bool-cases (ltb n 13)) [
  | inl low ↦ slot_direct ip fs n (ground (arith, low)) ∙ clear n (ground (arith, low))
  | inr high ↦ slot_none ip fs n (ground (arith, high)) (clear 12 (omega arith))
]

cleared-IsFile :
    (ip : Inode) (fs : Fs) → IsVolume fs → ((j : ℕ) → j < 13 → ip.addrs j ≡ 0) → IsFile ip fs
cleared-IsFile ip fs ok clear = record {
  volume = ok;
  owned = λ n h full. absurd (full (no_slots ip fs clear n));
  distinct = λ n m h l full same. absurd (full (no_slots ip fs clear n));
}

itrunc_eq :
    (ip ip' ip'' : Inode) (fs fs' fs'' : Fs)
    → free_direct ndirect 0 ip fs ≡ some (ip', fs')
    → free_indirect ip' fs' ≡ some (ip'', fs'')
    → itrunc ip fs ≡ some (record ip'' { size = 0 }, iupdate (record ip'' { size = 0 }) fs'')
unfolding itrunc
itrunc_eq ip ip' ip'' fs fs' fs'' e f = rw (itrunc, e, f) refl

module _ (ip : Inode) (fs : Fs) (ok : IsFile ip fs) where
  order : ℕ → ℕ
  order i = slot ip fs (place i)

  order_blocks : (i : ℕ) → i < 141 → order i ≢ 0 → IsBlock fs (order i)
  unfolding order
  order_blocks i h full = ok.owned (place i) (place_fits i h) full

  order_distinct : (i j : ℕ) → i < 141 → j < 141 → order i ≢ 0 → order i ≡ order j → i ≡ j
  unfolding order
  order_distinct i j h l full e =
      place_apart i j h l (ok.distinct (place i) (place j) (place_fits i h) (place_fits j l) full e)

  order_direct : (j : ℕ) → j < 12 → ip.addrs j ≡ order j
  unfolding order
  order_direct j h =
      let e : place j ≡ j = ground arith in
      sym (slot_direct ip fs j (omega arith)) ∙ ap (slot ip fs) (sym e)

  order_entry : (l : ℕ) → l < 128 → order (12 + l) ≡ slot ip fs (13 + l)
  unfolding order
  order_entry l h = ap (slot ip fs) (ground arith)

  order_last : order 140 ≡ ip.addrs 12
  unfolding order
  order_last = slot_direct ip fs 12 (omega arith)

  among_owned : (n i : ℕ) → i < n → n ≤ 141 → order i ≢ 0 → among order n (order i) ≡ true
  among_owned zero i h l full = absurd (omega arith)
  among_owned (suc n) i h l full = elim (Bool-cases (n == i)) [
    | inl here ↦
        let e : n ≡ i = ground arith in
        let same : order n ≡ order i = ap order e in ground (arith, same, full)
    | inr other ↦ ground (arith, among_owned n i (ground arith) (omega arith) full)
  ]

  among_foreign : (n c : ℕ) → n ≤ 141 → ((i : ℕ) → i < 141 → order i ≢ c) → among order n c ≡ false
  among_foreign zero c l other = refl
  among_foreign (suc n) c l other =
      let here = other n (omega arith) in
      ground (arith, here, among_foreign n c (omega arith) other)

  indirect-none :
      (ip' : Inode) (fs' : Fs) → ip'.addrs ndirect ≡ 0 → free_indirect ip' fs' ≡ some (ip', fs')
  unfolding free_indirect
  indirect-none ip' fs' e = rw e refl

  indirect-some :
      (ip' : Inode) (fs' fs1 fs2 : Fs)
      → ip'.addrs ndirect ≢ 0
      → free_entries nindirect 0 (fs'.disk (ip'.addrs ndirect)) fs' ≡ some fs1
      → bfree (ip'.addrs ndirect) fs1 ≡ some fs2
      → free_indirect ip' fs' ≡ some (record ip' { addrs = update ip'.addrs ndirect 0 }, fs2)
  unfolding free_indirect
  indirect-some ip' fs' fs1 fs2 full e f =
      let some_ : (ip'.addrs ndirect == 0) ≡ false = ground (arith, full) in rw (some_, e, f) refl

  IndirectOutcome : Inode → Fs → Type 0
  IndirectOutcome ip' fs' =
      (ip'' : Inode) × (fs'' : Fs) × (free_indirect ip' fs' ≡ some (ip'', fs''))
      × (ip'' ≡ record ip { addrs = ip''.addrs })
      × ((j : ℕ) → j < 13 → ip''.addrs j ≡ 0)
      × Dropped fs fs'' (among order 141)

  no_entries : ip.addrs ndirect ≡ 0 → (j : ℕ) → 12 ≤ j → j < 141 → order j ≡ 0
  unfolding order
  no_entries empty j l u = elim (Bool-cases (ltb j 140)) [
    | inl entry ↦
        let e : place j ≡ j + 1 = ground (arith, entry) in
        ap (slot ip fs) e ∙ slot_none ip fs (j + 1) (omega arith) empty
    | inr last ↦
        let e : place j ≡ 12 = ground (arith, last) in
        ap (slot ip fs) e ∙ slot_direct ip fs 12 (omega arith) ∙ empty
  ]

  indirect_lem :
      (ip' : Inode) (fs' : Fs)
      → Cleared 0 ip ip'
      → Dropped fs fs' (among order 12)
      → IndirectOutcome ip' fs'
  unfolding IndirectOutcome
  indirect_lem ip' fs' c d =
      let same : ip'.addrs 12 ≡ ip.addrs 12 = c.kept 12 (inr (omega arith)) in
      elim (Bool-cases (ip'.addrs 12 == 0)) [
        | inl none_ ↦
            let empty : ip'.addrs 12 ≡ 0 = ground (arith, none_) in
            (
              ip',
              fs',
              indirect-none ip' fs' empty,
              c.meta,
              λ j h. elim (Bool-cases (j == 12)) [
                | inl here ↦ (let e : j ≡ 12 = ground arith in ap ip'.addrs e ∙ empty)
                | inr other ↦ c.gone j (omega arith) (ground arith)
              ],
              drop_zeros fs order order_blocks order_distinct 129 12 fs'
                  (no_entries (sym same ∙ empty)) d,
            )
        | inr some_ ↦
            let full : ip'.addrs 12 ≢ 0 = λ z. ground (arith, some_, z) in
            let full_ : ip.addrs 12 ≢ 0 = λ z. full (same ∙ z) in
            let ind = ind-IsBlock ip fs ok full_ in
            let block : fs'.disk (ip'.addrs 12) ≡ fs.disk (ip.addrs 12) =
              ap fs'.disk same ∙ d.same_data (ip.addrs 12) ind.high in
            let (fs1, e1, d1) =
              free_entries_lem fs order order_blocks order_distinct 128 0 (fs'.disk (ip'.addrs 12))
                fs' refl
                (λ l h.
                  ap (λ (p : Bytes). word_at p (4 * l)) block
                  ∙ sym (slot_entry ip fs l full_)
                  ∙ sym (order_entry l h))
                d in
            let (fs2, e2, d2) =
              drop_one fs order order_blocks order_distinct 140 fs1 (omega arith)
                (λ z. full_ (sym order_last ∙ z)) d1 in
            let freed : bfree (ip'.addrs 12) fs1 ≡ some fs2 =
              ap (λ (b : ℕ). bfree b fs1) (same ∙ sym order_last) ∙ e2 in
            (
              record ip' { addrs = update ip'.addrs 12 0 },
              fs2,
              indirect-some ip' fs' fs1 fs2 full e1 freed,
              ap (λ (q : Inode). record q { addrs = update ip'.addrs 12 0 }) c.meta,
              λ j h. elim (Bool-cases (j == 12)) [
                | inl here ↦ ground (arith, here)
                | inr other ↦
                    update_other ip'.addrs 12 0 j (λ z. ground (arith, other, z))
                    ∙ c.gone j (omega arith) (ground arith)
              ],
              d2,
            )
      ]

  stored_lem :
      (ip' : Inode) (fs' : Fs)
      → ip'.inum ≡ ip.inum
      → fs'.sb ≡ fs.sb
      → fs'.disk (iblock ip.inum fs.sb) ≡ fs.disk (iblock ip.inum fs.sb)
      → (iupdate ip' fs').disk (iblock ip.inum fs.sb)
        ≡ put_dinode ip' (dinode_at ip.inum) (fs.disk (iblock ip.inum fs.sb))
  unfolding iupdate
  stored_lem ip' fs' i s same =
      let at : iblock ip'.inum fs'.sb ≡ iblock ip.inum fs.sb = rw (s, i) refl in
      let new : Bytes = put_dinode ip' (dinode_at ip'.inum) (fs'.disk (iblock ip'.inum fs'.sb)) in
      ap (update fs'.disk (iblock ip'.inum fs'.sb) new) (sym at)
      ∙ update_same fs'.disk (iblock ip'.inum fs'.sb) new
      ∙ ap (λ (n : ℕ). put_dinode ip' (dinode_at n) (fs'.disk (iblock ip'.inum fs'.sb))) i
      ∙ ap (put_dinode ip' (dinode_at ip.inum)) (ap fs'.disk at ∙ same)

  emptied :
      (ip'' : Inode) (fs'' : Fs)
      → ip.inum < fs.sb.ninodes
      → ip'' ≡ record ip { addrs = ip''.addrs }
      → ((j : ℕ) → j < 13 → ip''.addrs j ≡ 0)
      → Dropped fs fs'' (among order 141)
      → Emptied ip fs (record ip'' { size = 0 }) (iupdate (record ip'' { size = 0 }) fs'')
  unfolding order
  emptied ip'' fs'' known meta clear d =
      let gone : Inode = record ip'' { size = 0 } in
      let same_inum : ip''.inum ≡ ip.inum = ap (λ (q : Inode). q.inum) meta in
      let known' : ip''.inum < fs''.sb.ninodes = rw (d.same_sb, same_inum) known in
      let file = cleared-IsFile gone fs'' d.volume clear in
      let at : iblock ip''.inum fs''.sb ≡ iblock ip.inum fs.sb = rw (d.same_sb, same_inum) refl in
      let (above, below) = iblock_low ip.inum fs ok.volume known in
      record {
        file = iupdate-IsFile gone fs'' known' file;
        meta = ap (λ (q : Inode). record q { size = 0 }) meta;
        cleared = clear;
        freed = λ n h full.
            (let (fits, e) = place-step_of n h in
              let b = ok.owned n h full in
              let full' : slot ip fs (place (step_of n)) ≢ 0 =
                λ z. full (sym (ap (slot ip fs) e) ∙ z) in
              let hit : among order 141 (slot ip fs n) ≡ true =
                subst (λ x. among order 141 (slot ip fs x) ≡ true) e
                  (among_owned 141 (step_of n) fits (omega arith) full') in
              used-iupdate gone fs'' (slot ip fs n) known' file
              ∙ d.map (slot ip fs n) b.fits
              ∙ ground (arith, hit));
        kept = λ c h other.
            (let miss =
                among_foreign 141 c (omega arith) (λ i l. other (place i) (place_fits i l)) in
              used-iupdate gone fs'' c known' file ∙ d.map c h ∙ ground (arith, miss));
        same_sb = iupdate_sb gone fs'' ∙ d.same_sb;
        same_data =
            λ c h. iupdate_disk gone fs'' c (λ z. omega (arith, z, at, below, h)) ∙ d.same_data c h;
        stored =
            stored_lem gone fs'' same_inum (d.same_sb) (d.low_same (iblock ip.inum fs.sb) below);
        inodes = λ c h other. iupdate_disk gone fs'' c (λ z. other (z ∙ at)) ∙ d.low_same c h;
      }

  -- `itrunc` of an inode that the file system knows and whose blocks are its own. It never panics: the
  -- inode then has no block and the size 0, and is stored on disk like this; exactly the blocks that the inode named, the
  -- indirect block and its entries among them, become free; no other inode block and no byte of the data
  -- area changes, and no other field of the inode.
  pub itrunc_lem :
      ip.inum < fs.sb.ninodes
      → (ip' : Inode) × (fs' : Fs) × (itrunc ip fs ≡ some (ip', fs')) × Emptied ip fs ip' fs'
  unfolding IndirectOutcome
  itrunc_lem known =
      let start : Dropped fs fs (among order 0) = Dropped-refl fs ok.volume in
      let (ip', fs', e, cleared, d) =
        free_direct_lem fs order order_blocks order_distinct 12 0 ip fs refl
          (λ j l u. order_direct j u) start in
      let (ip'', fs'', f, meta, clear, d') = indirect_lem ip' fs' cleared d in
      (
        record ip'' { size = 0 },
        iupdate (record ip'' { size = 0 }) fs'',
        itrunc_eq ip ip' ip'' fs fs' fs'' e f,
        emptied ip'' fs'' known meta clear d',
      )
