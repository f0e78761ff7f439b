-- ===== src/Icache/Put.antt =====
-- `iput` of fs.c: each of its results.
use course_work_sem.Base.{
  ℕ, ◌+◌, ◌-◌, ◌%◌, ◌^◌, ◌<◌, ◌≡◌, ◌≢◌, ◌⊎◌, inl, inr, refl, ap, sym, ◌∙◌, Bool, true, false, ◌&&◌,
  some, ◌==◌, arith, Bool-cases, update, update_same, update_other,
}
use course_work_sem.Disk.{Fs}
use course_work_sem.Inode.{Inode, itrunc, iupdate}
use course_work_sem.Inode.Slots.{IsFile, slot}
use course_work_sem.Inode.Empty.{Emptied, itrunc_lem}
use course_work_sem.Icache.{
  ◌>>=◌, Cache, Run, ret, sleeps, panics, set_inode, free_inode, drop_ref, iput, one_less,
}

-- the last reference to a valid inode without links
abbrev pub is_last : Inode → Bool
is_last ip = ip.ref == 1 && ip.valid && ip.nlink == 0

abbrev locked : Inode → Inode
locked ip = record ip { busy = true }

-- The inode is gone from the disk and from its slot.
pub record Removed (k : ℕ) (c c' : Cache) : Type 0 where
  pub ip : Inode
  pub fs : Fs
  pub emptied : Emptied (record (c.inode k) { busy = true }) c.fs ip fs
  pub stored : c'.fs ≡ iupdate (record ip { itype = 0 }) fs
  pub slot_free :
      ((c'.inode k).ref ≡ 0) × ((c'.inode k).valid ≡ false) × ((c'.inode k).busy ≡ false)
  pub slots : (i : ℕ) → i ≢ k → c'.inode i ≡ c.inode i

abbrev pub PutOutcome : ℕ → Cache → Run (Unit × Cache) → Type 0
PutOutcome k c (ret (u, c')) =
    ((is_last (c.inode k) ≡ false)
      × (c' ≡ set_inode k (record (c.inode k) { ref = (c.inode k).ref - 1 }) c))
    ⊎ ((is_last (c.inode k) ≡ true) × ((c.inode k).busy ≡ false) × Removed k c c')
PutOutcome k c sleeps = ⊥
PutOutcome k c panics = (is_last (c.inode k) ≡ true) × ((c.inode k).busy ≡ true)

locked-IsFile : (ip : Inode) (fs : Fs) → IsFile ip fs → IsFile (record ip { busy = true }) fs
unfolding slot
locked-IsFile ip fs ok = record { volume = ok.volume; owned = ok.owned; distinct = ok.distinct }

-- the slot after `itrunc`
abbrev gone : Inode → Inode
gone ip = record ip { itype = 0 }

abbrev released : Inode → Inode
released ip = record ip { itype = 0; busy = false; valid = false }

-- the cache before `ref--`
abbrev removed : ℕ → Cache → Inode → Fs → Cache
removed k c ip fs = record { inode = update c.inode k (released ip); fs = iupdate (gone ip) fs }

iput_plain : (k : ℕ) (c : Cache) → is_last (c.inode k) ≡ false → iput k c ≡ drop_ref k c
unfolding iput
iput_plain k c plain = rw plain refl

iput_busy :
    (k : ℕ) (c : Cache) → is_last (c.inode k) ≡ true → (c.inode k).busy ≡ true → iput k c ≡ panics
unfolding iput free_inode
iput_busy k c last busy = rw (last, ◌>>=◌, free_inode, busy) refl

free_inode_done :
    (k : ℕ) (c : Cache) (ip : Inode) (fs : Fs)
    → (c.inode k).busy ≡ false
    → itrunc (record (c.inode k) { busy = true }) c.fs ≡ some (ip, fs)
    → free_inode k c ≡ ret (tt, removed k c ip fs)
unfolding free_inode
free_inode_done k c ip fs free e = rw (free_inode, free, e) refl

iput_frees :
    (k : ℕ) (c : Cache) (ip : Inode) (fs : Fs)
    → is_last (c.inode k) ≡ true
    → free_inode k c ≡ ret (tt, removed k c ip fs)
    → iput k c ≡ drop_ref k (removed k c ip fs)
unfolding iput
iput_frees k c ip fs last e = rw (iput, last, ◌>>=◌, e) refl

abbrev dropped : ℕ → Cache → Cache
dropped k c = set_inode k (record (c.inode k) { ref = one_less (c.inode k).ref }) c

removed_lem :
    (k : ℕ) (c : Cache) (ip : Inode) (fs : Fs)
    → (c.inode k).ref ≡ 1
    → Emptied (record (c.inode k) { busy = true }) c.fs ip fs
    → Removed k c (dropped k (removed k c ip fs))
removed_lem k c ip fs last em =
    let c1 = removed k c ip fs in
    let here : c1.inode k ≡ released ip = update_same c.inode k (released ip) in
    let now : (dropped k c1).inode k ≡ record (c1.inode k) { ref = one_less (c1.inode k).ref } =
      update_same c1.inode k (record (c1.inode k) { ref = one_less (c1.inode k).ref }) in
    let one : ip.ref ≡ 1 = ap (λ (q : Inode). q.ref) em.meta ∙ last in
    let zero_ : one_less ip.ref ≡ 0 = ap (λ (r : ℕ). (r + (2 ^ 32 - 1)) % 2 ^ 32) one in
    record {
      ip = ip;
      fs = fs;
      emptied = em;
      stored = refl;
      slot_free = (
        ap (λ (q : Inode). q.ref) now ∙ ap (λ (q : Inode). one_less q.ref) here ∙ zero_,
        ap (λ (q : Inode). q.valid) now ∙ ap (λ (q : Inode). q.valid) here,
        ap (λ (q : Inode). q.busy) now ∙ ap (λ (q : Inode). q.busy) here,
      );
      slots = λ i h.
          update_other c1.inode k (record (c1.inode k) { ref = one_less (c1.inode k).ref }) i
            (λ e. h (sym e))
          ∙ update_other c.inode k (released ip) i (λ e. h (sym e));
    }

less_eq :
    (ip : Inode)
    → 0 < ip.ref
    → ip.ref < 2 ^ 32
    → record ip { ref = one_less ip.ref } ≡ record ip { ref = ip.ref - 1 }
less_eq ip used small = ap (λ (r : ℕ). record ip { ref = r }) (omega arith)

-- `iput` of a slot with a reference, whose blocks are its own. If it is the last reference to a valid inode
-- without links, it panics exactly if the slot is locked, and else frees the inode: its blocks become free,
-- the inode without a type is stored on disk, and the slot has no reference and is neither valid nor locked.
-- In all other cases there is one reference less, and nothing else changes. It never sleeps.
pub iput_lem :
    (k : ℕ) (c : Cache)
    → IsFile (c.inode k) c.fs
    → (c.inode k).inum < c.fs.sb.ninodes
    → 0 < (c.inode k).ref
    → (c.inode k).ref < 2 ^ 31
    → PutOutcome k c (iput k c)
iput_lem k c ok known used small = elim (Bool-cases (is_last (c.inode k))) [
  | inr plain ↦
      rw (iput_plain k c plain)
        (inl (plain, ap (λ (q : Inode). set_inode k q c) (less_eq (c.inode k) used (omega arith))))
  | inl last ↦ elim (Bool-cases (c.inode k).busy) [
    | inl busy ↦ rw (iput_busy k c last busy) (last, busy)
    | inr free ↦
        let (ip, fs, e, em) =
          itrunc_lem (record (c.inode k) { busy = true }) c.fs (locked-IsFile (c.inode k) c.fs ok)
            known in
        let one : (c.inode k).ref ≡ 1 = ground (arith, last) in
        rw (iput_frees k c ip fs last (free_inode_done k c ip fs free e))
          (inr (last, free, removed_lem k c ip fs one em))
  ]
]
