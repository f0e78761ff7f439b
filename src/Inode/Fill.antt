-- ===== src/Inode/Fill.antt =====
-- The block that `bmap` allocates, for a pointer of the inode or an entry of the indirect block.
use course_work_sem.Base.{
  ℕ, ◌+◌, ◌-◌, ◌*◌, ◌<◌, ◌≤◌, ◌≡◌, ◌≢◌, inl, inr, refl, ap, sym, subst, ◌∙◌, true, false, ltb, ◌==◌,
  update, update_same, update_other, arith, Bool-cases,
}
use course_work_sem.Disk.{Fs, word_at, put_word, log_write}
use course_work_sem.Disk.Words.{word_at-put_word, word_at_zero, word_at_other}
use course_work_sem.Disk.Search.{used}
use course_work_sem.Disk.Alloc.{data_start, Allocated, write_step, write-IsVolume}
use course_work_sem.Inode.{Inode, ndirect, nindirect}
use course_work_sem.Inode.Slots.{nslot, slot, slot_direct, slot_entry, slot_none, IsBlock, IsFile}
use course_work_sem.Inode.Grow.{Filled}

pub ind-IsBlock :
    (ip : Inode) (fs : Fs) → IsFile ip fs → ip.addrs ndirect ≢ 0 → IsBlock fs (ip.addrs ndirect)
ind-IsBlock ip fs ok full =
    let e = slot_direct ip fs ndirect (omega arith) in
    subst (IsBlock fs) e (ok.owned ndirect (omega arith) (λ z. full (sym e ∙ z)))

free_apart : (fs : Fs) (a c : ℕ) → used fs a ≡ false → IsBlock fs c → c ≢ a
free_apart fs a c free b e =
    let contra : used fs a ≡ true = subst (λ x. used fs x ≡ true) e b.taken in cc

entry_at : (m : ℕ) → 13 ≤ m → m ≡ 13 + (m - 13)
entry_at m h = omega arith

direct_entry :
    (i : ℕ) (ip : Inode) (fs : Fs) (a : ℕ) (fs' : Fs)
    → IsFile ip fs
    → ip.addrs i ≡ 0
    → Allocated fs a fs'
    → (j : ℕ) → j < nindirect
    → slot (record ip { addrs = update ip.addrs i a }) fs' (13 + j) ≡ slot ip fs (13 + j)
direct_entry i ip fs a fs' ok empty al j l =
    let ip' : Inode = record ip { addrs = update ip.addrs i a } in
    let some_a : a ≢ 0 = λ e. omega (arith, al.is_data) in
    elim (Bool-cases (i == ndirect)) [
      | inl ind ↦
          let now : ip'.addrs ndirect ≡ a = ground (arith, ind) in
          let before : ip.addrs ndirect ≡ 0 = ground (arith, ind, empty) in
          slot_entry ip' fs' j (λ z. some_a (sym now ∙ z))
          ∙ ap (λ c. word_at (fs'.disk c) (4 * j)) now
          ∙ word_at_zero (fs'.disk a) (4 * j) al.zeroed (omega arith)
          ∙ sym (slot_none ip fs (13 + j) (omega arith) before)
      | inr not_ind ↦
          let kept : ip'.addrs ndirect ≡ ip.addrs ndirect = ground (arith, not_ind) in
          elim (Bool-cases (ip.addrs ndirect == 0)) [
            | inl none_ ↦
                let gone : ip.addrs ndirect ≡ 0 = ground (arith, none_) in
                slot_none ip' fs' (13 + j) (omega arith) (kept ∙ gone)
                ∙ sym (slot_none ip fs (13 + j) (omega arith) gone)
            | inr some_ ↦
                let full : ip.addrs ndirect ≢ 0 = λ z. ground (arith, some_, z) in
                let b = ind-IsBlock ip fs ok full in
                slot_entry ip' fs' j (λ z. full (sym kept ∙ z))
                ∙ ap (λ c. word_at (fs'.disk c) (4 * j)) kept
                ∙ ap (λ p. word_at p (4 * j))
                    (al.others (ip.addrs ndirect) b.high
                      (free_apart fs a (ip.addrs ndirect) al.was_free b))
                ∙ sym (slot_entry ip fs j full)
          ]
    ]

direct_other :
    (i : ℕ) (ip : Inode) (fs : Fs) (a : ℕ) (fs' : Fs)
    → IsFile ip fs
    → i < 13
    → ip.addrs i ≡ 0
    → Allocated fs a fs'
    → (m : ℕ) → m < nslot
    → m ≢ i
    → slot (record ip { addrs = update ip.addrs i a }) fs' m ≡ slot ip fs m
direct_other i ip fs a fs' ok h empty al m l apart =
    let ip' : Inode = record ip { addrs = update ip.addrs i a } in
    elim (Bool-cases (ltb m 13)) [
      | inl low ↦
          slot_direct ip' fs' m (ground (arith, low))
          ∙ update_other ip.addrs i a m (λ e. apart (sym e))
          ∙ sym (slot_direct ip fs m (ground (arith, low)))
      | inr high ↦
          let at : m ≡ 13 + (m - 13) = entry_at m (ground (arith, high)) in
          subst (λ k. slot ip' fs' k ≡ slot ip fs k) (sym at)
            (direct_entry i ip fs a fs' ok empty al (m - 13) (omega arith))
    ]

-- A pointer in the inode.
pub fill_direct :
    (i : ℕ) (ip : Inode) (fs : Fs) (a : ℕ) (fs' : Fs)
    → IsFile ip fs
    → i < 13
    → ip.addrs i ≡ 0
    → Allocated fs a fs'
    → Filled ip fs i a (record ip { addrs = update ip.addrs i a }) fs'
fill_direct i ip fs a fs' ok h empty al =
    let ip' : Inode = record ip { addrs = update ip.addrs i a } in
    record {
      volume = al.volume;
      same_sb = al.step.same_sb;
      low_same = al.step.low_same;
      map = al.step.map;
      high = al.is_data;
      fits = al.in_disk;
      was_free = al.was_free;
      was_empty = slot_direct ip fs i h ∙ empty;
      here = slot_direct ip' fs' i h ∙ update_same ip.addrs i a;
      other = λ m l apart. direct_other i ip fs a fs' ok h empty al m l apart;
      zeroed = al.zeroed;
      blocks = λ c l apart ind. al.others c l apart;
      meta = refl;
    }

entry_other :
    (j : ℕ) (ip : Inode) (fs fs' : Fs) (a : ℕ)
    → ip.addrs ndirect ≢ 0
    → fs'.disk (ip.addrs ndirect) ≡ fs.disk (ip.addrs ndirect)
    → (m : ℕ) → m ≢ 13 + j
    → slot ip
        (log_write (ip.addrs ndirect) (put_word (fs'.disk (ip.addrs ndirect)) (4 * j) a) fs')
        m
      ≡ slot ip fs m
entry_other j ip fs fs' a full kept m apart =
    let ind = ip.addrs ndirect in
    let p' = put_word (fs'.disk ind) (4 * j) a in
    let fs'' : Fs = log_write ind p' fs' in
    elim (Bool-cases (ltb m 13)) [
      | inl low ↦
          slot_direct ip fs'' m (ground (arith, low))
          ∙ sym (slot_direct ip fs m (ground (arith, low)))
      | inr high ↦
          let at : m ≡ 13 + (m - 13) = entry_at m (ground (arith, high)) in
          subst (λ k. slot ip fs'' k ≡ slot ip fs k) (sym at)
            (slot_entry ip fs'' (m - 13) full
              ∙ ap (λ q. word_at q (4 * (m - 13))) (update_same fs'.disk ind p')
              ∙ word_at_other (fs'.disk ind) (4 * j) a (4 * (m - 13))
                  (elim (Bool-cases (ltb (m - 13) j)) [
                    | inl l ↦ inl (ground (arith, l))
                    | inr r ↦ inr (ground (arith, r, apart, at))
                  ])
              ∙ ap (λ q. word_at q (4 * (m - 13))) kept
              ∙ sym (slot_entry ip fs (m - 13) full))
    ]

-- An entry of the indirect block.
pub fill_entry :
    (j : ℕ) (ip : Inode) (fs : Fs) (a : ℕ) (fs' : Fs)
    → IsFile ip fs
    → j < nindirect
    → ip.addrs ndirect ≢ 0
    → slot ip fs (13 + j) ≡ 0
    → Allocated fs a fs'
    → Filled ip fs
        (13 + j)
        a
        ip
        (log_write (ip.addrs ndirect) (put_word (fs'.disk (ip.addrs ndirect)) (4 * j) a) fs')
fill_entry j ip fs a fs' ok h full empty al =
    let ind = ip.addrs ndirect in
    let p' = put_word (fs'.disk ind) (4 * j) a in
    let fs'' = log_write ind p' fs' in
    let b = ind-IsBlock ip fs ok full in
    let apart = free_apart fs a ind al.was_free b in
    let fits' : ind < fs'.sb.size = rw (al.step.same_sb) b.fits in
    let high' : data_start fs'.sb ≤ ind = rw (al.step.same_sb) b.high in
    let step = write_step ind p' fs' fits' high' in
    let kept : fs'.disk ind ≡ fs.disk ind = al.others ind b.high apart in
    record {
      volume = write-IsVolume ind p' fs' al.volume fits' high';
      same_sb = al.step.same_sb;
      low_same = λ c l. step.low_same c (rw (al.step.same_sb) l) ∙ al.step.low_same c l;
      map = λ c l. step.map c (rw (al.step.same_sb) l) ∙ al.step.map c l;
      high = al.is_data;
      fits = al.in_disk;
      was_free = al.was_free;
      was_empty = empty;
      here =
          slot_entry ip fs'' j full
          ∙ ap (λ q. word_at q (4 * j)) (update_same fs'.disk ind p')
          ∙ word_at-put_word (fs'.disk ind) (4 * j) a (omega (arith, al.in_disk, ok.volume.small));
      other = λ m l other. entry_other j ip fs fs' a full kept m other;
      zeroed = λ i l. ap (λ q. q i) (update_other fs'.disk ind p' a apart) ∙ al.zeroed i l;
      blocks = λ c l not_a not_ind.
          update_other fs'.disk ind p' c (λ e. not_ind (sym e)) ∙ al.others c l not_a;
      meta = refl;
    }
