-- ===== src/Inode/Grow.antt =====
-- What an allocated block does to the inode that gets it.
use course_work_sem.Base.{
  ℕ, ◌/◌, ◌%◌, ◌<◌, ◌≤◌, ◌≡◌, ◌≢◌, inl, inr, refl, sym, subst, ◌∙◌, false, ◌||◌, ◌==◌, arith,
  Bool-cases,
}
use course_work_sem.Disk.{Fs, bsize}
use course_work_sem.Disk.Search.{used}
use course_work_sem.Disk.Alloc.{IsVolume, data_start}
use course_work_sem.Inode.{Inode, ndirect}
use course_work_sem.Inode.Slots.{
  nslot, slot, slot_direct, slot_of, IsBlock, IsFile, file_byte, Frame, Needed,
}

-- Slot `n`, which was empty, names the block `a`, which was free.
pub record Filled (ip : Inode) (fs : Fs) (n a : ℕ) (ip' : Inode) (fs' : Fs) : Type 0 where
  pub volume : IsVolume fs'
  pub same_sb : fs'.sb ≡ fs.sb
  pub low_same : (c : ℕ) → c < fs.sb.bmapstart → fs'.disk c ≡ fs.disk c
  pub map : (c : ℕ) → c < fs.sb.size → used fs' c ≡ ((a == c) || used fs c)
  pub high : data_start fs.sb ≤ a
  pub fits : a < fs.sb.size
  pub was_free : used fs a ≡ false
  pub was_empty : slot ip fs n ≡ 0
  pub here : slot ip' fs' n ≡ a
  pub other : (m : ℕ) → m < nslot → m ≢ n → slot ip' fs' m ≡ slot ip fs m
  pub zeroed : (i : ℕ) → i < bsize → fs'.disk a i ≡ 0
  pub blocks :
      (c : ℕ) → data_start fs.sb ≤ c → c ≢ a → c ≢ ip'.addrs ndirect → fs'.disk c ≡ fs.disk c
  pub meta : ip' ≡ record ip { addrs = ip'.addrs }

module _ {ip ip' : Inode} {fs fs' : Fs} {n a : ℕ} (f : Filled ip fs n a ip' fs')
    (n_fits : n < nslot) where
  still-IsBlock : (c : ℕ) → IsBlock fs c → IsBlock fs' c
  still-IsBlock c b = record {
    high = rw (f.same_sb) b.high;
    fits = rw (f.same_sb) b.fits;
    taken = ground (arith, f.map c b.fits, b.taken);
  }

  a-IsBlock : IsBlock fs' a
  a-IsBlock = record {
    high = rw (f.same_sb) f.high;
    fits = rw (f.same_sb) f.fits;
    taken = ground (arith, f.map a f.fits);
  }

  a_fresh : (c : ℕ) → IsBlock fs c → a ≢ c
  a_fresh c b e =
      let free : used fs c ≡ false = subst (λ x. used fs x ≡ false) e f.was_free in cc (b.taken)

  a_here : (m : ℕ) → m ≡ n → slot ip' fs' m ≡ a
  a_here m e = subst (λ k. slot ip' fs' k ≡ a) (sym e) f.here

  a_some : a ≢ 0
  a_some e = omega (arith, f.high)

  pub Filled-IsFile : IsFile ip fs → IsFile ip' fs'
  Filled-IsFile ok = record {
    volume = f.volume;
    owned = λ m h full. elim (Bool-cases (m == n)) [
      | inl same ↦
          (let e : m ≡ n = ground arith in
            subst (λ k. IsBlock fs' (slot ip' fs' k)) (sym e)
              (subst (IsBlock fs') (sym f.here) a-IsBlock))
      | inr other ↦
          let e = f.other m h (λ s. ground arith) in
          subst (IsBlock fs') (sym e)
            (still-IsBlock (slot ip fs m) (ok.owned m h (λ z. full (e ∙ z))))
    ];
    distinct = λ m k h l full same. elim (Bool-cases (m == n)) [
      | inl here ↦ elim (Bool-cases (k == n)) [
        | inl both ↦ ground arith
        | inr other ↦
            let e : a ≡ slot ip fs k =
              sym (a_here m (ground arith)) ∙ same ∙ f.other k l (λ s. ground arith) in
            absurd (a_fresh (slot ip fs k) (ok.owned k l (λ z. a_some (e ∙ z))) e)
      ]
      | inr there ↦ elim (Bool-cases (k == n)) [
        | inl both ↦
            let e : slot ip fs m ≡ a =
              sym (f.other m h (λ s. ground arith)) ∙ same ∙ a_here k (ground arith) in
            absurd (a_fresh (slot ip fs m) (ok.owned m h (λ z. a_some (sym e ∙ z))) (sym e))
        | inr other ↦
            let m_same = f.other m h (λ s. ground arith) in
            let k_same = f.other k l (λ s. ground arith) in
            ok.distinct m k h l (λ z. full (m_same ∙ z)) (sym m_same ∙ same ∙ k_same)
      ]
    ];
  }

  pub Filled-Frame : (lo hi : ℕ) → Needed lo hi n → IsFile ip fs → Frame lo hi ip fs ip' fs'
  Filled-Frame lo hi need ok = record {
    same_sb = f.same_sb;
    low_same = f.low_same;
    others = λ c h.
        (let apart : (m : ℕ) → m < nslot → slot ip' fs' m ≢ c = λ m l e.
            elim (Bool-cases (m == n)) [
              | inl here ↦ a_fresh c h.block (sym (a_here m (ground arith)) ∙ e)
              | inr other ↦ h.other m l (sym (f.other m l (λ s. ground arith)) ∙ e)
            ] in
          (
            record { block = still-IsBlock c h.block; other = apart },
            f.blocks c h.block.high (λ e. a_fresh c h.block (sym e))
                (λ e.
                  apart ndirect (omega arith) (slot_direct ip' fs' ndirect (omega arith) ∙ sym e)),
          ));
    meta = f.meta;
    stays = λ m h full. f.other m h (λ e. full (subst (λ k. slot ip fs k ≡ 0) (sym e) f.was_empty));
    taken = λ c h u. (elim (Bool-cases (a == c)) [
      | inl same ↦ inr (record {
        place = n;
        fits = n_fits;
        needed = need;
        was_empty = f.was_empty;
        here = f.here ∙ ground (arith, same);
        there = ground (arith, same, f.high);
      })
      | inr other ↦ inl (ground (arith, f.map c h, u, other))
    ]);
  }

  slot_of_data : (b : ℕ) → b < 140 → (slot_of b < nslot) × (slot_of b ≢ ndirect)
  slot_of_data b h = ground arith

  -- the block of another slot that names a file's bytes
  data_kept :
      (m : ℕ)
      → IsFile ip fs
      → m < nslot
      → m ≢ ndirect
      → m ≢ n
      → slot ip fs m ≢ 0
      → fs'.disk (slot ip fs m) ≡ fs.disk (slot ip fs m)
  data_kept m ok h content other full =
      let b = ok.owned m h full in
      let ok' = Filled-IsFile ok in
      let e = f.other m h other in
      f.blocks (slot ip fs m) b.high (λ s. a_fresh (slot ip fs m) b (sym s))
        (λ s. content (
          ok'.distinct m ndirect h (omega arith) (λ z. full (sym e ∙ z))
            (e ∙ s ∙ sym (slot_direct ip' fs' ndirect (omega arith)))))

  pub Filled_bytes : IsFile ip fs → (i : ℕ) → i < 71680 → file_byte ip' fs' i ≡ file_byte ip fs i
  unfolding file_byte
  Filled_bytes ok i h =
      let (fits, content) = slot_of_data (i / bsize) (omega arith) in
      elim (Bool-cases (slot_of (i / bsize) == n)) [
        | inl here ↦
            (let same : slot_of (i / bsize) ≡ n = ground arith in
              let empty : slot ip fs (slot_of (i / bsize)) ≡ 0 =
                subst (λ k. slot ip fs k ≡ 0) (sym same) f.was_empty in
              rw (a_here (slot_of (i / bsize)) same, empty)
                (ground (arith, f.zeroed (i % bsize) (omega arith), f.high)))
        | inr other ↦
            (let kept = f.other (slot_of (i / bsize)) fits (λ s. ground arith) in
              elim (Bool-cases (slot ip fs (slot_of (i / bsize)) == 0)) [
                | inl none_ ↦ rw kept (rw none_ refl)
                | inr some_ ↦
                    let same =
                      data_kept (slot_of (i / bsize)) ok fits content (λ s. ground arith)
                        (λ z. ground arith) in
                    rw kept (rw (some_, same) refl)
              ])
      ]
