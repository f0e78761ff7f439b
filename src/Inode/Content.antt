-- ===== src/Inode/Content.antt =====
-- Storing bytes in a block of a file.
use course_work_sem.Base.{
  ℕ, ◌+◌, ◌/◌, ◌%◌, ◌<◌, ◌≤◌, ◌≡◌, ◌≢◌, inl, inr, refl, ap, sym, subst, ◌∙◌, ltb, ◌==◌,
  if◌then◌else◌, Bytes, update_other, arith, Bool-cases, List, length, store_at, store_at_outside,
  store_at_moved,
}
use course_work_sem.Disk.{Fs, bsize, log_write}
use course_work_sem.Disk.Alloc.{write_step, write-IsVolume}
use course_work_sem.Inode.{Inode, ndirect}
use course_work_sem.Inode.Slots.{
  nslot, slot, slot_direct, slot_of, IsBlock, IsFile, file_byte, Frame,
}

module _ (ip : Inode) (fs : Fs) (n : ℕ) (p : Bytes) (ok : IsFile ip fs) (n_fits : n < nslot)
    (content : n ≢ ndirect) (there : slot ip fs n ≢ 0) where
  owner : IsBlock fs (slot ip fs n)
  owner = ok.owned n n_fits there

  apart : (m : ℕ) → m < nslot → m ≢ n → slot ip fs m ≢ slot ip fs n
  apart m h other e = other (sym (ok.distinct n m n_fits h there (sym e)))

  pub stored_slot : (m : ℕ) → slot ip (log_write (slot ip fs n) p fs) m ≡ slot ip fs m
  unfolding slot
  stored_slot m = elim (Bool-cases (ip.addrs ndirect == 0)) [
    | inl none_ ↦ rw none_ refl
    | inr some_ ↦
        let e = slot_direct ip fs ndirect (omega arith) in
        rw
          (update_other fs.disk (slot ip fs n) p (ip.addrs ndirect)
            (λ s. apart ndirect (omega arith) (λ z. content (sym z)) (e ∙ sym s)))
          refl
  ]

  pub stored-IsFile : IsFile ip (log_write (slot ip fs n) p fs)
  stored-IsFile =
      let step = write_step (slot ip fs n) p fs owner.fits owner.high in
      record {
        volume = write-IsVolume (slot ip fs n) p fs ok.volume owner.fits owner.high;
        owned = λ m h full.
            (let e = stored_slot m in
              let b = ok.owned m h (λ z. full (e ∙ z)) in
              subst (IsBlock (log_write (slot ip fs n) p fs)) (sym e) (record {
                high = b.high;
                fits = b.fits;
                taken = step.map (slot ip fs m) b.fits ∙ b.taken;
              }));
        distinct = λ m k h l full same.
            ok.distinct m k h l (λ z. full (stored_slot m ∙ z))
              (sym (stored_slot m) ∙ same ∙ stored_slot k);
      }

  pub stored-Frame : (lo hi : ℕ) → Frame lo hi ip fs ip (log_write (slot ip fs n) p fs)
  stored-Frame lo hi =
      let step = write_step (slot ip fs n) p fs owner.fits owner.high in
      record {
        same_sb = refl;
        low_same = step.low_same;
        others = λ c h. (
          record {
            block = record {
              high = h.block.high;
              fits = h.block.fits;
              taken = step.map c h.block.fits ∙ h.block.taken;
            };
            other = λ m l e. h.other m l (sym (stored_slot m) ∙ e);
          },
          update_other fs.disk (slot ip fs n) p c (h.other n n_fits),
        );
        meta = refl;
        stays = λ m l full. stored_slot m;
        taken = λ c h u. inl (sym (step.map c h) ∙ u);
      }

  pub stored_bytes :
      (i : ℕ)
      → i < 71680
      → file_byte ip (log_write (slot ip fs n) p fs) i
        ≡ (if slot_of (i / bsize) == n then p (i % bsize) else file_byte ip fs i)
  unfolding file_byte
  stored_bytes i h = elim (Bool-cases (slot_of (i / bsize) == n)) [
    | inl here ↦
        let same : slot_of (i / bsize) ≡ n = ground arith in
        let at : slot ip (log_write (slot ip fs n) p fs) (slot_of (i / bsize)) ≡ slot ip fs n =
          stored_slot (slot_of (i / bsize)) ∙ ap (slot ip fs) same in
        rw (here, at) (ground (arith, there))
    | inr else_ ↦
        let kept = stored_slot (slot_of (i / bsize)) in
        elim (Bool-cases (slot ip fs (slot_of (i / bsize)) == 0)) [
          | inl none_ ↦ rw (else_, kept) (rw none_ refl)
          | inr some_ ↦
              let other =
                apart (slot_of (i / bsize)) (ground (arith, h)) (λ e. ground (arith, e)) in
              rw (else_, kept)
                (rw
                  (update_other fs.disk (slot ip fs n) p (slot ip fs (slot_of (i / bsize)))
                    (λ e. other (sym e)))
                  refl)
        ]
  ]

  -- a byte of the file in this block
  byte_in_block :
      (i : ℕ) → slot_of (i / bsize) ≡ n → fs.disk (slot ip fs n) (i % bsize) ≡ file_byte ip fs i
  unfolding file_byte
  byte_in_block i at = rw at (ground (arith, there))

  block_written :
      (i : ℕ)
      → i < 71680
      → slot_of (i / bsize) ≡ n
      → file_byte ip (log_write (slot ip fs n) p fs) i ≡ p (i % bsize)
  block_written i h at = stored_bytes i h ∙ ground (arith, at)

  block_kept :
      (i : ℕ)
      → i < 71680
      → slot_of (i / bsize) ≢ n
      → file_byte ip (log_write (slot ip fs n) p fs) i ≡ file_byte ip fs i
  block_kept i h at = stored_bytes i h ∙ ground (arith, at)

  -- the same for a list of bytes that lies in the block
  pub stored_chunk :
      (off : ℕ) (xs : List ℕ)
      → slot_of (off / bsize) ≡ n
      → off < 71680
      → off % bsize + length xs ≤ bsize
      → p ≡ store_at (off % bsize) xs (fs.disk (slot ip fs n))
      → (i : ℕ) → i < 71680
      → file_byte ip (log_write (slot ip fs n) p fs) i ≡ store_at off xs (file_byte ip fs) i
  stored_chunk off xs at start fits made i h = elim (Bool-cases (i / bsize == off / bsize)) [
    | inl same_block ↦
        let blocks : i / bsize ≡ off / bsize = ground (arith, same_block) in
        let here : slot_of (i / bsize) ≡ n = ap slot_of blocks ∙ at in
        block_written i h here
        ∙ ap (λ q. q (i % bsize)) made
        ∙ store_at_moved (off % bsize) off xs (fs.disk (slot ip fs n)) (file_byte ip fs) (i % bsize)
            i (ground (arith, same_block)) (byte_in_block i here)
    | inr other_block ↦
        block_kept i h (λ e. ground (arith, at, e, other_block))
        ∙ sym (
            store_at_outside off xs (file_byte ip fs) i (elim (Bool-cases (ltb i off)) [
              | inl low ↦ inl (ground (arith, low))
              | inr high ↦ inr (ground (arith, high, other_block, fits))
            ]))
  ]
