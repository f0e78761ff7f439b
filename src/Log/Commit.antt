-- ===== src/Log/Commit.antt =====
-- commit: a crash at any of its disk writes leaves all of the transaction or none of it.
use course_work_sem.Base.{
  ℕ, zero, suc, ◌+◌, ◌-◌, ◌<◌, ◌≡◌, ◌≢◌, refl, ap, ◌∙◌, true, false, none, List, [], ◌∷◌, arith,
  length, get_or, ◌==◌,
}
use course_work_sem.Log.{
  Block, Store, Log, logsize, bread, bwrite, install_from, read_words, head_block, write_log_from,
  commit,
}
use course_work_sem.Log.Header.{head_count, read-head_block}
use course_work_sem.Log.Crash.{
  Disk, has, in_log, Clean, Logged, Committed, NoDirtyLog, bwrite-NoDirty, install_from-power,
}
use course_work_sem.Log.Recover.{erase, erase_off}

-- The state in which `commit` starts, with `old` on the disk.
pub record Ready (l : Log) (old : Disk) : Type 0 where
  pub clean : Clean l.start l.size old l.store.disk
  pub logged : Logged l.start l.size l.lh
  pub no_dirty : NoDirtyLog l.start l.size l.store
  pub pinned :
      (b : ℕ) → in_log l.start l.size b ≡ false → has b l.lh ≡ false → l.store.dirty b ≡ none
  pub room : logsize < length (l.store.disk l.start)

write_log_from-power :
    (start tail : ℕ) (bs : List ℕ) (s : Store)
    → (write_log_from start tail bs s).power ≡ s.power - length bs
unfolding write_log_from bwrite
write_log_from-power start tail [] s = omega arith
write_log_from-power start tail (b ∷ bs) s =
    omega
      (arith, write_log_from-power start (tail + 1) bs (bwrite (start + tail + 1) (bread s b) s))

-- What the copying into the log has done, from index `tail` on.
record Copied (start size tail : ℕ) (bs : List ℕ) (s u : Store) : Type 0 where
  before : (b : ℕ) → b < start + tail + 1 → u.disk b ≡ s.disk b
  home : (b : ℕ) → in_log start size b ≡ false → (u.disk b ≡ s.disk b) × (u.dirty b ≡ s.dirty b)
  no_dirty : NoDirtyLog start size u
  copies :
      u.power ≢ 0
      → (i : ℕ) → i < length bs
      → u.disk (start + tail + i + 1) ≡ bread s (get_or bs i 0)

-- a write into the log leaves the home blocks alone
bwrite-in_log :
    (start size k : ℕ) (d : Block) (s : Store) (b : ℕ)
    → k + 1 < size
    → in_log start size b ≡ false
    → ((bwrite (start + k + 1) d s).disk b ≡ s.disk b)
      × ((bwrite (start + k + 1) d s).dirty b ≡ s.dirty b)
unfolding bwrite
bwrite-in_log start size k d s b lt o = (ground arith, ground arith)

bwrite_before : (a : ℕ) (d : Block) (s : Store) (b : ℕ) → b < a → (bwrite a d s).disk b ≡ s.disk b
unfolding bwrite
bwrite_before a d s b lt = ground arith

bwrite_self : (a : ℕ) (d : Block) (s : Store) → s.power ≢ 0 → (bwrite a d s).disk a ≡ d
unfolding bwrite
bwrite_self a d s on = ground arith

module _ (start size x : ℕ) (xs : List ℕ) (tail : ℕ) (s : Store)
    (fits : tail + suc (length xs) < size)
    (out : (i : ℕ) → i < suc (length xs) → in_log start size (get_or (x ∷ xs) i 0) ≡ false) where
  first : Store
  first = bwrite (start + tail + 1) (bread s x) s

  module _ {u : Store} (ih : Copied start size (tail + 1) xs first u) where
    copies_cons :
        (u.power ≢ 0 → s.power ≢ 0)
        → u.power ≢ 0
        → (i : ℕ) → i < suc (length xs)
        → u.disk (start + tail + i + 1) ≡ bread s (get_or (x ∷ xs) i 0)
    unfolding first bread
    copies_cons live on zero lt =
        ap u.disk {y = start + tail + 1} (omega arith)
        ∙ (ih.before (start + tail + 1) (omega arith)
            ∙ bwrite_self (start + tail + 1) (bread s x) s (live on))
    copies_cons live on (suc i) lt =
        ap u.disk {y = start + (tail + 1) + i + 1} (omega arith)
        ∙ (ih.copies on i (omega arith) ∙ same_read)
      where
        same_read : bread first (get_or xs i 0) ≡ bread s (get_or xs i 0)
        same_read = ground (
          arith,
          bwrite-in_log start size tail (bread s x) s (get_or xs i 0) (omega arith)
              (out (suc i) lt),
        )

    Copied-cons : (u.power ≢ 0 → s.power ≢ 0) → Copied start size tail (x ∷ xs) s u
    unfolding first
    Copied-cons live = record {
      before =
          λ b lt. ih.before b (omega arith) ∙ bwrite_before (start + tail + 1) (bread s x) s b lt;
      home = λ b o.
          let w = bwrite-in_log start size tail (bread s x) s b (omega arith) o in
          ((ih.home b o).0 ∙ w.0, (ih.home b o).1 ∙ w.1);
      no_dirty = ih.no_dirty;
      copies = copies_cons live;
    }

write_log_from-Copied :
    (start size : ℕ) (bs : List ℕ) (tail : ℕ) (s : Store)
    → tail + length bs < size
    → ((i : ℕ) → i < length bs → in_log start size (get_or bs i 0) ≡ false)
    → NoDirtyLog start size s
    → Copied start size tail bs s (write_log_from start tail bs s)
unfolding write_log_from first
write_log_from-Copied start size [] tail s fits out clean = record {
  before = λ b lt. refl;
  home = λ b o. (refl, refl);
  no_dirty = clean;
  copies = λ on i lt. absurd (omega arith);
}
write_log_from-Copied start size (x ∷ xs) tail s fits out clean =
    Copied-cons start size x xs tail s fits out
      (write_log_from-Copied start size xs (tail + 1) (bwrite (start + tail + 1) (bread s x) s)
        (omega arith) (λ i lt. out (suc i) (omega arith))
        (bwrite-NoDirty start size (start + tail + 1) (bread s x) s clean))
      (λ on. omega (arith, write_log_from-power start tail (x ∷ xs) s))

install_from-off :
    (start tail : ℕ) (bs : List ℕ) (s : Store)
    → s.power ≡ 0
    → (install_from start tail bs s).disk ≡ s.disk
unfolding install_from bwrite
install_from-off start tail [] s off = refl
install_from-off start tail (b ∷ bs) s off =
    install_from-off start (tail + 1) bs (bwrite b (bread s (start + tail + 1)) s) (omega arith)
    ∙ ground arith

-- what the operations since the last commit have made of the blocks
abbrev pub current : Log → Disk
current l = bread l.store

module _ (l : Log) {old : Disk} (r : Ready l old) where
  -- the store after the blocks are copied into the log, and after the header is written
  pub copied : Store
  copied = write_log_from l.start 0 l.lh l.store

  pub headed : Store
  headed = bwrite l.start (head_block (bread copied l.start) l.lh) copied

  pub commit_eq :
      (length l.lh == 0) ≡ false
      → (commit l).store ≡ erase l.start (install_from l.start 0 l.lh headed)
  unfolding commit erase headed copied
  commit_eq more = ground arith

  pub commit_nil : (length l.lh == 0) ≡ true → commit l ≡ l
  unfolding commit
  commit_nil none_ = ground arith

  copied_lem : Copied l.start l.size 0 l.lh l.store copied
  unfolding copied
  copied_lem =
      write_log_from-Copied l.start l.size l.lh 0 l.store (omega (arith, r.logged.below))
        r.logged.outside r.no_dirty

  pub copied-power : copied.power ≡ l.store.power - length l.lh
  unfolding copied
  copied-power = write_log_from-power l.start 0 l.lh l.store

  pub copied-Clean : Clean l.start l.size old copied.disk
  copied-Clean = record {
    empty = ap head_count (copied_lem.before l.start (omega arith)) ∙ r.clean.empty;
    home = λ b o. (copied_lem.home b o).0 ∙ r.clean.home b o;
  }

  pub headed-power : headed.power ≡ copied.power - 1
  unfolding headed bwrite
  headed-power = refl

  still : copied.power ≡ 0 → headed.disk ≡ copied.disk
  unfolding headed bwrite
  still off = ground arith

  pub headed-off :
      copied.power ≡ 0 → (erase l.start (install_from l.start 0 l.lh headed)).disk ≡ copied.disk
  headed-off off =
      erase_off l.start (install_from l.start 0 l.lh headed)
        (ground (arith, install_from-power l.start 0 l.lh headed, headed-power))
      ∙ (install_from-off l.start 0 l.lh headed (omega (arith, headed-power)) ∙ still off)

  pub headed-NoDirty : NoDirtyLog l.start l.size headed
  unfolding headed
  headed-NoDirty = bwrite-NoDirty l.start l.size l.start _ copied copied_lem.no_dirty

  header : Block
  header = head_block (bread copied l.start) l.lh

  header_lem : (head_count header ≡ length l.lh) × (read_words header 1 (head_count header) ≡ l.lh)
  unfolding header bread
  header_lem = read-head_block (bread copied l.start) l.lh (
      ground (
        arith,
        copied_lem.before l.start,
        copied_lem.no_dirty l.start (ground (arith, r.logged.below)),
        r.room,
        r.logged.fits,
        r.logged.below,
      ))

  headed_at : copied.power ≢ 0 → headed.disk l.start ≡ header
  unfolding headed header
  headed_at on = bwrite_self l.start (head_block (bread copied l.start) l.lh) copied on

  headed_away : (b : ℕ) → b ≢ l.start → headed.disk b ≡ copied.disk b
  unfolding headed bwrite
  headed_away b ne = ground arith

  pub headed-Committed : copied.power ≢ 0 → Committed l.start l.size l.lh (current l) headed.disk
  unfolding bread
  headed-Committed on = record {
    count = ap head_count (headed_at on) ∙ header_lem.0;
    listed = rw (headed_at on) (rw header_lem.0 at header_lem.1);
    copied = λ i lt.
        headed_away (l.start + i + 1) (omega arith)
        ∙ (ap copied.disk (omega arith) ∙ copied_lem.copies on i lt);
    home = λ b o non.
        headed_away b (ground (arith, r.logged.below))
        ∙ ((copied_lem.home b o).0 ∙ ground (arith, r.pinned b o non));
  }
