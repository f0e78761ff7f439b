-- ===== src/Bio/Steps.antt =====
-- The buffer cache of bio.c as a memory of blocks: runs of its operations against a map from block
-- numbers to contents.
use course_work_sem.Base.{
  ℕ, zero, suc, ◌+◌, ◌<◌, ◌≡◌, refl, ap, subst, sym, ◌∙◌, true, false, List, [], ◌∷◌, arith, ◌==◌,
  Bool-cases, inl, inr, update,
}
use course_work_sem.Bio.{
  Buf, Disk, Contents, no_dev, cached, Cache, bread, bwrite, brelse, Out, done,
}
use course_work_sem.Bio.View.{view, IsUnique, AllAgree, has_id, Distinct}
use course_work_sem.Bio.Contract.{IsCache}
use course_work_sem.Bio.Read.{ReadOutcome, bread_lem}
use course_work_sem.Bio.{binit, binit_from, nbuf}
use course_work_sem.Bio.Write.{IsChanged, Written, bwrite_lem}
use course_work_sem.Bio.Release.{MayRelease, brelse_lem}

-- The buffers that `binit` links are unused, and have the numbers below `i`.
abbrev AllUnused : ℕ → List Buf → Type 0
AllUnused i [] = Unit {0}
AllUnused i (b ∷ bs) =
    ((b.dev == no_dev) ≡ true) × (b.valid ≡ false) × (b.dirty ≡ false) × (b.id < i) × AllUnused i bs

unused_next :
    (i : ℕ) (bs : List Buf) → AllUnused i bs → AllUnused (i + 1) bs × (has_id i bs ≡ false)
unused_next i [] all = (tt, refl)
unused_next i (b ∷ bs) (d, v, r, small, all) =
    let (rest, no_id) = unused_next i bs all in
    ((d, v, r, omega arith, rest), ground (arith, no_id))

unused-IsCache :
    (i : ℕ) (disk : Disk) (bs : List Buf) → AllUnused i bs → IsUnique bs × AllAgree disk bs
unused-IsCache i disk [] all = (tt, tt)
unused-IsCache i disk (b ∷ bs) (d, v, r, small, all) =
    let (unique, agree) = unused-IsCache i disk bs all in
    (
      ((λ used. absurd (ground arith)), unique),
      (((λ a h. absurd (ground arith)), (λ h. absurd (ground arith))), agree),
    )

binit_from-Unused :
    (n i : ℕ) (bs : List Buf)
    → AllUnused i bs
    → Distinct bs
    → (j : ℕ) × AllUnused j (binit_from n i bs) × Distinct (binit_from n i bs)
unfolding binit_from
binit_from-Unused zero i bs all distinct = (i, all, distinct)
binit_from-Unused (suc n) i bs all distinct =
    let (later, no_id) = unused_next i bs all in
    binit_from-Unused n (i + 1) _ (refl, refl, refl, omega arith, later) (no_id, distinct)

pub binit-IsCache : (disk : Disk) → IsCache binit disk
unfolding binit
binit-IsCache disk =
    let (j, all, distinct) = binit_from-Unused nbuf 0 [] tt tt in
    let (unique, agree) = unused-IsCache j disk (binit_from nbuf 0 []) all in
    (unique, distinct, agree)

-- What the cache reaches, with the contents that its users have given the blocks.
pub data Reach (disksize : ℕ) (disk : Disk) : Cache → (ℕ → Contents) → Type 0 where
  start : Reach disksize disk (record { bufs = binit; disk = disk; woken = [] }) disk
  read_step :
      {c c' : Cache} {m : ℕ → Contents} (blockno : ℕ) (b : Buf)
      → Reach disksize disk c m
      → blockno < disksize
      → bread disksize 1 blockno c ≡ done b c'
      → Reach disksize disk c' m
  write_step :
      {c c' : Cache} {m : ℕ → Contents} (old b b' : Buf)
      → Reach disksize disk c m
      → IsChanged disksize c old b
      → bwrite disksize b c ≡ done b' c'
      → Reach disksize disk c' (update m b.blockno b.bytes)
  release_step :
      {c c' : Cache} {m : ℕ → Contents} (b b' : Buf)
      → Reach disksize disk c m
      → MayRelease c b
      → brelse b c ≡ done b' c'
      → Reach disksize disk c' m

abbrev pub Holds : Cache → (ℕ → Contents) → Type 0
Holds c m = IsCache c.bufs c.disk × ((k : ℕ) → view c.bufs c.disk k ≡ m k)

abbrev pub done_of : Buf → Cache → Out → Cache
done_of b c (done b' c') = c'
done_of b c _ = c

write-Holds :
    (c c' : Cache) (m : ℕ → Contents) (b b' : Buf)
    → Holds c m
    → Written c b b' c'
    → Holds c' (update m b.blockno b.bytes)
write-Holds c c' m b b' (ok, same) (ok', found, clean, on_disk, here, elsewhere) = (
  ok',
  λ k. elim (Bool-cases (k == b.blockno)) [
    | inl hit ↦ ground (arith, here)
    | inr miss ↦ ground (arith, elsewhere k, same k)
  ],
)

start-Holds : (disk : Disk) → Holds (record { bufs = binit; disk = disk; woken = [] }) disk
unfolding view cached binit binit_from
start-Holds disk = (binit-IsCache disk, λ k. refl)

pub Reach-Holds :
    (disksize : ℕ) (disk : Disk) {c : Cache} {m : ℕ → Contents}
    → Reach disksize disk c m
    → Holds c m
Reach-Holds disksize disk start = start-Holds disk
Reach-Holds disksize disk (read_step {c} {c'} blockno b r small e) =
    let (ok, same) = Reach-Holds disksize disk r in
    let out = subst (ReadOutcome c blockno) e (bread_lem disksize blockno c ok small) in
    let (ok', found, busy, valid, d, n, bytes, same', disk') = out in (ok', λ k. same' k ∙ same k)
Reach-Holds disksize disk (write_step {c} {c'} {m} old b b' r changed e) =
    let held = Reach-Holds disksize disk r in
    let (b1, c1, e1, w) = bwrite_lem disksize c old b held.0 changed in
    subst (λ x. Holds x (update m b.blockno b.bytes)) (ap (done_of b c) (sym e1 ∙ e))
      (write-Holds c c1 m b b1 held w)
Reach-Holds disksize disk (release_step {c} {c'} {m} b b' r may e) =
    let (ok, same) = Reach-Holds disksize disk r in
    let (b1, c1, e1, w) = brelse_lem c b ok may in
    let (ok', found, same', woken, free) = w in
    subst (λ x. Holds x m) (ap (done_of b c) (sym e1 ∙ e)) (ok', λ k. same' k ∙ same k)

-- In every state that calls of `bread`, `bwrite` and `brelse` reach from the state that `binit`
-- makes, each under its conditions, a `bread` that returns has the contents that were last written
-- to the block with `bwrite`, or the disk's first contents if there was no write.
pub Reach-bread :
    (disksize : ℕ) (disk : Disk) {c c' : Cache} {m : ℕ → Contents} {b : Buf} (blockno : ℕ)
    → Reach disksize disk c m
    → blockno < disksize
    → bread disksize 1 blockno c ≡ done b c'
    → b.bytes ≡ m blockno
Reach-bread disksize disk {c} {c'} {m} blockno r small e =
    let (ok, same) = Reach-Holds disksize disk r in
    let out = subst (ReadOutcome c blockno) e (bread_lem disksize blockno c ok small) in
    let (ok', found, busy, valid, d, n, bytes, same', disk') = out in bytes ∙ same blockno
