-- ===== src/Bio/Write.antt =====
-- `bwrite` of bio.c.
use course_work_sem.Base.{
  ℕ, ◌<◌, ◌≡◌, ◌≢◌, refl, true, false, none, some, List, [], ◌∷◌, arith, ◌==◌, Bool-cases, inl, inr,
  update,
}
use course_work_sem.Bio.{Buf, Disk, Contents, cached, Cache, assign, bwrite, iderw, done}
use course_work_sem.Bio.View.{view, IsUnique, AllAgree, by_id, by_id_missed, by_id-has_id}
use course_work_sem.Bio.Assign.{
  assign-Distinct, assign-by_id, assign-IsUnique, cached-assign, MayHold,
}
use course_work_sem.Bio.Contract.{IsCache}

-- `b` is a buffer that its holder has changed: at most the bytes, of the busy buffer `old`.
abbrev pub IsChanged : ℕ → Cache → Buf → Buf → Type 0
IsChanged disksize c old b =
    (by_id b.id c.bufs ≡ some old)
    × (b.busy ≡ true)
    × (b.dev ≡ 1)
    × (old.dev ≡ 1)
    × (b.blockno ≡ old.blockno)
    × (b.blockno < disksize)

abbrev pub Written : Cache → Buf → Buf → Cache → Type 0
Written c b b' c' =
    IsCache c'.bufs c'.disk
    × (by_id b.id c'.bufs ≡ some b')
    × (b'.dirty ≡ false)
    × (c'.disk ≡ update c.disk b.blockno b.bytes)
    × (view c'.bufs c'.disk b.blockno ≡ b.bytes)
    × ((k : ℕ) → k ≢ b.blockno → view c'.bufs c'.disk k ≡ view c.bufs c.disk k)

abbrev written : Buf → Buf
written b = record b { dirty = false; valid = true }

bwrite_eq :
    (disksize : ℕ) (c : Cache) (old b : Buf)
    → IsChanged disksize c old b
    → bwrite disksize b c
      ≡ done
          (written b)
          (record c { bufs = assign (written b) c.bufs; disk = update c.disk b.blockno b.bytes })
unfolding bwrite iderw
bwrite_eq disksize c old b (found, busy, d, old_d, n, small) = ground arith

-- Writing to a block on which no valid buffer has to agree keeps the agreement.
elsewhere-AllAgree :
    (disk : Disk) (blockno : ℕ) (bytes : Contents) (bs : List Buf)
    → AllAgree disk bs
    → cached 1 blockno bs ≡ none
    → AllAgree (update disk blockno bytes) bs
unfolding cached
elsewhere-AllAgree disk blockno bytes [] agree e = tt
elsewhere-AllAgree disk blockno bytes (x ∷ xs) (x_agrees, agree) e = (
  ((λ a b d h. ground (arith, e, x_agrees.0 a b d h)), x_agrees.1),
  elsewhere-AllAgree disk blockno bytes xs agree (ground arith),
)

write-AllAgree :
    (disk : Disk) (bytes : Contents) (old b : Buf) (bs : List Buf)
    → IsUnique bs
    → AllAgree disk bs
    → by_id b.id bs ≡ some old
    → old.dev ≡ 1
    → b.busy ≡ true
    → b.blockno ≡ old.blockno
    → (b.dirty ≡ true → b.valid ≡ true)
    → AllAgree (update disk b.blockno bytes) (assign b bs)
unfolding by_id assign cached
write-AllAgree disk bytes old b [] unique agree found d busy n dirty = tt
write-AllAgree disk bytes old b (x ∷ xs) (first, unique) (x_agrees, agree) found d busy n dirty =
    elim (Bool-cases (x.id == b.id)) [
      | inl same ↦ rw same (
        ((λ a. cc), dirty),
        elsewhere-AllAgree disk b.blockno bytes xs agree (ground (arith, found, first)),
      )
      | inr other ↦ rw other (
        (
          (λ a v k h.
              (let missed =
                  by_id_missed b.id x.dev x.blockno xs {c = old} (rw other at found)
                    (first (ground arith)) in
                ground (arith, missed, x_agrees.0 a v k h))),
          x_agrees.1,
        ),
        write-AllAgree disk bytes old b xs unique agree (rw other at found) d busy n dirty,
      )
    ]

-- `bwrite` of a busy buffer for a block on the disk, in a cache that keeps the invariants: the
-- buffer's bytes are on the disk, and they are the contents of its block; every other block keeps
-- its contents, and the invariants hold again.
pub bwrite_lem :
    (disksize : ℕ) (c : Cache) (old b : Buf)
    → IsCache c.bufs c.disk
    → IsChanged disksize c old b
    → (b' : Buf) × (c' : Cache) × (bwrite disksize b c ≡ done b' c') × Written c b b' c'
unfolding view
bwrite_lem disksize c old b (unique, distinct, agree) changed =
    let (found, busy, b_dev, old_dev, n, small) = changed in
    let b' : Buf = written b in
    let may : MayHold b' old c.bufs = inl (ground arith) in
    let after = λ (k : ℕ). cached-assign b' old c.bufs 1 k unique found may (ground arith) in
    (
      b',
      record c { bufs = assign b' c.bufs; disk = update c.disk b.blockno b.bytes },
      bwrite_eq disksize c old b changed,
      (
        (
          assign-IsUnique b' old c.bufs unique found may,
          assign-Distinct b' c.bufs distinct,
          write-AllAgree c.disk b.bytes old b' c.bufs unique agree found old_dev busy n (λ e. refl),
        ),
        assign-by_id b' c.bufs (by_id-has_id b.id c.bufs {c = old} found).0,
        refl,
        refl,
        ground (arith, after b.blockno),
        λ k other. ground (arith, after k, other),
      ),
    )
