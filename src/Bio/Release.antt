-- ===== src/Bio/Release.antt =====
-- `brelse` of bio.c: moving a buffer to the front of the list.
use course_work_sem.Base.{
  ℕ, ◌≡◌, refl, true, false, Option, none, some, List, [], ◌∷◌, arith, ◌==◌, if◌then◌else◌,
  Bool-cases, inl, inr,
}
use course_work_sem.Bio.{Buf, Disk, no_dev, holds, cached, Cache, unlink, brelse, done}
use course_work_sem.Bio.View.{
  view, IsUnique, Agrees, AllAgree, has_id, Distinct, by_id, by_id_missed, by_id-cached,
}
use course_work_sem.Bio.Recycle.{any_free}
use course_work_sem.Bio.Contract.{IsCache}

abbrev pub lookup_without : Buf → ℕ → ℕ → Option Buf → Option Buf
lookup_without c dev k before = if holds c dev k then none else before

apart_lem :
    (id : ℕ) (c x : Buf) (xs : List Buf) (dev k : ℕ)
    → by_id id xs ≡ some c
    → cached x.dev x.blockno xs ≡ none
    → holds x dev k ≡ true
    → holds c dev k ≡ false
apart_lem id c x xs dev k found alone hit =
    let missed = by_id_missed id x.dev x.blockno xs {c = c} found alone in ground arith

pub cached-unlink :
    (id : ℕ) (c : Buf) (bs : List Buf) (dev k : ℕ)
    → IsUnique bs
    → by_id id bs ≡ some c
    → (dev == no_dev) ≡ false
    → cached dev k (unlink id bs) ≡ lookup_without c dev k (cached dev k bs)
unfolding unlink by_id cached
cached-unlink id c [] dev k unique found used = cc
cached-unlink id c (x ∷ xs) dev k (first, unique) found used = elim (Bool-cases (x.id == id)) [
  | inl same ↦ ground (arith, first, found)
  | inr other ↦
      let rest = cached-unlink id c xs dev k unique (rw other at found) used in
      elim (Bool-cases (holds x dev k)) [
        | inl hit ↦
            let apart = apart_lem id c x xs dev k (rw other at found) (first (ground arith)) hit in
            rw (other, hit, apart) refl
        | inr miss ↦ rw (other, miss) rest
      ]
]

unlink-IsUnique :
    (id : ℕ) (c : Buf) (bs : List Buf)
    → IsUnique bs
    → by_id id bs ≡ some c
    → IsUnique (unlink id bs)
unfolding unlink by_id cached
unlink-IsUnique id c [] unique found = tt
unlink-IsUnique id c (x ∷ xs) (first, unique) found = elim (Bool-cases (x.id == id)) [
  | inl same ↦ rw same unique
  | inr other ↦ rw other (
    λ used.
        (let rest = cached-unlink id c xs x.dev x.blockno unique (rw other at found) used in
          ground (arith, rest, first used)),
    unlink-IsUnique id c xs unique (rw other at found),
  )
]

unlink-AllAgree :
    (disk : Disk) (id : ℕ) (bs : List Buf) → AllAgree disk bs → AllAgree disk (unlink id bs)
unfolding unlink
unlink-AllAgree disk id [] agree = tt
unlink-AllAgree disk id (x ∷ xs) (x_agrees, agree) = elim (Bool-cases (x.id == id)) [
  | inl same ↦ rw same agree
  | inr other ↦ rw other (x_agrees, unlink-AllAgree disk id xs agree)
]

unlink-has_id : (id i : ℕ) (bs : List Buf) → has_id i bs ≡ false → has_id i (unlink id bs) ≡ false
unfolding unlink
unlink-has_id id i [] fresh = refl
unlink-has_id id i (x ∷ xs) fresh =
    let rest = unlink-has_id id i xs (ground arith) in ground (arith, rest)

unlink-Distinct :
    (id : ℕ) (bs : List Buf)
    → Distinct bs
    → Distinct (unlink id bs) × (has_id id (unlink id bs) ≡ false)
unfolding unlink
unlink-Distinct id [] distinct = (tt, refl)
unlink-Distinct id (x ∷ xs) (fresh, distinct) = elim (Bool-cases (x.id == id)) [
  | inl same ↦ rw same (distinct, ground arith)
  | inr other ↦
      let (rest, gone) = unlink-Distinct id xs distinct in
      rw other ((unlink-has_id id x.id xs fresh, rest), ground (arith, gone))
]

-- The buffer `b` is in the list and busy, and unless it is dirty, a valid buffer's bytes are on
-- the disk, as `bread` and `bwrite` leave them.
abbrev pub MayRelease : Cache → Buf → Type 0
MayRelease c b =
    (by_id b.id c.bufs ≡ some b) × (b.busy ≡ true) × Agrees c.disk (record b { busy = false })

abbrev pub Released : Cache → Buf → Cache → Type 0
Released c b c' =
    IsCache c'.bufs c'.disk
    × (by_id b.id c'.bufs ≡ some (record b { busy = false }))
    × ((k : ℕ) → view c'.bufs c'.disk k ≡ view c.bufs c.disk k)
    × (c'.woken ≡ b.id ∷ c.woken)
    × (b.dirty ≡ false → any_free c'.bufs ≡ true)

released_lem :
    (c : Cache) (b : Buf)
    → IsCache c.bufs c.disk
    → MayRelease c b
    → Released c b
        (record c { bufs = record b { busy = false } ∷ unlink b.id c.bufs; woken = b.id ∷ c.woken })
unfolding view cached by_id
released_lem c b (unique, distinct, agree) (found, busy, agrees) =
    let (others, gone) = unlink-Distinct b.id c.bufs distinct in
    (
      (
        (
          (λ used.
              (let rest = cached-unlink b.id b c.bufs b.dev b.blockno unique found used in
                ground (arith, rest))),
          unlink-IsUnique b.id b c.bufs unique found,
        ),
        (gone, others),
        (agrees, unlink-AllAgree c.disk b.id c.bufs agree),
      ),
      ground arith,
      λ k.
          (let rest = cached-unlink b.id b c.bufs 1 k unique found (ground arith) in
            elim (Bool-cases (holds b 1 k)) [
              | inl hit ↦
                  (let before = by_id-cached b.id c.bufs {b = b} unique found (ground arith) in
                    ground (arith, rest, before))
              | inr miss ↦ ground (arith, rest)
            ]),
      refl,
      λ clean. ground arith,
    )

-- `brelse` of a busy buffer of a cache that keeps the invariants, if the buffer is dirty or its
-- bytes are those on the disk: it succeeds, no block changes its contents, the sleepers on the buffer
-- are woken, a buffer that is not dirty is free to be recycled, and the invariants hold again.
pub brelse_lem :
    (c : Cache) (b : Buf)
    → IsCache c.bufs c.disk
    → MayRelease c b
    → (b' : Buf) × (c' : Cache) × (brelse b c ≡ done b' c') × Released c b c'
unfolding brelse
brelse_lem c b ok (found, busy, agrees) = (
  record b { busy = false },
  record c { bufs = record b { busy = false } ∷ unlink b.id c.bufs; woken = b.id ∷ c.woken },
  ground arith,
  released_lem c b ok (found, busy, agrees),
)
