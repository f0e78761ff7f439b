-- ===== src/Bio/Assign.antt =====
-- What an assignment through the pointer to a buffer does to the lookups and to the invariants.
use course_work_sem.Base.{
  ℕ, ◌≡◌, ◌⊎◌, refl, true, false, Option, none, some, List, [], ◌∷◌, arith, ◌==◌, if◌then◌else◌,
  Bool-cases, inl, inr,
}
use course_work_sem.Bio.{Buf, Disk, no_dev, holds, cached, assign}
use course_work_sem.Bio.View.{IsUnique, Agrees, AllAgree, has_id, Distinct, by_id, by_id_missed}

pub assign-has_id : (id : ℕ) (b : Buf) (bs : List Buf) → has_id id (assign b bs) ≡ has_id id bs
unfolding assign
assign-has_id id b [] = refl
assign-has_id id b (c ∷ cs) =
    let rest = assign-has_id id b cs in
    elim (Bool-cases (c.id == b.id)) [
      | inl same ↦ ground arith
      | inr other ↦ rw other (rw rest refl)
    ]

pub assign-Distinct : (b : Buf) (bs : List Buf) → Distinct bs → Distinct (assign b bs)
unfolding assign
assign-Distinct b [] distinct = tt
assign-Distinct b (c ∷ cs) (fresh, distinct) = elim (Bool-cases (c.id == b.id)) [
  | inl same ↦ rw same (ground arith, distinct)
  | inr other ↦ rw other (rw (assign-has_id c.id b cs) fresh, assign-Distinct b cs distinct)
]

pub assign-AllAgree :
    (disk : Disk) (b : Buf) (bs : List Buf)
    → AllAgree disk bs
    → Agrees disk b
    → AllAgree disk (assign b bs)
unfolding assign
assign-AllAgree disk b [] agree b_agrees = tt
assign-AllAgree disk b (c ∷ cs) (c_agrees, agree) b_agrees = elim (Bool-cases (c.id == b.id)) [
  | inl same ↦ rw same (b_agrees, agree)
  | inr other ↦ rw other (c_agrees, assign-AllAgree disk b cs agree b_agrees)
]

pub assign-by_id :
    (b : Buf) (bs : List Buf) → has_id b.id bs ≡ true → by_id b.id (assign b bs) ≡ some b
unfolding assign by_id
assign-by_id b [] known = cc
assign-by_id b (c ∷ cs) known = elim (Bool-cases (c.id == b.id)) [
  | inl same ↦ rw same (ground arith)
  | inr other ↦ rw other (rw other (assign-by_id b cs (rw other at known)))
]

-- The buffer `c` may become one for the block of `b`: it is that already, or no buffer is.
abbrev pub MayHold : Buf → Buf → List Buf → Type 0
MayHold b c bs = (holds c b.dev b.blockno ≡ true) ⊎ (cached b.dev b.blockno bs ≡ none)

abbrev pub lookup_after : Buf → Buf → ℕ → ℕ → Option Buf → Option Buf
lookup_after b c dev k before =
    if holds b dev k then some b else if holds c dev k then none else before

-- A buffer in front of `c` for some block rules out that `b` is for this block.
apart_from_held :
    (b c x : Buf) (xs : List Buf) (dev k : ℕ)
    → by_id b.id xs ≡ some c
    → cached x.dev x.blockno xs ≡ none
    → MayHold b c (x ∷ xs)
    → holds x dev k ≡ true
    → (holds b dev k ≡ false) × (holds c dev k ≡ false)
unfolding cached
apart_from_held b c x xs dev k found alone (inl same) hit =
    let missed = by_id_missed b.id x.dev x.blockno xs {c = c} found alone in
    (ground arith, ground arith)
apart_from_held b c x xs dev k found alone (inr new) hit =
    let missed = by_id_missed b.id x.dev x.blockno xs {c = c} found alone in
    (ground arith, ground arith)

MayHold-rest : (b c x : Buf) (xs : List Buf) → MayHold b c (x ∷ xs) → MayHold b c xs
unfolding cached
MayHold-rest b c x xs (inl same) = inl same
MayHold-rest b c x xs (inr new) = inr (ground (arith, new))

pub cached-assign :
    (b c : Buf) (bs : List Buf) (dev k : ℕ)
    → IsUnique bs
    → by_id b.id bs ≡ some c
    → MayHold b c bs
    → (dev == no_dev) ≡ false
    → cached dev k (assign b bs) ≡ lookup_after b c dev k (cached dev k bs)
unfolding assign by_id cached
cached-assign b c [] dev k unique found may used = cc
cached-assign b c (x ∷ xs) dev k (first, unique) found may used = elim (Bool-cases (x.id == b.id)) [
  | inl same ↦ ground (arith, first, found)
  | inr other ↦
      let rest =
        cached-assign b c xs dev k unique (rw other at found) (MayHold-rest b c x xs may) used in
      elim (Bool-cases (holds x dev k)) [
        | inl hit ↦
            let alone = first (ground arith) in
            let apart = apart_from_held b c x xs dev k (rw other at found) alone may hit in
            rw (other, hit, apart.0, apart.1) refl
        | inr miss ↦ rw (other, miss) rest
      ]
]

pub assign-IsUnique :
    (b c : Buf) (bs : List Buf)
    → IsUnique bs
    → by_id b.id bs ≡ some c
    → MayHold b c bs
    → IsUnique (assign b bs)
unfolding assign by_id cached
assign-IsUnique b c [] unique found may = tt
assign-IsUnique b c (x ∷ xs) (first, unique) found may = elim (Bool-cases (x.id == b.id)) [
  | inl same ↦ rw same (
    λ used. elim may [ inl e ↦ ground (arith, e, first, found) | inr e ↦ ground (arith, e) ],
    unique,
  )
  | inr other ↦
      let rest = assign-IsUnique b c xs unique (rw other at found) (MayHold-rest b c x xs may) in
      rw other (
        λ used.
            (let apart =
                apart_from_held b c x xs x.dev x.blockno (rw other at found) (first used) may
                  (ground arith) in
              let after =
                cached-assign b c xs x.dev x.blockno unique (rw other at found)
                  (MayHold-rest b c x xs may) used in
              ground (arith, first used)),
        rest,
      )
]
