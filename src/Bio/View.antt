-- ===== src/Bio/View.antt =====
-- What the cache and the disk together hold for a block, and the invariants of the cache.
use course_work_sem.Base.{
  ℕ, ◌≡◌, Bool, true, false, ◌||◌, Option, none, some, List, [], ◌∷◌, arith, ◌==◌, if◌then◌else◌,
  Bool-cases, inl, inr,
}
use course_work_sem.Bio.{Buf, Disk, Contents, no_dev, holds, cached}

-- The current contents of a block of disk 1: those of a valid buffer, or else the disk's.
abbrev pub buffered : Option Buf → Contents → Contents
buffered none d = d
buffered (some b) d = if b.valid then b.bytes else d

unfoldable pub view : List Buf → Disk → ℕ → Contents
unfolding cached
view bs disk blockno = buffered (cached 1 blockno bs) (disk blockno)

abbrev pub is_none : Option Buf → Bool
is_none none = true
is_none (some b) = false

-- At most one buffer for a block; unused buffers have no device.
abbrev pub IsUnique : List Buf → Type 0
IsUnique [] = Unit {0}
IsUnique (b ∷ bs) = ((b.dev == no_dev) ≡ false → cached b.dev b.blockno bs ≡ none) × IsUnique bs

-- A buffer that nobody holds agrees with the disk unless it is dirty; a dirty buffer is valid.
abbrev pub Agrees : Disk → Buf → Type 0
Agrees disk b =
    (b.busy ≡ false → b.valid ≡ true → b.dirty ≡ false → b.dev ≡ 1 → b.bytes ≡ disk b.blockno)
    × (b.dirty ≡ true → b.valid ≡ true)

abbrev pub AllAgree : Disk → List Buf → Type 0
AllAgree disk [] = Unit {0}
AllAgree disk (b ∷ bs) = Agrees disk b × AllAgree disk bs

-- the identities are distinct
abbrev pub has_id : ℕ → List Buf → Bool
has_id id [] = false
has_id id (b ∷ bs) = (b.id == id) || has_id id bs

abbrev pub Distinct : List Buf → Type 0
Distinct [] = Unit {0}
Distinct (b ∷ bs) = (has_id b.id bs ≡ false) × Distinct bs

-- the buffer with an identity
unfoldable pub by_id : ℕ → List Buf → Option Buf
by_id id [] = none
by_id id (b ∷ bs) = if b.id == id then some b else by_id id bs

-- What holds of a buffer in the list when no buffer is for the block.
pub by_id_missed :
    (id dev blockno : ℕ) (bs : List Buf) {c : Buf}
    → by_id id bs ≡ some c
    → cached dev blockno bs ≡ none
    → holds c dev blockno ≡ false
unfolding cached by_id
by_id_missed id dev blockno [] found e = cc
by_id_missed id dev blockno (b ∷ bs) {c = c} found e = elim (Bool-cases (b.id == id)) [
  | inl here ↦ ground arith
  | inr later ↦ elim (Bool-cases (holds b dev blockno)) [
    | inl hit ↦ ground arith
    | inr miss ↦ by_id_missed id dev blockno bs {c = c} (rw later at found) (rw miss at e)
  ]
]

pub by_id-has_id :
    (id : ℕ) (bs : List Buf) {c : Buf} → by_id id bs ≡ some c → (has_id id bs ≡ true) × (c.id ≡ id)
unfolding by_id
by_id-has_id id [] found = cc
by_id-has_id id (b ∷ bs) {c = c} found = elim (Bool-cases (b.id == id)) [
  | inl here ↦ (ground arith, ground arith)
  | inr later ↦
      let rest = by_id-has_id id bs {c = c} (rw later at found) in (ground (arith, rest.0), rest.1)
]

-- A buffer that the search by block finds is the one its identity names.
pub cached-by_id :
    (dev blockno : ℕ) (bs : List Buf) {b : Buf}
    → Distinct bs
    → cached dev blockno bs ≡ some b
    → (by_id b.id bs ≡ some b) × (holds b dev blockno ≡ true)
unfolding cached by_id
cached-by_id dev blockno [] distinct e = cc
cached-by_id dev blockno (c ∷ cs) {b = b} (fresh, distinct) e =
    elim (Bool-cases (holds c dev blockno)) [
      | inl hit ↦ (ground arith, ground arith)
      | inr miss ↦
          let rest = cached-by_id dev blockno cs {b = b} distinct (rw miss at e) in
          let known = by_id-has_id b.id cs {c = b} rest.0 in
          elim (Bool-cases (c.id == b.id)) [
            | inl same ↦ absurd (ground (arith, known.0))
            | inr other ↦ (rw other rest.0, rest.1)
          ]
    ]

pub by_id-cached :
    (id : ℕ) (bs : List Buf) {b : Buf}
    → IsUnique bs
    → by_id id bs ≡ some b
    → (b.dev == no_dev) ≡ false
    → cached b.dev b.blockno bs ≡ some b
unfolding cached by_id
by_id-cached id [] unique found used = cc
by_id-cached id (c ∷ cs) {b = b} (first, unique) found used = elim (Bool-cases (c.id == id)) [
  | inl here ↦ ground arith
  | inr later ↦
      let rest = by_id-cached id cs {b = b} unique (rw later at found) used in
      elim (Bool-cases (holds c b.dev b.blockno)) [
        | inl hit ↦ ground (arith, rest, first)
        | inr miss ↦ rw miss rest
      ]
]
