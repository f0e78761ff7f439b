-- ===== src/Bio/Contract.antt =====
-- What the callers of bio.c rely on: `bread`, `bwrite` and `brelse` against the contents of the blocks.
use course_work_sem.Base.{
  ℕ, ◌≡◌, refl, ap, subst, sym, ◌∙◌, true, false, none, some, List, [], ◌∷◌, arith, ◌==◌,
  Bool-cases, Option-cases, inl, inr,
}
use course_work_sem.Bio.{
  Buf, Disk, holds, cached, is_free, renew, assign, bget, recycle, mark_busy, Get, got, get_sleeps,
  no_buffers,
}
use course_work_sem.Bio.View.{
  buffered, view, IsUnique, Agrees, AllAgree, Distinct, by_id, by_id-has_id, by_id-cached,
  cached-by_id,
}
use course_work_sem.Bio.Assign.{
  assign-Distinct, assign-AllAgree, assign-by_id, assign-IsUnique, cached-assign, MayHold,
}
use course_work_sem.Bio.Recycle.{recycle-Renewed, recycle_fails, any_free, mark_busy-assign}

-- At most one buffer for a block, each buffer once in the list, and every buffer that nobody holds
-- agrees with the disk unless it is dirty.
abbrev pub IsCache : List Buf → Disk → Type 0
IsCache bs disk = IsUnique bs × Distinct bs × AllAgree disk bs

pub assign-IsCache :
    (bs : List Buf) (disk : Disk) (b c : Buf)
    → IsCache bs disk
    → by_id b.id bs ≡ some c
    → MayHold b c bs
    → Agrees disk b
    → IsCache (assign b bs) disk × (by_id b.id (assign b bs) ≡ some b)
assign-IsCache bs disk b c (unique, distinct, agree) found may b_agrees = (
  (
    assign-IsUnique b c bs unique found may,
    assign-Distinct b bs distinct,
    assign-AllAgree disk b bs agree b_agrees,
  ),
  assign-by_id b bs (by_id-has_id b.id bs {c = c} found).0,
)

pub by_id-Agrees :
    (id : ℕ) (disk : Disk) (bs : List Buf) {c : Buf}
    → AllAgree disk bs
    → by_id id bs ≡ some c
    → Agrees disk c
unfolding by_id
by_id-Agrees id disk [] agree found = cc
by_id-Agrees id disk (x ∷ xs) {c = c} (x_agrees, agree) found = elim (Bool-cases (x.id == id)) [
  | inl same ↦ (λ a b d e. ground (arith, found, x_agrees), ground (arith, found, x_agrees))
  | inr other ↦ by_id-Agrees id disk xs {c = c} agree (rw other at found)
]

-- A buffer replaced by one for the same block and with the same contents leaves all contents as they are.
pub view_same :
    (bs : List Buf) (disk : Disk) (b c : Buf)
    → IsUnique bs
    → by_id b.id bs ≡ some c
    → b.dev ≡ c.dev
    → b.blockno ≡ c.blockno
    → (b.dev ≡ 1 → buffered (some b) (disk b.blockno) ≡ buffered (some c) (disk b.blockno))
    → (k : ℕ) → view (assign b bs) disk k ≡ view bs disk k
unfolding view
view_same bs disk b c unique found d n same k =
    let after = cached-assign b c bs 1 k unique found (inl (ground arith)) (ground arith) in
    elim (Bool-cases (holds b 1 k)) [
      | inl hit ↦
          let before = by_id-cached b.id bs {b = c} unique found (ground arith) in
          ground (arith, after, before, same)
      | inr miss ↦ ground (arith, after)
    ]

pub view-renew :
    (bs : List Buf) (disk : Disk) (dev blockno : ℕ) (c : Buf)
    → IsCache bs disk
    → by_id c.id bs ≡ some c
    → is_free c ≡ true
    → cached dev blockno bs ≡ none
    → (k : ℕ) → view (assign (renew dev blockno c) bs) disk k ≡ view bs disk k
unfolding view
view-renew bs disk dev blockno c (unique, distinct, agree) found free miss k =
    let after =
      cached-assign (renew dev blockno c) c bs 1 k unique found (inr miss) (ground arith) in
    let agrees = by_id-Agrees c.id disk bs {c = c} agree found in
    elim (Bool-cases (holds c 1 k)) [
      | inl hit ↦
          let before = by_id-cached c.id bs {b = c} unique found (ground arith) in
          ground (arith, after, before, agrees, miss)
      | inr no_hit ↦ ground (arith, after, miss)
    ]

-- The buffer handed out is for the block, busy, and in the list; no contents change.
abbrev pub Gotten : List Buf → Disk → ℕ → ℕ → Buf → List Buf → Type 0
Gotten bs disk dev blockno b cs =
    IsCache cs disk
    × (by_id b.id cs ≡ some b)
    × (b.busy ≡ true)
    × (b.dev ≡ dev)
    × (b.blockno ≡ blockno)
    × (b.dirty ≡ true → b.valid ≡ true)
    × ((k : ℕ) → view cs disk k ≡ view bs disk k)

abbrev pub GetOutcome : List Buf → Disk → ℕ → ℕ → Get → Type 0
GetOutcome bs disk dev blockno (got b cs) = Gotten bs disk dev blockno b cs
GetOutcome bs disk dev blockno (get_sleeps id) =
    (b : Buf) × (cached dev blockno bs ≡ some b) × (b.busy ≡ true) × (b.id ≡ id)
GetOutcome bs disk dev blockno no_buffers = (cached dev blockno bs ≡ none) × (any_free bs ≡ false)

cached-Gotten :
    (bs : List Buf) (disk : Disk) (dev blockno : ℕ) (b : Buf)
    → IsCache bs disk
    → cached dev blockno bs ≡ some b
    → Gotten bs disk dev blockno (record b { busy = true }) (mark_busy dev blockno bs)
cached-Gotten bs disk dev blockno b (unique, distinct, agree) hit =
    let found = cached-by_id dev blockno bs {b = b} distinct hit in
    let b' : Buf = record b { busy = true } in
    let agrees = by_id-Agrees b.id disk bs {c = b} agree found.0 in
    let kept =
      assign-IsCache bs disk b' b (unique, distinct, agree) found.0 (inl (ground arith))
        ((λ e. cc), agrees.1) in
    rw (mark_busy-assign dev blockno bs {b = b} distinct hit) (
      kept.0,
      kept.1,
      refl,
      ground (arith, found.1),
      ground (arith, found.1),
      agrees.1,
      view_same bs disk b' b unique found.0 refl refl (λ e. refl),
    )

recycle-Gotten :
    (bs : List Buf) (disk : Disk) (dev blockno : ℕ) (b : Buf) (cs : List Buf)
    → IsCache bs disk
    → cached dev blockno bs ≡ none
    → recycle dev blockno bs ≡ some (b, cs)
    → Gotten bs disk dev blockno b cs
recycle-Gotten bs disk dev blockno b cs (unique, distinct, agree) miss e =
    let (c, found, free, new, after) =
      recycle-Renewed dev blockno bs {b = b} {cs = cs} e distinct in
    let c' : Buf = renew dev blockno c in
    let found' : by_id c.id bs ≡ some c = subst (λ x. by_id x.id bs ≡ some c) new found in
    let kept =
      assign-IsCache bs disk c' c (unique, distinct, agree) found' (inr miss)
        ((λ e. cc), (λ e. cc)) in
    let all : Gotten bs disk dev blockno c' (assign c' bs) = (
      kept.0,
      kept.1,
      refl,
      refl,
      refl,
      (λ e. cc),
      view-renew bs disk dev blockno c (unique, distinct, agree) found' free miss,
    ) in
    let after' : cs ≡ assign c' bs = after ∙ ap (λ x. assign x bs) new in
    subst (λ x. Gotten bs disk dev blockno x cs) (sym new)
      (subst (λ ys. Gotten bs disk dev blockno c' ys) (sym after') all)

bget_eq :
    (dev blockno : ℕ) (bs : List Buf)
    → ((b : Buf)
        → cached dev blockno bs ≡ some b
        → b.busy ≡ true
        → bget dev blockno bs ≡ get_sleeps b.id)
      × ((b : Buf)
          → cached dev blockno bs ≡ some b
          → b.busy ≡ false
          → bget dev blockno bs ≡ got (record b { busy = true }) (mark_busy dev blockno bs))
      × ((b : Buf) (cs : List Buf)
          → cached dev blockno bs ≡ none
          → recycle dev blockno bs ≡ some (b, cs)
          → bget dev blockno bs ≡ got b cs)
      × (cached dev blockno bs ≡ none
          → recycle dev blockno bs ≡ none
          → bget dev blockno bs ≡ no_buffers)
unfolding bget
bget_eq dev blockno bs = (
  λ b e h. ground (arith, e, h),
  λ b e h. ground (arith, e, h),
  λ b cs e h. ground (arith, e, h),
  λ e h. ground (arith, e, h),
)

pub bget_lem :
    (bs : List Buf) (disk : Disk) (dev blockno : ℕ)
    → IsCache bs disk
    → GetOutcome bs disk dev blockno (bget dev blockno bs)
bget_lem bs disk dev blockno ok =
    let (sleeping, hitting, recycling, failing) = bget_eq dev blockno bs in
    elim (Option-cases (cached dev blockno bs)) [
      | inr (b, hit) ↦ elim (Bool-cases b.busy) [
        | inl busy ↦ rw (sleeping b hit busy) (b, hit, busy, refl)
        | inr free ↦ rw (hitting b hit free) (cached-Gotten bs disk dev blockno b ok hit)
      ]
      | inl miss ↦ elim (Option-cases (recycle dev blockno bs)) [
        | inr ((b, cs), e) ↦
            rw (recycling b cs miss e) (recycle-Gotten bs disk dev blockno b cs ok miss e)
        | inl e ↦ rw (failing miss e) (miss, recycle_fails dev blockno bs e)
      ]
    ]
