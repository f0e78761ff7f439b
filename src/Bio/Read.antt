-- ===== src/Bio/Read.antt =====
-- `bread` of bio.c on every branch.
use course_work_sem.Base.{
  ℕ, ◌<◌, ◌≡◌, refl, ◌∙◌, true, false, none, some, List, arith, Bool-cases, inl, inr,
}
use course_work_sem.Bio.{
  Buf, Disk, cached, Cache, assign, bread, bread_after, iderw, bget, Get, Out, done, sleeps, panic,
  got, get_sleeps, no_buffers,
}
use course_work_sem.Bio.View.{buffered, view, IsUnique, by_id, by_id-cached}
use course_work_sem.Bio.Recycle.{any_free}
use course_work_sem.Bio.Contract.{IsCache, assign-IsCache, view_same, Gotten, GetOutcome, bget_lem}

-- A buffer for the block, busy, valid, in the list, and with the contents of the block.
abbrev pub Bread : Cache → ℕ → Buf → Cache → Type 0
Bread c blockno b c' =
    IsCache c'.bufs c'.disk
    × (by_id b.id c'.bufs ≡ some b)
    × (b.busy ≡ true)
    × (b.valid ≡ true)
    × (b.dev ≡ 1)
    × (b.blockno ≡ blockno)
    × (b.bytes ≡ view c.bufs c.disk blockno)
    × ((k : ℕ) → view c'.bufs c'.disk k ≡ view c.bufs c.disk k)
    × (c'.disk ≡ c.disk)

abbrev pub ReadOutcome : Cache → ℕ → Out → Type 0
ReadOutcome c blockno (done b c') = Bread c blockno b c'
ReadOutcome c blockno (sleeps id) =
    (b : Buf) × (cached 1 blockno c.bufs ≡ some b) × (b.busy ≡ true) × (b.id ≡ id)
ReadOutcome c blockno panic = (cached 1 blockno c.bufs ≡ none) × (any_free c.bufs ≡ false)

-- A busy buffer in the list decides what its block holds.
pub view_held :
    (bs : List Buf) (disk : Disk) (b : Buf) (blockno : ℕ)
    → IsUnique bs
    → by_id b.id bs ≡ some b
    → b.dev ≡ 1
    → b.blockno ≡ blockno
    → view bs disk blockno ≡ buffered (some b) (disk blockno)
unfolding view
view_held bs disk b blockno unique found d n =
    let hit = by_id-cached b.id bs {b = b} unique found (ground arith) in ground (arith, hit)

bread_after_kept :
    (disksize : ℕ) (c : Cache) (b : Buf) (bs : List Buf)
    → b.valid ≡ true
    → bread_after disksize c (got b bs) ≡ done b (record c { bufs = bs })
unfolding bread_after
bread_after_kept disksize c b bs valid = ground arith

bread_valid :
    (disksize : ℕ) (c : Cache) (blockno : ℕ) (b : Buf) (bs : List Buf)
    → Gotten c.bufs c.disk 1 blockno b bs
    → b.valid ≡ true
    → ReadOutcome c blockno (bread_after disksize c (got b bs))
bread_valid disksize c blockno b bs (ok, found, busy, d, n, dirty, same) valid =
    let held = view_held bs c.disk b blockno ok.0 found d n in
    rw (bread_after_kept disksize c b bs valid)
      (ok, found, busy, valid, d, n, ground (arith, held, same blockno), same, refl)

abbrev filled : Cache → Buf → Buf
filled c b = record b { bytes = c.disk b.blockno; valid = true }

bread_after_fill :
    (disksize : ℕ) (c : Cache) (b : Buf) (bs : List Buf)
    → b.busy ≡ true
    → b.valid ≡ false
    → b.dirty ≡ false
    → b.dev ≡ 1
    → (b.blockno < disksize)
    → bread_after disksize c (got b bs)
      ≡ done (filled c b) (record c { bufs = assign (filled c b) bs })
unfolding bread_after iderw
bread_after_fill disksize c b bs busy invalid clean d small = ground arith

bread_invalid :
    (disksize : ℕ) (c : Cache) (blockno : ℕ) (b : Buf) (bs : List Buf)
    → blockno < disksize
    → Gotten c.bufs c.disk 1 blockno b bs
    → b.valid ≡ false
    → ReadOutcome c blockno (bread_after disksize c (got b bs))
bread_invalid disksize c blockno b bs small (ok, found, busy, d, n, dirty, same) invalid =
    let b' : Buf = filled c b in
    let clean : b.dirty ≡ false = ground arith in
    let kept =
      assign-IsCache bs c.disk b' b ok found (inl (ground arith)) ((λ e. cc), (λ e. refl)) in
    let eq = view_same bs c.disk b' b ok.0 found refl refl (λ e. ground arith) in
    let held = view_held bs c.disk b blockno ok.0 found d n in
    rw (bread_after_fill disksize c b bs busy invalid clean d (ground arith)) (
      kept.0,
      kept.1,
      busy,
      refl,
      d,
      n,
      ground (arith, held, same blockno),
      (λ k. eq k ∙ same k),
      refl,
    )

bread_after_outcome :
    (disksize blockno : ℕ) (c : Cache)
    → blockno < disksize
    → (g : Get) → GetOutcome c.bufs c.disk 1 blockno g
    → ReadOutcome c blockno (bread_after disksize c g)
unfolding bread_after
bread_after_outcome disksize blockno c small (got b bs) out = elim (Bool-cases b.valid) [
  | inl valid ↦ bread_valid disksize c blockno b bs out valid
  | inr invalid ↦ bread_invalid disksize c blockno b bs small out invalid
]
bread_after_outcome disksize blockno c small (get_sleeps id) out = out
bread_after_outcome disksize blockno c small no_buffers out = out

-- `bread` of a block on the disk, in a cache that keeps the invariants: either it returns a busy and
-- valid buffer for the block, with the block's current contents, no block changes its contents and
-- the invariants hold again; or it sleeps on the buffer of this block, which is busy; or it panics,
-- and then the block has no buffer and every buffer is busy or dirty.
pub bread_lem :
    (disksize blockno : ℕ) (c : Cache)
    → IsCache c.bufs c.disk
    → blockno < disksize
    → ReadOutcome c blockno (bread disksize 1 blockno c)
unfolding bread
bread_lem disksize blockno c ok small =
    bread_after_outcome disksize blockno c small (bget 1 blockno c.bufs)
      (bget_lem c.bufs c.disk 1 blockno ok)
