-- ===== src/Log/Ops.antt =====
-- begin_op, log_write and end_op: how a transaction grows, and the space that is set aside for it.
use course_work_sem.Base.{
  ℕ, zero, suc, ◌+◌, ◌*◌, ◌-◌, ◌<◌, ◌≤◌, ◌≡◌, refl, sym, subst, Bool, true, false, not, ◌&&◌, ◌||◌,
  Option, none, some, List, [], ◌∷◌, arith, length, get_or, ◌==◌, if◌then◌else◌, update, Bool-cases,
  inl, inr,
}
use native.Mathlib.Decide.{dec_lt}
use course_work_sem.Log.{
  Block, Log, logsize, maxopblocks, bread, absorb, log_write, begin_op, started, end_op,
  end_op_enter, commit,
}
use course_work_sem.Log.Crash.{Disk, has, in_log}
use course_work_sem.Log.Commit.{Ready, current}

has-absorb : (lh : List ℕ) (b c : ℕ) → has c (absorb lh b) ≡ ((b == c) || has c lh)
unfolding absorb
has-absorb [] b c = ground arith
has-absorb (x ∷ xs) b c = ground (arith, has-absorb xs b c)

-- Absorption: a block that is logged already takes no further place.
pub length-absorb :
    (lh : List ℕ) (b : ℕ) → length (absorb lh b) ≡ (if has b lh then length lh else length lh + 1)
unfolding absorb
length-absorb [] b = refl
length-absorb (x ∷ xs) b = ground (arith, length-absorb xs b)

absorb-outside :
    (P : ℕ → Bool) (lh : List ℕ) (b : ℕ)
    → ((i : ℕ) → i < length lh → P (get_or lh i 0) ≡ false)
    → P b ≡ false
    → (i : ℕ) → i < length (absorb lh b)
    → P (get_or (absorb lh b) i 0) ≡ false
unfolding absorb
absorb-outside P [] b h hb zero lt = hb
absorb-outside P [] b h hb (suc i) lt = absurd (omega arith)
absorb-outside P (x ∷ xs) b h hb i lt = elim (Bool-cases (x == b)) [
  | inl hit ↦ rw hit (found hit i (rw hit at lt))
  | inr miss ↦
      rw miss (other (absorb-outside P xs b (λ j lj. h (suc j) (omega arith)) hb) i (rw miss at lt))
]
  where
    found : (x == b) ≡ true → (i : ℕ) → i < suc (length xs) → P (get_or (b ∷ xs) i 0) ≡ false
    found hit zero lt = hb
    found hit (suc i) lt = h (suc i) lt

    other :
        ((i : ℕ) → i < length (absorb xs b) → P (get_or (absorb xs b) i 0) ≡ false)
        → (i : ℕ) → i < suc (length (absorb xs b))
        → P (get_or (x ∷ absorb xs b) i 0) ≡ false
    other rest zero lt = h 0 (omega arith)
    other rest (suc i) lt = rest i (omega arith)

abbrev pub written : ℕ → Block → Log → Log
written b d l = record l {
  lh = absorb l.lh b;
  store = record l.store { dirty = update l.store.dirty b (some d) };
}

log_write-some :
    (b : ℕ) (d : Block) (l m : Log)
    → log_write b d l ≡ some m
    → (m ≡ written b d l)
      × (length l.lh < logsize)
      × (length l.lh + 1 < l.size)
      × (0 < l.outstanding)
unfolding log_write
log_write-some b d l m e = (ground arith, ground arith, ground arith, ground arith)

pub log_write-fits :
    (b : ℕ) (d : Block) (l : Log)
    → length l.lh < logsize
    → length l.lh + 1 < l.size
    → 0 < l.outstanding
    → log_write b d l ≡ some (written b d l)
unfolding log_write
log_write-fits b d l fits room on = ground arith

pub log_write-overflow :
    (b : ℕ) (d : Block) (l : Log) → l.size ≤ length l.lh + 1 → log_write b d l ≡ none
unfolding log_write
log_write-overflow b d l h = ground arith

written-Ready :
    (b : ℕ) (d : Block) {l : Log} {old : Disk}
    → Ready l old
    → in_log l.start l.size b ≡ false
    → length l.lh < logsize
    → length l.lh + 1 < l.size
    → Ready (written b d l) old
written-Ready b d {l} {old} r out fits room = record {
  clean = r.clean;
  logged = record {
    fits = ground (arith, length-absorb l.lh b);
    below = ground (arith, length-absorb l.lh b);
    outside = absorb-outside (in_log l.start l.size) l.lh b r.logged.outside out;
  };
  no_dirty = λ c inside. ground (arith, r.no_dirty c inside);
  pinned = λ c o non. ground (arith, has-absorb l.lh b c, r.pinned c o);
  room = r.room;
}

-- A successful `log_write` of a block outside the log keeps the state ready for `commit`, with the
-- disk untouched, and makes `d` the current contents of block `b` and of no other block.
pub log_write-Ready :
    (b : ℕ) (d : Block) {l m : Log} {old : Disk}
    → Ready l old
    → in_log l.start l.size b ≡ false
    → log_write b d l ≡ some m
    → Ready m old × ((c : ℕ) → current m c ≡ (if b == c then d else current l c))
unfolding bread
log_write-Ready b d {l} {m} {old} r out e =
    let (same, fits, room, on) = log_write-some b d l m e in
    subst (λ k. Ready k old × ((c : ℕ) → current k c ≡ (if b == c then d else current l c)))
      (sym same) (written-Ready b d r out fits room, λ c. ground arith)

-- The log between calls, with what the operations under way may still write: `allowance` blocks in
-- all, at most MAXOPBLOCKS for each.
pub record Shared : Type 0 where
  pub log : Log
  pub allowance : ℕ

-- The calls of processes that keep to MAXOPBLOCKS blocks for an operation, in any order. At the end
-- of an operation `unused` of its blocks were not written.
pub data Step (s : Shared) : Shared → Type 0 where
  begin :
      {l : Log}
      → begin_op s.log ≡ started l
      → Step s (record { log = l; allowance = s.allowance + maxopblocks })
  write :
      (b : ℕ) (d : Block) {l : Log}
      → 0 < s.allowance
      → log_write b d s.log ≡ some l
      → Step s (record { log = l; allowance = s.allowance - 1 })
  end :
      (unused : ℕ) {l : Log}
      → 0 < s.log.outstanding
      → unused ≤ s.allowance
      → s.allowance ≤ unused + (s.log.outstanding - 1) * maxopblocks
      → end_op s.log ≡ some l
      → Step s (record { log = l; allowance = s.allowance - unused })

-- The blocks logged and those still allowed for fit into LOGSIZE.
pub record Reserved (s : Shared) : Type 0 where
  pub space : length s.log.lh + s.allowance ≤ logsize
  pub each : s.allowance ≤ s.log.outstanding * maxopblocks

begin_op-started :
    (l m : Log)
    → begin_op l ≡ started m
    → (m ≡ record l { outstanding = l.outstanding + 1 })
      × (length l.lh + (l.outstanding + 1) * maxopblocks ≤ logsize)
unfolding begin_op
begin_op-started l m e = (ground arith, ground arith)

end_op-some :
    (l m : Log)
    → end_op l ≡ some m
    → 0 < l.outstanding
    → (m.outstanding ≡ l.outstanding - 1) × (length m.lh ≤ length l.lh)
unfolding end_op end_op_enter commit
end_op-some l m e on = (ground arith, ground arith)

pub Step-Reserved : {s t : Shared} → Step s t → Reserved s → Reserved t
Step-Reserved {s} (begin {l} e) r =
    let (same, fits) = begin_op-started s.log l e in
    record { space = ground (arith, r.each); each = ground (arith, r.each) }
Step-Reserved {s} (write b d {l} some_ e) r =
    let (same, fits, room, on) = log_write-some b d s.log l e in
    record {
      space = ground (arith, length-absorb s.log.lh b, r.space);
      each = ground (arith, r.each);
    }
Step-Reserved {s} (end unused {l} on fits each e) r =
    let (out, lh) = end_op-some s.log l e on in
    record { space = omega (arith, r.space); each = ground (arith, r.each) }

-- If the log has a block more than LOGSIZE, an operation that has blocks left of its MAXOPBLOCKS
-- never meets a panic of `log_write`, in any state that keeps the reservation of `begin_op`.
pub log_write-succeeds :
    (s : Shared) (b : ℕ) (d : Block)
    → Reserved s
    → logsize < s.log.size
    → 0 < s.allowance
    → log_write b d s.log ≡ some (written b d s.log)
log_write-succeeds s b d r large more =
    log_write-fits b d s.log (omega (arith, r.space)) (omega (arith, r.space))
      (grind (arith, r.each))

-- `log_write` of one block after the other
pub log_writes : List (ℕ × Block) → Log → Option Log
log_writes [] l = some l
log_writes ((b, d) ∷ bs) l = elim (log_write b d l) [ none ↦ none | some m ↦ log_writes bs m ]

-- no block of `bs` is in the list or comes twice
unfoldable pub is_fresh : List ℕ → List (ℕ × Block) → Bool
unfolding absorb
is_fresh lh [] = true
is_fresh lh ((b, d) ∷ bs) = not (has b lh) && is_fresh (absorb lh b) bs

-- With the log of LOGSIZE blocks that mkfs makes, the reservation is one block too large: while
-- operations are under way, writing as many different blocks as fill the log to LOGSIZE, which is
-- what `begin_op` lets three operations do, ends in the panic "too big a transaction".
pub log_writes-panic :
    (bs : List (ℕ × Block)) (l : Log)
    → l.size ≡ logsize
    → length l.lh < logsize
    → 0 < l.outstanding
    → logsize ≤ length l.lh + length bs
    → is_fresh l.lh bs ≡ true
    → log_writes bs l ≡ none
unfolding log_writes is_fresh
log_writes-panic [] l size below on full f = absurd (omega arith)
log_writes-panic ((b, d) ∷ bs) l size below on full f = elim (dec_lt (length l.lh + 1) logsize) [
  | yes room ↦
      rw (log_write-fits b d l below (omega arith) on, log_writes)
        (log_writes-panic bs (written b d l) size (ground (arith, length-absorb l.lh b)) on
          (ground (arith, length-absorb l.lh b)) (ground arith))
  | no last ↦ rw (log_write-overflow b d l (omega arith), log_writes)
]
