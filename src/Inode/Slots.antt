-- ===== src/Inode/Slots.antt =====
-- The blocks that an inode names, and what a file's bytes are.
use course_work_sem.Base.{
  ℕ, ◌+◌, ◌-◌, ◌*◌, ◌/◌, ◌%◌, ◌<◌, ◌≤◌, ◌≡◌, ◌≢◌, ◌⊎◌, inl, inr, refl, ap, sym, ◌∙◌, true, ltb,
  ◌==◌, Bool-cases, if◌then◌else◌, arith,
}
use course_work_sem.Disk.{Fs, bsize, word_at}
use course_work_sem.Disk.Search.{used}
use course_work_sem.Disk.Alloc.{IsVolume, data_start}
use course_work_sem.Inode.{Inode, ndirect}

-- the pointers of the inode, then those of its indirect block; 0 where there is none
abbrev pub nslot : ℕ
nslot = 141

unfoldable pub slot : Inode → Fs → ℕ → ℕ
slot ip fs n =
    if ltb n 13
    then ip.addrs n
    else if ip.addrs ndirect == 0
    then 0
    else word_at (fs.disk (ip.addrs ndirect)) (4 * (n - 13))

pub slot_direct : (ip : Inode) (fs : Fs) (n : ℕ) → n < 13 → slot ip fs n ≡ ip.addrs n
unfolding slot
slot_direct ip fs n h = ground arith

pub slot_entry :
    (ip : Inode) (fs : Fs) (j : ℕ)
    → ip.addrs ndirect ≢ 0
    → slot ip fs (13 + j) ≡ word_at (fs.disk (ip.addrs ndirect)) (4 * j)
unfolding slot
slot_entry ip fs j h = let e : 13 + j - 13 ≡ j = omega arith in rw e (ground (arith, h))

pub slot_none : (ip : Inode) (fs : Fs) (n : ℕ) → 13 ≤ n → ip.addrs ndirect ≡ 0 → slot ip fs n ≡ 0
unfolding slot
slot_none ip fs n h e = ground (arith, e)

-- the slot of the block with number `bn` in the file
abbrev pub slot_of : ℕ → ℕ
slot_of bn = if ltb bn ndirect then bn else bn + 1

-- A block of the data area, in use.
pub record IsBlock (fs : Fs) (b : ℕ) : Type 0 where
  pub high : data_start fs.sb ≤ b
  pub fits : b < fs.sb.size
  pub taken : used fs b ≡ true

pub record IsFile (ip : Inode) (fs : Fs) : Type 0 where
  pub volume : IsVolume fs
  pub owned : (n : ℕ) → n < nslot → slot ip fs n ≢ 0 → IsBlock fs (slot ip fs n)
  pub distinct :
      (n m : ℕ) → n < nslot → m < nslot → slot ip fs n ≢ 0 → slot ip fs n ≡ slot ip fs m → n ≡ m

-- a file's byte at an offset; a block that is not there reads as zeros
unfoldable pub file_byte : Inode → Fs → ℕ → ℕ
file_byte ip fs i =
    let a = slot ip fs (slot_of (i / bsize)) in if a == 0 then 0 else fs.disk a (i % bsize)

-- A block in use that is not one of this inode's.
pub record Foreign (ip : Inode) (fs : Fs) (c : ℕ) : Type 0 where
  pub block : IsBlock fs c
  pub other : (n : ℕ) → n < nslot → slot ip fs n ≢ c

-- The slots that the blocks with numbers `lo` to `hi` need: their own, and the one of the indirect block.
abbrev pub Needed : ℕ → ℕ → ℕ → Type 0
Needed lo hi n =
    ((n ≡ ndirect) × (ndirect ≤ hi)) ⊎ ((b : ℕ) × (lo ≤ b) × (b ≤ hi) × (n ≡ slot_of b))

-- The block `c` was put in a needed slot that was empty.
pub record Got (lo hi : ℕ) (ip : Inode) (fs : Fs) (ip' : Inode) (fs' : Fs) (c : ℕ) : Type 0 where
  pub place : ℕ
  pub fits : place < nslot
  pub needed : Needed lo hi place
  pub was_empty : slot ip fs place ≡ 0
  pub here : slot ip' fs' place ≡ c
  pub there : c ≢ 0

-- What does not change while blocks are allocated for the numbers `lo` to `hi` of an inode's file and
-- bytes are stored in them: the super block, everything before the free map, the blocks of other
-- owners, all of the inode but its pointers, and every pointer to a block; and a block that is
-- taken into use is one that the range needed and the inode did not have.
pub record Frame (lo hi : ℕ) (ip : Inode) (fs : Fs) (ip' : Inode) (fs' : Fs) : Type 0 where
  pub same_sb : fs'.sb ≡ fs.sb
  pub low_same : (c : ℕ) → c < fs.sb.bmapstart → fs'.disk c ≡ fs.disk c
  pub others : (c : ℕ) → Foreign ip fs c → Foreign ip' fs' c × (fs'.disk c ≡ fs.disk c)
  pub meta : ip' ≡ record ip { addrs = ip'.addrs }
  pub stays : (n : ℕ) → n < nslot → slot ip fs n ≢ 0 → slot ip' fs' n ≡ slot ip fs n
  pub taken :
      (c : ℕ) → c < fs.sb.size → used fs' c ≡ true → (used fs c ≡ true) ⊎ Got lo hi ip fs ip' fs' c

pub Frame-refl : (lo hi : ℕ) (ip : Inode) (fs : Fs) → Frame lo hi ip fs ip fs
Frame-refl lo hi ip fs = record {
  same_sb = refl;
  low_same = λ c h. refl;
  others = λ c f. (f, refl);
  meta = refl;
  stays = λ n h full. refl;
  taken = λ c h u. inl u;
}

abbrev with_addrs : (ℕ → ℕ) → Inode → Inode
with_addrs addrs ip = record ip { addrs = addrs }

module _ {lo hi : ℕ} {ip ip' ip'' : Inode} {fs fs' fs'' : Fs} (f : Frame lo hi ip fs ip' fs')
    (g : Frame lo hi ip' fs' ip'' fs'') where
  empty_before : (n : ℕ) → n < nslot → slot ip' fs' n ≡ 0 → slot ip fs n ≡ 0
  empty_before n h e = elim (Bool-cases (slot ip fs n == 0)) [
    | inl none_ ↦ ground (arith, none_)
    | inr some_ ↦
        let full : slot ip fs n ≢ 0 = λ z. ground (arith, some_, z) in
        absurd (full (sym (f.stays n h full) ∙ e))
  ]

  taken_trans :
      (c : ℕ)
      → c < fs.sb.size
      → used fs'' c ≡ true
      → (used fs c ≡ true) ⊎ Got lo hi ip fs ip'' fs'' c
  taken_trans c h u = elim (g.taken c (rw (f.same_sb) h) u) [
    | inl before ↦ elim (f.taken c h before) [
      | inl first ↦ inl first
      | inr got ↦ inr (record {
        place = got.place;
        fits = got.fits;
        needed = got.needed;
        was_empty = got.was_empty;
        here = g.stays got.place got.fits (λ z. got.there (sym got.here ∙ z)) ∙ got.here;
        there = got.there;
      })
    ]
    | inr got ↦ inr (record {
      place = got.place;
      fits = got.fits;
      needed = got.needed;
      was_empty = empty_before got.place got.fits got.was_empty;
      here = got.here;
      there = got.there;
    })
  ]

  pub Frame-trans : Frame lo hi ip fs ip'' fs''
  Frame-trans = record {
    same_sb = g.same_sb ∙ f.same_sb;
    low_same = λ c h. g.low_same c (rw (f.same_sb) h) ∙ f.low_same c h;
    others = λ c h. (let (h', e) = f.others c h in let (h'', e') = g.others c h' in (h'', e' ∙ e));
    meta = g.meta ∙ ap (with_addrs ip''.addrs) f.meta;
    stays = λ n h full. g.stays n h (λ z. full (sym (f.stays n h full) ∙ z)) ∙ f.stays n h full;
    taken = taken_trans;
  }

Needed-wide : (lo hi lo' hi' n : ℕ) → lo' ≤ lo → hi ≤ hi' → Needed lo hi n → Needed lo' hi' n
Needed-wide lo hi lo' hi' n low high (inl (e, h)) = inl (e, omega arith)
Needed-wide lo hi lo' hi' n low high (inr (b, l, h, e)) = inr (b, omega arith, omega arith, e)

-- for a larger range
pub Frame-wide :
    {lo hi : ℕ} (lo' hi' : ℕ) {ip ip' : Inode} {fs fs' : Fs}
    → lo' ≤ lo
    → hi ≤ hi'
    → Frame lo hi ip fs ip' fs'
    → Frame lo' hi' ip fs ip' fs'
Frame-wide {lo} {hi} lo' hi' low high f = record {
  same_sb = f.same_sb;
  low_same = f.low_same;
  others = f.others;
  meta = f.meta;
  stays = f.stays;
  taken = λ c h u. (elim (f.taken c h u) [
    | inl before ↦ inl before
    | inr got ↦ inr (record {
      place = got.place;
      fits = got.fits;
      needed = Needed-wide lo hi lo' hi' got.place low high got.needed;
      was_empty = got.was_empty;
      here = got.here;
      there = got.there;
    })
  ]);
}

-- A needed block is missing: the other needed blocks may have been allocated, nothing else has been,
-- and now every block of the disk is in use while a needed slot is empty.
pub record IsFull (lo hi : ℕ) (ip : Inode) (fs : Fs) : Type 0 where
  pub inode : Inode
  pub volume : Fs
  pub frame : Frame lo hi ip fs inode volume
  pub missing : ℕ
  pub fits : missing < nslot
  pub needed : Needed lo hi missing
  pub empty : slot inode volume missing ≡ 0
  pub full : (c : ℕ) → c < fs.sb.size → used volume c ≡ true

pub IsFull-trans :
    {lo hi : ℕ} {ip ip' : Inode} {fs fs' : Fs}
    → Frame lo hi ip fs ip' fs'
    → IsFull lo hi ip' fs'
    → IsFull lo hi ip fs
IsFull-trans f s = record {
  inode = s.inode;
  volume = s.volume;
  frame = Frame-trans f s.frame;
  missing = s.missing;
  fits = s.fits;
  needed = s.needed;
  empty = s.empty;
  full = λ c h. s.full c (rw (f.same_sb) h);
}

pub IsFull-wide :
    {lo hi : ℕ} (lo' hi' : ℕ) {ip : Inode} {fs : Fs}
    → lo' ≤ lo
    → hi ≤ hi'
    → IsFull lo hi ip fs
    → IsFull lo' hi' ip fs
IsFull-wide {lo} {hi} lo' hi' low high s = record {
  inode = s.inode;
  volume = s.volume;
  frame = Frame-wide lo' hi' low high s.frame;
  missing = s.missing;
  fits = s.fits;
  needed = Needed-wide lo hi lo' hi' s.missing low high s.needed;
  empty = s.empty;
  full = s.full;
}
