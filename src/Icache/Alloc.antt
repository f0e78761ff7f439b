-- ===== src/Icache/Alloc.antt =====
-- `ialloc` of fs.c: the inode that it allocates.
use course_work_sem.Base.{
  ℕ, zero, suc, ◌+◌, ◌-◌, ◌*◌, ◌%◌, ◌^◌, ◌<◌, ◌≤◌, ◌≡◌, ◌≢◌, ◌⊎◌, inl, inr, refl, ap, sym, subst,
  ◌∙◌, ◌&&◌, Option, none, some, ltb, leb, ◌==◌, if◌then◌else◌, arith, Bool-cases, Option-cases,
  update_same, update_other, Bytes,
}
use course_work_sem.Disk.{Fs, half_at, put_half, log_write}
use course_work_sem.Disk.Words.{half_at-put_half, half_at_agree, put_half_outside}
use course_work_sem.Inode.{iblock, dinode_at}
use course_work_sem.Icache.{Cache, Run, ret, sleeps, panics, find_free, fresh_dinode, ialloc, iget}
use course_work_sem.Icache.Get.{IsCache, Referenced, GetOutcome, iget_lem}

-- the type of an inode on disk
abbrev pub type_on_disk : Fs → ℕ → ℕ
type_on_disk fs inum = half_at (fs.disk (iblock inum fs.sb)) (dinode_at inum)

abbrev FreeInum : ℕ → ℕ → Fs → Option ℕ → Type 0
FreeInum n k fs none = (i : ℕ) → k ≤ i → i < k + n → type_on_disk fs i ≢ 0
FreeInum n k fs (some i) = (k ≤ i) × (i < k + n) × (type_on_disk fs i ≡ 0)

free_next :
    (n k : ℕ) (fs : Fs) (out : Option ℕ)
    → type_on_disk fs k ≢ 0
    → FreeInum n (k + 1) fs out
    → FreeInum (suc n) k fs out
free_next n k fs none here later = λ i low high z. elim (Bool-cases (i == k)) [
  | inl same ↦ (let e : i ≡ k = ground arith in here (ap (type_on_disk fs) (sym e) ∙ z))
  | inr other ↦ later i (ground arith) (omega arith) z
]
free_next n k fs (some i) here (low, high, free) = (omega arith, omega arith, free)

find_free_lem : (n k : ℕ) (fs : Fs) → FreeInum n k fs (find_free n k fs)
unfolding find_free
find_free_lem zero k fs = λ i low high. absurd (omega arith)
find_free_lem (suc n) k fs = elim (Bool-cases (type_on_disk fs k == 0)) [
  | inl free ↦ rw free (omega arith, omega arith, ground (arith, free))
  | inr taken ↦ rw taken (
      free_next n k fs (find_free n (k + 1) fs) (λ z. ground (arith, taken, z))
        (find_free_lem n (k + 1) fs))
]

-- the disk with the new inode
abbrev pub allocated : ℕ → ℕ → Fs → Fs
allocated type inum fs =
    log_write (iblock inum fs.sb) (fresh_dinode type (dinode_at inum) (fs.disk (iblock inum fs.sb)))
      fs

new_type :
    (type inum : ℕ) (fs : Fs) → type < 2 ^ 16 → type_on_disk (allocated type inum fs) inum ≡ type
new_type type inum fs small =
    let p : Bytes = λ i.
      if leb (dinode_at inum) i && ltb i (dinode_at inum + 64)
      then 0
      else fs.disk (iblock inum fs.sb) i in
    ap (λ (q : Bytes). half_at q (dinode_at inum))
      (update_same fs.disk (iblock inum fs.sb) (put_half p (dinode_at inum) type))
    ∙ half_at-put_half p (dinode_at inum) type small

-- the bytes of another inode in the block
fresh_outside :
    (type d : ℕ) (p : Bytes) (i : ℕ) → (i < d) ⊎ (d + 64 ≤ i) → fresh_dinode type d p i ≡ p i
fresh_outside type d p i (inl low) =
    put_half_outside (λ j. if leb d j && ltb j (d + 64) then 0 else p j) d type i (inl low)
    ∙ ground (arith, low)
fresh_outside type d p i (inr high) =
    put_half_outside (λ j. if leb d j && ltb j (d + 64) then 0 else p j) d type i
      (inr (omega arith))
    ∙ ground (arith, high)

apart_bytes :
    (r r' i : ℕ) → r ≢ r' → r' * 64 ≤ i → i < r' * 64 + 2 → (i < r * 64) ⊎ (r * 64 + 64 ≤ i)
apart_bytes r r' i other low high = elim (Bool-cases (ltb i (r * 64))) [
  | inl before ↦ inl (ground (arith, before))
  | inr after ↦ inr (ground (arith, after, other, low, high))
]

other_type :
    (type inum other : ℕ) (fs : Fs)
    → other ≢ inum
    → type_on_disk (allocated type inum fs) other ≡ type_on_disk fs other
other_type type inum other fs apart = elim (Bool-cases (iblock other fs.sb == iblock inum fs.sb)) [
  | inl same ↦
      let e : iblock other fs.sb ≡ iblock inum fs.sb = ground (arith, same) in
      let disk = (allocated type inum fs).disk in
      let made : disk (iblock other fs.sb)
          ≡ fresh_dinode type (dinode_at inum) (fs.disk (iblock inum fs.sb)) =
        ap disk e
        ∙ update_same fs.disk (iblock inum fs.sb)
            (fresh_dinode type (dinode_at inum) (fs.disk (iblock inum fs.sb))) in
      ap (λ (q : Bytes). half_at q (dinode_at other)) made
      ∙ half_at_agree (fresh_dinode type (dinode_at inum) (fs.disk (iblock inum fs.sb)))
          (fs.disk (iblock inum fs.sb)) (dinode_at other)
          (λ i l u.
            fresh_outside type (dinode_at inum) (fs.disk (iblock inum fs.sb)) i
              (apart_bytes (inum % 8) (other % 8) i (λ z. omega (arith, z, e, apart)) l u))
      ∙ ap (λ (b : ℕ). half_at (fs.disk b) (dinode_at other)) (sym e)
  | inr away ↦
      ap (λ (q : Bytes). half_at q (dinode_at other))
        (update_other fs.disk (iblock inum fs.sb)
          (fresh_dinode type (dinode_at inum) (fs.disk (iblock inum fs.sb))) (iblock other fs.sb)
          (λ z. ground (arith, z, away)))
]

-- The new inode's type is stored, no other type changes, and the slot is one that counts one more reference to
-- the inode on the device, or that had no reference and is now the inode's, with one.
pub record NewInode (dev type inum k : ℕ) (c c' : Cache) : Type 0 where
  pub known : (1 ≤ inum) × (inum < c.fs.sb.ninodes)
  pub was_free : type_on_disk c.fs inum ≡ 0
  pub stored : type_on_disk c'.fs inum ≡ type
  pub others : (i : ℕ) → i ≢ inum → type_on_disk c'.fs i ≡ type_on_disk c.fs i
  pub cache : IsCache c'
  pub slot : k < 50
  pub got : Referenced dev inum (c.inode k) (c'.inode k)
  pub slots : (i : ℕ) → i ≢ k → c'.inode i ≡ c.inode i

abbrev pub NewOutcome : ℕ → ℕ → Cache → Run (ℕ × Cache) → Type 0
NewOutcome dev type c (ret (k, c')) = (inum : ℕ) × NewInode dev type inum k c c'
NewOutcome dev type c sleeps = ⊥
NewOutcome dev type c panics =
    ((i : ℕ) → 1 ≤ i → i < c.fs.sb.ninodes → type_on_disk c.fs i ≢ 0)
    ⊎ ((i : ℕ) → i < 50 → (c.inode i).ref ≢ 0)

ialloc-none :
    (dev type : ℕ) (c : Cache)
    → find_free (c.fs.sb.ninodes - 1) 1 c.fs ≡ none
    → ialloc dev type c ≡ panics
unfolding ialloc
ialloc-none dev type c e = rw (ialloc, e) refl

ialloc-some :
    (dev type inum : ℕ) (c : Cache)
    → find_free (c.fs.sb.ninodes - 1) 1 c.fs ≡ some inum
    → ialloc dev type c ≡ iget dev inum (record c { fs = allocated type inum c.fs })
unfolding ialloc
ialloc-some dev type inum c e = rw (ialloc, e) refl

got_new :
    (dev type inum : ℕ) (c : Cache) (out : Run (ℕ × Cache))
    → type < 2 ^ 16
    → (1 ≤ inum) × (inum < c.fs.sb.ninodes)
    → type_on_disk c.fs inum ≡ 0
    → GetOutcome dev inum (record c { fs = allocated type inum c.fs }) out
    → NewOutcome dev type c out
got_new dev type inum c (ret (k, c')) small known free (high, ok, same, got, others) = (
  inum,
  record {
    known = known;
    was_free = free;
    stored = ap (λ (f : Fs). type_on_disk f inum) same ∙ new_type type inum c.fs small;
    others = λ i h. ap (λ (f : Fs). type_on_disk f i) same ∙ other_type type inum i c.fs h;
    cache = ok;
    slot = high;
    got = got;
    slots = others;
  },
)
got_new dev type inum c sleeps small known free out = elim out [ ]
got_new dev type inum c panics small known free all = inr (λ i h. (all i h).0)

-- `ialloc`, in a cache with one slot for each inode in use. It stores the type in an inode that had none,
-- changes no other inode's type, and returns a slot for this inode on the device: the one that it has, with
-- one more reference, or one without references, which is then not valid yet and has one; no other slot of the
-- cache changes. It panics only if
-- every inode but number 0 has a type, or every slot of the cache is in use.
pub ialloc_lem :
    (dev type : ℕ) (c : Cache)
    → IsCache c
    → ((i : ℕ) → i < 50 → (c.inode i).ref + 1 < 2 ^ 31)
    → type < 2 ^ 16
    → NewOutcome dev type c (ialloc dev type c)
ialloc_lem dev type c ok few small =
    let found = find_free_lem (c.fs.sb.ninodes - 1) 1 c.fs in
    elim (Option-cases (find_free (c.fs.sb.ninodes - 1) 1 c.fs)) [
      | inl e ↦
          let all = subst (FreeInum (c.fs.sb.ninodes - 1) 1 c.fs) e found in
          rw (ialloc-none dev type c e) (inl (λ i low high. all i low (omega arith)))
      | inr (inum, e) ↦
          let (low, high, free) = subst (FreeInum (c.fs.sb.ninodes - 1) 1 c.fs) e found in
          let c' : Cache = record c { fs = allocated type inum c.fs } in
          let ok' : IsCache c' = record { unique = ok.unique; counts = ok.counts } in
          rw (ialloc-some dev type inum c e) (
            got_new dev type inum c (iget dev inum c') small (low, omega arith) free
              (iget_lem dev inum c' ok' few))
    ]
