-- ===== src/Inode/Dinode.antt =====
-- The inode in its block, `iupdate` of fs.c: what is read back, and the bytes of other inodes.
use course_work_sem.Base.{
  ℕ, zero, suc, ◌+◌, ◌*◌, ◌^◌, ◌<◌, ◌≤◌, ◌≡◌, ◌⊎◌, inl, inr, refl, sym, subst, ◌∙◌, ◌==◌, Bytes,
  arith, Bool-cases,
}
use course_work_sem.Disk.{word_at, put_word, half_at, put_half}
use course_work_sem.Disk.Words.{
  word_at-put_word, half_at-put_half, put_word_outside, put_half_outside, word_at_agree,
  half_at_agree,
}
use course_work_sem.Inode.{Inode, put_addrs, put_dinode}

-- the fields fit the sizes that they have on disk
pub record IsDinode (ip : Inode) : Type 0 where
  pub itype_fits : ip.itype < 2 ^ 16
  pub major_fits : ip.major < 2 ^ 16
  pub minor_fits : ip.minor < 2 ^ 16
  pub nlink_fits : ip.nlink < 2 ^ 16
  pub size_fits : ip.size < 2 ^ 32
  pub addrs_fit : (i : ℕ) → ip.addrs i < 2 ^ 32

put_addrs_outside :
    (n i o : ℕ) (addrs : ℕ → ℕ) (p : Bytes) (k : ℕ)
    → (k < o + 4 * i) ⊎ (o + 4 * (i + n) ≤ k)
    → put_addrs n i o addrs p k ≡ p k
unfolding put_addrs
put_addrs_outside zero i o addrs p k away = refl
put_addrs_outside (suc n) i o addrs p k (inl low) =
    put_addrs_outside n (i + 1) o addrs (put_word p (o + 4 * i) (addrs i)) k (inl (omega arith))
    ∙ put_word_outside p (o + 4 * i) (addrs i) k (inl low)
put_addrs_outside (suc n) i o addrs p k (inr high) =
    put_addrs_outside n (i + 1) o addrs (put_word p (o + 4 * i) (addrs i)) k (inr (omega arith))
    ∙ put_word_outside p (o + 4 * i) (addrs i) k (inr (omega arith))

put_addrs_word :
    (n i o : ℕ) (addrs : ℕ → ℕ) (p : Bytes) (j : ℕ)
    → addrs j < 2 ^ 32
    → i ≤ j
    → j < i + n
    → word_at (put_addrs n i o addrs p) (o + 4 * j) ≡ addrs j
unfolding put_addrs
put_addrs_word zero i o addrs p j small low high = absurd (omega arith)
put_addrs_word (suc n) i o addrs p j small low high = elim (Bool-cases (i == j)) [
  | inl here ↦
      let e : i ≡ j = ground arith in
      let q = put_word p (o + 4 * i) (addrs i) in
      word_at_agree (put_addrs n (i + 1) o addrs q) q (o + 4 * j)
        (λ k l h. put_addrs_outside n (i + 1) o addrs q k (inl (omega arith)))
      ∙ subst (λ m. word_at (put_word p (o + 4 * m) (addrs m)) (o + 4 * j) ≡ addrs j) (sym e)
          (word_at-put_word p (o + 4 * j) (addrs j) small)
  | inr other ↦
      put_addrs_word n (i + 1) o addrs (put_word p (o + 4 * i) (addrs i)) j small (ground arith)
        (omega arith)
]

half_other :
    (p : Bytes) (o v o' : ℕ)
    → (o' + 2 ≤ o) ⊎ (o + 2 ≤ o')
    → half_at (put_half p o v) o' ≡ half_at p o'
half_other p o v o' (inl low) =
    half_at_agree (put_half p o v) p o' (λ i l h. put_half_outside p o v i (inl (omega arith)))
half_other p o v o' (inr high) =
    half_at_agree (put_half p o v) p o' (λ i l h. put_half_outside p o v i (inr (omega arith)))

module _ (ip : Inode) (d : ℕ) (p : Bytes) (ok : IsDinode ip) where
  types : Bytes
  types = put_half p d ip.itype

  majors : Bytes
  majors = put_half types (d + 2) ip.major

  minors : Bytes
  minors = put_half majors (d + 4) ip.minor

  halves : Bytes
  halves = put_half minors (d + 6) ip.nlink

  head_bytes : Bytes
  head_bytes = put_word halves (d + 8) ip.size

  half_kept : (o : ℕ) → o + 2 ≤ d + 8 → half_at (put_dinode ip d p) o ≡ half_at halves o
  unfolding put_dinode head_bytes halves minors majors types
  half_kept o h = half_at_agree (put_dinode ip d p) halves o (λ i l u.
      put_addrs_outside 13 0 (d + 12) ip.addrs (put_word halves (d + 8) ip.size) i
        (inl (omega arith))
      ∙ put_word_outside halves (d + 8) ip.size i (inl (omega arith)))

  pub itype_back : half_at (put_dinode ip d p) d ≡ ip.itype
  unfolding head_bytes halves minors majors types
  itype_back =
      half_kept d (omega arith)
      ∙ half_other minors (d + 6) ip.nlink d (inl (omega arith))
      ∙ half_other majors (d + 4) ip.minor d (inl (omega arith))
      ∙ half_other types (d + 2) ip.major d (inl (omega arith))
      ∙ half_at-put_half p d ip.itype ok.itype_fits

  pub major_back : half_at (put_dinode ip d p) (d + 2) ≡ ip.major
  unfolding head_bytes halves minors majors
  major_back =
      half_kept (d + 2) (omega arith)
      ∙ half_other minors (d + 6) ip.nlink (d + 2) (inl (omega arith))
      ∙ half_other majors (d + 4) ip.minor (d + 2) (inl (omega arith))
      ∙ half_at-put_half types (d + 2) ip.major ok.major_fits

  pub minor_back : half_at (put_dinode ip d p) (d + 4) ≡ ip.minor
  unfolding head_bytes halves minors
  minor_back =
      half_kept (d + 4) (omega arith)
      ∙ half_other minors (d + 6) ip.nlink (d + 4) (inl (omega arith))
      ∙ half_at-put_half majors (d + 4) ip.minor ok.minor_fits

  pub nlink_back : half_at (put_dinode ip d p) (d + 6) ≡ ip.nlink
  unfolding halves
  nlink_back =
      half_kept (d + 6) (omega arith) ∙ half_at-put_half minors (d + 6) ip.nlink ok.nlink_fits

  pub size_back : word_at (put_dinode ip d p) (d + 8) ≡ ip.size
  unfolding put_dinode halves minors majors types
  size_back =
      word_at_agree (put_dinode ip d p) (put_word halves (d + 8) ip.size) (d + 8) (λ i l u.
        put_addrs_outside 13 0 (d + 12) ip.addrs (put_word halves (d + 8) ip.size) i
          (inl (omega arith)))
      ∙ word_at-put_word halves (d + 8) ip.size ok.size_fits

  pub addrs_back : (j : ℕ) → j < 13 → word_at (put_dinode ip d p) (d + 12 + 4 * j) ≡ ip.addrs j
  unfolding put_dinode halves minors majors types
  addrs_back j h =
      put_addrs_word 13 0 (d + 12) ip.addrs (put_word halves (d + 8) ip.size) j (ok.addrs_fit j)
        (omega arith) (omega arith)

part : (i d o n : ℕ) → (i < d) ⊎ (d + 64 ≤ i) → o + n ≤ 64 → (i < d + o) ⊎ (d + o + n ≤ i)
part i d o n (inl low) h = inl (omega arith)
part i d o n (inr high) h = inr (omega arith)

first_part : (i d : ℕ) → (i < d) ⊎ (d + 64 ≤ i) → (i < d) ⊎ (d + 2 ≤ i)
first_part i d (inl low) = inl low
first_part i d (inr high) = inr (omega arith)

addrs_part : (i d : ℕ) → (i < d) ⊎ (d + 64 ≤ i) → (i < d + 12 + 4 * 0) ⊎ (d + 12 + 4 * (0 + 13) ≤ i)
addrs_part i d (inl low) = inl (omega arith)
addrs_part i d (inr high) = inr (omega arith)

-- The bytes of other inodes in the block.
pub put_dinode_outside :
    (ip : Inode) (d : ℕ) (p : Bytes) (i : ℕ) → (i < d) ⊎ (d + 64 ≤ i) → put_dinode ip d p i ≡ p i
unfolding put_dinode
put_dinode_outside ip d p i away =
    let types_ = put_half p d ip.itype in
    let majors_ = put_half types_ (d + 2) ip.major in
    let minors_ = put_half majors_ (d + 4) ip.minor in
    let halves_ = put_half minors_ (d + 6) ip.nlink in
    put_addrs_outside 13 0 (d + 12) ip.addrs (put_word halves_ (d + 8) ip.size) i
      (addrs_part i d away)
    ∙ put_word_outside halves_ (d + 8) ip.size i (part i d 8 4 away (omega arith))
    ∙ put_half_outside minors_ (d + 6) ip.nlink i (part i d 6 2 away (omega arith))
    ∙ put_half_outside majors_ (d + 4) ip.minor i (part i d 4 2 away (omega arith))
    ∙ put_half_outside types_ (d + 2) ip.major i (part i d 2 2 away (omega arith))
    ∙ put_half_outside p d ip.itype i (first_part i d away)
