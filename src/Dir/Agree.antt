-- ===== src/Dir/Agree.antt =====
-- `dirlookup` after `dirlink` of fs.c.
use course_work_sem.Base.{
  ℕ, zero, suc, ◌+◌, ◌*◌, ◌/◌, ◌%◌, ◌^◌, ◌<◌, ◌≤◌, ◌≡◌, ◌≢◌, ◌⊎◌, inl, inr, refl, ap, sym, subst,
  ◌∙◌, Bool, true, false, Option, none, some, ltb, ◌==◌, arith, Bool-cases, List, [], ◌∷◌, ◌++◌,
  length, take, replicate, store_at,
}
use course_work_sem.Icache.{Cache, Run, ret, sleeps, panics}
use course_work_sem.Dir.{de_inum, dirent, is_match, dirlookup, dirlink}
use course_work_sem.Dir.Lookup.{IsDir, last, Kept, IsFullDisk, entry, NoMatch}
use course_work_sem.Dir.Found.{LookupOutcome, dirlookup_lem}
use course_work_sem.Dir.Link.{length-dirent, IsPlace}
use course_work_sem.Base.{store_at_inside, store_at_outside, pos}
use course_work_sem.Inode.{bytes_at}
use course_work_sem.Inode.Read.{bytes_at_same}
use course_work_sem.Inode.Fetch.{bytes_at_list}
use course_work_sem.Icache.{iget}
use course_work_sem.Dir.{strncmp}
use course_work_sem.Dir.Insert.{end_of, Linked, LinkOutcome, dirlink_lem}

-- no character is the NUL
abbrev pub NoNul : List ℕ → Type 0
NoNul [] = Unit
NoNul (c ∷ cs) = (c ≢ 0) × NoNul cs

zeros_equal : (n k : ℕ) → strncmp n [] (take n (replicate k 0)) ≡ pos 0
unfolding strncmp
zeros_equal zero k = refl
zeros_equal (suc n) zero = refl
zeros_equal (suc n) (suc k) = refl

strncmp_padded :
    (n k : ℕ) (name : List ℕ) → NoNul name → strncmp n name (take n (name ++ replicate k 0)) ≡ pos 0
unfolding strncmp
strncmp_padded zero k name plain = refl
strncmp_padded (suc n) k [] plain = zeros_equal (suc n) k
strncmp_padded (suc n) k (c ∷ cs) (some_c, plain) =
    let a : (c == 0) ≡ false = ground (arith, some_c) in
    let b : (c == c) ≡ true = ground arith in rw (a, b) (strncmp_padded n k cs plain)

dirent_match :
    (name : List ℕ) (inum : ℕ)
    → NoNul name
    → 0 < inum
    → inum < 2 ^ 16
    → (de_inum (dirent name inum) ≡ inum) × (is_match name (dirent name inum) ≡ true)
unfolding is_match de_inum
dirent_match name inum plain used small =
    let num : inum % 256 + 256 * (inum / 256 % 256) ≡ inum = omega arith in
    let some_ : (inum == 0) ≡ false = ground arith in
    (num, rw (num, some_, strncmp_padded 14 14 name plain) refl)

-- the entries of the directory with one more
entry_there : (m : ℕ → ℕ) (o : ℕ) (de : List ℕ) → length de ≡ 16 → entry (store_at o de m) o ≡ de
entry_there m o de l =
    subst (λ (n : ℕ). bytes_at (store_at o de m) o n ≡ de) l
      (bytes_at_list (store_at o de m) o de (λ k h. store_at_inside o de m k h))

entry_other :
    (m : ℕ → ℕ) (o e : ℕ) (de : List ℕ)
    → length de ≡ 16
    → o % 16 ≡ 0
    → e % 16 ≡ 0
    → e ≢ o
    → entry (store_at o de m) e ≡ entry m e
entry_other m o e de l at at' other = bytes_at_same (store_at o de m) m e e 16 (λ k h.
    store_at_outside o de m (e + k) (elim (Bool-cases (ltb e o)) [
      | inl low ↦ inl (ground (arith, low, at, at'))
      | inr high ↦ inr (ground (arith, high, at, at', other, l))
    ]))

-- What `dirlookup` gives for a name whose one entry in use is at `o`, for the inode `inum`.
abbrev pub FoundLink : ℕ → ℕ → ℕ → ℕ → Cache → Run (Option (ℕ × ℕ) × Cache) → Type 0
FoundLink hi k inum o c (ret (some (o', j), c')) =
    (o' ≡ o) × ((d : Cache) × Kept hi k c d × (iget (d.inode k).dev inum d ≡ ret (j, c')))
FoundLink hi k inum o c (ret (none, c')) = ⊥
FoundLink hi k inum o c sleeps = ⊥
FoundLink hi k inum o c panics = IsFullDisk hi k c ⊎ ((i : ℕ) → i < 50 → (c.inode i).ref ≢ 0)

module _ (is_device : ℕ → Bool) (m : ℕ → ℕ) (size k : ℕ) (small : size ≤ 71680) where
  module _ (name : List ℕ) (inum o : ℕ) (whole : size % 16 ≡ 0) (plain : NoNul name)
      (used : 0 < inum) (few : inum < 2 ^ 16) (absent : NoMatch m name 0 size)
      (place : IsPlace is_device m size k small o) where
    match_here : is_match name (entry (store_at o (dirent name inum) m) o) ≡ true
    match_here =
        ap (is_match name) (entry_there m o (dirent name inum) (length-dirent name inum))
        ∙ (dirent_match name inum plain used few).1

    only_here :
        (e : ℕ)
        → e % 16 ≡ 0
        → e < end_of is_device m size k small o
        → is_match name (entry (store_at o (dirent name inum) m) e) ≡ true
        → e ≡ o
    only_here e at low found = elim (Bool-cases (e == o)) [
      | inl here ↦ ground arith
      | inr other ↦
          let apart : e ≢ o = λ z. ground arith in
          let old =
            entry_other m o e (dirent name inum) (length-dirent name inum) place.0 at apart in
          let before : is_match name (entry m e) ≡ true = ap (is_match name) (sym old) ∙ found in
          let inside : e < size = ground (arith, low, at, apart, place.0, place.1, whole) in
          let missing = absent e (omega arith) inside at in absurd cc
    ]

    found_link :
        (fits : end_of is_device m size k small o ≤ 71680)
        → (c : Cache) (out : Run (Option (ℕ × ℕ) × Cache))
        → LookupOutcome is_device
            (store_at o (dirent name inum) m)
            (end_of is_device m size k small o)
            k
            fits
            name
            c
            out
        → FoundLink (last (end_of is_device m size k small o)) k inum o c out
    found_link fits c (ret (none, c')) (no_match, ok, kept) =
        let here = match_here in
        let missing = no_match o (omega arith) (ground (arith, place.1)) place.0 in cc
    found_link fits c (ret (some (o', j), c')) (earlier, low, at, found, got) =
        let same : o' ≡ o = only_here o' at low found in
        let num : de_inum (entry (store_at o (dirent name inum) m) o') ≡ inum =
          ap (λ e. de_inum (entry (store_at o (dirent name inum) m) e)) same
          ∙ ap de_inum (entry_there m o (dirent name inum) (length-dirent name inum))
          ∙ (dirent_match name inum plain used few).0 in
        (
          same,
          (
            got.before,
            got.kept,
            subst (λ n. iget (got.before.inode k).dev n got.before ≡ ret (j, c')) num got.got,
          ),
        )
    found_link fits c sleeps out = elim out [ ]
    found_link fits c panics out = out

  -- After a `dirlink` that returns 0, for a name without a NUL that no entry in use had and an inode number
  -- that an entry can hold: the new entry is written in one place of the directory, and `dirlookup` of
  -- the name finds it at this place and returns the slot that `iget` gives for the inode: it does not return
  -- null, and panics only if a block of the directory (or its indirect block) is missing and every block of the
  -- disk is in use, once nothing but other missing blocks of the directory was allocated, or if every slot
  -- of the inode cache is in use.
  pub dirlookup-dirlink :
      (name : List ℕ) (inum : ℕ) (c c' : Cache)
      → size % 16 ≡ 0
      → IsDir m size (c.inode k) c.fs
      → (c.inode k).inum < c.fs.sb.ninodes
      → NoMatch m name 0 size
      → NoNul name
      → 0 < inum
      → inum < 2 ^ 16
      → dirlink is_device k name inum c ≡ ret (true, c')
      → (o : ℕ) × IsPlace is_device m size k small o
        × Linked is_device m size k small (dirent name inum) o c c'
        × FoundLink
            (last (end_of is_device m size k small o))
            k
            inum
            o
            c'
            (dirlookup is_device k name c')
  dirlookup-dirlink name inum c c' whole ok known absent plain used few done =
      let (o, place, l) =
        subst (LinkOutcome is_device m size k small name inum c) done
          (dirlink_lem is_device m size k small name inum whole c ok known absent) in
      let fits : end_of is_device m size k small o ≤ 71680 = ground (arith, l.fits, small) in
      let even : end_of is_device m size k small o % 16 ≡ 0 = ground (arith, place.0, whole) in
      (
        o,
        place,
        l,
        found_link name inum o whole plain used few absent place fits c'
            (dirlookup is_device k name c')
            (dirlookup_lem is_device (store_at o (dirent name inum) m)
              (end_of is_device m size k small o) k fits name c' even l.dir),
      )
