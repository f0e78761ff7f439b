-- ===== src/Dir/Link.antt =====
-- The search of `dirlink` of fs.c for a place.
use course_work_sem.Base.{
  ℕ, zero, suc, ◌+◌, ◌*◌, ◌%◌, ◌<◌, ◌≤◌, ◌≡◌, ◌⊎◌, inl, inr, refl, ap, sym, subst, ◌∙◌, Bool, true,
  false, ltb, ◌==◌, if◌then◌else◌, arith, Bool-cases, List, ◌++◌, length, length-append,
  length-replicate, replicate, length-take,
}
use course_work_sem.Inode.Slots.{IsFull-trans}
use course_work_sem.Icache.{Cache, Run, ret, sleeps, panics}
use course_work_sem.Dir.{de_inum, dirent, read_dirent, find_empty}
use course_work_sem.Dir.Lookup.{
  IsDir, last, Kept, Kept-refl, Kept-trans, IsFullDisk, entry, DirentOutcome, read_dirent_lem,
  Run-cases,
}

pub length-dirent : (name : List ℕ) (inum : ℕ) → length (dirent name inum) ≡ 16
length-dirent name inum =
    let long : 14 ≤ length (name ++ replicate 14 0) =
      omega (arith, length-append name (replicate 14 0), length-replicate {A = ℕ} 14 0) in
    ap (λ (n : ℕ). suc (suc n)) (length-take 14 (name ++ replicate 14 0) long)

module _ (is_device : ℕ → Bool) (m : ℕ → ℕ) (size k : ℕ) (small : size ≤ 71680) where
  -- the place for a new entry
  abbrev pub IsPlace : ℕ → Type 0
  IsPlace o = (o % 16 ≡ 0) × (o ≤ size) × ((o ≡ size) ⊎ (de_inum (entry m o) ≡ 0))

  abbrev pub EmptyOutcome : Cache → Run (ℕ × Cache) → Type 0
  EmptyOutcome c (ret (o, c')) =
      IsPlace o × IsDir m size (c'.inode k) c'.fs × Kept (last size) k c c'
  EmptyOutcome c sleeps = ⊥
  EmptyOutcome c panics = IsFullDisk (last size) k c

  find_empty_end :
      (f off : ℕ) (c : Cache)
      → (c.inode k).size ≤ off
      → find_empty is_device f k off c ≡ ret (off, c)
  unfolding find_empty
  find_empty_end zero off c past = refl
  find_empty_end (suc f) off c past =
      let over : ltb off (c.inode k).size ≡ false = ground arith in rw over refl

  find_empty_step :
      (f off : ℕ) (de : List ℕ) (c c' : Cache)
      → off < (c.inode k).size
      → read_dirent is_device k off c ≡ ret (de, c')
      → find_empty is_device (suc f) k off c
        ≡ (if de_inum de == 0 then ret (off, c') else find_empty is_device f k (off + 16) c')
  unfolding find_empty
  find_empty_step f off de c c' inside e =
      let before : ltb off (c.inode k).size ≡ true = ground arith in rw (before, e) refl

  find_empty_panics :
      (f off : ℕ) (c : Cache)
      → off < (c.inode k).size
      → read_dirent is_device k off c ≡ panics
      → find_empty is_device (suc f) k off c ≡ panics
  unfolding find_empty
  find_empty_panics f off c inside e =
      let before : ltb off (c.inode k).size ≡ true = ground arith in rw (before, e) refl

  next_empty :
      (c c' : Cache) (out : Run (ℕ × Cache))
      → Kept (last size) k c c'
      → EmptyOutcome c' out
      → EmptyOutcome c out
  next_empty c c' (ret (o, c'')) kept (place, ok, kept') =
      (place, ok, Kept-trans (last size) k c c' c'' kept kept')
  next_empty c c' sleeps kept out = elim out [ ]
  next_empty c c' panics kept full = IsFull-trans kept.frame full

  pub find_empty_lem :
      (f off : ℕ) (c : Cache)
      → size ≤ off + 16 * f
      → off % 16 ≡ 0
      → size % 16 ≡ 0
      → off ≤ size
      → IsDir m size (c.inode k) c.fs
      → EmptyOutcome c (find_empty is_device f k off c)
  find_empty_lem zero off c fuel aligned whole low ok =
      rw (find_empty_end zero off c (omega (arith, ok.size_is)))
        ((aligned, low, inl (omega arith)), ok, Kept-refl (last size) k c)
  find_empty_lem (suc f) off c fuel aligned whole low ok =
      elim (Bool-cases (ltb off (c.inode k).size)) [
        | inr past ↦ rw (find_empty_end (suc f) off c (ground (arith, past))) (
          (aligned, low, inl (ground (arith, past, ok.size_is, low))),
          ok,
          Kept-refl (last size) k c,
        )
        | inl before ↦
            let inside : off < (c.inode k).size = ground (arith, before) in
            let got =
              read_dirent_lem is_device m size k small off c ok
                (omega (arith, inside, aligned, whole, ok.size_is)) in
            elim (Run-cases (read_dirent is_device k off c)) [
              | inl e ↦
                  rw (find_empty_panics f off c inside e)
                    (subst (DirentOutcome m size k off c) e got)
              | inr (inl e) ↦ absurd (subst (DirentOutcome m size k off c) e got)
              | inr (inr (de, c', e)) ↦
                  let (content, ok', kept) = subst (DirentOutcome m size k off c) e got in
                  rw (find_empty_step f off de c c' inside e) (elim (Bool-cases (de_inum de == 0)) [
                    | inl free ↦
                        let empty : de_inum de ≡ 0 = ground (arith, free) in
                        rw free ((aligned, low, inr (ap de_inum (sym content) ∙ empty)), ok', kept)
                    | inr taken ↦ rw taken (
                        next_empty c c' (find_empty is_device f k (off + 16) c') kept (
                          find_empty_lem f (off + 16) c' (omega arith) (omega (arith, aligned))
                            whole (omega (arith, inside, aligned, whole, ok.size_is)) ok'))
                  ])
            ]
      ]
