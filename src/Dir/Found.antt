-- ===== src/Dir/Found.antt =====
-- `dirlookup` of fs.c: the entry that it finds in the bytes of the directory.
use course_work_sem.Base.{
  ℕ, ◌%◌, ◌<◌, ◌≤◌, ◌≡◌, ◌≢◌, ◌⊎◌, inl, inr, refl, ap, sym, subst, ◌∙◌, Bool, true, Option, none,
  some, ◌==◌, arith, Bool-cases, List,
}
use course_work_sem.Inode.{Inode, t_dir}
use course_work_sem.Icache.{Cache, Run, ret, sleeps, panics, iget}
use course_work_sem.Dir.{de_inum, is_match, find_name, dirlookup}
use course_work_sem.Icache.Get.{iget-cases}
use course_work_sem.Dir.Lookup.{
  IsDir, last, Kept, IsFullDisk, entry, NoMatch, NameOutcome, find_name_lem, Run-cases,
}

module _ (is_device : ℕ → Bool) (m : ℕ → ℕ) (size k : ℕ) (small : size ≤ 71680) where
  -- the cache when `iget` is called for the entry at `o`
  pub record Got (o j : ℕ) (c c' : Cache) : Type 0 where
    pub before : Cache
    pub ok : IsDir m size (before.inode k) before.fs
    pub kept : Kept (last size) k c before
    pub got : iget (before.inode k).dev (de_inum (entry m o)) before ≡ ret (j, c')

  abbrev pub LookupOutcome : List ℕ → Cache → Run (Option (ℕ × ℕ) × Cache) → Type 0
  LookupOutcome name c (ret (none, c')) =
      NoMatch m name 0 size × IsDir m size (c'.inode k) c'.fs × Kept (last size) k c c'
  LookupOutcome name c (ret (some (o, j), c')) =
      NoMatch m name 0 o
      × (o < size)
      × (o % 16 ≡ 0)
      × (is_match name (entry m o) ≡ true)
      × Got o j c c'
  LookupOutcome name c sleeps = ⊥
  LookupOutcome name c panics =
      IsFullDisk (last size) k c ⊎ ((i : ℕ) → i < 50 → (c.inode i).ref ≢ 0)

  dirlookup_panics :
      (name : List ℕ) (c : Cache)
      → (c.inode k).itype ≡ t_dir
      → find_name is_device (c.inode k).size k name 0 c ≡ panics
      → dirlookup is_device k name c ≡ panics
  unfolding dirlookup
  dirlookup_panics name c typed e =
      let dir : ((c.inode k).itype == t_dir) ≡ true = ground (arith, typed) in
      rw (dirlookup, dir, e) refl

  dirlookup-none :
      (name : List ℕ) (c c' : Cache)
      → (c.inode k).itype ≡ t_dir
      → find_name is_device (c.inode k).size k name 0 c ≡ ret (none, c')
      → dirlookup is_device k name c ≡ ret (none, c')
  unfolding dirlookup
  dirlookup-none name c c' typed e =
      let dir : ((c.inode k).itype == t_dir) ≡ true = ground (arith, typed) in
      rw (dirlookup, dir, e) refl

  dirlookup-some :
      (name : List ℕ) (off inum : ℕ) (c c' : Cache)
      → (c.inode k).itype ≡ t_dir
      → find_name is_device (c.inode k).size k name 0 c ≡ ret (some (off, inum), c')
      → dirlookup is_device k name c ≡ (elim (iget (c'.inode k).dev inum c') [
        | ret (j, c'') ↦ ret (some (off, j), c'')
        | sleeps ↦ sleeps
        | panics ↦ panics
      ])
  unfolding dirlookup
  dirlookup-some name off inum c c' typed e =
      let dir : ((c.inode k).itype == t_dir) ≡ true = ground (arith, typed) in
      rw (dirlookup, dir, e) refl

  -- the slots in use, before and after the directory's file got blocks
  still_used :
      (c c' : Cache)
      → Kept (last size) k c c'
      → ((i : ℕ) → i < 50 → (c'.inode i).ref ≢ 0)
      → (i : ℕ) → i < 50
      → (c.inode i).ref ≢ 0
  still_used c c' kept all i h z = elim (Bool-cases (i == k)) [
    | inl here ↦
        let e : i ≡ k = ground arith in
        let same : (c'.inode k).ref ≡ (c.inode k).ref = ap (λ (q : Inode). q.ref) kept.frame.meta in
        all i h (ap (λ j. (c'.inode j).ref) e ∙ same ∙ sym (ap (λ j. (c.inode j).ref) e) ∙ z)
    | inr other ↦ all i h (ap (λ (q : Inode). q.ref) (kept.slots i (λ e. ground arith)) ∙ z)
  ]

  outcome_of :
      (name : List ℕ) (c : Cache) (r : Option (ℕ × ℕ)) (c' : Cache)
      → (c.inode k).itype ≡ t_dir
      → find_name is_device (c.inode k).size k name 0 c ≡ ret (r, c')
      → NameOutcome is_device m size k small name 0 c (ret (r, c'))
      → LookupOutcome name c (dirlookup is_device k name c)
  outcome_of name c none c' typed e found = rw (dirlookup-none name c c' typed e) found
  outcome_of name c (some (o, inum)) c' typed e (earlier, fits, at, here, num, ok, kept) =
      rw (dirlookup-some name o inum c c' typed e) (elim (iget-cases (c'.inode k).dev inum c') [
        | inl (j, c'', g) ↦ rw g (
          earlier,
          fits,
          at,
          here,
          record {
            before = c';
            ok = ok;
            kept = kept;
            got = subst (λ n. iget (c'.inode k).dev n c' ≡ ret (j, c'')) num g;
          },
        )
        | inr (g, all) ↦ rw g (inr (still_used c c' kept all))
      ])

  pub dirlookup_lem :
      (name : List ℕ) (c : Cache)
      → size % 16 ≡ 0
      → IsDir m size (c.inode k) c.fs
      → LookupOutcome name c (dirlookup is_device k name c)
  dirlookup_lem name c whole ok =
      let found =
        find_name_lem is_device m size k small (c.inode k).size 0 name c (omega (arith, ok.size_is))
          (omega arith) whole ok in
      elim (Run-cases (find_name is_device (c.inode k).size k name 0 c)) [
        | inl e ↦
            rw (dirlookup_panics name c ok.typed e)
              (inl (subst (NameOutcome is_device m size k small name 0 c) e found))
        | inr (inl e) ↦ absurd (subst (NameOutcome is_device m size k small name 0 c) e found)
        | inr (inr (r, c', e)) ↦
            outcome_of name c r c' ok.typed e
              (subst (NameOutcome is_device m size k small name 0 c) e found)
      ]
