-- ===== src/Icache/Get.antt =====
-- `iget`, `idup` and `iput` of fs.c: one slot for each inode in use, and the counts of its references.
use course_work_sem.Base.{
  ℕ, ◌+◌, ◌^◌, ◌<◌, ◌≡◌, ◌≢◌, ◌⊎◌, inl, inr, refl, ap, sym, subst, ◌∙◌, true, false, none, some,
  ◌==◌, arith, Bool-cases, update_same, update_other,
}
use course_work_sem.Inode.{Inode}
use course_work_sem.Icache.{
  Cache, Run, ret, sleeps, panics, Found, cached, vacant, full, is_entry, scan, ninode, iget,
  set_inode, one_more,
}
use course_work_sem.Icache.Scan.{ScanOutcome, scan_lem}

-- Two slots in use are for two inodes, and the counts are no negative numbers.
pub record IsCache (c : Cache) : Type 0 where
  pub unique :
      (i j : ℕ)
      → i < 50
      → j < 50
      → 0 < (c.inode i).ref
      → 0 < (c.inode j).ref
      → (c.inode i).dev ≡ (c.inode j).dev
      → (c.inode i).inum ≡ (c.inode j).inum
      → i ≡ j
  pub counts : (i : ℕ) → i < 50 → (c.inode i).ref < 2 ^ 31

-- The slot is for the inode, and only its count changes, or it was free and is new.
abbrev pub Referenced : ℕ → ℕ → Inode → Inode → Type 0
Referenced dev inum ip ip' =
    ((ip.dev ≡ dev) × (ip.inum ≡ inum) × (0 < ip.ref) × (ip' ≡ record ip { ref = ip.ref + 1 }))
    ⊎ ((ip.ref ≡ 0)
        × (ip' ≡ record ip { dev = dev; inum = inum; ref = 1; busy = false; valid = false }))

abbrev pub GetOutcome : ℕ → ℕ → Cache → Run (ℕ × Cache) → Type 0
GetOutcome dev inum c (ret (k, c')) =
    (k < 50)
    × IsCache c'
    × (c'.fs ≡ c.fs)
    × Referenced dev inum (c.inode k) (c'.inode k)
    × ((i : ℕ) → i ≢ k → c'.inode i ≡ c.inode i)
GetOutcome dev inum c sleeps = ⊥
GetOutcome dev inum c panics =
    (i : ℕ) → i < 50 → ((c.inode i).ref ≢ 0) × (is_entry dev inum (c.inode i) ≡ false)

-- A slot that is set to an inode that no other slot is for.
set_inode-IsCache :
    (k : ℕ) (ip : Inode) (c : Cache)
    → IsCache c
    → ip.ref < 2 ^ 31
    → ((i : ℕ)
        → i < 50
        → i ≢ k
        → 0 < (c.inode i).ref
        → (c.inode i).dev ≡ ip.dev
        → (c.inode i).inum ≡ ip.inum
        → ⊥)
    → IsCache (set_inode k ip c)
set_inode-IsCache k ip c ok small alone = record {
  unique = λ i j h l used_i used_j dev inum. elim (Bool-cases (i == k)) [
    | inl here ↦ elim (Bool-cases (j == k)) [
      | inl both ↦ ground arith
      | inr other ↦ absurd (
          alone j l (λ e. ground arith) (ground (arith, used_j)) (ground (arith, dev))
            (ground (arith, inum)))
    ]
    | inr there ↦ elim (Bool-cases (j == k)) [
      | inl both ↦ absurd (
          alone i h (λ e. ground arith) (ground (arith, used_i)) (ground (arith, dev))
            (ground (arith, inum)))
      | inr other ↦
          ok.unique i j h l (ground (arith, used_i)) (ground (arith, used_j)) (ground (arith, dev))
            (ground (arith, inum))
    ]
  ];
  counts = λ i h. ground (arith, ok.counts i h, small);
}

-- One more reference.
abbrev pub counted : Inode → Inode
counted ip = record ip { ref = one_more ip.ref }

abbrev renewed : ℕ → ℕ → Inode → Inode
renewed dev inum ip = record ip { dev = dev; inum = inum; ref = 1; busy = false; valid = false }

iget-cached :
    (dev inum : ℕ) (c : Cache) (k : ℕ)
    → scan ninode 0 none dev inum c.inode ≡ cached k
    → iget dev inum c ≡ ret (k, set_inode k (counted (c.inode k)) c)
unfolding iget
iget-cached dev inum c k e = rw (e, iget) refl

iget_vacant :
    (dev inum : ℕ) (c : Cache) (k : ℕ)
    → scan ninode 0 none dev inum c.inode ≡ vacant k
    → iget dev inum c ≡ ret (k, set_inode k (renewed dev inum (c.inode k)) c)
unfolding iget
iget_vacant dev inum c k e = rw (e, iget) refl

iget_full :
    (dev inum : ℕ) (c : Cache)
    → scan ninode 0 none dev inum c.inode ≡ full
    → iget dev inum c ≡ panics
unfolding iget
iget_full dev inum c e = rw (e, iget) refl

Found-cases : (f : Found) → ((k : ℕ) × (f ≡ cached k)) ⊎ (((k : ℕ) × (f ≡ vacant k)) ⊎ (f ≡ full))
Found-cases (cached k) = inl (k, refl)
Found-cases (vacant k) = inr (inl (k, refl))
Found-cases full = inr (inr refl)

-- `iget` does not sleep, and panics only if every slot is in use.
pub iget-cases :
    (dev inum : ℕ) (c : Cache)
    → ((j : ℕ) × (c' : Cache) × (iget dev inum c ≡ ret (j, c')))
      ⊎ ((iget dev inum c ≡ panics) × ((i : ℕ) → i < 50 → (c.inode i).ref ≢ 0))
iget-cases dev inum c = elim (Found-cases (scan ninode 0 none dev inum c.inode)) [
  | inl (k, e) ↦ inl (k, set_inode k (counted (c.inode k)) c, iget-cached dev inum c k e)
  | inr (inl (k, e)) ↦
      inl (k, set_inode k (renewed dev inum (c.inode k)) c, iget_vacant dev inum c k e)
  | inr (inr e) ↦
      let (no_entry, empty, used) =
        subst (ScanOutcome dev inum c.inode ninode 0 none) e
          (scan_lem dev inum c.inode ninode 0 none) in
      inr (iget_full dev inum c e, λ i h. used i (omega arith) (omega arith))
]

entry_fields :
    (dev inum : ℕ) (ip : Inode)
    → is_entry dev inum ip ≡ true
    → (0 < ip.ref) × (ip.dev ≡ dev) × (ip.inum ≡ inum)
entry_fields dev inum ip e = (ground (arith, e), ground (arith, e), ground (arith, e))

pub entry_of :
    (dev inum : ℕ) (ip : Inode)
    → 0 < ip.ref
    → ip.ref < 2 ^ 31
    → ip.dev ≡ dev
    → ip.inum ≡ inum
    → is_entry dev inum ip ≡ true
entry_of dev inum ip used small d i = ground (arith, d, i)

counted_eq : (ip : Inode) → ip.ref + 1 < 2 ^ 31 → counted ip ≡ record ip { ref = ip.ref + 1 }
counted_eq ip small = ap (λ (r : ℕ). record ip { ref = r }) (omega arith)

pub counted-IsCache :
    (k : ℕ) (c : Cache)
    → k < 50
    → IsCache c
    → 0 < (c.inode k).ref
    → (c.inode k).ref + 1 < 2 ^ 31
    → IsCache (set_inode k (counted (c.inode k)) c)
counted-IsCache k c h ok used small =
    set_inode-IsCache k (counted (c.inode k)) c ok (omega arith)
      (λ i l other used_i dev inum. other (ok.unique i k l h used_i used dev inum))

vacant_slot : (k r : ℕ) → (none ≡ some k) ⊎ ((k < 0 + 50) × (r ≡ 0)) → (k < 50) × (r ≡ 0)
vacant_slot k r (inl e) = absurd cc
vacant_slot k r (inr (high, free)) = (omega arith, free)

-- `iget` in a cache with one slot for each inode in use. It returns the slot of the inode with one
-- more reference, if there is one; else a slot with no reference, made the inode's with one reference,
-- not locked and not valid; no other slot and no block changes, and again each inode in use has one
-- slot. It panics only if every slot is in use, none of them for the inode.
pub iget_lem :
    (dev inum : ℕ) (c : Cache)
    → IsCache c
    → ((i : ℕ) → i < 50 → (c.inode i).ref + 1 < 2 ^ 31)
    → GetOutcome dev inum c (iget dev inum c)
iget_lem dev inum c ok small =
    let found = scan_lem dev inum c.inode ninode 0 none in
    elim (Found-cases (scan ninode 0 none dev inum c.inode)) [
      | inl (k, e) ↦
          let (high, entry) = subst (ScanOutcome dev inum c.inode ninode 0 none) e found in
          let (used, d, i) = entry_fields dev inum (c.inode k) entry in
          rw (iget-cached dev inum c k e) (
            omega arith,
            counted-IsCache k c (omega arith) ok used (small k (omega arith)),
            refl,
            inl (
              d,
              i,
              used,
              update_same c.inode k (counted (c.inode k))
                  ∙ counted_eq (c.inode k) (small k (omega arith)),
            ),
            λ j other. update_other c.inode k (counted (c.inode k)) j (λ s. other (sym s)),
          )
      | inr (inl (k, e)) ↦
          let (no_entry, here) = subst (ScanOutcome dev inum c.inode ninode 0 none) e found in
          let (high, free) = vacant_slot k (c.inode k).ref here in
          rw (iget_vacant dev inum c k e) (
            omega arith,
            set_inode-IsCache k (renewed dev inum (c.inode k)) c ok (omega arith)
                (λ j l other used d i.
                  (let seen = entry_of dev inum (c.inode j) used (ok.counts j l) d i in
                    let unseen = no_entry j (omega arith) (omega arith) in cc)),
            refl,
            inr (free, update_same c.inode k (renewed dev inum (c.inode k))),
            λ j other. update_other c.inode k (renewed dev inum (c.inode k)) j (λ s. other (sym s)),
          )
      | inr (inr e) ↦
          let (no_entry, empty, used) =
            subst (ScanOutcome dev inum c.inode ninode 0 none) e found in
          rw (iget_full dev inum c e)
            (λ i h. (used i (omega arith) (omega arith), no_entry i (omega arith) (omega arith)))
    ]

referenced :
    (dev inum : ℕ) (ip ip' : Inode)
    → ip.ref + 2 < 2 ^ 31
    → Referenced dev inum ip ip'
    → (ip'.dev ≡ dev) × (ip'.inum ≡ inum) × (0 < ip'.ref) × (ip'.ref + 1 < 2 ^ 31)
referenced dev inum ip ip' small (inl (d, i, used, e)) = rw e (d, i, omega arith, omega arith)
referenced dev inum ip ip' small (inr (free, e)) = rw e (refl, refl, omega arith, omega arith)

-- The slot of an inode that has one.
get_known :
    (dev inum : ℕ) (c : Cache) (k : ℕ)
    → IsCache c
    → k < 50
    → ((c.inode k).dev ≡ dev)
      × ((c.inode k).inum ≡ inum)
      × (0 < (c.inode k).ref)
      × ((c.inode k).ref + 1 < 2 ^ 31)
    → iget dev inum c ≡ ret (k, set_inode k (counted (c.inode k)) c)
get_known dev inum c k ok high (d, i, used, small) =
    let found = scan_lem dev inum c.inode ninode 0 none in
    let seen = entry_of dev inum (c.inode k) used (omega arith) d i in
    elim (Found-cases (scan ninode 0 none dev inum c.inode)) [
      | inl (j, e) ↦
          let (high', entry) = subst (ScanOutcome dev inum c.inode ninode 0 none) e found in
          let (used', d', i') = entry_fields dev inum (c.inode j) entry in
          let same : j ≡ k =
            ok.unique j k (omega arith) high used' used (d' ∙ sym d) (i' ∙ sym i) in
          subst (λ n. iget dev inum c ≡ ret (n, set_inode n (counted (c.inode n)) c)) same
            (iget-cached dev inum c j e)
      | inr (inl (j, e)) ↦
          let (no_entry, here) = subst (ScanOutcome dev inum c.inode ninode 0 none) e found in
          let unseen = no_entry k (omega arith) (omega arith) in absurd cc
      | inr (inr e) ↦
          let (no_entry, empty, all) = subst (ScanOutcome dev inum c.inode ninode 0 none) e found in
          let unseen = no_entry k (omega arith) (omega arith) in absurd cc
    ]

-- A second `iget` of the same inode returns the same slot.
pub iget_again :
    (dev inum : ℕ) (c : Cache) (k : ℕ) (c' : Cache)
    → IsCache c
    → ((i : ℕ) → i < 50 → (c.inode i).ref + 2 < 2 ^ 31)
    → iget dev inum c ≡ ret (k, c')
    → (c'' : Cache) × (iget dev inum c' ≡ ret (k, c'')) × ((c''.inode k).ref ≡ (c'.inode k).ref + 1)
iget_again dev inum c k c' ok small first =
    let (high, ok', same_fs, got, others) =
      subst (GetOutcome dev inum c) first
        (iget_lem dev inum c ok (λ i h. omega (arith, small i h))) in
    let entry = referenced dev inum (c.inode k) (c'.inode k) (small k high) got in
    (
      set_inode k (counted (c'.inode k)) c',
      get_known dev inum c' k ok' high entry,
      ap (λ (q : Inode). q.ref) (update_same c'.inode k (counted (c'.inode k)))
          ∙ omega (arith, entry.3),
    )
