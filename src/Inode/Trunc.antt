-- ===== src/Inode/Trunc.antt =====
-- `itrunc` of fs.c: exactly the blocks of the file are freed.
use course_work_sem.Base.{
  ℕ, zero, suc, ◌+◌, ◌*◌, ◌<◌, ◌≤◌, ◌≡◌, ◌≢◌, ◌⊎◌, inl, inr, refl, ap, sym, subst, ◌∙◌, false, some,
  ◌==◌, Bytes, update, update_same, update_other, arith, Bool-cases,
}
use course_work_sem.Disk.{Fs, word_at, bfree}
use course_work_sem.Inode.{Inode, free_direct, free_entries}
use course_work_sem.Inode.Slots.{IsBlock}
use course_work_sem.Inode.Freeing.{among, Dropped, Dropped-next}

-- The addresses from `i` to before 12 are cleared, and nothing else of the inode changes.
pub record Cleared (i : ℕ) (ip ip' : Inode) : Type 0 where
  pub meta : ip' ≡ record ip { addrs = ip'.addrs }
  pub gone : (j : ℕ) → i ≤ j → j < 12 → ip'.addrs j ≡ 0
  pub kept : (j : ℕ) → (j < i) ⊎ (12 ≤ j) → ip'.addrs j ≡ ip.addrs j

Cleared-refl : (i : ℕ) (ip : Inode) → 12 ≤ i → Cleared i ip ip
Cleared-refl i ip h = record {
  meta = refl;
  gone = λ j l u. absurd (omega arith);
  kept = λ j l. refl;
}

Cleared-next :
    (i : ℕ) (ip ip0 ip' : Inode)
    → i < 12
    → ip0 ≡ record ip { addrs = ip0.addrs }
    → ip0.addrs i ≡ 0
    → ((j : ℕ) → j ≢ i → ip0.addrs j ≡ ip.addrs j)
    → Cleared (i + 1) ip0 ip'
    → Cleared i ip ip'
Cleared-next i ip ip0 ip' small meta zero_ same c = record {
  meta = c.meta ∙ ap (λ (q : Inode). record q { addrs = ip'.addrs }) meta;
  gone = λ j l u. elim (Bool-cases (j == i)) [
    | inl here ↦
        let e : j ≡ i = ground arith in c.kept j (inl (omega arith)) ∙ ap ip0.addrs e ∙ zero_
    | inr other ↦ c.gone j (ground arith) u
  ];
  kept = λ j l. elim l [
    | inl low ↦ c.kept j (inl (omega arith)) ∙ same j (λ e. omega arith)
    | inr high ↦ c.kept j (inr high) ∙ same j (λ e. omega arith)
  ];
}

-- A sequence of blocks, each in use and named once, or zeros.
module _ (fs : Fs) (h : ℕ → ℕ) (blocks : (i : ℕ) → i < 141 → h i ≢ 0 → IsBlock fs (h i))
    (distinct : (i j : ℕ) → i < 141 → j < 141 → h i ≢ 0 → h i ≡ h j → i ≡ j) where
  among_before : (n i : ℕ) → n ≤ i → i < 141 → h i ≢ 0 → among h n (h i) ≡ false
  among_before zero i low fits full = refl
  among_before (suc n) i low fits full =
      let other : h n ≢ h i = λ e. omega (arith, distinct i n fits (omega arith) full (sym e)) in
      ground (arith, other, among_before n i (omega arith) fits full)

  -- one round
  pub drop_one :
      (i : ℕ) (fs' : Fs)
      → i < 141
      → h i ≢ 0
      → Dropped fs fs' (among h i)
      → (fs'' : Fs) × (bfree (h i) fs' ≡ some fs'') × Dropped fs fs'' (among h (suc i))
  drop_one i fs' fits full d =
      Dropped-next fs fs' (among h i) (among h (suc i)) (h i) d (blocks i fits full)
        (among_before i i (omega arith) fits full) (λ c. ground (arith, full))

  pub drop_none :
      (i : ℕ) (fs' : Fs) → h i ≡ 0 → Dropped fs fs' (among h i) → Dropped fs fs' (among h (suc i))
  drop_none i fs' empty d = record {
    volume = d.volume;
    same_sb = d.same_sb;
    low_same = d.low_same;
    map = λ c l. ground (arith, d.map c l, empty);
    same_data = d.same_data;
  }

  free_direct_skip :
      (n i : ℕ) (ip : Inode) (fs' : Fs)
      → ip.addrs i ≡ 0
      → free_direct (suc n) i ip fs' ≡ free_direct n (i + 1) ip fs'
  unfolding free_direct
  free_direct_skip n i ip fs' e = rw e refl

  free_direct_next :
      (n i : ℕ) (ip : Inode) (fs' fs'' : Fs)
      → ip.addrs i ≢ 0
      → bfree (ip.addrs i) fs' ≡ some fs''
      → free_direct (suc n) i ip fs'
        ≡ free_direct n (i + 1) (record ip { addrs = update ip.addrs i 0 }) fs''
  unfolding free_direct
  free_direct_next n i ip fs' fs'' full e =
      let some_ : (ip.addrs i == 0) ≡ false = ground (arith, full) in rw (some_, e) refl

  pub drop_eq :
      (fs' : Fs) (i j : ℕ) → i ≡ j → Dropped fs fs' (among h i) → Dropped fs fs' (among h j)
  drop_eq fs' i j e d = subst (λ x. Dropped fs fs' (among h x)) e d

  pub free_direct_lem :
      (n i : ℕ) (ip : Inode) (fs' : Fs)
      → i + n ≡ 12
      → ((j : ℕ) → i ≤ j → j < 12 → ip.addrs j ≡ h j)
      → Dropped fs fs' (among h i)
      → (ip' : Inode) × (fs'' : Fs) × (free_direct n i ip fs' ≡ some (ip', fs''))
        × Cleared i ip ip'
        × Dropped fs fs'' (among h 12)
  unfolding free_direct
  free_direct_lem zero i ip fs' all same d =
      (ip, fs', refl, Cleared-refl i ip (omega arith), drop_eq fs' i 12 (omega arith) d)
  free_direct_lem (suc n) i ip fs' all same d =
      let here : ip.addrs i ≡ h i = same i (omega arith) (omega arith) in
      elim (Bool-cases (ip.addrs i == 0)) [
        | inl none_ ↦
            let empty : ip.addrs i ≡ 0 = ground (arith, none_) in
            let d' =
              drop_eq fs' (suc i) (i + 1) (omega arith) (drop_none i fs' (sym here ∙ empty) d) in
            let (ip', fs'', e, cleared, d'') =
              free_direct_lem n (i + 1) ip fs' (omega arith) (λ j l u. same j (omega arith) u) d' in
            (
              ip',
              fs'',
              free_direct_skip n i ip fs' empty ∙ e,
              Cleared-next i ip ip ip' (omega arith) refl empty (λ j z. refl) cleared,
              d'',
            )
        | inr some_ ↦
            let full : ip.addrs i ≢ 0 = λ z. ground (arith, some_, z) in
            let ip0 : Inode = record ip { addrs = update ip.addrs i 0 } in
            let (fs0, freed, d0) = drop_one i fs' (omega arith) (λ z. full (here ∙ z)) d in
            let freed' : bfree (ip.addrs i) fs' ≡ some fs0 =
              ap (λ (b : ℕ). bfree b fs') here ∙ freed in
            let (ip', fs'', e, cleared, d'') =
              free_direct_lem n (i + 1) ip0 fs0 (omega arith)
                (λ j l u. update_other ip.addrs i 0 j (λ z. omega arith) ∙ same j (omega arith) u)
                (drop_eq fs0 (suc i) (i + 1) (omega arith) d0) in
            (
              ip',
              fs'',
              free_direct_next n i ip fs' fs0 full freed' ∙ e,
              Cleared-next i ip ip0 ip' (omega arith) refl (update_same ip.addrs i 0)
                  (λ j z. update_other ip.addrs i 0 j (λ e. z (sym e))) cleared,
              d'',
            )
      ]

  free_entries_skip :
      (n j : ℕ) (a : Bytes) (fs' : Fs)
      → word_at a (4 * j) ≡ 0
      → free_entries (suc n) j a fs' ≡ free_entries n (j + 1) a fs'
  unfolding free_entries
  free_entries_skip n j a fs' e = rw e refl

  free_entries_next :
      (n j : ℕ) (a : Bytes) (fs' fs'' : Fs)
      → word_at a (4 * j) ≢ 0
      → bfree (word_at a (4 * j)) fs' ≡ some fs''
      → free_entries (suc n) j a fs' ≡ free_entries n (j + 1) a fs''
  unfolding free_entries
  free_entries_next n j a fs' fs'' full e =
      let some_ : (word_at a (4 * j) == 0) ≡ false = ground (arith, full) in rw (some_, e) refl

  pub free_entries_lem :
      (n j : ℕ) (a : Bytes) (fs' : Fs)
      → j + n ≡ 128
      → ((l : ℕ) → l < 128 → word_at a (4 * l) ≡ h (12 + l))
      → Dropped fs fs' (among h (12 + j))
      → (fs'' : Fs) × (free_entries n j a fs' ≡ some fs'') × Dropped fs fs'' (among h 140)
  unfolding free_entries
  free_entries_lem zero j a fs' all same d = (fs', refl, drop_eq fs' (12 + j) 140 (omega arith) d)
  free_entries_lem (suc n) j a fs' all same d =
      let here : word_at a (4 * j) ≡ h (12 + j) = same j (omega arith) in
      elim (Bool-cases (word_at a (4 * j) == 0)) [
        | inl none_ ↦
            let empty : word_at a (4 * j) ≡ 0 = ground (arith, none_) in
            let d' =
              drop_eq fs' (suc (12 + j)) (12 + (j + 1)) (omega arith)
                (drop_none (12 + j) fs' (sym here ∙ empty) d) in
            let (fs'', e, d'') = free_entries_lem n (j + 1) a fs' (omega arith) same d' in
            (fs'', free_entries_skip n j a fs' empty ∙ e, d'')
        | inr some_ ↦
            let full : word_at a (4 * j) ≢ 0 = λ z. ground (arith, some_, z) in
            let (fs0, freed, d0) = drop_one (12 + j) fs' (omega arith) (λ z. full (here ∙ z)) d in
            let freed' : bfree (word_at a (4 * j)) fs' ≡ some fs0 =
              ap (λ (b : ℕ). bfree b fs') here ∙ freed in
            let (fs'', e, d'') =
              free_entries_lem n (j + 1) a fs0 (omega arith) same
                (drop_eq fs0 (suc (12 + j)) (12 + (j + 1)) (omega arith) d0) in
            (fs'', free_entries_next n j a fs' fs0 full freed' ∙ e, d'')
      ]

  pub drop_zeros :
      (n i : ℕ) (fs' : Fs)
      → ((j : ℕ) → i ≤ j → j < i + n → h j ≡ 0)
      → Dropped fs fs' (among h i)
      → Dropped fs fs' (among h (i + n))
  drop_zeros zero i fs' empty d = drop_eq fs' i (i + 0) (omega arith) d
  drop_zeros (suc n) i fs' empty d = drop_eq fs' (suc i + n) (i + suc n) (omega arith) (
      drop_zeros n (suc i) fs' (λ j l u. empty j (omega arith) (omega arith))
        (drop_none i fs' (empty i (omega arith) (omega arith)) d))
