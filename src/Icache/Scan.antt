-- ===== src/Icache/Scan.antt =====
-- The loop of `iget` of fs.c: the slot that it finds.
use course_work_sem.Base.{
  ℕ, zero, suc, ◌+◌, ◌<◌, ◌≤◌, ◌≡◌, ◌≢◌, ◌⊎◌, inl, inr, refl, sym, subst, true, false, Option, none,
  some, ◌==◌, arith, Bool-cases,
}
use course_work_sem.Inode.{Inode}
use course_work_sem.Icache.{Found, cached, vacant, full, is_entry, remember, scan}

module _ (dev inum : ℕ) (t : ℕ → Inode) where
  -- `n` slots from `k` on have no entry for the inode
  abbrev pub NoEntry : ℕ → ℕ → Type 0
  NoEntry n k = (i : ℕ) → k ≤ i → i < k + n → is_entry dev inum (t i) ≡ false

  abbrev pub ScanOutcome : ℕ → ℕ → Option ℕ → Found → Type 0
  ScanOutcome n k empty (cached j) = (j < k + n) × (is_entry dev inum (t j) ≡ true)
  ScanOutcome n k empty (vacant j) =
      NoEntry n k × ((empty ≡ some j) ⊎ ((j < k + n) × ((t j).ref ≡ 0)))
  ScanOutcome n k empty full =
      NoEntry n k × (empty ≡ none) × ((i : ℕ) → k ≤ i → i < k + n → (t i).ref ≢ 0)

  none_left : (k : ℕ) → NoEntry 0 k
  none_left k i low high = absurd (omega arith)

  none_next : (n k : ℕ) → is_entry dev inum (t k) ≡ false → NoEntry n (k + 1) → NoEntry (suc n) k
  none_next n k here later i low high = elim (Bool-cases (i == k)) [
    | inl same ↦
        (let e : i ≡ k = ground arith in subst (λ j. is_entry dev inum (t j) ≡ false) (sym e) here)
    | inr other ↦ later i (ground arith) (omega arith)
  ]

  remembered : (n k j : ℕ) → remember none k (t k) ≡ some j → (j < k + suc n) × ((t j).ref ≡ 0)
  remembered n k j kept = elim (Bool-cases ((t k).ref == 0)) [
    | inl free ↦
        let e : k ≡ j = ground (arith, kept, free) in
        (omega arith, subst (λ i. (t i).ref ≡ 0) e (ground (arith, free)))
    | inr used ↦ absurd (ground (arith, kept, used))
  ]

  still_used :
      (n k : ℕ)
      → remember none k (t k) ≡ none
      → ((i : ℕ) → k + 1 ≤ i → i < k + 1 + n → (t i).ref ≢ 0)
      → (i : ℕ) → k ≤ i
      → i < k + suc n
      → (t i).ref ≢ 0
  still_used n k kept used i low high z = elim (Bool-cases (i == k)) [
    | inl same ↦
        let e : i ≡ k = ground arith in
        let free : (t k).ref ≡ 0 = subst (λ j. (t j).ref ≡ 0) e z in ground (arith, kept, free)
    | inr other ↦ used i (ground arith) (omega arith) z
  ]

  step :
      (n k : ℕ) (empty : Option ℕ) (f : Found)
      → is_entry dev inum (t k) ≡ false
      → ScanOutcome n (k + 1) (remember empty k (t k)) f
      → ScanOutcome (suc n) k empty f
  step n k empty (cached j) here (high, entry) = (omega arith, entry)
  step n k (some e) (vacant j) here (no_entry, inl kept) = (none_next n k here no_entry, inl kept)
  step n k none (vacant j) here (no_entry, inl kept) =
      (none_next n k here no_entry, inr (remembered n k j kept))
  step n k empty (vacant j) here (no_entry, inr (high, free)) =
      (none_next n k here no_entry, inr (omega arith, free))
  step n k (some e) full here (no_entry, kept, used) = absurd cc
  step n k none full here (no_entry, kept, used) =
      (none_next n k here no_entry, refl, still_used n k kept used)

  pub scan_lem : (n k : ℕ) (empty : Option ℕ) → ScanOutcome n k empty (scan n k empty dev inum t)
  unfolding scan
  scan_lem zero k none = (none_left k, refl, λ i low high. absurd (omega arith))
  scan_lem zero k (some e) = (none_left k, inl refl)
  scan_lem (suc n) k empty = elim (Bool-cases (is_entry dev inum (t k))) [
    | inl here ↦ rw here (omega arith, here)
    | inr other ↦ rw other (
        step n k empty (scan n (k + 1) (remember empty k (t k)) dev inum t) other
          (scan_lem n (k + 1) (remember empty k (t k))))
  ]
