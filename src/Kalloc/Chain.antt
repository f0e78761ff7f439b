-- ===== src/Kalloc/Chain.antt =====
-- The free list of kalloc.c: what `kfree` and `kalloc` do to the chain of pages.
use course_work_sem.Base.{
  ℕ, ◌+◌, ◌%◌, ◌<◌, ◌≤◌, ◌≡◌, ◌≢◌, ◌⊎◌, refl, Bool, true, false, ◌||◌, Option, none, some, List, [],
  ◌∷◌, ltb, leb, ◌==◌, update, update_same, arith, inl, inr, Bool-cases,
}
use course_work_sem.Kalloc.{pgsize, phystop, v2p, Kmem, fill_junk, kfree, kalloc}

-- An address that `kfree` takes.
abbrev pub IsPage : ℕ → ℕ → Type 0
IsPage end v = (v % pgsize ≡ 0) × (end ≤ v) × (v2p v < phystop)

abbrev pub has : ℕ → List ℕ → Bool
has x [] = false
has x (y ∷ ys) = (y == x) || has x ys

abbrev pub AllPages : ℕ → List ℕ → Type 0
AllPages end [] = Unit {0}
AllPages end (x ∷ xs) = IsPage end x × (has x xs ≡ false) × AllPages end xs

-- From the pointer `p`, the links of the free pages give these pages and then null.
abbrev pub IsChain : (ℕ → ℕ) → ℕ → List ℕ → Type 0
IsChain words p [] = p ≡ 0
IsChain words p (x ∷ xs) = (p ≡ x) × IsChain words (words x) xs

-- The free list holds these pages, each once.
abbrev pub IsFreeList : ℕ → Kmem → List ℕ → Type 0
IsFreeList end k xs = IsChain k.words k.freelist xs × AllPages end xs

pub pages_has : (end x : ℕ) (xs : List ℕ) → AllPages end xs → has x xs ≡ true → IsPage end x
pages_has end x [] all h = cc
pages_has end x (y ∷ ys) (page, fresh, all) h = elim (Bool-cases (y == x)) [
  | inl same ↦ ground (arith, page)
  | inr other ↦ pages_has end x ys all (ground arith)
]

-- Memory may change outside of the first words of the free pages.
pub IsChain-agree :
    (words words' : ℕ → ℕ) (p : ℕ) (xs : List ℕ)
    → ((x : ℕ) → has x xs ≡ true → words' x ≡ words x)
    → IsChain words p xs
    → IsChain words' p xs
IsChain-agree words words' p [] agree e = e
IsChain-agree words words' p (x ∷ xs) agree (e, chain) = (
  e,
  rw (agree x (ground arith))
      (IsChain-agree words words' (words x) xs (λ y h. agree y (ground (arith, h))) chain),
)

pub kfree-some :
    (end v : ℕ) (k : Kmem)
    → IsPage end v
    → kfree end v k
      ≡ some (record k { words = update (fill_junk v k.words) v k.freelist; freelist = v })
unfolding kfree
kfree-some end v k page = ground (arith, page)

pub kfree-none :
    (end v : ℕ) (k : Kmem)
    → (v % pgsize ≢ 0) ⊎ ((v < end) ⊎ (phystop ≤ v2p v))
    → kfree end v k ≡ none
unfolding kfree
kfree-none end v k (inl odd) = ground (arith, odd)
kfree-none end v k (inr (inl low)) = ground (arith, low)
kfree-none end v k (inr (inr high)) = ground (arith, high)

pub IsPage-cases : (end v : ℕ) → IsPage end v ⊎ ((v % pgsize ≢ 0) ⊎ ((v < end) ⊎ (phystop ≤ v2p v)))
IsPage-cases end v = elim (Bool-cases (v % pgsize == 0)) [
  | inr odd ↦ inr (inl (λ e. ground arith))
  | inl even ↦ elim (Bool-cases (ltb v end)) [
    | inl low ↦ inr (inr (inl (ground arith)))
    | inr high ↦ elim (Bool-cases (leb phystop (v2p v))) [
      | inl top ↦ inr (inr (inr (ground arith)))
      | inr fits ↦ inl (ground arith, ground arith, ground arith)
    ]
  ]
]

-- Two pages do not overlap.
pub pages_apart :
    (v x a : ℕ)
    → v % pgsize ≡ 0
    → x % pgsize ≡ 0
    → x ≢ v
    → x ≤ a
    → a < x + pgsize
    → (a < v) ⊎ (v + pgsize ≤ a)
pages_apart v x a v_page x_page other low high = omega arith

-- Filling page `v` with junk and linking it leaves all other words as they were.
pub link_outside :
    (words : ℕ → ℕ) (v next a : ℕ)
    → (a < v) ⊎ (v + pgsize ≤ a)
    → update (fill_junk v words) v next a ≡ words a
link_outside words v next a (inl low) = ground (arith, low)
link_outside words v next a (inr high) = ground (arith, high)

pub kfree-IsFreeList :
    (end v : ℕ) (k : Kmem) (xs : List ℕ)
    → IsFreeList end k xs
    → has v xs ≡ false
    → IsPage end v
    → IsFreeList end
        (record k { words = update (fill_junk v k.words) v k.freelist; freelist = v })
        (v ∷ xs)
kfree-IsFreeList end v k xs (chain, all) fresh page = (
  (
    refl,
    rw (update_same (fill_junk v k.words) v k.freelist) (
        IsChain-agree k.words _ k.freelist xs
          (λ x h.
            (let x_page = pages_has end x xs all h in
              link_outside k.words v k.freelist x (
                pages_apart v x x page.0 x_page.0 (λ same. ground arith) (omega arith)
                  (omega arith))))
          chain),
  ),
  (page, fresh, all),
)

abbrev pub FreeOutcome : ℕ → ℕ → Kmem → List ℕ → Option Kmem → Type 0
FreeOutcome end v k xs none = (v % pgsize ≢ 0) ⊎ ((v < end) ⊎ (phystop ≤ v2p v))
FreeOutcome end v k xs (some k') =
    IsPage end v
    × IsFreeList end k' (v ∷ xs)
    × ((a : ℕ) → (a < v) ⊎ (v + pgsize ≤ a) → k'.words a ≡ k.words a)

-- `kfree` of an address that is not on the free list: either it is the address of a page in the
-- allocator's range, and then it is put in front of the free list and no word outside of the page
-- changes; or it is not, and `kfree` panics.
pub kfree_lem :
    (end v : ℕ) (k : Kmem) (xs : List ℕ)
    → IsFreeList end k xs
    → has v xs ≡ false
    → FreeOutcome end v k xs (kfree end v k)
kfree_lem end v k xs free fresh = elim (IsPage-cases end v) [
  | inl page ↦
      rw (kfree-some end v k page)
        (page, kfree-IsFreeList end v k xs free fresh page, link_outside k.words v k.freelist)
  | inr bad ↦ rw (kfree-none end v k bad) bad
]

abbrev pub AllocOutcome : ℕ → Kmem → List ℕ → ℕ × Kmem → Type 0
AllocOutcome end k [] (p, k') = (p ≡ 0) × (k' ≡ k)
AllocOutcome end k (x ∷ xs) (p, k') = (p ≡ x) × IsFreeList end k' xs × (k'.words ≡ k.words)

pub kalloc-some :
    (k : Kmem)
    → k.freelist ≢ 0
    → kalloc k ≡ (k.freelist, record k { freelist = k.words k.freelist })
unfolding kalloc
kalloc-some k full = ground (arith, full)

pub kalloc-none : (k : Kmem) → k.freelist ≡ 0 → kalloc k ≡ (0, k)
unfolding kalloc
kalloc-none k empty = ground (arith, empty)

-- `kalloc` takes the first page of the free list; it returns null, and changes nothing, if there is
-- none, given that the kernel does not end at address 0.
pub kalloc_lem :
    (end : ℕ) (k : Kmem) (xs : List ℕ)
    → 0 < end
    → IsFreeList end k xs
    → AllocOutcome end k xs (kalloc k)
kalloc_lem end k [] above (e, all) = rw (kalloc-none k e) (refl, refl)
kalloc_lem end k (x ∷ xs) above ((e, chain), (page, fresh, all)) =
    rw (kalloc-some k (λ null. omega arith)) (e, (rw e chain, all), refl)
