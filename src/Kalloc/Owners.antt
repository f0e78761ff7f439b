-- ===== src/Kalloc/Owners.antt =====
-- The allocator of kalloc.c with its clients, who may write anything into the pages that they own.
use course_work_sem.Base.{
  ℕ, ◌+◌, ◌<◌, ◌≤◌, ◌≡◌, ◌≢◌, refl, subst, sym, Bool, true, false, some, List, [], ◌∷◌, ◌==◌,
  update, update_other, arith, inl, inr, Bool-cases,
}
use course_work_sem.Kalloc.{pgsize, Kmem, kfree, kalloc}
use course_work_sem.Kalloc.Chain.{
  IsPage, has, IsFreeList, pages_has, IsChain-agree, kfree-some, kfree_lem, FreeOutcome, kalloc_lem,
  pages_apart,
}

-- What can happen: `kalloc`, `kfree` of an owned page, and a write into an owned page. `owned` says
-- which pages were handed out and not freed.
pub data Reach (end : ℕ) (k0 : Kmem) : Kmem → (ℕ → Bool) → Type 0 where
  start : Reach end k0 k0 (λ v. false)
  alloc_step :
      {k : Kmem} {owned : ℕ → Bool}
      → Reach end k0 k owned
      → (kalloc k).0 ≢ 0
      → Reach end k0 (kalloc k).1 (update owned (kalloc k).0 true)
  free_step :
      {k k' : Kmem} {owned : ℕ → Bool} (v : ℕ)
      → Reach end k0 k owned
      → owned v ≡ true
      → kfree end v k ≡ some k'
      → Reach end k0 k' (update owned v false)
  write_step :
      {k : Kmem} {owned : ℕ → Bool} (v a x : ℕ)
      → Reach end k0 k owned
      → owned v ≡ true
      → v ≤ a
      → a < v + pgsize
      → Reach end k0 (record k { words = update k.words a x }) owned

-- The free list is intact, and no owned page is on it.
abbrev pub Separate : ℕ → Kmem → (ℕ → Bool) → List ℕ → Type 0
Separate end k owned xs =
    IsFreeList end k xs × ((v : ℕ) → owned v ≡ true → IsPage end v × (has v xs ≡ false))

alloc-Separate :
    (end : ℕ) (k : Kmem) (owned : ℕ → Bool) (xs : List ℕ)
    → 0 < end
    → Separate end k owned xs
    → (kalloc k).0 ≢ 0
    → (x : ℕ) × (ys : List ℕ) × (xs ≡ x ∷ ys)
      × ((kalloc k).0 ≡ x)
      × (owned x ≡ false)
      × IsPage end x
      × Separate end (kalloc k).1 (update owned (kalloc k).0 true) ys
alloc-Separate end k owned [] above (free, apart) full =
    absurd (full (kalloc_lem end k [] above free).0)
alloc-Separate end k owned (x ∷ ys) above (free, apart) full =
    let (e, free', same) = kalloc_lem end k (x ∷ ys) above free in
    (
      x,
      ys,
      refl,
      e,
      ground (arith, apart x),
      free.1.0,
      (
        free',
        λ v h. elim (Bool-cases (v == x)) [
          | inl here ↦ (ground (arith, free.1.0), ground (arith, free.1.1))
          | inr other ↦
              (let known = apart v (ground (arith, h, e)) in (known.0, ground (arith, known.1)))
        ],
      ),
    )

free-Separate :
    (end v : ℕ) (k k' : Kmem) (owned : ℕ → Bool) (xs : List ℕ)
    → Separate end k owned xs
    → owned v ≡ true
    → kfree end v k ≡ some k'
    → Separate end k' (update owned v false) (v ∷ xs)
free-Separate end v k k' owned xs (free, apart) mine e =
    let out = subst (FreeOutcome end v k xs) e (kfree_lem end v k xs free (apart v mine).1) in
    (
      out.1,
      λ w h. (let known = apart w (ground (arith, h)) in (known.0, ground (arith, h, known.1))),
    )

write-Separate :
    (end v a x : ℕ) (k : Kmem) (owned : ℕ → Bool) (xs : List ℕ)
    → Separate end k owned xs
    → owned v ≡ true
    → v ≤ a
    → a < v + pgsize
    → Separate end (record k { words = update k.words a x }) owned xs
write-Separate end v a x k owned xs ((chain, all), apart) mine low high =
    let known = apart v mine in
    (
      (
        IsChain-agree k.words (update k.words a x) k.freelist xs
            (λ y h.
              (let page = pages_has end y xs all h in
                update_other k.words a x y (λ here.
                  elim (pages_apart v y y known.0.0 page.0 (λ same. ground (arith, h, known.1))
                    (omega arith) (omega arith)) [ inl l ↦ omega arith | inr l ↦ omega arith ])))
            chain,
        all,
      ),
      apart,
    )

pub Reach-Separate :
    (end : ℕ) (k0 : Kmem) {k : Kmem} {owned : ℕ → Bool} (xs : List ℕ)
    → 0 < end
    → IsFreeList end k0 xs
    → Reach end k0 k owned
    → (ys : List ℕ) × Separate end k owned ys
Reach-Separate end k0 xs above free start = (xs, (free, λ v h. cc))
Reach-Separate end k0 xs above free (alloc_step {k} {owned} r full) =
    let (ys, sep) = Reach-Separate end k0 xs above free r in
    let (x, zs, e, first, unowned, page, rest) = alloc-Separate end k owned ys above sep full in
    (zs, rest)
Reach-Separate end k0 xs above free (free_step {k} {k'} {owned} v r mine e) =
    let (ys, sep) = Reach-Separate end k0 xs above free r in
    (v ∷ ys, free-Separate end v k k' owned ys sep mine e)
Reach-Separate end k0 xs above free (write_step {k} {owned} v a x r mine low high) =
    let (ys, sep) = Reach-Separate end k0 xs above free r in
    (ys, write-Separate end v a x k owned ys sep mine low high)

-- From an intact free list, after any calls of `kalloc`, any `kfree` of a page that was handed out,
-- and any writes into pages that were handed out: a page that `kalloc` returns is a page of the
-- allocator's range that nobody owns, and `kfree` of an owned page does not panic.
pub Reach-kalloc :
    (end : ℕ) (k0 : Kmem) {k : Kmem} {owned : ℕ → Bool} (xs : List ℕ)
    → 0 < end
    → IsFreeList end k0 xs
    → Reach end k0 k owned
    → ((kalloc k).0 ≢ 0 → IsPage end (kalloc k).0 × (owned (kalloc k).0 ≡ false))
      × ((v : ℕ) → owned v ≡ true → (k' : Kmem) × (kfree end v k ≡ some k'))
Reach-kalloc end k0 {k} {owned} xs above free r =
    let (ys, sep) = Reach-Separate end k0 xs above free r in
    (
      λ full.
          (let (x, zs, e, first, unowned, page, rest) =
              alloc-Separate end k owned ys above sep full in
            subst (λ p. IsPage end p × (owned p ≡ false)) (sym first) (page, unowned)),
      λ v mine. (_, kfree-some end v k (sep.1 v mine).0),
    )
