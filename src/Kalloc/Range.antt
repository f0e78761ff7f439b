-- ===== src/Kalloc/Range.antt =====
-- `freerange` of kalloc.c: the pages that it frees.
use course_work_sem.Base.{
  ℕ, zero, suc, ◌+◌, ◌*◌, ◌%◌, ◌^◌, ◌<◌, ◌≤◌, ◌≡◌, ◌⊎◌, refl, sym, subst, ◌∙◌, true, false, Option,
  some, List, ◌∷◌, leb, ◌==◌, arith, inl, inr, Bool-cases,
}
use course_work_sem.Kalloc.{
  pgsize, kernbase, phystop, pg_round_up, Kmem, kfree, free_from, freerange,
}
use course_work_sem.Kalloc.Chain.{IsPage, has, IsFreeList, kfree-some, kfree-IsFreeList}

-- the free list after the pages from `p` on are freed one after the other
abbrev pub pages_from : ℕ → ℕ → List ℕ → List ℕ
pages_from zero p xs = xs
pages_from (suc n) p xs = pages_from n (p + pgsize) (p ∷ xs)

free_from_stop :
    (n end p vend : ℕ) (k : Kmem) → vend < p + pgsize → free_from (suc n) end p vend k ≡ some k
unfolding free_from
free_from_stop n end p vend k last = ground arith

free_from_next :
    (n end p vend : ℕ) (k k' : Kmem)
    → p + pgsize ≤ vend
    → kfree end p k ≡ some k'
    → free_from (suc n) end p vend k ≡ free_from n end (p + pgsize) vend k'
unfolding free_from
free_from_next n end p vend k k' fits e = ground (arith, e)

-- The range holds pages only, and none of them is free.
abbrev pub IsRange : ℕ → ℕ → ℕ → List ℕ → Type 0
IsRange end p vend xs =
    (p % pgsize ≡ 0)
    × (kernbase ≤ end)
    × (end ≤ p)
    × (vend ≤ kernbase + phystop)
    × ((x : ℕ) → has x xs ≡ true → (x < p) ⊎ (vend ≤ x))

-- `n` is the number of the pages that fit.
abbrev pub Freed : ℕ → ℕ → ℕ → List ℕ → Option Kmem → Type 0
Freed end p vend xs out =
    (n : ℕ) × (k' : Kmem) × (out ≡ some k')
    × ((n ≡ 0) ⊎ (p + n * pgsize ≤ vend))
    × (vend < p + n * pgsize + pgsize)
    × IsFreeList end k' (pages_from n p xs)

IsRange-next :
    (end p vend : ℕ) (xs : List ℕ)
    → IsRange end p vend xs
    → p + pgsize ≤ vend
    → IsRange end (p + pgsize) vend (p ∷ xs)
IsRange-next end p vend xs (aligned, low, above, high, apart) fits = (
  omega arith,
  low,
  omega arith,
  high,
  λ x h. elim (Bool-cases (p == x)) [
    | inl same ↦ inl (ground arith)
    | inr other ↦ elim (apart x (ground (arith, h))) [ inl l ↦ inl (omega arith) | inr r ↦ inr r ]
  ],
)

range_fresh :
    (end p vend : ℕ) (xs : List ℕ) → IsRange end p vend xs → p + pgsize ≤ vend → has p xs ≡ false
range_fresh end p vend xs (aligned, low, above, high, apart) fits = elim (Bool-cases (has p xs)) [
  | inl h ↦ elim (apart p h) [ inl l ↦ absurd (omega arith) | inr r ↦ absurd (omega arith) ]
  | inr fresh ↦ fresh
]

range-IsPage :
    (end p vend : ℕ) (xs : List ℕ) → IsRange end p vend xs → p + pgsize ≤ vend → IsPage end p
range-IsPage end p vend xs (aligned, low, above, high, apart) fits = (aligned, above, omega arith)

free_from_lem :
    (fuel end p vend : ℕ) (k : Kmem) (xs : List ℕ)
    → vend < p + fuel * pgsize
    → IsRange end p vend xs
    → IsFreeList end k xs
    → Freed end p vend xs (free_from (suc fuel) end p vend k)
free_from_lem zero end p vend k xs enough range free =
    (0, k, free_from_stop zero end p vend k (omega arith), inl refl, omega arith, free)
free_from_lem (suc n) end p vend k xs enough range free =
    elim (Bool-cases (leb (p + pgsize) vend)) [
      | inr last ↦
          (0, k, free_from_stop (suc n) end p vend k (ground arith), inl refl, ground arith, free)
      | inl leaves ↦
          let fits : p + pgsize ≤ vend = ground arith in
          let page = range-IsPage end p vend xs range fits in
          let fresh = range_fresh end p vend xs range fits in
          let freed = kfree-some end p k page in
          let (m, k', e, room, end_, free') =
            free_from_lem n end (p + pgsize) vend _ (p ∷ xs) (omega arith)
              (IsRange-next end p vend xs range fits)
              (kfree-IsFreeList end p k xs free fresh page) in
          (
            suc m,
            k',
            free_from_next (suc n) end p vend k _ fits freed ∙ e,
            inr (elim room [ inl none_left ↦ omega arith | inr r ↦ omega arith ]),
            omega arith,
            free',
          )
    ]

-- `p` is the first address from `vstart` on at which a page starts.
abbrev pub IsFirstPage : ℕ → ℕ → Type 0
IsFirstPage vstart p = (p % pgsize ≡ 0) × (vstart ≤ p) × (p < vstart + pgsize)

pg_round_up_lem :
    (vstart p : ℕ) → vstart + pgsize ≤ 2 ^ 32 → IsFirstPage vstart p → pg_round_up vstart ≡ p
pg_round_up_lem vstart p small (aligned, low, high) = omega arith

-- `freerange` over a range that lies above the kernel and below the physical memory's end, whose start
-- does not wrap when it is rounded up, and whose pages are not free: it frees every page that lies in the range, from the first one that starts at or
-- after its start on, in order, and no other.
pub freerange_lem :
    (end vstart vend p : ℕ) (k : Kmem) (xs : List ℕ)
    → vstart + pgsize ≤ 2 ^ 32
    → IsFirstPage vstart p
    → IsRange end p vend xs
    → IsFreeList end k xs
    → Freed end p vend xs (freerange end vstart vend k)
unfolding freerange
freerange_lem end vstart vend p k xs small first range free =
    subst (λ (q : ℕ). Freed end p vend xs (free_from (suc vend) end q vend k))
      (sym (pg_round_up_lem vstart p small first))
      (free_from_lem vend end p vend k xs (omega arith) range free)
