-- ===== src/Bio/Recycle.antt =====
-- `bget` of bio.c: what recycling a buffer and marking one as busy keep.
use course_work_sem.Base.{
  ℕ, ◌≡◌, refl, ap, subst, Bool, true, false, ◌||◌, Option, none, some, List, [], ◌∷◌, arith, ◌==◌,
  Bool-cases, Option-cases, inl, inr,
}
use course_work_sem.Bio.{Buf, holds, cached, is_free, recycle, renew, mark_busy, assign}
use course_work_sem.Bio.View.{Distinct, by_id, by_id-has_id, cached-by_id}

-- `P` of the buffers before, the recycled buffer and the buffers after
abbrev pub Recycles :
    (List Buf → Buf → List Buf → Type 0) → List Buf → Option (Buf × List Buf) → Type 0
Recycles P bs none = Unit {0}
Recycles P bs (some (b, cs)) = P bs b cs

recycle-Recycles :
    (dev blockno : ℕ) (P : List Buf → Buf → List Buf → Type 0)
    → ((c : Buf) (bs : List Buf)
        → is_free c ≡ true
        → P (c ∷ bs) (renew dev blockno c) (renew dev blockno c ∷ bs))
    → ((c : Buf) (bs : List Buf) (b : Buf) (cs : List Buf) → P bs b cs → P (c ∷ bs) b (c ∷ cs))
    → (bs : List Buf) → Recycles P bs (recycle dev blockno bs)
unfolding recycle
recycle-Recycles dev blockno P here later [] = tt
recycle-Recycles dev blockno P here later (c ∷ bs) =
    let ih = recycle-Recycles dev blockno P here later bs in
    elim (Option-cases (recycle dev blockno bs)) [
      | inr ((b, cs), e) ↦ rw e (later c bs b cs (rw e at ih))
      | inl e ↦ elim (Bool-cases (is_free c)) [
        | inl free ↦ rw (e, free) (here c bs free)
        | inr busy ↦ rw (e, busy) tt
      ]
    ]

-- A property of all steps of `recycle`, which takes the last free buffer.
pub recycle_induction :
    (dev blockno : ℕ) (P : List Buf → Buf → List Buf → Type 0)
    → ((c : Buf) (bs : List Buf)
        → is_free c ≡ true
        → P (c ∷ bs) (renew dev blockno c) (renew dev blockno c ∷ bs))
    → ((c : Buf) (bs : List Buf) (b : Buf) (cs : List Buf) → P bs b cs → P (c ∷ bs) b (c ∷ cs))
    → {bs : List Buf} {b : Buf} {cs : List Buf} → recycle dev blockno bs ≡ some (b, cs)
    → P bs b cs
recycle_induction dev blockno P here later {bs} e =
    subst (Recycles P bs) e (recycle-Recycles dev blockno P here later bs)

-- The recycled buffer was free, and the rest of the list is unchanged.
abbrev pub Renewed : ℕ → ℕ → List Buf → Buf → List Buf → Type 0
Renewed dev blockno bs b cs =
    Distinct bs
    → (c : Buf) × (by_id b.id bs ≡ some c)
      × (is_free c ≡ true)
      × (b ≡ renew dev blockno c)
      × (cs ≡ assign b bs)

Renewed-here :
    (dev blockno : ℕ) (c : Buf) (bs : List Buf)
    → is_free c ≡ true
    → Renewed dev blockno (c ∷ bs) (renew dev blockno c) (renew dev blockno c ∷ bs)
unfolding by_id assign
Renewed-here dev blockno c bs free (fresh, distinct) = (c, ground arith, free, refl, ground arith)

Renewed-later :
    (dev blockno : ℕ) (x : Buf) (bs : List Buf) (b : Buf) (cs : List Buf)
    → Renewed dev blockno bs b cs
    → Renewed dev blockno (x ∷ bs) b (x ∷ cs)
unfolding by_id assign
Renewed-later dev blockno x bs b cs ih (fresh, distinct) =
    let (c, found, free, new, after) = ih distinct in
    let known = by_id-has_id b.id bs {c = c} found in
    elim (Bool-cases (x.id == b.id)) [
      | inl same ↦ absurd (ground (arith, known.0))
      | inr other ↦ (c, rw other found, free, new, rw other (ap (λ ys. x ∷ ys) after))
    ]

pub recycle-Renewed :
    (dev blockno : ℕ) (bs : List Buf) {b : Buf} {cs : List Buf}
    → recycle dev blockno bs ≡ some (b, cs)
    → Renewed dev blockno bs b cs
recycle-Renewed dev blockno bs e =
    recycle_induction dev blockno (Renewed dev blockno) (Renewed-here dev blockno)
      (Renewed-later dev blockno) e

-- `recycle` fails only if no buffer is free.
abbrev pub any_free : List Buf → Bool
any_free [] = false
any_free (b ∷ bs) = is_free b || any_free bs

pub recycle_fails :
    (dev blockno : ℕ) (bs : List Buf) → recycle dev blockno bs ≡ none → any_free bs ≡ false
unfolding recycle
recycle_fails dev blockno [] e = refl
recycle_fails dev blockno (c ∷ cs) e = elim (Option-cases (recycle dev blockno cs)) [
  | inl f ↦ let rest = recycle_fails dev blockno cs f in ground (arith, e, f)
  | inr ((b, ds), f) ↦ absurd (ground (arith, e, f))
]

pub mark_busy-assign :
    (dev blockno : ℕ) (bs : List Buf) {b : Buf}
    → Distinct bs
    → cached dev blockno bs ≡ some b
    → mark_busy dev blockno bs ≡ assign (record b { busy = true }) bs
unfolding cached mark_busy assign
mark_busy-assign dev blockno [] distinct e = cc
mark_busy-assign dev blockno (c ∷ cs) {b = b} (fresh, distinct) e =
    elim (Bool-cases (holds c dev blockno)) [
      | inl hit ↦ ground (arith, e)
      | inr miss ↦
          let rest = mark_busy-assign dev blockno cs {b = b} distinct (rw miss at e) in
          let known = cached-by_id dev blockno cs {b = b} distinct (rw miss at e) in
          let known' = by_id-has_id b.id cs {c = b} known.0 in
          elim (Bool-cases (c.id == b.id)) [
            | inl same ↦ absurd (ground (arith, known'.0))
            | inr other ↦ rw (miss, other) (ap (λ ys. c ∷ ys) rest)
          ]
    ]
