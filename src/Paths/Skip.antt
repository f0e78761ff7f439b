-- ===== src/Paths/Skip.antt =====
-- What `skipelem` of fs.c returns, against the path as a whole.
use course_work_sem.Base.{
  ℕ, ◌≡◌, ◌≢◌, ◌⊎◌, inl, inr, refl, ap, sym, subst, ◌∙◌, Bool, true, false, Option, none, some,
  List, [], ◌∷◌, ◌++◌, take, ◌==◌, arith, Bool-cases, append-nil,
}
use course_work_sem.Paths.{dirsiz, slash, skip_slashes, to_slash, skipelem}

abbrev pub AllSlashes : List ℕ → Type 0
AllSlashes [] = Unit {0}
AllSlashes (c ∷ cs) = ((c == slash) ≡ true) × AllSlashes cs

abbrev pub NoSlash : List ℕ → Type 0
NoSlash [] = Unit {0}
NoSlash (c ∷ cs) = ((c == slash) ≡ false) × NoSlash cs

abbrev pub starts_with_slash : List ℕ → Bool
starts_with_slash [] = false
starts_with_slash (c ∷ cs) = c == slash

pub skip_slashes_lem :
    (path : List ℕ)
    → (front : List ℕ) × (path ≡ front ++ skip_slashes path)
      × AllSlashes front
      × (starts_with_slash (skip_slashes path) ≡ false)
unfolding skip_slashes
skip_slashes_lem [] = ([], refl, tt, refl)
skip_slashes_lem (c ∷ cs) = elim (Bool-cases (c == slash)) [
  | inl yes_ ↦
      let (front, split, all, rest) = skip_slashes_lem cs in
      rw yes_ (c ∷ front, ap (λ ys. c ∷ ys) split, (yes_, all), rest)
  | inr no_ ↦ rw no_ ([], refl, tt, no_)
]

pub to_slash_lem :
    (path : List ℕ)
    → (path ≡ (to_slash path).0 ++ (to_slash path).1)
      × NoSlash (to_slash path).0
      × ((to_slash path).1 ≡ [] ⊎ (starts_with_slash (to_slash path).1 ≡ true))
unfolding to_slash
to_slash_lem [] = (refl, tt, inl refl)
to_slash_lem (c ∷ cs) = elim (Bool-cases (c == slash)) [
  | inl yes_ ↦ rw yes_ (refl, tt, inr yes_)
  | inr no_ ↦
      let (split, all, rest) = to_slash_lem cs in rw no_ (ap (λ ys. c ∷ ys) split, (no_, all), rest)
]

-- The path is slashes, an element, slashes if more follows, and the rest.
abbrev pub IsElement : List ℕ → List ℕ → List ℕ → Type 0
IsElement path name rest =
    (before : List ℕ) × (element : List ℕ) × (after : List ℕ) × (path
      ≡ before ++ (element ++ (after ++ rest)))
    × AllSlashes before
    × NoSlash element
    × (element ≢ [])
    × AllSlashes after
    × (after ≡ [] → rest ≡ [])
    × (starts_with_slash rest ≡ false)
    × (name ≡ take dirsiz element)

abbrev pub SkipOutcome : List ℕ → Option (List ℕ × List ℕ) → Type 0
SkipOutcome path none = AllSlashes path
SkipOutcome path (some (name, rest)) = IsElement path name rest

skipelem-none : (path : List ℕ) → skip_slashes path ≡ [] → skipelem path ≡ none
unfolding skipelem
skipelem-none path e = rw (e, skipelem) refl

skipelem-some :
    (path : List ℕ) (c : ℕ) (cs : List ℕ)
    → skip_slashes path ≡ c ∷ cs
    → skipelem path ≡ some (take dirsiz (to_slash (c ∷ cs)).0, skip_slashes (to_slash (c ∷ cs)).1)
unfolding skipelem
skipelem-some path c cs e = rw (e, skipelem) refl

nil_or_cons : (xs : List ℕ) → (xs ≡ []) ⊎ ((c : ℕ) × (cs : List ℕ) × (xs ≡ c ∷ cs))
nil_or_cons [] = inl refl
nil_or_cons (c ∷ cs) = inr (c, cs, refl)

to_slash_first : (c : ℕ) (cs : List ℕ) → (c == slash) ≡ false → (to_slash (c ∷ cs)).0 ≢ []
unfolding to_slash
to_slash_first c cs first = rw first (λ e. cc)

-- Where an element ended and no slash was skipped, the path has ended.
skipped_none :
    (rest after : List ℕ)
    → (rest ≡ []) ⊎ (starts_with_slash rest ≡ true)
    → rest ≡ after ++ skip_slashes rest
    → starts_with_slash (skip_slashes rest) ≡ false
    → after ≡ []
    → skip_slashes rest ≡ []
unfolding skip_slashes
skipped_none rest after (inl e) split start none_ = rw (e, skip_slashes) refl
skipped_none rest after (inr e) split start none_ =
    let same : rest ≡ skip_slashes rest = split ∙ ap (λ ys. ys ++ skip_slashes rest) none_ in
    let contra : starts_with_slash rest ≡ false =
      subst (λ ys. starts_with_slash ys ≡ false) (sym same) start in
    absurd (ground (arith, contra, e))

element_lem :
    (path : List ℕ) (c : ℕ) (cs front : List ℕ)
    → path ≡ front ++ (c ∷ cs)
    → AllSlashes front
    → (c == slash) ≡ false
    → IsElement path (take dirsiz (to_slash (c ∷ cs)).0) (skip_slashes (to_slash (c ∷ cs)).1)
element_lem path c cs front split all first =
    let (split2, no_slash, ended) = to_slash_lem (c ∷ cs) in
    let rest = (to_slash (c ∷ cs)).1 in
    let (after, split3, slashes, start) = skip_slashes_lem rest in
    (
      front,
      (to_slash (c ∷ cs)).0,
      after,
      split ∙ ap (λ ys. front ++ ys) (split2 ∙ ap (λ ys. (to_slash (c ∷ cs)).0 ++ ys) split3),
      all,
      no_slash,
      to_slash_first c cs first,
      slashes,
      skipped_none rest after ended split3 start,
      start,
      refl,
    )

-- `skipelem` returns null exactly for a path of slashes only; otherwise it takes off the leading
-- slashes and the first element, which is not empty, with the slashes behind it, and the name is
-- the first DIRSIZ characters of the element.
pub skipelem_lem : (path : List ℕ) → SkipOutcome path (skipelem path)
skipelem_lem path =
    let (front, split, all, start) = skip_slashes_lem path in
    elim (nil_or_cons (skip_slashes path)) [
      | inl none_left ↦
          rw (skipelem-none path none_left) (
            subst AllSlashes (sym (split ∙ ap (λ ys. front ++ ys) none_left ∙ append-nil front))
              all)
      | inr (c, cs, e) ↦ rw (skipelem-some path c cs e) (
          let first : (c == slash) ≡ false = subst (λ ys. starts_with_slash ys ≡ false) e start in
          element_lem path c cs front (split ∙ ap (λ ys. front ++ ys) e) all first)
    ]
