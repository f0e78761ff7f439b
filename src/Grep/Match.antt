-- ===== src/Grep/Match.antt =====
-- `matchhere` and `match` of grep.c against the language of the expression.
use course_work_sem.Base.{
  ℕ, ◌≡◌, ◌⊎◌, ◌↔◌, inl, inr, refl, ap, ap₂, sym, subst, ◌∙◌, Bool, true, false, ◌&&◌, ◌||◌, List,
  [], ◌∷◌, ◌++◌, ◌==◌, arith, Bool-cases, append_assoc,
}
use course_work_sem.Grep.{
  star_char, dot_char, dollar_char, caret_char, is_end, matchstar, matchhere, match_anywhere, match,
}
use course_work_sem.Grep.Lang.{many, Regex, with_item, parse, AllAccepted, BeginsWith}

-- `matchstar` holds if `here` holds after some characters that `c` accepts.
pub matchstar_sound :
    (c : ℕ) (here : List ℕ → Bool) (text : List ℕ)
    → matchstar c here text ≡ true
    → (run : List ℕ) × (rest : List ℕ) × (text ≡ run ++ rest)
      × AllAccepted c run
      × (here rest ≡ true)
unfolding matchstar
matchstar_sound c here [] e = ([], [], refl, tt, e)
matchstar_sound c here (x ∷ xs) e = elim (Bool-cases (here (x ∷ xs))) [
  | inl now ↦ ([], x ∷ xs, refl, tt, now)
  | inr later ↦
      let (run, rest, split, all, h) = matchstar_sound c here xs (ground (arith, e)) in
      (x ∷ run, rest, ap (λ ys. x ∷ ys) split, (ground (arith, e), all), h)
]

pub matchstar_complete :
    (c : ℕ) (here : List ℕ → Bool) (run rest : List ℕ)
    → AllAccepted c run
    → here rest ≡ true
    → matchstar c here (run ++ rest) ≡ true
unfolding matchstar
matchstar_complete c here [] [] all h = h
matchstar_complete c here [] (x ∷ xs) all h = rw h refl
matchstar_complete c here (x ∷ xs) rest (ok, all) h =
    let more = matchstar_complete c here xs rest all h in ground (arith, ok, more)

starred_sound :
    (c : ℕ) (re text : List ℕ)
    → matchstar c (matchhere re) text ≡ true
    → ((rest : List ℕ) → matchhere re rest ≡ true → BeginsWith (parse re) rest)
    → BeginsWith (with_item (many c) (parse re)) text
starred_sound c re text e ih =
    let (run, rest, split, all, h) = matchstar_sound c (matchhere re) text e in
    let (front, back, split', lang, bound) = ih rest h in
    (
      run ++ front,
      back,
      split ∙ ap (λ ys. run ++ ys) split' ∙ sym (append_assoc run front back),
      (run, front, refl, all, lang),
      bound,
    )

both_true : (a b : Bool) → a ≡ true → b ≡ true → (a && b) ≡ true
both_true a b p q = rw (p, q) refl

-- the last two tests of `matchhere`, for the rest of the expression that `next` matches
abbrev first_fits : ℕ → List ℕ → Bool
first_fits c text = elim text [ [] ↦ false | x ∷ xs ↦ (c == dot_char) || (c == x) ]

abbrev one_fits : ℕ → (List ℕ → Bool) → List ℕ → Bool
one_fits c next text = elim text [ [] ↦ false | x ∷ xs ↦ ((c == dot_char) || (c == x)) && next xs ]

pub matchhere_sound : (re text : List ℕ) → matchhere re text ≡ true → BeginsWith (parse re) text
unfolding matchhere parse
matchhere_sound [] text e = ([], text, refl, refl, λ h. cc)
matchhere_sound (c ∷ []) [] e = elim (Bool-cases (c == dollar_char)) [
  | inl at_end ↦ rw at_end ([], [], refl, refl, λ h. refl)
  | inr plain ↦ absurd (ground (arith, e))
]
matchhere_sound (c ∷ []) (x ∷ xs) e = elim (Bool-cases (c == dollar_char)) [
  | inl at_end ↦ absurd (ground (arith, e))
  | inr plain ↦ rw plain (x ∷ [], xs, refl, (x, [], refl, ground (arith, e), refl), λ h. cc)
]
matchhere_sound (c ∷ d ∷ re) [] e = elim (Bool-cases (d == star_char)) [
  | inl star ↦ rw star (starred_sound c re [] (rw star at e) (matchhere_sound re))
  | inr plain ↦ absurd (ground (arith, e))
]
matchhere_sound (c ∷ d ∷ re) (x ∷ xs) e = elim (Bool-cases (d == star_char)) [
  | inl star ↦ rw star (starred_sound c re (x ∷ xs) (rw star at e) (matchhere_sound re))
  | inr plain ↦
      let (front, back, split, lang, bound) = matchhere_sound (d ∷ re) xs (ground (arith, e)) in
      rw plain
        (x ∷ front, back, ap (λ ys. x ∷ ys) split, (x, front, refl, ground (arith, e), lang), bound)
]

pub matchhere_complete : (re text : List ℕ) → BeginsWith (parse re) text → matchhere re text ≡ true
unfolding matchhere parse
matchhere_complete [] text begins = refl
matchhere_complete (c ∷ []) text (front, back, split, lang, bound) =
    elim (Bool-cases (c == dollar_char)) [
      | inl at_end ↦
          let empty = (rw at_end at bound) refl in
          let none_before = rw at_end at lang in
          rw at_end (
            subst (λ t. is_end t ≡ true) (sym (split ∙ ap₂ (λ a b. a ++ b) none_before empty)) refl)
      | inr plain ↦
          let (x, rest, cons, ok, nothing) = rw plain at lang in
          rw plain (subst (λ t. first_fits c t ≡ true) (sym (split ∙ ap (λ a. a ++ back) cons)) ok)
    ]
matchhere_complete (c ∷ d ∷ re) text (front, back, split, lang, bound) =
    elim (Bool-cases (d == star_char)) [
      | inl star ↦
          let (run, rest, parts, all, more) = rw star at lang in
          let h = matchhere_complete re (rest ++ back) (rest, back, refl, more, rw star at bound) in
          let now = matchstar_complete c (matchhere re) run (rest ++ back) all h in
          rw star (
            subst (λ t. matchstar c (matchhere re) t ≡ true)
              (sym (split ∙ ap (λ a. a ++ back) parts ∙ append_assoc run rest back)) now)
      | inr plain ↦
          let (x, rest, cons, ok, more) = rw plain at lang in
          let h =
            matchhere_complete (d ∷ re) (rest ++ back)
              (rest, back, refl, more, rw plain at bound) in
          rw plain (
            subst (λ t. one_fits c (matchhere (d ∷ re)) t ≡ true)
              (sym (split ∙ ap (λ a. a ++ back) cons)) (both_true _ _ ok h))
    ]

-- Some rest of the text begins with what the expression stands for.
abbrev pub FoundIn : Regex → List ℕ → Type 0
FoundIn r text = (skipped : List ℕ) × (rest : List ℕ) × (text ≡ skipped ++ rest) × BeginsWith r rest

-- A leading `^` binds the expression to the beginning of the text.
abbrev pub Matches : List ℕ → List ℕ → Type 0
Matches [] text = FoundIn (parse []) text
Matches (c ∷ re) text =
    (((c == caret_char) ≡ true) × BeginsWith (parse re) text)
    ⊎ (((c == caret_char) ≡ false) × FoundIn (parse (c ∷ re)) text)

anywhere_sound : (re text : List ℕ) → match_anywhere re text ≡ true → FoundIn (parse re) text
unfolding match_anywhere
anywhere_sound re [] e = ([], [], refl, matchhere_sound re [] e)
anywhere_sound re (x ∷ xs) e = elim (Bool-cases (matchhere re (x ∷ xs))) [
  | inl now ↦ ([], x ∷ xs, refl, matchhere_sound re (x ∷ xs) now)
  | inr later ↦
      let (skipped, rest, split, begins) = anywhere_sound re xs (rw later at e) in
      (x ∷ skipped, rest, ap (λ ys. x ∷ ys) split, begins)
]

anywhere_complete :
    (re skipped rest : List ℕ)
    → BeginsWith (parse re) rest
    → match_anywhere re (skipped ++ rest) ≡ true
unfolding match_anywhere
anywhere_complete re [] [] begins = matchhere_complete re [] begins
anywhere_complete re [] (x ∷ xs) begins = rw (matchhere_complete re (x ∷ xs) begins) refl
anywhere_complete re (x ∷ xs) rest begins =
    let more = anywhere_complete re xs rest begins in ground (arith, more)

anywhere_iff : (re text : List ℕ) → (match_anywhere re text ≡ true) ↔ FoundIn (parse re) text
anywhere_iff re text = (
  anywhere_sound re text,
  λ found.
      (let (skipped, rest, split, begins) = found in
        subst (λ t. match_anywhere re t ≡ true) (sym split)
          (anywhere_complete re skipped rest begins)),
)

-- `match` decides whether the text has a part in the language of the expression: one at the
-- beginning of the text after a leading `^`, and one that reaches its end before a closing `$`; a
-- character followed by `*` stands for any number of it, and `.` for any character.
pub match_lem : (re text : List ℕ) → (match re text ≡ true) ↔ Matches re text
unfolding match
match_lem [] text = anywhere_iff [] text
match_lem (c ∷ re) text = elim (Bool-cases (c == caret_char)) [
  | inl caret ↦ rw caret (
    λ e. inl (refl, matchhere_sound re text e),
    λ m. elim m [
      | inl (first, begins) ↦ matchhere_complete re text begins
      | inr (not_first, found) ↦ absurd (ground arith)
    ],
  )
  | inr other ↦ rw other (
    λ e. inr (refl, (anywhere_iff (c ∷ re) text).0 e),
    λ m. elim m [
      | inl (first, begins) ↦ absurd (ground arith)
      | inr (not_first, found) ↦ (anywhere_iff (c ∷ re) text).1 found
    ],
  )
]
