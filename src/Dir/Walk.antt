-- ===== src/Dir/Walk.antt =====
-- The loop of `namex` of fs.c: it ends.
use course_work_sem.Base.{
  ℕ, zero, suc, ◌+◌, ◌<◌, ◌≡◌, ◌≢◌, inl, inr, refl, ap, subst, ◌∙◌, Bool, none, some, arith, List,
  [], ◌∷◌, ◌++◌, length, length-append, Option-cases, fun_ext,
}
use course_work_sem.Paths.{skipelem}
use course_work_sem.Paths.Skip.{SkipOutcome, skipelem_lem}
use course_work_sem.Dir.{walk}

not_empty : (xs : List ℕ) → xs ≢ [] → 0 < length xs
not_empty [] h = absurd (h refl)
not_empty (x ∷ xs) h = omega arith

-- Each element that is taken off shortens the path.
skipelem_shorter :
    (path name rest_ : List ℕ) → skipelem path ≡ some (name, rest_) → length rest_ < length path
skipelem_shorter path name rest_ e =
    let (before, element, after, split, slashes, no_slash, some_, more, ended, start, cut) =
      subst (SkipOutcome path) e (skipelem_lem path) in
    let l : length path ≡ length before + length (element ++ (after ++ rest_)) =
      ap (λ (xs : List ℕ). length xs) split ∙ length-append before (element ++ (after ++ rest_)) in
    omega (
      arith,
      l,
      length-append element (after ++ rest_),
      length-append after rest_,
      not_empty element some_,
    )

module _ (is_device : ℕ → Bool) where
  walk_end :
      (f g : ℕ) (parent : Bool) (path : List ℕ)
      → skipelem path ≡ none
      → walk is_device (suc f) parent path ≡ walk is_device (suc g) parent path
  unfolding walk
  walk_end f g parent path e = fun_ext (λ ip. fun_ext (λ name. fun_ext (λ c. rw (walk, e) refl)))

  walk_step :
      (f g : ℕ) (parent : Bool) (path name' path' : List ℕ)
      → skipelem path ≡ some (name', path')
      → walk is_device f parent path' ≡ walk is_device g parent path'
      → walk is_device (suc f) parent path ≡ walk is_device (suc g) parent path
  unfolding walk
  walk_step f g parent path name' path' e same =
      fun_ext (λ ip. fun_ext (λ name. fun_ext (λ c. rw (walk, e, same) refl)))

  -- The loop of `namex` ends: with more rounds than the path has characters, it does the same for every
  -- number of rounds.
  pub walk_ends :
      (f g : ℕ) (parent : Bool) (path : List ℕ)
      → length path < f
      → length path < g
      → walk is_device f parent path ≡ walk is_device g parent path
  walk_ends zero g parent path few more = absurd (omega arith)
  walk_ends (suc f) zero parent path few more = absurd (omega arith)
  walk_ends (suc f) (suc g) parent path few more = elim (Option-cases (skipelem path)) [
    | inl e ↦ walk_end f g parent path e
    | inr ((name', path'), e) ↦
        let shorter = skipelem_shorter path name' path' e in
        walk_step f g parent path name' path' e
          (walk_ends f g parent path' (omega arith) (omega arith))
  ]
