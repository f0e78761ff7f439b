-- ===== src/Paths/Tests.antt =====
-- The examples of the comment on `skipelem`, and a name of more than DIRSIZ characters.
use course_work_sem.Base.{ℕ, ◌≡◌, refl, none, some, List, [], ◌∷◌, replicate}
use course_work_sem.Paths.{skip_slashes, to_slash, skipelem}
use course_work_sem.Paths.Skip.{SkipOutcome, skipelem_lem}

-- "///a//bb"
abbrev nested : List ℕ
nested = 47 ∷ 47 ∷ 47 ∷ 97 ∷ 47 ∷ 47 ∷ 98 ∷ 98 ∷ []

second_example : skipelem nested ≡ some (97 ∷ [], 98 ∷ 98 ∷ [])
unfolding skipelem skip_slashes to_slash
second_example = refl

last_element : skipelem (97 ∷ []) ≡ some (97 ∷ [], [])
unfolding skipelem skip_slashes to_slash
last_element = refl

only_slashes : skipelem (replicate 4 47) ≡ none
unfolding skipelem skip_slashes to_slash
only_slashes = refl

long_name : skipelem (replicate 20 97) ≡ some (replicate 14 97, [])
unfolding skipelem skip_slashes to_slash
long_name = refl

skipelem_lem_example : SkipOutcome nested (skipelem nested)
skipelem_lem_example = skipelem_lem nested
