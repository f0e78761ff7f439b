-- ===== src/Grep/Tests.antt =====
-- `^a*b$` and `b.`, on "aab" and on "xaab".
use course_work_sem.Base.{ℕ, ◌≡◌, ◌↔◌, refl, true, false, List, [], ◌∷◌}
use course_work_sem.Grep.{matchstar, matchhere, match_anywhere, match}
use course_work_sem.Grep.Match.{Matches, match_lem}

abbrev as_then_b : List ℕ
as_then_b = 94 ∷ 97 ∷ 42 ∷ 98 ∷ 36 ∷ []

whole_line : match as_then_b (97 ∷ 97 ∷ 98 ∷ []) ≡ true
unfolding match match_anywhere matchhere matchstar
whole_line = refl

not_at_start : match as_then_b (120 ∷ 97 ∷ 97 ∷ 98 ∷ []) ≡ false
unfolding match match_anywhere matchhere matchstar
not_at_start = refl

needs_one_more : match (98 ∷ 46 ∷ []) (97 ∷ 98 ∷ []) ≡ false
unfolding match match_anywhere matchhere matchstar
needs_one_more = refl

match_lem_example :
    (match as_then_b (97 ∷ 97 ∷ 98 ∷ []) ≡ true) ↔ Matches as_then_b (97 ∷ 97 ∷ 98 ∷ [])
match_lem_example = match_lem as_then_b (97 ∷ 97 ∷ 98 ∷ [])
