-- ===== src/Grep.antt =====
-- COL331/HW1/xv6/grep.c: the matcher for regular expressions with ^ . * and $. A string is the list
-- of its characters without the closing NUL, and its end is the NUL.
pub mod Lang
pub mod Match
mod Tests
use course_work_sem.Base.{
  ℕ, zero, suc, ◌+◌, Bool, true, false, not, ◌&&◌, ◌||◌, List, [], ◌∷◌, ◌==◌, if◌then◌else◌,
}

-- '*', '.', '$' and '^'
abbrev pub star_char : ℕ
star_char = 42

abbrev pub dot_char : ℕ
dot_char = 46

abbrev pub dollar_char : ℕ
dollar_char = 36

abbrev pub caret_char : ℕ
caret_char = 94

abbrev pub is_end : List ℕ → Bool
is_end [] = true
is_end (x ∷ xs) = false

-- The loop of `matchstar` for the character `c`; `here` is `matchhere(re, ·)`.
pub matchstar : ℕ → (List ℕ → Bool) → List ℕ → Bool
matchstar c here [] = here []
matchstar c here (x ∷ xs) =
    let rest = matchstar c here xs in
    if here (x ∷ xs) then true else ((x == c) || (c == dot_char)) && rest

pub matchhere : List ℕ → List ℕ → Bool
unfolding matchstar
matchhere [] text = true
matchhere (c ∷ []) text =
    if c == dollar_char
    then is_end text
    else elim text [ [] ↦ false | x ∷ xs ↦ (c == dot_char) || (c == x) ]
matchhere (c ∷ d ∷ re) text =
    let starred = matchstar c (matchhere re) text in
    let plain = matchhere (d ∷ re) in
    if d == star_char
    then starred
    else elim text [ [] ↦ false | x ∷ xs ↦ ((c == dot_char) || (c == x)) && plain xs ]

-- The loop of `match`, which also tries the empty rest.
pub match_anywhere : List ℕ → List ℕ → Bool
unfolding matchhere
match_anywhere re [] = matchhere re []
match_anywhere re (x ∷ xs) =
    let rest = match_anywhere re xs in if matchhere re (x ∷ xs) then true else rest

pub match : List ℕ → List ℕ → Bool
unfolding match_anywhere
match [] text = match_anywhere [] text
match (c ∷ re) text = if c == caret_char then matchhere re text else match_anywhere (c ∷ re) text
