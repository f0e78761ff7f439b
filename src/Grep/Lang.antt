-- ===== src/Grep/Lang.antt =====
-- What a regular expression of grep.c means: the language of a list of items.
use course_work_sem.Base.{ℕ, ◌≡◌, Bool, true, false, ◌||◌, List, [], ◌∷◌, ◌++◌, ◌==◌, if◌then◌else◌}
use course_work_sem.Grep.{star_char, dot_char, dollar_char}

pub data Item : Type 0 where
  one : ℕ → Item
  many : ℕ → Item

-- The items of an expression, and whether a closing `$` binds it to the end of the text.
pub record Regex : Type 0 where
  pub items : List Item
  pub to_end : Bool

abbrev pub with_item : Item → Regex → Regex
with_item i r = record r { items = i ∷ r.items }

unfoldable pub parse : List ℕ → Regex
parse [] = record { items = []; to_end = false }
parse (c ∷ []) =
    if c == dollar_char
    then record { items = []; to_end = true }
    else record { items = one c ∷ []; to_end = false }
parse (c ∷ d ∷ re) =
    let starred = parse re in
    let plain = parse (d ∷ re) in
    if d == star_char then with_item (many c) starred else with_item (one c) plain

-- the characters that `c` stands for
abbrev pub accepts : ℕ → ℕ → Bool
accepts c x = (c == dot_char) || (c == x)

abbrev pub AllAccepted : ℕ → List ℕ → Type 0
AllAccepted c [] = Unit {0}
AllAccepted c (x ∷ xs) = (accepts c x ≡ true) × AllAccepted c xs

-- The text is in the language of the items.
abbrev pub InLang : List Item → List ℕ → Type 0
InLang [] text = text ≡ []
InLang (one c ∷ is) text =
    (x : ℕ) × (rest : List ℕ) × (text ≡ x ∷ rest) × (accepts c x ≡ true) × InLang is rest
InLang (many c ∷ is) text =
    (run : List ℕ) × (rest : List ℕ) × (text ≡ run ++ rest) × AllAccepted c run × InLang is rest

-- A beginning of the text is in the language, and is all of the text if the expression ends in `$`.
abbrev pub BeginsWith : Regex → List ℕ → Type 0
BeginsWith r text =
    (front : List ℕ) × (back : List ℕ) × (text ≡ front ++ back)
    × InLang r.items front
    × (r.to_end ≡ true → back ≡ [])
