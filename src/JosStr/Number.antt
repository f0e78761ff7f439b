-- ===== src/JosStr/Number.antt =====
-- `strtol` of string.c on the text of a number.
use course_work_sem.Base.{
  ℕ, zero, suc, ◌+◌, ◌-◌, ◌*◌, ◌%◌, ◌^◌, ◌<◌, ◌≤◌, ◌≡◌, ◌≢◌, ◌⊎◌, inl, inr, refl, ap, sym, subst,
  ◌∙◌, Bool, true, false, ◌&&◌, none, some, Bool-cases, leb, ◌==◌, if◌then◌else◌, arith, List, [],
  ◌∷◌, ◌++◌,
}
use course_work_sem.JosStr.{
  is_blank, skip_blanks, take_sign, take_base, digit_of, take_digits, strtol,
}

-- the character is the digit `d`: '0' to '9', 'a' to 'z' or 'A' to 'Z'
abbrev pub IsDigit : ℕ → ℕ → Type 0
IsDigit c d =
    ((d < 10) × (c ≡ 48 + d))
    ⊎ (((10 ≤ d) × (d < 36) × (c ≡ 97 + (d - 10))) ⊎ ((10 ≤ d) × (d < 36) × (c ≡ 65 + (d - 10))))

-- the characters are the digits of the list, all below the base
abbrev pub Spells : ℕ → List ℕ → List ℕ → Type 0
Spells base [] [] = Unit
Spells base [] (d ∷ ds) = ⊥
Spells base (c ∷ cs) [] = ⊥
Spells base (c ∷ cs) (d ∷ ds) = IsDigit c d × (d < base) × Spells base cs ds

-- the text does not go on with a digit of the base
abbrev pub Stops : ℕ → List ℕ → Type 0
Stops base [] = Unit
Stops base (c ∷ cs) = (d : ℕ) → IsDigit c d → base ≤ d

-- The base of the digits for the argument `arg`, and the text before the digits, of which `c` is the first.
pub data Prefix (c : ℕ) : ℕ → ℕ → List ℕ → Type 0 where
  given : {base : ℕ} → base ≢ 0 → base ≢ 16 → Prefix c base base []
  hex : {arg : ℕ} → (arg ≡ 0) ⊎ (arg ≡ 16) → Prefix c arg 16 (48 ∷ 120 ∷ [])
  bare_hex : c ≢ 48 → Prefix c 16 16 []
  octal : Prefix c 0 8 (48 ∷ [])
  decimal : c ≢ 48 → Prefix c 0 10 []

-- the number that the digits make, after `v`
abbrev pub number : ℕ → ℕ → List ℕ → ℕ
number base v [] = v
number base v (d ∷ ds) = number base (v * base + d) ds

abbrev pub Blanks : List ℕ → Type 0
Blanks [] = Unit
Blanks (c ∷ cs) = (is_blank c ≡ true) × Blanks cs

pub data Sign : Type 0 where
  unsigned plus minus : Sign

abbrev pub sign_text : Sign → List ℕ
sign_text unsigned = []
sign_text plus = 43 ∷ []
sign_text minus = 45 ∷ []

-- the bits of the number with the sign
abbrev pub signed : Sign → ℕ → ℕ
signed unsigned n = n
signed plus n = n
signed minus n = (2 ^ 32 - n) % 2 ^ 32

mul_grows : (v b d : ℕ) → 1 ≤ b → v ≤ v * b + d
mul_grows v zero d h = absurd (omega arith)
mul_grows v (suc b) d h = grind arith

number_grows : (base v : ℕ) (ds : List ℕ) → 1 ≤ base → v ≤ number base v ds
number_grows base v [] h = omega arith
number_grows base v (d ∷ ds) h =
    omega (arith, mul_grows v base d h, number_grows base (v * base + d) ds h)

digit-cases : (c : ℕ) → (digit_of c ≡ none) ⊎ ((d : ℕ) × (digit_of c ≡ some d))
digit-cases c = elim (digit_of c) as (λ o. (o ≡ none) ⊎ ((d : ℕ) × (o ≡ some d))) [
  | none ↦ inl refl
  | some d ↦ inr (d, refl)
]

digits_other :
    (base v c : ℕ) (cs : List ℕ) → digit_of c ≡ none → take_digits base v (c ∷ cs) ≡ (v, c ∷ cs)
unfolding take_digits
digits_other base v c cs e = rw (take_digits, e) refl

digits_above :
    (base v c d : ℕ) (cs : List ℕ)
    → digit_of c ≡ some d
    → leb base d ≡ true
    → take_digits base v (c ∷ cs) ≡ (v, c ∷ cs)
unfolding take_digits
digits_above base v c d cs e above = rw (take_digits, e, above) refl

digits_next :
    (base v c d : ℕ) (cs : List ℕ)
    → digit_of c ≡ some d
    → leb base d ≡ false
    → take_digits base v (c ∷ cs) ≡ take_digits base ((v * base + d) % 2 ^ 32) cs
unfolding take_digits
digits_next base v c d cs e below = rw (take_digits, e, below) refl

digit_of_lem : (c d : ℕ) → IsDigit c d → digit_of c ≡ some d
unfolding digit_of
digit_of_lem c d (inl (small, e)) = ground (arith, e)
digit_of_lem c d (inr (inl (low, high, e))) = ground (arith, e)
digit_of_lem c d (inr (inr (low, high, e))) = ground (arith, e)

digit_of-IsDigit : (c d : ℕ) → digit_of c ≡ some d → IsDigit c d
unfolding digit_of
digit_of-IsDigit c d e = elim (Bool-cases (leb 48 c && leb c 57)) [
  | inl digit ↦ inl (ground (arith, e), ground (arith, e))
  | inr no_digit ↦ elim (Bool-cases (leb 97 c && leb c 122)) [
    | inl small ↦ inr (inl (ground (arith, e), ground (arith, e), ground (arith, e)))
    | inr other ↦ inr (inr (ground (arith, e), ground (arith, e), ground (arith, e)))
  ]
]

stop_digits : (base v : ℕ) (tail : List ℕ) → Stops base tail → take_digits base v tail ≡ (v, tail)
unfolding take_digits
stop_digits base v [] h = refl
stop_digits base v (c ∷ cs) h = elim (digit-cases c) [
  | inl e ↦ digits_other base v c cs e
  | inr (d, e) ↦
      let above : base ≤ d = h d (digit_of-IsDigit c d e) in
      digits_above base v c d cs e (ground (arith, above))
]

take_digits_lem :
    (base v : ℕ) (cs ds tail : List ℕ)
    → 1 ≤ base
    → Spells base cs ds
    → Stops base tail
    → number base v ds < 2 ^ 32
    → take_digits base v (cs ++ tail) ≡ (number base v ds, tail)
take_digits_lem base v [] [] tail some_base spelled stop small = stop_digits base v tail stop
take_digits_lem base v [] (d ∷ ds) tail some_base spelled stop small = elim spelled [ ]
take_digits_lem base v (c ∷ cs) [] tail some_base spelled stop small = elim spelled [ ]
take_digits_lem base v (c ∷ cs) (d ∷ ds) tail some_base (digit, below, spelled) stop small =
    let in_base : leb base d ≡ false = ground arith in
    let fits : (v * base + d) % 2 ^ 32 ≡ v * base + d =
      omega (arith, number_grows base (v * base + d) ds some_base, small) in
    digits_next base v c d (cs ++ tail) (digit_of_lem c d digit) in_base
    ∙ ap (λ (x : ℕ). take_digits base x (cs ++ tail)) fits
    ∙ take_digits_lem base (v * base + d) cs ds tail some_base spelled stop small

skip_blanks_lem :
    (blanks : List ℕ) (c : ℕ) (cs : List ℕ)
    → Blanks blanks
    → is_blank c ≡ false
    → skip_blanks (blanks ++ (c ∷ cs)) ≡ c ∷ cs
unfolding skip_blanks
skip_blanks_lem [] c cs all here = rw here refl
skip_blanks_lem (b ∷ bs) c cs (blank, all) here = rw blank (skip_blanks_lem bs c cs all here)

-- no blank and no sign
abbrev IsPlain : ℕ → Type 0
IsPlain c = (is_blank c ≡ false) × (c ≢ 43) × (c ≢ 45)

digit-IsPlain : (c d : ℕ) → IsDigit c d → IsPlain c
digit-IsPlain c d (inl (small, e)) = (ground (arith, e), λ z. omega arith, λ z. omega arith)
digit-IsPlain c d (inr (inl (low, high, e))) =
    (ground (arith, e), λ z. omega arith, λ z. omega arith)
digit-IsPlain c d (inr (inr (low, high, e))) =
    (ground (arith, e), λ z. omega arith, λ z. omega arith)

prefix-IsPlain :
    {c arg base : ℕ} {prefix : List ℕ} (cs : List ℕ)
    → Prefix c arg base prefix
    → IsPlain c
    → (f : ℕ) × (more : List ℕ) × (prefix ++ (c ∷ cs) ≡ f ∷ more) × IsPlain f
prefix-IsPlain {c} cs (given a b) plain = (c, cs, refl, plain)
prefix-IsPlain {c} cs (hex a) plain =
    (48, 120 ∷ (c ∷ cs), refl, (refl, λ z. omega arith, λ z. omega arith))
prefix-IsPlain {c} cs (bare_hex a) plain = (c, cs, refl, plain)
prefix-IsPlain {c} cs octal plain = (48, c ∷ cs, refl, (refl, λ z. omega arith, λ z. omega arith))
prefix-IsPlain {c} cs (decimal a) plain = (c, cs, refl, plain)

strtol_eq :
    (s s1 s2 s3 tail : List ℕ) (neg : Bool) (arg base val : ℕ)
    → skip_blanks s ≡ s1
    → take_sign s1 ≡ (neg, s2)
    → take_base arg s2 ≡ (base, s3)
    → take_digits base 0 s3 ≡ (val, tail)
    → strtol s arg ≡ (if neg then (2 ^ 32 - val) % 2 ^ 32 else val, tail)
unfolding strtol
strtol_eq s s1 s2 s3 tail neg arg base val e1 e2 e3 e4 = rw (e1, e2, e3, e4) refl

take_base_lem :
    {c arg base : ℕ} {prefix : List ℕ} (d : ℕ) (cs : List ℕ)
    → Prefix c arg base prefix
    → IsDigit c d
    → d < base
    → take_base arg (prefix ++ (c ∷ cs)) ≡ (base, c ∷ cs)
unfolding take_base
take_base_lem {c} {arg} d cs (given a b) digit below =
    let zero_ : (arg == 0) ≡ false = ground (arith, a) in
    let hex_ : (arg == 16) ≡ false = ground (arith, b) in rw (zero_, hex_) refl
take_base_lem {c} {arg} d cs (hex (inl e)) digit below = rw e refl
take_base_lem {c} {arg} d cs (hex (inr e)) digit below = rw e refl
take_base_lem {c} d cs (bare_hex a) digit below =
    let other : (c == 48) ≡ false = ground (arith, a) in rw other refl
take_base_lem {c} d cs octal digit below =
    let no_x : (c == 120) ≡ false = ground (arith, digit, below) in rw no_x refl
take_base_lem {c} d cs (decimal a) digit below =
    let other : (c == 48) ≡ false = ground (arith, a) in rw other refl

negative : Sign → Bool
negative unsigned = false
negative plus = false
negative minus = true

sign_of :
    (sign : Sign) (c : ℕ) (cs : List ℕ)
    → c ≢ 43
    → c ≢ 45
    → take_sign (sign_text sign ++ (c ∷ cs)) ≡ (negative sign, c ∷ cs)
unfolding take_sign negative
sign_of unsigned c cs p m =
    let a : (c == 43) ≡ false = ground (arith, p) in
    let b : (c == 45) ≡ false = ground (arith, m) in rw (a, b) refl
sign_of plus c cs p m = refl
sign_of minus c cs p m = refl

sign_plain :
    (sign : Sign) (c : ℕ) (cs : List ℕ)
    → is_blank c ≡ false
    → (first_ : ℕ) × (more : List ℕ) × (sign_text sign ++ (c ∷ cs) ≡ first_ ∷ more)
      × (is_blank first_ ≡ false)
sign_plain unsigned c cs e = (c, cs, refl, e)
sign_plain plus c cs e = (43, c ∷ cs, refl, refl)
sign_plain minus c cs e = (45, c ∷ cs, refl, refl)

signed_eq :
    (sign : Sign) (n : ℕ) → (if negative sign then (2 ^ 32 - n) % 2 ^ 32 else n) ≡ signed sign n
unfolding negative
signed_eq unsigned n = refl
signed_eq plus n = refl
signed_eq minus n = refl

-- `strtol` of blanks, an optional sign, a prefix, digits and a text that does not go on with a digit of the
-- base: the value is that of the digits with the sign, if it is below 2 ^ 32, and `*endptr` is at the text. The
-- prefix is "0x" for base 16 or 0, and the digits are hexadecimal; "0" for base 0, and they are octal; or nothing:
-- for base 0, where they are decimal, and for base 16 the first digit is then not '0'.
pub strtol_lem :
    (arg base : ℕ) (blanks : List ℕ) (sign : Sign) (prefix : List ℕ) (c : ℕ) (cs ds tail : List ℕ)
    → Blanks blanks
    → Prefix c arg base prefix
    → Spells base (c ∷ cs) ds
    → Stops base tail
    → number base 0 ds < 2 ^ 32
    → strtol (blanks ++ (sign_text sign ++ (prefix ++ (c ∷ (cs ++ tail))))) arg
      ≡ (signed sign (number base 0 ds), tail)
strtol_lem arg base blanks sign prefix c cs [] tail all pre spelled stop small = elim spelled [ ]
strtol_lem arg base blanks sign prefix c cs (d ∷ ds) tail all pre spelled stop small =
    let text = prefix ++ (c ∷ (cs ++ tail)) in
    let (f, more, e, plain) = prefix-IsPlain (cs ++ tail) pre (digit-IsPlain c d spelled.0) in
    let (f', more', e', first_plain) = sign_plain sign f more plain.0 in
    let start : sign_text sign ++ text ≡ f' ∷ more' = ap (λ t. sign_text sign ++ t) e ∙ e' in
    let skipped : skip_blanks (blanks ++ (sign_text sign ++ text)) ≡ sign_text sign ++ text =
      subst (λ s. skip_blanks (blanks ++ s) ≡ s) (sym start)
        (skip_blanks_lem blanks f' more' all first_plain) in
    let signs : take_sign (sign_text sign ++ text) ≡ (negative sign, text) =
      subst (λ s. take_sign (sign_text sign ++ s) ≡ (negative sign, s)) (sym e)
        (sign_of sign f more plain.1 plain.2) in
    strtol_eq (blanks ++ (sign_text sign ++ text)) (sign_text sign ++ text) text (c ∷ (cs ++ tail))
      tail (negative sign) arg base (number base 0 (d ∷ ds)) skipped signs
      (take_base_lem d (cs ++ tail) pre spelled.0 spelled.1)
      (take_digits_lem base 0 (c ∷ cs) (d ∷ ds) tail (omega (arith, spelled.1)) spelled stop small)
    ∙ ap (λ (n : ℕ). (n, tail)) (signed_eq sign (number base 0 (d ∷ ds)))
