-- ===== src/JosStr.antt =====
-- COL331_A1/lib/string.c, the string routines of the JOS kernel. A function that only reads has each C
-- string as the list of its characters without the NUL, and a pointer into it is what is left of the list; a
-- function that writes has a memory of bytes, and addresses do not wrap.
pub mod Number
pub mod Copy
mod Tests
use course_work_sem.Base.{
  ℕ, zero, suc, ◌+◌, ◌-◌, ◌*◌, ◌/◌, ◌%◌, ◌^◌, Bool, true, false, not, ◌&&◌, ◌||◌, Option, none,
  some, ltb, leb, ◌==◌, if◌then◌else◌, List, [], ◌∷◌, length, Bytes, update, ℤ, pos, sub_ℕ, first,
  rest,
}

-- The loop over the string with `n` characters counted.
unfoldable pub count_from : List ℕ → ℕ → ℕ
count_from [] n = n
count_from (c ∷ cs) n = count_from cs (n + 1)

unfoldable pub strlen : List ℕ → ℕ
unfolding count_from
strlen s = count_from s 0

unfoldable pub strnlen : List ℕ → ℕ → ℕ
strnlen [] size = 0
strnlen (c ∷ cs) zero = 0
strnlen (c ∷ cs) (suc size) = suc (strnlen cs size)

-- `strcpy` of the string `src`, whose bytes do not overlap those written
unfoldable pub strcpy : Bytes → ℕ → List ℕ → Bytes
strcpy m dst [] = update m dst 0
strcpy m dst (c ∷ cs) = strcpy (update m dst c) (dst + 1) cs

-- with `size` bytes left
unfoldable pub strncpy : ℕ → Bytes → ℕ → ℕ → Bytes
strncpy zero m dst src = m
strncpy (suc size) m dst src =
    let m' = update m dst (m src) in
    strncpy size m' (dst + 1) (if m' src == 0 then src else src + 1)

-- The loop of `strlcpy` with `size - 1` rounds left, and the NUL: the memory and the number of characters.
unfoldable pub strlcpy_loop : ℕ → Bytes → ℕ → List ℕ → Bytes × ℕ
strlcpy_loop zero m dst src = (update m dst 0, 0)
strlcpy_loop (suc n) m dst [] = (update m dst 0, 0)
strlcpy_loop (suc n) m dst (c ∷ cs) =
    let (m', k) = strlcpy_loop n (update m dst c) (dst + 1) cs in (m', suc k)

unfoldable pub strlcpy : ℕ → Bytes → ℕ → List ℕ → Bytes × ℕ
unfolding strlcpy_loop
strlcpy zero m dst src = (m, 0)
strlcpy (suc n) m dst src = strlcpy_loop n m dst src

unfoldable pub strcmp : List ℕ → List ℕ → ℤ
strcmp [] q = sub_ℕ 0 (first q)
strcmp (c ∷ cs) q = if c == first q then strcmp cs (rest q) else sub_ℕ c (first q)

unfoldable pub strncmp : ℕ → List ℕ → List ℕ → ℤ
strncmp zero p q = pos 0
strncmp (suc n) [] q = sub_ℕ 0 (first q)
strncmp (suc n) (c ∷ cs) q = if c == first q then strncmp n cs (rest q) else sub_ℕ c (first q)

unfoldable pub strchr : List ℕ → ℕ → Option (List ℕ)
strchr [] c = none
strchr (d ∷ ds) c = if d == c then some (d ∷ ds) else strchr ds c

unfoldable pub strfind : List ℕ → ℕ → List ℕ
strfind [] c = []
strfind (d ∷ ds) c = if d == c then d ∷ ds else strfind ds c

unfoldable pub memcmp : ℕ → Bytes → ℕ → ℕ → ℤ
memcmp zero m s1 s2 = pos 0
memcmp (suc n) m s1 s2 =
    if not (m s1 == m s2) then sub_ℕ (m s1) (m s2) else memcmp n m (s1 + 1) (s2 + 1)

-- with `n` bytes left before `ends`: the address
unfoldable pub memfind : ℕ → Bytes → ℕ → ℕ → ℕ
memfind zero m s c = s
memfind (suc n) m s c = if m s == c % 256 then s else memfind n m (s + 1) c

-- `strtol`, whose `long` is kept by its 32 bits

abbrev pub is_blank : ℕ → Bool
is_blank c = c == 32 || c == 9

unfoldable pub skip_blanks : List ℕ → List ℕ
skip_blanks [] = []
skip_blanks (c ∷ cs) = if is_blank c then skip_blanks cs else c ∷ cs

-- `neg`, and the string after the sign: 43 is '+' and 45 is '-'
unfoldable pub take_sign : List ℕ → Bool × List ℕ
take_sign s =
    if first s == 43 then (false, rest s) else if first s == 45 then (true, rest s) else (false, s)

-- the base, and the string after its prefix "0x" or "0"
unfoldable pub take_base : ℕ → List ℕ → ℕ × List ℕ
take_base base s =
    if (base == 0 || base == 16) && (first s == 48 && first (rest s) == 120)
    then (16, rest (rest s))
    else if base == 0 && first s == 48
    then (8, rest s)
    else if base == 0
    then (10, s)
    else (base, s)

-- `dig`, if the character is a digit or a letter
unfoldable pub digit_of : ℕ → Option ℕ
digit_of c =
    if leb 48 c && leb c 57
    then some (c - 48)
    else if leb 97 c && leb c 122
    then some (c - 97 + 10)
    else if leb 65 c && leb c 90
    then some (c - 65 + 10)
    else none

unfoldable pub take_digits : ℕ → ℕ → List ℕ → ℕ × List ℕ
take_digits base val [] = (val, [])
take_digits base val (c ∷ cs) = elim (digit_of c) [
  | none ↦ (val, c ∷ cs)
  | some dig ↦
      if leb base dig then (val, c ∷ cs) else take_digits base ((val * base + dig) % 2 ^ 32) cs
]

-- The value, and the string at `*endptr`.
unfoldable pub strtol : List ℕ → ℕ → ℕ × List ℕ
unfolding skip_blanks take_sign take_base digit_of take_digits
strtol s base =
    let (neg, s1) = take_sign (skip_blanks s) in
    let (base', s2) = take_base base s1 in
    let (val, end) = take_digits base' 0 s2 in (if neg then (2 ^ 32 - val) % 2 ^ 32 else val, end)
