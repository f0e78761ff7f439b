-- ===== src/Str/Tests.antt =====
-- Runs of the routines of string.c, and its theorems at a small memory.
use course_work_sem.Base.{◌≡◌, refl, get_or, [], ◌∷◌, Bytes, negsuc}
use course_work_sem.Str.{memset, memmove, strncmp}
use course_work_sem.Str.{stosl, move_up, move_down}
use course_work_sem.Str.Move.{memmove_lem}

-- "abc" at address 0, "abd" at 4, then 9s
abbrev mem : Bytes
mem a = get_or (97 ∷ 98 ∷ 99 ∷ 0 ∷ 97 ∷ 98 ∷ 100 ∷ 0 ∷ []) a 9

overlapping_up : (memmove mem 1 0 4) 4 ≡ 0
unfolding memmove move_up move_down
overlapping_up = refl

fill_words : memset mem 4 0x141 8 11 ≡ 0x41
unfolding memset stosl
fill_words = refl

compare_differs : (strncmp 4 mem 0 4 ≡ negsuc 0)
unfolding strncmp
compare_differs = refl

memmove_lem_example : memmove mem 1 0 4 3 ≡ 99
memmove_lem_example = memmove_lem mem 1 0 4 3
