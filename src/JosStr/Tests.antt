-- ===== src/JosStr/Tests.antt =====
-- The string routines at texts.
use course_work_sem.Base.{◌≡◌, inl, inr, refl, some, [], ◌∷◌, arith, Bytes, ◌==◌, if◌then◌else◌}
use course_work_sem.Str
use course_work_sem.JosStr.{strncpy, strtol, strchr}
use course_work_sem.JosStr.Number.{minus, hex, strtol_lem}
use course_work_sem.JosStr.Copy.{strncpy_agree}

-- " -0x1F;" for base 0
strtol_lem_example : strtol (32 ∷ 45 ∷ 48 ∷ 120 ∷ 49 ∷ 70 ∷ 59 ∷ []) 0 ≡ (4294967265, 59 ∷ [])
strtol_lem_example =
    strtol_lem 0 16 (32 ∷ []) minus (48 ∷ 120 ∷ []) 49 (70 ∷ []) (1 ∷ 15 ∷ []) (59 ∷ []) (refl, tt)
      (hex (inl refl))
      (
        inl (omega arith, refl),
        omega arith,
        (inr (inr (omega arith, omega arith, refl)), omega arith, tt),
      )
      (λ d digit. ground (arith, digit)) (omega arith)

abbrev mem : Bytes
mem a = if a == 3 then 0 else 65

strncpy_agree_example : strncpy 6 mem 20 1 ≡ course_work_sem.Str.strncpy 6 mem 20 1
strncpy_agree_example = strncpy_agree 6 mem 20 1 (inl (omega arith))

found : strchr (65 ∷ 66 ∷ 67 ∷ []) 66 ≡ some (66 ∷ 67 ∷ [])
unfolding strchr
found = refl
