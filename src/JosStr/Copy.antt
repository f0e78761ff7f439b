-- ===== src/JosStr/Copy.antt =====
-- `strncpy` of the JOS kernel and of xv6.
use course_work_sem.Base.{
  ℕ, zero, suc, ◌+◌, ◌<◌, ◌≤◌, ◌≡◌, ◌≢◌, ◌⊎◌, inl, inr, refl, ◌∙◌, false, ◌==◌, arith, Bool-cases,
  Bytes, update, update_other,
}
use course_work_sem.JosStr.{strncpy}
use course_work_sem.Str
use course_work_sem.Str.{pad_zeros}

-- the bytes read are not among those written
abbrev pub Apart : ℕ → ℕ → ℕ → Type 0
Apart n dst src = (src + n ≤ dst) ⊎ (dst + n ≤ src)

away : (n dst src : ℕ) → (src < dst) ⊎ (dst + suc n ≤ src) → dst ≢ src
away n dst src (inl low) e = omega arith
away n dst src (inr high) e = omega arith

shrink : (n dst src : ℕ) → (src < dst) ⊎ (dst + suc n ≤ src) → (src < dst + 1) ⊎ (dst + 1 + n ≤ src)
shrink n dst src (inl low) = inl (omega arith)
shrink n dst src (inr high) = inr (omega arith)

from_Apart : (n dst src : ℕ) → Apart (suc n) dst src → (src < dst) ⊎ (dst + suc n ≤ src)
from_Apart n dst src (inl low) = inl (omega arith)
from_Apart n dst src (inr high) = inr high

Apart-next : (n dst src : ℕ) → Apart (suc n) dst src → Apart n (dst + 1) (src + 1)
Apart-next n dst src (inl low) = inl (omega arith)
Apart-next n dst src (inr high) = inr (omega arith)

-- From the NUL on, only zeros are written.
strncpy_pads :
    (n : ℕ) (m : Bytes) (dst src : ℕ)
    → m src ≡ 0
    → (src < dst) ⊎ (dst + n ≤ src)
    → strncpy n m dst src ≡ pad_zeros n m dst
unfolding strncpy pad_zeros
strncpy_pads zero m dst src nul apart = refl
strncpy_pads (suc n) m dst src nul apart =
    let other : dst ≢ src = away n dst src apart in
    let apart_ : (dst == src) ≡ false = ground (arith, other) in
    let still : update m dst 0 src ≡ 0 = update_other m dst 0 src other ∙ nul in
    rw (nul, apart_) (strncpy_pads n (update m dst 0) (dst + 1) src still (shrink n dst src apart))

-- The two implementations of `strncpy` write the same bytes.
pub strncpy_agree :
    (n : ℕ) (m : Bytes) (dst src : ℕ)
    → Apart n dst src
    → strncpy n m dst src ≡ course_work_sem.Str.strncpy n m dst src
unfolding strncpy course_work_sem.Str.strncpy
strncpy_agree zero m dst src apart = refl
strncpy_agree (suc n) m dst src apart =
    let one = from_Apart n dst src apart in
    let m' = update m dst (m src) in
    let kept : m' src ≡ m src = update_other m dst (m src) src (away n dst src one) in
    elim (Bool-cases (m src == 0)) [
      | inl nul ↦
          let zero_there : m' src ≡ 0 = kept ∙ ground (arith, nul) in
          rw (kept, nul) (strncpy_pads n m' (dst + 1) src zero_there (shrink n dst src one))
      | inr more ↦
          rw (kept, more) (strncpy_agree n m' (dst + 1) (src + 1) (Apart-next n dst src apart))
    ]
