-- ===== src/Str/Copy.antt =====
-- strncpy and safestrcpy of string.c: the bytes that they leave at the destination.
use course_work_sem.Base.{
  ℕ, zero, suc, ◌+◌, ◌<◌, ◌≤◌, ◌≡◌, refl, ◌⊎◌, inl, inr, false, arith, ◌==◌, if◌then◌else◌, Bytes,
  update, Bool-cases, pos,
}
use course_work_sem.Str.{pad_zeros, strncpy, safestrcpy_loop, safestrcpy}
use course_work_sem.Str.Move.{within}

-- byte `k` of the string at `t`, continued by NULs for ever
abbrev pub padded : Bytes → ℕ → ℕ → ℕ
padded m t zero = m t
padded m t (suc k) = let rest = padded m (t + 1) k in if m t == 0 then 0 else rest

-- the `n` bytes at `s` and the `n` bytes at `t` do not meet
abbrev pub Apart : ℕ → ℕ → ℕ → Type 0
Apart n s t = (s + n ≤ t) ⊎ (t + n ≤ s)

pad_zeros_lem :
    (n : ℕ) (m : Bytes) (s b : ℕ) → pad_zeros n m s b ≡ (if within s n b then 0 else m b)
unfolding pad_zeros
pad_zeros_lem zero m s b = ground arith
pad_zeros_lem (suc n) m s b = ground (arith, pad_zeros_lem n (update m s 0) (s + 1) b)

-- `padded` reads at most `k + 1` bytes
padded-same :
    (k : ℕ) (m g : Bytes) (t : ℕ)
    → ((j : ℕ) → j < suc k → g (t + j) ≡ m (t + j))
    → padded g t k ≡ padded m t k
padded-same zero m g t h = ground (arith, h 0)
padded-same (suc k) m g t h = ground (
  arith,
  h 0 (omega arith),
  padded-same k m g (t + 1) (λ j lt. ground (arith, h (suc j) (omega arith))),
)

strncpy_outside : (n : ℕ) (m : Bytes) (s t b : ℕ) → within s n b ≡ false → strncpy n m s t b ≡ m b
unfolding strncpy
strncpy_outside zero m s t b h = refl
strncpy_outside (suc n) m s t b h = ground (
  arith,
  strncpy_outside n (update m s (m t)) (s + 1) (t + 1) b (ground arith),
  pad_zeros_lem n (update m s (m t)) (s + 1) b,
)

strncpy_inside :
    (n : ℕ) (m : Bytes) (s t k : ℕ) → Apart n s t → k < n → strncpy n m s t (s + k) ≡ padded m t k
unfolding strncpy
strncpy_inside zero m s t k h lt = absurd (omega arith)
strncpy_inside (suc n) m s t zero h lt = ground (
  arith,
  strncpy_outside n (update m s (m t)) (s + 1) (t + 1) s (ground arith),
  pad_zeros_lem n (update m s (m t)) (s + 1) s,
)
strncpy_inside (suc n) m s t (suc k) h lt = ground (
  arith,
  strncpy_inside n (update m s (m t)) (s + 1) (t + 1) k (grind arith) (omega arith),
  pad_zeros_lem n (update m s (m t)) (s + 1) (s + suc k),
  padded-same k m (update m s (m t)) (t + 1) (λ j jk. grind arith),
)

-- From areas that do not meet, `strncpy` leaves at `s` the first `n` bytes of the string at `t`
-- continued by NULs, and changes no byte outside these `n`.
pub strncpy_lem :
    (n : ℕ) (m : Bytes) (s t : ℕ)
    → Apart n s t
    → ((k : ℕ) → k < n → strncpy n m s t (s + k) ≡ padded m t k)
      × ((b : ℕ) → within s n b ≡ false → strncpy n m s t b ≡ m b)
strncpy_lem n m s t h = (λ k. strncpy_inside n m s t k h, strncpy_outside n m s t)

-- the bytes before the first NUL among the first `k` bytes at `t`
abbrev pub prefix : ℕ → Bytes → ℕ → ℕ
prefix zero m t = 0
prefix (suc k) m t = let rest = prefix k m (t + 1) in if m t == 0 then 0 else suc rest

-- `g` holds at `s` the first `len` bytes that `m` holds at `t`, and a NUL behind them
pub record Terminated (m g : Bytes) (s t len : ℕ) : Type 0 where
  pub copied : (j : ℕ) → j < len → g (s + j) ≡ m (t + j)
  pub ended : g (s + len) ≡ 0

prefix-same :
    (k : ℕ) (m g : Bytes) (t : ℕ)
    → ((j : ℕ) → j < k → g (t + j) ≡ m (t + j))
    → prefix k g t ≡ prefix k m t
prefix-same zero m g t h = refl
prefix-same (suc k) m g t h = ground (
  arith,
  h 0 (omega arith),
  prefix-same k m g (t + 1) (λ j lt. ground (arith, h (suc j) (omega arith))),
)

prefix-le : (k : ℕ) (m : Bytes) (t : ℕ) → prefix k m t ≤ k
prefix-le zero m t = omega arith
prefix-le (suc k) m t = ground (arith, prefix-le k m (t + 1))

safestrcpy_outside :
    (k : ℕ) (m : Bytes) (s t b : ℕ) → within s (suc k) b ≡ false → safestrcpy_loop k m s t b ≡ m b
unfolding safestrcpy_loop
safestrcpy_outside zero m s t b h = ground arith
safestrcpy_outside (suc k) m s t b h =
    ground (arith, safestrcpy_outside k (update m s (m t)) (s + 1) (t + 1) b (ground arith))

safestrcpy_ended :
    (k : ℕ) (m : Bytes) (s t : ℕ)
    → Apart (suc k) s t
    → safestrcpy_loop k m s t (s + prefix k m t) ≡ 0
unfolding safestrcpy_loop
safestrcpy_ended zero m s t h = ground arith
safestrcpy_ended (suc k) m s t h = ground (
  arith,
  safestrcpy_ended k (update m s (m t)) (s + 1) (t + 1) (grind arith),
  prefix-same k m (update m s (m t)) (t + 1) (λ j lt. grind arith),
)

safestrcpy_copied :
    (k : ℕ) (m : Bytes) (s t : ℕ)
    → Apart (suc k) s t
    → (j : ℕ) → j < prefix k m t
    → safestrcpy_loop k m s t (s + j) ≡ m (t + j)
unfolding safestrcpy_loop
safestrcpy_copied zero m s t h j lt = absurd (omega arith)
safestrcpy_copied (suc k) m s t h zero lt =
    ground (arith, safestrcpy_outside k (update m s (m t)) (s + 1) (t + 1) s (ground arith))
safestrcpy_copied (suc k) m s t h (suc j) lt = elim (Bool-cases (m t == 0)) [
  | inl nul ↦ absurd (ground arith)
  | inr more ↦ ground (
    arith,
    safestrcpy_copied k (update m s (m t)) (s + 1) (t + 1) (grind arith) j,
    prefix-same k m (update m s (m t)) (t + 1) (λ j' lt'. grind arith),
    prefix-le k m (t + 1),
  )
]

-- For `n = k + 1` and areas that do not meet, `safestrcpy` copies the bytes of the string at `t`
-- up to its first NUL but at most `k` of them, puts a NUL behind them, and changes no byte outside
-- the `n` bytes at `s`.
pub safestrcpy_lem :
    (k : ℕ) (m : Bytes) (s t : ℕ)
    → Apart (suc k) s t
    → Terminated m (safestrcpy m s t (pos (suc k))) s t (prefix k m t)
      × (prefix k m t ≤ k)
      × ((b : ℕ) → within s (suc k) b ≡ false → safestrcpy m s t (pos (suc k)) b ≡ m b)
unfolding safestrcpy
safestrcpy_lem k m s t h = (
  record { copied = safestrcpy_copied k m s t h; ended = safestrcpy_ended k m s t h },
  prefix-le k m t,
  safestrcpy_outside k m s t,
)
