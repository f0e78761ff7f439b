-- ===== src/Str/Compare.antt =====
-- memcmp, strncmp and strlen of string.c against what they compare and measure.
use course_work_sem.Base.{
  ℕ, zero, suc, ◌+◌, ◌<◌, ◌≡◌, ◌≢◌, refl, ◌↔◌, arith, ◌==◌, some, Bytes, pos, Bool-cases, false,
  inl, inr,
}
use course_work_sem.Str.{memcmp, strncmp, strlen_from, strlen}

-- the `n` bytes from `p` and from `q` are the same
abbrev pub SameBytes : ℕ → Bytes → ℕ → ℕ → Type 0
SameBytes n m p q = (k : ℕ) → k < n → m (p + k) ≡ m (q + k)

-- the two strings agree up to and including the first NUL, or for `n` bytes
abbrev pub SameString : ℕ → Bytes → ℕ → ℕ → Type 0
SameString n m p q = (k : ℕ) → k < n → ((j : ℕ) → j < k → m (p + j) ≢ 0) → m (p + k) ≡ m (q + k)

memcmp_sound : (n : ℕ) (m : Bytes) (p q : ℕ) → memcmp n m p q ≡ pos 0 → SameBytes n m p q
unfolding memcmp
memcmp_sound zero m p q e k lt = absurd (omega arith)
memcmp_sound (suc n) m p q e zero lt = ground arith
memcmp_sound (suc n) m p q e (suc k) lt =
    ground (arith, memcmp_sound n m (p + 1) (q + 1) (ground arith) k (omega arith))

memcmp_complete : (n : ℕ) (m : Bytes) (p q : ℕ) → SameBytes n m p q → memcmp n m p q ≡ pos 0
unfolding memcmp
memcmp_complete zero m p q h = refl
memcmp_complete (suc n) m p q h =
    ground (arith, h 0, memcmp_complete n m (p + 1) (q + 1) (λ k lt. ground (arith, h (suc k))))

-- `memcmp` returns 0 exactly when the `n` bytes at `v1` and at `v2` are the same.
pub memcmp-eq-zero :
    (n : ℕ) (m : Bytes) (v1 v2 : ℕ) → (memcmp n m v1 v2 ≡ pos 0) ↔ SameBytes n m v1 v2
memcmp-eq-zero n m v1 v2 = (memcmp_sound n m v1 v2, memcmp_complete n m v1 v2)

strncmp_sound : (n : ℕ) (m : Bytes) (p q : ℕ) → strncmp n m p q ≡ pos 0 → SameString n m p q
unfolding strncmp
strncmp_sound zero m p q e k lt h = absurd (omega arith)
strncmp_sound (suc n) m p q e zero lt h = ground arith
strncmp_sound (suc n) m p q e (suc k) lt h = ground (
  arith,
  strncmp_sound n m (p + 1) (q + 1) (ground (arith, h 0 (omega arith))) k (omega arith)
      (λ j jk. ground (arith, h (suc j) (omega arith))),
  h 0 (omega arith),
)

strncmp_complete : (n : ℕ) (m : Bytes) (p q : ℕ) → SameString n m p q → strncmp n m p q ≡ pos 0
unfolding strncmp
strncmp_complete zero m p q h = refl
strncmp_complete (suc n) m p q h = elim (Bool-cases (m p == 0)) [
  | inl nul ↦ ground (arith, h 0 (omega arith) (λ j lt. absurd (omega arith)))
  | inr more ↦ ground (
    arith,
    h 0 (omega arith) (λ j lt. absurd (omega arith)),
    strncmp_complete n m (p + 1) (q + 1) (later more),
  )
]
  where
    before :
        (m p == 0) ≡ false
        → (k : ℕ) → ((j : ℕ) → j < k → m (p + 1 + j) ≢ 0)
        → (j : ℕ) → j < suc k
        → m (p + j) ≢ 0
    before more k below zero lt = ground arith
    before more k below (suc j) lt = ground (arith, below j (omega arith))

    later : (m p == 0) ≡ false → SameString n m (p + 1) (q + 1)
    later more k lt below = ground (arith, h (suc k) (omega arith) (before more k below))

-- `strncmp` returns 0 exactly when the strings at `p` and `q` agree up to and including the first
-- NUL of `p`, or for `n` bytes if none comes earlier.
pub strncmp-eq-zero : (n : ℕ) (m : Bytes) (p q : ℕ) → (strncmp n m p q ≡ pos 0) ↔ SameString n m p q
strncmp-eq-zero n m p q = (strncmp_sound n m p q, strncmp_complete n m p q)

strlen_from_lem :
    (fuel : ℕ) (m : Bytes) (s i n : ℕ)
    → m (s + (i + n)) ≡ 0
    → ((j : ℕ) → j < n → m (s + (i + j)) ≢ 0)
    → n < fuel
    → strlen_from fuel m s i ≡ some (i + n)
unfolding strlen_from
strlen_from_lem zero m s i n z h lt = absurd (omega arith)
strlen_from_lem (suc fuel) m s i zero z h lt = ground arith
strlen_from_lem (suc fuel) m s i (suc n) z h lt = ground (
  arith,
  h 0 (omega arith),
  strlen_from_lem fuel m s (i + 1) n (ground arith)
      (λ j jn. ground (arith, h (suc j) (omega arith))) (omega arith),
)

-- `strlen` returns the offset of the first NUL, whenever its fuel exceeds that offset.
pub strlen_lem :
    (fuel : ℕ) (m : Bytes) (s n : ℕ)
    → m (s + n) ≡ 0
    → ((j : ℕ) → j < n → m (s + j) ≢ 0)
    → n < fuel
    → strlen fuel m s ≡ some n
unfolding strlen
strlen_lem fuel m s n z h lt =
    ground (arith, strlen_from_lem fuel m s 0 n (ground arith) (λ j jn. ground (arith, h j jn)) lt)
