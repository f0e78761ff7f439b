-- ===== src/Disk/Words.antt =====
-- Words and half words in a block: what is read back, and what an assignment leaves alone.
use course_work_sem.Base.{ℕ, ◌+◌, ◌^◌, ◌<◌, ◌≤◌, ◌≡◌, ◌⊎◌, inl, inr, Bytes, arith}
use course_work_sem.Disk.{word_at, put_word, half_at, put_half}

pub word_at-put_word : (p : Bytes) (o v : ℕ) → v < 2 ^ 32 → word_at (put_word p o v) o ≡ v
unfolding word_at put_word
word_at-put_word p o v small = ground arith

pub half_at-put_half : (p : Bytes) (o v : ℕ) → v < 2 ^ 16 → half_at (put_half p o v) o ≡ v
unfolding half_at put_half
half_at-put_half p o v small = ground arith

pub put_word_outside : (p : Bytes) (o v i : ℕ) → (i < o) ⊎ (o + 4 ≤ i) → put_word p o v i ≡ p i
unfolding put_word
put_word_outside p o v i (inl low) = ground arith
put_word_outside p o v i (inr high) = ground arith

pub put_half_outside : (p : Bytes) (o v i : ℕ) → (i < o) ⊎ (o + 2 ≤ i) → put_half p o v i ≡ p i
unfolding put_half
put_half_outside p o v i (inl low) = ground arith
put_half_outside p o v i (inr high) = ground arith

-- A read depends on its four or two bytes only.
pub word_at_agree :
    (p q : Bytes) (o : ℕ) → ((i : ℕ) → o ≤ i → i < o + 4 → p i ≡ q i) → word_at p o ≡ word_at q o
unfolding word_at
word_at_agree p q o same = omega (
  arith,
  same o (omega arith) (omega arith),
  same (o + 1) (omega arith) (omega arith),
  same (o + 2) (omega arith) (omega arith),
  same (o + 3) (omega arith) (omega arith),
)

pub half_at_agree :
    (p q : Bytes) (o : ℕ) → ((i : ℕ) → o ≤ i → i < o + 2 → p i ≡ q i) → half_at p o ≡ half_at q o
unfolding half_at
half_at_agree p q o same =
    omega (arith, same o (omega arith) (omega arith), same (o + 1) (omega arith) (omega arith))

pub word_at_zero :
    (p : Bytes) (o : ℕ) → ((i : ℕ) → i < 512 → p i ≡ 0) → o + 4 ≤ 512 → word_at p o ≡ 0
unfolding word_at
word_at_zero p o zeros fits = omega (
  arith,
  zeros o (omega arith),
  zeros (o + 1) (omega arith),
  zeros (o + 2) (omega arith),
  zeros (o + 3) (omega arith),
)

pub word_at_other :
    (p : Bytes) (o v o' : ℕ)
    → (o' + 4 ≤ o) ⊎ (o + 4 ≤ o')
    → word_at (put_word p o v) o' ≡ word_at p o'
word_at_other p o v o' (inl low) =
    word_at_agree (put_word p o v) p o' (λ i l h. put_word_outside p o v i (inl (omega arith)))
word_at_other p o v o' (inr high) =
    word_at_agree (put_word p o v) p o' (λ i l h. put_word_outside p o v i (inr (omega arith)))
