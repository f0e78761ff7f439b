-- ===== src/Str/Move.antt =====
-- memset, memmove and memcpy of string.c: what every byte of memory is afterwards.
use course_work_sem.Base.{
  ℕ, zero, suc, ◌+◌, ◌-◌, ◌*◌, ◌/◌, ◌%◌, ◌<◌, ◌≤◌, ◌≡◌, ◌⊎◌, Bool, ◌&&◌, arith, ltb, leb,
  if◌then◌else◌, Bytes, update,
}
use course_work_sem.Str.{stosb, stosl, memset, splat, store_word, move_down, move_up, memmove}

-- the address `b` lies in the `n` bytes from `a` on
abbrev pub within : ℕ → ℕ → ℕ → Bool
within a n b = leb a b && ltb b (a + n)

stosb_lem :
    (n : ℕ) (m : Bytes) (a c b : ℕ) → stosb n m a c b ≡ (if within a n b then c % 256 else m b)
unfolding stosb
stosb_lem zero m a c b = ground arith
stosb_lem (suc n) m a c b = ground (arith, stosb_lem n (update m a (c % 256)) (a + 1) c b)

store_word_lem :
    (m : Bytes) (a c b : ℕ)
    → c < 256
    → store_word m a (splat c) b ≡ (if within a 4 b then c else m b)
store_word_lem m a c b h = ground arith

stosl_lem :
    (n : ℕ) (m : Bytes) (a c b : ℕ)
    → c < 256
    → stosl n m a (splat c) b ≡ (if within a (4 * n) b then c else m b)
unfolding stosl
stosl_lem zero m a c b h = ground arith
stosl_lem (suc n) m a c b h =
    ground (arith, stosl_lem n (store_word m a (splat c)) (a + 4) c b h, store_word_lem m a c b h)

-- On either of its two paths `memset` fills exactly the `n` bytes from `dst` with the low byte of
-- `c`, and leaves every other byte alone.
pub memset_lem :
    (m : Bytes) (dst c n b : ℕ) → memset m dst c n b ≡ (if within dst n b then c % 256 else m b)
unfolding memset
memset_lem m dst c n b = ground (arith, stosb_lem n m dst c b, stosl_lem (n / 4) m dst (c % 256) b)

move_up_lem :
    (n : ℕ) (m : Bytes) (d s b : ℕ)
    → (d ≤ s) ⊎ (s + n ≤ d)
    → move_up n m d s b ≡ (if within d n b then m (s + (b - d)) else m b)
unfolding move_up
move_up_lem zero m d s b h = ground arith
move_up_lem (suc n) m d s b h =
    ground (arith, move_up_lem n (update m d (m s)) (d + 1) (s + 1) b (grind arith))

move_down_lem :
    (n : ℕ) (m : Bytes) (d s b : ℕ)
    → s ≤ d
    → move_down n m (d + n) (s + n) b ≡ (if within d n b then m (s + (b - d)) else m b)
unfolding move_down
move_down_lem zero m d s b h = ground arith
move_down_lem (suc n) m d s b h =
    let e : d + suc n - 1 ≡ d + n = omega arith in
    let e' : s + suc n - 1 ≡ s + n = omega arith in
    rw (e, e') (ground (arith, move_down_lem n (update m (d + n) (m (s + n))) d s b h))

-- `memmove` leaves in the `n` bytes from `dst` what the `n` bytes from `src` were before the call,
-- however the two areas overlap, and changes no other byte.
pub memmove_lem :
    (m : Bytes) (dst src n b : ℕ)
    → memmove m dst src n b ≡ (if within dst n b then m (src + (b - dst)) else m b)
unfolding memmove
memmove_lem m dst src n b = ground (arith, move_up_lem n m dst src b, move_down_lem n m dst src b)
