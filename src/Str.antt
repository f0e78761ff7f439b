-- ===== src/Str.antt =====
-- COL331/HW1/xv6/string.c: the byte and string routines, over a memory of bytes. Addresses do not
-- wrap. A counted loop recurs on the count left.
pub mod Move
pub mod Compare
pub mod Copy
mod Tests
use course_work_sem.Base.{
  ℕ, zero, suc, ◌+◌, ◌-◌, ◌*◌, ◌/◌, ◌%◌, ◌^◌, Bool, true, false, not, ◌&&◌, Option, none, some, ltb,
  ◌==◌, if◌then◌else◌, Bytes, update, ℤ, pos, sub_ℕ,
}

-- `stosb`, the instruction `rep stosb`: `cnt` bytes
pub stosb : ℕ → Bytes → ℕ → ℕ → Bytes
stosb zero m a c = m
stosb (suc cnt) m a c = stosb cnt (update m a (c % 256)) (a + 1) c

-- one little-endian word
abbrev pub store_word : Bytes → ℕ → ℕ → Bytes
store_word m a w =
    update
      (update (update (update m a (w % 256)) (a + 1) (w / 2 ^ 8 % 256)) (a + 2) (w / 2 ^ 16 % 256))
      (a + 3) (w / 2 ^ 24 % 256)

-- `stosl`, the instruction `rep stosl`: `cnt` words
pub stosl : ℕ → Bytes → ℕ → ℕ → Bytes
stosl zero m a w = m
stosl (suc cnt) m a w = stosl cnt (store_word m a w) (a + 4) w

-- `(c<<24)|(c<<16)|(c<<8)|c`, whose parts share no bit for a byte `c`
abbrev pub splat : ℕ → ℕ
splat c = c * 2 ^ 24 + c * 2 ^ 16 + c * 2 ^ 8 + c

pub memset : Bytes → ℕ → ℕ → ℕ → Bytes
memset m dst c n =
    if (dst % 4 == 0) && (n % 4 == 0)
    then stosl (n / 4) m dst (splat (c % 256))
    else stosb n m dst c

pub memcmp : ℕ → Bytes → ℕ → ℕ → ℤ
memcmp zero m v1 v2 = pos 0
memcmp (suc n) m v1 v2 = if m v1 == m v2 then memcmp n m (v1 + 1) (v2 + 1) else sub_ℕ (m v1) (m v2)

-- `while(n-- > 0) *--d = *--s;`
pub move_down : ℕ → Bytes → ℕ → ℕ → Bytes
move_down zero m d s = m
move_down (suc n) m d s = move_down n (update m (d - 1) (m (s - 1))) (d - 1) (s - 1)

-- `while(n-- > 0) *d++ = *s++;`
pub move_up : ℕ → Bytes → ℕ → ℕ → Bytes
move_up zero m d s = m
move_up (suc n) m d s = move_up n (update m d (m s)) (d + 1) (s + 1)

pub memmove : Bytes → ℕ → ℕ → ℕ → Bytes
memmove m dst src n =
    if ltb src dst && ltb dst (src + n)
    then move_down n m (dst + n) (src + n)
    else move_up n m dst src

pub memcpy : Bytes → ℕ → ℕ → ℕ → Bytes
unfolding memmove
memcpy m dst src n = memmove m dst src n

pub strncmp : ℕ → Bytes → ℕ → ℕ → ℤ
strncmp zero m p q = pos 0
strncmp (suc n) m p q =
    if not (m p == 0) && (m p == m q) then strncmp n m (p + 1) (q + 1) else sub_ℕ (m p) (m q)

-- `while(n-- > 0) *s++ = 0;`
unfoldable pub pad_zeros : ℕ → Bytes → ℕ → Bytes
pad_zeros zero m s = m
pad_zeros (suc n) m s = pad_zeros n (update m s 0) (s + 1)

unfoldable pub strncpy : ℕ → Bytes → ℕ → ℕ → Bytes
strncpy zero m s t = m
strncpy (suc n) m s t =
    let m' = update m s (m t) in
    let rest = strncpy n m' (s + 1) (t + 1) in if m t == 0 then pad_zeros n m' (s + 1) else rest

-- The copying loop of `safestrcpy` with `n - 1` rounds left, and the closing `*s = 0`.
pub safestrcpy_loop : ℕ → Bytes → ℕ → ℕ → Bytes
safestrcpy_loop zero m s t = update m s 0
safestrcpy_loop (suc k) m s t =
    let m' = update m s (m t) in
    let rest = safestrcpy_loop k m' (s + 1) (t + 1) in
    if m t == 0 then update m' (s + 1) 0 else rest

pub safestrcpy : Bytes → ℕ → ℕ → ℤ → Bytes
safestrcpy m s t (pos zero) = m
safestrcpy m s t (pos (suc k)) = safestrcpy_loop k m s t
safestrcpy m s t (ℤ.negsuc k) = m

-- `none`: the fuel ran out before a NUL was found
pub strlen_from : ℕ → Bytes → ℕ → ℕ → Option ℕ
strlen_from zero m s n = none
strlen_from (suc fuel) m s n =
    let rest = strlen_from fuel m s (n + 1) in if m (s + n) == 0 then some n else rest

pub strlen : ℕ → Bytes → ℕ → Option ℕ
unfolding strlen_from
strlen fuel m s = strlen_from fuel m s 0
