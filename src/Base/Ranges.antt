-- ===== src/Base/Ranges.antt =====
-- Lists of bytes stored at an address and after, and parts of lists.
use Prim.Native.Nat.{ℕ, zero, suc, ◌+◌, ◌≤◌, ◌<◌}
use mathlib.Core.Path.{◌≡◌, refl, ap, ◌∙◌}
use mathlib.Core.Logic.{◌⊎◌, inl, inr}
use mathlib.Core.List.{List, [], ◌∷◌}
use native.Mathlib.Omega.{arith}
use course_work_sem.Base.Lists.{length, get_or, take, drop}
use course_work_sem.Base.Memory.{update}

-- the bytes by address after `xs` is stored from `off` on
abbrev pub store_at : ℕ → List ℕ → (ℕ → ℕ) → ℕ → ℕ
store_at off [] m = m
store_at off (x ∷ xs) m = store_at (off + 1) xs (update m off x)

shift : (off l : ℕ) → off + suc l ≡ off + 1 + l
shift off l = omega arith

plus_zero : (o : ℕ) → o + 0 ≡ o
plus_zero o = omega arith

-- Storing the first `n` bytes and then the others is storing all.
pub store_at-take :
    (n off : ℕ) (xs : List ℕ) (m : ℕ → ℕ)
    → store_at (off + length (take n xs)) (drop n xs) (store_at off (take n xs) m)
      ≡ store_at off xs m
store_at-take zero off xs m = rw (plus_zero off) refl
store_at-take (suc n) off [] m = refl
store_at-take (suc n) off (x ∷ xs) m =
    rw (shift off (length (take n xs))) (store_at-take n (off + 1) xs (update m off x))

pub length_parts : (n : ℕ) (xs : List ℕ) → length (take n xs) + length (drop n xs) ≡ length xs
length_parts zero xs = omega arith
length_parts (suc n) [] = refl
length_parts (suc n) (x ∷ xs) = omega (arith, length_parts n xs)

pub length-take : (n : ℕ) (xs : List ℕ) → n ≤ length xs → length (take n xs) ≡ n
length-take zero xs h = refl
length-take (suc n) [] h = absurd (omega arith)
length-take (suc n) (x ∷ xs) h = ap suc (length-take n xs (omega arith))

pub store_at_outside :
    (off : ℕ) (xs : List ℕ) (m : ℕ → ℕ) (i : ℕ)
    → (i < off) ⊎ (off + length xs ≤ i)
    → store_at off xs m i ≡ m i
store_at_outside off [] m i h = refl
store_at_outside off (x ∷ xs) m i (inl low) =
    store_at_outside (off + 1) xs (update m off x) i (inl (omega arith)) ∙ ground (arith, low)
store_at_outside off (x ∷ xs) m i (inr high) =
    store_at_outside (off + 1) xs (update m off x) i (inr (omega arith)) ∙ ground (arith, high)

pub store_at_inside :
    (off : ℕ) (xs : List ℕ) (m : ℕ → ℕ) (k : ℕ)
    → k < length xs
    → store_at off xs m (off + k) ≡ get_or xs k 0
store_at_inside off [] m k h = absurd (omega arith)
store_at_inside off (x ∷ xs) m zero h =
    store_at_outside (off + 1) xs (update m off x) (off + 0) (inl (omega arith)) ∙ ground arith
store_at_inside off (x ∷ xs) m (suc k) h =
    rw (shift off k) (store_at_inside (off + 1) xs (update m off x) k (omega arith))

-- What is stored depends on the bytes before only where nothing is stored.
pub store_at_agree :
    (off : ℕ) (xs : List ℕ) (m m' : ℕ → ℕ) (limit : ℕ)
    → ((i : ℕ) → i < limit → m i ≡ m' i)
    → (i : ℕ) → i < limit
    → store_at off xs m i ≡ store_at off xs m' i
store_at_agree off [] m m' limit same i h = same i h
store_at_agree off (x ∷ xs) m m' limit same i h =
    store_at_agree (off + 1) xs (update m off x) (update m' off x) limit
      (λ j l. ground (arith, same j l)) i h

-- Storing a list at two places that keep the same distance.
pub store_at_moved :
    (off off' : ℕ) (xs : List ℕ) (m m' : ℕ → ℕ) (i i' : ℕ)
    → i + off' ≡ i' + off
    → m i ≡ m' i'
    → store_at off xs m i ≡ store_at off' xs m' i'
store_at_moved off off' [] m m' i i' d e = e
store_at_moved off off' (x ∷ xs) m m' i i' d e =
    store_at_moved (off + 1) (off' + 1) xs (update m off x) (update m' off' x) i i' (omega arith)
      (ground (arith, d, e))
