-- ===== src/Proc/Lookup.antt =====
-- Looking up an entry of the process table after it has been written or after a wakeup.
use course_work_sem.Base.{
  ℕ, zero, suc, ◌<◌, ◌≡◌, ◌↔◌, refl, ap, Bool, true, false, ◌&&◌, Option, none, some, List, [], ◌∷◌,
  arith, length, set, get_or-set_self, get_or-set_ne, ◌==◌, if◌then◌else◌, Bool-cases, inl, inr,
  ==_iff,
}
use course_work_sem.Proc.{
  Proc, Chan, zeroed, at, wake, wakeup1, wakes, is_sleeping, process, is_some_of, is_unused,
}

pub at-set :
    (ps : List Proc) (i j : ℕ) (p : Proc)
    → i < length ps
    → at (set ps i p) j ≡ (if i == j then p else at ps j)
at-set ps i j p h = elim (Bool-cases (i == j)) [
  | inl e ↦ rw (e, ← (==_iff i j).0 e) (get_or-set_self ps i p zeroed h)
  | inr ne ↦ rw ne (get_or-set_ne ps i j p zeroed (ground arith))
]

pub at-wakeup1 : (c : Chan) (ps : List Proc) (j : ℕ) → at (wakeup1 c ps) j ≡ wake c (at ps j)
unfolding wakeup1
at-wakeup1 c [] j = refl
at-wakeup1 c (p ∷ ps) zero = refl
at-wakeup1 c (p ∷ ps) (suc j) = at-wakeup1 c ps j

pub length-wakeup1 : (c : Chan) (ps : List Proc) → length (wakeup1 c ps) ≡ length ps
unfolding wakeup1
length-wakeup1 c [] = refl
length-wakeup1 c (p ∷ ps) = ap suc (length-wakeup1 c ps)

pub wakeup1-set :
    (c : Chan) (ps : List Proc) (i : ℕ) (p : Proc)
    → wakeup1 c (set ps i p) ≡ set (wakeup1 c ps) i (wake c p)
unfolding wakeup1
wakeup1-set c [] i p = refl
wakeup1-set c (q ∷ ps) zero p = refl
wakeup1-set c (q ∷ ps) (suc i) p = ap (◌∷◌ (wake c q)) (wakeup1-set c ps i p)

-- Process `j` sleeps in `wait`: on its own entry of the table.
abbrev pub waiting : ℕ → Proc → Bool
waiting j p = is_sleeping p.state && wakes p.chan (process j)

-- an entry in use lies in the table
pub inside_of_used : (ps : List Proc) (i : ℕ) → is_unused (at ps i).state ≡ false → i < length ps
inside_of_used [] i h = cc
inside_of_used (p ∷ ps) zero h = omega arith
inside_of_used (p ∷ ps) (suc i) h = omega (arith, inside_of_used ps i h)

pub is_some_of_iff : (o : Option ℕ) (i : ℕ) → (is_some_of o i ≡ true) ↔ (o ≡ some i)
is_some_of_iff none i = (λ e. cc, λ e. cc)
is_some_of_iff (some j) i = (λ e. ground arith, λ e. ground arith)
