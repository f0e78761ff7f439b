-- ===== src/Base/Memory.antt =====
-- Byte-addressed memory: a function from addresses to bytes.
use Prim.Native.Nat.{ℕ}
use mathlib.Core.Path.{◌≡◌}
use mathlib.Core.Logic.{◌≢◌}
use native.Mathlib.Omega.{arith}
use course_work_sem.Base.Tests.{◌==◌, if◌then◌else◌}

abbrev pub Bytes : Type 0
Bytes = ℕ → ℕ

-- `update m a v` is `m` after the assignment `*a = v`.
abbrev pub update {ℓ} : {V : Type ℓ} → (ℕ → V) → ℕ → V → ℕ → V
update m a v b = if a == b then v else m b

pub update_same {ℓ} : {V : Type ℓ} (m : ℕ → V) (a : ℕ) (v : V) → update m a v a ≡ v
update_same m a v = ground arith

pub update_other {ℓ} :
    {V : Type ℓ} (m : ℕ → V) (a : ℕ) (v : V) (b : ℕ) → a ≢ b → update m a v b ≡ m b
update_other m a v b h = ground arith
