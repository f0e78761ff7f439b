-- ===== src/Disk/Bits.antt =====
-- The bits of a byte, or of any number.
use course_work_sem.Base.{ℕ, zero, suc, ◌+◌, ◌*◌, ◌/◌, ◌%◌, ◌<◌, ◌≡◌, ◌==◌, ◌||◌, ◌&&◌, not, arith}
use course_work_sem.Disk.{bit, set_bit, clear_bit}

halved : (x y : ℕ) → y < 2 → (x * 2 + y) / 2 ≡ x
halved x y h = omega arith

pub bit-set_bit : (x k j : ℕ) → bit (set_bit x k) j ≡ ((k == j) || bit x j)
unfolding bit set_bit
bit-set_bit x zero zero = ground arith
bit-set_bit x zero (suc j) = ground (arith, halved (x / 2) 1 (omega arith))
bit-set_bit x (suc k) zero = ground arith
bit-set_bit x (suc k) (suc j) =
    rw (halved (set_bit (x / 2) k) (x % 2) (omega arith)) (ground (arith, bit-set_bit (x / 2) k j))

pub bit-clear_bit : (x k j : ℕ) → bit (clear_bit x k) j ≡ (not (k == j) && bit x j)
unfolding bit clear_bit
bit-clear_bit x zero zero = ground arith
bit-clear_bit x zero (suc j) = ground (arith, halved (x / 2) 0 (omega arith))
bit-clear_bit x (suc k) zero = ground arith
bit-clear_bit x (suc k) (suc j) =
    rw (halved (clear_bit (x / 2) k) (x % 2) (omega arith))
      (ground (arith, bit-clear_bit (x / 2) k j))
