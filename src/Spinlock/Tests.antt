-- ===== src/Spinlock/Tests.antt =====
-- Two processors and the lock: 0 takes it while 1 spins.
use course_work_sem.Base.{ℕ, ◌≡◌, refl, true, false, some, update}
use course_work_sem.Spinlock.{
  Cpu, pushcli, World, initlock, holding, critical, cleared, spinning, outside, acquire_enter,
  acquire_xchg, acquire_record, release_clear, release_xchg,
}
use course_work_sem.Spinlock.Exclusion.{
  Reach, initial, start, enter_step, xchg_step, record_step, is_outside, Reach-Exclusive,
}

abbrev user : Cpu
user = record { ncli = 0; intena = false; enabled = true }

abbrev entered : ℕ → World → World
entered i w = record w { pc = update w.pc i spinning; cpus = update w.cpus i (pushcli (w.cpus i)) }

both_in : acquire_enter 1 (entered 0 initial) ≡ some (entered 1 (entered 0 initial))
unfolding acquire_enter holding initlock
both_in = refl

abbrev both : World
both = entered 1 (entered 0 initial)

both-Reach : Reach both
unfolding acquire_enter holding initlock
both-Reach = enter_step 1 (enter_step 0 start refl refl) refl both_in

abbrev taken : World
taken = acquire_record 0 (acquire_xchg 1 (acquire_xchg 0 both))

taken-Reach : Reach taken
unfolding acquire_xchg initlock
taken-Reach = record_step 0 (xchg_step 1 (xchg_step 0 both-Reach refl) refl) refl

one_waits : (taken.pc 0 ≡ critical) × (taken.pc 1 ≡ spinning)
unfolding acquire_record acquire_xchg initlock
one_waits = (refl, refl)

Reach-Exclusive_example :
    ((i j : ℕ) → taken.pc i ≡ critical → taken.pc j ≡ critical → i ≡ j)
    × ((i : ℕ) → taken.pc i ≡ outside → (w' : World) × (acquire_enter i taken ≡ some w'))
    × ((i : ℕ) → taken.pc i ≡ critical → (w' : World) × (release_clear i taken ≡ some w'))
    × ((i : ℕ) → taken.pc i ≡ cleared → (w' : World) × (release_xchg i taken ≡ some w'))
    × ((i : ℕ) → is_outside (taken.pc i) ≡ false → (taken.cpus i).enabled ≡ false)
Reach-Exclusive_example = Reach-Exclusive taken-Reach
