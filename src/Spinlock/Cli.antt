-- ===== src/Spinlock/Cli.antt =====
-- Nested calls of pushcli and popcli of spinlock.c.
use course_work_sem.Base.{
  ℕ, zero, suc, ◌+◌, ◌-◌, ◌<◌, ◌≡◌, refl, ◌∙◌, false, ◌&&◌, Option, none, some, ◌==◌, if◌then◌else◌,
  arith, inl, inr, Bool-cases,
}
use course_work_sem.Spinlock.{Cpu, pushcli, popcli}

pub pushes : ℕ → Cpu → Cpu
unfolding pushcli
pushes zero c = c
pushes (suc n) c = pushes n (pushcli c)

pub pops : ℕ → Cpu → Option Cpu
unfolding popcli
pops zero c = some c
pops (suc n) c = elim (popcli c) [ none ↦ none | some c' ↦ pops n c' ]

-- Inside of a pushcli, interrupts are off.
abbrev pub IsMatched : Cpu → Type 0
IsMatched c = 0 < c.ncli → c.enabled ≡ false

-- Interrupts and the count are as before.
abbrev pub Restored : Cpu → Option Cpu → Type 0
Restored c out = (c' : Cpu) × (out ≡ some c') × (c'.ncli ≡ c.ncli) × (c'.enabled ≡ c.enabled)

pub pushcli_lem :
    (c : Cpu)
    → ((pushcli c).ncli ≡ c.ncli + 1)
      × ((pushcli c).enabled ≡ false)
      × ((pushcli c).intena ≡ (if c.ncli == 0 then c.enabled else c.intena))
unfolding pushcli
pushcli_lem c = (refl, refl, refl)

pub popcli_lem :
    (c : Cpu)
    → 0 < c.ncli
    → c.enabled ≡ false
    → popcli c ≡ some (record c { ncli = c.ncli - 1; enabled = (c.ncli - 1 == 0) && c.intena })
unfolding popcli
popcli_lem c inside off = ground arith

last_off : (n : ℕ) (c : Cpu) → n ≡ 0 → (pushes n (pushcli c)).enabled ≡ false
unfolding pushes pushcli
last_off n c e = rw e refl

pushes_none : (n : ℕ) (c : Cpu) → n ≡ 0 → pushes n c ≡ c
unfolding pushes
pushes_none n c e = rw e refl

-- the counts and flags after `n` nested calls
pushes_lem :
    (n : ℕ) (c : Cpu)
    → ((pushes n c).ncli ≡ c.ncli + n)
      × (0 < n → (pushes n c).enabled ≡ false)
      × (c.ncli ≡ 0 → 0 < n → (pushes n c).intena ≡ c.enabled)
      × (0 < c.ncli → (pushes n c).intena ≡ c.intena)
unfolding pushes
pushes_lem zero c =
    (omega arith, (λ h. absurd (omega arith)), (λ e h. absurd (omega arith)), (λ h. refl))
pushes_lem (suc n) c =
    let (count, off, first, later) = pushes_lem n (pushcli c) in
    let (count1, off1, saved) = pushcli_lem c in
    (
      omega (arith, count, count1),
      (λ h. elim (Bool-cases (n == 0)) [
        | inl none_more ↦ last_off n c (ground arith)
        | inr more ↦ off (ground arith)
      ]),
      (λ e h. ground (arith, saved, later (ground (arith, count1)))),
      (λ h. ground (arith, saved, later (ground (arith, count1)))),
    )

pops_next : (n : ℕ) (c d : Cpu) → popcli c ≡ some d → pops (suc n) c ≡ pops n d
unfolding pops
pops_next n c d e = rw (e, pops) refl

-- What `n` calls of popcli leave, when `m` pushcli are still to undo.
abbrev pub Popped : ℕ → ℕ → Cpu → Option Cpu → Type 0
Popped m n d out =
    (c' : Cpu) × (out ≡ some c')
    × (c'.ncli ≡ m)
    × (c'.enabled ≡ (if n == 0 then d.enabled else (m == 0) && d.intena))

pops_lem :
    (m n : ℕ) (d : Cpu) → d.ncli ≡ m + n → (0 < n → d.enabled ≡ false) → Popped m n d (pops n d)
unfolding pops
pops_lem m zero d count off = (d, refl, omega arith, refl)
pops_lem m (suc n) d count off =
    let popped = popcli_lem d (omega arith) (off (omega arith)) in
    let d' : Cpu = record d { ncli = d.ncli - 1; enabled = (d.ncli - 1 == 0) && d.intena } in
    let (c', e, count', after) = pops_lem m n d' (omega arith) (λ h. ground arith) in
    (c', pops_next n d d' popped ∙ e, count', ground (arith, after))

-- `n` calls of pushcli and then `n` of popcli, from a state in which interrupts are off inside of a
-- pushcli, do not panic, and the count and the interrupt flag are as before: interrupts come on
-- again only if they were on before the first pushcli. In between, they are off.
pub pops-pushes :
    (n : ℕ) (c : Cpu)
    → IsMatched c
    → Restored c (pops n (pushes n c)) × (0 < n → (pushes n c).enabled ≡ false)
pops-pushes n c matched =
    let (count, off, first, later) = pushes_lem n c in
    let (c', e, count', after) = pops_lem c.ncli n (pushes n c) count off in
    let flag : c'.enabled ≡ c.enabled = elim (Bool-cases (n == 0)) [
      | inl zero_ ↦ (let same = pushes_none n c (ground arith) in ground (arith, after, same))
      | inr some_ ↦ elim (Bool-cases (c.ncli == 0)) [
        | inl outer ↦ ground (arith, after, first (ground arith) (ground arith))
        | inr inner ↦ ground (arith, after, matched (ground arith))
      ]
    ] in
    ((c', e, count', flag), off)
