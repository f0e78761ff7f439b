-- ===== src/Proc/Newborn.antt =====
-- The entry that `allocproc` takes, and the table after each part of `allocproc` and `fork`.
use course_work_sem.Base.{
  ℕ, zero, suc, ◌+◌, ◌%◌, ◌^◌, ◌<◌, ◌≡◌, refl, true, false, List, [], ◌∷◌, none, some, arith,
  length, set, ◌==◌, Bool-cases, Option-cases, inl, inr,
}
use course_work_sem.Proc.{
  Proc, Table, unused, embryo, runnable, running, at, is_unused, find_unused, take_entry,
  give_stack, fork_copy, publish,
}
use course_work_sem.Proc.Lookup.{inside_of_used}
use course_work_sem.Proc.Family.{IsSound, IsSoundTable, Fits, IsSound-set, same_Fits, is_alive}

-- entry `i` is UNUSED and every entry before it is in use
pub record FirstUnused (ps : List Proc) (i : ℕ) : Type 0 where
  pub inside : i < length ps
  pub free : is_unused (at ps i).state ≡ true
  pub before : (j : ℕ) → j < i → is_unused (at ps j).state ≡ false

find_unused_from :
    (ps : List Proc) (i k : ℕ)
    → find_unused ps i ≡ some k
    → (j : ℕ) × (k ≡ i + j) × FirstUnused ps j
unfolding find_unused
find_unused_from [] i k e = cc
find_unused_from (p ∷ ps) i k e = elim (Bool-cases (is_unused p.state)) [
  | inl free ↦ (
    0,
    ground arith,
    record { inside = omega arith; free = free; before = λ j lt. absurd (omega arith) },
  )
  | inr taken ↦
      let (j, at_, first) = find_unused_from ps (i + 1) k (rw taken at e) in
      (suc j, omega arith, cons_first taken first)
]
  where
    cons_first :
        is_unused p.state ≡ false → {j : ℕ} → FirstUnused ps j → FirstUnused (p ∷ ps) (suc j)
    cons_first taken f = record {
      inside = omega (arith, f.inside);
      free = f.free;
      before = elim [ zero ↦ λ lt. taken | suc m ↦ λ lt. f.before m (omega arith) ];
    }

pub find_unused_lem : (ps : List Proc) {i : ℕ} → find_unused ps 0 ≡ some i → FirstUnused ps i
find_unused_lem ps {i} e =
    let (j, at_, first) = find_unused_from ps 0 i e in
    let same : i ≡ j = omega arith in rw same first

module _ {ps : List Proc} {n init i : ℕ} (s : IsSound ps n init) where
  take-Fits :
      FirstUnused ps i
      → n + 1 < 2 ^ 31
      → Fits ps n init ((n + 1) % 2 ^ 32) i (record (at ps i) { state = embryo; pid = n })
  take-Fits f few = record {
    below = omega (arith, s.size, f.inside);
    grows = omega arith;
    init_alive = λ e. absurd (ground (arith, s.init_alive, f.free));
    init_first = λ e. s.orphan i f.free;
    pid = λ u. (omega arith, inr (omega arith));
    orphan = λ u. s.orphan i f.free;
    not_self = s.not_self i;
    parent = s.parents i;
    childless = λ k e. absurd (ground (arith, s.parents k i e, f.free));
    reported = λ j e z. cc;
    may_wait = λ k e z. absurd (ground (arith, s.parents k i e, f.free));
  }

  module _ (born : (at ps i).state ≡ embryo) where
    born_inside : i < length ps
    born_inside = inside_of_used ps i (ground arith)

    -- an entry that is given up
    drop-Fits : (q : Proc) → q.state ≡ unused → q.parent ≡ none → Fits ps n init n i q
    drop-Fits q st par = record {
      below = omega (arith, s.size, born_inside);
      grows = omega arith;
      init_alive = λ e. absurd (ground (arith, s.init_alive));
      init_first = λ e. par;
      pid = λ u. absurd (ground arith);
      orphan = λ u. par;
      not_self = λ e. cc;
      parent = λ j e. cc;
      childless = λ k e. absurd (ground (arith, s.parents k i e));
      reported = λ j e z. cc;
      may_wait = λ k e z. absurd (ground (arith, s.parents k i e));
    }

    -- an entry that becomes a child of `cur`
    copy-Fits :
        (cur pgdir sz : ℕ)
        → is_alive (at ps cur).state ≡ true
        → Fits ps n init n i (record (at ps i) { pgdir = pgdir; sz = sz; parent = some cur })
    copy-Fits cur pgdir sz live = record {
      below = omega (arith, s.size, born_inside);
      grows = omega arith;
      init_alive = λ e. absurd (ground (arith, s.init_alive));
      init_first = λ e. absurd (ground (arith, s.init_alive));
      pid = λ u. ground (arith, s.fresh i);
      orphan = λ u. absurd (ground arith);
      not_self = λ e. ground arith;
      parent = λ j e. ground arith;
      childless = λ k e. absurd (ground (arith, s.parents k i e));
      reported = λ j e z. absurd (ground arith);
      may_wait = λ k e z. absurd (ground (arith, s.parents k i e));
    }

    publish-Fits : Fits ps n init n i (record (at ps i) { state = runnable })
    publish-Fits = record {
      below = omega (arith, s.size, born_inside);
      grows = omega arith;
      init_alive = λ e. refl;
      init_first = λ e. absurd (ground (arith, s.init_alive));
      pid = λ u. ground (arith, s.fresh i);
      orphan = λ u. cc;
      not_self = s.not_self i;
      parent = s.parents i;
      childless = λ k e. refl;
      reported = λ j e z. cc;
      may_wait = λ k e z. refl;
    }

pub take_eq :
    (t : Table)
    → (find_unused t.procs 0 ≡ none → take_entry t ≡ (none, t))
      × ((i : ℕ)
          → find_unused t.procs 0 ≡ some i
          → take_entry t ≡ (
            some i,
            record t {
              procs = set t.procs i (record (at t.procs i) { state = embryo; pid = t.nextpid });
              nextpid = (t.nextpid + 1) % 2 ^ 32;
            },
          ))
unfolding take_entry
take_eq t = (λ e. rw (e, take_entry) refl, λ i e. rw (e, take_entry) refl)

pub take_entry-IsSound :
    {t : Table} → t.nextpid + 1 < 2 ^ 31 → IsSoundTable t → IsSoundTable (take_entry t).1
take_entry-IsSound {t} few s = elim (Option-cases (find_unused t.procs 0)) [
  | inl e ↦ rw ((take_eq t).0 e) s
  | inr (i, e) ↦
      rw ((take_eq t).1 i e) (IsSound-set s (take-Fits s (find_unused_lem t.procs e) few))
]

module _ (i : ℕ) {t : Table} (born : (at t.procs i).state ≡ embryo) (s : IsSoundTable t) where
  -- an entry without a parent, as `take_entry` leaves it
  pub give_stack-IsSound :
      (kstack : ℕ) → (at t.procs i).parent ≡ none → IsSoundTable (give_stack kstack i t).1
  unfolding give_stack
  give_stack-IsSound kstack par = elim (Bool-cases (kstack == 0)) [
    | inl out ↦ rw out (IsSound-set s (drop-Fits s born _ refl par))
    | inr got ↦ rw got (
        IsSound-set s (
          same_Fits i (record (at t.procs i) { kstack = kstack }) s (born_inside s born) refl refl
            refl refl refl (λ k e z. absurd (ground (arith, s.parents k i e)))))
  ]

  pub fork_copy-IsSound :
      (cur pgdir : ℕ)
      → (at t.procs cur).state ≡ running
      → (at t.procs i).parent ≡ none
      → IsSoundTable (fork_copy cur i pgdir t).1
  unfolding fork_copy
  fork_copy-IsSound cur pgdir run par = elim (Bool-cases (pgdir == 0)) [
    | inl out ↦ rw out (IsSound-set s (drop-Fits s born _ refl par))
    | inr got ↦ rw got (IsSound-set s (copy-Fits s born cur pgdir _ (ground arith)))
  ]

  pub publish-IsSound : IsSoundTable (publish i t).1
  unfolding publish
  publish-IsSound = IsSound-set s (publish-Fits s born)
