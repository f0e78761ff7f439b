-- ===== src/Disk/Search.antt =====
-- The loops of `balloc` of fs.c: which bit of the free map they find.
use course_work_sem.Base.{
  ℕ, zero, suc, ◌+◌, ◌-◌, ◌/◌, ◌%◌, ◌<◌, ◌≤◌, ◌≡◌, inl, inr, refl, sym, subst, ◌∙◌, Bool, true,
  false, none, some, ltb, ◌==◌, Bytes, arith, Bool-cases, Option-cases,
}
use course_work_sem.Disk.{bpb, Fs, bblock, find_bit, block_bits, find_block, bit}

abbrev pub used : Fs → ℕ → Bool
used fs b = bit (fs.disk (bblock b fs.sb) (b % bpb / 8)) (b % bpb % 8)

find_bit-some :
    (n bi b size : ℕ) (p : Bytes) {r : ℕ}
    → find_bit n bi b size p ≡ some r
    → (bi ≤ r) × (r < bi + n) × (b + r < size) × (bit (p (r / 8)) (r % 8) ≡ false)
unfolding find_bit
find_bit-some zero bi b size p e = cc
find_bit-some (suc n) bi b size p {r = r} e = elim (Bool-cases (ltb (b + bi) size)) [
  | inr over ↦ absurd (ground (arith, e))
  | inl inside ↦ elim (Bool-cases (bit (p (bi / 8)) (bi % 8))) [
    | inl taken ↦
        let (low, high, fits, free) =
          find_bit-some n (bi + 1) b size p {r = r} (ground (arith, e)) in
        (omega arith, omega arith, fits, free)
    | inr free ↦ (ground (arith, e), ground (arith, e), ground (arith, e), ground (arith, e))
  ]
]

find_bit-none :
    (n bi b size : ℕ) (p : Bytes) (j : ℕ)
    → find_bit n bi b size p ≡ none
    → bi ≤ j
    → j < bi + n
    → b + j < size
    → bit (p (j / 8)) (j % 8) ≡ true
unfolding find_bit
find_bit-none zero bi b size p j e low high fits = absurd (omega arith)
find_bit-none (suc n) bi b size p j e low high fits =
    elim (Bool-cases (bit (p (bi / 8)) (bi % 8))) [
      | inr free ↦ absurd (ground (arith, e))
      | inl taken ↦ elim (Bool-cases (j == bi)) [
        | inl here ↦ ground arith
        | inr there ↦
            find_bit-none n (bi + 1) b size p j (ground (arith, e)) (ground arith) (omega arith)
              fits
      ]
    ]

-- The rounds of `find_block`.
find_block_over : (n b : ℕ) (fs : Fs) → ltb b fs.sb.size ≡ false → find_block (suc n) b fs ≡ none
unfolding find_block
find_block_over n b fs over = rw over refl

find_block_here :
    (n b bi : ℕ) (fs : Fs)
    → ltb b fs.sb.size ≡ true
    → block_bits b fs ≡ some bi
    → find_block (suc n) b fs ≡ some (b + bi)
unfolding find_block
find_block_here n b bi fs inside here = rw (inside, here) refl

find_block_next :
    (n b : ℕ) (fs : Fs)
    → ltb b fs.sb.size ≡ true
    → block_bits b fs ≡ none
    → find_block (suc n) b fs ≡ find_block n (b + bpb) fs
unfolding find_block
find_block_next n b fs inside here = rw (inside, here) refl

-- the bits of the group of blocks that starts at `b`
used_in_group :
    (b bi : ℕ) (fs : Fs)
    → b % bpb ≡ 0
    → bi < bpb
    → used fs (b + bi) ≡ bit (fs.disk (bblock b fs.sb) (bi / 8)) (bi % 8)
used_in_group b bi fs aligned small =
    let group : (b + bi) / bpb ≡ b / bpb = omega arith in
    let place : (b + bi) % bpb ≡ bi = omega arith in rw (group, place) refl

block_bits-some :
    (b : ℕ) (fs : Fs) {r : ℕ}
    → block_bits b fs ≡ some r
    → (r < bpb) × (b + r < fs.sb.size) × (bit (fs.disk (bblock b fs.sb) (r / 8)) (r % 8) ≡ false)
unfolding block_bits
block_bits-some b fs {r = r} e =
    let (low, high, fits, free) =
      find_bit-some bpb 0 b fs.sb.size (fs.disk (bblock b fs.sb)) {r = r} e in
    (omega (arith, high), fits, free)

block_bits-none :
    (b j : ℕ) (fs : Fs)
    → block_bits b fs ≡ none
    → j < bpb
    → b + j < fs.sb.size
    → bit (fs.disk (bblock b fs.sb) (j / 8)) (j % 8) ≡ true
unfolding block_bits
block_bits-none b j fs e low fits =
    find_bit-none bpb 0 b fs.sb.size (fs.disk (bblock b fs.sb)) j e (omega arith) (omega arith) fits

pub find_block-some :
    (n b : ℕ) (fs : Fs) {r : ℕ}
    → find_block n b fs ≡ some r
    → b % bpb ≡ 0
    → (r < fs.sb.size) × (used fs r ≡ false)
unfolding find_block
find_block-some zero b fs e aligned = cc
find_block-some (suc n) b fs {r = r} e aligned = elim (Bool-cases (ltb b fs.sb.size)) [
  | inr over ↦ absurd (cc (find_block_over n b fs over))
  | inl inside ↦ elim (Option-cases (block_bits b fs)) [
    | inl none_here ↦
        find_block-some n (b + bpb) fs {r = r} (sym (find_block_next n b fs inside none_here) ∙ e)
          (omega arith)
    | inr (bi, here) ↦
        let (low, fits, free) = block_bits-some b fs {r = bi} here in
        let same : b + bi ≡ r = cc (find_block_here n b bi fs inside here) in
        (
          omega arith,
          subst (λ c. used fs c ≡ false) same (used_in_group b bi fs aligned (omega arith) ∙ free),
        )
  ]
]

pub find_block-none :
    (n b : ℕ) (fs : Fs) (c : ℕ)
    → find_block n b fs ≡ none
    → b % bpb ≡ 0
    → fs.sb.size < b + n
    → b ≤ c
    → c < fs.sb.size
    → used fs c ≡ true
unfolding find_block
find_block-none zero b fs c e aligned fuel low high = absurd (omega arith)
find_block-none (suc n) b fs c e aligned fuel low high =
    let inside : ltb b fs.sb.size ≡ true = ground (arith, low, high) in
    elim (Option-cases (block_bits b fs)) [
      | inr (bi, here) ↦ absurd (cc (find_block_here n b bi fs inside here))
      | inl none_here ↦ elim (Bool-cases (ltb c (b + bpb))) [
        | inr later ↦
            find_block-none n (b + bpb) fs c (sym (find_block_next n b fs inside none_here) ∙ e)
              (omega arith) (omega arith) (ground arith) high
        | inl now ↦
            let in_group : c - b < bpb = ground arith in
            let there : b + (c - b) ≡ c = omega arith in
            subst (λ x. used fs x ≡ true) there
              (used_in_group b (c - b) fs aligned in_group
                ∙ block_bits-none b (c - b) fs none_here in_group (omega arith))
      ]
    ]
