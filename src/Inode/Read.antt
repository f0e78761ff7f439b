-- ===== src/Inode/Read.antt =====
-- The loop of `readi` of fs.c.
use course_work_sem.Base.{
  ℕ, zero, suc, ◌+◌, ◌-◌, ◌*◌, ◌/◌, ◌%◌, ◌<◌, ◌≤◌, ◌≡◌, ◌≢◌, inl, inr, refl, ap, sym, subst, ◌∙◌,
  false, Option, none, some, ◌==◌, arith, Option-cases, List, [], ◌∷◌, ◌++◌, length, min,
}
use course_work_sem.Disk.{Fs, bsize}
use course_work_sem.Inode.{Inode, bmap, read_blocks, bytes_at}
use course_work_sem.Inode.Slots.{
  slot, slot_of, IsFile, file_byte, Frame, Frame-refl, Frame-trans, IsFull, IsFull-trans,
}
use course_work_sem.Inode.Map.{Mapped, MapOutcome, bmap_range}
use course_work_sem.Inode.Write.{HasBytes}

pub bytes_at_same :
    (p q : ℕ → ℕ) (o o' n : ℕ)
    → ((k : ℕ) → k < n → p (o + k) ≡ q (o' + k))
    → bytes_at p o n ≡ bytes_at q o' n
bytes_at_same p q o o' zero same = refl
bytes_at_same p q o o' (suc n) same =
    let head_ : p o ≡ q o' = ground (arith, same 0) in
    let rest : bytes_at p (o + 1) n ≡ bytes_at q (o' + 1) n =
      bytes_at_same p q (o + 1) (o' + 1) n (λ k h. ground (arith, same (k + 1) (omega arith))) in
    rw (head_, rest) refl

bytes_at_parts :
    (p : ℕ → ℕ) (o n k : ℕ) → bytes_at p o n ++ bytes_at p (o + n) k ≡ bytes_at p o (n + k)
bytes_at_parts p o zero k =
    let e : o + 0 ≡ o = omega arith in let z : 0 + k ≡ k = omega arith in rw (e, z) refl
bytes_at_parts p o (suc n) k =
    let e : o + suc n ≡ o + 1 + n = omega arith in
    let s : suc n + k ≡ suc (n + k) = omega arith in
    rw (e, s) (ap (λ r. p o ∷ r) (bytes_at_parts p (o + 1) n k))

pub length-bytes_at : (p : ℕ → ℕ) (o n : ℕ) → length (bytes_at p o n) ≡ n
length-bytes_at p o zero = refl
length-bytes_at p o (suc n) = ap suc (length-bytes_at p (o + 1) n)

-- the bytes of a block that a file names
block_bytes :
    (ip : Inode) (fs : Fs) (off a k : ℕ)
    → slot ip fs (slot_of (off / bsize)) ≡ a
    → a ≢ 0
    → off % bsize + k < bsize
    → file_byte ip fs (off + k) ≡ fs.disk a (off % bsize + k)
unfolding file_byte
block_bytes ip fs off a k here there inside =
    let e : (off + k) / 512 ≡ off / 512 = omega arith in
    let r : (off + k) % 512 ≡ off % 512 + k = omega arith in rw (e, r, here) (ground (arith, there))

abbrev pub BlocksOutcome : ℕ → ℕ → Inode → Fs → ℕ → ℕ → Option (List ℕ × Inode × Fs) → Type 0
BlocksOutcome lo hi ip fs off n none = IsFull lo hi ip fs
BlocksOutcome lo hi ip fs off n (some (bytes, ip', fs')) =
    (bytes ≡ bytes_at (file_byte ip fs) off n)
    × IsFile ip' fs'
    × Frame lo hi ip fs ip' fs'
    × HasBytes ip' fs' (file_byte ip fs)

abbrev chunk_size : ℕ → ℕ → ℕ
chunk_size off n = min n (bsize - off % bsize)

read_blocks_nil : (f off : ℕ) (ip : Inode) (fs : Fs) → read_blocks f 0 off ip fs ≡ some ([], ip, fs)
unfolding read_blocks
read_blocks_nil zero off ip fs = refl
read_blocks_nil (suc f) off ip fs = refl

prefix_read : List ℕ → Option (List ℕ × Inode × Fs) → Option (List ℕ × Inode × Fs)
prefix_read front none = none
prefix_read front (some (rest, ip, fs)) = some (front ++ rest, ip, fs)

not_zero : (n : ℕ) → (suc n == 0) ≡ false
not_zero n = ground arith

read_blocks_stuck :
    (f n off : ℕ) (ip : Inode) (fs : Fs)
    → bmap ip (off / bsize) fs ≡ none
    → read_blocks (suc f) (suc n) off ip fs ≡ none
unfolding read_blocks
read_blocks_stuck f n off ip fs e = rw (e, read_blocks, not_zero n) refl

read_blocks_next :
    (f n off : ℕ) (ip : Inode) (fs : Fs) (a : ℕ) (ip' : Inode) (fs' : Fs)
    → bmap ip (off / bsize) fs ≡ some (a, ip', fs')
    → read_blocks (suc f) (suc n) off ip fs
      ≡ prefix_read
          (bytes_at (fs'.disk a) (off % bsize) (chunk_size off (suc n)))
          (read_blocks f (suc n - chunk_size off (suc n)) (off + chunk_size off (suc n)) ip' fs')
unfolding read_blocks prefix_read
read_blocks_next f n off ip fs a ip' fs' e =
    elim (Option-cases
      (read_blocks f (suc n - chunk_size off (suc n)) (off + chunk_size off (suc n)) ip' fs')) [
        | inl r ↦ rw (e, read_blocks, not_zero n) (rw r refl)
        | inr (v, r) ↦ rw (e, read_blocks, not_zero n) (rw r refl)
      ]

prefix_outcome :
    {lo hi : ℕ} {ip ip' : Inode} {fs fs' : Fs} (off m k n off' : ℕ) (front : List ℕ)
    (out : Option (List ℕ × Inode × Fs))
    → Frame lo hi ip fs ip' fs'
    → HasBytes ip' fs' (file_byte ip fs)
    → front ≡ bytes_at (file_byte ip fs) off m
    → off' ≡ off + m
    → m + k ≡ n
    → off + n ≤ 71680
    → BlocksOutcome lo hi ip' fs' off' k out
    → BlocksOutcome lo hi ip fs off n (prefix_read front out)
unfolding prefix_read
prefix_outcome off m k n off' front none frame bytes e o s fits full = IsFull-trans frame full
prefix_outcome {ip} {ip'} {fs} {fs'} off m k n off' front (some (rest, ip'', fs'')) frame bytes e o
      s fits (content, file, frame', bytes') =
    let later : bytes_at (file_byte ip' fs') off' k ≡ bytes_at (file_byte ip fs) (off + m) k =
      bytes_at_same (file_byte ip' fs') (file_byte ip fs) off' (off + m) k
        (λ j h. bytes (off' + j) (omega arith) ∙ ap (λ b. file_byte ip fs (b + j)) o) in
    (
      rw (e, content, later) (bytes_at_parts (file_byte ip fs) off m k)
          ∙ ap (bytes_at (file_byte ip fs) off) s,
      file,
      Frame-trans frame frame',
      λ i h. bytes' i h ∙ bytes i h,
    )

pub read_blocks_lem :
    (lo hi f n off : ℕ) (ip : Inode) (fs : Fs)
    → n ≤ f
    → off + n ≤ 71680
    → lo ≤ off / bsize
    → off + n ≤ hi * bsize + bsize
    → IsFile ip fs
    → BlocksOutcome lo hi ip fs off n (read_blocks f n off ip fs)
read_blocks_lem lo hi f zero off ip fs fuel fits from to ok =
    rw (read_blocks_nil f off ip fs) (refl, ok, Frame-refl lo hi ip fs, λ i h. refl)
read_blocks_lem lo hi zero (suc n) off ip fs fuel fits from to ok = absurd (omega arith)
read_blocks_lem lo hi (suc f) (suc n) off ip fs fuel fits from to ok =
    let mapped = bmap_range lo hi (off / bsize) ip fs ok (omega arith) from (omega arith) in
    elim (Option-cases (bmap ip (off / bsize) fs)) [
      | inl e ↦
          rw (read_blocks_stuck f n off ip fs e)
            (subst (MapOutcome lo hi ip fs (slot_of (off / bsize))) e mapped)
      | inr ((a, ip', fs'), e) ↦
          let got : Mapped lo hi ip fs (slot_of (off / bsize)) a ip' fs' =
            subst (MapOutcome lo hi ip fs (slot_of (off / bsize))) e mapped in
          let c = chunk_size off (suc n) in
          let front : bytes_at (fs'.disk a) (off % bsize) c ≡ bytes_at (file_byte ip fs) off c =
            bytes_at_same (fs'.disk a) (file_byte ip fs) (off % bsize) off c (λ k h.
              sym (block_bytes ip' fs' off a k got.here got.there (ground (arith, h)))
              ∙ got.bytes (off + k) (ground (arith, h, fits))) in
          let rest : BlocksOutcome lo hi ip' fs' (off + c) (suc n - c)
              (read_blocks f (suc n - c) (off + c) ip' fs') =
            read_blocks_lem lo hi f (suc n - c) (off + c) ip' fs' (ground (arith, fuel))
              (ground (arith, fits)) (ground (arith, from)) (ground (arith, to)) got.file in
          rw (read_blocks_next f n off ip fs a ip' fs' e) (
            prefix_outcome off c (suc n - c) (suc n) (off + c)
              (bytes_at (fs'.disk a) (off % bsize) c) (read_blocks f (suc n - c) (off + c) ip' fs')
              got.frame got.bytes front refl (ground arith) fits rest)
    ]
