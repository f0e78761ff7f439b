-- ===== src/Inode/Write.antt =====
-- `writei` of fs.c: the file afterwards, against its bytes before.
use course_work_sem.Base.{
  ℕ, zero, suc, ◌+◌, ◌-◌, ◌*◌, ◌/◌, ◌%◌, ◌<◌, ◌≤◌, ◌≡◌, ◌≢◌, inl, inr, refl, ap, sym, subst, ◌∙◌,
  Option, none, some, arith, Option-cases, List, [], ◌∷◌, length, take, drop, min, store_at,
  store_at-take, length_parts, length-take, store_at_agree,
}
use course_work_sem.Disk.{Fs, bsize, log_write}
use course_work_sem.Inode.{Inode, ndirect, bmap, write_blocks}
use course_work_sem.Inode.Slots.{
  nslot, slot, slot_of, IsFile, file_byte, Frame, Frame-refl, Frame-trans, IsFull, IsFull-trans,
}
use course_work_sem.Inode.Map.{Mapped, MapOutcome, bmap_range}
use course_work_sem.Inode.Content.{stored-IsFile, stored-Frame, stored_chunk}

-- The file's bytes, up to the largest size of a file, are `m`.
abbrev pub HasBytes : Inode → Fs → (ℕ → ℕ) → Type 0
HasBytes ip fs m = (i : ℕ) → i < 71680 → file_byte ip fs i ≡ m i

abbrev pub StoreOutcome : ℕ → ℕ → Inode → Fs → ℕ → List ℕ → Option (Inode × Fs) → Type 0
StoreOutcome lo hi ip fs off xs none = IsFull lo hi ip fs
StoreOutcome lo hi ip fs off xs (some (ip', fs')) =
    IsFile ip' fs'
    × Frame lo hi ip fs ip' fs'
    × HasBytes ip' fs' (store_at off xs (file_byte ip fs))

write_blocks_nil : (f off : ℕ) (ip : Inode) (fs : Fs) → write_blocks f [] off ip fs ≡ some (ip, fs)
unfolding write_blocks
write_blocks_nil zero off ip fs = refl
write_blocks_nil (suc f) off ip fs = refl

abbrev chunk_size : ℕ → List ℕ → ℕ
chunk_size off xs = min (length xs) (bsize - off % bsize)

write_blocks_stuck :
    (f x : ℕ) (xs : List ℕ) (off : ℕ) (ip : Inode) (fs : Fs)
    → bmap ip (off / bsize) fs ≡ none
    → write_blocks (suc f) (x ∷ xs) off ip fs ≡ none
unfolding write_blocks
write_blocks_stuck f x xs off ip fs e = rw (e, write_blocks) refl

write_blocks_next :
    (f x : ℕ) (xs : List ℕ) (off : ℕ) (ip : Inode) (fs : Fs) (a : ℕ) (ip' : Inode) (fs' : Fs)
    → bmap ip (off / bsize) fs ≡ some (a, ip', fs')
    → write_blocks (suc f) (x ∷ xs) off ip fs
      ≡ write_blocks f
          (drop (chunk_size off (x ∷ xs)) (x ∷ xs))
          (off + chunk_size off (x ∷ xs))
          ip'
          (log_write a
            (store_at (off % bsize) (take (chunk_size off (x ∷ xs)) (x ∷ xs)) (fs'.disk a))
            fs')
unfolding write_blocks
write_blocks_next f x xs off ip fs a ip' fs' e = rw (e, write_blocks) refl

-- One chunk.
chunk_lem :
    (lo hi off : ℕ) (xs : List ℕ) (ip : Inode) (fs : Fs) (a : ℕ) (ip' : Inode) (fs' : Fs)
    → off < 71680
    → off % bsize + length xs ≤ bsize
    → Mapped lo hi ip fs (slot_of (off / bsize)) a ip' fs'
    → StoreOutcome lo hi ip fs off xs
        (some (ip', log_write a (store_at (off % bsize) xs (fs'.disk a)) fs'))
chunk_lem lo hi off xs ip fs a ip' fs' small fits got =
    let n = slot_of (off / bsize) in
    let n_fits : n < nslot = ground (arith, small) in
    let content : n ≢ ndirect = λ e. ground (arith, e) in
    let there : slot ip' fs' n ≢ 0 = λ z. got.there (sym got.here ∙ z) in
    let p = store_at (off % bsize) xs (fs'.disk a) in
    subst (λ b. StoreOutcome lo hi ip fs off xs (some (ip', log_write b p fs'))) got.here
      (
        stored-IsFile ip' fs' n p got.file n_fits content there,
        Frame-trans got.frame (stored-Frame ip' fs' n p got.file n_fits content there lo hi),
        λ i h.
            stored_chunk ip' fs' n p got.file n_fits content there off xs refl small fits
              (ap (λ b. store_at (off % bsize) xs (fs'.disk b)) (sym got.here)) i h
            ∙ store_at_agree off xs (file_byte ip' fs') (file_byte ip fs) 71680 got.bytes i h,
      )

StoreOutcome-trans :
    {lo hi : ℕ} {ip ip' : Inode} {fs fs' : Fs} (off : ℕ) (xs ys zs : List ℕ) (off' : ℕ)
    (out : Option (Inode × Fs))
    → ((m : ℕ → ℕ) → store_at off' ys (store_at off xs m) ≡ store_at off zs m)
    → StoreOutcome lo hi ip fs off xs (some (ip', fs'))
    → StoreOutcome lo hi ip' fs' off' ys out
    → StoreOutcome lo hi ip fs off zs out
StoreOutcome-trans off xs ys zs off' none parts (file, frame, bytes) full = IsFull-trans frame full
StoreOutcome-trans {ip} {ip'} {fs} {fs'} off xs ys zs off' (some (ip'', fs'')) parts
      (file, frame, bytes) (file', frame', bytes') =
    (
      file',
      Frame-trans frame frame',
      λ i h.
          bytes' i h
          ∙ store_at_agree off' ys (file_byte ip' fs') (store_at off xs (file_byte ip fs)) 71680
              bytes i h
          ∙ ap (λ q. q i) (parts (file_byte ip fs)),
    )

pub write_blocks_lem :
    (lo hi f : ℕ) (xs : List ℕ) (off : ℕ) (ip : Inode) (fs : Fs)
    → length xs ≤ f
    → off + length xs ≤ 71680
    → lo ≤ off / bsize
    → off + length xs ≤ hi * bsize + bsize
    → IsFile ip fs
    → StoreOutcome lo hi ip fs off xs (write_blocks f xs off ip fs)
write_blocks_lem lo hi f [] off ip fs fuel fits from to ok =
    rw (write_blocks_nil f off ip fs) (ok, Frame-refl lo hi ip fs, λ i h. refl)
write_blocks_lem lo hi zero (x ∷ xs) off ip fs fuel fits from to ok = absurd (omega arith)
write_blocks_lem lo hi (suc f) (x ∷ xs) off ip fs fuel fits from to ok =
    let mapped = bmap_range lo hi (off / bsize) ip fs ok (omega arith) from (omega arith) in
    elim (Option-cases (bmap ip (off / bsize) fs)) [
      | inl e ↦
          rw (write_blocks_stuck f x xs off ip fs e)
            (subst (MapOutcome lo hi ip fs (slot_of (off / bsize))) e mapped)
      | inr ((a, ip', fs'), e) ↦
          let got : Mapped lo hi ip fs (slot_of (off / bsize)) a ip' fs' =
            subst (MapOutcome lo hi ip fs (slot_of (off / bsize))) e mapped in
          let c = chunk_size off (x ∷ xs) in
          let front = take c (x ∷ xs) in
          let back = drop c (x ∷ xs) in
          let fs'' = log_write a (store_at (off % bsize) front (fs'.disk a)) fs' in
          let l : length front ≡ c = length-take c (x ∷ xs) (ground arith) in
          let both : length front + length back ≡ suc (length xs) = length_parts c (x ∷ xs) in
          let chunk : StoreOutcome lo hi ip fs off front (some (ip', fs'')) =
            chunk_lem lo hi off front ip fs a ip' fs' (omega arith) (ground (arith, l)) got in
          let rest : StoreOutcome lo hi ip' fs'' (off + c) back
              (write_blocks f back (off + c) ip' fs'') =
            write_blocks_lem lo hi f back (off + c) ip' fs'' (ground (arith, l, both, fuel))
              (ground (arith, l, both, fits)) (ground (arith, from)) (ground (arith, l, both, to))
              chunk.0 in
          let parts : (m : ℕ → ℕ)
              → store_at (off + c) back (store_at off front m) ≡ store_at off (x ∷ xs) m =
            λ m.
              subst (λ k. store_at (off + k) back (store_at off front m) ≡ store_at off (x ∷ xs) m)
                l (store_at-take c off (x ∷ xs) m) in
          rw (write_blocks_next f x xs off ip fs a ip' fs' e) (
            StoreOutcome-trans off front back (x ∷ xs) (off + c)
              (write_blocks f back (off + c) ip' fs'') parts chunk rest)
    ]
