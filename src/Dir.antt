-- ===== src/Dir.antt =====
-- COL331/HW1/xv6/fs.c, directories and path names. A directory is a file of entries of 16 bytes: an
-- inode number and a name, which ends before its 14 bytes do or fills them. A C string is the list of its
-- characters without the NUL. `none` is the null pointer; a panic of a call, or a call of a device's
-- function, which no directory has, is `panics`.
pub mod Lookup
pub mod Found
pub mod Link
pub mod Insert
pub mod Agree
pub mod Walk
mod Tests
use course_work_sem.Base.{
  ℕ, zero, suc, ◌+◌, ◌-◌, ◌*◌, ◌/◌, ◌%◌, ◌^◌, Bool, true, false, not, ◌&&◌, ◌||◌, Option, none,
  some, ltb, leb, ◌==◌, if◌then◌else◌, List, [], ◌∷◌, ◌++◌, length, take, drop, get_or, replicate,
  ℤ, pos, negsuc, sub_ℕ, first, rest,
}
use course_work_sem.Inode.{
  Inode, readi, writei, ReadOut, read, read_fails, read_device, read_panics, WriteOut, written,
  write_fails, write_device, write_panics, t_dir,
}
use course_work_sem.Icache.{
  Cache, Run, ret, sleeps, panics, Action, pure, panic, ◌>>=◌, ◌>>◌, set_inode, iget, idup, ilock,
  iunlock, iput, iunlockput,
}
use course_work_sem.Paths.{skipelem, dirsiz, slash}

-- `strncmp(s, t, n)`
unfoldable pub strncmp : ℕ → List ℕ → List ℕ → ℤ
strncmp zero s t = pos 0
strncmp (suc n) s t =
    if not (first s == 0) && (first s == first t)
    then strncmp n (rest s) (rest t)
    else sub_ℕ (first s) (first t)

abbrev pub namecmp : List ℕ → List ℕ → ℤ
namecmp s t = strncmp dirsiz s t

abbrev pub is_zero : ℤ → Bool
is_zero (pos n) = n == 0
is_zero (negsuc n) = false

-- the fields of a `struct dirent` from its bytes, and its bytes
unfoldable pub de_inum : List ℕ → ℕ
de_inum de = get_or de 0 0 + 256 * get_or de 1 0

abbrev pub de_name : List ℕ → List ℕ
de_name de = drop 2 de

-- `strncpy(de.name, name, DIRSIZ)` and `de.inum = inum`
abbrev pub dirent : List ℕ → ℕ → List ℕ
dirent name inum = inum % 256 ∷ inum / 256 % 256 ∷ take dirsiz (name ++ replicate dirsiz 0)

-- an entry in use with the name
unfoldable pub is_match : List ℕ → List ℕ → Bool
is_match name de = not (de_inum de == 0) && is_zero (namecmp name (de_name de))

-- `is_device` says which devices have a read function, and a write function.
module _ (is_device : ℕ → Bool) where
  -- `readi(dp, (char*)&de, off, sizeof(de))`, which has to return 16
  unfoldable pub read_dirent : ℕ → ℕ → Action (List ℕ)
  read_dirent k off c = elim (readi is_device (c.inode k) off 16 c.fs) [
    | read de ip fs ↦
        if length de == 16 then ret (de, record (set_inode k ip c) { fs = fs }) else panics
    | read_fails ↦ panics
    | read_device major ↦ panics
    | read_panics ↦ panics
  ]

  -- The loop of `dirlookup`, on fuel: the offset and the inode number of the entry.
  unfoldable pub find_name : ℕ → ℕ → List ℕ → ℕ → Action (Option (ℕ × ℕ))
  find_name zero k name off c = ret (none, c)
  find_name (suc f) k name off c =
      if not (ltb off (c.inode k).size) then ret (none, c) else elim (read_dirent k off c) [
        | panics ↦ panics
        | sleeps ↦ sleeps
        | ret (de, c') ↦
            let later = find_name f k name (off + 16) c' in
            if is_match name de then ret (some (off, de_inum de), c') else later
      ]

  -- The result is the entry's offset, for `*poff`, and the slot of its inode.
  unfoldable pub dirlookup : ℕ → List ℕ → Action (Option (ℕ × ℕ))
  unfolding find_name
  dirlookup k name c =
      if not ((c.inode k).itype == t_dir)
      then panics
      else elim (find_name (c.inode k).size k name 0 c) [
        | panics ↦ panics
        | sleeps ↦ sleeps
        | ret (none, c') ↦ ret (none, c')
        | ret (some (off, inum), c') ↦ (iget (c'.inode k).dev inum >>= λ j. pure (some (off, j))) c'
      ]

  -- The loop of `dirlink`, on fuel: the offset of an empty entry, or the end.
  unfoldable pub find_empty : ℕ → ℕ → ℕ → Action ℕ
  find_empty zero k off c = ret (off, c)
  find_empty (suc f) k off c =
      if not (ltb off (c.inode k).size) then ret (off, c) else elim (read_dirent k off c) [
        | panics ↦ panics
        | sleeps ↦ sleeps
        | ret (de, c') ↦
            let later = find_empty f k (off + 16) c' in
            if de_inum de == 0 then ret (off, c') else later
      ]

  unfoldable pub write_dirent : ℕ → List ℕ → ℕ → Action Unit
  write_dirent k de off c = elim (writei is_device (c.inode k) de off c.fs) [
    | written n ip fs ↦ if n == 16 then ret (tt, record (set_inode k ip c) { fs = fs }) else panics
    | write_fails ↦ panics
    | write_device major ↦ panics
    | write_panics ↦ panics
  ]

  -- `true` for 0, `false` for -1
  unfoldable pub dirlink : ℕ → List ℕ → ℕ → Action Bool
  unfolding dirlookup find_empty write_dirent
  dirlink k name inum c = elim (dirlookup k name c) [
    | panics ↦ panics
    | sleeps ↦ sleeps
    | ret (some (off, j), c') ↦ (iput j >>= λ u. pure false) c'
    | ret (none, c') ↦
        (find_empty (c'.inode k).size k 0 >>= λ off.
        write_dirent k (dirent name inum) off >>= λ u. pure true)
          c'
  ]

  abbrev pub is_end : List ℕ → Bool
  is_end path = first path == 0

  -- The body of the loop of `namex`, with what `go` does from the next inode on.
  unfoldable pub walk_element :
      Bool
      → ℕ
      → List ℕ
      → List ℕ
      → (ℕ → List ℕ → Action (Option (ℕ × List ℕ)))
      → Action (Option (ℕ × List ℕ))
  walk_element parent ip name path go c = elim (ilock ip c) [
    | panics ↦ panics
    | sleeps ↦ sleeps
    | ret (u, c') ↦
        if not ((c'.inode ip).itype == t_dir)
        then (iunlockput ip >>= λ v. pure none) c'
        else if parent && is_end path
        then (iunlock ip >>= λ v. pure (some (ip, name))) c'
        else elim (dirlookup ip name c') [
          | panics ↦ panics
          | sleeps ↦ sleeps
          | ret (none, c'') ↦ (iunlockput ip >>= λ v. pure none) c''
          | ret (some (off, next), c'') ↦ (iunlockput ip >>= λ v. go next name) c''
        ]
  ]

  -- The loop of `namex`, on fuel: the slot of the inode, and the last name.
  unfoldable pub walk : ℕ → Bool → List ℕ → ℕ → List ℕ → Action (Option (ℕ × List ℕ))
  walk zero parent path ip name c = ret (none, c)
  walk (suc f) parent path ip name c = elim (skipelem path) [
    | none ↦ if parent then (iput ip >>= λ u. pure none) c else ret (some (ip, name), c)
    | some (name', path') ↦ walk_element parent ip name' path' (walk f parent path') c
  ]

  abbrev pub rootdev : ℕ
  rootdev = 1

  abbrev pub rootino : ℕ
  rootino = 1

  -- `cwd` is `proc->cwd`.
  unfoldable pub namex : List ℕ → Bool → ℕ → Action (Option (ℕ × List ℕ))
  unfolding walk
  namex path parent cwd = (if first path == slash then iget rootdev rootino else idup cwd) >>= λ ip.
      walk (suc (length path)) parent path ip []

  unfoldable pub namei : List ℕ → ℕ → Action (Option ℕ)
  namei path cwd =
      namex path false cwd >>= λ r. elim r [ none ↦ pure none | some (ip, name) ↦ pure (some ip) ]

  unfoldable pub nameiparent : List ℕ → ℕ → Action (Option (ℕ × List ℕ))
  nameiparent path cwd = namex path true cwd
