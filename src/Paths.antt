-- ===== src/Paths.antt =====
-- COL331/HW1/xv6/fs.c: `skipelem`, which takes path names apart. A path is the list of its characters
-- without the closing NUL.
pub mod Skip
mod Tests
use course_work_sem.Base.{
  ℕ, zero, suc, ◌+◌, Bool, true, false, not, ◌&&◌, Option, none, some, List, [], ◌∷◌, take, ◌==◌,
  if◌then◌else◌,
}

abbrev pub dirsiz : ℕ
dirsiz = 14

-- '/'
abbrev pub slash : ℕ
slash = 47

-- `while(*path == '/') path++`
pub skip_slashes : List ℕ → List ℕ
skip_slashes [] = []
skip_slashes (c ∷ cs) = if c == slash then skip_slashes cs else c ∷ cs

-- `while(*path != '/' && *path != 0) path++`: the characters passed and the rest
pub to_slash : List ℕ → List ℕ × List ℕ
to_slash [] = ([], [])
to_slash (c ∷ cs) =
    let (name, rest) = to_slash cs in if c == slash then ([], c ∷ cs) else (c ∷ name, rest)

-- The name that goes into the DIRSIZ bytes at `name`, and the rest of the path; `none` is the null
-- pointer.
pub skipelem : List ℕ → Option (List ℕ × List ℕ)
unfolding skip_slashes to_slash
skipelem path = elim (skip_slashes path) [
  | [] ↦ none
  | c ∷ cs ↦ let (name, rest) = to_slash (c ∷ cs) in some (take dirsiz name, skip_slashes rest)
]
