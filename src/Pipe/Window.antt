-- ===== src/Pipe/Window.antt =====
-- The bytes that a pipe holds, oldest first.
use course_work_sem.Base.{
  ℕ, zero, suc, ◌+◌, ◌%◌, ◌^◌, ◌<◌, ◌≡◌, ◌≢◌, refl, ap, ◌∙◌, List, [], ◌∷◌, ◌++◌, arith, length,
  get_or, set, get_or-set_self, get_or-set_ne,
}
use course_work_sem.Pipe.{Pipe, pipesize, put, advance}
use course_work_sem.Pipe.Inv.{count, IsValid, count-put, count-advance}

-- the `n` bytes from counter `r` on
abbrev pub window : List ℕ → ℕ → ℕ → List ℕ
window buf r zero = []
window buf r (suc n) = get_or buf (r % pipesize) 0 ∷ window buf ((r + 1) % 2 ^ 32) n

abbrev pub contents : Pipe → List ℕ
contents p = window p.buf p.nread (count p)

pub length-window : (buf : List ℕ) (r n : ℕ) → length (window buf r n) ≡ n
length-window buf r zero = refl
length-window buf r (suc n) = ap suc (length-window buf ((r + 1) % 2 ^ 32) n)

-- A byte written just past a window extends it.
window-set :
    (buf : List ℕ) (x n r w : ℕ)
    → length buf ≡ pipesize
    → n < pipesize
    → r < 2 ^ 32
    → w ≡ (r + n) % 2 ^ 32
    → window (set buf (w % pipesize) x) r (suc n) ≡ window buf r n ++ (x ∷ [])
window-set buf x zero r w hl hn hr e =
    let same : w ≡ r = omega arith in
    rw (same, get_or-set_self buf (r % pipesize) x 0 (omega arith))
window-set buf x (suc n) r w hl hn hr e = rw (
  get_or-set_ne buf (w % pipesize) (r % pipesize) x 0 (omega arith),
  window-set buf x n ((r + 1) % 2 ^ 32) w hl (omega arith) (omega arith) (omega arith),
)

-- `put` appends its byte to a pipe that is not full.
pub contents-put :
    {p : Pipe} (x : ℕ)
    → IsValid p
    → count p ≢ pipesize
    → contents (put p x) ≡ contents p ++ (x ∷ [])
unfolding put
contents-put {p} x v h =
    ap (window _ p.nread) {y = suc (count p)} (omega (arith, count-put x v h))
    ∙ window-set p.buf x (count p) p.nread p.nwrite v.storage (omega (arith, v.bounded))
        v.nread_word (omega (arith, v.bounded, v.nread_word, v.nwrite_word))

-- `advance` drops the oldest byte of a pipe that is not empty.
pub contents-advance :
    {p : Pipe}
    → IsValid p
    → count p ≢ 0
    → contents p ≡ get_or p.buf (p.nread % pipesize) 0 ∷ contents (advance p)
unfolding advance
contents-advance {p} v h =
    ap (window p.buf p.nread) {y = suc (count (advance p))} (omega (arith, count-advance v h))
