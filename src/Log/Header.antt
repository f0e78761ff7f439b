-- ===== src/Log/Header.antt =====
-- The header block: what write_head puts there, read_head reads back.
use course_work_sem.Base.{
  ℕ, ◌+◌, ◌<◌, ◌≤◌, ◌≡◌, refl, ap₂, ◌∙◌, List, [], ◌∷◌, arith, length, get_or, set, length-set,
  get_or-set_self, get_or-set_ne,
}
use course_work_sem.Log.{Block, read_words, put_words, head_block}

put_words-before :
    (d : Block) (i j : ℕ) (bs : List ℕ) → j < i → get_or (put_words d i bs) j 0 ≡ get_or d j 0
unfolding put_words
put_words-before d i j [] h = refl
put_words-before d i j (b ∷ bs) h =
    put_words-before (set d i b) (i + 1) j bs (omega arith) ∙ get_or-set_ne d i j b 0 (omega arith)

read_words-put_words :
    (d : Block) (i : ℕ) (bs : List ℕ)
    → i + length bs ≤ length d
    → read_words (put_words d i bs) i (length bs) ≡ bs
unfolding read_words put_words
read_words-put_words d i [] h = refl
read_words-put_words d i (b ∷ bs) h =
    ap₂ ◌∷◌
      (put_words-before (set d i b) (i + 1) i bs (omega arith)
        ∙ get_or-set_self d i b 0 (omega arith))
      (read_words-put_words (set d i b) (i + 1) bs (omega (arith, length-set d i b)))

-- the count in the first word of a header block
abbrev pub head_count : Block → ℕ
head_count d = get_or d 0 0

-- A header that `write_head` has put into a block with room for it reads back as the same list of
-- logged blocks.
pub read-head_block :
    (d : Block) (lh : List ℕ)
    → length lh < length d
    → (head_count (head_block d lh) ≡ length lh)
      × (read_words (head_block d lh) 1 (head_count (head_block d lh)) ≡ lh)
unfolding head_block
read-head_block d lh h =
    let n =
      put_words-before (set d 0 (length lh)) 1 0 lh (omega arith)
      ∙ get_or-set_self d 0 (length lh) 0 (omega arith) in
    (
      n,
      rw n (
          read_words-put_words (set d 0 (length lh)) 1 lh
            (omega (arith, length-set d 0 (length lh)))),
    )

-- an empty log, also over a block that holds nothing
pub head_count-nil : (d : Block) → head_count (head_block d []) ≡ 0
unfolding head_block put_words
head_count-nil [] = refl
head_count-nil (x ∷ d) = refl
