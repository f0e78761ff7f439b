-- ===== src/Kalloc.antt =====
-- COL331/HW1/xv6/kalloc.c: the physical page allocator. The free list is threaded through the free
-- pages: the word at a page's first address is `r->next`. `end` is the first address after the
-- kernel, which the linker gives.
pub mod Chain
pub mod Range
pub mod Owners
mod Tests
use course_work_sem.Base.{
  ℕ, zero, suc, ◌+◌, ◌-◌, ◌*◌, ◌/◌, ◌%◌, ◌^◌, Bool, true, false, not, ◌&&◌, ◌||◌, Option, none,
  some, List, [], ◌∷◌, ltb, leb, ◌==◌, if◌then◌else◌, update,
}

abbrev pub pgsize : ℕ
pgsize = 4096

-- KERNBASE and PHYSTOP
abbrev pub kernbase : ℕ
kernbase = 2147483648

abbrev pub phystop : ℕ
phystop = 234881024

-- `v2p`, on 32-bit addresses
abbrev pub v2p : ℕ → ℕ
v2p v = (v + 2 ^ 32 - kernbase) % 2 ^ 32

-- PGROUNDUP
abbrev pub pg_round_up : ℕ → ℕ
pg_round_up a = (a + pgsize - 1) % 2 ^ 32 / pgsize * pgsize

-- `kmem`, and the words of memory; the null pointer is 0.
pub record Kmem : Type 0 where
  pub use_lock : Bool
  pub freelist : ℕ
  pub words : ℕ → ℕ

-- `memset(v, 1, PGSIZE)`, by words
abbrev pub fill_junk : ℕ → (ℕ → ℕ) → ℕ → ℕ
fill_junk v words a = if leb v a && ltb a (v + pgsize) then 16843009 else words a

-- `none` is the panic.
pub kfree : ℕ → ℕ → Kmem → Option Kmem
kfree end v k =
    if not (v % pgsize == 0) || ltb v end || leb phystop (v2p v)
    then none
    else some (record k { words = update (fill_junk v k.words) v k.freelist; freelist = v })

pub kalloc : Kmem → ℕ × Kmem
kalloc k =
    let r = k.freelist in if not (r == 0) then (r, record k { freelist = k.words r }) else (r, k)

-- The loop of `freerange` from `p`, on fuel; `none` is a panic, or the end of the fuel.
pub free_from : ℕ → ℕ → ℕ → ℕ → Kmem → Option Kmem
unfolding kfree
free_from zero end p vend k = none
free_from (suc n) end p vend k =
    if leb (p + pgsize) vend
    then elim (kfree end p k) [ none ↦ none | some k' ↦ free_from n end (p + pgsize) vend k' ]
    else some k

pub freerange : ℕ → ℕ → ℕ → Kmem → Option Kmem
unfolding free_from
freerange end vstart vend k = free_from (suc vend) end (pg_round_up vstart) vend k

pub kinit1 : ℕ → ℕ → ℕ → Kmem → Option Kmem
unfolding freerange
kinit1 end vstart vend k = freerange end vstart vend (record k { use_lock = false })

pub kinit2 : ℕ → ℕ → ℕ → Kmem → Option Kmem
unfolding freerange
kinit2 end vstart vend k = elim (freerange end vstart vend k) [
  | none ↦ none
  | some k' ↦ some (record k' { use_lock = true })
]
