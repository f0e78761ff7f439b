-- ===== src/Kalloc/Tests.antt =====
-- Three pages above a small kernel: freed, handed out and written to.
use course_work_sem.Base.{ℕ, ◌+◌, ◌≡◌, ◌≢◌, refl, true, false, none, some, [], ◌∷◌, arith, update}
use course_work_sem.Kalloc.{Kmem, kfree, kalloc, freerange}
use course_work_sem.Kalloc.Chain.{IsPage, IsFreeList}
use course_work_sem.Kalloc.Range.{Freed, freerange_lem}
use course_work_sem.Kalloc.Owners.{Reach, start, alloc_step, Reach-kalloc}

-- the first address after the kernel
abbrev kernel_end : ℕ
kernel_end = 2147487744

abbrev page_a : ℕ
page_a = 2147491840

abbrev page_b : ℕ
page_b = 2147495936

abbrev empty_list : Kmem
empty_list = record { use_lock = false; freelist = 0; words = λ a. 0 }

abbrev two_pages : Kmem
two_pages = record { use_lock = false; freelist = page_b; words = update (λ a. 0) page_b page_a }

two_pages_free : IsFreeList kernel_end two_pages (page_b ∷ page_a ∷ [])
two_pages_free = (
  (refl, (refl, refl)),
  ((refl, omega arith, omega arith), refl, ((refl, omega arith, omega arith), refl, tt)),
)

kfree_odd : kfree kernel_end (page_a + 1) empty_list ≡ none
unfolding kfree
kfree_odd = refl

freerange_lem_example :
    Freed kernel_end page_a
      (page_b + 5000)
      []
      (freerange kernel_end (kernel_end + 1) (page_b + 5000) empty_list)
freerange_lem_example =
    freerange_lem kernel_end (kernel_end + 1) (page_b + 5000) page_a empty_list [] (omega arith)
      (refl, omega arith, omega arith) (refl, omega arith, omega arith, omega arith, λ x h. cc)
      (refl, tt)

kalloc_first : (kalloc two_pages).0 ≡ page_b
unfolding kalloc
kalloc_first = refl

one_handed_out :
    Reach kernel_end two_pages (kalloc two_pages).1 (update (λ v. false) (kalloc two_pages).0 true)
one_handed_out = alloc_step start (λ e. absurd (omega (arith, kalloc_first)))

Reach-kalloc_example :
    ((kalloc (kalloc two_pages).1).0 ≢ 0
      → IsPage kernel_end (kalloc (kalloc two_pages).1).0
        × (update (λ v. false) (kalloc two_pages).0 true (kalloc (kalloc two_pages).1).0 ≡ false))
    × ((v : ℕ)
        → update (λ w. false) (kalloc two_pages).0 true v ≡ true
        → (k' : Kmem) × (kfree kernel_end v (kalloc two_pages).1 ≡ some k'))
Reach-kalloc_example =
    Reach-kalloc kernel_end two_pages (page_b ∷ page_a ∷ []) (omega arith) two_pages_free
      one_handed_out
