-- ===== src/Bio/Tests.antt =====
-- Block 5 is read, written and released, and read again, over a disk of 100 blocks.
use course_work_sem.Base.{◌≡◌, refl, true, false, some, [], ◌∷◌, arith, update}
use course_work_sem.Bio.{
  Buf, Disk, Cache, done, sleeps, binit, binit_from, bread, bread_after, bwrite, brelse, bget,
  cached, recycle, mark_busy, assign, unlink, iderw,
}
use course_work_sem.Bio.View.{by_id}
use course_work_sem.Bio.Read.{ReadOutcome, bread_lem}
use course_work_sem.Bio.Release.{Released, brelse_lem}
use course_work_sem.Bio.Steps.{
  binit-IsCache, start, read_step, write_step, release_step, Reach, Reach-Holds, Reach-bread,
}

abbrev numbered : Disk
numbered k = k ∷ []

abbrev booted : Cache
booted = record { bufs = binit; disk = numbered; woken = [] }

abbrev buffer : Buf
buffer = record {
  id = 0;
  busy = true;
  valid = true;
  dirty = false;
  dev = 1;
  blockno = 5;
  bytes = 5 ∷ [];
}

abbrev changed : Buf
changed = record buffer { bytes = 77 ∷ [] }

abbrev reading : Cache
reading = record booted { bufs = assign buffer binit }

abbrev writing : Cache
writing = record { bufs = assign changed binit; disk = update numbered 5 (77 ∷ []); woken = [] }

reading_eq : bread 100 1 5 booted ≡ done buffer reading
unfolding bread bget bread_after iderw cached recycle assign binit binit_from
reading_eq = refl

writing_eq : bwrite 100 changed reading ≡ done changed writing
unfolding bwrite iderw assign binit binit_from
writing_eq = refl

reading-Reach : Reach 100 numbered reading numbered
reading-Reach = read_step 5 buffer start (omega arith) reading_eq

buffer_held : by_id 0 reading.bufs ≡ some buffer
unfolding by_id assign binit binit_from
buffer_held = refl

writing-Reach : Reach 100 numbered writing (update numbered 5 (77 ∷ []))
writing-Reach =
    write_step buffer changed changed reading-Reach
      (buffer_held, refl, refl, refl, refl, omega arith) writing_eq

second_sleeps : bread 100 1 5 writing ≡ sleeps 0
unfolding bread bget bread_after cached assign binit binit_from
second_sleeps = refl

bread_lem_example : ReadOutcome booted 5 (bread 100 1 5 booted)
bread_lem_example = bread_lem 100 5 booted (binit-IsCache numbered) (omega arith)

changed_held : by_id 0 writing.bufs ≡ some changed
unfolding by_id assign binit binit_from
changed_held = refl

brelse_lem_example :
    (b' : Buf) × (c' : Cache) × (brelse changed writing ≡ done b' c') × Released writing changed c'
brelse_lem_example =
    brelse_lem writing changed (Reach-Holds 100 numbered writing-Reach).0
      (changed_held, refl, ((λ a b d e. refl), (λ e. refl)))

abbrev released : Cache
released = record writing {
  bufs = record changed { busy = false } ∷ unlink 0 writing.bufs;
  woken = 0 ∷ [];
}

released_eq : brelse changed writing ≡ done (record changed { busy = false }) released
unfolding brelse unlink assign binit binit_from
released_eq = refl

released-Reach : Reach 100 numbered released (update numbered 5 (77 ∷ []))
released-Reach =
    release_step changed (record changed { busy = false }) writing-Reach
      (changed_held, refl, ((λ a b d e. refl), (λ e. refl))) released_eq

abbrev again : Cache
again = record released { bufs = mark_busy 1 5 released.bufs }

again_eq : bread 100 1 5 released ≡ done changed again
unfolding bread bget bread_after cached mark_busy unlink assign binit binit_from
again_eq = refl

Reach-bread_example : 77 ∷ [] ≡ update numbered 5 (77 ∷ []) 5
Reach-bread_example = Reach-bread 100 numbered {b = changed} 5 released-Reach (omega arith) again_eq
