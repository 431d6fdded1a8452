-- ===== src/Ksem/Tests.antt =====
-- Two threads at a mutex: thread 0 takes it, thread 1 blocks, thread 0 hands it over.
use adr_os.Prelude.{ℕ, ◌≡◌, ◌≢◌, refl, arith, update}
use adr_os.Links.{mem, without}
use adr_os.Sched.{ProcState, running}
use adr_os.Ksem.{
  ksem_init, wait_begin, wait_end, find_waiter, still_waits, ksem_signal, taken, must_block,
}
use adr_os.Ksem.Threads.{System, Reach, start, step, take, block, outside, waiting, inside, Counted}
use adr_os.Ksem.Mutex.{Reach-Counted, Reach-exclusive}

abbrev all_run : ℕ → ProcState
all_run p = running

abbrev fresh : System
fresh = record { sem = ksem_init 1 all_run; phase = λ p. outside }

abbrev held : System
held = record { sem = (wait_begin 0 0 fresh.sem).1; phase = update fresh.phase 0 inside }

abbrev contended : System
contended = record { sem = (wait_begin 1 0 held.sem).1; phase = update held.phase 1 waiting }

-- what the tests run
code : ℕ
unfolding ksem_init wait_begin wait_end find_waiter still_waits ksem_signal mem without
code = 0

first_takes : (wait_begin 0 0 fresh.sem).0 ≡ taken
unfolding code
first_takes = refl

second_blocks : (wait_begin 1 0 held.sem).0 ≡ must_block
unfolding code
second_blocks = refl

-- the mutex is handed over without the count being raised
handed_over : (ksem_signal contended.sem).count ≡ 0
unfolding code
handed_over = refl

to_contended : Reach 2 1 contended
to_contended =
    step (step (start all_run) (take fresh 0 0 (omega arith) refl first_takes))
      (block held 1 0 (omega arith) refl second_blocks)

Reach-Counted_example : Counted 2 1 contended
Reach-Counted_example = Reach-Counted to_contended

holds_it : contended.phase 0 ≡ inside
holds_it = refl

Reach-exclusive_example : contended.phase 1 ≢ inside
Reach-exclusive_example =
    Reach-exclusive 0 1 to_contended (omega arith) (omega arith) (omega arith) holds_it
