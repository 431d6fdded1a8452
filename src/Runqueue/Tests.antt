-- ===== src/Runqueue/Tests.antt =====
-- Runs of the runqueues with one process, and their theorems there.
use adr_os.Prelude.{ℕ, ◌≡◌, refl, true, List, [], arith}
use adr_os.Links.{Links, mem}
use adr_os.Runqueue.{
  Runqueues, init, init_pair, rq_enqueue, rq_dequeue, rq_pick_next, front, bsf32, ctz_from,
}
use adr_os.Runqueue.Holds.{Holds, init-Holds}
use adr_os.Runqueue.Enqueue.{appended, WaitsNot, rq_enqueue-Holds}
use adr_os.Runqueue.Dequeue.{removed, rq_dequeue-Holds}
use adr_os.Runqueue.Pick.{Picked, rq_pick_next-Picked}

abbrev memory : Links
memory = record { next = λ p. 7; prev = λ p. 9 }

abbrev nowhere : ℕ → ℕ → List ℕ
nowhere s k = []

abbrev one_waits : Runqueues
one_waits = rq_enqueue 0 16 100 (init memory)

abbrev two_wait : Runqueues
two_wait = rq_enqueue 0 3 200 one_waits

-- what the tests run
code : ℕ
unfolding init init_pair rq_enqueue rq_dequeue rq_pick_next front bsf32 ctz_from mem appended
    WaitsNot
code = 0

-- the better priority first
picks_200 : (rq_pick_next (init_pair 0) two_wait).0 ≡ 200
unfolding code
picks_200 = refl

-- the active store of CPU 1 is store 2: nothing waits there
picks_none : (rq_pick_next (init_pair 1) two_wait).0 ≡ 0
unfolding code
picks_none = refl

out_of_nothing : WaitsNot nowhere 100
unfolding code
out_of_nothing s k = refl

rq_enqueue-Holds_example : Holds (rq_enqueue 0 16 100 (init memory)) (appended nowhere 0 16 100)
rq_enqueue-Holds_example =
    rq_enqueue-Holds (init memory) nowhere 0 16 100 (init-Holds memory) (omega arith) out_of_nothing
      (omega arith)

one_held : Holds one_waits (appended nowhere 0 16 100)
one_held =
    rq_enqueue-Holds (init memory) nowhere 0 16 100 (init-Holds memory) (omega arith) out_of_nothing
      (omega arith)

hundred_waits : mem 100 (appended nowhere 0 16 100 0 16) ≡ true
unfolding code
hundred_waits = refl

rq_dequeue-Holds_example :
    Holds (rq_dequeue 0 16 100 one_waits) (removed (appended nowhere 0 16 100) 0 16 100)
rq_dequeue-Holds_example =
    rq_dequeue-Holds one_waits (appended nowhere 0 16 100) 0 16 100 one_held (omega arith)
      hundred_waits

rq_pick_next-Picked_example :
    Picked
      (appended nowhere 0 16 100)
      (init_pair 0)
      (rq_pick_next (init_pair 0) one_waits).0
      (rq_pick_next (init_pair 0) one_waits).1
rq_pick_next-Picked_example =
    rq_pick_next-Picked (init_pair 0) one_waits (appended nowhere 0 16 100) one_held
