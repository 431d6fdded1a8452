-- ===== src/Sched/Tests.antt =====
-- Runs of the scheduler: 100 runs on CPU 0 with its slice used up, 300 sleeps, 1 is the idle
-- process.
use adr_os.Prelude.{
  ℕ, ◌≡◌, refl, false, ◌&&◌, List, [], arith, if◌then◌else◌, ltb, ◌==◌, subst, sym,
}
use adr_os.Links.{Links, mem}
use adr_os.Runqueue.{init_pair}
use adr_os.TimerQueue.{TimerQueue, address_limit, insert}
use adr_os.TimerQueue.Sorted.{Sorted, insert_before, insert_before-Sorted}
use adr_os.TimerQueue.Insert.{insert-Holds, tick-insert}
use adr_os.Sched.{Sched, running, sleeping, is_ready, is_running, schedule, retire}
use adr_os.Sched.Valid.{Valid}
use adr_os.Sched.Retire.{Retired}
use adr_os.Sched.Switch.{Chosen, WaitsHere, IdleHome}
use adr_os.Sched.Schedule.{schedule-Chosen}
use adr_os.Runqueue
use adr_os.TimerQueue
use adr_os.Runqueue.Holds
use adr_os.TimerQueue.Sorted

abbrev memory : Links
memory = record { next = λ p. 7; prev = λ p. 9 }

abbrev pub nowhere : ℕ → ℕ → List ℕ
nowhere s k = []

abbrev time : ℕ → ℕ
time p = 90

abbrev none_sleep : TimerQueue
none_sleep = TimerQueue.init memory time

abbrev pub start : Sched
start = record {
  priority = λ p. 16;
  cpu_id = λ p. 0;
  time_slice = λ p. 0;
  state = λ p. if p == 100 then running else sleeping;
  pid = λ p. p;
  rqs = Runqueue.init memory;
  crq = init_pair;
  idle = λ cpu. 1;
  current = λ cpu. 100;
  sleep = insert 300 none_sleep;
  processes = [];
}

abbrev pub asleep : List ℕ
asleep = insert_before none_sleep.tick 300 []

-- what the tests read
code : ℕ
unfolding mem Sorted is_running is_ready WaitsHere IdleHome
code = 0

not_asleep : mem 300 [] ≡ false
unfolding code
not_asleep = refl

Sorted-empty : Sorted none_sleep.tick []
unfolding code
Sorted-empty = tt

pub start-Valid : Valid start nowhere asleep
unfolding code
start-Valid = record {
  rqs_hold = Holds.init-Holds memory;
  sleep_holds =
      insert-Holds none_sleep 300 [] (Sorted.init-Holds memory time) (omega arith) (omega arith)
        not_asleep;
  in_order =
      subst (λ f. Sorted f asleep) (sym (tick-insert 300 none_sleep))
        (insert_before-Sorted none_sleep.tick 300 [] Sorted-empty);
  at_priority = λ z s k m. absurd (ground (arith, m));
  priority_low = λ z. omega arith;
}

slice_gone : (is_running (start.state 100) && ltb 0 (start.time_slice 100)) ≡ false
unfolding code
slice_gone = refl

not_ready : WaitsHere start nowhere 0 100
unfolding code
not_ready r = absurd (ground (arith, r))

idle_out : IdleHome start nowhere 0
unfolding code
idle_out s k m = absurd (ground (arith, m))

schedule-Chosen_example :
    (kept : ℕ → ℕ → List ℕ) × (asleep' : List ℕ) × Retired 0 100 start nowhere asleep kept asleep'
    × (p : ℕ) × (lists' : ℕ → ℕ → List ℕ) × Chosen (retire 0 100 start) kept 0 p lists'
    × ((schedule 0 start).current 0 ≡ p)
    × ((schedule 0 start).state p ≡ running)
    × Valid (schedule 0 start) lists' asleep'
schedule-Chosen_example =
    schedule-Chosen 0 start nowhere asleep start-Valid (omega arith) (omega arith) slice_gone
      not_ready idle_out
