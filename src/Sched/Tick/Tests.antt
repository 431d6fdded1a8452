-- ===== src/Sched/Tick/Tests.antt =====
-- A tick of the timer: 100 runs with its virtual timer at 1 and an alarm that is due, 300 sleeps.
use adr_os.Prelude.{ℕ, false, ◌+◌, ◌≡◌, ◌≢◌, ◌^◌, ◌<◌, refl, some, List, [], ◌∷◌, arith}
use adr_os.Links.{mem}
use adr_os.TimerQueue.{TimerQueue, init}
use adr_os.TimerQueue.Sorted.{Sorted, init-Holds}
use adr_os.TimerQueue.Alarms.{Alarms, process_alarm_set}
use adr_os.TimerQueue.Alarms.Sorting.{InOrder}
use adr_os.TimerQueue.Alarms.Setting.{process_alarm_set-InOrder, waiting_after}
use adr_os.Sched.{Sched, is_running}
use adr_os.Sched.Valid.{Valid}
use adr_os.Sched.Tests.{start, nowhere, asleep, start-Valid}
use adr_os.Sched.Tick.{Itimer, Clock, runs, elapse, charge, process_wake_check}
use adr_os.Sched.Tick.Check.{Ticked, process_wake_check-Ticked}

abbrev none_set : Alarms
none_set = record {
  queue = init (record { next = λ p. 0; prev = λ p. 0 }) (λ p. 0);
  interval = λ p. 10;
  pending = λ p. 0;
}

abbrev one_set : Alarms
one_set = (process_alarm_set 100 50 none_set).1

abbrev alarmed : List ℕ
alarmed = waiting_after 100 50 none_set []

abbrev last_tick : Itimer
last_tick = record { value = λ p. 1; interval = λ p. 5 }

abbrev machine : Sched
machine = record start { processes = 100 ∷ 300 ∷ 1 ∷ [] }

abbrev clock : Clock
clock = record {
  sched = machine;
  alarms = one_set;
  utime = λ p. 0;
  virt = last_tick;
  prof = last_tick;
}

-- what the tests run
code : ℕ
unfolding runs is_running elapse charge mem Sorted process_alarm_set
code = 0

machine-Valid : Valid machine nowhere asleep
machine-Valid = record {
  rqs_hold = start-Valid.rqs_hold;
  sleep_holds = start-Valid.sleep_holds;
  in_order = start-Valid.in_order;
  at_priority = start-Valid.at_priority;
  priority_low = start-Valid.priority_low;
}

nobody : InOrder none_set.queue []
unfolding code
nobody = record {
  holds = init-Holds (record { next = λ p. 0; prev = λ p. 0 }) (λ p. 0);
  sorted = tt;
}

-- the running process is charged, and its virtual timer starts over
charged : charge 0 clock 100 ≡ 1
unfolding code
charged = refl

starts_over : (elapse 26 100 last_tick (λ p. 0)).0.value 100 ≡ 5
unfolding code
starts_over = refl

short : (z : ℕ) → 95 + one_set.interval z < 2 ^ 32
unfolding code
short z = omega arith

not_empty : machine.processes ≢ []
not_empty e = cc

process_wake_check-Ticked_example :
    (c' : Clock) × (process_wake_check 0 95 clock ≡ some c') × Ticked 0 95 clock asleep alarmed c'
process_wake_check-Ticked_example =
    process_wake_check-Ticked 0 95 clock nowhere asleep alarmed machine-Valid
      (process_alarm_set-InOrder 100 50 none_set [] nobody (omega arith) (omega arith)).1
      (λ z m d. short z) not_empty

-- nobody sleeps and no alarm is set
abbrev empty_queue : TimerQueue
empty_queue = record {
  head = 0;
  links = record { next = λ p. 0; prev = λ p. 0 };
  queued = λ p. false;
  tick = λ p. 0;
}

abbrev calm : Clock
calm = record clock {
  sched = record machine { sleep = empty_queue };
  alarms = record one_set { queue = empty_queue };
}
