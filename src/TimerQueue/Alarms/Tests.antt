-- ===== src/TimerQueue/Alarms/Tests.antt =====
-- Runs of the alarms of src/kernel/scheduler.c with two processes, of which one repeats.
use adr_os.Prelude.{
  ℕ, ◌+◌, ◌≤◌, ◌<◌, ◌≡◌, ◌^◌, ◌-◌, suc, refl, true, none, some, List, [], ◌∷◌, ◌++◌, arith,
  if◌then◌else◌, ◌==◌, update, subst,
}
use adr_os.Links.{Links, mem, without, link, unlink, set_next, set_prev}
use adr_os.TimerQueue.{init, address_limit, insert, remove, walk, put_first, put_behind, take_out}
use adr_os.TimerQueue.Sorted.{Sorted, insert_before, init-Holds}
use adr_os.TimerQueue.Alarms.{Alarms, fire, ring_alarms, process_alarm_set}
use adr_os.TimerQueue.Alarms.Sorting.{InOrder}
use adr_os.TimerQueue.Alarms.Ring.{Rung}
use adr_os.TimerQueue.Alarms.Loop.{ring_alarms-Rung}
use adr_os.TimerQueue.Alarms.Forever.{ring_alarms-starves}
use adr_os.TimerQueue.Alarms.Setting.{process_alarm_set-InOrder, waiting_after}

abbrev memory : Links
memory = record { next = λ p. 7; prev = λ p. 9 }

-- process 200 repeats every 10 ticks, 300 once
abbrev none_set : Alarms
none_set = record {
  queue = init memory (λ p. 0);
  interval = λ p. if p == 200 then 10 else 0;
  pending = λ p. 0;
}

abbrev one_set : Alarms
one_set = (process_alarm_set 300 90 none_set).1

abbrev two_set : Alarms
two_set = (process_alarm_set 200 50 one_set).1

-- what the tests run
code : ℕ
unfolding init insert walk put_first put_behind remove take_out insert_before mem Sorted without
    fire ring_alarms process_alarm_set link unlink set_next set_prev
code = 0

nobody : InOrder none_set.queue []
unfolding code
nobody = record { holds = init-Holds memory (λ p. 0); sorted = tt }

first : InOrder one_set.queue (waiting_after 300 90 none_set [])
first = (process_alarm_set-InOrder 300 90 none_set [] nobody (omega arith) (omega arith)).1

process_alarm_set-InOrder_example :
    ((process_alarm_set 200 50 one_set).0 ≡ one_set.queue.tick 200)
    × InOrder two_set.queue (waiting_after 200 50 one_set (waiting_after 300 90 none_set []))
    × (two_set.queue.tick ≡ update one_set.queue.tick 200 50)
process_alarm_set-InOrder_example =
    process_alarm_set-InOrder 200 50 one_set (waiting_after 300 90 none_set []) first (omega arith)
      (omega arith)

in_queue : waiting_after 200 50 one_set (waiting_after 300 90 none_set []) ≡ 200 ∷ 300 ∷ []
unfolding code
in_queue = refl

both : InOrder two_set.queue (200 ∷ 300 ∷ [])
both = subst (InOrder two_set.queue) in_queue process_alarm_set-InOrder_example.1

-- at tick 60 the first has rung and waits for tick 70
rings_once : (ring_alarms 3 60 two_set) ≡ some (fire 60 200 two_set)
unfolding code
rings_once = refl

again_at : (fire 60 200 two_set).queue.tick 200 ≡ 70
unfolding code
again_at = refl

short : (z : ℕ) → 60 + two_set.interval z < 2 ^ 32
unfolding code
short z = ground arith

ring_alarms-Rung_example :
    (out : List ℕ) × (left : List ℕ) × (a' : Alarms) × (200 ∷ 300 ∷ [] ≡ out ++ left)
    × ((z : ℕ) → mem z out ≡ true → two_set.queue.tick z ≤ 60)
    × ((z : ℕ) → mem z left ≡ true → 60 < two_set.queue.tick z)
    × (ring_alarms (suc address_limit) 60 two_set ≡ some a')
    × Rung 60 two_set out left a'
ring_alarms-Rung_example = ring_alarms-Rung 60 two_set (200 ∷ 300 ∷ []) both (λ z m d. short z)

-- the same with the longest interval that fits in 32 bits
abbrev long : Alarms
long = record two_set { interval = λ p. 2 ^ 32 - 1 }

listed : mem 200 (200 ∷ 300 ∷ []) ≡ true
unfolding code
listed = refl

due : long.queue.tick 200 ≤ 60
unfolding code
due = omega arith

ring_alarms-starves_example : ring_alarms 1_000_000 60 long ≡ none
ring_alarms-starves_example =
    ring_alarms-starves 1_000_000 60 200 long (200 ∷ 300 ∷ []) both listed due (omega arith)
      (omega arith)
