-- ===== src/TimerQueue/Tests.antt =====
-- Runs of the sleep queue with two processes, and its theorems there.
use adr_os.Prelude.{ℕ, ◌≡◌, refl, false, List, [], ◌∷◌, arith, if◌then◌else◌, ◌==◌}
use adr_os.Links.{Links, null, mem, link, unlink, set_next, set_prev}
use adr_os.TimerQueue.{
  TimerQueue, init, insert, remove, expire, walk, put_first, put_behind, take_out,
}
use adr_os.TimerQueue.Sorted.{Holds, insert_before, init-Holds}
use adr_os.TimerQueue.Insert.{insert-Holds}

abbrev memory : Links
memory = record { next = λ p. 7; prev = λ p. 9 }

abbrev time : ℕ → ℕ
time p = if p == 200 then 50 else 90

abbrev none_sleep : TimerQueue
none_sleep = init memory time

abbrev one_sleeps : TimerQueue
one_sleeps = insert 300 none_sleep

abbrev two_sleep : TimerQueue
two_sleep = insert 200 one_sleeps

abbrev in_queue : List ℕ
in_queue = insert_before one_sleeps.tick 200 (insert_before none_sleep.tick 300 [])

-- what the tests run
code : ℕ
unfolding init insert walk put_first put_behind remove take_out expire insert_before mem link unlink
    set_next set_prev
code = 0

queued_order : in_queue ≡ 200 ∷ 300 ∷ []
unfolding code
queued_order = refl

not_asleep : mem 300 [] ≡ false
unfolding code
not_asleep = refl

one_asleep : Holds one_sleeps (insert_before none_sleep.tick 300 [])
one_asleep =
    insert-Holds none_sleep 300 [] (init-Holds memory time) (omega arith) (omega arith) not_asleep

still_awake : mem 200 (insert_before none_sleep.tick 300 []) ≡ false
unfolding code
still_awake = refl

insert-Holds_example : Holds (insert 200 one_sleeps) in_queue
insert-Holds_example =
    insert-Holds one_sleeps 200 (insert_before none_sleep.tick 300 []) one_asleep (omega arith)
      (omega arith) still_awake

-- at tick 60 one of the two is taken off
first_expires : (expire 3 60 two_sleep).0 ≡ 200 ∷ []
unfolding code
first_expires = refl

removed_last : (remove 300 two_sleep).links.next 200 ≡ null
unfolding code
removed_last = refl
