-- ===== src/Kcond/Tests.antt =====
-- Two threads wait on a condition variable; the first was woken by a signal to its process.
use adr_os.Prelude.{ℕ, ◌≡◌, refl, true, false, [], ◌∷◌, update}
use adr_os.Links.{mem, without}
use adr_os.Sched.{ProcState, running, ready}
use adr_os.Ksem.{still_waits, find_waiter}
use adr_os.Kcond.{kcond_init, cond_begin, cond_end, kcond_signal, wake_all, kcond_broadcast}
use adr_os.Kcond.Threads.{System, Reach, start, step, wait, Waits, away, asleep}
use adr_os.Kcond.Wakeups.{Reach-Waits, Reach-wakes}

abbrev all_run : ℕ → ProcState
all_run p = running

abbrev fresh : System
fresh = record { cond = kcond_init all_run; place = λ p. away }

abbrev one_waits : System
one_waits = record { cond = (cond_begin 7 0 fresh.cond).1; place = update fresh.place 7 asleep }

abbrev two_wait : System
two_wait = record {
  cond = (cond_begin 9 50 one_waits.cond).1;
  place = update one_waits.place 9 asleep;
}

-- what the tests run
code : ℕ
unfolding cond_begin cond_end still_waits find_waiter kcond_signal wake_all kcond_broadcast mem
    without
code = 0

-- a signal skips the thread that something else has woken
skips_woken :
    (kcond_signal (record two_wait.cond { state = update two_wait.cond.state 7 ready })).waiters
    ≡ 7 ∷ []
unfolding code
skips_woken = refl

-- a thread whose time ran out is still listed, and fails
times_out : (cond_end 9 two_wait.cond).0 ≡ false
unfolding code
times_out = refl

to_two_wait : Reach two_wait
unfolding code
to_two_wait = step (step (start all_run) (wait fresh 7 0 refl refl)) (wait one_waits 9 50 refl refl)

sleeps : still_waits (two_wait.cond.state 9) ≡ true
unfolding code
sleeps = refl

Reach-Waits_example : Waits two_wait
Reach-Waits_example = Reach-Waits to_two_wait

Reach-wakes_example :
    ((kcond_broadcast two_wait.cond).state 9 ≡ ready)
    × ((kcond_broadcast two_wait.cond).waiters ≡ [])
    × ((w : ℕ) × (mem w two_wait.cond.waiters ≡ true)
        × (still_waits (two_wait.cond.state w) ≡ true)
        × (kcond_signal two_wait.cond ≡ record {
          waiters = without w two_wait.cond.waiters;
          state = update two_wait.cond.state w ready;
        }))
Reach-wakes_example = Reach-wakes 9 to_two_wait refl sleeps
