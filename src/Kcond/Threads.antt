-- ===== src/Kcond/Threads.antt =====
-- The threads at a condition variable of src/kernel/sync.c, and how the sections of their calls
-- interleave.
use adr_os.Prelude.{ℕ, ◌≡◌, ◌≢◌, true, false, ◌≤◌, update, length}
use adr_os.Links.{mem}
use adr_os.Links.Segment.{Distinct}
use adr_os.Sched.{ProcState}
use adr_os.Ksem.{still_waits}
use adr_os.Kcond.{
  Kcond, max_sleepers, kcond_init, cond_begin, cond_end, kcond_signal, kcond_broadcast,
}

-- A thread is not in `kcond_wait`, sleeps between its first section and the end of `schedule`, or is
-- between `schedule` and its second section, where it takes the mutex again.
pub data Place : Type 0 where
  away asleep relocking : Place

pub record System : Type 0 where
  pub cond : Kcond
  pub place : ℕ → Place

-- One step. Any thread may signal or broadcast. `schedule` returns to a process that was made ready.
-- Between the steps the timer, signals, the scheduler and the calls of other objects change the
-- states of processes in any way but one: they do not put a process that has been woken in
-- `kcond_wait` back to sleep before it has returned from `schedule`.
pub data Step : System → System → Type 0 where
  wait :
      (s : System) (p t : ℕ)
      → s.place p ≡ away
      → (cond_begin p t s.cond).0 ≡ true
      → Step s (record { cond = (cond_begin p t s.cond).1; place = update s.place p asleep })
  resume :
      (s : System) (p : ℕ)
      → s.place p ≡ asleep
      → still_waits (s.cond.state p) ≡ false
      → Step s (record s { place = update s.place p relocking })
  leave :
      (s : System) (p : ℕ)
      → s.place p ≡ relocking
      → Step s (record { cond = (cond_end p s.cond).1; place = update s.place p away })
  signal : (s : System) → Step s (record s { cond = kcond_signal s.cond })
  broadcast : (s : System) → Step s (record s { cond = kcond_broadcast s.cond })
  elsewhere :
      (s : System) (state : ℕ → ProcState)
      → ((z : ℕ)
          → s.place z ≡ asleep
          → still_waits (s.cond.state z) ≡ false
          → still_waits (state z) ≡ false)
      → Step s (record s { cond = record s.cond { state = state } })

pub data Reach : System → Type 0 where
  start : (state : ℕ → ProcState) → Reach (record { cond = kcond_init state; place = λ p. away })
  step : {s s' : System} → Reach s → Step s s' → Reach s'

-- The waiters are different threads that are all in `kcond_wait`, at most as many as the array
-- holds, and whoever sleeps there is one of them.
pub record Waits (s : System) : Type 0 where
  pub few : length s.cond.waiters ≤ max_sleepers
  pub distinct : Distinct s.cond.waiters
  pub present : (z : ℕ) → mem z s.cond.waiters ≡ true → s.place z ≢ away
  pub reached :
      (z : ℕ)
      → s.place z ≡ asleep
      → still_waits (s.cond.state z) ≡ true
      → mem z s.cond.waiters ≡ true
