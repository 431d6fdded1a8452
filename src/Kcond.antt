-- ===== src/Kcond.antt =====
-- The condition variable of src/kernel/sync.c: a list of waiters under a lock. Each section of a call
-- under `cv->lock` is one function; `kcond_wait` has two, around `kmutex_unlock`, `schedule` and
-- `kmutex_lock`. The states of processes and the search of a signal for a waiter are those of
-- module Ksem.
pub mod Threads
pub mod Waiters
pub mod Wakeups
mod Tests
use adr_os.Prelude.{
  ℕ, Bool, true, false, none, some, List, [], ◌∷◌, ◌++◌, if◌then◌else◌, ltb, leb, update, length,
}
use adr_os.Links.{mem, without}
use adr_os.Sched.{ProcState, ready, blocked, sleeping}
use adr_os.Ksem.{still_waits, find_waiter}

-- `KCOND_MAX_WAITERS`
abbrev pub max_sleepers : ℕ
max_sleepers = 64

-- A condition variable, and the states of the processes. The array of waiters up to `nwaiters` is a
-- list; it holds no NULL, since `kcond_wait` fails without a current process.
pub record Kcond : Type 0 where
  pub waiters : List ℕ
  pub state : ℕ → ProcState

-- `kcond_init`
abbrev pub kcond_init : (ℕ → ProcState) → Kcond
kcond_init state = record { waiters = []; state = state }

-- The first section of `kcond_wait`, by the current process `p`. False is a full list, on which the
-- call fails and keeps the mutex.
unfoldable pub cond_begin : ℕ → ℕ → Kcond → Bool × Kcond
cond_begin p timeout_ms cv = if leb max_sleepers (length cv.waiters) then (false, cv) else (
  true,
  record {
    waiters = cv.waiters ++ p ∷ [];
    state = update cv.state p (if ltb 0 timeout_ms then sleeping else blocked);
  },
)

-- The second section, with the mutex held again: a process that is still listed leaves the list,
-- and its call fails. True is success.
unfoldable pub cond_end : ℕ → Kcond → Bool × Kcond
cond_end p cv =
    (if mem p cv.waiters then false else true, record cv { waiters = without p cv.waiters })

-- `kcond_signal`, up to `sched_enqueue_ready`
unfoldable pub kcond_signal : Kcond → Kcond
kcond_signal cv = elim (find_waiter cv.state cv.waiters) [
  | none ↦ cv
  | some p ↦ (record { waiters = without p cv.waiters; state = update cv.state p ready })
]

-- the loop of `kcond_broadcast`
unfoldable pub wake_all : List ℕ → (ℕ → ProcState) → ℕ → ProcState
wake_all [] state = state
wake_all (p ∷ ps) state =
    wake_all ps (if still_waits (state p) then update state p ready else state)

-- `kcond_broadcast`, up to `sched_enqueue_ready`
unfoldable pub kcond_broadcast : Kcond → Kcond
kcond_broadcast cv = record { waiters = []; state = wake_all cv.waiters cv.state }
