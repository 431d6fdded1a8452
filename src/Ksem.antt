-- ===== src/Ksem.antt =====
-- src/kernel/sync.c: the kernel semaphore and the mutex made of it. A call of `ksem_wait_timeout`
-- that has to block runs `schedule` between its two sections under `s->lock`; each section is one
-- step here, so that other threads, the timer and signals may come in between.
pub mod Tokens
pub mod Threads
pub mod Steps
pub mod Mutex
mod Tests
use adr_os.Prelude.{
  ℕ, zero, suc, ◌+◌, ◌-◌, Bool, true, false, Option, none, some, List, [], ◌∷◌, ◌++◌, if◌then◌else◌,
  ltb, leb, ◌==◌, update, length,
}
use adr_os.Links.{mem, without}
use adr_os.Sched.{ProcState, ready, running, blocked, sleeping, zombie}

-- KSEM_MAX_WAITERS
abbrev pub max_waiters : ℕ
max_waiters = 64

-- A semaphore, and the states of the processes. The array of waiters up to `nwaiters` is a list.
pub record Ksem : Type 0 where
  pub count : ℕ
  pub waiters : List ℕ
  pub state : ℕ → ProcState

-- `ksem_init`
pub ksem_init : ℕ → (ℕ → ProcState) → Ksem
ksem_init initial_count state = record { count = initial_count; waiters = []; state = state }

-- how the first section of `ksem_wait_timeout` ends
pub data Begun : Type 0 where
  taken full must_block : Begun

-- the first section, by the current process `p`
pub wait_begin : ℕ → ℕ → Ksem → Begun × Ksem
wait_begin p timeout_ms s =
    if ltb 0 s.count
    then (taken, record s { count = s.count - 1 })
    else if leb max_waiters (length s.waiters)
    then (full, s)
    else (
      must_block,
      record s {
        waiters = s.waiters ++ p ∷ [];
        state = update s.state p (if ltb 0 timeout_ms then sleeping else blocked);
      },
    )

-- The second section, after `schedule`: a process that is still in the list was not woken by
-- `ksem_signal`, leaves the list, and fails. True is success.
pub wait_end : ℕ → Ksem → Bool × Ksem
wait_end p s =
    if mem p s.waiters then (false, record s { waiters = without p s.waiters }) else (true, s)

-- `p->state == PROCESS_BLOCKED || p->state == PROCESS_SLEEPING`
unfoldable pub still_waits : ProcState → Bool
still_waits blocked = true
still_waits sleeping = true
still_waits ready = false
still_waits running = false
still_waits zombie = false

-- the loop of `ksem_signal`: the first waiter that was not woken by something else
unfoldable pub find_waiter : (ℕ → ProcState) → List ℕ → Option ℕ
find_waiter state [] = none
find_waiter state (p ∷ ps) = if still_waits (state p) then some p else find_waiter state ps

-- `ksem_signal`, up to `sched_enqueue_ready`
pub ksem_signal : Ksem → Ksem
ksem_signal s = elim (find_waiter s.state s.waiters) [
  | none ↦ (record s { count = s.count + 1 })
  | some p ↦ (record s { waiters = without p s.waiters; state = update s.state p ready })
]
