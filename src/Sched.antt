-- ===== src/Sched.antt =====
-- src/kernel/scheduler.c: the choice of the process to run. The state is what `schedule`,
-- `process_wake_check` and `sched_enqueue_ready` read and write, each under `sched_lock`; a process
-- is known by its address. The switch of stacks and address spaces is the architecture's.
pub mod Valid
pub mod Retire
pub mod Switch
pub mod Wake
pub mod Schedule
pub mod Tick
mod Tests
use adr_os.Prelude.{
  ℕ, zero, suc, ◌+◌, ◌-◌, Bool, true, false, not, ◌&&◌, if◌then◌else◌, ltb, leb, ◌==◌, update, List,
  [], ◌∷◌,
}
use adr_os.Links.{null}
use adr_os.Runqueue.{Runqueues, Pair, num_prios, rq_enqueue, rq_dequeue, rq_pick_next}
use adr_os.TimerQueue.{TimerQueue, address_limit, insert, remove, expire}

-- `process_state_t`
pub data ProcState : Type 0 where
  ready running blocked sleeping zombie : ProcState

-- SCHED_TIME_SLICE
abbrev pub sched_time_slice : ℕ
sched_time_slice = 2

-- SCHED_MAX_CPUS on x86
abbrev pub max_cpus : ℕ
max_cpus = 16

pub record Sched : Type 0 where
  pub priority : ℕ → ℕ
  pub cpu_id : ℕ → ℕ
  pub time_slice : ℕ → ℕ
  pub state : ℕ → ProcState
  pub pid : ℕ → ℕ
  pub rqs : Runqueues
  pub crq : ℕ → Pair
  pub idle : ℕ → ℕ
  pub current : ℕ → ℕ
  pub sleep : TimerQueue
  pub processes : List ℕ

unfoldable pub is_running : ProcState → Bool
is_running running = true
is_running s = false

unfoldable pub is_ready : ProcState → Bool
is_ready ready = true
is_ready s = false

unfoldable pub is_sleeping : ProcState → Bool
is_sleeping sleeping = true
is_sleeping s = false

-- A process whose slice is used up decays by a priority and waits in the expired store.
pub expire_slice : ℕ → ℕ → Sched → Sched
expire_slice cpu prev st = record st {
  state = update st.state prev ready;
  priority = update st.priority prev prio;
  rqs = rq_enqueue (st.crq cpu).expired prio prev st.rqs;
}
  where
    prio : ℕ
    prio = if ltb (st.priority prev) (num_prios - 1) then st.priority prev + 1 else st.priority prev

-- what `schedule` does with the process that stops running
pub retire : ℕ → ℕ → Sched → Sched
retire cpu prev st =
    if is_running (st.state prev)
    then expire_slice cpu prev st
    else if is_sleeping (st.state prev) && not (st.sleep.queued prev)
    then (record st { sleep = insert prev (remove prev st.sleep) })
    else st

-- the process with PID 0, the fallback where a CPU has no idle process
pub find_pid0 : ℕ → (ℕ → ℕ) → List ℕ → ℕ
find_pid0 first pid [] = first
find_pid0 first pid (p ∷ ps) = if pid p == 0 then p else find_pid0 first pid ps

pub fallback : ℕ → Sched → ℕ
fallback cpu st = if st.idle cpu == null then from_list st.processes else st.idle cpu
  where
    from_list : List ℕ → ℕ
    from_list [] = null
    from_list (p ∷ ps) = find_pid0 p st.pid (p ∷ ps)

-- the end of `schedule`: the process becomes the current one with a fresh slice
pub run_next : ℕ → ℕ → Sched → Sched
run_next cpu next st = record st {
  current = update st.current cpu next;
  state = update st.state next running;
  time_slice = update st.time_slice next sched_time_slice;
}

-- the process taken off its runqueue in the active store of the pair
pub dequeued : ℕ → Pair → ℕ → Sched → Sched
dequeued cpu pair p st = record st {
  crq = update st.crq cpu pair;
  rqs = rq_dequeue pair.active (st.priority p) p st.rqs;
}

-- what `schedule` does with the answer of `rq_pick_next`
pub dispatch : ℕ → ℕ → ℕ → Pair → Sched → Sched
dispatch cpu prev next pair st =
    if not (next == null)
    then run_next cpu next (dequeued cpu pair next st)
    else if is_ready (st.state prev)
    then run_next cpu prev (dequeued cpu pair prev st)
    else run_next cpu (fallback cpu st) (record st { crq = update st.crq cpu pair })

-- `schedule` after the running process has been put away
pub switch : ℕ → ℕ → Sched → Sched
switch cpu prev st = dispatch cpu prev picked.0 picked.1 st
  where
    picked : ℕ × Pair
    picked = rq_pick_next (st.crq cpu) st.rqs

pub schedule : ℕ → Sched → Sched
schedule cpu st =
    if prev == null
    then st
    else if is_running (st.state prev) && ltb 0 (st.time_slice prev)
    then (record st { time_slice = update st.time_slice prev (st.time_slice prev - 1) })
    else switch cpu prev (retire cpu prev st)
  where
    prev : ℕ
    prev = st.current cpu

-- `p->cpu_id < SCHED_MAX_CPUS ? p->cpu_id : 0`
pub target_cpu : ℕ → Sched → ℕ
target_cpu p st = if ltb (st.cpu_id p) max_cpus then st.cpu_id p else 0

-- `rq_enqueue(pcpu_rq[target_cpu].active, p)`
pub enqueue_active : ℕ → Sched → Sched
enqueue_active p st = record st {
  rqs = rq_enqueue (st.crq (target_cpu p st)).active (st.priority p) p st.rqs;
}

pub sched_enqueue_ready : ℕ → Sched → Sched
sched_enqueue_ready p st =
    if p == null then st else if is_ready (st.state p) then enqueue_active p removed else removed
  where
    removed : Sched
    removed = record st { sleep = remove p st.sleep }

-- a sleeper becomes ready, a priority better
pub roused : ℕ → Sched → Sched
roused p st = record st {
  state = update st.state p ready;
  priority =
      update st.priority p (if ltb 0 (st.priority p) then st.priority p - 1 else st.priority p);
}

-- one process taken off the sleep queue by `process_wake_check`
pub wake : ℕ → Sched → Sched
wake p st = if is_sleeping (st.state p) then enqueue_active p (roused p st) else st

pub wake_all : List ℕ → Sched → Sched
wake_all [] st = st
wake_all (p ∷ ps) st = wake_all ps (wake p st)

-- The loop of `process_wake_check` over the sleep queue. Waking a process does not touch the
-- queue, so that the processes are taken off first and woken then, in the same order.
pub wake_sleepers : ℕ → Sched → Sched
wake_sleepers now st = wake_all expired.0 (record st { sleep = expired.1 })
  where
    expired : List ℕ × TimerQueue
    expired = expire address_limit now st.sleep
