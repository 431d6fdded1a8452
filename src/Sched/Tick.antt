-- ===== src/Sched/Tick.antt =====
-- `process_wake_check` and `sched_ap_tick` of src/kernel/scheduler.c: what a tick of the timer does
-- to the sleepers, the alarms and the interval timers. The interrupts to other CPUs at its end, and the
-- load counters, are left out.
pub mod Timers
pub mod Running
pub mod Check
pub mod Quiet
mod Tests
use adr_os.Prelude.{
  ℕ, suc, ◌-◌, ◌^◌, Bool, not, ◌&&◌, Option, some, List, [], ◌∷◌, if◌then◌else◌, ltb, ◌==◌, update,
  add32, bit_or, ◌>>=◌,
}
use adr_os.Links.{null}
use adr_os.Sched.{Sched, is_running, wake_sleepers}
use adr_os.TimerQueue.{address_limit}
use adr_os.TimerQueue.Alarms.{Alarms, ring_alarms}

-- `itimer_virt_value` and `itimer_virt_interval`, or the same of `itimer_prof`
pub record Itimer : Type 0 where
  pub value : ℕ → ℕ
  pub interval : ℕ → ℕ

pub record Clock : Type 0 where
  pub sched : Sched
  pub alarms : Alarms
  pub utime : ℕ → ℕ
  pub virt : Itimer
  pub prof : Itimer

-- the bits of SIGVTALRM and SIGPROF
abbrev pub sigvtalrm : ℕ
sigvtalrm = 26

abbrev pub sigprof : ℕ
sigprof = 27

-- `current_process && current_process->state == PROCESS_RUNNING`
unfoldable pub runs : ℕ → Sched → Bool
runs cpu st = not (st.current cpu == null) && is_running (st.state (st.current cpu))

-- One tick of an interval timer of process `p`; at its end the signal of that bit is pending.
unfoldable pub elapse : ℕ → ℕ → Itimer → (ℕ → ℕ) → Itimer × (ℕ → ℕ)
elapse bit p t pending =
    if ltb 0 (t.value p)
    then (if t.value p - 1 == 0
        then (
          record t { value = update t.value p (t.interval p) },
          update pending p (bit_or (pending p) (2 ^ bit)),
        )
        else (record t { value = update t.value p (t.value p - 1) }, pending))
    else (t, pending)

-- `current_process->utime++`
unfoldable pub charge : ℕ → Clock → ℕ → ℕ
charge cpu c =
    if runs cpu c.sched
    then update c.utime (c.sched.current cpu) (add32 (c.utime (c.sched.current cpu)) 1)
    else c.utime

-- both interval timers of the process that runs
unfoldable pub elapse_both : ℕ → Clock → Clock
elapse_both p c =
    let first = elapse sigvtalrm p c.virt c.alarms.pending in
    let second = elapse sigprof p c.prof first.1 in
    record c { virt = first.0; prof = second.0; alarms = record c.alarms { pending = second.1 } }

unfoldable pub run_timers : ℕ → Clock → Clock
run_timers cpu c = if runs cpu c.sched then elapse_both (c.sched.current cpu) c else c

-- the steps of `process_wake_check` in their order
unfoldable pub tick : ℕ → ℕ → Clock → Option Clock
tick cpu now c = do
  rung ← ring_alarms (suc address_limit) now c.alarms
  some (
      run_timers cpu
        (record c { sched = wake_sleepers now c.sched; alarms = rung; utime = charge cpu c }))

-- `process_wake_check`; none where the loop over the alarms does not end
unfoldable pub process_wake_check : ℕ → ℕ → Clock → Option Clock
process_wake_check cpu now c = elim c.sched.processes [ [] ↦ some c | _ ∷ _ ↦ tick cpu now c ]

-- `sched_ap_tick`, the tick of a CPU other than the first
unfoldable pub sched_ap_tick : ℕ → Clock → Clock
sched_ap_tick cpu c = run_timers cpu (record c { utime = charge cpu c })
