-- ===== src/TimerQueue/Alarms.antt =====
-- The alarms of src/kernel/scheduler.c: `process_alarm_set`, and the loop of `process_wake_check`
-- over the alarm queue, which puts a repeating alarm back. `sig_pending_mask` and
-- `alarm_interval` are functions of the process, and `alarm_tick` is the queue's.
pub mod Sorting
pub mod Ring
pub mod Loop
pub mod Forever
pub mod Setting
mod Tests
use adr_os.Prelude.{
  ℕ, zero, suc, ◌^◌, Bool, true, false, not, ◌&&◌, Option, none, some, if◌then◌else◌, leb, ◌==◌,
  update, add32, bit_or,
}
use adr_os.Links.{null}
use adr_os.TimerQueue.{TimerQueue, insert, remove}

pub record Alarms : Type 0 where
  pub queue : TimerQueue
  pub interval : ℕ → ℕ
  pub pending : ℕ → ℕ

-- `1U << 14`, the bit of SIGALRM
abbrev pub sigalrm : ℕ
sigalrm = 2 ^ 14

-- `p->alarm_tick = tick`, a time in the process that no list depends on yet
abbrev pub set_tick : ℕ → ℕ → TimerQueue → TimerQueue
set_tick p tick q = record q { tick = update q.tick p tick }

-- a process off the queue: put back at a later time, or left out
abbrev pub rearm : ℕ → ℕ → ℕ → TimerQueue → TimerQueue
rearm now period p q =
    if not (period == 0) then insert p (set_tick p (add32 now period) q) else set_tick p 0 q

-- the body of the loop, for the process at the head
unfoldable pub fire : ℕ → ℕ → Alarms → Alarms
fire now p a = record a {
  queue = rearm now (a.interval p) p (remove p a.queue);
  pending = update a.pending p (bit_or (a.pending p) sigalrm);
}

-- `alarm_head && current_tick >= alarm_head->alarm_tick`
abbrev pub is_due : ℕ → TimerQueue → Bool
is_due now q = not (q.head == null) && leb (q.tick q.head) now

-- The loop, on fuel: none where it has not ended within it.
unfoldable pub ring_alarms : ℕ → ℕ → Alarms → Option Alarms
ring_alarms zero now a = none
ring_alarms (suc n) now a = elim (is_due now a.queue) [
  | true ↦ ring_alarms n now (fire now a.queue.head a)
  | false ↦ some a
]

-- `process_alarm_set`: the former time of the alarm, and the alarms
unfoldable pub process_alarm_set : ℕ → ℕ → Alarms → ℕ × Alarms
process_alarm_set p tick a =
    let q = remove p a.queue in
    (
      a.queue.tick p,
      record a { queue = if not (tick == 0) then insert p (set_tick p tick q) else set_tick p 0 q },
    )
