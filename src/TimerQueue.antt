-- ===== src/TimerQueue.antt =====
-- src/kernel/scheduler.c: the sleep queue and the alarm queue, lists of processes in the order of
-- `wake_at_tick` and of `alarm_tick`. The code writes the same two functions for each; here they
-- are functions of the queue. Every function runs under `sched_lock`.
pub mod Sorted
pub mod Insert
pub mod Remove
pub mod Expire
pub mod Alarms
mod Tests
use adr_os.Prelude.{
  ℕ, zero, suc, ◌^◌, Bool, true, false, not, ◌&&◌, ◌||◌, if◌then◌else◌, ltb, leb, ◌==◌, update,
  List, [], ◌∷◌, ◌++◌,
}
use adr_os.Links.{Links, null, link, unlink}

pub record TimerQueue : Type 0 where
  pub head : ℕ
  pub links : Links
  pub queued : ℕ → Bool
  pub tick : ℕ → ℕ

-- the queue at boot; links and times are those that memory holds
pub init : Links → (ℕ → ℕ) → TimerQueue
init memory time = record { head = null; links = memory; queued = λ p. false; tick = time }

-- Pointers have 32 bits, so no list of processes is longer.
abbrev pub address_limit : ℕ
address_limit = 2 ^ 32

-- the loop of `sleep_queue_insert`, on fuel: the process to stand behind
pub walk : ℕ → TimerQueue → ℕ → ℕ → ℕ
walk zero q t cur = cur
walk (suc n) q t cur = elim (not (q.links.next cur == null) && ltb (q.tick (q.links.next cur)) t) [
  | true ↦ walk n q t (q.links.next cur)
  | false ↦ cur
]

-- the two ways in which the insertion ends: at the head, or behind `cur`
pub put_first : ℕ → TimerQueue → TimerQueue
put_first p q = record q {
  queued = update q.queued p true;
  links = link null q.head p q.links;
  head = p;
}

pub put_behind : ℕ → ℕ → TimerQueue → TimerQueue
put_behind cur p q = record q {
  queued = update q.queued p true;
  links = link cur (q.links.next cur) p q.links;
}

-- `sleep_queue_insert`, `alarm_queue_insert`
pub insert : ℕ → TimerQueue → TimerQueue
insert p q =
    if q.head == null || leb (q.tick p) (q.tick q.head)
    then put_first p q
    else put_behind (walk address_limit q (q.tick p) q.head) p q

-- a process that waits, taken out
pub take_out : ℕ → TimerQueue → TimerQueue
take_out p q = record q {
  head = if q.links.prev p == null then q.links.next p else q.head;
  links = unlink p q.links;
  queued = update q.queued p false;
}

-- `sleep_queue_remove`, `alarm_queue_remove`
pub remove : ℕ → TimerQueue → TimerQueue
remove p q = if q.queued p then take_out p q else q

-- the first loop of `process_wake_check`, on fuel: the processes whose time has come, in the order
-- in which they are taken off the queue
pub expire : ℕ → ℕ → TimerQueue → List ℕ × TimerQueue
expire zero now q = ([], q)
expire (suc n) now q = elim (not (q.head == null) && leb (q.tick q.head) now) [
  | true ↦ let rest = expire n now (remove q.head q) in (q.head ∷ rest.0, rest.1)
  | false ↦ ([], q)
]
