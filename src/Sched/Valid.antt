-- ===== src/Sched/Valid.antt =====
-- The invariant of the scheduler: the runqueues hold ready processes at their priority, and the
-- sleep queue is sorted.
use adr_os.Prelude.{ℕ, ◌<◌, ◌≡◌, ap, true, false, List, arith, Bool-cases, inl, inr}
use adr_os.Links.{mem}
use adr_os.Runqueue.{num_prios}
use adr_os.Runqueue.Enqueue.{WaitsNot}
use adr_os.Sched.{Sched, ready, is_ready}
use adr_os.TimerQueue.Sorted.{Sorted}
use adr_os.Runqueue.Holds
use adr_os.TimerQueue.Sorted

-- `lists s k` waits in store `s` with priority `k`; `asleep` waits in the sleep queue.
pub record Valid (st : Sched) (lists : ℕ → ℕ → List ℕ) (asleep : List ℕ) : Type 0 where
  pub rqs_hold : Holds.Holds st.rqs lists
  pub sleep_holds : Sorted.Holds st.sleep asleep
  pub in_order : Sorted st.sleep.tick asleep
  pub at_priority :
      (z s k : ℕ) → mem z (lists s k) ≡ true → (st.priority z ≡ k) × (st.state z ≡ ready)
  pub priority_low : (z : ℕ) → st.priority z < num_prios

-- A process that is not ready waits in no runqueue.
pub not_ready-WaitsNot :
    (st : Sched) (lists : ℕ → ℕ → List ℕ) (asleep : List ℕ) (p : ℕ)
    → Valid st lists asleep
    → is_ready (st.state p) ≡ false
    → WaitsNot lists p
unfolding WaitsNot is_ready
not_ready-WaitsNot st lists asleep p v e s k = elim (Bool-cases (mem p (lists s k))) [
  | inl m ↦ absurd (ground (arith, e, ap is_ready (v.at_priority p s k m).1))
  | inr m ↦ m
]
