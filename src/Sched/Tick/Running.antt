-- ===== src/Sched/Tick/Running.antt =====
-- Who runs at a tick of the timer, in `process_wake_check` of src/kernel/scheduler.c.
use adr_os.Prelude.{
  ℕ, ◌≡◌, refl, ◌∙◌, ap, ap₂, true, false, ◌&&◌, List, [], ◌∷◌, if◌then◌else◌, ◌==◌, arith,
  Bool-cases, ℕ_discrete, inl, inr, add32,
}
use adr_os.Sched.{
  Sched, ProcState, ready, running, blocked, sleeping, zombie, is_running, is_sleeping, roused,
  enqueue_active, wake, wake_all, wake_sleepers,
}
use adr_os.Sched.Tick.{Clock, runs, charge}
use adr_os.Sched.Tick.Timers.{is_current}
use adr_os.TimerQueue.{address_limit, expire}

-- Waking a process stops nobody and starts nobody.
runs-wake :
    (cpu p : ℕ) (st : Sched)
    → ((wake p st).current ≡ st.current) × (runs cpu (wake p st) ≡ runs cpu st)
unfolding wake enqueue_active roused runs is_running is_sleeping
runs-wake cpu p st = elim (Bool-cases (is_sleeping (st.state p))) [
  | inl e ↦ (
    ground (arith, e),
    elim (ℕ_discrete p (st.current cpu)) [
      | yes c ↦ ground (arith, e, c, sleeper (st.state p) e, ap st.state c)
      | no n ↦ ground (arith, e, n)
    ],
  )
  | inr e ↦ (ground (arith, e), ground (arith, e))
]
  where
    sleeper : (s : ProcState) → is_sleeping s ≡ true → is_running s ≡ false
    sleeper ready h = refl
    sleeper running h = absurd (ground (arith, h))
    sleeper blocked h = refl
    sleeper sleeping h = refl
    sleeper zombie h = refl

runs-wake_all :
    (cpu : ℕ) (ps : List ℕ) (st : Sched)
    → ((wake_all ps st).current ≡ st.current) × (runs cpu (wake_all ps st) ≡ runs cpu st)
unfolding wake_all
runs-wake_all cpu [] st = (refl, refl)
runs-wake_all cpu (p ∷ ps) st =
    let (c, r) = runs-wake_all cpu ps (wake p st) in
    let (c', r') = runs-wake cpu p st in (c ∙ c', r ∙ r')

-- Who runs at the tick runs after it.
pub is_current-wake_sleepers :
    (cpu now : ℕ) (st : Sched) (z : ℕ)
    → is_current cpu (wake_sleepers now st) z ≡ is_current cpu st z
unfolding wake_sleepers runs
is_current-wake_sleepers cpu now st z =
    let expired = expire address_limit now st.sleep in
    let (c, r) = runs-wake_all cpu expired.0 (record st { sleep = expired.1 }) in
    ap₂ (λ b (f : ℕ → ℕ). b && (f cpu == z)) r c

-- The tick is charged to the process that runs.
pub charge-at :
    (cpu : ℕ) (c : Clock) (z : ℕ)
    → charge cpu c z ≡ (if is_current cpu c.sched z then add32 (c.utime z) 1 else c.utime z)
unfolding charge
charge-at cpu c z = elim (Bool-cases (runs cpu c.sched)) [
  | inl r ↦ elim (ℕ_discrete (c.sched.current cpu) z) [
    | yes e ↦ ground (arith, r, e, ap c.utime e)
    | no n ↦ ground (arith, r, n)
  ]
  | inr r ↦ ground (arith, r)
]
