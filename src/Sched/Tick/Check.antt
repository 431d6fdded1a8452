-- ===== src/Sched/Tick/Check.antt =====
-- What `process_wake_check` of src/kernel/scheduler.c has done at its end.
use adr_os.Prelude.{
  ℕ, ◌+◌, ◌≤◌, ◌<◌, ◌^◌, ◌≡◌, ◌≢◌, sym, ◌∙◌, ap, ap₂, true, not, ◌&&◌, ◌||◌, Option, some, List, [],
  ◌∷◌, ◌++◌, if◌then◌else◌, leb, ◌==◌, arith, Bool-cases, List-cases, subst, inl, inr, add32, ◌>>=◌,
}
use adr_os.Prelude.WordBits.{test_bit, test_bit-or}
use adr_os.Links.{mem}
use adr_os.Sched.{is_sleeping, wake_sleepers}
use adr_os.Links.Segment.{mem-append}
use adr_os.Sched.Valid.{Valid}
use adr_os.Sched.Wake.{Waits, wake_sleepers-Valid}
use adr_os.Sched.Tick.{Clock, sigvtalrm, sigprof, charge, run_timers, tick, process_wake_check}
use adr_os.Sched.Tick.Running.{is_current-wake_sleepers, charge-at}
use adr_os.Sched.Tick.Timers.{ticked, is_current, run_timers-Elapsed}
use adr_os.TimerQueue.Alarms.{Alarms}
use adr_os.TimerQueue.Alarms.Sorting.{InOrder}
use adr_os.TimerQueue.Alarms.Ring.{Rung}
use adr_os.TimerQueue.Alarms.Loop.{ring_alarms-Rung}

-- The signals after the loop over the alarms.
Rung-pending :
    (now : ℕ) (c : Clock) (out left : List ℕ) (c' : Alarms) (z j : ℕ)
    → Rung now c.alarms out left c'
    → test_bit (c'.pending z) j ≡ (test_bit (c.alarms.pending z) j || (mem z out && 14 == j))
Rung-pending now c out left c' z j r = elim (Bool-cases (mem z out)) [
  | inl m ↦
      ap (λ k. test_bit k j) (r.signalled z m)
      ∙ test_bit-or (c.alarms.pending z) 14 j
      ∙ ground (arith, m)
  | inr m ↦ ap (λ k. test_bit k j) (r.kept z m).0 ∙ ground (arith, m)
]

-- The state after a tick. `woken` were taken off the sleep queue and `rung` had an alarm that was
-- due; `waiting` are the processes with an alarm still to come.
pub record Ticked (cpu now : ℕ) (c : Clock) (asleep alarmed : List ℕ) (c' : Clock) : Type 0 where
  pub woken : List ℕ
  pub sleepers : List ℕ
  pub lists : ℕ → ℕ → List ℕ
  pub split : asleep ≡ woken ++ sleepers
  pub slept : (z : ℕ) → mem z woken ≡ true → c.sched.sleep.tick z ≤ now
  pub sleep_on : (z : ℕ) → mem z sleepers ≡ true → now < c.sched.sleep.tick z
  pub valid : Valid c'.sched lists sleepers
  pub runnable : (z : ℕ) → mem z woken ≡ true → is_sleeping (c.sched.state z) ≡ true → Waits lists z
  pub rung : List ℕ
  pub waiting : List ℕ
  pub rung_mem : (z : ℕ) → mem z rung ≡ (mem z alarmed && leb (c.alarms.queue.tick z) now)
  pub order : InOrder c'.alarms.queue waiting
  pub later : (z : ℕ) → mem z waiting ≡ true → now < c'.alarms.queue.tick z
  pub repeats : (z : ℕ) → mem z rung ≡ true → mem z waiting ≡ not (c.alarms.interval z == 0)
  pub signals :
      (z j : ℕ)
      → test_bit (c'.alarms.pending z) j ≡ (
          test_bit (c.alarms.pending z) j
          || (mem z rung && 14 == j)
          || (is_current cpu c.sched z && c.virt.value z == 1 && sigvtalrm == j)
          || (is_current cpu c.sched z && c.prof.value z == 1 && sigprof == j))
  pub virt :
      (z : ℕ)
      → c'.virt.value z ≡ (
          if is_current cpu c.sched z
          then ticked (c.virt.value z) (c.virt.interval z)
          else c.virt.value z)
  pub prof :
      (z : ℕ)
      → c'.prof.value z ≡ (
          if is_current cpu c.sched z
          then ticked (c.prof.value z) (c.prof.interval z)
          else c.prof.value z)
  pub utime :
      (z : ℕ) → c'.utime z ≡ (if is_current cpu c.sched z then add32 (c.utime z) 1 else c.utime z)

-- An alarm rings if it is due.
due_mem :
    (now : ℕ) (time : ℕ → ℕ) (xs out left : List ℕ)
    → xs ≡ out ++ left
    → ((z : ℕ) → mem z out ≡ true → time z ≤ now)
    → ((z : ℕ) → mem z left ≡ true → now < time z)
    → (z : ℕ) → mem z out ≡ (mem z xs && leb (time z) now)
due_mem now time xs out left e due late z =
    let both : mem z xs ≡ (mem z out || mem z left) = ap (mem z) e ∙ mem-append z out left in
    elim (Bool-cases (mem z out)) [
      | inl m ↦ let d = due z m in ground (arith, both, m, d)
      | inr m ↦ elim (Bool-cases (mem z left)) [
        | inl n ↦ let d = late z n in ground (arith, both, m, n, d)
        | inr n ↦ ground (arith, both, m, n)
      ]
    ]

tick-Ticked :
    (cpu now : ℕ) (c : Clock) (lists : ℕ → ℕ → List ℕ) (asleep alarmed : List ℕ)
    → Valid c.sched lists asleep
    → InOrder c.alarms.queue alarmed
    → ((z : ℕ)
        → mem z alarmed ≡ true
        → c.alarms.queue.tick z ≤ now
        → now + c.alarms.interval z < 2 ^ 32)
    → (c' : Clock) × (tick cpu now c ≡ some c') × Ticked cpu now c asleep alarmed c'
unfolding tick
tick-Ticked cpu now c lists asleep alarmed v o fits =
    let (woken, sleepers, lists', split, slept, sleep_on, valid, runnable) =
      wake_sleepers-Valid now c.sched lists asleep v in
    let (out, left, rung, e, due, late, run, r) = ring_alarms-Rung now c.alarms alarmed o fits in
    let mid : Clock = record c {
      sched = wake_sleepers now c.sched;
      alarms = rung;
      utime = charge cpu c;
    } in
    let t = run_timers-Elapsed cpu mid in
    let out_mem = due_mem now c.alarms.queue.tick alarmed out left e due late in
    let on = is_current-wake_sleepers cpu now c.sched in
    (
      run_timers cpu mid,
      ap
          (λ k. k >>= λ a. some (
            run_timers cpu
              (record c { sched = wake_sleepers now c.sched; alarms = a; utime = charge cpu c })))
          run,
      record {
        woken = woken;
        sleepers = sleepers;
        lists = lists';
        split = split;
        slept = slept;
        sleep_on = sleep_on;
        valid = subst (λ s. Valid s lists' sleepers) (sym t.same_sched) valid;
        runnable = runnable;
        rung = out;
        waiting = r.waiting;
        rung_mem = out_mem;
        order = subst (λ q. InOrder q r.waiting) (sym t.same_queue) r.order;
        later = λ z m. subst (λ q. now < q.tick z) (sym t.same_queue) (r.later z m);
        repeats = λ z m. elim (Bool-cases (mem z left)) [
          | inl n ↦ let d = due z m in let l = late z n in absurd (omega (arith, d, l))
          | inr n ↦ ground (arith, r.members z, m, n)
        ];
        signals = λ z j.
            t.pending z j
            ∙ ap₂
                (λ b k.
                  b
                  || (k && c.virt.value z == 1 && sigvtalrm == j)
                  || (k && c.prof.value z == 1 && sigprof == j))
                (Rung-pending now c out left rung z j r) (on z)
            ∙ ground arith;
        virt = λ z.
            t.virt z
            ∙ ap (λ k. if k then ticked (c.virt.value z) (c.virt.interval z) else c.virt.value z)
                (on z);
        prof = λ z.
            t.prof z
            ∙ ap (λ k. if k then ticked (c.prof.value z) (c.prof.interval z) else c.prof.value z)
                (on z);
        utime = λ z. ap (λ f. f z) t.same_utime ∙ charge-at cpu c z;
      },
    )

-- From a valid scheduler and an alarm queue in order, where there is a process and no alarm that
-- is due repeats past the 32 bits of the clock, `process_wake_check` ends. It takes exactly the
-- sleepers whose time has come off the sleep queue, of which those that still sleep then wait in a
-- runqueue; the alarms that were due have rung, the repeating ones wait again, and none on the
-- queue is due; both queues are in order and the scheduler is valid. A signal is pending for a
-- process if it was, or if it is SIGALRM and its alarm was due, or SIGVTALRM or SIGPROF and the
-- process runs and its timer was at 1; the timers and the time used go on for the process that
-- runs alone.
pub process_wake_check-Ticked :
    (cpu now : ℕ) (c : Clock) (lists : ℕ → ℕ → List ℕ) (asleep alarmed : List ℕ)
    → Valid c.sched lists asleep
    → InOrder c.alarms.queue alarmed
    → ((z : ℕ)
        → mem z alarmed ≡ true
        → c.alarms.queue.tick z ≤ now
        → now + c.alarms.interval z < 2 ^ 32)
    → c.sched.processes ≢ []
    → (c' : Clock) × (process_wake_check cpu now c ≡ some c') × Ticked cpu now c asleep alarmed c'
unfolding process_wake_check
process_wake_check-Ticked cpu now c lists asleep alarmed v o fits some_process =
    let (c', run, t) = tick-Ticked cpu now c lists asleep alarmed v o fits in
    (
      c',
      elim (List-cases c.sched.processes) [
        | inl e ↦ absurd (some_process e)
        | inr (p, ps, e) ↦
            ap
              (λ (ps : List ℕ). elim ps as (λ x. Option Clock) [
                | [] ↦ some c
                | _ ∷ _ ↦ tick cpu now c
              ])
              e
            ∙ run
      ],
      t,
    )
