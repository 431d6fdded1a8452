-- ===== src/Sched/Tick/Timers.antt =====
-- The interval timers of the process that runs, in `process_wake_check` of src/kernel/scheduler.c.
use adr_os.Prelude.{
  ℕ, ◌-◌, ◌≡◌, refl, sym, ◌∙◌, ap, Bool, true, ◌&&◌, ◌||◌, if◌then◌else◌, ◌==◌, arith, Bool-cases,
  ℕ_discrete, subst, inl, inr,
}
use adr_os.Prelude.WordBits.{test_bit, test_bit-or}
use adr_os.Sched.{Sched}
use adr_os.Sched.Tick.{Itimer, Clock, sigvtalrm, sigprof, runs, elapse, elapse_both, run_timers}

-- the value of a timer one tick later: 0 is off, and its end loads the interval
abbrev pub ticked : ℕ → ℕ → ℕ
ticked value interval = if value == 0 then 0 else if value == 1 then interval else value - 1

pub elapse-value :
    (bit p : ℕ) (t : Itimer) (pending : ℕ → ℕ) (z : ℕ)
    → (elapse bit p t pending).0.value z
      ≡ (if p == z then ticked (t.value z) (t.interval z) else t.value z)
unfolding elapse
elapse-value bit p t pending z = elim (ℕ_discrete p z) [
  | yes e ↦
      subst
        (λ k.
          (elapse bit p t pending).0.value k
          ≡ (if p == k then ticked (t.value k) (t.interval k) else t.value k))
        e (ground arith)
  | no n ↦ ground (arith, n)
]

pub elapse-interval :
    (bit p : ℕ) (t : Itimer) (pending : ℕ → ℕ) → (elapse bit p t pending).0.interval ≡ t.interval
unfolding elapse
elapse-interval bit p t pending = ground arith

-- A process in whose timer the last tick passes gets the signal, and no other signal is made
-- pending for anybody.
pub elapse-pending :
    (bit p : ℕ) (t : Itimer) (pending : ℕ → ℕ) (z j : ℕ)
    → test_bit ((elapse bit p t pending).1 z) j
      ≡ (test_bit (pending z) j || (p == z && t.value z == 1 && bit == j))
unfolding elapse
elapse-pending bit p t pending z j = elim (ℕ_discrete p z) [
  | yes e ↦
      subst
        (λ k.
          test_bit ((elapse bit p t pending).1 k) j
          ≡ (test_bit (pending k) j || (p == k && t.value k == 1 && bit == j)))
        e (ground (arith, test_bit-or (pending p) bit j))
  | no n ↦ ground (arith, n)
]

-- whether `z` is the process that runs
abbrev pub is_current : ℕ → Sched → ℕ → Bool
is_current cpu st z = runs cpu st && (st.current cpu == z)

-- What a tick does to the interval timers, and which signals they make pending.
pub record Elapsed (cpu : ℕ) (c c' : Clock) : Type 0 where
  pub virt :
      (z : ℕ)
      → c'.virt.value z ≡ (
          if is_current cpu c.sched z
          then ticked (c.virt.value z) (c.virt.interval z)
          else c.virt.value z)
  pub prof :
      (z : ℕ)
      → c'.prof.value z ≡ (
          if is_current cpu c.sched z
          then ticked (c.prof.value z) (c.prof.interval z)
          else c.prof.value z)
  pub pending :
      (z j : ℕ)
      → test_bit (c'.alarms.pending z) j ≡ (
          test_bit (c.alarms.pending z) j
          || (is_current cpu c.sched z && c.virt.value z == 1 && sigvtalrm == j)
          || (is_current cpu c.sched z && c.prof.value z == 1 && sigprof == j))
  pub same_queue : c'.alarms.queue ≡ c.alarms.queue
  pub same_sched : c'.sched ≡ c.sched
  pub same_utime : c'.utime ≡ c.utime

runs_timers :
    (cpu : ℕ) (c : Clock)
    → runs cpu c.sched ≡ true
    → Elapsed cpu c (elapse_both (c.sched.current cpu) c)
unfolding elapse_both
runs_timers cpu c r =
    let p = c.sched.current cpu in
    let first = (elapse sigvtalrm p c.virt c.alarms.pending).1 in
    record {
      virt = λ z. elapse-value sigvtalrm p c.virt c.alarms.pending z ∙ ground (arith, r);
      prof = λ z. elapse-value sigprof p c.prof first z ∙ ground (arith, r);
      pending = λ z j. ground (
        arith,
        r,
        elapse-pending sigvtalrm p c.virt c.alarms.pending z j,
        elapse-pending sigprof p c.prof first z j,
      );
      same_queue = refl;
      same_sched = refl;
      same_utime = refl;
    }

-- The timers of the process that runs go on, and those of the others stand still.
pub run_timers-Elapsed : (cpu : ℕ) (c : Clock) → Elapsed cpu c (run_timers cpu c)
unfolding run_timers
run_timers-Elapsed cpu c = elim (Bool-cases (runs cpu c.sched)) [
  | inl r ↦
      subst (Elapsed cpu c) (ap (λ b. if b then elapse_both (c.sched.current cpu) c else c) (sym r))
        (runs_timers cpu c r)
  | inr r ↦
      subst (Elapsed cpu c) (ap (λ b. if b then elapse_both (c.sched.current cpu) c else c) (sym r))
        (record {
          virt = λ z. ground (arith, r);
          prof = λ z. ground (arith, r);
          pending = λ z j. ground (arith, r);
          same_queue = refl;
          same_sched = refl;
          same_utime = refl;
        })
]
