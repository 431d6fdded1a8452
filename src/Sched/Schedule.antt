-- ===== src/Sched/Schedule.antt =====
-- One call of `schedule` that does change the process: the two halves together.
use adr_os.Prelude.{
  ℕ, ◌-◌, ◌<◌, ◌≡◌, ◌≢◌, refl, sym, ◌∙◌, ap, Bool, true, false, not, ◌&&◌, ◌||◌, List,
  if◌then◌else◌, ltb, ◌==◌, arith, Bool-cases, if_cases, subst, inl, inr, ◌⊎◌, update,
}
use adr_os.Links.{null, mem}
use adr_os.Runqueue.{Pair, num_prios}
use adr_os.Runqueue.Enqueue.{mem-appended}
use adr_os.TimerQueue.{address_limit, insert, remove}
use adr_os.Sched.{
  Sched, ProcState, ready, running, blocked, sleeping, zombie, is_ready, is_running, is_sleeping,
  expire_slice, retire, fallback, switch, schedule,
}
use adr_os.Sched.Valid.{Valid}
use adr_os.Sched.Retire.{Retired, slice_used, put_to_sleep, left_alone, decayed, retire-Valid}
use adr_os.Sched.Wake.{mem-appended_new, sleeping_not_ready}
use adr_os.Sched.Switch.{Chosen, WaitsHere, IdleHome, switch-Chosen}

-- Putting a process away changes neither the pair of stores nor the fallback.
retire_keeps :
    (cpu p : ℕ) (st : Sched)
    → ((retire cpu p st).crq ≡ st.crq) × (fallback cpu (retire cpu p st) ≡ fallback cpu st)
unfolding retire expire_slice fallback
retire_keeps cpu p st =
    if_cases Keeps (is_running (st.state p)) (expire_slice cpu p st) rest (λ e. (refl, refl))
      (λ e.
        if_cases Keeps (is_sleeping (st.state p) && not (st.sleep.queued p)) slept st
          (λ e. (refl, refl)) (λ e. (refl, refl)))
  where
    Keeps : Sched → Type 0
    Keeps k = (k.crq ≡ st.crq) × (fallback cpu k ≡ fallback cpu st)

    slept : Sched
    slept = record st { sleep = insert p (remove p st.sleep) }

    rest : Sched
    rest = if is_sleeping (st.state p) && not (st.sleep.queued p) then slept else st

-- A process that is not running keeps its state.
retire_state :
    (cpu p : ℕ) (st : Sched) → is_running (st.state p) ≡ false → (retire cpu p st).state ≡ st.state
unfolding retire
retire_state cpu p st stop =
    ap (λ b. (if b then expire_slice cpu p st else rest).state) stop
    ∙ if_cases (λ (k : Sched). k.state ≡ st.state)
        (is_sleeping (st.state p) && not (st.sleep.queued p)) slept st (λ e. refl) (λ e. refl)
  where
    slept : Sched
    slept = record st { sleep = insert p (remove p st.sleep) }

    rest : Sched
    rest = if is_sleeping (st.state p) && not (st.sleep.queued p) then slept else st

asleep_stops : (s : ProcState) → is_sleeping s ≡ true → is_running s ≡ false
unfolding is_sleeping is_running
asleep_stops ready e = refl
asleep_stops running e = absurd (ground (arith, e))
asleep_stops blocked e = refl
asleep_stops sleeping e = refl
asleep_stops zombie e = refl

retire-WaitsHere :
    (cpu p : ℕ) (st : Sched) (lists : ℕ → ℕ → List ℕ) (asleep : List ℕ) (lists' : ℕ → ℕ → List ℕ)
    (asleep' : List ℕ)
    → decayed (st.priority p) < num_prios
    → WaitsHere st lists cpu p
    → Retired cpu p st lists asleep lists' asleep'
    → WaitsHere (retire cpu p st) lists' cpu p
unfolding WaitsHere is_sleeping
retire-WaitsHere cpu p st lists asleep lists' asleep' low w (slice_used run) = λ r. (
  (st.crq cpu).expired,
  decayed (st.priority p),
  low,
  mem-appended_new lists (st.crq cpu).expired (decayed (st.priority p)) p,
  inr (sym (ap (λ (f : ℕ → Pair). (f cpu).expired) (retire_keeps cpu p st).0)),
)
retire-WaitsHere cpu p st lists asleep lists' asleep' low w (put_to_sleep e out) = λ r.
    let same = retire_state cpu p st (asleep_stops (st.state p) e) in
    absurd (clash (sleeping_not_ready (st.state p) e) (sym (ap (λ f. is_ready (f p)) same) ∙ r))
  where
    clash : {b : Bool} → b ≡ false → b ≡ true → ⊥
    clash a b = ground (arith, a, b)
retire-WaitsHere cpu p st lists asleep lists' asleep' low w (left_alone stop _) = λ r.
    let same = retire_state cpu p st stop in
    let (s, k, l, m, side) = w (sym (ap (λ f. is_ready (f p)) same) ∙ r) in
    (
      s,
      k,
      l,
      m,
      subst (λ (f : ℕ → Pair). (s ≡ (f cpu).active) ⊎ (s ≡ (f cpu).expired))
          (sym (retire_keeps cpu p st).0) side,
    )

decayed-lt : (prio : ℕ) → prio < num_prios → decayed prio < num_prios
unfolding decayed
decayed-lt prio l = ground (arith, l)

retire-IdleHome :
    (cpu p : ℕ) (st : Sched) (lists : ℕ → ℕ → List ℕ) (asleep : List ℕ) (lists' : ℕ → ℕ → List ℕ)
    (asleep' : List ℕ)
    → decayed (st.priority p) < num_prios
    → IdleHome st lists cpu
    → Retired cpu p st lists asleep lists' asleep'
    → IdleHome (retire cpu p st) lists' cpu
unfolding IdleHome
retire-IdleHome cpu p st lists asleep lists' asleep' low i r = λ s k m.
    let (l, side) =
      at_home lists' asleep' r s k
        (subst (λ z. mem z (lists' s k) ≡ true) (retire_keeps cpu p st).1 m) in
    (
      l,
      subst (λ (f : ℕ → Pair). (s ≡ (f cpu).active) ⊎ (s ≡ (f cpu).expired))
          (sym (retire_keeps cpu p st).0) side,
    )
  where
    there :
        {b : Bool} (c : Bool) (e s d k : ℕ)
        → b ≡ false
        → (b || c && ((e == s) && (d == k))) ≡ true
        → (e ≡ s) × (d ≡ k)
    there c e s d k f t = ground (arith, f, t)

    at_home :
        (lists' : ℕ → ℕ → List ℕ) (asleep' : List ℕ)
        → Retired cpu p st lists asleep lists' asleep'
        → (s k : ℕ) → mem (fallback cpu st) (lists' s k) ≡ true
        → (k < num_prios) × ((s ≡ (st.crq cpu).active) ⊎ (s ≡ (st.crq cpu).expired))
    at_home lists' asleep' (slice_used run) s k m =
        let c =
          mem-appended lists (st.crq cpu).expired (decayed (st.priority p)) p (fallback cpu st) s k
            m in
        elim (Bool-cases (mem (fallback cpu st) (lists s k))) [
          | inl old ↦ i s k old
          | inr new ↦
              let here : ((st.crq cpu).expired ≡ s) × (decayed (st.priority p) ≡ k) =
                there (p == fallback cpu st) (st.crq cpu).expired s (decayed (st.priority p)) k new
                  c in
              (subst (λ j. j < num_prios) here.1 low, inr (sym here.0))
        ]
    at_home lists' asleep' (put_to_sleep e out) s k m = i s k m
    at_home lists' asleep' (left_alone stop _) s k m = i s k m

-- Not in the first two cases, `schedule` puts the process away and switches.
schedule_switches :
    (cpu : ℕ) (st : Sched)
    → st.current cpu ≢ null
    → (is_running (st.state (st.current cpu)) && ltb 0 (st.time_slice (st.current cpu))) ≡ false
    → schedule cpu st ≡ switch cpu (st.current cpu) (retire cpu (st.current cpu) st)
unfolding schedule
schedule_switches cpu st np stops =
    ap (λ b. if b then st else rest) (not_null (st.current cpu) np)
    ∙ ap (λ b. if b then ticked else switch cpu (st.current cpu) (retire cpu (st.current cpu) st))
        stops
  where
    ticked : Sched
    ticked = record st {
      time_slice = update st.time_slice (st.current cpu) (st.time_slice (st.current cpu) - 1);
    }

    rest : Sched
    rest =
        if is_running (st.state (st.current cpu)) && ltb 0 (st.time_slice (st.current cpu))
        then ticked
        else switch cpu (st.current cpu) (retire cpu (st.current cpu) st)

    not_null : (k : ℕ) → k ≢ null → (k == null) ≡ false
    not_null k h = ground (arith, h)

-- In a valid state, one call of `schedule` where the current process has no slice left or does not
-- run: the process is put away (behind the others of its decayed priority in the expired store, or
-- into the sleep queue), then the first process of the best priority becomes the current one and
-- runs, an expired one only where nothing is active and the fallback only where nothing waits, and
-- the state is valid again. The current process is not NULL, waits in a store of its CPU if it is
-- ready, and the fallback waits in no store of another CPU.
pub schedule-Chosen :
    (cpu : ℕ) (st : Sched) (lists : ℕ → ℕ → List ℕ) (asleep : List ℕ)
    → Valid st lists asleep
    → st.current cpu ≢ null
    → st.current cpu < address_limit
    → (is_running (st.state (st.current cpu)) && ltb 0 (st.time_slice (st.current cpu))) ≡ false
    → WaitsHere st lists cpu (st.current cpu)
    → IdleHome st lists cpu
    → (kept : ℕ → ℕ → List ℕ) × (asleep' : List ℕ) × Retired cpu
        (st.current cpu)
        st
        lists
        asleep
        kept
        asleep'
      × (p : ℕ) × (lists' : ℕ → ℕ → List ℕ) × Chosen
          (retire cpu (st.current cpu) st)
          kept
          cpu
          p
          lists'
      × ((schedule cpu st).current cpu ≡ p)
      × ((schedule cpu st).state p ≡ running)
      × Valid (schedule cpu st) lists' asleep'
schedule-Chosen cpu st lists asleep v np low stops w i =
    let prev : ℕ = st.current cpu in
    let few = decayed-lt (st.priority prev) (v.priority_low prev) in
    let (kept, asleep', r, v') = retire-Valid cpu prev st lists asleep v np low in
    let (p, lists', c, e, e', v'') =
      switch-Chosen cpu prev (retire cpu prev st) kept asleep' v'
        (retire-WaitsHere cpu prev st lists asleep kept asleep' few w r)
        (retire-IdleHome cpu prev st lists asleep kept asleep' few i r) in
    let q = schedule_switches cpu st np stops in
    (
      kept,
      asleep',
      r,
      p,
      lists',
      c,
      ap (λ (k : Sched). k.current cpu) q ∙ e,
      ap (λ (k : Sched). k.state p) q ∙ e',
      subst (λ k. Valid k lists' asleep') (sym q) v'',
    )
