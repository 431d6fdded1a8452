-- ===== src/Sched/Switch.antt =====
-- `schedule` runs the first process of the best priority, and the invariant is kept.
use adr_os.Prelude.{
  ℕ, ◌<◌, ◌≡◌, ◌≢◌, sym, ◌∙◌, ap, true, false, not, List, if◌then◌else◌, ◌==◌, arith, Bool-cases,
  subst, inl, inr, ◌⊎◌, update, update_self, update-other,
}
use adr_os.Links.{null, mem}
use adr_os.Runqueue.{Pair, num_prios, rq_dequeue, rq_pick_next}
use adr_os.Runqueue.Enqueue.{WaitsNot}
use adr_os.Runqueue.Dequeue.{removed, mem-removed, removed_out, rq_dequeue-Holds}
use adr_os.Runqueue.Pick.{
  First, Quiet, Picked, from_active, from_expired, nothing, rq_pick_next-Picked,
}
use adr_os.Sched.{Sched, running, is_ready, dequeued, dispatch, switch, fallback, run_next}
use adr_os.Sched.Valid.{Valid}
use adr_os.Runqueue.Holds

-- Who runs next on a CPU, and what is left waiting: the first active process of the best priority;
-- where nothing is active, the first expired one; the idle process where nothing waits at all.
pub data Chosen (st : Sched) (lists : ℕ → ℕ → List ℕ) (cpu : ℕ)
    : ℕ → (ℕ → ℕ → List ℕ) → Type 0 where
  best_active :
      {p : ℕ}
      → (f : First lists (st.crq cpu).active p)
      → Chosen st lists cpu p (removed lists (st.crq cpu).active f.prio p)
  best_expired :
      {p : ℕ}
      → Quiet lists (st.crq cpu).active
      → (f : First lists (st.crq cpu).expired p)
      → Chosen st lists cpu p (removed lists (st.crq cpu).expired f.prio p)
  idle_turn :
      Quiet lists (st.crq cpu).active
      → Quiet lists (st.crq cpu).expired
      → Chosen st lists cpu (fallback cpu st) lists

-- A process that waits nowhere may run.
run_next-Valid :
    (cpu p : ℕ) (st : Sched) (lists : ℕ → ℕ → List ℕ) (asleep : List ℕ)
    → WaitsNot lists p
    → Valid st lists asleep
    → Valid (run_next cpu p st) lists asleep
unfolding run_next WaitsNot
run_next-Valid cpu p st lists asleep out v = record {
  rqs_hold = v.rqs_hold;
  sleep_holds = v.sleep_holds;
  in_order = v.in_order;
  at_priority = λ z i j m.
      let (q, r) = v.at_priority z i j m in
      (
        q,
        update-other st.state p z running
              (λ e. waits z i j m (subst (λ a. mem a (lists i j) ≡ false) e (out i j)))
            ∙ r,
      );
  priority_low = v.priority_low;
}
  where
    waits : (z i j : ℕ) → mem z (lists i j) ≡ true → mem z (lists i j) ≡ false → ⊥
    waits z i j a b = ground (arith, a, b)

First-mem : (lists : ℕ → ℕ → List ℕ) (s p : ℕ) (f : First lists s p) → mem p (lists s f.prio) ≡ true
unfolding mem
First-mem lists s p f = ap (mem p) f.here ∙ ground arith

-- The first process of a store is taken off it and runs.
run-First :
    (cpu p : ℕ) (pair : Pair) (st : Sched) (lists : ℕ → ℕ → List ℕ) (asleep : List ℕ)
    → Valid st lists asleep
    → (f : First lists pair.active p)
    → Valid (run_next cpu p (dequeued cpu pair p st)) (removed lists pair.active f.prio p) asleep
unfolding dequeued WaitsNot
run-First cpu p pair st lists asleep v f =
    let m = First-mem lists pair.active p f in
    let k : st.priority p ≡ f.prio = (v.at_priority p pair.active f.prio m).0 in
    run_next-Valid cpu p (dequeued cpu pair p st) (removed lists pair.active f.prio p) asleep
      (removed_out st.rqs lists pair.active f.prio p v.rqs_hold m)
      (record {
        rqs_hold =
            subst
              (λ a.
                Holds.Holds (rq_dequeue pair.active a p st.rqs)
                  (removed lists pair.active f.prio p))
              (sym k) (rq_dequeue-Holds st.rqs lists pair.active f.prio p v.rqs_hold f.in_range m);
        sleep_holds = v.sleep_holds;
        in_order = v.in_order;
        at_priority =
            λ z i j n. v.at_priority z i j (mem-removed lists pair.active f.prio p z i j n);
        priority_low = v.priority_low;
      })

-- A ready process that stops running waits in a store of its CPU.
unfoldable pub WaitsHere : Sched → (ℕ → ℕ → List ℕ) → ℕ → ℕ → Type 0
WaitsHere st lists cpu p =
    is_ready (st.state p) ≡ true
    → (s : ℕ) × (k : ℕ) × (k < num_prios)
      × (mem p (lists s k) ≡ true)
      × ((s ≡ (st.crq cpu).active) ⊎ (s ≡ (st.crq cpu).expired))

-- The idle process waits in no store of another CPU.
unfoldable pub IdleHome : Sched → (ℕ → ℕ → List ℕ) → ℕ → Type 0
IdleHome st lists cpu =
    (s k : ℕ)
    → mem (fallback cpu st) (lists s k) ≡ true
    → (k < num_prios) × ((s ≡ (st.crq cpu).active) ⊎ (s ≡ (st.crq cpu).expired))

Quiet-mem :
    (lists : ℕ → ℕ → List ℕ) (s k p : ℕ)
    → Quiet lists s
    → k < num_prios
    → mem p (lists s k) ≡ true
    → ⊥
unfolding Quiet mem
Quiet-mem lists s k p q l m = ground (arith, sym (ap (mem p) (q k l)) ∙ m)

dispatch_some :
    (cpu prev next : ℕ) (pair : Pair) (st : Sched)
    → next ≢ null
    → dispatch cpu prev next pair st ≡ run_next cpu next (dequeued cpu pair next st)
unfolding dispatch
dispatch_some cpu prev next pair st n =
    ap (λ b. if b then run_next cpu next (dequeued cpu pair next st) else rest) (test next n)
  where
    rest : Sched
    rest =
        if is_ready (st.state prev)
        then run_next cpu prev (dequeued cpu pair prev st)
        else run_next cpu (fallback cpu st) (record st { crq = update st.crq cpu pair })

    test : (k : ℕ) → k ≢ null → not (k == null) ≡ true
    test k h = ground (arith, h)

dispatch_none :
    (cpu prev : ℕ) (pair : Pair) (st : Sched)
    → is_ready (st.state prev) ≡ false
    → dispatch cpu prev null pair st
      ≡ run_next cpu (fallback cpu st) (record st { crq = update st.crq cpu pair })
unfolding dispatch
dispatch_none cpu prev pair st e =
    ap (λ b. if b then run_next cpu prev (dequeued cpu pair prev st) else idle) e
  where
    idle : Sched
    idle = run_next cpu (fallback cpu st) (record st { crq = update st.crq cpu pair })

dispatch-Chosen :
    (cpu prev next : ℕ) (pair : Pair) (st : Sched) (lists : ℕ → ℕ → List ℕ) (asleep : List ℕ)
    → Valid st lists asleep
    → WaitsHere st lists cpu prev
    → IdleHome st lists cpu
    → Picked lists (st.crq cpu) next pair
    → (p : ℕ) × (lists' : ℕ → ℕ → List ℕ) × Chosen st lists cpu p lists'
      × (st' : Sched) × (dispatch cpu prev next pair st ≡ run_next cpu p st')
      × Valid (run_next cpu p st') lists' asleep
unfolding dispatch WaitsHere IdleHome WaitsNot
dispatch-Chosen cpu prev next pair st lists asleep v w i (from_active n f) = (
  next,
  removed lists pair.active f.prio next,
  best_active f,
  dequeued cpu pair next st,
  dispatch_some cpu prev next pair st n,
  run-First cpu next pair st lists asleep v f,
)
dispatch-Chosen cpu prev next pair st lists asleep v w i (from_expired n q f) = (
  next,
  removed lists pair.active f.prio next,
  best_expired q f,
  dequeued cpu pair next st,
  dispatch_some cpu prev next pair st n,
  run-First cpu next pair st lists asleep v f,
)
dispatch-Chosen cpu prev next pair st lists asleep v w i (nothing q q') = (
  fallback cpu st,
  lists,
  idle_turn q q',
  record st { crq = update st.crq cpu pair },
  dispatch_none cpu prev pair st prev_stops,
  run_next-Valid cpu (fallback cpu st) (record st { crq = update st.crq cpu pair }) lists asleep
      idle_out
      (record {
        rqs_hold = v.rqs_hold;
        sleep_holds = v.sleep_holds;
        in_order = v.in_order;
        at_priority = v.at_priority;
        priority_low = v.priority_low;
      }),
)
  where
    empty_here :
        (s k p : ℕ)
        → (s ≡ (st.crq cpu).active) ⊎ (s ≡ (st.crq cpu).expired)
        → k < num_prios
        → mem p (lists s k) ≡ true
        → ⊥
    empty_here s k p (inl e) l m = Quiet-mem lists s k p (subst (Quiet lists) (sym e) q) l m
    empty_here s k p (inr e) l m = Quiet-mem lists s k p (subst (Quiet lists) (sym e) q') l m

    prev_stops : is_ready (st.state prev) ≡ false
    prev_stops = elim (Bool-cases (is_ready (st.state prev))) [
      | inl e ↦ let (s, k, l, m, side) = w e in absurd (empty_here s k prev side l m)
      | inr e ↦ e
    ]

    idle_out : (s k : ℕ) → mem (fallback cpu st) (lists s k) ≡ false
    idle_out s k = elim (Bool-cases (mem (fallback cpu st) (lists s k))) [
      | inl m ↦ let (l, side) = i s k m in absurd (empty_here s k (fallback cpu st) side l m)
      | inr m ↦ m
    ]

-- After `prev` has been put away, the first process of the best priority with one becomes the
-- current process and runs: of the active store, or of the expired one where nothing is active, or
-- else the idle process. It waits nowhere any more, the others wait as before, and the invariant
-- is kept. A ready `prev` waits in a store of the CPU, and the idle process in none of another.
pub switch-Chosen :
    (cpu prev : ℕ) (st : Sched) (lists : ℕ → ℕ → List ℕ) (asleep : List ℕ)
    → Valid st lists asleep
    → WaitsHere st lists cpu prev
    → IdleHome st lists cpu
    → (p : ℕ) × (lists' : ℕ → ℕ → List ℕ) × Chosen st lists cpu p lists'
      × ((switch cpu prev st).current cpu ≡ p)
      × ((switch cpu prev st).state p ≡ running)
      × Valid (switch cpu prev st) lists' asleep
unfolding switch run_next
switch-Chosen cpu prev st lists asleep v w i =
    let (p, lists', c, st', e, v') =
      dispatch-Chosen cpu prev (rq_pick_next (st.crq cpu) st.rqs).0
        (rq_pick_next (st.crq cpu) st.rqs).1 st lists asleep v w i
        (rq_pick_next-Picked (st.crq cpu) st.rqs lists v.rqs_hold) in
    (
      p,
      lists',
      c,
      ap (λ (k : Sched). k.current cpu) e ∙ update_self st'.current cpu p,
      ap (λ (k : Sched). k.state p) e ∙ update_self st'.state p running,
      subst (λ k. Valid k lists' asleep) (sym e) v',
    )
