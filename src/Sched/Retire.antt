-- ===== src/Sched/Retire.antt =====
-- What `schedule` does with the process that stops running keeps the invariant.
use adr_os.Prelude.{
  ℕ, ◌+◌, ◌-◌, ◌<◌, ◌≡◌, ◌≢◌, refl, sym, ◌∙◌, true, false, not, ◌&&◌, ◌||◌, List, if◌then◌else◌,
  ltb, ◌==◌, arith, Bool-cases, ℕ_discrete, subst, inl, inr, update, update_self, update-other,
}
use adr_os.Links.{null, mem}
use adr_os.Runqueue.{num_prios, rq_enqueue}
use adr_os.Runqueue.Enqueue.{appended, WaitsNot, mem-appended, rq_enqueue-Holds}
use adr_os.TimerQueue.{address_limit, insert, remove}
use adr_os.TimerQueue.Sorted.{Sorted, insert_before, insert_before-Sorted}
use adr_os.TimerQueue.Insert.{insert-Holds, tick-insert}
use adr_os.TimerQueue.Remove.{remove_unqueued}
use adr_os.Sched.{
  Sched, ProcState, ready, running, blocked, sleeping, zombie, is_ready, is_running, is_sleeping,
  expire_slice, retire,
}
use adr_os.Sched.Valid.{Valid, not_ready-WaitsNot}

-- A process that waits nowhere becomes ready, with a new priority, and is put behind the others.
pub enqueue-Valid :
    (st : Sched) (lists : ℕ → ℕ → List ℕ) (asleep : List ℕ) (s k p : ℕ)
    → Valid st lists asleep
    → p ≢ null
    → WaitsNot lists p
    → k < num_prios
    → Valid
        (record st {
          state = update st.state p ready;
          priority = update st.priority p k;
          rqs = rq_enqueue s k p st.rqs;
        })
        (appended lists s k p)
        asleep
unfolding WaitsNot
enqueue-Valid st lists asleep s k p v np out low = record {
  rqs_hold = rq_enqueue-Holds st.rqs lists s k p v.rqs_hold np out low;
  sleep_holds = v.sleep_holds;
  in_order = v.in_order;
  at_priority = λ z i j m. place z i j (mem-appended lists s k p z i j m);
  priority_low = λ z. elim (ℕ_discrete p z) [
    | yes e ↦
        subst (λ a. update st.priority p k a < num_prios) e
          (subst (λ w. w < num_prios) (sym (update_self st.priority p k)) low)
    | no e ↦ subst (λ w. w < num_prios) (sym (update-other st.priority p z k e)) (v.priority_low z)
  ];
}
  where
    place :
        (z i j : ℕ)
        → (mem z (lists i j) || (p == z) && ((s == i) && (k == j))) ≡ true
        → (update st.priority p k z ≡ j) × (update st.state p ready z ≡ ready)
    place z i j m = elim (ℕ_discrete p z) [
      | yes e ↦
          let o : mem z (lists i j) ≡ false = subst (λ a. mem a (lists i j) ≡ false) e (out i j) in
          let kj : k ≡ j = ground (arith, m, o) in
          subst (λ a. (update st.priority p k a ≡ j) × (update st.state p ready a ≡ ready)) e
            (update_self st.priority p k ∙ kj, update_self st.state p ready)
      | no e ↦
          let m' : mem z (lists i j) ≡ true = ground (arith, m, e) in
          let (q, r) = v.at_priority z i j m' in
          (update-other st.priority p z k e ∙ q, update-other st.state p z ready e ∙ r)
    ]

-- the priority after the decay
unfoldable pub decayed : ℕ → ℕ
decayed prio = if ltb prio (num_prios - 1) then prio + 1 else prio

expire_slice-Valid :
    (cpu p : ℕ) (st : Sched) (lists : ℕ → ℕ → List ℕ) (asleep : List ℕ)
    → Valid st lists asleep
    → p ≢ null
    → is_running (st.state p) ≡ true
    → Valid
        (expire_slice cpu p st)
        (appended lists (st.crq cpu).expired (decayed (st.priority p)) p)
        asleep
unfolding expire_slice decayed is_running is_ready
expire_slice-Valid cpu p st lists asleep v np run =
    enqueue-Valid st lists asleep (st.crq cpu).expired (decayed (st.priority p)) p v np
      (not_ready-WaitsNot st lists asleep p v (running_not_ready (st.state p) run))
      (let l = v.priority_low p in ground (arith, l))
  where
    running_not_ready : (s : ProcState) → is_running s ≡ true → is_ready s ≡ false
    running_not_ready ready e = absurd (ground (arith, e))
    running_not_ready running e = refl
    running_not_ready blocked e = refl
    running_not_ready sleeping e = refl
    running_not_ready zombie e = refl

-- The process that stops running: where its slice is used up it waits in the expired store, a
-- priority lower; where it goes to sleep and is not queued yet, it waits in the sleep queue; only a
-- process that does neither is left as it is.
pub data Retired (cpu p : ℕ) (st : Sched) (lists : ℕ → ℕ → List ℕ) (asleep : List ℕ)
    : (ℕ → ℕ → List ℕ) → List ℕ → Type 0 where
  slice_used :
      is_running (st.state p) ≡ true
      → Retired cpu p st lists asleep
          (appended lists (st.crq cpu).expired (decayed (st.priority p)) p)
          asleep
  put_to_sleep :
      is_sleeping (st.state p) ≡ true
      → mem p asleep ≡ false
      → Retired cpu p st lists asleep lists (insert_before st.sleep.tick p asleep)
  left_alone :
      is_running (st.state p) ≡ false
      → (is_sleeping (st.state p) && not (mem p asleep)) ≡ false
      → Retired cpu p st lists asleep lists asleep

pub retire-Valid :
    (cpu p : ℕ) (st : Sched) (lists : ℕ → ℕ → List ℕ) (asleep : List ℕ)
    → Valid st lists asleep
    → p ≢ null
    → p < address_limit
    → (lists' : ℕ → ℕ → List ℕ) × (asleep' : List ℕ) × Retired cpu p st lists asleep lists' asleep'
      × Valid (retire cpu p st) lists' asleep'
unfolding retire
retire-Valid cpu p st lists asleep v np low = elim (Bool-cases (is_running (st.state p))) [
  | inl run ↦ (
    appended lists (st.crq cpu).expired (decayed (st.priority p)) p,
    asleep,
    slice_used run,
    subst
        (λ b.
          Valid (if b then expire_slice cpu p st else rest)
            (appended lists (st.crq cpu).expired (decayed (st.priority p)) p) asleep)
        (sym run) (expire_slice-Valid cpu p st lists asleep v np run),
  )
  | inr stop ↦ elim (Bool-cases (is_sleeping (st.state p) && not (st.sleep.queued p))) [
    | inl tired ↦
        let awake : st.sleep.queued p ≡ false = ground (arith, tired) in
        let out : mem p asleep ≡ false = sym (v.sleep_holds.flags p) ∙ awake in
        (
          lists,
          insert_before st.sleep.tick p asleep,
          put_to_sleep (ground (arith, tired)) out,
          subst
              (λ b.
                Valid (if b then expire_slice cpu p st else rest) lists
                  (insert_before st.sleep.tick p asleep))
              (sym stop)
              (subst
                (λ b. Valid (if b then slept else st) lists (insert_before st.sleep.tick p asleep))
                (sym tired) (slept-Valid awake out)),
        )
    | inr up ↦ (
      lists,
      asleep,
      left_alone stop (ground (arith, up, v.sleep_holds.flags p)),
      subst (λ b. Valid (if b then expire_slice cpu p st else rest) lists asleep) (sym stop)
          (subst (λ b. Valid (if b then slept else st) lists asleep) (sym up) v),
    )
  ]
]
  where
    slept : Sched
    slept = record st { sleep = insert p (remove p st.sleep) }

    rest : Sched
    rest = if is_sleeping (st.state p) && not (st.sleep.queued p) then slept else st

    slept-Valid :
        st.sleep.queued p ≡ false
        → mem p asleep ≡ false
        → Valid slept lists (insert_before st.sleep.tick p asleep)
    slept-Valid awake out =
        subst
          (λ q.
            Valid (record st { sleep = insert p q }) lists (insert_before st.sleep.tick p asleep))
          (sym (remove_unqueued p st.sleep awake))
          (record {
            rqs_hold = v.rqs_hold;
            sleep_holds = insert-Holds st.sleep p asleep v.sleep_holds np low out;
            in_order =
                subst (λ f. Sorted f (insert_before st.sleep.tick p asleep))
                  (sym (tick-insert p st.sleep))
                  (insert_before-Sorted st.sleep.tick p asleep v.in_order);
            at_priority = v.at_priority;
            priority_low = v.priority_low;
          })
