-- ===== src/Sched/Wake.antt =====
-- `process_wake_check` over the sleep queue: who is woken, and where they wait then.
use adr_os.Prelude.{
  ℕ, ◌-◌, ◌<◌, ◌≤◌, ◌≡◌, ◌≢◌, refl, sym, ◌∙◌, ap, true, false, List, [], ◌∷◌, ◌++◌, if◌then◌else◌,
  ltb, arith, Bool-cases, if_cases, ℕ_discrete, subst, inl, inr, update_self, update-other,
}
use adr_os.Links.{null, mem}
use adr_os.Links.Segment.{null-mem, mem-append}
use adr_os.Runqueue.{rq_enqueue}
use adr_os.Runqueue.Holds.{by_place, update2_self, update2-other}
use adr_os.Runqueue.Enqueue.{appended}
use adr_os.TimerQueue.{address_limit, expire}
use adr_os.TimerQueue.Expire.{expire-Woken}
use adr_os.Sched.{
  Sched, ProcState, ready, running, blocked, sleeping, zombie, is_ready, is_sleeping, target_cpu,
  enqueue_active, roused, wake, wake_all, wake_sleepers,
}
use adr_os.Sched.Valid.{Valid, not_ready-WaitsNot}
use adr_os.Sched.Retire.{enqueue-Valid}
use adr_os.TimerQueue.Sorted

-- the priority of a process that slept, one better
pub raised : ℕ → ℕ
raised prio = if ltb 0 prio then prio - 1 else prio

-- what waits after a process was woken
wake_lists : ℕ → Sched → (ℕ → ℕ → List ℕ) → ℕ → ℕ → List ℕ
wake_lists p st lists =
    if is_sleeping (st.state p)
    then appended lists (st.crq (target_cpu p st)).active (raised (st.priority p)) p
    else lists

-- a process waits in some runqueue
pub Waits : (ℕ → ℕ → List ℕ) → ℕ → Type 0
Waits lists z = (s : ℕ) × (k : ℕ) × (mem z (lists s k) ≡ true)

pub sleeping_not_ready : (s : ProcState) → is_sleeping s ≡ true → is_ready s ≡ false
unfolding is_sleeping is_ready
sleeping_not_ready ready e = absurd (ground (arith, e))
sleeping_not_ready running e = refl
sleeping_not_ready blocked e = refl
sleeping_not_ready sleeping e = refl
sleeping_not_ready zombie e = refl

roused-Valid :
    (p : ℕ) (st : Sched) (lists : ℕ → ℕ → List ℕ) (asleep : List ℕ)
    → Valid st lists asleep
    → p ≢ null
    → is_sleeping (st.state p) ≡ true
    → Valid
        (enqueue_active p (roused p st))
        (appended lists (st.crq (target_cpu p st)).active (raised (st.priority p)) p)
        asleep
unfolding enqueue_active roused target_cpu raised
roused-Valid p st lists asleep v np e =
    let low = v.priority_low p in
    let active : ℕ = (st.crq (target_cpu p st)).active in
    let k : ℕ = raised (st.priority p) in
    let out = not_ready-WaitsNot st lists asleep p v (sleeping_not_ready (st.state p) e) in
    subst
      (λ a.
        Valid (record (roused p st) { rqs = rq_enqueue active a p st.rqs })
          (appended lists active k p) asleep)
      (sym (update_self st.priority p k))
      (enqueue-Valid st lists asleep active k p v np out (ground (arith, low)))

wake-Valid :
    (p : ℕ) (st : Sched) (lists : ℕ → ℕ → List ℕ) (asleep : List ℕ)
    → Valid st lists asleep
    → p ≢ null
    → Valid (wake p st) (wake_lists p st lists) asleep
unfolding wake wake_lists
wake-Valid p st lists asleep v np = elim (Bool-cases (is_sleeping (st.state p))) [
  | inl e ↦
      subst
        (λ b.
          Valid (if b then enqueue_active p (roused p st) else st) (if b then lists' else lists)
            asleep)
        (sym e) (roused-Valid p st lists asleep v np e)
  | inr e ↦
      subst
        (λ b.
          Valid (if b then enqueue_active p (roused p st) else st) (if b then lists' else lists)
            asleep)
        (sym e) v
]
  where
    lists' : ℕ → ℕ → List ℕ
    lists' = appended lists (st.crq (target_cpu p st)).active (raised (st.priority p)) p

mem-appended_old :
    (lists : ℕ → ℕ → List ℕ) (s k p z i j : ℕ)
    → mem z (lists i j) ≡ true
    → mem z (appended lists s k p i j) ≡ true
unfolding appended mem
mem-appended_old lists s k p z =
    by_place (λ i j. mem z (lists i j) ≡ true → mem z (appended lists s k p i j) ≡ true) s k
      (λ m.
        subst (λ zs. mem z zs ≡ true) (sym (update2_self lists s k (lists s k ++ p ∷ [])))
          (ground (arith, m, mem-append z (lists s k) (p ∷ []))))
      (λ i j e m.
        subst (λ zs. mem z zs ≡ true) (sym (update2-other lists s k i j (lists s k ++ p ∷ []) e)) m)

pub mem-appended_new :
    (lists : ℕ → ℕ → List ℕ) (s k p : ℕ) → mem p (appended lists s k p s k) ≡ true
unfolding appended mem
mem-appended_new lists s k p =
    subst (λ zs. mem p zs ≡ true) (sym (update2_self lists s k (lists s k ++ p ∷ [])))
      (ground (arith, mem-append p (lists s k) (p ∷ [])))

-- Who waits goes on waiting, and a sleeper that is woken waits.
wake-Waits :
    (p : ℕ) (st : Sched) (lists : ℕ → ℕ → List ℕ) (z : ℕ)
    → Waits lists z
    → Waits (wake_lists p st lists) z
unfolding wake_lists Waits
wake-Waits p st lists z w =
    if_cases (λ ls. Waits ls z) (is_sleeping (st.state p))
      (appended lists (st.crq (target_cpu p st)).active (raised (st.priority p)) p) lists
      (λ e.
        let (s, k, m) = w in
        (
          s,
          k,
          mem-appended_old lists (st.crq (target_cpu p st)).active (raised (st.priority p)) p z s k
              m,
        ))
      (λ e. w)

woken-Waits :
    (p : ℕ) (st : Sched) (lists : ℕ → ℕ → List ℕ)
    → is_sleeping (st.state p) ≡ true
    → Waits (wake_lists p st lists) p
unfolding wake_lists Waits
woken-Waits p st lists e =
    let active : ℕ = (st.crq (target_cpu p st)).active in
    let k : ℕ = raised (st.priority p) in
    subst (λ b. Waits (if b then appended lists active k p else lists) p) (sym e)
      (active, k, mem-appended_new lists active k p)

-- Waking one process does not change the state of another.
state-wake : (p z : ℕ) (st : Sched) → p ≢ z → (wake p st).state z ≡ st.state z
unfolding wake enqueue_active roused
state-wake p z st n =
    if_cases (λ (k : Sched). k.state z ≡ st.state z) (is_sleeping (st.state p))
      (enqueue_active p (roused p st)) st (λ e. update-other st.state p z ready n) (λ e. refl)

-- The processes of a list are woken in turn.
wake_all-Valid :
    (ps : List ℕ) (st : Sched) (lists : ℕ → ℕ → List ℕ) (asleep : List ℕ)
    → Valid st lists asleep
    → mem null ps ≡ false
    → (lists' : ℕ → ℕ → List ℕ) × Valid (wake_all ps st) lists' asleep
      × ((z : ℕ) → Waits lists z → Waits lists' z)
      × ((z : ℕ) → mem z ps ≡ true → is_sleeping (st.state z) ≡ true → Waits lists' z)
unfolding wake_all mem
wake_all-Valid [] st lists asleep v n = (lists, v, λ z w. w, λ z m e. absurd (ground (arith, m)))
wake_all-Valid (p ∷ ps) st lists asleep v n =
    let v1 = wake-Valid p st lists asleep v (λ e. ground (arith, n, e)) in
    let (lists', v2, keep, more) =
      wake_all-Valid ps (wake p st) (wake_lists p st lists) asleep v1 (ground (arith, n)) in
    (
      lists',
      v2,
      λ z w. keep z (wake-Waits p st lists z w),
      λ z m e. elim (ℕ_discrete p z) [
        | yes q ↦ keep z (
            subst (Waits (wake_lists p st lists)) q
              (woken-Waits p st lists (ap (λ a. is_sleeping (st.state a)) q ∙ e)))
        | no q ↦ more z (ground (arith, m, q)) (ap is_sleeping (state-wake p z st q) ∙ e)
      ],
    )

-- In a valid state, at a tick, the sleepers whose time has come, and no others, are taken off the
-- sleep queue; those in the state SLEEPING wait in a runqueue then, where all are ready, and the
-- state is valid again.
pub wake_sleepers-Valid :
    (now : ℕ) (st : Sched) (lists : ℕ → ℕ → List ℕ) (asleep : List ℕ)
    → Valid st lists asleep
    → (out : List ℕ) × (left : List ℕ) × (lists' : ℕ → ℕ → List ℕ) × (asleep ≡ out ++ left)
      × ((z : ℕ) → mem z out ≡ true → st.sleep.tick z ≤ now)
      × ((z : ℕ) → mem z left ≡ true → now < st.sleep.tick z)
      × Valid (wake_sleepers now st) lists' left
      × ((z : ℕ) → mem z out ≡ true → is_sleeping (st.state z) ≡ true → Waits lists' z)
unfolding wake_sleepers mem
wake_sleepers-Valid now st lists asleep v =
    let w = expire-Woken now st.sleep asleep v.sleep_holds v.in_order in
    let (lists', v', keep, more) =
      wake_all-Valid (expire address_limit now st.sleep).0
        (record st { sleep = (expire address_limit now st.sleep).1 }) lists w.left
        (record {
          rqs_hold = v.rqs_hold;
          sleep_holds = w.holds;
          in_order =
              subst (λ f. Sorted.Sorted f w.left) (sym w.same_ticks)
                (Sorted.Sorted-append st.sleep.tick (expire address_limit now st.sleep).0 w.left
                  (subst (Sorted.Sorted st.sleep.tick) w.split v.in_order));
          at_priority = v.at_priority;
          priority_low = v.priority_low;
        })
        (null_out (expire address_limit now st.sleep).0 w.left (
          subst (λ zs. mem null zs ≡ false) w.split
            (null-mem st.sleep.links asleep v.sleep_holds.segment))) in
    ((expire address_limit now st.sleep).0, w.left, lists', w.split, w.due, w.later, v', more)
  where
    null_out : (out left : List ℕ) → mem null (out ++ left) ≡ false → mem null out ≡ false
    null_out out left n = ground (arith, n, mem-append null out left)
