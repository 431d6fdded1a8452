-- ===== src/Kcond/Wakeups.antt =====
-- No wakeup of the condition variable of src/kernel/sync.c is lost, whatever the interleaving of the
-- sections of its calls.
use adr_os.Prelude.{
  ℕ, ◌≡◌, refl, sym, ap, ◌∙◌, Bool, true, false, ◌||◌, [], ◌∷◌, length, length-append, arith,
  Bool-cases, Option-cases, ℕ_discrete, subst, inl, inr, update, update_self, update-other,
}
use adr_os.Links.{mem, without}
use adr_os.Links.Segment.{Distinct, mem-append}
use adr_os.Links.Remove.{mem-without, without-Distinct}
use adr_os.Sched.{ready}
use adr_os.Ksem.{still_waits, find_waiter}
use adr_os.Ksem.Tokens.{mem-find_waiter, mem-without_other, Distinct-without, Distinct-snoc}
use adr_os.Kcond.{Kcond, cond_begin, cond_end, kcond_signal, kcond_broadcast}
use adr_os.Kcond.Threads.{
  Place, away, asleep, relocking, System, Step, wait, resume, leave, signal, broadcast, elsewhere,
  Reach, start, step, Waits,
}
use adr_os.Kcond.Waiters.{
  length-without, find_waiter-still_waits, find_waiter-finds, kcond_signal-none, kcond_signal-some,
  Begun, cond_begin-Begun, wake_all-wakes, wake_all_sleepers,
}

unfoldable is_away : Place → Bool
is_away away = true
is_away asleep = false
is_away relocking = false

unfoldable is_asleep : Place → Bool
is_asleep away = false
is_asleep asleep = true
is_asleep relocking = false

module _ (s : System) (v : Waits s) (p : ℕ) where
  wait-Waits :
      (cv' : Kcond)
      → s.place p ≡ away
      → Begun p s.cond cv'
      → Waits (record { cond = cv'; place = update s.place p asleep })
  unfolding mem is_away is_asleep
  wait-Waits cv' out b =
      let absent : mem p s.cond.waiters ≡ false = elim (Bool-cases (mem p s.cond.waiters)) [
        | inl m ↦ absurd (v.present p m out)
        | inr m ↦ m
      ] in
      let lists : (z : ℕ) → mem z cv'.waiters ≡ (mem z s.cond.waiters || mem z (p ∷ [])) =
        λ z. ap (mem z) b.listed ∙ mem-append z s.cond.waiters (p ∷ []) in
      record {
        few = omega (arith, b.room, ap length b.listed, length-append s.cond.waiters (p ∷ []));
        distinct = subst Distinct (sym b.listed) (Distinct-snoc p s.cond.waiters absent v.distinct);
        present = λ z m e. elim (ℕ_discrete p z) [
          | yes same ↦
              let now : update s.place p asleep z ≡ asleep =
                subst (λ k. update s.place p asleep k ≡ asleep) same
                  (update_self s.place p asleep) in
              absurd (ground (arith, ap is_away e, ap is_away now))
          | no ne ↦ absurd (
              v.present z (ground (arith, m, lists z, ne))
                (sym (update-other s.place p z asleep ne) ∙ e))
        ];
        reached = λ z a w. elim (ℕ_discrete p z) [
          | yes same ↦ ground (arith, lists z, same)
          | no ne ↦ ground (
            arith,
            lists z,
            v.reached z (sym (update-other s.place p z asleep ne) ∙ a)
                (ap still_waits (sym (b.others z ne)) ∙ w),
          )
        ];
      }

  resume-Waits : s.place p ≡ asleep → Waits (record s { place = update s.place p relocking })
  unfolding is_away is_asleep
  resume-Waits a = record {
    few = v.few;
    distinct = v.distinct;
    present = λ z m e. elim (ℕ_discrete p z) [
      | yes same ↦
          let now : update s.place p relocking z ≡ relocking =
            subst (λ k. update s.place p relocking k ≡ relocking) same
              (update_self s.place p relocking) in
          absurd (ground (arith, ap is_away e, ap is_away now))
      | no ne ↦ absurd (v.present z m (sym (update-other s.place p z relocking ne) ∙ e))
    ];
    reached = λ z e w. elim (ℕ_discrete p z) [
      | yes same ↦
          let now : update s.place p relocking z ≡ relocking =
            subst (λ k. update s.place p relocking k ≡ relocking) same
              (update_self s.place p relocking) in
          absurd (ground (arith, ap is_asleep e, ap is_asleep now))
      | no ne ↦ v.reached z (sym (update-other s.place p z relocking ne) ∙ e) w
    ];
  }

  leave-Waits : Waits (record { cond = (cond_end p s.cond).1; place = update s.place p away })
  unfolding cond_end is_asleep
  leave-Waits = record {
    few = omega (arith, v.few, length-without p s.cond.waiters);
    distinct = Distinct-without p s.cond.waiters v.distinct;
    present = λ z m e. elim (ℕ_discrete p z) [
      | yes same ↦ absurd (
          ground (
            arith,
            m,
            subst (λ k. mem k (without p s.cond.waiters) ≡ false) same
                (without-Distinct p s.cond.waiters v.distinct),
          ))
      | no ne ↦ absurd (
          v.present z (mem-without p z s.cond.waiters m)
            (sym (update-other s.place p z away ne) ∙ e))
    ];
    reached = λ z e w. elim (ℕ_discrete p z) [
      | yes same ↦
          let now : update s.place p away z ≡ away =
            subst (λ k. update s.place p away k ≡ away) same (update_self s.place p away) in
          absurd (ground (arith, ap is_asleep e, ap is_asleep now))
      | no ne ↦
          mem-without_other p z s.cond.waiters ne
          ∙ v.reached z (sym (update-other s.place p z away ne) ∙ e) w
    ];
  }

  woken-Waits : Waits (record s {
    cond = record { waiters = without p s.cond.waiters; state = update s.cond.state p ready };
  })
  unfolding still_waits
  woken-Waits = record {
    few = omega (arith, v.few, length-without p s.cond.waiters);
    distinct = Distinct-without p s.cond.waiters v.distinct;
    present = λ z m e. absurd (v.present z (mem-without p z s.cond.waiters m) e);
    reached = λ z e w. elim (ℕ_discrete p z) [
      | yes same ↦
          let now : update s.cond.state p ready z ≡ ready =
            subst (λ k. update s.cond.state p ready k ≡ ready) same
              (update_self s.cond.state p ready) in
          absurd (ground (arith, w, ap still_waits now))
      | no ne ↦
          mem-without_other p z s.cond.waiters ne
          ∙ v.reached z e (ap still_waits (sym (update-other s.cond.state p z ready ne)) ∙ w)
    ];
  }

signal-Waits : (s : System) → Waits s → Waits (record s { cond = kcond_signal s.cond })
signal-Waits s v = elim (Option-cases (find_waiter s.cond.state s.cond.waiters)) [
  | inl e ↦ subst (λ k. Waits (record s { cond = k })) (sym (kcond_signal-none s.cond e)) v
  | inr (w, e) ↦
      subst (λ k. Waits (record s { cond = k })) (sym (kcond_signal-some s.cond w e))
        (woken-Waits s v w)
]

broadcast-Waits : (s : System) → Waits s → Waits (record s { cond = kcond_broadcast s.cond })
unfolding kcond_broadcast Distinct mem
broadcast-Waits s v = record {
  few = omega arith;
  distinct = tt;
  present = λ z m e. absurd (ground (arith, m));
  reached = λ z a w.
      let (waited, unlisted) = wake_all_sleepers s.cond.waiters s.cond.state z w in
      absurd (ground (arith, unlisted, v.reached z a waited));
}

step-Waits : {s s' : System} → Waits s → Step s s' → Waits s'
step-Waits v (wait s p t out e) =
    wait-Waits s v p (cond_begin p t s.cond).1 out (cond_begin-Begun p t s.cond e)
step-Waits v (resume s p a w) = resume-Waits s v p a
step-Waits v (leave s p r) = leave-Waits s v p
step-Waits v (signal s) = signal-Waits s v
step-Waits v (broadcast s) = broadcast-Waits s v
step-Waits v (elsewhere s state keeps) = record {
  few = v.few;
  distinct = v.distinct;
  present = v.present;
  reached = λ z a w. elim (Bool-cases (still_waits (s.cond.state z))) [
    | inl b ↦ v.reached z a b
    | inr b ↦ absurd (ground (arith, w, keeps z a b))
  ];
}

-- In every interleaving, the waiters are different threads that are all in `kcond_wait`, at most as
-- many as the array holds, and every thread that sleeps there is one of them.
pub Reach-Waits : {s : System} → Reach s → Waits s
unfolding Distinct mem is_asleep
Reach-Waits (start state) = record {
  few = omega arith;
  distinct = tt;
  present = λ z m e. absurd (ground (arith, m));
  reached = λ z a w. absurd (ground (arith, ap is_asleep a));
}
Reach-Waits (step r e) = step-Waits (Reach-Waits r) e

-- No wakeup is lost: in every state that the threads reach in which some thread sleeps in
-- `kcond_wait`, a broadcast makes that thread ready and leaves no waiter, and a signal takes a
-- waiter that sleeps off the list, makes it ready, and changes nobody else.
pub Reach-wakes :
    {s : System} (z : ℕ)
    → Reach s
    → s.place z ≡ asleep
    → still_waits (s.cond.state z) ≡ true
    → ((kcond_broadcast s.cond).state z ≡ ready)
      × ((kcond_broadcast s.cond).waiters ≡ [])
      × ((w : ℕ) × (mem w s.cond.waiters ≡ true)
          × (still_waits (s.cond.state w) ≡ true)
          × (kcond_signal s.cond
              ≡ record { waiters = without w s.cond.waiters; state = update s.cond.state w ready }))
unfolding kcond_broadcast
Reach-wakes {s} z r a w =
    let m = (Reach-Waits r).reached z a w in
    (
      wake_all-wakes s.cond.waiters s.cond.state z m w,
      refl,
      elim (Option-cases (find_waiter s.cond.state s.cond.waiters)) [
        | inl e ↦ absurd (find_waiter-finds s.cond.state s.cond.waiters z m w e)
        | inr (k, e) ↦ (
          k,
          mem-find_waiter s.cond.state s.cond.waiters k e,
          find_waiter-still_waits s.cond.state s.cond.waiters k e,
          kcond_signal-some s.cond k e,
        )
      ],
    )
