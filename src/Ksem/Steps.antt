-- ===== src/Ksem/Steps.antt =====
-- No step of a thread makes a token or loses one.
use adr_os.Prelude.{
  ℕ, ◌+◌, ◌-◌, ◌<◌, ◌≤◌, ◌≡◌, ◌≢◌, sym, ◌∙◌, ap, ap₂, Bool, true, false, ◌||◌, [], ◌∷◌, ◌++◌, ltb,
  leb, arith, length, Bool-cases, ℕ_discrete, subst, inl, inr, update, update_self, update-other,
  count_true-congr,
}
use adr_os.Links.{mem, without}
use adr_os.Links.Segment.{Distinct, mem-append}
use adr_os.Links.Remove.{mem-without, without-Distinct}
use adr_os.Sched.{ProcState}
use adr_os.Ksem.{Ksem, max_waiters, taken, must_block, wait_begin}
use adr_os.Ksem.Tokens.{mem-without_other, Distinct-without, Distinct-snoc}
use adr_os.Ksem.Threads.{
  Phase, outside, waiting, inside, System, granted, has_it, Counted, is_waiting, unlisted, one_more,
}

-- Whoever is on the list waits on after the phase of a thread that is not listed has changed.
still_listed :
    (n tokens : ℕ) (s : System) (p : ℕ) (ph : Phase)
    → Counted n tokens s
    → mem p s.sem.waiters ≡ false
    → (z : ℕ) → mem z s.sem.waiters ≡ true
    → (z < n) × (update s.phase p ph z ≡ waiting)
still_listed n tokens s p ph c out z m =
    let (l, w) = c.listed z m in (l, update-other s.phase p z ph ne ∙ w)
  where
    ne : p ≢ z
    ne e = ground (arith, m, subst (λ a. mem a s.sem.waiters ≡ false) e out)

-- The first section takes a token where there is one.
pub begin_taken :
    (p t : ℕ) (s : Ksem)
    → (wait_begin p t s).0 ≡ taken
    → (1 ≤ s.count) × ((wait_begin p t s).1 ≡ record s { count = s.count - 1 })
unfolding wait_begin
begin_taken p t s e = elim (Bool-cases (ltb 0 s.count)) [
  | inl b ↦ (ground (arith, b), ground (arith, b))
  | inr b ↦ elim (Bool-cases (leb max_waiters (length s.waiters))) [
    | inl d ↦ absurd (ground (arith, e, b, d))
    | inr d ↦ absurd (ground (arith, e, b, d))
  ]
]

pub begin_blocks :
    (p t : ℕ) (s : Ksem)
    → (wait_begin p t s).0 ≡ must_block
    → ((wait_begin p t s).1.count ≡ s.count) × ((wait_begin p t s).1.waiters ≡ s.waiters ++ p ∷ [])
unfolding wait_begin
begin_blocks p t s e = elim (Bool-cases (ltb 0 s.count)) [
  | inl b ↦ absurd (ground (arith, e, b))
  | inr b ↦ elim (Bool-cases (leb max_waiters (length s.waiters))) [
    | inl d ↦ absurd (ground (arith, e, b, d))
    | inr d ↦ (ground (arith, b, d), ground (arith, b, d))
  ]
]

module _ (n tokens : ℕ) (s : System) (c : Counted n tokens s) (p : ℕ) (low : p < n) where
  unfoldable pub took : System
  took = record { sem = record s.sem { count = s.sem.count - 1 }; phase = update s.phase p inside }

  pub take-Counted : s.phase p ≡ outside → 1 ≤ s.sem.count → Counted n tokens took
  unfolding took granted has_it is_waiting
  take-Counted out some_left =
      let absent = unlisted n tokens s p c (ap is_waiting out) in
      record {
        total = omega (
          arith,
          one_more s took p n low (ap (λ k. has_it k (mem p s.sem.waiters)) out)
              (ap (λ k. has_it k (mem p s.sem.waiters)) (update_self s.phase p inside))
              (λ z ne.
                ap (λ k. has_it k (mem z s.sem.waiters))
                  (sym (update-other s.phase p z inside ne))),
          c.total,
        );
        distinct = c.distinct;
        listed = still_listed n tokens s p inside c absent;
      }

  -- A thread that blocks is on the list, and no token moves.
  pub block-Counted :
      (sem' : Ksem)
      → s.phase p ≡ outside
      → sem'.count ≡ s.sem.count
      → sem'.waiters ≡ s.sem.waiters ++ p ∷ []
      → Counted n tokens (record { sem = sem'; phase = update s.phase p waiting })
  unfolding granted has_it is_waiting mem
  block-Counted sem' out k w =
      let absent = unlisted n tokens s p c (ap is_waiting out) in
      let others : (z : ℕ) → mem z sem'.waiters ≡ (mem z s.sem.waiters || mem z (p ∷ [])) =
        λ z. ap (mem z) w ∙ mem-append z s.sem.waiters (p ∷ []) in
      record {
        total = omega (
          arith,
          k,
          c.total,
          count_true-congr (granted s)
              (granted (record { sem = sem'; phase = update s.phase p waiting })) n
              (λ z l. elim (ℕ_discrete p z) [
                | yes e ↦
                    subst
                      (λ a. granted s a ≡ has_it (update s.phase p waiting a) (mem a sem'.waiters))
                      e
                      (ap (λ h. has_it h (mem p s.sem.waiters)) out
                        ∙ sym (
                            ap (λ b. has_it (update s.phase p waiting p) b)
                              (others p ∙ ground (arith, absent))
                            ∙ ap (λ h. has_it h true) (update_self s.phase p waiting)))
                | no e ↦
                    ap (λ h. has_it h (mem z s.sem.waiters))
                      (sym (update-other s.phase p z waiting e))
                    ∙ ap (has_it (update s.phase p waiting z)) (sym (others z ∙ ground (arith, e)))
              ]),
        );
        distinct = subst Distinct (sym w) (Distinct-snoc p s.sem.waiters absent c.distinct);
        listed = λ z m. elim (ℕ_discrete p z) [
          | yes e ↦
              subst (λ a. (a < n) × (update s.phase p waiting a ≡ waiting)) e
                (low, update_self s.phase p waiting)
          | no e ↦
              let (l, q) = c.listed z (ground (arith, m, others z, e)) in
              (l, update-other s.phase p z waiting e ∙ q)
        ];
      }

  -- The second section: a thread still listed leaves with nothing, another has its token.
  unfoldable pub gave_up : System
  gave_up = record {
    sem = record s.sem { waiters = without p s.sem.waiters };
    phase = update s.phase p outside;
  }

  pub gave_up-Counted : s.phase p ≡ waiting → mem p s.sem.waiters ≡ true → Counted n tokens gave_up
  unfolding gave_up granted has_it
  gave_up-Counted out m = record {
    total = omega (
      arith,
      c.total,
      count_true-congr (granted s) (granted gave_up) n (λ z l. elim (ℕ_discrete p z) [
        | yes e ↦
            subst
              (λ a.
                granted s a ≡ has_it (update s.phase p outside a) (mem a (without p s.sem.waiters)))
              e
              (ap₂ has_it out m
                ∙ sym (
                    ap (λ h. has_it h (mem p (without p s.sem.waiters)))
                      (update_self s.phase p outside)))
        | no e ↦
            ap₂ has_it (sym (update-other s.phase p z outside e))
              (sym (mem-without_other p z s.sem.waiters e))
      ]),
    );
    distinct = Distinct-without p s.sem.waiters c.distinct;
    listed = λ z m'.
        let (l, q) = c.listed z (mem-without p z s.sem.waiters m') in
        (l, update-other s.phase p z outside (gone z m') ∙ q);
  }
    where
      gone : (z : ℕ) → mem z (without p s.sem.waiters) ≡ true → p ≢ z
      gone z m' e =
          clash
            (subst (λ a. mem a (without p s.sem.waiters) ≡ false) e
              (without-Distinct p s.sem.waiters c.distinct))
            m'
        where
          clash : {b : Bool} → b ≡ false → b ≡ true → ⊥
          clash a b = ground (arith, a, b)

  unfoldable pub noticed : System
  noticed = record s { phase = update s.phase p inside }

  pub noticed-Counted : s.phase p ≡ waiting → mem p s.sem.waiters ≡ false → Counted n tokens noticed
  unfolding noticed granted has_it
  noticed-Counted out m = record {
    total = omega (
      arith,
      c.total,
      count_true-congr (granted s) (granted noticed) n (λ z l. elim (ℕ_discrete p z) [
        | yes e ↦
            subst (λ a. granted s a ≡ has_it (update s.phase p inside a) (mem a s.sem.waiters)) e
              (ap₂ has_it out m
                ∙ sym (ap (λ h. has_it h (mem p s.sem.waiters)) (update_self s.phase p inside)))
        | no e ↦ ap (λ h. has_it h (mem z s.sem.waiters)) (sym (update-other s.phase p z inside e))
      ]),
    );
    distinct = c.distinct;
    listed = still_listed n tokens s p inside c m;
  }

  -- Giving the lock back where nobody can be woken: the token goes back to the count.
  unfoldable pub returned : System
  returned = record {
    sem = record s.sem { count = s.sem.count + 1 };
    phase = update s.phase p outside;
  }

  pub returned-Counted : s.phase p ≡ inside → Counted n tokens returned
  unfolding returned granted has_it is_waiting
  returned-Counted out =
      let absent = unlisted n tokens s p c (ap is_waiting out) in
      record {
        total = omega (
          arith,
          one_more returned s p n low
              (ap (λ k. has_it k (mem p s.sem.waiters)) (update_self s.phase p outside))
              (ap (λ k. has_it k (mem p s.sem.waiters)) out)
              (λ z ne.
                ap (λ k. has_it k (mem z s.sem.waiters)) (update-other s.phase p z outside ne)),
          c.total,
        );
        distinct = c.distinct;
        listed = still_listed n tokens s p outside c absent;
      }

  -- Handing the lock over: the token goes to the thread that is taken off the list.
  module _ (w : ℕ) (state' : ℕ → ProcState) (in_list : mem w s.sem.waiters ≡ true)
      (out : s.phase p ≡ inside) where
    unfoldable pub handed : Ksem
    handed = record s.sem { waiters = without w s.sem.waiters; state = state' }

    between : System
    between = record { sem = handed; phase = s.phase }

    unfoldable pub after : System
    after = record { sem = handed; phase = update s.phase p outside }

    pub handed-Counted : Counted n tokens after
    unfolding handed between after granted has_it is_waiting
    handed-Counted =
        let absent = unlisted n tokens s p c (ap is_waiting out) in
        let (w_low, w_waits) = c.listed w in_list in
        let gone = without-Distinct w s.sem.waiters c.distinct in
        record {
          total = omega (
            arith,
            c.total,
            one_more s between w n w_low (ap₂ has_it w_waits in_list) (ap₂ has_it w_waits gone)
                (λ z ne. ap (has_it (s.phase z)) (sym (mem-without_other w z s.sem.waiters ne))),
            one_more after between p n low
                (ap (λ k. has_it k (mem p (without w s.sem.waiters)))
                  (update_self s.phase p outside))
                (ap (λ k. has_it k (mem p (without w s.sem.waiters))) out)
                (λ z ne.
                  ap (λ k. has_it k (mem z (without w s.sem.waiters)))
                    (update-other s.phase p z outside ne)),
          );
          distinct = Distinct-without w s.sem.waiters c.distinct;
          listed =
              λ z m. still_listed n tokens s p outside c absent z (mem-without w z s.sem.waiters m);
        }
