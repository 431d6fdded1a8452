-- ===== src/TimerQueue/Alarms/Ring.antt =====
-- The loop of `process_wake_check` over the alarm queue of src/kernel/scheduler.c ends, and what it
-- has done then.
use adr_os.Prelude.{
  ℕ, suc, ◌+◌, ◌≤◌, ◌<◌, ◌≡◌, ◌^◌, refl, sym, ◌∙◌, ap, Bool, true, false, not, ◌&&◌, ◌||◌, some,
  List, [], ◌∷◌, ◌++◌, if◌then◌else◌, leb, ◌==◌, arith, Bool-cases, ℕ_discrete, subst, subst₂, inl,
  inr, update, update_self, update-other, add32, bit_or,
}
use adr_os.Links.{null, mem, without}
use adr_os.Links.Segment.{Segment, done, node, Distinct, mem-append}
use adr_os.TimerQueue.{TimerQueue, insert, remove}
use adr_os.TimerQueue.Sorted.{Holds, insert_before}
use adr_os.TimerQueue.Insert.{tick-insert}
use adr_os.TimerQueue.Remove.{tick-remove}
use adr_os.TimerQueue.Alarms.{Alarms, sigalrm, set_tick, fire, is_due, ring_alarms}
use adr_os.TimerQueue.Alarms.Sorting.{
  InOrder, insert_before-append, mem-nonnull, remove-InOrder, set_tick-InOrder, put_back-InOrder,
}

-- the queue once the alarm of `p` has rung, as it repeats or not
pub fire_repeats :
    (now p : ℕ) (a : Alarms)
    → (a.interval p == 0) ≡ false
    → (fire now p a).queue ≡ insert p (set_tick p (add32 now (a.interval p)) (remove p a.queue))
unfolding fire
fire_repeats now p a e =
    ap
      (λ b.
        if not b
        then insert p (set_tick p (add32 now (a.interval p)) (remove p a.queue))
        else set_tick p 0 (remove p a.queue))
      e

pub fire_ends :
    (now p : ℕ) (a : Alarms)
    → (a.interval p == 0) ≡ true
    → (fire now p a).queue ≡ set_tick p 0 (remove p a.queue)
unfolding fire
fire_ends now p a e =
    ap
      (λ b.
        if not b
        then insert p (set_tick p (add32 now (a.interval p)) (remove p a.queue))
        else set_tick p 0 (remove p a.queue))
      e

-- the time that an alarm of the period is given when it rings
abbrev pub next_tick : ℕ → ℕ → ℕ
next_tick now period = if period == 0 then 0 else add32 now period

pub tick-fire :
    (now p : ℕ) (a : Alarms)
    → (fire now p a).queue.tick ≡ update a.queue.tick p (next_tick now (a.interval p))
tick-fire now p a = elim (Bool-cases (a.interval p == 0)) [
  | inl e ↦
      ap (λ q. q.tick) (fire_ends now p a e)
      ∙ ap (λ f. update f p 0) (tick-remove p a.queue)
      ∙ ap (λ b. update a.queue.tick p (if b then 0 else add32 now (a.interval p))) (sym e)
  | inr e ↦
      ap (λ q. q.tick) (fire_repeats now p a e)
      ∙ tick-insert p (set_tick p (add32 now (a.interval p)) (remove p a.queue))
      ∙ ap (λ f. update f p (add32 now (a.interval p))) (tick-remove p a.queue)
      ∙ ap (λ b. update a.queue.tick p (if b then 0 else add32 now (a.interval p))) (sym e)
]

-- A test of the loop.
pub ring_ends :
    (n now : ℕ) (a : Alarms) → is_due now a.queue ≡ false → ring_alarms (suc n) now a ≡ some a
unfolding ring_alarms
ring_ends n now a e =
    ap
      (λ (b : Bool). elim b [ true ↦ ring_alarms n now (fire now a.queue.head a) | false ↦ some a ])
      e

pub ring_goes :
    (n now : ℕ) (a : Alarms)
    → is_due now a.queue ≡ true
    → ring_alarms (suc n) now a ≡ ring_alarms n now (fire now a.queue.head a)
unfolding ring_alarms
ring_goes n now a e =
    ap
      (λ (b : Bool). elim b [ true ↦ ring_alarms n now (fire now a.queue.head a) | false ↦ some a ])
      e

pub head-due :
    (now x : ℕ) (q : TimerQueue) (xs : List ℕ)
    → Holds q (x ∷ xs)
    → (q.head ≡ x) × (is_due now q ≡ leb (q.tick x) now)
head-due now x q xs h = at_head h.segment
  where
    at_head :
        {t : ℕ}
        → Segment q.links null q.head (x ∷ xs) t null
        → (q.head ≡ x) × (is_due now q ≡ leb (q.tick x) now)
    at_head (node e n p s) = (e, ground (arith, e, n, ap q.tick e))

pub nothing_due : (now : ℕ) (q : TimerQueue) → Holds q [] → is_due now q ≡ false
nothing_due now q h = at_end h.segment
  where
    at_end : {t : ℕ} → Segment q.links null q.head [] t null → is_due now q ≡ false
    at_end (done e b) = ground (arith, e)

-- What the loop leaves: `out` rang, and the repeating ones of it wait with `left`.
pub record Rung (now : ℕ) (a : Alarms) (out left : List ℕ) (a' : Alarms) : Type 0 where
  pub waiting : List ℕ
  pub order : InOrder a'.queue waiting
  pub members : (z : ℕ) → mem z waiting ≡ (mem z left || (mem z out && not (a.interval z == 0)))
  pub later : (z : ℕ) → mem z waiting ≡ true → now < a'.queue.tick z
  pub signalled : (z : ℕ) → mem z out ≡ true → a'.pending z ≡ bit_or (a.pending z) sigalrm
  pub next : (z : ℕ) → mem z out ≡ true → a'.queue.tick z ≡ next_tick now (a.interval z)
  pub kept :
      (z : ℕ)
      → mem z out ≡ false
      → (a'.pending z ≡ a.pending z) × (a'.queue.tick z ≡ a.queue.tick z)
  pub same_intervals : a'.interval ≡ a.interval

pub nobody-Rung :
    (now : ℕ) (a : Alarms) (left : List ℕ)
    → InOrder a.queue left
    → ((z : ℕ) → mem z left ≡ true → now < a.queue.tick z)
    → Rung now a [] left a
unfolding mem
nobody-Rung now a left o f = record {
  waiting = left;
  order = o;
  members = λ z. ground arith;
  later = f;
  signalled = λ z m. absurd (ground (arith, m));
  next = λ z m. absurd (ground (arith, m));
  kept = λ z m. (refl, refl);
  same_intervals = refl;
}

-- the processes that wait behind those that are still to ring
abbrev pub behind : ℕ → ℕ → Alarms → List ℕ → List ℕ
behind now x a left =
    if a.interval x == 0
    then left
    else insert_before (update a.queue.tick x (add32 now (a.interval x))) x left

module _ (now x : ℕ) (a : Alarms) (ys : List ℕ) (o : InOrder a.queue (x ∷ ys)) where
  absent : mem x ys ≡ false
  unfolding Distinct
  absent = o.holds.distinct.0

  removed : InOrder (remove x a.queue) ys
  unfolding without
  removed = subst (InOrder (remove x a.queue)) (ground arith) (remove-InOrder a.queue x (x ∷ ys) o)

  -- An alarm that has rung waits among the others again, or not at all.
  pub fire-InOrder : InOrder (fire now x a).queue (behind now x a ys)
  unfolding mem
  fire-InOrder = elim (Bool-cases (a.interval x == 0)) [
    | inl e ↦
        subst₂ InOrder (sym (fire_ends now x a e)) (ground (arith, e))
          (set_tick-InOrder (remove x a.queue) x 0 ys removed absent)
    | inr e ↦
        subst₂ InOrder (sym (fire_repeats now x a e))
          (ap (λ f. insert_before (update f x (add32 now (a.interval x))) x ys)
              (tick-remove x a.queue)
            ∙ ground (arith, e))
          (put_back-InOrder (remove x a.queue) x (add32 now (a.interval x)) ys removed absent
            (mem-nonnull a.queue x (x ∷ ys) o.holds (ground arith))
            (o.holds.small x (ground arith)))
  ]

-- It waits behind those that are still to ring.
pub behind-append :
    (now x : ℕ) (a : Alarms) (out left : List ℕ)
    → mem x (out ++ left) ≡ false
    → ((z : ℕ) → mem z out ≡ true → a.queue.tick z ≤ now)
    → now + a.interval x < 2 ^ 32
    → behind now x a (out ++ left) ≡ out ++ behind now x a left
unfolding mem
behind-append now x a out left o due fits = elim (Bool-cases (a.interval x == 0)) [
  | inl e ↦ ground (arith, e)
  | inr e ↦
      let t = add32 now (a.interval x) in
      let later : (z : ℕ)
          → mem z out ≡ true
          → update a.queue.tick x t z < update a.queue.tick x t x =
        λ z m. elim (ℕ_discrete x z) [
          | yes c ↦ absurd (
              ground
                (arith, m, mem-append z out left, subst (λ k. mem k (out ++ left) ≡ false) c o))
          | no c ↦
              let other = update-other a.queue.tick x z t c in
              let self = update_self a.queue.tick x t in
              let early = due z m in ground (arith, other, self, early, fits, e)
        ] in
      ground (arith, e, insert_before-append (update a.queue.tick x t) x out left later)
]
