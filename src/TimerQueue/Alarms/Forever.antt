-- ===== src/TimerQueue/Alarms/Forever.antt =====
-- Where the loop of `process_wake_check` over the alarm queue of src/kernel/scheduler.c does not end.
use adr_os.Prelude.{
  ℕ, zero, suc, ◌≤◌, ◌≡◌, ◌≢◌, refl, sym, ◌∙◌, ap, true, none, List, [], ◌∷◌, arith, ℕ_discrete,
  subst, add32,
}
use adr_os.Links.{mem}
use adr_os.TimerQueue.Sorted.{Sorted}
use adr_os.TimerQueue.Alarms.{Alarms, fire, ring_alarms}
use adr_os.TimerQueue.Alarms.Sorting.{InOrder}
use adr_os.TimerQueue.Alarms.Ring.{ring_goes, head-due, behind, fire-InOrder}
use adr_os.TimerQueue.Alarms.Loop.{mem-behind, tick_self, tick_other, interval-fire}

-- An alarm that is due and would be put back at a time that is not later.
record Stuck (now z : ℕ) (a : Alarms) (xs : List ℕ) : Type 0 where
  order : InOrder a.queue xs
  waits : mem z xs ≡ true
  due : a.queue.tick z ≤ now
  repeats : a.interval z ≢ 0
  wraps : add32 now (a.interval z) ≤ now

-- It is due again after every round.
Stuck-fire :
    (now z x : ℕ) (a : Alarms) (xs : List ℕ)
    → Stuck now z a (x ∷ xs)
    → Stuck now z (fire now x a) (behind now x a xs)
unfolding mem
Stuck-fire now z x a xs s =
    let same = ap (λ f. f z) (interval-fire now x a) in
    record {
      order = fire-InOrder now x a xs s.order;
      waits = elim (ℕ_discrete x z) [
        | yes c ↦ ground (arith, mem-behind now x a xs z, c, ap a.interval c, s.repeats)
        | no c ↦ ground (arith, mem-behind now x a xs z, c, s.waits)
      ];
      due = elim (ℕ_discrete x z) [
        | yes c ↦
            subst (λ k. (fire now x a).queue.tick k ≤ now) c
              (ground (arith, tick_self now x a, ap a.interval c, s.repeats, s.wraps))
        | no c ↦ ground (arith, tick_other now x z a c, s.due)
      ];
      repeats = λ e. s.repeats (ground (arith, same, e));
      wraps = ground (arith, same, s.wraps);
    }

Stuck-runs :
    (n now z : ℕ) (a : Alarms) (xs : List ℕ) → Stuck now z a xs → ring_alarms n now a ≡ none
unfolding ring_alarms mem Sorted
Stuck-runs zero now z a xs s = refl
Stuck-runs (suc n) now z a [] s = absurd (ground (arith, s.waits))
Stuck-runs (suc n) now z a (x ∷ xs) s =
    let (h, e) = head-due now x a.queue xs s.order.holds in
    let early : a.queue.tick x ≤ now = elim (ℕ_discrete x z) [
      | yes c ↦ subst (λ k. a.queue.tick k ≤ now) (sym c) s.due
      | no c ↦ let le = s.order.sorted.0 z (ground (arith, s.waits, c)) in omega (arith, le, s.due)
    ] in
    ring_goes n now a (ground (arith, e, early))
    ∙ ap (λ k. ring_alarms n now (fire now k a)) h
    ∙ Stuck-runs n now z (fire now x a) (behind now x a xs) (Stuck-fire now z x a xs s)

-- In an alarm queue in order, where a repeating alarm, one whose interval is not 0, is due and its
-- interval, added to the present tick in 32 bits, gives a time that is not later than the tick, the
-- loop never ends, whatever else waits.
pub ring_alarms-starves :
    (n now z : ℕ) (a : Alarms) (xs : List ℕ)
    → InOrder a.queue xs
    → mem z xs ≡ true
    → a.queue.tick z ≤ now
    → a.interval z ≢ 0
    → add32 now (a.interval z) ≤ now
    → ring_alarms n now a ≡ none
ring_alarms-starves n now z a xs o m d r w =
    Stuck-runs n now z a xs (record { order = o; waits = m; due = d; repeats = r; wraps = w })
