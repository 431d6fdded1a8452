-- ===== src/TimerQueue/Alarms/Loop.antt =====
-- The rounds of the loop of `process_wake_check` over the alarm queue of src/kernel/scheduler.c,
-- put together.
use adr_os.Prelude.{
  ℕ, zero, suc, ◌+◌, ◌≤◌, ◌<◌, ◌≡◌, ◌≢◌, ◌^◌, refl, sym, ◌∙◌, ap, true, false, not, ◌&&◌, ◌||◌,
  some, List, [], ◌∷◌, ◌++◌, ◌==◌, arith, length, length-append, ℕ_discrete, subst, update,
  update_self, update-other, add32, bit_or,
}
use adr_os.Links.{mem}
use adr_os.Links.Segment.{Distinct, mem-append}
use adr_os.TimerQueue.{address_limit, expire}
use adr_os.TimerQueue.Sorted.{mem-insert_before, length-le}
use adr_os.TimerQueue.Expire.{expire-Woken}
use adr_os.TimerQueue.Alarms.{Alarms, sigalrm, fire, ring_alarms}
use adr_os.TimerQueue.Alarms.Sorting.{InOrder}
use adr_os.TimerQueue.Alarms.Ring.{
  next_tick, tick-fire, ring_ends, ring_goes, head-due, nothing_due, Rung, nobody-Rung, behind,
  fire-InOrder, behind-append,
}

pub mem-behind :
    (now x : ℕ) (a : Alarms) (left : List ℕ) (z : ℕ)
    → mem z (behind now x a left) ≡ (mem z left || (x == z && not (a.interval x == 0)))
mem-behind now x a left z =
    ground (arith, mem-insert_before (update a.queue.tick x (add32 now (a.interval x))) x z left)

pub tick_self :
    (now x : ℕ) (a : Alarms) → (fire now x a).queue.tick x ≡ next_tick now (a.interval x)
tick_self now x a =
    ap (λ f. f x) (tick-fire now x a) ∙ update_self a.queue.tick x (next_tick now (a.interval x))

pub tick_other : (now x z : ℕ) (a : Alarms) → x ≢ z → (fire now x a).queue.tick z ≡ a.queue.tick z
tick_other now x z a n =
    ap (λ f. f z) (tick-fire now x a)
    ∙ update-other a.queue.tick x z (next_tick now (a.interval x)) n

pending_self : (now x : ℕ) (a : Alarms) → (fire now x a).pending x ≡ bit_or (a.pending x) sigalrm
unfolding fire
pending_self now x a = update_self a.pending x (bit_or (a.pending x) sigalrm)

pending_other : (now x z : ℕ) (a : Alarms) → x ≢ z → (fire now x a).pending z ≡ a.pending z
unfolding fire
pending_other now x z a n = update-other a.pending x z (bit_or (a.pending x) sigalrm) n

pub interval-fire : (now x : ℕ) (a : Alarms) → (fire now x a).interval ≡ a.interval
unfolding fire
interval-fire now x a = refl

-- Nobody put back is due.
behind_later :
    (now x : ℕ) (a : Alarms) (left : List ℕ)
    → mem x left ≡ false
    → now + a.interval x < 2 ^ 32
    → ((z : ℕ) → mem z left ≡ true → now < a.queue.tick z)
    → (z : ℕ) → mem z (behind now x a left) ≡ true
    → now < (fire now x a).queue.tick z
behind_later now x a left o fits f z m = elim (ℕ_discrete x z) [
  | yes c ↦
      let late : now < (fire now x a).queue.tick x = ground (
        arith,
        tick_self now x a,
        fits,
        subst (λ k. mem k (behind now x a left) ≡ true) (sym c) m,
        mem-behind now x a left x,
        o,
      ) in
      subst (λ k. now < (fire now x a).queue.tick k) c late
  | no c ↦
      let waits : mem z left ≡ true = ground (arith, m, mem-behind now x a left z, c) in
      omega (arith, f z waits, tick_other now x z a c)
]

-- One more alarm rang before the others.
Rung-first :
    (now x : ℕ) (a : Alarms) (out left : List ℕ) (a' : Alarms)
    → mem x out ≡ false
    → Rung now (fire now x a) out (behind now x a left) a'
    → Rung now a (x ∷ out) left a'
unfolding mem
Rung-first now x a out left a' o r = record {
  waiting = r.waiting;
  order = r.order;
  members = λ z.
      let before = r.members z in
      let put = mem-behind now x a left z in
      let same = ap (λ f. f z == 0) (interval-fire now x a) in
      elim (ℕ_discrete x z) [
        | yes c ↦
            ground
              (arith, before, put, same, ap a.interval c, subst (λ k. mem k out ≡ false) c o, c)
        | no c ↦ ground (arith, before, put, same, c)
      ];
  later = r.later;
  signalled = λ z m. elim (ℕ_discrete x z) [
    | yes c ↦
        subst (λ k. a'.pending k ≡ bit_or (a.pending k) sigalrm) c
          ((r.kept x o).0 ∙ pending_self now x a)
    | no c ↦
        r.signalled z (ground (arith, m, c))
        ∙ ap (λ k. bit_or k sigalrm) (pending_other now x z a c)
  ];
  next = λ z m. elim (ℕ_discrete x z) [
    | yes c ↦
        subst (λ k. a'.queue.tick k ≡ next_tick now (a.interval k)) c
          ((r.kept x o).1 ∙ tick_self now x a)
    | no c ↦ r.next z (ground (arith, m, c)) ∙ ap (λ f. next_tick now (f z)) (interval-fire now x a)
  ];
  kept = λ z m.
      let c : x ≢ z = λ e. ground (arith, m, e) in
      let (p, t) = r.kept z (ground (arith, m)) in
      (p ∙ pending_other now x z a c, t ∙ tick_other now x z a c);
  same_intervals = r.same_intervals ∙ interval-fire now x a;
}

ring_all :
    (out left : List ℕ) (n now : ℕ) (a : Alarms)
    → InOrder a.queue (out ++ left)
    → ((z : ℕ) → mem z out ≡ true → a.queue.tick z ≤ now)
    → ((z : ℕ) → mem z left ≡ true → now < a.queue.tick z)
    → ((z : ℕ) → mem z out ≡ true → now + a.interval z < 2 ^ 32)
    → length out < n
    → (a' : Alarms) × (ring_alarms n now a ≡ some a') × Rung now a out left a'
unfolding mem Distinct
ring_all out left zero now a o due later fits l = absurd (omega arith)
ring_all [] [] (suc n) now a o due later fits l =
    (a, ring_ends n now a (nothing_due now a.queue o.holds), nobody-Rung now a [] o later)
ring_all [] (y ∷ ys) (suc n) now a o due later fits l =
    let (h, e) = head-due now y a.queue ys o.holds in
    let late = later y (ground arith) in
    (a, ring_ends n now a (ground (arith, e, late)), nobody-Rung now a (y ∷ ys) o later)
ring_all (x ∷ out) left (suc n) now a o due later fits l =
    let (h, e) = head-due now x a.queue (out ++ left) o.holds in
    let early = due x (ground arith) in
    let goes = ring_goes n now a (ground (arith, e, early)) in
    let fit = fits x (ground arith) in
    let absent : mem x (out ++ left) ≡ false = o.holds.distinct.0 in
    let not_out : mem x out ≡ false = ground (arith, absent, mem-append x out left) in
    let not_left : mem x left ≡ false = ground (arith, absent, mem-append x out left) in
    let other : (z : ℕ) → mem z out ≡ true → x ≢ z =
      λ z m c. ground (arith, m, subst (λ k. mem k out ≡ false) c not_out) in
    let (a', run, r) =
      ring_all out (behind now x a left) n now (fire now x a)
        (subst (InOrder (fire now x a).queue)
          (behind-append now x a out left absent (λ z m. due z (ground (arith, m))) fit)
          (fire-InOrder now x a (out ++ left) o))
        (λ z m.
          let before = due z (ground (arith, m)) in
          omega (arith, before, tick_other now x z a (other z m)))
        (behind_later now x a left not_left fit later)
        (λ z m.
          let before = fits z (ground (arith, m)) in
          let same = ap (λ f. f z) (interval-fire now x a) in omega (arith, before, same))
        (omega arith) in
    (
      a',
      goes ∙ ap (λ k. ring_alarms n now (fire now k a)) h ∙ run,
      Rung-first now x a out left a' not_out r,
    )

-- From an alarm queue in order, where no alarm that is due repeats past the 32 bits of the clock,
-- the loop ends within a round more than there are addresses. The alarms that are due have rung:
-- SIGALRM is pending for their processes; the repeating ones of them, and no others, wait with
-- those that were not due, at the present tick and their interval; the queue is in order and no
-- alarm on it is due.
pub ring_alarms-Rung :
    (now : ℕ) (a : Alarms) (xs : List ℕ)
    → InOrder a.queue xs
    → ((z : ℕ) → mem z xs ≡ true → a.queue.tick z ≤ now → now + a.interval z < 2 ^ 32)
    → (out : List ℕ) × (left : List ℕ) × (a' : Alarms) × (xs ≡ out ++ left)
      × ((z : ℕ) → mem z out ≡ true → a.queue.tick z ≤ now)
      × ((z : ℕ) → mem z left ≡ true → now < a.queue.tick z)
      × (ring_alarms (suc address_limit) now a ≡ some a')
      × Rung now a out left a'
ring_alarms-Rung now a xs o fits =
    let w = expire-Woken now a.queue xs o.holds o.sorted in
    let out = (expire address_limit now a.queue).0 in
    let few : length out ≤ length xs = short out w.left xs w.split in
    let most = length-le address_limit xs o.holds.distinct o.holds.small in
    let (a', run, r) =
      ring_all out w.left (suc address_limit) now a (subst (InOrder a.queue) w.split o) w.due
        w.later
        (λ z m.
          fits z
            (subst (λ zs. mem z zs ≡ true) (sym w.split)
              (ground (arith, m, mem-append z out w.left)))
            (w.due z m))
        (omega (arith, few, most)) in
    (out, w.left, a', w.split, w.due, w.later, run, r)
  where
    short : (out left xs : List ℕ) → xs ≡ out ++ left → length out ≤ length xs
    short out left xs e = omega (arith, ap length e, length-append out left)
