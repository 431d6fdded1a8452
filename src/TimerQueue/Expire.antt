-- ===== src/TimerQueue/Expire.antt =====
-- The sleep queue at a tick of the timer: exactly the processes whose time has come are woken.
use adr_os.Prelude.{
  ℕ, zero, suc, ◌≤◌, ◌<◌, ◌≡◌, refl, sym, ◌∙◌, ap, ap₂, Bool, true, false, not, ◌&&◌, List, [], ◌∷◌,
  ◌++◌, leb, ◌==◌, arith, length, Bool-cases, subst, inl, inr, ◌≢◌, ℕ_discrete,
}
use adr_os.Links.{null, mem, without}
use adr_os.Links.Segment.{Segment, done, node}
use adr_os.TimerQueue.{TimerQueue, remove, expire, address_limit}
use adr_os.TimerQueue.Sorted.{Holds, Sorted, length-le}
use adr_os.TimerQueue.Remove.{remove-Holds, tick-remove}

-- The queue after the loop, and who was woken: all whose time has come and no other, in order.
pub record Woken (now : ℕ) (q : TimerQueue) (xs : List ℕ) (out : List ℕ) (q' : TimerQueue)
    : Type 0 where
  pub left : List ℕ
  pub holds : Holds q' left
  pub split : xs ≡ out ++ left
  pub due : (z : ℕ) → mem z out ≡ true → q.tick z ≤ now
  pub later : (z : ℕ) → mem z left ≡ true → now < q.tick z
  pub same_ticks : q'.tick ≡ q.tick

head_of :
    (q : TimerQueue) {t : ℕ} (x : ℕ) (xs : List ℕ)
    → Segment q.links null q.head (x ∷ xs) t null
    → (q.head ≡ x) × (x ≢ null)
head_of q x xs (node a n p s) = (a, n)

no_head : (q : TimerQueue) {t : ℕ} → Segment q.links null q.head [] t null → q.head ≡ null
no_head q (done a b) = a

-- the test of the loop
unfoldable pub due_head : ℕ → TimerQueue → Bool
due_head now q = not (q.head == null) && leb (q.tick q.head) now

pub expire_stops : (n now : ℕ) (q : TimerQueue) → due_head now q ≡ false → expire n now q ≡ ([], q)
unfolding expire due_head
expire_stops zero now q e = refl
expire_stops (suc n) now q e =
    ap
      (λ (b : Bool). elim b as (λ x. List ℕ × TimerQueue) [
        | true ↦ (q.head ∷ (expire n now (remove q.head q)).0, (expire n now (remove q.head q)).1)
        | false ↦ ([], q)
      ])
      e

expire_goes :
    (n now : ℕ) (q : TimerQueue)
    → due_head now q ≡ true
    → expire (suc n) now q
      ≡ (q.head ∷ (expire n now (remove q.head q)).0, (expire n now (remove q.head q)).1)
unfolding expire due_head
expire_goes n now q e =
    ap
      (λ (b : Bool). elim b as (λ x. List ℕ × TimerQueue) [
        | true ↦ (q.head ∷ (expire n now (remove q.head q)).0, (expire n now (remove q.head q)).1)
        | false ↦ ([], q)
      ])
      e

stopped :
    (now : ℕ) (q : TimerQueue) (xs : List ℕ)
    → Holds q xs
    → ((z : ℕ) → mem z xs ≡ true → now < q.tick z)
    → Woken now q xs [] q
unfolding mem
stopped now q xs h f = record {
  left = xs;
  holds = h;
  split = refl;
  due = λ z m. absurd (ground (arith, m));
  later = f;
  same_ticks = refl;
}

-- One more process is woken before the others.
Woken-first :
    (now x : ℕ) (q : TimerQueue) (xs out : List ℕ) (q' : TimerQueue)
    → q.head ≡ x
    → q.tick x ≤ now
    → Woken now (remove q.head q) xs out q'
    → Woken now q (x ∷ xs) (q.head ∷ out) q'
unfolding mem
Woken-first now x q xs out q' a e w =
    let same = tick-remove q.head q in
    record {
      left = w.left;
      holds = w.holds;
      split = ap₂ (λ k r. k ∷ r) (sym a) w.split;
      due = λ z m. elim (ℕ_discrete q.head z) [
        | yes c ↦ subst (λ k. q.tick k ≤ now) (sym a ∙ c) e
        | no c ↦ subst (λ f. f z ≤ now) same (w.due z (ground (arith, m, c)))
      ];
      later = λ z m. subst (λ f. now < f z) same (w.later z m);
      same_ticks = w.same_ticks ∙ same;
    }

expire_fuel :
    (n now : ℕ) (q : TimerQueue) (xs : List ℕ)
    → Holds q xs
    → Sorted q.tick xs
    → length xs ≤ n
    → Woken now q xs (expire n now q).0 (expire n now q).1
unfolding mem due_head without Sorted
expire_fuel n now q [] h s l =
    let e : due_head now q ≡ false = ground (arith, no_head q h.segment) in
    subst (λ (a : List ℕ × TimerQueue). Woken now q [] a.0 a.1) (sym (expire_stops n now q e))
      (stopped now q [] h (λ z m. absurd (ground (arith, m))))
expire_fuel zero now q (x ∷ xs) h s l = absurd (omega arith)
expire_fuel (suc n) now q (x ∷ xs) h (first, s) l =
    let (a, nn) = head_of q x xs h.segment in
    elim (Bool-cases (due_head now q)) [
      | inl e ↦
          let rest : without q.head (x ∷ xs) ≡ xs = ground (arith, a) in
          let h' = subst (Holds (remove q.head q)) rest (remove-Holds q q.head (x ∷ xs) h) in
          let s' = subst (λ f. Sorted f xs) (sym (tick-remove q.head q)) s in
          let due : q.tick x ≤ now = ground (arith, e, ap q.tick a) in
          subst (λ (b : List ℕ × TimerQueue). Woken now q (x ∷ xs) b.0 b.1)
            (sym (expire_goes n now q e))
            (Woken-first now x q xs (expire n now (remove q.head q)).0
              (expire n now (remove q.head q)).1 a due
              (expire_fuel n now (remove q.head q) xs h' s' (omega arith)))
      | inr e ↦
          let late : now < q.tick x = ground (arith, e, a, nn, ap q.tick a) in
          subst (λ (b : List ℕ × TimerQueue). Woken now q (x ∷ xs) b.0 b.1)
            (sym (expire_stops (suc n) now q e))
            (stopped now q (x ∷ xs) h (λ z m. elim (ℕ_discrete x z) [
              | yes c ↦ subst (λ k. now < q.tick k) c late
              | no c ↦ let after = first z (ground (arith, m, c)) in omega (arith, late, after)
            ]))
    ]

-- From a sorted queue, at a tick, the processes taken off are exactly those whose time has come,
-- in the order of the queue; the others wait on, in the same order. 2^32 rounds of the loop are
-- enough.
pub expire-Woken :
    (now : ℕ) (q : TimerQueue) (xs : List ℕ)
    → Holds q xs
    → Sorted q.tick xs
    → Woken now q xs (expire address_limit now q).0 (expire address_limit now q).1
expire-Woken now q xs h s =
    expire_fuel address_limit now q xs h s (length-le address_limit xs h.distinct h.small)
