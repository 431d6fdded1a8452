-- ===== src/TimerQueue/Remove.antt =====
-- `sleep_queue_remove` takes a process off the queue if it waits there.
use adr_os.Prelude.{
  ℕ, ◌<◌, ◌≡◌, ◌≢◌, refl, sym, ◌∙◌, ap, true, false, List, [], ◌∷◌, ◌++◌, if◌then◌else◌, ◌==◌,
  arith, Bool-cases, ℕ_discrete, subst, inl, inr, update, update_self, update-other,
}
use adr_os.Links.{null, mem, without}
use adr_os.Links.Segment.{Distinct, Distinct-append, append-Distinct, mem-append}
use adr_os.Links.Remove.{unlink-Segment, split_at, not_before, without-split}
use adr_os.TimerQueue.{TimerQueue, address_limit, take_out, remove}
use adr_os.TimerQueue.Sorted.{Holds}

without-out : (p : ℕ) (xs : List ℕ) → mem p xs ≡ false → without p xs ≡ xs
unfolding without mem
without-out p [] o = refl
without-out p (x ∷ xs) o = ground (arith, o, without-out p xs (ground (arith, o)))

module _ (q : TimerQueue) (p : ℕ) (xs ys : List ℕ) (h : Holds q (xs ++ p ∷ ys)) where
  apart : (z : ℕ) → mem z xs ≡ true → mem z (p ∷ ys) ≡ false
  apart = (Distinct-append xs (p ∷ ys) h.distinct).2

  Distinct-left : Distinct (xs ++ ys)
  unfolding Distinct mem
  Distinct-left =
      let (d1, d2, f) = Distinct-append xs (p ∷ ys) h.distinct in
      append-Distinct xs ys d1 d2.1 (λ z m. ground (arith, f z m))

  gone : mem p (xs ++ ys) ≡ false
  unfolding Distinct mem
  gone =
      let (d1, d2, f) = Distinct-append xs (p ∷ ys) h.distinct in
      ground (arith, not_before p xs ys h.distinct, d2.0, mem-append p xs ys)

  others : (z : ℕ) → p ≢ z → mem z (xs ++ p ∷ ys) ≡ mem z (xs ++ ys)
  unfolding mem
  others z n = ground (arith, n, mem-append z xs ys, mem-append z xs (p ∷ ys))

  flag_cleared : (z : ℕ) → update q.queued p false z ≡ mem z (xs ++ ys)
  flag_cleared z = elim (ℕ_discrete p z) [
    | yes e ↦
        subst (λ k. update q.queued p false k ≡ mem k (xs ++ ys)) e
          (update_self q.queued p false ∙ sym gone)
    | no e ↦ update-other q.queued p z false e ∙ h.flags z ∙ others z e
  ]

  small_still : (z : ℕ) → mem z (xs ++ ys) ≡ true → z < address_limit
  small_still z m = elim (ℕ_discrete p z) [
    | yes e ↦ absurd (ground (arith, m, subst (λ k. mem k (xs ++ ys) ≡ false) e gone))
    | no e ↦ h.small z (others z e ∙ m)
  ]

  here : mem p (xs ++ p ∷ ys) ≡ true
  unfolding mem
  here = ground (arith, mem-append p xs (p ∷ ys))

  remove_split : Holds (remove p q) (xs ++ ys)
  unfolding remove take_out
  remove_split =
      subst (λ b. Holds (if b then take_out p q else q) (xs ++ ys)) (sym (h.flags p ∙ here))
        (record {
          last = if q.links.next p == null then q.links.prev p else h.last;
          segment = unlink-Segment q.links p xs ys h.distinct h.segment;
          distinct = Distinct-left;
          flags = flag_cleared;
          small = small_still;
        })

-- A process that waits is taken off the queue wherever it stands; one that does not wait leaves
-- the queue as it is.
pub remove-Holds :
    (q : TimerQueue) (p : ℕ) (xs : List ℕ) → Holds q xs → Holds (remove p q) (without p xs)
unfolding remove
remove-Holds q p xs h = elim (Bool-cases (mem p xs)) [
  | inl m ↦
      let (before, after, e) = split_at p xs m in
      let h' = subst (Holds q) e h in
      subst (Holds (remove p q))
        (sym
          (ap (without p) e ∙ without-split p before after (not_before p before after h'.distinct)))
        (remove_split q p before after h')
  | inr o ↦
      subst (Holds (remove p q)) (sym (without-out p xs o))
        (subst (λ b. Holds (if b then take_out p q else q) xs) (sym (h.flags p ∙ o)) h)
]

pub tick-remove : (p : ℕ) (q : TimerQueue) → (remove p q).tick ≡ q.tick
unfolding remove take_out
tick-remove p q = ground arith

pub remove_unqueued : (p : ℕ) (q : TimerQueue) → q.queued p ≡ false → remove p q ≡ q
unfolding remove
remove_unqueued p q e = ap (λ b. if b then take_out p q else q) e
