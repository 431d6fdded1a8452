-- ===== src/Runqueue/Pick.antt =====
-- `rq_pick_next` returns the first process of the best priority that has one.
use adr_os.Prelude.{
  ℕ, zero, suc, ◌+◌, ◌<◌, ◌≤◌, ◌≡◌, ◌≢◌, ◌⊎◌, inl, inr, refl, sym, ◌∙◌, ap, true, false, List, [],
  ◌∷◌, arith, subst, Bool-cases, ℕ_discrete,
}
use adr_os.Prelude.WordBits.{test_bit, no_bits, test_bit-zero}
use adr_os.Links.{Links, null}
use adr_os.Links.Segment.{Segment, node}
use adr_os.Runqueue.{Runqueues, num_prios, ctz_from, bsf32, front, Pair, rq_pick_next}
use adr_os.Runqueue.Holds.{Holds, nonempty}

-- No bit from `k` on, or the lowest one.
ctz_from_lem :
    (n k v : ℕ)
    → ((i : ℕ) → k ≤ i → i < k + n → test_bit v i ≡ false)
      ⊎ ((ctz_from n k v < k + n)
          × (test_bit v (ctz_from n k v) ≡ true)
          × ((i : ℕ) → k ≤ i → i < ctz_from n k v → test_bit v i ≡ false))
unfolding ctz_from
ctz_from_lem zero k v = inl (λ i a b. absurd (omega arith))
ctz_from_lem (suc n) k v = elim (Bool-cases (test_bit v k)) [
  | inl e ↦ inr (ground (arith, e), ground (arith, e), λ i a b. absurd (ground (arith, e)))
  | inr e ↦ elim (ctz_from_lem n (k + 1) v) [
    | inl f ↦ inl (λ i a b. elim (ℕ_discrete k i) [
      | yes q ↦ subst (λ j. test_bit v j ≡ false) q e
      | no q ↦ f i (omega arith) (omega arith)
    ])
    | inr (l, t, f) ↦
        let skip : ctz_from (suc n) k v ≡ ctz_from n (k + 1) v = ground (arith, e) in
        inr (
          omega (arith, l, skip),
          ap (test_bit v) skip ∙ t,
          λ i a b. elim (ℕ_discrete k i) [
            | yes q ↦ subst (λ j. test_bit v j ≡ false) q e
            | no q ↦ f i (omega arith) (omega (arith, skip))
          ],
        )
  ]
]

-- Nothing waits in a store.
unfoldable pub Quiet : (ℕ → ℕ → List ℕ) → ℕ → Type 0
Quiet lists s = (k : ℕ) → k < num_prios → lists s k ≡ []

-- The process `p` is the first of the best priority in a store.
pub record First (lists : ℕ → ℕ → List ℕ) (s p : ℕ) : Type 0 where
  pub prio : ℕ
  pub in_range : prio < num_prios
  pub rest : List ℕ
  pub here : lists s prio ≡ p ∷ rest
  pub above : (k : ℕ) → k < prio → lists s k ≡ []

-- What `rq_pick_next` may answer: the first active process; the first expired one where nothing
-- is active, the two stores changing their roles; nothing where nothing waits at all.
pub data Picked (lists : ℕ → ℕ → List ℕ) (crq : Pair) : ℕ → Pair → Type 0 where
  from_active : {p : ℕ} → p ≢ null → First lists crq.active p → Picked lists crq p crq
  from_expired :
      {p : ℕ}
      → p ≢ null
      → Quiet lists crq.active
      → First lists crq.expired p
      → Picked lists crq p (record { active = crq.expired; expired = crq.active })
  nothing :
      Quiet lists crq.active
      → Quiet lists crq.expired
      → Picked lists crq null (record { active = crq.expired; expired = crq.active })

not_nonempty : (xs : List ℕ) → nonempty xs ≡ false → xs ≡ []
unfolding nonempty
not_nonempty [] e = refl
not_nonempty (x ∷ xs) e = absurd (ground (arith, e))

head_first :
    {l : Links} {b h t : ℕ} (xs : List ℕ)
    → Segment l b h xs t null
    → nonempty xs ≡ true
    → (h ≢ null) × (rest : List ℕ) × (xs ≡ h ∷ rest)
unfolding nonempty
head_first [] s e = absurd (ground (arith, e))
head_first (x ∷ xs) (node a n p s) e = (λ z. n (sym a ∙ z), xs, ap (λ k. k ∷ xs) (sym a))

module _ (r : Runqueues) (lists : ℕ → ℕ → List ℕ) (h : Holds r lists) (s : ℕ) where
  zero-Quiet : r.bitmap s ≡ 0 → Quiet lists s
  unfolding Quiet
  zero-Quiet e k l =
      not_nonempty (lists s k) (sym (h.bits s k l) ∙ ap (λ w. test_bit w k) e ∙ test_bit-zero k)

  front-First : r.bitmap s ≢ 0 → (front s r ≢ null) × First lists s (front s r)
  unfolding front bsf32
  front-First n = elim (ctz_from_lem num_prios 0 (r.bitmap s)) [
    | inl f ↦ absurd (n (no_bits 32 (r.bitmap s) (h.word s) (λ k l. f k (omega arith) l)))
    | inr (l, t, f) ↦
        let k = ctz_from num_prios 0 (r.bitmap s) in
        let (nn, rest, q) = head_first (lists s k) (h.segment s k) (sym (h.bits s k l) ∙ t) in
        (
          nn,
          record {
            prio = k;
            in_range = l;
            rest = rest;
            here = q;
            above = λ i a.
                not_nonempty (lists s i) (sym (h.bits s i (omega arith)) ∙ f i (omega arith) a);
          },
        )
  ]

-- The process picked is the first of the best priority with one, in the active store if anything
-- waits there, else in the expired store; NULL is returned only when both are empty.
pub rq_pick_next-Picked :
    (crq : Pair) (r : Runqueues) (lists : ℕ → ℕ → List ℕ)
    → Holds r lists
    → Picked lists crq (rq_pick_next crq r).0 (rq_pick_next crq r).1
unfolding rq_pick_next
rq_pick_next-Picked crq r lists h = elim (ℕ_discrete (r.bitmap crq.active) 0) [
  | no n ↦
      let (nn, f) = front-First r lists h crq.active n in
      let q : rq_pick_next crq r ≡ (front crq.active r, crq) = ground (arith, n) in
      subst (λ (a : ℕ × Pair). Picked lists crq a.0 a.1) (sym q) (from_active nn f)
  | yes e ↦ elim (ℕ_discrete (r.bitmap crq.expired) 0) [
    | no n ↦
        let (nn, f) = front-First r lists h crq.expired n in
        let q : rq_pick_next crq r ≡ (front crq.expired r, swapped) = ground (arith, e, n) in
        subst (λ (a : ℕ × Pair). Picked lists crq a.0 a.1) (sym q)
          (from_expired nn (zero-Quiet r lists h crq.active e) f)
    | yes e' ↦
        let q : rq_pick_next crq r ≡ (null, swapped) = ground (arith, e, e') in
        subst (λ (a : ℕ × Pair). Picked lists crq a.0 a.1) (sym q)
          (nothing (zero-Quiet r lists h crq.active e) (zero-Quiet r lists h crq.expired e'))
  ]
]
  where
    swapped : Pair
    swapped = record { active = crq.expired; expired = crq.active }
