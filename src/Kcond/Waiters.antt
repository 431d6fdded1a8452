-- ===== src/Kcond/Waiters.antt =====
-- What the sections of the condition variable of src/kernel/sync.c do to its waiters.
use adr_os.Prelude.{
  ℕ, ◌<◌, ◌≤◌, ◌≡◌, ◌≢◌, refl, ap, ◌∙◌, true, if◌then◌else◌, false, Option, none, some, List, [],
  ◌∷◌, ◌++◌, leb, length, arith, Bool-cases, ℕ_discrete, subst, inl, inr, update, update_self,
  update-other,
}
use adr_os.Links.{mem, without}
use adr_os.Sched.{ProcState, ready}
use adr_os.Ksem.{still_waits, find_waiter}
use adr_os.Kcond.{Kcond, max_sleepers, cond_begin, kcond_signal, wake_all}

pub length-without : (p : ℕ) (xs : List ℕ) → length (without p xs) ≤ length xs
unfolding without
length-without p [] = omega arith
length-without p (x ∷ xs) = ground (arith, length-without p xs)

-- A waiter found still waits.
pub find_waiter-still_waits :
    (state : ℕ → ProcState) (ps : List ℕ) (p : ℕ)
    → find_waiter state ps ≡ some p
    → still_waits (state p) ≡ true
unfolding find_waiter
find_waiter-still_waits state [] p e = absurd (ground (arith, e))
find_waiter-still_waits state (q ∷ qs) p e = elim (Bool-cases (still_waits (state q))) [
  | inl b ↦
      let same : q ≡ p = ground (arith, e, b) in subst (λ k. still_waits (state k) ≡ true) same b
  | inr b ↦ find_waiter-still_waits state qs p (ground (arith, e, b))
]

-- Where a waiter still waits, one is found.
pub find_waiter-finds :
    (state : ℕ → ProcState) (ps : List ℕ) (z : ℕ)
    → mem z ps ≡ true
    → still_waits (state z) ≡ true
    → find_waiter state ps ≢ none
unfolding find_waiter mem
find_waiter-finds state [] z m w e = absurd (ground (arith, m))
find_waiter-finds state (q ∷ qs) z m w e = elim (Bool-cases (still_waits (state q))) [
  | inl b ↦ absurd (ground (arith, e, b))
  | inr b ↦ elim (ℕ_discrete q z) [
    | yes same ↦ absurd (ground (arith, b, w, ap (λ k. still_waits (state k)) same))
    | no other ↦ find_waiter-finds state qs z (ground (arith, m, other)) w (ground (arith, e, b))
  ]
]

pub kcond_signal-none : (cv : Kcond) → find_waiter cv.state cv.waiters ≡ none → kcond_signal cv ≡ cv
unfolding kcond_signal
kcond_signal-none cv e = ap (signalled cv) e
  where
    signalled : Kcond → Option ℕ → Kcond
    signalled cv o = elim o [
      | none ↦ cv
      | some p ↦ (record { waiters = without p cv.waiters; state = update cv.state p ready })
    ]

pub kcond_signal-some :
    (cv : Kcond) (w : ℕ)
    → find_waiter cv.state cv.waiters ≡ some w
    → kcond_signal cv ≡ record { waiters = without w cv.waiters; state = update cv.state w ready }
unfolding kcond_signal
kcond_signal-some cv w e = ap (signalled cv) e
  where
    signalled : Kcond → Option ℕ → Kcond
    signalled cv o = elim o [
      | none ↦ cv
      | some p ↦ (record { waiters = without p cv.waiters; state = update cv.state p ready })
    ]

-- A first section that succeeds found room, lists the process, and changes the state of no other.
pub record Begun (p : ℕ) (cv cv' : Kcond) : Type 0 where
  pub room : length cv.waiters < max_sleepers
  pub listed : cv'.waiters ≡ cv.waiters ++ p ∷ []
  pub others : (z : ℕ) → p ≢ z → cv'.state z ≡ cv.state z

pub cond_begin-Begun :
    (p t : ℕ) (cv : Kcond) → (cond_begin p t cv).0 ≡ true → Begun p cv (cond_begin p t cv).1
unfolding cond_begin
cond_begin-Begun p t cv e = elim (Bool-cases (leb max_sleepers (length cv.waiters))) [
  | inl b ↦ absurd (ground (arith, e, b))
  | inr b ↦ (record {
    room = ground (arith, b);
    listed = ground (arith, b);
    others = λ z ne. ground (arith, b, ne);
  })
]

-- The loop of a broadcast leaves a process ready that is or was made so.
wake_all_keeps :
    (ps : List ℕ) (state : ℕ → ProcState) (z : ℕ)
    → still_waits (state z) ≡ false
    → wake_all ps state z ≡ state z
unfolding wake_all
wake_all_keeps [] state z w = refl
wake_all_keeps (p ∷ ps) state z w = elim (Bool-cases (still_waits (state p))) [
  | inl b ↦
      let ne : p ≢ z = λ e. ground (arith, b, w, ap (λ k. still_waits (state k)) e) in
      let one : update state p ready z ≡ state z = update-other state p z ready ne in
      let rest = wake_all_keeps ps (update state p ready) z (ap still_waits one ∙ w) in
      ap (λ c. wake_all ps (if c then update state p ready else state) z) b ∙ rest ∙ one
  | inr b ↦
      ap (λ c. wake_all ps (if c then update state p ready else state) z) b
      ∙ wake_all_keeps ps state z w
]

-- It makes ready every process of the list that waits.
pub wake_all-wakes :
    (ps : List ℕ) (state : ℕ → ProcState) (z : ℕ)
    → mem z ps ≡ true
    → still_waits (state z) ≡ true
    → wake_all ps state z ≡ ready
unfolding wake_all mem still_waits
wake_all-wakes [] state z m w = absurd (ground (arith, m))
wake_all-wakes (p ∷ ps) state z m w = elim (ℕ_discrete p z) [
  | yes e ↦
      let self : update state p ready z ≡ ready =
        subst (λ k. update state p ready k ≡ ready) e (update_self state p ready) in
      ap (λ c. wake_all ps (if c then update state p ready else state) z)
        (ap (λ k. still_waits (state k)) e ∙ w)
      ∙ wake_all_keeps ps (update state p ready) z (ap still_waits self)
      ∙ self
  | no e ↦ elim (Bool-cases (still_waits (state p))) [
    | inl b ↦
        ap (λ c. wake_all ps (if c then update state p ready else state) z) b
        ∙ wake_all-wakes ps (update state p ready) z (ground (arith, m, e))
            (ap still_waits (update-other state p z ready e) ∙ w)
    | inr b ↦
        ap (λ c. wake_all ps (if c then update state p ready else state) z) b
        ∙ wake_all-wakes ps state z (ground (arith, m, e)) w
  ]
]

-- Whatever the list, it puts nobody to sleep.
pub wake_all_sleepers :
    (ps : List ℕ) (state : ℕ → ProcState) (z : ℕ)
    → still_waits (wake_all ps state z) ≡ true
    → (still_waits (state z) ≡ true) × (mem z ps ≡ false)
unfolding still_waits
wake_all_sleepers ps state z w = elim (Bool-cases (still_waits (state z))) [
  | inl b ↦ elim (Bool-cases (mem z ps)) [
    | inl m ↦ absurd (ground (arith, w, ap still_waits (wake_all-wakes ps state z m b)))
    | inr m ↦ (b, m)
  ]
  | inr b ↦ absurd (ground (arith, w, b, ap still_waits (wake_all_keeps ps state z b)))
]
