-- ===== src/Ksem/Tokens.antt =====
-- What the sections of the semaphore do to its list of waiters.
use adr_os.Prelude.{
  ℕ, ◌≡◌, ◌≢◌, refl, true, false, some, List, [], ◌∷◌, ◌++◌, ◌==◌, arith, Bool-cases, if_cases,
  subst, inl, inr,
}
use adr_os.Links.{mem, without}
use adr_os.Links.Segment.{Distinct, append-Distinct}
use adr_os.Links.Remove.{mem-without}
use adr_os.Sched.{ProcState}
use adr_os.Ksem.{find_waiter, still_waits}

-- The waiter found is on the list.
pub mem-find_waiter :
    (state : ℕ → ProcState) (ps : List ℕ) (p : ℕ) → find_waiter state ps ≡ some p → mem p ps ≡ true
unfolding find_waiter mem
mem-find_waiter state [] p e = absurd (ground (arith, e))
mem-find_waiter state (q ∷ qs) p e = elim (Bool-cases (still_waits (state q))) [
  | inl b ↦ ground (arith, e, b)
  | inr b ↦ ground (arith, b, mem-find_waiter state qs p (ground (arith, e, b)))
]

-- Taking one process off leaves the others.
pub mem-without_other : (p z : ℕ) (xs : List ℕ) → p ≢ z → mem z (without p xs) ≡ mem z xs
unfolding mem without
mem-without_other p z [] n = refl
mem-without_other p z (x ∷ xs) n = ground (arith, n, mem-without_other p z xs n)

pub Distinct-without : (p : ℕ) (xs : List ℕ) → Distinct xs → Distinct (without p xs)
unfolding Distinct without mem
Distinct-without p [] d = tt
Distinct-without p (x ∷ xs) (o, d) =
    if_cases Distinct (x == p) xs (x ∷ without p xs) (λ e. d) (λ e. (gone, Distinct-without p xs d))
  where
    gone : mem x (without p xs) ≡ false
    gone = elim (Bool-cases (mem x (without p xs))) [
      | inl m ↦ absurd (ground (arith, o, mem-without p x xs m))
      | inr m ↦ m
    ]

pub Distinct-snoc : (p : ℕ) (xs : List ℕ) → mem p xs ≡ false → Distinct xs → Distinct (xs ++ p ∷ [])
unfolding Distinct mem
Distinct-snoc p xs o d =
    append-Distinct xs (p ∷ []) d (refl, tt)
      (λ z m. elim (Bool-cases (mem z (p ∷ []))) [
        | inl c ↦
            let q : p ≡ z = ground (arith, c) in
            absurd (ground (arith, m, subst (λ a. mem a xs ≡ false) q o))
        | inr c ↦ c
      ])
