-- ===== src/TimerQueue/Sorted.antt =====
-- When a timer queue holds a list of processes, and the lists sorted by time.
use adr_os.Prelude.{
  ℕ, ◌≤◌, ◌<◌, ◌≡◌, refl, true, ◌||◌, List, [], ◌∷◌, ◌++◌, if◌then◌else◌, leb, ◌==◌, arith, length,
  count_true, count_true-on, count_true-le, count_true-none, if_cases, ℕ_discrete, subst,
}
use adr_os.Links.{Links, null, mem}
use adr_os.Links.Segment.{Segment, done, Distinct}
use adr_os.TimerQueue.{TimerQueue, address_limit, init}

-- `xs` is what waits, the next to expire first.
pub record Holds (q : TimerQueue) (xs : List ℕ) : Type 0 where
  pub last : ℕ
  pub segment : Segment q.links null q.head xs last null
  pub distinct : Distinct xs
  -- the flag in the process says whether it waits
  pub flags : (z : ℕ) → q.queued z ≡ mem z xs
  pub small : (z : ℕ) → mem z xs ≡ true → z < address_limit

-- No process waits behind a later one.
unfoldable pub Sorted : (ℕ → ℕ) → List ℕ → Type 0
Sorted tick [] = Unit
Sorted tick (x ∷ xs) = ((y : ℕ) → mem y xs ≡ true → tick x ≤ tick y) × Sorted tick xs

-- `p` put before the first process with its time or a later one
unfoldable pub insert_before : (ℕ → ℕ) → ℕ → List ℕ → List ℕ
insert_before tick p [] = p ∷ []
insert_before tick p (x ∷ xs) =
    if leb (tick p) (tick x) then p ∷ x ∷ xs else x ∷ insert_before tick p xs

pub mem-insert_before :
    (tick : ℕ → ℕ) (p z : ℕ) (xs : List ℕ) → mem z (insert_before tick p xs) ≡ (p == z || mem z xs)
unfolding mem insert_before
mem-insert_before tick p z [] = refl
mem-insert_before tick p z (x ∷ xs) = ground (arith, mem-insert_before tick p z xs)

-- The insertion keeps the order.
pub insert_before-Sorted :
    (tick : ℕ → ℕ) (p : ℕ) (xs : List ℕ) → Sorted tick xs → Sorted tick (insert_before tick p xs)
unfolding Sorted insert_before mem
insert_before-Sorted tick p [] s = (λ y m. absurd (ground (arith, m)), tt)
insert_before-Sorted tick p (x ∷ xs) (f, s) =
    if_cases (Sorted tick) (leb (tick p) (tick x)) (p ∷ x ∷ xs) (x ∷ insert_before tick p xs)
      (λ e. (
        λ y m. elim (ℕ_discrete x y) [
          | yes q ↦ subst (λ k. tick p ≤ tick k) q (ground (arith, e))
          | no q ↦ let later = f y (ground (arith, m, q)) in ground (arith, e, later)
        ],
        (f, s),
      ))
      (λ e. (
        λ y m. elim (ℕ_discrete p y) [
          | yes q ↦ subst (λ k. tick x ≤ tick k) q (ground (arith, e))
          | no q ↦ f y (ground (arith, m, q, mem-insert_before tick p y xs))
        ],
        insert_before-Sorted tick p xs s,
      ))

-- A list without repetition of numbers below `n` has at most `n` of them.
pub length-le :
    (n : ℕ) (xs : List ℕ) → Distinct xs → ((z : ℕ) → mem z xs ≡ true → z < n) → length xs ≤ n
unfolding Distinct mem
length-le n xs d small = omega (arith, counted xs d small, count_true-le (λ z. mem z xs) n)
  where
    counted :
        (xs : List ℕ)
        → Distinct xs
        → ((z : ℕ) → mem z xs ≡ true → z < n)
        → count_true (λ z. mem z xs) n ≡ length xs
    counted [] d small = count_true-none n
    counted (x ∷ xs) (o, d) small =
        let more =
          count_true-on (λ z. mem z xs) (λ z. mem z (x ∷ xs)) x n (small x (ground arith)) o
            (ground arith) (λ z ne. ground (arith, ne)) in
        omega (arith, more, counted xs d (λ z m. small z (ground (arith, m))))

-- What is left behind the first processes is sorted.
pub Sorted-append :
    (tick : ℕ → ℕ) (out left : List ℕ) → Sorted tick (out ++ left) → Sorted tick left
unfolding Sorted
Sorted-append tick [] left s = s
Sorted-append tick (x ∷ out) left (f, s) = Sorted-append tick out left s

-- At boot nothing sleeps.
pub init-Holds : (memory : Links) (time : ℕ → ℕ) → Holds (init memory time) []
unfolding init mem Distinct
init-Holds memory time = record {
  last = null;
  segment = done refl refl;
  distinct = tt;
  flags = λ z. refl;
  small = λ z m. absurd (ground (arith, m));
}
