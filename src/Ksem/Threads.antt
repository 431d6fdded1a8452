-- ===== src/Ksem/Threads.antt =====
-- The threads that use a semaphore of src/kernel/sync.c as a mutex, and how they interleave: the
-- steps of `kmutex_lock` and `kmutex_unlock`, and which thread has a token.
use adr_os.Prelude.{
  ℕ, ◌+◌, ◌<◌, ◌≡◌, ◌≢◌, ap, Bool, true, false, not, if◌then◌else◌, arith, Bool-cases, inl, inr,
  update, count_true, count_true-on,
}
use adr_os.Links.{mem}
use adr_os.Links.Segment.{Distinct}
use adr_os.Sched.{ProcState}
use adr_os.Ksem.{Ksem, ksem_init, taken, must_block, wait_begin, wait_end, ksem_signal}

-- A thread does not hold the lock, is between the two sections of its wait, or holds the lock.
pub data Phase : Type 0 where
  outside waiting inside : Phase

pub record System : Type 0 where
  pub sem : Ksem
  pub phase : ℕ → Phase

-- One step of `n` threads. `ksem_wait` tries again after a failure, which is a new step from
-- outside. The states of the processes may change in any way between the steps: the timer,
-- signals and the scheduler change them.
pub data Step (n : ℕ) : System → System → Type 0 where
  take :
      (s : System) (p t : ℕ)
      → p < n
      → s.phase p ≡ outside
      → (wait_begin p t s.sem).0 ≡ taken
      → Step n s (record { sem = (wait_begin p t s.sem).1; phase = update s.phase p inside })
  block :
      (s : System) (p t : ℕ)
      → p < n
      → s.phase p ≡ outside
      → (wait_begin p t s.sem).0 ≡ must_block
      → Step n s (record { sem = (wait_begin p t s.sem).1; phase = update s.phase p waiting })
  finish :
      (s : System) (p : ℕ)
      → p < n
      → s.phase p ≡ waiting
      → Step n s (record {
        sem = (wait_end p s.sem).1;
        phase = update s.phase p (if (wait_end p s.sem).0 then inside else outside);
      })
  unlock :
      (s : System) (p : ℕ)
      → p < n
      → s.phase p ≡ inside
      → Step n s (record { sem = ksem_signal s.sem; phase = update s.phase p outside })
  elsewhere :
      (s : System) (state : ℕ → ProcState)
      → Step n s (record s { sem = record s.sem { state = state } })

pub data Reach (n tokens : ℕ) : System → Type 0 where
  start :
      (state : ℕ → ProcState)
      → Reach n tokens (record { sem = ksem_init tokens state; phase = λ p. outside })
  step : {s s' : System} → Reach n tokens s → Step n s s' → Reach n tokens s'

-- The thread has the lock, whether it has noticed yet or not.
unfoldable pub has_it : Phase → Bool → Bool
has_it outside listed = false
has_it waiting listed = not listed
has_it inside listed = true

unfoldable pub granted : System → ℕ → Bool
granted s z = has_it (s.phase z) (mem z s.sem.waiters)

pub record Counted (n tokens : ℕ) (s : System) : Type 0 where
  pub total : s.sem.count + count_true (granted s) n ≡ tokens
  pub distinct : Distinct s.sem.waiters
  pub listed : (z : ℕ) → mem z s.sem.waiters ≡ true → (z < n) × (s.phase z ≡ waiting)

unfoldable pub is_waiting : Phase → Bool
is_waiting outside = false
is_waiting waiting = true
is_waiting inside = false

-- A thread that is not waiting is not on the list.
pub unlisted :
    (n tokens : ℕ) (s : System) (p : ℕ)
    → Counted n tokens s
    → is_waiting (s.phase p) ≡ false
    → mem p s.sem.waiters ≡ false
unfolding is_waiting
unlisted n tokens s p c e = elim (Bool-cases (mem p s.sem.waiters)) [
  | inl m ↦ absurd (ground (arith, e, ap is_waiting (c.listed p m).1))
  | inr m ↦ m
]

-- Counting over threads, one of which is granted the lock or gives it up.
pub one_more :
    (s s' : System) (p n : ℕ)
    → p < n
    → granted s p ≡ false
    → granted s' p ≡ true
    → ((z : ℕ) → p ≢ z → granted s z ≡ granted s' z)
    → count_true (granted s') n ≡ count_true (granted s) n + 1
one_more s s' p n l a b f = count_true-on (granted s) (granted s') p n l a b f
