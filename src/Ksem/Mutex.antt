-- ===== src/Ksem/Mutex.antt =====
-- The tokens of a semaphore over every interleaving, and the mutual exclusion of the mutex.
use adr_os.Prelude.{
  ℕ, ◌+◌, ◌<◌, ◌≡◌, ◌≢◌, sym, ap, Bool, true, false, Option, none, some, if◌then◌else◌, ltb, arith,
  Bool-cases, Option-cases, subst, inl, inr, update, count_true-none, count_true-two,
}
use adr_os.Links.{mem, without}
use adr_os.Links.Segment.{Distinct}
use adr_os.Sched.{ready}
use adr_os.Ksem.{Ksem, ksem_init, wait_begin, wait_end, find_waiter, ksem_signal}
use adr_os.Ksem.Tokens.{mem-find_waiter}
use adr_os.Ksem.Threads.{
  outside, inside, System, Step, take, block, finish, unlock, elsewhere, Reach, start, step,
  granted, has_it, Counted,
}
use adr_os.Ksem.Steps.{
  begin_taken, begin_blocks, took, take-Counted, block-Counted, gave_up, gave_up-Counted, noticed,
  noticed-Counted, returned, returned-Counted, handed, after, handed-Counted,
}

wait_end_listed :
    (p : ℕ) (s : Ksem)
    → mem p s.waiters ≡ true
    → wait_end p s ≡ (false, record s { waiters = without p s.waiters })
unfolding wait_end
wait_end_listed p s m =
    ap (λ (b : Bool). if b then (false, record s { waiters = without p s.waiters }) else (true, s))
      m

wait_end_unlisted : (p : ℕ) (s : Ksem) → mem p s.waiters ≡ false → wait_end p s ≡ (true, s)
unfolding wait_end
wait_end_unlisted p s m =
    ap (λ (b : Bool). if b then (false, record s { waiters = without p s.waiters }) else (true, s))
      m

signal_none :
    (s : Ksem)
    → find_waiter s.state s.waiters ≡ none
    → ksem_signal s ≡ record s { count = s.count + 1 }
unfolding ksem_signal
signal_none s e = ap (signalled s) e
  where
    signalled : Ksem → Option ℕ → Ksem
    signalled s o = elim o [
      | none ↦ (record s { count = s.count + 1 })
      | some p ↦ (record s { waiters = without p s.waiters; state = update s.state p ready })
    ]

signal_some :
    (s : Ksem) (w : ℕ)
    → find_waiter s.state s.waiters ≡ some w
    → ksem_signal s ≡ record s { waiters = without w s.waiters; state = update s.state w ready }
unfolding ksem_signal
signal_some s w e = ap (signalled s) e
  where
    signalled : Ksem → Option ℕ → Ksem
    signalled s o = elim o [
      | none ↦ (record s { count = s.count + 1 })
      | some p ↦ (record s { waiters = without p s.waiters; state = update s.state p ready })
    ]

-- Every step keeps the tokens.
step-Counted :
    (n tokens : ℕ) {s s' : System} → Counted n tokens s → Step n s s' → Counted n tokens s'
unfolding took gave_up noticed returned handed after granted
step-Counted n tokens c (take s p t low out e) =
    let (some_left, q) = begin_taken p t s.sem e in
    subst (λ k. Counted n tokens (record { sem = k; phase = update s.phase p inside })) (sym q)
      (take-Counted n tokens s c p low out some_left)
step-Counted n tokens c (block s p t low out e) =
    let (k, w) = begin_blocks p t s.sem e in
    block-Counted n tokens s c p low (wait_begin p t s.sem).1 out k w
step-Counted n tokens c (finish s p low out) = elim (Bool-cases (mem p s.sem.waiters)) [
  | inl m ↦
      let q : wait_end p s.sem ≡ (false, record s.sem { waiters = without p s.sem.waiters }) =
        wait_end_listed p s.sem m in
      subst
        (λ (k : Bool × Ksem).
          Counted n tokens
            (record { sem = k.1; phase = update s.phase p (if k.0 then inside else outside) }))
        (sym q) (gave_up-Counted n tokens s c p low out m)
  | inr m ↦
      let q : wait_end p s.sem ≡ (true, s.sem) = wait_end_unlisted p s.sem m in
      subst
        (λ (k : Bool × Ksem).
          Counted n tokens
            (record { sem = k.1; phase = update s.phase p (if k.0 then inside else outside) }))
        (sym q) (noticed-Counted n tokens s c p low out m)
]
step-Counted n tokens c (unlock s p low out) =
    elim (Option-cases (find_waiter s.sem.state s.sem.waiters)) [
      | inl e ↦
          subst (λ k. Counted n tokens (record { sem = k; phase = update s.phase p outside }))
            (sym (signal_none s.sem e)) (returned-Counted n tokens s c p low out)
      | inr (w, e) ↦
          subst (λ k. Counted n tokens (record { sem = k; phase = update s.phase p outside }))
            (sym (signal_some s.sem w e))
            (handed-Counted n tokens s c p low w (update s.sem.state w ready)
              (mem-find_waiter s.sem.state s.sem.waiters w e) out)
    ]
step-Counted n tokens c (elsewhere s state) = record {
  total = c.total;
  distinct = c.distinct;
  listed = c.listed;
}

-- A semaphore used like a mutex, where only a thread that was granted it signals it: in every
-- interleaving of such threads, the count of the semaphore and the threads that were granted it add
-- up to the initial count, the waiters are different threads, and each of them is in a wait.
pub Reach-Counted : {n tokens : ℕ} {s : System} → Reach n tokens s → Counted n tokens s
unfolding ksem_init granted has_it Distinct mem
Reach-Counted {n} {tokens} (start state) = record {
  total = omega (arith, count_true-none n);
  distinct = tt;
  listed = λ z m. absurd (ground (arith, m));
}
Reach-Counted {n} {tokens} (step {s} {s'} r e) = step-Counted n tokens (Reach-Counted r) e

-- A mutex, a semaphore that starts at 1, is never held by two threads, whatever the interleaving of
-- the sections of `kmutex_lock` and `kmutex_unlock` and whoever else wakes the waiters.
pub Reach-exclusive :
    {n : ℕ} {s : System} (p q : ℕ)
    → Reach n 1 s
    → p < n
    → q < n
    → p ≢ q
    → s.phase p ≡ inside
    → s.phase q ≢ inside
unfolding granted has_it
Reach-exclusive {n} {s} p q r a b ne e f =
    let c = Reach-Counted r in
    let ep : granted s p ≡ true = ap (λ k. has_it k (mem p s.sem.waiters)) e in
    let eq : granted s q ≡ true = ap (λ k. has_it k (mem q s.sem.waiters)) f in
    elim (Bool-cases (ltb p q)) [
      | inl l ↦
          let two = count_true-two (granted s) p q n (ground (arith, l)) b ep eq in
          omega (arith, c.total, two)
      | inr l ↦
          let two = count_true-two (granted s) q p n (ground (arith, l, ne)) a eq ep in
          omega (arith, c.total, two)
    ]
