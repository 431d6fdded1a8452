-- ===== src/TimerQueue/Alarms/Sorting.antt =====
-- Timer queues in order, under the insert and the remove of src/kernel/scheduler.c, where the time
-- of a process changes while it is off the queue.
use adr_os.Prelude.{
  ℕ, ◌<◌, ◌≡◌, ◌≢◌, refl, sym, true, false, List, [], ◌∷◌, ◌++◌, ◌==◌, arith, if_cases, subst,
  update, update-other,
}
use adr_os.Links.{null, mem, without}
use adr_os.Links.Segment.{null-mem}
use adr_os.Links.Remove.{mem-without}
use adr_os.TimerQueue.{TimerQueue, address_limit, insert, remove}
use adr_os.TimerQueue.Sorted.{Holds, Sorted, insert_before, insert_before-Sorted}
use adr_os.TimerQueue.Insert.{insert-Holds, tick-insert}
use adr_os.TimerQueue.Remove.{remove-Holds, tick-remove}
use adr_os.TimerQueue.Alarms.{set_tick}

-- The queue holds `xs`, the first to expire first.
pub record InOrder (q : TimerQueue) (xs : List ℕ) : Type 0 where
  pub holds : Holds q xs
  pub sorted : Sorted q.tick xs

pub Sorted-congr :
    (f g : ℕ → ℕ) (xs : List ℕ)
    → ((z : ℕ) → mem z xs ≡ true → g z ≡ f z)
    → Sorted f xs
    → Sorted g xs
unfolding Sorted mem
Sorted-congr f g [] e s = tt
Sorted-congr f g (x ∷ xs) e (first, s) = (
  λ y m.
      let here = e x (ground arith) in
      let there = e y (ground (arith, m)) in let le = first y m in omega (arith, here, there, le),
  Sorted-congr f g xs (λ z m. e z (ground (arith, m))) s,
)

Sorted-without : (tick : ℕ → ℕ) (p : ℕ) (xs : List ℕ) → Sorted tick xs → Sorted tick (without p xs)
unfolding Sorted without
Sorted-without tick p [] s = tt
Sorted-without tick p (x ∷ xs) (first, s) =
    if_cases (Sorted tick) (x == p) xs (x ∷ without p xs) (λ e. s)
      (λ e. (λ y m. first y (mem-without p y xs m), Sorted-without tick p xs s))

-- A process with a later time than the first ones is inserted behind them.
pub insert_before-append :
    (tick : ℕ → ℕ) (p : ℕ) (out left : List ℕ)
    → ((z : ℕ) → mem z out ≡ true → tick z < tick p)
    → insert_before tick p (out ++ left) ≡ out ++ insert_before tick p left
unfolding insert_before mem
insert_before-append tick p [] left f = refl
insert_before-append tick p (x ∷ out) left f =
    let before = f x (ground arith) in
    ground (arith, before, insert_before-append tick p out left (λ z m. f z (ground (arith, m))))

-- The insertion looks at no other time than those of the list and of the process itself.
pub insert_before-congr :
    (f g : ℕ → ℕ) (p : ℕ) (xs : List ℕ)
    → g p ≡ f p
    → ((z : ℕ) → mem z xs ≡ true → g z ≡ f z)
    → insert_before g p xs ≡ insert_before f p xs
unfolding insert_before mem
insert_before-congr f g p [] e h = refl
insert_before-congr f g p (x ∷ xs) e h =
    let here = h x (ground arith) in
    ground (arith, e, here, insert_before-congr f g p xs e (λ z m. h z (ground (arith, m))))

-- Who waits is a process with an address.
pub mem-nonnull : (q : TimerQueue) (p : ℕ) (xs : List ℕ) → Holds q xs → mem p xs ≡ true → p ≢ null
mem-nonnull q p xs h m e =
    ground (arith, m, subst (λ k. mem k xs ≡ false) (sym e) (null-mem q.links xs h.segment))

pub remove-InOrder :
    (q : TimerQueue) (p : ℕ) (xs : List ℕ) → InOrder q xs → InOrder (remove p q) (without p xs)
remove-InOrder q p xs o = record {
  holds = remove-Holds q p xs o.holds;
  sorted =
      subst (λ f. Sorted f (without p xs)) (sym (tick-remove p q))
        (Sorted-without q.tick p xs o.sorted);
}

module _ (q : TimerQueue) (p tick : ℕ) (xs : List ℕ) (o : InOrder q xs)
    (out : mem p xs ≡ false) where
  pub set_tick-InOrder : InOrder (set_tick p tick q) xs
  set_tick-InOrder = record {
    holds = record {
      last = o.holds.last;
      segment = o.holds.segment;
      distinct = o.holds.distinct;
      flags = o.holds.flags;
      small = o.holds.small;
    };
    sorted =
        Sorted-congr q.tick (update q.tick p tick) xs
          (λ z m.
            update-other q.tick p z tick
              (λ e. ground (arith, m, subst (λ k. mem k xs ≡ false) e out)))
          o.sorted;
  }

  -- The process put back with another time.
  pub put_back-InOrder :
      p ≢ null
      → p < address_limit
      → InOrder (insert p (set_tick p tick q)) (insert_before (update q.tick p tick) p xs)
  put_back-InOrder np low = record {
    holds = insert-Holds (set_tick p tick q) p xs set_tick-InOrder.holds np low out;
    sorted =
        subst (λ f. Sorted f (insert_before (update q.tick p tick) p xs))
          (sym (tick-insert p (set_tick p tick q)))
          (insert_before-Sorted (update q.tick p tick) p xs set_tick-InOrder.sorted);
  }
