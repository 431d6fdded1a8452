-- ===== src/Heap/Boot.antt =====
-- The heap that `kheap_init` leaves: one free block of 8 MB.
use adr_os.Prelude.{ℕ, ◌≡◌, refl, ap, subst, Bool, false, [], arith, ◌==◌, if_cases}
use adr_os.Heap.{Header, max_order, init}
use adr_os.Heap.Inv.{IsValid, Shape, used, contains-cons, contains-nil, Distinct}

abbrev pub root_only : ℕ → Bool
root_only o = o == 0

-- `kheap_init` leaves a valid heap, none of it in use, whatever the pages held.
pub init-IsValid : (m : ℕ → Header) → IsValid (init m) root_only
unfolding init
init-IsValid m = record {
  shape = λ o l. subst (Shape (init m)) {x = 0} (ground arith) (record {
    magic = refl;
    low = omega arith;
    high = omega arith;
    aligned = (0, refl);
    fits = omega arith;
  });
  apart = λ o p lo lp lt. absurd (ground arith);
  cover = λ x lt. (0, record { starts = refl; from = omega arith; upto = omega arith });
  listed = λ k o.
      ground
        (arith, contains-cons 0 [] o, contains-nil o, λ (e : 0 ≡ o). ap (λ t. (init m).header t) e);
  once = λ k. if_cases Distinct (max_order == k) _ _ (λ _. (contains-nil 0, tt)) (λ _. tt);
}

pub init-unused : (m : ℕ → Header) (x : ℕ) → used (init m) root_only x ≡ false
unfolding init
init-unused m x = ground arith
