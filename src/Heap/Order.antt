-- ===== src/Heap/Order.antt =====
-- `size_to_order`: the block size chosen for a request.
use adr_os.Prelude.{
  ℕ, zero, suc, subst, sym, ◌+◌, ◌-◌, ◌%◌, ◌^◌, ◌≤◌, ◌<◌, ◌≡◌, ◌⊎◌, inl, inr, refl, true, arith,
  ltb, if_cases,
}
use adr_os.Heap.{max_order, min_order, header_size, heap_size, order_from, size_to_order}

-- What the loop has found: the first order from `k` on that is large enough, or the last one.
record Found (k n total r : ℕ) : Type 0 where
  low : k ≤ r
  high : r ≤ k + n
  enough : (total ≤ 2 ^ r) ⊎ (r ≡ k + n)
  least : (r ≡ k) ⊎ (2 ^ (r - 1) < total)

order_from-Found : (n k total : ℕ) → Found k n total (order_from n k total)
unfolding order_from
order_from-Found zero k total = record {
  low = omega arith;
  high = omega arith;
  enough = inr (omega arith);
  least = inl refl;
}
order_from-Found (suc n) k total =
    if_cases (Found k (suc n) total) (ltb (2 ^ k) total) _ _
      (λ more. weaken more (order_from-Found n (k + 1) total))
      (λ done. record {
        low = omega arith;
        high = omega arith;
        enough = inl (ground arith);
        least = inl refl;
      })
  where
    step : (r : ℕ) → 2 ^ k < total → r ≡ k + 1 → 2 ^ (r - 1) < total
    step r h e = subst (λ t. 2 ^ t < total) (omega arith) h

    weaken : {r : ℕ} → ltb (2 ^ k) total ≡ true → Found (k + 1) n total r → Found k (suc n) total r
    weaken {r} more f = record {
      low = omega (arith, f.low);
      high = omega (arith, f.high);
      enough = elim f.enough [ inl e ↦ inl e | inr e ↦ inr (omega arith) ];
      least = elim f.least [ inl e ↦ inr (step r (ground arith) e) | inr e ↦ inr e ];
    }

pub size_to_order_bounds :
    (size : ℕ) → (min_order ≤ size_to_order size) × (size_to_order size ≤ max_order)
unfolding size_to_order
size_to_order_bounds size =
    let f = order_from-Found (max_order - min_order) min_order ((size + header_size) % 2 ^ 32) in
    (f.low, f.high)

-- A request that fits the heap gets the smallest order whose block holds it with its header.
pub size_to_order-fits :
    (size : ℕ)
    → size + header_size ≤ heap_size
    → (size + header_size ≤ 2 ^ size_to_order size)
      × ((size_to_order size ≡ min_order) ⊎ (2 ^ (size_to_order size - 1) < size + header_size))
unfolding size_to_order
size_to_order-fits size h =
    let total = (size + header_size) % 2 ^ 32 in
    let same : total ≡ size + header_size = omega arith in
    let r = order_from (max_order - min_order) min_order total in
    let f = order_from-Found (max_order - min_order) min_order total in
    (
      elim f.enough [
        | inl e ↦ omega arith
        | inr e ↦ subst (λ t. size + header_size ≤ 2 ^ t) (sym e) h
      ],
      elim f.least [ inl e ↦ inl e | inr e ↦ inr (omega arith) ],
    )
