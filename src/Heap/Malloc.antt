-- ===== src/Heap/Malloc.antt =====
-- `kmalloc`: what a caller gets, and when there is nothing to get.
use adr_os.Prelude.{
  ℕ, zero, suc, ◌+◌, ◌-◌, ◌^◌, ◌≤◌, ◌<◌, ◌≡◌, ◌≢◌, ◌⊎◌, refl, sym, ap, ◌∙◌, subst, Bool, true,
  false, none, some, List, [], ◌∷◌, arith, ltb, ◌==◌, ℕ_discrete, dec_lt, inl, inr, List-cases,
  if_cases,
}
use adr_os.Heap.{
  Heap, heap_size, max_order, header_size, buddy_magic, split, popped, find_order, size_to_order,
  take_block, kmalloc, Outcome, null, corruption, pointer, user_pointer,
}
use adr_os.Heap.Order.{size_to_order_bounds, size_to_order-fits}
use adr_os.Heap.Inv.{
  IsValid, held, order_at, free_at, contains, contains-cons, contains-nil, Distinct, used, Kept,
  Kept-trans, retile, set_free-order, set_free-magic, set_free-free,
}
use adr_os.Heap.Split.{split-Carved}

find_order-nil :
    (n k : ℕ) (h : Heap) → h.free_lists k ≡ [] → find_order (suc n) k h ≡ find_order n (k + 1) h
unfolding find_order
find_order-nil n k h e = rw (e, find_order) refl

find_order-cons :
    (n k : ℕ) (h : Heap) (o : ℕ) (os : List ℕ)
    → h.free_lists k ≡ o ∷ os
    → find_order (suc n) k h ≡ some (k, o, os)
unfolding find_order
find_order-cons n k h o os e = rw (e, find_order) refl

-- What the search over the orders returns is the first block of a list; if there is none, the
-- lists are empty.
FirstFree : ℕ → ℕ → Heap → Type 0
FirstFree n k h =
    ((find_order n k h ≡ none) × ((r : ℕ) → k ≤ r → r < k + n → h.free_lists r ≡ []))
    ⊎ ((r : ℕ) × (o : ℕ) × (os : List ℕ) × (find_order n k h ≡ some (r, o, os))
        × (k ≤ r)
        × (r < k + n)
        × (h.free_lists r ≡ o ∷ os))

find_order-zero : (k : ℕ) (h : Heap) → find_order 0 k h ≡ none
unfolding find_order
find_order-zero k h = refl

find_order-FirstFree : (n k : ℕ) (h : Heap) → FirstFree n k h
unfolding FirstFree
find_order-FirstFree zero k h = inl (find_order-zero k h, λ r a b. absurd (omega arith))
find_order-FirstFree (suc n) k h = elim (List-cases (h.free_lists k)) [
  | inl e ↦ elim (find_order-FirstFree n (k + 1) h) [
    | inl (f, all) ↦ inl (
      find_order-nil n k h e ∙ f,
      λ r a b. elim (ℕ_discrete k r) [
        | yes same ↦ subst (λ t. h.free_lists t ≡ []) same e
        | no other ↦ all r (omega arith) (omega arith)
      ],
    )
    | inr (r, o, os, f, a, b, c) ↦
        inr (r, o, os, find_order-nil n k h e ∙ f, omega arith, omega arith, c)
  ]
  | inr (o, os, e) ↦ inr (k, o, os, find_order-cons n k h o os e, omega arith, omega arith, e)
]

-- Taking the first block of a list leaves a valid heap with that block at hand.
popped-held :
    (k o : ℕ) (os : List ℕ) (h : Heap) (live : ℕ → Bool)
    → IsValid h live
    → h.free_lists k ≡ o ∷ os
    → IsValid (held o (popped k os h)) live
      × (live o ≡ true)
      × (order_at h o ≡ k)
      × (free_at h o ≡ true)
popped-held k o os h live v e =
    let at = v.listed k o in
    let seen : contains (h.free_lists k) o ≡ true =
      ap (λ xs. contains xs o) e ∙ contains-cons o os o ∙ ground arith in
    let l : live o ≡ true = ground (arith, at, seen) in
    let ord : order_at h o ≡ k = ground (arith, at, seen) in
    let free : free_at h o ≡ true = ground (arith, at, seen) in
    let d : Distinct (o ∷ os) = subst Distinct e (v.once k) in
    (
      retile (set_free-magic o false h) (set_free-order o false h)
          (λ n x. ground (
            arith,
            v.listed n x,
            v.listed n o,
            set_free-order o false h x,
            set_free-free o false h x,
            ap (λ xs. contains xs x) e,
            contains-cons o os x,
            d.0,
            ord,
            λ (q : k ≡ n). ap (λ t. contains (h.free_lists t) x) q,
            λ (q : o ≡ x). ap (contains os) q,
            λ (q : o ≡ x). ap (contains (h.free_lists n)) q,
          ))
          (λ n. if_cases Distinct (k == n) _ _ (λ _. d.1) (λ _. v.once n)) v,
      l,
      ord,
      free,
    )

-- A block given out: the heap is valid, the block at `o` was not in use and is now, it holds the
-- bytes asked for behind its header, and every other block in use is as it was.
pub record Granted (size : ℕ) (h : Heap) (live : ℕ → Bool) (o : ℕ) (h' : Heap) (live' : ℕ → Bool)
    : Type 0 where
  pub valid : IsValid h' live'
  pub taken : used h' live' o ≡ true
  pub was_free : used h live o ≡ false
  pub room : size + header_size ≤ 2 ^ order_at h' o
  pub kept : Kept o h live h' live'

take_block-ok :
    (order k o : ℕ) (h : Heap)
    → (h.header o).magic ≡ buddy_magic
    → free_at h o ≡ true
    → take_block order k o h ≡ (pointer (user_pointer o), held o (split (k - order) order o h))
unfolding take_block
take_block-ok order k o h m f = ground (arith, m, f)

-- The blocks in use are the same when only the block at hand is marked.
held-Kept :
    (k o : ℕ) (os : List ℕ) (h : Heap) (live : ℕ → Bool)
    → Kept o h live (held o (popped k os h)) live
held-Kept k o os h live = record {
  same_use = λ x p. ground (arith, set_free-free o false h x);
  same_order = λ x p u. set_free-order o false h x;
}

kmalloc-eq :
    (size : ℕ) (h : Heap)
    → 1 ≤ size
    → kmalloc size h
      ≡ elim (find_order (suc max_order - size_to_order size) (size_to_order size) h) [
        | none ↦ (null, h)
        | some (k, o, os) ↦ take_block (size_to_order size) k o (popped k os h)
      ]
unfolding kmalloc
kmalloc-eq size h p =
    let b = size_to_order_bounds size in
    let first : (size == 0) ≡ false = ground arith in
    let second : ltb max_order (size_to_order size) ≡ false = ground (arith, b.1) in
    rw (first, second) refl

kmalloc-zero : (size : ℕ) (h : Heap) → size ≡ 0 → kmalloc size h ≡ (null, h)
unfolding kmalloc
kmalloc-zero size h e = ground arith

-- A request of at least a byte ends without a block, the lists from its order on being empty, or
-- with one.
Granting : (size : ℕ) (h : Heap) (live : ℕ → Bool) → Type 0
Granting size h live =
    ((kmalloc size h ≡ (null, h))
      × ((k : ℕ) → size_to_order size ≤ k → k ≤ max_order → h.free_lists k ≡ []))
    ⊎ ((o : ℕ) × (live' : ℕ → Bool) × ((kmalloc size h).0 ≡ pointer (user_pointer o))
        × (size + header_size ≤ heap_size → Granted size h live o (kmalloc size h).1 live'))

kmalloc-Granting :
    (size : ℕ) (h : Heap) (live : ℕ → Bool) → IsValid h live → 1 ≤ size → Granting size h live
unfolding Granting FirstFree
kmalloc-Granting size h live v p =
    let order = size_to_order size in
    let b = size_to_order_bounds size in
    elim (find_order-FirstFree (suc max_order - order) order h) [
      | inl (e, all) ↦
          inl (kmalloc-eq size h p ∙ rw e refl, λ k low high. all k low (omega (arith, b.1)))
      | inr (k, o, os, e, low, high, first) ↦
          let g = popped k os h in
          let (w, l, ord, free) = popped-held k o os h live v first in
          let ok = take_block-ok order k o g ((v.shape o l).magic) free in
          let run : kmalloc size h
              ≡ (pointer (user_pointer o), held o (split (k - order) order o g)) =
            kmalloc-eq size h p ∙ rw e ok in
          let (live', c) =
            split-Carved (k - order) order o g live w l (omega (arith, ord, low)) b.0 in
          inr (
            o,
            live',
            ap (λ (r : Outcome × Heap). r.0) run,
            λ small.
                subst (λ r. Granted size h live o r live')
                  (sym (ap (λ (r : Outcome × Heap). r.1) run))
                  (record {
                    valid = c.valid;
                    taken = ground (arith, c.starts);
                    was_free = ground (arith, free);
                    room =
                        subst (λ t. size + header_size ≤ 2 ^ t)
                          (sym (set_free-order o false (split (k - order) order o g) o ∙ c.sized))
                          (size_to_order-fits size small).0;
                    kept = Kept-trans (held-Kept k o os h live) c.kept;
                  }),
          )
    ]

-- In a valid heap, a pointer that `kmalloc` returns, for a request of at least a byte that fits
-- the heap, is that of a block which was not in use and now is, with room for the bytes behind its
-- header; every other block in use keeps its place and order, and the heap is valid.
pub kmalloc-Granted :
    (size : ℕ) (h : Heap) (live : ℕ → Bool) {ptr : ℕ}
    → IsValid h live
    → 1 ≤ size
    → size + header_size ≤ heap_size
    → (kmalloc size h).0 ≡ pointer ptr
    → (o : ℕ) × (live' : ℕ → Bool) × (ptr ≡ user_pointer o)
      × Granted size h live o (kmalloc size h).1 live'
unfolding Granting
kmalloc-Granted size h live v p small e = elim (kmalloc-Granting size h live v p) [
  | inl (f, all) ↦ absurd (cc (ap (λ (r : Outcome × Heap). r.0) f))
  | inr (o, live', f, g) ↦ (o, live', cc, g small)
]

-- In a valid heap, a free block of the request's order or a larger one is enough for `kmalloc` to
-- return a pointer for a request of at least a byte.
pub kmalloc-finds :
    (size : ℕ) (h : Heap) (live : ℕ → Bool) (c : ℕ)
    → IsValid h live
    → 1 ≤ size
    → live c ≡ true
    → free_at h c ≡ true
    → size_to_order size ≤ order_at h c
    → (ptr : ℕ) × ((kmalloc size h).0 ≡ pointer ptr)
unfolding Granting
kmalloc-finds size h live c v p l f enough = elim (kmalloc-Granting size h live v p) [
  | inl (e, all) ↦
      let k = order_at h c in
      let none_there = ap (λ xs. contains xs c) (all k enough (v.shape c l).high) in
      absurd (ground (arith, v.listed k c, none_there, contains-nil c))
  | inr (o, live', e, g) ↦ (user_pointer o, e)
]

-- In a valid heap `kmalloc` never reports a corruption, and when it returns NULL it has changed
-- nothing.
pub kmalloc_sound :
    (size : ℕ) (h : Heap) (live : ℕ → Bool)
    → IsValid h live
    → ((kmalloc size h).0 ≢ corruption) × (((kmalloc size h).0 ≢ null) ⊎ ((kmalloc size h).1 ≡ h))
unfolding Granting
kmalloc_sound size h live v = elim (dec_lt 0 size) [
  | yes p ↦ elim (kmalloc-Granting size h live v p) [
    | inl (e, all) ↦ rw e (λ q. cc, inr refl)
    | inr (o, live', e, g) ↦ rw e (λ q. cc, inl (λ q. cc))
  ]
  | no z ↦
      let e : kmalloc size h ≡ (null, h) = kmalloc-zero size h (omega arith) in
      rw e (λ q. cc, inr refl)
]
