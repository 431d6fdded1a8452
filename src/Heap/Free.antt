-- ===== src/Heap/Free.antt =====
-- `kfree`: the block is merged with its buddies as far as they are free, and listed.
use adr_os.Prelude.{
  ℕ, zero, suc, ◌+◌, ◌-◌, ◌^◌, ◌≤◌, ◌<◌, ◌≡◌, ◌≢◌, refl, sym, ap, ◌∙◌, subst, Bool, true, false,
  none, some, arith, ◌==◌, if◌then◌else◌, inl, inr, Bool-cases, if_cases,
}
use adr_os.Heap.{
  Heap, Header, heap_size, max_order, buddy_magic, set_free, merge_step, lower, mergeable, buddy_of,
  coalesce, give_back, free_block, kfree, Freed, freed, double_free, block_of, user_pointer,
}
use adr_os.Heap.Buddy.{Aligned, Buddies, pow_pos, buddy_of_lem}
use adr_os.Heap.Inv.{
  IsValid, held, order_at, free_at, contains, contains-cons, Distinct, used, buddy-live, retile,
  set_free-order, set_free-magic, set_free-free,
}
use adr_os.Heap.Round.{busy, Settled, Settled-trans, AtHand, merge-Merged}

Settled-refl : (o : ℕ) (h : Heap) (live : ℕ → Bool) → Settled o h live o h live
Settled-refl o h live = record { same_use = λ x. refl; same_order = λ x u. refl }

-- What the loop of `kfree` ends with, from a block at hand.
Closed : ℕ → Heap → (ℕ → Bool) → ℕ × ℕ × Heap → Type 0
Closed o h live (k', o', h') =
    (live' : ℕ → Bool) × AtHand k' o' h' live' × Settled o (held o h) live o' (held o' h') live'

-- The cases of one round.
coalesce-none : (n k o : ℕ) (h : Heap) → buddy_of o k ≡ none → coalesce (suc n) k o h ≡ (k, o, h)
unfolding coalesce
coalesce-none n k o h e = rw (e, coalesce) refl

coalesce-stops :
    (n k o b : ℕ) (h : Heap)
    → buddy_of o k ≡ some b
    → mergeable (h.header b) k ≡ false
    → coalesce (suc n) k o h ≡ (k, o, h)
unfolding coalesce
coalesce-stops n k o b h e f = rw (e, coalesce, f) refl

coalesce-merges :
    (n k o b : ℕ) (h : Heap)
    → buddy_of o k ≡ some b
    → mergeable (h.header b) k ≡ true
    → coalesce (suc n) k o h ≡ coalesce n (k + 1) (lower b o) (merge_step k o b h)
unfolding coalesce
coalesce-merges n k o b h e f = rw (e, coalesce, f) refl

mergeable_lem : (b : Header) (k : ℕ) → mergeable b k ≡ true → (b.order ≡ k) × (b.is_free ≡ true)
unfolding mergeable
mergeable_lem b k e = ground arith

Closed-trans :
    (o p : ℕ) (h g : Heap) (live live' : ℕ → Bool) (r : ℕ × ℕ × Heap)
    → Settled o (held o h) live p (held p g) live'
    → Closed p g live' r
    → Closed o h live r
unfolding Closed
Closed-trans o p h g live live' (k, q, i) s (l, a, t) = (l, a, Settled-trans s t)

coalesce-Closed :
    (n k o : ℕ) (h : Heap) (live : ℕ → Bool)
    → AtHand k o h live
    → n + k ≡ max_order
    → Closed o h live (coalesce n k o h)
unfolding coalesce Closed
coalesce-Closed zero k o h live a e = (live, a, Settled-refl o (held o h) live)
coalesce-Closed (suc n) k o h live a e =
    let same = set_free-order o false h o ∙ a.sized in
    let s = a.valid.shape o a.starts in
    let (b, found, pair, fits) =
      buddy_of_lem o k (subst (Aligned o) same s.aligned) (omega arith)
        (subst (λ t. o + 2 ^ t ≤ heap_size) same s.fits) in
    elim (Bool-cases (mergeable (h.header b) k)) [
      | inr stop ↦
          subst (Closed o h live) (sym (coalesce-stops n k o b h found stop))
            (live, a, Settled-refl o (held o h) live)
      | inl go ↦
          let m = mergeable_lem (h.header b) k go in
          let pair' = subst (λ t. Buddies t o b) (sym same) pair in
          let fits' = subst (λ t. b + 2 ^ t ≤ heap_size) (sym same) fits in
          let l_b = (buddy-live o b a.valid a.starts pair' fits').0 in
          let (live', next, settled) = merge-Merged k o b h live a pair l_b m.0 m.1 (omega arith) in
          let next_order : suc k ≡ k + 1 = omega arith in
          subst (Closed o h live) (sym (coalesce-merges n k o b h found go)) (
            Closed-trans o (lower b o) h (merge_step k o b h) live live'
              (coalesce n (k + 1) (lower b o) (merge_step k o b h)) settled
              (coalesce-Closed n (k + 1) (lower b o) (merge_step k o b h) live'
                (subst (λ t. AtHand t (lower b o) (merge_step k o b h) live') next_order next)
                (omega arith)))
    ]

-- Listing the block at hand makes the heap valid.
give_back-IsValid :
    (k o : ℕ) (h : Heap) (live : ℕ → Bool) → AtHand k o h live → IsValid (give_back (k, o, h)) live
unfolding give_back
give_back-IsValid k o h live a =
    retile (λ x. sym (set_free-magic o false h x)) (λ x. sym (set_free-order o false h x))
      (λ n x. ground (
        arith,
        a.valid.listed n x,
        set_free-free o false h x,
        set_free-order o false h x,
        contains-cons o (h.free_lists k) x,
        a.open_,
        a.starts,
        a.sized,
        λ (q : k ≡ n). ap (λ t. contains (h.free_lists t) x) q,
        λ (q : o ≡ x). ap live q,
        λ (q : o ≡ x). ap (order_at h) q,
        λ (q : o ≡ x). ap (free_at h) q,
      ))
      (λ n.
        if_cases Distinct (k == n) _ _
          (λ _. (ground (arith, a.valid.listed k o, set_free-free o false h o), a.valid.once k))
          (λ _. a.valid.once n))
      a.valid

give_back-busy :
    (k o : ℕ) (h : Heap) (live : ℕ → Bool)
    → AtHand k o h live
    → (x : ℕ) → used (give_back (k, o, h)) live x ≡ busy o (held o h) live x
unfolding give_back
give_back-busy k o h live a x =
    ground (arith, a.open_, set_free-free o false h x, λ (e : o ≡ x). ap (free_at h) e)

give_back-order :
    (k o : ℕ) (h : Heap) (x : ℕ) → order_at (give_back (k, o, h)) x ≡ order_at (held o h) x
unfolding give_back
give_back-order k o h x = sym (set_free-order o false h x)

start-busy :
    (o : ℕ) (h : Heap) (live : ℕ → Bool) (x : ℕ)
    → busy o (held o (set_free o true h)) live x ≡ (if o == x then false else used h live x)
start-busy o h live x = ground arith

block_of-user_pointer : (o : ℕ) → o < heap_size → block_of (user_pointer o) ≡ o
block_of-user_pointer o h = omega arith

free_block-eq :
    (o : ℕ) (h : Heap)
    → (h.header o).magic ≡ buddy_magic
    → free_at h o ≡ false
    → free_block o h ≡ (
      freed,
      give_back (coalesce (max_order - order_at h o) (order_at h o) o (set_free o true h)),
    )
unfolding free_block
free_block-eq o h m f = ground (arith, m, f)

free_block-double :
    (o : ℕ) (h : Heap)
    → (h.header o).magic ≡ buddy_magic
    → free_at h o ≡ true
    → free_block o h ≡ (double_free, h)
unfolding free_block
free_block-double o h m f = ground (arith, m, f)

kfree-eq : (o : ℕ) (h : Heap) → o < heap_size → kfree (user_pointer o) h ≡ free_block o h
unfolding kfree
kfree-eq o h lt =
    let p : (user_pointer o == 0) ≡ false = ground arith in
    rw p (ap (λ t. free_block t h) (block_of-user_pointer o lt))

-- A block given back: the heap is valid, that block is not in use any more, and every other block
-- in use is as it was.
pub record Returned (h : Heap) (live : ℕ → Bool) (o : ℕ) (h' : Heap) (live' : ℕ → Bool)
    : Type 0 where
  pub valid : IsValid h' live'
  pub same_use : (x : ℕ) → used h' live' x ≡ (if o == x then false else used h live x)
  pub same_order : (x : ℕ) → o ≢ x → used h live x ≡ true → order_at h' x ≡ order_at h x

-- In a valid heap, `kfree` of a pointer to a block in use gives the block back: the heap stays
-- valid, that block is not in use any more, and every other block in use keeps its place and
-- order.
pub kfree-Returned :
    (o : ℕ) (h : Heap) (live : ℕ → Bool)
    → IsValid h live
    → used h live o ≡ true
    → ((kfree (user_pointer o) h).0 ≡ freed)
      × ((live' : ℕ → Bool) × Returned h live o (kfree (user_pointer o) h).1 live')
unfolding Closed
kfree-Returned o h live v u =
    let l : live o ≡ true = ground (arith, u) in
    let f : free_at h o ≡ false = ground (arith, u) in
    let s = v.shape o l in
    let k = order_at h o in
    let g = set_free o true h in
    let start : AtHand k o g live = record {
      valid =
          retile
            (λ x.
              ground
                (arith, set_free-magic o true h x, λ (e : o ≡ x). ap (λ t. (h.header t).magic) e))
            (λ x. ground (arith, λ (e : o ≡ x). ap (order_at h) e))
            (λ n x. ground (
              arith,
              v.listed n x,
              f,
              λ (e : o ≡ x). ap (order_at h) e,
              λ (e : o ≡ x). ap (free_at h) e,
            ))
            v.once v;
      starts = l;
      sized = ground arith;
      open_ = ground arith;
    } in
    let r = coalesce (max_order - k) k o g in
    let (live', a, t) = coalesce-Closed (max_order - k) k o g live start (omega (arith, s.high)) in
    let run = kfree-eq o h (omega (arith, s.fits, pow_pos k)) ∙ free_block-eq o h s.magic f in
    (
      ap (λ (q : Freed × Heap). q.0) run,
      (
        live',
        subst (λ q. Returned h live o q live') (sym (ap (λ (q : Freed × Heap). q.1) run))
            (record {
              valid = give_back-IsValid r.0 r.1 r.2 live' a;
              same_use =
                  λ x. give_back-busy r.0 r.1 r.2 live' a x ∙ t.same_use x ∙ start-busy o h live x;
              same_order = λ x p q.
                  give_back-order r.0 r.1 r.2 x
                  ∙ t.same_order x (start-busy o h live x ∙ ground (arith, q))
                  ∙ (set_free-order o false g x ∙ set_free-order o true h x);
            }),
      ),
    )
