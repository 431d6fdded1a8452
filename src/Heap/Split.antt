-- ===== src/Heap/Split.antt =====
-- Splitting keeps the tiling: each round cuts the block at hand in two and lists the upper half.
use native.Mathlib.Nat.{two-pow-succ}
use mathlib.Core.Bool.{false≢true}
use adr_os.Prelude.{
  ℕ, zero, suc, ◌+◌, ◌^◌, ◌≤◌, ◌<◌, ◌≡◌, ◌≢◌, ◌⊎◌, refl, sym, ap, ◌∙◌, subst, Bool, true, false,
  ◌&&◌, ◌∷◌, arith, ◌==◌, if◌then◌else◌, update, ℕ_discrete, dec_lt, inl, inr, Bool-cases,
}
use adr_os.Heap.{Heap, Header, heap_size, min_order, buddy_magic, split_step, split}
use adr_os.Heap.Buddy.{Aligned, half-Aligned, pow_pos}
use adr_os.Heap.Inv.{
  IsValid, Shape, Holds, held, order_at, free_at, contains, Distinct, contains-cons, used, Kept,
  Kept-refl, Kept-trans,
}

-- What a round changes: the header of the block at hand, that of its upper half, and one list.
pub record Cut (k o : ℕ) (g g' : Heap) : Type 0 where
  pub here : g'.header o ≡ record (g.header o) { order = k }
  pub there : g'.header (o + 2 ^ k) ≡ record { magic = buddy_magic; order = k; is_free = true }
  pub others : (x : ℕ) → o ≢ x → o + 2 ^ k ≢ x → g'.header x ≡ g.header x
  pub list : g'.free_lists k ≡ (o + 2 ^ k) ∷ g.free_lists k
  pub lists : (n : ℕ) → k ≢ n → g'.free_lists n ≡ g.free_lists n

split_step-Cut : (k o : ℕ) (h : Heap) → Cut k o (held o h) (held o (split_step k o h))
unfolding split_step
split_step-Cut k o h = record {
  here = ground (arith, pow_pos k);
  there = ground (arith, pow_pos k);
  others = λ x p q. ground arith;
  list = ground arith;
  lists = λ n p. ground arith;
}

split_step-order : (k o : ℕ) (h : Heap) → order_at (split_step k o h) o ≡ k
unfolding split_step
split_step-order k o h = ground arith

module _ (k o : ℕ) (g g' : Heap) (live : ℕ → Bool) (cut : Cut k o g g') (v : IsValid g live)
    (l : live o ≡ true) (e : order_at g o ≡ suc k) (held_o : free_at g o ≡ false)
    (low : min_order ≤ k) where
  abbrev upper : ℕ
  upper = o + 2 ^ k

  abbrev live' : ℕ → Bool
  live' = update live (o + 2 ^ k) true

  pos : 0 < 2 ^ k
  pos = pow_pos k

  size_o : 2 ^ order_at g o ≡ 2 ^ k + 2 ^ k
  size_o = ap (λ t. 2 ^ t) e ∙ two-pow-succ k

  order_o : order_at g' o ≡ k
  order_o = ap (λ (t : Header). t.order) cut.here

  order_upper : order_at g' upper ≡ k
  order_upper = ap (λ (t : Header). t.order) cut.there

  order_other : (x : ℕ) → o ≢ x → upper ≢ x → order_at g' x ≡ order_at g x
  order_other x p q = ap (λ (t : Header). t.order) (cut.others x p q)

  -- No block started at the upper half.
  upper-fresh : live upper ≡ false
  upper-fresh = elim (Bool-cases (live upper)) [
    | inl s ↦ absurd (omega (arith, v.apart o upper l s (omega (arith, pos)), size_o, pos))
    | inr s ↦ s
  ]

  old_live : (x : ℕ) → upper ≢ x → live' x ≡ true → live x ≡ true
  old_live x q s = ground arith

  cut-Shape : (x : ℕ) → live' x ≡ true → Shape g' x
  cut-Shape x s = elim (ℕ_discrete o x) [
    | yes p ↦ subst (Shape g') p (record {
      magic = ap (λ (t : Header). t.magic) cut.here ∙ old.magic;
      low = omega (arith, order_o, low);
      high = omega (arith, order_o, e, old.high);
      aligned = subst (Aligned o) (sym order_o) half.0;
      fits = subst (λ t. o + 2 ^ t ≤ heap_size) (sym order_o) (omega (arith, old.fits, size_o));
    })
    | no p ↦ elim (ℕ_discrete upper x) [
      | yes q ↦ subst (Shape g') q (record {
        magic = ap (λ (t : Header). t.magic) cut.there;
        low = omega (arith, order_upper, low);
        high = omega (arith, order_upper, e, old.high);
        aligned = subst (Aligned upper) (sym order_upper) half.1;
        fits =
            subst (λ t. upper + 2 ^ t ≤ heap_size) (sym order_upper)
              (omega (arith, old.fits, size_o));
      })
      | no q ↦
          let s' = v.shape x (old_live x q s) in
          let same = order_other x p q in
          record {
            magic = ap (λ (t : Header). t.magic) (cut.others x p q) ∙ s'.magic;
            low = omega (arith, same, s'.low);
            high = omega (arith, same, s'.high);
            aligned = subst (Aligned x) (sym same) s'.aligned;
            fits = subst (λ t. x + 2 ^ t ≤ heap_size) (sym same) s'.fits;
          }
    ]
  ]
    where
      old : Shape g o
      old = v.shape o l

      half : Aligned o k × Aligned (o + 2 ^ k) k
      half = half-Aligned o k (subst (Aligned o) e old.aligned)

  -- The new size of each block.
  width_o : (x : ℕ) → o ≡ x → 2 ^ order_at g' x ≡ 2 ^ k
  width_o x p = subst (λ t. 2 ^ order_at g' t ≡ 2 ^ k) p (ap (λ t. 2 ^ t) order_o)

  width_upper : (x : ℕ) → upper ≡ x → 2 ^ order_at g' x ≡ 2 ^ k
  width_upper x p = subst (λ t. 2 ^ order_at g' t ≡ 2 ^ k) p (ap (λ t. 2 ^ t) order_upper)

  width_other : (x : ℕ) → o ≢ x → upper ≢ x → 2 ^ order_at g' x ≡ 2 ^ order_at g x
  width_other x p q = ap (λ t. 2 ^ t) (order_other x p q)

  -- Every other block lies before the block at hand or behind both halves.
  outside : (x : ℕ) → o ≢ x → live x ≡ true → (x + 2 ^ order_at g x ≤ o) ⊎ (upper + 2 ^ k ≤ x)
  outside x p s = elim (dec_lt o x) [
    | yes after ↦ inr (omega (arith, v.apart o x l s after, size_o))
    | no before ↦ inl (v.apart x o s l (omega arith))
  ]

  cut-apart : (x y : ℕ) → live' x ≡ true → live' y ≡ true → x < y → x + 2 ^ order_at g' x ≤ y
  cut-apart x y sx sy lt = elim (ℕ_discrete o x) [
    | yes p ↦ elim (ℕ_discrete upper y) [
      | yes q ↦ omega (arith, width_o x p)
      | no q ↦
          let t = v.apart o y l (old_live y q sy) (omega arith) in
          omega (arith, width_o x p, t, size_o)
    ]
    | no p ↦ elim (ℕ_discrete upper x) [
      | yes q ↦
          let t = v.apart o y l (old_live y (omega arith) sy) (omega arith) in
          omega (arith, width_upper x q, t, size_o)
      | no q ↦ elim (ℕ_discrete upper y) [
        | yes r ↦ omega (arith, width_other x p q, outside x p (old_live x q sx), pos)
        | no r ↦
            omega (arith, width_other x p q, v.apart x y (old_live x q sx) (old_live y r sy) lt)
      ]
    ]
  ]

  still_live : (x : ℕ) → live x ≡ true → live' x ≡ true
  still_live x s = ground arith

  cut-cover : (x : ℕ) → x < heap_size → (c : ℕ) × Holds g' live' x c
  cut-cover x lt = go (v.cover x lt)
    where
      new : live' upper ≡ true
      new = ground arith

      go : ((c : ℕ) × Holds g live x c) → (c : ℕ) × Holds g' live' x c
      go (c, hold) = elim (ℕ_discrete o c) [
        | yes p ↦ elim (dec_lt x upper) [
          | yes first ↦ (
            o,
            record {
              starts = still_live o l;
              from = omega (arith, hold.from);
              upto = omega (arith, width_o o refl);
            },
          )
          | no second ↦ (
            upper,
            record {
              starts = new;
              from = omega arith;
              upto = omega (
                arith,
                width_upper upper refl,
                hold.upto,
                size_o,
                ap (λ t. t + 2 ^ order_at g t) p,
              );
            },
          )
        ]
        | no p ↦
            let q : upper ≢ c =
              λ (r : upper ≡ c). false≢true (sym upper-fresh ∙ ap live r ∙ hold.starts) in
            (
              c,
              record {
                starts = still_live c hold.starts;
                from = hold.from;
                upto = omega (arith, hold.upto, width_other c p q);
              },
            )
      ]

  free_o : free_at g' o ≡ false
  free_o = ap (λ (t : Header). t.is_free) cut.here ∙ held_o

  free_upper : free_at g' upper ≡ true
  free_upper = ap (λ (t : Header). t.is_free) cut.there

  cut-listed :
      (n x : ℕ) → contains (g'.free_lists n) x ≡ (live' x && (free_at g' x && (order_at g' x == n)))
  cut-listed n x = elim (ℕ_discrete o x) [
    | yes p ↦ subst At p (rw free_o (ground (arith, lists_at o, v.listed n o, free_o)))
    | no p ↦ elim (ℕ_discrete upper x) [
      | yes q ↦
          subst At q
            (ground (arith, lists_at upper, v.listed n upper, free_upper, order_upper, upper-fresh))
      | no q ↦ ground (
        arith,
        lists_at x,
        v.listed n x,
        ap (λ (t : Header). t.is_free) (cut.others x p q),
        order_other x p q,
      )
    ]
  ]
    where
      At : ℕ → Type 0
      At y = contains (g'.free_lists n) y ≡ (live' y && (free_at g' y && (order_at g' y == n)))

      lists_at :
          (y : ℕ)
          → contains (g'.free_lists n) y ≡ (
              if k == n
              then (if upper == y then true else contains (g.free_lists n) y)
              else contains (g.free_lists n) y)
      lists_at y = elim (ℕ_discrete k n) [
        | yes p ↦
            let m = subst (λ t. g'.free_lists t ≡ upper ∷ g.free_lists t) p cut.list in
            ground (arith, ap (λ xs. contains xs y) m, contains-cons upper (g.free_lists n) y)
        | no p ↦ ground (arith, ap (λ xs. contains xs y) (cut.lists n p))
      ]

  cut-once : (n : ℕ) → Distinct (g'.free_lists n)
  cut-once n = elim (ℕ_discrete k n) [
    | yes p ↦
        subst (λ t. Distinct (g'.free_lists t)) p
          (subst Distinct (sym cut.list) (ground (arith, v.listed k upper, upper-fresh), v.once k))
    | no p ↦ subst Distinct (sym (cut.lists n p)) (v.once n)
  ]

  pub cut-IsValid : IsValid g' live'
  cut-IsValid = record {
    shape = cut-Shape;
    apart = cut-apart;
    cover = cut-cover;
    listed = cut-listed;
    once = cut-once;
  }

  pub cut-Kept : Kept o g live g' live'
  cut-Kept = record {
    same_use = λ x p. elim (ℕ_discrete upper x) [
      | yes q ↦
          subst (λ t. used g' live' t ≡ used g live t) q (ground (arith, free_upper, upper-fresh))
      | no q ↦ ground (arith, ap (λ (t : Header). t.is_free) (cut.others x p q))
    ];
    same_order = λ x p u.
        order_other x p
          (λ (q : upper ≡ x). false≢true (sym upper-fresh ∙ ap live q ∙ ground (arith, u)));
  }

-- What the loop leaves: a valid heap in which the block at hand has the order asked for.
pub record Carved (order o : ℕ) (h : Heap) (live : ℕ → Bool) (h' : Heap) (live' : ℕ → Bool)
    : Type 0 where
  pub valid : IsValid (held o h') live'
  pub starts : live' o ≡ true
  pub sized : order_at h' o ≡ order
  pub kept : Kept o (held o h) live (held o h') live'

pub split-Carved :
    (d order o : ℕ) (h : Heap) (live : ℕ → Bool)
    → IsValid (held o h) live
    → live o ≡ true
    → order_at h o ≡ order + d
    → min_order ≤ order
    → (live' : ℕ → Bool) × Carved order o h live (split d order o h) live'
unfolding split
split-Carved zero order o h live v l e low = (
  live,
  record { valid = v; starts = l; sized = omega arith; kept = Kept-refl o (held o h) live },
)
split-Carved (suc d) order o h live v l e low =
    let k = order + d in
    let cut = split_step-Cut k o h in
    let sized : order_at (held o h) o ≡ suc k = ground (arith, e) in
    let valid' = cut-IsValid k o _ _ live cut v l sized (ground arith) (omega arith) in
    let kept' = cut-Kept k o _ _ live cut v l sized (ground arith) (omega arith) in
    let (live', r) =
      split-Carved d order o (split_step k o h) (update live (o + 2 ^ k) true) valid'
        (ground (arith, l)) (split_step-order k o h) low in
    (
      live',
      record {
        valid = r.valid;
        starts = r.starts;
        sized = r.sized;
        kept = Kept-trans kept' r.kept;
      },
    )
