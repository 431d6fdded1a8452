-- ===== src/Heap/Merge.antt =====
-- Merging keeps the tiling: a block and its free buddy become one block of the next order.
use native.Mathlib.Nat.{two-pow-succ}
use adr_os.Prelude.{
  ℕ, suc, ◌+◌, ◌^◌, ◌≤◌, ◌<◌, ◌≡◌, ◌≢◌, ◌⊎◌, sym, ap, ◌∙◌, subst, Bool, true, false, ◌&&◌, arith,
  ◌==◌, if◌then◌else◌, update, ℕ_discrete, inl, inr,
}
use adr_os.Heap.{Heap, Header, heap_size, max_order, fl_del}
use adr_os.Heap.Buddy.{Aligned, pow_pos}
use adr_os.Heap.Inv.{
  IsValid, Shape, Holds, order_at, free_at, contains, Distinct, contains-fl_del, Distinct-fl_del,
}

-- What a merge changes: the lower header, and the list that the buddy `b` leaves.
pub record Join (k lo hi b : ℕ) (g g' : Heap) : Type 0 where
  pub magic : (g'.header lo).magic ≡ (g.header lo).magic
  pub order : order_at g' lo ≡ suc k
  pub free : free_at g' lo ≡ false
  pub others : (x : ℕ) → lo ≢ x → hi ≢ x → g'.header x ≡ g.header x
  pub list : g'.free_lists k ≡ fl_del b (g.free_lists k)
  pub lists : (n : ℕ) → k ≢ n → g'.free_lists n ≡ g.free_lists n

module _ (k lo hi b : ℕ) (g g' : Heap) (live : ℕ → Bool) (join : Join k lo hi b g g')
    (v : IsValid g live) (l_lo : live lo ≡ true) (l_hi : live hi ≡ true) (o_lo : order_at g lo ≡ k)
    (o_hi : order_at g hi ≡ k) (pair : Aligned lo (suc k)) (next : hi ≡ lo + 2 ^ k)
    (one : ((b ≡ lo) × (free_at g hi ≡ false)) ⊎ ((b ≡ hi) × (free_at g lo ≡ false)))
    (room : k < max_order) where
  abbrev live' : ℕ → Bool
  live' = update live hi false

  pos : 0 < 2 ^ k
  pos = pow_pos k

  lo-ne-hi : lo ≢ hi
  lo-ne-hi = omega (arith, pos)

  w_lo : 2 ^ order_at g lo ≡ 2 ^ k
  w_lo = ap (λ t. 2 ^ t) o_lo

  w_hi : 2 ^ order_at g hi ≡ 2 ^ k
  w_hi = ap (λ t. 2 ^ t) o_hi

  w_join : 2 ^ order_at g' lo ≡ 2 ^ k + 2 ^ k
  w_join = ap (λ t. 2 ^ t) join.order ∙ two-pow-succ k

  was_live : (x : ℕ) → live' x ≡ true → (live x ≡ true) × (hi ≢ x)
  was_live x s = (ground arith, λ (e : hi ≡ x). ground arith)

  order_other : (x : ℕ) → lo ≢ x → hi ≢ x → order_at g' x ≡ order_at g x
  order_other x p q = ap (λ (t : Header). t.order) (join.others x p q)

  w_other : (x : ℕ) → lo ≢ x → hi ≢ x → 2 ^ order_at g' x ≡ 2 ^ order_at g x
  w_other x p q = ap (λ t. 2 ^ t) (order_other x p q)

  join-Shape : (x : ℕ) → live' x ≡ true → Shape g' x
  join-Shape x s = elim (ℕ_discrete lo x) [
    | yes p ↦ subst (Shape g') p (record {
      magic = join.magic ∙ (v.shape lo l_lo).magic;
      low = omega (arith, join.order, o_lo, (v.shape lo l_lo).low);
      high = omega (arith, join.order, room);
      aligned = subst (Aligned lo) (sym join.order) pair;
      fits = omega (arith, w_join, w_hi, (v.shape hi l_hi).fits);
    })
    | no p ↦
        let (l, q) = was_live x s in
        let t = v.shape x l in
        let same = order_other x p q in
        record {
          magic = ap (λ (t : Header). t.magic) (join.others x p q) ∙ t.magic;
          low = omega (arith, same, t.low);
          high = omega (arith, same, t.high);
          aligned = subst (Aligned x) (sym same) t.aligned;
          fits = omega (arith, w_other x p q, t.fits);
        }
  ]

  join-apart : (x y : ℕ) → live' x ≡ true → live' y ≡ true → x < y → x + 2 ^ order_at g' x ≤ y
  join-apart x y sx sy lt =
      let (lx, qx) = was_live x sx in
      let (ly, qy) = was_live y sy in
      elim (ℕ_discrete lo x) [
        | yes p ↦
            let first = v.apart lo y l_lo ly (omega arith) in
            let second = v.apart hi y l_hi ly (omega (arith, first, w_lo)) in
            omega (arith, subst (λ t. 2 ^ order_at g' t ≡ 2 ^ k + 2 ^ k) p w_join, second, w_hi)
        | no p ↦ omega (arith, v.apart x y lx ly lt, w_other x p qx)
      ]

  join-cover : (x : ℕ) → x < heap_size → (c : ℕ) × Holds g' live' x c
  join-cover x lt = go (v.cover x lt)
    where
      stays : live' lo ≡ true
      stays = ground (arith, lo-ne-hi)

      go : ((c : ℕ) × Holds g live x c) → (c : ℕ) × Holds g' live' x c
      go (c, hold) = elim (ℕ_discrete lo c) [
        | yes p ↦ (
          lo,
          record {
            starts = stays;
            from = omega (arith, hold.from);
            upto = omega (arith, hold.upto, w_join, w_lo, ap (λ t. t + 2 ^ order_at g t) p);
          },
        )
        | no p ↦ elim (ℕ_discrete hi c) [
          | yes q ↦ (
            lo,
            record {
              starts = stays;
              from = omega (arith, hold.from);
              upto = omega (arith, hold.upto, w_join, w_hi, ap (λ t. t + 2 ^ order_at g t) q);
            },
          )
          | no q ↦ (
            c,
            record {
              starts = ground (arith, hold.starts);
              from = hold.from;
              upto = omega (arith, hold.upto, w_other c p q);
            },
          )
        ]
      ]

  lists_at :
      (n y : ℕ)
      → contains (g'.free_lists n) y ≡ (
          if k == n
          then (if b == y then false else contains (g.free_lists n) y)
          else contains (g.free_lists n) y)
  lists_at n y = elim (ℕ_discrete k n) [
    | yes p ↦
        let m = subst (λ t. g'.free_lists t ≡ fl_del b (g.free_lists t)) p join.list in
        ground (arith, ap (λ xs. contains xs y) m, contains-fl_del b (g.free_lists n) y (v.once n))
    | no p ↦ ground (arith, ap (λ xs. contains xs y) (join.lists n p))
  ]

  -- Neither half is on a list any more.
  lo-unlisted : (n : ℕ) → contains (g'.free_lists n) lo ≡ false
  lo-unlisted n = ground (arith, lists_at n lo, v.listed n lo, one, o_lo)

  hi-unlisted : (n : ℕ) → contains (g'.free_lists n) hi ≡ false
  hi-unlisted n = ground (arith, lists_at n hi, v.listed n hi, one, o_hi)

  not_buddy : (x : ℕ) → lo ≢ x → hi ≢ x → b ≢ x
  not_buddy x p q = elim one [ inl e ↦ omega (arith, e.0) | inr e ↦ omega (arith, e.0) ]

  join-listed :
      (n x : ℕ) → contains (g'.free_lists n) x ≡ (live' x && (free_at g' x && (order_at g' x == n)))
  join-listed n x = elim (ℕ_discrete lo x) [
    | yes p ↦ subst At p (ground (arith, lo-unlisted n, join.free))
    | no p ↦ elim (ℕ_discrete hi x) [
      | yes q ↦ subst At q (ground (arith, hi-unlisted n))
      | no q ↦ ground (
        arith,
        lists_at n x,
        v.listed n x,
        not_buddy x p q,
        ap (λ (t : Header). t.is_free) (join.others x p q),
        order_other x p q,
      )
    ]
  ]
    where
      At : ℕ → Type 0
      At y = contains (g'.free_lists n) y ≡ (live' y && (free_at g' y && (order_at g' y == n)))

  join-once : (n : ℕ) → Distinct (g'.free_lists n)
  join-once n = elim (ℕ_discrete k n) [
    | yes p ↦
        subst (λ t. Distinct (g'.free_lists t)) p
          (subst Distinct (sym join.list) (Distinct-fl_del b (g.free_lists k) (v.once k)))
    | no p ↦ subst Distinct (sym (join.lists n p)) (v.once n)
  ]

  pub join-IsValid : IsValid g' live'
  join-IsValid = record {
    shape = join-Shape;
    apart = join-apart;
    cover = join-cover;
    listed = join-listed;
    once = join-once;
  }
