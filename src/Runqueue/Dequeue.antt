-- ===== src/Runqueue/Dequeue.antt =====
-- `rq_dequeue` takes a process out of its list, wherever it stands there.
use adr_os.Prelude.{
  ℕ, ◌^◌, ◌-◌, ◌<◌, ◌≡◌, refl, sym, ◌∙◌, Bool, true, false, not, ◌&&◌, List, [], ◌∷◌, ◌++◌,
  if◌then◌else◌, ◌==◌, arith, subst, Bool-cases, if_cases, inl, inr, bit_and, ap, ℕ_discrete,
  update, update_self, update-other,
}
use adr_os.Prelude.Bits.{bit_and-le}
use adr_os.Prelude.WordBits.{test_bit, test_bit-mask}
use adr_os.Links.{Links, null, mem, without}
use adr_os.Links.Segment.{
  Segment, done, node, Distinct, Distinct-append, append-Distinct, mem-append,
}
use adr_os.Links.Remove.{
  unlink-Segment, unlink-frame, split_at, not_before, without-split, mem-without, without-Distinct,
}
use adr_os.Runqueue.{Runqueues, num_prios, update2, rq_dequeue}
use adr_os.Runqueue.Holds.{Holds, nonempty, update2_self, update2-other, by_place, Segment-at}

-- the lists after the call
pub removed : (ℕ → ℕ → List ℕ) → ℕ → ℕ → ℕ → ℕ → ℕ → List ℕ
removed lists s k p = update2 lists s k (without p (lists s k))

-- A list is empty exactly when its head is NULL.
pub head_empty :
    (l : Links) {h t : ℕ} (xs : List ℕ)
    → Segment l null h xs t null
    → (h == null) ≡ not (nonempty xs)
unfolding nonempty
head_empty l [] (done a b) = ground (arith, a)
head_empty l (x ∷ xs) (node a n p s) = ground (arith, a, n)

module _ (r : Runqueues) (lists : ℕ → ℕ → List ℕ) (s k p : ℕ) (xs ys : List ℕ) (h : Holds r lists)
    (split : lists s k ≡ xs ++ p ∷ ys) (low : k < num_prios) where
  lists' : ℕ → ℕ → List ℕ
  lists' = update2 lists s k (xs ++ ys)

  r' : Runqueues
  r' = rq_dequeue s k p r

  Distinct-here : Distinct (xs ++ p ∷ ys)
  Distinct-here = subst Distinct split (h.distinct s k)

  Segment-here : Segment r.links null (r.head s k) (xs ++ p ∷ ys) (r.tail s k) null
  Segment-here = Segment-at refl split refl (h.segment s k)

  -- whatever is left in the list was there before
  mem-left : (z : ℕ) → mem z (xs ++ ys) ≡ true → mem z (lists s k) ≡ true
  unfolding mem
  mem-left z m =
      subst (λ zs. mem z zs ≡ true) (sym split)
        (ground (arith, m, mem-append z xs ys, mem-append z xs (p ∷ ys)))

  mem-lists' : (z i j : ℕ) → mem z (lists' i j) ≡ true → mem z (lists i j) ≡ true
  unfolding lists'
  mem-lists' z =
      by_place (λ i j. mem z (lists' i j) ≡ true → mem z (lists i j) ≡ true) s k
        (λ m. mem-left z (subst (λ zs. mem z zs ≡ true) (update2_self lists s k (xs ++ ys)) m))
        (λ i j e m. subst (λ zs. mem z zs ≡ true) (update2-other lists s k i j (xs ++ ys) e) m)

  dequeue-Segment : (i j : ℕ) → Segment r'.links null (r'.head i j) (lists' i j) (r'.tail i j) null
  unfolding lists' r' rq_dequeue
  dequeue-Segment =
      by_place (λ i j. Segment r'.links null (r'.head i j) (lists' i j) (r'.tail i j) null) s k
        (Segment-at (ground (arith, update2_self r.head s k (r.links.next p)))
          (sym (update2_self lists s k (xs ++ ys)))
          (ground (arith, update2_self r.tail s k (r.links.prev p)))
          (unlink-Segment r.links p xs ys Distinct-here Segment-here))
        (λ i j e.
          Segment-at (ground (arith, update2-other r.head s k i j (r.links.next p) e))
            (sym (update2-other lists s k i j (xs ++ ys) e))
            (ground (arith, update2-other r.tail s k i j (r.links.prev p) e))
            (unlink-frame r.links p xs ys (lists i j) Distinct-here (apart i j e) Segment-here
              (h.segment i j)))
    where
      apart :
          (i j : ℕ)
          → ((s == i) && (k == j)) ≡ false
          → (z : ℕ) → mem z (lists i j) ≡ true
          → mem z (xs ++ p ∷ ys) ≡ false
      apart i j e z m = elim (Bool-cases (mem z (xs ++ p ∷ ys))) [
        | inl c ↦
            let c' = subst (λ zs. mem z zs ≡ true) (sym split) c in
            let (q, q') = h.one_place z s k i j c' m in absurd (ground (arith, e, q, q'))
        | inr c ↦ c
      ]

  Distinct-left : Distinct (xs ++ ys)
  unfolding Distinct mem
  Distinct-left =
      let (d1, d2, f) = Distinct-append xs (p ∷ ys) Distinct-here in
      append-Distinct xs ys d1 d2.1 (λ z m. ground (arith, f z m))

  dequeue-Distinct : (i j : ℕ) → Distinct (lists' i j)
  unfolding lists'
  dequeue-Distinct =
      by_place (λ i j. Distinct (lists' i j)) s k
        (subst Distinct (sym (update2_self lists s k (xs ++ ys))) Distinct-left)
        (λ i j e. subst Distinct (sym (update2-other lists s k i j (xs ++ ys) e)) (h.distinct i j))

  head_left : (r'.head s k == null) ≡ not (nonempty (xs ++ ys))
  unfolding lists'
  head_left =
      head_empty r'.links (xs ++ ys)
        (Segment-at refl (update2_self lists s k (xs ++ ys)) refl (dequeue-Segment s k))

  mask : ℕ
  mask = bit_and (r.bitmap s) (2 ^ 32 - 1 - 2 ^ k)

  -- the two outcomes of the last test
  bitmap_cases :
      (i : ℕ) → r'.bitmap i ≡ (if nonempty (xs ++ ys) then r.bitmap i else update r.bitmap s mask i)
  unfolding mask r' rq_dequeue
  bitmap_cases i =
      if_not (r'.head s k == null) (nonempty (xs ++ ys)) (update r.bitmap s mask) r.bitmap i
        head_left
    where
      if_not :
          (b n : Bool) (f g : ℕ → ℕ) (i : ℕ)
          → b ≡ not n
          → (if b then f else g) i ≡ (if n then g i else f i)
      if_not true n f g i e = ground (arith, e)
      if_not false n f g i e = ground (arith, e)

  bits_here : test_bit (r'.bitmap s) k ≡ nonempty (xs ++ ys)
  unfolding mask nonempty
  bits_here = elim (Bool-cases (nonempty (xs ++ ys))) [
    | inl e ↦
        ap (λ w. test_bit w k) (bitmap_cases s ∙ ground (arith, e))
        ∙ h.bits s k low
        ∙ ap nonempty split
        ∙ nonempty-middle xs
        ∙ sym e
    | inr e ↦
        ap (λ w. test_bit w k) (bitmap_cases s ∙ ground (arith, e) ∙ update_self r.bitmap s mask)
        ∙ test_bit-mask 32 (r.bitmap s) k k low low
        ∙ ground (arith, e)
  ]
    where
      nonempty-middle : (zs : List ℕ) → nonempty (zs ++ p ∷ ys) ≡ true
      nonempty-middle [] = refl
      nonempty-middle (z ∷ zs) = refl

  bits_there :
      (i j : ℕ)
      → ((s == i) && (k == j)) ≡ false
      → j < num_prios
      → test_bit (r'.bitmap i) j ≡ test_bit (r.bitmap i) j
  unfolding mask
  bits_there i j e l = elim (Bool-cases (nonempty (xs ++ ys))) [
    | inl n ↦ ap (λ w. test_bit w j) (bitmap_cases i ∙ ground (arith, n))
    | inr n ↦ elim (ℕ_discrete s i) [
      | yes q ↦
          ap (λ w. test_bit w j)
            (bitmap_cases i
              ∙ ground (arith, n)
              ∙ ap (update r.bitmap s mask) (sym q)
              ∙ update_self r.bitmap s mask)
          ∙ test_bit-mask 32 (r.bitmap s) k j low l
          ∙ ground (arith, e, q)
          ∙ ap (λ a. test_bit (r.bitmap a) j) q
      | no q ↦
          ap (λ w. test_bit w j)
            (bitmap_cases i ∙ ground (arith, n) ∙ update-other r.bitmap s i mask q)
    ]
  ]

  bitmap-lt : (i : ℕ) → r'.bitmap i < 2 ^ 32
  unfolding mask
  bitmap-lt i =
      subst (λ w. w < 2 ^ 32) (sym (bitmap_cases i))
        (if_cases (λ w. w < 2 ^ 32) (nonempty (xs ++ ys)) (r.bitmap i) (update r.bitmap s mask i)
          (λ e. h.word i)
          (λ e.
            if_cases (λ w. w < 2 ^ 32) (s == i) mask (r.bitmap i)
              (λ q. omega (arith, bit_and-le (r.bitmap s) (2 ^ 32 - 1 - 2 ^ k), h.word s))
              (λ q. h.word i)))

  dequeue_split : Holds r' lists'
  unfolding lists'
  dequeue_split = record {
    segment = dequeue-Segment;
    distinct = dequeue-Distinct;
    one_place =
        λ z i j i' j' m m'. h.one_place z i j i' j' (mem-lists' z i j m) (mem-lists' z i' j' m');
    bits =
        by_place (λ i j. j < num_prios → test_bit (r'.bitmap i) j ≡ nonempty (lists' i j)) s k
          (λ l. bits_here ∙ ap nonempty (sym (update2_self lists s k (xs ++ ys))))
          (λ i j e l.
            bits_there i j e l
            ∙ h.bits i j l
            ∙ ap nonempty (sym (update2-other lists s k i j (xs ++ ys) e)));
    word = bitmap-lt;
  }

-- A process that waits in a store at a priority is taken out of that list wherever it stands, the
-- bit of the list is cleared when the list becomes empty, and every other list stays as it is.
pub rq_dequeue-Holds :
    (r : Runqueues) (lists : ℕ → ℕ → List ℕ) (s k p : ℕ)
    → Holds r lists
    → k < num_prios
    → mem p (lists s k) ≡ true
    → Holds (rq_dequeue s k p r) (removed lists s k p)
unfolding removed r' lists'
rq_dequeue-Holds r lists s k p h low m =
    let (xs, ys, q) = split_at p (lists s k) m in
    let out = not_before p xs ys (subst Distinct q (h.distinct s k)) in
    subst (λ zs. Holds (rq_dequeue s k p r) (update2 lists s k zs))
      (sym (ap (without p) q ∙ without-split p xs ys out))
      (dequeue_split r lists s k p xs ys h q low)

-- Who is left in the lists.
pub mem-removed :
    (lists : ℕ → ℕ → List ℕ) (s k p z i j : ℕ)
    → mem z (removed lists s k p i j) ≡ true
    → mem z (lists i j) ≡ true
unfolding removed
mem-removed lists s k p z =
    by_place (λ i j. mem z (removed lists s k p i j) ≡ true → mem z (lists i j) ≡ true) s k
      (λ m.
        mem-without p z (lists s k)
          (subst (λ zs. mem z zs ≡ true) (update2_self lists s k (without p (lists s k))) m))
      (λ i j e m.
        subst (λ zs. mem z zs ≡ true) (update2-other lists s k i j (without p (lists s k)) e) m)

-- The process that was taken out waits nowhere any more.
pub removed_out :
    (r : Runqueues) (lists : ℕ → ℕ → List ℕ) (s k p : ℕ)
    → Holds r lists
    → mem p (lists s k) ≡ true
    → (i j : ℕ) → mem p (removed lists s k p i j) ≡ false
unfolding removed
removed_out r lists s k p h m =
    by_place (λ i j. mem p (removed lists s k p i j) ≡ false) s k
      (subst (λ zs. mem p zs ≡ false) (sym (update2_self lists s k (without p (lists s k))))
        (without-Distinct p (lists s k) (h.distinct s k)))
      (λ i j e.
        subst (λ zs. mem p zs ≡ false) (sym (update2-other lists s k i j (without p (lists s k)) e))
          (elsewhere i j e))
  where
    elsewhere : (i j : ℕ) → ((s == i) && (k == j)) ≡ false → mem p (lists i j) ≡ false
    elsewhere i j e = elim (Bool-cases (mem p (lists i j))) [
      | inl c ↦ let (q, q') = h.one_place p s k i j m c in absurd (ground (arith, e, q, q'))
      | inr c ↦ c
    ]
