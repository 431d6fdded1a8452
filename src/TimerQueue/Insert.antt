-- ===== src/TimerQueue/Insert.antt =====
-- `sleep_queue_insert` puts a process before the first that expires no earlier.
use adr_os.Prelude.{
  ℕ, zero, suc, ◌≤◌, ◌<◌, ◌≡◌, ◌≢◌, refl, sym, ◌∙◌, ap, Bool, true, false, not, ◌&&◌, ◌||◌, List,
  [], ◌∷◌, ◌++◌, if◌then◌else◌, leb, ltb, ◌==◌, arith, length, Bool-cases, if_cases, ℕ_discrete,
  subst, subst₂, inl, inr, update, update_self, update-other, List-cases,
}
use adr_os.Links.{null, mem, link}
use adr_os.Links.Segment.{Segment, done, node, Distinct}
use adr_os.Links.Insert.{link-Segment, last_nonnull}
use adr_os.TimerQueue.{TimerQueue, address_limit, walk, put_first, put_behind, insert}
use adr_os.TimerQueue.Sorted.{Holds, insert_before, mem-insert_before, length-le}

-- Where the walk from `cur` ends: the list behind `cur` in two parts, the process between them.
record Stop (q : TimerQueue) (p cur m : ℕ) (ys : List ℕ) (t : ℕ) : Type 0 where
  passed : List ℕ
  left : List ℕ
  split : ys ≡ passed ++ left
  before : Segment q.links cur (q.links.next cur) passed m (q.links.next m)
  behind : Segment q.links m (q.links.next m) left t null
  spot : insert_before q.tick p ys ≡ passed ++ p ∷ left

walk_stays :
    (n : ℕ) (q : TimerQueue) (t cur : ℕ)
    → (not (q.links.next cur == null) && ltb (q.tick (q.links.next cur)) t) ≡ false
    → walk n q t cur ≡ cur
unfolding walk
walk_stays zero q t cur e = refl
walk_stays (suc n) q t cur e =
    ap (λ (b : Bool). elim b [ true ↦ walk n q t (q.links.next cur) | false ↦ cur ]) e

walk_goes :
    (n : ℕ) (q : TimerQueue) (t cur : ℕ)
    → (not (q.links.next cur == null) && ltb (q.tick (q.links.next cur)) t) ≡ true
    → walk (suc n) q t cur ≡ walk n q t (q.links.next cur)
unfolding walk
walk_goes n q t cur e =
    ap (λ (b : Bool). elim b [ true ↦ walk n q t (q.links.next cur) | false ↦ cur ]) e

walk-Stop :
    (n : ℕ) (q : TimerQueue) (p cur t : ℕ) (ys : List ℕ)
    → Segment q.links cur (q.links.next cur) ys t null
    → length ys ≤ n
    → Stop q p cur (walk n q (q.tick p) cur) ys t
unfolding walk insert_before
walk-Stop n q p cur t [] (done a b) l =
    let stay = walk_stays n q (q.tick p) cur (ground (arith, a)) in
    subst (λ m. Stop q p cur m [] t) (sym stay)
      (record {
        passed = [];
        left = [];
        split = refl;
        before = done refl refl;
        behind = done a b;
        spot = refl;
      })
walk-Stop zero q p cur t (y ∷ ys) s l = absurd (omega arith)
walk-Stop (suc n) q p cur t (y ∷ ys) (node a nn b s) l =
    elim (Bool-cases (ltb (q.tick y) (q.tick p))) [
      | inl e ↦
          let on : walk (suc n) q (q.tick p) cur ≡ walk n q (q.tick p) y =
            walk_goes n q (q.tick p) cur (ground (arith, a, nn, e, ap q.tick a))
            ∙ ap (walk n q (q.tick p)) a in
          let ih = walk-Stop n q p y t ys s (omega arith) in
          subst (λ m. Stop q p cur m (y ∷ ys) t) (sym on)
            (record {
              passed = y ∷ ih.passed;
              left = ih.left;
              split = ap (λ r. y ∷ r) ih.split;
              before = node a nn b ih.before;
              behind = ih.behind;
              spot = ground (arith, e) ∙ ap (λ r. y ∷ r) ih.spot;
            })
      | inr e ↦
          let stay = walk_stays (suc n) q (q.tick p) cur (ground (arith, e, ap q.tick a)) in
          subst (λ m. Stop q p cur m (y ∷ ys) t) (sym stay)
            (record {
              passed = [];
              left = y ∷ ys;
              split = refl;
              before = done refl refl;
              behind = node a nn b s;
              spot = ground (arith, e);
            })
    ]

insert_before-Distinct :
    (tick : ℕ → ℕ) (p : ℕ) (xs : List ℕ)
    → mem p xs ≡ false
    → Distinct xs
    → Distinct (insert_before tick p xs)
unfolding Distinct insert_before mem
insert_before-Distinct tick p [] o d = (refl, tt)
insert_before-Distinct tick p (x ∷ xs) o (i, d) =
    if_cases Distinct (leb (tick p) (tick x)) (p ∷ x ∷ xs) (x ∷ insert_before tick p xs)
      (λ e. (o, (i, d)))
      (λ e. (
        ground (arith, o, i, mem-insert_before tick p x xs),
        insert_before-Distinct tick p xs (ground (arith, o)) d,
      ))

keep_if : (m p i : ℕ) → m ≢ null → i ≡ (if m == null then p else i)
keep_if m p i n = ground (arith, n)

module _ (q : TimerQueue) (p : ℕ) (xs : List ℕ) (h : Holds q xs) (np : p ≢ null)
    (low : p < address_limit) (out : mem p xs ≡ false) where
  flag_set : (z : ℕ) → update q.queued p true z ≡ mem z (insert_before q.tick p xs)
  flag_set z = elim (ℕ_discrete p z) [
    | yes e ↦
        subst (λ k. update q.queued p true k ≡ mem k (insert_before q.tick p xs)) e
          (update_self q.queued p true ∙ ground (arith, mem-insert_before q.tick p p xs))
    | no e ↦
        update-other q.queued p z true e
        ∙ h.flags z
        ∙ ground (arith, e, mem-insert_before q.tick p z xs)
  ]

  small_still : (z : ℕ) → mem z (insert_before q.tick p xs) ≡ true → z < address_limit
  small_still z m = elim (ℕ_discrete p z) [
    | yes e ↦ subst (λ k. k < address_limit) e low
    | no e ↦ h.small z (ground (arith, e, m, mem-insert_before q.tick p z xs))
  ]

  -- What the links become is all that is left to show.
  inserted :
      (q' : TimerQueue) (last : ℕ)
      → q'.queued ≡ update q.queued p true
      → Segment q'.links null q'.head (insert_before q.tick p xs) last null
      → Holds q' (insert_before q.tick p xs)
  inserted q' last e s = record {
    last = last;
    segment = s;
    distinct = insert_before-Distinct q.tick p xs out h.distinct;
    flags = λ z. ap (λ f. f z) e ∙ flag_set z;
    small = small_still;
  }

  put_first-Holds :
      (q.head == null || leb (q.tick p) (q.tick q.head)) ≡ true
      → Holds (put_first p q) (insert_before q.tick p xs)
  unfolding put_first insert_before
  put_first-Holds early = inserted (put_first p q) (if q.head == null then p else h.last) refl (
      subst
        (λ zs.
          Segment (link null q.head p q.links) null p zs (if q.head == null then p else h.last)
            null)
        (sym (before_all xs h.segment))
        (link-Segment q.links p [] xs np out h.distinct (done refl refl) h.segment))
    where
      before_all :
          (zs : List ℕ)
          → Segment q.links null q.head zs h.last null
          → insert_before q.tick p zs ≡ p ∷ zs
      before_all [] s = refl
      before_all (z ∷ zs) (node a n b s) = ground (arith, early, n, a, ap q.tick a)

  put_behind-Holds :
      (y : ℕ) (ys : List ℕ)
      → xs ≡ y ∷ ys
      → (q.head == null || leb (q.tick p) (q.tick q.head)) ≡ false
      → Holds (put_behind (walk address_limit q (q.tick p) q.head) p q) (insert_before q.tick p xs)
  unfolding put_behind insert_before
  put_behind-Holds y ys e late =
      behind (subst (λ zs. Segment q.links null q.head zs h.last null) e h.segment)
    where
      behind :
          Segment q.links null q.head (y ∷ ys) h.last null
          → Holds
              (put_behind (walk address_limit q (q.tick p) q.head) p q)
              (insert_before q.tick p xs)
      behind (node a nn b s) =
          let few : length ys ≤ address_limit =
            omega (arith, ap length e, length-le address_limit xs h.distinct h.small) in
          let step : insert_before q.tick p (y ∷ ys) ≡ y ∷ insert_before q.tick p ys =
            ground (arith, late, a, nn, ap q.tick a) in
          let st = walk-Stop address_limit q p y h.last ys s few in
          let m = walk address_limit q (q.tick p) y in
          let first = node a nn b st.before in
          let whole : xs ≡ (y ∷ st.passed) ++ st.left = e ∙ ap (λ r. y ∷ r) st.split in
          let spot : insert_before q.tick p xs ≡ (y ∷ st.passed) ++ p ∷ st.left =
            ap (insert_before q.tick p) e ∙ step ∙ ap (λ r. y ∷ r) st.spot in
          let here =
            link-Segment q.links p (y ∷ st.passed) st.left np
              (subst (λ zs. mem p zs ≡ false) whole out) (subst Distinct whole h.distinct) first
              st.behind in
          let keep : q.head ≡ (if m == null then p else q.head) =
            keep_if m p q.head (last_nonnull q.links y st.passed first) in
          inserted (put_behind (walk address_limit q (q.tick p) q.head) p q)
            (if q.links.next m == null then p else h.last) refl
            (subst₂
              (λ i zs.
                Segment
                  (link (walk address_limit q (q.tick p) q.head)
                    (q.links.next (walk address_limit q (q.tick p) q.head)) p q.links)
                  null i zs (if q.links.next m == null then p else h.last) null)
              (sym keep) (sym spot)
              (subst
                (λ k.
                  Segment (link k (q.links.next k) p q.links) null (if m == null then p else q.head)
                    ((y ∷ st.passed) ++ p ∷ st.left) (if q.links.next m == null then p else h.last)
                    null)
                (sym (ap (walk address_limit q (q.tick p)) a)) here))

  -- A process that is not NULL, has a 32-bit address and does not wait yet is put before the first
  -- that expires no earlier, and the others keep their order.
  pub insert-Holds : Holds (insert p q) (insert_before q.tick p xs)
  unfolding insert
  insert-Holds =
      if_cases (λ k. Holds k (insert_before q.tick p xs))
        (q.head == null || leb (q.tick p) (q.tick q.head)) (put_first p q)
        (put_behind (walk address_limit q (q.tick p) q.head) p q) put_first-Holds
        (λ late. elim (List-cases xs) [
          | inl e ↦ absurd (
              nothing_late (subst (λ zs. Segment q.links null q.head zs h.last null) e h.segment)
                late)
          | inr (y, ys, e) ↦ put_behind-Holds y ys e late
        ])
    where
      nothing_late :
          Segment q.links null q.head [] h.last null
          → (q.head == null || leb (q.tick p) (q.tick q.head)) ≡ false
          → ⊥
      nothing_late (done a b) late = ground (arith, a, late)

pub tick-insert : (p : ℕ) (q : TimerQueue) → (insert p q).tick ≡ q.tick
unfolding insert put_first put_behind
tick-insert p q = ground arith
