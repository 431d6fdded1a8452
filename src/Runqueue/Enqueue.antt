-- ===== src/Runqueue/Enqueue.antt =====
-- `rq_enqueue` puts a process behind the others of its priority.
use adr_os.Prelude.{
  ℕ, ◌^◌, ◌<◌, ◌≡◌, ◌≢◌, refl, sym, ◌∙◌, true, false, ◌&&◌, ◌||◌, List, [], ◌∷◌, ◌++◌, ◌==◌, arith,
  subst, subst₂, Bool-cases, inl, inr, append-nil, bit_or, ap, ℕ_discrete, update_self,
  update-other,
}
use adr_os.Prelude.WordBits.{test_bit, test_bit-or, bit_or-lt, pow-lt}
use adr_os.Links.{null, mem}
use adr_os.Links.Segment.{Segment, done, Distinct, append-Distinct, mem-append}
use adr_os.Links.Insert.{link-Segment, link-frame}
use adr_os.Runqueue.{Runqueues, num_prios, update2, rq_enqueue}
use adr_os.Runqueue.Holds.{
  Holds, nonempty, update2_self, update2-other, by_place, Segment-at, place_cases,
}

-- the lists after the call
unfoldable pub appended : (ℕ → ℕ → List ℕ) → ℕ → ℕ → ℕ → ℕ → ℕ → List ℕ
appended lists s k p = update2 lists s k (lists s k ++ p ∷ [])

-- The process waits nowhere.
unfoldable pub WaitsNot : (ℕ → ℕ → List ℕ) → ℕ → Type 0
WaitsNot lists p = (s k : ℕ) → mem p (lists s k) ≡ false

nonempty-append : (p : ℕ) (xs : List ℕ) → nonempty (xs ++ p ∷ []) ≡ true
unfolding nonempty
nonempty-append p [] = refl
nonempty-append p (x ∷ xs) = refl

pub mem-appended :
    (lists : ℕ → ℕ → List ℕ) (s k p z i j : ℕ)
    → mem z (appended lists s k p i j) ≡ true
    → (mem z (lists i j) || (p == z) && ((s == i) && (k == j))) ≡ true
unfolding appended mem
mem-appended lists s k p z i j m = elim (place_cases s k i j) [
  | inl e ↦
      let m' : mem z (appended lists s k p s k) ≡ true =
        subst₂ (λ a b. mem z (appended lists s k p a b) ≡ true) (sym e.0) (sym e.1) m in
      let here =
        sym (mem-append z (lists s k) (p ∷ []))
        ∙ ap (mem z) (sym (update2_self lists s k (lists s k ++ p ∷ [])))
        ∙ m' in
      subst₂ (λ a b. (mem z (lists a b) || (p == z) && ((s == a) && (k == b))) ≡ true) e.0 e.1
        (ground (arith, here))
  | inr e ↦ ground (arith, ap (mem z) (update2-other lists s k i j (lists s k ++ p ∷ []) e), m, e)
]

module _ (r : Runqueues) (lists : ℕ → ℕ → List ℕ) (s k p : ℕ) (h : Holds r lists) (np : p ≢ null)
    (out : WaitsNot lists p) (low : k < num_prios) where
  lists' : ℕ → ℕ → List ℕ
  lists' = appended lists s k p

  r' : Runqueues
  r' = rq_enqueue s k p r

  enqueue-Segment : (i j : ℕ) → Segment r'.links null (r'.head i j) (lists' i j) (r'.tail i j) null
  unfolding lists' r' appended rq_enqueue WaitsNot mem
  enqueue-Segment =
      by_place (λ i j. Segment r'.links null (r'.head i j) (lists' i j) (r'.tail i j) null) s k
        (Segment-at (ground (arith, update2_self r.head s k p))
          (sym (update2_self lists s k (lists s k ++ p ∷ []))) (sym (update2_self r.tail s k p))
          (link-Segment r.links p (lists s k) [] np (ground (arith, nil, out s k))
            (subst Distinct (sym nil) (h.distinct s k)) (h.segment s k) (done refl refl)))
        (λ i j e.
          Segment-at (ground (arith, update2-other r.head s k i j p e))
            (sym (update2-other lists s k i j (lists s k ++ p ∷ []) e))
            (sym (update2-other r.tail s k i j p e))
            (link-frame r.links p (lists s k) [] (lists i j) (apart i j e) (h.segment s k)
              (done refl refl) (h.segment i j)))
    where
      nil : lists s k ++ [] ≡ lists s k
      nil = append-nil (lists s k)

      apart :
          (i j : ℕ)
          → ((s == i) && (k == j)) ≡ false
          → (z : ℕ) → mem z (lists i j) ≡ true
          → mem z (lists s k ++ p ∷ []) ≡ false
      apart i j e z m = elim (Bool-cases (mem z (lists s k ++ p ∷ []))) [
        | inl c ↦ absurd (elim (Bool-cases (mem z (lists s k))) [
          | inl c' ↦ let (q, q') = h.one_place z s k i j c' m in ground (arith, e, q, q')
          | inr c' ↦
              let pz : p ≡ z = ground (arith, c, c', mem-append z (lists s k) (p ∷ [])) in
              ground (arith, m, subst (λ a. mem a (lists i j) ≡ false) pz (out i j))
        ])
        | inr c ↦ c
      ]

  enqueue-Distinct : (i j : ℕ) → Distinct (lists' i j)
  unfolding lists' appended WaitsNot mem Distinct
  enqueue-Distinct =
      by_place (λ i j. Distinct (lists' i j)) s k
        (subst Distinct (sym (update2_self lists s k (lists s k ++ p ∷ []))) (
          append-Distinct (lists s k) (p ∷ []) (h.distinct s k) (refl, tt)
            (λ z m. elim (Bool-cases (mem z (p ∷ []))) [
              | inl c ↦
                  let pz : p ≡ z = ground (arith, c) in
                  absurd (ground (arith, m, subst (λ a. mem a (lists s k) ≡ false) pz (out s k)))
              | inr c ↦ c
            ])))
        (λ i j e.
          subst Distinct (sym (update2-other lists s k i j (lists s k ++ p ∷ []) e))
            (h.distinct i j))

  enqueue-one_place :
      (z i j i' j' : ℕ)
      → mem z (lists' i j) ≡ true
      → mem z (lists' i' j') ≡ true
      → (i ≡ i') × (j ≡ j')
  unfolding lists' WaitsNot
  enqueue-one_place z i j i' j' m m' =
      let a = mem-appended lists s k p z i j m in
      let a' = mem-appended lists s k p z i' j' m' in
      elim (ℕ_discrete p z) [
        | yes e ↦
            let o = subst (λ q. mem q (lists i j) ≡ false) e (out i j) in
            let o' = subst (λ q. mem q (lists i' j') ≡ false) e (out i' j') in
            (ground (arith, a, a', o, o'), ground (arith, a, a', o, o'))
        | no e ↦ h.one_place z i j i' j' (ground (arith, a, e)) (ground (arith, a', e))
      ]

  enqueue-bits : (i j : ℕ) → j < num_prios → test_bit (r'.bitmap i) j ≡ nonempty (lists' i j)
  unfolding lists' r' appended rq_enqueue
  enqueue-bits =
      by_place (λ i j. j < num_prios → test_bit (r'.bitmap i) j ≡ nonempty (lists' i j)) s k
        (λ l.
          ap (λ w. test_bit w k) (update_self r.bitmap s (bit_or (r.bitmap s) (2 ^ k)))
          ∙ test_bit-or (r.bitmap s) k k
          ∙ ground arith
          ∙ sym (nonempty-append p (lists s k))
          ∙ ap nonempty (sym (update2_self lists s k (lists s k ++ p ∷ []))))
        (λ i j e l.
          bit_other i j e
          ∙ h.bits i j l
          ∙ ap nonempty (sym (update2-other lists s k i j (lists s k ++ p ∷ []) e)))
    where
      bit_other :
          (i j : ℕ)
          → ((s == i) && (k == j)) ≡ false
          → test_bit (r'.bitmap i) j ≡ test_bit (r.bitmap i) j
      bit_other i j e = elim (ℕ_discrete s i) [
        | yes q ↦
            subst (λ a. test_bit (r'.bitmap a) j ≡ test_bit (r.bitmap a) j) q
              (ap (λ w. test_bit w j) (update_self r.bitmap s (bit_or (r.bitmap s) (2 ^ k)))
                ∙ test_bit-or (r.bitmap s) k j
                ∙ ground (arith, e, q))
        | no q ↦ ap (λ w. test_bit w j) (update-other r.bitmap s i (bit_or (r.bitmap s) (2 ^ k)) q)
      ]

  -- A process that is not NULL and waits nowhere is put behind the others of its priority, whose
  -- bit is set, and every other list stays as it is.
  pub rq_enqueue-Holds : Holds (rq_enqueue s k p r) (appended lists s k p)
  unfolding lists' r' appended rq_enqueue
  rq_enqueue-Holds = record {
    segment = enqueue-Segment;
    distinct = enqueue-Distinct;
    one_place = enqueue-one_place;
    bits = enqueue-bits;
    word = word';
  }
    where
      word' : (i : ℕ) → r'.bitmap i < 2 ^ 32
      word' i = elim (ℕ_discrete s i) [
        | yes q ↦
            subst (λ a. r'.bitmap a < 2 ^ 32) q
              (subst (λ w. w < 2 ^ 32) (sym (update_self r.bitmap s (bit_or (r.bitmap s) (2 ^ k))))
                (bit_or-lt 32 (r.bitmap s) (2 ^ k) (h.word s) (pow-lt k 32 low)))
        | no q ↦
            subst (λ w. w < 2 ^ 32)
              (sym (update-other r.bitmap s i (bit_or (r.bitmap s) (2 ^ k)) q)) (h.word i)
      ]
