-- ===== src/Links/Remove.antt =====
-- Taking a process out of a list, as `rq_dequeue` and `sleep_queue_remove` do.
use adr_os.Prelude.{
  ℕ, ◌≡◌, ◌≢◌, refl, sym, ◌∙◌, true, false, List, [], ◌∷◌, ◌++◌, if◌then◌else◌, ◌==◌, update, arith,
  subst, subst₂, ap, Bool-cases, inl, inr,
}
use adr_os.Links.{Links, null, mem, set_next, set_prev, unlink, without}
use adr_os.Links.Segment.{
  Segment, node, Distinct, Segment-congr, null-mem, Distinct-append, Segment-append, append-Segment,
  mem-append,
}
use adr_os.Links.Insert.{
  set_next-other, set_next-prev, set_next-Segment, set_prev-Segment, mem-ne, relink_next,
  relink_prev, first-Neighbour, last-Neighbour, Neighbour-ne, Neighbour-out,
}

-- The end of the removal: the links of the process are cleared.
cleared : ℕ → Links → Links
cleared p l = record { next = update l.next p null; prev = update l.prev p null }

cleared-Segment :
    (l : Links) (p : ℕ) {b h t e : ℕ} (xs : List ℕ)
    → mem p xs ≡ false
    → Segment l b h xs t e
    → Segment (cleared p l) b h xs t e
unfolding cleared
cleared-Segment l p xs f =
    Segment-congr l (cleared p l) xs
      (λ x i. let ne = mem-ne x p xs i f in (ground (arith, ne), ground (arith, ne)))

-- The removal in terms of the neighbours `m` and `c`.
joined : ℕ → ℕ → ℕ → Links → Links
joined m c p l = cleared p (set_prev c m (set_next m c l))

unlink-joined :
    (l : Links) {m c : ℕ} (p : ℕ)
    → l.prev p ≡ m
    → l.next p ≡ c
    → m ≢ p
    → unlink p l ≡ joined m c p l
unfolding unlink joined cleared
unlink-joined l {m} {c} p e f ne =
    let l1 = set_next m c l in
    let n : l1.next p ≡ c = set_next-other m c l p ne ∙ f in
    let q : l1.prev p ≡ m = set_next-prev m c l p ∙ e in rw e (rw f (rw n (rw q refl)))

-- The list without the process, between the same ends.
joined-Segment :
    (l : Links) {h m c t : ℕ} (p : ℕ) (xs ys : List ℕ)
    → Distinct (xs ++ p ∷ ys)
    → Segment l null h xs m p
    → Segment l p c ys t null
    → Segment
        (joined m c p l)
        null
        (if m == null then c else h)
        (xs ++ ys)
        (if c == null then m else t)
        null
unfolding joined Distinct mem
joined-Segment l {h} {m} {c} {t} p xs ys d s1 s3 =
    append-Segment (joined m c p l) xs ys (cleared-Segment l2 p xs out1 first)
      (cleared-Segment l2 p ys out2 second)
  where
    l1 : Links
    l1 = set_next m c l

    l2 : Links
    l2 = set_prev c m l1

    parts : Distinct xs × Distinct (p ∷ ys) × ((z : ℕ) → mem z xs ≡ true → mem z (p ∷ ys) ≡ false)
    parts = Distinct-append xs (p ∷ ys) d

    out1 : mem p xs ≡ false
    out1 = elim (Bool-cases (mem p xs)) [ inl j ↦ absurd (ground (arith, parts.2 p j)) | inr j ↦ j ]

    out2 : mem p ys ≡ false
    out2 = parts.1.0

    apart : (z : ℕ) → mem z xs ≡ true → mem z ys ≡ false
    apart z i = ground (arith, parts.2 z i)

    m_out : mem m ys ≡ false
    m_out = Neighbour-out m ys xs (last-Neighbour l xs s1) (null-mem l ys s3) (λ z i.
        elim (Bool-cases (mem z xs)) [ inl j ↦ absurd (ground (arith, apart z j, i)) | inr j ↦ j ])

    c_out : mem c xs ≡ false
    c_out = Neighbour-out c xs ys (first-Neighbour l ys s3) (null-mem l xs s1) apart

    first : Segment l2 null (if m == null then c else h) xs m c
    first = set_prev-Segment l1 c m xs c_out (relink_next l c xs parts.0 s1)

    second : Segment l2 m c ys (if c == null then m else t) null
    second = relink_prev l1 m ys parts.1.1 (set_next-Segment l m c ys m_out s3)

-- Where a process stands on a list, the list is split around it.
pub split_at :
    (p : ℕ) (zs : List ℕ) → mem p zs ≡ true → (xs : List ℕ) × (ys : List ℕ) × (zs ≡ xs ++ p ∷ ys)
unfolding mem
split_at p [] i = absurd (ground (arith, i))
split_at p (z ∷ zs) i = elim (Bool-cases (z == p)) [
  | inl e ↦ ([], zs, ap (λ k. k ∷ zs) (ground (arith, e)))
  | inr e ↦
      let (xs, ys, q) = split_at p zs (ground (arith, i, e)) in (z ∷ xs, ys, ap (λ r. z ∷ r) q)
]

-- The neighbours of a process on a list, and the list on either side of them.
pub Segment-around :
    (l : Links) {h t : ℕ} (p : ℕ) (xs ys : List ℕ)
    → Segment l null h (xs ++ p ∷ ys) t null
    → (Segment l null h xs (l.prev p) p) × (Segment l p (l.next p) ys t null) × (p ≢ null)
Segment-around l {h} p xs ys s =
    let (m, c, s1, s2) = Segment-append l xs (p ∷ ys) s in
    elim s2 [ node a n e s3 ↦ (subst₂ (λ i j. Segment l null h xs i j) (sym e) a s1, s3, n) ]

pub not_before : (p : ℕ) (xs ys : List ℕ) → Distinct (xs ++ p ∷ ys) → mem p xs ≡ false
unfolding Distinct mem
not_before p xs ys d = elim (Bool-cases (mem p xs)) [
  | inl j ↦ absurd (ground (arith, (Distinct-append xs (p ∷ ys) d).2 p j))
  | inr j ↦ j
]

-- The process is taken out wherever it stands; the head moves if it was the first, the tail if it
-- was the last.
pub unlink-Segment :
    (l : Links) {h t : ℕ} (p : ℕ) (xs ys : List ℕ)
    → Distinct (xs ++ p ∷ ys)
    → Segment l null h (xs ++ p ∷ ys) t null
    → Segment
        (unlink p l)
        null
        (if l.prev p == null then l.next p else h)
        (xs ++ ys)
        (if l.next p == null then l.prev p else t)
        null
unfolding Distinct
unlink-Segment l {h} {t} p xs ys d s =
    let (s1, s3, np) = Segment-around l p xs ys s in
    subst
      (λ k.
        Segment k null (if l.prev p == null then l.next p else h) (xs ++ ys)
          (if l.next p == null then l.prev p else t) null)
      (sym (
        unlink-joined l p refl refl
          (Neighbour-ne (l.prev p) p xs (last-Neighbour l xs s1) np (not_before p xs ys d))))
      (joined-Segment l p xs ys d s1 s3)

-- A list that shares no process with this one is left as it is.
pub unlink-frame :
    (l : Links) {b h' t' e h t : ℕ} (p : ℕ) (xs ys zs : List ℕ)
    → Distinct (xs ++ p ∷ ys)
    → ((z : ℕ) → mem z zs ≡ true → mem z (xs ++ p ∷ ys) ≡ false)
    → Segment l null h (xs ++ p ∷ ys) t null
    → Segment l b h' zs t' e
    → Segment (unlink p l) b h' zs t' e
unfolding joined mem
unlink-frame l {b} {h'} {t'} {e} p xs ys zs d f s s' =
    let (s1, s3, np) = Segment-around l p xs ys s in
    let m_ne = Neighbour-ne (l.prev p) p xs (last-Neighbour l xs s1) np (not_before p xs ys d) in
    subst (λ k. Segment k b h' zs t' e) (sym (unlink-joined l p refl refl m_ne))
      (cleared-Segment (set_prev (l.next p) (l.prev p) (set_next (l.prev p) (l.next p) l)) p zs
        p_out
        (set_prev-Segment (set_next (l.prev p) (l.next p) l) (l.next p) (l.prev p) zs
          (Neighbour-out (l.next p) zs ys (first-Neighbour l ys s3) (null-mem l zs s')
            (λ z i. (apart z i).2))
          (set_next-Segment l (l.prev p) (l.next p) zs
            (Neighbour-out (l.prev p) zs xs (last-Neighbour l xs s1) (null-mem l zs s')
              (λ z i. (apart z i).0))
            s')))
  where
    apart : (z : ℕ) → mem z zs ≡ true → (mem z xs ≡ false) × (p ≢ z) × (mem z ys ≡ false)
    apart z i = ground (arith, f z i, mem-append z xs (p ∷ ys))

    p_out : mem p zs ≡ false
    p_out = elim (Bool-cases (mem p zs)) [ inl j ↦ absurd ((apart p j).1 refl) | inr j ↦ j ]

-- What is left without a process.
pub without-split :
    (p : ℕ) (xs ys : List ℕ) → mem p xs ≡ false → without p (xs ++ p ∷ ys) ≡ xs ++ ys
unfolding without mem
without-split p [] ys out = ground arith
without-split p (x ∷ xs) ys out = ground (arith, out, without-split p xs ys (ground (arith, out)))

pub mem-without : (p z : ℕ) (xs : List ℕ) → mem z (without p xs) ≡ true → mem z xs ≡ true
unfolding without mem
mem-without p z [] m = m
mem-without p z (x ∷ xs) m = elim (Bool-cases (x == p)) [
  | inl e ↦ ground (arith, e, m)
  | inr e ↦ elim (Bool-cases (mem z (without p xs))) [
    | inl c ↦ ground (arith, mem-without p z xs c)
    | inr c ↦ ground (arith, e, m, c)
  ]
]

pub without-Distinct : (p : ℕ) (xs : List ℕ) → Distinct xs → mem p (without p xs) ≡ false
unfolding without mem Distinct
without-Distinct p [] d = refl
without-Distinct p (x ∷ xs) (o, d) = elim (Bool-cases (x == p)) [
  | inl e ↦
      let q : x ≡ p = ground (arith, e) in
      let o' : mem p xs ≡ false = subst (λ k. mem k xs ≡ false) q o in ground (arith, e, o')
  | inr e ↦ ground (arith, e, without-Distinct p xs d)
]
