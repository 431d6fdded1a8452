-- ===== src/Links/Insert.antt =====
-- Putting a process between two neighbours, as `rq_enqueue` and `sleep_queue_insert` do.
use adr_os.Prelude.{
  ℕ, ◌≡◌, ◌≢◌, refl, sym, ◌∙◌, true, false, List, [], ◌∷◌, ◌++◌, if◌then◌else◌, ◌==◌, update, arith,
  subst, subst₂, Bool-cases, ◌⊎◌, inl, inr,
}
use adr_os.Links.{Links, null, mem, set_next, set_prev, link}
use adr_os.Links.Segment.{
  Segment, done, node, Distinct, Segment-congr, Segment-last, Segment-first, null-mem,
  Distinct-append, append-Segment, mem-append,
}

pub set_next_self : (m p : ℕ) (l : Links) → m ≢ null → (set_next m p l).next m ≡ p
unfolding set_next
set_next_self m p l h = ground (arith, h)

pub set_next-other : (m p : ℕ) (l : Links) (x : ℕ) → m ≢ x → (set_next m p l).next x ≡ l.next x
unfolding set_next
set_next-other m p l x h = ground (arith, h)

pub set_next-prev : (m p : ℕ) (l : Links) (x : ℕ) → (set_next m p l).prev x ≡ l.prev x
unfolding set_next
set_next-prev m p l x = ground arith

pub set_prev_self : (m p : ℕ) (l : Links) → m ≢ null → (set_prev m p l).prev m ≡ p
unfolding set_prev
set_prev_self m p l h = ground (arith, h)

pub set_prev-other : (m p : ℕ) (l : Links) (x : ℕ) → m ≢ x → (set_prev m p l).prev x ≡ l.prev x
unfolding set_prev
set_prev-other m p l x h = ground (arith, h)

pub set_prev-next : (m p : ℕ) (l : Links) (x : ℕ) → (set_prev m p l).next x ≡ l.next x
unfolding set_prev
set_prev-next m p l x = ground arith

-- A process that is on a list differs from one that is not.
pub mem-ne : (x y : ℕ) (xs : List ℕ) → mem x xs ≡ true → mem y xs ≡ false → y ≢ x
mem-ne x y xs a b e = ground (arith, subst (λ k. mem k xs ≡ false) e b, a)

pub set_next-Segment :
    (l : Links) (m p : ℕ) {b h t e : ℕ} (xs : List ℕ)
    → mem m xs ≡ false
    → Segment l b h xs t e
    → Segment (set_next m p l) b h xs t e
set_next-Segment l m p xs f =
    Segment-congr l (set_next m p l) xs
      (λ x i. (set_next-other m p l x (mem-ne x m xs i f), set_next-prev m p l x))

pub set_prev-Segment :
    (l : Links) (m p : ℕ) {b h t e : ℕ} (xs : List ℕ)
    → mem m xs ≡ false
    → Segment l b h xs t e
    → Segment (set_prev m p l) b h xs t e
set_prev-Segment l m p xs f =
    Segment-congr l (set_prev m p l) xs
      (λ x i. (set_prev-next m p l x, set_prev-other m p l x (mem-ne x m xs i f)))

last_mem :
    (l : Links) {b h t e : ℕ} (x : ℕ) (xs : List ℕ)
    → Segment l b h (x ∷ xs) t e
    → mem t (x ∷ xs) ≡ true
unfolding mem
last_mem l x [] (node a n p (done f g)) = ground (arith, g)
last_mem l x (y ∷ ys) (node a n p s) = ground (arith, last_mem l y ys s)

pub last_nonnull :
    (l : Links) {b h t e : ℕ} (x : ℕ) (xs : List ℕ) → Segment l b h (x ∷ xs) t e → t ≢ null
last_nonnull l x [] (node a n p (done f g)) = λ z. n (sym g ∙ z)
last_nonnull l x (y ∷ ys) (node a n p s) = last_nonnull l y ys s

-- The link out of the last process.
relink_last :
    (l : Links) {b h m c : ℕ} (c' x : ℕ) (xs : List ℕ)
    → Distinct (x ∷ xs)
    → Segment l b h (x ∷ xs) m c
    → Segment (set_next m c' l) b h (x ∷ xs) m c'
unfolding Distinct mem
relink_last l {m} c' x [] d (node a n p (done f g)) = node a n (set_next-prev m c' l x ∙ p) (
    done (subst (λ k. (set_next m c' l).next k ≡ c') g (set_next_self m c' l (λ z. n (sym g ∙ z))))
      g)
relink_last l {m} c' x (y ∷ ys) (i, d) (node a n p s) =
    let ne = mem-ne m x (y ∷ ys) (last_mem l y ys s) i in
    node a n (set_next-prev m c' l x ∙ p) (
      subst (λ k. Segment (set_next m c' l) x k (y ∷ ys) m c')
        (sym (set_next-other m c' l x (λ e. ne (sym e)))) (relink_last l c' y ys d s))

-- `m->next = c'`, or the head where there is no `m`
pub relink_next :
    (l : Links) {h m c : ℕ} (c' : ℕ) (xs : List ℕ)
    → Distinct xs
    → Segment l null h xs m c
    → Segment (set_next m c' l) null (if m == null then c' else h) xs m c'
relink_next l c' [] d (done p q) = done (ground (arith, q)) q
relink_next l {h} {m} c' (x ∷ xs) d s =
    let n = (last_nonnull l x xs s) in
    subst (λ k. Segment (set_next m c' l) null k (x ∷ xs) m c') (ground (arith, n))
      (relink_last l c' x xs d s)

-- `c->prev = m'`, or the tail where there is no `c`
pub relink_prev :
    (l : Links) {m c t : ℕ} (m' : ℕ) (ys : List ℕ)
    → Distinct ys
    → Segment l m c ys t null
    → Segment (set_prev c m' l) m' c ys (if c == null then m' else t) null
unfolding Distinct
relink_prev l m' [] d (done p q) = done p (ground (arith, p))
relink_prev l {c} {t} m' (x ∷ xs) (i, d) (node a n p s) =
    let i' : mem c xs ≡ false = subst (λ k. mem k xs ≡ false) (sym a) i in
    let n' : c ≢ null = λ e. n (sym a ∙ e) in
    let tail : t ≡ (if c == null then m' else t) = ground (arith, n') in
    node a n (subst (λ k. (set_prev c m' l).prev k ≡ m') a (set_prev_self c m' l n')) (
      subst₂ (λ k r. Segment (set_prev c m' l) x k xs r null) (sym (set_prev-next c m' l x)) tail
        (set_prev-Segment l c m' xs i' s))

-- A neighbour is on its side of the list, or is NULL.
pub Neighbour : ℕ → List ℕ → Type 0
Neighbour k ys = (mem k ys ≡ true) ⊎ (k ≡ null)

pub first-Neighbour :
    (l : Links) {b h t : ℕ} (xs : List ℕ) → Segment l b h xs t null → Neighbour h xs
unfolding Neighbour
first-Neighbour l xs s = elim (Segment-first l xs s) [ inl q ↦ inr q.1 | inr q ↦ inl q.0 ]

pub last-Neighbour :
    (l : Links) {h t e : ℕ} (xs : List ℕ) → Segment l null h xs t e → Neighbour t xs
unfolding Neighbour
last-Neighbour l xs s = elim (Segment-last l xs s) [ inl q ↦ inr q.1 | inr q ↦ inl q.0 ]

pub Neighbour-ne : (k p : ℕ) (ys : List ℕ) → Neighbour k ys → p ≢ null → mem p ys ≡ false → k ≢ p
unfolding Neighbour
Neighbour-ne k p ys (inl i) np out = λ e. mem-ne k p ys i out (sym e)
Neighbour-ne k p ys (inr z) np out = λ e. np (sym e ∙ z)

-- It is not on the other side.
pub Neighbour-out :
    (k : ℕ) (xs ys : List ℕ)
    → Neighbour k ys
    → mem null xs ≡ false
    → ((z : ℕ) → mem z xs ≡ true → mem z ys ≡ false)
    → mem k xs ≡ false
unfolding Neighbour
Neighbour-out k xs ys (inl i) n f = elim (Bool-cases (mem k xs)) [
  | inl j ↦ absurd (ground (arith, f k j, i))
  | inr j ↦ j
]
Neighbour-out k xs ys (inr z) n f = subst (λ j. mem j xs ≡ false) (sym z) n

-- The two link fields of `p` itself, before its neighbours are told.
with_links : ℕ → ℕ → ℕ → Links → Links
with_links m c p l = record { next = update l.next p c; prev = update l.prev p m }

with_links-Segment :
    (l : Links) (m' c' p : ℕ) {b h t e : ℕ} (xs : List ℕ)
    → mem p xs ≡ false
    → Segment l b h xs t e
    → Segment (with_links m' c' p l) b h xs t e
unfolding with_links
with_links-Segment l m' c' p xs f =
    Segment-congr l (with_links m' c' p l) xs
      (λ x i. let ne = mem-ne x p xs i f in (ground (arith, ne), ground (arith, ne)))

-- Between its neighbours, a process joins the list where it was put.
pub link-Segment :
    (l : Links) {h m c t : ℕ} (p : ℕ) (xs ys : List ℕ)
    → p ≢ null
    → mem p (xs ++ ys) ≡ false
    → Distinct (xs ++ ys)
    → Segment l null h xs m c
    → Segment l m c ys t null
    → Segment
        (link m c p l)
        null
        (if m == null then p else h)
        (xs ++ p ∷ ys)
        (if c == null then p else t)
        null
unfolding link with_links
link-Segment l {h} {m} {c} {t} p xs ys np out d s1 s2 =
    append-Segment l' xs (p ∷ ys) (relink_next l1 p xs parts.0 first1) (
      node refl np (set_next-prev m p l1 p ∙ set_prev-other c p l0 p c_ne ∙ ground arith) (
        subst (λ k. Segment l' p k ys (if c == null then p else t) null) (sym after)
          (set_next-Segment l1 m p ys m_out (relink_prev l0 p ys parts.1 second0))))
  where
    l0 : Links
    l0 = with_links m c p l

    l1 : Links
    l1 = set_prev c p l0

    l' : Links
    l' = set_next m p l1

    parts : Distinct xs × Distinct ys × ((z : ℕ) → mem z xs ≡ true → mem z ys ≡ false)
    parts = Distinct-append xs ys d

    out1 : mem p xs ≡ false
    out1 = ground (arith, out, mem-append p xs ys)

    out2 : mem p ys ≡ false
    out2 = ground (arith, out, mem-append p xs ys)

    c_ne : c ≢ p
    c_ne = Neighbour-ne c p ys (first-Neighbour l ys s2) np out2

    m_ne : m ≢ p
    m_ne = Neighbour-ne m p xs (last-Neighbour l xs s1) np out1

    c_out : mem c xs ≡ false
    c_out = Neighbour-out c xs ys (first-Neighbour l ys s2) (null-mem l xs s1) parts.2

    m_out : mem m ys ≡ false
    m_out = Neighbour-out m ys xs (last-Neighbour l xs s1) (null-mem l ys s2) (λ z i.
        elim (Bool-cases (mem z xs)) [
          | inl j ↦ absurd (ground (arith, parts.2 z j, i))
          | inr j ↦ j
        ])

    first1 : Segment l1 null h xs m c
    first1 = set_prev-Segment l0 c p xs c_out (with_links-Segment l m c p xs out1 s1)

    second0 : Segment l0 m c ys t null
    second0 = with_links-Segment l m c p ys out2 s2

    after : l'.next p ≡ c
    after = set_next-other m p l1 p m_ne ∙ set_prev-next c p l0 p ∙ ground arith

-- A list that shares no process with this one is left as it is.
pub link-frame :
    (l : Links) {b h' t' e h m c t : ℕ} (p : ℕ) (xs ys zs : List ℕ)
    → ((z : ℕ) → mem z zs ≡ true → mem z (xs ++ p ∷ ys) ≡ false)
    → Segment l null h xs m c
    → Segment l m c ys t null
    → Segment l b h' zs t' e
    → Segment (link m c p l) b h' zs t' e
unfolding link with_links mem
link-frame l {m} {c} p xs ys zs f s1 s2 s =
    set_next-Segment (set_prev c p (with_links m c p l)) m p zs m_out
      (set_prev-Segment (with_links m c p l) c p zs c_out (with_links-Segment l m c p zs p_out s))
  where
    apart : (z : ℕ) → mem z zs ≡ true → (mem z xs ≡ false) × (p ≢ z) × (mem z ys ≡ false)
    apart z i = ground (arith, f z i, mem-append z xs (p ∷ ys))

    p_out : mem p zs ≡ false
    p_out = elim (Bool-cases (mem p zs)) [ inl j ↦ absurd ((apart p j).1 refl) | inr j ↦ j ]

    m_out : mem m zs ≡ false
    m_out = Neighbour-out m zs xs (last-Neighbour l xs s1) (null-mem l zs s) (λ z i. (apart z i).0)

    c_out : mem c zs ≡ false
    c_out = Neighbour-out c zs ys (first-Neighbour l ys s2) (null-mem l zs s) (λ z i. (apart z i).2)
