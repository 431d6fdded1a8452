-- ===== src/Links/Segment.antt =====
-- When link fields hold a sequence of processes: the segment predicate, and its frame laws.
use adr_os.Prelude.{
  ℕ, ◌≡◌, ◌≢◌, refl, sym, ◌∙◌, true, false, ◌||◌, List, [], ◌∷◌, ◌++◌, arith, subst, subst₂,
  ℕ_discrete, ◌⊎◌, inl, inr,
}
use adr_os.Links.{Links, null, mem}

-- `Segment l b h xs t e`: the pointer `h` leads through `xs` to `e`, the link back from the first
-- process is `b`, and `t` is the last process, or `b` if there is none.
pub data Segment (l : Links) : ℕ → ℕ → List ℕ → ℕ → ℕ → Type 0 where
  done : {b h t e : ℕ} → h ≡ e → t ≡ b → Segment l b h [] t e
  node :
      {b h x t e : ℕ} {xs : List ℕ}
      → h ≡ x
      → x ≢ null
      → l.prev x ≡ b
      → Segment l x (l.next x) xs t e
      → Segment l b h (x ∷ xs) t e

-- no process twice
unfoldable pub Distinct : List ℕ → Type 0
Distinct [] = Unit
Distinct (x ∷ xs) = (mem x xs ≡ false) × Distinct xs

-- Links that agree on the processes of a segment hold it alike.
pub Segment-congr :
    (l l' : Links) {b h t e : ℕ} (xs : List ℕ)
    → ((x : ℕ) → mem x xs ≡ true → (l'.next x ≡ l.next x) × (l'.prev x ≡ l.prev x))
    → Segment l b h xs t e
    → Segment l' b h xs t e
unfolding mem
Segment-congr l l' [] f (done a q) = done a q
Segment-congr l l' {t} {e} (x ∷ xs) f (node a n p s) =
    let here = f x (ground arith) in
    node a n (here.1 ∙ p) (
      subst (λ k. Segment l' x k xs t e) (sym here.0)
        (Segment-congr l l' xs (λ y m. f y (ground (arith, m))) s))

-- A list in two parts: the first part ends before `c`, where the second begins, behind `m`.
pub Segment-append :
    (l : Links) {b h t e : ℕ} (xs ys : List ℕ)
    → Segment l b h (xs ++ ys) t e
    → (m : ℕ) × (c : ℕ) × Segment l b h xs m c × Segment l m c ys t e
Segment-append l {b} {h} [] ys s = (b, h, done refl refl, s)
Segment-append l (x ∷ xs) ys (node a n p s) =
    let (m, c, s1, s2) = Segment-append l xs ys s in (m, c, node a n p s1, s2)

pub append-Segment :
    (l : Links) {b h t e m c : ℕ} (xs ys : List ℕ)
    → Segment l b h xs m c
    → Segment l m c ys t e
    → Segment l b h (xs ++ ys) t e
append-Segment l {t} {e} [] ys (done p q) s = subst₂ (λ i j. Segment l i j ys t e) q (sym p) s
append-Segment l (x ∷ xs) ys (node a n p s) s2 = node a n p (append-Segment l xs ys s s2)

-- The last process is on the list, or the list is empty.
pub Segment-last :
    (l : Links) {b h t e : ℕ} (xs : List ℕ)
    → Segment l b h xs t e
    → ((xs ≡ []) × (t ≡ b)) ⊎ ((mem t xs ≡ true) × (t ≢ null))
unfolding mem
Segment-last l [] (done p q) = inl (refl, q)
Segment-last l (x ∷ xs) (node a n p s) = elim (Segment-last l xs s) [
  | inl (e, q) ↦ inr (ground (arith, q), λ z. n (sym q ∙ z))
  | inr (m, q) ↦ inr (ground (arith, m), q)
]

-- So is the first.
pub Segment-first :
    (l : Links) {b h t e : ℕ} (xs : List ℕ)
    → Segment l b h xs t e
    → ((xs ≡ []) × (h ≡ e)) ⊎ ((mem h xs ≡ true) × (h ≢ null))
unfolding mem
Segment-first l [] (done p q) = inl (refl, p)
Segment-first l (x ∷ xs) (node a n p s) = inr (ground (arith, a), λ z. n (sym a ∙ z))

pub mem-append : (p : ℕ) (xs ys : List ℕ) → mem p (xs ++ ys) ≡ (mem p xs || mem p ys)
unfolding mem
mem-append p [] ys = refl
mem-append p (x ∷ xs) ys = ground (arith, mem-append p xs ys)

-- NULL is on no list.
pub null-mem : (l : Links) {b h t e : ℕ} (xs : List ℕ) → Segment l b h xs t e → mem null xs ≡ false
unfolding mem
null-mem l [] s = refl
null-mem l (x ∷ xs) (node a n p s) = ground (arith, null-mem l xs s)

-- Two lists on which no process stands twice.
pub Distinct-append :
    (xs ys : List ℕ)
    → Distinct (xs ++ ys)
    → Distinct xs × Distinct ys × ((z : ℕ) → mem z xs ≡ true → mem z ys ≡ false)
unfolding Distinct mem
Distinct-append [] ys d = (tt, d, λ z m. ground (arith, m))
Distinct-append (x ∷ xs) ys (n, d) =
    let (d1, d2, f) = Distinct-append xs ys d in
    let apart = mem-append x xs ys in
    (
      (ground (arith, n, apart), d1),
      d2,
      λ z m. elim (ℕ_discrete x z) [
        | yes e ↦ subst (λ k. mem k ys ≡ false) e (ground (arith, n, apart))
        | no e ↦ f z (ground (arith, m, e))
      ],
    )

pub append-Distinct :
    (xs ys : List ℕ)
    → Distinct xs
    → Distinct ys
    → ((z : ℕ) → mem z xs ≡ true → mem z ys ≡ false)
    → Distinct (xs ++ ys)
unfolding Distinct mem
append-Distinct [] ys d1 d2 f = d2
append-Distinct (x ∷ xs) ys (n, d) d2 f =
    let there = f x (ground arith) in
    (
      ground (arith, n, there, mem-append x xs ys),
      append-Distinct xs ys d d2 (λ z m. f z (ground (arith, m))),
    )
