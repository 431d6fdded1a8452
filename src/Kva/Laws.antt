-- ===== src/Kva/Laws.antt =====
-- Allocation takes free pages and only those, succeeds where a range is free, and is undone by
-- freeing.
use adr_os.Prelude.{
  ℕ, zero, suc, ◌+◌, ◌-◌, ◌*◌, ◌/◌, ◌%◌, ◌≤◌, ◌<◌, ◌≡◌, ◌≢◌, refl, sym, ap, subst, Bool, true,
  false, ◌&&◌, ◌||◌, none, some, arith, if◌then◌else◌, ltb, leb, ◌==◌, add32, Bool-cases,
  Option-cases, inl, inr,
}
use adr_os.Bitmap.{Bytes, bitmap_set, bitmap_unset, bitmap_test}
use adr_os.Bitmap.Laws.{bitmap_test-set, bitmap_test-unset, shifted_test-eq}
use adr_os.Kva.{
  alloc_base, alloc_end, alloc_pages_count, page_size, range_free, find_range, mark, clear,
  alloc_pages, free_pages,
}

-- Page `f` is one of the `n` pages from `i` on.
abbrev pub in_range : ℕ → ℕ → ℕ → Bool
in_range i n f = leb i f && ltb f (i + n)

range_free-all :
    (m : Bytes) (n i k : ℕ) → range_free m i n ≡ true → k < n → bitmap_test m (i + k) ≡ false
unfolding range_free
range_free-all m zero i k h l = absurd (omega arith)
range_free-all m (suc n) i zero h l =
    let e : i ≡ i + 0 = omega arith in
    subst (λ t. bitmap_test m t ≡ false) e (ground (arith, shifted_test-eq m i, h))
range_free-all m (suc n) i (suc k) h l =
    let e : i + 1 + k ≡ i + suc k = omega arith in
    subst (λ t. bitmap_test m t ≡ false) e
      (range_free-all m n (i + 1) k (ground (arith, h)) (omega arith))

range_free-of :
    (m : Bytes) (n i : ℕ)
    → ((k : ℕ) → k < n → bitmap_test m (i + k) ≡ false)
    → range_free m i n ≡ true
unfolding range_free
range_free-of m zero i h = refl
range_free-of m (suc n) i h =
    let e : i + 0 ≡ i = omega arith in
    let first = subst (λ t. bitmap_test m t ≡ false) e (h 0 (omega arith)) in
    ground (
      arith,
      shifted_test-eq m i,
      first,
      range_free-of m n (i + 1) (λ k l.
          let f : i + suc k ≡ i + 1 + k = omega arith in
          subst (λ t. bitmap_test m t ≡ false) f (h (suc k) (omega arith))),
    )

find_range-some :
    (m : Bytes) (count n i s : ℕ)
    → find_range m count n i ≡ some s
    → (i ≤ s) × (s < i + n) × (range_free m s count ≡ true)
unfolding find_range
find_range-some m count zero i s e = cc
find_range-some m count (suc n) i s e = elim (Bool-cases (range_free m i count)) [
  | inl free ↦
      let same : i ≡ s = ground arith in
      (omega arith, omega arith, subst (λ t. range_free m t count ≡ true) same free)
  | inr used ↦
      let r = find_range-some m count n (i + 1) s (ground arith) in
      (omega (arith, r.0), omega (arith, r.1), r.2)
]

find_range-finds :
    (m : Bytes) (count n i t : ℕ)
    → i ≤ t
    → t < i + n
    → range_free m t count ≡ true
    → (s : ℕ) × (find_range m count n i ≡ some s)
unfolding find_range
find_range-finds m count zero i t a b e = absurd (omega arith)
find_range-finds m count (suc n) i t a b e = elim (Bool-cases (range_free m i count)) [
  | inl free ↦ (i, ground arith)
  | inr used ↦
      let ne : i ≢ t = λ (q : i ≡ t). ground (arith, ap (λ x. range_free m x count) q) in
      let r = find_range-finds m count n (i + 1) t (omega arith) (omega arith) e in
      (r.0, ground (arith, r.1))
]

pub mark-bits :
    (n i : ℕ) (m : Bytes) (f : ℕ)
    → bitmap_test (mark n i m) f ≡ (if in_range i n f then true else bitmap_test m f)
unfolding mark
mark-bits zero i m f = ground arith
mark-bits (suc n) i m f =
    ground (arith, mark-bits n (i + 1) (bitmap_set m i) f, bitmap_test-set m i f)

pub clear-bits :
    (n i : ℕ) (m : Bytes) (f : ℕ)
    → bitmap_test (clear n i m) f ≡ (if in_range i n f then false else bitmap_test m f)
unfolding clear
clear-bits zero i m f = ground arith
clear-bits (suc n) i m f =
    ground (arith, clear-bits n (i + 1) (bitmap_unset m i) f, bitmap_test-unset m i f)

-- A range handed out: it was free, lies in the region, and is now marked, and nothing else is.
pub record Granted (m : Bytes) (virt count : ℕ) (m' : Bytes) : Type 0 where
  pub above : alloc_base ≤ virt
  pub below : virt + count * page_size ≤ alloc_end
  pub aligned : virt % page_size ≡ 0
  pub was_free : (k : ℕ) → k < count → bitmap_test m ((virt - alloc_base) / page_size + k) ≡ false
  pub bits :
      (f : ℕ)
      → bitmap_test m' f
        ≡ (if in_range ((virt - alloc_base) / page_size) count f then true else bitmap_test m f)

alloc_pages-eq :
    (count : ℕ) (m : Bytes) (s : ℕ)
    → 1 ≤ count
    → count ≤ alloc_pages_count
    → find_range m count (suc (alloc_pages_count - count)) 0 ≡ some s
    → alloc_pages count m ≡ (add32 alloc_base (s * page_size), mark count s m)
unfolding alloc_pages
alloc_pages-eq count m s a b e =
    let g : (count == 0 || ltb alloc_pages_count count) ≡ false = ground arith in rw (g, e) refl

alloc_pages-eq_none :
    (count : ℕ) (m : Bytes)
    → find_range m count (suc (alloc_pages_count - count)) 0 ≡ none
    → alloc_pages count m ≡ (0, m)
unfolding alloc_pages
alloc_pages-eq_none count m e = elim (Bool-cases (count == 0 || ltb alloc_pages_count count)) [
  | inl g ↦ rw g refl
  | inr g ↦ rw (g, e) refl
]

alloc_pages-eq_bad :
    (count : ℕ) (m : Bytes)
    → (count == 0 || ltb alloc_pages_count count) ≡ true
    → alloc_pages count m ≡ (0, m)
unfolding alloc_pages
alloc_pages-eq_bad count m e = rw e refl

mark-Granted :
    (count : ℕ) (m : Bytes) (s : ℕ)
    → s + count ≤ alloc_pages_count
    → range_free m s count ≡ true
    → Granted m (add32 alloc_base (s * page_size)) count (mark count s m)
mark-Granted count m s h free = record {
  above = omega arith;
  below = omega arith;
  aligned = omega arith;
  was_free = λ k l.
      subst (λ t. bitmap_test m (t + k) ≡ false) (sym page) (range_free-all m count s k free l);
  bits = λ f.
      subst
        (λ t.
          bitmap_test (mark count s m) f ≡ (if in_range t count f then true else bitmap_test m f))
        (sym page) (mark-bits count s m f);
}
  where
    page : (add32 alloc_base (s * page_size) - alloc_base) / page_size ≡ s
    page = omega arith

-- A non-zero address from `kva_alloc_pages` is that of a page-aligned range of the region whose
-- pages were all free; they are marked, and no other page changes.
pub alloc_pages-Granted :
    (count : ℕ) (m : Bytes)
    → (alloc_pages count m).0 ≢ 0
    → Granted m (alloc_pages count m).0 count (alloc_pages count m).1
alloc_pages-Granted count m h = elim (Bool-cases (count == 0 || ltb alloc_pages_count count)) [
  | inl bad ↦ absurd (h (ap (λ (r : ℕ × Bytes). r.0) (alloc_pages-eq_bad count m bad)))
  | inr good ↦ elim (Option-cases (find_range m count (suc (alloc_pages_count - count)) 0)) [
    | inl e ↦ absurd (h (ap (λ (r : ℕ × Bytes). r.0) (alloc_pages-eq_none count m e)))
    | inr (s, e) ↦
        let r = find_range-some m count (suc (alloc_pages_count - count)) 0 s e in
        let q = alloc_pages-eq count m s (ground arith) (ground arith) e in
        subst (λ (t : ℕ × Bytes). Granted m t.0 count t.1) (sym q)
          (mark-Granted count m s (omega (arith, r.1, ground_le count good)) r.2)
  ]
]
  where
    ground_le : (c : ℕ) → (c == 0 || ltb alloc_pages_count c) ≡ false → c ≤ alloc_pages_count
    ground_le c g = ground arith

-- Where `count` adjacent pages of the region are free, `kva_alloc_pages` succeeds.
pub alloc_pages-finds :
    (count : ℕ) (m : Bytes) (t : ℕ)
    → 1 ≤ count
    → t + count ≤ alloc_pages_count
    → ((k : ℕ) → k < count → bitmap_test m (t + k) ≡ false)
    → (alloc_pages count m).0 ≢ 0
alloc_pages-finds count m t a b free =
    let r =
      find_range-finds m count (suc (alloc_pages_count - count)) 0 t (omega arith) (omega arith)
        (range_free-of m count t free) in
    let s = find_range-some m count (suc (alloc_pages_count - count)) 0 r.0 r.1 in
    let q = ap (λ (p : ℕ × Bytes). p.0) (alloc_pages-eq count m r.0 a (omega arith) r.1) in
    omega (arith, q, s.1)

-- Where the allocation succeeds, freeing the range just allocated gives back the bitmap, page by
-- page.
pub free_pages-alloc_pages :
    (count : ℕ) (m : Bytes) (f : ℕ)
    → (alloc_pages count m).0 ≢ 0
    → bitmap_test (free_pages (alloc_pages count m).0 count (alloc_pages count m).1) f
      ≡ bitmap_test m f
unfolding free_pages
free_pages-alloc_pages count m f h =
    let g = alloc_pages-Granted count m h in
    let v = (alloc_pages count m).0 in
    let m' = (alloc_pages count m).1 in
    let s = (v - alloc_base) / page_size in
    ground (arith, g.above, g.below, clear-bits count s m' f, g.bits f, was f g)
  where
    was :
        (x : ℕ)
        → Granted m (alloc_pages count m).0 count (alloc_pages count m).1
        → in_range (((alloc_pages count m).0 - alloc_base) / page_size) count x ≡ true
        → bitmap_test m x ≡ false
    was x g e =
        let s = ((alloc_pages count m).0 - alloc_base) / page_size in
        let k : s + (x - s) ≡ x = ground arith in
        subst (λ t. bitmap_test m t ≡ false) k (g.was_free (x - s) (ground arith))
