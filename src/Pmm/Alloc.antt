-- ===== src/Pmm/Alloc.antt =====
-- `pmm_alloc_page` and `pmm_free_page`: what a caller gets, and that freeing undoes allocating.
use adr_os.Prelude.{
  ℕ, ◌+◌, ◌-◌, ◌/◌, ◌%◌, ◌≤◌, ◌<◌, ◌≡◌, refl, ap, subst, subst₂, some_eq, sym, ◌∙◌, true, false,
  Option, none, some, inl, inr, arith, leb, if◌then◌else◌, ◌==◌, Option-cases, count_true-le, sub64,
}
use adr_os.Bitmap.Laws.{bitmap_test-set, bitmap_test-unset}
use adr_os.Pmm.{
  Pmm, page_size, claim, release, reset_hint, find_free, address, alloc_page, free_page,
}
use adr_os.Pmm.Inv.{IsValid, in_use, frame_limit, claim-IsValid, hint-IsValid}
use adr_os.Pmm.Search.{find_free-some, find_free-finds, frame_at_bounds, frame_at_covers}

-- Frame `i` was free in `p`, and `q` is `p` with that frame taken and referenced once.
pub record Granted (p q : Pmm) (i : ℕ) : Type 0 where
  pub above : 1 ≤ i
  pub below : i < p.max_frames
  pub was_free : in_use p i ≡ false
  pub bits : (f : ℕ) → in_use q f ≡ (if i == f then true else in_use p f)
  pub counts : (f : ℕ) → q.frame_refcount f ≡ (if i == f then 1 else p.frame_refcount f)
  pub used : q.used_memory ≡ p.used_memory + page_size
  pub frames : q.max_frames ≡ p.max_frames
  pub valid : IsValid q

hint_bounds :
    (p : Pmm)
    → 2 ≤ p.max_frames
    → (1 ≤ (reset_hint p).last_alloc_frame) × ((reset_hint p).last_alloc_frame < p.max_frames)
unfolding reset_hint
hint_bounds p h = ground arith

-- The scan of `pmm_alloc_page` in one name.
abbrev scan : Pmm → Option ℕ
scan p =
    find_free p.memory_bitmap p.max_frames (reset_hint p).last_alloc_frame (sub64 p.max_frames 1) 0

scan-some :
    (p : Pmm) (i : ℕ)
    → IsValid p
    → 1 ≤ p.max_frames
    → scan p ≡ some i
    → (1 ≤ i) × (i < p.max_frames) × (in_use p i ≡ false)
scan-some p i v h e =
    let hint = (reset_hint p).last_alloc_frame in
    let r = find_free-some p.memory_bitmap p.max_frames hint (sub64 p.max_frames 1) 0 i e in
    let rounds : r.0 < p.max_frames - 1 = omega (arith, r.1, v.limit) in
    let hb = hint_bounds p (omega (arith, rounds)) in
    let fb = frame_at_bounds p.memory_bitmap p.max_frames hint r.0 hb.0 hb.1 rounds in
    (omega (arith, fb.0, r.2), omega (arith, fb.1, r.2), r.3)

scan-finds :
    (p : Pmm) (f : ℕ)
    → IsValid p
    → 1 ≤ f
    → f < p.max_frames
    → in_use p f ≡ false
    → (i : ℕ) × (scan p ≡ some i)
scan-finds p f v a b e =
    let hint = (reset_hint p).last_alloc_frame in
    let hb = hint_bounds p (omega arith) in
    let c = frame_at_covers p.memory_bitmap p.max_frames hint f hb.0 hb.1 a b in
    find_free-finds p.memory_bitmap p.max_frames hint (sub64 p.max_frames 1) 0 c.0 (omega arith)
      (omega (arith, c.1, v.limit)) (ap (in_use p) c.2 ∙ e)

claim-Granted :
    (p : Pmm) (i n : ℕ)
    → IsValid p
    → 1 ≤ i
    → i < p.max_frames
    → in_use p i ≡ false
    → Granted p (record (claim i p) { last_alloc_frame = n }) i
unfolding claim
claim-Granted p i n v a b e = record {
  above = a;
  below = b;
  was_free = e;
  bits = λ f. bitmap_test-set p.memory_bitmap i f;
  counts = λ f. refl;
  used = omega (arith, v.counted, v.limit, count_true-le (in_use p) p.max_frames);
  frames = refl;
  valid = hint-IsValid (claim i p) n (claim-IsValid p v i b e);
}

alloc_page-eq :
    (p : Pmm) (i : ℕ)
    → scan p ≡ some i
    → alloc_page p ≡ (
      some (address i),
      record (claim i p) { last_alloc_frame = if leb p.max_frames (i + 1) then 1 else i + 1 },
    )
unfolding alloc_page
alloc_page-eq p i e = rw (e, alloc_page) refl

alloc_page-eq_none : (p : Pmm) → scan p ≡ none → alloc_page p ≡ (none, reset_hint p)
unfolding alloc_page
alloc_page-eq_none p e = rw (e, alloc_page) refl

pub address_frame :
    (i : ℕ) → i < frame_limit → (address i / page_size ≡ i) × (address i % page_size ≡ 0)
unfolding address
address_frame i h = omega arith

-- In a valid state with at least one frame, the address that `pmm_alloc_page` returns is page
-- aligned, and its frame is another than 0, lies below `max_frames`, was free, and is the one
-- frame whose bit and count change.
pub alloc_page-Granted :
    (p : Pmm) {addr : ℕ}
    → IsValid p
    → 1 ≤ p.max_frames
    → (alloc_page p).0 ≡ some addr
    → Granted p (alloc_page p).1 (addr / page_size) × (addr % page_size ≡ 0)
alloc_page-Granted p {addr} v h e = elim (Option-cases (scan p)) [
  | inl no_frame ↦
      absurd (ground (arith, e, ap (λ (r : Option ℕ × Pmm). r.0) (alloc_page-eq_none p no_frame)))
  | inr (i, found) ↦
      let s = scan-some p i v h found in
      let q = alloc_page-eq p i found in
      let a : address i ≡ addr = some_eq (sym (ap (λ (r : Option ℕ × Pmm). r.0) q) ∙ e) in
      let fr = address_frame i (omega (arith, s.1, v.limit)) in
      (
        subst₂ (Granted p) (sym (ap (λ (r : Option ℕ × Pmm). r.1) q)) (omega (arith, a, fr.0))
            (claim-Granted p i _ v s.0 s.1 s.2),
        omega (arith, a, fr.1),
      )
]

-- In a valid state, whatever the hint is, the scan finds a frame if any frame but 0 is free.
pub alloc_page-finds :
    (p : Pmm) (f : ℕ)
    → IsValid p
    → 1 ≤ f
    → f < p.max_frames
    → in_use p f ≡ false
    → (addr : ℕ) × ((alloc_page p).0 ≡ some addr)
alloc_page-finds p f v a b e =
    let s = scan-finds p f v a b e in
    (address s.0, ap (λ (r : Option ℕ × Pmm). r.0) (alloc_page-eq p s.0 s.1))

-- The invariant, whether or not a frame is found.
pub alloc_page-IsValid : (p : Pmm) → IsValid p → 1 ≤ p.max_frames → IsValid (alloc_page p).1
unfolding reset_hint
alloc_page-IsValid p v h = elim (Option-cases (scan p)) [
  | inl no_frame ↦
      subst IsValid (sym (ap (λ (r : Option ℕ × Pmm). r.1) (alloc_page-eq_none p no_frame)))
        (hint-IsValid p _ v)
  | inr (i, found) ↦
      (alloc_page-Granted p v h
        (ap (λ (r : Option ℕ × Pmm). r.0) (alloc_page-eq p i found))).0.valid
]

free_page-live :
    (addr : ℕ) (p : Pmm)
    → 1 ≤ addr / page_size
    → addr / page_size < p.max_frames
    → in_use p (addr / page_size) ≡ true
    → p.frame_refcount (addr / page_size) ≡ 1
    → free_page addr p ≡ release (addr / page_size) p
unfolding free_page
free_page-live addr p a b c d = ground arith

-- In a valid state with at least one frame, freeing the page just allocated gives back the bits,
-- the counts and the memory in use that there were before.
pub free_page-alloc_page :
    (p : Pmm) {addr : ℕ} (f : ℕ)
    → IsValid p
    → 1 ≤ p.max_frames
    → (alloc_page p).0 ≡ some addr
    → (in_use (free_page addr (alloc_page p).1) f ≡ in_use p f)
      × ((free_page addr (alloc_page p).1).frame_refcount f ≡ p.frame_refcount f)
      × ((free_page addr (alloc_page p).1).used_memory ≡ p.used_memory)
unfolding release
free_page-alloc_page p {addr} f v h e =
    let q = (alloc_page p).1 in
    let i = addr / page_size in
    let g = (alloc_page-Granted p v h e).0 in
    let live =
      free_page-live addr q g.above (omega (arith, g.below, g.frames)) (ground (arith, g.bits i))
        (ground (arith, g.counts i)) in
    rw live (
      ground (
        arith,
        bitmap_test-unset q.memory_bitmap i f,
        g.bits f,
        g.was_free,
        λ (s : i ≡ f). ap (in_use p) s,
      ),
      ground (
        arith,
        g.counts f,
        v.unshared i g.below g.was_free,
        λ (s : i ≡ f). ap p.frame_refcount s,
      ),
      omega (arith, g.used, v.counted, v.limit, count_true-le (in_use p) p.max_frames),
    )
