-- ===== src/Pmm/Blocks.antt =====
-- `pmm_alloc_blocks`: runs of adjacent frames, and `pmm_free_blocks`.
use adr_os.Prelude.{
  ℕ, zero, suc, ◌+◌, ◌/◌, ◌%◌, ◌≤◌, ◌<◌, ◌≡◌, refl, ap, subst, subst₂, sym, ◌∙◌, Bool, true, false,
  Option, none, some, inl, inr, arith, ltb, leb, if◌then◌else◌, ◌==◌, ◌&&◌, Option-cases, some_eq,
}
use adr_os.Bitmap.Laws.{bitmap_test-set}
use adr_os.Pmm.{
  Pmm, page_size, claim, claim_run, find_run, first_used, address, alloc_run, alloc_blocks,
}
use adr_os.Pmm.Inv.{IsValid, in_use, claim-IsValid}
use adr_os.Pmm.Search.{find_run-some, find_run-finds, first_used-none}
use adr_os.Pmm.Alloc.{address_frame, alloc_page-IsValid}

-- Frame `f` is one of the `n` frames from `start` on.
abbrev pub in_run : ℕ → ℕ → ℕ → Bool
in_run start n f = leb start f && ltb f (start + n)

-- The `n` frames from `start` on were free in `p`, and `q` is `p` with just those taken.
pub record GrantedRun (p q : Pmm) (start n : ℕ) : Type 0 where
  pub above : 1 ≤ start
  pub below : start + n ≤ p.max_frames
  pub was_free : (k : ℕ) → k < n → in_use p (start + k) ≡ false
  pub bits : (f : ℕ) → in_use q f ≡ (if in_run start n f then true else in_use p f)
  pub counts : (f : ℕ) → q.frame_refcount f ≡ (if in_run start n f then 1 else p.frame_refcount f)
  pub valid : IsValid q

claim-bits :
    (i : ℕ) (p : Pmm) (f : ℕ) → in_use (claim i p) f ≡ (if i == f then true else in_use p f)
unfolding claim
claim-bits i p f = bitmap_test-set p.memory_bitmap i f

claim-counts :
    (i : ℕ) (p : Pmm) (f : ℕ)
    → (claim i p).frame_refcount f ≡ (if i == f then 1 else p.frame_refcount f)
unfolding claim
claim-counts i p f = refl

claim-max : (i : ℕ) (p : Pmm) → (claim i p).max_frames ≡ p.max_frames
unfolding claim
claim-max i p = refl

claim_run-bits :
    (n start : ℕ) (p : Pmm) (f : ℕ)
    → in_use (claim_run n start p) f ≡ (if in_run start n f then true else in_use p f)
unfolding claim_run
claim_run-bits zero start p f = ground arith
claim_run-bits (suc n) start p f =
    ground (arith, claim_run-bits n (start + 1) (claim start p) f, claim-bits start p f)

claim_run-counts :
    (n start : ℕ) (p : Pmm) (f : ℕ)
    → (claim_run n start p).frame_refcount f ≡ (if in_run start n f then 1 else p.frame_refcount f)
unfolding claim_run
claim_run-counts zero start p f = ground arith
claim_run-counts (suc n) start p f =
    ground (arith, claim_run-counts n (start + 1) (claim start p) f, claim-counts start p f)

claim_run-IsValid :
    (n start : ℕ) (p : Pmm)
    → start + n ≤ p.max_frames
    → ((k : ℕ) → k < n → in_use p (start + k) ≡ false)
    → IsValid p
    → IsValid (claim_run n start p)
unfolding claim_run
claim_run-IsValid zero start p h free v = v
claim_run-IsValid (suc n) start p h free v =
    claim_run-IsValid n (start + 1) (claim start p) (omega (arith, claim-max start p)) later
      (claim-IsValid p v start (omega arith) first)
  where
    first : in_use p start ≡ false
    first = subst (λ f. in_use p f ≡ false) (omega arith) (free 0 (omega arith))

    later : (k : ℕ) → k < n → in_use (claim start p) (start + 1 + k) ≡ false
    later k l =
        let e : start + suc k ≡ start + 1 + k = omega arith in
        let f = subst (λ f. in_use p f ≡ false) e (free (suc k) (omega arith)) in
        ground (arith, claim-bits start p (start + 1 + k), f)

alloc_run-eq :
    (count : ℕ) (p : Pmm) (start : ℕ)
    → find_run p.max_frames p.memory_bitmap p.max_frames count 1 ≡ some start
    → alloc_run count p ≡ (some (address start), claim_run count start p)
unfolding alloc_run
alloc_run-eq count p start e = rw (e, alloc_run) refl

alloc_run-eq_none :
    (count : ℕ) (p : Pmm)
    → find_run p.max_frames p.memory_bitmap p.max_frames count 1 ≡ none
    → alloc_run count p ≡ (none, p)
unfolding alloc_run
alloc_run-eq_none count p e = rw (e, alloc_run) refl

run-Granted :
    (count : ℕ) (p : Pmm) (start : ℕ)
    → IsValid p
    → find_run p.max_frames p.memory_bitmap p.max_frames count 1 ≡ some start
    → GrantedRun p (claim_run count start p) start count
run-Granted count p start v e = record {
  above = r.0;
  below = r.1;
  was_free = free;
  bits = claim_run-bits count start p;
  counts = claim_run-counts count start p;
  valid = claim_run-IsValid count start p r.1 free v;
}
  where
    r :
        (1 ≤ start)
        × (start + count ≤ p.max_frames)
        × (first_used p.memory_bitmap start count 0 ≡ none)
    r = find_run-some p.memory_bitmap p.max_frames count p.max_frames 1 start e

    free : (k : ℕ) → k < count → in_use p (start + k) ≡ false
    free k l = first_used-none p.memory_bitmap start count 0 k r.2 (omega arith) (omega arith)

-- In a valid state and for two frames or more, the address that `pmm_alloc_blocks` returns is page
-- aligned, and the frames from it on lie between 1 and `max_frames`, were all free, and are the
-- only ones whose bit and count change.
pub alloc_blocks-Granted :
    (count : ℕ) (p : Pmm) {addr : ℕ}
    → 2 ≤ count
    → IsValid p
    → (alloc_blocks count p).0 ≡ some addr
    → GrantedRun p (alloc_blocks count p).1 (addr / page_size) count × (addr % page_size ≡ 0)
unfolding alloc_blocks
alloc_blocks-Granted (suc (suc n)) p {addr} h v e =
    elim (Option-cases (find_run p.max_frames p.memory_bitmap p.max_frames (suc (suc n)) 1)) [
      | inl missing ↦ absurd (
          ground (
            arith,
            e,
            ap (λ (r : Option ℕ × Pmm). r.0) (alloc_run-eq_none (suc (suc n)) p missing),
          ))
      | inr (start, found) ↦
          let g = run-Granted (suc (suc n)) p start v found in
          let q = alloc_run-eq (suc (suc n)) p start found in
          let a : address start ≡ addr = some_eq (sym (ap (λ (r : Option ℕ × Pmm). r.0) q) ∙ e) in
          let fr = address_frame start (omega (arith, g.below, v.limit)) in
          (
            subst₂ (λ r f. GrantedRun p r f (suc (suc n)))
                (sym (ap (λ (r : Option ℕ × Pmm). r.1) q)) (omega (arith, a, fr.0)) g,
            omega (arith, a, fr.1),
          )
    ]
alloc_blocks-Granted zero p h v e = absurd (omega arith)
alloc_blocks-Granted (suc zero) p h v e = absurd (omega arith)

-- For two frames or more, the skips lose no run: where `count` adjacent frames are free, from
-- frame 1 on, the search of `pmm_alloc_blocks` returns an address.
pub alloc_blocks-finds :
    (count : ℕ) (p : Pmm) (t : ℕ)
    → 2 ≤ count
    → 1 ≤ t
    → t + count ≤ p.max_frames
    → ((k : ℕ) → k < count → in_use p (t + k) ≡ false)
    → (addr : ℕ) × ((alloc_blocks count p).0 ≡ some addr)
unfolding alloc_blocks
alloc_blocks-finds (suc (suc n)) p t h a b free =
    let r =
      find_run-finds p.memory_bitmap p.max_frames (suc (suc n)) p.max_frames 1 t a b (omega arith)
        free in
    (address r.0, ap (λ (q : Option ℕ × Pmm). q.0) (alloc_run-eq (suc (suc n)) p r.0 r.1))
alloc_blocks-finds zero p t h a b free = absurd (omega arith)
alloc_blocks-finds (suc zero) p t h a b free = absurd (omega arith)

pub alloc_blocks-IsValid :
    (count : ℕ) (p : Pmm) → IsValid p → 1 ≤ p.max_frames → IsValid (alloc_blocks count p).1
unfolding alloc_blocks
alloc_blocks-IsValid zero p v h = v
alloc_blocks-IsValid (suc zero) p v h = alloc_page-IsValid p v h
alloc_blocks-IsValid (suc (suc n)) p v h =
    elim (Option-cases (find_run p.max_frames p.memory_bitmap p.max_frames (suc (suc n)) 1)) [
      | inl missing ↦
          subst IsValid
            (sym (ap (λ (r : Option ℕ × Pmm). r.1) (alloc_run-eq_none (suc (suc n)) p missing))) v
      | inr (start, found) ↦
          subst IsValid
            (sym (ap (λ (r : Option ℕ × Pmm). r.1) (alloc_run-eq (suc (suc n)) p start found)))
            (run-Granted (suc (suc n)) p start v found).valid
    ]
