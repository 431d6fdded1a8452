-- ===== src/Pmm/Sharing.antt =====
-- Reference counts over whole histories of calls: `pmm_incref` and `pmm_decref` beside the
-- allocating and freeing functions.
use adr_os.Prelude.{
  ℕ, zero, suc, Option-cases, inl, inr, ◌+◌, ◌-◌, ◌*◌, ◌/◌, ◌^◌, ◌≤◌, ◌<◌, ◌≡◌, ◌≢◌, refl, ap, ◌∙◌,
  true, not, arith, if◌then◌else◌, ◌==◌, add32,
}
use adr_os.Bitmap.Laws.{bitmap_test-unset}
use adr_os.Pmm.{
  Pmm, page_size, release, alloc_page, alloc_blocks, free_page, free_blocks, free_blocks_from,
  find_run, incref, decref, claim, claim_run, reset_hint, alloc_run,
}
use adr_os.Pmm.Inv.{
  IsValid, in_use, free_page-IsValid, free_blocks-IsValid, incref-IsValid, decref-IsValid,
  in_use_of_refcount,
}
use adr_os.Pmm.Alloc.{alloc_page-IsValid}
use adr_os.Pmm.Blocks.{alloc_blocks-IsValid}

-- One call. A reference is added to a page in use only, which `pmm_incref` does not check.
pub data Step : Pmm → Pmm → Type 0 where
  alloc : (p : Pmm) → Step p (alloc_page p).1
  alloc_many : (p : Pmm) (count : ℕ) → Step p (alloc_blocks count p).1
  free : (p : Pmm) (addr : ℕ) → Step p (free_page addr p)
  free_many : (p : Pmm) (addr count : ℕ) → Step p (free_blocks addr count p)
  share : (p : Pmm) (paddr : ℕ) → in_use p (paddr / page_size) ≡ true → Step p (incref paddr p)
  unshare : (p : Pmm) (paddr : ℕ) → Step p (decref paddr p).1

pub data Run (p : Pmm) : Pmm → Type 0 where
  here : Run p p
  next : {q r : Pmm} → Run p q → Step q r → Run p r

free_page-max : (addr : ℕ) (p : Pmm) → (free_page addr p).max_frames ≡ p.max_frames
unfolding free_page release
free_page-max addr p = ground arith

free_blocks-max : (addr n : ℕ) (p : Pmm) → (free_blocks addr n p).max_frames ≡ p.max_frames
unfolding free_blocks
free_blocks-max addr count p = go count 0 p
  where
    go : (n i : ℕ) (q : Pmm) → (free_blocks_from n addr i q).max_frames ≡ q.max_frames
    go zero i q = refl
    go (suc n) i q =
        go n (i + 1) (free_page (add32 addr (i * page_size)) q)
        ∙ free_page-max (add32 addr (i * page_size)) q

alloc_page-max : (p : Pmm) → (alloc_page p).1.max_frames ≡ p.max_frames
unfolding alloc_page claim reset_hint
alloc_page-max p = ground arith

claim_run-max : (n start : ℕ) (p : Pmm) → (claim_run n start p).max_frames ≡ p.max_frames
unfolding claim_run claim
claim_run-max zero start p = refl
claim_run-max (suc n) start p = claim_run-max n (start + 1) (claim start p)

alloc_run-max : (count : ℕ) (p : Pmm) → (alloc_run count p).1.max_frames ≡ p.max_frames
unfolding alloc_run
alloc_run-max count p =
    elim (Option-cases (find_run p.max_frames p.memory_bitmap p.max_frames count 1)) [
      | inl e ↦ rw (e, alloc_run) refl
      | inr (start, e) ↦ rw (e, alloc_run) (claim_run-max count start p)
    ]

alloc_blocks-max : (count : ℕ) (p : Pmm) → (alloc_blocks count p).1.max_frames ≡ p.max_frames
unfolding alloc_blocks
alloc_blocks-max zero p = refl
alloc_blocks-max (suc zero) p = alloc_page-max p
alloc_blocks-max (suc (suc n)) p = alloc_run-max (suc (suc n)) p

Step-max : {p q : Pmm} → Step p q → q.max_frames ≡ p.max_frames
unfolding incref decref release
Step-max (alloc p) = alloc_page-max p
Step-max (alloc_many p count) = alloc_blocks-max count p
Step-max (free p addr) = free_page-max addr p
Step-max (free_many p addr count) = free_blocks-max addr count p
Step-max (share p paddr e) = ground arith
Step-max (unshare p paddr) = ground arith

Step-IsValid : {p q : Pmm} → 1 ≤ p.max_frames → Step p q → IsValid p → IsValid q
Step-IsValid h (alloc p) v = alloc_page-IsValid p v h
Step-IsValid h (alloc_many p count) v = alloc_blocks-IsValid count p v h
Step-IsValid h (free p addr) v = free_page-IsValid addr p v
Step-IsValid h (free_many p addr count) v = free_blocks-IsValid addr count p v
Step-IsValid h (share p paddr e) v = incref-IsValid paddr p e v
Step-IsValid h (unshare p paddr) v = decref-IsValid paddr p v

Run-max : {p q : Pmm} → Run p q → q.max_frames ≡ p.max_frames
Run-max here = refl
Run-max (next r s) = Step-max s ∙ Run-max r

-- From a valid state with at least one frame, after any history of calls that adds references to
-- pages in use only, the memory in use is the size of the frames whose bit is set, and free frames
-- have no references.
pub Run-IsValid : {p q : Pmm} → 1 ≤ p.max_frames → IsValid p → Run p q → IsValid q
Run-IsValid h v here = v
Run-IsValid h v (next r s) = Step-IsValid (omega (arith, Run-max r)) s (Run-IsValid h v r)

-- For a frame in range with a reference, in a valid state, `pmm_decref` returns the references
-- that are left and stores them as the frame's count, and gives the frame back exactly when none
-- is left; other frames keep their bits and their counts.
pub decref_lem :
    (paddr : ℕ) (p : Pmm) (f : ℕ)
    → IsValid p
    → 1 ≤ paddr / page_size
    → paddr / page_size < p.max_frames
    → p.frame_refcount (paddr / page_size) ≢ 0
    → ((decref paddr p).0 ≡ p.frame_refcount (paddr / page_size) - 1)
      × (in_use (decref paddr p).1 f ≡ (
          if paddr / page_size == f
          then not (p.frame_refcount (paddr / page_size) == 1)
          else in_use p f))
      × ((decref paddr p).1.frame_refcount f ≡ (
          if paddr / page_size == f
          then p.frame_refcount (paddr / page_size) - 1
          else p.frame_refcount f))
unfolding decref release
decref_lem paddr p f v a b c =
    let i = paddr / page_size in
    ground (
      arith,
      bitmap_test-unset p.memory_bitmap i f,
      in_use_of_refcount p i v b c,
      λ (s : i ≡ f). ap (in_use p) s,
    )

-- For a frame in range with a reference, in a valid state, and short of the largest count,
-- `pmm_free_page` after `pmm_incref` leaves every bit, every count and the memory in use as they
-- were.
pub free_page-incref :
    (paddr : ℕ) (p : Pmm) (f : ℕ)
    → IsValid p
    → 1 ≤ paddr / page_size
    → paddr / page_size < p.max_frames
    → p.frame_refcount (paddr / page_size) ≢ 0
    → p.frame_refcount (paddr / page_size) < 2 ^ 32 - 1
    → (in_use (free_page paddr (incref paddr p)) f ≡ in_use p f)
      × ((free_page paddr (incref paddr p)).frame_refcount f ≡ p.frame_refcount f)
      × ((free_page paddr (incref paddr p)).used_memory ≡ p.used_memory)
unfolding free_page incref
free_page-incref paddr p f v a b c d =
    let i = paddr / page_size in
    ground (arith, in_use_of_refcount p i v b c, λ (s : i ≡ f). ap p.frame_refcount s)
