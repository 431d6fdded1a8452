-- ===== src/Pmm/Inv.antt =====
-- The invariant of pmm.c: `used_memory` is the size of the frames whose bit is set, and a frame
-- that is not in use has no references.
use adr_os.Prelude.{
  ℕ, zero, suc, ◌+◌, ◌-◌, ◌*◌, ◌/◌, ◌≤◌, ◌<◌, ◌≡◌, ◌≢◌, Bool, true, false, arith, ◌==◌, count_true,
  count_true-on, count_true-le, Bool-cases, if_cases, ℕ_discrete, inl, inr, subst, add32, ltb,
  update, ◌||◌, not,
}
use adr_os.Bitmap.{Bytes, bitmap_set, bitmap_unset, bitmap_test}
use adr_os.Bitmap.Laws.{bitmap_test-set, bitmap_test-unset}
use adr_os.Pmm.{
  Pmm, page_size, claim, release, free_page, free_blocks_from, free_blocks, incref, decref,
  out_of_range,
}

-- the bitmap holds 512 MB of frames
abbrev pub frame_limit : ℕ
frame_limit = 131072

abbrev pub in_use : Pmm → ℕ → Bool
in_use p = bitmap_test p.memory_bitmap

pub record IsValid (p : Pmm) : Type 0 where
  pub limit : p.max_frames ≤ frame_limit
  pub counted : p.used_memory ≡ page_size * count_true (in_use p) p.max_frames
  pub unshared : (f : ℕ) → f < p.max_frames → in_use p f ≡ false → p.frame_refcount f ≡ 0

-- Setting the bit of a free frame adds one frame to those in use.
pub count-set :
    (m : Bytes) (i n : ℕ)
    → i < n
    → bitmap_test m i ≡ false
    → count_true (bitmap_test (bitmap_set m i)) n ≡ count_true (bitmap_test m) n + 1
count-set m i n l e =
    count_true-on (bitmap_test m) (bitmap_test (bitmap_set m i)) i n l e
      (ground (arith, bitmap_test-set m i i)) (λ j ne. ground (arith, bitmap_test-set m i j))

pub count-unset :
    (m : Bytes) (i n : ℕ)
    → i < n
    → bitmap_test m i ≡ true
    → count_true (bitmap_test m) n ≡ count_true (bitmap_test (bitmap_unset m i)) n + 1
count-unset m i n l e =
    count_true-on (bitmap_test (bitmap_unset m i)) (bitmap_test m) i n l
      (ground (arith, bitmap_test-unset m i i)) e (λ j ne. ground (arith, bitmap_test-unset m i j))

module _ (p : Pmm) (v : IsValid p) (i : ℕ) (l : i < p.max_frames) where
  -- Taking a free frame.
  pub claim-IsValid : in_use p i ≡ false → IsValid (claim i p)
  unfolding claim
  claim-IsValid e = record {
    limit = v.limit;
    counted = omega (
      arith,
      v.counted,
      v.limit,
      count-set p.memory_bitmap i p.max_frames l e,
      count_true-le (in_use p) p.max_frames,
    );
    unshared = λ f lf h. ground (arith, bitmap_test-set p.memory_bitmap i f, v.unshared f lf);
  }

  -- Giving a frame back.
  pub release-IsValid : in_use p i ≡ true → IsValid (release i p)
  unfolding release
  release-IsValid e = record {
    limit = v.limit;
    counted = omega (
      arith,
      v.counted,
      v.limit,
      count-unset p.memory_bitmap i p.max_frames l e,
      count_true-le (in_use p) p.max_frames,
    );
    unshared = λ f lf h. ground (arith, bitmap_test-unset p.memory_bitmap i f, v.unshared f lf);
  }

  -- Changing the count of a frame in use.
  pub recount-IsValid :
      (n : ℕ)
      → in_use p i ≡ true
      → IsValid (record p { frame_refcount = update p.frame_refcount i n })
  recount-IsValid n e = record {
    limit = v.limit;
    counted = v.counted;
    unshared = λ f lf h. elim (ℕ_discrete i f) [
      | yes same ↦ absurd (ground (arith, subst (λ k. in_use p k ≡ true) same e))
      | no other ↦ ground (arith, v.unshared f lf)
    ];
  }

-- The hint is no part of the invariant.
pub hint-IsValid : (p : Pmm) (n : ℕ) → IsValid p → IsValid (record p { last_alloc_frame = n })
hint-IsValid p n v = record { limit = v.limit; counted = v.counted; unshared = v.unshared }

-- A frame with references is in use.
pub in_use_of_refcount :
    (p : Pmm) (f : ℕ) → IsValid p → f < p.max_frames → p.frame_refcount f ≢ 0 → in_use p f ≡ true
in_use_of_refcount p f v l ne = elim (Bool-cases (in_use p f)) [
  | inl e ↦ e
  | inr e ↦ absurd (ne (v.unshared f l e))
]

pub free_page-IsValid : (addr : ℕ) (p : Pmm) → IsValid p → IsValid (free_page addr p)
unfolding free_page
free_page-IsValid addr p v =
    let f = addr / page_size in
    let rc = p.frame_refcount f in
    if_cases IsValid (out_of_range p f) _ _ (λ _. v)
      λ inside.
        if_cases IsValid (rc == 0 || not (in_use p f)) _ _ (λ _. v)
          λ live.
            if_cases IsValid (ltb 1 rc) _ _
              (λ _. recount-IsValid p v f (ground arith) (rc - 1) (ground arith))
              (λ _. release-IsValid p v f (ground arith) (ground arith))

pub free_blocks-IsValid :
    (addr count : ℕ) (p : Pmm) → IsValid p → IsValid (free_blocks addr count p)
unfolding free_blocks
free_blocks-IsValid addr count p v = go count 0 p v
  where
    go : (n i : ℕ) (q : Pmm) → IsValid q → IsValid (free_blocks_from n addr i q)
    go zero i q w = w
    go (suc n) i q w =
        go n (i + 1) (free_page (add32 addr (i * page_size)) q)
          (free_page-IsValid (add32 addr (i * page_size)) q w)

-- A reference may be added to a frame that is in use.
pub incref-IsValid :
    (paddr : ℕ) (p : Pmm)
    → in_use p (paddr / page_size) ≡ true
    → IsValid p
    → IsValid (incref paddr p)
unfolding incref
incref-IsValid paddr p used v =
    let f = paddr / page_size in
    if_cases IsValid (out_of_range p f) _ _ (λ _. v)
      λ inside. recount-IsValid p v f (ground arith) (add32 (p.frame_refcount f) 1) used

pub decref-IsValid : (paddr : ℕ) (p : Pmm) → IsValid p → IsValid (decref paddr p).1
unfolding decref
decref-IsValid paddr p v =
    let f = paddr / page_size in
    let rc = p.frame_refcount f in
    let P = λ (r : ℕ × Pmm). IsValid r.1 in
    if_cases P (out_of_range p f) _ _ (λ _. v)
      λ inside.
        if_cases P (rc == 0) _ _ (λ _. v)
          λ some_left.
            let used = in_use_of_refcount p f v (ground arith) (ground arith) in
            if_cases P (rc - 1 == 0) _ _ (λ _. release-IsValid p v f (ground arith) used)
              (λ _. recount-IsValid p v f (ground arith) (rc - 1) used)
