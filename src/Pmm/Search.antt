-- ===== src/Pmm/Search.antt =====
-- The two searches of pmm.c: the scan for one free frame, which goes round from the hint, and the
-- search for a run of free frames, which skips past every used frame that it meets.
use adr_os.Prelude.{
  ℕ, zero, suc, ◌+◌, ◌-◌, ◌≤◌, ◌<◌, ◌≡◌, inl, inr, ap, ◌∙◌, sym, subst, true, false, none, some,
  arith, Bool-cases, Option-cases, leb, dec_lt, ℕ_discrete,
}
use adr_os.Bitmap.{Bytes, bitmap_test}
use adr_os.Pmm.{frame_at, find_free, first_used, find_run}

module _ (m : Bytes) (max_frames hint : ℕ) where
  -- What the scan returns is free, and was looked at.
  pub find_free-some :
      (n s i : ℕ)
      → find_free m max_frames hint n s ≡ some i
      → (k : ℕ) × (k < s + n) × (i ≡ frame_at max_frames hint k) × (bitmap_test m i ≡ false)
  unfolding find_free
  find_free-some zero s i e = cc
  find_free-some (suc n) s i e = elim (Bool-cases (bitmap_test m (frame_at max_frames hint s))) [
    | inl used ↦ let r = find_free-some n (s + 1) i (ground arith) in (r.0, omega arith, r.2, r.3)
    | inr free ↦
        let same : i ≡ frame_at max_frames hint s = ground arith in
        (s, omega arith, same, subst (λ f. bitmap_test m f ≡ false) (sym same) free)
  ]

  -- A scan that passes over a free frame finds one.
  pub find_free-finds :
      (n s k : ℕ)
      → s ≤ k
      → k < s + n
      → bitmap_test m (frame_at max_frames hint k) ≡ false
      → (i : ℕ) × (find_free m max_frames hint n s ≡ some i)
  unfolding find_free
  find_free-finds zero s k a b e = absurd (omega arith)
  find_free-finds (suc n) s k a b e =
      elim (Bool-cases (bitmap_test m (frame_at max_frames hint s))) [
        | inl used ↦ elim (ℕ_discrete s k) [
          | yes same ↦
              absurd (ground (arith, ap (λ t. bitmap_test m (frame_at max_frames hint t)) same))
          | no other ↦
              let r = find_free-finds n (s + 1) k (omega arith) (omega arith) e in
              (r.0, ground (arith, r.1))
        ]
        | inr free ↦ (frame_at max_frames hint s, ground arith)
      ]

  -- The scan stays between frame 1 and the last frame.
  pub frame_at_bounds :
      (k : ℕ)
      → 1 ≤ hint
      → hint < max_frames
      → k < max_frames - 1
      → (1 ≤ frame_at max_frames hint k) × (frame_at max_frames hint k < max_frames)
  unfolding frame_at
  frame_at_bounds k a b c = ground arith

  -- It comes to each of them.
  pub frame_at_covers :
      (f : ℕ)
      → 1 ≤ hint
      → hint < max_frames
      → 1 ≤ f
      → f < max_frames
      → (k : ℕ) × (k < max_frames - 1) × (frame_at max_frames hint k ≡ f)
  unfolding frame_at
  frame_at_covers f a b c d = elim (dec_lt f hint) [
    | yes before ↦ (f + max_frames - hint - 1, omega arith, ground arith)
    | no after ↦ (f - hint, omega arith, ground arith)
  ]

module _ (m : Bytes) where
  -- Offsets below the first used one are free.
  pub first_used-some :
      (start n j k : ℕ)
      → first_used m start n j ≡ some k
      → (j ≤ k) × (k < j + n) × (bitmap_test m (start + k) ≡ true)
  unfolding first_used
  first_used-some start zero j k e = cc
  first_used-some start (suc n) j k e = elim (Bool-cases (bitmap_test m (start + j))) [
    | inl used ↦
        let same : j ≡ k = ground arith in
        (omega arith, omega arith, subst (λ t. bitmap_test m (start + t) ≡ true) same used)
    | inr free ↦
        let r = first_used-some start n (j + 1) k (ground arith) in
        (omega (arith, r.0), omega (arith, r.1), r.2)
  ]

  pub first_used-none :
      (start n j k : ℕ)
      → first_used m start n j ≡ none
      → j ≤ k
      → k < j + n
      → bitmap_test m (start + k) ≡ false
  unfolding first_used
  first_used-none start zero j k e a b = absurd (omega arith)
  first_used-none start (suc n) j k e a b = elim (Bool-cases (bitmap_test m (start + j))) [
    | inl used ↦ absurd (ground arith)
    | inr free ↦ elim (ℕ_discrete j k) [
      | yes same ↦ subst (λ t. bitmap_test m (start + t) ≡ false) same free
      | no other ↦ first_used-none start n (j + 1) k (ground arith) (omega arith) (omega arith)
    ]
  ]

  module _ (max_frames count : ℕ) where
    -- The run that is found lies within the frames and is free.
    pub find_run-some :
        (fuel start s : ℕ)
        → find_run fuel m max_frames count start ≡ some s
        → (start ≤ s) × (s + count ≤ max_frames) × (first_used m s count 0 ≡ none)
    unfolding find_run
    find_run-some zero start s e = cc
    find_run-some (suc fuel) start s e = elim (Bool-cases (leb (start + count) max_frames)) [
      | inl fits ↦ elim (Option-cases (first_used m start count 0)) [
        | inl free ↦
            let same : start ≡ s = ground arith in
            (omega arith, ground arith, ap (λ t. first_used m t count 0) (sym same) ∙ free)
        | inr (j, used) ↦
            let r = find_run-some fuel (start + j + 1) s (ground arith) in
            (omega (arith, r.0), r.1, r.2)
      ]
      | inr out ↦ absurd (ground arith)
    ]

    -- Skipping loses no run: if one of free frames starts at `t`, the search succeeds.
    pub find_run-finds :
        (fuel start t : ℕ)
        → start ≤ t
        → t + count ≤ max_frames
        → max_frames < fuel + start + count
        → ((k : ℕ) → k < count → bitmap_test m (t + k) ≡ false)
        → (s : ℕ) × (find_run fuel m max_frames count start ≡ some s)
    unfolding find_run
    find_run-finds zero start t a b c free = absurd (omega arith)
    find_run-finds (suc fuel) start t a b c free =
        elim (Option-cases (first_used m start count 0)) [
          | inl none_used ↦ (start, ground arith)
          | inr (j, used) ↦
              let u = first_used-some start count 0 j used in
              let r = find_run-finds fuel (start + j + 1) t (past j u) b (omega arith) free in
              (r.0, ground (arith, r.1))
        ]
      where
        -- the used frame is not in the run, so the run starts after it
        past :
            (j : ℕ)
            → (0 ≤ j) × (j < 0 + count) × (bitmap_test m (start + j) ≡ true)
            → start + j + 1 ≤ t
        past j u = elim (dec_lt (start + j) t) [
          | yes before ↦ omega arith
          | no inside ↦ absurd (
              ground (
                arith,
                free (start + j - t) (omega (arith, u.1)),
                u.2,
                ap (bitmap_test m) (place j inside),
              ))
        ]
          where
            place : (i : ℕ) → ¬ (start + i < t) → t + (start + i - t) ≡ start + i
            place i h = omega arith
