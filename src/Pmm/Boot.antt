-- ===== src/Pmm/Boot.antt =====
-- Setting the frames up: `pmm_set_limits` over a bitmap of ones, then `pmm_mark_region`.
use adr_os.Prelude.{
  ℕ, zero, suc, ◌+◌, ◌-◌, ◌*◌, ℕ_discrete, subst, ap, ◌∙◌, ◌&&◌, ◌/◌, ◌^◌, ◌≤◌, ◌<◌, ◌≡◌, refl,
  Bool, true, false, arith, if_cases, count_true, count_true-all, count_true-le, ltb, leb,
  if◌then◌else◌, ◌==◌,
}
use adr_os.Prelude.Bits.{bit_and-le}
use adr_os.Bitmap.Laws.{bitmap_test-set, bitmap_test-unset, bitmap_test-ones}
use adr_os.Pmm.{
  Pmm, page_size, max_ram_size, all_used, boot, set_limits, mark_frame, mark_frames, mark_region,
}
use adr_os.Pmm.Inv.{IsValid, frame_limit, in_use, count-set, count-unset}

-- The limits as `pmm_arch_init` sets them: every frame starts in use. A caller that names the
-- number of frames names at most as many as the bitmap holds.
pub set_limits-IsValid :
    (total_mem max_fr : ℕ) → max_fr ≤ frame_limit → IsValid (set_limits total_mem max_fr boot)
unfolding set_limits all_used
set_limits-IsValid total_mem max_fr h = record {
  limit = small;
  counted = full;
  unshared = λ f l e. refl;
}
  where
    p : Pmm
    p = set_limits total_mem max_fr boot

    capped : ℕ
    capped = if ltb max_ram_size total_mem then max_ram_size else total_mem

    small : p.max_frames ≤ frame_limit
    small = ground (arith, bit_and-le capped (2 ^ 64 - page_size))

    full : p.used_memory ≡ page_size * count_true (in_use p) p.max_frames
    full = omega (arith, small, count_true-all (in_use p) p.max_frames bitmap_test-ones)

-- Marking a frame used is always allowed, and marking it free where it has no references.
pub mark_frame-IsValid :
    (used : Bool) (f : ℕ) (p : Pmm)
    → f < p.max_frames
    → (used ≡ false → p.frame_refcount f ≡ 0)
    → IsValid p
    → IsValid (mark_frame used f p)
unfolding mark_frame
mark_frame-IsValid true f p l r v =
    if_cases IsValid (in_use p f) _ _ (λ _. v)
      λ e. record {
        limit = v.limit;
        counted = omega (
          arith,
          v.counted,
          v.limit,
          count-set p.memory_bitmap f p.max_frames l e,
          count_true-le (in_use p) p.max_frames,
        );
        unshared = λ g lg h. ground (arith, bitmap_test-set p.memory_bitmap f g, v.unshared g lg);
      }
mark_frame-IsValid false f p l r v =
    if_cases IsValid (in_use p f) _ _
      (λ e. record {
        limit = v.limit;
        counted = omega (
          arith,
          v.counted,
          v.limit,
          count-unset p.memory_bitmap f p.max_frames l e,
          count_true-le (in_use p) p.max_frames,
        );
        unshared = λ g lg h. elim (ℕ_discrete f g) [
          | yes same ↦ subst (λ k. p.frame_refcount k ≡ 0) same (r refl)
          | no other ↦ ground (arith, bitmap_test-unset p.memory_bitmap f g, v.unshared g lg)
        ];
      })
      (λ _. v)

-- What a round leaves alone.
pub mark_frame-same :
    (used : Bool) (f : ℕ) (p : Pmm)
    → ((mark_frame used f p).max_frames ≡ p.max_frames)
      × ((mark_frame used f p).frame_refcount ≡ p.frame_refcount)
      × ((g : ℕ) → in_use (mark_frame used f p) g ≡ (if f == g then used else in_use p g))
unfolding mark_frame
mark_frame-same true f p = (
  ground arith,
  ground arith,
  λ g. ground (arith, bitmap_test-set p.memory_bitmap f g, λ (e : f ≡ g). ap (in_use p) e),
)
mark_frame-same false f p = (
  ground arith,
  ground arith,
  λ g. ground (arith, bitmap_test-unset p.memory_bitmap f g, λ (e : f ≡ g). ap (in_use p) e),
)

-- Frame `g` is among the `n` frames from `f` on, and one that the machine has.
abbrev pub in_region : Pmm → ℕ → ℕ → ℕ → Bool
in_region p f n g = leb f g && (ltb g (f + n) && ltb g p.max_frames)

mark_frames-marks :
    (n : ℕ) (used : Bool) (f : ℕ) (p : Pmm) (g : ℕ)
    → in_use (mark_frames n used f p) g ≡ (if in_region p f n g then used else in_use p g)
unfolding mark_frames
mark_frames-marks zero used f p g = ground arith
mark_frames-marks (suc n) used f p g =
    let q = mark_frame used f p in
    let same = mark_frame-same used f p in
    let P = λ (r : Pmm). in_use r g ≡ (if in_region p f (suc n) g then used else in_use p g) in
    if_cases P (leb p.max_frames f) _ _ (λ e. ground arith)
      λ e. ground (arith, mark_frames-marks n used (f + 1) q g, same.0, same.2 g)

-- `pmm_mark_region` gives every whole page frame of the region that exists the state asked for,
-- and leaves every other frame as it was.
pub mark_region-marks :
    (base size : ℕ) (used : Bool) (p : Pmm) (g : ℕ)
    → in_use (mark_region base size used p) g
      ≡ (if in_region p (base / page_size) (size / page_size) g then used else in_use p g)
unfolding mark_region
mark_region-marks base size used p g =
    mark_frames-marks (size / page_size) used (base / page_size) p g

mark_frames-IsValid :
    (n : ℕ) (used : Bool) (f : ℕ) (p : Pmm)
    → ((g : ℕ) → used ≡ false → p.frame_refcount g ≡ 0)
    → IsValid p
    → IsValid (mark_frames n used f p)
unfolding mark_frames
mark_frames-IsValid zero used f p r v = v
mark_frames-IsValid (suc n) used f p r v =
    if_cases IsValid (leb p.max_frames f) _ _ (λ _. v)
      λ inside.
        mark_frames-IsValid n used (f + 1) (mark_frame used f p)
          (λ g e. ap (λ (a : ℕ → ℕ). a g) (mark_frame-same used f p).1 ∙ r g e)
          (mark_frame-IsValid used f p (ground arith) (r f) v)

pub mark_region-IsValid :
    (base size : ℕ) (used : Bool) (p : Pmm)
    → ((g : ℕ) → used ≡ false → p.frame_refcount g ≡ 0)
    → IsValid p
    → IsValid (mark_region base size used p)
unfolding mark_region
mark_region-IsValid base size used p =
    mark_frames-IsValid (size / page_size) used (base / page_size) p
