-- ===== src/Pmm/Tests.antt =====
-- Runs of pmm.c on a machine of eight frames, and its theorems at that machine.
use adr_os.Prelude.{
  ℕ, zero, suc, ◌+◌, ◌-◌, ◌/◌, ◌%◌, ◌<◌, ◌≡◌, refl, true, false, none, some, arith, if◌then◌else◌,
  ◌==◌, not,
}
use adr_os.Bitmap.{bitmap_test, bitmap_set, bitmap_unset}
use adr_os.Pmm.{
  Pmm, page_size, boot, set_limits, mark_region, mark_frames, mark_frame, alloc_page, alloc_blocks,
  alloc_run, free_page, decref, incref, find_free, find_run, first_used, frame_at, reset_hint,
  claim, claim_run, release, address, align_down, all_used,
}
use adr_os.Pmm.Inv.{IsValid, in_use}
use adr_os.Pmm.Boot.{set_limits-IsValid, mark_region-IsValid}
use adr_os.Pmm.Alloc.{Granted, alloc_page-Granted, alloc_page-finds, free_page-alloc_page}
use adr_os.Pmm.Blocks.{GrantedRun, alloc_blocks-Granted, alloc_blocks-finds}
use adr_os.Pmm.Sharing.{here, next, alloc, share, Run-IsValid, decref_lem, free_page-incref}

abbrev limits : Pmm
limits = set_limits 32768 0 boot

-- eight frames, of which frames 1 to 6 are free
abbrev machine : Pmm
machine = mark_region 4096 24576 false limits

-- what the tests run
code : ℕ
unfolding set_limits align_down all_used mark_region mark_frames mark_frame alloc_page reset_hint
    find_free frame_at claim address alloc_blocks alloc_run find_run first_used claim_run
    bitmap_test bitmap_set bitmap_unset free_page release incref decref
code = 0

frames-machine : machine.max_frames ≡ 8
unfolding code
frames-machine = refl

first_page : (alloc_page machine).0 ≡ some 4096
unfolding code
first_page = refl

three_pages : (alloc_blocks 3 (alloc_page machine).1).0 ≡ some 8192
unfolding code
three_pages = refl

too_many : (alloc_blocks 7 machine).0 ≡ none
unfolding code
too_many = refl

limits-IsValid : IsValid limits
limits-IsValid = set_limits-IsValid 32768 0 (omega arith)

machine-IsValid : IsValid machine
unfolding set_limits
machine-IsValid = mark_region-IsValid 4096 24576 false limits (λ g e. refl) limits-IsValid

set_limits-IsValid_example : IsValid (set_limits 32768 0 boot)
set_limits-IsValid_example = set_limits-IsValid 32768 0 (omega arith)

alloc_page-Granted_example : Granted machine (alloc_page machine).1 1 × (4096 % page_size ≡ 0)
alloc_page-Granted_example =
    alloc_page-Granted machine machine-IsValid (omega (arith, frames-machine)) first_page

frame_6_free : in_use machine 6 ≡ false
unfolding code
frame_6_free = refl

alloc_page-finds_example : (addr : ℕ) × ((alloc_page machine).0 ≡ some addr)
alloc_page-finds_example =
    alloc_page-finds machine 6 machine-IsValid (omega arith) (omega (arith, frames-machine))
      frame_6_free

free_page-alloc_page_example :
    (in_use (free_page 4096 (alloc_page machine).1) 2 ≡ in_use machine 2)
    × ((free_page 4096 (alloc_page machine).1).frame_refcount 2 ≡ machine.frame_refcount 2)
    × ((free_page 4096 (alloc_page machine).1).used_memory ≡ machine.used_memory)
free_page-alloc_page_example =
    free_page-alloc_page machine 2 machine-IsValid (omega (arith, frames-machine)) first_page

three_at_1 : (alloc_blocks 3 machine).0 ≡ some 4096
unfolding code
three_at_1 = refl

alloc_blocks-Granted_example :
    GrantedRun machine (alloc_blocks 3 machine).1 1 3 × (4096 % page_size ≡ 0)
alloc_blocks-Granted_example =
    alloc_blocks-Granted 3 machine (omega arith) machine-IsValid three_at_1

last_three_free : (k : ℕ) → k < 3 → in_use machine (4 + k) ≡ false
unfolding code
last_three_free zero h = refl
last_three_free (suc zero) h = refl
last_three_free (suc (suc zero)) h = refl
last_three_free (suc (suc (suc k))) h = absurd (omega arith)

alloc_blocks-finds_example : (addr : ℕ) × ((alloc_blocks 3 machine).0 ≡ some addr)
alloc_blocks-finds_example =
    alloc_blocks-finds 3 machine 4 (omega arith) (omega arith) (omega (arith, frames-machine))
      last_three_free

shared : Pmm
shared = incref 4096 (alloc_page machine).1

first_used_now : in_use (alloc_page machine).1 (4096 / page_size) ≡ true
unfolding code
first_used_now = refl

Run-IsValid_example : IsValid shared
unfolding shared
Run-IsValid_example =
    Run-IsValid (omega (arith, frames-machine)) machine-IsValid
      (next (next here (alloc machine)) (share (alloc_page machine).1 4096 first_used_now))

shared-IsValid : IsValid shared
unfolding shared
shared-IsValid =
    Run-IsValid (omega (arith, frames-machine)) machine-IsValid
      (next (next here (alloc machine)) (share (alloc_page machine).1 4096 first_used_now))

shared_count : shared.frame_refcount 1 ≡ 2
unfolding code shared
shared_count = refl

frames-shared : shared.max_frames ≡ 8
unfolding code shared
frames-shared = refl

decref_lem_example :
    ((decref 4096 shared).0 ≡ shared.frame_refcount (4096 / page_size) - 1)
    × (in_use (decref 4096 shared).1 1 ≡ (
        if 4096 / page_size == 1
        then not (shared.frame_refcount (4096 / page_size) == 1)
        else in_use shared 1))
    × ((decref 4096 shared).1.frame_refcount 1 ≡ (
        if 4096 / page_size == 1
        then shared.frame_refcount (4096 / page_size) - 1
        else shared.frame_refcount 1))
decref_lem_example =
    decref_lem 4096 shared 1 shared-IsValid (omega arith) (omega (arith, frames-shared))
      (omega (arith, shared_count))

free_page-incref_example :
    (in_use (free_page 4096 (incref 4096 shared)) 1 ≡ in_use shared 1)
    × ((free_page 4096 (incref 4096 shared)).frame_refcount 1 ≡ shared.frame_refcount 1)
    × ((free_page 4096 (incref 4096 shared)).used_memory ≡ shared.used_memory)
free_page-incref_example =
    free_page-incref 4096 shared 1 shared-IsValid (omega arith) (omega (arith, frames-shared))
      (omega (arith, shared_count)) (omega (arith, shared_count))
