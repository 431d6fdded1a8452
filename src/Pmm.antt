-- ===== src/Pmm.antt =====
-- src/mm/pmm.c: the physical page frames. A bitmap says which frames are in use, a reference
-- count how many mappings share a frame, and `used_memory` sums the frames in use.
-- Every function runs under `pmm_lock`, so a call is one step of the state.
pub mod Inv
pub mod Boot
pub mod Search
pub mod Alloc
pub mod Blocks
pub mod Sharing
mod Tests
use adr_os.Prelude.{
  ℕ, zero, suc, ◌+◌, ◌-◌, ◌*◌, ◌/◌, ◌%◌, ◌^◌, bit_and, Bool, true, false, not, ◌||◌, Option, none,
  some, if◌then◌else◌, ltb, leb, ◌==◌, update, add32, add64, sub64,
}
use adr_os.Bitmap.{Bytes, bitmap_set, bitmap_unset, bitmap_test}

abbrev pub page_size : ℕ
page_size = 4096

abbrev pub max_ram_size : ℕ
max_ram_size = 512 * 1024 * 1024

-- the static variables of the file
pub record Pmm : Type 0 where
  pub memory_bitmap : Bytes
  pub frame_refcount : ℕ → ℕ
  pub total_memory : ℕ
  pub used_memory : ℕ
  pub max_frames : ℕ
  pub last_alloc_frame : ℕ

-- `value & ~(align - 1)`; the complement of `align - 1` in 64 bits is `2^64 - align`.
unfoldable pub align_down : ℕ → ℕ → ℕ
align_down value align = bit_and value (2 ^ 64 - align)

-- what `pmm_init` leaves in the bitmap before the limits are known
unfoldable pub all_used : Bytes
all_used byte = 0xff

-- the state of the loaded kernel image, with the loop of `pmm_init` run
abbrev pub boot : Pmm
boot = record {
  memory_bitmap = all_used;
  frame_refcount = λ frame. 0;
  total_memory = 0;
  used_memory = 0;
  max_frames = 0;
  last_alloc_frame = 1;
}

unfoldable pub set_limits : ℕ → ℕ → Pmm → Pmm
unfolding align_down
set_limits total_mem max_fr p = record p {
  total_memory = total;
  max_frames = frames;
  used_memory = frames * page_size % 2 ^ 64;
}
  where
    total : ℕ
    total = align_down (if ltb max_ram_size total_mem then max_ram_size else total_mem) page_size

    frames : ℕ
    frames = if max_fr == 0 then total / page_size else max_fr

-- one round of the loop of `pmm_mark_region`
unfoldable pub mark_frame : Bool → ℕ → Pmm → Pmm
mark_frame true frame p = if bitmap_test p.memory_bitmap frame then p else (record p {
  memory_bitmap = bitmap_set p.memory_bitmap frame;
  used_memory = add64 p.used_memory page_size;
})
mark_frame false frame p =
    if bitmap_test p.memory_bitmap frame
    then (record p {
      memory_bitmap = bitmap_unset p.memory_bitmap frame;
      used_memory = sub64 p.used_memory page_size;
    })
    else p

-- the loop, `n` rounds before its end
unfoldable pub mark_frames : ℕ → Bool → ℕ → Pmm → Pmm
mark_frames zero used frame p = p
mark_frames (suc n) used frame p =
    let rest = mark_frames n used (frame + 1) (mark_frame used frame p) in
    if leb p.max_frames frame then p else rest

unfoldable pub mark_region : ℕ → ℕ → Bool → Pmm → Pmm
mark_region base size used p = mark_frames (size / page_size) used (base / page_size) p

-- The first statements of `pmm_alloc_page`: the search starts at frame 1 or later.
unfoldable pub reset_hint : Pmm → Pmm
reset_hint p = record p { last_alloc_frame = if leb p.max_frames first then 1 else first }
  where
    first : ℕ
    first = if ltb p.last_alloc_frame 1 then 1 else p.last_alloc_frame

-- the frame looked at in a round, going round from the last frame to frame 1
unfoldable pub frame_at : ℕ → ℕ → ℕ → ℕ
frame_at max_frames hint scanned =
    if leb max_frames (hint + scanned) then 1 + (hint + scanned - max_frames) else hint + scanned

-- the scan of `pmm_alloc_page`, `n` rounds before its end
unfoldable pub find_free : Bytes → ℕ → ℕ → ℕ → ℕ → Option ℕ
find_free m max_frames hint zero scanned = none
find_free m max_frames hint (suc n) scanned =
    let rest = find_free m max_frames hint n (scanned + 1) in
    if bitmap_test m (frame_at max_frames hint scanned)
    then rest
    else some (frame_at max_frames hint scanned)

-- A frame is taken: its bit is set and its count starts at 1.
unfoldable pub claim : ℕ → Pmm → Pmm
claim frame p = record p {
  memory_bitmap = bitmap_set p.memory_bitmap frame;
  frame_refcount = update p.frame_refcount frame 1;
  used_memory = add64 p.used_memory page_size;
}

-- `(void*)(uintptr_t)(frame * PAGE_SIZE)`, with 32-bit pointers
unfoldable pub address : ℕ → ℕ
address frame = frame * page_size % 2 ^ 32

-- `none` is NULL.
unfoldable pub alloc_page : Pmm → Option ℕ × Pmm
alloc_page p =
    elim (find_free p.memory_bitmap p.max_frames (reset_hint p).last_alloc_frame
      (sub64 p.max_frames 1) 0) [
        | none ↦ (none, reset_hint p)
        | some i ↦ (
          some (address i),
          record (claim i p) { last_alloc_frame = if leb p.max_frames (i + 1) then 1 else i + 1 },
        )
      ]

-- the first used frame of `n` frames, as its offset `j` in the run
pub first_used : Bytes → ℕ → ℕ → ℕ → Option ℕ
first_used m start zero j = none
first_used m start (suc n) j =
    let rest = first_used m start n (j + 1) in if bitmap_test m (start + j) then some j else rest

-- the outer loop of `pmm_alloc_blocks`, on fuel; a used frame moves the start past it
pub find_run : ℕ → Bytes → ℕ → ℕ → ℕ → Option ℕ
find_run zero m max_frames count start = none
find_run (suc fuel) m max_frames count start = elim (leb (start + count) max_frames) [
  | true ↦ elim (first_used m start count 0) [
    | none ↦ some start
    | some j ↦ find_run fuel m max_frames count (start + j + 1)
  ]
  | false ↦ none
]

-- the loop that takes the run, `n` rounds before its end
pub claim_run : ℕ → ℕ → Pmm → Pmm
claim_run zero frame p = p
claim_run (suc n) frame p = claim_run n (frame + 1) (claim frame p)

-- The search for more than one frame; `max_frames` rounds are enough.
pub alloc_run : ℕ → Pmm → Option ℕ × Pmm
alloc_run count p = elim (find_run p.max_frames p.memory_bitmap p.max_frames count 1) [
  | none ↦ (none, p)
  | some start ↦ (some (address start), claim_run count start p)
]

pub alloc_blocks : ℕ → Pmm → Option ℕ × Pmm
alloc_blocks zero p = (none, p)
alloc_blocks (suc zero) p = alloc_page p
alloc_blocks (suc (suc n)) p = alloc_run (suc (suc n)) p

-- A frame is given back: its bit is cleared and its count is 0.
pub release : ℕ → Pmm → Pmm
release frame p = record p {
  memory_bitmap = bitmap_unset p.memory_bitmap frame;
  frame_refcount = update p.frame_refcount frame 0;
  used_memory = sub64 p.used_memory page_size;
}

-- `frame == 0 || frame >= max_frames`, the guard of four functions
abbrev pub out_of_range : Pmm → ℕ → Bool
out_of_range p frame = frame == 0 || leb p.max_frames frame

-- A double free is reported and changes nothing.
pub free_page : ℕ → Pmm → Pmm
free_page addr p =
    if out_of_range p frame
    then p
    else if rc == 0 || not (bitmap_test p.memory_bitmap frame)
    then p
    else if ltb 1 rc
    then (record p { frame_refcount = update p.frame_refcount frame (rc - 1) })
    else release frame p
  where
    frame : ℕ
    frame = addr / page_size

    rc : ℕ
    rc = p.frame_refcount frame

-- the loop of `pmm_free_blocks` from round `i` on; pointers wrap at 32 bits
pub free_blocks_from : ℕ → ℕ → ℕ → Pmm → Pmm
free_blocks_from zero addr i p = p
free_blocks_from (suc n) addr i p =
    free_blocks_from n addr (i + 1) (free_page (add32 addr (i * page_size)) p)

pub free_blocks : ℕ → ℕ → Pmm → Pmm
unfolding free_blocks_from
free_blocks addr count p = free_blocks_from count addr 0 p

pub incref : ℕ → Pmm → Pmm
incref paddr p = if out_of_range p frame then p else (record p {
  frame_refcount = update p.frame_refcount frame (add32 (p.frame_refcount frame) 1);
})
  where
    frame : ℕ
    frame = paddr / page_size

-- An underflow is reported and changes nothing.
pub decref : ℕ → Pmm → ℕ × Pmm
decref paddr p =
    if out_of_range p frame
    then (0, p)
    else if rc == 0
    then (0, p)
    else if rc - 1 == 0
    then (0, release frame p)
    else (rc - 1, record p { frame_refcount = update p.frame_refcount frame (rc - 1) })
  where
    frame : ℕ
    frame = paddr / page_size

    rc : ℕ
    rc = p.frame_refcount frame

pub get_refcount : ℕ → Pmm → ℕ
get_refcount paddr p =
    if leb p.max_frames (paddr / page_size) then 0 else p.frame_refcount (paddr / page_size)
