-- ===== src/Shm/Attach.antt =====
-- `shm_at` and `shm_dt` of src/kernel/shm.c.
use adr_os.Prelude.{
  ℕ, zero, suc, ◌+◌, ◌-◌, ◌/◌, ◌%◌, ◌^◌, Bool, not, ◌&&◌, ◌||◌, Option, none, some, List, [], ◌∷◌,
  if◌then◌else◌, ltb, leb, ◌==◌, update, add32, mul32, first_true,
}
use adr_os.Pmm.{page_size}
use adr_os.Shm.{
  Caller, Shm, Result, ok, err, invalid, no_memory, no_access, removed, max_segments, max_mmaps,
  shm_perm_check, shm_rdonly, shm_destroy,
}

-- A call of the page-table code: physical and virtual address and flags, or the virtual address.
pub data Call : Type 0 where
  map_page : ℕ → ℕ → ℕ → Call
  unmap_page : ℕ → Call

-- What a call comes to: its result, the state, the caller and the page-table calls.
pub record Outcome : Type 0 where
  pub result : Result
  pub shm : Shm
  pub caller : Caller
  pub calls : List Call

abbrev pub refuse : Result → Shm → Caller → Outcome
refuse r s c = record { result = r; shm = s; caller = c; calls = [] }

-- `VMM_FLAG_PRESENT | VMM_FLAG_USER | VMM_FLAG_NX`, with `VMM_FLAG_RW` unless read-only
abbrev pub map_flags : Bool → ℕ
map_flags rdonly = if rdonly then 0x405 else 0x407

-- The loop over `vmm_map_page`, at page `i`, `n` pages before its end.
unfoldable pub map_calls : ℕ → ℕ → (ℕ → ℕ) → ℕ → ℕ → List Call
map_calls zero i pages vaddr flags = []
map_calls (suc n) i pages vaddr flags =
    map_page (pages i) (add32 vaddr (mul32 i page_size)) flags
    ∷ map_calls n (i + 1) pages vaddr flags

unfoldable pub unmap_calls : ℕ → ℕ → ℕ → List Call
unmap_calls zero i addr = []
unmap_calls (suc n) i addr =
    unmap_page (add32 addr (mul32 i page_size)) ∷ unmap_calls n (i + 1) addr

-- The end of `shm_at`: the pages are mapped at `vaddr`, and the mapping is recorded.
unfoldable pub attach : ℕ → ℕ → ℕ → Bool → Shm → Caller → Outcome
attach shmid mslot vaddr rdonly s c =
    let seg = s.segments shmid in
    record {
      result = ok vaddr;
      shm = record s {
        segments = update s.segments shmid (record seg { nattch = add32 seg.nattch 1 });
      };
      caller = record c {
        mmaps =
            update c.mmaps mslot
              (record { base = vaddr; length = mul32 seg.npages page_size; shmid = some shmid });
      };
      calls = map_calls seg.npages 0 seg.pages vaddr (map_flags rdonly);
    }

-- An address that the caller gave is refused.
abbrev pub bad_place : ℕ → ℕ → ℕ → Bool
bad_place kern_base vaddr map_len =
    not (vaddr % 2 ^ 12 == 0)
    || leb kern_base vaddr
    || ltb kern_base (add32 vaddr map_len)
    || ltb (add32 vaddr map_len) vaddr

-- Where the mapping goes, and the mapping.
unfoldable pub place : ℕ → ℕ → ℕ → ℕ → ℕ → Bool → Shm → Caller → Outcome
place kern_base free_area shmid mslot shmaddr rdonly s c =
    let map_len = mul32 (s.segments shmid).npages page_size in
    if not (shmaddr == 0)
    then (if bad_place kern_base shmaddr map_len
        then refuse (err invalid) s c
        else attach shmid mslot shmaddr rdonly s c)
    else if free_area == 0
    then refuse (err no_memory) s c
    else attach shmid mslot free_area rdonly s c

-- An entry of `mmaps` is free when its length is 0.
abbrev pub free_slot : Caller → ℕ → Bool
free_slot c i = (c.mmaps i).length == 0

-- What follows the search for a free entry.
unfoldable pub at_slot : ℕ → ℕ → ℕ → ℕ → Bool → Shm → Caller → Option ℕ → Outcome
at_slot kern_base free_area shmid shmaddr rdonly s c none = refuse (err no_memory) s c
at_slot kern_base free_area shmid shmaddr rdonly s c (some mslot) =
    place kern_base free_area shmid mslot shmaddr rdonly s c

-- `shm_at` behind the test of the number.
unfoldable pub attach_used : ℕ → ℕ → ℕ → ℕ → Bool → Shm → Caller → Outcome
attach_used kern_base free_area shmid shmaddr rdonly s c =
    let seg = s.segments shmid in
    if not seg.used
    then refuse (err invalid) s c
    else if seg.marked_rm
    then refuse (err removed) s c
    else if not (shm_perm_check c seg 4)
    then refuse (err no_access) s c
    else if not rdonly && not (shm_perm_check c seg 2)
    then refuse (err no_access) s c
    else at_slot kern_base free_area shmid shmaddr rdonly s c (first_true (free_slot c) max_mmaps 0)

-- `kern_base` is the start of the kernel's addresses.
unfoldable pub shm_at : ℕ → ℕ → ℕ → ℕ → ℕ → Shm → Caller → Outcome
shm_at kern_base free_area shmid shmaddr shmflg s c =
    if leb max_segments shmid
    then refuse (err invalid) s c
    else attach_used kern_base free_area shmid shmaddr (shm_rdonly shmflg) s c

-- `if (segments[shmid].nattch > 0) …; if (nattch == 0 && marked_rm) …`
unfoldable pub drop_attach : ℕ → Shm → Shm
drop_attach shmid s =
    let seg = s.segments shmid in
    let fewer = if ltb 0 seg.nattch then seg.nattch - 1 else seg.nattch in
    let s' : Shm = record s {
      segments = update s.segments shmid (record seg { nattch = fewer });
    } in
    if (fewer == 0) && seg.marked_rm then shm_destroy shmid s' else s'

-- The count of the segment that the mapping belongs to.
unfoldable pub detach_segment : Option ℕ → Shm → Shm
detach_segment none s = s
detach_segment (some shmid) s =
    if ltb shmid max_segments && (s.segments shmid).used then drop_attach shmid s else s

-- `mmaps[i].base == addr && mmaps[i].length > 0`
abbrev pub mapped_at : ℕ → Caller → ℕ → Bool
mapped_at addr c i = ((c.mmaps i).base == addr) && ltb 0 (c.mmaps i).length

unfoldable pub detach : ℕ → Shm → Caller → Option ℕ → Outcome
detach addr s c none = refuse (err invalid) s c
detach addr s c (some mslot) =
    let old = c.mmaps mslot in
    record {
      result = ok 0;
      shm = detach_segment old.shmid s;
      caller = record c {
        mmaps = update c.mmaps mslot (record { base = 0; length = 0; shmid = none });
      };
      calls = unmap_calls (old.length / page_size) 0 addr;
    }

unfoldable pub shm_dt : ℕ → Shm → Caller → Outcome
shm_dt addr s c = detach addr s c (first_true (mapped_at addr c) max_mmaps 0)
