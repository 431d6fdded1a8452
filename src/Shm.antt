-- ===== src/Shm.antt =====
-- src/kernel/shm.c: System V shared memory segments, over the page frames. Every function runs under
-- `shm_lock`, so a call is one step of the state. The calls come from system calls, so there is a
-- current process; the guards against a missing one are left out. The page tables are the
-- architecture's: a call's `vmm_map_page` and `vmm_unmap_page` are listed in its result, and
-- `free_area` is what `vmm_find_free_area` answers, 0 for none.
pub mod Attach
pub mod Control
pub mod Counts
pub mod Calls
pub mod Attaching
pub mod Detaching
pub mod History
pub mod Granted
mod Tests
use adr_os.Prelude.{
  ℕ, zero, suc, ◌+◌, ◌-◌, ◌*◌, ◌/◌, ◌%◌, ◌^◌, bit_and, Bool, true, false, not, ◌&&◌, ◌||◌, Option,
  none, some, List, [], ◌∷◌, if◌then◌else◌, ltb, leb, ◌==◌, update, add32, mul32, sub32, first_true,
}
use adr_os.Pmm.{Pmm, page_size, alloc_page, free_page}

abbrev pub max_segments : ℕ
max_segments = 32

abbrev pub max_pages : ℕ
max_pages = 16

-- `PROCESS_MAX_MMAPS`
abbrev pub max_mmaps : ℕ
max_mmaps = 32

-- `struct shm_segment`
pub record Segment : Type 0 where
  pub used : Bool
  pub key : ℕ
  pub size : ℕ
  pub npages : ℕ
  pub pages : ℕ → ℕ
  pub nattch : ℕ
  pub marked_rm : Bool
  pub uid : ℕ
  pub gid : ℕ
  pub mode : ℕ

-- `memset(seg, 0, sizeof(*seg))`
abbrev pub cleared : Segment
cleared = record {
  used = false;
  key = 0;
  size = 0;
  npages = 0;
  pages = λ i. 0;
  nattch = 0;
  marked_rm = false;
  uid = 0;
  gid = 0;
  mode = 0;
}

-- An entry of `mmaps`; `none` is the segment number -1.
pub record Mapping : Type 0 where
  pub base : ℕ
  pub length : ℕ
  pub shmid : Option ℕ

-- What the calls read and change of `current_process`.
pub record Caller : Type 0 where
  pub uid : ℕ
  pub euid : ℕ
  pub gid : ℕ
  pub egid : ℕ
  pub mmaps : ℕ → Mapping

-- The segments and the page frames.
pub record Shm : Type 0 where
  pub segments : ℕ → Segment
  pub pmm : Pmm

pub data Error : Type 0 where
  invalid : Error
  no_entry : Error
  exists : Error
  no_space : Error
  no_memory : Error
  no_access : Error
  not_permitted : Error
  bad_address : Error
  removed : Error

pub data Result : Type 0 where
  ok : ℕ → Result
  err : Error → Result

-- `shm_init`
pub shm_init : Shm → Shm
shm_init s = record s { segments = λ i. cleared }

-- The loop of `shm_destroy`, `n` pages before its end.
unfoldable pub free_pages : ℕ → ℕ → (ℕ → ℕ) → Pmm → Pmm
free_pages zero i pages p = p
free_pages (suc n) i pages p =
    free_pages n (i + 1) pages (if pages i == 0 then p else free_page (pages i) p)

unfoldable pub shm_destroy : ℕ → Shm → Shm
shm_destroy id s = record {
  segments = update s.segments id cleared;
  pmm = free_pages (s.segments id).npages 0 (s.segments id).pages s.pmm;
}

-- `shm_perm_check`: `perm` is 4 to read and 2 to write.
unfoldable pub shm_perm_check : Caller → Segment → ℕ → Bool
shm_perm_check c seg perm =
    if c.euid == 0
    then true
    else if (c.uid == seg.uid) || (c.euid == seg.uid)
    then not (bit_and seg.mode (perm * 2 ^ 6) == 0)
    else if (c.gid == seg.gid) || (c.egid == seg.gid)
    then not (bit_and seg.mode (perm * 2 ^ 3) == 0)
    else not (bit_and seg.mode perm == 0)

-- `flags & IPC_CREAT`, `flags & IPC_EXCL` and `shmflg & SHM_RDONLY`
abbrev pub ipc_creat : ℕ → Bool
ipc_creat flags = not (bit_and flags 0x0200 == 0)

abbrev pub ipc_excl : ℕ → Bool
ipc_excl flags = not (bit_and flags 0x0400 == 0)

abbrev pub shm_rdonly : ℕ → Bool
shm_rdonly flags = not (bit_and flags 0x1000 == 0)

-- A loop from page 0, `n` pages before its end, that gives pages back.
unfoldable pub roll_back : ℕ → ℕ → (ℕ → ℕ) → Pmm → Pmm
roll_back zero j pages p = p
roll_back (suc n) j pages p = roll_back n (j + 1) pages (free_page (pages j) p)

-- How the loop that allocates the pages ends.
pub data Pages : Type 0 where
  filled : (ℕ → ℕ) → Pmm → Pages
  short : (ℕ → ℕ) → Pmm → Pages

-- That loop, at page `i`, `n` pages before its end. A failure gives back the pages before `i`.
unfoldable pub take_pages : ℕ → ℕ → (ℕ → ℕ) → Pmm → Pages
take_pages zero i pages p = filled pages p
take_pages (suc n) i pages p = elim (alloc_page p).0 [
  | none ↦ short pages (roll_back i 0 pages (alloc_page p).1)
  | some page ↦ take_pages n (i + 1) (update pages i page) (alloc_page p).1
]

-- The fields of a new segment but its pages.
abbrev pub fresh : ℕ → ℕ → ℕ → Caller → Segment → Segment
fresh key size npages c seg = record seg {
  used = true;
  key = key;
  size = size;
  npages = npages;
  nattch = 0;
  marked_rm = false;
  uid = c.uid;
  gid = c.gid;
  mode = 0x180;
}

-- The end of `shm_get`, with the free slot found and the pages asked for. A failure leaves the slot
-- free.
unfoldable pub fill : ℕ → Segment → Shm → Pages → Result × Shm
fill slot seg s (filled pages p) =
    (ok slot, record { segments = update s.segments slot (record seg { pages = pages }); pmm = p })
fill slot seg s (short pages p) = (
  err no_memory,
  record {
    segments = update s.segments slot (record seg { pages = pages; used = false });
    pmm = p;
  },
)

-- What follows the search for a free slot.
unfoldable pub create : ℕ → ℕ → ℕ → Caller → Shm → Option ℕ → Result × Shm
create key size npages c s none = (err no_space, s)
create key size npages c s (some slot) =
    let seg = fresh key size npages c (s.segments slot) in
    fill slot seg s (take_pages npages 0 seg.pages s.pmm)

abbrev pub free_segment : Shm → ℕ → Bool
free_segment s i = not (s.segments i).used

unfoldable pub create_new : ℕ → ℕ → ℕ → Caller → Shm → Result × Shm
create_new key size npages c s =
    create key size npages c s (first_true (free_segment s) max_segments 0)

-- The search for a live segment with a key, and what follows it.
abbrev pub live_key : ℕ → Shm → ℕ → Bool
live_key key s i =
    (s.segments i).used && ((s.segments i).key == key) && not (s.segments i).marked_rm

unfoldable pub found : ℕ → ℕ → ℕ → ℕ → Caller → Shm → Option ℕ → Result × Shm
found key size npages flags c s (some i) =
    (if ipc_creat flags && ipc_excl flags then err exists else ok i, s)
found key size npages flags c s none =
    if ipc_creat flags then create_new key size npages c s else (err no_entry, s)

-- Key 0 is `IPC_PRIVATE`.
unfoldable pub look_up : ℕ → ℕ → ℕ → ℕ → Caller → Shm → Result × Shm
look_up key size npages flags c s =
    if key == 0
    then create_new key size npages c s
    else found key size npages flags c s (first_true (live_key key s) max_segments 0)

unfoldable pub shm_get : ℕ → ℕ → ℕ → Caller → Shm → Result × Shm
shm_get key size flags c s =
    let npages = sub32 (add32 size page_size) 1 / page_size in
    if size == 0
    then (err invalid, s)
    else if ltb max_pages npages
    then (err invalid, s)
    else look_up key size npages flags c s
