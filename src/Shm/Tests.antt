-- ===== src/Shm/Tests.antt =====
-- Runs of the calls, and the claims at concrete states.
use adr_os.Prelude.{ℕ, true, false, none, [], ◌≡◌, refl, arith, first_true, update}
use adr_os.Bitmap.{bitmap_set, bitmap_unset, bitmap_test}
use adr_os.Pmm.{
  Pmm, boot, set_limits, mark_region, align_down, all_used, mark_frames, mark_frame, alloc_page,
  reset_hint, find_free, frame_at, claim, address,
}
use adr_os.Shm.{
  Segment, Mapping, Caller, Shm, Result, Error, ok, err, cleared, max_segments, shm_init, shm_get,
  shm_rdonly, shm_perm_check, fill, create, create_new, look_up, found, take_pages,
}
use adr_os.Shm.Attach.{attach_used, at_slot, place, attach, Outcome, shm_at, shm_dt}
use adr_os.Shm.Counts.{Counts, attachments-none}
use adr_os.Shm.History.{World, here, next, get, at, mappings, sum_to, Reach-Counts}
use adr_os.Shm.Granted.{Attached, shm_at-Attached}

-- Eight page frames, of which six are free.
abbrev frames : Pmm
frames = mark_region 4096 24576 false (set_limits 32768 0 boot)

-- A process that has mapped nothing, and two of them.
abbrev task : Caller
task = record {
  uid = 7;
  euid = 7;
  gid = 7;
  egid = 7;
  mmaps = λ i. record { base = 0; length = 0; shmid = none };
}

abbrev world : World
world = record { shm = record { segments = λ i. cleared; pmm = frames }; tasks = λ p. task }

abbrev started : World
started = record world { shm = shm_init world.shm }

-- Process 0 asks for a segment, and process 1 maps it, number 0.
abbrev asked : World
asked = record started { shm = (shm_get 5 100 0x380 (started.tasks 0) started.shm).1 }

abbrev mapped : World
mapped =
    let r = shm_at 0xC0000000 0x40000000 0 0 0 asked.shm (asked.tasks 1) in
    record { shm = r.shm; tasks = update asked.tasks 1 r.caller }

-- what the run computes with
code : ℕ
unfolding shm_init shm_get fill create create_new look_up found take_pages shm_at attach_used
    at_slot place attach shm_perm_check first_true set_limits align_down all_used mark_region
    mark_frames mark_frame alloc_page reset_hint find_free frame_at claim address bitmap_test
    bitmap_set bitmap_unset
code = 0

-- The segment of the history is mapped once, and counts it.
mapped_once : (mapped.shm.segments 0).nattch ≡ 1
unfolding code
mapped_once = refl

none_mapped : (id : ℕ) → mappings 2 id world ≡ 0
unfolding sum_to
none_mapped id = omega (arith, attachments-none id task.mmaps (λ i. refl))

Reach-Counts_example : Counts (mappings 2 0 mapped) (mapped.shm.segments 0)
Reach-Counts_example =
    Reach-Counts 2 world mapped (omega arith) none_mapped
      (next (next here (get 0 5 100 0x380 (omega arith) (omega arith)))
        (at 1 0xC0000000 0x40000000 0 0 0 (omega arith)))
      0 (omega arith)

-- A live segment of one page that belongs to the caller.
abbrev live : Shm
live = record {
  segments =
      λ i. record cleared { used = true; npages = 1; pages = λ j. 0x5000; uid = 7; mode = 0x180 };
  pmm = boot;
}

granted : (shm_at 0xC0000000 0 3 0x10000000 0 live task).result ≡ ok 0x10000000
unfolding shm_at adr_os.Shm.Attach.attach_used adr_os.Shm.shm_perm_check adr_os.Shm.Attach.at_slot
    adr_os.Shm.Attach.place adr_os.Shm.Attach.attach first_true
granted = refl

shm_at-Attached_example :
    (let r = shm_at 0xC0000000 0 3 0x10000000 0 live task in
      ((vaddr : ℕ)
        → r.result ≡ ok vaddr
        → Attached 0xC0000000 3 0x10000000 vaddr (shm_rdonly 0) live task r)
      × ((e : Error) → r.result ≡ err e → (r.shm ≡ live) × (r.caller ≡ task) × (r.calls ≡ [])))
shm_at-Attached_example =
    shm_at-Attached 0xC0000000 0 3 0x10000000 0 live task (omega arith) (omega arith)
