-- ===== src/Shm/Control.antt =====
-- `shm_ctl` of src/kernel/shm.c. A copy to or from the caller's memory has the result that it has:
-- `copied` says whether it succeeds, and `new_mode` is what was read.
use adr_os.Prelude.{
  ℕ, bit_and, Bool, true, not, ◌&&◌, ◌||◌, Option, none, some, if◌then◌else◌, leb, ◌==◌, update,
}
use adr_os.Shm.{
  Segment, Caller, Shm, Result, ok, err, invalid, no_access, not_permitted, bad_address,
  max_segments, shm_perm_check, shm_destroy,
}

-- The third argument: whether there is a buffer, whether its copy succeeds, and its `shm_perm.mode`.
pub record Buffer : Type 0 where
  pub copied : Bool
  pub new_mode : ℕ

-- The copy at the end of `IPC_STAT`, behind the lock.
unfoldable pub copy_out : Option Buffer → Result
copy_out none = ok 0
copy_out (some buf) = if buf.copied then ok 0 else err bad_address

unfoldable pub stat : ℕ → Option Buffer → Caller → Shm → Result × Shm
stat shmid buf c s =
    if not (shm_perm_check c (s.segments shmid) 4) then (err no_access, s) else (copy_out buf, s)

-- `seg->uid != current_process->uid && current_process->euid != 0`
abbrev pub not_owner : Caller → Segment → Bool
not_owner c seg = not (seg.uid == c.uid) && not (c.euid == 0)

unfoldable pub remove : ℕ → Caller → Shm → Result × Shm
remove shmid c s =
    let seg = s.segments shmid in
    if not_owner c seg
    then (err not_permitted, s)
    else if seg.nattch == 0
    then (ok 0, shm_destroy shmid s)
    else (ok 0, record s { segments = update s.segments shmid (record seg { marked_rm = true }) })

unfoldable pub set_mode : ℕ → Option Buffer → Shm → Result × Shm
set_mode shmid none s = (ok 0, s)
set_mode shmid (some buf) s =
    if buf.copied
    then (
      ok 0,
      record s {
        segments =
            update s.segments shmid
              (record (s.segments shmid) { mode = bit_and buf.new_mode 0x1FF });
      },
    )
    else (err bad_address, s)

-- The commands: `IPC_RMID` is 0, `IPC_STAT` 1 and `IPC_SET` 2.
unfoldable pub shm_ctl : ℕ → ℕ → Option Buffer → Caller → Shm → Result × Shm
shm_ctl shmid cmd buf c s =
    if leb max_segments shmid || not (s.segments shmid).used
    then (err invalid, s)
    else if cmd == 1
    then stat shmid buf c s
    else if cmd == 0
    then remove shmid c s
    else if cmd == 2
    then (if not_owner c (s.segments shmid) then (err not_permitted, s) else set_mode shmid buf s)
    else (err invalid, s)
