-- ===== src/Shm/History.antt =====
-- Histories of the calls of src/kernel/shm.c by several processes.
use adr_os.Prelude.{
  ℕ, zero, suc, ◌+◌, ◌-◌, ◌*◌, ◌^◌, ◌≤◌, ◌<◌, true, false, Option, update, update_self,
  update-other, ◌≡◌, ◌≢◌, refl, sym, ap, subst, arith, ℕ_discrete,
}
use adr_os.Pmm.{page_size}
use adr_os.Shm.{Caller, Shm, max_segments, max_mmaps, shm_init, shm_get}
use adr_os.Shm.Attach.{shm_at, shm_dt}
use adr_os.Shm.Control.{Buffer, shm_ctl}
use adr_os.Shm.Counts.{Counts, attachments, attachments-le}
use adr_os.Shm.Calls.{Counted, shm_get-Counted}
use adr_os.Shm.Attaching.{shm_at-Counted}
use adr_os.Shm.Detaching.{shm_dt-Counted, shm_ctl-Counted}

-- The sum of `f` below `n`.
unfoldable pub sum_to : (ℕ → ℕ) → ℕ → ℕ
sum_to f zero = 0
sum_to f (suc n) = f n + sum_to f n

sum_to-congr : (f g : ℕ → ℕ) (n : ℕ) → ((j : ℕ) → j < n → f j ≡ g j) → sum_to f n ≡ sum_to g n
unfolding sum_to
sum_to-congr f g zero h = refl
sum_to-congr f g (suc n) h =
    omega (arith, h n (omega arith), sum_to-congr f g n (λ j l. h j (omega arith)))

-- A change at one index changes the sum by as much.
sum_to-change :
    (f g : ℕ → ℕ) (i n : ℕ)
    → i < n
    → ((j : ℕ) → i ≢ j → g j ≡ f j)
    → sum_to g n + f i ≡ sum_to f n + g i
unfolding sum_to
sum_to-change f g i zero h k = absurd (omega arith)
sum_to-change f g i (suc n) h k = elim (ℕ_discrete i n) [
  | yes e ↦
      omega (arith, sum_to-congr g f n (λ j l. k j (λ s. omega (arith, e, s, l))), ap f e, ap g e)
  | no ne ↦ omega (arith, k n ne, sum_to-change f g i n (omega (arith, ne)) k)
]

sum_to-le : (f : ℕ → ℕ) (i n : ℕ) → i < n → f i ≤ sum_to f n
unfolding sum_to
sum_to-le f i zero h = absurd (omega arith)
sum_to-le f i (suc n) h = elim (ℕ_discrete i n) [
  | yes e ↦ omega (arith, ap f e)
  | no ne ↦ omega (arith, sum_to-le f i n (omega (arith, ne)))
]

sum_to-bound : (f : ℕ → ℕ) (b n : ℕ) → ((j : ℕ) → f j ≤ b) → sum_to f n ≤ n * b
unfolding sum_to
sum_to-bound f b zero h = omega arith
sum_to-bound f b (suc n) h = grind (arith, h n, sum_to-bound f b n h)

-- The segments, and what each of the processes has mapped.
pub record World : Type 0 where
  pub shm : Shm
  pub tasks : ℕ → Caller

-- How many mappings of segment `id` the first `procs` processes have.
abbrev pub mappings : ℕ → ℕ → World → ℕ
mappings procs id w = sum_to (λ q. attachments id (w.tasks q).mmaps) procs

-- A call of process `p`. What else a process does leaves its mappings of segments as they are: the
-- calls that change them without the counts (fork, exec, munmap, exit) are not among the steps while
-- a segment is mapped.
pub data Step (procs : ℕ) (w : World) : World → Type 0 where
  get :
      (p key size flags : ℕ)
      → p < procs
      → size + page_size ≤ 2 ^ 32
      → Step procs w (record w { shm = (shm_get key size flags (w.tasks p) w.shm).1 })
  at :
      (p kern_base free_area shmid shmaddr shmflg : ℕ)
      → p < procs
      → Step procs w (
          let r = shm_at kern_base free_area shmid shmaddr shmflg w.shm (w.tasks p) in
          record { shm = r.shm; tasks = update w.tasks p r.caller })
  dt :
      (p addr : ℕ)
      → p < procs
      → Step procs w (
          let r = shm_dt addr w.shm (w.tasks p) in
          record { shm = r.shm; tasks = update w.tasks p r.caller })
  ctl :
      (p shmid cmd : ℕ) (buf : Option Buffer)
      → p < procs
      → Step procs w (record w { shm = (shm_ctl shmid cmd buf (w.tasks p) w.shm).1 })
  own :
      (p : ℕ) (c : Caller)
      → p < procs
      → ((id : ℕ) → attachments id c.mmaps ≡ attachments id (w.tasks p).mmaps)
      → Step procs w (record w { tasks = update w.tasks p c })

pub data Reach (procs : ℕ) (w : World) : World → Type 0 where
  here : Reach procs w w
  next : {u t : World} → Reach procs w u → Step procs u t → Reach procs w t

-- Every segment counts its mappings.
abbrev pub AllCounted : ℕ → World → Type 0
AllCounted procs w = (id : ℕ) → id < max_segments → Counts (mappings procs id w) (w.shm.segments id)

-- The mappings of the other processes.
abbrev rest : ℕ → ℕ → World → ℕ → ℕ
rest procs p w id = mappings procs id w - attachments id (w.tasks p).mmaps

module _ (procs p : ℕ) (w : World) (l : p < procs) where
  split : (id : ℕ) → attachments id (w.tasks p).mmaps + rest procs p w id ≡ mappings procs id w
  split id = omega (arith, sum_to-le (λ q. attachments id (w.tasks q).mmaps) p procs l)

  -- Seen from one process.
  seen : AllCounted procs w → Counted (rest procs p w) w.shm (w.tasks p)
  seen v id h = subst (λ (n : ℕ). Counts n (w.shm.segments id)) (sym (split id)) (v id h)

  -- And back, with the process changed.
  back :
      (s : Shm) (c : Caller)
      → Counted (rest procs p w) s c
      → AllCounted procs (record { shm = s; tasks = update w.tasks p c })
  back s c v id h =
      let f : ℕ → ℕ = λ q. attachments id (w.tasks q).mmaps in
      let g : ℕ → ℕ = λ q. attachments id (update w.tasks p c q).mmaps in
      let mine : g p ≡ attachments id c.mmaps =
        ap (λ (t : Caller). attachments id t.mmaps) (update_self w.tasks p c) in
      let changed =
        sum_to-change f g p procs l
          (λ j ne. ap (λ (t : Caller). attachments id t.mmaps) (update-other w.tasks p j c ne)) in
      subst (λ (n : ℕ). Counts n (s.segments id)) (omega (arith, changed, mine, split id)) (v id h)

  -- And back, with only the segments changed.
  back_same :
      (s : Shm) → Counted (rest procs p w) s (w.tasks p) → AllCounted procs (record w { shm = s })
  back_same s v id h = subst (λ (n : ℕ). Counts n (s.segments id)) (split id) (v id h)

Step-AllCounted :
    {procs : ℕ} {w t : World}
    → procs ≤ 2 ^ 20
    → Step procs w t
    → AllCounted procs w
    → AllCounted procs t
Step-AllCounted {procs} {w} few (get p key size flags l fits) v =
    back_same procs p w l (shm_get key size flags (w.tasks p) w.shm).1
      (shm_get-Counted (rest procs p w) w.shm (w.tasks p) (seen procs p w l v) key size flags fits)
Step-AllCounted {procs} {w} few (at p kern_base free_area shmid shmaddr shmflg l) v =
    let r = shm_at kern_base free_area shmid shmaddr shmflg w.shm (w.tasks p) in
    let bound =
      sum_to-bound (λ q. attachments shmid (w.tasks q).mmaps) max_mmaps procs
        (λ j. attachments-le shmid (w.tasks j).mmaps) in
    back procs p w l r.shm r.caller (
      shm_at-Counted (rest procs p w) w.shm (w.tasks p) (seen procs p w l v) kern_base free_area
        shmid shmaddr shmflg (omega (arith, split procs p w l shmid, bound, few)))
Step-AllCounted {procs} {w} few (dt p addr l) v =
    let r = shm_dt addr w.shm (w.tasks p) in
    back procs p w l r.shm r.caller
      (shm_dt-Counted (rest procs p w) w.shm (w.tasks p) (seen procs p w l v) addr)
Step-AllCounted {procs} {w} few (ctl p shmid cmd buf l) v =
    back_same procs p w l (shm_ctl shmid cmd buf (w.tasks p) w.shm).1
      (shm_ctl-Counted (rest procs p w) w.shm (w.tasks p) (seen procs p w l v) shmid cmd buf)
Step-AllCounted {procs} {w} few (own p c l same) v = back procs p w l w.shm c (λ id h.
    subst (λ (n : ℕ). Counts (n + rest procs p w id) (w.shm.segments id)) (sym (same id))
      (seen procs p w l v id h))

start-AllCounted :
    (procs : ℕ) (w : World)
    → ((id : ℕ) → mappings procs id w ≡ 0)
    → AllCounted procs (record w { shm = shm_init w.shm })
unfolding shm_init
start-AllCounted procs w none_mapped id h = (λ m. absurd (unused m), λ _. none_mapped id)
  where
    unused : false ≢ true
    unused m = cc

-- In every history of calls of up to 2^20 processes from `shm_init` on, with no segment mapped at
-- its start, in which `shm_at` and `shm_dt` alone change what processes have mapped of segments (so
-- without a fork, an exec, a munmap or an exit of a process that has one mapped, whose code leaves
-- the counts alone), and in which no size wraps when it is rounded up to pages: a live segment counts its mappings, over all the processes, and is marked for removal only while
-- there are some; and a segment that is not in use has none. So in such a history no segment is destroyed, and
-- its pages given back, while a process maps it, and a removed segment lives no longer than its last
-- mapping.
pub Reach-Counts :
    (procs : ℕ) (w t : World)
    → procs ≤ 2 ^ 20
    → ((id : ℕ) → mappings procs id w ≡ 0)
    → Reach procs (record w { shm = shm_init w.shm }) t
    → (id : ℕ) → id < max_segments
    → Counts (mappings procs id t) (t.shm.segments id)
Reach-Counts procs w t few none_mapped r = run r
  where
    run : {t : World} → Reach procs (record w { shm = shm_init w.shm }) t → AllCounted procs t
    run here = start-AllCounted procs w none_mapped
    run (next r st) = Step-AllCounted few st (run r)
