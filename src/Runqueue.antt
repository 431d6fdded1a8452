-- ===== src/Runqueue.antt =====
-- src/kernel/scheduler.c: the O(1) runqueues. Store `2 * cpu + i` is `pcpu_rq[cpu].stores[i]`; each
-- has a bitmap and, for each of the 32 priorities, a list linked through `rq_next` and `rq_prev`.
-- Every function runs under `sched_lock`.
pub mod Holds
pub mod Enqueue
pub mod Dequeue
pub mod Pick
mod Tests
use adr_os.Prelude.{
  ℕ, zero, suc, ◌+◌, ◌-◌, ◌*◌, ◌^◌, bit_and, bit_or, Bool, true, false, ◌&&◌, if◌then◌else◌, ◌==◌,
  update,
}
use adr_os.Prelude.WordBits.{test_bit}
use adr_os.Links.{Links, null, link, unlink}

-- SCHED_NUM_PRIOS
abbrev pub num_prios : ℕ
num_prios = 32

pub record Runqueues : Type 0 where
  pub bitmap : ℕ → ℕ
  pub head : ℕ → ℕ → ℕ
  pub tail : ℕ → ℕ → ℕ
  pub links : Links

-- the two pointers of a `struct cpu_rq`, as numbers of stores
pub record Pair : Type 0 where
  pub active : ℕ
  pub expired : ℕ

-- what `process_init` leaves: every store zeroed; the links are those that memory holds
pub init : Links → Runqueues
init memory = record {
  bitmap = λ s. 0;
  head = λ s prio. null;
  tail = λ s prio. null;
  links = memory;
}

-- the pair of a CPU at boot
pub init_pair : ℕ → Pair
init_pair cpu = record { active = 2 * cpu; expired = 2 * cpu + 1 }

-- an assignment to `rq->queue[prio]` of one store
abbrev pub update2 {ℓ} : {A : Type ℓ} → (ℕ → ℕ → A) → ℕ → ℕ → A → ℕ → ℕ → A
update2 f s k v i j = if (s == i) && (k == j) then v else f i j

-- `rq_enqueue`, given the priority of the process
pub rq_enqueue : ℕ → ℕ → ℕ → Runqueues → Runqueues
rq_enqueue s prio p r = record {
  bitmap = update r.bitmap s (bit_or (r.bitmap s) (2 ^ prio));
  head = if r.tail s prio == null then update2 r.head s prio p else r.head;
  tail = update2 r.tail s prio p;
  links = link (r.tail s prio) null p r.links;
}

-- `rq_dequeue`, given the priority of the process
pub rq_dequeue : ℕ → ℕ → ℕ → Runqueues → Runqueues
rq_dequeue s prio p r = record {
  bitmap =
      if head' s prio == null
      then update r.bitmap s (bit_and (r.bitmap s) (2 ^ 32 - 1 - 2 ^ prio))
      else r.bitmap;
  head = head';
  tail = if r.links.next p == null then update2 r.tail s prio (r.links.prev p) else r.tail;
  links = unlink p r.links;
}
  where
    head' : ℕ → ℕ → ℕ
    head' = if r.links.prev p == null then update2 r.head s prio (r.links.next p) else r.head

-- `__builtin_ctz`: the lowest bit that is set, `n` bits before the last
pub ctz_from : ℕ → ℕ → ℕ → ℕ
ctz_from zero k v = k
ctz_from (suc n) k v = let rest = ctz_from n (k + 1) v in if test_bit v k then k else rest

pub bsf32 : ℕ → ℕ
unfolding ctz_from
bsf32 v = ctz_from num_prios 0 v

-- `crq->active->queue[prio].head` for the lowest bit of the bitmap
pub front : ℕ → Runqueues → ℕ
front s r = r.head s (bsf32 (r.bitmap s))

-- The process to run next, NULL if none waits, and the pair, swapped where nothing was active.
pub rq_pick_next : Pair → Runqueues → ℕ × Pair
unfolding front
rq_pick_next crq r =
    if r.bitmap crq.active == 0
    then (if r.bitmap crq.expired == 0 then null else front crq.expired r, swapped)
    else (front crq.active r, crq)
  where
    swapped : Pair
    swapped = record { active = crq.expired; expired = crq.active }
