-- ===== src/Links.antt =====
-- The doubly linked lists of src/kernel/scheduler.c. A process is known by its address, and a
-- pair of link fields of `struct process` (`rq_next` and `rq_prev`, `sleep_next` and `sleep_prev`,
-- `alarm_next` and `alarm_prev`) is a pair of functions of the address. NULL is 0.
pub mod Segment
pub mod Insert
pub mod Remove
use adr_os.Prelude.{ℕ, Bool, false, List, [], ◌∷◌, ◌||◌, if◌then◌else◌, ◌==◌, update}

abbrev pub null : ℕ
null = 0

pub record Links : Type 0 where
  pub next : ℕ → ℕ
  pub prev : ℕ → ℕ

-- `m->next = p` where `m` is not NULL
unfoldable pub set_next : ℕ → ℕ → Links → Links
set_next m p l = if m == null then l else (record l { next = update l.next m p })

-- `c->prev = p` where `c` is not NULL
unfoldable pub set_prev : ℕ → ℕ → Links → Links
set_prev c p l = if c == null then l else (record l { prev = update l.prev c p })

-- The writes that put `p` between `m` and `c`, either of which may be NULL.
unfoldable pub link : ℕ → ℕ → ℕ → Links → Links
unfolding set_next set_prev
link m c p l =
    set_next m p (set_prev c p (record { next = update l.next p c; prev = update l.prev p m }))

-- The writes that take `p` out: its neighbours are joined and its links cleared.
unfoldable pub unlink : ℕ → Links → Links
unfolding set_next set_prev
unlink p l = record { next = update l2.next p null; prev = update l2.prev p null }
  where
    l1 : Links
    l1 = set_next (l.prev p) (l.next p) l

    l2 : Links
    l2 = set_prev (l1.next p) (l1.prev p) l1

-- whether a process stands on a list
unfoldable pub mem : ℕ → List ℕ → Bool
mem p [] = false
mem p (x ∷ xs) = x == p || mem p xs

-- a list less its first `p`
unfoldable pub without : ℕ → List ℕ → List ℕ
without p [] = []
without p (x ∷ xs) = if x == p then xs else x ∷ without p xs
