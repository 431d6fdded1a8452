-- ===== src/Kmbox.antt =====
-- The mailbox of src/kernel/sync.c: a ring of messages under a lock, with a semaphore for its messages
-- and one for its free places. The semaphores are those of module Ksem, seen from outside: a wait
-- that ends takes a token, a signal adds one. Each section under `mb->lock` is one step.
pub mod Ring
pub mod Fifo
mod Tests
use adr_os.Prelude.{
  ℕ, ◌+◌, ◌-◌, ◌%◌, ◌≤◌, Bool, ◌||◌, Option, none, some, List, [], ◌∷◌, ◌++◌, if◌then◌else◌, ltb,
  leb, ◌==◌, update, add32, sub32,
}

-- `KMBOX_MAX_MSGS`
abbrev pub max_msgs : ℕ
max_msgs = 32

-- `kmbox_t` without its semaphores; a message is a number.
pub record Kmbox : Type 0 where
  pub msgs : ℕ → ℕ
  pub head : ℕ
  pub tail : ℕ
  pub count : ℕ
  pub capacity : ℕ

-- The mailbox, the tokens of `not_empty` and `not_full`, and how many threads stand between two
-- sections of `kmbox_post` and of `kmbox_fetch`: behind the wait, and before the signal. `sent` and
-- `received` are the messages of the sections so far, in their order.
pub record System : Type 0 where
  pub mbox : Kmbox
  pub not_empty : ℕ
  pub not_full : ℕ
  pub posting : ℕ
  pub posted : ℕ
  pub fetching : ℕ
  pub fetched : ℕ
  pub sent : List ℕ
  pub received : List ℕ

-- `size == 0 || size > KMBOX_MAX_MSGS`
abbrev pub init_size : ℕ → ℕ
init_size size = if (size == 0) || ltb max_msgs size then max_msgs else size

-- `kmbox_init`
unfoldable pub kmbox_init : ℕ → System
kmbox_init size = record {
  mbox = record { msgs = λ i. 0; head = 0; tail = 0; count = 0; capacity = init_size size };
  not_empty = 0;
  not_full = init_size size;
  posting = 0;
  posted = 0;
  fetching = 0;
  fetched = 0;
  sent = [];
  received = [];
}

-- The section of `kmbox_post` under the lock.
unfoldable pub put_msg : ℕ → Kmbox → Kmbox
put_msg msg mb = record mb {
  msgs = update mb.msgs mb.tail msg;
  tail = add32 mb.tail 1 % mb.capacity;
  count = add32 mb.count 1;
}

-- The section of `kmbox_fetch`: the message, and the mailbox without it.
unfoldable pub take_msg : Kmbox → ℕ × Kmbox
take_msg mb =
    (mb.msgs mb.head, record mb { head = add32 mb.head 1 % mb.capacity; count = sub32 mb.count 1 })

-- The section of `kmbox_trypost`; `none` is the result -1.
unfoldable pub try_put : ℕ → Kmbox → Option Kmbox
try_put msg mb = if leb mb.capacity mb.count then none else some (put_msg msg mb)

-- The section of `kmbox_tryfetch`.
unfoldable pub try_take : Kmbox → Option (ℕ × Kmbox)
try_take mb = if mb.count == 0 then none else some (take_msg mb)

-- `kmbox_trypost`, its section and the signal behind it; `none` is the result -1. It waits for no
-- semaphore.
unfoldable pub kmbox_trypost : ℕ → System → Option System
kmbox_trypost msg s = elim (try_put msg s.mbox) [
  | none ↦ none
  | some mb ↦
      some (record s { mbox = mb; not_empty = s.not_empty + 1; sent = s.sent ++ (msg ∷ []) })
]

-- `kmbox_tryfetch`, likewise; the message is the last received.
unfoldable pub kmbox_tryfetch : System → Option System
kmbox_tryfetch s = elim (try_take s.mbox) [
  | none ↦ none
  | some (msg, mb) ↦
      some (record s { mbox = mb; not_full = s.not_full + 1; received = s.received ++ (msg ∷ []) })
]

-- The sections of `kmbox_post` and `kmbox_fetch`, by any thread.
pub data Step (s : System) : System → Type 0 where
  post_wait :
      1 ≤ s.not_full → Step s (record s { not_full = s.not_full - 1; posting = s.posting + 1 })
  post_put :
      (msg : ℕ)
      → 1 ≤ s.posting
      → Step s (record s {
        mbox = put_msg msg s.mbox;
        posting = s.posting - 1;
        posted = s.posted + 1;
        sent = s.sent ++ (msg ∷ []);
      })
  post_signal :
      1 ≤ s.posted → Step s (record s { posted = s.posted - 1; not_empty = s.not_empty + 1 })
  fetch_wait :
      1 ≤ s.not_empty → Step s (record s { not_empty = s.not_empty - 1; fetching = s.fetching + 1 })
  fetch_take :
      1 ≤ s.fetching
      → Step s (record s {
        mbox = (take_msg s.mbox).1;
        fetching = s.fetching - 1;
        fetched = s.fetched + 1;
        received = s.received ++ ((take_msg s.mbox).0 ∷ []);
      })
  fetch_signal :
      1 ≤ s.fetched → Step s (record s { fetched = s.fetched - 1; not_full = s.not_full + 1 })

pub data Reach (s : System) : System → Type 0 where
  here : Reach s s
  next : {t u : System} → Reach s t → Step t u → Reach s u
