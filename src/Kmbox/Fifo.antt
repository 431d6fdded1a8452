-- ===== src/Kmbox/Fifo.antt =====
-- The mailbox between threads that post and threads that fetch.
use adr_os.Prelude.{
  ℕ, ◌+◌, ◌≤◌, ◌<◌, [], ◌∷◌, ◌++◌, append_assoc, ◌≡◌, refl, sym, ap, ◌∙◌, arith, leb, Bool-cases,
  inl, inr, some, some_eq, subst, Option-cases,
}
use native.Mathlib.Nat.{mod-eq_of_lt}
use adr_os.Kmbox.{
  Kmbox, System, max_msgs, init_size, kmbox_init, put_msg, take_msg, try_put, kmbox_trypost, Step,
  post_wait, post_put, post_signal, fetch_wait, fetch_take, fetch_signal, Reach, here, next,
}
use adr_os.Kmbox.Ring.{IsRing, contents, contents_from, put_msg-contents, take_msg-contents}

-- The free places and the messages are those of the two semaphores and of the threads between their
-- sections, and the messages sent are those received and those in the ring.
pub record IsMailbox (s : System) : Type 0 where
  pub ring : IsRing s.mbox
  pub places : s.not_full + s.posting + s.mbox.count + s.fetched ≡ s.mbox.capacity
  pub messages : s.not_empty + s.fetching + s.posted ≡ s.mbox.count
  pub order : s.sent ≡ s.received ++ contents s.mbox

pub kmbox_init-IsMailbox : (size : ℕ) → IsMailbox (kmbox_init size)
unfolding kmbox_init contents contents_from
kmbox_init-IsMailbox size =
    let bounds : (1 ≤ init_size size) × (init_size size ≤ max_msgs) = ground arith in
    record {
      ring = record {
        some_place = bounds.0;
        few_places = bounds.1;
        head_in = omega (arith, bounds);
        filled = omega arith;
        tail_at = sym (mod-eq_of_lt (omega (arith, bounds)));
      };
      places = omega arith;
      messages = refl;
      order = refl;
    }

put_msg-sizes :
    (msg : ℕ) (mb : Kmbox)
    → IsRing mb
    → mb.count < mb.capacity
    → ((put_msg msg mb).count ≡ mb.count + 1) × ((put_msg msg mb).capacity ≡ mb.capacity)
unfolding put_msg
put_msg-sizes msg mb r l = (omega (arith, l, r.few_places), refl)

take_msg-sizes :
    (mb : Kmbox)
    → IsRing mb
    → 1 ≤ mb.count
    → ((take_msg mb).1.count + 1 ≡ mb.count) × ((take_msg mb).1.capacity ≡ mb.capacity)
unfolding take_msg
take_msg-sizes mb r l = (omega (arith, l, r.filled, r.few_places), refl)

pub Step-IsMailbox : {s t : System} → Step s t → IsMailbox s → IsMailbox t
Step-IsMailbox {s} (post_wait h) v = record {
  ring = v.ring;
  places = omega (arith, v.places, h);
  messages = v.messages;
  order = v.order;
}
Step-IsMailbox {s} (post_put msg h) v =
    let room : s.mbox.count < s.mbox.capacity = omega (arith, v.places, h) in
    let (ring, queue) = put_msg-contents msg s.mbox v.ring room in
    let (count, capacity) = put_msg-sizes msg s.mbox v.ring room in
    record {
      ring = ring;
      places = omega (arith, v.places, h, count, capacity);
      messages = omega (arith, v.messages, count);
      order =
          ap (λ t. t ++ (msg ∷ [])) v.order
          ∙ append_assoc s.received (contents s.mbox) (msg ∷ [])
          ∙ ap (λ t. s.received ++ t) (sym queue);
    }
Step-IsMailbox {s} (post_signal h) v = record {
  ring = v.ring;
  places = v.places;
  messages = omega (arith, v.messages, h);
  order = v.order;
}
Step-IsMailbox {s} (fetch_wait h) v = record {
  ring = v.ring;
  places = v.places;
  messages = omega (arith, v.messages, h);
  order = v.order;
}
Step-IsMailbox {s} (fetch_take h) v =
    let some_left : 1 ≤ s.mbox.count = omega (arith, v.messages, h) in
    let (ring, queue) = take_msg-contents s.mbox v.ring some_left in
    let (count, capacity) = take_msg-sizes s.mbox v.ring some_left in
    record {
      ring = ring;
      places = omega (arith, v.places, count, capacity);
      messages = omega (arith, v.messages, h, count);
      order =
          v.order
          ∙ ap (λ t. s.received ++ t) queue
          ∙ sym (append_assoc s.received ((take_msg s.mbox).0 ∷ []) (contents (take_msg s.mbox).1));
    }
Step-IsMailbox {s} (fetch_signal h) v = record {
  ring = v.ring;
  places = omega (arith, v.places, h);
  messages = v.messages;
  order = v.order;
}

-- Threads that use a mailbox by `kmbox_post` and `kmbox_fetch` only, in any interleaving of their
-- sections, from `kmbox_init` on with any size: the messages posted are, in their order, those
-- fetched and then those in the ring, so none is lost, doubled or overtaken; the ring never holds
-- more than its capacity; and the tokens of the two semaphores and the threads between two sections
-- make up the free places and the messages.
pub Reach-IsMailbox : (size : ℕ) (t : System) → Reach (kmbox_init size) t → IsMailbox t
Reach-IsMailbox size t r = run r
  where
    run : {u : System} → Reach (kmbox_init size) u → IsMailbox u
    run here = kmbox_init-IsMailbox size
    run (next r st) = Step-IsMailbox st (run r)

-- The section alone fills one place.
try_put-sizes :
    (msg : ℕ) (s : System) (mb : Kmbox)
    → IsMailbox s
    → try_put msg s.mbox ≡ some mb
    → (mb.count ≡ s.mbox.count + 1) × (mb.capacity ≡ s.mbox.capacity)
unfolding try_put
try_put-sizes msg s mb v e = elim (Bool-cases (leb s.mbox.capacity s.mbox.count)) [
  | inl h ↦ ground (arith, h, e)
  | inr h ↦
      let room : s.mbox.count < s.mbox.capacity = ground (arith, h) in
      let (count, capacity) = put_msg-sizes msg s.mbox v.ring room in
      let same : put_msg msg s.mbox ≡ mb = some_eq (ground (arith, h, e)) in
      (
        sym (ap (λ (k : Kmbox). k.count) same) ∙ count,
        sym (ap (λ (k : Kmbox). k.capacity) same) ∙ capacity,
      )
]

-- `kmbox_trypost` takes no token of `not_full`: where it succeeds on any mailbox whose tokens are in
-- order, the tokens of `not_full`, the threads that hold one and the messages are afterwards one
-- more than the capacity, while those of `not_empty` still are as many as the messages.
pub kmbox_trypost-overcounts :
    (msg : ℕ) (s t : System)
    → IsMailbox s
    → kmbox_trypost msg s ≡ some t
    → (t.not_full + t.posting + t.mbox.count + t.fetched ≡ t.mbox.capacity + 1)
      × (t.not_empty + t.fetching + t.posted ≡ t.mbox.count)
unfolding kmbox_trypost
kmbox_trypost-overcounts msg s t v e = elim (Option-cases (try_put msg s.mbox)) [
  | inl n ↦ ground (arith, n, e)
  | inr (mb, h) ↦
      let (count, capacity) = try_put-sizes msg s mb v h in
      let after : System = record s {
        mbox = mb;
        not_empty = s.not_empty + 1;
        sent = s.sent ++ (msg ∷ []);
      } in
      let same : after ≡ t = some_eq (ground (arith, h, e)) in
      subst
        (λ (u : System).
          (u.not_full + u.posting + u.mbox.count + u.fetched ≡ u.mbox.capacity + 1)
          × (u.not_empty + u.fetching + u.posted ≡ u.mbox.count))
        same (omega (arith, v.places, count, capacity), omega (arith, v.messages, count))
]
