-- ===== src/Kmbox/Tests.antt =====
-- The claims about the mailbox at concrete states.
use adr_os.Prelude.{◌+◌, ◌-◌, [], ◌∷◌, ◌++◌, ◌≡◌, refl, arith}
use adr_os.Kmbox.{
  System, kmbox_init, put_msg, try_put, kmbox_trypost, post_wait, post_put, here, next,
}
use adr_os.Kmbox.Fifo.{IsMailbox, Reach-IsMailbox, kmbox_init-IsMailbox, kmbox_trypost-overcounts}

-- One thread stands behind the wait of `kmbox_post`, and then has posted 7.
abbrev begun : System
begun = record (kmbox_init 2) {
  not_full = (kmbox_init 2).not_full - 1;
  posting = (kmbox_init 2).posting + 1;
}

abbrev posted_one : System
posted_one = record begun {
  mbox = put_msg 7 begun.mbox;
  posting = begun.posting - 1;
  posted = begun.posted + 1;
  sent = begun.sent ++ (7 ∷ []);
}

Reach-IsMailbox_example : IsMailbox posted_one
Reach-IsMailbox_example =
    Reach-IsMailbox 2 posted_one
      (next (next here (post_wait (unfold kmbox_init in omega arith))) (post_put 7 (omega arith)))

-- A message given to `kmbox_trypost` of an empty mailbox.
abbrev tried : System
tried = record (kmbox_init 2) {
  mbox = put_msg 7 (kmbox_init 2).mbox;
  not_empty = (kmbox_init 2).not_empty + 1;
  sent = (kmbox_init 2).sent ++ (7 ∷ []);
}

kmbox_trypost-overcounts_example :
    (tried.not_full + tried.posting + tried.mbox.count + tried.fetched ≡ tried.mbox.capacity + 1)
    × (tried.not_empty + tried.fetching + tried.posted ≡ tried.mbox.count)
kmbox_trypost-overcounts_example =
    kmbox_trypost-overcounts 7 (kmbox_init 2) tried (kmbox_init-IsMailbox 2)
      (unfold kmbox_trypost try_put kmbox_init in refl)
