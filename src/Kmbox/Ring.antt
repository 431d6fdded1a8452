-- ===== src/Kmbox/Ring.antt =====
-- The ring of the mailbox as a queue.
use adr_os.Prelude.{
  ℕ, zero, suc, ◌+◌, ◌-◌, ◌%◌, ◌≤◌, ◌<◌, List, [], ◌∷◌, ◌++◌, update, update_self, update-other,
  add32, sub32, ◌≡◌, ◌≢◌, inl, inr, refl, sym, ap, ap₂, ◌∙◌, subst, arith, dec_lt, ◌⊎◌,
}
use native.Mathlib.Nat.{mod-eq_of_lt, add-mod_right, add-mod-mod, mod-lt}
use adr_os.Kmbox.{Kmbox, max_msgs, put_msg, take_msg}

-- The messages, `n` of them from the `i`-th behind the head on.
unfoldable pub contents_from : Kmbox → ℕ → ℕ → List ℕ
contents_from mb i zero = []
contents_from mb i (suc n) = mb.msgs ((mb.head + i) % mb.capacity) ∷ contents_from mb (suc i) n

-- The abstract view: the queue of messages, oldest first.
unfoldable pub contents : Kmbox → List ℕ
contents mb = contents_from mb 0 mb.count

pub record IsRing (mb : Kmbox) : Type 0 where
  pub some_place : 1 ≤ mb.capacity
  pub few_places : mb.capacity ≤ max_msgs
  pub head_in : mb.head < mb.capacity
  pub filled : mb.count ≤ mb.capacity
  pub tail_at : mb.tail ≡ (mb.head + mb.count) % mb.capacity

-- Behind one turn.
wrap : (a n : ℕ) → n ≤ a → a < n + n → a % n ≡ a - n
wrap a n h l =
    ap (λ (t : ℕ). t % n) {y = (a - n) + n} (omega (arith, h))
    ∙ add-mod_right (a - n) n
    ∙ mod-eq_of_lt (omega (arith, h, l))

-- A place of the ring, by whether it lies behind the end of the array.
place_cases :
    (h i n : ℕ)
    → h < n
    → i ≤ n
    → ((h + i < n) × ((h + i) % n ≡ h + i)) ⊎ ((n ≤ h + i) × ((h + i) % n ≡ h + i - n))
place_cases h i n l k = elim (dec_lt (h + i) n) [
  | yes x ↦ inl (x, mod-eq_of_lt x)
  | no x ↦ inr (omega (arith, x), wrap (h + i) n (omega (arith, x)) (omega (arith, l, k)))
]

-- Different places behind the head are different places of the array.
places_differ : (h i j n : ℕ) → h < n → i < j → j < n → (h + i) % n ≢ (h + j) % n
places_differ h i j n l k m e = elim (place_cases h i n l (omega (arith, k, m))) [
  | inl (a, p) ↦ elim (place_cases h j n l (omega (arith, m))) [
    | inl (b, q) ↦ omega (arith, p, q, e, k)
    | inr (b, q) ↦ omega (arith, p, q, e, k, m)
  ]
  | inr (a, p) ↦ elim (place_cases h j n l (omega (arith, m))) [
    | inl (b, q) ↦ omega (arith, p, q, e, k)
    | inr (b, q) ↦ omega (arith, p, q, e, k, a)
  ]
]

-- The head moved by one.
next_place : (h i n : ℕ) → h < n → i < n → ((h + 1) % n + i) % n ≡ (h + suc i) % n
next_place h i n l k = elim (dec_lt (h + 1) n) [
  | yes x ↦ ap (λ (t : ℕ). (t + i) % n) (mod-eq_of_lt x) ∙ ap (λ (t : ℕ). t % n) (omega arith)
  | no x ↦
      ap (λ (t : ℕ). (t + i) % n) (wrap (h + 1) n (omega (arith, x)) (omega (arith, l, k)))
      ∙ sym (add-mod_right (h + 1 - n + i) n)
      ∙ ap (λ (t : ℕ). t % n) (omega (arith, x, l))
]

-- The places before the one written keep their messages.
contents_from-put :
    (mb : Kmbox) (msg i n : ℕ)
    → IsRing mb
    → i + n ≤ mb.count
    → mb.count < mb.capacity
    → contents_from (put_msg msg mb) i n ≡ contents_from mb i n
unfolding contents_from put_msg
contents_from-put mb msg i zero r h l = refl
contents_from-put mb msg i (suc n) r h l =
    ap₂ (λ (x : ℕ) t. x ∷ t)
      (update-other mb.msgs mb.tail ((mb.head + i) % mb.capacity) msg (λ e.
        places_differ mb.head i mb.count mb.capacity r.head_in (omega (arith, h)) l
          (sym e ∙ r.tail_at)))
      (contents_from-put mb msg (suc i) n r (omega (arith, h)) l)

contents_from_last :
    (mb : Kmbox) (i n : ℕ)
    → contents_from mb i (suc n)
      ≡ contents_from mb i n ++ (mb.msgs ((mb.head + (i + n)) % mb.capacity) ∷ [])
unfolding contents_from
contents_from_last mb i zero =
    ap (λ (t : ℕ). mb.msgs ((mb.head + t) % mb.capacity) ∷ []) {y = i + 0} (omega arith)
contents_from_last mb i (suc n) =
    ap (λ t. mb.msgs ((mb.head + i) % mb.capacity) ∷ t)
      (contents_from_last mb (suc i) n
        ∙ ap (λ (t : ℕ). contents_from mb (suc i) n ++ (mb.msgs ((mb.head + t) % mb.capacity) ∷ []))
            {y = i + suc n} (omega arith))

put_msg-last :
    (msg : ℕ) (mb : Kmbox)
    → IsRing mb
    → (put_msg msg mb).msgs (((put_msg msg mb).head + (0 + mb.count)) % (put_msg msg mb).capacity)
      ≡ msg
unfolding put_msg
put_msg-last msg mb r =
    ap (λ (t : ℕ). update mb.msgs mb.tail msg ((mb.head + t) % mb.capacity)) {y = mb.count}
      (omega arith)
    ∙ ap (update mb.msgs mb.tail msg) (sym r.tail_at)
    ∙ update_self mb.msgs mb.tail msg

put_msg-count : (msg : ℕ) (mb : Kmbox) → (put_msg msg mb).count ≡ add32 mb.count 1
unfolding put_msg
put_msg-count msg mb = refl

-- Posting into a mailbox with a free place appends the message to the queue.
pub put_msg-contents :
    (msg : ℕ) (mb : Kmbox)
    → IsRing mb
    → mb.count < mb.capacity
    → IsRing (put_msg msg mb) × (contents (put_msg msg mb) ≡ contents mb ++ (msg ∷ []))
put_msg-contents msg mb r l =
    let one_more : add32 mb.count 1 ≡ suc mb.count = omega (arith, l, r.few_places) in
    let after = put_msg msg mb in
    let tail_in : mb.tail < mb.capacity =
      subst (λ (t : ℕ). t < mb.capacity) (sym r.tail_at)
        (mod-lt (mb.head + mb.count) r.some_place) in
    (
      unfold put_msg in
          record {
            some_place = r.some_place;
            few_places = r.few_places;
            head_in = r.head_in;
            filled = omega (arith, one_more, l);
            tail_at =
                ap (λ (t : ℕ). t % mb.capacity) {y = mb.tail + 1}
                  (omega (arith, tail_in, r.few_places))
                ∙ ap (λ (t : ℕ). (t + 1) % mb.capacity) r.tail_at
                ∙ next_count mb l
                ∙ ap (λ (t : ℕ). (mb.head + t) % mb.capacity) (sym one_more);
          },
      unfold contents in
          (ap (contents_from after 0) (put_msg-count msg mb ∙ one_more)
            ∙ contents_from_last after 0 mb.count
            ∙ ap₂ (λ t (x : ℕ). t ++ (x ∷ []))
                (contents_from-put mb msg 0 mb.count r (omega arith) l) (put_msg-last msg mb r)),
    )
  where
    next_count :
        (mb : Kmbox)
        → mb.count < mb.capacity
        → ((mb.head + mb.count) % mb.capacity + 1) % mb.capacity
          ≡ (mb.head + suc mb.count) % mb.capacity
    next_count mb l =
        ap (λ (t : ℕ). t % mb.capacity) {y = 1 + (mb.head + mb.count) % mb.capacity} (omega arith)
        ∙ add-mod-mod 1 (mb.head + mb.count) mb.capacity
        ∙ ap (λ (t : ℕ). t % mb.capacity) (omega arith)

contents_from-take :
    (mb : Kmbox) (i n : ℕ)
    → IsRing mb
    → i + n < mb.capacity
    → contents_from (take_msg mb).1 i n ≡ contents_from mb (suc i) n
unfolding contents_from take_msg
contents_from-take mb i zero r h = refl
contents_from-take mb i (suc n) r h =
    let moved : add32 mb.head 1 ≡ mb.head + 1 = omega (arith, r.head_in, r.few_places) in
    ap₂ (λ (x : ℕ) t. x ∷ t)
      (ap mb.msgs (
        ap (λ (t : ℕ). (t % mb.capacity + i) % mb.capacity) moved
        ∙ next_place mb.head i mb.capacity r.head_in (omega (arith, h))))
      (contents_from-take mb (suc i) n r (omega (arith, h)))

-- Fetching from a mailbox that holds a message takes the oldest.
pub take_msg-contents :
    (mb : Kmbox)
    → IsRing mb
    → 1 ≤ mb.count
    → IsRing (take_msg mb).1 × (contents mb ≡ (take_msg mb).0 ∷ contents (take_msg mb).1)
unfolding contents
take_msg-contents mb r l =
    let less : suc (sub32 mb.count 1) ≡ mb.count = omega (arith, l, r.filled, r.few_places) in
    let moved : add32 mb.head 1 ≡ mb.head + 1 = omega (arith, r.head_in, r.few_places) in
    (
      unfold take_msg in
          record {
            some_place = r.some_place;
            few_places = r.few_places;
            head_in = mod-lt (add32 mb.head 1) r.some_place;
            filled = omega (arith, less, r.filled);
            tail_at =
                r.tail_at
                ∙ ap (λ (t : ℕ). (mb.head + t) % mb.capacity) (sym less)
                ∙ sym (
                    next_place mb.head (sub32 mb.count 1) mb.capacity r.head_in
                      (omega (arith, less, r.filled)))
                ∙ ap (λ (t : ℕ). (t % mb.capacity + sub32 mb.count 1) % mb.capacity) (sym moved);
          },
      ap (contents_from mb 0) (sym less)
          ∙ (unfold contents_from take_msg in
              ap₂ (λ (x : ℕ) t. x ∷ t)
                (ap mb.msgs (
                  ap (λ (t : ℕ). t % mb.capacity) {y = mb.head} (omega arith)
                  ∙ mod-eq_of_lt r.head_in))
                (sym
                  (contents_from-take mb 0 (sub32 mb.count 1) r (omega (arith, less, r.filled))))),
    )
