-- ===== src/Heap/History.antt =====
-- The heap as its clients see it: the blocks that are out after any sequence of calls.
use adr_os.Prelude.{
  ℕ, ◌+◌, ◌^◌, ◌≤◌, ◌<◌, ◌≡◌, ◌≢◌, ◌⊎◌, inl, inr, refl, sym, ap, ◌∙◌, subst, Bool, true, false,
  List, [], ◌∷◌, arith, ◌==◌, if◌then◌else◌, ℕ_discrete, dec_lt, if_cases,
}
use adr_os.Heap.{
  Heap, Header, heap_size, header_size, init, kmalloc, kfree, null, pointer, user_pointer,
}
use adr_os.Heap.Inv.{IsValid, order_at, used}
use adr_os.Heap.Buddy.{pow_pos}
use adr_os.Heap.Boot.{init-IsValid, init-unused, root_only}
use adr_os.Heap.Malloc.{Granted, kmalloc-Granted, kmalloc_sound}
use adr_os.Heap.Free.{Returned, kfree-Returned}

-- A request that was granted: its block's offset and the bytes asked for.
abbrev pub Grant : Type 0
Grant = ℕ × ℕ

unfoldable pub is_out : List Grant → ℕ → Bool
is_out [] x = false
is_out ((o, size) ∷ out) x = if o == x then true else is_out out x

unfoldable pub give_up : ℕ → List Grant → List Grant
give_up x [] = []
give_up x ((o, size) ∷ out) = if o == x then out else (o, size) ∷ give_up x out

-- The calls so far, the last first. A client frees only what it holds, and asks for no more than
-- the heap can hold.
pub data History : Heap → List Grant → Type 0 where
  start : (memory : ℕ → Header) → History (init memory) []
  granted :
      {h : Heap} {out : List Grant}
      → (size o : ℕ) → History h out
      → 1 ≤ size
      → size + header_size ≤ heap_size
      → o < heap_size
      → (kmalloc size h).0 ≡ pointer (user_pointer o)
      → History (kmalloc size h).1 ((o, size) ∷ out)
  refused :
      {h : Heap} {out : List Grant}
      → (size : ℕ) → History h out
      → (kmalloc size h).0 ≡ null
      → History (kmalloc size h).1 out
  returned :
      {h : Heap} {out : List Grant}
      → (o : ℕ) → History h out
      → is_out out o ≡ true
      → History (kfree (user_pointer o) h).1 (give_up o out)

-- Two grants share no byte, headers included, and lie in the heap.
abbrev pub Clear : Grant → List Grant → Type 0
Clear g [] = Unit {0}
Clear (o, s) ((p, t) ∷ out) =
    ((o + header_size + s ≤ p) ⊎ (p + header_size + t ≤ o)) × Clear (o, s) out

abbrev pub Separate : List Grant → Type 0
Separate [] = Unit {0}
Separate ((o, s) ∷ out) = (o + header_size + s ≤ heap_size) × Clear (o, s) out × Separate out

-- Each grant has its block in the heap, large enough.
abbrev pub Backed : Heap → (ℕ → Bool) → List Grant → Type 0
Backed h live [] = Unit {0}
Backed h live ((o, s) ∷ out) =
    (used h live o ≡ true)
    × (s + header_size ≤ 2 ^ order_at h o)
    × (is_out out o ≡ false)
    × Backed h live out

pub record Tracked (h : Heap) (out : List Grant) (live : ℕ → Bool) : Type 0 where
  pub valid : IsValid h live
  pub exact : (x : ℕ) → used h live x ≡ is_out out x
  pub backed : Backed h live out

is_out-cons :
    (o s : ℕ) (out : List Grant) (x : ℕ)
    → is_out ((o, s) ∷ out) x ≡ (if o == x then true else is_out out x)
unfolding is_out
is_out-cons o s out x = refl

-- Grants other than the block `o` stay backed when other blocks in use are kept.
Backed-keep :
    (o : ℕ) (h h' : Heap) (live live' : ℕ → Bool) (out : List Grant)
    → ((x : ℕ) → o ≢ x → used h' live' x ≡ used h live x)
    → ((x : ℕ) → o ≢ x → used h live x ≡ true → order_at h' x ≡ order_at h x)
    → is_out out o ≡ false
    → Backed h live out
    → Backed h' live' out
Backed-keep o h h' live live' [] u w e b = tt
Backed-keep o h h' live live' ((p, s) ∷ out) u w e (a, room, fresh, rest) =
    let ne : o ≢ p = λ (q : o ≡ p). ground (arith, is_out-cons p s out o, e) in
    (
      u p ne ∙ a,
      subst (λ t. s + header_size ≤ 2 ^ t) (sym (w p ne a)) room,
      fresh,
      Backed-keep o h h' live live' out u w (ground (arith, is_out-cons p s out o, e)) rest,
    )

give_up-is_out :
    (h : Heap) (live : ℕ → Bool) (o : ℕ) (out : List Grant)
    → Backed h live out
    → (x : ℕ) → is_out (give_up o out) x ≡ (if o == x then false else is_out out x)
unfolding is_out give_up
give_up-is_out h live o [] b x = ground arith
give_up-is_out h live o ((p, s) ∷ out) (a, room, fresh, rest) x = ground (
  arith,
  fresh,
  give_up-is_out h live o out rest x,
  λ (e : p ≡ x). ap (is_out out) e,
  λ (e : p ≡ o). ap (is_out out) e,
)

equal : (a b : ℕ) → (a == b) ≡ true → a ≡ b
equal a b e = ground arith

unequal : (a b : ℕ) → (b == a) ≡ false → a ≢ b
unequal a b e = ground arith

give_up-Backed :
    (h h' : Heap) (live live' : ℕ → Bool) (o : ℕ) (out : List Grant)
    → ((x : ℕ) → o ≢ x → used h' live' x ≡ used h live x)
    → ((x : ℕ) → o ≢ x → used h live x ≡ true → order_at h' x ≡ order_at h x)
    → Backed h live out
    → Backed h' live' (give_up o out)
unfolding give_up
give_up-Backed h h' live live' o [] u w b = tt
give_up-Backed h h' live live' o ((p, s) ∷ out) u w (a, room, fresh, rest) =
    if_cases (Backed h' live') (p == o) _ _
      (λ e.
        Backed-keep o h h' live live' out u w
          (subst (λ t. is_out out t ≡ false) (equal p o e) fresh) rest)
      (λ ne.
        let other = unequal o p ne in
        (
          u p other ∙ a,
          subst (λ t. s + header_size ≤ 2 ^ t) (sym (w p other a)) room,
          give_up-is_out h live o out rest p ∙ ground (arith, fresh),
          give_up-Backed h h' live live' o out u w rest,
        ))

same_block : (o p : ℕ) → o < heap_size → p < heap_size → user_pointer o ≡ user_pointer p → o ≡ p
same_block o p a b e = omega arith

grant_Tracked :
    (h h' : Heap) (live live' : ℕ → Bool) (out : List Grant) (size o : ℕ)
    → Tracked h out live
    → Granted size h live o h' live'
    → Tracked h' ((o, size) ∷ out) live'
grant_Tracked h h' live live' out size o t g = record {
  valid = g.valid;
  exact = λ x. elim (ℕ_discrete o x) [
    | yes e ↦
        subst (λ t. used h' live' t ≡ is_out ((o, size) ∷ out) t) e
          (g.taken ∙ sym (is_out-cons o size out o ∙ ground arith))
    | no ne ↦ g.kept.same_use x ne ∙ t.exact x ∙ sym (is_out-cons o size out x ∙ ground arith)
  ];
  backed = (
    g.taken,
    g.room,
    sym (t.exact o) ∙ g.was_free,
    Backed-keep o h h' live live' out g.kept.same_use g.kept.same_order
        (sym (t.exact o) ∙ g.was_free) t.backed,
  );
}

return_Tracked :
    (h h' : Heap) (live live' : ℕ → Bool) (out : List Grant) (o : ℕ)
    → Tracked h out live
    → Returned h live o h' live'
    → Tracked h' (give_up o out) live'
return_Tracked h h' live live' out o t f = record {
  valid = f.valid;
  exact =
      λ x. f.same_use x ∙ sym (give_up-is_out h live o out t.backed x ∙ ground (arith, t.exact x));
  backed =
      give_up-Backed h h' live live' o out (λ x ne. f.same_use x ∙ ground arith) f.same_order
        t.backed;
}

-- After any history, the blocks in use are those of the grants that are out.
pub History-Tracked :
    {h : Heap} {out : List Grant} → History h out → (live : ℕ → Bool) × Tracked h out live
unfolding is_out
History-Tracked (start m) =
    (root_only, record { valid = init-IsValid m; exact = init-unused m; backed = tt })
History-Tracked (granted {h} {out} size o r pos small inside e) =
    let (live, t) = History-Tracked r in
    let (p, live', same, g) = kmalloc-Granted size h live t.valid pos small e in
    let s = g.valid.shape p (ground (arith, g.taken)) in
    let at : p ≡ o =
      same_block p o (omega (arith, s.fits, pow_pos (order_at (kmalloc size h).1 p))) inside
        (sym same) in
    (
      live',
      grant_Tracked h (kmalloc size h).1 live live' out size o t
          (subst (λ q. Granted size h live q (kmalloc size h).1 live') at g),
    )
History-Tracked (refused {h} {out} size r e) =
    let (live, t) = History-Tracked r in
    elim (kmalloc_sound size h live t.valid).1 [
      | inl got ↦ absurd (got e)
      | inr same ↦ (live, subst (λ g. Tracked g out live) (sym same) t)
    ]
History-Tracked (returned {h} {out} o r held_out) =
    let (live, t) = History-Tracked r in
    let (live', f) = (kfree-Returned o h live t.valid (t.exact o ∙ held_out)).1 in
    (live', return_Tracked h (kfree (user_pointer o) h).1 live live' out o t f)

module _ {h : Heap} {live : ℕ → Bool} (v : IsValid h live) where
  Backed-Clear :
      (o s : ℕ) (out : List Grant)
      → used h live o ≡ true
      → s + header_size ≤ 2 ^ order_at h o
      → is_out out o ≡ false
      → Backed h live out
      → Clear (o, s) out
  Backed-Clear o s [] u room f b = tt
  Backed-Clear o s ((p, t) ∷ out) u room f (a, room', fresh, rest) =
      let ne : o ≢ p = λ (q : o ≡ p). ground (arith, is_out-cons p t out o, f) in
      (
        elim (dec_lt o p) [
          | yes l ↦ inl (omega (arith, v.apart o p (ground (arith, u)) (ground (arith, a)) l))
          | no g ↦
              inr (omega (arith, v.apart p o (ground (arith, a)) (ground (arith, u)) (omega arith)))
        ],
        Backed-Clear o s out u room (ground (arith, is_out-cons p t out o, f)) rest,
      )

  Backed-Separate : (out : List Grant) → Backed h live out → Separate out
  Backed-Separate [] b = tt
  Backed-Separate ((o, s) ∷ out) (a, room, fresh, rest) = (
    omega (arith, (v.shape o (ground (arith, a))).fits),
    Backed-Clear o s out a room fresh rest,
    Backed-Separate out rest,
  )

-- After any history of calls in which each granted request is of 1 byte up to the size of the heap
-- less a header, and only grants that are out are freed, the grants that are out lie in the heap and
-- no two of them share a byte, counting each grant's header and the bytes that were asked for.
pub History-Separate : {h : Heap} {out : List Grant} → History h out → Separate out
History-Separate {h} {out} r =
    let (live, t) = History-Tracked r in Backed-Separate t.valid out t.backed
