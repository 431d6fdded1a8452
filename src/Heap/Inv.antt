-- ===== src/Heap/Inv.antt =====
-- The invariant of the heap: the blocks tile its 8 MB, each aligned to its size and with a true
-- header, and the free lists hold just the free ones, each once. `live` says where blocks start.
use adr_os.Prelude.{
  ℕ, ◌+◌, ◌^◌, ◌≤◌, ◌<◌, ◌≡◌, ◌≢◌, refl, sym, ap, ◌∙◌, subst, Bool, true, false, not, ◌&&◌, List,
  [], ◌∷◌, arith, ◌==◌, if◌then◌else◌, ℕ_discrete, dec_lt,
}
use adr_os.Heap.{Heap, heap_size, min_order, max_order, buddy_magic, fl_del, set_free}
use adr_os.Heap.Buddy.{
  Aligned, Aligned-down, Aligned-start, Buddies, Buddies-within, Buddies-Aligned, pow_pos,
}

abbrev pub order_at : Heap → ℕ → ℕ
order_at h o = (h.header o).order

abbrev pub free_at : Heap → ℕ → Bool
free_at h o = (h.header o).is_free

pub contains : List ℕ → ℕ → Bool
contains [] a = false
contains (x ∷ xs) a = if x == a then true else contains xs a

abbrev pub Distinct : List ℕ → Type 0
Distinct [] = Unit {0}
Distinct (x ∷ xs) = (contains xs x ≡ false) × Distinct xs

pub record Shape (h : Heap) (o : ℕ) : Type 0 where
  pub magic : (h.header o).magic ≡ buddy_magic
  pub low : min_order ≤ order_at h o
  pub high : order_at h o ≤ max_order
  pub aligned : Aligned o (order_at h o)
  pub fits : o + 2 ^ order_at h o ≤ heap_size

-- The block that holds an offset.
pub record Holds (h : Heap) (live : ℕ → Bool) (x o : ℕ) : Type 0 where
  pub starts : live o ≡ true
  pub from : o ≤ x
  pub upto : x < o + 2 ^ order_at h o

pub record IsValid (h : Heap) (live : ℕ → Bool) : Type 0 where
  pub shape : (o : ℕ) → live o ≡ true → Shape h o
  pub apart : (o p : ℕ) → live o ≡ true → live p ≡ true → o < p → o + 2 ^ order_at h o ≤ p
  pub cover : (x : ℕ) → x < heap_size → (o : ℕ) × Holds h live x o
  pub listed :
      (k o : ℕ) → contains (h.free_lists k) o ≡ (live o && (free_at h o && (order_at h o == k)))
  pub once : (k : ℕ) → Distinct (h.free_lists k)

-- The heap with a block marked as in use. `kmalloc` and `kfree` keep the block at hand off the
-- lists, so this is the heap of which the invariant holds halfway.
abbrev pub held : ℕ → Heap → Heap
held o h = set_free o false h

pub contains-fl_del :
    (b : ℕ) (xs : List ℕ) (a : ℕ)
    → Distinct xs
    → contains (fl_del b xs) a ≡ (if b == a then false else contains xs a)
unfolding contains fl_del
contains-fl_del b [] a d = ground arith
contains-fl_del b (x ∷ xs) a d = ground (
  arith,
  contains-fl_del b xs a d.1,
  λ (e : x ≡ b). subst (λ t. contains xs t ≡ false) e d.0,
  λ (e : b ≡ a). subst (λ t. contains xs b ≡ contains xs t) e refl,
)

pub Distinct-fl_del : (b : ℕ) (xs : List ℕ) → Distinct xs → Distinct (fl_del b xs)
unfolding fl_del
Distinct-fl_del b [] d = tt
Distinct-fl_del b (x ∷ xs) d = ground (arith, Distinct-fl_del b xs d.1, contains-fl_del b xs x d.1)

-- A block that starts inside another's range is that block.
pub Holds-same :
    {h : Heap} {live : ℕ → Bool} (x o p : ℕ)
    → IsValid h live
    → Holds h live x o
    → Holds h live x p
    → o ≡ p
Holds-same x o p v a b = elim (ℕ_discrete o p) [
  | yes e ↦ e
  | no ne ↦ elim (dec_lt o p) [
    | yes l ↦ absurd (omega (arith, v.apart o p a.starts b.starts l, a.upto, b.from))
    | no g ↦ absurd (omega (arith, v.apart p o b.starts a.starts (omega arith), b.upto, a.from))
  ]
]

-- The buddy of a block is the start of a block, of the same order or a smaller one.
pub buddy-live :
    {h : Heap} {live : ℕ → Bool} (o b : ℕ)
    → IsValid h live
    → live o ≡ true
    → Buddies (order_at h o) o b
    → b + 2 ^ order_at h o ≤ heap_size
    → (live b ≡ true) × (order_at h b ≤ order_at h o)
buddy-live {h} {live} o b v l t f =
    let k = order_at h o in
    let (c, hold) = v.cover b (omega (arith, pow_pos k)) in
    let n = order_at h c in
    let s = v.shape c hold.starts in
    elim (dec_lt k n) [
      | yes larger ↦
          let w = Buddies-within k n o b c t s.aligned larger hold.from hold.upto in
          let whole : Holds h live o o = record {
            starts = l;
            from = omega arith;
            upto = omega (arith, pow_pos k);
          } in
          let part : Holds h live o c = record { starts = hold.starts; from = w.0; upto = w.1 } in
          let same = Holds-same o o c v whole part in
          absurd (omega (arith, ap (order_at h) same, larger))
      | no smaller ↦
          let a = Aligned-down n k (omega arith) (Buddies-Aligned k o b t) in
          let same : c ≡ b = Aligned-start c b n s.aligned a hold.from hold.upto in
          (subst (λ p. live p ≡ true) same hold.starts, omega (arith, ap (order_at h) same))
    ]

pub contains-cons :
    (x : ℕ) (xs : List ℕ) (a : ℕ) → contains (x ∷ xs) a ≡ (if x == a then true else contains xs a)
unfolding contains
contains-cons x xs a = refl

pub contains-nil : (a : ℕ) → contains [] a ≡ false
unfolding contains
contains-nil a = refl

-- A block that the heap has given out.
abbrev pub used : Heap → (ℕ → Bool) → ℕ → Bool
used h live o = live o && not (free_at h o)

-- Apart from the block `o`, the blocks in use are the same, with the same orders.
pub record Kept (o : ℕ) (h : Heap) (live : ℕ → Bool) (h' : Heap) (live' : ℕ → Bool) : Type 0 where
  pub same_use : (x : ℕ) → o ≢ x → used h' live' x ≡ used h live x
  pub same_order : (x : ℕ) → o ≢ x → used h live x ≡ true → order_at h' x ≡ order_at h x

pub Kept-refl : (o : ℕ) (h : Heap) (live : ℕ → Bool) → Kept o h live h live
Kept-refl o h live = record { same_use = λ x p. refl; same_order = λ x p u. refl }

pub Kept-trans :
    {o : ℕ} {h h' h'' : Heap} {live live' live'' : ℕ → Bool}
    → Kept o h live h' live'
    → Kept o h' live' h'' live''
    → Kept o h live h'' live''
Kept-trans a b = record {
  same_use = λ x p. b.same_use x p ∙ a.same_use x p;
  same_order = λ x p u. b.same_order x p (a.same_use x p ∙ u) ∙ a.same_order x p u;
}

-- Two heaps with the same orders and the same magic numbers have the same tiling.
pub retile :
    {h g : Heap} {live : ℕ → Bool}
    → ((x : ℕ) → (g.header x).magic ≡ (h.header x).magic)
    → ((x : ℕ) → order_at g x ≡ order_at h x)
    → ((k o : ℕ) → contains (g.free_lists k) o ≡ (live o && (free_at g o && (order_at g o == k))))
    → ((k : ℕ) → Distinct (g.free_lists k))
    → IsValid h live
    → IsValid g live
retile {h} {g} {live} m s listed once v = record {
  shape = λ o l.
      let t = v.shape o l in
      record {
        magic = m o ∙ t.magic;
        low = omega (arith, s o, t.low);
        high = omega (arith, s o, t.high);
        aligned = subst (Aligned o) (sym (s o)) t.aligned;
        fits = omega (arith, width o, t.fits);
      };
  apart = λ o p lo lp lt. omega (arith, width o, v.apart o p lo lp lt);
  cover = λ x lt.
      let (c, hold) = v.cover x lt in
      (
        c,
        record { starts = hold.starts; from = hold.from; upto = omega (arith, width c, hold.upto) },
      );
  listed = listed;
  once = once;
}
  where
    width : (x : ℕ) → 2 ^ order_at g x ≡ 2 ^ order_at h x
    width x = ap (λ t. 2 ^ t) (s x)

pub set_free-order :
    (o : ℕ) (b : Bool) (h : Heap) (x : ℕ) → order_at (set_free o b h) x ≡ order_at h x
set_free-order o b h x = ground (arith, λ (e : o ≡ x). ap (order_at h) e)

pub set_free-magic :
    (o : ℕ) (b : Bool) (h : Heap) (x : ℕ) → ((set_free o b h).header x).magic ≡ (h.header x).magic
set_free-magic o b h x = ground (arith, λ (e : o ≡ x). ap (λ t. (h.header t).magic) e)

pub set_free-free :
    (o : ℕ) (b : Bool) (h : Heap) (x : ℕ)
    → free_at (set_free o b h) x ≡ (if o == x then b else free_at h x)
set_free-free o b h x = ground arith
