-- ===== src/Heap/Round.antt =====
-- One round of the loop of `kfree`: the block at hand and its free buddy become one block.
use adr_os.Prelude.{
  ℕ, suc, ◌+◌, ◌*◌, ◌^◌, ◌<◌, ◌≡◌, ◌≢◌, refl, ap, ◌∙◌, subst, Bool, true, false, arith, ◌==◌,
  if◌then◌else◌, update, inl, inr,
}
use adr_os.Heap.{Heap, Header, max_order, merge_step, lower}
use adr_os.Heap.Buddy.{Buddies, below, above, pow_pos}
use adr_os.Heap.Inv.{IsValid, held, order_at, free_at, used, set_free-order}
use adr_os.Heap.Merge.{Join, join-IsValid}

-- The blocks in use, but for the one at hand.
abbrev pub busy : ℕ → Heap → (ℕ → Bool) → ℕ → Bool
busy o h live x = if o == x then false else used h live x

pub record Settled (o : ℕ) (h : Heap) (live : ℕ → Bool) (o' : ℕ) (h' : Heap) (live' : ℕ → Bool)
    : Type 0 where
  pub same_use : (x : ℕ) → busy o' h' live' x ≡ busy o h live x
  pub same_order : (x : ℕ) → busy o h live x ≡ true → order_at h' x ≡ order_at h x

pub Settled-trans :
    {o o' o'' : ℕ} {h h' h'' : Heap} {live live' live'' : ℕ → Bool}
    → Settled o h live o' h' live'
    → Settled o' h' live' o'' h'' live''
    → Settled o h live o'' h'' live''
Settled-trans a b = record {
  same_use = λ x. b.same_use x ∙ a.same_use x;
  same_order = λ x u. b.same_order x (a.same_use x ∙ u) ∙ a.same_order x u;
}

-- A heap whose block at hand is off the lists, as the loop of `kfree` has it.
pub record AtHand (k o : ℕ) (h : Heap) (live : ℕ → Bool) : Type 0 where
  pub valid : IsValid (held o h) live
  pub starts : live o ≡ true
  pub sized : order_at h o ≡ k
  pub open_ : free_at h o ≡ true

module _ (k o b : ℕ) (h : Heap) (live : ℕ → Bool) (a : AtHand k o h live) (t : Buddies k o b)
    (l_b : live b ≡ true) (o_b : order_at h b ≡ k) (f_b : free_at h b ≡ true)
    (room : k < max_order) where
  -- the buddy below the block
  merge_below :
      (q : ℕ)
      → b ≡ q * 2 ^ suc k
      → o ≡ b + 2 ^ k
      → Join k b o b (held o h) (held b (merge_step k o b h))
  unfolding merge_step
  merge_below q e f = record {
    magic = ground (arith, pow_pos k);
    order = ground (arith, pow_pos k);
    free = ground (arith, pow_pos k);
    others = λ x p r. ground (arith, pow_pos k);
    list = ground arith;
    lists = λ n p. ground arith;
  }

  merge_above :
      (q : ℕ)
      → o ≡ q * 2 ^ suc k
      → b ≡ o + 2 ^ k
      → Join k o b b (held o h) (held o (merge_step k o b h))
  unfolding merge_step
  merge_above q e f = record {
    magic = ground (arith, pow_pos k);
    order = ground (arith, pow_pos k);
    free = ground (arith, pow_pos k);
    others = λ x p r. ground (arith, pow_pos k);
    list = ground arith;
    lists = λ n p. ground arith;
  }

  -- The lower half is at hand next, one order up, and the blocks in use are the same.
  abbrev pub Merged : ℕ → Type 0
  Merged lo =
      (live' : ℕ → Bool) × AtHand (suc k) lo (merge_step k o b h) live'
      × Settled o (held o h) live lo (held lo (merge_step k o b h)) live'

  Merged-below : (q : ℕ) → b ≡ q * 2 ^ suc k → o ≡ b + 2 ^ k → Merged b
  unfolding merge_step
  Merged-below q e f =
      let j = merge_below q e f in
      let g_b : free_at (held o h) b ≡ true = ground (arith, f_b, pow_pos k) in
      (
        update live o false,
        record {
          valid =
              join-IsValid k b o b (held o h) _ live j a.valid l_b a.starts
                (set_free-order o false h b ∙ o_b) (set_free-order o false h o ∙ a.sized) (q, e) f
                (inl (refl, ground arith)) room;
          starts = ground (arith, l_b, pow_pos k);
          sized = ground (arith, pow_pos k);
          open_ = ground (arith, f_b, pow_pos k);
        },
        record {
          same_use = λ x. ground (arith, pow_pos k, g_b, λ (s : b ≡ x). ap (free_at (held o h)) s);
          same_order = λ x u.
              order_ne j x (ground (arith, u, g_b, λ (s : b ≡ x). ap (free_at (held o h)) s))
                (ground (arith, u));
        },
      )
    where
      order_ne :
          Join k b o b (held o h) (held b (merge_step k o b h))
          → (x : ℕ) → b ≢ x
          → o ≢ x
          → order_at (held b (merge_step k o b h)) x ≡ order_at (held o h) x
      order_ne j x p q = ap (λ (t : Header). t.order) (j.others x p q)

  Merged-above : (q : ℕ) → o ≡ q * 2 ^ suc k → b ≡ o + 2 ^ k → Merged o
  unfolding merge_step
  Merged-above q e f =
      let j = merge_above q e f in
      let g_b : free_at (held o h) b ≡ true = ground (arith, f_b, pow_pos k) in
      (
        update live b false,
        record {
          valid =
              join-IsValid k o b b (held o h) _ live j a.valid a.starts l_b
                (set_free-order o false h o ∙ a.sized) (set_free-order o false h b ∙ o_b) (q, e) f
                (inr (refl, ground arith)) room;
          starts = ground (arith, a.starts, pow_pos k);
          sized = ground (arith, pow_pos k);
          open_ = ground (arith, a.open_, pow_pos k);
        },
        record {
          same_use = λ x. ground (arith, pow_pos k, g_b, λ (s : b ≡ x). ap (free_at (held o h)) s);
          same_order = λ x u.
              order_ne j x (ground (arith, u))
                (ground (arith, u, g_b, λ (s : b ≡ x). ap (free_at (held o h)) s));
        },
      )
    where
      order_ne :
          Join k o b b (held o h) (held o (merge_step k o b h))
          → (x : ℕ) → o ≢ x
          → b ≢ x
          → order_at (held o (merge_step k o b h)) x ≡ order_at (held o h) x
      order_ne j x p q = ap (λ (t : Header). t.order) (j.others x p q)

  pub merge-Merged : Merged (lower b o)
  merge-Merged = go t
    where
      go : Buddies k o b → Merged (lower b o)
      go (below q e f) = subst Merged (ground (arith, f, pow_pos k)) (Merged-above q e f)
      go (above q e f) = subst Merged (ground (arith, f, pow_pos k)) (Merged-below q e f)
