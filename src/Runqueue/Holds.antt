-- ===== src/Runqueue/Holds.antt =====
-- When the runqueues hold given lists of processes.
use adr_os.Prelude.{
  ℕ, ◌^◌, ◌<◌, ◌≡◌, ◌⊎◌, inl, inr, Bool, true, false, List, [], ◌∷◌, ◌&&◌, ◌==◌, Bool-cases, arith,
  subst, subst₂, refl,
}
use adr_os.Prelude.WordBits.{test_bit, test_bit-zero}
use adr_os.Links.{Links, null, mem}
use adr_os.Links.Segment.{Segment, done, Distinct}
use adr_os.Runqueue.{Runqueues, num_prios, update2, init}

unfoldable pub nonempty : List ℕ → Bool
nonempty [] = false
nonempty (x ∷ xs) = true

-- `lists s k` is what waits in store `s` with priority `k`, the next to run first.
pub record Holds (r : Runqueues) (lists : ℕ → ℕ → List ℕ) : Type 0 where
  pub segment : (s k : ℕ) → Segment r.links null (r.head s k) (lists s k) (r.tail s k) null
  pub distinct : (s k : ℕ) → Distinct (lists s k)
  -- a process waits at one place only
  pub one_place :
      (z s k s' k' : ℕ)
      → mem z (lists s k) ≡ true
      → mem z (lists s' k') ≡ true
      → (s ≡ s') × (k ≡ k')
  -- the bitmap says which lists have a process
  pub bits : (s k : ℕ) → k < num_prios → test_bit (r.bitmap s) k ≡ nonempty (lists s k)
  pub word : (s : ℕ) → r.bitmap s < 2 ^ 32

pub update2_self {ℓ} : {A : Type ℓ} (f : ℕ → ℕ → A) (s k : ℕ) (v : A) → update2 f s k v s k ≡ v
update2_self f s k v = ground arith

pub update2-other {ℓ} :
    {A : Type ℓ} (f : ℕ → ℕ → A) (s k i j : ℕ) (v : A)
    → ((s == i) && (k == j)) ≡ false
    → update2 f s k v i j ≡ f i j
update2-other f s k i j v h = ground (arith, h)

-- A place is the one written, or another.
pub place_cases : (s k i j : ℕ) → ((s ≡ i) × (k ≡ j)) ⊎ (((s == i) && (k == j)) ≡ false)
place_cases s k i j = elim (Bool-cases ((s == i) && (k == j))) [
  | inl e ↦ inl (ground (arith, e), ground (arith, e))
  | inr e ↦ inr e
]

-- A property of every place, from the place written and the others.
pub by_place {ℓ} :
    (P : ℕ → ℕ → Type ℓ) (s k : ℕ)
    → P s k
    → ((i j : ℕ) → ((s == i) && (k == j)) ≡ false → P i j)
    → (i j : ℕ) → P i j
by_place P s k here there i j = elim (place_cases s k i j) [
  | inl e ↦ subst₂ P e.0 e.1 here
  | inr e ↦ there i j e
]

pub Segment-at :
    {l : Links} {b h h' t t' e : ℕ} {xs xs' : List ℕ}
    → h ≡ h'
    → xs ≡ xs'
    → t ≡ t'
    → Segment l b h xs t e
    → Segment l b h' xs' t' e
Segment-at {l} {b} {h' = h'} {t} {e} {xs' = xs'} a q c s =
    subst (λ k. Segment l b h' xs' k e) c (subst₂ (λ i zs. Segment l b i zs t e) a q s)

-- At boot nothing waits.
pub init-Holds : (memory : Links) → Holds (init memory) (λ s k. [])
unfolding init nonempty Distinct mem
init-Holds memory = record {
  segment = λ s k. done refl refl;
  distinct = λ s k. tt;
  one_place = λ z s k s' k' m m'. absurd (ground (arith, m));
  bits = λ s k l. test_bit-zero k;
  word = λ s. omega arith;
}
