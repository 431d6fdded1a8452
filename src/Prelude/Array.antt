-- ===== src/Prelude/Array.antt =====
-- C arrays as functions of the index, and counting over an initial segment of one.
use Prim.Native.Nat.{ℕ, zero, suc, ◌+◌, ◌≤◌, ◌<◌}
use mathlib.Core.Path.{◌≡◌, refl}
use mathlib.Core.Logic.{◌≢◌, inl, inr}
use mathlib.Core.Option.{Option, none, some}
use mathlib.Core.Bool.{Bool, true, false}
use mathlib.Core.Path.{subst}
use native.Mathlib.Decide.{ℕ_discrete}
use native.Mathlib.Omega.{arith}
use adr_os.Prelude.Tests.{◌==◌, if◌then◌else◌, Bool-cases}

-- `a[i] = v`.
abbrev pub update {ℓ} : {A : Type ℓ} → (ℕ → A) → ℕ → A → ℕ → A
update a i v j = if i == j then v else a j

-- How many of the first `n` entries are true.
pub count_true : (ℕ → Bool) → ℕ → ℕ
count_true p zero = 0
count_true p (suc n) = (if p n then 1 else 0) + count_true p n

pub count_true-zero : (p : ℕ → Bool) → count_true p 0 ≡ 0
unfolding count_true
count_true-zero p = refl

pub count_true-le : (p : ℕ → Bool) (n : ℕ) → count_true p n ≤ n
unfolding count_true
count_true-le p zero = omega arith
count_true-le p (suc n) = ground (arith, count_true-le p n)

-- All entries true.
pub count_true-all : (p : ℕ → Bool) (n : ℕ) → ((i : ℕ) → p i ≡ true) → count_true p n ≡ n
unfolding count_true
count_true-all p zero h = refl
count_true-all p (suc n) h = ground (arith, h n, count_true-all p n h)

pub count_true-congr :
    (p q : ℕ → Bool) (n : ℕ) → ((j : ℕ) → j < n → p j ≡ q j) → count_true p n ≡ count_true q n
unfolding count_true
count_true-congr p q zero h = refl
count_true-congr p q (suc n) h =
    ground (arith, h n, count_true-congr p q n (λ j l. h j (omega arith)))

-- Turning one entry on adds one to the count.
pub count_true-on :
    (p q : ℕ → Bool) (i n : ℕ)
    → i < n
    → p i ≡ false
    → q i ≡ true
    → ((j : ℕ) → i ≢ j → p j ≡ q j)
    → count_true q n ≡ count_true p n + 1
unfolding count_true
count_true-on p q i zero l a b h = absurd (omega arith)
count_true-on p q i (suc n) l a b h = elim (ℕ_discrete i n) [
  | yes e ↦ last e
  | no e ↦ ground (arith, h n e, count_true-on p q i n (omega arith) a b h)
]
  where
    last : i ≡ n → count_true q (suc n) ≡ count_true p (suc n) + 1
    last e =
        let a' : p n ≡ false = subst (λ k. p k ≡ false) e a in
        let b' : q n ≡ true = subst (λ k. q k ≡ true) e b in
        ground (arith, a', b', count_true-congr p q n (λ j k. h j (omega arith)))

-- Some entry is false when the count falls short.
pub count_true-lt : (p : ℕ → Bool) (i n : ℕ) → i < n → p i ≡ false → count_true p n < n
unfolding count_true
count_true-lt p i zero l e = absurd (omega arith)
count_true-lt p i (suc n) l e = elim (ℕ_discrete i n) [
  | yes f ↦
      let e' : p n ≡ false = subst (λ k. p k ≡ false) f e in ground (arith, e', count_true-le p n)
  | no f ↦ ground (arith, count_true-lt p i n (omega arith) e)
]

pub update_self {ℓ} : {A : Type ℓ} (f : ℕ → A) (i : ℕ) (v : A) → update f i v i ≡ v
update_self f i v = ground arith

pub update-other {ℓ} : {A : Type ℓ} (f : ℕ → A) (i j : ℕ) (v : A) → i ≢ j → update f i v j ≡ f j
update-other f i j v h = ground (arith, h)

pub count_true-none : (n : ℕ) → count_true (λ z. false) n ≡ 0
unfolding count_true
count_true-none zero = refl
count_true-none (suc n) = ground (arith, count_true-none n)

-- One true entry counts at least one.
pub count_true-one : (p : ℕ → Bool) (i n : ℕ) → i < n → p i ≡ true → 1 ≤ count_true p n
unfolding count_true
count_true-one p i zero l a = absurd (omega arith)
count_true-one p i (suc n) l a = elim (ℕ_discrete i n) [
  | yes e ↦ let a' : p n ≡ true = subst (λ k. p k ≡ true) e a in ground (arith, a')
  | no e ↦ omega (arith, count_true-one p i n (omega arith) a)
]

-- Two true entries count at least two.
pub count_true-two :
    (p : ℕ → Bool) (i j n : ℕ) → i < j → j < n → p i ≡ true → p j ≡ true → 2 ≤ count_true p n
unfolding count_true
count_true-two p i j zero l m a b = absurd (omega arith)
count_true-two p i j (suc n) l m a b = elim (ℕ_discrete j n) [
  | yes e ↦
      let b' : p n ≡ true = subst (λ k. p k ≡ true) e b in
      ground (arith, b', count_true-one p i n (omega arith) a)
  | no e ↦ omega (arith, count_true-two p i j n l (omega arith) a b)
]

-- The first index that satisfies a test, of `n` from `i` on.
unfoldable pub first_true : (ℕ → Bool) → ℕ → ℕ → Option ℕ
first_true p zero i = none
first_true p (suc n) i = let rest = first_true p n (i + 1) in if p i then some i else rest

pub first_true-some :
    (p : ℕ → Bool) (n i j : ℕ) → first_true p n i ≡ some j → (i ≤ j) × (j < i + n) × (p j ≡ true)
unfolding first_true
first_true-some p zero i j e = cc
first_true-some p (suc n) i j e = elim (Bool-cases (p i)) [
  | inl t ↦
      let same : i ≡ j = ground (arith, t, e) in
      (omega (arith, same), omega (arith, same), subst (λ k. p k ≡ true) same t)
  | inr t ↦
      let (low, high, h) = first_true-some p n (i + 1) j (ground (arith, t, e)) in
      (omega (arith, low), omega (arith, high), h)
]
