-- ===== src/Heap/Buddy.antt =====
-- The arithmetic of buddies: a block of order `k` is aligned to its size, and with its buddy it
-- makes up an aligned block of order `k + 1`.
use native.Mathlib.Nat.{
  two-pow-succ, mul_assoc, lt_of_mul-lt-mul_right, mul-le-mul_right, div-eq_of_eq-mul_left,
}
use adr_os.Prelude.{
  ℕ, zero, suc, ◌+◌, ◌-◌, ◌*◌, ◌/◌, ◌%◌, ◌^◌, ◌≤◌, ◌<◌, ◌≡◌, refl, sym, ap, ◌∙◌, bit_xor, some,
  arith, dec_lt,
}
use adr_os.Prelude.Bits.{bit_xor-pow}
use adr_os.Heap.{heap_size, max_order, buddy_of}

abbrev pub Aligned : ℕ → ℕ → Type 0
Aligned o k = (q : ℕ) × (o ≡ q * 2 ^ k)

pub pow_pos : (k : ℕ) → 0 < 2 ^ k
pow_pos zero = omega arith
pow_pos (suc k) = omega (arith, two-pow-succ k, pow_pos k)

pow-add : (a b : ℕ) → 2 ^ (a + b) ≡ 2 ^ a * 2 ^ b
pow-add zero b =
    let e : 0 + b ≡ b = omega arith in
    let f : 2 ^ b ≡ 1 * 2 ^ b = omega arith in ap (λ t. 2 ^ t) e ∙ f
pow-add (suc a) b =
    let e : suc a + b ≡ suc (a + b) = omega arith in
    let f = ap (λ t. t * 2 ^ b) (two-pow-succ a) in
    let g : 2 ^ suc (a + b) ≡ 2 ^ suc a * 2 ^ b =
      omega (arith, two-pow-succ (a + b), pow-add a b, f) in
    ap (λ t. 2 ^ t) e ∙ g

pub pow_le : (k n : ℕ) → k ≤ n → 2 ^ n ≡ 2 ^ (n - k) * 2 ^ k
pow_le k n h = let e : n ≡ (n - k) + k = omega arith in ap (λ t. 2 ^ t) e ∙ pow-add (n - k) k

-- Alignment to a larger size is alignment to a smaller one.
pub Aligned-down : {o : ℕ} (k n : ℕ) → k ≤ n → Aligned o n → Aligned o k
Aligned-down k n h (q, e) =
    (q * 2 ^ (n - k), e ∙ ap (λ t. q * t) (pow_le k n h) ∙ sym (mul_assoc q (2 ^ (n - k)) (2 ^ k)))

-- An aligned offset inside an aligned block of the same size is its start.
pub Aligned-start : (o b k : ℕ) → Aligned o k → Aligned b k → o ≤ b → b < o + 2 ^ k → o ≡ b
Aligned-start o b k (q, e) (r, f) h l =
    let a : r < q + 1 = lt_of_mul-lt-mul_right (2 ^ k) (omega arith) in
    let c : q < r + 1 = lt_of_mul-lt-mul_right (2 ^ k) (omega (arith, pow_pos k)) in
    let same : q ≡ r = omega arith in e ∙ ap (λ t. t * 2 ^ k) same ∙ sym f

-- The two halves of an aligned block of order `k + 1`.
pub data Buddies (k o b : ℕ) : Type 0 where
  below : (q : ℕ) → o ≡ q * 2 ^ suc k → b ≡ o + 2 ^ k → Buddies k o b
  above : (q : ℕ) → b ≡ q * 2 ^ suc k → o ≡ b + 2 ^ k → Buddies k o b

-- An aligned block of a larger order that meets an aligned block holds it.
block_within :
    (k n t x c : ℕ)
    → Aligned t k
    → Aligned c n
    → k ≤ n
    → c ≤ x
    → x < c + 2 ^ n
    → t ≤ x
    → x < t + 2 ^ k
    → (c ≤ t) × (t + 2 ^ k ≤ c + 2 ^ n)
block_within k n t x c (q, e) a h l u l' u' =
    let m : ℕ = 2 ^ (n - k) in
    let (r, f) = Aligned-down k n h a in
    let size : (r + m) * 2 ^ k ≡ c + 2 ^ n = omega (arith, f, pow_le k n h) in
    let low : r < q + 1 = lt_of_mul-lt-mul_right (2 ^ k) (omega (arith, e, f)) in
    let high : q < r + m = lt_of_mul-lt-mul_right (2 ^ k) (omega (arith, e, size)) in
    let low' : r * 2 ^ k ≤ q * 2 ^ k = mul-le-mul_right (2 ^ k) (omega (arith, low)) in
    let high' : (q + 1) * 2 ^ k ≤ (r + m) * 2 ^ k =
      mul-le-mul_right (2 ^ k) (omega (arith, high)) in
    (omega (arith, e, f, low'), omega (arith, e, size, high'))

-- A block of order `n > k` that holds one half of a pair holds the other.
pub Buddies-within :
    (k n o b c : ℕ)
    → Buddies k o b
    → Aligned c n
    → k < n
    → c ≤ b
    → b < c + 2 ^ n
    → (c ≤ o) × (o < c + 2 ^ n)
Buddies-within k n o b c (below q e f) a h l u =
    let w =
      block_within (suc k) n o b c (q, e) a h l u (omega arith)
        (omega (arith, f, two-pow-succ k, pow_pos k)) in
    (w.0, omega (arith, w.1, two-pow-succ k, pow_pos k))
Buddies-within k n o b c (above q e f) a h l u =
    let w =
      block_within (suc k) n b b c (q, e) a h l u (omega arith)
        (omega (arith, two-pow-succ k, pow_pos k)) in
    (omega (arith, w.0, f), omega (arith, w.1, f, two-pow-succ k, pow_pos k))

buddy_of-eq : (o k b : ℕ) → bit_xor o (2 ^ k) ≡ b → b < heap_size → buddy_of o k ≡ some b
unfolding buddy_of
buddy_of-eq o k b x s = ground arith

-- `buddy_of` finds the buddy of every block but the whole heap.
pub buddy_of_lem :
    (o k : ℕ)
    → Aligned o k
    → k < max_order
    → o + 2 ^ k ≤ heap_size
    → (b : ℕ) × (buddy_of o k ≡ some b) × Buddies k o b × (b + 2 ^ k ≤ heap_size)
buddy_of_lem o k (q, e) h l = elim (dec_lt (q % 2) 1) [
  | yes z ↦
      let even : q % 2 ≡ 0 = omega arith in
      let x : bit_xor o (2 ^ k) ≡ o + 2 ^ k = (bit_xor-pow k o).0 (ap (λ t. t % 2) digit ∙ even) in
      let i : o ≡ q / 2 * 2 ^ suc k =
        omega (arith, e, double (q / 2), ap (λ t. t * 2 ^ k) (halves even)) in
      let fits : o + 2 ^ suc k ≤ heap_size = pair_fits (q / 2) o i (omega (arith, pow_pos k)) in
      let r : o + 2 ^ k + 2 ^ k ≤ heap_size = omega (arith, fits, two-pow-succ k) in
      (o + 2 ^ k, found (o + 2 ^ k) x (omega (arith, r, pow_pos k)), below (q / 2) i refl, r)
  | no z ↦
      let odd : q % 2 ≡ 1 = omega arith in
      let x : bit_xor o (2 ^ k) + 2 ^ k ≡ o = (bit_xor-pow k o).1 (ap (λ t. t % 2) digit ∙ odd) in
      let b = bit_xor o (2 ^ k) in
      let i : b ≡ q / 2 * 2 ^ suc k =
        omega (arith, e, x, double (q / 2), ap (λ t. t * 2 ^ k) (halves odd)) in
      (b, found b refl (omega (arith, x, pow_pos k)), above (q / 2) i (sym x), omega (arith, x))
]
  where
    digit : o / 2 ^ k ≡ q
    digit = div-eq_of_eq-mul_left (pow_pos k) e

    halves : {d : ℕ} → q % 2 ≡ d → q ≡ 2 * (q / 2) + d
    halves {d} p = omega arith

    double : (i : ℕ) → i * 2 ^ suc k ≡ 2 * (i * 2 ^ k)
    double i = omega (arith, ap (λ t. i * t) (two-pow-succ k))

    found : (b : ℕ) → bit_xor o (2 ^ k) ≡ b → b < heap_size → buddy_of o k ≡ some b
    found b x s = buddy_of-eq o k b x s

    pair_fits : (i t : ℕ) → t ≡ i * 2 ^ suc k → t < heap_size → t + 2 ^ suc k ≤ heap_size
    pair_fits i t f s =
        (block_within (suc k) max_order t t 0 (i, f) (0, refl) h (omega arith) s (omega arith)
          (omega (arith, pow_pos (suc k)))).1

-- The lower half is aligned to the pair, and each half to its own size.
pub half-Aligned : (t k : ℕ) → Aligned t (suc k) → Aligned t k × Aligned (t + 2 ^ k) k
half-Aligned t k (q, e) =
    let d : q * 2 ^ suc k ≡ 2 * (q * 2 ^ k) = omega (arith, ap (λ t. q * t) (two-pow-succ k)) in
    ((2 * q, omega (arith, e, d)), (2 * q + 1, omega (arith, e, d)))

pub Buddies-Aligned : (k o b : ℕ) → Buddies k o b → Aligned b k
Buddies-Aligned k o b (below q e f) = let a = (half-Aligned o k (q, e)).1 in (a.0, f ∙ a.1)
Buddies-Aligned k o b (above q e f) = (half-Aligned b k (q, e)).0
