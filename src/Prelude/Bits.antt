-- ===== src/Prelude/Bits.antt =====
-- Laws of the bit operations at variables: the lowest digit, masks, and exclusive or with a
-- power of two.
use Prim.Native.Nat.{
  ℕ, zero, suc, ◌+◌, ◌-◌, ◌*◌, ◌/◌, ◌%◌, ◌^◌, ◌≤◌, ◌<◌, min, digits, bitwise, bit_and, bit_xor,
  bit_and-bitwise, bit_xor-bitwise, differ,
}
use mathlib.Core.Path.{◌≡◌, refl, sym, ◌∙◌, ap, ap₂}
use native.Mathlib.Nat.{two-pow-succ, pow-succ', div-div-eq-div-mul}
use native.Mathlib.Omega.{arith}

-- The fuel of the digit recursion does not matter once it is enough.
enough_digits :
    (z : ℕ → ℕ) (f : ℕ → ℕ → ℕ) (n m a b : ℕ) → a ≤ n → a ≤ m → digits z f n a b ≡ digits z f m a b
enough_digits z f zero zero a b p q = refl
enough_digits z f (suc n) (suc m) (suc a) b p q =
    ap (λ t. t * 2 + f (suc a % 2) (b % 2))
      (enough_digits z f n m (suc a / 2) (b / 2) (omega arith) (omega arith))
enough_digits z f (suc n) (suc m) zero b p q = refl
enough_digits z f zero (suc m) zero b p q = refl
enough_digits z f (suc n) zero zero b p q = refl
enough_digits z f zero (suc m) (suc a) b p q = absurd (omega arith)
enough_digits z f (suc n) zero (suc a) b p q = absurd (omega arith)

pub one_digit :
    (z : ℕ → ℕ) (f : ℕ → ℕ → ℕ) (a b : ℕ)
    → bitwise z f (suc a) b ≡ bitwise z f (suc a / 2) (b / 2) * 2 + f (suc a % 2) (b % 2)
one_digit z f a b =
    ap (λ t. t * 2 + f (suc a % 2) (b % 2))
      (enough_digits z f a (suc a / 2) (suc a / 2) (b / 2) (omega arith) (omega arith))

pub bit_and_digit : (a b : ℕ) → bit_and a b ≡ bit_and (a / 2) (b / 2) * 2 + min (a % 2) (b % 2)
bit_and_digit zero b = simp bit_and-bitwise (omega arith)
bit_and_digit (suc a) b = simp bit_and-bitwise (one_digit (λ y. 0) min a b)

pub bit_xor_digit : (a b : ℕ) → bit_xor a b ≡ bit_xor (a / 2) (b / 2) * 2 + differ (a % 2) (b % 2)
bit_xor_digit zero b = simp bit_xor-bitwise (omega arith)
bit_xor_digit (suc a) b = simp bit_xor-bitwise (one_digit (λ y. y) differ a b)

zero-bit_and : (b : ℕ) → bit_and 0 b ≡ 0
zero-bit_and b = bit_and-bitwise 0 b

bit_and-le_fuel : (n a b : ℕ) → a ≤ n → bit_and a b ≤ a
bit_and-le_fuel n zero b h = omega (arith, zero-bit_and b)
bit_and-le_fuel (suc n) (suc a) b h =
    omega (arith, bit_and_digit (suc a) b, bit_and-le_fuel n (suc a / 2) (b / 2) (omega arith))
bit_and-le_fuel zero (suc a) b h = absurd (omega arith)

-- A mask only clears bits.
pub bit_and-le : (a b : ℕ) → bit_and a b ≤ a
bit_and-le a b = bit_and-le_fuel a a b (omega arith)

bit_xor-zero_fuel : (n a : ℕ) → a ≤ n → bit_xor a 0 ≡ a
bit_xor-zero_fuel n zero h = bit_xor-bitwise 0 0
bit_xor-zero_fuel (suc n) (suc a) h = omega (
  arith,
  bit_xor_digit (suc a) 0,
  bit_xor-zero_fuel n (suc a / 2) (omega arith),
  differ-zero (suc a % 2),
)
  where
    differ-zero : (d : ℕ) → differ d 0 ≡ d
    differ-zero zero = refl
    differ-zero (suc d) = refl
bit_xor-zero_fuel zero (suc a) h = absurd (omega arith)

differ-one : (d : ℕ) → d < 2 → differ d 1 ≡ 1 - d
differ-one zero h = refl
differ-one (suc zero) h = refl
differ-one (suc (suc d)) h = absurd (omega arith)

differ-zero_right : (d : ℕ) → differ d 0 ≡ d
differ-zero_right zero = refl
differ-zero_right (suc d) = refl

-- Exclusive or with one bit adds that power of two where the bit is clear, and takes it away
-- where it is set.
pub bit_xor-pow :
    (k a : ℕ)
    → (a / 2 ^ k % 2 ≡ 0 → bit_xor a (2 ^ k) ≡ a + 2 ^ k)
      × (a / 2 ^ k % 2 ≡ 1 → bit_xor a (2 ^ k) + 2 ^ k ≡ a)
bit_xor-pow zero a =
    let low = differ-one (a % 2) (omega arith) in
    let high = bit_xor-zero_fuel (a / 2) (a / 2) (omega arith) in
    (
      λ e. omega (arith, bit_xor_digit a 1, low, high),
      λ e. omega (arith, bit_xor_digit a 1, low, high),
    )
bit_xor-pow (suc k) a =
    let half : 2 ^ suc k / 2 ≡ 2 ^ k = omega (arith, two-pow-succ k) in
    let even : 2 ^ suc k % 2 ≡ 0 = omega (arith, two-pow-succ k) in
    let digit : bit_xor a (2 ^ suc k) ≡ bit_xor (a / 2) (2 ^ k) * 2 + a % 2 =
      bit_xor_digit a (2 ^ suc k)
      ∙ ap₂ (λ x y. bit_xor (a / 2) x * 2 + differ (a % 2) y) half even
      ∙ ap (λ y. bit_xor (a / 2) (2 ^ k) * 2 + y) (differ-zero_right (a % 2)) in
    let shift : a / 2 ^ suc k ≡ a / 2 / 2 ^ k =
      ap (λ x. a / x) (pow-succ' 2 k) ∙ sym (div-div-eq-div-mul a 2 (2 ^ k)) in
    let ih = bit_xor-pow k (a / 2) in
    (
      λ e. omega (arith, digit, ih.0 (ap (λ x. x % 2) (sym shift) ∙ e), two-pow-succ k),
      λ e. omega (arith, digit, ih.1 (ap (λ x. x % 2) (sym shift) ∙ e), two-pow-succ k),
    )

pub bit_and-zero : (a : ℕ) → bit_and a 0 ≡ 0
bit_and-zero a = zero_fuel a a (omega arith)
  where
    zero_fuel : (n a : ℕ) → a ≤ n → bit_and a 0 ≡ 0
    zero_fuel n zero h = zero-bit_and 0
    zero_fuel (suc n) (suc a) h =
        omega (arith, bit_and_digit (suc a) 0, zero_fuel n (suc a / 2) (omega arith))
    zero_fuel zero (suc a) h = absurd (omega arith)
