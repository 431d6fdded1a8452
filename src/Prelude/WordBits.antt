-- ===== src/Prelude/WordBits.antt =====
-- Single bits of a word: setting one with `|`, clearing one with `& ~`, testing one with `&`.
use Prim.Native.Nat.{
  ℕ, zero, suc, ◌+◌, ◌-◌, ◌*◌, ◌/◌, ◌%◌, ◌^◌, ◌≤◌, ◌<◌, min, max, bit_and, bit_or, bit_or-bitwise,
}
use mathlib.Core.Path.{◌≡◌, refl, sym, ◌∙◌, ap, ap₂}
use mathlib.Core.Bool.{Bool, true, false, not}
use native.Mathlib.Nat.{two-pow-succ, pow-succ', div-div-eq-div-mul}
use native.Mathlib.Omega.{arith}
use adr_os.Prelude.Tests.{◌==◌, if◌then◌else◌}
use adr_os.Prelude.Bits.{bit_and_digit, bit_and-zero, one_digit}

-- the digit of weight `2 ^ j`
abbrev pub digit : ℕ → ℕ → ℕ
digit b j = b / 2 ^ j % 2

pub digit-suc : (b j : ℕ) → digit b (suc j) ≡ digit (b / 2) j
digit-suc b j =
    ap (λ x. x % 2) (ap (λ x. b / x) (pow-succ' 2 j) ∙ sym (div-div-eq-div-mul b 2 (2 ^ j)))

bit_or_digit : (a b : ℕ) → bit_or a b ≡ bit_or (a / 2) (b / 2) * 2 + max (a % 2) (b % 2)
bit_or_digit zero b = simp bit_or-bitwise (omega arith)
bit_or_digit (suc a) b = simp bit_or-bitwise (one_digit (λ y. y) max a b)

digit-bit_and : (j a b : ℕ) → digit (bit_and a b) j ≡ min (digit a j) (digit b j)
digit-bit_and zero a b = omega (arith, bit_and_digit a b)
digit-bit_and (suc j) a b =
    digit-suc (bit_and a b) j
    ∙ ap (λ x. digit x j) half
    ∙ digit-bit_and j (a / 2) (b / 2)
    ∙ sym (ap₂ min (digit-suc a j) (digit-suc b j))
  where
    half : bit_and a b / 2 ≡ bit_and (a / 2) (b / 2)
    half = omega (arith, bit_and_digit a b)

digit-bit_or : (j a b : ℕ) → digit (bit_or a b) j ≡ max (digit a j) (digit b j)
digit-bit_or zero a b = omega (arith, bit_or_digit a b)
digit-bit_or (suc j) a b =
    digit-suc (bit_or a b) j
    ∙ ap (λ x. digit x j) half
    ∙ digit-bit_or j (a / 2) (b / 2)
    ∙ sym (ap₂ max (digit-suc a j) (digit-suc b j))
  where
    half : bit_or a b / 2 ≡ bit_or (a / 2) (b / 2)
    half = omega (arith, bit_or_digit a b)

digit-zero : (j : ℕ) → digit 0 j ≡ 0
digit-zero zero = refl
digit-zero (suc j) = digit-suc 0 j ∙ digit-zero j

zero_suc : (a b j : ℕ) → (if 0 == suc j then a else b) ≡ b
zero_suc a b j = ground arith

suc_zero : (a b k : ℕ) → (if suc k == 0 then a else b) ≡ b
suc_zero a b k = ground arith

suc-suc : (a b k j : ℕ) → (if suc k == suc j then a else b) ≡ (if k == j then a else b)
suc-suc a b k j = ground arith

-- The digits of a power of two.
digit-pow : (k j : ℕ) → digit (2 ^ k) j ≡ (if k == j then 1 else 0)
digit-pow zero zero = refl
digit-pow zero (suc j) = omega (arith, digit-suc 1 j, digit-zero j, zero_suc 1 0 j)
digit-pow (suc k) zero = omega (arith, two-pow-succ k, suc_zero 1 0 k)
digit-pow (suc k) (suc j) =
    digit-suc (2 ^ suc k) j ∙ ap (λ x. digit x j) half ∙ digit-pow k j ∙ sym (suc-suc 1 0 k j)
  where
    half : 2 ^ suc k / 2 ≡ 2 ^ k
    half = omega (arith, two-pow-succ k)

pow-pos : (n : ℕ) → 1 ≤ 2 ^ n
pow-pos zero = omega arith
pow-pos (suc n) = omega (arith, two-pow-succ n, pow-pos n)

pub pow-lt : (k n : ℕ) → k < n → 2 ^ k < 2 ^ n
pow-lt k zero h = absurd (omega arith)
pow-lt zero (suc n) h = omega (arith, two-pow-succ n, pow-pos n)
pow-lt (suc k) (suc n) h = omega (arith, two-pow-succ n, two-pow-succ k, pow-lt k n (omega arith))

-- `2 ^ n - 1` has the digits below `n`.
digit-ones : (n j : ℕ) → j < n → digit (2 ^ n - 1) j ≡ 1
digit-ones zero j h = absurd (omega arith)
digit-ones (suc n) zero h = omega (arith, two-pow-succ n, pow-pos n)
digit-ones (suc n) (suc j) h =
    digit-suc (2 ^ suc n - 1) j ∙ ap (λ x. digit x j) half ∙ digit-ones n j (omega arith)
  where
    half : (2 ^ suc n - 1) / 2 ≡ 2 ^ n - 1
    half = omega (arith, two-pow-succ n, pow-pos n)

-- The mask `~(1 << k)` of `n` bits.
digit-mask : (n k j : ℕ) → k < n → j < n → digit (2 ^ n - 1 - 2 ^ k) j ≡ (if k == j then 0 else 1)
digit-mask zero k j h i = absurd (omega arith)
digit-mask (suc n) zero zero h i = omega (arith, two-pow-succ n, pow-pos n)
digit-mask (suc n) (suc k) zero h i =
    omega (arith, two-pow-succ n, two-pow-succ k, pow-lt k n (omega arith), suc_zero 0 1 k)
digit-mask (suc n) zero (suc j) h i =
    digit-suc (2 ^ suc n - 1 - 2 ^ 0) j
    ∙ ap (λ x. digit x j) half
    ∙ digit-ones n j (omega arith)
    ∙ sym (zero_suc 0 1 j)
  where
    half : (2 ^ suc n - 1 - 1) / 2 ≡ 2 ^ n - 1
    half = omega (arith, two-pow-succ n, pow-pos n)
digit-mask (suc n) (suc k) (suc j) h i =
    digit-suc (2 ^ suc n - 1 - 2 ^ suc k) j
    ∙ ap (λ x. digit x j) half
    ∙ digit-mask n k j (omega arith) (omega arith)
    ∙ sym (suc-suc 0 1 k j)
  where
    half : (2 ^ suc n - 1 - 2 ^ suc k) / 2 ≡ 2 ^ n - 1 - 2 ^ k
    half = omega (arith, two-pow-succ n, two-pow-succ k, pow-lt k n (omega arith))

digit-lt : (b j : ℕ) → digit b j < 2
digit-lt b j = omega arith

-- `w & (1 << k)` as a test
abbrev pub test_bit : ℕ → ℕ → Bool
test_bit w k = not (bit_and w (2 ^ k) == 0)

twice : (d q r : ℕ) → d < 2 → r ≡ 2 * q → d * q * 2 ≡ d * r
twice zero q r h e = omega arith
twice (suc zero) q r h e = omega arith
twice (suc (suc d)) q r h e = absurd (omega arith)

min_zero : (d : ℕ) → min d 0 ≡ 0
min_zero d = omega arith

bit_and-pow : (k w : ℕ) → bit_and w (2 ^ k) ≡ digit w k * 2 ^ k
bit_and-pow zero w = omega (arith, bit_and_digit w 1, bit_and-zero (w / 2))
bit_and-pow (suc k) w =
    let half : 2 ^ suc k / 2 ≡ 2 ^ k = omega (arith, two-pow-succ k) in
    let even : 2 ^ suc k % 2 ≡ 0 = omega (arith, two-pow-succ k) in
    bit_and_digit w (2 ^ suc k)
    ∙ ap₂ (λ x y. bit_and (w / 2) x * 2 + min (w % 2) y) half even
    ∙ ap (λ x. x * 2 + min (w % 2) 0) (bit_and-pow k (w / 2))
    ∙ last
  where
    last : digit (w / 2) k * 2 ^ k * 2 + min (w % 2) 0 ≡ digit w (suc k) * 2 ^ suc k
    last = omega (
      arith,
      twice (digit (w / 2) k) (2 ^ k) (2 ^ suc k) (omega arith) (omega (arith, two-pow-succ k)),
      ap (λ x. x * 2 ^ suc k) (digit-suc w k),
      min_zero (w % 2),
    )

-- The test reads the digit.
pub test_bit-eq : (w k : ℕ) → test_bit w k ≡ (digit w k == 1)
test_bit-eq w k =
    scaled (digit w k) (2 ^ k) (bit_and w (2 ^ k)) (omega arith) (pow-pos k) (bit_and-pow k w)
  where
    scaled : (d q m : ℕ) → d < 2 → 1 ≤ q → m ≡ d * q → not (m == 0) ≡ (d == 1)
    scaled zero q m h p e = ground (arith, e)
    scaled (suc zero) q m h p e = ground (arith, e)
    scaled (suc (suc d)) q m h p e = absurd (omega arith)

-- `w |= 1 << k`
pub test_bit-or :
    (w k j : ℕ) → test_bit (bit_or w (2 ^ k)) j ≡ (if k == j then true else test_bit w j)
test_bit-or w k j =
    let d = digit-bit_or j w (2 ^ k) in
    let e = digit-pow k j in
    ground (
      arith,
      test_bit-eq (bit_or w (2 ^ k)) j,
      test_bit-eq w j,
      d,
      e,
      max_bit (digit w j) (digit-lt w j),
    )
  where
    max_bit : (d : ℕ) → d < 2 → (max d 0 ≡ d) × (max d 1 ≡ 1)
    max_bit zero h = (refl, refl)
    max_bit (suc zero) h = (refl, refl)
    max_bit (suc (suc d)) h = absurd (omega arith)

-- `w &= ~(1 << k)` in `n` bits
pub test_bit-mask :
    (n w k j : ℕ)
    → k < n
    → j < n
    → test_bit (bit_and w (2 ^ n - 1 - 2 ^ k)) j ≡ (if k == j then false else test_bit w j)
test_bit-mask n w k j h i =
    let d = digit-bit_and j w (2 ^ n - 1 - 2 ^ k) in
    let e = digit-mask n k j h i in
    ground (
      arith,
      test_bit-eq (bit_and w (2 ^ n - 1 - 2 ^ k)) j,
      test_bit-eq w j,
      d,
      e,
      min_bit (digit w j) (digit-lt w j),
    )
  where
    min_bit : (d : ℕ) → d < 2 → (min d 0 ≡ 0) × (min d 1 ≡ d)
    min_bit zero h = (refl, refl)
    min_bit (suc zero) h = (refl, refl)
    min_bit (suc (suc d)) h = absurd (omega arith)

-- A word of `n` bits with no bit set is 0.
pub no_bits : (n w : ℕ) → w < 2 ^ n → ((k : ℕ) → k < n → test_bit w k ≡ false) → w ≡ 0
no_bits n w h f = digits_zero n w h (λ k l. ground (arith, f k l, test_bit-eq w k, digit-lt w k))
  where
    digits_zero : (n w : ℕ) → w < 2 ^ n → ((k : ℕ) → k < n → digit w k ≡ 0) → w ≡ 0
    digits_zero zero w h f = omega arith
    digits_zero (suc n) w h f =
        let half : w / 2 ≡ 0 =
          digits_zero n (w / 2) (omega (arith, two-pow-succ n))
            (λ k l. sym (digit-suc w k) ∙ f (suc k) (omega arith)) in
        omega (arith, f 0 (omega arith))

-- Setting a bit below `n` keeps a word in `n` bits.
pub bit_or-lt : (n a b : ℕ) → a < 2 ^ n → b < 2 ^ n → bit_or a b < 2 ^ n
bit_or-lt zero a b h i = omega (arith, zeros a b (omega arith) (omega arith))
  where
    zeros : (a b : ℕ) → a ≡ 0 → b ≡ 0 → bit_or a b ≡ 0
    zeros a b p q = ap₂ bit_or p q
bit_or-lt (suc n) a b h i = omega (
  arith,
  two-pow-succ n,
  bit_or_digit a b,
  bit_or-lt n (a / 2) (b / 2) (omega (arith, two-pow-succ n)) (omega (arith, two-pow-succ n)),
  max_lt (a % 2) (b % 2) (omega arith) (omega arith),
)
  where
    max_lt : (c d : ℕ) → c < 2 → d < 2 → max c d < 2
    max_lt c d h i = omega arith

pub test_bit-zero : (k : ℕ) → test_bit 0 k ≡ false
test_bit-zero k = ground (arith, test_bit-eq 0 k, digit-zero k)
