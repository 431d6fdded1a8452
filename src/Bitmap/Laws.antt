-- ===== src/Bitmap/Laws.antt =====
-- What a client may know of a bit array: reading a bit after a write, and that the two ways to
-- test a bit agree. The byte operations are checked over all bytes and all bit positions.
use adr_os.Prelude.{
  ℕ, zero, suc, ◌/◌, ◌%◌, ◌^◌, ◌<◌, bit_and, ◌≡◌, refl, ap, Bool, true, false, not, ◌&&◌, ◌==◌,
  if◌then◌else◌, arith, ℕ_discrete,
}
use adr_os.Bitmap.{
  Bytes, byte_of, or_bit, clear_bit, has_bit, bitmap_set, bitmap_unset, bitmap_test, shifted_test,
}

all_below : ℕ → (ℕ → Bool) → Bool
all_below zero p = true
all_below (suc n) p = p n && all_below n p

all_below_sound : (n : ℕ) (p : ℕ → Bool) → all_below n p ≡ true → (x : ℕ) → x < n → p x ≡ true
unfolding all_below
all_below_sound zero p h x lt = absurd (omega arith)
all_below_sound (suc n) p h x lt = elim (ℕ_discrete x n) [
  | yes e ↦ rw e (ground arith)
  | no e ↦ all_below_sound n p (ground arith) x (omega arith)
]

beq : Bool → Bool → Bool
beq true b = b
beq false b = not b

beq-eq : (a b : Bool) → beq a b ≡ true → a ≡ b
unfolding beq
beq-eq a b h = ground arith

-- After a write of bit `k`, bit `j` of the byte.
or_law : ℕ → ℕ → ℕ → Bool
unfolding beq has_bit or_bit
or_law b k j = beq (has_bit (or_bit b k % 256) j) (if k == j then true else has_bit b j)

clear_law : ℕ → ℕ → ℕ → Bool
unfolding beq has_bit clear_bit
clear_law b k j = beq (has_bit (clear_bit b k % 256) j) (if k == j then false else has_bit b j)

shift_law : ℕ → ℕ → Bool
unfolding beq has_bit
shift_law b k = beq (not (bit_and (b / 2 ^ k) 1 == 0)) (has_bit b k)

or_table : all_below 256 (λ b. all_below 8 (λ k. all_below 8 (or_law b k))) ≡ true
unfolding all_below or_law
or_table = refl

clear_table : all_below 256 (λ b. all_below 8 (λ k. all_below 8 (clear_law b k))) ≡ true
unfolding all_below clear_law
clear_table = refl

shift_table : all_below 256 (λ b. all_below 8 (shift_law b)) ≡ true
unfolding all_below shift_law
shift_table = refl

has_bit-or_bit :
    (b k j : ℕ)
    → b < 256
    → k < 8
    → j < 8
    → has_bit (or_bit b k % 256) j ≡ (if k == j then true else has_bit b j)
unfolding or_law
has_bit-or_bit b k j hb hk hj =
    beq-eq _ _
      (all_below_sound 8 _ (all_below_sound 8 _ (all_below_sound 256 _ or_table b hb) k hk) j hj)

has_bit-clear_bit :
    (b k j : ℕ)
    → b < 256
    → k < 8
    → j < 8
    → has_bit (clear_bit b k % 256) j ≡ (if k == j then false else has_bit b j)
unfolding clear_law
has_bit-clear_bit b k j hb hk hj =
    beq-eq _ _
      (all_below_sound 8 _ (all_below_sound 8 _ (all_below_sound 256 _ clear_table b hb) k hk) j hj)

same_bit : (i j : ℕ) → i / 8 ≡ j / 8 → i % 8 ≡ j % 8 → i ≡ j
same_bit i j p q = omega arith

module _ (m : Bytes) (i j : ℕ) where
  -- Setting bit `i` sets it, and leaves every other bit.
  pub bitmap_test-set : bitmap_test (bitmap_set m i) j ≡ (if i == j then true else bitmap_test m j)
  unfolding bitmap_test bitmap_set byte_of
  bitmap_test-set = elim (ℕ_discrete (i / 8) (j / 8)) [
    | yes e ↦ ground (
      arith,
      has_bit-or_bit (m (i / 8) % 256) (i % 8) (j % 8) (omega arith) (omega arith) (omega arith),
      same_bit i j e,
      ap m e,
    )
    | no e ↦ ground arith
  ]

  -- Clearing bit `i` clears it, and leaves every other bit.
  pub bitmap_test-unset :
      bitmap_test (bitmap_unset m i) j ≡ (if i == j then false else bitmap_test m j)
  unfolding bitmap_test bitmap_unset byte_of
  bitmap_test-unset = elim (ℕ_discrete (i / 8) (j / 8)) [
    | yes e ↦ ground (
      arith,
      has_bit-clear_bit (m (i / 8) % 256) (i % 8) (j % 8) (omega arith) (omega arith) (omega arith),
      same_bit i j e,
      ap m e,
    )
    | no e ↦ ground arith
  ]

-- Both files read a bit alike.
pub shifted_test-eq : (m : Bytes) (i : ℕ) → shifted_test m i ≡ bitmap_test m i
unfolding shifted_test bitmap_test byte_of shift_law
shifted_test-eq m i = beq-eq _ _ (
    all_below_sound 8 _ (all_below_sound 256 _ shift_table (m (i / 8) % 256) (omega arith)) (i % 8)
      (omega arith))

-- A bitmap of 0xff bytes has every bit set.
ones_table : all_below 8 (has_bit 0xff) ≡ true
unfolding all_below has_bit
ones_table = refl

pub bitmap_test-ones : (i : ℕ) → bitmap_test (λ byte. 0xff) i ≡ true
unfolding bitmap_test byte_of
bitmap_test-ones i = all_below_sound 8 _ ones_table (i % 8) (omega arith)
