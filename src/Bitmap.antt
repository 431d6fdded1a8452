-- ===== src/Bitmap.antt =====
-- The bit arrays of src/mm/pmm.c (`memory_bitmap`) and src/kernel/kva_alloc.c (`g_kva_bitmap`).
-- A bit array is an array of bytes; a byte that is read is taken modulo 256, as `uint8_t` is.
-- The two files differ in how they test a bit, and the children prove that both agree.
pub mod Laws
use adr_os.Prelude.{ℕ, ◌-◌, ◌/◌, ◌%◌, ◌^◌, bit_and, bit_or, Bool, not, ◌==◌, update}

-- `uint8_t bitmap[]`
abbrev pub Bytes : Type 0
Bytes = ℕ → ℕ

-- the byte that holds a bit
byte_of : Bytes → ℕ → ℕ
byte_of m bit = m (bit / 8) % 256

-- `b |= (1 << k)`
or_bit : ℕ → ℕ → ℕ
or_bit b k = bit_or b (2 ^ k) % 256

-- `b &= ~(1 << k)`, the complement being of a 32-bit `int`
clear_bit : ℕ → ℕ → ℕ
clear_bit b k = bit_and b (2 ^ 32 - 1 - 2 ^ k) % 256

-- `bitmap_set` of both files
unfoldable pub bitmap_set : Bytes → ℕ → Bytes
unfolding byte_of or_bit
bitmap_set m bit = update m (bit / 8) (or_bit (byte_of m bit) (bit % 8))

-- `bitmap_unset` of pmm.c, `bitmap_clear` of kva_alloc.c
unfoldable pub bitmap_unset : Bytes → ℕ → Bytes
unfolding byte_of clear_bit
bitmap_unset m bit = update m (bit / 8) (clear_bit (byte_of m bit) (bit % 8))

-- a masked byte is non-zero
has_bit : ℕ → ℕ → Bool
has_bit b k = not (bit_and b (2 ^ k) == 0)

-- `bitmap_test` of pmm.c: non-zero when the bit is set
unfoldable pub bitmap_test : Bytes → ℕ → Bool
unfolding byte_of has_bit
bitmap_test m bit = has_bit (byte_of m bit) (bit % 8)

-- `bitmap_test` of kva_alloc.c: the byte shifted down to its bit, `(b >> k) & 1`
unfoldable pub shifted_test : Bytes → ℕ → Bool
unfolding byte_of
shifted_test m bit = not (bit_and (byte_of m bit / 2 ^ (bit % 8)) 1 == 0)
