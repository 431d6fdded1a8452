-- ===== src/Utils.antt =====
-- src/kernel/utils.c: copies of memory and conversions of numbers. Memory is a function of the
-- address; a C string is the list of its bytes without the NUL. An `int` is its 32-bit pattern.
pub mod Memory
pub mod Reverse
pub mod Numbers
mod Tests
use adr_os.Prelude.{
  ℕ, zero, suc, ◌+◌, ◌-◌, ◌*◌, ◌/◌, ◌%◌, ◌^◌, Bool, true, false, not, ◌&&◌, ◌||◌, List, [], ◌∷◌,
  ◌++◌, if◌then◌else◌, ltb, leb, ◌==◌, length, get_or, set, update, add32, sub32, mul32,
}

abbrev pub Memory : Type 0
Memory = ℕ → ℕ

-- `while (n--) *d++ = *s++;`, the loop of `memcpy` too
pub copy_up : ℕ → ℕ → ℕ → Memory → Memory
copy_up zero d s m = m
copy_up (suc n) d s m = copy_up n (d + 1) (s + 1) (update m d (m s))

-- `while (n--) *--d = *--s;`, with `d` and `s` where the areas begin
pub copy_down : ℕ → ℕ → ℕ → Memory → Memory
copy_down zero d s m = m
copy_down (suc n) d s m = copy_down n d s (update m (d + n) (m (s + n)))

abbrev pub memcpy : ℕ → ℕ → ℕ → Memory → Memory
memcpy dst src n m = copy_up n dst src m

pub memmove : ℕ → ℕ → ℕ → Memory → Memory
memmove dst src n m = if ltb dst src then copy_up n dst src m else copy_down n dst src m

-- The loop of `reverse`, on as many rounds as the string has bytes.
unfoldable pub reverse_loop : ℕ → ℕ → ℕ → List ℕ → List ℕ
reverse_loop zero start end str = str
reverse_loop (suc n) start end str =
    let swapped = set (set str start (get_or str end 0)) end (get_or str start 0) in
    let rest = reverse_loop n (start + 1) (end - 1) swapped in if ltb start end then rest else str

-- `reverse`. For an empty string `end` is -1 in the source and 0 here, and no round is made.
unfoldable pub reverse : List ℕ → List ℕ
reverse str = reverse_loop (length str) 0 (length str - 1) str

-- `(rem > 9) ? (rem - 10) + 'a' : rem + '0'`, where the remainder of a negative number is negative
abbrev pub digit_char : Bool → ℕ → ℕ
digit_char true rem = 48 - rem
digit_char false rem = if ltb 9 rem then rem - 10 + 97 else rem + 48

-- `while (num != 0)`, on a number of size `num`; the quotient and the remainder are those of sizes.
unfoldable pub put_digits : ℕ → Bool → ℕ → ℕ → List ℕ
put_digits zero negative base num = []
put_digits (suc fuel) negative base num =
    let rest = put_digits fuel negative base (num / base) in
    if num == 0 then [] else digit_char negative (num % base) ∷ rest

-- The size of an `int`, and whether it is negative.
abbrev pub is_negative : ℕ → Bool
is_negative num = leb (2 ^ 31) num

abbrev pub size_of : ℕ → ℕ
size_of num = if is_negative num then 2 ^ 32 - num else num

-- `itoa`. For base 10 a negative number is negated, which leaves -2^31 what it is; 32 rounds are
-- enough for a base of 2 or more.
unfoldable pub itoa : ℕ → ℕ → List ℕ
itoa num base =
    let minus = is_negative num && (base == 10) in
    let still_negative = is_negative num && (not (base == 10) || (num == 2 ^ 31)) in
    let digits = put_digits 32 still_negative base (size_of num) in
    if num == 0 then 48 ∷ [] else reverse (if minus then digits ++ (45 ∷ []) else digits)

-- `str[i] >= '0' && str[i] <= '9'`
abbrev pub is_digit : ℕ → Bool
is_digit c = leb 48 c && leb c 57

-- The loop of `atoi`; other bytes are passed over.
unfoldable pub atoi_loop : List ℕ → ℕ → ℕ
atoi_loop [] res = res
atoi_loop (c ∷ str) res =
    atoi_loop str (if is_digit c then sub32 (add32 (mul32 res 10) c) 48 else res)

-- `atoi`: `sign * res`
unfoldable pub atoi : List ℕ → ℕ
atoi [] = 0
atoi (c ∷ str) = if c == 45 then sub32 0 (atoi_loop str 0) else atoi_loop (c ∷ str) 0

-- `hex_chars[num & 0xF]`
abbrev pub hex_char : ℕ → ℕ
hex_char d = if ltb 9 d then d - 10 + 65 else d + 48

-- The loop of `itoa_hex`, which fills the string from its end.
unfoldable pub hex_digits : ℕ → ℕ → List ℕ → List ℕ
hex_digits zero num str = str
hex_digits (suc n) num str = hex_digits n (num / 2 ^ 4) (hex_char (num % 2 ^ 4) ∷ str)

unfoldable pub itoa_hex : ℕ → List ℕ
itoa_hex num = 48 ∷ 120 ∷ hex_digits 8 num []
