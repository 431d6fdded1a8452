-- ===== src/Utils/Tests.antt =====
-- Runs of the conversions, and the claims at concrete values.
use adr_os.Prelude.{◌^◌, ◌-◌, ◌≡◌, refl, arith}
use adr_os.Prelude.Text.{codes}
use adr_os.Utils.{
  memmove, itoa, put_digits, reverse, reverse_loop, atoi, atoi_loop, itoa_hex, hex_digits,
}
use adr_os.Utils.Memory.{Copied, memmove-Copied}
use adr_os.Utils.Numbers.{atoi-itoa}

itoa_minus_42 : itoa (2 ^ 32 - 42) 10 ≡ codes "-42"
unfolding itoa put_digits reverse reverse_loop
itoa_minus_42 = refl

itoa_base_16 : itoa 48879 16 ≡ codes "beef"
unfolding itoa put_digits reverse reverse_loop
itoa_base_16 = refl

-- The lowest `int` stays negative, and so do its remainders.
itoa_lowest : itoa (2 ^ 31) 10 ≡ codes "-./,),(-*,("
unfolding itoa put_digits reverse reverse_loop
itoa_lowest = refl

hex : itoa_hex 0xBEEF ≡ codes "0x0000BEEF"
unfolding itoa_hex hex_digits
hex = refl

passes_letters : atoi (codes "1a2") ≡ 12
unfolding atoi atoi_loop
passes_letters = refl

atoi-itoa_example : atoi (itoa (2 ^ 32 - 42) 10) ≡ 2 ^ 32 - 42
atoi-itoa_example = atoi-itoa (2 ^ 32 - 42) (omega arith) (omega arith)

memmove-Copied_example : Copied 5 102 100 (λ a. a) (memmove 102 100 5 (λ a. a))
memmove-Copied_example = memmove-Copied 102 100 5 (λ a. a)
