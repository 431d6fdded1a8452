-- ===== src/Xxhash.antt =====
-- The xxHash-32 of src/include/xxhash32.h, in 32-bit arithmetic, over the list of the bytes hashed.
mod Tests
use adr_os.Prelude.{
  ℕ, zero, suc, ◌+◌, ◌-◌, ◌*◌, ◌/◌, ◌%◌, ◌^◌, bit_or, bit_xor, List, [], ◌∷◌, ltb, leb,
  if◌then◌else◌, length, get_or, drop, add32, sub32, mul32,
}

abbrev xxh_prime32_1 : ℕ
xxh_prime32_1 = 0x9E3779B1

abbrev xxh_prime32_2 : ℕ
xxh_prime32_2 = 0x85EBCA77

abbrev xxh_prime32_3 : ℕ
xxh_prime32_3 = 0xC2B2AE3D

abbrev xxh_prime32_4 : ℕ
xxh_prime32_4 = 0x27D4EB2F

abbrev xxh_prime32_5 : ℕ
xxh_prime32_5 = 0x165667B1

xxh32_rotl : ℕ → ℕ → ℕ
xxh32_rotl x r = bit_or (x * 2 ^ r % 2 ^ 32) (x / 2 ^ (32 - r))

-- Four bytes, lowest first: they are disjoint parts of the word, so `|` adds them.
xxh32_read32 : List ℕ → ℕ
xxh32_read32 p = get_or p 0 0 + get_or p 1 0 * 2 ^ 8 + get_or p 2 0 * 2 ^ 16 + get_or p 3 0 * 2 ^ 24

-- `v += read32(p) * PRIME_2; v = rotl(v, 13) * PRIME_1`
lane : ℕ → List ℕ → ℕ
unfolding xxh32_rotl xxh32_read32
lane v p = mul32 (xxh32_rotl (add32 v (mul32 (xxh32_read32 p) xxh_prime32_2)) 13) xxh_prime32_1

-- `v1` to `v4`
pub record Lanes : Type 0 where
  pub v1 : ℕ
  pub v2 : ℕ
  pub v3 : ℕ
  pub v4 : ℕ

-- `rotl(v1, 1) + rotl(v2, 7) + rotl(v3, 12) + rotl(v4, 18)`
sum_lanes : Lanes → ℕ
unfolding xxh32_rotl
sum_lanes v =
    add32 (add32 (add32 (xxh32_rotl v.v1 1) (xxh32_rotl v.v2 7)) (xxh32_rotl v.v3 12))
      (xxh32_rotl v.v4 18)

-- The loop over stripes of 16 bytes, on as many rounds as there are bytes: the lanes at its end, and
-- the bytes left.
stripes : ℕ → Lanes → List ℕ → Lanes × List ℕ
unfolding lane
stripes zero v p = (v, p)
stripes (suc fuel) v p =
    let next : Lanes = record {
      v1 = lane v.v1 p;
      v2 = lane v.v2 (drop 4 p);
      v3 = lane v.v3 (drop 8 p);
      v4 = lane v.v4 (drop 12 p);
    } in
    let again = stripes fuel next (drop 16 p) in if leb 16 (length p) then again else (v, p)

-- `while (p < end)`, a byte a round
mix_bytes : ℕ → List ℕ → ℕ
unfolding xxh32_rotl
mix_bytes h32 [] = h32
mix_bytes h32 (b ∷ p) =
    mix_bytes (mul32 (xxh32_rotl (add32 h32 (mul32 b xxh_prime32_5)) 11) xxh_prime32_1) p

-- `while (p + 4 <= end)`, a word a round, and the bytes behind
mix_words : ℕ → List ℕ → ℕ
unfolding xxh32_rotl xxh32_read32 mix_bytes
mix_words h32 (a ∷ b ∷ c ∷ d ∷ p) =
    mix_words
      (mul32 (xxh32_rotl (add32 h32 (mul32 (xxh32_read32 (a ∷ b ∷ c ∷ d ∷ p)) xxh_prime32_3)) 17)
        xxh_prime32_4)
      p
mix_words h32 p = mix_bytes h32 p

-- The shifts and products at the end.
avalanche : ℕ → ℕ
avalanche h0 =
    let h1 = mul32 (bit_xor h0 (h0 / 2 ^ 15)) xxh_prime32_2 in
    let h2 = mul32 (bit_xor h1 (h1 / 2 ^ 13)) xxh_prime32_3 in bit_xor h2 (h2 / 2 ^ 16)

-- `h32` in front of the tail, and the tail.
absorb : List ℕ → ℕ → ℕ × List ℕ
unfolding stripes sum_lanes
absorb input seed =
    let start : Lanes = record {
      v1 = add32 (add32 seed xxh_prime32_1) xxh_prime32_2;
      v2 = add32 seed xxh_prime32_2;
      v3 = seed;
      v4 = sub32 seed xxh_prime32_1;
    } in
    let (lanes, tail) = stripes (length input) start input in
    if leb 16 (length input) then (sum_lanes lanes, tail) else (add32 seed xxh_prime32_5, input)

unfoldable pub xxh32 : List ℕ → ℕ → ℕ
unfolding absorb mix_words avalanche
xxh32 input seed =
    let (h32, tail) = absorb input seed in
    avalanche (mix_words (add32 h32 (length input % 2 ^ 32)) tail)
