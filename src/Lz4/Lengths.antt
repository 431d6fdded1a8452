-- ===== src/Lz4/Lengths.antt =====
-- The extended lengths of LZ4 sequences: what `extend` reads, and the writing that it reads back.
use adr_os.Prelude.{
  ℕ, zero, suc, ◌+◌, ◌-◌, ◌*◌, ◌/◌, ◌%◌, ◌^◌, ◌≤◌, ◌<◌, List, [], ◌∷◌, ◌++◌, some, ltb,
  if◌then◌else◌, length, add32, ◌≡◌, ap₂, arith, All, ℕ_discrete,
}
use adr_os.Lz4.{extend, read_len}

abbrev pub IsByte : ℕ → Type 0
IsByte b = b < 256

-- What a length leaves to be read: never more than 255 for each byte taken.
extend_takes :
    (ip : List ℕ) (len r : ℕ) (rest : List ℕ)
    → All IsByte ip
    → len + 255 * length ip < 2 ^ 32
    → extend ip len ≡ some (r, rest)
    → (r + 255 * length rest ≤ len + 255 * length ip) × (length rest < length ip) × All IsByte rest
unfolding extend
extend_takes [] len r rest b f e = cc
extend_takes (x ∷ ip) len r rest b f e = ground (arith, extend_takes ip (len + x) r rest b.1)

pub read_len_takes :
    (n : ℕ) (ip : List ℕ) (r : ℕ) (rest : List ℕ)
    → All IsByte ip
    → n + 255 * length ip < 2 ^ 32
    → read_len n ip ≡ some (r, rest)
    → (r + 255 * length rest ≤ n + 255 * length ip) × (length rest ≤ length ip) × All IsByte rest
unfolding read_len
read_len_takes n ip r rest b f e = ground (arith, extend_takes ip n r rest b)

-- The half byte of the token for a length, and the bytes that follow it.
abbrev pub half_byte : ℕ → ℕ
half_byte n = if ltb n 15 then n else 15

unfoldable pub tail_bytes : ℕ → ℕ → List ℕ
tail_bytes zero rest = rest ∷ []
tail_bytes (suc k) rest = 255 ∷ tail_bytes k rest

unfoldable pub more_bytes : ℕ → List ℕ
unfolding tail_bytes
more_bytes n = if ltb n 15 then [] else tail_bytes ((n - 15) / 255) ((n - 15) % 255)

extend-tail_bytes :
    (k r len : ℕ) (rest : List ℕ)
    → r < 255
    → len + (255 * k + r) < 2 ^ 32
    → extend (tail_bytes k r ++ rest) len ≡ some (len + (255 * k + r), rest)
unfolding extend tail_bytes
extend-tail_bytes zero r len rest h f = ground arith
extend-tail_bytes (suc k) r len rest h f = ground (arith, extend-tail_bytes k r (len + 255) rest h)

-- Every length is read back from its writing.
pub read_len-more_bytes :
    (n : ℕ) (rest : List ℕ)
    → n < 2 ^ 32
    → read_len (half_byte n) (more_bytes n ++ rest) ≡ some (n, rest)
unfolding read_len more_bytes
read_len-more_bytes n rest f =
    ground (arith, extend-tail_bytes ((n - 15) / 255) ((n - 15) % 255) 15 rest)

pub half_byte-le : (n : ℕ) → half_byte n ≤ 15
half_byte-le n = ground arith

tail_bytes-IsByte : (k r : ℕ) → r < 255 → All IsByte (tail_bytes k r)
unfolding tail_bytes
tail_bytes-IsByte zero r h = (omega arith, tt)
tail_bytes-IsByte (suc k) r h = (omega arith, tail_bytes-IsByte k r h)

pub more_bytes-IsByte : (n : ℕ) → All IsByte (more_bytes n)
unfolding more_bytes
more_bytes-IsByte n = ground (arith, tail_bytes-IsByte ((n - 15) / 255) ((n - 15) % 255))

-- What `extend` reads is such a tail.
extend_sound :
    (ip : List ℕ) (len r : ℕ) (rest : List ℕ)
    → All IsByte ip
    → len + 255 * length ip < 2 ^ 32
    → extend ip len ≡ some (r, rest)
    → (k : ℕ) × (j : ℕ) × (j < 255) × (r ≡ len + (255 * k + j)) × (ip ≡ tail_bytes k j ++ rest)
unfolding extend tail_bytes
extend_sound [] len r rest b f e = cc
extend_sound (x ∷ ip) len r rest b f e = elim (ℕ_discrete x 255) [
  | yes h ↦
      let (k, j, lt, v, s) =
        extend_sound ip (len + 255) r rest b.1 (omega arith) (ground (arith, e, h)) in
      (suc k, j, lt, omega (arith, v), ap₂ (λ (u : ℕ) t. u ∷ t) h s)
  | no h ↦ (0, x, omega (arith, b.0), ground (arith, e, h), ground (arith, e, h))
]

-- A length that was read has the writing that `half_byte` and `more_bytes` describe.
pub read_len_sound :
    (n : ℕ) (ip : List ℕ) (r : ℕ) (rest : List ℕ)
    → n < 16
    → All IsByte ip
    → n + 255 * length ip < 2 ^ 32
    → read_len n ip ≡ some (r, rest)
    → (n ≡ half_byte r) × (ip ≡ more_bytes r ++ rest)
read_len_sound n ip r rest small b f e = elim (ℕ_discrete n 15) [
  | yes h ↦
      let (k, j, lt, v, s) =
        extend_sound ip n r rest b f (unfold read_len in ground (arith, e, h)) in
      let big : 15 ≤ r = omega (arith, v, h) in
      let quot : (r - 15) / 255 ≡ k = omega (arith, v, h, lt) in
      let left : (r - 15) % 255 ≡ j = omega (arith, v, h, lt) in
      (ground (arith, h, big), unfold more_bytes in ground (arith, s, quot, left, big))
  | no h ↦ unfold read_len more_bytes in ground (arith, e, h, small)
]

extend_shorter :
    (ip : List ℕ) (len r : ℕ) (rest : List ℕ)
    → extend ip len ≡ some (r, rest)
    → length rest < length ip
unfolding extend
extend_shorter [] len r rest e = cc
extend_shorter (x ∷ ip) len r rest e = ground (arith, extend_shorter ip (add32 len x) r rest)

pub read_len_shorter :
    (n : ℕ) (ip : List ℕ) (r : ℕ) (rest : List ℕ)
    → read_len n ip ≡ some (r, rest)
    → length rest ≤ length ip
unfolding read_len
read_len_shorter n ip r rest e = ground (arith, extend_shorter ip n r rest)
