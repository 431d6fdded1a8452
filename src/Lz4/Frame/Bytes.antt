-- ===== src/Lz4/Frame/Bytes.antt =====
-- The bytes of words, and tests of a few bytes.
use adr_os.Prelude.{
  ℕ, zero, suc, ◌+◌, ◌-◌, ◌*◌, ◌/◌, ◌%◌, ◌^◌, ◌≤◌, ◌<◌, false, List, [], ◌∷◌, ◌++◌, length, take,
  drop, ◌≡◌, ◌↔◌, refl, ap, ap₂, arith, All, length-drop,
}
use adr_os.Lz4.{Ends, passes, ip_at}
use adr_os.Lz4.Lengths.{IsByte}
use adr_os.Lz4.Matches.{get_or-append}
use adr_os.Lz4.Sound.{passes_lem}
use adr_os.Lz4.Frame.{read_le32, read_le64}
use adr_os.Lz4.Frame.Layout.{word_bytes}

-- Where the buffers of a frame lie: as for a block, and the input ends more than the size of the
-- output below the top of the address space.
abbrev pub Room : Ends → ℕ → ℕ → Type 0
Room m cap n =
    (n ≤ m.ip_end)
    × (m.ip_end + 255 * n + 19 < 2 ^ 32)
    × (m.ip_end + cap < 2 ^ 32)
    × (2 ^ 16 ≤ m.dst)
    × (m.op_end ≡ m.dst + cap)
    × (m.dst + cap + 255 * n + 19 < 2 ^ 32)

-- A word is read back from its bytes, and four bytes are those of a word.
pub read_le32-word_bytes :
    (w : ℕ) (rest : List ℕ) → w < 2 ^ 32 → read_le32 (word_bytes w ++ rest) ≡ w
unfolding read_le32
read_le32-word_bytes w rest h = omega arith

pub word_bytes-read_le32 :
    (p : List ℕ)
    → All IsByte p
    → 4 ≤ length p
    → (p ≡ word_bytes (read_le32 p) ++ drop 4 p) × (read_le32 p < 2 ^ 32)
unfolding read_le32
word_bytes-read_le32 [] b h = absurd (omega arith)
word_bytes-read_le32 (x ∷ []) b h = absurd (omega arith)
word_bytes-read_le32 (x ∷ y ∷ []) b h = absurd (omega arith)
word_bytes-read_le32 (x ∷ y ∷ z ∷ []) b h = absurd (omega arith)
word_bytes-read_le32 (x ∷ y ∷ z ∷ w ∷ p) (bx, (by, (bz, (bw, bp)))) h =
    let v = x + y * 2 ^ 8 + z * 2 ^ 16 + w * 2 ^ 24 in
    let e0 : x ≡ v % 2 ^ 8 = omega (arith, bx) in
    let e1 : y ≡ v / 2 ^ 8 % 2 ^ 8 = omega (arith, bx, by) in
    let e2 : z ≡ v / 2 ^ 16 % 2 ^ 8 = omega (arith, bx, by, bz) in
    let e3 : w ≡ v / 2 ^ 24 = omega (arith, bx, by, bz, bw) in
    (
      ap₂ (λ (i : ℕ) t. i ∷ t) e0
          (ap₂ (λ (i : ℕ) t. i ∷ t) e1 (ap₂ (λ (i : ℕ) t. i ∷ t) e2 (ap (λ (i : ℕ). i ∷ p) e3))),
      omega (arith, bx, by, bz, bw),
    )

-- A few bytes are there when the test says so.
pub passes_few :
    (m : Ends) (cap k : ℕ) (ip : List ℕ)
    → Room m cap (length ip)
    → k ≤ 8
    → (passes (ip_at m ip) k m.ip_end ≡ false) ↔ (k ≤ length ip)
unfolding ip_at
passes_few m cap k ip room h =
    let e = passes_lem (m.ip_end - length ip) k m.ip_end (omega (arith, room)) in
    ground (arith, e, room)

pub take-take {ℓ} : {A : Type ℓ} (n : ℕ) (xs : List A) → take n (take n xs) ≡ take n xs
take-take zero xs = refl
take-take (suc n) [] = refl
take-take (suc n) (x ∷ xs) = ap (λ t. x ∷ t) (take-take n xs)

read_le32-append : (xs ys : List ℕ) → 4 ≤ length xs → read_le32 (xs ++ ys) ≡ read_le32 xs
unfolding read_le32
read_le32-append xs ys h = omega (
  arith,
  get_or-append xs ys 0 0 (omega arith),
  get_or-append xs ys 1 0 (omega arith),
  get_or-append xs ys 2 0 (omega arith),
  get_or-append xs ys 3 0 (omega arith),
)

drop-append_left {ℓ} :
    {A : Type ℓ} (n : ℕ) (xs ys : List A) → n ≤ length xs → drop n (xs ++ ys) ≡ drop n xs ++ ys
drop-append_left zero xs ys h = refl
drop-append_left (suc n) [] ys h = absurd (omega arith)
drop-append_left (suc n) (x ∷ xs) ys h = drop-append_left n xs ys (omega arith)

-- A number of eight bytes depends on no byte behind them.
pub read_le64-append : (xs ys : List ℕ) → 8 ≤ length xs → read_le64 (xs ++ ys) ≡ read_le64 xs
unfolding read_le64
read_le64-append xs ys h = omega (
  arith,
  read_le32-append xs ys (omega arith),
  ap read_le32 (drop-append_left 4 xs ys (omega arith)),
  read_le32-append (drop 4 xs) ys (omega (arith, length-drop 4 xs)),
)
