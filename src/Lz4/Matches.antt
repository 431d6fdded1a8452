-- ===== src/Lz4/Matches.antt =====
-- The byte-by-byte copy of a match, described as a whole.
use adr_os.Prelude.{
  ℕ, zero, suc, ◌+◌, ◌-◌, ◌%◌, ◌≤◌, ◌<◌, List, [], ◌∷◌, ◌++◌, length, get_or, ◌≡◌, refl, sym, ap,
  ◌∙◌, arith, length-append, append_assoc, append-nil, dec_lt,
}
use native.Mathlib.Nat.{add-zero, zero-add, add-mod_right, mod-eq_of_lt}
use adr_os.Lz4.{copy_match}

pub length-copy_match :
    (offset n : ℕ) (out : List ℕ) → length (copy_match offset n out) ≡ length out + n
unfolding copy_match
length-copy_match offset zero out = omega arith
length-copy_match offset (suc n) out =
    let next = get_or out (length out - offset) 0 ∷ [] in
    omega (arith, length-copy_match offset n (out ++ next), length-append out next)

-- The bytes of the window that ends the output, repeated: from the `j`-th on, `n` of them.
unfoldable pub repeat_window : List ℕ → ℕ → ℕ → ℕ → List ℕ
repeat_window out offset j zero = []
repeat_window out offset j (suc n) =
    get_or out (length out - offset + j % offset) 0 ∷ repeat_window out offset (suc j) n

pub get_or-append {ℓ} :
    {A : Type ℓ} (xs ys : List A) (i : ℕ) (d : A)
    → i < length xs
    → get_or (xs ++ ys) i d ≡ get_or xs i d
get_or-append [] ys i d h = elim h [ ]
get_or-append (x ∷ xs) ys zero d h = refl
get_or-append (x ∷ xs) ys (suc i) d h = get_or-append xs ys i d (omega arith)

get_or-append_right {ℓ} :
    {A : Type ℓ} (xs ys : List A) (i : ℕ) (d : A)
    → get_or (xs ++ ys) (length xs + i) d ≡ get_or ys i d
get_or-append_right [] ys i d = rw zero-add
get_or-append_right (x ∷ xs) ys i d =
    ap (λ (t : ℕ). get_or (x ∷ (xs ++ ys)) t d) {y = suc (length xs + i)} (omega arith)
    ∙ get_or-append_right xs ys i d

pub length-repeat_window :
    (out : List ℕ) (offset j n : ℕ) → length (repeat_window out offset j n) ≡ n
unfolding repeat_window
length-repeat_window out offset j zero = refl
length-repeat_window out offset j (suc n) = ap suc (length-repeat_window out offset (suc j) n)

get_or-repeat_window :
    (out : List ℕ) (offset j n i : ℕ)
    → i < n
    → get_or (repeat_window out offset j n) i 0
      ≡ get_or out (length out - offset + (j + i) % offset) 0
unfolding repeat_window
get_or-repeat_window out offset j zero i h = absurd (omega arith)
get_or-repeat_window out offset j (suc n) zero h = rw add-zero
get_or-repeat_window out offset j (suc n) (suc i) h =
    get_or-repeat_window out offset (suc j) n i (omega arith)
    ∙ ap (λ (t : ℕ). get_or out (length out - offset + t % offset) 0) (omega arith)

repeat_window_last :
    (out : List ℕ) (offset j n : ℕ)
    → repeat_window out offset j (suc n)
      ≡ repeat_window out offset j n ++ (get_or out (length out - offset + (j + n) % offset) 0 ∷ [])
unfolding repeat_window
repeat_window_last out offset j zero = rw add-zero
repeat_window_last out offset j (suc n) =
    let byte : ℕ → ℕ = λ k. get_or out (length out - offset + k % offset) 0 in
    ap (λ t. byte j ∷ t)
      (repeat_window_last out offset (suc j) n
        ∙ ap (λ (t : ℕ). repeat_window out offset (suc j) n ++ (byte t ∷ [])) (omega arith))

repeat_window_snoc :
    (out : List ℕ) (offset n : ℕ)
    → repeat_window out offset 0 n ++ (get_or out (length out - offset + n % offset) 0 ∷ [])
      ≡ repeat_window out offset 0 (suc n)
repeat_window_snoc out offset n = rw (repeat_window_last out offset 0 n, zero-add)

-- The byte the copy reads when `j` of the match are written: one of the window, at the same place
-- of an earlier turn.
byte_read :
    (out : List ℕ) (offset j : ℕ)
    → 1 ≤ offset
    → offset ≤ length out
    → get_or
        (out ++ repeat_window out offset 0 j)
        (length (out ++ repeat_window out offset 0 j) - offset)
        0
      ≡ get_or out (length out - offset + j % offset) 0
byte_read out offset j low high =
    let window = repeat_window out offset 0 j in
    let size : length (out ++ window) ≡ length out + j =
      length-append out window
      ∙ ap (λ (t : ℕ). length out + t) (length-repeat_window out offset 0 j) in
    elim (dec_lt j offset) [
      | yes h ↦
          ap (λ (t : ℕ). get_or (out ++ window) t 0) (omega (arith, size))
          ∙ get_or-append out window (length out - offset + j) 0 (omega arith)
          ∙ ap (λ (t : ℕ). get_or out (length out - offset + t) 0) (sym (mod-eq_of_lt h))
      | no h ↦
          ap (λ (t : ℕ). get_or (out ++ window) t 0) (omega (arith, size))
          ∙ get_or-append_right out window (j - offset) 0
          ∙ get_or-repeat_window out offset 0 j (j - offset) (omega arith)
          ∙ ap (λ (t : ℕ). get_or out (length out - offset + t) 0)
              (ap (λ (t : ℕ). t % offset) (zero-add (j - offset))
                ∙ sym (add-mod_right (j - offset) offset)
                ∙ ap (λ (t : ℕ). t % offset) (omega arith))
    ]

copy_match_from :
    (out : List ℕ) (offset j n : ℕ)
    → 1 ≤ offset
    → offset ≤ length out
    → copy_match offset n (out ++ repeat_window out offset 0 j)
      ≡ out ++ repeat_window out offset 0 (j + n)
unfolding copy_match
copy_match_from out offset j zero low high = rw add-zero
copy_match_from out offset j (suc n) low high =
    let window = repeat_window out offset 0 in
    let byte = get_or out (length out - offset + j % offset) 0 in
    ap (λ (t : ℕ). copy_match offset n ((out ++ window j) ++ (t ∷ [])))
      (byte_read out offset j low high)
    ∙ ap (copy_match offset n) (
        append_assoc out (window j) (byte ∷ [])
        ∙ ap (λ t. out ++ t) (repeat_window_snoc out offset j))
    ∙ copy_match_from out offset (suc j) n low high
    ∙ ap (λ (t : ℕ). out ++ window t) (omega arith)

-- The copy of a match, a byte at a time, appends to the output the bytes of the window that the
-- offset names, repeated as often as the match needs: the `j`-th byte is the one at `j % offset` of
-- the last `offset` bytes. The offset is at least 1 and at most what is written; the match may
-- overlap what it writes.
pub copy_match-repeat_window :
    (out : List ℕ) (offset n : ℕ)
    → 1 ≤ offset
    → offset ≤ length out
    → copy_match offset n out ≡ out ++ repeat_window out offset 0 n
unfolding repeat_window
copy_match-repeat_window out offset n low high =
    ap (copy_match offset n) (sym (append-nil out))
    ∙ copy_match_from out offset 0 n low high
    ∙ ap (λ (t : ℕ). out ++ repeat_window out offset 0 t) (zero-add n)
