-- ===== src/Lz4/Sound.antt =====
-- What the block decoder accepts: streams of the format, with the output inside its buffer.
use adr_os.Prelude.{
  ℕ, ◌+◌, ◌*◌, ◌/◌, ◌%◌, ◌^◌, ◌≤◌, ◌<◌, List, [], ◌∷◌, ◌++◌, some, ltb, ◌==◌, length, take, drop,
  add32, sub32, ◌≡◌, sym, ap, ap₂, ◌∙◌, arith, All, >>=-eq-some, stop_if, ◌>>◌, stop_if-eq-some,
  Option-cases, inl, inr, take-append-drop, length-take, length-append, length-drop, All-drop,
  subst, false,
}
use adr_os.Lz4.{
  Ends, passes, ip_at, op_at, read_len, copy_literals, strays, copy_match, apply_match,
}
use adr_os.Lz4.Lengths.{
  IsByte, half_byte, more_bytes, read_len_takes, read_len_sound, read_len_shorter,
}
use adr_os.Lz4.Matches.{repeat_window, copy_match-repeat_window, length-copy_match}
use adr_os.Lz4.Format.{Room, Inside}

-- The test of a copy's length, where nothing wraps.
pub passes_lem : (p n end : ℕ) → p + n < 2 ^ 32 → passes p n end ≡ ltb end (p + n)
unfolding passes
passes_lem p n end h = ap (ltb end) (omega arith)

copy_literals_parts :
    (m : Ends) (token : ℕ) (ip out rest res : List ℕ)
    → copy_literals m token ip out ≡ some (rest, res)
    → (lit_len : ℕ) × (from : List ℕ) × (read_len (token / 2 ^ 4) ip ≡ some (lit_len, from))
      × (passes (ip_at m from) lit_len m.ip_end ≡ false)
      × (passes (op_at m out) lit_len m.op_end ≡ false)
      × (drop lit_len from ≡ rest)
      × (out ++ take lit_len from ≡ res)
unfolding copy_literals
copy_literals_parts m token ip out rest res e =
    let ((lit_len, from), read, e1) = >>=-eq-some (read_len (token / 2 ^ 4) ip) _ e in
    let (fits_in, e2) =
      stop_if-eq-some (passes (ip_at m from) lit_len m.ip_end)
        (stop_if (passes (op_at m out) lit_len m.op_end)
          >> some (drop lit_len from, out ++ take lit_len from))
        e1 in
    let (fits_out, e3) =
      stop_if-eq-some (passes (op_at m out) lit_len m.op_end)
        (some (drop lit_len from, out ++ take lit_len from)) e2 in
    (lit_len, from, read, fits_in, fits_out, cc e3, cc e3)

pub copy_literals_sound :
    (m : Ends) (token : ℕ) (ip out rest res : List ℕ)
    → token < 256
    → All IsByte ip
    → Room m (length ip)
    → Inside m out
    → copy_literals m token ip out ≡ some (rest, res)
    → (lits : List ℕ) × (token / 2 ^ 4 ≡ half_byte (length lits))
      × (ip ≡ more_bytes (length lits) ++ (lits ++ rest))
      × (res ≡ out ++ lits)
      × Inside m res
      × (length rest ≤ length ip)
      × All IsByte rest
unfolding ip_at op_at passes
copy_literals_sound m token ip out rest res t b room inside e =
    let (lit_len, from, read, fits_in, fits_out, eq_rest, eq_res) =
      copy_literals_parts m token ip out rest res e in
    let (budget, shorter, bytes) =
      read_len_takes (token / 2 ^ 4) ip lit_len from b (omega (arith, t, room)) read in
    let (nibble, spelt) =
      read_len_sound (token / 2 ^ 4) ip lit_len from (omega (arith, t)) b (omega (arith, t, room))
        read in
    let lits = take lit_len from in
    let inner : lit_len ≤ length from = ground (arith, fits_in, room, budget, shorter) in
    let size : length lits ≡ lit_len = omega (arith, length-take lit_len from, inner) in
    let whole : from ≡ lits ++ rest =
      sym (take-append-drop lit_len from) ∙ ap (λ t. lits ++ t) eq_rest in
    (
      lits,
      nibble ∙ ap half_byte (sym size),
      spelt ∙ ap₂ (λ (n : ℕ) t. more_bytes n ++ t) (sym size) whole,
      sym eq_res,
      subst (Inside m) eq_res
          (ground (arith, fits_out, room, budget, inside, length-append out lits, size)),
      omega (arith, ap length eq_rest, length-drop lit_len from, shorter),
      subst (All IsByte) eq_rest (All-drop IsByte lit_len from bytes),
    )

-- Where no pointer wraps, the literals that pass the tests are there.
pub strays_never :
    (m : Ends) (token : ℕ) (ip out : List ℕ)
    → token < 256
    → All IsByte ip
    → Room m (length ip)
    → strays m token ip out ≡ false
unfolding strays ip_at passes
strays_never m token ip out t b room = elim (Option-cases (copy_literals m token ip out)) [
  | inl n ↦ ground (arith, n)
  | inr ((rest, res), h) ↦
      let (lit_len, from, read, fits_in, fits_out, eq_rest, eq_res) =
        copy_literals_parts m token ip out rest res h in
      let (budget, shorter, bytes) =
        read_len_takes (token / 2 ^ 4) ip lit_len from b (omega (arith, t, room)) read in
      let inner : lit_len ≤ length from = ground (arith, fits_in, room, budget, shorter) in
      ground (arith, h, read, inner)
]

apply_match_parts :
    (m : Ends) (token low high : ℕ) (ip out rest res : List ℕ)
    → apply_match m token (low ∷ high ∷ ip) out ≡ some (rest, res)
    → (extra : ℕ) × (read_len (token % 2 ^ 4) ip ≡ some (extra, rest))
      × (((low + high * 2 ^ 8) == 0) ≡ false)
      × (ltb (sub32 (op_at m out) (low + high * 2 ^ 8)) m.dst ≡ false)
      × (passes (op_at m out) (add32 extra 4) m.op_end ≡ false)
      × (copy_match (low + high * 2 ^ 8) (add32 extra 4) out ≡ res)
unfolding apply_match
apply_match_parts m token low high ip out rest res e =
    let offset = low + high * 2 ^ 8 in
    let (nonzero, e0) = stop_if-eq-some (offset == 0) _ e in
    let ((extra, from), read, e1) = >>=-eq-some (read_len (token % 2 ^ 4) ip) _ e0 in
    let last = some (from, copy_match offset (add32 extra 4) out) in
    let (above, e2) =
      stop_if-eq-some (ltb (sub32 (op_at m out) offset) m.dst)
        (stop_if (passes (op_at m out) (add32 extra 4) m.op_end) >> last) e1 in
    let (fits, e3) = stop_if-eq-some (passes (op_at m out) (add32 extra 4) m.op_end) last e2 in
    (extra, read ∙ ap (λ (t : List ℕ). some (extra, t)) (cc e3), nonzero, above, fits, cc e3)

pub apply_match_sound :
    (m : Ends) (token : ℕ) (ip out rest res : List ℕ)
    → token < 256
    → All IsByte ip
    → Room m (length ip)
    → Inside m out
    → apply_match m token ip out ≡ some (rest, res)
    → (offset : ℕ) × (extra : ℕ) × (token % 2 ^ 4 ≡ half_byte extra)
      × (ip ≡ offset % 2 ^ 8 ∷ offset / 2 ^ 8 ∷ (more_bytes extra ++ rest))
      × (1 ≤ offset)
      × (offset < 2 ^ 16)
      × (offset ≤ length out)
      × (res ≡ out ++ repeat_window out offset 0 (extra + 4))
      × Inside m res
      × (length rest < length ip)
      × All IsByte rest
unfolding op_at passes
apply_match_sound m token [] out rest res t b room inside e = unfold apply_match in cc
apply_match_sound m token (low ∷ []) out rest res t b room inside e = unfold apply_match in cc
apply_match_sound m token (low ∷ high ∷ ip) out rest res t b room inside e =
    let (extra, read, nonzero, above, fits, done) =
      apply_match_parts m token low high ip out rest res e in
    let nibble_fits : token % 2 ^ 4 < 16 = omega arith in
    let (budget, shorter, bytes) =
      read_len_takes (token % 2 ^ 4) ip extra rest b.1.1 (omega (arith, room)) read in
    let (nibble, spelt) =
      read_len_sound (token % 2 ^ 4) ip extra rest nibble_fits b.1.1 (omega (arith, room)) read in
    let offset = low + high * 2 ^ 8 in
    let positive : 1 ≤ offset = ground (arith, nonzero) in
    let behind : offset ≤ length out = ground (arith, above, room, inside, b.0, b.1.0) in
    let len : add32 extra 4 ≡ extra + 4 = omega (arith, budget, room, nibble_fits) in
    let copied : res ≡ copy_match offset (extra + 4) out =
      sym done ∙ ap (λ (n : ℕ). copy_match offset n out) len in
    (
      offset,
      extra,
      nibble,
      ap₂ (λ (x : ℕ) y. x ∷ y) (omega (arith, b.0))
          (ap₂ (λ (x : ℕ) y. x ∷ y) (omega (arith, b.0)) spelt),
      positive,
      omega (arith, b.0, b.1.0),
      behind,
      copied ∙ copy_match-repeat_window out offset (extra + 4) positive behind,
      subst (Inside m) (sym copied) (
          ground (
            arith,
            fits,
            room,
            budget,
            inside,
            length-copy_match offset (extra + 4) out,
            nibble_fits,
          )),
      omega (arith, shorter),
      bytes,
    )

pub copy_literals_shorter :
    (m : Ends) (token : ℕ) (ip out rest res : List ℕ)
    → copy_literals m token ip out ≡ some (rest, res)
    → length rest ≤ length ip
copy_literals_shorter m token ip out rest res e =
    let (lit_len, from, read, _, _, eq_rest, _) = copy_literals_parts m token ip out rest res e in
    omega (
      arith,
      read_len_shorter (token / 2 ^ 4) ip lit_len from read,
      ap length eq_rest,
      length-drop lit_len from,
    )

pub apply_match_shorter :
    (m : Ends) (token : ℕ) (ip out rest res : List ℕ)
    → apply_match m token ip out ≡ some (rest, res)
    → length rest < length ip
apply_match_shorter m token [] out rest res e = unfold apply_match in cc
apply_match_shorter m token (low ∷ []) out rest res e = unfold apply_match in cc
apply_match_shorter m token (low ∷ high ∷ ip) out rest res e =
    let (extra, read, _, _, _, _) = apply_match_parts m token low high ip out rest res e in
    omega (arith, read_len_shorter (token % 2 ^ 4) ip extra rest read)
