-- ===== src/Lz4/Complete.antt =====
-- The block decoder accepts every stream of the format that fits its buffers.
use adr_os.Prelude.{
  ℕ, zero, suc, ◌+◌, ◌-◌, ◌*◌, ◌/◌, ◌%◌, ◌^◌, ◌≤◌, ◌<◌, List, [], ◌∷◌, ◌++◌, some, length, take,
  drop, ltb, ◌==◌, add32, sub32, ◌≡◌, refl, sym, ap, ◌∙◌, arith, length-append, append-nil, subst,
  Option-cases, inl, inr, false,
}
use adr_os.Lz4.{
  outgrows, ended, going, Ends, passes, ip_at, op_at, copy_literals, read_len, strays, apply_match,
  round, match_round, wrote, block_loop,
}
use adr_os.Lz4.Lengths.{half_byte, half_byte-le, more_bytes, read_len-more_bytes}
use adr_os.Lz4.Matches.{repeat_window, copy_match-repeat_window, length-repeat_window}
use adr_os.Lz4.Format.{Stream, final, more, Inside}
use adr_os.Lz4.Sound.{passes_lem}

-- Buffers that hold `n` bytes of input and end inside the address space.
abbrev pub Placed : Ends → ℕ → Type 0
Placed m n = (n ≤ m.ip_end) × (m.ip_end < 2 ^ 32) × (2 ^ 16 ≤ m.dst) × (m.op_end < 2 ^ 32)

pub take-append {ℓ} : {A : Type ℓ} (xs ys : List A) → take (length xs) (xs ++ ys) ≡ xs
take-append [] ys = refl
take-append (x ∷ xs) ys = ap (λ t. x ∷ t) (take-append xs ys)

pub drop-append {ℓ} : {A : Type ℓ} (xs ys : List A) → drop (length xs) (xs ++ ys) ≡ ys
drop-append [] ys = refl
drop-append (x ∷ xs) ys = drop-append xs ys

copy_literals_complete :
    (m : Ends) (low : ℕ) (lits rest out : List ℕ)
    → low < 2 ^ 4
    → Placed m (length (lits ++ rest))
    → Inside m (out ++ lits)
    → copy_literals m
        (half_byte (length lits) * 2 ^ 4 + low)
        (more_bytes (length lits) ++ (lits ++ rest))
        out
      ≡ some (rest, out ++ lits)
unfolding copy_literals ip_at op_at
copy_literals_complete m low lits rest out h placed inside =
    let n = length lits in
    let nibble : (half_byte n * 2 ^ 4 + low) / 2 ^ 4 ≡ half_byte n = omega arith in
    let size = length-append lits rest in
    let grown = length-append out lits in
    let read = read_len-more_bytes n (lits ++ rest) (omega (arith, placed, size)) in
    let fits_in : passes (m.ip_end - length (lits ++ rest)) n m.ip_end ≡ false =
      passes_lem (m.ip_end - length (lits ++ rest)) n m.ip_end (omega (arith, placed, size))
      ∙ ground (arith, placed, size) in
    let op : add32 m.dst (length out) ≡ m.dst + length out = omega (arith, placed, inside, grown) in
    let fits_out : passes (add32 m.dst (length out)) n m.op_end ≡ false =
      passes_lem (add32 m.dst (length out)) n m.op_end (omega (arith, placed, inside, grown, op))
      ∙ ground (arith, inside, grown, op) in
    rw (nibble, read, fits_in, fits_out, drop-append lits rest, take-append lits rest)

apply_match_complete :
    (m : Ends) (token offset extra : ℕ) (rest out : List ℕ)
    → token % 2 ^ 4 ≡ half_byte extra
    → 1 ≤ offset
    → offset < 2 ^ 16
    → offset ≤ length out
    → Placed m 0
    → Inside m (out ++ repeat_window out offset 0 (extra + 4))
    → apply_match m token (offset % 2 ^ 8 ∷ offset / 2 ^ 8 ∷ (more_bytes extra ++ rest)) out
      ≡ some (rest, out ++ repeat_window out offset 0 (extra + 4))
unfolding apply_match op_at
apply_match_complete m token offset extra rest out nibble positive small behind placed inside =
    let window = repeat_window out offset 0 (extra + 4) in
    let grown : length (out ++ window) ≡ length out + (extra + 4) =
      length-append out window
      ∙ ap (λ (t : ℕ). length out + t) (length-repeat_window out offset 0 (extra + 4)) in
    let value : offset % 2 ^ 8 + offset / 2 ^ 8 * 2 ^ 8 ≡ offset = omega arith in
    let read = read_len-more_bytes extra rest (omega (arith, placed, inside, grown)) in
    let nonzero : (offset == 0) ≡ false = ground (arith, positive) in
    let len : add32 extra 4 ≡ extra + 4 = omega (arith, placed, inside, grown) in
    let op : add32 m.dst (length out) ≡ m.dst + length out = omega (arith, placed, inside, grown) in
    let above : ltb (sub32 (add32 m.dst (length out)) offset) m.dst ≡ false =
      ground (arith, behind, small, placed, inside, grown, op) in
    let fits : passes (add32 m.dst (length out)) (extra + 4) m.op_end ≡ false =
      passes_lem (add32 m.dst (length out)) (extra + 4) m.op_end
        (omega (arith, placed, inside, grown, op))
      ∙ ground (arith, inside, grown, op) in
    rw (
      value,
      nonzero,
      nibble,
      read,
      len,
      above,
      fits,
      copy_match-repeat_window out offset (extra + 4) positive behind,
    )

-- Literals that are there stray nowhere.
strays_complete :
    (m : Ends) (low : ℕ) (lits rest out : List ℕ)
    → low < 2 ^ 4
    → Placed m (length (lits ++ rest))
    → strays m
        (half_byte (length lits) * 2 ^ 4 + low)
        (more_bytes (length lits) ++ (lits ++ rest))
        out
      ≡ false
unfolding strays
strays_complete m low lits rest out h placed =
    let n = length lits in
    let token = half_byte n * 2 ^ 4 + low in
    let size = length-append lits rest in
    let nibble : token / 2 ^ 4 ≡ half_byte n = omega arith in
    let read = read_len-more_bytes n (lits ++ rest) (omega (arith, placed, size)) in
    let read' = ap (λ (k : ℕ). read_len k (more_bytes n ++ (lits ++ rest))) nibble ∙ read in
    elim (Option-cases (copy_literals m token (more_bytes n ++ (lits ++ rest)) out)) [
      | inl e ↦ ground (arith, e)
      | inr (r, e) ↦ ground (arith, e, read', size)
    ]

-- The output only grows.
pub Stream-le : {ip out res : List ℕ} → Stream ip out res → length out ≤ length res
Stream-le {out} (final lits low h e f) = omega (arith, ap length f, length-append out lits)
Stream-le {out} (more lits rest offset extra e p s b st) = omega (
  arith,
  Stream-le st,
  length-append (out ++ lits) (repeat_window (out ++ lits) offset 0 (extra + 4)),
  length-append out lits,
)

Inside-le : (m : Ends) (xs ys : List ℕ) → length xs ≤ length ys → Inside m ys → Inside m xs
Inside-le m xs ys h i = omega arith

loop_ends :
    (fuel token : ℕ) (m : Ends) (ip out res : List ℕ)
    → copy_literals m token ip out ≡ some ([], res)
    → strays m token ip out ≡ false
    → ltb (sub32 m.op_end m.dst) (length res) ≡ false
    → block_loop (suc fuel) m (token ∷ ip) out ≡ wrote res
unfolding block_loop round match_round outgrows
loop_ends fuel token m ip out res e s w =
    let r : round m token ip out ≡ ended res = ground (arith, e) in
    let o : outgrows m (round m token ip out) ≡ false = ap (outgrows m) r ∙ w in
    ground (arith, r, s, o)

loop_goes :
    (fuel token b : ℕ) (m : Ends) (ip out mid out' rest res : List ℕ)
    → copy_literals m token ip out ≡ some (b ∷ mid, out')
    → apply_match m token (b ∷ mid) out' ≡ some (rest, res)
    → strays m token ip out ≡ false
    → ltb (sub32 m.op_end m.dst) (length res) ≡ false
    → block_loop (suc fuel) m (token ∷ ip) out ≡ block_loop fuel m rest res
unfolding block_loop round match_round outgrows
loop_goes fuel token b m ip out mid out' rest res e f s w =
    let r : round m token ip out ≡ going rest res = ground (arith, e, f) in
    let o : outgrows m (round m token ip out) ≡ false = ap (outgrows m) r ∙ w in
    ground (arith, r, s, o)

pub block_loop_complete :
    (fuel : ℕ) (m : Ends) {ip out res : List ℕ}
    → Stream ip out res
    → Placed m (length ip)
    → Inside m res
    → length ip < fuel
    → block_loop fuel m ip out ≡ wrote res
block_loop_complete zero m st placed inside h = absurd (omega arith)
block_loop_complete (suc fuel) m {ip} {out} {res} (final lits low small e f) placed inside h =
    let body = more_bytes (length lits) ++ lits in
    let size : length ip ≡ suc (length body) = ap length e in
    let literals : copy_literals m (half_byte (length lits) * 2 ^ 4 + low) body out
        ≡ some ([], out ++ lits) =
      ap
        (λ (t : List ℕ).
          copy_literals m (half_byte (length lits) * 2 ^ 4 + low) (more_bytes (length lits) ++ t)
            out)
        (sym (append-nil lits))
      ∙ copy_literals_complete m low lits [] out small
          (omega (
            arith,
            placed,
            size,
            length-append (more_bytes (length lits)) lits,
            ap length (append-nil lits),
          ))
          (subst (Inside m) f inside) in
    let strayed : strays m (half_byte (length lits) * 2 ^ 4 + low) body out ≡ false =
      ap
        (λ (t : List ℕ).
          strays m (half_byte (length lits) * 2 ^ 4 + low) (more_bytes (length lits) ++ t) out)
        (sym (append-nil lits))
      ∙ strays_complete m low lits [] out small (
          omega (
            arith,
            placed,
            size,
            length-append (more_bytes (length lits)) lits,
            ap length (append-nil lits),
          )) in
    ap (λ (t : List ℕ). block_loop (suc fuel) m t out) e
    ∙ loop_ends fuel (half_byte (length lits) * 2 ^ 4 + low) m body out (out ++ lits) literals
        strayed (ground (arith, placed, subst (Inside m) f inside))
    ∙ ap wrote (sym f)
block_loop_complete (suc fuel) m {ip} {out} {res}
      (more lits rest offset extra e positive small behind st) placed inside h =
    let token = half_byte (length lits) * 2 ^ 4 + half_byte extra in
    let tail = more_bytes extra ++ rest in
    let mid : List ℕ = offset % 2 ^ 8 ∷ offset / 2 ^ 8 ∷ tail in
    let body = more_bytes (length lits) ++ (lits ++ mid) in
    let size : length ip ≡ suc (length body) = ap length e in
    let size2 = length-append (more_bytes (length lits)) (lits ++ mid) in
    let size3 = length-append lits mid in
    let size4 = length-append (more_bytes extra) rest in
    let window = repeat_window (out ++ lits) offset 0 (extra + 4) in
    let within : Inside m ((out ++ lits) ++ window) = Inside-le m _ res (Stream-le st) inside in
    let literals : copy_literals m token body out ≡ some (mid, out ++ lits) =
      copy_literals_complete m (half_byte extra) lits mid out (omega (arith, half_byte-le extra))
        (omega (arith, placed, size, size2))
        (Inside-le m _ ((out ++ lits) ++ window) (omega (arith, length-append (out ++ lits) window))
          within) in
    let matched : apply_match m token mid (out ++ lits) ≡ some (rest, (out ++ lits) ++ window) =
      apply_match_complete m token offset extra rest (out ++ lits)
        (omega (arith, half_byte-le extra)) positive small behind (omega (arith, placed)) within in
    let again : block_loop fuel m rest ((out ++ lits) ++ window) ≡ wrote res =
      block_loop_complete fuel m st (omega (arith, placed, size, size2, size3, size4)) inside
        (omega (arith, h, size, size2, size3, size4)) in
    ap (λ (t : List ℕ). block_loop (suc fuel) m t out) e
    ∙ loop_goes fuel token (offset % 2 ^ 8) m body out (offset / 2 ^ 8 ∷ tail) (out ++ lits) rest
        ((out ++ lits) ++ window) literals matched
        (strays_complete m (half_byte extra) lits mid out (omega (arith, half_byte-le extra))
          (omega (arith, placed, size, size2)))
        (ground (arith, placed, within))
    ∙ again
