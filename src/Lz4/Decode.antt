-- ===== src/Lz4/Decode.antt =====
-- The block decoder's loop: it ends, and what it returns is what the format says.
use adr_os.Prelude.{
  ltb, sub32, false, ℕ, zero, suc, ◌+◌, ◌*◌, ◌/◌, ◌%◌, ◌^◌, ◌≤◌, ◌<◌, List, [], ◌∷◌, ◌++◌, some,
  length, ◌≡◌, ◌≢◌, ◌⊎◌, inl, inr, refl, ap, ap₂, ◌∙◌, arith, All, append-nil, subst, Option-cases,
}
use adr_os.Lz4.{
  outgrows, Ends, copy_literals, apply_match, Round, refused, ended, going, match_round, round,
  wrote, no_fuel, block_loop,
}
use adr_os.Lz4.Lengths.{IsByte, half_byte, more_bytes}
use adr_os.Lz4.Matches.{repeat_window}
use adr_os.Lz4.Format.{Stream, final, more, Room, Inside}
use adr_os.Lz4.Sound.{copy_literals_sound, apply_match_sound, strays_never}

Round-cases :
    (r : Round)
    → (r ≡ refused)
      ⊎ ((res : List ℕ) × (r ≡ ended res))
      ⊎ ((rest : List ℕ) × (res : List ℕ) × (r ≡ going rest res))
Round-cases refused = inl refl
Round-cases (ended res) = inr (inl (res, refl))
Round-cases (going rest res) = inr (inr (rest, res, refl))

-- The round that ends the loop.
round-ended :
    (m : Ends) (token : ℕ) (ip out res : List ℕ)
    → round m token ip out ≡ ended res
    → copy_literals m token ip out ≡ some ([], res)
unfolding round match_round
round-ended m token ip out res e = elim (Option-cases (copy_literals m token ip out)) [
  | inl n ↦ ground (arith, n, e)
  | inr (([], out'), h) ↦ ground (arith, h, e)
  | inr ((b ∷ rest, out'), h) ↦ elim (Option-cases (apply_match m token (b ∷ rest) out')) [
    | inl n ↦ ground (arith, n, h, e)
    | inr (p, k) ↦ ground (arith, k, h, e)
  ]
]

-- A round that goes on.
round-going :
    (m : Ends) (token : ℕ) (ip out rest res : List ℕ)
    → round m token ip out ≡ going rest res
    → (mid : List ℕ) × (out' : List ℕ) × (copy_literals m token ip out ≡ some (mid, out'))
      × (apply_match m token mid out' ≡ some (rest, res))
unfolding round match_round
round-going m token ip out rest res e = elim (Option-cases (copy_literals m token ip out)) [
  | inl n ↦ ground (arith, n, e)
  | inr (([], out'), h) ↦ ground (arith, h, e)
  | inr ((b ∷ mid, out'), h) ↦ elim (Option-cases (apply_match m token (b ∷ mid) out')) [
    | inl n ↦ ground (arith, n, h, e)
    | inr ((rest', res'), k) ↦ (b ∷ mid, out', h, k ∙ ground (arith, k, h, e))
  ]
]

round-ended_sound :
    (m : Ends) (token : ℕ) (ip out res : List ℕ)
    → token < 256
    → All IsByte ip
    → Room m (length ip)
    → Inside m out
    → round m token ip out ≡ ended res
    → Stream (token ∷ ip) out res × Inside m res
round-ended_sound m token ip out res t b room inside e =
    let (lits, nibble, spelt, written, within, _, _) =
      copy_literals_sound m token ip out [] res t b room inside
        (round-ended m token ip out res e) in
    let head : token ≡ half_byte (length lits) * 2 ^ 4 + token % 2 ^ 4 = omega (arith, nibble) in
    (
      final lits (token % 2 ^ 4) (omega arith)
          (ap₂ (λ (x : ℕ) y. x ∷ y) head
            (spelt ∙ ap (λ t. more_bytes (length lits) ++ t) (append-nil lits)))
          written,
      within,
    )

-- The round that goes on has read a sequence of the format.
round-going_sound :
    (m : Ends) (token : ℕ) (ip out rest out' : List ℕ)
    → token < 256
    → All IsByte ip
    → Room m (length ip)
    → Inside m out
    → round m token ip out ≡ going rest out'
    → ((res : List ℕ) → Stream rest out' res → Stream (token ∷ ip) out res)
      × Inside m out'
      × (length rest < length ip)
      × All IsByte rest
round-going_sound m token ip out rest out' t b room inside e =
    let (mid, out1, literals, matched) = round-going m token ip out rest out' e in
    let (lits, nibble, spelt, written, within, shorter, bytes) =
      copy_literals_sound m token ip out mid out1 t b room inside literals in
    let (offset, extra, low, text, positive, small, behind, copied, within', less, bytes') =
      apply_match_sound m token mid out1 rest out' t bytes (omega (arith, room, shorter)) within
        matched in
    let head : token ≡ half_byte (length lits) * 2 ^ 4 + half_byte extra =
      omega (arith, nibble, low) in
    let body : ip
        ≡ more_bytes (length lits)
          ++ (lits ++ (offset % 2 ^ 8 ∷ offset / 2 ^ 8 ∷ (more_bytes extra ++ rest))) =
      spelt ∙ ap (λ t. more_bytes (length lits) ++ (lits ++ t)) text in
    (
      λ res s.
          more lits rest offset extra (ap₂ (λ (x : ℕ) y. x ∷ y) head body) positive small
            (subst (λ (t : List ℕ). offset ≤ length t) written behind)
            (subst (λ (t : List ℕ). Stream rest t res)
              (copied ∙ ap (λ (t : List ℕ). t ++ repeat_window t offset 0 (extra + 4)) written) s),
      within',
      omega (arith, shorter, less),
      bytes',
    )

wrote_eq : {a b : List ℕ} → wrote a ≡ wrote b → a ≡ b
wrote_eq e = cc

-- An output inside its buffer has not outgrown it.
pub fits_buffer :
    (m : Ends) (out : List ℕ)
    → m.op_end < 2 ^ 32
    → m.dst ≤ m.op_end
    → Inside m out
    → ltb (sub32 m.op_end m.dst) (length out) ≡ false
fits_buffer m out h l i = ground (arith, h, l, i)

pub block_loop_sound :
    (fuel : ℕ) (m : Ends) (ip out res : List ℕ)
    → All IsByte ip
    → Room m (length ip)
    → Inside m out
    → block_loop fuel m ip out ≡ wrote res
    → Stream ip out res × Inside m res
unfolding block_loop outgrows
block_loop_sound zero m ip out res b room inside e = cc
block_loop_sound (suc fuel) m [] out res b room inside e = cc
block_loop_sound (suc fuel) m (token ∷ ip) out res b room inside e =
    let s = strays_never m token ip out b.0 b.1 (omega (arith, room)) in
    elim (Round-cases (round m token ip out)) [
      | inl r ↦ let o = ap (outgrows m) r in ground (arith, s, r, o, e)
      | inr (inl (res', r)) ↦
          let (stream, within) =
            round-ended_sound m token ip out res' b.0 b.1 (omega (arith, room)) inside r in
          let w = fits_buffer m res' (omega (arith, room)) (omega (arith, room)) within in
          let o = ap (outgrows m) r ∙ w in
          let same : res' ≡ res = wrote_eq (ground (arith, s, r, o, e)) in
          subst (λ (t : List ℕ). Stream (token ∷ ip) out t × Inside m t) same (stream, within)
      | inr (inr (rest, out', r)) ↦
          let (extend, within, less, bytes) =
            round-going_sound m token ip out rest out' b.0 b.1 (omega (arith, room)) inside r in
          let w = fits_buffer m out' (omega (arith, room)) (omega (arith, room)) within in
          let o = ap (outgrows m) r ∙ w in
          let (stream, last) =
            block_loop_sound fuel m rest out' res bytes (omega (arith, room, less)) within
              (ground (arith, s, r, o, e)) in
          (extend res stream, last)
    ]

-- A round for each byte of the input is enough, where no pointer wraps.
pub block_loop-ne-no_fuel :
    (fuel : ℕ) (m : Ends) (ip out : List ℕ)
    → All IsByte ip
    → Room m (length ip)
    → Inside m out
    → length ip < fuel
    → block_loop fuel m ip out ≢ no_fuel
unfolding block_loop outgrows
block_loop-ne-no_fuel zero m ip out b room inside h e = absurd (omega arith)
block_loop-ne-no_fuel (suc fuel) m [] out b room inside h e = cc
block_loop-ne-no_fuel (suc fuel) m (token ∷ ip) out b room inside h e =
    let s = strays_never m token ip out b.0 b.1 (omega (arith, room)) in
    elim (Round-cases (round m token ip out)) [
      | inl r ↦ let o = ap (outgrows m) r in ground (arith, s, r, o, e)
      | inr (inl (res', r)) ↦
          let (stream, within) =
            round-ended_sound m token ip out res' b.0 b.1 (omega (arith, room)) inside r in
          let w = fits_buffer m res' (omega (arith, room)) (omega (arith, room)) within in
          let o = ap (outgrows m) r ∙ w in ground (arith, s, r, o, e)
      | inr (inr (rest, out', r)) ↦
          let (extend, within, less, bytes) =
            round-going_sound m token ip out rest out' b.0 b.1 (omega (arith, room)) inside r in
          let w = fits_buffer m out' (omega (arith, room)) (omega (arith, room)) within in
          let o = ap (outgrows m) r ∙ w in
          block_loop-ne-no_fuel fuel m rest out' bytes (omega (arith, room, less)) within
            (omega (arith, less)) (ground (arith, s, r, o, e))
    ]
