-- ===== src/Lz4/Block.antt =====
-- `lz4_decompress_block` as a whole: it answers on every input, and its answer is the format's.
use adr_os.Prelude.{
  ℕ, suc, ◌+◌, ◌*◌, ◌^◌, ◌≤◌, ◌<◌, List, [], length, take, ◌≡◌, ◌≢◌, ◌↔◌, ◌⊎◌, refl, inl, inr, sym,
  ap, ◌∙◌, arith, All, append-nil, leb, if◌then◌else◌, add32, Bool-cases, if_cases,
}
use adr_os.Lz4.{Ends, Outcome, failed, wrote, no_fuel, block_loop, lz4_decompress_block}
use adr_os.Lz4.Lengths.{IsByte}
use adr_os.Lz4.Format.{Stream, final, more}
use adr_os.Lz4.Decode.{block_loop_sound, block_loop-ne-no_fuel}
use adr_os.Lz4.Complete.{take-append, block_loop_complete}

-- Where a caller's buffers of `n` and `cap` bytes lie: the output above the first 64 KB, and both so
-- far below the top of the address space that no length in the input carries a pointer around it.
abbrev pub BlockRoom : ℕ → ℕ → ℕ → ℕ → Type 0
BlockRoom src n dst cap =
    (src + 256 * n + 19 < 2 ^ 32) × (2 ^ 16 ≤ dst) × (dst + cap + 255 * n + 19 < 2 ^ 32)

abbrev ends : ℕ → ℕ → ℕ → ℕ → Ends
ends src n dst cap = record { ip_end = add32 src n; dst = dst; op_end = add32 dst cap }

take-length : (xs : List ℕ) → take (length xs) xs ≡ xs
take-length xs = ap (take (length xs)) (sym (append-nil xs)) ∙ take-append xs []

pub Stream-nonempty : {ip out res : List ℕ} → Stream ip out res → 1 ≤ length ip
Stream-nonempty (final lits low h e f) = omega (arith, ap length e)
Stream-nonempty (more lits rest offset extra e p s b st) = omega (arith, ap length e)

-- The entry's test, and the loop on the whole input.
block_entry :
    (src dst cap : ℕ) (bytes : List ℕ)
    → BlockRoom src (length bytes) dst cap
    → lz4_decompress_block src bytes (length bytes) dst cap ≡ (
        if leb (length bytes) 0
        then failed
        else block_loop (suc (length bytes)) (ends src (length bytes) dst cap) bytes [])
unfolding lz4_decompress_block
block_entry src dst cap bytes room = rw take-length (
    ap
      (λ t.
        if t
        then failed
        else block_loop (suc (length bytes)) (ends src (length bytes) dst cap) bytes [])
      test)
  where
    test : leb (add32 src (length bytes)) src ≡ leb (length bytes) 0
    test = ground (arith, room)

-- The block decoder ends on every input, well formed or not, and gives an answer, within one round
-- more than the input has bytes. The input is of bytes, all of it is given, and the buffers lie
-- where no length that the input can spell carries a pointer around the address space, the output
-- above the first 64 KB.
pub lz4_decompress_block-ne-no_fuel :
    (src dst dst_cap : ℕ) (bytes : List ℕ)
    → All IsByte bytes
    → BlockRoom src (length bytes) dst dst_cap
    → lz4_decompress_block src bytes (length bytes) dst dst_cap ≢ no_fuel
lz4_decompress_block-ne-no_fuel src dst dst_cap bytes b room e =
    let n = length bytes in
    if_cases (λ r. r ≢ no_fuel) (leb n 0) failed
      (block_loop (suc n) (ends src n dst dst_cap) bytes []) (λ _ h. cc)
      (λ _.
        block_loop-ne-no_fuel (suc n) (ends src n dst dst_cap) bytes [] b (omega (arith, room))
          (omega (arith, room)) (omega arith))
      (sym (block_entry src dst dst_cap bytes room) ∙ e)

Outcome-answers : (r : Outcome) → r ≢ no_fuel → (r ≡ failed) ⊎ ((res : List ℕ) × (r ≡ wrote res))
Outcome-answers failed n = inl refl
Outcome-answers (wrote res) n = inr (res, refl)
Outcome-answers no_fuel n = absurd (n refl)

-- Success is decoding.
pub wrote-Stream :
    (src dst dst_cap : ℕ) (bytes res : List ℕ)
    → All IsByte bytes
    → BlockRoom src (length bytes) dst dst_cap
    → (lz4_decompress_block src bytes (length bytes) dst dst_cap ≡ wrote res)
      ↔ (Stream bytes [] res × (length res ≤ dst_cap))
wrote-Stream src dst cap bytes res b room = (there, back)
  where
    m : Ends
    m = ends src (length bytes) dst cap

    loop :
        (Stream bytes [] res × (length res ≤ cap))
        ↔ (block_loop (suc (length bytes)) m bytes [] ≡ wrote res)
    loop = (
      λ h.
          block_loop_complete (suc (length bytes)) m h.0 (omega (arith, room))
            (omega (arith, room, h.1)) (omega arith),
      λ e.
          let (s, inside) =
            block_loop_sound (suc (length bytes)) m bytes [] res b (omega (arith, room))
              (omega (arith, room)) e in
          (s, omega (arith, room, inside)),
    )

    there :
        lz4_decompress_block src bytes (length bytes) dst cap ≡ wrote res
        → Stream bytes [] res × (length res ≤ cap)
    there e = elim (Bool-cases (leb (length bytes) 0)) [
      | inl h ↦ ground (arith, h, block_entry src dst cap bytes room, e)
      | inr h ↦ loop.1 (ground (arith, h, block_entry src dst cap bytes room, e))
    ]

    back :
        Stream bytes [] res × (length res ≤ cap)
        → lz4_decompress_block src bytes (length bytes) dst cap ≡ wrote res
    back h =
        let long = Stream-nonempty h.0 in
        block_entry src dst cap bytes room ∙ ground (arith, long, loop.0 h)

-- The block decoder returns the output `res` exactly when the input is a stream of the block format
-- that decodes to `res` and `res` fits the output buffer; and it returns -1 exactly when there is no
-- such output.
-- The input is of bytes, all of it is given, and the buffers lie where no length that the input can
-- spell carries a pointer around the address space, the output above the first 64 KB.
pub lz4_decompress_block-Stream :
    (src dst dst_cap : ℕ) (bytes res : List ℕ)
    → All IsByte bytes
    → BlockRoom src (length bytes) dst dst_cap
    → ((lz4_decompress_block src bytes (length bytes) dst dst_cap ≡ wrote res)
        ↔ (Stream bytes [] res × (length res ≤ dst_cap)))
      × ((lz4_decompress_block src bytes (length bytes) dst dst_cap ≡ failed)
          ↔ ((other : List ℕ) → ¬ (Stream bytes [] other × (length other ≤ dst_cap))))
lz4_decompress_block-Stream src dst cap bytes res b room =
    let this : (other : List ℕ)
        → (lz4_decompress_block src bytes (length bytes) dst cap ≡ wrote other)
          ↔ (Stream bytes [] other × (length other ≤ cap)) =
      λ other. wrote-Stream src dst cap bytes other b room in
    (
      this res,
      (
        λ e other h. wrote_not_failed (sym ((this other).1 h) ∙ e),
        λ nothing.
            elim (Outcome-answers (lz4_decompress_block src bytes (length bytes) dst cap)
              (lz4_decompress_block-ne-no_fuel src dst cap bytes b room)) [
                | inl e ↦ e
                | inr (other, e) ↦ absurd (nothing other ((this other).0 e))
              ],
      ),
    )
  where
    wrote_not_failed : {other : List ℕ} → wrote other ≢ failed
    wrote_not_failed e = cc
