-- ===== src/Lz4/Tests.antt =====
-- Runs of the block decoder, and the claims at concrete inputs.
use adr_os.Prelude.{ℕ, ◌≤◌, List, [], ◌∷◌, ◌++◌, length, ◌≡◌, ◌≢◌, ◌↔◌, refl, arith}
use adr_os.Lz4.{
  wrote, failed, no_fuel, lz4_decompress_block, block_loop, strays, outgrows, round, match_round,
  copy_literals, apply_match, read_len, extend, passes, ip_at, op_at, copy_match,
}
use adr_os.Lz4.Format.{Stream}
use adr_os.Lz4.Matches.{repeat_window, copy_match-repeat_window}
use adr_os.Lz4.Block.{lz4_decompress_block-ne-no_fuel, lz4_decompress_block-Stream}

-- The literals "ab", a match of 6 bytes at offset 2, and the literal "!".
abbrev abab : List ℕ
abab = 0x22 ∷ 97 ∷ 98 ∷ 2 ∷ 0 ∷ 0x10 ∷ 33 ∷ []

abbrev unpacked : List ℕ
unpacked = 97 ∷ 98 ∷ 97 ∷ 98 ∷ 97 ∷ 98 ∷ 97 ∷ 98 ∷ 33 ∷ []

run : lz4_decompress_block 0x100000 abab 7 0x200000 16 ≡ wrote unpacked
unfolding lz4_decompress_block block_loop strays outgrows round match_round copy_literals
    apply_match read_len extend passes ip_at op_at copy_match
run = refl

no_room : lz4_decompress_block 0x100000 abab 7 0x200000 8 ≡ failed
unfolding lz4_decompress_block block_loop strays outgrows round match_round copy_literals
    apply_match read_len extend passes ip_at op_at copy_match
no_room = refl

lz4_decompress_block-Stream_example :
    ((lz4_decompress_block 0x100000 abab 7 0x200000 16 ≡ wrote unpacked)
      ↔ (Stream abab [] unpacked × (length unpacked ≤ 16)))
    × ((lz4_decompress_block 0x100000 abab 7 0x200000 16 ≡ failed)
        ↔ ((other : List ℕ) → ¬ (Stream abab [] other × (length other ≤ 16))))
lz4_decompress_block-Stream_example =
    lz4_decompress_block-Stream 0x100000 0x200000 16 abab unpacked (omega arith) (omega arith)

lz4_decompress_block-ne-no_fuel_example : lz4_decompress_block 0x100000 abab 7 0x200000 16 ≢ no_fuel
lz4_decompress_block-ne-no_fuel_example =
    lz4_decompress_block-ne-no_fuel 0x100000 0x200000 16 abab (omega arith) (omega arith)

copy_match-repeat_window_example :
    copy_match 2 5 (7 ∷ 8 ∷ 9 ∷ []) ≡ (7 ∷ 8 ∷ 9 ∷ []) ++ repeat_window (7 ∷ 8 ∷ 9 ∷ []) 2 0 5
copy_match-repeat_window_example =
    copy_match-repeat_window (7 ∷ 8 ∷ 9 ∷ []) 2 5 (omega arith) (omega arith)
