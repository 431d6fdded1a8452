-- ===== src/Lz4/Frame/Tests.antt =====
-- Runs of the frame decoder, and the claims at a concrete frame: a compressed and a stored block,
-- with the size and the checksum of the content.
use adr_os.Prelude.{ℕ, ◌≤◌, List, [], ◌∷◌, length, some, none, ◌≡◌, ◌≢◌, ◌↔◌, refl, arith}
use adr_os.Lz4.{
  lz4_decompress_block, block_loop, strays, outgrows, round, match_round, copy_literals,
  apply_match, read_len, extend, passes, ip_at, op_at, copy_match,
}
use adr_os.Lz4.Frame.{
  lz4_decompress_frame, read_le32, read_le64, flag, skip, frame_header, stored_block, packed_block,
  data_block, data_blocks, starved, content_checksum, frame_end, frame_tail,
}
use adr_os.Lz4.Frame.Layout.{Frame}
use adr_os.Lz4.Frame.Whole.{lz4_decompress_frame-Frame}
use adr_os.Lz4.Frame.Finish.{data_blocks-ne-starved}
use adr_os.Xxhash.{xxh32}

abbrev sample : List ℕ
sample =
    4 ∷ 34 ∷ 77 ∷ 24 ∷ 108 ∷ 64 ∷ 11 ∷ 0 ∷ 0 ∷ 0 ∷ 0 ∷ 0 ∷ 0 ∷ 0 ∷ 124 ∷ 7 ∷ 0 ∷ 0 ∷ 0 ∷ 34 ∷ 97
    ∷ 98 ∷ 2 ∷ 0 ∷ 16 ∷ 33 ∷ 2 ∷ 0 ∷ 0 ∷ 128 ∷ 79 ∷ 75 ∷ 0 ∷ 0 ∷ 0 ∷ 0 ∷ 146 ∷ 146 ∷ 163 ∷ 77 ∷ []

abbrev content : List ℕ
content = 97 ∷ 98 ∷ 97 ∷ 98 ∷ 97 ∷ 98 ∷ 97 ∷ 98 ∷ 33 ∷ 79 ∷ 75 ∷ []

run : lz4_decompress_frame 0x100000 sample 0x200000 11 ≡ some content
unfolding lz4_decompress_frame read_le32 read_le64 flag skip frame_header stored_block packed_block
    data_block data_blocks content_checksum frame_end frame_tail lz4_decompress_block block_loop
    strays outgrows round match_round copy_literals apply_match read_len extend passes ip_at op_at
    copy_match xxh32
run = refl

no_room : lz4_decompress_frame 0x100000 sample 0x200000 10 ≡ none
unfolding lz4_decompress_frame read_le32 read_le64 flag skip frame_header stored_block packed_block
    data_block data_blocks content_checksum frame_end frame_tail lz4_decompress_block block_loop
    strays outgrows round match_round copy_literals apply_match read_len extend passes ip_at op_at
    copy_match xxh32
no_room = refl

lz4_decompress_frame-Frame_example :
    (lz4_decompress_frame 0x100000 sample 0x200000 11 ≡ some content)
    ↔ (Frame sample content × (length content ≤ 11))
lz4_decompress_frame-Frame_example =
    lz4_decompress_frame-Frame 0x100000 0x200000 11 sample content (omega arith) (omega arith)

data_blocks-ne-starved_example :
    data_blocks 41 (record { ip_end = 0x100028; dst = 0x200000; op_end = 0x20000B }) 0 11 sample []
    ≢ starved
data_blocks-ne-starved_example =
    data_blocks-ne-starved 41 (record { ip_end = 0x100028; dst = 0x200000; op_end = 0x20000B }) 0 11
      sample [] (omega arith) (omega arith) (omega arith) (omega arith) (omega arith)
