-- ===== src/Lz4/Frame.antt =====
-- `lz4_decompress_frame` of src/kernel/lz4.c: the header, the data blocks and the checksum.

-- `ip` is the list of the bytes left, `out` the list of the bytes between `dst` and `op`.
pub mod Layout
pub mod Bytes
pub mod Payload
pub mod Loop
pub mod Accept
pub mod Head
pub mod HeadComplete
pub mod Whole
pub mod Finish
mod Tests
use adr_os.Prelude.{
  ℕ, zero, suc, ◌+◌, ◌-◌, ◌*◌, ◌/◌, ◌%◌, ◌^◌, Bool, true, false, not, ◌&&◌, List, [], ◌∷◌, ◌++◌,
  Option, none, some, ltb, ◌==◌, if◌then◌else◌, length, get_or, take, drop, add32, sub32, ◌>>=◌,
  ◌>>◌, stop_if,
}
use adr_os.Xxhash.{xxh32}
use adr_os.Lz4.{Ends, passes, ip_at, op_at, Outcome, failed, wrote, no_fuel, lz4_decompress_block}

-- The bytes of a number, lowest first, are disjoint parts of it, so `|` adds them.
pub read_le32 : List ℕ → ℕ
read_le32 p = get_or p 0 0 + get_or p 1 0 * 2 ^ 8 + get_or p 2 0 * 2 ^ 16 + get_or p 3 0 * 2 ^ 24

pub read_le64 : List ℕ → ℕ
unfolding read_le32
read_le64 p = read_le32 p + read_le32 (drop 4 p) * 2 ^ 32

-- `LZ4_FRAME_MAGIC`
abbrev pub frame_magic : ℕ
frame_magic = 0x184D2204

-- `(flg >> k) & 1`
unfoldable pub flag : ℕ → ℕ → ℕ
flag flg k = flg / 2 ^ k % 2

-- `if (flag) { if (ip + n > ip_end) return -1; ip += n; }`: the bytes behind
unfoldable pub skip : Ends → ℕ → ℕ → List ℕ → Option (List ℕ)
skip m set n ip =
    if set == 0 then some ip else if passes (ip_at m ip) n m.ip_end then none else some (drop n ip)

-- What the header says: FLG, the content size (0 when it is not there), and the bytes behind it.
unfoldable pub frame_header : Ends → List ℕ → Option (ℕ × ℕ × List ℕ)
frame_header m src = do
  stop_if (ltb (length src) 7)
  stop_if (not (read_le32 src == frame_magic))
  let desc = drop 4 src
  let flg = get_or desc 0 0
  stop_if (not (flg / 2 ^ 6 % 4 == 1))
  stop_if (flag flg 5 == 0)
  behind_size ← skip m (flag flg 3) 8 (drop 2 desc)
  let content_size = if flag flg 3 == 0 then 0 else read_le64 (drop 2 desc)
  behind_dict ← skip m (flag flg 0) 4 behind_size
  stop_if (passes (ip_at m behind_dict) 1 m.ip_end)
  let desc_len = length desc - length behind_dict
  stop_if (not (get_or behind_dict 0 0 == xxh32 (take desc_len desc) 0 / 2 ^ 8 % 2 ^ 8))
  some (flg, content_size, drop 1 behind_dict)

-- An uncompressed block: `total_out` is the length of the output.
unfoldable pub stored_block : ℕ → ℕ → List ℕ → List ℕ → Option (List ℕ)
stored_block dst_cap size ip out = do
  stop_if (ltb dst_cap (add32 (length out) size))
  some (out ++ take size ip)

-- A compressed block, decoded to the place behind the output.
unfoldable pub packed_block : Ends → ℕ → ℕ → List ℕ → List ℕ → Option (List ℕ)
packed_block m dst_cap size ip out =
    elim (lz4_decompress_block (ip_at m ip) ip size (op_at m out) (sub32 dst_cap (length out))) [
      | wrote bytes ↦ some (out ++ bytes)
      | failed ↦ none
      | no_fuel ↦ none
    ]

-- A block behind its size field `word`: the bytes behind the block, and the output with it.
unfoldable pub data_block : Ends → ℕ → ℕ → ℕ → List ℕ → List ℕ → Option (List ℕ × List ℕ)
data_block m checksums dst_cap word ip out = do
  let block_size = word % 2 ^ 31
  stop_if (passes (ip_at m ip) block_size m.ip_end)
  out' ←
      if word / 2 ^ 31 == 0
      then packed_block m dst_cap block_size ip out
      else stored_block dst_cap block_size ip out
  rest ← skip m checksums 4 (drop block_size ip)
  some (rest, out')

-- Whether a block that passed its tests is longer than what is left: then a pointer has wrapped around
-- the address space, and the code reads on outside of its input.
abbrev pub overruns : ℕ → ℕ → List ℕ → Bool
overruns checksums word ip = ltb (length ip) (4 + word % 2 ^ 31 + 4 * checksums)

-- How the loop over the blocks ends: `return -1`, behind the end mark with the output, or not within
-- the rounds given or outside of its input, where the model does not follow it.
pub data Blocks : Type 0 where
  broken : Blocks
  complete : List ℕ → List ℕ → Blocks
  starved : Blocks

unfoldable pub data_blocks : ℕ → Ends → ℕ → ℕ → List ℕ → List ℕ → Blocks
data_blocks zero m checksums dst_cap ip out = starved
data_blocks (suc fuel) m checksums dst_cap ip out = elim (passes (ip_at m ip) 4 m.ip_end) [
  | true ↦ broken
  | false ↦ elim (read_le32 ip == 0) [
    | true ↦ complete (drop 4 ip) out
    | false ↦ elim (data_block m checksums dst_cap (read_le32 ip) (drop 4 ip) out) [
      | none ↦ broken
      | some (rest, out') ↦ elim (overruns checksums (read_le32 ip) ip) [
        | true ↦ starved
        | false ↦ data_blocks fuel m checksums dst_cap rest out'
      ]
    ]
  ]
]

-- The content checksum, when the frame has one.
unfoldable pub content_checksum : Ends → ℕ → List ℕ → List ℕ → Option (Unit {0})
content_checksum m set ip out =
    if set == 0
    then some tt
    else if passes (ip_at m ip) 4 m.ip_end
    then none
    else stop_if (not (read_le32 ip == xxh32 out 0))

-- What follows the blocks: the checksum, and the content size when it is declared.
unfoldable pub frame_end : Ends → ℕ → ℕ → List ℕ → List ℕ → Option (List ℕ)
frame_end m flg content_size ip out = do
  content_checksum m (flag flg 2) ip out
  stop_if (not (flag flg 3 == 0) && not (length out == content_size))
  some out

-- What becomes of the loop's end.
unfoldable pub frame_tail : Ends → ℕ → ℕ → Blocks → Option (List ℕ)
frame_tail m flg content_size broken = none
frame_tail m flg content_size (complete rest out) = frame_end m flg content_size rest out
frame_tail m flg content_size starved = none

-- `lz4_decompress_frame(src, src_size, dst, dst_cap)`, on the `src_size` bytes at `src`: the bytes
-- written, or `none` for -1 and where the model has no answer (see `Blocks` and `Outcome`). A block takes its four bytes of size at least.
unfoldable pub lz4_decompress_frame : ℕ → List ℕ → ℕ → ℕ → Option (List ℕ)
lz4_decompress_frame src bytes dst dst_cap = do
  let m : Ends = record { ip_end = add32 src (length bytes); dst = dst; op_end = add32 dst dst_cap }
  (flg, content_size, ip) ← frame_header m bytes
  frame_tail m flg content_size (data_blocks (suc (length ip)) m (flag flg 4) dst_cap ip [])
