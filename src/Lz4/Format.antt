-- ===== src/Lz4/Format.antt =====
-- The block format, independent of the decoder: which bytes stand for which output.
use adr_os.Prelude.{ℕ, ◌+◌, ◌*◌, ◌/◌, ◌%◌, ◌^◌, ◌≤◌, ◌<◌, List, ◌∷◌, ◌++◌, length, ◌≡◌}
use adr_os.Lz4.{Ends}
use adr_os.Lz4.Lengths.{half_byte, more_bytes}
use adr_os.Lz4.Matches.{repeat_window}

-- The bytes of a sequence: the token, the length and bytes of the literals, the offset, and the
-- length of the match past 4.
abbrev pub sequence : List ℕ → ℕ → ℕ → List ℕ → List ℕ
sequence lits offset extra rest =
    (half_byte (length lits) * 2 ^ 4 + half_byte extra)
    ∷ (more_bytes (length lits)
        ++ (lits ++ (offset % 2 ^ 8 ∷ offset / 2 ^ 8 ∷ (more_bytes extra ++ rest))))

-- `Stream ip out res`: behind the output `out`, the bytes `ip` decode to the output `res`. The last
-- sequence ends with its literals.
pub data Stream : List ℕ → List ℕ → List ℕ → Type 0 where
  final :
      {ip out res : List ℕ} (lits : List ℕ) (low : ℕ)
      → low < 2 ^ 4
      → ip ≡ (half_byte (length lits) * 2 ^ 4 + low) ∷ (more_bytes (length lits) ++ lits)
      → res ≡ out ++ lits
      → Stream ip out res
  more :
      {ip out res : List ℕ} (lits rest : List ℕ) (offset extra : ℕ)
      → ip ≡ sequence lits offset extra rest
      → 1 ≤ offset
      → offset < 2 ^ 16
      → offset ≤ length (out ++ lits)
      → Stream rest ((out ++ lits) ++ repeat_window (out ++ lits) offset 0 (extra + 4)) res
      → Stream ip out res

-- Buffers that addresses can hold: the input ends behind its `n` bytes, the output lies above the
-- first 64 KB, and no length that `n` bytes can spell carries a pointer around the address space.
abbrev pub Room : Ends → ℕ → Type 0
Room m n =
    (n ≤ m.ip_end)
    × (m.ip_end + 255 * n + 19 < 2 ^ 32)
    × (2 ^ 16 ≤ m.dst)
    × (m.dst ≤ m.op_end)
    × (m.op_end + 255 * n + 19 < 2 ^ 32)

-- The output so far lies inside its buffer.
abbrev pub Inside : Ends → List ℕ → Type 0
Inside m out = m.dst + length out ≤ m.op_end
