-- ===== src/Lz4/Frame/Finish.antt =====
-- The loop over the data blocks ends on every input.
use adr_os.Prelude.{
  ℕ, zero, suc, ◌≤◌, ◌<◌, false, List, ◌==◌, length, drop, ◌≡◌, ◌≢◌, inl, inr, arith, length-drop,
  Bool-cases, Option-cases, All, All-drop,
}
use adr_os.Lz4.{Ends, passes, ip_at}
use adr_os.Lz4.Lengths.{IsByte}
use adr_os.Lz4.Frame.{read_le32, data_block, overruns, starved, data_blocks}
use adr_os.Lz4.Frame.Bytes.{Room, word_bytes-read_le32, passes_few}
use adr_os.Lz4.Frame.Loop.{data_block_sound}

-- The loop over the data blocks of a frame ends on every input, well formed or not, within one round
-- more than there are bytes. The input is of bytes and the output so far fits, and the buffers lie
-- where no length that the input can spell, and no block as long as the output buffer, carries a
-- pointer around the address space, the output above the first 64 KB.
pub data_blocks-ne-starved :
    (fuel : ℕ) (m : Ends) (checks cap : ℕ) (ip out : List ℕ)
    → checks < 2
    → All IsByte ip
    → Room m cap (length ip)
    → length out ≤ cap
    → length ip < fuel
    → data_blocks fuel m checks cap ip out ≢ starved
unfolding data_blocks
data_blocks-ne-starved zero m checks cap ip out c b room inside h e = absurd (omega arith)
data_blocks-ne-starved (suc fuel) m checks cap ip out c b room inside h e =
    elim (Bool-cases (passes (ip_at m ip) 4 m.ip_end)) [
      | inl t ↦ ground (arith, t, e)
      | inr t ↦ elim (Bool-cases (read_le32 ip == 0)) [
        | inl z ↦ ground (arith, t, z, e)
        | inr z ↦ elim (Option-cases (data_block m checks cap (read_le32 ip) (drop 4 ip) out)) [
          | inl n ↦ ground (arith, t, z, n, e)
          | inr ((tail, out'), n) ↦
              let there = (passes_few m cap 4 ip room (omega arith)).0 t in
              let (spelt, word) = word_bytes-read_le32 ip b there in
              let cut = length-drop 4 ip in
              let (fits, within, less, bytes, grow) =
                data_block_sound m checks cap (read_le32 ip) (drop 4 ip) out tail out' c
                  (All-drop IsByte 4 ip b) (omega (arith, room, cut)) inside word n in
              let stays : overruns checks (read_le32 ip) ip ≡ false =
                ground (arith, there, cut, within) in
              data_blocks-ne-starved fuel m checks cap tail out' c bytes
                (omega (arith, room, cut, less)) fits (omega (arith, h, there, cut, less))
                (ground (arith, t, z, n, stays, e))
        ]
      ]
    ]
