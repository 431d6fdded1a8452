-- ===== src/Lz4/Frame/Whole.antt =====
-- `lz4_decompress_frame` as a whole: it decodes the frames of the format, and nothing else.
use adr_os.Prelude.{
  ℕ, zero, suc, ◌+◌, ◌*◌, ◌^◌, ◌≤◌, ◌<◌, false, not, ◌&&◌, List, [], some, ◌==◌, length, add32, ◌≡◌,
  ◌↔◌, inl, inr, refl, sym, ap, ◌∙◌, arith, subst, All, stop_if-eq-some, >>=-eq-some, Bool-cases,
}
use adr_os.Xxhash.{xxh32}
use adr_os.Lz4.{Ends, passes, ip_at}
use adr_os.Lz4.Lengths.{IsByte}
use adr_os.Lz4.Frame.{
  read_le32, flag, frame_header, Blocks, broken, complete, starved, data_blocks, content_checksum,
  frame_end, frame_tail, lz4_decompress_frame,
}
use adr_os.Lz4.Frame.Layout.{DataBlocks, Frame}
use adr_os.Lz4.Frame.Bytes.{Room, passes_few}
use adr_os.Lz4.Frame.Loop.{data_blocks_sound}
use adr_os.Lz4.Frame.Accept.{data_blocks_complete}
use adr_os.Lz4.Frame.Head.{flag-lt, frame_header_sound}
use adr_os.Lz4.Frame.HeadComplete.{header_complete}

-- Where the buffers of a frame of `n` bytes and an output of `cap` lie: as for a block, and the input
-- ends at least `cap` bytes below the top of the address space.
abbrev pub FrameRoom : ℕ → ℕ → ℕ → ℕ → Type 0
FrameRoom src n dst cap =
    (src + 256 * n + 19 < 2 ^ 32)
    × (src + n + cap < 2 ^ 32)
    × (2 ^ 16 ≤ dst)
    × (dst + cap + 255 * n + 19 < 2 ^ 32)

content_checksum_iff :
    (m : Ends) (cap set : ℕ) (ip out : List ℕ)
    → Room m cap (length ip)
    → set < 2
    → (content_checksum m set ip out ≡ some tt)
      ↔ (set ≡ 1 → (4 ≤ length ip) × (read_le32 ip ≡ xxh32 out 0))
unfolding content_checksum
content_checksum_iff m cap zero ip out room h = (λ _ e. absurd (omega (arith, e)), λ _. refl)
content_checksum_iff m cap (suc zero) ip out room h =
    let few = passes_few m cap 4 ip room (omega arith) in
    (
      λ e _. elim (Bool-cases (passes (ip_at m ip) 4 m.ip_end)) [
        | inl t ↦ ground (arith, t, e)
        | inr t ↦ (few.0 t, ground (arith, t, e))
      ],
      λ k. let (there, sum) = k refl in let t = few.1 there in ground (arith, t, sum),
    )
content_checksum_iff m cap (suc (suc k)) ip out room h = absurd (omega arith)

frame_end_iff :
    (m : Ends) (cap flg content_size : ℕ) (ip out res : List ℕ)
    → Room m cap (length ip)
    → (frame_end m flg content_size ip out ≡ some res) ↔ (
        (out ≡ res)
        × (flag flg 2 ≡ 1 → (4 ≤ length ip) × (read_le32 ip ≡ xxh32 out 0))
        × (flag flg 3 ≡ 1 → length out ≡ content_size))
unfolding frame_end
frame_end_iff m cap flg content_size ip out res room =
    let sum = content_checksum_iff m cap (flag flg 2) ip out room (flag-lt flg 2) in
    let test = not (flag flg 3 == 0) && not (length out == content_size) in
    (
      λ e.
          let (tt, ok, e1) = >>=-eq-some (content_checksum m (flag flg 2) ip out) _ e in
          let (size, e2) = stop_if-eq-some test (some out) e1 in
          (cc e2, sum.0 ok, λ h. ground (arith, size, h)),
      λ k.
          let ok = sum.1 k.1 in
          let size : test ≡ false = ground (arith, k.2, flag-lt flg 3) in rw (ok, size, k.0),
    )

frame_tail-eq-some :
    (m : Ends) (flg content_size : ℕ) (b : Blocks) (res : List ℕ)
    → frame_tail m flg content_size b ≡ some res
    → (rest : List ℕ) × (out : List ℕ) × (b ≡ complete rest out)
      × (frame_end m flg content_size rest out ≡ some res)
unfolding frame_tail
frame_tail-eq-some m flg content_size broken res e = cc
frame_tail-eq-some m flg content_size (complete rest out) res e = (rest, out, refl, e)
frame_tail-eq-some m flg content_size starved res e = cc

abbrev frame_ends : ℕ → List ℕ → ℕ → ℕ → Ends
frame_ends src bytes dst cap = record {
  ip_end = add32 src (length bytes);
  dst = dst;
  op_end = add32 dst cap;
}

only_frames :
    (src dst cap : ℕ) (bytes res : List ℕ)
    → All IsByte bytes
    → FrameRoom src (length bytes) dst cap
    → lz4_decompress_frame src bytes dst cap ≡ some res
    → Frame bytes res × (length res ≤ cap)
unfolding lz4_decompress_frame frame_tail
only_frames src dst cap bytes res b room e =
    let m = frame_ends src bytes dst cap in
    let room' : Room m cap (length bytes) = omega (arith, room) in
    let ((flg, content_size, ip), headed, e1) = >>=-eq-some (frame_header m bytes) _ e in
    let header = frame_header_sound m cap bytes flg content_size ip b room' headed in
    let (size, _, _, b', less) = header_complete m cap bytes flg content_size ip b room' header in
    let (rest, out, d, e2) = frame_tail-eq-some m flg content_size _ res e1 in
    let (blocks, fits, shorter, _) =
      data_blocks_sound (suc (length ip)) m (flag flg 4) cap ip [] rest out (flag-lt flg 4) b'
        (omega (arith, room', less)) (omega arith) d in
    let (same, sum, given) =
      (frame_end_iff m cap flg content_size rest out res (omega (arith, room', less, shorter))).0
        e2 in
    (
      record {
        flg = flg;
        content_size = content_size;
        ip = ip;
        rest = rest;
        header = header;
        blocks = subst (λ (t : List ℕ). DataBlocks (flag flg 4) ip [] rest t) same blocks;
        checksum = λ h.
            subst (λ (t : List ℕ). (4 ≤ length rest) × (read_le32 rest ≡ xxh32 t 0)) same (sum h);
        size = λ h. subst (λ (t : List ℕ). length t ≡ content_size) same (given h);
      },
      subst (λ (t : List ℕ). length t ≤ cap) same fits,
    )

all_frames :
    (src dst cap : ℕ) (bytes res : List ℕ)
    → All IsByte bytes
    → FrameRoom src (length bytes) dst cap
    → Frame bytes res
    → length res ≤ cap
    → lz4_decompress_frame src bytes dst cap ≡ some res
unfolding lz4_decompress_frame frame_tail
all_frames src dst cap bytes res b room f fits =
    let m = frame_ends src bytes dst cap in
    let room' : Room m cap (length bytes) = omega (arith, room) in
    let (size, headed, same, b', less) =
      header_complete m cap bytes f.flg f.content_size f.ip b room' f.header in
    let d : data_blocks (suc (length f.ip)) m (flag f.flg 4) cap f.ip [] ≡ complete f.rest res =
      data_blocks_complete (suc (length f.ip)) m (flag f.flg 4) cap f.blocks (flag-lt f.flg 4) b'
        (omega (arith, room', less)) fits (omega arith) in
    let (_, _, shorter, _) =
      data_blocks_sound (suc (length f.ip)) m (flag f.flg 4) cap f.ip [] f.rest res
        (flag-lt f.flg 4) b' (omega (arith, room', less)) (omega arith) d in
    let ended =
      (frame_end_iff m cap f.flg size f.rest res res (omega (arith, room', less, shorter))).1
        (refl, f.checksum, λ h. f.size h ∙ sym (same h)) in
    rw headed (ap (frame_tail m f.flg size) d ∙ ended)

-- The frame decoder returns the output `res` exactly when the input is a frame of the format that
-- decodes to `res` and `res` fits the output buffer; otherwise it returns -1. So an accepted frame
-- has the magic number, version 1, independent blocks and a correct header checksum; its blocks
-- decode inside both buffers, block by block; and the content checksum and the declared content
-- size, where the flags announce them, are those of the output. The input is of bytes, the buffers
-- lie where no length that the input can spell carries a pointer around the address space, the
-- output above the first 64 KB, and the input ends at least the output's size below the top of the
-- address space.
pub lz4_decompress_frame-Frame :
    (src dst dst_cap : ℕ) (bytes res : List ℕ)
    → All IsByte bytes
    → FrameRoom src (length bytes) dst dst_cap
    → (lz4_decompress_frame src bytes dst dst_cap ≡ some res)
      ↔ (Frame bytes res × (length res ≤ dst_cap))
lz4_decompress_frame-Frame src dst cap bytes res b room =
    (only_frames src dst cap bytes res b room, λ h. all_frames src dst cap bytes res b room h.0 h.1)
