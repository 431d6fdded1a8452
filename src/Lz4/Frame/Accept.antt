-- ===== src/Lz4/Frame/Accept.antt =====
-- The loop over the data blocks accepts every sequence of blocks that fits, and it ends.
use adr_os.Prelude.{
  ℕ, zero, suc, ◌+◌, ◌-◌, ◌*◌, ◌/◌, ◌%◌, ◌^◌, ◌≤◌, ◌<◌, true, false, List, [], ◌++◌, some, ◌==◌,
  length, drop, ◌≡◌, sym, ap, ◌∙◌, arith, subst, All, All-drop, length-append,
}
use adr_os.Lz4.{Ends, passes, ip_at}
use adr_os.Lz4.Lengths.{IsByte}
use adr_os.Lz4.Format.{Stream}
use adr_os.Lz4.Sound.{passes_lem}
use adr_os.Lz4.Complete.{drop-append}
use adr_os.Lz4.Block.{Stream-nonempty}
use adr_os.Lz4.Frame.{read_le32, overruns, data_block, complete, data_blocks}
use adr_os.Lz4.Frame.Layout.{word_bytes, DataBlocks, end_mark, stored, packed}
use adr_os.Lz4.Frame.Bytes.{Room, read_le32-word_bytes, passes_few}
use adr_os.Lz4.Frame.Payload.{packed_block_complete, stored_block_complete}
use adr_os.Lz4.Frame.Loop.{skip_complete}

-- The payload's own test.
payload_fits :
    (m : Ends) (cap : ℕ) (payload tail : List ℕ)
    → Room m cap (length (payload ++ tail))
    → passes (ip_at m (payload ++ tail)) (length payload) m.ip_end ≡ false
unfolding ip_at
payload_fits m cap payload tail room =
    let n = length-append payload tail in
    passes_lem (m.ip_end - length (payload ++ tail)) (length payload) m.ip_end
      (omega (arith, room, n))
    ∙ ground (arith, room, n)

stored-data_block :
    (m : Ends) (checks cap : ℕ) (payload check tail out : List ℕ)
    → checks < 2
    → Room m cap (length (payload ++ (check ++ tail)))
    → length payload < 2 ^ 31
    → length check ≡ 4 * checks
    → length (out ++ payload) ≤ cap
    → data_block m checks cap (2 ^ 31 + length payload) (payload ++ (check ++ tail)) out
      ≡ some (tail, out ++ payload)
unfolding data_block
stored-data_block m checks cap payload check tail out c room small long fits =
    let size : (2 ^ 31 + length payload) % 2 ^ 31 ≡ length payload = omega (arith, small) in
    let top : (((2 ^ 31 + length payload) / 2 ^ 31) == 0) ≡ false = ground (arith, small) in
    let n = length-append payload (check ++ tail) in
    rw (
      size,
      payload_fits m cap payload (check ++ tail) room,
      top,
      stored_block_complete cap payload (check ++ tail) out (omega (arith, room)) fits,
      drop-append payload (check ++ tail),
      skip_complete m cap checks 4 check tail (omega (arith, room, n)) c (omega arith) long,
    )

packed-data_block :
    (m : Ends) (checks cap : ℕ) (payload check tail out content : List ℕ)
    → checks < 2
    → All IsByte (payload ++ (check ++ tail))
    → Room m cap (length (payload ++ (check ++ tail)))
    → length payload < 2 ^ 31
    → length check ≡ 4 * checks
    → Stream payload [] content
    → length (out ++ content) ≤ cap
    → data_block m checks cap (length payload) (payload ++ (check ++ tail)) out
      ≡ some (tail, out ++ content)
unfolding data_block
packed-data_block m checks cap payload check tail out content c b room small long s fits =
    let size : length payload % 2 ^ 31 ≡ length payload = omega (arith, small) in
    let top : ((length payload / 2 ^ 31) == 0) ≡ true = ground (arith, small) in
    let n = length-append payload (check ++ tail) in
    rw (
      size,
      payload_fits m cap payload (check ++ tail) room,
      top,
      packed_block_complete m cap payload (check ++ tail) out content b room
          (omega (arith, fits, length-append out content)) s fits,
      drop-append payload (check ++ tail),
      skip_complete m cap checks 4 check tail (omega (arith, room, n)) c (omega arith) long,
    )

-- One round of the loop, by what it finds.
loop_ends :
    (fuel : ℕ) (m : Ends) (checks cap : ℕ) (rest out : List ℕ)
    → Room m cap (length (word_bytes 0 ++ rest))
    → data_blocks (suc fuel) m checks cap (word_bytes 0 ++ rest) out ≡ complete rest out
unfolding data_blocks
loop_ends fuel m checks cap rest out room =
    let there = (passes_few m cap 4 (word_bytes 0 ++ rest) room (omega arith)).1 (omega arith) in
    let word = read_le32-word_bytes 0 rest (omega arith) in ground (arith, there, word)

next_round :
    (fuel : ℕ) (m : Ends) (checks cap : ℕ) (ip out tail out' : List ℕ)
    → passes (ip_at m ip) 4 m.ip_end ≡ false
    → (read_le32 ip == 0) ≡ false
    → data_block m checks cap (read_le32 ip) (drop 4 ip) out ≡ some (tail, out')
    → overruns checks (read_le32 ip) ip ≡ false
    → data_blocks (suc fuel) m checks cap ip out ≡ data_blocks fuel m checks cap tail out'
unfolding data_blocks
next_round fuel m checks cap ip out tail out' there nonzero e s =
    ground (arith, there, nonzero, e, s)

loop_goes :
    (fuel : ℕ) (m : Ends) (checks cap word : ℕ) (ip out tail out' : List ℕ)
    → Room m cap (4 + length ip)
    → word < 2 ^ 32
    → 1 ≤ word
    → data_block m checks cap word ip out ≡ some (tail, out')
    → word % 2 ^ 31 + 4 * checks ≤ length ip
    → data_blocks (suc fuel) m checks cap (word_bytes word ++ ip) out
      ≡ data_blocks fuel m checks cap tail out'
loop_goes fuel m checks cap word ip out tail out' room w positive e enough =
    let there =
      (passes_few m cap 4 (word_bytes word ++ ip) (omega (arith, room)) (omega arith)).1
        (omega arith) in
    let read = read_le32-word_bytes word ip w in
    next_round fuel m checks cap (word_bytes word ++ ip) out tail out' there
      (ap (λ (x : ℕ). x == 0) read ∙ ground (arith, positive))
      (ap (λ (x : ℕ). data_block m checks cap x ip out) read ∙ e)
      (ap (λ (x : ℕ). overruns checks x (word_bytes word ++ ip)) read ∙ ground (arith, enough))

tail_bytes : (xs ys zs : List ℕ) → All IsByte (xs ++ (ys ++ zs)) → All IsByte zs
tail_bytes xs ys zs b = subst (All IsByte) (drop-append ys zs) (
    All-drop IsByte (length ys) (ys ++ zs) (
      subst (All IsByte) (drop-append xs (ys ++ zs))
        (All-drop IsByte (length xs) (xs ++ (ys ++ zs)) b)))

-- The output only grows.
DataBlocks-le :
    {checks : ℕ} {ip out rest res : List ℕ}
    → DataBlocks checks ip out rest res
    → length out ≤ length res
DataBlocks-le (end_mark e f) = omega (arith, ap length f)
DataBlocks-le {out} (stored payload check tail e small long d) =
    omega (arith, DataBlocks-le d, length-append out payload)
DataBlocks-le {out} (packed payload content check tail e small s long d) =
    omega (arith, DataBlocks-le d, length-append out content)

pub data_blocks_complete :
    (fuel : ℕ) (m : Ends) (checks cap : ℕ) {ip out rest res : List ℕ}
    → DataBlocks checks ip out rest res
    → checks < 2
    → All IsByte ip
    → Room m cap (length ip)
    → length res ≤ cap
    → length ip < fuel
    → data_blocks fuel m checks cap ip out ≡ complete rest res
data_blocks_complete zero m checks cap d c b room fits h = absurd (omega arith)
data_blocks_complete (suc fuel) m checks cap {ip} {out} {rest} (end_mark e f) c b room fits h =
    ap (λ (t : List ℕ). data_blocks (suc fuel) m checks cap t out) e
    ∙ loop_ends fuel m checks cap rest out (subst (λ (t : List ℕ). Room m cap (length t)) e room)
    ∙ ap (complete rest) (sym f)
data_blocks_complete (suc fuel) m checks cap {ip} {out} {rest} {res}
      (stored payload check tail e small long d) c b room fits h =
    let size : length ip ≡ 4 + length (payload ++ (check ++ tail)) = ap length e ∙ omega arith in
    let cut = length-append payload (check ++ tail) in
    let cut' = length-append check tail in
    let bytes =
      All-drop IsByte 4 (word_bytes (2 ^ 31 + length payload) ++ (payload ++ (check ++ tail)))
        (subst (All IsByte) e b) in
    let step =
      stored-data_block m checks cap payload check tail out c (omega (arith, room, size)) small long
        (omega (arith, DataBlocks-le d, fits)) in
    ap (λ (t : List ℕ). data_blocks (suc fuel) m checks cap t out) e
    ∙ loop_goes fuel m checks cap (2 ^ 31 + length payload) (payload ++ (check ++ tail)) out tail
        (out ++ payload) (omega (arith, room, size)) (omega (arith, small)) (omega arith) step
        (omega (arith, small, cut, cut', long))
    ∙ data_blocks_complete fuel m checks cap d c (tail_bytes payload check tail bytes)
        (omega (arith, room, size, cut, cut')) fits (omega (arith, h, size, cut, cut'))
data_blocks_complete (suc fuel) m checks cap {ip} {out} {rest} {res}
      (packed payload content check tail e small s long d) c b room fits h =
    let size : length ip ≡ 4 + length (payload ++ (check ++ tail)) = ap length e ∙ omega arith in
    let cut = length-append payload (check ++ tail) in
    let cut' = length-append check tail in
    let bytes =
      All-drop IsByte 4 (word_bytes (length payload) ++ (payload ++ (check ++ tail)))
        (subst (All IsByte) e b) in
    let step =
      packed-data_block m checks cap payload check tail out content c bytes
        (omega (arith, room, size)) small long s (omega (arith, DataBlocks-le d, fits)) in
    ap (λ (t : List ℕ). data_blocks (suc fuel) m checks cap t out) e
    ∙ loop_goes fuel m checks cap (length payload) (payload ++ (check ++ tail)) out tail
        (out ++ content) (omega (arith, room, size)) (omega (arith, small)) (Stream-nonempty s) step
        (omega (arith, small, cut, cut', long))
    ∙ data_blocks_complete fuel m checks cap d c (tail_bytes payload check tail bytes)
        (omega (arith, room, size, cut, cut')) fits (omega (arith, h, size, cut, cut'))
