-- ===== src/Lz4/Frame/Loop.antt =====
-- The loop over the data blocks of a frame, in both directions.
use adr_os.Prelude.{
  ℕ, zero, suc, ◌+◌, ◌*◌, ◌/◌, ◌%◌, ◌^◌, ◌≤◌, ◌<◌, false, List, [], ◌∷◌, ◌++◌, Option, some, ◌==◌,
  if◌then◌else◌, length, take, drop, ◌≡◌, inl, inr, refl, sym, ap, ap₂, ◌∙◌, arith, subst, All,
  All-drop, length-take, length-drop, length-append, ◌>>=◌, stop_if-eq-some, >>=-eq-some,
  take-append-drop, Bool-cases, Option-cases,
}
use adr_os.Lz4.{Ends, passes, ip_at}
use adr_os.Lz4.Lengths.{IsByte}
use adr_os.Lz4.Complete.{drop-append}
use adr_os.Lz4.Frame.{
  read_le32, skip, stored_block, packed_block, data_block, overruns, complete, data_blocks,
}
use adr_os.Lz4.Frame.Layout.{word_bytes, DataBlocks, end_mark, stored, packed}
use adr_os.Lz4.Frame.Bytes.{Room, word_bytes-read_le32, passes_few}
use adr_os.Lz4.Frame.Payload.{packed_block_sound, stored_block_sound}

-- Bytes that are skipped are there.
pub skip_sound :
    (m : Ends) (cap set n : ℕ) (ip rest : List ℕ)
    → Room m cap (length ip)
    → set < 2
    → n ≤ 8
    → skip m set n ip ≡ some rest
    → (check : List ℕ) × (ip ≡ check ++ rest)
      × (length check ≡ n * set)
      × (rest ≡ drop (n * set) ip)
unfolding skip
skip_sound m cap zero n ip rest room s h e =
    ([], cc e, omega arith, sym (cc e) ∙ ap (λ (k : ℕ). drop k ip) {x = 0} (omega arith))
skip_sound m cap (suc zero) n ip rest room s h e =
    elim (Bool-cases (passes (ip_at m ip) n m.ip_end)) [
      | inl t ↦ ground (arith, t, e)
      | inr t ↦
          let there = (passes_few m cap n ip room h).0 t in
          let behind : drop n ip ≡ rest = ground (arith, t, e) in
          (
            take n ip,
            sym (take-append-drop n ip) ∙ ap (λ r. take n ip ++ r) behind,
            omega (arith, length-take n ip, there),
            sym behind ∙ ap (λ (k : ℕ). drop k ip) (omega arith),
          )
    ]
skip_sound m cap (suc (suc k)) n ip rest room s h e = absurd (omega arith)

pub skip_complete :
    (m : Ends) (cap set n : ℕ) (check tail : List ℕ)
    → Room m cap (length (check ++ tail))
    → set < 2
    → n ≤ 8
    → length check ≡ n * set
    → skip m set n (check ++ tail) ≡ some tail
unfolding skip
skip_complete m cap zero n [] tail room s h e = refl
skip_complete m cap zero n (x ∷ check) tail room s h e = absurd (omega (arith, e))
skip_complete m cap (suc zero) n check tail room s h e =
    let long : length check ≡ n = omega (arith, e) in
    let there =
      (passes_few m cap n (check ++ tail) room h).1
        (omega (arith, length-append check tail, long)) in
    let behind : drop n (check ++ tail) ≡ tail =
      ap (λ (k : ℕ). drop k (check ++ tail)) (sym long) ∙ drop-append check tail in
    rw (there, behind)
skip_complete m cap (suc (suc k)) n check tail room s h e = absurd (omega arith)

-- The payload of a block, by the top bit of its word.
pub payload_of : Ends → ℕ → ℕ → List ℕ → List ℕ → Option (List ℕ)
payload_of m cap word ip out =
    if word / 2 ^ 31 == 0
    then packed_block m cap (word % 2 ^ 31) ip out
    else stored_block cap (word % 2 ^ 31) ip out

pub data_block_parts :
    (m : Ends) (checks cap word : ℕ) (ip out rest out' : List ℕ)
    → data_block m checks cap word ip out ≡ some (rest, out')
    → (passes (ip_at m ip) (word % 2 ^ 31) m.ip_end ≡ false)
      × (payload_of m cap word ip out ≡ some out')
      × (skip m checks 4 (drop (word % 2 ^ 31) ip) ≡ some rest)
unfolding data_block payload_of
data_block_parts m checks cap word ip out rest out' e =
    let after : List ℕ → Option (List ℕ × List ℕ) =
      λ o. skip m checks 4 (drop (word % 2 ^ 31) ip) >>= λ r. some (r, o) in
    let (test, e1) =
      stop_if-eq-some (passes (ip_at m ip) (word % 2 ^ 31) m.ip_end)
        (payload_of m cap word ip out >>= after) e in
    let (o, payload, e2) = >>=-eq-some (payload_of m cap word ip out) after e1 in
    let (r, skipped, e3) =
      >>=-eq-some (skip m checks 4 (drop (word % 2 ^ 31) ip)) (λ r. some (r, o)) e2 in
    (test, payload ∙ ap some (cc e3), skipped ∙ ap some (cc e3))

-- What the payload adds to the output.
payload_sound :
    (m : Ends) (checks cap word : ℕ) (ip out out' check tail : List ℕ)
    → All IsByte ip
    → Room m cap (length ip)
    → length out ≤ cap
    → word < 2 ^ 32
    → passes (ip_at m ip) (word % 2 ^ 31) m.ip_end ≡ false
    → payload_of m cap word ip out ≡ some out'
    → drop (word % 2 ^ 31) ip ≡ check ++ tail
    → length check ≡ 4 * checks
    → (length out' ≤ cap)
      × (word % 2 ^ 31 ≤ length ip)
      × ((rest res : List ℕ)
          → DataBlocks checks tail out' rest res
          → DataBlocks checks (word_bytes word ++ ip) out rest res)
unfolding payload_of
payload_sound m checks cap word ip out out' check tail b room inside w test e cut long =
    let size = word % 2 ^ 31 in
    let small : size < 2 ^ 31 = omega arith in
    let body : ip ≡ take size ip ++ (check ++ tail) =
      sym (take-append-drop size ip) ∙ ap (λ t. take size ip ++ t) cut in
    elim (Bool-cases (word / 2 ^ 31 == 0)) [
      | inl h ↦
          let (within, fits, (content, s, written)) =
            packed_block_sound m cap size ip out out' b room inside small test
              (ground (arith, h, e)) in
          let exact : word ≡ length (take size ip) =
            ground (arith, h, length-take size ip, within) in
          (
            fits,
            within,
            λ rest res d.
                packed (take size ip) content check tail
                  (ap₂ (λ (x : ℕ) t. word_bytes x ++ t) exact body)
                  (omega (arith, small, length-take size ip)) s long
                  (subst (λ (t : List ℕ). DataBlocks checks tail t rest res) written d),
          )
      | inr h ↦
          let (within, fits, written) =
            stored_block_sound m cap size ip out out' room inside small test
              (ground (arith, h, e)) in
          let exact : word ≡ 2 ^ 31 + length (take size ip) =
            ground (arith, h, w, length-take size ip, within) in
          (
            fits,
            within,
            λ rest res d.
                stored (take size ip) check tail (ap₂ (λ (x : ℕ) t. word_bytes x ++ t) exact body)
                  (omega (arith, small, length-take size ip)) long
                  (subst (λ (t : List ℕ). DataBlocks checks tail t rest res) written d),
          )
    ]

-- A block that is accepted is one of the format.
pub data_block_sound :
    (m : Ends) (checks cap word : ℕ) (ip out tail out' : List ℕ)
    → checks < 2
    → All IsByte ip
    → Room m cap (length ip)
    → length out ≤ cap
    → word < 2 ^ 32
    → data_block m checks cap word ip out ≡ some (tail, out')
    → (length out' ≤ cap)
      × (word % 2 ^ 31 + 4 * checks ≤ length ip)
      × (length tail ≤ length ip)
      × All IsByte tail
      × ((rest res : List ℕ)
          → DataBlocks checks tail out' rest res
          → DataBlocks checks (word_bytes word ++ ip) out rest res)
data_block_sound m checks cap word ip out tail out' c b room inside w e =
    let size = word % 2 ^ 31 in
    let (test, payload, skipped) = data_block_parts m checks cap word ip out tail out' e in
    let cut = length-drop size ip in
    let (check, split, long, behind) =
      skip_sound m cap checks 4 (drop size ip) tail (omega (arith, room, cut)) c (omega arith)
        skipped in
    let (fits, within, grow) =
      payload_sound m checks cap word ip out out' check tail b room inside w test payload split
        long in
    (
      fits,
      omega (arith, cut, within, long, ap length split, length-append check tail),
      omega (arith, cut, ap length split, length-append check tail),
      subst (All IsByte) (sym behind)
          (All-drop IsByte (4 * checks) (drop size ip) (All-drop IsByte size ip b)),
      grow,
    )

pub data_blocks_sound :
    (fuel : ℕ) (m : Ends) (checks cap : ℕ) (ip out rest res : List ℕ)
    → checks < 2
    → All IsByte ip
    → Room m cap (length ip)
    → length out ≤ cap
    → data_blocks fuel m checks cap ip out ≡ complete rest res
    → DataBlocks checks ip out rest res
      × (length res ≤ cap)
      × (length rest ≤ length ip)
      × All IsByte rest
unfolding data_blocks
data_blocks_sound zero m checks cap ip out rest res c b room inside e = cc
data_blocks_sound (suc fuel) m checks cap ip out rest res c b room inside e =
    elim (Bool-cases (passes (ip_at m ip) 4 m.ip_end)) [
      | inl t ↦ ground (arith, t, e)
      | inr t ↦
          let there = (passes_few m cap 4 ip room (omega arith)).0 t in
          let (spelt, word) = word_bytes-read_le32 ip b there in
          let cut = length-drop 4 ip in
          let bytes = All-drop IsByte 4 ip b in
          elim (Bool-cases (read_le32 ip == 0)) [
            | inl z ↦
                let same : complete (drop 4 ip) out ≡ complete rest res = ground (arith, t, z, e) in
                let eq_rest : drop 4 ip ≡ rest = cc same in
                let eq_res : out ≡ res = cc same in
                let none_left : read_le32 ip ≡ 0 = ground (arith, z) in
                (
                  end_mark (spelt ∙ ap₂ (λ (w : ℕ) t. word_bytes w ++ t) none_left eq_rest)
                      (sym eq_res),
                  subst (λ (t : List ℕ). length t ≤ cap) eq_res inside,
                  omega (arith, ap length eq_rest, cut),
                  subst (All IsByte) eq_rest bytes,
                )
            | inr z ↦ elim (Option-cases (data_block m checks cap (read_le32 ip) (drop 4 ip) out)) [
              | inl n ↦ ground (arith, t, z, n, e)
              | inr ((tail, out'), n) ↦
                  let room' : Room m cap (length (drop 4 ip)) = omega (arith, room, cut) in
                  let (fits, there_too, less, bytes', grow) =
                    data_block_sound m checks cap (read_le32 ip) (drop 4 ip) out tail out' c bytes
                      room' inside word n in
                  let stays : overruns checks (read_le32 ip) ip ≡ false =
                    ground (arith, there, cut, there_too) in
                  let (d, last, shorter, left) =
                    data_blocks_sound fuel m checks cap tail out' rest res c bytes'
                      (omega (arith, room, cut, less)) fits (ground (arith, t, z, n, stays, e)) in
                  (
                    subst (λ (t : List ℕ). DataBlocks checks t out rest res) (sym spelt)
                        (grow rest res d),
                    last,
                    omega (arith, shorter, cut, less),
                    left,
                  )
            ]
          ]
    ]
