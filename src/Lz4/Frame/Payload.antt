-- ===== src/Lz4/Frame/Payload.antt =====
-- The payload of one data block.
use adr_os.Prelude.{
  ℕ, ◌+◌, ◌-◌, ◌^◌, ◌≤◌, ◌<◌, false, List, [], ◌++◌, some, ◌≢◌, ltb, length, take, add32, sub32,
  ◌≡◌, ◌↔◌, ◌⊎◌, inl, inr, refl, sym, ap, ap₂, ◌∙◌, arith, subst, All, All-take, length-take,
  length-append, dec_le, stop_if-eq-some,
}
use adr_os.Lz4.{Ends, passes, ip_at, op_at, Outcome, failed, wrote, no_fuel, lz4_decompress_block}
use adr_os.Lz4.Lengths.{IsByte}
use adr_os.Lz4.Format.{Stream}
use adr_os.Lz4.Complete.{take-append}
use adr_os.Lz4.Block.{wrote-Stream}
use adr_os.Lz4.Frame.{stored_block, packed_block}
use adr_os.Lz4.Frame.Bytes.{Room, take-take}

block_take :
    (src size dst cap : ℕ) (bytes : List ℕ)
    → lz4_decompress_block src bytes size dst cap
      ≡ lz4_decompress_block src (take size bytes) size dst cap
unfolding lz4_decompress_block
block_take src size dst cap bytes = rw (take-take size bytes)

-- A block whose end is carried past the top of the address space is refused.
block_wrapped :
    (src size dst cap : ℕ) (bytes : List ℕ)
    → src < 2 ^ 32
    → size < 2 ^ 32
    → 2 ^ 32 ≤ src + size
    → lz4_decompress_block src bytes size dst cap ≡ failed
unfolding lz4_decompress_block
block_wrapped src size dst cap bytes h k l = ground (arith, h, k, l)

-- A payload lies inside the input, as soon as its size passed the test and it was not refused.
payload_cases :
    (m : Ends) (cap size : ℕ) (ip : List ℕ)
    → Room m cap (length ip)
    → size < 2 ^ 31
    → passes (ip_at m ip) size m.ip_end ≡ false
    → (size ≤ length ip) ⊎ (2 ^ 32 ≤ ip_at m ip + size)
unfolding passes ip_at
payload_cases m cap size ip room small e = elim (dec_le size (length ip)) [
  | yes h ↦ inl h
  | no h ↦ inr (ground (arith, room, small, e, h))
]

-- The compressed payload is the stream that its size cuts out, and it is decoded behind the output.
abbrev inner_output : Ends → ℕ → ℕ → List ℕ → List ℕ → Outcome
inner_output m cap size ip out =
    lz4_decompress_block (ip_at m ip) ip size (op_at m out) (sub32 cap (length out))

inner_output-Stream :
    (m : Ends) (cap size : ℕ) (ip out content : List ℕ)
    → All IsByte ip
    → Room m cap (length ip)
    → length out ≤ cap
    → size ≤ length ip
    → (inner_output m cap size ip out ≡ wrote content)
      ↔ (Stream (take size ip) [] content × (length (out ++ content) ≤ cap))
unfolding ip_at op_at
inner_output-Stream m cap size ip out content b room inside h =
    let src = m.ip_end - length ip in
    let text = take size ip in
    let long : length text ≡ size = omega (arith, length-take size ip, h) in
    let op : add32 m.dst (length out) ≡ m.dst + length out = omega (arith, room, inside) in
    let left : sub32 cap (length out) ≡ cap - length out = omega (arith, room, inside) in
    let same : lz4_decompress_block src ip size (add32 m.dst (length out)) (sub32 cap (length out))
        ≡ lz4_decompress_block src text (length text) (m.dst + length out) (cap - length out) =
      block_take src size (add32 m.dst (length out)) (sub32 cap (length out)) ip
      ∙ ap₂ (λ (d c : ℕ). lz4_decompress_block src text size d c) op left
      ∙ ap (λ (n : ℕ). lz4_decompress_block src text n (m.dst + length out) (cap - length out))
          (sym long) in
    let whole =
      wrote-Stream src (m.dst + length out) (cap - length out) text content
        (All-take IsByte size ip b) (omega (arith, room, inside, long, h)) in
    let grown = length-append out content in
    (
      λ e. let (s, fits) = whole.0 (sym same ∙ e) in (s, omega (arith, fits, grown, inside)),
      λ s. same ∙ whole.1 (s.0, omega (arith, s.1, grown, inside)),
    )

packed_block-some :
    (m : Ends) (cap size : ℕ) (ip out content : List ℕ)
    → inner_output m cap size ip out ≡ wrote content
    → packed_block m cap size ip out ≡ some (out ++ content)
unfolding packed_block
packed_block-some m cap size ip out content e = ground (arith, e)

Outcome-cases :
    (r : Outcome) → (r ≡ failed) ⊎ ((content : List ℕ) × (r ≡ wrote content)) ⊎ (r ≡ no_fuel)
Outcome-cases failed = inl refl
Outcome-cases (wrote content) = inr (inl (content, refl))
Outcome-cases no_fuel = inr (inr refl)

packed_block-eq-some :
    (m : Ends) (cap size : ℕ) (ip out out' : List ℕ)
    → packed_block m cap size ip out ≡ some out'
    → (content : List ℕ) × (inner_output m cap size ip out ≡ wrote content)
      × (out' ≡ out ++ content)
unfolding packed_block
packed_block-eq-some m cap size ip out out' e =
    elim (Outcome-cases (inner_output m cap size ip out)) [
      | inl r ↦ ground (arith, r, e)
      | inr (inl (content, r)) ↦ (content, r, ground (arith, r, e))
      | inr (inr r) ↦ ground (arith, r, e)
    ]

pub packed_block_sound :
    (m : Ends) (cap size : ℕ) (ip out out' : List ℕ)
    → All IsByte ip
    → Room m cap (length ip)
    → length out ≤ cap
    → size < 2 ^ 31
    → passes (ip_at m ip) size m.ip_end ≡ false
    → packed_block m cap size ip out ≡ some out'
    → (size ≤ length ip)
      × (length out' ≤ cap)
      × ((content : List ℕ) × Stream (take size ip) [] content × (out' ≡ out ++ content))
unfolding ip_at
packed_block_sound m cap size ip out out' b room inside small test e =
    let (content, r, written) = packed_block-eq-some m cap size ip out out' e in
    elim (payload_cases m cap size ip room small test) [
      | inl h ↦
          let (s, fits) = (inner_output-Stream m cap size ip out content b room inside h).0 r in
          (h, subst (λ (t : List ℕ). length t ≤ cap) (sym written) fits, (content, s, written))
      | inr h ↦
          let refused =
            block_wrapped (ip_at m ip) size (op_at m out) (sub32 cap (length out)) ip
              (omega (arith, room)) (omega (arith, small)) h in
          absurd (failed-ne-wrote (sym refused ∙ r))
    ]
  where
    failed-ne-wrote : {t : List ℕ} → failed ≢ wrote t
    failed-ne-wrote x = cc

pub packed_block_complete :
    (m : Ends) (cap : ℕ) (payload tail out content : List ℕ)
    → All IsByte (payload ++ tail)
    → Room m cap (length (payload ++ tail))
    → length out ≤ cap
    → Stream payload [] content
    → length (out ++ content) ≤ cap
    → packed_block m cap (length payload) (payload ++ tail) out ≡ some (out ++ content)
packed_block_complete m cap payload tail out content b room inside s fits =
    packed_block-some m cap (length payload) (payload ++ tail) out content (
      (inner_output-Stream m cap (length payload) (payload ++ tail) out content b room inside
          (omega (arith, length-append payload tail))).1
        (subst (λ (t : List ℕ). Stream t [] content) (sym (take-append payload tail)) s, fits))

pub stored_block_sound :
    (m : Ends) (cap size : ℕ) (ip out out' : List ℕ)
    → Room m cap (length ip)
    → length out ≤ cap
    → size < 2 ^ 31
    → passes (ip_at m ip) size m.ip_end ≡ false
    → stored_block cap size ip out ≡ some out'
    → (size ≤ length ip) × (length out' ≤ cap) × (out' ≡ out ++ take size ip)
unfolding stored_block ip_at
stored_block_sound m cap size ip out out' room inside small test e =
    let (fits, e') =
      stop_if-eq-some (ltb cap (add32 (length out) size)) (some (out ++ take size ip)) e in
    let written : out' ≡ out ++ take size ip = cc e' in
    let grown = length-append out (take size ip) in
    let within : size ≤ length ip = elim (payload_cases m cap size ip room small test) [
      | inl h ↦ h
      | inr h ↦ ground (arith, fits, h, room, inside, small)
    ] in
    (
      within,
      ground
          (arith, ap length written, grown, length-take size ip, within, fits, small, inside, room),
      written,
    )

pub stored_block_complete :
    (cap : ℕ) (payload tail out : List ℕ)
    → cap < 2 ^ 32
    → length (out ++ payload) ≤ cap
    → stored_block cap (length payload) (payload ++ tail) out ≡ some (out ++ payload)
unfolding stored_block
stored_block_complete cap payload tail out h fits =
    let test : ltb cap (add32 (length out) (length payload)) ≡ false =
      ground (arith, fits, length-append out payload, h) in
    rw (test, take-append payload tail)
