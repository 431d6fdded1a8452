-- ===== src/Lz4/Frame/HeadComplete.antt =====
-- The frame decoder accepts every header of the format.
use adr_os.Prelude.{
  ℕ, ◌-◌, ◌*◌, ◌/◌, ◌%◌, ◌^◌, ◌≤◌, true, false, List, ◌∷◌, ◌++◌, some, ltb, ◌==◌, if◌then◌else◌,
  length, take, drop, ◌≡◌, refl, sym, ap, ◌∙◌, arith, subst, All, All-drop, length-append,
  append_assoc, ==_iff,
}
use adr_os.Lz4.{Ends, passes, ip_at}
use adr_os.Lz4.Lengths.{IsByte}
use adr_os.Lz4.Complete.{take-append, drop-append}
use adr_os.Lz4.Frame.{read_le32, read_le64, flag, skip, frame_magic, frame_header}
use adr_os.Lz4.Frame.Layout.{word_bytes, Header}
use adr_os.Lz4.Frame.Bytes.{Room, read_le32-word_bytes, passes_few, read_le64-append}
use adr_os.Lz4.Frame.Loop.{skip_complete}
use adr_os.Lz4.Frame.Head.{flag-lt, header_sum}

-- A header of the format is accepted. `size` is what the content size stands for.
fields_complete :
    (m : Ends) (cap flg bd content_size : ℕ) (size dict ip : List ℕ)
    → Room m cap (length (size ++ (dict ++ (header_sum (flg ∷ bd ∷ (size ++ dict)) ∷ ip))))
    → length size ≡ 8 * flag flg 3
    → length dict ≡ 4 * flag flg 0
    → (skip m (flag flg 3) 8 (size ++ (dict ++ (header_sum (flg ∷ bd ∷ (size ++ dict)) ∷ ip)))
        ≡ some (dict ++ (header_sum (flg ∷ bd ∷ (size ++ dict)) ∷ ip)))
      × (skip m (flag flg 0) 4 (dict ++ (header_sum (flg ∷ bd ∷ (size ++ dict)) ∷ ip))
          ≡ some (header_sum (flg ∷ bd ∷ (size ++ dict)) ∷ ip))
      × (passes (ip_at m (header_sum (flg ∷ bd ∷ (size ++ dict)) ∷ ip)) 1 m.ip_end ≡ false)
fields_complete m cap flg bd content_size size dict ip room long_size long_dict =
    let sum = header_sum (flg ∷ bd ∷ (size ++ dict)) in
    let cut = length-append size (dict ++ (sum ∷ ip)) in
    let cut' = length-append dict (sum ∷ ip) in
    (
      skip_complete m cap (flag flg 3) 8 size (dict ++ (sum ∷ ip)) room (flag-lt flg 3)
          (omega arith) long_size,
      skip_complete m cap (flag flg 0) 4 dict (sum ∷ ip) (omega (arith, room, cut)) (flag-lt flg 0)
          (omega arith) long_dict,
      (passes_few m cap 1 (sum ∷ ip) (omega (arith, room, cut, cut')) (omega arith)).1
          (omega arith),
    )

header_accepted :
    (m : Ends) (src fields behind_size ip : List ℕ) (flg bd sum : ℕ)
    → ltb (length src) 7 ≡ false
    → (read_le32 src == frame_magic) ≡ true
    → drop 4 src ≡ flg ∷ bd ∷ fields
    → (flg / 2 ^ 6 % 4 == 1) ≡ true
    → (flag flg 5 == 0) ≡ false
    → skip m (flag flg 3) 8 fields ≡ some behind_size
    → skip m (flag flg 0) 4 behind_size ≡ some (sum ∷ ip)
    → passes (ip_at m (sum ∷ ip)) 1 m.ip_end ≡ false
    → (sum
        == header_sum (take (length (flg ∷ bd ∷ fields) - length (sum ∷ ip)) (flg ∷ bd ∷ fields)))
      ≡ true
    → frame_header m src ≡ some (flg, (if flag flg 3 == 0 then 0 else read_le64 fields), ip)
unfolding frame_header
header_accepted m src fields behind_size ip flg bd sum long magic cut version linked sized dicted
      one checked =
    rw (long, magic, cut, version, linked, sized, dicted, one, checked)

pub header_complete :
    (m : Ends) (cap : ℕ) (src : List ℕ) (flg content_size : ℕ) (ip : List ℕ)
    → All IsByte src
    → Room m cap (length src)
    → Header src flg content_size ip
    → (size : ℕ) × (frame_header m src ≡ some (flg, size, ip))
      × (flag flg 3 ≡ 1 → size ≡ content_size)
      × All IsByte ip
      × (length ip ≤ length src)
header_complete m cap src flg content_size ip b room h =
    let desc : List ℕ = flg ∷ h.bd ∷ (h.size_field ++ h.dict_field) in
    let sum = header_sum desc in
    let fields = h.size_field ++ (h.dict_field ++ (sum ∷ ip)) in
    let same : (h.size_field ++ h.dict_field) ++ (sum ∷ ip) ≡ fields =
      append_assoc h.size_field h.dict_field (sum ∷ ip) in
    let whole : src ≡ word_bytes frame_magic ++ (flg ∷ h.bd ∷ fields) =
      h.laid_out ∙ ap (λ t. word_bytes frame_magic ++ (flg ∷ h.bd ∷ t)) same in
    let room' : Room m cap (length fields) = omega (arith, room, ap length whole) in
    let (sized, dicted, one) =
      fields_complete m cap flg h.bd content_size h.size_field h.dict_field ip room' h.length_size
        h.length_dict in
    let cut = length-append h.size_field (h.dict_field ++ (sum ∷ ip)) in
    let cut' = length-append h.dict_field (sum ∷ ip) in
    let long : ltb (length src) 7 ≡ false = ground (arith, ap length whole, cut, cut') in
    let magic : (read_le32 src == frame_magic) ≡ true =
      ap (λ (x : ℕ). x == frame_magic)
        (ap read_le32 whole
          ∙ read_le32-word_bytes frame_magic (flg ∷ h.bd ∷ fields) (omega arith)) in
    let version : (flg / 2 ^ 6 % 4 == 1) ≡ true = ground (arith, h.version) in
    let linked : (flag flg 5 == 0) ≡ false = ground (arith, h.independent) in
    let taken : take (length (flg ∷ h.bd ∷ fields) - length (sum ∷ ip)) (flg ∷ h.bd ∷ fields)
        ≡ desc =
      ap (λ (t : List ℕ). take (length (flg ∷ h.bd ∷ t) - length (sum ∷ ip)) (flg ∷ h.bd ∷ t))
        (sym same)
      ∙ ap (λ (n : ℕ). take n (desc ++ (sum ∷ ip))) {y = length desc}
          (omega (arith, length-append desc (sum ∷ ip)))
      ∙ take-append desc (sum ∷ ip) in
    let checked : (sum
          == header_sum
              (take (length (flg ∷ h.bd ∷ fields) - length (sum ∷ ip)) (flg ∷ h.bd ∷ fields)))
        ≡ true =
      ap (λ (t : List ℕ). sum == header_sum t) taken ∙ (==_iff sum sum).1 refl in
    (
      (if flag flg 3 == 0 then 0 else read_le64 fields),
      header_accepted m src fields (h.dict_field ++ (sum ∷ ip)) ip flg h.bd sum long magic
          (ap (drop 4) whole) version linked sized dicted one checked,
      λ e. ground (
        arith,
        e,
        h.size_given e,
        read_le64-append h.size_field (h.dict_field ++ (sum ∷ ip))
            (omega (arith, e, h.length_size)),
      ),
      (subst (All IsByte) (drop-append desc (sum ∷ ip)) (
          All-drop IsByte (length desc) (desc ++ (sum ∷ ip))
            (subst (All IsByte) (ap (drop 4) h.laid_out) (All-drop IsByte 4 src b)))).1,
      omega (arith, ap length whole, cut, cut'),
    )
