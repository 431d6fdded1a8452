-- ===== src/Lz4/Frame/Head.antt =====
-- The header of a frame, in both directions.
use adr_os.Prelude.{
  ℕ, ◌-◌, ◌*◌, ◌/◌, ◌%◌, ◌^◌, ◌≤◌, ◌<◌, false, not, List, [], ◌∷◌, ◌++◌, some, ltb, ◌==◌,
  if◌then◌else◌, length, get_or, take, drop, ◌≡◌, sym, ap, ap₂, ◌∙◌, arith, subst, All, length-drop,
  length-append, stop_if-eq-some, >>=-eq-some, append_assoc,
}
use adr_os.Xxhash.{xxh32}
use adr_os.Lz4.{Ends, passes, ip_at}
use adr_os.Lz4.Lengths.{IsByte}
use adr_os.Lz4.Complete.{take-append}
use adr_os.Lz4.Frame.{read_le32, read_le64, flag, skip, frame_magic, frame_header}
use adr_os.Lz4.Frame.Layout.{word_bytes, Header}
use adr_os.Lz4.Frame.Bytes.{Room, word_bytes-read_le32, passes_few, read_le64-append}
use adr_os.Lz4.Frame.Loop.{skip_sound}

-- The checksum byte of a descriptor.
abbrev pub header_sum : List ℕ → ℕ
header_sum desc = xxh32 desc 0 / 2 ^ 8 % 2 ^ 8

frame_header_parts :
    (m : Ends) (src : List ℕ) (flg content_size : ℕ) (ip : List ℕ)
    → frame_header m src ≡ some (flg, content_size, ip)
    → (behind_size : List ℕ) × (behind_dict : List ℕ) × (ltb (length src) 7 ≡ false)
      × (not (read_le32 src == frame_magic) ≡ false)
      × (get_or (drop 4 src) 0 0 ≡ flg)
      × (not (flg / 2 ^ 6 % 4 == 1) ≡ false)
      × ((flag flg 5 == 0) ≡ false)
      × (skip m (flag flg 3) 8 (drop 2 (drop 4 src)) ≡ some behind_size)
      × (skip m (flag flg 0) 4 behind_size ≡ some behind_dict)
      × (passes (ip_at m behind_dict) 1 m.ip_end ≡ false)
      × (not (
            get_or behind_dict 0 0
            == header_sum (take (length (drop 4 src) - length behind_dict) (drop 4 src)))
          ≡ false)
      × ((if flag flg 3 == 0 then 0 else read_le64 (drop 2 (drop 4 src))) ≡ content_size)
      × (drop 1 behind_dict ≡ ip)
unfolding frame_header
frame_header_parts m src flg content_size ip e =
    let desc = drop 4 src in
    let f = get_or desc 0 0 in
    let (long, e1) = stop_if-eq-some (ltb (length src) 7) _ e in
    let (magic, e2) = stop_if-eq-some (not (read_le32 src == frame_magic)) _ e1 in
    let (version, e3) = stop_if-eq-some (not (f / 2 ^ 6 % 4 == 1)) _ e2 in
    let (independent, e4) = stop_if-eq-some (flag f 5 == 0) _ e3 in
    let (behind_size, sized, e5) = >>=-eq-some (skip m (flag f 3) 8 (drop 2 desc)) _ e4 in
    let (behind_dict, dicted, e6) = >>=-eq-some (skip m (flag f 0) 4 behind_size) _ e5 in
    let (one, e7) = stop_if-eq-some (passes (ip_at m behind_dict) 1 m.ip_end) _ e6 in
    let (sum, e8) =
      stop_if-eq-some
        (not (get_or behind_dict 0 0 == header_sum (take (length desc - length behind_dict) desc)))
        (some (f, (if flag f 3 == 0 then 0 else read_le64 (drop 2 desc)), drop 1 behind_dict)) e7 in
    let same : f ≡ flg = cc e8 in
    (
      behind_size,
      behind_dict,
      long,
      magic,
      same,
      subst (λ (x : ℕ). not (x / 2 ^ 6 % 4 == 1) ≡ false) same version,
      subst (λ (x : ℕ). (flag x 5 == 0) ≡ false) same independent,
      subst (λ (x : ℕ). skip m (flag x 3) 8 (drop 2 desc) ≡ some behind_size) same sized,
      subst (λ (x : ℕ). skip m (flag x 0) 4 behind_size ≡ some behind_dict) same dicted,
      one,
      sum,
      subst (λ (x : ℕ). (if flag x 3 == 0 then 0 else read_le64 (drop 2 desc)) ≡ content_size) same
          (cc e8),
      cc e8,
    )

pub flag-lt : (flg k : ℕ) → flag flg k < 2
unfolding flag
flag-lt flg k = omega arith

-- The fields behind FLG and BD.
fields_sound :
    (m : Ends) (cap flg bd content_size : ℕ) (fields behind_size behind_dict ip : List ℕ)
    → Room m cap (length fields)
    → skip m (flag flg 3) 8 fields ≡ some behind_size
    → skip m (flag flg 0) 4 behind_size ≡ some behind_dict
    → passes (ip_at m behind_dict) 1 m.ip_end ≡ false
    → not (
        get_or behind_dict 0 0
        == header_sum (take (length (flg ∷ bd ∷ fields) - length behind_dict) (flg ∷ bd ∷ fields)))
      ≡ false
    → (if flag flg 3 == 0 then 0 else read_le64 fields) ≡ content_size
    → drop 1 behind_dict ≡ ip
    → (size : List ℕ) × (dict : List ℕ) × ((flg ∷ bd ∷ fields)
        ≡ (flg ∷ bd ∷ (size ++ dict)) ++ (header_sum (flg ∷ bd ∷ (size ++ dict)) ∷ ip))
      × (length size ≡ 8 * flag flg 3)
      × (length dict ≡ 4 * flag flg 0)
      × (flag flg 3 ≡ 1 → content_size ≡ read_le64 size)
fields_sound m cap flg bd content_size fields behind_size [] ip room sized dicted one sum value
      last =
    absurd (few ((passes_few m cap 1 [] (omega (arith, room)) (omega arith)).0 one))
  where
    few : ¬ (1 ≤ 0)
    few h = omega arith
fields_sound m cap flg bd content_size fields behind_size (hc ∷ ip') ip room sized dicted one sum
      value last =
    let (size, split, long, _) =
      skip_sound m cap (flag flg 3) 8 fields behind_size room (flag-lt flg 3) (omega arith) sized in
    let cut = ap length split ∙ length-append size behind_size in
    let (dict, split', long', _) =
      skip_sound m cap (flag flg 0) 4 behind_size (hc ∷ ip') (omega (arith, room, cut))
        (flag-lt flg 0) (omega arith) dicted in
    let desc : List ℕ = flg ∷ bd ∷ (size ++ dict) in
    let whole : (flg ∷ bd ∷ fields) ≡ desc ++ (hc ∷ ip') =
      ap (λ (t : List ℕ). flg ∷ bd ∷ t)
        (split ∙ ap (λ t. size ++ t) split' ∙ sym (append_assoc size dict (hc ∷ ip'))) in
    let taken : take (length (flg ∷ bd ∷ fields) - length (hc ∷ ip')) (flg ∷ bd ∷ fields) ≡ desc =
      ap (λ (t : List ℕ). take (length t - length (hc ∷ ip')) t) whole
      ∙ ap (λ (n : ℕ). take n (desc ++ (hc ∷ ip'))) {y = length desc}
          (omega (arith, length-append desc (hc ∷ ip')))
      ∙ take-append desc (hc ∷ ip') in
    let checked : hc ≡ header_sum desc = ground (arith, sum, ap header_sum taken) in
    (
      size,
      dict,
      whole ∙ ap₂ (λ (x : ℕ) t. desc ++ (x ∷ t)) checked last,
      long,
      long',
      λ h. ground (
        arith,
        value,
        h,
        ap read_le64 split,
        read_le64-append size behind_size (omega (arith, long, h)),
      ),
    )

header_of :
    (m : Ends) (cap flg content_size : ℕ) (src desc behind_size behind_dict ip : List ℕ)
    → src ≡ word_bytes frame_magic ++ desc
    → 3 ≤ length desc
    → Room m cap (length desc)
    → get_or desc 0 0 ≡ flg
    → not (flg / 2 ^ 6 % 4 == 1) ≡ false
    → (flag flg 5 == 0) ≡ false
    → skip m (flag flg 3) 8 (drop 2 desc) ≡ some behind_size
    → skip m (flag flg 0) 4 behind_size ≡ some behind_dict
    → passes (ip_at m behind_dict) 1 m.ip_end ≡ false
    → not (get_or behind_dict 0 0 == header_sum (take (length desc - length behind_dict) desc))
      ≡ false
    → (if flag flg 3 == 0 then 0 else read_le64 (drop 2 desc)) ≡ content_size
    → drop 1 behind_dict ≡ ip
    → Header src flg content_size ip
header_of m cap flg content_size src [] bs bd ip e long _ _ _ _ _ _ _ _ _ _ = absurd (omega arith)
header_of m cap flg content_size src (x ∷ []) bs bd ip e long _ _ _ _ _ _ _ _ _ _ =
    absurd (omega arith)
header_of m cap flg content_size src (f ∷ bd ∷ fields) behind_size behind_dict ip e long room same
      version independent sized dicted one sum value last =
    let sum' =
      subst
        (λ (x : ℕ).
          not (
            get_or behind_dict 0 0
            == header_sum (take (length (x ∷ bd ∷ fields) - length behind_dict) (x ∷ bd ∷ fields)))
          ≡ false)
        same sum in
    let (size, dict, whole, long_size, long_dict, given) =
      fields_sound m cap flg bd content_size fields behind_size behind_dict ip (omega (arith, room))
        sized dicted one sum' value last in
    record {
      bd = bd;
      size_field = size;
      dict_field = dict;
      laid_out =
          e
          ∙ ap (λ (x : ℕ). word_bytes frame_magic ++ (x ∷ bd ∷ fields)) same
          ∙ ap (λ t. word_bytes frame_magic ++ t) whole;
      version = ground (arith, version);
      independent = ground (arith, independent, flag-lt flg 5);
      length_size = long_size;
      length_dict = long_dict;
      size_given = given;
    }

pub frame_header_sound :
    (m : Ends) (cap : ℕ) (src : List ℕ) (flg content_size : ℕ) (ip : List ℕ)
    → All IsByte src
    → Room m cap (length src)
    → frame_header m src ≡ some (flg, content_size, ip)
    → Header src flg content_size ip
frame_header_sound m cap src flg content_size ip b room e =
    let (bs, bd, long, magic, same, version, independent, sized, dicted, one, sum, value, last) =
      frame_header_parts m src flg content_size ip e in
    let size : 7 ≤ length src = ground (arith, long) in
    let number : read_le32 src ≡ frame_magic = ground (arith, magic) in
    let (spelt, _) = word_bytes-read_le32 src b (omega (arith, size)) in
    let cut = length-drop 4 src in
    header_of m cap flg content_size src (drop 4 src) bs bd ip
      (spelt ∙ ap (λ (w : ℕ). word_bytes w ++ drop 4 src) number) (omega (arith, size, cut))
      (omega (arith, room, cut)) same version independent sized dicted one sum value last
