-- ===== src/Cmdline/Sorting.antt =====
-- Where the tokens of the command line go.
use adr_os.Prelude.{
  ℕ, zero, suc, ◌≤◌, Bool, true, false, ◌||◌, Option, none, some, List, [], ◌∷◌, ◌++◌,
  if◌then◌else◌, ltb, take, length, length-append, ◌≡◌, refl, sym, ap, ◌∙◌, arith, Bool-cases, inl,
  inr, append_assoc, append-nil, subst,
}
use adr_os.Cmdline.{
  Text, Cmdline, is_known_kv_key, is_known_flag, has_char, split_eq, add_to, claim, is_separator,
  sort_tokens,
}

-- What a token, in front of the separator or behind it, is: a parameter of the kernel, a flag of the
-- kernel, an argument of init, or a variable of its environment. Some are none of these.
abbrev pub as_param : Bool → Text → Option (Text × Text) → Option (Text × Text)
as_param false tok (some (key, value)) = if is_known_kv_key key then some (key, value) else none
as_param false tok none = none
as_param true tok kv = none

abbrev pub as_flag : Bool → Text → Option (Text × Text) → Option Text
as_flag false tok none = if is_known_flag tok then some tok else none
as_flag false tok (some kv) = none
as_flag true tok kv = none

abbrev pub as_arg : Bool → Text → Option (Text × Text) → Option Text
as_arg false tok none = if is_known_flag tok || has_char tok 46 then none else some tok
as_arg true tok none = some tok
as_arg false tok (some kv) = none
as_arg true tok (some kv) = none

abbrev pub as_env : Bool → Text → Option (Text × Text) → Option Text
as_env false tok (some (key, value)) = if is_known_kv_key key then none else some tok
as_env true tok (some kv) = some tok
as_env false tok none = none
as_env true tok none = none

abbrev pub front {ℓ} : {A : Type ℓ} → Option A → List A → List A
front none xs = xs
front (some x) xs = x ∷ xs

-- What is found at the tokens that are no separator, in their order.
unfoldable pub collect {ℓ} :
    {A : Type ℓ} → (Bool → Text → Option (Text × Text) → Option A) → Bool → List Text → List A
collect pick after [] = []
collect pick after (tok ∷ toks) =
    let rest = collect pick (after || is_separator tok) toks in
    if is_separator tok then rest else front (pick after tok (split_eq tok)) rest

module _ {ℓ} {A : Type ℓ} where
  take-short : (n : ℕ) (xs ys : List A) → length xs ≡ n → take n (xs ++ ys) ≡ xs
  take-short zero [] [] h = refl
  take-short zero [] (y ∷ ys) h = refl
  take-short zero (x ∷ xs) ys h = absurd (omega (arith, h))
  take-short (suc n) [] ys h = absurd (omega (arith, h))
  take-short (suc n) (x ∷ xs) ys h = ap (λ t. x ∷ t) (take-short n xs ys (omega (arith, h)))

  -- An array with a limit takes the first of what comes.
  take-add_to :
      (n : ℕ) (xs : List A) (x : A) (ys : List A)
      → length xs ≤ n
      → take n (add_to n xs x ++ ys) ≡ take n (xs ++ x ∷ ys)
  take-add_to n xs x ys h = elim (Bool-cases (ltb (length xs) n)) [
    | inl e ↦
        ap (λ (b : Bool). take n ((if b then xs ++ (x ∷ []) else xs) ++ ys)) e
        ∙ ap (take n) (append_assoc xs (x ∷ []) ys)
    | inr e ↦
        let full : length xs ≡ n = ground (arith, e, h) in
        ap (λ (b : Bool). take n ((if b then xs ++ (x ∷ []) else xs) ++ ys)) e
        ∙ take-short n xs ys full
        ∙ sym (take-short n xs (x ∷ ys) full)
  ]

  length-add_to : (n : ℕ) (xs : List A) (x : A) → length xs ≤ n → length (add_to n xs x) ≤ n
  length-add_to n xs x h = elim (Bool-cases (ltb (length xs) n)) [
    | inl e ↦ ground (arith, e, length-append xs (x ∷ []))
    | inr e ↦ ground (arith, e, h)
  ]

  -- What one token adds.
  abbrev pub add_found : ℕ → List A → Option A → List A
  add_found n xs none = xs
  add_found n xs (some x) = add_to n xs x

  add_found_lem :
      (n : ℕ) (xs ys : List A) (o : Option A)
      → length xs ≤ n
      → (take n (add_found n xs o ++ ys) ≡ take n (xs ++ front o ys))
        × (length (add_found n xs o) ≤ n)
  add_found_lem n xs ys none h = (refl, h)
  add_found_lem n xs ys (some x) h = (take-add_to n xs x ys h, length-add_to n xs x h)

  take-whole : (n : ℕ) (xs : List A) → length xs ≤ n → take n xs ≡ xs
  take-whole zero [] h = refl
  take-whole zero (x ∷ xs) h = absurd (omega (arith, h))
  take-whole (suc n) [] h = refl
  take-whole (suc n) (x ∷ xs) h = ap (λ t. x ∷ t) (take-whole n xs (omega (arith, h)))

-- A field that every token changes by what it is for that field ends with the first `n` of them.
pub sort_tokens-field {ℓ} :
    {A : Type ℓ} (field : Cmdline → List A) (n : ℕ)
    (pick : Bool → Text → Option (Text × Text) → Option A)
    → ((after : Bool) (tok : Text) (kv : Option (Text × Text)) (s : Cmdline)
        → field (claim after tok kv s) ≡ add_found n (field s) (pick after tok kv))
    → (after : Bool) (toks : List Text) (s : Cmdline) → length (field s) ≤ n
    → field (sort_tokens after toks s) ≡ take n (field s ++ collect pick after toks)
unfolding sort_tokens collect
sort_tokens-field field n pick step after [] s h =
    sym (ap (take n) (append-nil (field s)) ∙ take-whole n (field s) h)
sort_tokens-field {A = A} field n pick step after (tok ∷ toks) s h =
    elim (Bool-cases (is_separator tok)) [
      | inl e ↦
          ap
            (λ (b : Bool). field (
              sort_tokens (after || is_separator tok) toks
                (if b then s else claim after tok (split_eq tok) s)))
            e
          ∙ sort_tokens-field field n pick step (after || is_separator tok) toks s h
          ∙ ap
              (λ (b : Bool). take n (
                field s
                ++ (if b
                    then collect pick (after || is_separator tok) toks
                    else front (pick after tok (split_eq tok))
                        (collect pick (after || is_separator tok) toks))))
              (sym e)
      | inr e ↦
          let t = claim after tok (split_eq tok) s in
          let moved = step after tok (split_eq tok) s in
          let (kept, small) =
            add_found_lem n (field s) (collect pick (after || is_separator tok) toks)
              (pick after tok (split_eq tok)) h in
          ap
            (λ (b : Bool).
              field (sort_tokens (after || is_separator tok) toks (if b then s else t)))
            e
          ∙ sort_tokens-field field n pick step (after || is_separator tok) toks t
              (subst (λ (l : List A). length l ≤ n) (sym moved) small)
          ∙ ap (λ l. take n (l ++ collect pick (after || is_separator tok) toks)) moved
          ∙ kept
          ∙ ap
              (λ (b : Bool). take n (
                field s
                ++ (if b
                    then collect pick (after || is_separator tok) toks
                    else front (pick after tok (split_eq tok))
                        (collect pick (after || is_separator tok) toks))))
              (sym e)
    ]
