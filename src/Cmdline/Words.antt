-- ===== src/Cmdline/Words.antt =====
-- The tokens of the command line are its words.
use adr_os.Prelude.{
  ℕ, zero, suc, Bool, true, false, List, [], ◌∷◌, if◌then◌else◌, take, ◌≡◌, refl, sym, ap, ap₂, ◌∙◌,
  arith, Bool-cases, inl, inr, ◌⊎◌,
}
use adr_os.Cmdline.{Text, is_blank, skip_blanks, word, behind_word, cut, tokenize}

-- A word in front of words, if it is one.
abbrev pub close : Text → List Text → List Text
close [] ws = ws
close (c ∷ w) ws = (c ∷ w) ∷ ws

-- From the end of the text: the word that the text begins with, and the words behind it.
unfoldable pub split_words : Text → Text × List Text
split_words [] = ([], [])
split_words (c ∷ p) =
    let (w, ws) = split_words p in if is_blank c then ([], close w ws) else (c ∷ w, ws)

-- The longest parts of a text without blanks, in their order.
unfoldable pub words : Text → List Text
unfolding split_words
words p = let (w, ws) = split_words p in close w ws

words-blank : (c : ℕ) (p : Text) → is_blank c ≡ true → words (c ∷ p) ≡ words p
unfolding words split_words
words-blank c p e = ground (arith, e)

words-skip_blanks : (p : Text) → words (skip_blanks p) ≡ words p
unfolding skip_blanks
words-skip_blanks [] = refl
words-skip_blanks (c ∷ p) = elim (Bool-cases (is_blank c)) [
  | inl e ↦
      ap (λ (b : Bool). words (if b then skip_blanks p else c ∷ p)) e
      ∙ words-skip_blanks p
      ∙ sym (words-blank c p e)
  | inr e ↦ ap (λ (b : Bool). words (if b then skip_blanks p else c ∷ p)) e
]

-- What `skip_blanks` leaves begins with no blank.
skip_blanks_cases :
    (p : Text)
    → (skip_blanks p ≡ []) ⊎ ((c : ℕ) × (q : Text) × (skip_blanks p ≡ c ∷ q) × (is_blank c ≡ false))
unfolding skip_blanks
skip_blanks_cases [] = inl refl
skip_blanks_cases (c ∷ p) = elim (Bool-cases (is_blank c)) [
  | inl e ↦ elim (skip_blanks_cases p) [
    | inl h ↦ inl (ground (arith, e, h))
    | inr (d, q, h, k) ↦ inr (d, q, ground (arith, e, h), k)
  ]
  | inr e ↦ inr (c, p, ground (arith, e), e)
]

split_words-word : (p : Text) → (split_words p).0 ≡ word p
unfolding split_words word
split_words-word [] = refl
split_words-word (c ∷ p) = ground (arith, split_words-word p)

split_words-behind : (p : Text) → (split_words p).1 ≡ words (behind_word p)
unfolding split_words words behind_word
split_words-behind [] = refl
split_words-behind (c ∷ p) = elim (Bool-cases (is_blank c)) [
  | inl e ↦ ground (arith, e)
  | inr e ↦ ground (arith, e, split_words-behind p)
]

word-starts :
    (c : ℕ) (q : Text) (ws : List Text)
    → is_blank c ≡ false
    → close (word (c ∷ q)) ws ≡ word (c ∷ q) ∷ ws
unfolding word
word-starts c q ws e = ground (arith, e)

split_words_lem : (p : Text) → words p ≡ close (split_words p).0 (split_words p).1
unfolding words
split_words_lem p = refl

words-word :
    (c : ℕ) (q : Text)
    → is_blank c ≡ false
    → words (c ∷ q) ≡ word (c ∷ q) ∷ words (behind_word (c ∷ q))
words-word c q e =
    split_words_lem (c ∷ q)
    ∙ ap₂ close (split_words-word (c ∷ q)) (split_words-behind (c ∷ q))
    ∙ word-starts c q (words (behind_word (c ∷ q))) e

words-nil : words [] ≡ []
unfolding words split_words
words-nil = refl

tokenize_none : (n : ℕ) (p : Text) → skip_blanks p ≡ [] → tokenize (suc n) p ≡ []
unfolding tokenize cut
tokenize_none n p e = ap (cut (tokenize n)) e

tokenize_word :
    (n c : ℕ) (p q : Text)
    → skip_blanks p ≡ c ∷ q
    → tokenize (suc n) p ≡ word (c ∷ q) ∷ tokenize n (behind_word (c ∷ q))
unfolding tokenize cut
tokenize_word n c p q e = ap (cut (tokenize n)) e

-- The loop that cuts the command line into tokens finds its words, the longest parts without blanks
-- and tabs, from the left, up to the number of tokens that there is room for.
pub tokenize-words : (n : ℕ) (p : Text) → tokenize n p ≡ take n (words p)
tokenize-words zero p = unfold tokenize in refl
tokenize-words (suc n) p = elim (skip_blanks_cases p) [
  | inl e ↦
      tokenize_none n p e
      ∙ ap (take (suc n)) (sym words-nil ∙ sym (ap words e) ∙ words-skip_blanks p)
  | inr (c, q, e, f) ↦
      tokenize_word n c p q e
      ∙ ap (λ t. word (c ∷ q) ∷ t) (tokenize-words n (behind_word (c ∷ q)))
      ∙ ap (take (suc n)) (sym (words-word c q f) ∙ sym (ap words e) ∙ words-skip_blanks p)
]
