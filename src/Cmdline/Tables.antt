-- ===== src/Cmdline/Tables.antt =====
-- What the comparisons of words in src/kernel/cmdline.c decide.
use adr_os.Prelude.{
  ℕ, true, List, [], ◌∷◌, ◌≡◌, ◌↔◌, ◌⊎◌, inl, inr, refl, ap₂, arith, subst, Bool-cases,
}
use adr_os.Prelude.Text.{same_text, in_table}
use adr_os.Cmdline.{Text}

-- A text stands in a table.
abbrev pub Listed : Text → List Text → Type 0
Listed tok [] = ⊥
Listed tok (t ∷ ts) = (t ≡ tok) ⊎ Listed tok ts

same_text_refl : (t : Text) → same_text t t ≡ true
unfolding same_text
same_text_refl [] = refl
same_text_refl (x ∷ xs) = ground (arith, same_text_refl xs)

same_text_eq : (a b : Text) → same_text a b ≡ true → a ≡ b
unfolding same_text
same_text_eq [] [] e = refl
same_text_eq [] (y ∷ ys) e = absurd (ground (arith, e))
same_text_eq (x ∷ xs) [] e = absurd (ground (arith, e))
same_text_eq (x ∷ xs) (y ∷ ys) e =
    let head : x ≡ y = ground (arith, e) in
    ap₂ (λ (c : ℕ) (t : Text). c ∷ t) head (same_text_eq xs ys (ground (arith, e)))

-- `strcmp` finds the texts that are equal.
pub same_text_iff : (a b : Text) → (same_text a b ≡ true) ↔ (a ≡ b)
same_text_iff a b =
    (same_text_eq a b, λ e. subst (λ (t : Text). same_text a t ≡ true) e (same_text_refl a))

-- The search of a table finds what stands in it.
pub in_table-Listed :
    (table : List Text) (tok : Text) → (in_table table tok ≡ true) ↔ Listed tok table
unfolding in_table
in_table-Listed [] tok = (λ e. absurd (ground (arith, e)), λ l. absurd l)
in_table-Listed (t ∷ ts) tok =
    let rest = in_table-Listed ts tok in
    let first = same_text_iff t tok in
    (
      λ e. elim (Bool-cases (same_text t tok)) [
        | inl s ↦ inl (first.0 s)
        | inr s ↦ inr (rest.0 (ground (arith, s, e)))
      ],
      λ l. elim l [
        | inl h ↦ let s = first.1 h in ground (arith, s)
        | inr h ↦ let s = rest.1 h in ground (arith, s)
      ],
    )
