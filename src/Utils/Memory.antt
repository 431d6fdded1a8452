-- ===== src/Utils/Memory.antt =====
-- `memmove` and `memcpy` copy what was there before.
use adr_os.Prelude.{
  ℕ, zero, suc, ◌+◌, ◌-◌, ◌≤◌, ◌<◌, ◌≡◌, ◌≢◌, ◌⊎◌, inl, inr, ltb, update, update_self, update-other,
  arith, refl, sym, ap, ◌∙◌, if_cases, ℕ_discrete,
}
use adr_os.Utils.{Memory, copy_up, copy_down, memmove, memcpy}

-- After the copy the `n` bytes at `d` are those that were at `s`, and no other byte has changed.
abbrev pub Copied : ℕ → ℕ → ℕ → Memory → Memory → Type 0
Copied n d s m m' =
    ((j : ℕ) → j < n → m' (d + j) ≡ m (s + j)) × ((a : ℕ) → (a < d) ⊎ (d + n ≤ a) → m' a ≡ m a)

-- Upwards: no byte is read behind the place where it was overwritten.
copy_up-Copied : (n d s : ℕ) (m : Memory) → (d ≤ s) ⊎ (s + n ≤ d) → Copied n d s m (copy_up n d s m)
unfolding copy_up
copy_up-Copied zero d s m h = (λ j l. absurd (omega arith), λ a o. refl)
copy_up-Copied (suc n) d s m h =
    let m1 = update m d (m s) in
    let (inside, outside) = copy_up-Copied n (d + 1) (s + 1) m1 (next h) in
    (
      λ j l. elim (ℕ_discrete j 0) [
        | yes e ↦
            ap (copy_up n (d + 1) (s + 1) m1) {y = d} (omega (arith, e))
            ∙ outside d (inl (omega arith))
            ∙ update_self m d (m s)
            ∙ ap m (omega (arith, e))
        | no ne ↦
            ap (copy_up n (d + 1) (s + 1) m1) {y = d + 1 + (j - 1)} (omega (arith, ne))
            ∙ inside (j - 1) (omega (arith, ne, l))
            ∙ update-other m d (s + 1 + (j - 1)) (m s) (apart h j l ne)
            ∙ ap m (omega (arith, ne))
      ],
      λ a o. outside a (beyond o) ∙ update-other m d a (m s) (elsewhere o),
    )
  where
    next : (d ≤ s) ⊎ (s + suc n ≤ d) → (d + 1 ≤ s + 1) ⊎ (s + 1 + n ≤ d + 1)
    next (inl x) = inl (omega arith)
    next (inr x) = inr (omega arith)

    apart : (d ≤ s) ⊎ (s + suc n ≤ d) → (j : ℕ) → j < suc n → j ≢ 0 → d ≢ s + 1 + (j - 1)
    apart (inl x) j l ne e = omega (arith, e, x)
    apart (inr x) j l ne e = omega (arith, e, x, l, ne)

    beyond : {a : ℕ} → (a < d) ⊎ (d + suc n ≤ a) → (a < d + 1) ⊎ (d + 1 + n ≤ a)
    beyond (inl x) = inl (omega arith)
    beyond (inr x) = inr (omega arith)

    elsewhere : {a : ℕ} → (a < d) ⊎ (d + suc n ≤ a) → d ≢ a
    elsewhere (inl x) e = omega (arith, e, x)
    elsewhere (inr x) e = omega (arith, e, x)

-- Downwards: the same, from the other end.
copy_down-Copied : (n d s : ℕ) (m : Memory) → s ≤ d → Copied n d s m (copy_down n d s m)
unfolding copy_down
copy_down-Copied zero d s m h = (λ j l. absurd (omega arith), λ a o. refl)
copy_down-Copied (suc n) d s m h =
    let m1 = update m (d + n) (m (s + n)) in
    let (inside, outside) = copy_down-Copied n d s m1 h in
    (
      λ j l. elim (ℕ_discrete j n) [
        | yes e ↦
            ap (λ (t : ℕ). copy_down n d s m1 (d + t)) e
            ∙ outside (d + n) (inr (omega arith))
            ∙ update_self m (d + n) (m (s + n))
            ∙ ap (λ (t : ℕ). m (s + t)) (sym e)
        | no ne ↦
            inside j (omega (arith, ne, l))
            ∙ update-other m (d + n) (s + j) (m (s + n)) (λ e. omega (arith, e, h, l, ne))
      ],
      λ a o. outside a (beyond o) ∙ update-other m (d + n) a (m (s + n)) (elsewhere o),
    )
  where
    beyond : {a : ℕ} → (a < d) ⊎ (d + suc n ≤ a) → (a < d) ⊎ (d + n ≤ a)
    beyond (inl x) = inl x
    beyond (inr x) = inr (omega arith)

    elsewhere : {a : ℕ} → (a < d) ⊎ (d + suc n ≤ a) → d + n ≢ a
    elsewhere (inl x) e = omega (arith, e, x)
    elsewhere (inr x) e = omega (arith, e, x)

-- `memmove` copies the bytes that were at the source, however the two areas overlap, and changes no
-- byte outside the destination.
pub memmove-Copied : (dst src n : ℕ) (m : Memory) → Copied n dst src m (memmove dst src n m)
unfolding memmove
memmove-Copied dst src n m =
    if_cases (Copied n dst src m) (ltb dst src) (copy_up n dst src m) (copy_down n dst src m)
      (λ e. copy_up-Copied n dst src m (inl (ground (arith, e))))
      (λ e. copy_down-Copied n dst src m (ground (arith, e)))

-- `memcpy` does the same when the destination does not begin inside the source.
pub memcpy-Copied :
    (dst src n : ℕ) (m : Memory)
    → (dst ≤ src) ⊎ (src + n ≤ dst)
    → Copied n dst src m (memcpy dst src n m)
memcpy-Copied dst src n m h = copy_up-Copied n dst src m h
