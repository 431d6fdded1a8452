-- ===== src/Utils/Reverse.antt =====
-- The loop of `reverse` turns a string round.
use adr_os.Prelude.{
  ℕ, zero, suc, ◌+◌, ◌-◌, ◌≤◌, ◌<◌, Bool, true, List, [], ◌∷◌, ◌++◌, ◌≡◌, if◌then◌else◌, length,
  get_or, set, length-append, append_assoc, append-nil, arith, refl, sym, ap, ap₂, ◌∙◌,
}
use adr_os.Utils.{reverse_loop, reverse}

-- The string from the other end.
unfoldable pub turned : List ℕ → List ℕ
turned [] = []
turned (x ∷ xs) = turned xs ++ (x ∷ [])

pub turned-append_last : (xs : List ℕ) (y : ℕ) → turned (xs ++ (y ∷ [])) ≡ y ∷ turned xs
unfolding turned
turned-append_last [] y = refl
turned-append_last (x ∷ xs) y = ap (λ t. t ++ (x ∷ [])) (turned-append_last xs y)

-- A byte behind others, at a position that is known to be that.
get_or-at : (a : List ℕ) (x : ℕ) (b : List ℕ) (i : ℕ) → i ≡ length a → get_or (a ++ (x ∷ b)) i 0 ≡ x
get_or-at [] x b zero e = refl
get_or-at [] x b (suc i) e = absurd (omega (arith, e))
get_or-at (y ∷ a) x b zero e = absurd (omega (arith, e))
get_or-at (y ∷ a) x b (suc i) e = get_or-at a x b i (omega (arith, e))

set-at :
    (a : List ℕ) (x : ℕ) (b : List ℕ) (i v : ℕ)
    → i ≡ length a
    → set (a ++ (x ∷ b)) i v ≡ a ++ (v ∷ b)
set-at [] x b zero v e = refl
set-at [] x b (suc i) v e = absurd (omega (arith, e))
set-at (y ∷ a) x b zero v e = absurd (omega (arith, e))
set-at (y ∷ a) x b (suc i) v e = ap (λ t. y ∷ t) (set-at a x b i v (omega (arith, e)))

-- A list that is not empty has a last element.
last_cases : (x : ℕ) (xs : List ℕ) → (front : List ℕ) × (y : ℕ) × ((x ∷ xs) ≡ front ++ (y ∷ []))
last_cases x [] = ([], x, refl)
last_cases x (z ∷ xs) = let (front, y, e) = last_cases z xs in (x ∷ front, y, ap (λ t. x ∷ t) e)

-- One round, on the bytes `x` and `y` at the two ends.
swap_ends :
    (a mid b : List ℕ) (x y start end : ℕ)
    → start ≡ length a
    → end ≡ length a + suc (length mid)
    → set
        (set (a ++ (x ∷ (mid ++ (y ∷ b)))) start (get_or (a ++ (x ∷ (mid ++ (y ∷ b)))) end 0))
        end
        (get_or (a ++ (x ∷ (mid ++ (y ∷ b)))) start 0)
      ≡ a ++ (y ∷ (mid ++ (x ∷ b)))
swap_ends a mid b x y start end e f =
    let str = a ++ (x ∷ (mid ++ (y ∷ b))) in
    let other_way : (z : ℕ) → a ++ (z ∷ (mid ++ (y ∷ b))) ≡ (a ++ (z ∷ mid)) ++ (y ∷ b) =
      λ z. sym (append_assoc a (z ∷ mid) (y ∷ b)) in
    let far : (z : ℕ) → end ≡ length (a ++ (z ∷ mid)) =
      λ z. omega (arith, f, length-append a (z ∷ mid)) in
    let first : get_or str start 0 ≡ x = get_or-at a x (mid ++ (y ∷ b)) start e in
    let last : get_or str end 0 ≡ y =
      ap (λ t. get_or t end 0) (other_way x) ∙ get_or-at (a ++ (x ∷ mid)) y b end (far x) in
    ap₂ (λ (u v : ℕ). set (set str start u) end v) last first
    ∙ ap (λ t. set t end x) (set-at a x (mid ++ (y ∷ b)) start y e ∙ other_way y)
    ∙ set-at (a ++ (y ∷ mid)) y b end x (far y)
    ∙ append_assoc a (y ∷ mid) (x ∷ b)

loop_stops : (n start end : ℕ) (str : List ℕ) → end ≤ start → reverse_loop n start end str ≡ str
unfolding reverse_loop
loop_stops zero start end str h = refl
loop_stops (suc n) start end str h = ground (arith, h)

loop_goes :
    (n start end : ℕ) (str : List ℕ)
    → start < end
    → reverse_loop (suc n) start end str
      ≡ reverse_loop n
          (start + 1)
          (end - 1)
          (set (set str start (get_or str end 0)) end (get_or str start 0))
unfolding reverse_loop
loop_goes n start end str h =
    let rest =
      reverse_loop n (start + 1) (end - 1)
        (set (set str start (get_or str end 0)) end (get_or str start 0)) in
    ap (λ (b : Bool). if b then rest else str) {y = true} (ground (arith, h))

-- The loop between `a` and `b`, whatever the rounds, as long as they are enough.
reverse_loop-turned :
    (n : ℕ) (a mid b : List ℕ) (start end : ℕ)
    → length mid ≤ n
    → start ≡ length a
    → end ≡ length a + length mid - 1
    → reverse_loop n start end (a ++ (mid ++ b)) ≡ a ++ (turned mid ++ b)
reverse_loop-turned n a [] b start end h e f =
    loop_stops n start end (a ++ b) (omega (arith, e, f)) ∙ (unfold turned in refl)
reverse_loop-turned n a (x ∷ []) b start end h e f =
    loop_stops n start end (a ++ (x ∷ b)) (omega (arith, e, f)) ∙ (unfold turned in refl)
reverse_loop-turned zero a (x ∷ z ∷ mid) b start end h e f = absurd (omega (arith, h))
reverse_loop-turned (suc n) a (x ∷ z ∷ mid) b start end h e f =
    let (front, y, same) = last_cases z mid in
    let size = ap length same ∙ length-append front (y ∷ []) in
    let grown = length-append a (y ∷ []) in
    let split : (t : List ℕ) → (z ∷ mid) ++ t ≡ front ++ (y ∷ t) =
      λ t. ap (λ l. l ++ t) same ∙ append_assoc front (y ∷ []) t in
    ap (λ t. reverse_loop (suc n) start end (a ++ (x ∷ t))) (split b)
    ∙ loop_goes n start end (a ++ (x ∷ (front ++ (y ∷ b)))) (omega (arith, e, f))
    ∙ ap (reverse_loop n (start + 1) (end - 1)) (
        swap_ends a front b x y start end e (omega (arith, f, size))
        ∙ sym (append_assoc a (y ∷ []) (front ++ (x ∷ b))))
    ∙ reverse_loop-turned n (a ++ (y ∷ [])) front (x ∷ b) (start + 1) (end - 1)
        (omega (arith, h, size)) (omega (arith, e, grown)) (omega (arith, f, size, grown))
    ∙ append_assoc a (y ∷ []) (turned front ++ (x ∷ b))
    ∙ ap (λ t. a ++ t)
        (sym (append_assoc (y ∷ turned front) (x ∷ []) b)
          ∙ ap (λ t. (t ++ (x ∷ [])) ++ b) (sym (turned-append_last front y) ∙ ap turned (sym same))
          ∙ (unfold turned in refl))

-- `reverse` turns the whole string round.
pub reverse-turned : (str : List ℕ) → reverse str ≡ turned str
unfolding reverse
reverse-turned str =
    ap (reverse_loop (length str) 0 (length str - 1)) (sym (append-nil str))
    ∙ reverse_loop-turned (length str) [] str [] 0 (length str - 1) (omega arith) refl (omega arith)
    ∙ append-nil (turned str)
