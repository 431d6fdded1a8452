-- ===== src/Prelude/Text.antt =====
-- C strings as lists of their bytes.
use Prim.Native.Nat.{ℕ}
use mathlib.Core.Bool.{Bool, true, false, ◌&&◌, ◌||◌}
use mathlib.Core.List.{List, [], ◌∷◌}
use Prim.Native.Char.{code}
use Prim.Native.String.{String}
use adr_os.Prelude.Tests.{◌==◌}

-- The bytes of a text in ASCII. `String` has its own `[]` and `∷`.
abbrev pub codes : String → List ℕ
codes String.[] = []
codes (String.◌∷◌ c s) = code c ∷ codes s

-- `strcmp(a, b) == 0`
unfoldable pub same_text : List ℕ → List ℕ → Bool
same_text [] [] = true
same_text [] (y ∷ ys) = false
same_text (x ∷ xs) [] = false
same_text (x ∷ xs) (y ∷ ys) = (x == y) && same_text xs ys

-- Whether a text is one of a table.
unfoldable pub in_table : List (List ℕ) → List ℕ → Bool
unfolding same_text
in_table [] tok = false
in_table (t ∷ ts) tok = same_text t tok || in_table ts tok
