-- ===== src/Base/Text.antt =====
-- `str.lower` on ASCII letters and `needle in text`, over code points. Other letters keep their
-- case here, which the program's needles, ASCII words, do not see.
use Prim.Native.Nat.{ℕ, ◌+◌}
use Prim.Native.Char.{code}
use Prim.Native.String.{String}
use mathlib.Core.Bool.{Bool, true, false, ◌&&◌, ◌||◌}
use mathlib.Core.List.{List, [], ◌∷◌, map}
use gpuopt.Base.Tests.{leb, nat_beq, if◌then◌else◌}

abbrev pub codes : String → List ℕ
codes String.[] = []
codes (String.◌∷◌ c s) = code c ∷ codes s

lower_code : ℕ → ℕ
lower_code c = if leb b'A' c && leb c b'Z' then c + 32 else c

has_prefix : List ℕ → List ℕ → Bool
has_prefix [] s = true
has_prefix (c ∷ p) [] = false
has_prefix (c ∷ p) (d ∷ s) = nat_beq c d && has_prefix p s

has_infix : List ℕ → List ℕ → Bool
unfolding has_prefix
has_infix p [] = has_prefix p []
has_infix p (d ∷ s) = has_prefix p (d ∷ s) || has_infix p s

-- `needle in text.lower()`
unfoldable pub lower_contains : String → String → Bool
unfolding lower_code has_infix
lower_contains needle text = has_infix (codes needle) (map lower_code (codes text))

-- `needle in text`
unfoldable pub contains : String → String → Bool
unfolding has_infix
contains needle text = has_infix (codes needle) (codes text)
