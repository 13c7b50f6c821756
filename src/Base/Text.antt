-- ===== src/Base/Text.antt =====
-- C strings: `strcmp` and `strcasecmp`, of which the code asks only whether they give 0.
use Prim.Native.Char.{code}
use Prim.Native.String.{String}
use ant_aodv.Base.Tests.{leb, ◌==◌, if◌then◌else◌}
use Prim.Native.Nat.{ℕ, ◌+◌}
use mathlib.Core.Bool.{Bool, true, false, ◌&&◌}
use mathlib.Core.List.{List, [], ◌∷◌, map}

abbrev pub codes : String → List ℕ
codes String.[] = []
codes (String.◌∷◌ c s) = code c ∷ codes s

unfoldable pub same_codes : List ℕ → List ℕ → Bool
same_codes [] [] = true
same_codes (x ∷ xs) (y ∷ ys) = x == y && same_codes xs ys
same_codes _ _ = false

unfoldable pub to_lower : ℕ → ℕ
to_lower c = if leb b'A' c && leb c b'Z' then c + 32 else c

-- `strcmp(a, b) == 0` and `strcasecmp(a, b) == 0`
unfoldable pub same_text : String → String → Bool
unfolding same_codes
same_text a b = same_codes (codes a) (codes b)

unfoldable pub same_text_nocase : String → String → Bool
unfolding same_codes to_lower
same_text_nocase a b = same_codes (map to_lower (codes a)) (map to_lower (codes b))
