-- ===== src/Common/Text.antt =====
-- Texts as lists of code points, and the slugs of ID_RE (runtime/run_state.py).
use Prim.Native.Nat.{ℕ, Ordering}
use Prim.Native.Char.{code}
use Prim.Native.String.{String, compare}
use mathlib.Core.Bool.{Bool, true, false, ◌&&◌, ◌||◌}
use mathlib.Core.List.{List, [], ◌∷◌}
use my_org.Common.Lists.{length, every}
use my_org.Common.Tests.{leb, eqb}

abbrev pub codes : String → List ℕ
codes String.[] = []
codes (String.◌∷◌ c s) = code c ∷ codes s

-- `len(value)`.
abbrev pub text_length : String → ℕ
text_length s = length (codes s)

abbrev is_lower : ℕ → Bool
is_lower c = leb b'a' c && leb c b'z'

abbrev is_slug_char : ℕ → Bool
is_slug_char c = is_lower c || (leb b'0' c && leb c b'9') || eqb c b'-'

abbrev is_slug_codes : List ℕ → Bool
is_slug_codes [] = false
is_slug_codes (c ∷ cs) =
    is_lower c && every is_slug_char cs && leb 1 (length cs) && leb (length cs) 63

-- `ID_RE.fullmatch(value)` for `^[a-z][a-z0-9-]{1,63}$`.
unfoldable pub is_slug : String → Bool
is_slug s = is_slug_codes (codes s)

-- `s <= t` on texts.
abbrev pub text_before : String → String → Bool
text_before s t = elim (compare s t) [ Ordering.gt ↦ false | _ ↦ true ]
