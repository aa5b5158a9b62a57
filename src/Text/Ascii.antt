-- ===== src/Text/Ascii.antt =====
-- ASCII helpers of native/core/text/include/text/ascii.h. std::isspace and std::tolower are those
-- of the "C" locale.
use tightrope.Prelude.{ℕ, ◌+◌, ◌||◌, ◌&&◌, Bool, if◌then◌else◌, leb, ◌==◌, List, [], ◌∷◌, map}
use Prim.Native.Char.{code}
use Prim.Native.String.{String}
use mathlib.Core.List.{reverse}

-- The bytes of an ASCII literal.
abbrev pub codes : String → List ℕ
codes String.[] = []
codes (String.◌∷◌ c s) = code c ∷ codes s

unfoldable pub to_lower : ℕ → ℕ
to_lower c = if leb b'A' c && leb c b'Z' then c + 32 else c

unfoldable pub to_lower_ascii : List ℕ → List ℕ
to_lower_ascii value = map to_lower value

unfoldable pub is_space : ℕ → Bool
is_space c = c == 32 || (leb 9 c && leb c 13)

-- The first loop of trim_ascii; the second is the same from the other end.
unfoldable pub skip_spaces : List ℕ → List ℕ
skip_spaces [] = []
skip_spaces (c ∷ s) = if is_space c then skip_spaces s else c ∷ s

unfoldable pub trim_ascii : List ℕ → List ℕ
unfolding skip_spaces
trim_ascii value = reverse (skip_spaces (reverse (skip_spaces value)))
