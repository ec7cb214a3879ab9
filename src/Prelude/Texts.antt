-- ===== src/Prelude/Texts.antt =====
-- The characters of a text, by their code points.
use Prim.Native.Char.{code}
use Prim.Native.Nat.{ℕ}
use Prim.Native.String as Text
use Prim.Native.String.{String}
use mathlib.Core.List.{List, [], ◌∷◌}

abbrev pub codes : String → List ℕ
codes Text.[] = []
codes (Text.◌∷◌ c s) = code c ∷ codes s
