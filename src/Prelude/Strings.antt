-- ===== src/Prelude/Strings.antt =====
-- Texts cut at a separator, and put together again.
use Prim.Native.Nat.{ℕ}
use Prim.Native.Char.{code}
use Prim.Native.String.{String}
use mathlib.Core.Bool.{true, false}
use mathlib.Core.List.{List, [], ◌∷◌}
use tide.Prelude.Tests.{eqb, ◌<>◌}

-- `strings.Split(s, sep)` at a separator of one byte, with the part that is being read.
unfoldable pub split_from : ℕ → String → String → List String
split_from sep cur String.[] = cur ∷ []
split_from sep cur (String.◌∷◌ c s) = elim (eqb (code c) sep) [
  | true ↦ cur ∷ split_from sep "" s
  | false ↦ split_from sep (cur <> String.◌∷◌ c String.[]) s
]

unfoldable pub split : ℕ → String → List String
unfolding split_from
split sep s = split_from sep "" s
