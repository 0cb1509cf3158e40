-- ===== src/Base/Bytes.antt =====
-- Texts as bytes, with the functions of Go's packages `strings` and `bytes` that look for one in another.
use Prim.Native.Char.{code}
use Prim.Native.Nat.{ℕ}
use Prim.Native.String.{String}
use mathlib.Core.Bool.{Bool, true, false, ◌&&◌}
use mathlib.Core.List.{List, [], ◌∷◌}
use mathlib.Core.Option.{Option, none, some}
use clawdh.Base.Tests.{nat_eq, if◌then◌else◌}
use clawdh.Base.Lists.{after_head}

abbrev pub newline : ℕ
newline = 10

-- The bytes of a constant, which is in ASCII.
unfoldable pub bytes : String → List ℕ
bytes String.[] = []
bytes (String.◌∷◌ c s) = code c ∷ bytes s

-- strings.HasPrefix
unfoldable pub starts_with : List ℕ → List ℕ → Bool
starts_with s [] = true
starts_with [] (d ∷ t) = false
starts_with (c ∷ s) (d ∷ t) = nat_eq c d && starts_with s t

-- strings.Index
unfoldable pub index_of : List ℕ → List ℕ → Option ℕ
unfolding starts_with
index_of m [] = if starts_with [] m then some 0 else none
index_of m (c ∷ s) = elim (starts_with (c ∷ s) m) [
  | true ↦ some 0
  | false ↦ after_head (index_of m s)
]
