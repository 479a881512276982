-- ===== src/Prelude/Texts.antt =====
-- Texts as lists of code points, and the literals that the program writes.
use Prim.Native.Char.{code}
use mathlib.Core.List.{List, [], ◌∷◌}
use Prim.Native.Nat.{ℕ}
pub use Prim.Native.String.{String}

-- The code points of a literal.
abbrev pub codes : String → List ℕ
codes String.[] = []
codes (String.◌∷◌ c s) = code c ∷ codes s

-- A `str`, as its code points.
abbrev pub Text : Type 0
Text = List ℕ
