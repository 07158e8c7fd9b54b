-- ===== src/Prelude/Bytes.antt =====
-- `std::string` as a list of bytes.
use Prim.Native.Char.{code}
use Prim.Native.String.{String}
use Prim.Native.Nat.{ℕ}
use mux.Prelude.Lists.{All}
use mathlib.Core.Logic.{◌≢◌}
use mathlib.Core.List.{List, [], ◌∷◌}

abbrev pub Bytes : Type 0
Bytes = List ℕ

-- The code points of a literal: its bytes, since every literal of the program's texts is ASCII.
abbrev pub codes : String → Bytes
codes String.[] = []
codes (String.◌∷◌ c s) = code c ∷ codes s

abbrev pub cr : ℕ
cr = 13

abbrev pub lf : ℕ
lf = 10

abbrev pub crlf : Bytes
crlf = cr ∷ lf ∷ []

abbrev pub Lacks : ℕ → Bytes → Type 0
Lacks c = All (λ d. d ≢ c)
