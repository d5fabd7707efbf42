-- ===== src/Prelude/Text.antt =====
-- Texts as the bytes that the program has for them.
use Prim.Native.Char.{code}
use Prim.Native.String.{String}
use message_driven_event_que.Prelude.{ℕ, List, [], ◌∷◌}

-- The code points of a text: its bytes, if it is ASCII. `String` has its own `[]` and `∷`.
abbrev pub codes : String → List ℕ
codes String.[] = []
codes (String.◌∷◌ c s) = code c ∷ codes s
