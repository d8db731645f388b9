-- ===== src/Bytes/Text.antt =====
-- Literals: the code points of a text, which are its bytes where it is ASCII.
use Prim.Native.Char.{code}
use Prim.Native.String.{String}
use mini_cpm5_5080fast.Base.{[], ◌∷◌}
use mini_cpm5_5080fast.Bytes.{Bytes}

abbrev pub codes : String → Bytes
codes String.[] = []
codes (String.◌∷◌ c s) = code c ∷ codes s
