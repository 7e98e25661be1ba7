-- ===== src/Base/Text.antt =====
-- Text literals as the bytes that `std::string` holds; every literal of the development is ASCII.
use Prim.Native.Char.{code}
use Prim.Native.String.{String}
use mathlib.Core.List.{[], ◌∷◌}
use crosspoint_simulator_ios.Base.Lists.{Bytes}

abbrev pub codes : String → Bytes
codes String.[] = []
codes (String.◌∷◌ c s) = code c ∷ codes s
