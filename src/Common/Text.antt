-- ===== src/Common/Text.antt =====
-- The bytes of an ASCII text.
use Prim.Native.Char.{code}
use Prim.Native.String.{String}
use fido_key_wrap.Common.ByteSeq.{Bytes}
use mathlib.Core.List.{[], ◌∷◌}

unfoldable pub ascii_bytes : String → Bytes
ascii_bytes String.[] = []
ascii_bytes (String.◌∷◌ c s) = code c ∷ ascii_bytes s
