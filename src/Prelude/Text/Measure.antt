-- ===== src/Prelude/Text/Measure.antt =====
-- The lengths of a text: utf8.RuneCountInString, and Go's `len`, its bytes in UTF-8.
use Prim.Native.Char.{code}
use musecat_backend_core.Prelude.Tests.{ltb, if◌then◌else◌}
use Prim.Native.Nat.{ℕ, ◌+◌}
use Prim.Native.String.{String}

unfoldable pub rune_count : String → ℕ
rune_count String.[] = 0
rune_count (String.◌∷◌ c s) = rune_count s + 1

pub rune_bytes : ℕ → ℕ
rune_bytes n = if ltb n 128 then 1 else if ltb n 2048 then 2 else if ltb n 65536 then 3 else 4

unfoldable pub byte_count : String → ℕ
unfolding rune_bytes
byte_count String.[] = 0
byte_count (String.◌∷◌ c s) = byte_count s + rune_bytes (code c)
