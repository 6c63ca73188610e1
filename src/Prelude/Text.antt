-- ===== src/Prelude/Text.antt =====
-- Text as bytes, and signed 64-bit numbers as the words that stand for them.
use Prim.Native.Char.{code}
use Prim.Native.Nat.{ℕ, ◌^◌}
use Prim.Native.String.{String}
use mathlib.Core.Bool.{Bool, true, false, ◌&&◌, ◌||◌}
use mathlib.Core.List.{[], ◌∷◌, ◌++◌}
use cloak.Prelude.Tests.{leb, ◌==◌, if◌then◌else◌}
use cloak.Prelude.Endian.{Bytes}

-- The code points of a literal, which are its bytes as it is ASCII.
abbrev pub codes : String → Bytes
codes String.[] = []
codes (String.◌∷◌ c s) = code c ∷ codes s

abbrev pub same_bytes : Bytes → Bytes → Bool
same_bytes [] [] = true
same_bytes [] (y ∷ b) = false
same_bytes (x ∷ a) [] = false
same_bytes (x ∷ a) (y ∷ b) = x == y && same_bytes a b

abbrev pub is_nil : Bytes → Bool
is_nil [] = true
is_nil (x ∷ b) = false

abbrev pub has_byte : ℕ → Bytes → Bool
has_byte c [] = false
has_byte c (x ∷ b) = x == c || has_byte c b

-- `net.JoinHostPort`.
abbrev pub join_host_port : Bytes → Bytes → Bytes
join_host_port host port =
    if has_byte b':' host
    then codes "[" ++ host ++ codes "]:" ++ port
    else host ++ codes ":" ++ port

abbrev pub not_positive : ℕ → Bool
not_positive v = v == 0 || leb (2 ^ 63) v
