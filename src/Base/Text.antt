-- ===== src/Base/Text.antt =====
-- Texts as lists of bytes, and little-endian fields of a byte array.
use Prim.Native.Nat.{ℕ, zero, suc, ◌+◌, ◌*◌}
use Prim.Native.Char.{code}
use Prim.Native.String.{String}
use mathlib.Core.List.{List, [], ◌∷◌}
use pepin_os.Base.Tests.{◌==◌, if◌then◌else◌}

-- The code points of a text: its bytes, if it is ASCII.
abbrev pub codes : String → List ℕ
codes String.[] = []
codes (String.◌∷◌ c s) = code c ∷ codes s

-- What a C function reads of a text: the bytes before the first 0.
abbrev pub until_nul : List ℕ → List ℕ
until_nul [] = []
until_nul (c ∷ cs) = if c == 0 then [] else c ∷ until_nul cs

abbrev pub le16 : (ℕ → ℕ) → ℕ → ℕ
le16 m a = m a + 256 * m (a + 1)

abbrev pub le32 : (ℕ → ℕ) → ℕ → ℕ
le32 m a = m a + 256 * m (a + 1) + 65536 * m (a + 2) + 16777216 * m (a + 3)

-- The first `n` bytes from `f`.
abbrev pub bytes_of : ℕ → (ℕ → ℕ) → List ℕ
bytes_of zero f = []
bytes_of (suc n) f = f 0 ∷ bytes_of n (λ j. f (suc j))
