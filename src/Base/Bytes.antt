-- ===== src/Base/Bytes.antt =====
-- Go's encoding/binary on byte slices, and texts as bytes.
use Prim.Native.Nat.{ℕ, zero, suc, ◌+◌, ◌*◌, ◌/◌, ◌%◌, ◌^◌, ◌<◌}
use Prim.Native.Char.{code}
use Prim.Native.String.{String}
use mathlib.Core.Path.{◌≡◌, refl, ap}
use mathlib.Core.List.{List, [], ◌∷◌, ◌++◌}
use native.Mathlib.Nat.{pow-suc}
use native.Mathlib.Omega.{arith}
use go_zkvm.Base.Lists.{length, All}
use go_zkvm.Base.Tests.{ltb, if◌then◌else◌}

-- `[]byte(s)` of an ASCII text.
abbrev pub ascii : String → List ℕ
ascii String.[] = []
ascii (String.◌∷◌ c s) = code c ∷ ascii s

-- The UTF-8 of a code point, and `[]byte(s)` of a text.
abbrev pub utf8_char : ℕ → List ℕ
utf8_char c =
    if ltb c 0x80
    then c ∷ []
    else if ltb c 0x800
    then (0xc0 + c / 0x40) ∷ (0x80 + c % 0x40) ∷ []
    else if ltb c 0x10000
    then (0xe0 + c / 0x1000) ∷ (0x80 + c / 0x40 % 0x40) ∷ (0x80 + c % 0x40) ∷ []
    else (0xf0 + c / 0x40000)
      ∷ (0x80 + c / 0x1000 % 0x40)
      ∷ (0x80 + c / 0x40 % 0x40)
      ∷ (0x80 + c % 0x40)
      ∷ []

abbrev pub utf8 : String → List ℕ
utf8 String.[] = []
utf8 (String.◌∷◌ c s) = utf8_char (code c) ++ utf8 s

-- The little-endian bytes of a number, and the number that bytes stand for.
abbrev pub le_bytes : ℕ → ℕ → List ℕ
le_bytes zero v = []
le_bytes (suc n) v = (v % 256) ∷ le_bytes n (v / 256)

abbrev pub le_number : List ℕ → ℕ
le_number [] = 0
le_number (b ∷ bs) = b + 256 * le_number bs

-- The big-endian bytes of a uint32.
abbrev pub be32 : ℕ → List ℕ
be32 v = (v / 2 ^ 24 % 256) ∷ (v / 2 ^ 16 % 256) ∷ (v / 2 ^ 8 % 256) ∷ (v % 256) ∷ []

pub length-le_bytes : (n v : ℕ) → length (le_bytes n v) ≡ n
length-le_bytes zero v = refl
length-le_bytes (suc n) v = ap suc (length-le_bytes n (v / 256))

-- Bytes, read as a number, give back the bytes.
pub le_bytes-le_number :
    (bytes : List ℕ) → All (λ b. b < 256) bytes → le_bytes (length bytes) (le_number bytes) ≡ bytes
le_bytes-le_number [] h = refl
le_bytes-le_number (b ∷ bytes) (hb, h) =
    cc (low, ap (λ (t : ℕ). le_bytes (length bytes) t) high, le_bytes-le_number bytes h)
  where
    low : (b + 256 * le_number bytes) % 256 ≡ b
    low = omega arith

    high : (b + 256 * le_number bytes) / 256 ≡ le_number bytes
    high = omega arith

-- A number that fits its bytes is read back.
pub le_number-le_bytes : (n v : ℕ) → v < 256 ^ n → le_number (le_bytes n v) ≡ v
le_number-le_bytes zero v h = omega arith
le_number-le_bytes (suc n) v h =
    omega (arith, le_number-le_bytes n (v / 256) (omega (arith, pow-suc 256 n)))

pub be32-bytes : (v : ℕ) → All (λ b. b < 256) (be32 v)
be32-bytes v = omega arith

-- The swapped trailer word is stored as the big-endian bytes.
pub le_bytes-be32 : (v : ℕ) → le_bytes 4 (le_number (be32 v)) ≡ be32 v
le_bytes-be32 v = le_bytes-le_number (be32 v) (be32-bytes v)
