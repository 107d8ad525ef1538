-- ===== src/R0bf/Convert/Header.antt =====
-- The header that the packer writes, as the fields of the container.
use go_zkvm.Base.{ℕ, ◌%◌, ◌^◌, ◌≡◌, refl, List, [], ◌∷◌, ◌++◌}
use go_zkvm.Base.Bytes.{ascii, le_bytes}
use go_zkvm.R0bf.Convert.{header}

-- One key-value pair of 8 bytes: the ABI version "1.0.0".
abbrev pub header_fields : List ℕ
header_fields =
    le_bytes 4 1 ++ (le_bytes 4 8 ++ (0x00 ∷ 0x00 ∷ 0x05 ∷ 0x31 ∷ 0x2e ∷ 0x30 ∷ 0x2e ∷ 0x30 ∷ []))

pub header-eq :
    (n : ℕ) (rest : List ℕ)
    → header n ++ rest
      ≡ ascii "R0BF"
        ++ (le_bytes 4 1 ++ (le_bytes 4 16 ++ (header_fields ++ (le_bytes 4 (n % 2 ^ 32) ++ rest))))
unfolding header
header-eq n rest = refl
