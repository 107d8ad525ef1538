-- ===== src/R0bf/Convert.antt =====
-- convert_to_r0bf.go
pub mod Header
pub mod Runs
use go_zkvm.Base.{
  ℕ, ◌%◌, ◌^◌, String, Bool, true, ◌||◌, not, List, [], ◌∷◌, ◌++◌, length, take, ltb,
}
use go_zkvm.Base.Bytes.{ascii, le_bytes}
use go_zkvm.R0bf.Files.{Files, Command, exit, same_bytes, ◌>>=◌, ◌>>◌, exit_if, or_exit, attempt}
use go_zkvm.R0bf.Files.{current}

abbrev pub elf_magic : List ℕ
elf_magic = 0x7f ∷ 0x45 ∷ 0x4c ∷ 0x46 ∷ []

-- `len(data) < 4 || string(data[:4]) != "\x7fELF"`
pub is_not_elf : List ℕ → Bool
is_not_elf bytes = ltb (length bytes) 4 || not (same_bytes (take 4 bytes) elf_magic)

-- What the command gathers in `buf` for a user ELF of `n` bytes.
pub header : ℕ → List ℕ
header n =
    ascii "R0BF"
    ++ (le_bytes 4 1
        ++ (le_bytes 4 16
            ++ (le_bytes 4 1
                ++ (le_bytes 4 8
                    ++ ((0x00 ∷ 0x00 ∷ 0x05 ∷ 0x31 ∷ 0x2e ∷ 0x30 ∷ 0x2e ∷ 0x30 ∷ [])
                        ++ le_bytes 4 (n % 2 ^ 32))))))

module _ (F : Files) where
  pub convert : String → String → String → Command F.Fs (Unit {0})
  convert user_path kernel_path output_path = do
    fs ← current
    user ← or_exit (F.read_file fs user_path)
    exit_if (is_not_elf user.elems)
    kernel ← or_exit (F.read_file fs kernel_path)
    exit_if (is_not_elf kernel.elems)
    attempt (λ s. F.create s output_path)
    attempt (λ s. F.append s output_path (header (length user.elems)))
    attempt (λ s. F.append s output_path user.elems)
    attempt (λ s. F.append s output_path kernel.elems)

  -- `main` on `os.Args`
  pub convert_main : List String → Command F.Fs (Unit {0})
  convert_main (program ∷ user_path ∷ kernel_path ∷ output_path ∷ []) =
      convert user_path kernel_path output_path
  convert_main _ = exit 1
