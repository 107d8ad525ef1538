-- ===== src/R0bf/Extract/Runs.antt =====
-- Runs of the unpacking command.
use go_zkvm.Base.{ℕ, ◌≡◌, ◌≢◌, arith, String, List, [], ◌∷◌, some}
use text.Mathlib.TextEquality.{eq_iff}
use go_zkvm.R0bf.Files.{Files, Bytes, returned, HasFile, IsReliable}
use go_zkvm.R0bf.Extract.{unpack, extract, extract_main}

different_names : ◌≢◌ {A = String} "extracted_kernel.elf" "extracted_user.elf"
different_names = ground (arith, eq_iff "extracted_kernel.elf" "extracted_user.elf")

module _ (F : Files) (rely : IsReliable F) where
  -- What the unpacker finds is what it writes, each ELF to its file.
  pub extract_main-unpack :
      (fs : F.Fs) (program input_path : String) (s : Bytes) (user kernel : List ℕ)
      → F.read_file fs input_path ≡ some s
      → unpack s fs ≡ returned (user, kernel) fs
      → (end : F.Fs) × (extract_main F (program ∷ input_path ∷ []) fs ≡ returned tt end)
        × (HasFile F end "extracted_user.elf" user × HasFile F end "extracted_kernel.elf" kernel)
  unfolding extract_main extract
  extract_main-unpack fs program input_path s user kernel es eu = (
    fs2,
    rw (
      es,
      eu,
      rely.write-true fs "extracted_user.elf" user,
      rely.write-true fs1 "extracted_kernel.elf" kernel,
    ),
    (
      rely.write-HasFile_ne fs1 "extracted_kernel.elf" "extracted_user.elf" kernel user
          different_names (rely.write-HasFile fs "extracted_user.elf" user),
      rely.write-HasFile fs1 "extracted_kernel.elf" kernel,
    ),
  )
    where
      fs1 : F.Fs
      fs1 = (F.write_file fs "extracted_user.elf" user).0

      fs2 : F.Fs
      fs2 = (F.write_file fs1 "extracted_kernel.elf" kernel).0
