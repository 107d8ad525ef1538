-- ===== src/R0bf/Convert/Runs.antt =====
-- Runs of the packing command.
use go_zkvm.Base.{ℕ, ◌≡◌, ap, ◌∙◌, String, false, List, [], ◌∷◌, ◌++◌}
use go_zkvm.Base.{some, length, append_assoc, arith, ◌⊎◌, inl, inr, Bool-cases, Option-cases}
use mathlib.Core.Path.{subst}
use go_zkvm.R0bf.Files.{Files, Bytes, returned, exited, HasFile, IsReliable}
use go_zkvm.R0bf.Convert.{header, elf_magic, is_not_elf, convert, convert_main}

-- The container for a user and a kernel ELF.
abbrev pub container : List ℕ → List ℕ → List ℕ
container user kernel = header (length user) ++ (user ++ kernel)

-- The bytes begin with the four bytes of an ELF file.
abbrev pub IsElf : List ℕ → Type 0
IsElf bytes = (rest : List ℕ) × (bytes ≡ elf_magic ++ rest)

pub is_not_elf-false : (bytes : List ℕ) → is_not_elf bytes ≡ false → IsElf bytes
unfolding is_not_elf
is_not_elf-false [] h = absurd (ground arith)
is_not_elf-false (a ∷ []) h = absurd (ground arith)
is_not_elf-false (a ∷ b ∷ []) h = absurd (ground arith)
is_not_elf-false (a ∷ b ∷ c ∷ []) h = absurd (ground arith)
is_not_elf-false (a ∷ b ∷ c ∷ d ∷ rest) h = (rest, ground arith)

pub IsElf-is_not_elf : (bytes : List ℕ) → IsElf bytes → is_not_elf bytes ≡ false
unfolding is_not_elf
IsElf-is_not_elf bytes (rest, e) = ap is_not_elf e ∙ ground arith

module _ (F : Files) where
  abbrev pub IsElfFile : F.Fs → String → Type 0
  IsElfFile fs path = (b : Bytes) × (F.read_file fs path ≡ some b) × IsElf b.elems

  -- If the user file or the kernel file is missing or does not begin with the ELF magic, the packer
  -- ends with status 1 before it creates the output file: the file system is as it was.
  pub convert_main_refused :
      (fs : F.Fs) (program user_path kernel_path output_path : String)
      → (¬ IsElfFile fs user_path) ⊎ (¬ IsElfFile fs kernel_path)
      → convert_main F (program ∷ user_path ∷ kernel_path ∷ output_path ∷ []) fs ≡ exited 1 fs
  unfolding convert_main convert
  convert_main_refused fs program user_path kernel_path output_path h =
      elim (Option-cases (F.read_file fs user_path)) [
        | inl gone ↦ rw gone
        | inr (user, eu) ↦ elim (Bool-cases (is_not_elf user.elems)) [
          | inl bad ↦ rw (eu, bad)
          | inr good ↦ elim (Option-cases (F.read_file fs kernel_path)) [
            | inl gone ↦ rw (eu, good, gone)
            | inr (kernel, ek) ↦ elim (Bool-cases (is_not_elf kernel.elems)) [
              | inl bad ↦ rw (eu, good, ek, bad)
              | inr fine ↦ absurd (
                  neither h (user, eu, is_not_elf-false user.elems good)
                    (kernel, ek, is_not_elf-false kernel.elems fine))
            ]
          ]
        ]
      ]
    where
      neither :
          (¬ IsElfFile fs user_path) ⊎ (¬ IsElfFile fs kernel_path)
          → IsElfFile fs user_path
          → IsElfFile fs kernel_path
          → ⊥
      neither (inl no_user) u k = no_user u
      neither (inr no_kernel) u k = no_kernel k

module _ (F : Files) (rely : IsReliable F) where
  -- On two ELF files the packer returns and leaves the container at the output path.
  pub convert_main-container :
      (fs : F.Fs) (program user_path kernel_path output_path : String) (user kernel : Bytes)
      → F.read_file fs user_path ≡ some user
      → F.read_file fs kernel_path ≡ some kernel
      → IsElf user.elems
      → IsElf kernel.elems
      → (end : F.Fs) × (convert_main F (program ∷ user_path ∷ kernel_path ∷ output_path ∷ []) fs
          ≡ returned tt end)
        × HasFile F end output_path (container user.elems kernel.elems)
  unfolding convert_main convert
  convert_main-container fs program user_path kernel_path output_path user kernel eu ek hu hk = (
    fs4,
    rw (
      eu,
      IsElf-is_not_elf user.elems hu,
      ek,
      IsElf-is_not_elf kernel.elems hk,
      rely.create-true fs output_path,
      rely.append-true fs1 output_path head,
      rely.append-true fs2 output_path user.elems,
      rely.append-true fs3 output_path kernel.elems,
    ),
    subst (HasFile F fs4 output_path) (append_assoc head user.elems kernel.elems) (
        rely.append-HasFile fs3 output_path kernel.elems (head ++ user.elems) (
          rely.append-HasFile fs2 output_path user.elems head
            (rely.append-HasFile fs1 output_path head [] (rely.create-HasFile fs output_path)))),
  )
    where
      head : List ℕ
      head = header (length user.elems)

      fs1 : F.Fs
      fs1 = (F.create fs output_path).0

      fs2 : F.Fs
      fs2 = (F.append fs1 output_path head).0

      fs3 : F.Fs
      fs3 = (F.append fs2 output_path user.elems).0

      fs4 : F.Fs
      fs4 = (F.append fs3 output_path kernel.elems).0
