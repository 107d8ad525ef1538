-- ===== src/Tests/Commands.antt =====
-- The two commands on a disk with two ELF files.
use go_zkvm.Base.{ℕ, ◌≡◌, ◌≤◌, refl, arith, String, List, [], ◌∷◌, ◌++◌, length, take, drop}
use go_zkvm.Base.{some, none, inr, if◌then◌else◌}
use text.Mathlib.Text
use go_zkvm.R0bf.Files.{Bytes, returned, exited, HasFile}
use go_zkvm.R0bf.Convert.{convert_main}
use go_zkvm.R0bf.Convert.Runs.{container, IsElfFile, convert_main_refused}
use go_zkvm.R0bf.Extract.{unpack, extract_main}
use go_zkvm.R0bf.Extract.Unpack.{unpack_sound}
use go_zkvm.R0bf.RoundTrip.{unpack-container, extract_main-convert_main}
use go_zkvm.Tests.Disk.{Disk, disk_files, disk-IsReliable}

abbrev user_elf : List ℕ
user_elf = 0x7f ∷ 0x45 ∷ 0x4c ∷ 0x46 ∷ 1 ∷ 2 ∷ []

abbrev kernel_elf : List ℕ
kernel_elf = 0x7f ∷ 0x45 ∷ 0x4c ∷ 0x46 ∷ 3 ∷ []

abbrev two_elfs : Disk
two_elfs path =
    if Text.◌==◌ path "user.elf"
    then some user_elf
    else if Text.◌==◌ path "kernel.elf"
    then some kernel_elf
    else none

abbrev read_back : List ℕ → Bytes
read_back bytes = record { elems = bytes; spare = 0 ∷ 0 ∷ [] }

abbrev convert_args : List String
convert_args = "convert" ∷ "user.elf" ∷ "kernel.elf" ∷ "out.bin" ∷ []

abbrev extract_args : List String
extract_args = "extract" ∷ "out.bin" ∷ []

extract_main-convert_main_example :
    (middle end : Disk) × (convert_main disk_files convert_args two_elfs ≡ returned tt middle)
    × (extract_main disk_files extract_args middle ≡ returned tt end)
    × HasFile disk_files end "extracted_user.elf" user_elf
    × HasFile disk_files end "extracted_kernel.elf" kernel_elf
extract_main-convert_main_example =
    extract_main-convert_main disk_files disk-IsReliable two_elfs "convert" "extract" "user.elf"
      "kernel.elf" "out.bin" (read_back user_elf) (read_back kernel_elf) refl refl
      (1 ∷ 2 ∷ [], refl) (3 ∷ [], refl) (omega arith)

no_kernel : ¬ (IsElfFile disk_files two_elfs "kernel.bin")
no_kernel (b, e, elf) = cc e

convert_main_refused_example :
    convert_main disk_files ("convert" ∷ "user.elf" ∷ "kernel.bin" ∷ "out.bin" ∷ []) two_elfs
    ≡ exited 1 two_elfs
convert_main_refused_example =
    convert_main_refused disk_files two_elfs "convert" "user.elf" "kernel.bin" "out.bin"
      (inr no_kernel)

unpack-container_example :
    unpack (read_back (container user_elf kernel_elf)) two_elfs
    ≡ returned (take 6 (user_elf ++ kernel_elf), drop 6 (user_elf ++ kernel_elf)) two_elfs
unpack-container_example =
    unpack-container two_elfs (read_back (container user_elf kernel_elf)) user_elf kernel_elf refl

abbrev FrontOf : List ℕ → List ℕ → List ℕ → Type 0
FrontOf bytes user kernel =
    (front : List ℕ) × (bytes ≡ front ++ (user ++ kernel)) × (16 ≤ length front)

unpack_sound_example : FrontOf (container user_elf kernel_elf) user_elf kernel_elf
unpack_sound_example =
    unpack_sound two_elfs two_elfs (read_back (container user_elf kernel_elf)) user_elf kernel_elf (
      unpack-container two_elfs (read_back (container user_elf kernel_elf)) user_elf kernel_elf
        refl)
