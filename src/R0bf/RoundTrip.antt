-- ===== src/R0bf/RoundTrip.antt =====
-- The two commands on a file system: packing, and unpacking what was packed.
use go_zkvm.Base.{ℕ, ◌%◌, ◌^◌, ◌<◌, ◌≡◌, refl, ap, ◌∙◌, arith, String}
use go_zkvm.Base.{List, [], ◌∷◌, ◌++◌, some, length, length-append, take, drop}
use go_zkvm.Base.{take-append, drop-append}
use go_zkvm.Base.Bytes.{le_bytes, le_number, le_number-le_bytes}
use mathlib.Core.Path.{ap₂}
use go_zkvm.R0bf.Files.{Files, Bytes, returned, HasFile, IsReliable}
use go_zkvm.R0bf.Convert.{convert_main}
use go_zkvm.R0bf.Convert.Runs.{container, IsElf, convert_main-container}
use go_zkvm.R0bf.Extract.Runs.{extract_main-unpack}
use go_zkvm.R0bf.Convert.Header.{header-eq, header_fields}
use go_zkvm.R0bf.Extract.{unpack, extract_main}
use go_zkvm.R0bf.Extract.Unpack.{unpack-eq}

-- On any container, with any capacity behind it, the unpacker finds the user ELF up to its length
-- modulo 2^32, and takes what follows for the kernel ELF.
pub unpack-container :
    {Fs : Type 0} (fs : Fs) (s : Bytes) (user kernel : List ℕ)
    → s.elems ≡ container user kernel
    → let n = length user % 2 ^ 32 in
      unpack s fs ≡ returned (take n (user ++ kernel), drop n (user ++ kernel)) fs
unpack-container fs s user kernel e =
    unpack-eq fs s (le_bytes 4 1) (le_bytes 4 16) header_fields (le_bytes 4 n) (user ++ kernel)
      (e ∙ header-eq (length user) (user ++ kernel)) refl refl (omega arith) refl
      (omega (arith, read_back, length-append user kernel))
    ∙ ap (λ (m : ℕ). returned (take m (user ++ kernel), drop m (user ++ kernel)) fs) read_back
  where
    n : ℕ
    n = length user % 2 ^ 32

    read_back : le_number (le_bytes 4 n) ≡ n
    read_back = le_number-le_bytes 4 n (omega arith)

-- Unpacking a container gives back the two ELFs, if the user ELF is smaller than 4 GiB.
pub unpack-container_fits :
    {Fs : Type 0} (fs : Fs) (s : Bytes) (user kernel : List ℕ)
    → s.elems ≡ container user kernel
    → length user < 2 ^ 32
    → unpack s fs ≡ returned (user, kernel) fs
unpack-container_fits fs s user kernel e fits =
    unpack-container fs s user kernel e
    ∙ ap₂ (λ a b. returned (a, b) fs) (take-append user kernel (length user % 2 ^ 32) (omega arith))
        (drop-append user kernel (length user % 2 ^ 32) (omega arith))

module _ (F : Files) (rely : IsReliable F) where
  -- On a file system on which no operation fails, packing two ELF files and unpacking the result gives
  -- them back: both commands return, and the two extracted files hold the two inputs, if the user ELF is
  -- smaller than 4 GiB.
  pub extract_main-convert_main :
      (fs : F.Fs) (program extractor user_path kernel_path output_path : String)
      (user kernel : Bytes)
      → F.read_file fs user_path ≡ some user
      → F.read_file fs kernel_path ≡ some kernel
      → IsElf user.elems
      → IsElf kernel.elems
      → length user.elems < 2 ^ 32
      → (middle end : F.Fs) × (convert_main F
            (program ∷ user_path ∷ kernel_path ∷ output_path ∷ [])
            fs
          ≡ returned tt middle)
        × (extract_main F (extractor ∷ output_path ∷ []) middle ≡ returned tt end)
        × HasFile F end "extracted_user.elf" user.elems
        × HasFile F end "extracted_kernel.elf" kernel.elems
  extract_main-convert_main fs program extractor user_path kernel_path output_path user kernel eu ek
        nu nk fits =
      let (middle, packed, (out, eo, same)) =
        convert_main-container F rely fs program user_path kernel_path output_path user kernel eu ek
          nu nk in
      let (end, unpacked, (fu, fk)) =
        extract_main-unpack F rely middle extractor output_path out user.elems kernel.elems eo
          (unpack-container_fits middle out user.elems kernel.elems same fits) in
      (middle, end, packed, unpacked, fu, fk)
