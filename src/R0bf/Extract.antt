-- ===== src/R0bf/Extract.antt =====
-- extract_r0bf.go, on a 64-bit machine: `int(headerLen)` and `int(userLen)` hold every uint32.
pub mod Unpack
pub mod Runs
use go_zkvm.Base.{ℕ, ◌+◌, String, Bool, not, List, [], ◌∷◌, length, Option, some}
use go_zkvm.Base.Bytes.{ascii, le_number}
use go_zkvm.R0bf.Files.{Files, Bytes, Command, returned, exit, slice, slice_from, same_bytes}
use go_zkvm.R0bf.Files.{◌>>=◌, ◌>>◌, exit_if, or_exit, lift, attempt, current}

module _ {Fs : Type 0} where
  -- From the magic to the kernel ELF: the two files that are in the container.
  pub unpack : Bytes → Command Fs (List ℕ × List ℕ)
  unpack s = do
    magic ← lift (slice s 0 4)
    exit_if (not (same_bytes magic (ascii "R0BF")))
    version ← lift (slice s 4 8)
    header_bytes ← lift (slice s 8 12)
    let offset = 12 + le_number header_bytes
    len_bytes ← lift (slice s offset (offset + 4))
    let user_len = le_number len_bytes
    user ← lift (slice s (offset + 4) (offset + 4 + user_len))
    kernel ← lift (slice_from s (offset + 4 + user_len))
    λ fs. returned (user, kernel) fs

module _ (F : Files) where
  extract : String → Command F.Fs (Unit {0})
  extract input_path = do
    fs ← current
    s ← or_exit (F.read_file fs input_path)
    (user, kernel) ← unpack s
    attempt (λ t. F.write_file t "extracted_user.elf" user)
    attempt (λ t. F.write_file t "extracted_kernel.elf" kernel)

  -- `main` on `os.Args`
  pub extract_main : List String → Command F.Fs (Unit {0})
  extract_main (program ∷ input_path ∷ []) = extract input_path
  extract_main _ = exit 1
