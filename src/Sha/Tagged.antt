-- ===== src/Sha/Tagged.antt =====
-- zkvm/sha256_proper.go: `taggedStruct`, `taggedStructWithData` and `taggedListCons`.
pub mod Preimage
use go_zkvm.Base.{ℕ, ◌%◌, ◌^◌, String, List, [], ◌∷◌, ◌++◌, length, Option, ◌>>=◌}
use go_zkvm.Base.Bytes.{ascii, le_bytes}
use go_zkvm.Sha.Accelerator.{Accelerator}
use go_zkvm.Sha.Words.{append_words, append_digests}
use go_zkvm.Sha.Hash.{sha256_init_state, sha_buffer}

-- `allBytes`: the tag digest, the digests, the data words, and the number of digests as a uint16.
pub tagged_bytes : List ℕ → List (List ℕ) → List ℕ → List ℕ
tagged_bytes tag_digest digests scalars =
    append_words (append_digests (append_words [] tag_digest) digests) scalars
    ++ le_bytes 2 (length digests % 2 ^ 16)

module _ (acc : Accelerator) where
  pub tagged_struct_with_data : String → List (List ℕ) → List ℕ → Option (List ℕ)
  tagged_struct_with_data tag digests scalars = do
    tag_digest ← sha_buffer acc sha256_init_state (ascii tag)
    sha_buffer acc sha256_init_state (tagged_bytes tag_digest digests scalars)

  pub tagged_struct : String → List (List ℕ) → Option (List ℕ)
  tagged_struct tag digests = tagged_struct_with_data tag digests []

  pub tagged_list_cons : String → List ℕ → List ℕ → Option (List ℕ)
  tagged_list_cons tag head tail = tagged_struct tag (head ∷ tail ∷ [])
