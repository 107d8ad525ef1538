-- ===== src/Tests/Hashing.antt =====
-- The one-shot hash, its padding and the tagged hashes on small messages.
use go_zkvm.Base.{ℕ, ◌+◌, ◌*◌, ◌/◌, ◌≡◌, refl, arith, List, [], ◌∷◌, ◌++◌, some}
use go_zkvm.Base.{replicate}
use go_zkvm.Sha.Accelerator.{IsDigest}
use go_zkvm.Sha.Padding.{compute_padded_length, pad_buffer}
use go_zkvm.Sha.Padding.Bounds.{compute_padded_length-eq}
use go_zkvm.Sha.Padding.Layout.{pad_buffer-eq, padding}
use go_zkvm.Sha.Words.{digest_words_to_bytes, digest_bytes_to_words}
use go_zkvm.Sha.Words.RoundTrip.{digest_bytes_to_words-digest_words_to_bytes}
use go_zkvm.Sha.Words.RoundTrip.{digest_words_to_bytes-digest_bytes_to_words}
use go_zkvm.Sha.Hash.{sha256_init_state, sha_buffer}
use go_zkvm.Sha.Hash.OneShot.{fips_hash, sha_buffer-fips}
use go_zkvm.Sha.Tagged.{tagged_struct_with_data}
use go_zkvm.Sha.Tagged.Preimage.{tagged_bytes_inj, tagged_struct_with_data-eq, tagged_digest}
use go_zkvm.Tests.Machine.{toy, toy-IsLawful}

abbrev abc : List ℕ
abc = 97 ∷ 98 ∷ 99 ∷ []

abbrev one_digest : List ℕ
one_digest = 1 ∷ 2 ∷ 3 ∷ 4 ∷ 5 ∷ 6 ∷ 7 ∷ 0xffffffff ∷ []

compute_padded_length-eq_example : compute_padded_length 56 ≡ 64 * ((56 + 8) / 64 + 1)
compute_padded_length-eq_example = compute_padded_length-eq 56 (omega arith)

pad_buffer-eq_example : pad_buffer abc 24 ≡ some (abc ++ padding 3 24)
pad_buffer-eq_example = pad_buffer-eq abc 24 (omega arith)

sha_buffer-fips_example :
    sha_buffer toy sha256_init_state abc ≡ some (fips_hash toy sha256_init_state abc)
sha_buffer-fips_example = sha_buffer-fips toy sha256_init_state abc (omega arith)

one_digest-IsDigest : IsDigest one_digest
one_digest-IsDigest = omega arith

tagged_struct_with_data-eq_example :
    tagged_struct_with_data toy "risc0.SystemState" (one_digest ∷ []) (7 ∷ [])
    ≡ some (tagged_digest toy "risc0.SystemState" (one_digest ∷ []) (7 ∷ []))
tagged_struct_with_data-eq_example =
    tagged_struct_with_data-eq toy "risc0.SystemState" (one_digest ∷ []) (7 ∷ []) toy-IsLawful
      (one_digest-IsDigest, tt) (omega arith) (omega arith)

abbrev two_words : List ℕ
two_words = 7 ∷ 8 ∷ []

tagged_bytes_inj_example :
    (one_digest ≡ one_digest) × (one_digest ∷ [] ≡ one_digest ∷ []) × (two_words ≡ two_words)
tagged_bytes_inj_example =
    tagged_bytes_inj one_digest one_digest (one_digest ∷ []) (one_digest ∷ []) two_words two_words
      one_digest-IsDigest one_digest-IsDigest (one_digest-IsDigest, tt) (one_digest-IsDigest, tt)
      (omega arith) (omega arith) (omega arith) (omega arith) refl

digest_bytes_to_words-digest_words_to_bytes_example :
    digest_bytes_to_words (digest_words_to_bytes one_digest) ≡ one_digest
digest_bytes_to_words-digest_words_to_bytes_example =
    digest_bytes_to_words-digest_words_to_bytes one_digest one_digest-IsDigest

abbrev some_bytes : List ℕ
some_bytes = 200 ∷ replicate 31 17

digest_words_to_bytes-digest_bytes_to_words_example :
    digest_words_to_bytes (digest_bytes_to_words some_bytes) ≡ some_bytes
digest_words_to_bytes-digest_bytes_to_words_example =
    digest_words_to_bytes-digest_bytes_to_words some_bytes refl (omega arith)
