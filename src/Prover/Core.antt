-- ===== src/Prover/Core.antt =====
-- host-core/src/lib.rs: image IDs, execution, proofs and their verification over the crate risc0_zkvm. The
-- structs of its results have the fields of Host/Messages.
use go_zkvm.Base.{ℕ, suc, ◌%◌, ◌^◌, String, Bool, true, false, not, ◌==◌, Option, none, some}
use go_zkvm.Base.{List, [], ◌∷◌, length, if◌then◌else◌}
use Prim.Native.String
use go_zkvm.Host.Messages.{ExecuteResult, ProveResult, VerifyResult}
use go_zkvm.R0bf.Files.{same_bytes}
use go_zkvm.Prover.Outcome.{Outcome, ok, err, ◌>>=◌, ◌>>◌, map_err}

-- `ProveReceiptKind`
pub data ProveReceiptKind : Type 0 where
  composite : ProveReceiptKind
  succinct : ProveReceiptKind

-- `risc0_zkvm::InnerReceipt`, without its payloads.
pub data InnerReceipt : Type 0 where
  composite_receipt : InnerReceipt
  succinct_receipt : InnerReceipt
  groth16_receipt : InnerReceipt
  fake_receipt : InnerReceipt
  other_receipt : InnerReceipt

-- What the crate uses of risc0_zkvm, borsh and hex. Any of these calls may give an error, whose text is
-- what `{:#}` prints, or panic. The prover is a function of its input; `decimal` prints a number.
pub record Zkvm : Type 1 where
  pub Digest : Type 0
  pub Receipt : Type 0
  pub Builder : Type 0
  pub Env : Type 0
  pub Session : Type 0
  pub compute_image_id : List ℕ → Outcome String Digest
  pub digest_text : Digest → String
  pub digest_from_hex : String → Outcome String Digest
  pub hex_encode : List ℕ → String
  pub builder : Builder
  pub write_slice : Builder → List ℕ → Builder
  pub add_assumption : Builder → Receipt → Outcome String Builder
  pub build : Builder → Outcome String Env
  pub execute : Env → List ℕ → Outcome String Session
  pub session_journal : Session → List ℕ
  -- `{:?}` of the exit code.
  pub exit_code_text : Session → String
  pub segment_count : Session → ℕ
  pub session_rows : Session → ℕ
  pub prover_name : String
  pub prove_with_opts : Env → List ℕ → ProveReceiptKind → Outcome String Receipt
  pub receipt_verify : Receipt → Digest → Outcome String (Unit {0})
  pub receipt_to_vec : Receipt → Outcome String (List ℕ)
  pub receipt_from_slice : List ℕ → Outcome String Receipt
  pub receipt_journal : Receipt → List ℕ
  pub receipt_inner : Receipt → InnerReceipt
  pub seal_size : Receipt → ℕ
  pub decimal : ℕ → String

-- `HostError` of the crate.
pub data CoreError : Type 0 where
  invalid_request : String → CoreError
  invalid_guest_binary : String → CoreError
  invalid_receipt : String → CoreError
  invalid_image_id : String → CoreError
  execute_failed : String → CoreError
  prove_failed : String → CoreError
  verify_failed : String → CoreError
  journal_mismatch : String → String → CoreError
  internal : String → CoreError

-- `code`
unfoldable pub error_code : CoreError → String
error_code (invalid_request m) = "invalid_request"
error_code (invalid_guest_binary m) = "invalid_guest_binary"
error_code (invalid_receipt m) = "invalid_receipt"
error_code (invalid_image_id m) = "invalid_request"
error_code (execute_failed m) = "execute_failed"
error_code (prove_failed m) = "prove_failed"
error_code (verify_failed m) = "verify_failed"
error_code (journal_mismatch e a) = "journal_mismatch"
error_code (internal m) = "internal_error"

-- The texts of `#[error(…)]`.
unfoldable pub error_message : CoreError → String
error_message (invalid_request m) = String.◌++◌ "invalid request: " m
error_message (invalid_guest_binary m) = String.◌++◌ "invalid guest binary: " m
error_message (invalid_receipt m) = String.◌++◌ "invalid receipt: " m
error_message (invalid_image_id m) = String.◌++◌ "invalid image id: " m
error_message (execute_failed m) = String.◌++◌ "execute failed: " m
error_message (prove_failed m) = String.◌++◌ "prove failed: " m
error_message (verify_failed m) = String.◌++◌ "verify failed: " m
error_message (journal_mismatch e a) =
    String.◌++◌ "journal mismatch: expected " (String.◌++◌ e (String.◌++◌ ", got " a))
error_message (internal m) = String.◌++◌ "internal error: " m

-- `RECEIPT_ENCODING_BORSH`
abbrev pub receipt_encoding_borsh : String
receipt_encoding_borsh = "borsh"

module _ (Z : Zkvm) where
  unfoldable pub receipt_kind_name : Z.Receipt → String
  receipt_kind_name receipt = inner_name (Z.receipt_inner receipt)
    where
      inner_name : InnerReceipt → String
      inner_name composite_receipt = "composite"
      inner_name succinct_receipt = "succinct"
      inner_name groth16_receipt = "groth16"
      inner_name fake_receipt = "fake"
      inner_name other_receipt = "unknown"

  -- The loop of `build_env_with_assumptions`, from the index on.
  unfoldable pub add_assumptions : ℕ → List (List ℕ) → Z.Builder → Outcome CoreError Z.Builder
  add_assumptions idx [] builder = ok builder
  add_assumptions idx (bytes ∷ rest) builder = do
    receipt ←
        map_err (λ m. invalid_request (at_index "decode assumption receipt " m))
          (Z.receipt_from_slice bytes)
    builder' ←
        map_err (λ m. invalid_request (at_index "add assumption receipt " m))
          (Z.add_assumption builder receipt)
    add_assumptions (suc idx) rest builder'
    where
      at_index : String → String → String
      at_index what m = String.◌++◌ what (String.◌++◌ (Z.decimal idx) (String.◌++◌ ": " m))

  unfoldable pub build_env_with_assumptions : List ℕ → List (List ℕ) → Outcome CoreError Z.Env
  unfolding add_assumptions
  build_env_with_assumptions stdin assumptions = do
    let builder = if length stdin == 0 then Z.builder else Z.write_slice Z.builder stdin
    builder' ← add_assumptions 0 assumptions builder
    map_err (λ m. invalid_request (String.◌++◌ "build executor env: " m)) (Z.build builder')

  unfoldable pub compute_image_id_hex : List ℕ → Outcome CoreError String
  compute_image_id_hex guest_binary = do
    image_id ← map_err invalid_guest_binary (Z.compute_image_id guest_binary)
    ok (Z.digest_text image_id)

  unfoldable pub core_execute : List ℕ → List ℕ → List (List ℕ) → Outcome CoreError ExecuteResult
  unfolding compute_image_id_hex build_env_with_assumptions
  core_execute guest_binary stdin assumptions = do
    image_id ← compute_image_id_hex guest_binary
    env ← build_env_with_assumptions stdin assumptions
    session ← map_err execute_failed (Z.execute env guest_binary)
    ok (record {
      image_id = image_id;
      journal = Z.session_journal session;
      exit_code = Z.exit_code_text session;
      segment_count = Z.segment_count session % 2 ^ 32;
      session_rows = Z.session_rows session % 2 ^ 64;
    })

  -- The self-check of `prove`.
  unfoldable pub self_check : Bool → Z.Receipt → Z.Digest → Outcome CoreError (Unit {0})
  self_check false receipt image_id = ok tt
  self_check true receipt image_id = map_err verify_failed (Z.receipt_verify receipt image_id)

  unfoldable pub core_prove :
      List ℕ → List ℕ → List (List ℕ) → Bool → ProveReceiptKind → Outcome CoreError ProveResult
  unfolding build_env_with_assumptions self_check receipt_kind_name
  core_prove guest_binary stdin assumptions verify_receipt kind = do
    image_id ← map_err invalid_guest_binary (Z.compute_image_id guest_binary)
    env ← build_env_with_assumptions stdin assumptions
    receipt ← map_err prove_failed (Z.prove_with_opts env guest_binary kind)
    self_check verify_receipt receipt image_id
    receipt_bytes ←
        map_err (λ m. internal (String.◌++◌ "serialize receipt: " m)) (Z.receipt_to_vec receipt)
    ok (record {
      image_id = Z.digest_text image_id;
      journal = Z.receipt_journal receipt;
      receipt = receipt_bytes;
      receipt_encoding = receipt_encoding_borsh;
      receipt_kind = receipt_kind_name receipt;
      prover_name = Z.prover_name;
      seal_bytes = Z.seal_size receipt % 2 ^ 64;
    })

  -- The comparison of the journals in `verify`.
  unfoldable pub check_journal : Option (List ℕ) → List ℕ → Outcome CoreError (Unit {0})
  check_journal none actual = ok tt
  check_journal (some expected) actual =
      if not (same_bytes actual expected)
      then err (journal_mismatch (Z.hex_encode expected) (Z.hex_encode actual))
      else ok tt

  unfoldable pub core_verify : List ℕ → String → Option (List ℕ) → Outcome CoreError VerifyResult
  unfolding check_journal receipt_kind_name
  core_verify receipt_bytes image_id_hex expected_journal = do
    image_id ← map_err invalid_image_id (Z.digest_from_hex image_id_hex)
    receipt ← map_err invalid_receipt (Z.receipt_from_slice receipt_bytes)
    map_err verify_failed (Z.receipt_verify receipt image_id)
    let actual_journal = Z.receipt_journal receipt
    check_journal expected_journal actual_journal
    ok (record {
      verified = true;
      journal = actual_journal;
      receipt_encoding = receipt_encoding_borsh;
      receipt_kind = receipt_kind_name receipt;
      seal_bytes = Z.seal_size receipt % 2 ^ 64;
    })
