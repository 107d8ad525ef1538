-- ===== src/Prover/Boundary.antt =====
-- host-ffi/src/lib.rs: the exported functions. The structs of its JSON have the fields of Host/Messages.
use go_zkvm.Base.{ℕ, suc, String, Bool, true, false, not, ◌==◌, Option, none, some, ◌⊎◌, inl, inr}
use go_zkvm.Base.{List, [], ◌∷◌, take, if◌then◌else◌}
use Prim.Native.String
use go_zkvm.Host.Loader.{same_text}
use go_zkvm.Host.Messages.{
  FfiErrorResponse, ComputeImageIdRequest, ComputeImageIdResponse, ExecuteJsonRequest,
  ExecuteJsonResponse, ProveJsonRequest, ProveJsonResponse, VerifyJsonRequest, VerifyJsonResponse,
}
use go_zkvm.Prover.Outcome.{Outcome, ok, err, unwound, ◌>>=◌, ◌>>◌, map_err}
use go_zkvm.Prover.Core.{
  ProveReceiptKind, composite, succinct, CoreError, error_code, error_message,
}
use go_zkvm.Prover.Core.{Zkvm, compute_image_id_hex, core_execute, core_prove, core_verify}

-- serde_json and base64, whose errors are texts, and the bytes of a text.
pub record Serde : Type 0 where
  pub parse_compute_image_id : List ℕ → Outcome String ComputeImageIdRequest
  pub parse_execute : List ℕ → Outcome String ExecuteJsonRequest
  pub parse_prove : List ℕ → Outcome String ProveJsonRequest
  pub parse_verify : List ℕ → Outcome String VerifyJsonRequest
  pub to_vec_compute_image_id : ComputeImageIdResponse → Outcome String (List ℕ)
  pub to_vec_execute : ExecuteJsonResponse → Outcome String (List ℕ)
  pub to_vec_prove : ProveJsonResponse → Outcome String (List ℕ)
  pub to_vec_verify : VerifyJsonResponse → Outcome String (List ℕ)
  pub to_vec_error : FfiErrorResponse → String ⊎ List ℕ
  pub base64_decode : String → Outcome String (List ℕ)
  pub base64_encode : List ℕ → String
  pub into_bytes : String → List ℕ

-- `ABI_VERSION`
abbrev pub crate_abi_version : ℕ
crate_abi_version = 2

abbrev pub Handled : Type 0 → Type 0
Handled A = Outcome FfiErrorResponse A

-- `invalid_request` and `internal_error`
abbrev pub invalid_response : String → FfiErrorResponse
invalid_response m = record { code = "invalid_request"; message = m }

abbrev pub internal_response : String → FfiErrorResponse
internal_response m = record { code = "internal_error"; message = m }

-- `error_from_host`
unfoldable pub error_from_host : CoreError → FfiErrorResponse
error_from_host e = record { code = error_code e; message = error_message e }

unfoldable pub parse_request : {A : Type 0} → Outcome String A → Handled A
parse_request parsed =
    map_err (λ m. invalid_response (String.◌++◌ "decode request JSON: " m)) parsed

-- `read_input`: a request that is not null starts at its pointer.
unfoldable pub read_input : Option (List ℕ) → ℕ → Handled (List ℕ)
read_input none len =
    if len == 0
    then ok []
    else err (invalid_response "request pointer was null with non-zero length")
read_input (some bytes) len = ok (take len bytes)

module _ (Z : Zkvm) (W : Serde) where
  unfoldable pub validate_abi : ℕ → Handled (Unit {0})
  validate_abi version =
      if not (version == crate_abi_version)
      then err (
          invalid_response (
            String.◌++◌ "unsupported ABI version " (
              String.◌++◌ (Z.decimal version)
                (String.◌++◌ "; expected " (Z.decimal crate_abi_version)))))
      else ok tt

  -- `decode_base64`
  unfoldable pub decode_field : String → String → Handled (List ℕ)
  decode_field field value =
      map_err
        (λ m. invalid_response (String.◌++◌ "decode " (String.◌++◌ field (String.◌++◌ ": " m))))
        (W.base64_decode value)

  -- `decode_base64_vec`, from the index on.
  unfoldable pub decode_fields : ℕ → String → List String → Handled (List (List ℕ))
  unfolding decode_field
  decode_fields idx field [] = ok []
  decode_fields idx field (value ∷ values) = do
    bytes ←
        decode_field (String.◌++◌ field (String.◌++◌ "[" (String.◌++◌ (Z.decimal idx) "]"))) value
    rest ← decode_fields (suc idx) field values
    ok (bytes ∷ rest)

  unfoldable pub parse_prove_receipt_kind : String → Handled ProveReceiptKind
  parse_prove_receipt_kind value =
      if same_text value "composite"
      then ok composite
      else if same_text value "succinct"
      then ok succinct
      else err (
          invalid_response (
            String.◌++◌ "unsupported receipt_kind `"
              (String.◌++◌ value "`; expected composite or succinct")))

  -- The closures of the four operations.
  unfoldable pub handle_compute_image_id : List ℕ → Handled ComputeImageIdResponse
  unfolding parse_request validate_abi decode_field
  handle_compute_image_id bytes = do
    req ← parse_request (W.parse_compute_image_id bytes)
    validate_abi req.abi_version
    guest_binary ← decode_field "guest_binary_base64" req.guest_binary_base64
    image_id ← map_err error_from_host (compute_image_id_hex Z guest_binary)
    ok (record { image_id = image_id })

  unfoldable pub handle_execute : List ℕ → Handled ExecuteJsonResponse
  unfolding parse_request validate_abi decode_field decode_fields
  handle_execute bytes = do
    req ← parse_request (W.parse_execute bytes)
    validate_abi req.abi_version
    guest_binary ← decode_field "guest_binary_base64" req.guest_binary_base64
    stdin ← decode_field "stdin_base64" req.stdin_base64
    assumptions ← decode_fields 0 "assumptions_base64" req.assumptions_base64
    result ← map_err error_from_host (core_execute Z guest_binary stdin assumptions)
    ok (record {
      image_id = result.image_id;
      journal_base64 = W.base64_encode result.journal;
      exit_code = result.exit_code;
      segment_count = result.segment_count;
      session_rows = result.session_rows;
    })

  unfoldable pub handle_prove : List ℕ → Handled ProveJsonResponse
  unfolding parse_request validate_abi decode_field decode_fields parse_prove_receipt_kind
  handle_prove bytes = do
    req ← parse_request (W.parse_prove bytes)
    validate_abi req.abi_version
    guest_binary ← decode_field "guest_binary_base64" req.guest_binary_base64
    stdin ← decode_field "stdin_base64" req.stdin_base64
    assumptions ← decode_fields 0 "assumptions_base64" req.assumptions_base64
    receipt_kind ← parse_prove_receipt_kind req.receipt_kind
    result ←
        map_err error_from_host
          (core_prove Z guest_binary stdin assumptions req.verify_receipt receipt_kind)
    ok (record {
      image_id = result.image_id;
      journal_base64 = W.base64_encode result.journal;
      receipt_base64 = W.base64_encode result.receipt;
      receipt_encoding = result.receipt_encoding;
      receipt_kind = result.receipt_kind;
      prover_name = result.prover_name;
      seal_bytes = result.seal_bytes;
    })

  -- The journal that `go_zkvm_verify` expects.
  unfoldable pub expected_of : Bool → String → Handled (Option (List ℕ))
  unfolding decode_field
  expected_of true text = do
    journal ← decode_field "expected_journal_base64" text
    ok (some journal)
  expected_of false text = ok none

  unfoldable pub handle_verify : List ℕ → Handled VerifyJsonResponse
  unfolding parse_request validate_abi decode_field expected_of
  handle_verify bytes = do
    req ← parse_request (W.parse_verify bytes)
    validate_abi req.abi_version
    receipt ← decode_field "receipt_base64" req.receipt_base64
    expected_journal ← expected_of req.expected_journal_present req.expected_journal_base64
    result ← map_err error_from_host (core_verify Z receipt req.image_id expected_journal)
    ok (record {
      verified = result.verified;
      journal_base64 = W.base64_encode result.journal;
      receipt_encoding = result.receipt_encoding;
      receipt_kind = result.receipt_kind;
      seal_bytes = result.seal_bytes;
    })

module _ (W : Serde) where
  unfoldable pub fallback : String ⊎ List ℕ → List ℕ
  fallback (inr bytes) = bytes
  fallback (inl m) = W.into_bytes (
      String.◌++◌ "{\"code\":\"internal_error\",\"message\":\"failed to serialize error response: "
        (String.◌++◌ m "\"}"))

  -- `serialize_error`
  unfoldable pub serialize_error : FfiErrorResponse → List ℕ
  unfolding fallback
  serialize_error e = fallback (W.to_vec_error e)

  -- The match on what `catch_unwind` gives: the status and the payload.
  unfoldable pub status_and_payload : Handled (List ℕ) → ℕ × List ℕ
  unfolding serialize_error
  status_and_payload (ok payload) = (0, payload)
  status_and_payload (err e) = (1, serialize_error e)
  status_and_payload (unwound message) =
      (2, serialize_error (internal_response (String.◌++◌ "panic in FFI boundary: " message)))

  -- `invoke` up to the payload: the handler runs on the request, under `catch_unwind`.
  unfoldable pub answer :
      {A : Type 0}
      → (List ℕ → Handled A)
      → (A → Outcome String (List ℕ))
      → Option (List ℕ)
      → ℕ
      → ℕ × List ℕ
  unfolding read_input status_and_payload
  answer handler to_vec req_ptr req_len = status_and_payload (do
    req_bytes ← read_input req_ptr req_len
    response ← handler req_bytes
    map_err (λ m. internal_response (String.◌++◌ "serialize response: " m)) (to_vec response))
