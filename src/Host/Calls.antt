-- ===== src/Host/Calls.antt =====
-- host/ffi_cgo.go: the four operations of a client, each one JSON call and the decoding of its payload.
use go_zkvm.Base.{ℕ, String, Bool, true, false, not, ◌||◌, ◌==◌, Option, none, some}
use go_zkvm.Base.{List, [], ◌∷◌, ◌++◌, length, if◌then◌else◌}
use go_zkvm.Host.Loader.{Linker, Loader, abi_version, same_text}
use go_zkvm.Host.Messages.{
  FfiErrorResponse, ComputeImageIdRequest, ComputeImageIdResponse, ExecuteJsonRequest,
  ExecuteJsonResponse, ProveJsonRequest, ProveJsonResponse, VerifyJsonRequest, VerifyJsonResponse,
  ReceiptKind, receipt_kind_composite, receipt_kind_succinct, ExecuteRequest, ExecuteResult,
  ProveRequest, ProveResult, VerifyRequest, VerifyResult,
}
use go_zkvm.Host.Failure.{unsupported_receipt_kind, decode_journal, decode_receipt}
use go_zkvm.Host.Options.{RunConfig, RunOption, default_run_config, apply_run_options}
use go_zkvm.Host.Ffi.{
  Foreign, Format, Decoded, M, ◌>>=◌, ◌>>◌, fail_if, or_fail, step, pure, call_json,
}
use go_zkvm.Host.Ffi.{ffi_call_compute_image_id, ffi_call_execute, ffi_call_prove, ffi_call_verify}
use go_zkvm.Host.Client.{Client}

-- The standard library's JSON and base64 at the types of the boundary.
pub record Codec : Type 0 where
  pub encode_base64 : List ℕ → String
  pub decode_base64 : String → Option (List ℕ)
  pub marshal_compute_image_id : ComputeImageIdRequest → Option (List ℕ)
  pub unmarshal_compute_image_id : List ℕ → Decoded ComputeImageIdResponse
  pub marshal_execute : ExecuteJsonRequest → Option (List ℕ)
  pub unmarshal_execute : List ℕ → Decoded ExecuteJsonResponse
  pub marshal_prove : ProveJsonRequest → Option (List ℕ)
  pub unmarshal_prove : List ℕ → Decoded ProveJsonResponse
  pub marshal_verify : VerifyJsonRequest → Option (List ℕ)
  pub unmarshal_verify : List ℕ → Decoded VerifyJsonResponse
  pub unmarshal_error : List ℕ → Decoded FfiErrorResponse
  pub format : Format

unfoldable pub is_valid_prove_receipt_kind : ReceiptKind → Bool
is_valid_prove_receipt_kind kind =
    same_text kind receipt_kind_composite || same_text kind receipt_kind_succinct

-- `logRun`
module _ {L : Linker} (F : Foreign L) where
  unfoldable pub log_run : Option F.Logger → String → ℕ → ℕ → Loader L → Loader L
  log_run none op guest_size stdin_size s = s
  log_run (some logger) op guest_size stdin_size s = record s {
    system = F.info s.system logger op guest_size stdin_size;
  }

module _ (C : Codec) where
  -- The loop of `encodeBinaryList`.
  unfoldable pub encode_items : List String → List (List ℕ) → List String
  encode_items encoded [] = encoded
  encode_items encoded (item ∷ items) = encode_items (encoded ++ (C.encode_base64 item ∷ [])) items

  unfoldable pub encode_binary_list : List (List ℕ) → List String
  unfolding encode_items
  encode_binary_list items = if length items == 0 then [] else encode_items [] items

  -- The requests that the operations build.
  unfoldable pub image_id_request : List ℕ → ComputeImageIdRequest
  image_id_request guest = record {
    abi_version = abi_version;
    guest_binary_base64 = C.encode_base64 guest;
  }

  unfoldable pub execute_request : ExecuteRequest → ExecuteJsonRequest
  unfolding encode_binary_list
  execute_request req = record {
    abi_version = abi_version;
    guest_binary_base64 = C.encode_base64 req.guest_binary;
    stdin_base64 = C.encode_base64 req.stdin;
    assumptions_base64 = encode_binary_list req.assumptions;
  }

  unfoldable pub prove_request :
      {Logger : Type 0} → ProveRequest → RunConfig Logger → ProveJsonRequest
  unfolding encode_binary_list
  prove_request req cfg = record {
    abi_version = abi_version;
    guest_binary_base64 = C.encode_base64 req.guest_binary;
    stdin_base64 = C.encode_base64 req.stdin;
    assumptions_base64 = encode_binary_list req.assumptions;
    verify_receipt = cfg.receipt_self_verify;
    receipt_kind = cfg.receipt_kind;
  }

  unfoldable pub expected_journal_base64 : Option (List ℕ) → String
  expected_journal_base64 none = ""
  expected_journal_base64 (some journal) = C.encode_base64 journal

  abbrev is_present : Option (List ℕ) → Bool
  is_present none = false
  is_present (some journal) = true

  unfoldable pub verify_request : VerifyRequest → VerifyJsonRequest
  unfolding expected_journal_base64
  verify_request req = record {
    abi_version = abi_version;
    receipt_base64 = C.encode_base64 req.receipt;
    image_id = req.image_id;
    expected_journal_present = is_present req.expected_journal;
    expected_journal_base64 = expected_journal_base64 req.expected_journal;
  }

  -- What the operations make of a response: the payloads are decoded.
  module _ {St : Type 0} where
    unfoldable pub read_execute : ExecuteJsonResponse → M St ExecuteResult
    read_execute resp = do
      journal ← or_fail (C.decode_base64 resp.journal_base64) (decode_journal "execute")
      pure (record {
        image_id = resp.image_id;
        journal = journal;
        exit_code = resp.exit_code;
        segment_count = resp.segment_count;
        session_rows = resp.session_rows;
      })

    unfoldable pub read_prove : ProveJsonResponse → M St ProveResult
    read_prove resp = do
      journal ← or_fail (C.decode_base64 resp.journal_base64) (decode_journal "prove")
      receipt ← or_fail (C.decode_base64 resp.receipt_base64) (decode_receipt "prove")
      pure (record {
        image_id = resp.image_id;
        journal = journal;
        receipt = receipt;
        receipt_encoding = resp.receipt_encoding;
        receipt_kind = resp.receipt_kind;
        prover_name = resp.prover_name;
        seal_bytes = resp.seal_bytes;
      })

    unfoldable pub read_verify : VerifyJsonResponse → M St VerifyResult
    read_verify resp = do
      journal ← or_fail (C.decode_base64 resp.journal_base64) (decode_journal "verify")
      pure (record {
        verified = resp.verified;
        journal = journal;
        receipt_encoding = resp.receipt_encoding;
        receipt_kind = resp.receipt_kind;
        seal_bytes = resp.seal_bytes;
      })

module _ {L : Linker} (F : Foreign L) (C : Codec) where
  unfoldable pub compute_image_id : Client → List ℕ → M (Loader L) String
  unfolding image_id_request
  compute_image_id c guest = do
    resp ←
        call_json F C.format C.unmarshal_error C.marshal_compute_image_id
          C.unmarshal_compute_image_id "compute_image_id" (ffi_call_compute_image_id F)
          (image_id_request C guest)
    pure resp.image_id

  unfoldable pub execute :
      Client → ExecuteRequest → List (RunOption F.Logger) → M (Loader L) ExecuteResult
  unfolding log_run execute_request read_execute
  execute c req opts = do
    let cfg = apply_run_options opts default_run_config
    step (λ s. (tt, log_run F cfg.logger "execute" (length req.guest_binary) (length req.stdin) s))
    resp ←
        call_json F C.format C.unmarshal_error C.marshal_execute C.unmarshal_execute "execute"
          (ffi_call_execute F) (execute_request C req)
    read_execute C resp

  unfoldable pub prove :
      Client → ProveRequest → List (RunOption F.Logger) → M (Loader L) ProveResult
  unfolding log_run prove_request read_prove is_valid_prove_receipt_kind
  prove c req opts = do
    let cfg = apply_run_options opts default_run_config
    step (λ s. (tt, log_run F cfg.logger "prove" (length req.guest_binary) (length req.stdin) s))
    fail_if (not (is_valid_prove_receipt_kind cfg.receipt_kind))
        (unsupported_receipt_kind cfg.receipt_kind)
    resp ←
        call_json F C.format C.unmarshal_error C.marshal_prove C.unmarshal_prove "prove"
          (ffi_call_prove F) (prove_request C req cfg)
    read_prove C resp

  unfoldable pub verify : Client → VerifyRequest → M (Loader L) VerifyResult
  unfolding verify_request read_verify
  verify c req = do
    resp ←
        call_json F C.format C.unmarshal_error C.marshal_verify C.unmarshal_verify "verify"
          (ffi_call_verify F) (verify_request C req)
    read_verify C resp
