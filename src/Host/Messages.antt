-- ===== src/Host/Messages.antt =====
-- host/ffi_cgo.go: the JSON messages of the FFI boundary, and host/types.go: the public requests and
-- results. A Go []byte is a list of bytes; where nil differs from an empty slice it is an Option.
use go_zkvm.Base.{ℕ, String, Bool, List, Option}

pub record FfiErrorResponse : Type 0 where
  pub code : String
  pub message : String

pub record ComputeImageIdRequest : Type 0 where
  pub abi_version : ℕ
  pub guest_binary_base64 : String

pub record ComputeImageIdResponse : Type 0 where
  pub image_id : String

pub record ExecuteJsonRequest : Type 0 where
  pub abi_version : ℕ
  pub guest_binary_base64 : String
  pub stdin_base64 : String
  pub assumptions_base64 : List String

pub record ExecuteJsonResponse : Type 0 where
  pub image_id : String
  pub journal_base64 : String
  pub exit_code : String
  pub segment_count : ℕ
  pub session_rows : ℕ

pub record ProveJsonRequest : Type 0 where
  pub abi_version : ℕ
  pub guest_binary_base64 : String
  pub stdin_base64 : String
  pub assumptions_base64 : List String
  pub verify_receipt : Bool
  pub receipt_kind : String

pub record ProveJsonResponse : Type 0 where
  pub image_id : String
  pub journal_base64 : String
  pub receipt_base64 : String
  pub receipt_encoding : String
  pub receipt_kind : String
  pub prover_name : String
  pub seal_bytes : ℕ

pub record VerifyJsonRequest : Type 0 where
  pub abi_version : ℕ
  pub receipt_base64 : String
  pub image_id : String
  pub expected_journal_present : Bool
  pub expected_journal_base64 : String

pub record VerifyJsonResponse : Type 0 where
  pub verified : Bool
  pub journal_base64 : String
  pub receipt_encoding : String
  pub receipt_kind : String
  pub seal_bytes : ℕ

-- `ReceiptKind` and its values.
abbrev pub ReceiptKind : Type 0
ReceiptKind = String

abbrev pub receipt_kind_composite : ReceiptKind
receipt_kind_composite = "composite"

abbrev pub receipt_kind_succinct : ReceiptKind
receipt_kind_succinct = "succinct"

abbrev pub receipt_kind_groth16 : ReceiptKind
receipt_kind_groth16 = "groth16"

abbrev pub receipt_kind_fake : ReceiptKind
receipt_kind_fake = "fake"

pub record ExecuteRequest : Type 0 where
  pub guest_binary : List ℕ
  pub stdin : List ℕ
  pub assumptions : List (List ℕ)

pub record ExecuteResult : Type 0 where
  pub image_id : String
  pub journal : List ℕ
  pub exit_code : String
  pub segment_count : ℕ
  pub session_rows : ℕ

pub record ProveRequest : Type 0 where
  pub guest_binary : List ℕ
  pub stdin : List ℕ
  pub assumptions : List (List ℕ)

pub record ProveResult : Type 0 where
  pub image_id : String
  pub journal : List ℕ
  pub receipt : List ℕ
  pub receipt_encoding : String
  pub receipt_kind : ReceiptKind
  pub prover_name : String
  pub seal_bytes : ℕ

pub record VerifyRequest : Type 0 where
  pub receipt : List ℕ
  pub image_id : String
  -- nil asks for no check of the journal.
  pub expected_journal : Option (List ℕ)

pub record VerifyResult : Type 0 where
  pub verified : Bool
  pub journal : List ℕ
  pub receipt_encoding : String
  pub receipt_kind : ReceiptKind
  pub seal_bytes : ℕ
