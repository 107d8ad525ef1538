-- ===== src/Tests/Wire.antt =====
-- The messages in that encoding.
use go_zkvm.Base.{ℕ, ◌≡◌, refl, List, [], ◌∷◌}
use go_zkvm.Host.Messages.{
  FfiErrorResponse, ComputeImageIdRequest, ComputeImageIdResponse, ExecuteJsonRequest,
  ExecuteJsonResponse, ProveJsonRequest, ProveJsonResponse, VerifyJsonRequest, VerifyJsonResponse,
}
use go_zkvm.Tests.Json.{
  put_text, get_text, get_text-put_text, put_texts, get_texts, get_texts-put_texts,
}
use go_zkvm.Tests.Json.{get_number, put_bool, get_bool, get_bool-put_bool}

unfoldable pub put_image_request : ComputeImageIdRequest → List ℕ
put_image_request j = j.abi_version ∷ put_text j.guest_binary_base64 []

pub get_image_request : List ℕ → ComputeImageIdRequest
get_image_request bytes =
    let (v0, rest0) = get_number bytes in
    let (v1, rest1) = get_text rest0 in record { abi_version = v0; guest_binary_base64 = v1 }

pub get-put_image_request :
    (j : ComputeImageIdRequest) → get_image_request (put_image_request j) ≡ j
unfolding put_image_request get_image_request
get-put_image_request j = rw (get_text-put_text j.guest_binary_base64 ([])) refl

unfoldable pub put_image_response : ComputeImageIdResponse → List ℕ
put_image_response j = put_text j.image_id []

pub get_image_response : List ℕ → ComputeImageIdResponse
get_image_response bytes = let (v0, rest0) = get_text bytes in record { image_id = v0 }

pub get-put_image_response :
    (j : ComputeImageIdResponse) → get_image_response (put_image_response j) ≡ j
unfolding put_image_response get_image_response
get-put_image_response j = rw (get_text-put_text j.image_id ([])) refl

unfoldable pub put_run_request : ExecuteJsonRequest → List ℕ
put_run_request j =
    j.abi_version
    ∷ put_text j.guest_binary_base64 (put_text j.stdin_base64 (put_texts j.assumptions_base64 []))

pub get_run_request : List ℕ → ExecuteJsonRequest
get_run_request bytes =
    let (v0, rest0) = get_number bytes in
    let (v1, rest1) = get_text rest0 in
    let (v2, rest2) = get_text rest1 in
    let (v3, rest3) = get_texts rest2 in
    record {
      abi_version = v0;
      guest_binary_base64 = v1;
      stdin_base64 = v2;
      assumptions_base64 = v3;
    }

pub get-put_run_request : (j : ExecuteJsonRequest) → get_run_request (put_run_request j) ≡ j
unfolding put_run_request get_run_request
get-put_run_request j =
    rw
      (
        get_text-put_text j.guest_binary_base64
            (put_text j.stdin_base64 (put_texts j.assumptions_base64 [])),
        get_text-put_text j.stdin_base64 (put_texts j.assumptions_base64 []),
        get_texts-put_texts j.assumptions_base64 ([]),
      )
      refl

unfoldable pub put_run_response : ExecuteJsonResponse → List ℕ
put_run_response j =
    put_text j.image_id
      (put_text j.journal_base64 (put_text j.exit_code (j.segment_count ∷ j.session_rows ∷ [])))

pub get_run_response : List ℕ → ExecuteJsonResponse
get_run_response bytes =
    let (v0, rest0) = get_text bytes in
    let (v1, rest1) = get_text rest0 in
    let (v2, rest2) = get_text rest1 in
    let (v3, rest3) = get_number rest2 in
    let (v4, rest4) = get_number rest3 in
    record {
      image_id = v0;
      journal_base64 = v1;
      exit_code = v2;
      segment_count = v3;
      session_rows = v4;
    }

pub get-put_run_response : (j : ExecuteJsonResponse) → get_run_response (put_run_response j) ≡ j
unfolding put_run_response get_run_response
get-put_run_response j =
    rw
      (
        get_text-put_text j.image_id (
            put_text j.journal_base64
              (put_text j.exit_code (j.segment_count ∷ j.session_rows ∷ []))),
        get_text-put_text j.journal_base64
            (put_text j.exit_code (j.segment_count ∷ j.session_rows ∷ [])),
        get_text-put_text j.exit_code (j.segment_count ∷ j.session_rows ∷ []),
      )
      refl

unfoldable pub put_proof_request : ProveJsonRequest → List ℕ
put_proof_request j =
    j.abi_version
    ∷ put_text j.guest_binary_base64 (
        put_text j.stdin_base64
          (put_texts j.assumptions_base64 (put_bool j.verify_receipt (put_text j.receipt_kind []))))

pub get_proof_request : List ℕ → ProveJsonRequest
get_proof_request bytes =
    let (v0, rest0) = get_number bytes in
    let (v1, rest1) = get_text rest0 in
    let (v2, rest2) = get_text rest1 in
    let (v3, rest3) = get_texts rest2 in
    let (v4, rest4) = get_bool rest3 in
    let (v5, rest5) = get_text rest4 in
    record {
      abi_version = v0;
      guest_binary_base64 = v1;
      stdin_base64 = v2;
      assumptions_base64 = v3;
      verify_receipt = v4;
      receipt_kind = v5;
    }

pub get-put_proof_request : (j : ProveJsonRequest) → get_proof_request (put_proof_request j) ≡ j
unfolding put_proof_request get_proof_request
get-put_proof_request j =
    rw
      (
        get_text-put_text j.guest_binary_base64 (
            put_text j.stdin_base64 (
              put_texts j.assumptions_base64
                (put_bool j.verify_receipt (put_text j.receipt_kind [])))),
        get_text-put_text j.stdin_base64 (
            put_texts j.assumptions_base64
              (put_bool j.verify_receipt (put_text j.receipt_kind []))),
        get_texts-put_texts j.assumptions_base64
            (put_bool j.verify_receipt (put_text j.receipt_kind [])),
        get_bool-put_bool j.verify_receipt (put_text j.receipt_kind []),
        get_text-put_text j.receipt_kind ([]),
      )
      refl

unfoldable pub put_proof_response : ProveJsonResponse → List ℕ
put_proof_response j = put_text j.image_id (
    put_text j.journal_base64 (
      put_text j.receipt_base64 (
        put_text j.receipt_encoding
          (put_text j.receipt_kind (put_text j.prover_name (j.seal_bytes ∷ []))))))

pub get_proof_response : List ℕ → ProveJsonResponse
get_proof_response bytes =
    let (v0, rest0) = get_text bytes in
    let (v1, rest1) = get_text rest0 in
    let (v2, rest2) = get_text rest1 in
    let (v3, rest3) = get_text rest2 in
    let (v4, rest4) = get_text rest3 in
    let (v5, rest5) = get_text rest4 in
    let (v6, rest6) = get_number rest5 in
    record {
      image_id = v0;
      journal_base64 = v1;
      receipt_base64 = v2;
      receipt_encoding = v3;
      receipt_kind = v4;
      prover_name = v5;
      seal_bytes = v6;
    }

pub get-put_proof_response : (j : ProveJsonResponse) → get_proof_response (put_proof_response j) ≡ j
unfolding put_proof_response get_proof_response
get-put_proof_response j =
    rw
      (
        get_text-put_text j.image_id (
            put_text j.journal_base64 (
              put_text j.receipt_base64 (
                put_text j.receipt_encoding
                  (put_text j.receipt_kind (put_text j.prover_name (j.seal_bytes ∷ [])))))),
        get_text-put_text j.journal_base64 (
            put_text j.receipt_base64 (
              put_text j.receipt_encoding
                (put_text j.receipt_kind (put_text j.prover_name (j.seal_bytes ∷ []))))),
        get_text-put_text j.receipt_base64 (
            put_text j.receipt_encoding
              (put_text j.receipt_kind (put_text j.prover_name (j.seal_bytes ∷ [])))),
        get_text-put_text j.receipt_encoding
            (put_text j.receipt_kind (put_text j.prover_name (j.seal_bytes ∷ []))),
        get_text-put_text j.receipt_kind (put_text j.prover_name (j.seal_bytes ∷ [])),
        get_text-put_text j.prover_name (j.seal_bytes ∷ []),
      )
      refl

unfoldable pub put_check_request : VerifyJsonRequest → List ℕ
put_check_request j =
    j.abi_version
    ∷ put_text j.receipt_base64 (
        put_text j.image_id
          (put_bool j.expected_journal_present (put_text j.expected_journal_base64 [])))

pub get_check_request : List ℕ → VerifyJsonRequest
get_check_request bytes =
    let (v0, rest0) = get_number bytes in
    let (v1, rest1) = get_text rest0 in
    let (v2, rest2) = get_text rest1 in
    let (v3, rest3) = get_bool rest2 in
    let (v4, rest4) = get_text rest3 in
    record {
      abi_version = v0;
      receipt_base64 = v1;
      image_id = v2;
      expected_journal_present = v3;
      expected_journal_base64 = v4;
    }

pub get-put_check_request : (j : VerifyJsonRequest) → get_check_request (put_check_request j) ≡ j
unfolding put_check_request get_check_request
get-put_check_request j =
    rw
      (
        get_text-put_text j.receipt_base64 (
            put_text j.image_id
              (put_bool j.expected_journal_present (put_text j.expected_journal_base64 []))),
        get_text-put_text j.image_id
            (put_bool j.expected_journal_present (put_text j.expected_journal_base64 [])),
        get_bool-put_bool j.expected_journal_present (put_text j.expected_journal_base64 []),
        get_text-put_text j.expected_journal_base64 ([]),
      )
      refl

unfoldable pub put_check_response : VerifyJsonResponse → List ℕ
put_check_response j = put_bool j.verified (
    put_text j.journal_base64
      (put_text j.receipt_encoding (put_text j.receipt_kind (j.seal_bytes ∷ []))))

pub get_check_response : List ℕ → VerifyJsonResponse
get_check_response bytes =
    let (v0, rest0) = get_bool bytes in
    let (v1, rest1) = get_text rest0 in
    let (v2, rest2) = get_text rest1 in
    let (v3, rest3) = get_text rest2 in
    let (v4, rest4) = get_number rest3 in
    record {
      verified = v0;
      journal_base64 = v1;
      receipt_encoding = v2;
      receipt_kind = v3;
      seal_bytes = v4;
    }

pub get-put_check_response :
    (j : VerifyJsonResponse) → get_check_response (put_check_response j) ≡ j
unfolding put_check_response get_check_response
get-put_check_response j =
    rw
      (
        get_bool-put_bool j.verified (
            put_text j.journal_base64
              (put_text j.receipt_encoding (put_text j.receipt_kind (j.seal_bytes ∷ [])))),
        get_text-put_text j.journal_base64
            (put_text j.receipt_encoding (put_text j.receipt_kind (j.seal_bytes ∷ []))),
        get_text-put_text j.receipt_encoding (put_text j.receipt_kind (j.seal_bytes ∷ [])),
        get_text-put_text j.receipt_kind (j.seal_bytes ∷ []),
      )
      refl

unfoldable pub put_error : FfiErrorResponse → List ℕ
put_error j = put_text j.code (put_text j.message [])

pub get_error : List ℕ → FfiErrorResponse
get_error bytes =
    let (v0, rest0) = get_text bytes in
    let (v1, rest1) = get_text rest0 in record { code = v0; message = v1 }

pub get-put_error : (j : FfiErrorResponse) → get_error (put_error j) ≡ j
unfolding put_error get_error
get-put_error j =
    rw (get_text-put_text j.code (put_text j.message []), get_text-put_text j.message ([])) refl
