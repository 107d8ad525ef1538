-- ===== src/Prover/Handlers.antt =====
-- What the closures of the exported functions compute on a request of the Go side.
use go_zkvm.Base.{ℕ, suc, ◌^◌, ◌<◌, ◌≡◌, refl, ap, arith, String, Bool}
use go_zkvm.Base.{Option, none, some, List, [], ◌∷◌}
use mathlib.Core.Path.{ap₂}
use go_zkvm.Host.Loader.{abi_version}
use go_zkvm.Host.Messages.{
  ComputeImageIdRequest, ExecuteJsonRequest, ProveJsonRequest, VerifyJsonRequest,
}
use go_zkvm.Host.Messages.{ExecuteResult, ProveResult, VerifyResult}
use go_zkvm.Host.Calls.{Codec}
use go_zkvm.Host.Library.{Encodes, AllEncode, Expects, wire_image_id, wire_execute, wire_prove}
use go_zkvm.Host.Library.{wire_verify}
use Prim.Native.String
use go_zkvm.Prover.Outcome.{Outcome, ok, err, unwound, ◌>>=◌, map_err, sent, Values-bind}
use go_zkvm.Prover.Outcome.{Values-then, Values-map_err, Values-ok}
use go_zkvm.Prover.Core.{build_env_with_assumptions, self_check, check_journal, execute_failed}
use go_zkvm.Prover.Core.{
  invalid_guest_binary, prove_failed, internal, invalid_image_id, invalid_receipt, verify_failed,
}
use go_zkvm.Prover.Core.{
  Zkvm, ProveReceiptKind, compute_image_id_hex, core_execute, core_prove, core_verify,
}
use go_zkvm.Prover.Boundary.{
  Serde, Handled, error_from_host, parse_request, validate_abi, decode_field,
}
use go_zkvm.Prover.Boundary.{decode_fields, parse_prove_receipt_kind, handle_compute_image_id}
use go_zkvm.Prover.Boundary.{handle_execute, handle_prove, expected_of, handle_verify}
use go_zkvm.Prover.Crate.{IsWire}

sent-ap :
    {E A B : Type 0} (o : Outcome E A) (f g : A → B) → ((a : A) → f a ≡ g a) → sent o f ≡ sent o g
sent-ap (ok a) f g h = ap ok (h a)
sent-ap (err e) f g h = refl
sent-ap (unwound m) f g h = refl

module _ {C : Codec} {W : Serde} (wire : IsWire C W) (Z : Zkvm) where
  decode_field-Encodes :
      (field text : String) (bytes : List ℕ)
      → Encodes C text bytes
      → decode_field Z W field text ≡ ok bytes
  unfolding decode_field
  decode_field-Encodes field text bytes e = rw (e, wire.decode_lem bytes) refl

  decode_fields-AllEncode :
      (idx : ℕ) (field : String) (texts : List String) (all : List (List ℕ))
      → AllEncode C texts all
      → decode_fields Z W idx field texts ≡ ok all
  unfolding decode_fields
  decode_fields-AllEncode idx field [] [] e = refl
  decode_fields-AllEncode idx field [] (bytes ∷ all) e = absurd e
  decode_fields-AllEncode idx field (text ∷ texts) [] e = absurd e
  decode_fields-AllEncode idx field (text ∷ texts) (bytes ∷ all) (e, es) =
      rw (decode_field-Encodes _ text bytes e, decode_fields-AllEncode (suc idx) field texts all es)
        refl

  validate_abi-current : (v : ℕ) → v ≡ abi_version → validate_abi Z W v ≡ ok tt
  unfolding validate_abi
  validate_abi-current v e = rw e refl

  pub handle_compute_image_id_lem :
      (j : ComputeImageIdRequest) (b guest : List ℕ)
      → C.marshal_compute_image_id j ≡ some b
      → j.abi_version ≡ abi_version
      → Encodes C j.guest_binary_base64 guest
      → handle_compute_image_id Z W b
        ≡ sent (map_err error_from_host (compute_image_id_hex Z guest)) (wire_image_id C)
  unfolding handle_compute_image_id parse_request
  handle_compute_image_id_lem j b guest em ev eg =
      rw
        (
          wire.parse_compute_image_id_lem j b em ev,
          validate_abi-current j.abi_version ev,
          decode_field-Encodes "guest_binary_base64" j.guest_binary_base64 guest eg,
        )
        refl

  pub handle_execute_lem :
      (j : ExecuteJsonRequest) (b guest stdin : List ℕ) (all : List (List ℕ))
      → C.marshal_execute j ≡ some b
      → j.abi_version ≡ abi_version
      → Encodes C j.guest_binary_base64 guest
      → Encodes C j.stdin_base64 stdin
      → AllEncode C j.assumptions_base64 all
      → handle_execute Z W b
        ≡ sent (map_err error_from_host (core_execute Z guest stdin all)) (wire_execute C)
  unfolding handle_execute parse_request
  handle_execute_lem j b guest stdin all em ev eg es ea =
      rw
        (
          wire.parse_execute_lem j b em ev,
          validate_abi-current j.abi_version ev,
          decode_field-Encodes "guest_binary_base64" j.guest_binary_base64 guest eg,
          decode_field-Encodes "stdin_base64" j.stdin_base64 stdin es,
          decode_fields-AllEncode 0 "assumptions_base64" j.assumptions_base64 all ea,
        )
        (sent-ap (map_err error_from_host (core_execute Z guest stdin all)) _ (wire_execute C) (λ r.
          ap (λ t. record (wire_execute C r) { journal_base64 = t }) (wire.encode_lem r.journal)))

  pub handle_prove_lem :
      (j : ProveJsonRequest) (b guest stdin : List ℕ) (all : List (List ℕ))
      → C.marshal_prove j ≡ some b
      → j.abi_version ≡ abi_version
      → Encodes C j.guest_binary_base64 guest
      → Encodes C j.stdin_base64 stdin
      → AllEncode C j.assumptions_base64 all
      → handle_prove Z W b
        ≡ sent
            (parse_prove_receipt_kind Z W j.receipt_kind >>= (λ kind.
              map_err error_from_host (core_prove Z guest stdin all j.verify_receipt kind)))
            (wire_prove C)
  unfolding handle_prove parse_request
  handle_prove_lem j b guest stdin all em ev eg es ea =
      rw
        (
          wire.parse_prove_lem j b em ev,
          validate_abi-current j.abi_version ev,
          decode_field-Encodes "guest_binary_base64" j.guest_binary_base64 guest eg,
          decode_field-Encodes "stdin_base64" j.stdin_base64 stdin es,
          decode_fields-AllEncode 0 "assumptions_base64" j.assumptions_base64 all ea,
        )
        (proved (parse_prove_receipt_kind Z W j.receipt_kind))
    where
      proved :
          (o : Handled ProveReceiptKind)
          → (o >>= (λ kind.
              sent
                (map_err error_from_host (core_prove Z guest stdin all j.verify_receipt kind))
                (λ r. record (wire_prove C r) {
                  journal_base64 = W.base64_encode r.journal;
                  receipt_base64 = W.base64_encode r.receipt;
                })))
            ≡ sent
                (o >>= (λ kind.
                  map_err error_from_host (core_prove Z guest stdin all j.verify_receipt kind)))
                (wire_prove C)
      proved (ok kind) =
          sent-ap (map_err error_from_host (core_prove Z guest stdin all j.verify_receipt kind)) _
            (wire_prove C)
            (λ r.
              ap₂ (λ t u. record (wire_prove C r) { journal_base64 = t; receipt_base64 = u })
                (wire.encode_lem r.journal) (wire.encode_lem r.receipt))
      proved (err e) = refl
      proved (unwound m) = refl

  expected_of-Expects :
      (j : VerifyJsonRequest) (expected : Option (List ℕ))
      → Expects C j expected
      → expected_of Z W j.expected_journal_present j.expected_journal_base64 ≡ ok expected
  unfolding expected_of
  expected_of-Expects j none e = rw e refl
  expected_of-Expects j (some journal) (e, t) =
      rw (e, decode_field-Encodes "expected_journal_base64" j.expected_journal_base64 journal t)
        refl

  pub handle_verify_lem :
      (j : VerifyJsonRequest) (b receipt : List ℕ) (expected : Option (List ℕ))
      → C.marshal_verify j ≡ some b
      → j.abi_version ≡ abi_version
      → Encodes C j.receipt_base64 receipt
      → Expects C j expected
      → handle_verify Z W b
        ≡ sent (map_err error_from_host (core_verify Z receipt j.image_id expected)) (wire_verify C)
  unfolding handle_verify parse_request
  handle_verify_lem j b receipt expected em ev er ee =
      rw
        (
          wire.parse_verify_lem j b em ev,
          validate_abi-current j.abi_version ev,
          decode_field-Encodes "receipt_base64" j.receipt_base64 receipt er,
          expected_of-Expects j expected ee,
        )
        (sent-ap (map_err error_from_host (core_verify Z receipt j.image_id expected)) _
          (wire_verify C)
          (λ r.
            ap (λ t. record (wire_verify C r) { journal_base64 = t }) (wire.encode_lem r.journal)))

-- The counts of the results fit the integers of the messages.
module _ (Z : Zkvm) where
  pub core_execute-fits :
      (guest stdin : List ℕ) (all : List (List ℕ)) (r : ExecuteResult)
      → map_err error_from_host (core_execute Z guest stdin all) ≡ ok r
      → (r.segment_count < 2 ^ 32) × (r.session_rows < 2 ^ 64)
  unfolding core_execute
  core_execute-fits guest stdin all r e =
      Values-ok (λ r. (r.segment_count < 2 ^ 32) × (r.session_rows < 2 ^ 64)) _ r
        (Values-map_err _ error_from_host (core_execute Z guest stdin all) (
          Values-bind _ (compute_image_id_hex Z guest) _ (λ image_id.
            Values-bind _ (build_env_with_assumptions Z stdin all) _ (λ env.
              Values-bind _ (map_err execute_failed (Z.execute env guest)) _
                (λ session. (omega arith, omega arith))))))
        e

  pub core_prove-fits :
      (guest stdin : List ℕ) (all : List (List ℕ)) (self_verify : Bool) (kind : ProveReceiptKind)
      (r : ProveResult)
      → map_err error_from_host (core_prove Z guest stdin all self_verify kind) ≡ ok r
      → r.seal_bytes < 2 ^ 64
  unfolding core_prove
  core_prove-fits guest stdin all self_verify kind r e =
      Values-ok (λ r. r.seal_bytes < 2 ^ 64) _ r
        (Values-map_err _ error_from_host (core_prove Z guest stdin all self_verify kind) (
          Values-bind _ (map_err invalid_guest_binary (Z.compute_image_id guest)) _ (λ image_id.
            Values-bind _ (build_env_with_assumptions Z stdin all) _ (λ env.
              Values-bind _ (map_err prove_failed (Z.prove_with_opts env guest kind)) _ (λ receipt.
                Values-then _ (self_check Z self_verify receipt image_id) _ (
                  Values-bind _
                    (map_err (λ m. internal (String.◌++◌ "serialize receipt: " m))
                      (Z.receipt_to_vec receipt))
                    _ (λ bytes. omega arith)))))))
        e

  pub core_verify-fits :
      (receipt : List ℕ) (image_id : String) (expected : Option (List ℕ)) (r : VerifyResult)
      → map_err error_from_host (core_verify Z receipt image_id expected) ≡ ok r
      → r.seal_bytes < 2 ^ 64
  unfolding core_verify
  core_verify-fits receipt image_id expected r e =
      Values-ok (λ r. r.seal_bytes < 2 ^ 64) _ r
        (Values-map_err _ error_from_host (core_verify Z receipt image_id expected) (
          Values-bind _ (map_err invalid_image_id (Z.digest_from_hex image_id)) _ (λ digest.
            Values-bind _ (map_err invalid_receipt (Z.receipt_from_slice receipt)) _ (λ parsed.
              Values-then _ (map_err verify_failed (Z.receipt_verify parsed digest)) _ (
                Values-then _ (check_journal Z expected (Z.receipt_journal parsed)) _
                  (omega arith))))))
        e
