-- ===== src/Prover/Responses.antt =====
-- How long the crate's responses to the requests of the Go side are.
use go_zkvm.Base.{◌≡◌, refl, ap, ◌∙◌, true, List, some}
use go_zkvm.Host.Loader.{same_text}
use go_zkvm.Host.Messages.{ExecuteRequest, ProveRequest, ProveResult}
use go_zkvm.Host.Options.{RunOption, settings}
use go_zkvm.Host.Calls.{Codec, execute_request, prove_request, verify_request}
use go_zkvm.Host.Calls.{expected_journal_base64}
use go_zkvm.Host.Library.{IsCodec, Fits, wire_execute, wire_prove, wire_verify}
use go_zkvm.Host.Library.Payloads.{encode_binary_list-AllEncode}
use go_zkvm.Host.Library.RoundTrip.{check_of}
use go_zkvm.Prover.Outcome.{ok, map_err, sent}
use go_zkvm.Prover.Core.{Zkvm, ProveReceiptKind, core_execute, core_prove}
use go_zkvm.Prover.Boundary.{Serde, error_from_host, parse_prove_receipt_kind}
use go_zkvm.Prover.Boundary.{handle_execute, handle_prove, handle_verify}
use go_zkvm.Prover.Crate.{Host, crate_foreign, exported, IsWire, Below}
use go_zkvm.Prover.Handlers.{handle_execute_lem, handle_prove_lem, handle_verify_lem}
use go_zkvm.Prover.Receipts.{IsFaithful, accepted_result, core_verify-core_prove}
use go_zkvm.Prover.Serves.{exported-Fits}

module _ {C : Codec} {W : Serde} (codec : IsCodec C) (wire : IsWire C W) (H : Host) (Z : Zkvm) where
  pub execute-Fits :
      (req : ExecuteRequest)
      → Below W W.to_vec_execute
          (wire_execute C)
          (map_err error_from_host (core_execute Z req.guest_binary req.stdin req.assumptions))
      → Fits
          (crate_foreign Z W H)
          (λ f. f)
          "go_zkvm_execute"
          C.marshal_execute
          (execute_request C req)
  unfolding exported same_text execute_request
  execute-Fits req small =
      exported-Fits wire H Z (wire_execute C) W.to_vec_execute (handle_execute Z W)
        (map_err error_from_host (core_execute Z req.guest_binary req.stdin req.assumptions))
        "go_zkvm_execute" C.marshal_execute (execute_request C req) (λ b. refl)
        (λ b em.
          handle_execute_lem wire Z (execute_request C req) b req.guest_binary req.stdin
            req.assumptions em refl refl refl
            (encode_binary_list-AllEncode C codec req.assumptions))
        small

  pub prove-Fits :
      (req : ProveRequest) (opts : List (RunOption H.Logger)) (kind : ProveReceiptKind)
      (r : ProveResult)
      → parse_prove_receipt_kind Z W (settings opts).receipt_kind ≡ ok kind
      → (settings opts).receipt_self_verify ≡ true
      → core_prove Z req.guest_binary req.stdin req.assumptions true kind ≡ ok r
      → Below W W.to_vec_prove (wire_prove C) (ok r)
      → Fits
          (crate_foreign Z W H)
          (λ f. f)
          "go_zkvm_prove"
          C.marshal_prove
          (prove_request C req (settings opts))
  unfolding exported same_text prove_request
  prove-Fits req opts kind r parsed checked made small =
      exported-Fits wire H Z (wire_prove C) W.to_vec_prove (handle_prove Z W) (ok r) "go_zkvm_prove"
        C.marshal_prove (prove_request C req (settings opts)) (λ b. refl)
        (λ b em.
          handle_prove_lem wire Z (prove_request C req (settings opts)) b req.guest_binary req.stdin
            req.assumptions em refl refl refl (encode_binary_list-AllEncode C codec req.assumptions)
          ∙ rw (parsed, checked, made) refl)
        small

  pub verify-Fits :
      (faithful : IsFaithful Z) (req : ProveRequest) (kind : ProveReceiptKind) (r : ProveResult)
      → core_prove Z req.guest_binary req.stdin req.assumptions true kind ≡ ok r
      → Below W W.to_vec_verify (wire_verify C) (ok (accepted_result Z faithful r))
      → Fits
          (crate_foreign Z W H)
          (λ f. f)
          "go_zkvm_verify"
          C.marshal_verify
          (verify_request C (check_of r))
  unfolding exported same_text verify_request expected_journal_base64
  verify-Fits faithful req kind r made small =
      exported-Fits wire H Z (wire_verify C) W.to_vec_verify (handle_verify Z W)
        (ok (accepted_result Z faithful r)) "go_zkvm_verify" C.marshal_verify
        (verify_request C (check_of r)) (λ b. refl)
        (λ b em.
          handle_verify_lem wire Z (verify_request C (check_of r)) b r.receipt (some r.journal) em
            refl refl (refl, refl)
          ∙ ap (λ o. sent (map_err error_from_host o) (wire_verify C))
              (core_verify-core_prove Z faithful req.guest_binary req.stdin req.assumptions kind r
                made))
        small
