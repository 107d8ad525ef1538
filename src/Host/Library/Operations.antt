-- ===== src/Host/Library/Operations.antt =====
-- The four operations of a client on a library that is ready: each is the service's, on plain bytes.
use go_zkvm.Base.{ℕ, ◌≢◌, ◌⊎◌, ◌≡◌, refl}
use go_zkvm.Base.{List, length}
use go_zkvm.Host.Loader.{Linker, Loader}
use go_zkvm.Host.Messages.{ExecuteRequest, ProveRequest, VerifyRequest}
use go_zkvm.Host.Loader.Runs.{same_text_ne}
use go_zkvm.Host.Messages.{receipt_kind_composite, receipt_kind_succinct}
use go_zkvm.Host.Failure.{unsupported_receipt_kind}
use go_zkvm.Host.Options.{RunOption, settings}
use go_zkvm.Host.Ffi.{Foreign, failure, returned}
use go_zkvm.Host.Client.{Client}
use go_zkvm.Host.Calls.{Codec, log_run, image_id_request}
use go_zkvm.Host.Calls.{execute_request, prove_request, verify_request}
use go_zkvm.Host.Calls.{is_valid_prove_receipt_kind, compute_image_id, execute, prove, verify}
use go_zkvm.Host.Library.{Service, IsCodec}
use go_zkvm.Host.Library.{IsLibrary, IsReady, Fits}
use go_zkvm.Host.Library.Exchange.{answer_of}
use go_zkvm.Host.Library.Exchanges.{
  execute-Exchanged, compute_image_id-Exchanged, prove-Exchanged, verify-Exchanged,
}

module _ {L : Linker} {F : Foreign L} {C : Codec} {S : Service} (lib : IsLibrary L F C S)
    (codec : IsCodec C) where
  -- On a library that serves a prover and is ready, with JSON and base64 that do not fail and a
  -- response to this request below 2 GiB, `Execute` returns what the prover returns on the same guest,
  -- input and assumptions, whatever the options, and every buffer that the library allocated is given
  -- back.
  pub execute-answer_of :
      (c : Client) (req : ExecuteRequest) (opts : List (RunOption F.Logger)) (s : Loader L)
      → IsReady lib.name_of s
      → Fits F lib.name_of "go_zkvm_execute" C.marshal_execute (execute_request C req)
      → (after : L.System) × (execute F C c req opts s
          ≡ returned
              (answer_of C.format "execute"
                (λ r. r)
                (S.execute req.guest_binary req.stdin req.assumptions))
              (record s { system = after }))
        × (lib.buffers after ≡ lib.buffers s.system)
  execute-answer_of c req opts s ready fits =
      (execute-Exchanged lib codec c req opts s ready).1 fits

  -- On a library that is ready, when its response to this request is below 2 GiB, `ComputeImageID`
  -- returns what the service returns on the same guest, and every buffer that the library allocated is
  -- given back.
  pub compute_image_id-answer_of :
      (c : Client) (guest : List ℕ) (s : Loader L)
      → IsReady lib.name_of s
      → Fits F lib.name_of "go_zkvm_compute_image_id" C.marshal_compute_image_id
          (image_id_request C guest)
      → (after : L.System) × (compute_image_id F C c guest s
          ≡ returned
              (answer_of C.format "compute_image_id" (λ r. r) (S.compute_image_id guest))
              (record s { system = after }))
        × (lib.buffers after ≡ lib.buffers s.system)
  compute_image_id-answer_of c guest s ready fits =
      (compute_image_id-Exchanged lib codec c guest s ready).1 fits

  -- On a library that serves a prover and is ready, with JSON and base64 that do not fail, a receipt
  -- kind that is composite or succinct after the options, and a response to this request below 2 GiB,
  -- `Prove` returns what the prover returns on the same guest, input, assumptions, self-check and kind,
  -- and every buffer that the library allocated is given back.
  pub prove-answer_of :
      (c : Client) (req : ProveRequest) (opts : List (RunOption F.Logger)) (s : Loader L)
      → IsReady lib.name_of s
      → ((settings opts).receipt_kind ≡ receipt_kind_composite)
        ⊎ ((settings opts).receipt_kind ≡ receipt_kind_succinct)
      → Fits F lib.name_of "go_zkvm_prove" C.marshal_prove (prove_request C req (settings opts))
      → (after : L.System) × (prove F C c req opts s
          ≡ returned
              (answer_of C.format "prove"
                (λ r. r)
                (S.prove req.guest_binary req.stdin req.assumptions
                  (settings opts).receipt_self_verify
                  (settings opts).receipt_kind))
              (record s { system = after }))
        × (lib.buffers after ≡ lib.buffers s.system)
  prove-answer_of c req opts s ready kind fits =
      (prove-Exchanged lib codec c req opts s ready kind).1 fits

  -- On a library that serves a prover and is ready, with JSON and base64 that do not fail and a
  -- response to this request below 2 GiB, `Verify` returns what the prover returns on the same receipt,
  -- image ID and expected journal, nil apart from empty; and every buffer that the library allocated is
  -- given back.
  pub verify-answer_of :
      (c : Client) (req : VerifyRequest) (s : Loader L)
      → IsReady lib.name_of s
      → Fits F lib.name_of "go_zkvm_verify" C.marshal_verify (verify_request C req)
      → (after : L.System) × (verify F C c req s
          ≡ returned
              (answer_of C.format "verify"
                (λ r. r)
                (S.verify req.receipt req.image_id req.expected_journal))
              (record s { system = after }))
        × (lib.buffers after ≡ lib.buffers s.system)
  verify-answer_of c req s ready fits = (verify-Exchanged lib codec c req s ready).1 fits

-- With any other receipt kind `Prove` fails before it calls the library: only the log has been written.
pub prove_unsupported :
    {L : Linker} (F : Foreign L) (C : Codec) (c : Client) (req : ProveRequest)
    (opts : List (RunOption F.Logger)) (s : Loader L)
    → (settings opts).receipt_kind ≢ receipt_kind_composite
    → (settings opts).receipt_kind ≢ receipt_kind_succinct
    → prove F C c req opts s
      ≡ returned
          (failure (unsupported_receipt_kind (settings opts).receipt_kind))
          (log_run F (settings opts).logger "prove" (length req.guest_binary) (length req.stdin) s)
unfolding prove is_valid_prove_receipt_kind
prove_unsupported F C c req opts s composite succinct =
    rw
      (
        same_text_ne _ receipt_kind_composite composite,
        same_text_ne _ receipt_kind_succinct succinct,
      )
      refl
