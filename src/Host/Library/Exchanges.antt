-- ===== src/Host/Library/Exchanges.antt =====
-- The four operations of a client as exchanges: whatever the size of the response.
use go_zkvm.Base.{ℕ, ◌⊎◌, ◌≡◌, refl, ◌∙◌, String}
use go_zkvm.Base.{Option, none, some, List, length}
use go_zkvm.Host.Loader.{Linker, Loader}
use go_zkvm.Host.Messages.{ExecuteRequest, ProveRequest, VerifyRequest}
use go_zkvm.Host.Messages.{receipt_kind_composite, receipt_kind_succinct}
use go_zkvm.Host.Options.{RunOption, default_run_config, apply_run_options, settings}
use go_zkvm.Host.Ffi.{Foreign, returned, value, pure}
use go_zkvm.Host.Ffi.{ffi_call_compute_image_id, ffi_call_execute, ffi_call_prove}
use go_zkvm.Host.Ffi.{ffi_call_verify}
use go_zkvm.Host.Client.{Client}
use go_zkvm.Host.Calls.{Codec, log_run, image_id_request}
use go_zkvm.Host.Calls.{execute_request, prove_request, verify_request, expected_journal_base64}
use go_zkvm.Host.Calls.{
  read_execute, read_prove, read_verify, compute_image_id, execute, prove, verify,
}
use go_zkvm.Host.Library.{Service, IsCodec, wire_image_id}
use go_zkvm.Host.Library.{wire_execute, wire_prove, wire_verify, Expects, IsLibrary, IsReady, Fits}
use go_zkvm.Host.Library.Exchange.{
  answer_of, host_call_lem, Keeps, Keeps-before, then_run-Keeps, call_json-Exchanged,
}
use go_zkvm.Host.Library.Payloads.{
  encode_binary_list-AllEncode, valid_kind, read_execute-answer_of, read_prove-answer_of,
  read_verify-answer_of, read_image_id-answer_of, read_execute-Settles, read_prove-Settles,
  read_verify-Settles,
}

module _ {L : Linker} {F : Foreign L} {C : Codec} {S : Service} (lib : IsLibrary L F C S)
    (codec : IsCodec C) where
  pub log_run_lem :
      (logger : Option F.Logger) (op : String) (m n : ℕ) (s : Loader L)
      → (after : L.System) × (log_run F logger op m n s ≡ record s { system = after })
        × (lib.buffers after ≡ lib.buffers s.system)
  unfolding log_run
  log_run_lem none op m n s = (s.system, refl, refl)
  log_run_lem (some logger) op m n s =
      (F.info s.system logger op m n, refl, lib.info_lem s.system logger op m n)

  -- `execute` on whatever response, and on one below 2 GiB.
  pub execute-Exchanged :
      (c : Client) (req : ExecuteRequest) (opts : List (RunOption F.Logger)) (s : Loader L)
      → IsReady lib.name_of s
      → Keeps lib s (execute F C c req opts s)
        × (Fits F lib.name_of "go_zkvm_execute" C.marshal_execute (execute_request C req)
            → (after : L.System) × (execute F C c req opts s
                ≡ returned
                    (answer_of C.format "execute"
                      (λ r. r)
                      (S.execute req.guest_binary req.stdin req.assumptions))
                    (record s { system = after }))
              × (lib.buffers after ≡ lib.buffers s.system))
  unfolding execute execute_request ffi_call_execute
  execute-Exchanged c req opts s (_, (f, ef, named), _, _, free) =
      let cfg = apply_run_options opts default_run_config in
      let (b, eb, some_bytes) = codec.marshal_execute_lem (execute_request C req) in
      let (logged, el, same) =
        log_run_lem cfg.logger "execute" (length req.guest_binary) (length req.stdin) s in
      let s1 : Loader L = record s { system = logged } in
      let (keeps, answers) =
        call_json-Exchanged lib C.marshal_execute C.unmarshal_execute (wire_execute C) "execute"
          (ffi_call_execute F) (execute_request C req) b f s1
          (S.execute req.guest_binary req.stdin req.assumptions) free eb
          (host_call_lem lib s1 s.execute_ptr f b ef some_bytes)
          (lib.execute_lem logged f (execute_request C req) b req.guest_binary req.stdin
            req.assumptions named eb refl refl refl
            (encode_binary_list-AllEncode C codec req.assumptions)) in
      (
        rw el (
            Keeps-before lib s logged _ same
              (then_run-Keeps lib s1 _ (read_execute C) keeps (read_execute-Settles C))),
        λ fits.
            let (after, ran, back) = answers (fits logged f b named eb) in
            (
              after,
              rw (el, ran)
                  (read_execute-answer_of C codec (record s { system = after }) C.format "execute"
                    (S.execute req.guest_binary req.stdin req.assumptions)),
              back ∙ same,
            ),
      )

  -- `compute_image_id` on whatever response, and on one below 2 GiB.
  pub compute_image_id-Exchanged :
      (c : Client) (guest : List ℕ) (s : Loader L)
      → IsReady lib.name_of s
      → Keeps lib s (compute_image_id F C c guest s)
        × (Fits F lib.name_of "go_zkvm_compute_image_id" C.marshal_compute_image_id
              (image_id_request C guest)
            → (after : L.System) × (compute_image_id F C c guest s
                ≡ returned
                    (answer_of C.format "compute_image_id" (λ r. r) (S.compute_image_id guest))
                    (record s { system = after }))
              × (lib.buffers after ≡ lib.buffers s.system))
  unfolding compute_image_id image_id_request ffi_call_compute_image_id
  compute_image_id-Exchanged c guest s ((f, ef, named), _, _, _, free) =
      let (b, eb, some_bytes) = codec.marshal_compute_image_id_lem (image_id_request C guest) in
      let (keeps, answers) =
        call_json-Exchanged lib C.marshal_compute_image_id C.unmarshal_compute_image_id
          (wire_image_id C) "compute_image_id" (ffi_call_compute_image_id F)
          (image_id_request C guest) b f s (S.compute_image_id guest) free eb
          (host_call_lem lib s s.compute_image_id_ptr f b ef some_bytes)
          (lib.compute_image_id_lem s.system f (image_id_request C guest) b guest named eb refl
            refl) in
      (
        then_run-Keeps lib s _ (λ resp. pure resp.image_id) keeps
            (λ resp s1. (value resp.image_id, refl)),
        λ fits.
            let (after, ran, back) = answers (fits s.system f b named eb) in
            (
              after,
              rw ran (
                  read_image_id-answer_of C codec (record s { system = after }) C.format
                    "compute_image_id" (S.compute_image_id guest)),
              back,
            ),
      )

  -- `prove` on whatever response, and on one below 2 GiB.
  pub prove-Exchanged :
      (c : Client) (req : ProveRequest) (opts : List (RunOption F.Logger)) (s : Loader L)
      → IsReady lib.name_of s
      → ((settings opts).receipt_kind ≡ receipt_kind_composite)
        ⊎ ((settings opts).receipt_kind ≡ receipt_kind_succinct)
      → Keeps lib s (prove F C c req opts s)
        × (Fits F lib.name_of "go_zkvm_prove" C.marshal_prove (prove_request C req (settings opts))
            → (after : L.System) × (prove F C c req opts s
                ≡ returned
                    (answer_of C.format "prove"
                      (λ r. r)
                      (S.prove req.guest_binary req.stdin req.assumptions
                        (settings opts).receipt_self_verify
                        (settings opts).receipt_kind))
                    (record s { system = after }))
              × (lib.buffers after ≡ lib.buffers s.system))
  unfolding prove prove_request ffi_call_prove
  prove-Exchanged c req opts s (_, _, (f, ef, named), _, free) kind =
      let cfg = apply_run_options opts default_run_config in
      let j = prove_request C req cfg in
      let outcome =
        S.prove req.guest_binary req.stdin req.assumptions cfg.receipt_self_verify
          cfg.receipt_kind in
      let (b, eb, some_bytes) = codec.marshal_prove_lem j in
      let (logged, el, same) =
        log_run_lem cfg.logger "prove" (length req.guest_binary) (length req.stdin) s in
      let s1 : Loader L = record s { system = logged } in
      let (keeps, answers) =
        call_json-Exchanged lib C.marshal_prove C.unmarshal_prove (wire_prove C) "prove"
          (ffi_call_prove F) j b f s1 outcome free eb
          (host_call_lem lib s1 s.prove_ptr f b ef some_bytes)
          (lib.prove_lem logged f j b req.guest_binary req.stdin req.assumptions named eb refl refl
            refl (encode_binary_list-AllEncode C codec req.assumptions) kind) in
      (
        rw (el, valid_kind cfg.receipt_kind kind)
            (Keeps-before lib s logged _ same
              (then_run-Keeps lib s1 _ (read_prove C) keeps (read_prove-Settles C))),
        λ fits.
            let (after, ran, back) = answers (fits logged f b named eb) in
            (
              after,
              rw (el, valid_kind cfg.receipt_kind kind, ran)
                  (read_prove-answer_of C codec (record s { system = after }) C.format "prove"
                    outcome),
              back ∙ same,
            ),
      )

  -- The journal that a verification asks for goes over the boundary, nil apart from empty.
  verify_request-Expects :
      (req : VerifyRequest) (expected : Option (List ℕ))
      → req.expected_journal ≡ expected
      → Expects C (verify_request C req) expected
  unfolding verify_request expected_journal_base64
  verify_request-Expects req none e = rw e refl
  verify_request-Expects req (some b) e = rw e (refl, refl)

  -- `verify` on whatever response, and on one below 2 GiB.
  pub verify-Exchanged :
      (c : Client) (req : VerifyRequest) (s : Loader L)
      → IsReady lib.name_of s
      → Keeps lib s (verify F C c req s)
        × (Fits F lib.name_of "go_zkvm_verify" C.marshal_verify (verify_request C req)
            → (after : L.System) × (verify F C c req s
                ≡ returned
                    (answer_of C.format "verify"
                      (λ r. r)
                      (S.verify req.receipt req.image_id req.expected_journal))
                    (record s { system = after }))
              × (lib.buffers after ≡ lib.buffers s.system))
  unfolding verify verify_request ffi_call_verify
  verify-Exchanged c req s (_, _, _, (f, ef, named), free) =
      let j = verify_request C req in
      let outcome = S.verify req.receipt req.image_id req.expected_journal in
      let (b, eb, some_bytes) = codec.marshal_verify_lem j in
      let (keeps, answers) =
        call_json-Exchanged lib C.marshal_verify C.unmarshal_verify (wire_verify C) "verify"
          (ffi_call_verify F) j b f s outcome free eb
          (host_call_lem lib s s.verify_ptr f b ef some_bytes)
          (lib.verify_lem s.system f j b req.receipt req.expected_journal named eb refl refl
            (verify_request-Expects req req.expected_journal refl)) in
      (
        then_run-Keeps lib s _ (read_verify C) keeps (read_verify-Settles C),
        λ fits.
            let (after, ran, back) = answers (fits s.system f b named eb) in
            (
              after,
              rw ran (
                  read_verify-answer_of C codec (record s { system = after }) C.format "verify"
                    outcome),
              back,
            ),
      )
