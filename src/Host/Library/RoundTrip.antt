-- ===== src/Host/Library/RoundTrip.antt =====
-- A receipt's way through Go: from `Prove` to `Verify`.
use go_zkvm.Base.{◌≡◌, ap, ◌∙◌, List, some, ◌⊎◌}
use go_zkvm.Host.Loader.{Linker, Loader}
use go_zkvm.Host.Messages.{ProveRequest, ProveResult, VerifyRequest, VerifyResult}
use go_zkvm.Host.Messages.{receipt_kind_composite, receipt_kind_succinct}
use go_zkvm.Host.Options.{RunOption, settings}
use go_zkvm.Host.Ffi.{Foreign, value, returned}
use go_zkvm.Host.Client.{Client}
use go_zkvm.Host.Calls.{Codec, prove, verify, prove_request, verify_request}
use go_zkvm.Host.Library.{accepted, Service, IsCodec, IsLibrary, IsReady, Fits}
use go_zkvm.Host.Library.Exchange.{answer_of}
use go_zkvm.Host.Library.Operations.{prove-answer_of, verify-answer_of}

-- The request that checks a result of `Prove`, its journal included.
abbrev pub check_of : ProveResult → VerifyRequest
check_of r = record {
  receipt = r.receipt;
  image_id = r.image_id;
  expected_journal = some r.journal;
}

module _ {L : Linker} {F : Foreign L} {C : Codec} {S : Service} (lib : IsLibrary L F C S)
    (codec : IsCodec C) where
  -- On a library that is ready, with a receipt kind that is composite or succinct after the options,
  -- and with responses to the two requests below 2 GiB, when the service proves the request and
  -- verifies the receipt for the image ID and the journal that it gave, then `Prove` followed by
  -- `Verify` of what it returned succeeds with the service's results, and no buffer is held that was
  -- not held before.
  pub verify-prove :
      (c c' : Client) (req : ProveRequest) (opts : List (RunOption F.Logger)) (s : Loader L)
      (r : ProveResult) (v : VerifyResult)
      → IsReady lib.name_of s
      → ((settings opts).receipt_kind ≡ receipt_kind_composite)
        ⊎ ((settings opts).receipt_kind ≡ receipt_kind_succinct)
      → Fits F lib.name_of "go_zkvm_prove" C.marshal_prove (prove_request C req (settings opts))
      → Fits F lib.name_of "go_zkvm_verify" C.marshal_verify (verify_request C (check_of r))
      → S.prove req.guest_binary req.stdin req.assumptions
          (settings opts).receipt_self_verify
          (settings opts).receipt_kind
        ≡ accepted r
      → S.verify r.receipt r.image_id (some r.journal) ≡ accepted v
      → (s' s'' : Loader L) × (prove F C c req opts s ≡ returned (value r) s')
        × (verify F C c' (check_of r) s' ≡ returned (value v) s'')
        × (lib.buffers s''.system ≡ lib.buffers s.system)
  verify-prove c c' req opts s r v ready kind fits fits' proved verified =
      let (after, ran, same) = prove-answer_of lib codec c req opts s ready kind fits in
      let s1 : Loader L = record s { system = after } in
      let (after', ran', same') = verify-answer_of lib codec c' (check_of r) s1 ready fits' in
      (
        s1,
        record s1 { system = after' },
        ran ∙ ap (λ o. returned (answer_of C.format "prove" (λ r. r) o) s1) proved,
        ran'
            ∙ ap
                (λ o.
                  returned (answer_of C.format "verify" (λ r. r) o) (record s1 { system = after' }))
                verified,
        same' ∙ same,
      )
