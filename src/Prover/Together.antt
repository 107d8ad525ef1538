-- ===== src/Prover/Together.antt =====
-- The Go side and the Rust crates together.
use go_zkvm.Base.{◌≡◌, refl, ap, true, List, ◌⊎◌}
use go_zkvm.Host.Loader.{Loader}
use go_zkvm.Host.Messages.{ProveRequest, ProveResult, receipt_kind_composite, receipt_kind_succinct}
use go_zkvm.Host.Messages.{ExecuteRequest}
use go_zkvm.Host.Loader.Runs.{IsFresh}
use go_zkvm.Host.Client.{Environment, ClientOption, created, new_client}
use go_zkvm.Host.Calls.{execute}
use go_zkvm.Host.Library.Exchange.{answer_of}
use go_zkvm.Host.Library.Ready.{IsLinker, IsComplete}
use go_zkvm.Host.Process.{Reach, execute_after-New}
use go_zkvm.Prover.Core.{core_execute}
use go_zkvm.Host.Options.{RunOption, settings}
use go_zkvm.Host.Ffi.{value, returned}
use go_zkvm.Host.Client.{Client}
use go_zkvm.Host.Calls.{Codec, prove, verify}
use go_zkvm.Host.Library.{IsCodec, IsReady, wire_execute, wire_prove, wire_verify}
use go_zkvm.Host.Library.RoundTrip.{check_of, verify-prove}
use go_zkvm.Prover.Outcome.{ok, map_err}
use go_zkvm.Prover.Core.{Zkvm, ProveReceiptKind, core_prove}
use go_zkvm.Prover.Boundary.{Serde, error_from_host, parse_prove_receipt_kind}
use go_zkvm.Prover.Crate.{Heap, Host, crate_linker, crate_foreign, served, IsWire, Below}
use go_zkvm.Prover.Crate.{block_sizes}
use go_zkvm.Prover.Receipts.{IsFaithful, accepted_result, core_verify-core_prove}
use go_zkvm.Prover.Instance.{crate-IsLibrary}
use go_zkvm.Prover.Responses.{execute-Fits, prove-Fits, verify-Fits}

module _ {C : Codec} {W : Serde} (codec : IsCodec C) (wire : IsWire C W) (H : Host) (Z : Zkvm)
    (faithful : IsFaithful Z) where
  -- On the Rust crate, loaded and ready, under the hypotheses that the JSON and base64 of both sides
  -- agree, and that borsh and hex read back what they wrote: when the receipt kind of the options is
  -- one that the crate parses and the self-check is on, and host-core proves the request, and the
  -- responses with its result and with what `Verify` makes of it are below 2 GiB, then `Prove` returns
  -- host-core's result and `Verify` of that result, its journal included, succeeds; the blocks that the
  -- crate holds afterwards are those that it held before.
  pub verify-prove_on_crate :
      (c c' : Client) (req : ProveRequest) (opts : List (RunOption H.Logger))
      (s : Loader (crate_linker H)) (kind : ProveReceiptKind) (r : ProveResult)
      → IsReady (crate-IsLibrary wire H Z).name_of s
      → ((settings opts).receipt_kind ≡ receipt_kind_composite)
        ⊎ ((settings opts).receipt_kind ≡ receipt_kind_succinct)
      → parse_prove_receipt_kind Z W (settings opts).receipt_kind ≡ ok kind
      → (settings opts).receipt_self_verify ≡ true
      → core_prove Z req.guest_binary req.stdin req.assumptions true kind ≡ ok r
      → Below W W.to_vec_prove (wire_prove C) (ok r)
      → Below W W.to_vec_verify (wire_verify C) (ok (accepted_result Z faithful r))
      → (s' s'' : Loader (crate_linker H)) × (prove (crate_foreign Z W H) C c req opts s
          ≡ returned (value r) s')
        × (verify (crate_foreign Z W H) C c' (check_of r) s'
            ≡ returned (value (accepted_result Z faithful r)) s'')
        × (block_sizes s''.system.1 ≡ block_sizes s.system.1)
  unfolding crate-IsLibrary
  verify-prove_on_crate c c' req opts s kind r ready valid parsed checked made short short' =
      verify-prove (crate-IsLibrary wire H Z) codec c c' req opts s r (accepted_result Z faithful r)
        ready valid (prove-Fits codec wire H Z req opts kind r parsed checked made short)
        (verify-Fits codec wire H Z faithful req kind r made short')
        (rw (parsed, checked, made) refl)
        (ap (λ o. served (map_err error_from_host o))
          (core_verify-core_prove Z faithful req.guest_binary req.stdin req.assumptions kind r
            made))

module _ {C : Codec} {W : Serde} (codec : IsCodec C) (wire : IsWire C W) (H : Host) (Z : Zkvm) where
  -- In a process that had loaded nothing before `New` loaded the Rust crate, under the hypotheses
  -- that the dynamic linker does what it documents, that the crate has all six functions under the
  -- client's path, that the JSON and base64 of both sides agree, and that the response to the request is
  -- below 2 GiB: after any sequence of `New` and of the operations `Execute`
  -- returns what host-core's `execute` gives on the same guest, input and assumptions, that is its
  -- result, or its error with the code and the message, or, when the prover panics, an internal
  -- error; and the crate holds the blocks that it held behind `New`.
  pub execute_on_crate :
      (linker : IsLinker (crate_linker H) (λ f. f)) (E : Environment) (opts : List ClientOption)
      (c c' : Client) (s s' t : Loader (crate_linker H)) (req : ExecuteRequest)
      (run_opts : List (RunOption H.Logger))
      → IsFresh s
      → IsComplete (crate_linker H) c.library_path
      → new_client E opts s ≡ (created c, s')
      → Reach (crate_foreign Z W H) C s' t
      → Below W W.to_vec_execute
          (wire_execute C)
          (map_err error_from_host (core_execute Z req.guest_binary req.stdin req.assumptions))
      → (after : H.State × Heap) × (execute (crate_foreign Z W H) C c' req run_opts t
          ≡ returned
              (answer_of C.format "execute"
                (λ r. r)
                (served (
                  map_err error_from_host
                    (core_execute Z req.guest_binary req.stdin req.assumptions))))
              (record t { system = after }))
        × (block_sizes after.1 ≡ block_sizes s'.system.1)
  unfolding crate-IsLibrary
  execute_on_crate linker E opts c c' s s' t req run_opts fresh complete made run short =
      execute_after-New (crate-IsLibrary wire H Z) codec linker E opts c c' s s' t req run_opts
        fresh complete made run (execute-Fits codec wire H Z req short)
