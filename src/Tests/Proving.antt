-- ===== src/Tests/Proving.antt =====
-- The operations of a client on the library of the tests.
use go_zkvm.Base.{ℕ, ◌≡◌, ◌≢◌, refl, arith, String, inr, none, some}
use go_zkvm.Base.{List, [], ◌∷◌}
use text.Mathlib.TextEquality.{eq_iff}
use go_zkvm.Host.Loader.{
  Loader, same_text, resolve_symbols, missing_symbol, report_error, check_symbols,
}
use go_zkvm.Host.Loader.{
  open_library, host_load, call_version_ptr, loaded_abi_version, check_version,
}
use go_zkvm.Host.Loader.{after_load, load_ffi_library}
use go_zkvm.Host.Messages.{ExecuteRequest, ProveRequest, VerifyRequest, receipt_kind_succinct}
use go_zkvm.Host.Messages.{receipt_kind_groth16}
use go_zkvm.Host.Failure.{host_error, unsupported_receipt_kind}
use go_zkvm.Host.Options.{with_receipt_kind, with_logger}
use go_zkvm.Host.Ffi.{returned, value, failure, decode_error_body}
use go_zkvm.Host.Client.{Client}
use go_zkvm.Host.Calls.{compute_image_id, execute, prove, verify, log_run}
use go_zkvm.Host.Library.{IsReady}
use go_zkvm.Host.Library.Operations.{
  execute-answer_of, compute_image_id-answer_of, prove-answer_of, verify-answer_of,
  prove_unsupported,
}
use go_zkvm.Host.Library.Ready.{load_ffi_library-IsReady}
use go_zkvm.Tests.Prover.{prover_linker, prover, prover_codec, executed, proved, verified}
use go_zkvm.Tests.Lawful.{prover_codec-IsCodec, prover-IsLibrary, prover-IsLinker}
use go_zkvm.Tests.Lawful.{prover-IsComplete, prover-Fits}
use go_zkvm.Host.Calls.{execute_request, image_id_request, prove_request, verify_request}
use go_zkvm.Host.Options.{settings}

-- A buffer of somebody else's is held throughout.
abbrev pub fresh : Loader prover_linker
fresh = record {
  handle = none;
  abi_version_ptr = none;
  compute_image_id_ptr = none;
  execute_ptr = none;
  prove_ptr = none;
  verify_ptr = none;
  free_buffer_ptr = none;
  loaded_path = "";
  system = (9 ∷ []) ∷ [];
}

abbrev pub ready : Loader prover_linker
ready = record {
  handle = some "rust.so";
  abi_version_ptr = some "go_zkvm_abi_version";
  compute_image_id_ptr = some "go_zkvm_compute_image_id";
  execute_ptr = some "go_zkvm_execute";
  prove_ptr = some "go_zkvm_prove";
  verify_ptr = some "go_zkvm_verify";
  free_buffer_ptr = some "go_zkvm_free_buffer";
  loaded_path = "rust.so";
  system = (9 ∷ []) ∷ [];
}

pub load_rust : load_ffi_library fresh "rust.so" ≡ (none, ready)
unfolding load_ffi_library after_load check_version loaded_abi_version call_version_ptr host_load
    open_library check_symbols missing_symbol report_error resolve_symbols same_text
load_rust = refl

load_ffi_library-IsReady_example : IsReady prover-IsLibrary.name_of ready
load_ffi_library-IsReady_example =
    load_ffi_library-IsReady prover-IsLinker fresh ready "rust.so" (prover-IsComplete "rust.so")
      (refl, refl) load_rust

pub ready-IsReady : IsReady prover-IsLibrary.name_of ready
unfolding prover-IsLibrary
ready-IsReady = (
  ("go_zkvm_compute_image_id", refl, refl),
  ("go_zkvm_execute", refl, refl),
  ("go_zkvm_prove", refl, refl),
  ("go_zkvm_verify", refl, refl),
  ("go_zkvm_free_buffer", refl, refl),
)

abbrev pub rust : Client
rust = record { library_path = "rust.so" }

abbrev pub run_request : ExecuteRequest
run_request = record {
  guest_binary = 82 ∷ 48 ∷ 66 ∷ 70 ∷ [];
  stdin = 7 ∷ 8 ∷ [];
  assumptions = (1 ∷ []) ∷ [];
}

abbrev pub proof_request : ProveRequest
proof_request = record {
  guest_binary = 82 ∷ 48 ∷ 66 ∷ 70 ∷ [];
  stdin = 7 ∷ 8 ∷ [];
  assumptions = [];
}

abbrev pub check_request : VerifyRequest
check_request = record { receipt = 1 ∷ 2 ∷ 3 ∷ []; image_id = "aa"; expected_journal = some [] }

execute-answer_of_example :
    (after : List (List ℕ)) × (execute prover prover_codec rust run_request
        (with_logger (some tt) ∷ [])
        ready
      ≡ returned (value (executed (7 ∷ 8 ∷ []))) (record ready { system = after }))
    × (prover-IsLibrary.buffers after ≡ prover-IsLibrary.buffers ready.system)
execute-answer_of_example =
    execute-answer_of prover-IsLibrary prover_codec-IsCodec rust run_request
      (with_logger (some tt) ∷ []) ready ready-IsReady
      (prover-Fits "go_zkvm_execute" prover_codec.marshal_execute
        (execute_request prover_codec run_request))

refused_image_id :
    (after : List (List ℕ)) × (compute_image_id prover prover_codec rust (1 ∷ []) ready
      ≡ returned
          (failure (
            host_error (record {
              op = "compute_image_id";
              code = "invalid_guest";
              message = "FFI call failed";
            })))
          (record ready { system = after }))
    × (prover-IsLibrary.buffers after ≡ prover-IsLibrary.buffers ready.system)
unfolding decode_error_body same_text
refused_image_id =
    compute_image_id-answer_of prover-IsLibrary prover_codec-IsCodec rust (1 ∷ []) ready
      ready-IsReady
      (prover-Fits "go_zkvm_compute_image_id" prover_codec.marshal_compute_image_id
        (image_id_request prover_codec (1 ∷ [])))

prove-answer_of_example :
    (after : List (List ℕ)) × (prove prover prover_codec rust proof_request
        (with_receipt_kind receipt_kind_succinct ∷ [])
        ready
      ≡ returned (value proved) (record ready { system = after }))
    × (prover-IsLibrary.buffers after ≡ prover-IsLibrary.buffers ready.system)
unfolding with_receipt_kind
prove-answer_of_example =
    prove-answer_of prover-IsLibrary prover_codec-IsCodec rust proof_request
      (with_receipt_kind receipt_kind_succinct ∷ []) ready ready-IsReady (inr refl)
      (prover-Fits "go_zkvm_prove" prover_codec.marshal_prove (
        prove_request prover_codec {Logger = Unit {0}} proof_request
          (settings (with_receipt_kind receipt_kind_succinct ∷ []))))

verify-answer_of_example :
    (after : List (List ℕ)) × (verify prover prover_codec rust check_request ready
      ≡ returned (value verified) (record ready { system = after }))
    × (prover-IsLibrary.buffers after ≡ prover-IsLibrary.buffers ready.system)
verify-answer_of_example =
    verify-answer_of prover-IsLibrary prover_codec-IsCodec rust check_request ready ready-IsReady (
      prover-Fits "go_zkvm_verify" prover_codec.marshal_verify
        (verify_request prover_codec check_request))

groth16-ne-composite : ◌≢◌ {A = String} "groth16" "composite"
groth16-ne-composite = ground (arith, eq_iff "groth16" "composite")

groth16-ne-succinct : ◌≢◌ {A = String} "groth16" "succinct"
groth16-ne-succinct = ground (arith, eq_iff "groth16" "succinct")

groth16_unsupported :
    prove prover prover_codec rust proof_request (with_receipt_kind receipt_kind_groth16 ∷ []) ready
    ≡ returned
        (failure (unsupported_receipt_kind "groth16"))
        (log_run prover none "prove" 4 2 ready)
unfolding with_receipt_kind
groth16_unsupported =
    prove_unsupported prover prover_codec rust proof_request
      (with_receipt_kind receipt_kind_groth16 ∷ []) ready groth16-ne-composite groth16-ne-succinct
