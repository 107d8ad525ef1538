-- ===== src/Tests/Sessions.antt =====
-- Several calls in one process, and the wrappers that read a guest file, on the library of the tests.
use go_zkvm.Base.{ℕ, ◌≡◌, ◌≢◌, refl, String, inl, none, some, if◌then◌else◌}
use go_zkvm.Base.{List, [], ◌∷◌}
use text.Mathlib.Text
use go_zkvm.Host.Loader.{
  Loader, same_text, resolve_symbols, missing_symbol, report_error, check_symbols,
}
use go_zkvm.Host.Loader.{
  open_library, host_load, call_version_ptr, loaded_abi_version, check_version,
}
use go_zkvm.Host.Loader.{after_load, load_ffi_library}
use go_zkvm.Host.Failure.{host_error}
use go_zkvm.Host.Failure
use go_zkvm.Host.Ffi.{Decoded, decoded, undecodable, returned, value, failure, decode_error_body}
use go_zkvm.Host.Client.{Environment, created, with_library_path, new_client, new_client_by}
use go_zkvm.Host.Client.{client_at, loaded_client, resolved_library_path, env_library_path}
use go_zkvm.Host.Client.{
  default_library_path, default_library_path_of, empty_path, new_client-with_library_path,
}
use go_zkvm.Host.Calls.{
  execute, prove, verify, log_run, execute_request, encode_binary_list, encode_items,
}
use go_zkvm.Host.Calls.{read_execute}
use go_zkvm.Host.Ffi.{
  call_json, bytes_ptr, ffi_call_execute, host_call, copy_and_free, go_bytes, free_after,
}
use go_zkvm.Host.Ffi.{host_call_free_buffer, free_through, read_response}
use go_zkvm.Tests.Coding.{to_text, of_text, read_text}
use go_zkvm.Host.Files.{compute_image_id_file, execute_file, prove_file}
use go_zkvm.Host.Files.Runs.{with_client_unreadable, Gives, files-answer_of}
use go_zkvm.Host.Stub.{new_client_stub, new_client_stub-ne-created}
use go_zkvm.Host.Library.RoundTrip.{check_of, verify-prove}
use go_zkvm.Host.Process.{Reach, here, next, new_step, execute_step, execute_after-New}
use go_zkvm.Tests.Prover.{prover_linker, prover, prover_codec, executed, proved, verified}
use go_zkvm.Tests.Lawful.{prover_codec-IsCodec, prover-IsLibrary, prover-IsLinker}
use go_zkvm.Tests.Lawful.{prover-IsComplete, prover-Fits}
use go_zkvm.Host.Calls.{image_id_request, prove_request, verify_request}
use go_zkvm.Host.Options.{settings}
use go_zkvm.Tests.Proving.{fresh, ready, ready-IsReady, rust, run_request, proof_request}

-- The library's path comes from the environment.
abbrev pub rust_environment : Environment
rust_environment = record {
  trim_space = λ s. s;
  lookup_env = λ name. some "rust.so";
  caller_file = none;
  goos = "linux";
  dir = λ s. s;
  join = λ parts. "";
  clean = λ s. s;
}

abbrev guest_disk : String → Decoded (List ℕ)
guest_disk path =
    if Text.◌==◌ path "guest.bin" then decoded (1 ∷ 2 ∷ []) else undecodable "no such file"

made : new_client rust_environment [] fresh ≡ (created rust, ready)
unfolding new_client new_client_by client_at loaded_client resolved_library_path env_library_path
    default_library_path default_library_path_of load_ffi_library after_load check_version
    loaded_abi_version call_version_ptr host_load open_library check_symbols missing_symbol
    report_error resolve_symbols same_text
made = refl

files-answer_of_example :
    (Gives prover-IsLibrary prover_codec-IsCodec prover-IsLinker rust_environment guest_disk
      (compute_image_id_file prover prover_codec rust_environment guest_disk "guest.bin" fresh)
      (failure (
        host_error (record {
          op = "compute_image_id";
          code = "invalid_guest";
          message = "FFI call failed";
        })))
      ready)
    × (Gives prover-IsLibrary prover_codec-IsCodec prover-IsLinker rust_environment guest_disk
        (execute_file prover prover_codec rust_environment guest_disk "guest.bin" (5 ∷ []) [] fresh)
        (value (executed (5 ∷ [])))
        ready)
    × (Gives prover-IsLibrary prover_codec-IsCodec prover-IsLinker rust_environment guest_disk
        (prove_file prover prover_codec rust_environment guest_disk "guest.bin" (5 ∷ []) [] fresh)
        (value proved)
        ready)
unfolding decode_error_body same_text
files-answer_of_example =
    files-answer_of prover-IsLibrary prover_codec-IsCodec prover-IsLinker rust_environment
      guest_disk "guest.bin" (1 ∷ 2 ∷ []) (5 ∷ []) [] fresh ready rust (refl, refl)
      (prover-IsComplete "rust.so") refl made (inl refl)
      (prover-Fits "go_zkvm_compute_image_id" prover_codec.marshal_compute_image_id
        (image_id_request prover_codec (1 ∷ 2 ∷ [])))
      (prover-Fits "go_zkvm_execute" prover_codec.marshal_execute (
        execute_request prover_codec
          (record { guest_binary = 1 ∷ 2 ∷ []; stdin = 5 ∷ []; assumptions = [] })))
      (prover-Fits "go_zkvm_prove" prover_codec.marshal_prove (
        prove_request prover_codec {Logger = Unit {0}}
          (record { guest_binary = 1 ∷ 2 ∷ []; stdin = 5 ∷ []; assumptions = [] }) (settings [])))

checked_proof :
    (s s' : Loader prover_linker) × (prove prover prover_codec rust proof_request [] ready
      ≡ returned (value proved) s)
    × (verify prover prover_codec rust (check_of proved) s ≡ returned (value verified) s')
    × (prover-IsLibrary.buffers s'.system ≡ prover-IsLibrary.buffers ready.system)
unfolding prover-IsLibrary
checked_proof =
    verify-prove prover-IsLibrary prover_codec-IsCodec rust rust proof_request [] ready proved
      verified ready-IsReady (inl refl)
      (prover-Fits "go_zkvm_prove" prover_codec.marshal_prove
        (prove_request prover_codec {Logger = Unit {0}} proof_request (settings [])))
      (prover-Fits "go_zkvm_verify" prover_codec.marshal_verify
        (verify_request prover_codec (check_of proved)))
      refl refl

-- `New` once more, with another path.
again : ready ≡ (new_client rust_environment (with_library_path "other.so" ∷ []) ready).1
unfolding with_library_path new_client new_client_by client_at loaded_client resolved_library_path
    env_library_path default_library_path default_library_path_of load_ffi_library after_load
    check_version loaded_abi_version call_version_ptr host_load open_library check_symbols
    missing_symbol report_error resolve_symbols same_text
again = refl

-- And a run of a guest, whose response is given back.
ran :
    execute prover prover_codec rust run_request [] ready
    ≡ returned (value (executed (7 ∷ 8 ∷ []))) ready
unfolding execute log_run execute_request encode_binary_list encode_items call_json bytes_ptr
    ffi_call_execute host_call copy_and_free go_bytes free_after host_call_free_buffer free_through
    read_response read_execute to_text of_text read_text same_text
ran = refl

abbrev twice : Reach prover prover_codec ready ready
twice =
    next (next here (new_step rust_environment (with_library_path "other.so" ∷ []) again))
      (execute_step rust run_request [] (value (executed (7 ∷ 8 ∷ []))) ran)

run_after :
    (after : List (List ℕ)) × (execute prover prover_codec rust run_request [] ready
      ≡ returned (value (executed (7 ∷ 8 ∷ []))) (record ready { system = after }))
    × (prover-IsLibrary.buffers after ≡ prover-IsLibrary.buffers ready.system)
run_after =
    execute_after-New prover-IsLibrary prover_codec-IsCodec prover-IsLinker rust_environment [] rust
      rust fresh ready ready run_request [] (refl, refl) (prover-IsComplete "rust.so") made twice
      (prover-Fits "go_zkvm_execute" prover_codec.marshal_execute
        (execute_request prover_codec run_request))

new_client-with_library_path_example :
    (new_client rust_environment (with_library_path " " ∷ []) fresh
      ≡ client_at load_ffi_library fresh " ")
    × (new_client rust_environment (with_library_path "" ∷ []) fresh ≡ (empty_path, fresh))
new_client-with_library_path_example = new_client-with_library_path rust_environment [] " " fresh

unreadable :
    execute_file prover prover_codec rust_environment guest_disk "none.bin" [] [] fresh
    ≡ returned (failure (Failure.read_file "no such file")) fresh
unreadable =
    (with_client_unreadable prover prover_codec rust_environment guest_disk "none.bin"
      "no such file" [] [] fresh refl).1

no_client : new_client_stub {St = ℕ} rust_environment [] 0 ≢ (created rust, 0)
no_client = new_client_stub-ne-created rust_environment [] 0 0 rust
