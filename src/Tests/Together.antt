-- ===== src/Tests/Together.antt =====
-- The Go side on the Rust crates of the tests.
use go_zkvm.Base.{ℕ, ◌≡◌, refl, sym, String, true, inl, none, some, [], ◌∷◌}
use mathlib.Core.Option.{some-ne-none, some-injective}
use go_zkvm.Host.Loader.{
  Loader, same_text, resolve_symbols, missing_symbol, report_error, check_symbols,
}
use go_zkvm.Host.Loader.{
  open_library, host_load, call_version_ptr, loaded_abi_version, check_version,
}
use go_zkvm.Host.Loader.{after_load, load_ffi_library}
use go_zkvm.Host.Messages.{ExecuteRequest, ProveRequest}
use go_zkvm.Host.Ffi.{value, returned}
use go_zkvm.Host.Client.{Client, created, new_client, new_client_by}
use go_zkvm.Host.Client.{client_at, loaded_client, resolved_library_path, env_library_path}
use go_zkvm.Host.Client.{default_library_path, default_library_path_of}
use go_zkvm.Host.Calls.{execute, prove, verify}
use go_zkvm.Host.Library.{IsReady}
use go_zkvm.Host.Library.Exchange.{answer_of}
use go_zkvm.Host.Library.Ready.{IsLinker, IsComplete}
use go_zkvm.Host.Library.RoundTrip.{check_of}
use go_zkvm.Host.Process.{here, next, new_step}
use go_zkvm.Prover.Outcome.{ok, map_err}
use go_zkvm.Prover.Core.{composite, core_execute}
use go_zkvm.Prover.Boundary.{error_from_host, parse_prove_receipt_kind}
use go_zkvm.Prover.Crate.{Heap, Host, crate_linker, crate_foreign, served, block_sizes}
use go_zkvm.Prover.Instance.{crate-IsLibrary}
use go_zkvm.Prover.Receipts.{accepted_result}
use go_zkvm.Prover.Together.{verify-prove_on_crate, execute_on_crate}
use go_zkvm.Tests.Crate.{toy_codec, toy_codec-IsCodec, toy_serde, toy-IsWire, toy_zkvm}
use go_zkvm.Tests.Crate.{toy_execute-small, toy_prove-small, toy_verify-small}
use go_zkvm.Tests.Crate.{toy-IsFaithful, toy_proof, toy_proved}
use go_zkvm.Tests.Sessions.{rust_environment}

abbrev process : Host
process = record {
  State = ℕ;
  Handle = String;
  dlopen = λ s path. (some path, s);
  dlsym = λ s handle name. (true, s);
  dlerror = λ s. (some "undefined symbol", s);
  Logger = Unit {0};
  info = λ s logger op m n. s;
  allocate = λ heap. 4096;
}

abbrev unloaded : Loader (crate_linker process)
unloaded = record {
  handle = none;
  abi_version_ptr = none;
  compute_image_id_ptr = none;
  execute_ptr = none;
  prove_ptr = none;
  verify_ptr = none;
  free_buffer_ptr = none;
  loaded_path = "";
  system = (0, []);
}

abbrev loaded : Loader (crate_linker process)
loaded = record {
  handle = some "rust.so";
  abi_version_ptr = some "go_zkvm_abi_version";
  compute_image_id_ptr = some "go_zkvm_compute_image_id";
  execute_ptr = some "go_zkvm_execute";
  prove_ptr = some "go_zkvm_prove";
  verify_ptr = some "go_zkvm_verify";
  free_buffer_ptr = some "go_zkvm_free_buffer";
  loaded_path = "rust.so";
  system = (0, []);
}

abbrev rust : Client
rust = record { library_path = "rust.so" }

process-IsLinker : IsLinker (crate_linker process) (λ f. f)
process-IsLinker = record {
  dlopen-dlerror = λ s path e silent. some-ne-none _ silent;
  dlsym-name = λ s h name f e. sym (some-injective _ _ e);
}

process-IsComplete : IsComplete (crate_linker process) "rust.so"
process-IsComplete s h e t = (refl, (refl, (refl, (refl, (refl, (refl, tt))))))

loaded-IsReady : IsReady (crate-IsLibrary toy-IsWire process toy_zkvm).name_of loaded
unfolding crate-IsLibrary
loaded-IsReady = (
  ("go_zkvm_compute_image_id", refl, refl),
  ("go_zkvm_execute", refl, refl),
  ("go_zkvm_prove", refl, refl),
  ("go_zkvm_verify", refl, refl),
  ("go_zkvm_free_buffer", refl, refl),
)

made : new_client rust_environment [] unloaded ≡ (created rust, loaded)
unfolding new_client new_client_by client_at loaded_client resolved_library_path env_library_path
    default_library_path default_library_path_of load_ffi_library after_load check_version
    loaded_abi_version call_version_ptr host_load open_library check_symbols missing_symbol
    report_error resolve_symbols same_text
made = refl

again : loaded ≡ (new_client rust_environment [] loaded).1
unfolding new_client new_client_by client_at loaded_client resolved_library_path env_library_path
    default_library_path default_library_path_of load_ffi_library after_load check_version
    loaded_abi_version call_version_ptr host_load open_library check_symbols missing_symbol
    report_error resolve_symbols same_text
again = refl

kind_parsed : parse_prove_receipt_kind toy_zkvm toy_serde "composite" ≡ ok composite
unfolding parse_prove_receipt_kind same_text
kind_parsed = refl

abbrev proof_request : ProveRequest
proof_request = record { guest_binary = 1 ∷ []; stdin = 2 ∷ []; assumptions = [] }

abbrev run_request : ExecuteRequest
run_request = record { guest_binary = 1 ∷ []; stdin = 2 ∷ []; assumptions = (5 ∷ []) ∷ [] }

verify-prove_on_crate_example :
    (s s' : Loader (crate_linker process)) × (prove
        (crate_foreign toy_zkvm toy_serde process)
        toy_codec
        rust
        proof_request
        []
        loaded
      ≡ returned (value toy_proof) s)
    × (verify (crate_foreign toy_zkvm toy_serde process) toy_codec rust (check_of toy_proof) s
        ≡ returned (value (accepted_result toy_zkvm toy-IsFaithful toy_proof)) s')
    × (block_sizes s'.system.1 ≡ block_sizes loaded.system.1)
verify-prove_on_crate_example =
    verify-prove_on_crate toy_codec-IsCodec toy-IsWire process toy_zkvm toy-IsFaithful rust rust
      proof_request [] loaded composite toy_proof loaded-IsReady (inl refl) kind_parsed refl
      toy_proved toy_prove-small toy_verify-small

execute_on_crate_example :
    (after : ℕ × Heap) × (execute
        (crate_foreign toy_zkvm toy_serde process)
        toy_codec
        rust
        run_request
        []
        loaded
      ≡ returned
          (answer_of toy_codec.format "execute"
            (λ r. r)
            (served
              (map_err error_from_host (core_execute toy_zkvm (1 ∷ []) (2 ∷ []) ((5 ∷ []) ∷ [])))))
          (record loaded { system = after }))
    × (block_sizes after.1 ≡ block_sizes loaded.system.1)
execute_on_crate_example =
    execute_on_crate toy_codec-IsCodec toy-IsWire process toy_zkvm process-IsLinker rust_environment
      [] rust rust unloaded loaded loaded run_request [] (refl, refl) process-IsComplete made
      (next here (new_step rust_environment [] again))
      (toy_execute-small (1 ∷ []) (2 ∷ []) ((5 ∷ []) ∷ []))
