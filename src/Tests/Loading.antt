-- ===== src/Tests/Loading.antt =====
-- A linker with two libraries, one of which lacks a symbol.
use go_zkvm.Base.{
  ℕ, ◌≡◌, ◌≢◌, refl, arith, String, ◌&&◌, [], ◌∷◌, Option, none, some, if◌then◌else◌,
}
use text.Mathlib.Text
use text.Mathlib.TextEquality.{eq_iff}
use go_zkvm.Host.Loader.{Linker, Loader, already_loaded, load_failed, same_text, resolve_symbols}
use go_zkvm.Host.Loader.{missing_symbol, report_error, check_symbols, open_library, host_load}
use go_zkvm.Host.Loader.{
  call_version_ptr, loaded_abi_version, check_version, after_load, load_ffi_library,
}
use go_zkvm.Host.Loader.Runs.{load-load, load-stale}
use go_zkvm.Host.Client.{Environment, Client, created, with_library_path, new_client}
use go_zkvm.Host.Client.{
  new_client-new_client, new_client_by, client_at, loaded_client, resolved_library_path,
}
use go_zkvm.Host.Client.{env_library_path, default_library_path, default_library_path_of}

abbrev toy_dlsym : ℕ → String → String → Option String × ℕ
toy_dlsym n library name =
    (if Text.◌==◌ library "old.so" && Text.◌==◌ name "go_zkvm_prove" then none else some name, n)

abbrev toy_linker : Linker
toy_linker = record {
  System = ℕ;
  Handle = String;
  Pointer = String;
  dlopen = λ n path. (some path, n);
  dlsym = toy_dlsym;
  dlerror = λ n. (some "undefined symbol", n);
  call_version = λ n f. (2, n);
}

abbrev fresh : Loader toy_linker
fresh = record {
  handle = none;
  abi_version_ptr = none;
  compute_image_id_ptr = none;
  execute_ptr = none;
  prove_ptr = none;
  verify_ptr = none;
  free_buffer_ptr = none;
  loaded_path = "";
  system = 0;
}

abbrev all_resolved : Loader toy_linker
all_resolved = record {
  handle = some "new.so";
  abi_version_ptr = some "go_zkvm_abi_version";
  compute_image_id_ptr = some "go_zkvm_compute_image_id";
  execute_ptr = some "go_zkvm_execute";
  prove_ptr = some "go_zkvm_prove";
  verify_ptr = some "go_zkvm_verify";
  free_buffer_ptr = some "go_zkvm_free_buffer";
  loaded_path = "new.so";
  system = 0;
}

load_new : load_ffi_library fresh "new.so" ≡ (none, all_resolved)
unfolding load_ffi_library after_load check_version loaded_abi_version call_version_ptr host_load
    open_library check_symbols missing_symbol report_error resolve_symbols same_text
load_new = refl

new_is_named : ◌≢◌ {A = String} "new.so" ""
new_is_named = ground (arith, eq_iff "new.so" "")

load-load_example : load_ffi_library all_resolved "old.so" ≡ (
  if same_text "new.so" "old.so" then none else some (already_loaded "new.so" "old.so"),
  all_resolved,
)
load-load_example = load-load fresh all_resolved "new.so" "old.so" new_is_named load_new

-- The first library lacks `go_zkvm_prove`.
abbrev half_loaded : Loader toy_linker
half_loaded = record all_resolved { handle = some "old.so"; prove_ptr = none; loaded_path = "" }

load_old :
    load_ffi_library fresh "old.so" ≡ (some (load_failed "old.so" "undefined symbol"), half_loaded)
unfolding load_ffi_library after_load check_version loaded_abi_version call_version_ptr host_load
    open_library check_symbols missing_symbol report_error resolve_symbols same_text
load_old = refl

load-stale_example :
    (g : Loader toy_linker) × (load_ffi_library half_loaded "new.so" ≡ (none, g))
    × (g.loaded_path ≡ "new.so")
    × (g.handle ≡ some "old.so")
load-stale_example =
    load-stale fresh half_loaded "old.so" "new.so" (load_failed "old.so" "undefined symbol")
      "old.so" "go_zkvm_abi_version" refl load_old refl refl refl

abbrev toy_environment : Environment
toy_environment = record {
  trim_space = λ s. s;
  lookup_env = λ name. some "new.so";
  caller_file = none;
  goos = "linux";
  dir = λ s. s;
  join = λ parts. "";
  clean = λ s. s;
}

abbrev new_path : Client
new_path = record { library_path = "new.so" }

-- Once through the environment variable and once through the option.
first_client : new_client toy_environment [] fresh ≡ (created new_path, all_resolved)
unfolding new_client new_client_by client_at loaded_client resolved_library_path env_library_path
    default_library_path default_library_path_of load_ffi_library after_load check_version
    loaded_abi_version call_version_ptr host_load open_library check_symbols missing_symbol
    report_error resolve_symbols same_text
first_client = refl

second_client :
    new_client toy_environment (with_library_path "new.so" ∷ []) all_resolved
    ≡ (created new_path, all_resolved)
unfolding with_library_path new_client new_client_by client_at loaded_client resolved_library_path
    env_library_path default_library_path default_library_path_of load_ffi_library after_load
    check_version loaded_abi_version call_version_ptr host_load open_library check_symbols
    missing_symbol report_error resolve_symbols same_text
second_client = refl

new_client-new_client_example :
    (new_path.library_path ≡ new_path.library_path) × (all_resolved ≡ all_resolved)
new_client-new_client_example =
    new_client-new_client toy_environment toy_environment [] (with_library_path "new.so" ∷ []) fresh
      all_resolved all_resolved new_path new_path first_client second_client
