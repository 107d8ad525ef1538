-- ===== src/Tests/Lacking.antt =====
-- A library that lacks a symbol, in a dynamic linker that keeps one error as dlerror(3) does.
use go_zkvm.Base.{◌≡◌, refl, String, Option, none, some, if◌then◌else◌}
use go_zkvm.Host.Loader.{Linker, Loader, same_text, load_ffi_library}
use go_zkvm.Host.Loader.Missing.{load_ffi_library_lacking}

-- The state is the pending error. A lookup sets or clears it, and `dlerror` gives it once.
abbrev forgetful : Linker
forgetful = record {
  System = Option String;
  Handle = String;
  Pointer = String;
  dlopen = λ pending path. (some path, none);
  dlsym = λ pending h name.
      if same_text name "go_zkvm_execute"
      then (none, some "undefined symbol: go_zkvm_execute")
      else (some name, none);
  dlerror = λ pending. (pending, none);
  call_version = λ pending f. (2, pending);
}

abbrev unloaded : Loader forgetful
unloaded = record {
  handle = none;
  abi_version_ptr = none;
  compute_image_id_ptr = none;
  execute_ptr = none;
  prove_ptr = none;
  verify_ptr = none;
  free_buffer_ptr = none;
  loaded_path = "";
  system = none;
}

load_ffi_library_lacking_example :
    (s' : Loader forgetful) × (load_ffi_library unloaded "old.so" ≡ (none, s'))
    × (s'.execute_ptr ≡ none)
    × (s'.loaded_path ≡ "old.so")
unfolding same_text
load_ffi_library_lacking_example =
    load_ffi_library_lacking "old.so" "go_zkvm_abi_version" unloaded "old.so" (refl, refl) refl
      (λ t. refl) (λ t. refl) (λ t. refl) (λ t. refl)
