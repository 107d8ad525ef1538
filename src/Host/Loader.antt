-- ===== src/Host/Loader.antt =====
-- host/ffi_cgo.go: `go_zkvm_host_load`, `go_zkvm_host_loaded_abi_version` and `loadFFILibrary`.
pub mod Runs
pub mod Missing
use go_zkvm.Base.{ℕ, String, Bool, true, false, not, ◌||◌, Option, none, some, ◌==◌, if◌then◌else◌}
use text.Mathlib.Text

-- The dynamic linker, and a call of a resolved `go_zkvm_abi_version`. A null pointer is `none`.
pub record Linker : Type 1 where
  pub System : Type 0
  pub Handle : Type 0
  pub Pointer : Type 0
  pub dlopen : System → String → Option Handle × System
  pub dlsym : System → Handle → String → Option Pointer × System
  pub dlerror : System → Option String × System
  pub call_version : System → Pointer → ℕ × System

abbrev pub is_null : {A : Type 0} → Option A → Bool
is_null none = true
is_null (some a) = false

unfoldable pub same_text : String → String → Bool
same_text s t = Text.◌==◌ s t

abbrev pub abi_version : ℕ
abi_version = 2

module _ (L : Linker) where
  -- The static variables of the C part, `loadedPath` of the Go part, and the linker.
  pub record Loader : Type 0 where
    pub handle : Option L.Handle
    pub abi_version_ptr : Option L.Pointer
    pub compute_image_id_ptr : Option L.Pointer
    pub execute_ptr : Option L.Pointer
    pub prove_ptr : Option L.Pointer
    pub verify_ptr : Option L.Pointer
    pub free_buffer_ptr : Option L.Pointer
    pub loaded_path : String
    pub system : L.System

pub data LoadError : Type 0 where
  already_loaded : String → String → LoadError
  load_failed : String → String → LoadError
  abi_mismatch : ℕ → LoadError

module _ {L : Linker} where
  -- The six `dlsym` calls.
  unfoldable pub resolve_symbols : Loader L → L.Handle → Loader L
  resolve_symbols s handle =
      let (p1, s1) = L.dlsym s.system handle "go_zkvm_abi_version" in
      let (p2, s2) = L.dlsym s1 handle "go_zkvm_compute_image_id" in
      let (p3, s3) = L.dlsym s2 handle "go_zkvm_execute" in
      let (p4, s4) = L.dlsym s3 handle "go_zkvm_prove" in
      let (p5, s5) = L.dlsym s4 handle "go_zkvm_verify" in
      let (p6, s6) = L.dlsym s5 handle "go_zkvm_free_buffer" in
      record s {
        abi_version_ptr = p1;
        compute_image_id_ptr = p2;
        execute_ptr = p3;
        prove_ptr = p4;
        verify_ptr = p5;
        free_buffer_ptr = p6;
        system = s6;
      }

  -- Some pointer is null.
  unfoldable pub missing_symbol : Loader L → Bool
  missing_symbol s =
      is_null s.abi_version_ptr
      || is_null s.compute_image_id_ptr
      || is_null s.execute_ptr
      || is_null s.prove_ptr
      || is_null s.verify_ptr
      || is_null s.free_buffer_ptr

  unfoldable pub report_error : Loader L → Option String × Loader L
  report_error s =
      let (message, system) = L.dlerror s.system in (message, record s { system = system })

  unfoldable pub check_symbols : Loader L → Option String × Loader L
  unfolding missing_symbol report_error
  check_symbols s = if missing_symbol s then report_error s else (none, s)

  -- After `dlopen`.
  unfoldable pub open_library : Loader L → Option L.Handle → Option String × Loader L
  unfolding report_error resolve_symbols check_symbols
  open_library s none = report_error (record s { handle = none })
  open_library s (some handle) =
      check_symbols (resolve_symbols (record s { handle = some handle }) handle)

  -- `go_zkvm_host_load`: the error message, `none` for NULL.
  unfoldable pub host_load : Loader L → String → Option String × Loader L
  unfolding open_library
  host_load s path =
      if is_null s.handle
      then (let (handle, system) = L.dlopen s.system path in
          open_library (record s { system = system }) handle)
      else (none, s)

  -- `go_zkvm_host_loaded_abi_version` through its pointer.
  unfoldable pub call_version_ptr : Loader L → Option L.Pointer → ℕ × Loader L
  call_version_ptr s none = (0, s)
  call_version_ptr s (some p) =
      let (version, system) = L.call_version s.system p in (version, record s { system = system })

  unfoldable pub loaded_abi_version : Loader L → ℕ × Loader L
  unfolding call_version_ptr
  loaded_abi_version s = call_version_ptr s s.abi_version_ptr

  -- The rest of `loadFFILibrary` behind the load: `none` is success.
  unfoldable pub check_version : Loader L → String → Option LoadError × Loader L
  unfolding loaded_abi_version
  check_version s path =
      let (version, s') = loaded_abi_version s in
      if version == abi_version
      then (none, record s' { loaded_path = path })
      else (some (abi_mismatch version), s')

  unfoldable pub after_load : String → Option String × Loader L → Option LoadError × Loader L
  unfolding check_version
  after_load path (some message, s) = (some (load_failed path message), s)
  after_load path (none, s) = check_version s path

  -- `loadFFILibrary`, under its lock.
  unfoldable pub load_ffi_library : Loader L → String → Option LoadError × Loader L
  unfolding host_load after_load
  load_ffi_library s path =
      if not (same_text s.loaded_path "")
      then (if not (same_text s.loaded_path path)
          then (some (already_loaded s.loaded_path path), s)
          else (none, s))
      else after_load path (host_load s path)
