-- ===== src/Host/Loader/Missing.antt =====
-- host/ffi_cgo.go: a library that lacks a symbol. `go_zkvm_host_load` reports it by what dlerror gives
-- after the last of the six lookups.
use go_zkvm.Base.{◌≡◌, refl, ap, ◌∙◌, String, true, Bool-cases}
use go_zkvm.Base.{inl, inr, none, some}
use go_zkvm.Host.Loader.{Linker, Loader, same_text, abi_version, resolve_symbols}
use go_zkvm.Host.Loader.{missing_symbol, report_error, check_symbols, open_library, host_load}
use go_zkvm.Host.Loader.{
  call_version_ptr, loaded_abi_version, check_version, after_load, load_ffi_library,
}
use go_zkvm.Host.Loader.Runs.{IsFresh, same_text_refl, load-cases}

module _ {L : Linker} (h : L.Handle) (version_ptr : L.Pointer) where
  -- The pointers of a library with a version and without go_zkvm_execute.
  abbrev Lacks : Loader L → Type 0
  Lacks s = (s.execute_ptr ≡ none) × (s.abi_version_ptr ≡ some version_ptr)

  check_symbols-none :
      (r : Loader L)
      → Lacks r
      → (L.dlerror r.system).0 ≡ none
      → (s' : Loader L) × (check_symbols r ≡ (none, s')) × Lacks s'
  unfolding check_symbols report_error
  check_symbols-none r lacks silent = elim (Bool-cases (missing_symbol r)) [
    | inl gone ↦ (record r { system = (L.dlerror r.system).1 }, rw (gone, silent) refl, lacks)
    | inr there ↦ (r, rw there refl, lacks)
  ]

  after_load-accepts :
      (s : Loader L) (path : String)
      → Lacks s
      → ((t : L.System) → (L.call_version t version_ptr).0 ≡ abi_version)
      → (s' : Loader L) × (after_load path (none, s) ≡ (none, s'))
        × (s'.execute_ptr ≡ none)
        × (s'.loaded_path ≡ path)
  unfolding after_load check_version loaded_abi_version call_version_ptr
  after_load-accepts s path (gone, versioned) current = (
    record s { loaded_path = path; system = (L.call_version s.system version_ptr).1 },
    rw (versioned, current s.system) refl,
    gone,
    refl,
  )

  -- A library without go_zkvm_execute, whose go_zkvm_abi_version gives the expected version, in a dynamic
  -- linker that has no error left after it found go_zkvm_free_buffer, the last symbol that is looked
  -- up (as in glibc, where a lookup that succeeds clears the error of an earlier one): the first load of
  -- a process succeeds and records the path, with a null pointer for go_zkvm_execute.
  pub load_ffi_library_lacking :
      (s : Loader L) (path : String)
      → IsFresh s
      → (L.dlopen s.system path).0 ≡ some h
      → ((t : L.System) → (L.dlsym t h "go_zkvm_abi_version").0 ≡ some version_ptr)
      → ((t : L.System) → (L.dlsym t h "go_zkvm_execute").0 ≡ none)
      → ((t : L.System) → (L.dlerror (L.dlsym t h "go_zkvm_free_buffer").1).0 ≡ none)
      → ((t : L.System) → (L.call_version t version_ptr).0 ≡ abi_version)
      → (s' : Loader L) × (load_ffi_library s path ≡ (none, s'))
        × (s'.execute_ptr ≡ none)
        × (s'.loaded_path ≡ path)
  unfolding host_load open_library resolve_symbols
  load_ffi_library_lacking s path (unset, unrecorded) opened versioned lacking cleared current =
      let o : Loader L = record s { system = (L.dlopen s.system path).1; handle = some h } in
      let (s1, e1, lacks) =
        check_symbols-none (resolve_symbols o h) (lacking _, versioned _) (cleared _) in
      let (s2, e2, gone, recorded) = after_load-accepts s1 path lacks current in
      let first : host_load s path ≡ check_symbols (resolve_symbols o h) =
        rw (unset, opened) refl in
      (
        s2,
        load-cases s s path true _ (ap (λ t. same_text t "") unrecorded ∙ same_text_refl "") refl
            ∙ ap (after_load path) (first ∙ e1)
            ∙ e2,
        gone,
        recorded,
      )
