-- ===== src/Host/Library/Ready.antt =====
-- From the loader to the operations: a first load that succeeds leaves every pointer in place.
use go_zkvm.Base.{◌≡◌, ◌≢◌, refl, sym, ap, ◌∙◌, String, Bool, true, false}
use go_zkvm.Base.{List, [], ◌∷◌, All, ◌==◌, Option, none, some, if◌then◌else◌}
use mathlib.Core.Path.{subst}
use mathlib.Core.Option.{none-ne-some}
use go_zkvm.Host.Loader.{Linker, Loader, is_null, same_text, abi_version, resolve_symbols}
use go_zkvm.Host.Loader.{missing_symbol, report_error, check_symbols, open_library, host_load}
use go_zkvm.Host.Loader.{
  call_version_ptr, loaded_abi_version, check_version, after_load, load_ffi_library,
}
use go_zkvm.Host.Loader.Runs.{IsFresh, same_text_refl, load-cases, decided}
use go_zkvm.Host.Library.{Exports, IsReady}

-- The dynamic linker (dlopen(3), dlsym(3), dlerror(3)): a library that cannot be opened leaves an error for
-- `dlerror`, and a symbol's pointer stands for the symbol.
pub record IsLinker (L : Linker) (name_of : L.Pointer → String) : Type 0 where
  pub dlopen-dlerror :
      (s : L.System) (path : String)
      → (L.dlopen s path).0 ≡ none
      → (L.dlerror (L.dlopen s path).1).0 ≢ none
  pub dlsym-name :
      (s : L.System) (h : L.Handle) (name : String) (f : L.Pointer)
      → (L.dlsym s h name).0 ≡ some f
      → name_of f ≡ name

abbrev pub symbols : List String
symbols =
    "go_zkvm_abi_version" ∷ "go_zkvm_compute_image_id" ∷ "go_zkvm_execute" ∷ "go_zkvm_prove"
    ∷ "go_zkvm_verify" ∷ "go_zkvm_free_buffer" ∷ []

-- The library at the path has the six functions of the interface.
abbrev pub IsComplete : (L : Linker) → String → Type 0
IsComplete L path =
    (s : L.System) (h : L.Handle)
    → (L.dlopen s path).0 ≡ some h
    → (t : L.System) → All (λ name. is_null (L.dlsym t h name).0 ≡ false) symbols

is_null-false : {A : Type 0} (o : Option A) → is_null o ≡ false → (a : A) × (o ≡ some a)
is_null-false none h = cc
is_null-false (some a) h = (a, refl)

module _ {L : Linker} {name_of : L.Pointer → String} (linker : IsLinker L name_of) where
  resolve_symbols-IsReady :
      (s : Loader L) (h : L.Handle)
      → ((t : L.System) → All (λ name. is_null (L.dlsym t h name).0 ≡ false) symbols)
      → (missing_symbol (resolve_symbols s h) ≡ false) × IsReady name_of (resolve_symbols s h)
  unfolding missing_symbol resolve_symbols
  resolve_symbols-IsReady s h complete = (
    rw
        (
          (complete s.system).0,
          (complete s1).1.0,
          (complete s2).1.1.0,
          (complete s3).1.1.1.0,
          (complete s4).1.1.1.1.0,
          (complete s5).1.1.1.1.1.0,
        )
        refl,
    (
      exported s1 "go_zkvm_compute_image_id" (complete s1).1.0,
      exported s2 "go_zkvm_execute" (complete s2).1.1.0,
      exported s3 "go_zkvm_prove" (complete s3).1.1.1.0,
      exported s4 "go_zkvm_verify" (complete s4).1.1.1.1.0,
      exported s5 "go_zkvm_free_buffer" (complete s5).1.1.1.1.1.0,
    ),
  )
    where
      s1 : L.System
      s1 = (L.dlsym s.system h "go_zkvm_abi_version").1

      s2 : L.System
      s2 = (L.dlsym s1 h "go_zkvm_compute_image_id").1

      s3 : L.System
      s3 = (L.dlsym s2 h "go_zkvm_execute").1

      s4 : L.System
      s4 = (L.dlsym s3 h "go_zkvm_prove").1

      s5 : L.System
      s5 = (L.dlsym s4 h "go_zkvm_verify").1

      exported :
          (t : L.System) (name : String)
          → is_null (L.dlsym t h name).0 ≡ false
          → Exports name_of (L.dlsym t h name).0 name
      exported t name e =
          let (f, ef) = is_null-false (L.dlsym t h name).0 e in
          (f, ef, linker.dlsym-name t h name f ef)

  -- With the six functions there is nothing to report.
  check_symbols-IsReady :
      (s s' : Loader L) (h : L.Handle)
      → ((t : L.System) → All (λ name. is_null (L.dlsym t h name).0 ≡ false) symbols)
      → check_symbols (resolve_symbols s h) ≡ (none, s')
      → IsReady name_of s'
  unfolding check_symbols
  check_symbols-IsReady s s' h complete e =
      let (there, ready) = resolve_symbols-IsReady s h complete in
      subst (IsReady name_of) (ap (λ r. r.1) (sym (tested false there) ∙ e)) ready
    where
      tested :
          (b : Bool)
          → missing_symbol (resolve_symbols s h) ≡ b
          → check_symbols (resolve_symbols s h)
            ≡ (if b then report_error (resolve_symbols s h) else (none, resolve_symbols s h))
      tested b eb =
          ap (λ t. if t then report_error (resolve_symbols s h) else (none, resolve_symbols s h)) eb

  open_library-IsReady :
      (s s' : Loader L) (path : String) (handle : Option L.Handle)
      → IsComplete L path
      → (L.dlopen s.system path).0 ≡ handle
      → open_library (record s { system = (L.dlopen s.system path).1 }) handle ≡ (none, s')
      → IsReady name_of s'
  unfolding open_library report_error
  open_library-IsReady s s' path none complete eh e =
      absurd (linker.dlopen-dlerror s.system path eh (ap (λ r. r.0) e))
  open_library-IsReady s s' path (some h) complete eh e =
      check_symbols-IsReady (record s { system = (L.dlopen s.system path).1; handle = some h }) s' h
        (complete s.system h eh) e

  call_version_ptr-IsReady :
      (s : Loader L) (p : Option L.Pointer) (path : String)
      → IsReady name_of s
      → IsReady name_of (record (call_version_ptr s p).1 { loaded_path = path })
  unfolding call_version_ptr
  call_version_ptr-IsReady s none path r = r
  call_version_ptr-IsReady s (some p) path r = r

  after_load-IsReady :
      (path : String) (r : Option String × Loader L) (s' : Loader L)
      → ((s1 : Loader L) → r ≡ (none, s1) → IsReady name_of s1)
      → after_load path r ≡ (none, s')
      → IsReady name_of s'
  unfolding after_load check_version loaded_abi_version
  after_load-IsReady path (some message, s) s' ready e =
      absurd (none-ne-some _ (ap (λ r. r.0) (sym e)))
  after_load-IsReady path (none, s) s' ready e =
      subst (IsReady name_of)
        (sym (
          decided ((loaded_abi_version s).0 == abi_version) _
            (record (loaded_abi_version s).1 { loaded_path = path }) _ s' e))
        (call_version_ptr-IsReady s s.abi_version_ptr path (ready s refl))

  -- With a dynamic linker that reports a library that it cannot open, and whose pointers stand for the
  -- symbols that were looked up, and when the library at the path has all six functions: the first load
  -- of a process, when it succeeds, has resolved every symbol that the operations call.
  pub load_ffi_library-IsReady :
      (s s' : Loader L) (path : String)
      → IsComplete L path
      → IsFresh s
      → load_ffi_library s path ≡ (none, s')
      → IsReady name_of s'
  unfolding host_load
  load_ffi_library-IsReady s s' path complete (unset, unrecorded) e =
      after_load-IsReady path (host_load s path) s'
        (λ s1 e1. open_library-IsReady s s1 path (L.dlopen s.system path).0 complete refl (
          sym (
            ap
              (λ b.
                if b
                then open_library (record s { system = (L.dlopen s.system path).1 })
                    (L.dlopen s.system path).0
                else (none, s))
              (ap is_null unset))
          ∙ e1))
        (sym (
            load-cases s s' path true _ (ap (λ t. same_text t "") unrecorded ∙ same_text_refl "")
              refl)
          ∙ e)
