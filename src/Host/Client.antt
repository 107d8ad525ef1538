-- ===== src/Host/Client.antt =====
-- host/types.go: `New`, its options, and the lookup of the library's path.
use go_zkvm.Base.{
  ◌≡◌, ◌≢◌, refl, sym, ap, ◌∙◌, String, Bool, true, false, not, Bool-cases, inl, inr,
}
use go_zkvm.Base.{List, [], ◌∷◌, ◌++◌, Option, none, some, if◌then◌else◌}
use mathlib.Core.Option.{none-ne-some, some-injective}
use mathlib.Core.Bool.{true≢false}
use go_zkvm.Host.Loader.{Linker, Loader, LoadError, same_text, load_ffi_library}
use go_zkvm.Host.Loader.Runs.{load-load, load-loaded_path, load-recorded, same_text_refl}

-- What `New` asks of the standard library and the process.
pub record Environment : Type 0 where
  pub trim_space : String → String
  pub lookup_env : String → Option String
  -- The file name that `runtime.Caller(0)` gives.
  pub caller_file : Option String
  pub goos : String
  pub dir : String → String
  pub join : List String → String
  pub clean : String → String

pub record ClientConfig : Type 0 where
  pub library_path : String

pub record Client : Type 0 where
  pub library_path : String

abbrev pub ClientOption : Type 0
ClientOption = ClientConfig → ClientConfig

unfoldable pub with_library_path : String → ClientOption
with_library_path path cfg = record cfg { library_path = path }

abbrev pub apply_options : List ClientOption → ClientConfig → ClientConfig
apply_options [] cfg = cfg
apply_options (opt ∷ opts) cfg = apply_options opts (opt cfg)

module _ (E : Environment) where
  -- `defaultLibraryPath`
  unfoldable pub default_library_path_of : Option String → String
  default_library_path_of none = ""
  default_library_path_of (some file) =
      let lib_name =
        if same_text E.goos "darwin" then "libgo_zkvm_host.dylib" else "libgo_zkvm_host.so" in
      E.clean (E.join (E.dir file ∷ ".." ∷ "host-ffi" ∷ "target" ∷ "release" ∷ lib_name ∷ []))

  unfoldable pub default_library_path : String
  unfolding default_library_path_of
  default_library_path = default_library_path_of E.caller_file

  abbrev is_blank : String → Bool
  is_blank s = same_text (E.trim_space s) ""

  -- The environment variable, then the default.
  unfoldable pub env_library_path : Option String → String
  env_library_path none = default_library_path
  env_library_path (some env_path) =
      if not (is_blank env_path) then env_path else default_library_path

  unfoldable pub resolved_library_path : String → String
  unfolding env_library_path
  resolved_library_path explicit_path =
      if not (is_blank explicit_path)
      then explicit_path
      else env_library_path (E.lookup_env "GO_ZKVM_HOST_LIBRARY_PATH")

-- What `New` returns; the error of the load is that of the build's `loadFFILibrary`.
pub data Created (Error : Type 0) : Type 0 where
  created : Client → Created Error
  empty_path : Created Error
  load_error : Error → Created Error

path_of : {Error : Type 0} → Created Error → Option String
path_of (created c) = some c.library_path
path_of empty_path = none
path_of (load_error e) = none

-- The path behind the options.
abbrev pub configured_path : Environment → List ClientOption → String
configured_path E opts =
    (apply_options opts (record { library_path = resolved_library_path E "" })).library_path

apply_options-with_library_path :
    (opts : List ClientOption) (path : String) (cfg : ClientConfig)
    → (apply_options (opts ++ (with_library_path path ∷ [])) cfg).library_path ≡ path
unfolding with_library_path
apply_options-with_library_path [] path cfg = refl
apply_options-with_library_path (opt ∷ opts) path cfg =
    apply_options-with_library_path opts path (opt cfg)

configured_path-with_library_path :
    (E : Environment) (opts : List ClientOption) (path : String)
    → configured_path E (opts ++ (with_library_path path ∷ [])) ≡ path
configured_path-with_library_path E opts path =
    apply_options-with_library_path opts path (record { library_path = resolved_library_path E "" })

-- `New` for a build whose `loadFFILibrary` is `load_library`.
module _ {St Error : Type 0} (load_library : St → String → Option Error × St) where
  -- `New` behind the load.
  unfoldable pub loaded_client : String → Option Error × St → Created Error × St
  loaded_client path (some e, s) = (load_error e, s)
  loaded_client path (none, s) = (created (record { library_path = path }), s)

  -- `New` behind its options.
  unfoldable pub client_at : St → String → Created Error × St
  unfolding loaded_client
  client_at s path =
      if same_text path "" then (empty_path, s) else loaded_client path (load_library s path)

  unfoldable pub new_client_by : Environment → List ClientOption → St → Created Error × St
  unfolding client_at
  new_client_by E opts s = client_at s (configured_path E opts)

  -- A load that changes nothing.
  loaded_client-same : (path : String) (r : Option Error × St) → (loaded_client path r).1 ≡ r.1
  unfolding loaded_client
  loaded_client-same path (none, s) = refl
  loaded_client-same path (some e, s) = refl

  client_at-empty : (s : St) → client_at s "" ≡ (empty_path, s)
  unfolding client_at
  client_at-empty s = rw (same_text_refl "") refl

  client_at-same : (s : St) (path : String) → (load_library s path).1 ≡ s → (client_at s path).1 ≡ s
  unfolding client_at
  client_at-same s path same = elim (Bool-cases (same_text path "")) [
    | inl empty ↦ rw empty refl
    | inr named ↦ rw named (loaded_client-same path (load_library s path) ∙ same)
  ]

  -- A client that was created has a path, and it is the one that was loaded.
  loaded_client-created :
      (path : String) (r : Option Error × St) (c : Client) (s' : St)
      → loaded_client path r ≡ (created c, s')
      → (c.library_path ≡ path) × (r ≡ (none, s'))
  unfolding loaded_client path_of
  loaded_client-created path (some e, s) c s' h = absurd (none-ne-some _ (ap (λ r. path_of r.0) h))
  loaded_client-created path (none, s) c s' h =
      (some-injective _ _ (sym (ap (λ r. path_of r.0) h)), ap (λ r. (none, r.1)) h)

  pub client_at-created :
      (s s' : St) (path : String) (c : Client)
      → client_at s path ≡ (created c, s')
      → (c.library_path ≡ path) × (path ≢ "") × (load_library s path ≡ (none, s'))
  unfolding client_at path_of
  client_at-created s s' path c h = elim (Bool-cases (same_text path "")) [
    | inl empty ↦ absurd (none-ne-some _ (ap (λ r. path_of r.0) (sym (tested true empty) ∙ h)))
    | inr named ↦
        let (same, ok) =
          loaded_client-created path (load_library s path) c s' (sym (tested false named) ∙ h) in
        (same, (λ e. true≢false (sym (ap (λ t. same_text t "") e ∙ same_text_refl "") ∙ named)), ok)
  ]
    where
      tested :
          (b : Bool)
          → same_text path "" ≡ b
          → client_at s path
            ≡ (if b then (empty_path, s) else loaded_client path (load_library s path))
      tested b e =
          ap (λ t. if t then (empty_path, s) else loaded_client path (load_library s path)) e

module _ {L : Linker} where
  unfoldable pub new_client :
      Environment → List ClientOption → Loader L → Created LoadError × Loader L
  unfolding new_client_by
  new_client E opts s = new_client_by load_ffi_library E opts s

  -- Behind a recorded path `New` changes nothing.
  pub new_client-recorded :
      (E : Environment) (opts : List ClientOption) (s : Loader L) (path : String)
      → path ≢ ""
      → s.loaded_path ≡ path
      → (new_client E opts s).1 ≡ s
  unfolding new_client new_client_by
  new_client-recorded E opts s path full e =
      client_at-same load_ffi_library s (configured_path E opts)
        (ap (λ r. r.1) (load-recorded s path (configured_path E opts) full e))

  -- A path that the last option sets is used as it is: no environment variable and no default stand
  -- in for it, not even for a blank path, and with an empty path `New` fails before any load.
  pub new_client-with_library_path :
      (E : Environment) (opts : List ClientOption) (path : String) (s : Loader L)
      → (new_client E (opts ++ (with_library_path path ∷ [])) s ≡ client_at load_ffi_library s path)
        × (new_client E (opts ++ (with_library_path "" ∷ [])) s ≡ (empty_path, s))
  unfolding new_client new_client_by
  new_client-with_library_path E opts path s = (
    ap (client_at load_ffi_library s) (configured_path-with_library_path E opts path),
    ap (client_at load_ffi_library s) (configured_path-with_library_path E opts "")
        ∙ client_at-empty load_ffi_library s,
  )

  -- A client that was created: its path, which was loaded.
  pub new_client-created :
      (E : Environment) (opts : List ClientOption) (s s' : Loader L) (c : Client)
      → new_client E opts s ≡ (created c, s')
      → (c.library_path ≢ "") × (load_ffi_library s c.library_path ≡ (none, s'))
  unfolding new_client
  new_client-created E opts s s' c h =
      let (same, named, ok) =
        client_at-created load_ffi_library s s' (configured_path E opts) c h in
      ((λ e. named (sym same ∙ e)), ap (load_ffi_library s) same ∙ ok)

  -- Whatever the environment and the options, the clients of one process share one library: a client
  -- that is created after another has the same path, and the loader does not change.
  pub new_client-new_client :
      (E E' : Environment) (opts opts' : List ClientOption) (s s' s'' : Loader L) (c c' : Client)
      → new_client E opts s ≡ (created c, s')
      → new_client E' opts' s' ≡ (created c', s'')
      → (c'.library_path ≡ c.library_path) × (s'' ≡ s')
  new_client-new_client E E' opts opts' s s' s'' c c' h h' =
      let (named, ok) = new_client-created E opts s s' c h in
      let (named', ok') = new_client-created E' opts' s' s'' c' h' in
      let second = sym (load-load s s' c.library_path c'.library_path named ok) ∙ ok' in
      (
        sym (load-loaded_path s' s'' c'.library_path ok')
            ∙ ap (λ t. t.loaded_path) (sym (ap (λ r. r.1) second))
            ∙ load-loaded_path s s' c.library_path ok,
        sym (ap (λ r. r.1) second),
      )
