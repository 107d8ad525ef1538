-- ===== src/Host/Loader/Runs.antt =====
-- What the loader is left with after a load, and what a second load does.
use go_zkvm.Base.{
  ◌≡◌, ◌≢◌, refl, sym, ap, ◌∙◌, String, Bool, true, false, Bool-cases, ◌⊎◌, inl, inr,
}
use go_zkvm.Base.{Option, none, some, ◌==◌, ==_iff, if◌then◌else◌, not}
use mathlib.Core.Path.{ap₂}
use mathlib.Core.Bool.{true≢false}
use text.Mathlib.TextEquality.{eq_iff}
use go_zkvm.Host.Loader.{Linker, Loader, LoadError, already_loaded, abi_mismatch, is_null}
use go_zkvm.Host.Loader.{same_text, abi_version, resolve_symbols, missing_symbol, report_error}
use go_zkvm.Host.Loader.{
  check_symbols, open_library, host_load, call_version_ptr, loaded_abi_version,
}
use go_zkvm.Host.Loader.{check_version, after_load, load_ffi_library}
use mathlib.Core.Option.{none-ne-some}

pub same_text-eq : (p q : String) → same_text p q ≡ true → p ≡ q
unfolding same_text
same_text-eq p q h = (eq_iff p q).0 h

pub same_text_refl : (p : String) → same_text p p ≡ true
unfolding same_text
same_text_refl p = (eq_iff p p).1 refl

pub same_text_ne : (p q : String) → p ≢ q → same_text p q ≡ false
same_text_ne p q ne = elim (Bool-cases (same_text p q)) [
  | inl same ↦ absurd (ne (same_text-eq p q same))
  | inr other ↦ other
]

pub text_cases : (p q : String) → (p ≡ q) ⊎ (p ≢ q)
unfolding same_text
text_cases p q = elim (Bool-cases (same_text p q)) [
  | inl same ↦ inl (same_text-eq p q same)
  | inr other ↦
      inr (λ e. true≢false (sym (same_text_refl q) ∙ ap (λ t. same_text t q) (sym e) ∙ other))
]

module _ {L : Linker} where
  -- Nothing is loaded or recorded.
  abbrev pub IsFresh : Loader L → Type 0
  IsFresh s = (s.handle ≡ none) × (s.loaded_path ≡ "")

  -- The version test decides.
  pub decided :
      (good : Bool) (bad : LoadError) (t u s' : Loader L)
      → ◌≡◌ {A = Option LoadError × Loader L} (if good then (none, t) else (some bad, u)) (none, s')
      → s' ≡ t
  decided true bad t u s' h = ap (λ r. r.1) (sym h)
  decided false bad t u s' h = absurd (none-ne-some bad (ap (λ r. r.0) (sym h)))

  check_version-loaded_path :
      (s s' : Loader L) (path : String) → check_version s path ≡ (none, s') → s'.loaded_path ≡ path
  unfolding check_version
  check_version-loaded_path s s' path h =
      ap (λ t. t.loaded_path)
        (decided ((loaded_abi_version s).0 == abi_version) _
          (record (loaded_abi_version s).1 { loaded_path = path }) _ s' h)

  after_load-loaded_path :
      (path : String) (r : Option String × Loader L) (s' : Loader L)
      → after_load path r ≡ (none, s')
      → s'.loaded_path ≡ path
  unfolding after_load
  after_load-loaded_path path (some message, s) s' h =
      absurd (none-ne-some _ (ap (λ r. r.0) (sym h)))
  after_load-loaded_path path (none, s) s' h = check_version-loaded_path s s' path h

  -- The two tests of the recorded path.
  pub load-cases :
      (s s' : Loader L) (path : String) (empty same : Bool)
      → same_text s.loaded_path "" ≡ empty
      → same_text s.loaded_path path ≡ same
      → load_ffi_library s path ≡ (
          if not empty
          then (if not same then (some (already_loaded s.loaded_path path), s) else (none, s))
          else after_load path (host_load s path))
  unfolding load_ffi_library
  load-cases s s' path empty same he hs =
      ap₂
        (λ b c.
          if not b
          then (if not c then (some (already_loaded s.loaded_path path), s) else (none, s))
          else after_load path (host_load s path))
        he hs

  pub load-loaded_path :
      (s s' : Loader L) (path : String)
      → load_ffi_library s path ≡ (none, s')
      → s'.loaded_path ≡ path
  load-loaded_path s s' path h = elim (Bool-cases (same_text s.loaded_path "")) [
    | inl empty ↦
        after_load-loaded_path path (host_load s path) s'
          (sym (load-cases s s' path true _ empty refl) ∙ h)
    | inr full ↦ elim (Bool-cases (same_text s.loaded_path path)) [
      | inl same ↦
          ap (λ r. r.1.loaded_path) (sym h ∙ load-cases s s' path false true full same)
          ∙ same_text-eq s.loaded_path path same
      | inr differs ↦
          absurd
            (none-ne-some _ (ap (λ r. r.0) (sym h ∙ load-cases s s' path false false full differs)))
    ]
  ]

  -- Behind a recorded path.
  pub load-recorded :
      (s : Loader L) (path other : String)
      → path ≢ ""
      → s.loaded_path ≡ path
      → load_ffi_library s other
        ≡ (if same_text path other then none else some (already_loaded path other), s)
  load-recorded s path other full e = elim (Bool-cases (same_text path other)) [
    | inl same ↦
        load-cases s s other false true named (ap (λ t. same_text t other) e ∙ same) ∙ rw same refl
    | inr differs ↦
        load-cases s s other false false named (ap (λ t. same_text t other) e ∙ differs)
        ∙ ap (λ t. (some (already_loaded t other), s)) e
        ∙ rw differs refl
  ]
    where
      named : same_text s.loaded_path "" ≡ false
      named = ap (λ t. same_text t "") e ∙ same_text_ne path "" full

  -- After a load that succeeded, a load of the same path succeeds, a load of another is refused, and
  -- neither changes the loader, provided that the path is not empty.
  pub load-load :
      (s s' : Loader L) (path other : String)
      → path ≢ ""
      → load_ffi_library s path ≡ (none, s')
      → load_ffi_library s' other
        ≡ (if same_text path other then none else some (already_loaded path other), s')
  load-load s s' path other full h = load-recorded s' path other full (load-loaded_path s s' path h)

  check_symbols-loaded_path : (s : Loader L) → (check_symbols s).1.loaded_path ≡ s.loaded_path
  unfolding check_symbols report_error
  check_symbols-loaded_path s = elim (Bool-cases (missing_symbol s)) [
    | inl gone ↦ rw gone refl
    | inr there ↦ rw there refl
  ]

  open_library-loaded_path :
      (s : Loader L) (handle : Option L.Handle)
      → (open_library s handle).1.loaded_path ≡ s.loaded_path
  unfolding open_library report_error resolve_symbols
  open_library-loaded_path s none = refl
  open_library-loaded_path s (some handle) =
      check_symbols-loaded_path (resolve_symbols (record s { handle = some handle }) handle)

  -- The C part leaves the recorded path alone.
  host_load-loaded_path :
      (s : Loader L) (path : String) → (host_load s path).1.loaded_path ≡ s.loaded_path
  unfolding host_load
  host_load-loaded_path s path = elim (Bool-cases (is_null s.handle)) [
    | inl null ↦ rw null (
        open_library-loaded_path (record s { system = (L.dlopen s.system path).1 })
          (L.dlopen s.system path).0)
    | inr set ↦ rw set refl
  ]

  decided_failed :
      (good : Bool) (bad e : LoadError) (t u s' : Loader L)
      → ◌≡◌ {A = Option LoadError × Loader L}
          (if good then (none, t) else (some bad, u))
          (some e, s')
      → s' ≡ u
  decided_failed true bad e t u s' h = absurd (none-ne-some e (ap (λ r. r.0) h))
  decided_failed false bad e t u s' h = ap (λ r. r.1) (sym h)

  call_version_ptr-same :
      (s : Loader L) (p : Option L.Pointer)
      → ((call_version_ptr s p).1.loaded_path ≡ s.loaded_path)
        × ((call_version_ptr s p).1.handle ≡ s.handle)
  unfolding call_version_ptr
  call_version_ptr-same s none = (refl, refl)
  call_version_ptr-same s (some p) = (refl, refl)

  after_load-failed :
      (path : String) (e : LoadError) (r : Option String × Loader L) (s' : Loader L)
      → after_load path r ≡ (some e, s')
      → s'.loaded_path ≡ r.1.loaded_path
  unfolding after_load check_version loaded_abi_version
  after_load-failed path e (some m, s) s' h = ap (λ r. r.1.loaded_path) (sym h)
  after_load-failed path e (none, s) s' h =
      ap (λ t. t.loaded_path)
        (decided_failed ((loaded_abi_version s).0 == abi_version) _ e
          (record (loaded_abi_version s).1 { loaded_path = path }) _ s' h)
      ∙ (call_version_ptr-same s s.abi_version_ptr).0

  -- A load that failed records no path.
  load-failed :
      (s s' : Loader L) (path : String) (e : LoadError)
      → s.loaded_path ≡ ""
      → load_ffi_library s path ≡ (some e, s')
      → s'.loaded_path ≡ ""
  load-failed s s' path e fresh h =
      after_load-failed path e (host_load s path) s' (
        sym (load-cases s s' path true _ (ap (λ t. same_text t "") fresh ∙ same_text_refl "") refl)
        ∙ h)
      ∙ host_load-loaded_path s path
      ∙ fresh

  host_load_again :
      (s : Loader L) (path : String) (h : L.Handle)
      → s.handle ≡ some h
      → host_load s path ≡ (none, s)
  unfolding host_load
  host_load_again s path h e =
      ap
        (λ b.
          if b
          then open_library (record s { system = (L.dlopen s.system path).1 })
              (L.dlopen s.system path).0
          else (none, s))
        (ap is_null e)

  -- While no path is recorded, take a load that failed and left the handle of the opened library set.
  -- When the version function that it resolved reports the expected version, the next load succeeds
  -- whatever its path, and records that path, although the library in use is the one that failed.
  pub load-stale :
      (s s' : Loader L) (path other : String) (e : LoadError) (h : L.Handle) (f : L.Pointer)
      → s.loaded_path ≡ ""
      → load_ffi_library s path ≡ (some e, s')
      → s'.handle ≡ some h
      → s'.abi_version_ptr ≡ some f
      → (L.call_version s'.system f).0 ≡ abi_version
      → (g : Loader L) × (load_ffi_library s' other ≡ (none, g))
        × (g.loaded_path ≡ other)
        × (g.handle ≡ some h)
  unfolding after_load check_version loaded_abi_version call_version_ptr
  load-stale s s' path other e h f fresh failed opened resolved version = (
    record (loaded_abi_version s').1 { loaded_path = other },
    load-cases s' s' other true _
          (ap (λ t. same_text t "") (load-failed s s' path e fresh failed) ∙ same_text_refl "") refl
        ∙ ap (after_load other) (host_load_again s' other h opened)
        ∙ ap
            (λ b.
              if b
              then (none, record (loaded_abi_version s').1 { loaded_path = other })
              else (some (abi_mismatch (loaded_abi_version s').0), (loaded_abi_version s').1))
            ((==_iff (loaded_abi_version s').0 abi_version).1
              (ap (λ o. (call_version_ptr s' o).0) resolved ∙ version)),
    refl,
    (call_version_ptr-same s' s'.abi_version_ptr).1 ∙ opened,
  )
