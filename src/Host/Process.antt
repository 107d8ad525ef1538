-- ===== src/Host/Process.antt =====
-- A process that uses the package host: any sequence of `New` and of the four operations, each taken as
-- one step. `loadMu` makes the load one step; the operations share no Go state.
use go_zkvm.Base.{ℕ, ◌≡◌, ◌≢◌, refl, sym, ap, ◌∙◌, String, List, Option, none, some, length}
use go_zkvm.Base.{◌⊎◌, inl, inr}
use mathlib.Core.Path.{subst}
use mathlib.Core.Option.{some-injective, none-ne-some}
use go_zkvm.Host.Loader.{Linker, Loader}
use go_zkvm.Host.Loader.Runs.{IsFresh, load-loaded_path, text_cases}
use go_zkvm.Host.Messages.{ExecuteRequest, ExecuteResult, ProveRequest, ProveResult, VerifyRequest}
use go_zkvm.Host.Messages.{VerifyResult, receipt_kind_composite, receipt_kind_succinct}
use go_zkvm.Host.Options.{RunConfig, RunOption, settings}
use go_zkvm.Host.Failure.{unsupported_receipt_kind}
use go_zkvm.Host.Ffi.{Foreign, Answer, failure, Run, returned}
use go_zkvm.Host.Client.{
  Environment, Client, ClientOption, created, new_client, new_client-created, new_client-recorded,
}
use go_zkvm.Host.Calls.{Codec, execute_request, compute_image_id, execute, prove, verify}
use go_zkvm.Host.Library.{Service, IsCodec, IsLibrary, IsReady, Fits}
use go_zkvm.Host.Library.Exchange.{answer_of, Keeps}
use go_zkvm.Host.Library.Operations.{execute-answer_of, prove_unsupported}
use go_zkvm.Host.Library.Exchanges.{
  execute-Exchanged, prove-Exchanged, compute_image_id-Exchanged, verify-Exchanged, log_run_lem,
}
use go_zkvm.Host.Library.Ready.{IsLinker, IsComplete, load_ffi_library-IsReady}

module _ {L : Linker} (F : Foreign L) (C : Codec) where
  -- What a thread of the process does next. An operation that panicked ends the process.
  pub data Step (s t : Loader L) : Type 0 where
    new_step : (E : Environment) (opts : List ClientOption) → t ≡ (new_client E opts s).1 → Step s t
    image_id_step :
        (c : Client) (guest : List ℕ) (r : Answer String)
        → compute_image_id F C c guest s ≡ returned r t
        → Step s t
    execute_step :
        (c : Client) (req : ExecuteRequest) (opts : List (RunOption F.Logger))
        (r : Answer ExecuteResult)
        → execute F C c req opts s ≡ returned r t
        → Step s t
    prove_step :
        (c : Client) (req : ProveRequest) (opts : List (RunOption F.Logger))
        (r : Answer ProveResult)
        → prove F C c req opts s ≡ returned r t
        → Step s t
    verify_step :
        (c : Client) (req : VerifyRequest) (r : Answer VerifyResult)
        → verify F C c req s ≡ returned r t
        → Step s t

  pub data Reach (s : Loader L) : Loader L → Type 0 where
    here : Reach s s
    next : {t u : Loader L} → Reach s t → Step t u → Reach s u

state_of : {St A : Type 0} → Run St A → Option St
state_of (returned r s) = some s
state_of Run.panicked = none

module _ {L : Linker} {F : Foreign L} {C : Codec} {S : Service} (lib : IsLibrary L F C S)
    (codec : IsCodec C) where
  -- The library is in place, its path is recorded, and these buffers are held.
  pub record Serves (path : String) (held : List (ℕ × ℕ)) (s : Loader L) : Type 0 where
    pub ready : IsReady lib.name_of s
    pub recorded : s.loaded_path ≡ path
    pub live : lib.buffers s.system ≡ held

  -- A run that is known returns the state that the step names.
  same_state :
      {A : Type 0} {run : Run (Loader L) A} {r r' : Answer A} {t u : Loader L}
      → run ≡ returned r t
      → run ≡ returned r' u
      → u ≡ t
  unfolding state_of
  same_state e e' = some-injective _ _ (ap state_of (sym e' ∙ e))

  operation-Serves :
      {A : Type 0} {run : Run (Loader L) A} {r : Answer A} (path : String) (held : List (ℕ × ℕ))
      (s t : Loader L)
      → Serves path held s
      → run ≡ returned r t
      → Keeps lib s run
      → Serves path held t
  unfolding state_of
  operation-Serves path held s t v e (inl panics) =
      absurd (none-ne-some _ (ap state_of (sym panics ∙ e)))
  operation-Serves path held s t v e (inr (r', after, e', same)) =
      subst (Serves path held) (same_state e e')
        (record { ready = v.ready; recorded = v.recorded; live = same ∙ v.live })

  -- A load, and `New`, find the path recorded.
  new_client-Serves :
      (E : Environment) (opts : List ClientOption) (path : String) (held : List (ℕ × ℕ))
      (s t : Loader L)
      → path ≢ ""
      → Serves path held s
      → t ≡ (new_client E opts s).1
      → Serves path held t
  new_client-Serves E opts path held s t full v e =
      subst (Serves path held) (sym (e ∙ new_client-recorded E opts s path full v.recorded)) v

  prove-Serves :
      (c : Client) (req : ProveRequest) (opts : List (RunOption F.Logger)) (r : Answer ProveResult)
      (path : String) (held : List (ℕ × ℕ)) (s t : Loader L)
      → Serves path held s
      → prove F C c req opts s ≡ returned r t
      → Serves path held t
  prove-Serves c req opts r path held s t v e =
      elim (text_cases cfg.receipt_kind receipt_kind_composite) [
        | inl composite ↦ served (inl composite)
        | inr other ↦ elim (text_cases cfg.receipt_kind receipt_kind_succinct) [
          | inl succinct ↦ served (inr succinct)
          | inr neither ↦
              let (after, logged, same) =
                log_run_lem lib codec cfg.logger "prove" (length req.guest_binary)
                  (length req.stdin) s in
              operation-Serves path held s t v e (
                inr (
                  failure (unsupported_receipt_kind cfg.receipt_kind),
                  after,
                  prove_unsupported F C c req opts s other neither
                      ∙ ap (returned (failure (unsupported_receipt_kind cfg.receipt_kind))) logged,
                  same,
                ))
        ]
      ]
    where
      cfg : RunConfig F.Logger
      cfg = settings opts

      served :
          (cfg.receipt_kind ≡ receipt_kind_composite) ⊎ (cfg.receipt_kind ≡ receipt_kind_succinct)
          → Serves path held t
      served kind =
          operation-Serves path held s t v e (prove-Exchanged lib codec c req opts s v.ready kind).0

  Step-Serves :
      (path : String) (held : List (ℕ × ℕ)) (s t : Loader L)
      → path ≢ ""
      → Serves path held s
      → Step F C s t
      → Serves path held t
  Step-Serves path held s t full v (new_step E opts e) =
      new_client-Serves E opts path held s t full v e
  Step-Serves path held s t full v (image_id_step c guest r e) =
      operation-Serves path held s t v e (compute_image_id-Exchanged lib codec c guest s v.ready).0
  Step-Serves path held s t full v (execute_step c req opts r e) =
      operation-Serves path held s t v e (execute-Exchanged lib codec c req opts s v.ready).0
  Step-Serves path held s t full v (prove_step c req opts r e) =
      prove-Serves c req opts r path held s t v e
  Step-Serves path held s t full v (verify_step c req r e) =
      operation-Serves path held s t v e (verify-Exchanged lib codec c req s v.ready).0

  pub Reach-Serves :
      (path : String) (held : List (ℕ × ℕ)) (s t : Loader L)
      → path ≢ ""
      → Serves path held s
      → Reach F C s t
      → Serves path held t
  Reach-Serves path held s t full v here = v
  Reach-Serves path held s t full v (next r step) =
      Step-Serves path held _ t full (Reach-Serves path held s _ full v r) step

  -- In a process that had loaded nothing before its first client was created, of a library that has all
  -- six functions and whose response to the request is below 2 GiB, after any sequence of
  -- `New` and of the operations `Execute` returns what the service returns on its request, and holds no
  -- buffer that was not held when the client was created.
  pub execute_after-New :
      (linker : IsLinker L lib.name_of) (E : Environment) (opts : List ClientOption) (c c' : Client)
      (s s' t : Loader L) (req : ExecuteRequest) (run_opts : List (RunOption F.Logger))
      → IsFresh s
      → IsComplete L c.library_path
      → new_client E opts s ≡ (created c, s')
      → Reach F C s' t
      → Fits F lib.name_of "go_zkvm_execute" C.marshal_execute (execute_request C req)
      → (after : L.System) × (execute F C c' req run_opts t
          ≡ returned
              (answer_of C.format "execute"
                (λ r. r)
                (S.execute req.guest_binary req.stdin req.assumptions))
              (record t { system = after }))
        × (lib.buffers after ≡ lib.buffers s'.system)
  execute_after-New linker E opts c c' s s' t req run_opts fresh complete made run fits =
      let (named, ok) = new_client-created E opts s s' c made in
      let first : Serves c.library_path (lib.buffers s'.system) s' = record {
        ready = load_ffi_library-IsReady linker s s' c.library_path complete fresh ok;
        recorded = load-loaded_path s s' c.library_path ok;
        live = refl;
      } in
      let v = Reach-Serves c.library_path (lib.buffers s'.system) s' t named first run in
      let (after, ran, same) = execute-answer_of lib codec c' req run_opts t v.ready fits in
      (after, ran, same ∙ v.live)
