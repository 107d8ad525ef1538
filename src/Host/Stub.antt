-- ===== src/Host/Stub.antt =====
-- host/ffi_nocgo.go: the build without cgo, in which every operation gives the same error.
use go_zkvm.Base.{ℕ, ◌≢◌, ap, String, List, Option, some, ◌⊎◌, inl}
use mathlib.Core.Option.{some-ne-none}
use go_zkvm.Host.Messages.{ExecuteRequest, ExecuteResult, ProveRequest, ProveResult, VerifyRequest}
use go_zkvm.Host.Messages.{VerifyResult}
use go_zkvm.Host.Options.{RunOption}
use go_zkvm.Host.Client.{Environment, Client, ClientOption, Created, created, new_client_by}
use go_zkvm.Host.Client.{client_at-created}

abbrev pub requires_cgo : String
requires_cgo = "host: the FFI-backed host package requires cgo"

-- `loadFFILibrary` of this build.
unfoldable pub load_stub : {St : Type 0} → St → String → Option String × St
load_stub s path = (some requires_cgo, s)

unfoldable pub compute_image_id_stub : Client → List ℕ → String ⊎ String
compute_image_id_stub c guest = inl requires_cgo

unfoldable pub verify_stub : Client → VerifyRequest → String ⊎ VerifyResult
verify_stub c req = inl requires_cgo

module _ {Logger : Type 0} where
  unfoldable pub execute_stub :
      Client → ExecuteRequest → List (RunOption Logger) → String ⊎ ExecuteResult
  execute_stub c req opts = inl requires_cgo

  unfoldable pub prove_stub : Client → ProveRequest → List (RunOption Logger) → String ⊎ ProveResult
  prove_stub c req opts = inl requires_cgo

-- `New` of this build.
unfoldable pub new_client_stub :
    {St : Type 0} → Environment → List ClientOption → St → Created String × St
unfolding load_stub
new_client_stub E opts s = new_client_by load_stub E opts s

-- Without cgo `New` makes no client, whatever the environment and the options.
pub new_client_stub-ne-created :
    {St : Type 0} (E : Environment) (opts : List ClientOption) (s s' : St) (c : Client)
    → new_client_stub E opts s ≢ (created c, s')
unfolding new_client_stub new_client_by load_stub
new_client_stub-ne-created E opts s s' c h =
    some-ne-none _ (ap (λ r. r.0) (client_at-created load_stub s s' _ c h).2)
